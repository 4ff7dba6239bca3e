-- ===== src/Sock/Options/Tests.antt =====
-- Concrete options of sockets.
use oshm.Prelude.{
  ◌-◌, ◌*◌, ◌==◌, ◌^◌, ◌≡◌, refl, true, false, none, some, ℤ, pos, neg, negsuc, eperm, arith,
}
use oshm.Task.{TaskStruct}
use oshm.SocketAttrs
use oshm.SocketAttrs.{set_thread_socket_attrs}
use oshm.Sock.Options
use oshm.Sock.Options.{Sock, sk_set_peek_off}
use oshm.Sock.Options.Set
use oshm.Sock.Options.Set.{
  Answers, Value, sock_setsockopt, so_priority, so_peek_off, so_rcvlowat, so_sndbuf, so_txtime,
  so_timestamp,
}
use oshm.Sock.Options.Set.Refused.{Kept, sock_setsockopt-Kept}
use oshm.Sock.Options.Set.Limits.{Limited}
use oshm.Sock.Options.Set.Unprivileged.{sock_setsockopt-Limited}
use oshm.Sock.Options.Set.Stamps.{IsBalanced, sock_setsockopt-IsBalanced}
use oshm.Sock.Options.Get.{Others, number, get_option}
use oshm.Sock.Options.Clone
use oshm.Sock.Options.Clone.{Cloned, sk_clone_lock, sk_clone_lock-Cloned}
use oshm.Sock.Options.Priority.{Defaults, sock_init_data, sock_init_data-outranks}

abbrev plain : Sock
plain = record {
  sk_family = 2;
  sk_type = 1;
  sk_protocol = 6;
  sk_state = 7;
  flags = λ f. false;
  passcred = false;
  passsec = false;
  sk_reuse = false;
  sk_reuseport = false;
  sk_no_check_tx = false;
  sk_sndbuf = 16384;
  sk_rcvbuf = 131072;
  sk_userlocks = 0;
  sk_priority = 0;
  sk_mark = 0;
  sk_lingertime = 0;
  sk_rcvlowat = 1;
  sk_peek_off = negsuc 0;
  sk_rcvtimeo = 2 ^ 63 - 1;
  sk_sndtimeo = 2 ^ 63 - 1;
  sk_ll_usec = 0;
  sk_prefer_busy_poll = false;
  sk_busy_poll_budget = 8;
  pacing_needed = false;
  sk_max_pacing_rate = 2 ^ 64 - 1;
  sk_pacing_rate = 2 ^ 64 - 1;
  sk_clockid = pos 0;
  sk_txtime_deadline_mode = false;
  sk_txtime_report_errors = false;
  sk_bound_dev_if = 0;
  sk_tsflags = 0;
  sk_tskey = 0;
  sk_bind_phc = pos 0;
  netstamps = 0;
  dst_resets = 0;
  write_spaces = 0;
}

-- A user without privileges.
abbrev user : Answers
user = record {
  capable_net_admin = false;
  ns_net_admin = false;
  ns_net_raw = false;
  sysctl_wmem_max = 212992;
  sysctl_rmem_max = 212992;
  sock_min_sndbuf = 4608;
  sock_min_rcvbuf = 2304;
  sk_is_inet = true;
  set_rcvlowat = none;
  set_peek_off = none;
  filter = λ n. pos 0;
  snd_una = 5;
  phc_vclocks = λ i. none;
}

abbrev int_value : ℤ → Value
int_value n = record {
  optlen = 4;
  val = some n;
  ling = none;
  timestamping = none;
  timeval = none;
  ufd = none;
  ulval = none;
  txtime = none;
}

sock_setsockopt-Kept_example : Kept plain (sock_setsockopt user so_txtime (int_value (pos 1)) plain)
sock_setsockopt-Kept_example =
    sock_setsockopt-Kept user so_txtime (int_value (pos 1)) plain refl refl

sock_setsockopt-Limited_example :
    Limited user plain (sock_setsockopt user so_sndbuf (int_value (negsuc 0)) plain).1
sock_setsockopt-Limited_example =
    sock_setsockopt-Limited user so_sndbuf (int_value (negsuc 0)) plain refl refl refl

-- -1 asks for the largest buffer that the system allows.
largest_sndbuf : (sock_setsockopt user so_sndbuf (int_value (negsuc 0)) plain).1.sk_sndbuf ≡ 425984
unfolding sock_setsockopt Set.set_option Options.set_sndbuf
largest_sndbuf = refl

sock_setsockopt-IsBalanced_example :
    IsBalanced (sock_setsockopt user (so_timestamp true false) (int_value (pos 1)) plain).1
sock_setsockopt-IsBalanced_example =
    sock_setsockopt-IsBalanced user (so_timestamp true false) (int_value (pos 1)) plain refl

-- The storage of a socket with a flag of time stamps is not cloned.
abbrev no_storage : Clone.Answers
no_storage = record {
  sk_prot_alloc = true;
  filter_charged = true;
  xfrm_sk_clone_policy = false;
  bpf_sk_storage_clone = true;
}

abbrev stamping : Sock
stamping = record plain { flags = λ f. f == 7; netstamps = 1 }

sk_clone_lock-Cloned_example : Cloned no_storage stamping 1 (sk_clone_lock no_storage stamping 1)
sk_clone_lock-Cloned_example = sk_clone_lock-Cloned no_storage stamping 1

-- The parent still has the flag, and the network does not stamp any more.
loses_stamps : sk_clone_lock no_storage stamping 1 ≡ (none, 0)
unfolding sk_clone_lock Clone.sk_free_unlock_clone
loses_stamps = refl

abbrev task : TaskStruct
task = record {
  max_socket_allowed = pos 0;
  socket_count = pos 0;
  priority_level = pos 0;
  euid = 1000;
  uid = 1000;
  usage = 1;
}

abbrev tasks : SocketAttrs.World
tasks = record { tasks = λ a. task; current = 9; rcu = 0 }

abbrev defaults : Defaults
defaults = record { rmem = 212992; wmem = 212992; busy_read = 0 }

sock_init_data-outranks_example :
    let (r, w) = set_thread_socket_attrs (λ p. none) false (pos 0) (pos 3) (pos 90) 0 tasks in
    (r ≡ pos 0)
    × ((sock_init_data (w.tasks w.current) defaults (some 1) plain).sk_priority ≡ 90)
    × (sock_setsockopt user so_priority (int_value (pos 90)) plain ≡ (neg eperm, plain))
sock_init_data-outranks_example =
    sock_init_data-outranks (λ p. none) (pos 3) 90 tasks defaults (some 1) plain user
      (int_value (pos 90)) plain (omega arith) (omega arith) refl (omega arith) refl

abbrev others : Others
others = record { error = pos 0; has_peek_off = true; get_filter = pos 0; incoming_cpu = neg 1 }

-- The protocol raises the receive buffer with the low mark, as that of TCP does, past the limit of the system.
abbrev raises : Answers
raises = record user { set_rcvlowat = some (λ sk n. (pos 0, n, n * 2)) }

raised : (sock_setsockopt raises so_rcvlowat (int_value (pos 500000)) plain).1.sk_rcvbuf ≡ 1000000
unfolding sock_setsockopt Set.set_option Set.set_rcvlowat
raised = refl

-- A protocol with the offsets of `sk_set_peek_off`: what is set is read.
abbrev peeks : Answers
peeks = record user { set_peek_off = some sk_set_peek_off }

peeked :
    get_option others 4 so_peek_off (sock_setsockopt peeks so_peek_off (int_value (pos 7)) plain).1
    ≡ number (pos 7)
unfolding sock_setsockopt Set.set_option Set.set_peek_off sk_set_peek_off get_option
peeked = refl
