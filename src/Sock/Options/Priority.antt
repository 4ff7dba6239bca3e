-- ===== src/Sock/Options/Priority.antt =====
-- How a new socket gets its options (net/core/sock.c): `sock_init_data`, with the priority of the thread,
-- and what `sock_setsockopt` and `set_thread_socket_attrs` make of that priority.
use oshm.Prelude.{
  ℕ, ◌-◌, ◌^◌, ◌≤◌, ◌≡◌, true, false, ==_iff, ltb, leb, Option, none, some, if◌then◌else◌, ℤ, pos,
  negsuc, neg, ltb_ℤ, eperm, arith,
}
use oshm.Task.{TaskStruct}
use oshm.SocketAttrs.{set_thread_socket_attrs, check_and_set, may_set, set_attrs}
use oshm.SocketAttrs
use oshm.Sock.Options.{Sock, sock_valbool_flag, to_u32}
use oshm.Sock.Options.Set.{Answers, Value, sock_setsockopt, set_option, so_priority}

-- What the system sets: `sysctl_rmem_default`, `sysctl_wmem_default` and `sysctl_net_busy_read`.
pub record Defaults : Type 0 where
  pub rmem : ℕ
  pub wmem : ℕ
  pub busy_read : ℕ

-- `stream` is the type of the `struct socket`, if there is one. SOCK_ZAPPED is the bit 8.
unfoldable pub sock_init_data_uid : Defaults → (sock : Option ℕ) → Sock → Sock
sock_init_data_uid d sock sk = record (sock_valbool_flag sk 8 true) {
  sk_rcvbuf = d.rmem;
  sk_sndbuf = d.wmem;
  sk_state = 7;
  sk_type = type_of sock sk.sk_type;
  sk_rcvlowat = 1;
  sk_peek_off = negsuc 0;
  sk_rcvtimeo = 2 ^ 63 - 1;
  sk_sndtimeo = 2 ^ 63 - 1;
  sk_ll_usec = d.busy_read;
  sk_max_pacing_rate = 2 ^ 64 - 1;
  sk_pacing_rate = 2 ^ 64 - 1;
}
  where
    type_of : Option ℕ → ℕ → ℕ
    type_of none old = old
    type_of (some t) old = t

-- A level of the thread above 0 becomes the priority of the socket.
unfoldable pub sock_init_data : (current : TaskStruct) → Defaults → (sock : Option ℕ) → Sock → Sock
sock_init_data current d sock sk =
    let v = sock_init_data_uid d sock sk in
    if ltb_ℤ (pos 0) current.priority_level
    then record v { sk_priority = to_u32 current.priority_level }
    else v

own_level :
    (find : ℤ → Option ℕ) (m : ℤ) (p : ℕ) (w : SocketAttrs.World)
    → p ≤ 100
    → let (r, w') = set_thread_socket_attrs find false (pos 0) m (pos p) 0 w in
      (r ≡ pos 0) × ((w'.tasks w'.current).priority_level ≡ pos p)
unfolding set_thread_socket_attrs check_and_set may_set set_attrs
own_level find m p w h =
    ground (arith, (==_iff (w.tasks w.current).euid (w.tasks w.current).euid).1)

refused :
    (a : Answers) (p : ℕ) (v : Value) (s : Sock)
    → 7 ≤ p
    → a.ns_net_admin ≡ false
    → 4 ≤ v.optlen
    → v.val ≡ some (pos p)
    → sock_setsockopt a so_priority v s ≡ (neg eperm, s)
unfolding sock_setsockopt set_option
refused a p v s low admin whole given = rw (given, admin, is_whole, is_high) (ground arith)
  where
    is_whole : ltb v.optlen 4 ≡ false
    is_whole = ground arith

    is_high : leb p 6 ≡ false
    is_high = ground arith

-- A thread without any capability gives itself a level from 7 to 100, and the sockets that it makes have
-- that priority; the same priority is refused to it with -EPERM as an option of any socket.
pub sock_init_data-outranks :
    (find : ℤ → Option ℕ) (m : ℤ) (p : ℕ) (w : SocketAttrs.World) (d : Defaults) (sock : Option ℕ)
    (sk : Sock) (a : Answers) (v : Value) (s : Sock)
    → 7 ≤ p
    → p ≤ 100
    → a.ns_net_admin ≡ false
    → 4 ≤ v.optlen
    → v.val ≡ some (pos p)
    → let (r, w') = set_thread_socket_attrs find false (pos 0) m (pos p) 0 w in
      (r ≡ pos 0)
      × ((sock_init_data (w'.tasks w'.current) d sock sk).sk_priority ≡ p)
      × (sock_setsockopt a so_priority v s ≡ (neg eperm, s))
unfolding sock_init_data
sock_init_data-outranks find m p w d sock sk a v s low high admin whole given =
    let o = own_level find m p w high in
    (o.0, rw (o.1) (ground arith), refused a p v s low admin whole given)
