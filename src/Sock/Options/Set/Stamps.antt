-- ===== src/Sock/Options/Set/Stamps.antt =====
-- How `sock_setsockopt` (net/core/sock.c) asks the network for time stamps.
use oshm.Prelude.{
  ℕ, ◌≡◌, inl, inr, Bool, true, false, ◌&&◌, ltb, Bool-cases, Option, none, some, if◌then◌else◌, ℤ,
  pos, negsuc, eperm, eacces, eopnotsupp, arith,
}
use oshm.Sock.Options.{Sock, set_sndbuf, sock_set_rcvbuf, sock_set_mark, sock_bindtoindex_locked}
use oshm.Sock.Options.Flag
use oshm.Sock.Options.Timestamps.{
  stamped, sock_needs_netstamp, sock_enable_timestamp, sock_disable_timestamp,
}
use oshm.Sock.Options.Timestamps.Keeps.{IsKept, set_timestamps-keeps}
use oshm.Sock.Options.Set.Keeps.{so_timestamping-keeps}
use oshm.Sock.Options.Set.{
  Name, Answers, Linger, Txtime, Value, if_may, set_linger, set_rcvlowat, set_peek_off,
  set_busy_poll, set_busy_poll_budget, set_max_pacing_rate, set_zerocopy, set_txtime, set_buf_lock,
  set_option, on_val, sock_setsockopt, so_debug, so_reuseaddr, so_reuseport, so_type, so_protocol,
  so_domain, so_error, so_dontroute, so_broadcast, so_sndbuf, so_sndbufforce, so_rcvbuf,
  so_rcvbufforce, so_keepalive, so_oobinline, so_no_check, so_priority, so_linger, so_bsdcompat,
  so_passcred, so_timestamp, so_timestamping, so_rcvlowat, so_rcvtimeo, so_sndtimeo,
  so_attach_filter, so_attach_bpf, so_attach_reuseport_cbpf, so_attach_reuseport_ebpf,
  so_detach_reuseport_bpf, so_detach_filter, so_lock_filter, so_passsec, so_mark, so_rxq_ovfl,
  so_wifi_status, so_peek_off, so_nofcs, so_select_err_queue, so_busy_poll, so_prefer_busy_poll,
  so_busy_poll_budget, so_max_pacing_rate, so_incoming_cpu, so_cnx_advice, so_zerocopy, so_txtime,
  so_bindtoifindex, so_buf_lock, unknown,
}

-- The network is asked once, if either flag is set and the family needs it.
abbrev pub IsBalanced : Sock → Type 0
IsBalanced sk = sk.netstamps ≡ (if sock_needs_netstamp sk && stamped sk then 1 else 0)

enable_timestamp-IsBalanced :
    (sk : Sock) → IsBalanced sk → IsBalanced (sock_enable_timestamp Flag.timestamp sk)
unfolding sock_enable_timestamp
enable_timestamp-IsBalanced sk h = ground arith

enable_rx-IsBalanced :
    (sk : Sock)
    → IsBalanced sk
    → IsBalanced (sock_enable_timestamp Flag.timestamping_rx_software sk)
unfolding sock_enable_timestamp
enable_rx-IsBalanced sk h = ground arith

disable_rx-IsBalanced :
    (sk : Sock)
    → IsBalanced sk
    → IsBalanced (sock_disable_timestamp Flag.timestamping_rx_software sk)
unfolding sock_disable_timestamp
disable_rx-IsBalanced sk h = ground arith

IsBalanced-IsKept : IsKept IsBalanced
IsBalanced-IsKept = record {
  tsflags = λ n v p. p;
  tskey = λ n v p. p;
  bind_phc = λ n v p. p;
  tstamp_new = λ b v p. p;
  rcvtstamp = λ b v p. p;
  rcvtstampns = λ b v p. p;
  timestamp = enable_timestamp-IsBalanced;
  rx_software = enable_rx-IsBalanced;
  no_rx_software = disable_rx-IsBalanced;
}

set_linger-IsBalanced :
    (optlen : ℕ) (l : Option Linger) (sk : Sock)
    → IsBalanced sk
    → IsBalanced (set_linger optlen l sk).1
unfolding set_linger
set_linger-IsBalanced optlen none sk h = ground arith
set_linger-IsBalanced optlen (some l) sk h = ground arith

set_rcvlowat-IsBalanced :
    (ops : Option (Sock → ℕ → ℤ × ℕ × ℕ)) (val : ℤ) (sk : Sock)
    → IsBalanced sk
    → IsBalanced (set_rcvlowat ops val sk).1
unfolding set_rcvlowat
set_rcvlowat-IsBalanced none val sk h = ground arith
set_rcvlowat-IsBalanced (some f) val sk h = ground arith

set_peek_off-IsBalanced :
    (ops : Option (Sock → ℤ → ℤ × ℤ)) (val : ℤ) (sk : Sock)
    → IsBalanced sk
    → IsBalanced (set_peek_off ops val sk).1
unfolding set_peek_off
set_peek_off-IsBalanced none val sk h = ground arith
set_peek_off-IsBalanced (some f) val sk h = ground arith

set_busy_poll_budget-IsBalanced :
    (capable : Bool) (val : ℤ) (sk : Sock)
    → IsBalanced sk
    → IsBalanced (set_busy_poll_budget capable val sk).1
unfolding set_busy_poll_budget
set_busy_poll_budget-IsBalanced capable val sk h = ground arith

set_max_pacing_rate-IsBalanced :
    (optlen : ℕ) (copy : Option ℕ) (val : ℤ) (sk : Sock)
    → IsBalanced sk
    → IsBalanced (set_max_pacing_rate optlen copy val sk).1
unfolding set_max_pacing_rate
set_max_pacing_rate-IsBalanced optlen none val sk h = ground arith
set_max_pacing_rate-IsBalanced optlen (some rate) val sk h = ground arith

set_zerocopy-IsBalanced : (val : ℤ) (sk : Sock) → IsBalanced sk → IsBalanced (set_zerocopy val sk).1
unfolding set_zerocopy
set_zerocopy-IsBalanced val sk h = ground arith

set_txtime-IsBalanced :
    (admin : Bool) (optlen : ℕ) (t : Option Txtime) (sk : Sock)
    → IsBalanced sk
    → IsBalanced (set_txtime admin optlen t sk).1
unfolding set_txtime
set_txtime-IsBalanced admin optlen none sk h = ground arith
set_txtime-IsBalanced admin optlen (some t) sk h = ground arith

sock_bindtoindex_locked-IsBalanced :
    (raw : Bool) (val : ℤ) (sk : Sock)
    → IsBalanced sk
    → IsBalanced (sock_bindtoindex_locked raw val sk).1
unfolding sock_bindtoindex_locked
sock_bindtoindex_locked-IsBalanced raw (negsuc n) sk h = ground arith
sock_bindtoindex_locked-IsBalanced raw (pos n) sk h = ground arith

set_buf_lock-IsBalanced : (val : ℤ) (sk : Sock) → IsBalanced sk → IsBalanced (set_buf_lock val sk).1
unfolding set_buf_lock
set_buf_lock-IsBalanced (negsuc n) sk h = ground arith
set_buf_lock-IsBalanced (pos n) sk h = ground arith

set_busy_poll-IsBalanced :
    (capable : Bool) (val : ℤ) (sk : Sock)
    → IsBalanced sk
    → IsBalanced (set_busy_poll capable val sk).1
unfolding set_busy_poll
set_busy_poll-IsBalanced capable val sk h = ground arith

if_may-IsBalanced :
    (b : Bool) (err : ℕ) (sk sk' : Sock)
    → IsBalanced sk
    → IsBalanced sk'
    → IsBalanced (if_may b err sk sk').1
if_may-IsBalanced true err sk sk' h h' = h'
if_may-IsBalanced false err sk sk' h h' = h

sock_set_mark-IsBalanced : (n : ℕ) (sk : Sock) → IsBalanced sk → IsBalanced (sock_set_mark n sk)
unfolding sock_set_mark
sock_set_mark-IsBalanced n sk h = ground arith

set_option-IsBalanced :
    (a : Answers) (name : Name) (v : Value) (val : ℤ) (sk : Sock)
    → IsBalanced sk
    → IsBalanced (set_option a name v val sk).1
unfolding set_option set_sndbuf sock_set_rcvbuf
set_option-IsBalanced a so_debug v val sk h = if_may-IsBalanced _ eacces sk _ h h
set_option-IsBalanced a so_reuseaddr v val sk h = h
set_option-IsBalanced a so_reuseport v val sk h = if_may-IsBalanced _ eopnotsupp sk _ h h
set_option-IsBalanced a so_type v val sk h = h
set_option-IsBalanced a so_protocol v val sk h = h
set_option-IsBalanced a so_domain v val sk h = h
set_option-IsBalanced a so_error v val sk h = h
set_option-IsBalanced a so_dontroute v val sk h = h
set_option-IsBalanced a so_broadcast v val sk h = h
set_option-IsBalanced a so_sndbuf v val sk h = h
set_option-IsBalanced a so_sndbufforce v val sk h = if_may-IsBalanced _ eperm sk _ h h
set_option-IsBalanced a so_rcvbuf v val sk h = h
set_option-IsBalanced a so_rcvbufforce v val sk h = if_may-IsBalanced _ eperm sk _ h h
set_option-IsBalanced a so_keepalive v val sk h = h
set_option-IsBalanced a so_oobinline v val sk h = h
set_option-IsBalanced a so_no_check v val sk h = h
set_option-IsBalanced a so_priority v val sk h = if_may-IsBalanced _ eperm sk _ h h
set_option-IsBalanced a so_linger v val sk h = set_linger-IsBalanced v.optlen v.ling sk h
set_option-IsBalanced a so_bsdcompat v val sk h = h
set_option-IsBalanced a so_passcred v val sk h = h
set_option-IsBalanced a (so_timestamp new ns) v val sk h =
    set_timestamps-keeps IsBalanced-IsKept _ new ns sk h
set_option-IsBalanced a (so_timestamping new) v val sk h =
    so_timestamping-keeps IsBalanced-IsKept a new v val sk h
set_option-IsBalanced a so_rcvlowat v val sk h = set_rcvlowat-IsBalanced a.set_rcvlowat val sk h
set_option-IsBalanced a so_rcvtimeo v val sk h = h
set_option-IsBalanced a so_sndtimeo v val sk h = h
set_option-IsBalanced a so_attach_filter v val sk h = h
set_option-IsBalanced a so_attach_bpf v val sk h = h
set_option-IsBalanced a so_attach_reuseport_cbpf v val sk h = h
set_option-IsBalanced a so_attach_reuseport_ebpf v val sk h = h
set_option-IsBalanced a so_detach_reuseport_bpf v val sk h = h
set_option-IsBalanced a so_detach_filter v val sk h = h
set_option-IsBalanced a so_lock_filter v val sk h = if_may-IsBalanced _ eperm sk _ h h
set_option-IsBalanced a so_passsec v val sk h = h
set_option-IsBalanced a so_mark v val sk h =
    if_may-IsBalanced _ eperm sk _ h (sock_set_mark-IsBalanced _ sk h)
set_option-IsBalanced a so_rxq_ovfl v val sk h = h
set_option-IsBalanced a so_wifi_status v val sk h = h
set_option-IsBalanced a so_peek_off v val sk h = set_peek_off-IsBalanced a.set_peek_off val sk h
set_option-IsBalanced a so_nofcs v val sk h = h
set_option-IsBalanced a so_select_err_queue v val sk h = h
set_option-IsBalanced a so_busy_poll v val sk h =
    set_busy_poll-IsBalanced a.capable_net_admin val sk h
set_option-IsBalanced a so_prefer_busy_poll v val sk h = if_may-IsBalanced _ eperm sk _ h h
set_option-IsBalanced a so_busy_poll_budget v val sk h =
    set_busy_poll_budget-IsBalanced a.capable_net_admin val sk h
set_option-IsBalanced a so_max_pacing_rate v val sk h =
    set_max_pacing_rate-IsBalanced v.optlen v.ulval val sk h
set_option-IsBalanced a so_incoming_cpu v val sk h = h
set_option-IsBalanced a so_cnx_advice v val sk h = h
set_option-IsBalanced a so_zerocopy v val sk h = set_zerocopy-IsBalanced val sk h
set_option-IsBalanced a so_txtime v val sk h =
    set_txtime-IsBalanced a.ns_net_admin v.optlen v.txtime sk h
set_option-IsBalanced a so_bindtoifindex v val sk h =
    sock_bindtoindex_locked-IsBalanced a.ns_net_raw val sk h
set_option-IsBalanced a so_buf_lock v val sk h = set_buf_lock-IsBalanced val sk h
set_option-IsBalanced a unknown v val sk h = h

-- The network is asked for time stamps once if the family of the socket needs them and either flag is
-- set, and not at all otherwise: every option, set or refused, keeps it so.
pub sock_setsockopt-IsBalanced :
    (a : Answers) (name : Name) (v : Value) (sk : Sock)
    → IsBalanced sk
    → IsBalanced (sock_setsockopt a name v sk).1
unfolding sock_setsockopt
sock_setsockopt-IsBalanced a name v sk h = elim (Bool-cases (ltb v.optlen 4)) [
  | inl e ↦ rw e h
  | inr e ↦ rw e (on_val-IsBalanced v.val)
]
  where
    on_val-IsBalanced : (o : Option ℤ) → IsBalanced (on_val a name v sk o).1
    on_val-IsBalanced none = h
    on_val-IsBalanced (some val) = set_option-IsBalanced a name v val sk h
