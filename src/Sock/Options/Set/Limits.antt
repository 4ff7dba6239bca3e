-- ===== src/Sock/Options/Set/Limits.antt =====
-- The limits of a caller without privileges, and the parts of `sock_setsockopt` (net/core/sock.c) that keep
-- them.
use oshm.Prelude.{
  ℕ, ◌*◌, ◌^◌, ◌≤◌, ◌≡◌, ◌⊎◌, inl, inr, refl, Bool, true, false, ◌&&◌, ◌||◌, ltb, min, Bool-cases,
  Option, none, some, is_some, not, ℤ, pos, negsuc, leb_ℤ, eperm, arith,
}
use oshm.Sock.Options.{buffer, Sock, to_u32, to_int, sock_bindtoindex_locked}
use oshm.Sock.Options.Flag
use oshm.Sock.Options.Timestamps.{
  sock_enable_timestamp, sock_disable_timestamp, sock_set_timestamps,
}
use oshm.Sock.Options.Timestamps.Keeps.{IsKept}
use oshm.Sock.Options.Set.Keeps.{so_timestamping-keeps}
use oshm.Sock.Timeout.{sock_set_timeout}
use oshm.Sock.Options.Set.{
  Answers, Linger, Txtime, Value, if_may, set_linger, set_timestamping, set_rcvlowat, set_peek_off,
  set_busy_poll, set_busy_poll_budget, set_max_pacing_rate, set_zerocopy, set_txtime, set_buf_lock,
  with_timeo,
}

-- The priority is at most 6 or that of before, a buffer is within the doubled limit of the system (or the
-- smallest size) or that of before, the mark is that of before, and neither the time, the budget nor the
-- preference of busy polling has grown.
abbrev pub Limited : Answers → Sock → Sock → Type 0
Limited a sk sk' =
    ((sk'.sk_priority ≡ sk.sk_priority) ⊎ (sk'.sk_priority ≤ 6))
    × ((sk'.sk_sndbuf ≡ sk.sk_sndbuf)
        ⊎ (sk'.sk_sndbuf ≤ a.sysctl_wmem_max * 2)
        ⊎ (sk'.sk_sndbuf ≡ a.sock_min_sndbuf))
    × ((sk'.sk_rcvbuf ≡ sk.sk_rcvbuf)
        ⊎ (sk'.sk_rcvbuf ≤ a.sysctl_rmem_max * 2)
        ⊎ (sk'.sk_rcvbuf ≡ a.sock_min_rcvbuf))
    × (sk'.sk_mark ≡ sk.sk_mark)
    × (sk'.sk_ll_usec ≤ sk.sk_ll_usec)
    × ((sk'.sk_prefer_busy_poll ≡ sk.sk_prefer_busy_poll) ⊎ (sk'.sk_prefer_busy_poll ≡ false))
    × (sk'.sk_busy_poll_budget ≤ sk.sk_busy_poll_budget)

-- The fields that are limited, as they were.
abbrev pub Same : Sock → Sock → Type 0
Same sk sk' =
    (sk'.sk_priority ≡ sk.sk_priority)
    × (sk'.sk_sndbuf ≡ sk.sk_sndbuf)
    × (sk'.sk_rcvbuf ≡ sk.sk_rcvbuf)
    × (sk'.sk_mark ≡ sk.sk_mark)
    × (sk'.sk_ll_usec ≡ sk.sk_ll_usec)
    × (sk'.sk_prefer_busy_poll ≡ sk.sk_prefer_busy_poll)
    × (sk'.sk_busy_poll_budget ≡ sk.sk_busy_poll_budget)

pub same : (a : Answers) (sk sk' : Sock) → Same sk sk' → Limited a sk sk'
same a sk sk' (p, s, r, m, l, f, b) =
    (inl p, inl s, inl r, m, omega (arith, l), inl f, omega (arith, b))

pub unmoved : (a : Answers) (sk : Sock) → Limited a sk sk
unmoved a sk = same a sk sk (refl, refl, refl, refl, refl, refl, refl)

to_int_lem : (n floor : ℕ) → (buffer (to_int n) floor ≤ n * 2) ⊎ (buffer (to_int n) floor ≡ floor)
to_int_lem n floor = elim (Bool-cases (ltb n (2 ^ 31))) [
  | inl h ↦ rw h (ground arith)
  | inr h ↦ rw h (ground arith)
]

pub buffer_lem :
    (u most floor : ℕ)
    → (buffer (to_int (min u most)) floor ≤ most * 2) ⊎ (buffer (to_int (min u most)) floor ≡ floor)
buffer_lem u most floor = ground (arith, to_int_lem (min u most) floor)

pub set_linger-Same :
    (optlen : ℕ) (l : Option Linger) (sk : Sock) → Same sk (set_linger optlen l sk).1
unfolding set_linger
set_linger-Same optlen none sk = ground arith
set_linger-Same optlen (some l) sk = ground arith

pub set_rcvlowat-Same :
    (ops : Option (Sock → ℕ → ℤ × ℕ × ℕ)) (val : ℤ) (sk : Sock)
    → is_some ops ≡ false
    → Same sk (set_rcvlowat ops val sk).1
unfolding set_rcvlowat
set_rcvlowat-Same none val sk d = ground arith
set_rcvlowat-Same (some f) val sk d = absurd (cc d)

pub set_peek_off-Same :
    (ops : Option (Sock → ℤ → ℤ × ℤ)) (val : ℤ) (sk : Sock) → Same sk (set_peek_off ops val sk).1
unfolding set_peek_off
set_peek_off-Same none val sk = ground arith
set_peek_off-Same (some f) val sk = ground arith

pub set_max_pacing_rate-Same :
    (optlen : ℕ) (copy : Option ℕ) (val : ℤ) (sk : Sock)
    → Same sk (set_max_pacing_rate optlen copy val sk).1
unfolding set_max_pacing_rate
set_max_pacing_rate-Same optlen none val sk = ground arith
set_max_pacing_rate-Same optlen (some rate) val sk = ground arith

pub set_zerocopy-Same : (val : ℤ) (sk : Sock) → Same sk (set_zerocopy val sk).1
unfolding set_zerocopy
set_zerocopy-Same val sk = ground arith

pub set_txtime-Same :
    (admin : Bool) (optlen : ℕ) (t : Option Txtime) (sk : Sock)
    → Same sk (set_txtime admin optlen t sk).1
unfolding set_txtime
set_txtime-Same admin optlen none sk = ground arith
set_txtime-Same admin optlen (some t) sk = ground arith

pub sock_bindtoindex_locked-Same :
    (raw : Bool) (val : ℤ) (sk : Sock) → Same sk (sock_bindtoindex_locked raw val sk).1
unfolding sock_bindtoindex_locked
sock_bindtoindex_locked-Same raw (negsuc n) sk = ground arith
sock_bindtoindex_locked-Same raw (pos n) sk = ground arith

pub set_buf_lock-Same : (val : ℤ) (sk : Sock) → Same sk (set_buf_lock val sk).1
unfolding set_buf_lock
set_buf_lock-Same (negsuc n) sk = ground arith
set_buf_lock-Same (pos n) sk = ground arith

sock_set_timeout-Same :
    (v : Value) (old : ℕ) (sk : Sock) (f : Sock → ℕ → Sock)
    → ((t : ℕ) → Same sk (f sk t))
    → Same sk (with_timeo f sk (sock_set_timeout v.optlen 16 v.timeval old)).1
sock_set_timeout-Same v old sk f h = h _

enable-Same : (flag : ℕ) (sk : Sock) → Same sk (sock_enable_timestamp flag sk)
unfolding sock_enable_timestamp
enable-Same flag sk = ground arith

disable-Same : (flag : ℕ) (sk : Sock) → Same sk (sock_disable_timestamp flag sk)
unfolding sock_disable_timestamp
disable-Same flag sk = ground arith

pub sock_set_timestamps-Same :
    (val new ns : Bool) (sk : Sock) → Same sk (sock_set_timestamps val new ns sk)
unfolding sock_set_timestamps
sock_set_timestamps-Same true new ns sk = enable-Same Flag.timestamp _
sock_set_timestamps-Same false new ns sk = (refl, refl, refl, refl, refl, refl, refl)

Same-IsKept : (sk : Sock) → IsKept (Same sk)
Same-IsKept sk = record {
  tsflags = λ n v p. p;
  tskey = λ n v p. p;
  bind_phc = λ n v p. p;
  tstamp_new = λ b v p. p;
  rcvtstamp = λ b v p. p;
  rcvtstampns = λ b v p. p;
  timestamp = λ v p. (let e = enable-Same Flag.timestamp v in ground arith);
  rx_software = λ v p. (let e = enable-Same Flag.timestamping_rx_software v in ground arith);
  no_rx_software = λ v p. (let e = disable-Same Flag.timestamping_rx_software v in ground arith);
}

pub set_timestamping-Same :
    (a : Answers) (new : Bool) (v : Value) (val : ℤ) (sk : Sock)
    → Same sk (set_timestamping a new v val sk).1
set_timestamping-Same a new v val sk =
    so_timestamping-keeps (Same-IsKept sk) a new v val sk (refl, refl, refl, refl, refl, refl, refl)

pub if_may-Limited :
    (a : Answers) (b : Bool) (err : ℕ) (sk sk' : Sock)
    → Limited a sk sk'
    → Limited a sk (if_may b err sk sk').1
if_may-Limited a true err sk sk' h = h
if_may-Limited a false err sk sk' h = unmoved a sk

pub priority-Limited :
    (a : Answers) (val : ℤ) (sk : Sock)
    → a.ns_net_admin ≡ false
    → Limited a sk
        (if_may
          ((leb_ℤ (pos 0) val && leb_ℤ val (pos 6)) || a.ns_net_admin)
          eperm
          sk
          (record sk { sk_priority = to_u32 val })).1
priority-Limited a (pos n) sk ns = ground arith
priority-Limited a (negsuc n) sk ns = ground arith

pub busy_poll-Limited :
    (a : Answers) (val : ℤ) (sk : Sock)
    → a.capable_net_admin ≡ false
    → Limited a sk (set_busy_poll a.capable_net_admin val sk).1
unfolding set_busy_poll
busy_poll-Limited a val sk admin = ground arith

pub budget-Limited :
    (a : Answers) (val : ℤ) (sk : Sock)
    → a.capable_net_admin ≡ false
    → Limited a sk (set_busy_poll_budget a.capable_net_admin val sk).1
unfolding set_busy_poll_budget
budget-Limited a (pos n) sk admin = ground arith
budget-Limited a (negsuc n) sk admin = ground arith

pub prefer-Limited :
    (a : Answers) (b : Bool) (sk : Sock)
    → a.capable_net_admin ≡ false
    → Limited a sk
        (if_may
          (not (b && not a.capable_net_admin))
          eperm
          sk
          (record sk { sk_prefer_busy_poll = b })).1
prefer-Limited a true sk admin = rw admin (unmoved a sk)
prefer-Limited a false sk admin =
    (inl refl, inl refl, inl refl, refl, omega arith, inr refl, omega arith)
