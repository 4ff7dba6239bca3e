-- ===== src/Sock/Options/Set/Refused.antt =====
-- A refusal of `sock_setsockopt` (net/core/sock.c) leaves the socket alone.
use oshm.Prelude.{
  ℕ, ◌≡◌, ◌⊎◌, inl, inr, refl, Bool, true, false, ltb, Bool-cases, Option, none, some, is_some, ℤ,
  pos, negsuc, eperm, eacces, eopnotsupp, arith,
}
use oshm.Sock.Options.{Sock, sock_bindtoindex_locked}
use oshm.Sock.Timeout.{Timeval, sock_set_timeout}
use oshm.Sock.Options.Set.{
  Name, Answers, is_delegated, Linger, Txtime, Value, if_may, set_linger, set_rcvlowat,
  set_peek_off, set_busy_poll, set_busy_poll_budget, set_max_pacing_rate, set_zerocopy, set_txtime,
  set_buf_lock, with_timeo, set_option, on_val, sock_setsockopt, so_debug, so_reuseaddr,
  so_reuseport, so_type, so_protocol, so_domain, so_error, so_dontroute, so_broadcast, so_sndbuf,
  so_sndbufforce, so_rcvbuf, so_rcvbufforce, so_keepalive, so_oobinline, so_no_check, so_priority,
  so_linger, so_bsdcompat, so_passcred, so_timestamp, so_timestamping, so_rcvlowat, so_rcvtimeo,
  so_sndtimeo, so_attach_filter, so_attach_bpf, so_attach_reuseport_cbpf, so_attach_reuseport_ebpf,
  so_detach_reuseport_bpf, so_detach_filter, so_lock_filter, so_passsec, so_mark, so_rxq_ovfl,
  so_wifi_status, so_peek_off, so_nofcs, so_select_err_queue, so_busy_poll, so_prefer_busy_poll,
  so_busy_poll_budget, so_max_pacing_rate, so_incoming_cpu, so_cnx_advice, so_zerocopy, so_txtime,
  so_bindtoifindex, so_buf_lock, unknown,
}

-- The option SO_TIMESTAMPING, old or new.
abbrev pub is_timestamping : Name → Bool
is_timestamping (so_timestamping new) = true
is_timestamping other = false

-- The result is no error, or the socket is what it was.
abbrev pub Kept : Sock → ℤ × Sock → Type 0
Kept sk (ret, sk') = (ret ≡ pos 0) ⊎ (sk' ≡ sk)

set_linger-Kept : (optlen : ℕ) (l : Option Linger) (sk : Sock) → Kept sk (set_linger optlen l sk)
unfolding set_linger
set_linger-Kept optlen none sk = ground arith
set_linger-Kept optlen (some l) sk = ground arith

set_rcvlowat-Kept :
    (ops : Option (Sock → ℕ → ℤ × ℕ × ℕ)) (val : ℤ) (sk : Sock)
    → is_some ops ≡ false
    → Kept sk (set_rcvlowat ops val sk)
unfolding set_rcvlowat
set_rcvlowat-Kept none val sk d = inl refl
set_rcvlowat-Kept (some f) val sk d = absurd (cc d)

set_peek_off-Kept :
    (ops : Option (Sock → ℤ → ℤ × ℤ)) (val : ℤ) (sk : Sock)
    → is_some ops ≡ false
    → Kept sk (set_peek_off ops val sk)
unfolding set_peek_off
set_peek_off-Kept none val sk d = inr refl
set_peek_off-Kept (some f) val sk d = absurd (cc d)

sock_set_timeout-Kept :
    (v : Value) (val : ℕ) (sk : Sock) (f : Sock → ℕ → Sock)
    → f sk val ≡ sk
    → Kept sk (with_timeo f sk (sock_set_timeout v.optlen 16 v.timeval val))
unfolding sock_set_timeout
sock_set_timeout-Kept v val sk f e = at v.timeval
  where
    at : (t : Option Timeval) → Kept sk (with_timeo f sk (sock_set_timeout v.optlen 16 t val))
    at none = ground arith
    at (some t) = ground arith

set_busy_poll-Kept : (capable : Bool) (val : ℤ) (sk : Sock) → Kept sk (set_busy_poll capable val sk)
unfolding set_busy_poll
set_busy_poll-Kept capable val sk = ground arith

set_busy_poll_budget-Kept :
    (capable : Bool) (val : ℤ) (sk : Sock) → Kept sk (set_busy_poll_budget capable val sk)
unfolding set_busy_poll_budget
set_busy_poll_budget-Kept capable val sk = ground arith

set_max_pacing_rate-Kept :
    (optlen : ℕ) (copy : Option ℕ) (val : ℤ) (sk : Sock)
    → Kept sk (set_max_pacing_rate optlen copy val sk)
unfolding set_max_pacing_rate
set_max_pacing_rate-Kept optlen none val sk = ground arith
set_max_pacing_rate-Kept optlen (some rate) val sk = ground arith

set_zerocopy-Kept : (val : ℤ) (sk : Sock) → Kept sk (set_zerocopy val sk)
unfolding set_zerocopy
set_zerocopy-Kept val sk = ground arith

set_txtime-Kept :
    (admin : Bool) (optlen : ℕ) (t : Option Txtime) (sk : Sock)
    → Kept sk (set_txtime admin optlen t sk)
unfolding set_txtime
set_txtime-Kept admin optlen none sk = ground arith
set_txtime-Kept admin optlen (some t) sk = ground arith

sock_bindtoindex_locked-Kept :
    (raw : Bool) (val : ℤ) (sk : Sock) → Kept sk (sock_bindtoindex_locked raw val sk)
unfolding sock_bindtoindex_locked
sock_bindtoindex_locked-Kept raw (negsuc n) sk = ground arith
sock_bindtoindex_locked-Kept raw (pos n) sk = ground arith

set_buf_lock-Kept : (val : ℤ) (sk : Sock) → Kept sk (set_buf_lock val sk)
unfolding set_buf_lock
set_buf_lock-Kept (negsuc n) sk = ground arith
set_buf_lock-Kept (pos n) sk = ground arith

if_may-Kept : (b : Bool) (err : ℕ) (sk sk' : Sock) → Kept sk (if_may b err sk sk')
if_may-Kept true err sk sk' = inl refl
if_may-Kept false err sk sk' = inr refl

set_option-Kept :
    (a : Answers) (name : Name) (v : Value) (val : ℤ) (sk : Sock)
    → is_timestamping name ≡ false
    → is_delegated a name ≡ false
    → Kept sk (set_option a name v val sk)
unfolding set_option
set_option-Kept a so_debug v val sk e d = if_may-Kept _ eacces _ _
set_option-Kept a so_reuseaddr v val sk e d = inl refl
set_option-Kept a so_reuseport v val sk e d = if_may-Kept _ eopnotsupp _ _
set_option-Kept a so_type v val sk e d = inr refl
set_option-Kept a so_protocol v val sk e d = inr refl
set_option-Kept a so_domain v val sk e d = inr refl
set_option-Kept a so_error v val sk e d = inr refl
set_option-Kept a so_dontroute v val sk e d = inl refl
set_option-Kept a so_broadcast v val sk e d = inl refl
set_option-Kept a so_sndbuf v val sk e d = inl refl
set_option-Kept a so_sndbufforce v val sk e d = if_may-Kept _ eperm _ _
set_option-Kept a so_rcvbuf v val sk e d = inl refl
set_option-Kept a so_rcvbufforce v val sk e d = if_may-Kept _ eperm _ _
set_option-Kept a so_keepalive v val sk e d = inl refl
set_option-Kept a so_oobinline v val sk e d = inl refl
set_option-Kept a so_no_check v val sk e d = inl refl
set_option-Kept a so_priority v val sk e d = if_may-Kept _ eperm _ _
set_option-Kept a so_linger v val sk e d = set_linger-Kept v.optlen v.ling sk
set_option-Kept a so_bsdcompat v val sk e d = inl refl
set_option-Kept a so_passcred v val sk e d = inl refl
set_option-Kept a (so_timestamp new ns) v val sk e d = inl refl
set_option-Kept a (so_timestamping new) v val sk e d = cc
set_option-Kept a so_rcvlowat v val sk e d = set_rcvlowat-Kept a.set_rcvlowat val sk d
set_option-Kept a so_rcvtimeo v val sk e d =
    sock_set_timeout-Kept v sk.sk_rcvtimeo sk (λ s t. record s { sk_rcvtimeo = t }) refl
set_option-Kept a so_sndtimeo v val sk e d =
    sock_set_timeout-Kept v sk.sk_sndtimeo sk (λ s t. record s { sk_sndtimeo = t }) refl
set_option-Kept a so_attach_filter v val sk e d = inr refl
set_option-Kept a so_attach_bpf v val sk e d = inr refl
set_option-Kept a so_attach_reuseport_cbpf v val sk e d = inr refl
set_option-Kept a so_attach_reuseport_ebpf v val sk e d = inr refl
set_option-Kept a so_detach_reuseport_bpf v val sk e d = inr refl
set_option-Kept a so_detach_filter v val sk e d = inr refl
set_option-Kept a so_lock_filter v val sk e d = if_may-Kept _ eperm _ _
set_option-Kept a so_passsec v val sk e d = inl refl
set_option-Kept a so_mark v val sk e d = if_may-Kept _ eperm _ _
set_option-Kept a so_rxq_ovfl v val sk e d = inl refl
set_option-Kept a so_wifi_status v val sk e d = inl refl
set_option-Kept a so_peek_off v val sk e d = set_peek_off-Kept a.set_peek_off val sk d
set_option-Kept a so_nofcs v val sk e d = inl refl
set_option-Kept a so_select_err_queue v val sk e d = inl refl
set_option-Kept a so_busy_poll v val sk e d = set_busy_poll-Kept a.capable_net_admin val sk
set_option-Kept a so_prefer_busy_poll v val sk e d = if_may-Kept _ eperm _ _
set_option-Kept a so_busy_poll_budget v val sk e d =
    set_busy_poll_budget-Kept a.capable_net_admin val sk
set_option-Kept a so_max_pacing_rate v val sk e d = set_max_pacing_rate-Kept v.optlen v.ulval val sk
set_option-Kept a so_incoming_cpu v val sk e d = inl refl
set_option-Kept a so_cnx_advice v val sk e d = inl refl
set_option-Kept a so_zerocopy v val sk e d = set_zerocopy-Kept val sk
set_option-Kept a so_txtime v val sk e d = set_txtime-Kept a.ns_net_admin v.optlen v.txtime sk
set_option-Kept a so_bindtoifindex v val sk e d = sock_bindtoindex_locked-Kept a.ns_net_raw val sk
set_option-Kept a so_buf_lock v val sk e d = set_buf_lock-Kept val sk
set_option-Kept a unknown v val sk e d = inr refl

-- An option other than SO_TIMESTAMPING, and not left to a function of the protocol as SO_RCVLOWAT and
-- SO_PEEK_OFF may be, that is refused, for whatever reason, leaves the socket as it was.
pub sock_setsockopt-Kept :
    (a : Answers) (name : Name) (v : Value) (sk : Sock)
    → is_timestamping name ≡ false
    → is_delegated a name ≡ false
    → Kept sk (sock_setsockopt a name v sk)
unfolding sock_setsockopt
sock_setsockopt-Kept a name v sk e d = elim (Bool-cases (ltb v.optlen 4)) [
  | inl h ↦ rw h (inr refl)
  | inr h ↦ rw h (on_val-Kept v.val)
]
  where
    on_val-Kept : (o : Option ℤ) → Kept sk (on_val a name v sk o)
    on_val-Kept none = inr refl
    on_val-Kept (some val) = set_option-Kept a name v val sk e d
