-- ===== src/Sock/Options/Set/Unprivileged.antt =====
-- What a caller without privileges can make of a socket by `sock_setsockopt` (net/core/sock.c).
use oshm.Prelude.{
  ◌≡◌, inl, inr, refl, false, ltb, Bool-cases, Option, none, some, ℤ, eperm, eacces, eopnotsupp,
  arith,
}
use oshm.Sock.Options.{
  Sock, sock_valbool_flag, to_u32, set_sndbuf, sock_set_rcvbuf, sock_bindtoindex_locked,
}
use oshm.Sock.Options.Flag
use oshm.Sock.Options.Timestamps.{sock_set_timestamps}
use oshm.Sock.Options.Set.{
  Name, Answers, is_delegated, Value, set_linger, set_timestamping, set_rcvlowat, set_peek_off,
  set_max_pacing_rate, set_zerocopy, set_txtime, set_buf_lock, is_set, set_option, on_val,
  sock_setsockopt, so_debug, so_reuseaddr, so_reuseport, so_type, so_protocol, so_domain, so_error,
  so_dontroute, so_broadcast, so_sndbuf, so_sndbufforce, so_rcvbuf, so_rcvbufforce, so_keepalive,
  so_oobinline, so_no_check, so_priority, so_linger, so_bsdcompat, so_passcred, so_timestamp,
  so_timestamping, so_rcvlowat, so_rcvtimeo, so_sndtimeo, so_attach_filter, so_attach_bpf,
  so_attach_reuseport_cbpf, so_attach_reuseport_ebpf, so_detach_reuseport_bpf, so_detach_filter,
  so_lock_filter, so_passsec, so_mark, so_rxq_ovfl, so_wifi_status, so_peek_off, so_nofcs,
  so_select_err_queue, so_busy_poll, so_prefer_busy_poll, so_busy_poll_budget, so_max_pacing_rate,
  so_incoming_cpu, so_cnx_advice, so_zerocopy, so_txtime, so_bindtoifindex, so_buf_lock, unknown,
}
use oshm.Sock.Options.Set.Limits.{
  Limited, same, unmoved, buffer_lem, set_linger-Same, set_rcvlowat-Same, set_peek_off-Same,
  budget-Limited, prefer-Limited, set_max_pacing_rate-Same, set_zerocopy-Same, set_txtime-Same,
  sock_bindtoindex_locked-Same, set_buf_lock-Same, sock_set_timestamps-Same, set_timestamping-Same,
  if_may-Limited, priority-Limited, busy_poll-Limited,
}

set_option-Limited :
    (a : Answers) (name : Name) (v : Value) (val : ℤ) (sk : Sock)
    → is_delegated a name ≡ false
    → a.capable_net_admin ≡ false
    → a.ns_net_admin ≡ false
    → Limited a sk (set_option a name v val sk).1
unfolding set_option set_sndbuf sock_set_rcvbuf
set_option-Limited a so_debug v val sk d admin ns =
    if_may-Limited a _ eacces sk (sock_valbool_flag sk Flag.dbg (is_set val)) (unmoved a sk)
set_option-Limited a so_reuseaddr v val sk d admin ns = unmoved a sk
set_option-Limited a so_reuseport v val sk d admin ns =
    if_may-Limited a _ eopnotsupp sk (record sk { sk_reuseport = is_set val }) (unmoved a sk)
set_option-Limited a so_type v val sk d admin ns = unmoved a sk
set_option-Limited a so_protocol v val sk d admin ns = unmoved a sk
set_option-Limited a so_domain v val sk d admin ns = unmoved a sk
set_option-Limited a so_error v val sk d admin ns = unmoved a sk
set_option-Limited a so_dontroute v val sk d admin ns = unmoved a sk
set_option-Limited a so_broadcast v val sk d admin ns = unmoved a sk
set_option-Limited a so_sndbuf v val sk d admin ns = (
  inl refl,
  inr (buffer_lem (to_u32 val) a.sysctl_wmem_max a.sock_min_sndbuf),
  inl refl,
  refl,
  omega arith,
  inl refl,
  omega arith,
)
set_option-Limited a so_sndbufforce v val sk d admin ns = rw admin (unmoved a sk)
set_option-Limited a so_rcvbuf v val sk d admin ns = (
  inl refl,
  inl refl,
  inr (buffer_lem (to_u32 val) a.sysctl_rmem_max a.sock_min_rcvbuf),
  refl,
  omega arith,
  inl refl,
  omega arith,
)
set_option-Limited a so_rcvbufforce v val sk d admin ns = rw admin (unmoved a sk)
set_option-Limited a so_keepalive v val sk d admin ns = unmoved a sk
set_option-Limited a so_oobinline v val sk d admin ns = unmoved a sk
set_option-Limited a so_no_check v val sk d admin ns = unmoved a sk
set_option-Limited a so_priority v val sk d admin ns = priority-Limited a val sk ns
set_option-Limited a so_linger v val sk d admin ns =
    same a sk (set_linger v.optlen v.ling sk).1 (set_linger-Same v.optlen v.ling sk)
set_option-Limited a so_bsdcompat v val sk d admin ns = unmoved a sk
set_option-Limited a so_passcred v val sk d admin ns = unmoved a sk
set_option-Limited a (so_timestamp new nano) v val sk d admin ns =
    same a sk (sock_set_timestamps (is_set val) new nano sk)
      (sock_set_timestamps-Same _ new nano sk)
set_option-Limited a (so_timestamping new) v val sk d admin ns =
    same a sk (set_timestamping a new v val sk).1 (set_timestamping-Same a new v val sk)
set_option-Limited a so_rcvlowat v val sk d admin ns =
    same a sk (set_rcvlowat a.set_rcvlowat val sk).1 (set_rcvlowat-Same a.set_rcvlowat val sk d)
set_option-Limited a so_rcvtimeo v val sk d admin ns = unmoved a sk
set_option-Limited a so_sndtimeo v val sk d admin ns = unmoved a sk
set_option-Limited a so_attach_filter v val sk d admin ns = unmoved a sk
set_option-Limited a so_attach_bpf v val sk d admin ns = unmoved a sk
set_option-Limited a so_attach_reuseport_cbpf v val sk d admin ns = unmoved a sk
set_option-Limited a so_attach_reuseport_ebpf v val sk d admin ns = unmoved a sk
set_option-Limited a so_detach_reuseport_bpf v val sk d admin ns = unmoved a sk
set_option-Limited a so_detach_filter v val sk d admin ns = unmoved a sk
set_option-Limited a so_lock_filter v val sk d admin ns =
    if_may-Limited a _ eperm sk (sock_valbool_flag sk Flag.filter_locked (is_set val))
      (unmoved a sk)
set_option-Limited a so_passsec v val sk d admin ns = unmoved a sk
set_option-Limited a so_mark v val sk d admin ns = rw ns (unmoved a sk)
set_option-Limited a so_rxq_ovfl v val sk d admin ns = unmoved a sk
set_option-Limited a so_wifi_status v val sk d admin ns = unmoved a sk
set_option-Limited a so_peek_off v val sk d admin ns =
    same a sk (set_peek_off a.set_peek_off val sk).1 (set_peek_off-Same a.set_peek_off val sk)
set_option-Limited a so_nofcs v val sk d admin ns = unmoved a sk
set_option-Limited a so_select_err_queue v val sk d admin ns = unmoved a sk
set_option-Limited a so_busy_poll v val sk d admin ns = busy_poll-Limited a val sk admin
set_option-Limited a so_prefer_busy_poll v val sk d admin ns =
    prefer-Limited a (is_set val) sk admin
set_option-Limited a so_busy_poll_budget v val sk d admin ns = budget-Limited a val sk admin
set_option-Limited a so_max_pacing_rate v val sk d admin ns =
    same a sk (set_max_pacing_rate v.optlen v.ulval val sk).1
      (set_max_pacing_rate-Same v.optlen v.ulval val sk)
set_option-Limited a so_incoming_cpu v val sk d admin ns = unmoved a sk
set_option-Limited a so_cnx_advice v val sk d admin ns = unmoved a sk
set_option-Limited a so_zerocopy v val sk d admin ns =
    same a sk (set_zerocopy val sk).1 (set_zerocopy-Same val sk)
set_option-Limited a so_txtime v val sk d admin ns =
    same a sk (set_txtime a.ns_net_admin v.optlen v.txtime sk).1
      (set_txtime-Same a.ns_net_admin v.optlen v.txtime sk)
set_option-Limited a so_bindtoifindex v val sk d admin ns =
    same a sk (sock_bindtoindex_locked a.ns_net_raw val sk).1
      (sock_bindtoindex_locked-Same a.ns_net_raw val sk)
set_option-Limited a so_buf_lock v val sk d admin ns =
    same a sk (set_buf_lock val sk).1 (set_buf_lock-Same val sk)
set_option-Limited a unknown v val sk d admin ns = unmoved a sk

-- Without CAP_NET_ADMIN, an option, set or refused, leaves a priority of at most 6 or the one of before, a
-- buffer within the doubled limit of the system (or the smallest size) or the one of before, the mark of
-- before, no more time and no larger budget of busy polling, and no preference for it that was not there. An
-- option that is left to a function of the protocol, as SO_RCVLOWAT and SO_PEEK_OFF may be, is not part of
-- this.
pub sock_setsockopt-Limited :
    (a : Answers) (name : Name) (v : Value) (sk : Sock)
    → is_delegated a name ≡ false
    → a.capable_net_admin ≡ false
    → a.ns_net_admin ≡ false
    → Limited a sk (sock_setsockopt a name v sk).1
unfolding sock_setsockopt
sock_setsockopt-Limited a name v sk d admin ns = elim (Bool-cases (ltb v.optlen 4)) [
  | inl h ↦ rw h (unmoved a sk)
  | inr h ↦ rw h (on_val-Limited v.val)
]
  where
    on_val-Limited : (o : Option ℤ) → Limited a sk (on_val a name v sk o).1
    on_val-Limited none = unmoved a sk
    on_val-Limited (some val) = set_option-Limited a name v val sk d admin ns
