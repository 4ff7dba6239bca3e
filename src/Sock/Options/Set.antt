-- ===== src/Sock/Options/Set.antt =====
-- `sock_setsockopt` (net/core/sock.c), with CONFIG_NET_RX_BUSY_POLL and a `long` of 64 bits. The lock of the
-- socket, the filters and the functions of the protocol are answers of the surroundings.
pub mod Arms
unfoldable pub use Arms.*
pub mod Refused
pub mod Keeps
pub mod Limits
pub mod Unprivileged
pub mod Stamps
use oshm.Prelude.{
  ℕ, ◌+◌, ◌-◌, ◌*◌, ◌/◌, ◌%◌, ◌^◌, Bool, true, false, not, ◌&&◌, ◌||◌, ◌==◌, ltb, leb, min, Option,
  none, some, List, if◌then◌else◌, ℤ, pos, negsuc, neg, eqb_ℤ, ltb_ℤ, leb_ℤ, eperm, eacces, einval,
  efault, enotsupp, enoprotoopt, eopnotsupp,
}
use oshm.Sock.Options.{
  Sock, sock_valbool_flag, to_u32, to_int, set_sndbuf, sock_set_rcvbuf, sock_set_mark,
  sock_bindtoindex_locked,
}
use oshm.Sock.Options.Flag
use oshm.Sock.Options.Timestamps.{Timestamping, sock_set_timestamps, sock_set_timestamping}
use oshm.Sock.Timeout.{Timeval, sock_set_timeout}

-- The switch.
unfoldable pub set_option : Answers → Name → Value → ℤ → Sock → ℤ × Sock
set_option a so_debug v val sk =
    if_may (not (is_set val && not a.capable_net_admin)) eacces sk
      (sock_valbool_flag sk Flag.dbg (is_set val))
set_option a so_reuseaddr v val sk = done (record sk { sk_reuse = is_set val })
set_option a so_reuseport v val sk =
    if_may (not (is_set val && not a.sk_is_inet)) eopnotsupp sk
      (record sk { sk_reuseport = is_set val })
set_option a so_type v val sk = (neg enoprotoopt, sk)
set_option a so_protocol v val sk = (neg enoprotoopt, sk)
set_option a so_domain v val sk = (neg enoprotoopt, sk)
set_option a so_error v val sk = (neg enoprotoopt, sk)
set_option a so_dontroute v val sk =
    done (record (sock_valbool_flag sk Flag.localroute (is_set val)) {
      dst_resets = sk.dst_resets + 1;
    })
set_option a so_broadcast v val sk = done (sock_valbool_flag sk Flag.broadcast (is_set val))
set_option a so_sndbuf v val sk =
    done (set_sndbuf a.sock_min_sndbuf (to_int (min (to_u32 val) a.sysctl_wmem_max)) sk)
set_option a so_sndbufforce v val sk =
    if_may a.capable_net_admin eperm sk
      (set_sndbuf a.sock_min_sndbuf (if ltb_ℤ val (pos 0) then pos 0 else val) sk)
set_option a so_rcvbuf v val sk =
    done (sock_set_rcvbuf a.sock_min_rcvbuf (to_int (min (to_u32 val) a.sysctl_rmem_max)) sk)
set_option a so_rcvbufforce v val sk =
    if_may a.capable_net_admin eperm sk
      (sock_set_rcvbuf a.sock_min_rcvbuf (if ltb_ℤ val (pos 0) then pos 0 else val) sk)
set_option a so_keepalive v val sk = done (sock_valbool_flag sk Flag.keepopen (is_set val))
set_option a so_oobinline v val sk = done (sock_valbool_flag sk Flag.urginline (is_set val))
set_option a so_no_check v val sk = done (record sk { sk_no_check_tx = is_set val })
set_option a so_priority v val sk =
    if_may ((leb_ℤ (pos 0) val && leb_ℤ val (pos 6)) || a.ns_net_admin) eperm sk
      (record sk { sk_priority = to_u32 val })
set_option a so_linger v val sk = set_linger v.optlen v.ling sk
set_option a so_bsdcompat v val sk = done sk
set_option a so_passcred v val sk = done (record sk { passcred = is_set val })
set_option a (so_timestamp new ns) v val sk = done (sock_set_timestamps (is_set val) new ns sk)
set_option a (so_timestamping new) v val sk = set_timestamping a new v val sk
set_option a so_rcvlowat v val sk = set_rcvlowat a.set_rcvlowat val sk
set_option a so_rcvtimeo v val sk =
    with_timeo (λ s t. record s { sk_rcvtimeo = t }) sk
      (sock_set_timeout v.optlen 16 v.timeval sk.sk_rcvtimeo)
set_option a so_sndtimeo v val sk =
    with_timeo (λ s t. record s { sk_sndtimeo = t }) sk
      (sock_set_timeout v.optlen 16 v.timeval sk.sk_sndtimeo)
set_option a so_attach_filter v val sk = (a.filter so_attach_filter, sk)
set_option a so_attach_bpf v val sk = (attach_bpf v.optlen v.ufd (a.filter so_attach_bpf), sk)
set_option a so_attach_reuseport_cbpf v val sk = (a.filter so_attach_reuseport_cbpf, sk)
set_option a so_attach_reuseport_ebpf v val sk =
    (attach_bpf v.optlen v.ufd (a.filter so_attach_reuseport_ebpf), sk)
set_option a so_detach_reuseport_bpf v val sk = (a.filter so_detach_reuseport_bpf, sk)
set_option a so_detach_filter v val sk = (a.filter so_detach_filter, sk)
set_option a so_lock_filter v val sk =
    if_may (not (sk.flags Flag.filter_locked && eqb_ℤ val (pos 0))) eperm sk
      (sock_valbool_flag sk Flag.filter_locked (is_set val))
set_option a so_passsec v val sk = done (record sk { passsec = is_set val })
set_option a so_mark v val sk = if_may a.ns_net_admin eperm sk (sock_set_mark (to_u32 val) sk)
set_option a so_rxq_ovfl v val sk = done (sock_valbool_flag sk Flag.rxq_ovfl (is_set val))
set_option a so_wifi_status v val sk = done (sock_valbool_flag sk Flag.wifi_status (is_set val))
set_option a so_peek_off v val sk = set_peek_off a.set_peek_off val sk
set_option a so_nofcs v val sk = done (sock_valbool_flag sk Flag.nofcs (is_set val))
set_option a so_select_err_queue v val sk =
    done (sock_valbool_flag sk Flag.select_err_queue (is_set val))
set_option a so_busy_poll v val sk = set_busy_poll a.capable_net_admin val sk
set_option a so_prefer_busy_poll v val sk =
    if_may (not (is_set val && not a.capable_net_admin)) eperm sk
      (record sk { sk_prefer_busy_poll = is_set val })
set_option a so_busy_poll_budget v val sk = set_busy_poll_budget a.capable_net_admin val sk
set_option a so_max_pacing_rate v val sk = set_max_pacing_rate v.optlen v.ulval val sk
set_option a so_incoming_cpu v val sk = done sk
set_option a so_cnx_advice v val sk = done sk
set_option a so_zerocopy v val sk = set_zerocopy val sk
set_option a so_txtime v val sk = set_txtime a.ns_net_admin v.optlen v.txtime sk
set_option a so_bindtoifindex v val sk = sock_bindtoindex_locked a.ns_net_raw val sk
set_option a so_buf_lock v val sk = set_buf_lock val sk
set_option a unknown v val sk = (neg enoprotoopt, sk)

-- With the copy of the value.
abbrev pub on_val : Answers → Name → Value → Sock → Option ℤ → ℤ × Sock
on_val a name v sk none = (neg efault, sk)
on_val a name v sk (some val) = set_option a name v val sk

-- All options but SO_BINDTODEVICE, which returns before the value is read.
unfoldable pub sock_setsockopt : Answers → Name → Value → Sock → ℤ × Sock
sock_setsockopt a name v sk = if ltb v.optlen 4 then (neg einval, sk) else on_val a name v sk v.val
