-- ===== src/Sock/Options/Get.antt =====
-- `sk_getsockopt` (net/core/sock.c), for the options that `sock_setsockopt` knows.
pub mod Shown
pub mod Laws
use oshm.Prelude.{
  ℕ, ◌+◌, ◌-◌, ◌/◌, ◌%◌, ◌^◌, Bool, true, false, not, ◌&&◌, ◌||◌, leb, min, Option, none, some,
  if◌then◌else◌, ltb_ℤ, ℤ, pos, negsuc, neg, einval, efault, enoprotoopt, eopnotsupp,
}
use oshm.Sock.Options.{Sock, to_int}
use oshm.Sock.Options.Flag
use oshm.Sock.Timeout.{Timeval, sock_get_timeout}
use oshm.Sock.Options.Set.{
  Name, Answers, Linger, Txtime, Value, done, if_may, set_linger, on_timestamping, set_timestamping,
  or_most, set_rcvlowat, attach_bpf, set_peek_off, set_busy_poll, set_busy_poll_budget, paced,
  set_max_pacing_rate, set_zerocopy, set_txtime, set_buf_lock, with_timeo, is_set, set_option,
  on_val, sock_setsockopt, so_debug, so_reuseaddr, so_reuseport, so_type, so_protocol, so_domain,
  so_error, so_dontroute, so_broadcast, so_sndbuf, so_sndbufforce, so_rcvbuf, so_rcvbufforce,
  so_keepalive, so_oobinline, so_no_check, so_priority, so_linger, so_bsdcompat, so_passcred,
  so_timestamp, so_timestamping, so_rcvlowat, so_rcvtimeo, so_sndtimeo, so_attach_filter,
  so_attach_bpf, so_attach_reuseport_cbpf, so_attach_reuseport_ebpf, so_detach_reuseport_bpf,
  so_detach_filter, so_lock_filter, so_passsec, so_mark, so_rxq_ovfl, so_wifi_status, so_peek_off,
  so_nofcs, so_select_err_queue, so_busy_poll, so_prefer_busy_poll, so_busy_poll_budget,
  so_max_pacing_rate, so_incoming_cpu, so_cnx_advice, so_zerocopy, so_txtime, so_bindtoifindex,
  so_buf_lock, unknown,
}

-- What is copied to the user, or an error; `filter_length` is the length of a filter that is copied.
pub data Reply : Type 0 where
  failed : ℤ → Reply
  number : ℤ → Reply
  linger_is : (onoff : Bool) → ℕ → Reply
  stamping_is : ℕ → ℤ → Reply
  time_is : Timeval → Reply
  rate_is : ℕ → Reply
  txtime_is : ℤ → (deadline report : Bool) → Reply
  filter_length : ℤ → Reply

-- The pending error, whether the protocol has peeks at an offset, the filter and the processor.
pub record Others : Type 0 where
  pub error : ℤ
  pub has_peek_off : Bool
  pub get_filter : ℤ
  pub incoming_cpu : ℤ

abbrev pub of_bool : Bool → ℤ
of_bool b = if b then pos 1 else pos 0

abbrev peek_is : (has_peek_off : Bool) → ℤ → Reply
peek_is false off = failed (neg eopnotsupp)
peek_is true off = number off

abbrev filter_is : ℤ → Reply
filter_is len = if ltb_ℤ len (pos 0) then failed len else filter_length len

-- SO_ATTACH_FILTER has the number of SO_GET_FILTER.
unfoldable pub get_option : Others → (len : ℕ) → Name → Sock → Reply
get_option o len so_debug sk = number (of_bool (sk.flags Flag.dbg))
get_option o len so_dontroute sk = number (of_bool (sk.flags Flag.localroute))
get_option o len so_broadcast sk = number (of_bool (sk.flags Flag.broadcast))
get_option o len so_sndbuf sk = number (pos sk.sk_sndbuf)
get_option o len so_rcvbuf sk = number (pos sk.sk_rcvbuf)
get_option o len so_reuseaddr sk = number (of_bool sk.sk_reuse)
get_option o len so_reuseport sk = number (of_bool sk.sk_reuseport)
get_option o len so_keepalive sk = number (of_bool (sk.flags Flag.keepopen))
get_option o len so_type sk = number (pos sk.sk_type)
get_option o len so_protocol sk = number (pos sk.sk_protocol)
get_option o len so_domain sk = number (pos sk.sk_family)
get_option o len so_error sk = number o.error
get_option o len so_oobinline sk = number (of_bool (sk.flags Flag.urginline))
get_option o len so_no_check sk = number (of_bool sk.sk_no_check_tx)
get_option o len so_priority sk = number (to_int sk.sk_priority)
get_option o len so_linger sk = linger_is (sk.flags Flag.linger) (sk.sk_lingertime / 250)
get_option o len so_bsdcompat sk = number (pos 0)
get_option o len (so_timestamp false false) sk = number (
    of_bool (
      sk.flags Flag.rcvtstamp && not (sk.flags Flag.tstamp_new) && not (sk.flags Flag.rcvtstampns)))
get_option o len (so_timestamp false true) sk =
    number (of_bool (sk.flags Flag.rcvtstampns && not (sk.flags Flag.tstamp_new)))
get_option o len (so_timestamp true false) sk =
    number (of_bool (sk.flags Flag.rcvtstamp && sk.flags Flag.tstamp_new))
get_option o len (so_timestamp true true) sk =
    number (of_bool (sk.flags Flag.rcvtstampns && sk.flags Flag.tstamp_new))
get_option o len (so_timestamping new) sk =
    if not new || sk.flags Flag.tstamp_new
    then stamping_is sk.sk_tsflags sk.sk_bind_phc
    else stamping_is 0 (pos 0)
get_option o len so_rcvtimeo sk = time_is (sock_get_timeout sk.sk_rcvtimeo)
get_option o len so_sndtimeo sk = time_is (sock_get_timeout sk.sk_sndtimeo)
get_option o len so_rcvlowat sk = number (pos sk.sk_rcvlowat)
get_option o len so_passcred sk = number (of_bool sk.passcred)
get_option o len so_passsec sk = number (of_bool sk.passsec)
get_option o len so_mark sk = number (to_int sk.sk_mark)
get_option o len so_rxq_ovfl sk = number (of_bool (sk.flags Flag.rxq_ovfl))
get_option o len so_wifi_status sk = number (of_bool (sk.flags Flag.wifi_status))
get_option o len so_peek_off sk = peek_is o.has_peek_off sk.sk_peek_off
get_option o len so_nofcs sk = number (of_bool (sk.flags Flag.nofcs))
get_option o len so_attach_filter sk = filter_is o.get_filter
get_option o len so_lock_filter sk = number (of_bool (sk.flags Flag.filter_locked))
get_option o len so_select_err_queue sk = number (of_bool (sk.flags Flag.select_err_queue))
get_option o len so_busy_poll sk = number (to_int sk.sk_ll_usec)
get_option o len so_prefer_busy_poll sk = number (of_bool sk.sk_prefer_busy_poll)
get_option o len so_max_pacing_rate sk =
    if leb 8 len
    then rate_is sk.sk_max_pacing_rate
    else number (to_int (min (2 ^ 32 - 1) sk.sk_max_pacing_rate))
get_option o len so_incoming_cpu sk = number o.incoming_cpu
get_option o len so_zerocopy sk = number (of_bool (sk.flags Flag.zerocopy))
get_option o len so_txtime sk =
    txtime_is sk.sk_clockid sk.sk_txtime_deadline_mode sk.sk_txtime_report_errors
get_option o len so_bindtoifindex sk = number (pos sk.sk_bound_dev_if)
get_option o len so_buf_lock sk = number (pos (sk.sk_userlocks % 4))
get_option o len so_sndbufforce sk = failed (neg enoprotoopt)
get_option o len so_rcvbufforce sk = failed (neg enoprotoopt)
get_option o len so_attach_bpf sk = failed (neg enoprotoopt)
get_option o len so_attach_reuseport_cbpf sk = failed (neg enoprotoopt)
get_option o len so_attach_reuseport_ebpf sk = failed (neg enoprotoopt)
get_option o len so_detach_reuseport_bpf sk = failed (neg enoprotoopt)
get_option o len so_detach_filter sk = failed (neg enoprotoopt)
get_option o len so_busy_poll_budget sk = failed (neg enoprotoopt)
get_option o len so_cnx_advice sk = failed (neg enoprotoopt)
get_option o len unknown sk = failed (neg enoprotoopt)

-- The user's memory: the length that it has, if it can be read, and whether the value and the length can be
-- written.
pub record User : Type 0 where
  pub optlen : Option ℤ
  pub takes_value : Bool
  pub takes_length : Bool

-- An error, or 0 with so many bytes of a value.
pub data Got : Type 0 where
  error : ℤ → Got
  got : ℤ → Reply → Got

-- `lv`
abbrev pub size_of : Reply → ℕ
size_of (failed e) = 4
size_of (number n) = 4
size_of (linger_is onoff n) = 8
size_of (stamping_is flags phc) = 8
size_of (time_is t) = 16
size_of (rate_is n) = 8
size_of (txtime_is c deadline report) = 8
size_of (filter_length n) = 4

-- From the cut of the length on.
abbrev pub copy_out : User → (len : ℕ) → Reply → Got
copy_out u len r =
    if u.takes_value && u.takes_length
    then got (pos (min len (size_of r))) r
    else error (neg efault)

-- A filter is copied by its own function, and only its length is written here.
abbrev pub reply_to : User → (len : ℕ) → Reply → Got
reply_to u len (failed e) = error e
reply_to u len (filter_length n) =
    if u.takes_length then got n (filter_length n) else error (neg efault)
reply_to u len r = copy_out u len r

abbrev pub with_length : Others → User → Name → Sock → Option ℤ → Got
with_length o u name sk none = error (neg efault)
with_length o u name sk (some (negsuc n)) = error (neg einval)
with_length o u name sk (some (pos len)) = reply_to u len (get_option o len name sk)

unfoldable pub sk_getsockopt : Others → User → Name → Sock → Got
unfolding get_option
sk_getsockopt o u name sk = with_length o u name sk u.optlen
