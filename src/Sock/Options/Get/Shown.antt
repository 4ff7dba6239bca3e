-- ===== src/Sock/Options/Get/Shown.antt =====
-- The numbers that `sk_getsockopt` (net/core/sock.c) is to show of what `sock_setsockopt` sets.
use oshm.Prelude.{
  ℕ, zero, suc, is_some, if◌then◌else◌, ◌+◌, ◌-◌, ◌*◌, ◌^◌, ◌<◌, Bool, true, false, ltb, min,
  Option, none, some, eqb_ℤ, ℤ, pos, negsuc,
}
use oshm.Sock.Options.Get.{Reply, number}
use oshm.Sock.Options.Set.{
  Name, Answers, so_debug, so_reuseaddr, so_reuseport, so_type, so_protocol, so_domain, so_error,
  so_dontroute, so_broadcast, so_sndbuf, so_sndbufforce, so_rcvbuf, so_rcvbufforce, so_keepalive,
  so_oobinline, so_no_check, so_priority, so_linger, so_bsdcompat, so_passcred, so_timestamp,
  so_timestamping, so_rcvlowat, so_rcvtimeo, so_sndtimeo, so_attach_filter, so_attach_bpf,
  so_attach_reuseport_cbpf, so_attach_reuseport_ebpf, so_detach_reuseport_bpf, so_detach_filter,
  so_lock_filter, so_passsec, so_mark, so_rxq_ovfl, so_wifi_status, so_peek_off, so_nofcs,
  so_select_err_queue, so_busy_poll, so_prefer_busy_poll, so_busy_poll_budget, so_max_pacing_rate,
  so_incoming_cpu, so_cnx_advice, so_zerocopy, so_txtime, so_bindtoifindex, so_buf_lock, unknown,
}

-- The values of a C `int`.
abbrev pub IsInt : ℤ → Type 0
IsInt (pos n) = n < 2 ^ 31
IsInt (negsuc n) = n < 2 ^ 31

-- An `unsigned int` that is taken as an `int`, cut to half of the largest, and doubled as an `int`; a negative
-- product counts as 0.
abbrev pub doubled : ℕ → ℕ
doubled m =
    if ltb m (2 ^ 30)
    then m * 2
    else if ltb m (2 ^ 31)
    then 2 ^ 31 - 2
    else if ltb m (2 ^ 31 + 2 ^ 30)
    then m * 2 - 2 ^ 32
    else 0

abbrev pub as_word : ℤ → ℕ
as_word (pos n) = n
as_word (negsuc n) = 2 ^ 32 - 1 - n

-- The size of a buffer: the value asked for, as an `unsigned int` of at most the system's limit, doubled, and
-- not below the smallest size.
abbrev pub sized : (most floor : ℕ) → ℤ → ℕ
sized most floor val = let d = doubled (min (as_word val) most) in if ltb d floor then floor else d

-- A low mark of 0 is 1, and one below 0 the largest `int`, where the protocol has no function for it.
abbrev pub shown_lowat : (delegated : Bool) → ℤ → Option Reply
shown_lowat true val = none
shown_lowat false (pos zero) = some (number (pos 1))
shown_lowat false (pos (suc n)) = some (number (pos (suc n)))
shown_lowat false (negsuc n) = some (number (pos (2 ^ 31 - 1)))

-- A flag is shown as 0 or 1.
abbrev pub flag : ℤ → ℤ
flag val = if eqb_ℤ val (pos 0) then pos 0 else pos 1

-- The number that a value is shown as, where the option is a number: 0 or 1 for a flag, the doubled size
-- within its bounds for a buffer, and else the value itself.
abbrev pub shown : Answers → Name → ℤ → Option Reply
shown a so_debug val = some (number (flag val))
shown a so_reuseaddr val = some (number (flag val))
shown a so_reuseport val = some (number (flag val))
shown a so_type val = none
shown a so_protocol val = none
shown a so_domain val = none
shown a so_error val = none
shown a so_dontroute val = some (number (flag val))
shown a so_broadcast val = some (number (flag val))
shown a so_sndbuf val = some (number (pos (sized a.sysctl_wmem_max a.sock_min_sndbuf val)))
shown a so_sndbufforce val = none
shown a so_rcvbuf val = some (number (pos (sized a.sysctl_rmem_max a.sock_min_rcvbuf val)))
shown a so_rcvbufforce val = none
shown a so_keepalive val = some (number (flag val))
shown a so_oobinline val = some (number (flag val))
shown a so_no_check val = some (number (flag val))
shown a so_priority val = some (number val)
shown a so_linger val = none
shown a so_bsdcompat val = none
shown a so_passcred val = some (number (flag val))
shown a (so_timestamp new ns) val = none
shown a (so_timestamping new) val = none
shown a so_rcvlowat val = shown_lowat (is_some a.set_rcvlowat) val
shown a so_rcvtimeo val = none
shown a so_sndtimeo val = none
shown a so_attach_filter val = none
shown a so_attach_bpf val = none
shown a so_attach_reuseport_cbpf val = none
shown a so_attach_reuseport_ebpf val = none
shown a so_detach_reuseport_bpf val = none
shown a so_detach_filter val = none
shown a so_lock_filter val = some (number (flag val))
shown a so_passsec val = some (number (flag val))
shown a so_mark val = some (number val)
shown a so_rxq_ovfl val = some (number (flag val))
shown a so_wifi_status val = some (number (flag val))
shown a so_peek_off val = none
shown a so_nofcs val = some (number (flag val))
shown a so_select_err_queue val = some (number (flag val))
shown a so_busy_poll val = some (number val)
shown a so_prefer_busy_poll val = some (number (flag val))
shown a so_busy_poll_budget val = none
shown a so_max_pacing_rate val = none
shown a so_incoming_cpu val = none
shown a so_cnx_advice val = none
shown a so_zerocopy val = some (number val)
shown a so_txtime val = none
shown a so_bindtoifindex val = some (number val)
shown a so_buf_lock val = some (number val)
shown a unknown val = none
