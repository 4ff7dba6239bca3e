-- ===== src/Sock/Options/Set/Arms.antt =====
-- The parts of `sock_setsockopt` (net/core/sock.c): the options by name, the user's value, what the
-- surroundings answer, and the cases of the switch that test more than one thing.
use oshm.Prelude.{
  ℕ, ◌+◌, ◌-◌, ◌*◌, ◌/◌, ◌%◌, ◌^◌, Bool, true, false, not, ◌&&◌, ◌||◌, ◌==◌, ltb, leb, min, Option,
  none, some, is_some, List, if◌then◌else◌, ℤ, pos, negsuc, neg, eqb_ℤ, ltb_ℤ, eperm, einval,
  efault, enotsupp, eopnotsupp,
}
use oshm.Sock.Options.{Sock, sock_valbool_flag, to_u32}
use oshm.Sock.Options.Flag
use oshm.Sock.Options.Timestamps.{Timestamping, sock_set_timestamping}
use oshm.Sock.Timeout.{Timeval}

-- The options of the switch; those of time stamps by whether they are the new ones, and in nanoseconds;
-- `unknown` is every other number.
pub data Name : Type 0 where
  so_debug : Name
  so_reuseaddr : Name
  so_reuseport : Name
  so_type : Name
  so_protocol : Name
  so_domain : Name
  so_error : Name
  so_dontroute : Name
  so_broadcast : Name
  so_sndbuf : Name
  so_sndbufforce : Name
  so_rcvbuf : Name
  so_rcvbufforce : Name
  so_keepalive : Name
  so_oobinline : Name
  so_no_check : Name
  so_priority : Name
  so_linger : Name
  so_bsdcompat : Name
  so_passcred : Name
  so_timestamp : (new ns : Bool) → Name
  so_timestamping : (new : Bool) → Name
  so_rcvlowat : Name
  so_rcvtimeo : Name
  so_sndtimeo : Name
  so_attach_filter : Name
  so_attach_bpf : Name
  so_attach_reuseport_cbpf : Name
  so_attach_reuseport_ebpf : Name
  so_detach_reuseport_bpf : Name
  so_detach_filter : Name
  so_lock_filter : Name
  so_passsec : Name
  so_mark : Name
  so_rxq_ovfl : Name
  so_wifi_status : Name
  so_peek_off : Name
  so_nofcs : Name
  so_select_err_queue : Name
  so_busy_poll : Name
  so_prefer_busy_poll : Name
  so_busy_poll_budget : Name
  so_max_pacing_rate : Name
  so_incoming_cpu : Name
  so_cnx_advice : Name
  so_zerocopy : Name
  so_txtime : Name
  so_bindtoifindex : Name
  so_buf_lock : Name
  unknown : Name

-- The capabilities, the limits of the system, and what the code of other files answers: `filter` for the
-- calls that change the filters, and the protocol's functions, where it has them: of `set_rcvlowat` the error
-- and what it leaves in `sk_rcvlowat` and `sk_rcvbuf`, of `set_peek_off` the error and `sk_peek_off`.
pub record Answers : Type 0 where
  pub capable_net_admin : Bool
  pub ns_net_admin : Bool
  pub ns_net_raw : Bool
  pub sysctl_wmem_max : ℕ
  pub sysctl_rmem_max : ℕ
  pub sock_min_sndbuf : ℕ
  pub sock_min_rcvbuf : ℕ
  pub sk_is_inet : Bool
  pub set_rcvlowat : Option (Sock → ℕ → ℤ × ℕ × ℕ)
  pub set_peek_off : Option (Sock → ℤ → ℤ × ℤ)
  pub filter : Name → ℤ
  pub snd_una : ℕ
  pub phc_vclocks : ℕ → Option (List ℤ)

pub record Linger : Type 0 where
  pub onoff : Bool
  pub linger : ℕ

pub record Txtime : Type 0 where
  pub clockid : ℤ
  pub flags : ℕ

-- The user's value: its length, and what a copy of each type gives.
pub record Value : Type 0 where
  pub optlen : ℕ
  pub val : Option ℤ
  pub ling : Option Linger
  pub timestamping : Option Timestamping
  pub timeval : Option Timeval
  pub ufd : Option ℕ
  pub ulval : Option ℕ
  pub txtime : Option Txtime

abbrev pub done : Sock → ℤ × Sock
done sk = (pos 0, sk)

abbrev pub if_may : Bool → (err : ℕ) → Sock → Sock → ℤ × Sock
if_may b err sk sk' = if b then (pos 0, sk') else (neg err, sk)

-- The product is an `unsigned int`.
unfoldable pub set_linger : (optlen : ℕ) → Option Linger → Sock → ℤ × Sock
set_linger optlen none sk = if ltb optlen 8 then (neg einval, sk) else (neg efault, sk)
set_linger optlen (some l) sk =
    if ltb optlen 8
    then (neg einval, sk)
    else if not l.onoff
    then done (sock_valbool_flag sk Flag.linger false)
    else done
        (sock_valbool_flag (record sk { sk_lingertime = l.linger * 250 % 2 ^ 32 }) Flag.linger true)

-- With the copy of the structure.
abbrev pub on_timestamping : Answers → (new : Bool) → Sock → Option Timestamping → ℤ × Sock
on_timestamping a new sk none = (neg efault, sk)
on_timestamping a new sk (some t) = sock_set_timestamping a.snd_una a.phc_vclocks new t sk

-- Where no structure is copied, the flags are those of `val`.
unfoldable pub set_timestamping : Answers → (new : Bool) → Value → ℤ → Sock → ℤ × Sock
set_timestamping a new v val sk =
    if v.optlen == 8
    then on_timestamping a new sk v.timestamping
    else sock_set_timestamping a.snd_una a.phc_vclocks new
        (record { flags = val; bind_phc = pos 0 }) sk

-- A value below 0 stands for the largest `int`.
abbrev pub or_most : ℤ → ℕ
or_most (pos n) = n
or_most (negsuc n) = 2 ^ 31 - 1

unfoldable pub set_rcvlowat : Option (Sock → ℕ → ℤ × ℕ × ℕ) → ℤ → Sock → ℤ × Sock
set_rcvlowat none val sk =
    let n = or_most val in done (record sk { sk_rcvlowat = if n == 0 then 1 else n })
set_rcvlowat (some f) val sk =
    let (ret, lowat, rcvbuf) = f sk (or_most val) in
    (ret, record sk { sk_rcvlowat = lowat; sk_rcvbuf = rcvbuf })

unfoldable pub attach_bpf : (optlen : ℕ) → Option ℕ → (answer : ℤ) → ℤ
attach_bpf optlen none answer = if optlen == 4 then neg efault else neg einval
attach_bpf optlen (some ufd) answer = if optlen == 4 then answer else neg einval

unfoldable pub set_peek_off : Option (Sock → ℤ → ℤ × ℤ) → ℤ → Sock → ℤ × Sock
set_peek_off none val sk = (neg eopnotsupp, sk)
set_peek_off (some f) val sk = let (ret, off) = f sk val in (ret, record sk { sk_peek_off = off })

-- `val > sk_ll_usec` compares without a sign.
unfoldable pub set_busy_poll : (capable : Bool) → ℤ → Sock → ℤ × Sock
set_busy_poll capable val sk =
    if ltb sk.sk_ll_usec (to_u32 val) && not capable
    then (neg eperm, sk)
    else if ltb_ℤ val (pos 0)
    then (neg einval, sk)
    else done (record sk { sk_ll_usec = to_u32 val })

unfoldable pub set_busy_poll_budget : (capable : Bool) → ℤ → Sock → ℤ × Sock
set_busy_poll_budget capable val sk =
    if ltb_ℤ (pos sk.sk_busy_poll_budget) val && not capable
    then (neg eperm, sk)
    else if ltb_ℤ val (pos 0) || ltb_ℤ (pos (2 ^ 16 - 1)) val
    then (neg einval, sk)
    else done (record sk { sk_busy_poll_budget = to_u32 val })

abbrev pub paced : ℕ → Sock → Sock
paced rate sk = record sk {
  pacing_needed = sk.pacing_needed || not (rate == 2 ^ 64 - 1);
  sk_max_pacing_rate = rate;
  sk_pacing_rate = min sk.sk_pacing_rate rate;
}

unfoldable pub set_max_pacing_rate : (optlen : ℕ) → Option ℕ → ℤ → Sock → ℤ × Sock
set_max_pacing_rate optlen copy val sk =
    if ltb optlen 8
    then done (paced (if to_u32 val == 2 ^ 32 - 1 then 2 ^ 64 - 1 else to_u32 val) sk)
    else copied copy
  where
    copied : Option ℕ → ℤ × Sock
    copied none = (neg efault, sk)
    copied (some rate) = done (paced rate sk)

-- PF_INET is 2, PF_INET6 10, PF_RDS 21; a stream of TCP is (1, 6), a datagram of UDP (2, 17).
unfoldable pub set_zerocopy : ℤ → Sock → ℤ × Sock
set_zerocopy val sk =
    let inet = sk.sk_family == 2 || sk.sk_family == 10 in
    let tcp = sk.sk_type == 1 && sk.sk_protocol == 6 in
    let udp = sk.sk_type == 2 && sk.sk_protocol == 17 in
    if (inet && not (tcp || udp)) || (not inet && not (sk.sk_family == 21))
    then (neg enotsupp, sk)
    else if ltb_ℤ val (pos 0) || ltb_ℤ (pos 1) val
    then (neg einval, sk)
    else done (sock_valbool_flag sk Flag.zerocopy (not (eqb_ℤ val (pos 0))))

-- Two flags are known; CLOCK_MONOTONIC is 1.
unfoldable pub set_txtime : (ns_net_admin : Bool) (optlen : ℕ) → Option Txtime → Sock → ℤ × Sock
set_txtime ns_net_admin optlen none sk = if optlen == 8 then (neg efault, sk) else (neg einval, sk)
set_txtime ns_net_admin optlen (some t) sk =
    if not (optlen == 8)
    then (neg einval, sk)
    else if leb 4 t.flags
    then (neg einval, sk)
    else if not (eqb_ℤ t.clockid (pos 1)) && not ns_net_admin
    then (neg eperm, sk)
    else done (record (sock_valbool_flag sk Flag.txtime true) {
      sk_clockid = t.clockid;
      sk_txtime_deadline_mode = t.flags % 2 == 1;
      sk_txtime_report_errors = t.flags / 2 == 1;
    })

-- The two low bits are those of SOCK_BUF_LOCK_MASK.
unfoldable pub set_buf_lock : ℤ → Sock → ℤ × Sock
set_buf_lock (negsuc n) sk = (neg einval, sk)
set_buf_lock (pos n) sk =
    if leb 4 n
    then (neg einval, sk)
    else done (record sk { sk_userlocks = n + sk.sk_userlocks / 4 * 4 })

abbrev pub with_timeo : (Sock → ℕ → Sock) → Sock → ℤ × ℕ → ℤ × Sock
with_timeo f sk (ret, timeo) = (ret, f sk timeo)

-- `valbool`
abbrev pub is_set : ℤ → Bool
is_set val = not (eqb_ℤ val (pos 0))

-- The option is carried out by a function of the socket's protocol.
abbrev pub is_delegated : Answers → Name → Bool
is_delegated a so_rcvlowat = is_some a.set_rcvlowat
is_delegated a so_peek_off = is_some a.set_peek_off
is_delegated a other = false
