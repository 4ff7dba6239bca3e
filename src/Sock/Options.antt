-- ===== src/Sock/Options.antt =====
-- The options of a socket (net/core/sock.c): what `struct sock` and the flags of `struct socket` keep of
-- them, and the helpers of `sock_setsockopt`.
pub mod Flag
pub mod Timestamps
pub mod Set
pub mod Get
pub mod Priority
pub mod Clone
mod Tests
use oshm.Prelude.{
  ℕ, ◌+◌, ◌-◌, ◌*◌, ◌/◌, ◌%◌, ◌^◌, Bool, true, false, not, ◌&&◌, ◌||◌, ◌==◌, ltb, leb, min, Option,
  none, some, if◌then◌else◌, update, ℤ, pos, negsuc, neg, eqb_ℤ, ltb_ℤ, eperm, enodev, einval,
  efault,
}

-- `flags` are the bits of `sk_flags`, by number; `passcred` and `passsec` those of the `struct socket`.
-- `netstamps` counts the calls of `net_enable_timestamp` less those of `net_disable_timestamp`,
-- `dst_resets` those of `sk_dst_reset`, `write_spaces` those of `sk_write_space`.
pub record Sock : Type 0 where
  pub sk_family : ℕ
  pub sk_type : ℕ
  pub sk_protocol : ℕ
  pub sk_state : ℕ
  pub flags : ℕ → Bool
  pub passcred : Bool
  pub passsec : Bool
  pub sk_reuse : Bool
  pub sk_reuseport : Bool
  pub sk_no_check_tx : Bool
  pub sk_sndbuf : ℕ
  pub sk_rcvbuf : ℕ
  pub sk_userlocks : ℕ
  pub sk_priority : ℕ
  pub sk_mark : ℕ
  pub sk_lingertime : ℕ
  pub sk_rcvlowat : ℕ
  pub sk_peek_off : ℤ
  pub sk_rcvtimeo : ℕ
  pub sk_sndtimeo : ℕ
  pub sk_ll_usec : ℕ
  pub sk_prefer_busy_poll : Bool
  pub sk_busy_poll_budget : ℕ
  pub pacing_needed : Bool
  pub sk_max_pacing_rate : ℕ
  pub sk_pacing_rate : ℕ
  pub sk_clockid : ℤ
  pub sk_txtime_deadline_mode : Bool
  pub sk_txtime_report_errors : Bool
  pub sk_bound_dev_if : ℕ
  pub sk_tsflags : ℕ
  pub sk_tskey : ℕ
  pub sk_bind_phc : ℤ
  pub netstamps : ℕ
  pub dst_resets : ℕ
  pub write_spaces : ℕ

abbrev pub sock_valbool_flag : Sock → ℕ → Bool → Sock
sock_valbool_flag sk f b = record sk { flags = update sk.flags f b }

-- An `int` as an `unsigned int`, and back.
abbrev pub to_u32 : ℤ → ℕ
to_u32 (pos n) = n
to_u32 (negsuc n) = 2 ^ 32 - 1 - n

abbrev pub to_int : ℕ → ℤ
to_int n = if ltb n (2 ^ 31) then pos n else negsuc (2 ^ 32 - 1 - n)

abbrev max : ℕ → ℕ → ℕ
max a b = if ltb a b then b else a

-- The `int` is at most half of the largest, doubled with a wrap-around, and not below `floor`.
abbrev pub buffer : ℤ → (floor : ℕ) → ℕ
buffer (pos n) floor = max (min n (2 ^ 30 - 1) * 2) floor
buffer (negsuc n) floor =
    if leb (2 * n + 2) (2 ^ 31) then floor else max (2 ^ 32 - (2 * n + 2)) floor

-- The bit `k` set in a word.
abbrev with_bit : ℕ → ℕ → ℕ
with_bit word k = if (word / 2 ^ k) % 2 == 1 then word else word + 2 ^ k

-- `__sock_set_rcvbuf`
unfoldable pub sock_set_rcvbuf : (sock_min_rcvbuf : ℕ) → ℤ → Sock → Sock
sock_set_rcvbuf sock_min_rcvbuf val sk = record sk {
  sk_userlocks = with_bit sk.sk_userlocks 1;
  sk_rcvbuf = buffer val sock_min_rcvbuf;
}

-- From the label `set_sndbuf` on.
unfoldable pub set_sndbuf : (sock_min_sndbuf : ℕ) → ℤ → Sock → Sock
set_sndbuf sock_min_sndbuf val sk = record sk {
  sk_userlocks = with_bit sk.sk_userlocks 0;
  sk_sndbuf = buffer val sock_min_sndbuf;
  write_spaces = sk.write_spaces + 1;
}

-- `__sock_set_mark`
unfoldable pub sock_set_mark : ℕ → Sock → Sock
sock_set_mark val sk =
    if val == sk.sk_mark then sk else record sk { sk_mark = val; dst_resets = sk.dst_resets + 1 }

-- `ns_net_raw` is CAP_NET_RAW in the user namespace of the network.
unfoldable pub sock_bindtoindex_locked : (ns_net_raw : Bool) → ℤ → Sock → ℤ × Sock
sock_bindtoindex_locked ns_net_raw (negsuc n) sk =
    if not (sk.sk_bound_dev_if == 0) && not ns_net_raw then (neg eperm, sk) else (neg einval, sk)
sock_bindtoindex_locked ns_net_raw (pos index) sk =
    if not (sk.sk_bound_dev_if == 0) && not ns_net_raw
    then (neg eperm, sk)
    else (pos 0, record sk { sk_bound_dev_if = index; dst_resets = sk.dst_resets + 1 })

-- The name of a device, as copied from the user: none, or one that has an index if it is known.
pub data DevName : Type 0 where
  unnamed : DevName
  named : Option ℕ → DevName

unfoldable pub sock_setbindtodevice :
    (ns_net_raw : Bool) (optlen : ℤ) → Option DevName → Sock → ℤ × Sock
sock_setbindtodevice ns_net_raw (negsuc n) copy sk = (neg einval, sk)
sock_setbindtodevice ns_net_raw (pos n) none sk = (neg efault, sk)
sock_setbindtodevice ns_net_raw (pos n) (some unnamed) sk =
    sock_bindtoindex_locked ns_net_raw (pos 0) sk
sock_setbindtodevice ns_net_raw (pos n) (some (named none)) sk = (neg enodev, sk)
sock_setbindtodevice ns_net_raw (pos n) (some (named (some index))) sk =
    sock_bindtoindex_locked ns_net_raw (pos index) sk

-- What a protocol with peeks at an offset may use for them: the error, and the offset of the socket.
unfoldable pub sk_set_peek_off : Sock → ℤ → ℤ × ℤ
sk_set_peek_off sk val = (pos 0, val)
