-- ===== src/Sock/Options/Timestamps.antt =====
-- The time stamps of a socket (net/core/sock.c): two flags ask the network for them, and the network is
-- asked once for both.
pub mod Keeps
use oshm.Prelude.{
  ℕ, ◌+◌, ◌-◌, ◌*◌, ◌/◌, ◌%◌, ◌^◌, ◌≡◌, Bool, true, false, not, ◌&&◌, ◌||◌, ◌==◌, ltb, leb, Option,
  none, some, List, [], ◌∷◌, if◌then◌else◌, update, ℤ, pos, negsuc, neg, eqb_ℤ, einval, eopnotsupp,
  arith,
}
use oshm.Fork.{has}
use oshm.Sock.Options.{Sock, sock_valbool_flag}
use oshm.Sock.Options.Flag

-- AF_UNSPEC is 0 and AF_UNIX 1.
abbrev pub sock_needs_netstamp : Sock → Bool
sock_needs_netstamp sk = not (sk.sk_family == 0 || sk.sk_family == 1)

-- Either flag of SK_FLAGS_TIMESTAMP.
abbrev pub stamped : Sock → Bool
stamped sk = sk.flags Flag.timestamp || sk.flags Flag.timestamping_rx_software

unfoldable pub sock_enable_timestamp : ℕ → Sock → Sock
sock_enable_timestamp flag sk =
    if sk.flags flag
    then sk
    else let v = sock_valbool_flag sk flag true in
      if sock_needs_netstamp v && not (stamped sk)
      then record v { netstamps = v.netstamps + 1 }
      else v

-- Of one flag.
unfoldable pub sock_disable_timestamp : ℕ → Sock → Sock
sock_disable_timestamp flag sk =
    if not (sk.flags flag)
    then sk
    else let v = sock_valbool_flag sk flag false in
      if sock_needs_netstamp v && not (stamped v)
      then record v { netstamps = v.netstamps - 1 }
      else v

-- `__sock_set_timestamps`
unfoldable pub sock_set_timestamps : (val new ns : Bool) → Sock → Sock
sock_set_timestamps val new ns sk =
    if val
    then sock_enable_timestamp Flag.timestamp (
        sock_valbool_flag
          (sock_valbool_flag (sock_valbool_flag sk Flag.tstamp_new new) Flag.rcvtstampns ns)
          Flag.rcvtstamp true)
    else sock_valbool_flag (sock_valbool_flag sk Flag.rcvtstamp false) Flag.rcvtstampns false

pub record Timestamping : Type 0 where
  pub flags : ℤ
  pub bind_phc : ℤ

abbrev pub mem : ℤ → List ℤ → Bool
mem x [] = false
mem x (y ∷ ys) = eqb_ℤ y x || mem x ys

-- With the clocks of the device, if there is one.
abbrev pub bind_phc_of : Option (List ℤ) → ℤ → Sock → ℤ × Sock
bind_phc_of none phc_index sk = (neg eopnotsupp, sk)
bind_phc_of (some clocks) phc_index sk =
    if mem phc_index clocks
    then (pos 0, record sk { sk_bind_phc = phc_index })
    else (neg einval, sk)

-- `phc_vclocks` answers for a number of a device with its clocks, if it exists.
unfoldable pub sock_timestamping_bind_phc :
    (phc_vclocks : ℕ → Option (List ℤ)) → ℤ → Sock → ℤ × Sock
sock_timestamping_bind_phc phc_vclocks phc_index sk =
    bind_phc_of (if sk.sk_bound_dev_if == 0 then none else phc_vclocks sk.sk_bound_dev_if) phc_index
      sk

-- The key that OPT_ID counts from; none, if the socket is TCP's and not connected (TCP_CLOSE is 7 and
-- TCP_LISTEN 10).
abbrev pub opt_id : (snd_una val : ℕ) → Sock → Option Sock
opt_id snd_una val sk =
    if has val 7 && not (has sk.sk_tsflags 7)
    then if sk.sk_protocol == 6 && sk.sk_type == 1
      then if sk.sk_state == 7 || sk.sk_state == 10
        then none
        else some (record sk { sk_tskey = snd_una })
      else some (record sk { sk_tskey = 0 })
    else some sk

-- From `sk_tsflags` on.
abbrev pub stamping : (new : Bool) (val : ℕ) → Sock → Sock
stamping new val sk =
    let v = sock_valbool_flag (record sk { sk_tsflags = val }) Flag.tstamp_new new in
    if has val 3
    then sock_enable_timestamp Flag.timestamping_rx_software v
    else sock_disable_timestamp Flag.timestamping_rx_software v

-- After the check of OPT_ID.
unfoldable pub set_stamping :
    (phc_vclocks : ℕ → Option (List ℤ)) (new : Bool) (val : ℕ) (bind_phc : ℤ)
    → Sock
    → Option Sock
    → ℤ × Sock
set_stamping phc_vclocks new val bind_phc before none = (neg einval, before)
set_stamping phc_vclocks new val bind_phc before (some sk) =
    if has val 12 && not (has val 11)
    then (neg einval, sk)
    else if not (has val 15)
    then (pos 0, stamping new val sk)
    else let (ret, v) = sock_timestamping_bind_phc phc_vclocks bind_phc sk in
      (ret, if eqb_ℤ ret (pos 0) then stamping new val v else v)

-- The mask of the known flags is 16 bits wide.
abbrev pub masked :
    (snd_una : ℕ) (phc_vclocks : ℕ → Option (List ℤ)) (new : Bool)
    → (flags bind_phc : ℤ) → Sock
    → ℤ × Sock
masked snd_una phc_vclocks new (negsuc n) bind_phc sk = (neg einval, sk)
masked snd_una phc_vclocks new (pos val) bind_phc sk =
    if ltb val (2 ^ 16)
    then set_stamping phc_vclocks new val bind_phc sk (opt_id snd_una val sk)
    else (neg einval, sk)

-- `snd_una` is the acknowledged position of a TCP socket.
unfoldable pub sock_set_timestamping :
    (snd_una : ℕ) (phc_vclocks : ℕ → Option (List ℤ)) (new : Bool) → Timestamping → Sock → ℤ × Sock
sock_set_timestamping snd_una phc_vclocks new t sk =
    masked snd_una phc_vclocks new t.flags t.bind_phc sk
