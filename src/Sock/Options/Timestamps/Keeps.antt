-- ===== src/Sock/Options/Timestamps/Keeps.antt =====
-- A property that the single steps of the time stamps (net/core/sock.c) keep is kept by all of them.
use oshm.Prelude.{
  ℕ, Bool, true, false, not, ◌&&◌, ◌||◌, ◌==◌, ltb, Option, none, some, List, ◌^◌, if◌then◌else◌, ℤ,
  pos, negsuc,
}
use oshm.Fork.{has}
use oshm.Sock.Options.{Sock, sock_valbool_flag}
use oshm.Sock.Options.Flag
use oshm.Sock.Options.Timestamps.{
  Timestamping, mem, sock_enable_timestamp, sock_disable_timestamp, sock_set_timestamps,
  bind_phc_of, sock_timestamping_bind_phc, opt_id, stamping, set_stamping, masked,
  sock_set_timestamping,
}

-- `P` does not look at the fields and the flags that only say how to stamp, and the two switches keep it.
pub record IsKept (P : Sock → Type 0) : Type 0 where
  pub tsflags : (n : ℕ) (sk : Sock) → P sk → P (record sk { sk_tsflags = n })
  pub tskey : (n : ℕ) (sk : Sock) → P sk → P (record sk { sk_tskey = n })
  pub bind_phc : (n : ℤ) (sk : Sock) → P sk → P (record sk { sk_bind_phc = n })
  pub tstamp_new : (b : Bool) (sk : Sock) → P sk → P (sock_valbool_flag sk Flag.tstamp_new b)
  pub rcvtstamp : (b : Bool) (sk : Sock) → P sk → P (sock_valbool_flag sk Flag.rcvtstamp b)
  pub rcvtstampns : (b : Bool) (sk : Sock) → P sk → P (sock_valbool_flag sk Flag.rcvtstampns b)
  pub timestamp : (sk : Sock) → P sk → P (sock_enable_timestamp Flag.timestamp sk)
  pub rx_software : (sk : Sock) → P sk → P (sock_enable_timestamp Flag.timestamping_rx_software sk)
  pub no_rx_software :
      (sk : Sock) → P sk → P (sock_disable_timestamp Flag.timestamping_rx_software sk)

module _ {P : Sock → Type 0} (k : IsKept P) where
  abbrev Given : Option Sock → Type 0
  Given none = Unit {0}
  Given (some sk) = P sk

  kept_if : {x y : Sock} (b : Bool) → P x → P y → P (if b then x else y)
  kept_if true p q = p
  kept_if false p q = q

  kept_if_reply : (b : Bool) (x y : ℤ × Sock) → P x.1 → P y.1 → P (if b then x else y).1
  kept_if_reply true x y p q = p
  kept_if_reply false x y p q = q

  Given-if : (b : Bool) (x y : Option Sock) → Given x → Given y → Given (if b then x else y)
  Given-if true x y p q = p
  Given-if false x y p q = q

  pub set_timestamps-keeps :
      (val new ns : Bool) (sk : Sock) → P sk → P (sock_set_timestamps val new ns sk)
  unfolding sock_set_timestamps
  set_timestamps-keeps true new ns sk p =
      k.timestamp _ (k.rcvtstamp true _ (k.rcvtstampns ns _ (k.tstamp_new new _ p)))
  set_timestamps-keeps false new ns sk p = k.rcvtstampns false _ (k.rcvtstamp false _ p)

  stamping-keeps : (new : Bool) (val : ℕ) (sk : Sock) → P sk → P (stamping new val sk)
  stamping-keeps new val sk p =
      let q = k.tstamp_new new _ (k.tsflags val sk p) in
      kept_if (has val 3) (k.rx_software _ q) (k.no_rx_software _ q)

  opt_id-keeps : (snd_una val : ℕ) (sk : Sock) → P sk → Given (opt_id snd_una val sk)
  opt_id-keeps snd_una val sk p =
      Given-if (has val 7 && not (has sk.sk_tsflags 7)) _ _
        (Given-if (sk.sk_protocol == 6 && sk.sk_type == 1) _ _
          (Given-if (sk.sk_state == 7 || sk.sk_state == 10) _ _ tt (k.tskey snd_una sk p))
          (k.tskey 0 sk p))
        p

  bind_phc-keeps :
      (clocks : Option (List ℤ)) (phc : ℤ) (sk : Sock) → P sk → P (bind_phc_of clocks phc sk).1
  bind_phc-keeps none phc sk p = p
  bind_phc-keeps (some clocks) phc sk p = kept_if_reply (mem phc clocks) _ _ (k.bind_phc phc sk p) p

  set_stamping-keeps :
      (clocks : ℕ → Option (List ℤ)) (new : Bool) (val : ℕ) (phc : ℤ) (before : Sock)
      (o : Option Sock)
      → P before
      → Given o
      → P (set_stamping clocks new val phc before o).1
  unfolding set_stamping sock_timestamping_bind_phc
  set_stamping-keeps clocks new val phc before none p g = p
  set_stamping-keeps clocks new val phc before (some sk) p g =
      let q =
        bind_phc-keeps (if sk.sk_bound_dev_if == 0 then none else clocks sk.sk_bound_dev_if) phc sk
          g in
      kept_if_reply (has val 12 && not (has val 11)) _ _ g (
        kept_if_reply (not (has val 15)) _ _ (stamping-keeps new val sk g)
          (kept_if _ (stamping-keeps new val _ q) q))

  pub set_timestamping-keeps :
      (snd_una : ℕ) (clocks : ℕ → Option (List ℤ)) (new : Bool) (t : Timestamping) (sk : Sock)
      → P sk
      → P (sock_set_timestamping snd_una clocks new t sk).1
  unfolding sock_set_timestamping
  set_timestamping-keeps snd_una clocks new t sk p = by_flags t.flags
    where
      by_flags : (f : ℤ) → P (masked snd_una clocks new f t.bind_phc sk).1
      by_flags (negsuc n) = p
      by_flags (pos val) =
          kept_if_reply (ltb val (2 ^ 16)) _ _
            (set_stamping-keeps clocks new val t.bind_phc sk _ p (opt_id-keeps snd_una val sk p)) p
