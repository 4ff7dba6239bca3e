-- ===== src/Sock/Options/Set/Keeps.antt =====
-- SO_TIMESTAMPING in `sock_setsockopt` (net/core/sock.c) keeps what the steps of the time stamps keep.
use oshm.Prelude.{ℤ, Bool, ◌==◌, Bool-cases, inl, inr, Option, none, some}
use oshm.Sock.Options.{Sock}
use oshm.Sock.Options.Timestamps.{Timestamping}
use oshm.Sock.Options.Timestamps.Keeps.{IsKept, set_timestamping-keeps}
use oshm.Sock.Options.Set.{Answers, Value, set_timestamping, on_timestamping}

module _ {P : Sock → Type 0} (k : IsKept P) where
  on_timestamping-keeps :
      (a : Answers) (new : Bool) (sk : Sock) (o : Option Timestamping)
      → P sk
      → P (on_timestamping a new sk o).1
  on_timestamping-keeps a new sk none p = p
  on_timestamping-keeps a new sk (some t) p =
      set_timestamping-keeps k a.snd_una a.phc_vclocks new t sk p

  pub so_timestamping-keeps :
      (a : Answers) (new : Bool) (v : Value) (val : ℤ) (sk : Sock)
      → P sk
      → P (set_timestamping a new v val sk).1
  unfolding set_timestamping
  so_timestamping-keeps a new v val sk p = elim (Bool-cases (v.optlen == 8)) [
    | inl h ↦ rw h (on_timestamping-keeps a new sk v.timestamping p)
    | inr h ↦ rw h (set_timestamping-keeps k a.snd_una a.phc_vclocks new _ sk p)
  ]
