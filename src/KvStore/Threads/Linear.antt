-- ===== src/KvStore/Threads/Linear.antt =====
-- Every call takes effect at one moment: when it gives its lock back.
use oshm.Prelude.{
  ℕ, ◌≡◌, refl, ◌∙◌, ap, Option-cases, Bool, true, false, some, List, arith, ◌==◌, ==_iff,
  Bool-cases, inl, inr, update, update_self, is_some, ℤ,
}
use oshm.KvStore.{
  MyData, Store, ◌>>=◌, ◌>>◌, spin_lock, spin_unlock, set_bucket, get_bucket, write_kv, read_kv,
}
use oshm.KvStore.Trace.{Call, write, read, call}
use oshm.KvStore.Threads.{lock_of, finish, inside, System, Reach}
use mathlib.Core.Path.{fun_ext}
use oshm.KvStore.Threads.Safety.{IsQuiet, Reach-Inv}

-- A call is its two parts.
call-finish :
    (c : Call) (s : Store)
    → call c s ≡ (do spin_lock (lock_of c); ds ← get_bucket (lock_of c); finish c ds) s
unfolding write_kv read_kv finish
call-finish (write alloc k v) s = refl
call-finish (read k) s = refl

finish-returns :
    (c : Call) (ds : List MyData) (s : Store)
    → s.locked (lock_of c) ≡ true
    → is_some (finish c ds s) ≡ true
unfolding finish set_bucket spin_unlock
finish-returns (write alloc k v) ds s h = ground arith
finish-returns (read k) ds s h = ground arith

abbrev pub unlocked : ℕ → Store → Store
unlocked h s = record s { locked = update s.locked h false }

-- Taking a lock again that is given back restores the store.
relock : (h : ℕ) (s : Store) → s.locked h ≡ true → spin_lock h (unlocked h s) ≡ some (tt, s)
unfolding spin_lock
relock h s e =
    rw (update_self s.locked h false)
      (ap (λ (l : ℕ → Bool). some (tt, record s { locked = l })) (fun_ext relock_at))
  where
    relock_at : (j : ℕ) → update (update s.locked h false) h true j ≡ s.locked j
    relock_at j = elim (Bool-cases (j == h)) [
      | inl same ↦ rw (same, (==_iff j h).0 same, e)
      | inr other ↦ rw other
    ]

-- In every state that interleaved calls reach from a quiet one, a thread inside a call can finish
-- it, and the reply and the store that it leaves are those of the whole call made at that moment on
-- the store without its lock.
pub linearizable :
    {a b : System} (i : ℕ) (c : Call) (ds : List MyData)
    → IsQuiet a
    → Reach a b
    → b.place i ≡ inside c ds
    → (r : ℤ) × (s' : Store) × (finish c ds b.store ≡ some (r, s'))
      × (call c (unlocked (lock_of c) b.store) ≡ some (r, s'))
unfolding get_bucket
linearizable {b} i c ds q r at = elim (Option-cases (finish c ds b.store)) [
  | inl stuck ↦ absurd (cc (finish-returns c ds b.store held, stuck))
  | inr (x, done) ↦ (x.0, x.1, done, whole ∙ done)
]
  where
    held : b.store.locked (lock_of c) ≡ true
    held = (Reach-Inv q r).holds i c ds at

    list : b.store.bucket (lock_of c) ≡ ds
    list = (Reach-Inv q r).current i c ds at

    whole : call c (unlocked (lock_of c) b.store) ≡ finish c ds b.store
    whole = rw (call-finish, relock (lock_of c) b.store held, list)
