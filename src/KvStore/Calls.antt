-- ===== src/KvStore/Calls.antt =====
-- What one call of `write_kv` or `read_kv` does to the store and to its locks.
use oshm.Prelude.{
  ℕ, ◌≡◌, refl, Bool, true, false, ◌&&◌, ◌||◌, Option, none, some, List, [], ◌∷◌, arith, update,
  ◌==◌, ap, ==_iff, if◌then◌else◌, is_some, Bool-cases, inl, inr, ℤ, pos, neg, eqb_ℤ, eqb_ℤ_iff,
  enomem,
}
use oshm.KvStore.{
  MyData, data_of, Store, hash, find, overwrite, write_kv, read_kv, value_or, hlist_empty,
  spin_lock, spin_unlock, set_bucket, get_bucket, pure, ◌>>◌,
}
use oshm.KvStore.Buckets.{IsBucket, find-overwrite, find-cons, overwrite-IsBucket}

-- No task holds a lock of the store.
abbrev pub IsIdle : Store → Type 0
IsIdle s = (h : ℕ) → s.locked h ≡ false

abbrev IsValid : Store → Type 0
IsValid s = (h : ℕ) → IsBucket h (s.bucket h)

-- What the store maps a key to.
abbrev pub lookup : Store → ℤ → Option ℤ
lookup s k = find k (s.bucket (hash k))

-- The bucket that a write leaves, and the lock table after a balanced pair of lock calls.
abbrev pub written : Bool → ℤ → ℤ → List MyData → List MyData
written alloc k v ds =
    if is_some (find k ds) then overwrite k v ds else if alloc then data_of k v ∷ ds else ds

abbrev relocked : (ℕ → Bool) → ℕ → ℕ → Bool
relocked l h = update (update l h true) h false

pub after_write : Bool → ℤ → ℤ → Store → Store
after_write alloc k v s = record {
  bucket =
      if is_some (lookup s k) || alloc
      then update s.bucket (hash k) (written alloc k v (s.bucket (hash k)))
      else s.bucket;
  locked = relocked s.locked (hash k);
}

abbrev pub reply_of_write : Bool → ℤ → Store → ℤ
reply_of_write alloc k s = if is_some (lookup s k) || alloc then pos 0 else neg enomem

abbrev reply_of_read : ℤ → Store → ℤ
reply_of_read k s = if hlist_empty (s.bucket (hash k)) then neg 3 else value_or (lookup s k)

lookup-written :
    (alloc : Bool) (j k v : ℤ) (ds : List MyData)
    → find j (written alloc k v ds)
      ≡ (if eqb_ℤ k j && (is_some (find k ds) || alloc) then some v else find j ds)
lookup-written alloc j k v ds = ground (arith, find-overwrite j k v ds, find-cons j k v ds)

lookup-after_write :
    (alloc : Bool) (k v : ℤ) (s : Store) (j : ℤ)
    → lookup (after_write alloc k v s) j
      ≡ (if eqb_ℤ k j && (is_some (lookup s k) || alloc) then some v else lookup s j)
unfolding after_write
lookup-after_write alloc k v s j = ground (
  arith,
  lookup-written alloc j k v (s.bucket (hash k)),
  eqb_ℤ_iff k j,
  ==_iff (hash j) (hash k),
  ap hash {x = k} {y = j},
)

-- The lock calls succeed on a free and on a held lock.
spin_lock-free :
    (h : ℕ) (s : Store)
    → s.locked h ≡ false
    → spin_lock h s ≡ some (tt, record s { locked = update s.locked h true })
unfolding spin_lock
spin_lock-free h s free = rw free

spin_unlock-held :
    (h : ℕ) (b : ℕ → List MyData) (l : ℕ → Bool)
    → spin_unlock h (record { bucket = b; locked = update l h true })
      ≡ some (tt, record { bucket = b; locked = relocked l h })
unfolding spin_unlock
spin_unlock-held h b l = rw ((==_iff h h).1 refl)

module _ (s : Store) (idle : IsIdle s) where
  pub write_kv-returns :
      (alloc : Bool) (k v : ℤ)
      → write_kv alloc k v s ≡ some (reply_of_write alloc k s, after_write alloc k v s)
  unfolding write_kv set_bucket get_bucket after_write
  write_kv-returns alloc k v =
      rw (spin_lock-free (hash k) s (idle (hash k))) (elim (Bool-cases (is_some (lookup s k))) [
        | inl old ↦ rw (old, spin_unlock-held)
        | inr new ↦ rw new (at_new alloc)
      ])
    where
      at_new :
          (a : Bool)
          → (if a
                then (do
                  set_bucket (hash k) (data_of k v ∷ s.bucket (hash k))
                  spin_unlock (hash k)
                  pure (pos 0))
                else (do spin_unlock (hash k); pure (neg enomem)))
              (record s { locked = update s.locked (hash k) true })
            ≡ some (
              if a then pos 0 else neg enomem,
              record {
                bucket =
                    if a
                    then update s.bucket
                        (hash k)
                        (if a then data_of k v ∷ s.bucket (hash k) else s.bucket (hash k))
                    else s.bucket;
                locked = relocked s.locked (hash k);
              },
            )
      at_new true = rw (spin_unlock-held)
      at_new false = rw (spin_unlock-held)

  pub read_kv-returns :
      (k : ℤ)
      → read_kv k s ≡ some (reply_of_read k s, record s { locked = relocked s.locked (hash k) })
  unfolding read_kv get_bucket
  read_kv-returns k =
      rw (spin_lock-free (hash k) s (idle (hash k)))
        (elim (Bool-cases (hlist_empty (s.bucket (hash k)))) [
          | inl empty ↦ rw (empty, spin_unlock-held)
          | inr full ↦ rw (full, spin_unlock-held)
        ])

  pub relocked-eq_false : (h j : ℕ) → relocked s.locked h j ≡ false
  relocked-eq_false h j = ground (arith, idle j)

  -- The whole contract of `write_kv` on a store whose locks are free: it returns; 0 is the reply
  -- exactly if the key was there or memory was given; then the key has the new value, and else
  -- nothing has changed; the values of all other keys stay, and every lock is free again.
  pub write_kv_lem :
      (alloc : Bool) (k v : ℤ)
      → (s' : Store) × (write_kv alloc k v s ≡ some (reply_of_write alloc k s, s'))
        × ((j : ℤ)
            → lookup s' j
              ≡ (if eqb_ℤ k j && (is_some (lookup s k) || alloc) then some v else lookup s j))
        × IsIdle s'
  unfolding after_write
  write_kv_lem alloc k v = (
    after_write alloc k v s,
    write_kv-returns alloc k v,
    (λ j. lookup-after_write alloc k v s j),
    relocked-eq_false (hash k),
  )

written-IsBucket :
    (alloc : Bool) (k v : ℤ) (ds : List MyData)
    → IsBucket (hash k) ds
    → IsBucket (hash k) (written alloc k v ds)
written-IsBucket alloc k v ds b = ground (arith, overwrite-IsBucket (hash k) k v ds b)

-- A write keeps every bucket free of duplicates and of keys that hash elsewhere.
after_write-IsValid :
    (alloc : Bool) (k v : ℤ) (s : Store) → IsValid s → IsValid (after_write alloc k v s)
unfolding after_write
after_write-IsValid alloc k v s valid h = elim (Bool-cases (is_some (lookup s k) || alloc)) [
  | inr kept ↦ rw kept (valid h)
  | inl changed ↦ rw changed (elim (Bool-cases (h == hash k)) [
    | inr other ↦ rw other (valid h)
    | inl same ↦
        rw (same, (==_iff h (hash k)).0 same)
          (written-IsBucket alloc k v (s.bucket (hash k)) (valid (hash k)))
  ])
]

-- Whatever the store held, `write_kv` on free locks returns and keeps the store well formed: no
-- bucket gets a second entry for a key or a key of another bucket.
write_kv-IsValid :
    (alloc : Bool) (k v : ℤ) (s : Store)
    → IsIdle s
    → IsValid s
    → (s' : Store) × (write_kv alloc k v s ≡ some (reply_of_write alloc k s, s'))
      × IsValid s'
      × IsIdle s'
unfolding after_write
write_kv-IsValid alloc k v s idle valid = (
  after_write alloc k v s,
  write_kv-returns s idle alloc k v,
  after_write-IsValid alloc k v s valid,
  relocked-eq_false s idle (hash k),
)

lookup-empty : (k : ℤ) (ds : List MyData) → hlist_empty ds ≡ true → find k ds ≡ none
unfolding find
lookup-empty k [] e = refl
lookup-empty k (d ∷ ds) e = cc

-- `read_kv` on free locks returns the value of the key if there is one, -3 if the key's whole bucket
-- is empty and -2 otherwise; it changes no entry and leaves every lock free.
pub read_kv_lem :
    (k : ℤ) (s : Store)
    → IsIdle s
    → (r : ℤ) × (s' : Store) × (read_kv k s ≡ some (r, s'))
      × (s'.bucket ≡ s.bucket)
      × IsIdle s'
      × ((v : ℤ) → lookup s k ≡ some v → r ≡ v)
      × (lookup s k ≡ none → r ≡ (if hlist_empty (s.bucket (hash k)) then neg 3 else neg 2))
read_kv_lem k s idle = (
  reply_of_read k s,
  record s { locked = relocked s.locked (hash k) },
  read_kv-returns s idle k,
  refl,
  relocked-eq_false s idle (hash k),
  (λ v e. ground (arith, lookup-empty k (s.bucket (hash k)))),
  (λ e. ground arith),
)
