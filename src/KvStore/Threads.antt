-- ===== src/KvStore/Threads.antt =====
-- The threads of one process in `write_kv` and `read_kv` at the same time: each call is split where
-- the task has the bucket's lock, and the steps of different threads interleave in any order.
pub mod Safety
pub mod Linear
use oshm.Prelude.{
  ℕ, ◌≡◌, refl, ◌≢◌, ◌∙◌, sym, ap, Bool, true, false, Option, none, some, List, arith, ◌==◌, ==_iff,
  Bool-cases, inl, inr, ◌⊎◌, update, update_self, update_ne, if◌then◌else◌, is_some, ℤ, pos, neg,
  enomem, [], ◌∷◌,
}
use oshm.KvStore.{
  MyData, data_of, Store, M, pure, ◌>>=◌, ◌>>◌, hash, spin_lock, spin_unlock, find, overwrite,
  set_bucket, get_bucket, write_kv, read_kv, value_or, hlist_empty,
}
use oshm.KvStore.Trace.{Call, write, read, call}

abbrev key_of : Call → ℤ
key_of (write alloc k v) = k
key_of (read k) = k

abbrev pub lock_of : Call → ℕ
lock_of c = hash (key_of c)

-- The rest of a call, from where the task has the lock and looks at the list `ds`.
unfoldable pub finish : Call → List MyData → M ℤ
finish (write alloc k v) ds =
    if is_some (find k ds)
    then (do set_bucket (hash k) (overwrite k v ds); spin_unlock (hash k); pure (pos 0))
    else if alloc
    then (do set_bucket (hash k) (data_of k v ∷ ds); spin_unlock (hash k); pure (pos 0))
    else (do spin_unlock (hash k); pure (neg enomem))
finish (read k) ds =
    if hlist_empty ds
    then (do spin_unlock (hash k); pure (neg 3))
    else (do spin_unlock (hash k); pure (value_or (find k ds)))

-- Where a thread is: outside the two system calls, or holding a lock with the list it looks at.
pub data Place : Type 0 where
  outside : Place
  inside : Call → List MyData → Place

pub record System : Type 0 where
  pub store : Store
  pub place : ℕ → Place

abbrev pub lock_taken : Call → Store → Store
lock_taken c s = record s { locked = update s.locked (lock_of c) true }

-- A thread outside takes a free lock; a thread inside does the rest of its call.
pub data Step (a b : System) : Type 0 where
  enter :
      (i : ℕ) (c : Call)
      → a.place i ≡ outside
      → a.store.locked (lock_of c) ≡ false
      → b.store ≡ lock_taken c a.store
      → b.place ≡ update a.place i (inside c (a.store.bucket (lock_of c)))
      → Step a b
  leave :
      (i : ℕ) (c : Call) (ds : List MyData) (r : ℤ)
      → a.place i ≡ inside c ds
      → finish c ds a.store ≡ some (r, b.store)
      → b.place ≡ update a.place i outside
      → Step a b

pub data Reach (a : System) : System → Type 0 where
  here : Reach a a
  later : {b c : System} → Reach a b → Step b c → Reach a c

-- Who is inside holds its lock and looks at the current list; nobody shares a lock.
pub record Inv (s : System) : Type 0 where
  pub holds :
      (i : ℕ) (c : Call) (ds : List MyData)
      → s.place i ≡ inside c ds
      → s.store.locked (lock_of c) ≡ true
  pub current :
      (i : ℕ) (c : Call) (ds : List MyData)
      → s.place i ≡ inside c ds
      → s.store.bucket (lock_of c) ≡ ds
  pub alone :
      (i j : ℕ) (c d : Call) (ds es : List MyData)
      → s.place i ≡ inside c ds
      → s.place j ≡ inside d es
      → lock_of c ≡ lock_of d
      → i ≡ j
