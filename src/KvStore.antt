-- ===== src/KvStore.antt =====
-- kernel/kv_store.c: the per-process key-value store behind `write_kv` and `read_kv`, and the part
-- of `copy_process` (kernel/fork.c) that gives a task its store.
mod Buckets
pub mod Calls
pub mod Fork
pub mod Threads
pub mod Trace
mod Tests
use oshm.Prelude.{
  ℕ, ◌-◌, ◌%◌, Bool, true, false, Option, none, some, List, [], ◌∷◌, ◌==◌, if◌then◌else◌, is_some,
  update, ℤ, pos, negsuc, neg, eqb_ℤ, enomem,
}

-- `struct my_data`; its `node` is the place in the bucket's list.
pub record MyData : Type 0 where
  pub key : ℤ
  pub value : ℤ

abbrev pub data_of : ℤ → ℤ → MyData
data_of k v = record { key = k; value = v }

-- `kv_store[1024]` and `kv_store_lock[1024]` of one process.
pub record Store : Type 0 where
  pub bucket : ℕ → List MyData
  pub locked : ℕ → Bool

-- `k & 0x3FF` of a two's complement `int`.
unfoldable pub hash : ℤ → ℕ
hash (pos n) = n % 1024
hash (negsuc n) = 1023 - n % 1024

-- An action of a task inside the kernel. `none` is a task that never returns: it spins on a lock
-- that is held, or gives back a lock that is free.
abbrev pub M : Type 0 → Type 0
M A = Store → Option (A × Store)

abbrev pub pure : {A : Type 0} → A → M A
pure a s = some (a, s)

module _ {A B : Type 0} where
  abbrev and_then : Option (A × Store) → (A → M B) → Option (B × Store)
  and_then none f = none
  and_then (some (a, s)) f = f a s

  infixl 5 ◌>>=◌ ◌>>◌
  abbrev pub ◌>>=◌ : M A → (A → M B) → M B
  m >>= f = λ s. and_then (m s) f

  abbrev pub ◌>>◌ : M A → M B → M B
  m >> n = m >>= λ _. n

unfoldable pub spin_lock : ℕ → M (Unit {0})
spin_lock h s = if s.locked h then none else some (tt, record s { locked = update s.locked h true })

unfoldable pub spin_unlock : ℕ → M (Unit {0})
spin_unlock h s =
    if s.locked h then some (tt, record s { locked = update s.locked h false }) else none

-- The value of the first entry with key `k`, as `hlist_for_each_entry` meets them.
unfoldable pub find : ℤ → List MyData → Option ℤ
find k [] = none
find k (d ∷ ds) = if eqb_ℤ d.key k then some d.value else find k ds

-- `new_data->value = v` at the first entry with key `k`.
unfoldable pub overwrite : ℤ → ℤ → List MyData → List MyData
overwrite k v [] = []
overwrite k v (d ∷ ds) = if eqb_ℤ d.key k then record d { value = v } ∷ ds else d ∷ overwrite k v ds

unfoldable pub set_bucket : ℕ → List MyData → M (Unit {0})
set_bucket h ds s = some (tt, record s { bucket = update s.bucket h ds })

unfoldable pub get_bucket : ℕ → M (List MyData)
get_bucket h s = some (s.bucket h, s)

-- `alloc` says whether `kmalloc` gives memory.
unfoldable pub write_kv : Bool → ℤ → ℤ → M ℤ
write_kv alloc k v = do
  spin_lock (hash k)
  ds ← get_bucket (hash k)
  if is_some (find k ds)
      then (do set_bucket (hash k) (overwrite k v ds); spin_unlock (hash k); pure (pos 0))
      else if alloc
      then (do set_bucket (hash k) (data_of k v ∷ ds); spin_unlock (hash k); pure (pos 0))
      else (do spin_unlock (hash k); pure (neg enomem))

-- `int v = -2`, overwritten by the entry's value if there is one.
abbrev pub value_or : Option ℤ → ℤ
value_or none = neg 2
value_or (some v) = v

abbrev pub hlist_empty : List MyData → Bool
hlist_empty [] = true
hlist_empty (d ∷ ds) = false

unfoldable pub read_kv : ℤ → M ℤ
read_kv k = do
  spin_lock (hash k)
  ds ← get_bucket (hash k)
  if hlist_empty ds
      then (do spin_unlock (hash k); pure (neg 3))
      else (do spin_unlock (hash k); pure (value_or (find k ds)))
