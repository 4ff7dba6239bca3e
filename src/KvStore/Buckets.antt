-- ===== src/KvStore/Buckets.antt =====
-- The lists of one bucket: what a write does to the lookups of every key.
use oshm.Prelude.{
  ℕ, ◌<◌, ◌≡◌, refl, true, none, some, List, [], ◌∷◌, arith, if◌then◌else◌, is_some, ℤ, pos, negsuc,
  eqb_ℤ, eqb_ℤ_iff,
}
use oshm.KvStore.{MyData, data_of, hash, find, overwrite}

hash-lt : (k : ℤ) → hash k < 1024
unfolding hash
hash-lt (pos n) = omega arith
hash-lt (negsuc n) = omega arith

-- The keys of a bucket are distinct and belong there.
abbrev pub IsBucket : ℕ → List MyData → Type 0
IsBucket h [] = Unit {0}
IsBucket h (d ∷ ds) = (hash d.key ≡ h) × (find d.key ds ≡ none) × IsBucket h ds

pub find-overwrite :
    (j k v : ℤ) (ds : List MyData)
    → is_some (find k ds) ≡ true
    → find j (overwrite k v ds) ≡ (if eqb_ℤ k j then some v else find j ds)
unfolding find overwrite
find-overwrite j k v [] h = ground arith
find-overwrite j k v (d ∷ ds) h =
    ground (arith, eqb_ℤ_iff d.key k, eqb_ℤ_iff k j, eqb_ℤ_iff d.key j, find-overwrite j k v ds)

pub find-cons :
    (j k v : ℤ) (ds : List MyData)
    → find j (data_of k v ∷ ds) ≡ (if eqb_ℤ k j then some v else find j ds)
unfolding find
find-cons j k v ds = refl

find-overwrite-none :
    (j k v : ℤ) (ds : List MyData) → find j ds ≡ none → find j (overwrite k v ds) ≡ none
unfolding find overwrite
find-overwrite-none j k v [] h = refl
find-overwrite-none j k v (d ∷ ds) h = ground (arith, find-overwrite-none j k v ds)

pub overwrite-IsBucket :
    (h : ℕ) (k v : ℤ) (ds : List MyData) → IsBucket h ds → IsBucket h (overwrite k v ds)
unfolding overwrite
overwrite-IsBucket h k v [] b = tt
overwrite-IsBucket h k v (d ∷ ds) b =
    ground (arith, find-overwrite-none d.key k v ds, overwrite-IsBucket h k v ds b.2)
