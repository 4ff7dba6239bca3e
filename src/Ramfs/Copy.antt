-- ===== src/Ramfs/Copy.antt =====
-- `copy_file_content` (fs/ramfs/inode.c): a file is copied in blocks of four pages.
use oshm.Prelude.{
  ℕ, zero, suc, ◌+◌, ◌-◌, ◌≤◌, ◌<◌, ◌≡◌, ◌≢◌, refl, ap, ◌∙◌, Bool, true, false, not, ◌||◌, Option,
  none, some, [], ◌∷◌, ◌++◌, arith, if◌then◌else◌, Bool-cases, inl, inr, length, take, drop,
  length-take, length-drop, leb_ℤ, ℤ, pos, negsuc, neg, eqb_ℤ, eqb_ℤ_iff, ltb_ℤ, enomem, eio,
}
use mathlib.Core.Path.{subst}
use oshm.Ramfs.Bytes.{Bytes}
use oshm.Ramfs.Vfs.{FilePath, Vfs, Laws}

abbrev buf_size : ℕ
buf_size = 16384

-- How a loop ends: `none` if its fuel runs out.
abbrev pub Loop : Vfs → Type 0
Loop v = Option (ℤ × v.State)

-- The error of a block that was not written whole.
abbrev short_write : ℤ → ℤ
short_write w = if ltb_ℤ w (pos 0) then w else neg eio

module _ (v : Vfs) (src dst : FilePath) where
  -- The loop, from a source and a destination position on, to the number in `ret`.
  unfoldable pub copy_loop : ℕ → ℕ → ℕ → v.State → Loop v
  copy_loop zero src_pos dst_pos s = none
  copy_loop (suc fuel) src_pos dst_pos s =
      let (r, buf) = v.kernel_read src src_pos buf_size s in
      let (w, s') = v.kernel_write dst dst_pos buf s in
      elim r [
        | negsuc e ↦ some (negsuc e, s)
        | pos n ↦ elim n [
          | zero ↦ some (pos 0, s)
          | suc m ↦ elim (ltb_ℤ w (pos (suc m))) [
            | true ↦ some (short_write w, s')
            | false ↦ copy_loop fuel (src_pos + suc m) (dst_pos + suc m) s'
          ]
        ]
      ]

  -- `vfs_fsync` where the loop ended with 0.
  abbrev sync_copy : Loop v → Loop v
  sync_copy none = none
  sync_copy (some (r, s)) = if eqb_ℤ r (pos 0) then some (v.vfs_fsync dst s, s) else some (r, s)

  -- The two flags say whether there is memory for the buffers of the two paths and of the data.
  unfoldable pub copy_file_content : (fuel : ℕ) (got_paths got_buf : Bool) → v.State → Loop v
  unfolding copy_loop
  copy_file_content fuel got_paths got_buf s =
      if not got_paths || not got_buf
      then some (neg enomem, s)
      else sync_copy (copy_loop fuel 0 0 s)

-- With the source at `c`: the loop ends, the source and all other files are as before, and if it
-- ends with 0 the destination holds all of `c`.
abbrev pub Copied : (v : Vfs) → FilePath → FilePath → Bytes → v.State → Loop v → Type 0
Copied v src dst c s none = ⊥
Copied v src dst c s (some (r, s')) =
    ((q : FilePath) → q ≢ dst → v.content s' q ≡ v.content s q)
    × (r ≡ pos 0 → v.content s' dst ≡ some c)

pub take-all : (n : ℕ) (c : Bytes) → length c ≤ n → take n c ≡ c
take-all zero [] h = refl
take-all zero (x ∷ xs) h = absurd (omega arith)
take-all (suc n) [] h = refl
take-all (suc n) (x ∷ xs) h = ap (λ (t : Bytes). x ∷ t) (take-all n xs (omega arith))

take-nil : (k n : ℕ) → take {A = ℕ} k [] ≡ take n []
take-nil zero zero = refl
take-nil zero (suc n) = refl
take-nil (suc k) zero = refl
take-nil (suc k) (suc n) = refl

take-take : (i k : ℕ) (c : Bytes) → take i c ++ take k (drop i c) ≡ take (i + k) c
take-take zero k c = ap (λ (n : ℕ). take n c) (omega arith)
take-take (suc i) k [] = take-nil k (suc i + k)
take-take (suc i) k (x ∷ xs) =
    ap (λ (t : Bytes). x ∷ t) (take-take i k xs)
    ∙ ap (λ (n : ℕ). take n (x ∷ xs)) {x = suc (i + k)} {y = suc i + k} (omega arith)

take-le : (k i : ℕ) (c : Bytes) → length (take k (drop i c)) ≤ length c - i
take-le k i c = omega (arith, length-take k (drop i c), length-drop i c)

eq_of_bounds : (w : ℤ) (n : ℕ) → leb_ℤ w (pos n) ≡ true → ltb_ℤ w (pos n) ≡ false → w ≡ pos n
eq_of_bounds (pos k) n le ge = ground arith
eq_of_bounds (negsuc k) n le ge = cc

short_write-ne_zero : (w : ℤ) → short_write w ≢ pos 0
short_write-ne_zero (pos k) = λ q. ground arith
short_write-ne_zero (negsuc k) = λ q. cc

Copied-after :
    (v : Vfs) (src dst : FilePath) (c : Bytes) (s s' : v.State) (o : Loop v)
    → ((q : FilePath) → q ≢ dst → v.content s' q ≡ v.content s q)
    → Copied v src dst c s' o
    → Copied v src dst c s o
Copied-after v src dst c s s' none frame h = h
Copied-after v src dst c s s' (some (r, t)) frame (kept, done) =
    ((λ q ne. kept q ne ∙ frame q ne), done)

-- A whole write at the end of what is there.
append_at :
    (v : Vfs) (l : Laws v) (dst : FilePath) (i : ℕ) (old b : Bytes) (s : v.State)
    → v.content s dst ≡ some old
    → length old ≡ i
    → (v.kernel_write dst i b s).0 ≡ pos (length b)
    → v.content (v.kernel_write dst i b s).1 dst ≡ some (old ++ b)
append_at v l dst i old b s at long =
    subst
      (λ (k : ℕ).
        (v.kernel_write dst k b s).0 ≡ pos (length b)
        → v.content (v.kernel_write dst k b s).1 dst ≡ some (old ++ b))
      long (l.write_append dst b old s at)

module _ (v : Vfs) (l : Laws v) (src dst : FilePath) (c : Bytes) (apart : src ≢ dst) where
  -- What a loop that goes on from `i` does.
  Goes : ℕ → Type 0
  Goes fuel =
      (i : ℕ) (s : v.State)
      → v.content s src ≡ some c
      → v.content s dst ≡ some (take i c)
      → i ≤ length c
      → length c - i < fuel
      → Copied v src dst c s (copy_loop v src dst fuel i i s)

  -- The outcome of one round, by the number that the read gives.
  round :
      (fuel i : ℕ) (s : v.State)
      → v.content s src ≡ some c
      → v.content s dst ≡ some (take i c)
      → i ≤ length c
      → length c - i < suc fuel
      → Goes fuel
      → (r : ℤ) → (v.kernel_read src i buf_size s).0 ≡ r
      → Copied v src dst c s (copy_loop v src dst (suc fuel) i i s)
  unfolding copy_loop Goes
  round fuel i s at from le lt ih (negsuc e) is = rw (is, Copied) ((λ q ne. refl), λ z. cc)
  round fuel i s at from le lt ih (pos zero) is =
      rw (is, Copied)
        (
          (λ q ne. refl),
          λ z.
              let b = (v.kernel_read src i buf_size s).1 in
              let end =
                l.read_end src i buf_size s b c (omega arith) at (ap (λ (r : ℤ). (r, b)) is) in
              from ∙ ap some (take-all i c end),
        )
  round fuel i s at from le lt ih (pos (suc m)) is =
      let b = (v.kernel_read src i buf_size s).1 in
      let (part, size, fits) =
        l.read_part src i buf_size (suc m) s b c at (ap (λ (r : ℤ). (r, b)) is) in
      let w = (v.kernel_write dst i b s).0 in
      let s' = (v.kernel_write dst i b s).1 in
      rw (is, Copied)
        (elim (Bool-cases (ltb_ℤ w (pos (suc m)))) [
          | inl short ↦ rw short (l.write_frame dst i b s, λ z. absurd (short_write-ne_zero w z))
          | inr whole ↦ rw whole (
              let more = take-le (suc m) i c in
              let long : length (take i c) ≡ i = omega (arith, length-take i c) in
              let all : w ≡ pos (length b) =
                eq_of_bounds w (length b) (l.write_bound dst i b s)
                  (ap (λ (k : ℕ). ltb_ℤ w (pos k)) size ∙ whole) in
              let grown = append_at v l dst i (take i c) b s from long all in
              let written : v.content s' dst ≡ some (take (i + suc m) c) =
                grown ∙ ap some (ap (λ (t : Bytes). take i c ++ t) part ∙ take-take i (suc m) c) in
              let kept : v.content s' src ≡ some c = l.write_frame dst i b s src apart ∙ at in
              let bound : suc m ≤ length c - i = omega (arith, size, ap length part, more) in
              Copied-after v src dst c s s' (copy_loop v src dst fuel (i + suc m) (i + suc m) s')
                (l.write_frame dst i b s)
                (ih (i + suc m) s' kept written (omega arith) (omega arith)))
        ])

  copy_loop-Copied : (fuel : ℕ) → Goes fuel
  unfolding Goes copy_loop
  copy_loop-Copied zero i s at from le lt = absurd (omega arith)
  copy_loop-Copied (suc fuel) i s at from le lt =
      round fuel i s at from le lt (copy_loop-Copied fuel) (v.kernel_read src i buf_size s).0 refl

  -- With the source and an empty destination in place, memory, and fuel above the source's length, the
  -- copy returns, changes no file but the destination, and where it returns 0 the destination holds
  -- all of the source, however short the reads were.
  pub copy_file_content-copies :
      (fuel : ℕ) (got_paths got_buf : Bool) (s : v.State)
      → v.content s src ≡ some c
      → v.content s dst ≡ some []
      → length c < fuel
      → Copied v src dst c s (copy_file_content v src dst fuel got_paths got_buf s)
  unfolding copy_file_content Goes
  copy_file_content-copies fuel false got_buf s at from lt = ((λ q ne. refl), λ z. cc)
  copy_file_content-copies fuel true false s at from lt = ((λ q ne. refl), λ z. cc)
  copy_file_content-copies fuel true true s at from lt =
      synced (copy_loop v src dst fuel 0 0 s)
        (copy_loop-Copied fuel 0 s at from (omega arith) (omega arith))
    where
      synced : (o : Loop v) → Copied v src dst c s o → Copied v src dst c s (sync_copy v src dst o)
      synced none h = h
      synced (some (r, t)) (kept, done) = elim (Bool-cases (eqb_ℤ r (pos 0))) [
        | inl zero_ret ↦ rw zero_ret (kept, λ z. done ((eqb_ℤ_iff r (pos 0)).0 zero_ret))
        | inr failed ↦ rw failed (kept, done)
      ]
