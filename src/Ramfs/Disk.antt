-- ===== src/Ramfs/Disk.antt =====
-- A file layer that meets the laws of `Vfs`: every file is a list of bytes, and each call succeeds where
-- it can.
use mathlib.Core.Path.{subst}
use oshm.Prelude.{
  ℕ, zero, suc, ◌≤◌, ◌<◌, ◌≡◌, ◌≢◌, refl, ap, sym, ◌∙◌, Bool, true, false, ◌&&◌, Option, none, some,
  [], ◌∷◌, ◌++◌, arith, ◌==◌, ==_iff, if◌then◌else◌, Bool-cases, inl, inr, length, take, drop,
  length-take, length-drop, leb_ℤ, ℤ, pos, neg, einval,
}
use oshm.Ramfs.Bytes.{Bytes}
use oshm.Ramfs.Vfs.{FilePath, Vfs, Laws, opened}

unfoldable pub same : Bytes → Bytes → Bool
same [] [] = true
same [] (y ∷ ys) = false
same (x ∷ xs) [] = false
same (x ∷ xs) (y ∷ ys) = (x == y) && same xs ys

same_refl : (p : Bytes) → same p p ≡ true
unfolding same
same_refl [] = refl
same_refl (x ∷ xs) = let e = (==_iff x x).1 refl in rw (e, same_refl xs) refl

same-eq : (p q : Bytes) → same p q ≡ true → p ≡ q
unfolding same
same-eq [] [] h = refl
same-eq [] (y ∷ ys) h = cc
same-eq (x ∷ xs) [] h = cc
same-eq (x ∷ xs) (y ∷ ys) h = elim (Bool-cases (x == y)) [
  | inl e ↦
      let tails : same xs ys ≡ true = subst (λ (t : Bool). t && same xs ys ≡ true) e h in
      cc ((==_iff x y).0 e, same-eq xs ys tails)
  | inr ne ↦ cc (subst (λ (t : Bool). t && same xs ys ≡ true) ne h)
]

same-ne : (p q : Bytes) → p ≢ q → same p q ≡ false
same-ne p q ne = elim (Bool-cases (same p q)) [ inl e ↦ absurd (ne (same-eq p q e)) | inr f ↦ f ]

abbrev pub Files : Type 0
Files = FilePath → Option Bytes

abbrev pub put : FilePath → Option Bytes → Files → Files
put p c s q = if same q p then c else s q

put_self : (p : FilePath) (c : Option Bytes) (s : Files) → put p c s p ≡ c
put_self p c s = rw (same_refl p) refl

put_ne : (p : FilePath) (c : Option Bytes) (s : Files) (q : FilePath) → q ≢ p → put p c s q ≡ s q
put_ne p c s q ne = rw (same-ne q p ne) refl

abbrev pub read_file : Option Bytes → ℕ → ℕ → ℤ × Bytes
read_file none i n = (neg 9, [])
read_file (some c) i n = (pos (length (take n (drop i c))), take n (drop i c))

-- Only appending is supported.
abbrev write_file : FilePath → Option Bytes → ℕ → Bytes → Files → ℤ × Files
write_file p none i b s = (neg 9, s)
write_file p (some c) i b s =
    if i == length c then (pos (length b), put p (some (c ++ b)) s) else (neg einval, s)

abbrev rename_file : FilePath → FilePath → Option Bytes → Files → ℤ × Files
rename_file p q none s = (neg 2, s)
rename_file p q (some c) s = (pos 0, put p none (put q (some c) s))

abbrev pub disk : Vfs
disk = record {
  State = Files;
  content = λ s p. s p;
  kernel_read = λ p i n s. read_file (s p) i n;
  kernel_write = λ p i b s. write_file p (s p) i b s;
  vfs_fsync = λ p s. pos 0;
  open_create = λ p cut s. (pos 0, put p (opened cut (s p)) s);
  kern_path = λ p s. pos 0;
  lookup_one = λ n d s. pos 0;
  rename = λ p q s. if same p q then (pos 0, s) else rename_file p q (s p) s;
}

take-length-take : (n : ℕ) (xs : Bytes) → take n xs ≡ take (length (take n xs)) xs
take-length-take zero xs = refl
take-length-take (suc n) [] = refl
take-length-take (suc n) (x ∷ xs) = ap (λ (t : Bytes). x ∷ t) (take-length-take n xs)

read_file-part :
    (o : Option Bytes) (i n k : ℕ) (b c : Bytes)
    → o ≡ some c
    → read_file o i n ≡ (pos k, b)
    → (b ≡ take k (drop i c)) × (length b ≡ k) × (k ≤ n)
read_file-part none i n k b c at is = cc
read_file-part (some d) i n k b c at is =
    let size : length (take n (drop i d)) ≡ k = pos-inj (ap (λ (r : ℤ × Bytes). r.0) is) in
    let part : take n (drop i d) ≡ b = ap (λ (r : ℤ × Bytes). r.1) is in
    let whole : d ≡ c = some-inj at in
    (
      sym part
          ∙ take-length-take n (drop i d)
          ∙ ap (λ (m : ℕ). take m (drop i d)) size
          ∙ ap (λ (t : Bytes). take k (drop i t)) whole,
      ap length (sym part) ∙ size,
      omega (arith, length-take n (drop i d)),
    )
  where
    pos-inj : {a b : ℕ} → pos a ≡ pos b → a ≡ b
    pos-inj e = cc

    some-inj : {a b : Bytes} → some a ≡ some b → a ≡ b
    some-inj e = cc

read_file-end :
    (o : Option Bytes) (i n : ℕ) (b c : Bytes)
    → 0 < n
    → o ≡ some c
    → read_file o i n ≡ (pos 0, b)
    → length c ≤ i
read_file-end none i n b c room at is = cc
read_file-end (some d) i n b c room at is =
    let (part, size, fits) = read_file-part (some d) i n 0 b c at is in
    let whole : d ≡ c = cc in
    let count : length (take n (drop i d)) ≡ 0 = cc in
    omega (arith, length-take n (drop i d), length-drop i d, ap length whole)

write_file-bound :
    (p : FilePath) (o : Option Bytes) (i : ℕ) (b : Bytes) (s : Files)
    → leb_ℤ (write_file p o i b s).0 (pos (length b)) ≡ true
write_file-bound p none i b s = refl
write_file-bound p (some c) i b s = ground arith

write_file-append :
    (p : FilePath) (o : Option Bytes) (b c : Bytes) (s : Files)
    → o ≡ some c
    → (write_file p o (length c) b s).1 p ≡ some (c ++ b)
write_file-append p none b c s at = cc
write_file-append p (some d) b c s at =
    let whole : d ≡ c = cc in
    let end : (length c == length d) ≡ true = ground (arith, ap length whole) in
    rw end (put_self p (some (d ++ b)) s ∙ ap (λ (t : Bytes). some (t ++ b)) whole)

write_file-frame :
    (p : FilePath) (o : Option Bytes) (i : ℕ) (b : Bytes) (s : Files) (q : FilePath)
    → q ≢ p
    → (write_file p o i b s).1 q ≡ s q
write_file-frame p none i b s q ne = refl
write_file-frame p (some c) i b s q ne = elim (Bool-cases (i == length c)) [
  | inl end ↦ rw end (put_ne p (some (c ++ b)) s q ne)
  | inr inside ↦ rw inside refl
]

module _ (p q : FilePath) (s : Files) where
  rename_file-moves :
      (o : Option Bytes)
      → p ≢ q
      → (rename_file p q o s).0 ≡ pos 0
      → ((rename_file p q o s).1 q ≡ o) × ((rename_file p q o s).1 p ≡ none)
  rename_file-moves none ne ok = absurd (negative ok)
    where
      negative : neg 2 ≢ pos 0
      negative e = cc
  rename_file-moves (some c) ne ok = (
    put_ne p none (put q (some c) s) q (λ e. ne (sym e)) ∙ put_self q (some c) s,
    put_self p none (put q (some c) s),
  )

  rename_file-frame :
      (o : Option Bytes) (r : FilePath) → r ≢ p → r ≢ q → (rename_file p q o s).1 r ≡ s r
  rename_file-frame none r a b = refl
  rename_file-frame (some c) r a b = put_ne p none (put q (some c) s) r a ∙ put_ne q (some c) s r b

  rename_file-failed :
      (o : Option Bytes) (r : FilePath)
      → (rename_file p q o s).0 ≢ pos 0
      → (rename_file p q o s).1 r ≡ s r
  rename_file-failed none r bad = refl
  rename_file-failed (some c) r bad = absurd (bad refl)

  rename-moves : (disk.rename p q s).0 ≡ pos 0 → (disk.rename p q s).1 q ≡ s p
  rename-moves = elim (Bool-cases (same p q)) [
    | inl e ↦ rw e (λ ok. ap s (sym (same-eq p q e)))
    | inr ne ↦ rw ne (λ ok. (rename_file-moves (s p) (λ e. cc (same_refl p, e, ne)) ok).0)
  ]

  rename-gone : p ≢ q → (disk.rename p q s).0 ≡ pos 0 → (disk.rename p q s).1 p ≡ none
  rename-gone ne = rw (same-ne p q ne) (λ ok. (rename_file-moves (s p) ne ok).1)

  rename-frame : (r : FilePath) → r ≢ p → r ≢ q → (disk.rename p q s).1 r ≡ s r
  rename-frame r = elim (Bool-cases (same p q)) [
    | inl e ↦ rw e (λ a b. refl)
    | inr ne ↦ rw ne (rename_file-frame (s p) r)
  ]

  rename-failed : (r : FilePath) → (disk.rename p q s).0 ≢ pos 0 → (disk.rename p q s).1 r ≡ s r
  rename-failed r = elim (Bool-cases (same p q)) [
    | inl e ↦ rw e (λ bad. refl)
    | inr ne ↦ rw ne (rename_file-failed (s p) r)
  ]

pub disk-Laws : Laws disk
disk-Laws = record {
  read_part = λ p i n k s b c at is. read_file-part (s p) i n k b c at is;
  read_end = λ p i n s b c room at is. read_file-end (s p) i n b c room at is;
  write_bound = λ p i b s. write_file-bound p (s p) i b s;
  write_append = λ p b c s at all. write_file-append p (s p) b c s at;
  write_frame = λ p i b s q ne. write_file-frame p (s p) i b s q ne;
  open_made = λ p cut s h. put_self p (opened cut (s p)) s;
  open_failed = λ p cut s q h. cc;
  open_frame = λ p cut s q ne. put_ne p (opened cut (s p)) s q ne;
  rename_moves = rename-moves;
  rename_gone = rename-gone;
  rename_frame = rename-frame;
  rename_failed = rename-failed;
}
