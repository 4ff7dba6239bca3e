-- ===== src/Acpi/Memory.antt =====
-- What edk2/MyAcpiPkg/MyAcpi.c reads of the machine: its memory by bytes, and the way from the
-- configuration tables to the ACPI tables.
use oshm.Prelude.{
  ℕ, zero, suc, ◌+◌, ◌-◌, ◌*◌, ◌≤◌, ◌<◌, ◌≡◌, refl, ap, ◌∙◌, Bool, false, Option, none, some, List,
  [], ◌∷◌, arith, if◌then◌else◌, ◌==◌, ==_iff, ◌&&◌, ltb, leb, update, Bool-cases, inl, inr,
}
use oshm.Acpi.{header_size}

abbrev pub Memory : Type 0
Memory = ℕ → ℕ

-- A number of `n` bytes at an address, the lowest first.
unfoldable pub read_le : ℕ → ℕ → Memory → ℕ
read_le zero a mem = 0
read_le (suc n) a mem = mem a + 256 * read_le n (a + 1) mem

-- The sum of `n` bytes.
unfoldable pub range_sum : Memory → ℕ → ℕ → ℕ
range_sum mem a zero = 0
range_sum mem a (suc n) = mem a + range_sum mem (a + 1) n

-- `CopyMem`
abbrev pub copy_mem : (dst src n : ℕ) → Memory → Memory
copy_mem dst src n mem a = if leb dst a && ltb a (dst + n) then mem (src + (a - dst)) else mem a

-- `gST->ConfigurationTable`: whether each identifier is one of the two of ACPI, and the address; the
-- loops stop at the first.
unfoldable pub find_root : List (Bool × ℕ) → Option ℕ
find_root [] = none
find_root ((is_acpi, address) ∷ rest) = if is_acpi then some address else find_root rest

-- `Root->XsdtAddress`
abbrev pub xsdt_of : ℕ → Memory → ℕ
xsdt_of root mem = read_le 8 (root + 24) mem

-- `&Entry[index]`
abbrev pub entry_slot : ℕ → ℕ → ℕ
entry_slot xsdt index = xsdt + header_size + 8 * index

-- `head->Length`
abbrev pub length_of : ℕ → Memory → ℕ
length_of head mem = read_le 4 (head + 4) mem

pub read_le-ext :
    (n a b : ℕ) (m w : Memory)
    → ((i : ℕ) → i < n → m (a + i) ≡ w (b + i))
    → read_le n a m ≡ read_le n b w
unfolding read_le
read_le-ext zero a b m w h = refl
read_le-ext (suc n) a b m w h =
    let first : m a ≡ w b =
      ap m {x = a} {y = a + 0} (omega arith)
      ∙ h 0 (omega arith)
      ∙ ap w {x = b + 0} {y = b} (omega arith) in
    let rest = read_le-ext n (a + 1) (b + 1) m w (λ i lt.
      ap m {x = a + 1 + i} {y = a + suc i} (omega arith)
      ∙ h (suc i) (omega arith)
      ∙ ap w {x = b + suc i} {y = b + 1 + i} (omega arith)) in
    rw (first, rest) refl

range_sum-before :
    (m : Memory) (k c a n : ℕ) → k < a → range_sum (update m k c) a n ≡ range_sum m a n
unfolding range_sum
range_sum-before m k c a zero lt = refl
range_sum-before m k c a (suc n) lt =
    let apart : (a == k) ≡ false = ground arith in
    rw apart (ap (λ (t : ℕ). m a + t) (range_sum-before m k c (a + 1) n (omega arith)))

-- A byte of a range that is 0 is set.
pub range_sum-update :
    (m : Memory) (k c a n : ℕ)
    → a ≤ k
    → k < a + n
    → m k ≡ 0
    → range_sum (update m k c) a n ≡ range_sum m a n + c
unfolding range_sum
range_sum-update m k c a zero lo hi z = absurd (omega arith)
range_sum-update m k c a (suc n) lo hi z = elim (Bool-cases (a == k)) [
  | inl here ↦ rw here (
      omega (arith, range_sum-before m k c (a + 1) n (ground arith), z, ap m ((==_iff a k).0 here)))
  | inr later ↦
      rw later (omega (arith, range_sum-update m k c (a + 1) n (ground arith) (omega arith) z))
]
