-- ===== src/Acpi/Print/Shows.antt =====
-- What `PrintAllACPITables` (edk2/MyAcpiPkg/MyAcpi.c) shows, by the layout of the tables alone.
use oshm.Prelude.{
  ℕ, zero, suc, ◌+◌, ◌-◌, ◌*◌, ◌/◌, ◌^◌, ◌≤◌, ◌<◌, ◌≡◌, ◌≢◌, refl, ◌∙◌, ap, true, Bool, false, some,
  List, [], ◌∷◌, ◌++◌, arith, if◌then◌else◌, ◌==◌, Bool-cases, inl, inr,
}
use oshm.Acpi.Memory.{Memory, read_le, find_root, xsdt_of, entry_slot, length_of}
use oshm.Acpi.Print.{
  Shown, is_facp, firmware_ctrl, dsdt, x_firmware_ctrl, x_dsdt, follow, follow_all, print_header,
  entry_count, print_entries, print_all_acpi_tables,
}

-- The signature "FACP", as the number of its four bytes.
abbrev pub named_facp : ℕ → Memory → Bool
named_facp head mem = read_le 4 head mem == 0x50434146

-- What a FACP points to: two words of four bytes at 36 and 40, two of eight at 132 and 140; 0 is no table.
abbrev pub present : List ℕ → List ℕ
present [] = []
present (p ∷ ps) = if p == 0 then present ps else p ∷ present ps

abbrev pub pointers : ℕ → Memory → List ℕ
pointers head mem =
    read_le 4 (head + 36) mem
    ∷ read_le 4 (head + 40) mem
    ∷ read_le 8 (head + 132) mem
    ∷ read_le 8 (head + 140) mem
    ∷ []

-- A table, and those that it points to if it is a FACP.
abbrev pub below : ℕ → Memory → List ℕ
below head mem = head ∷ (if named_facp head mem then present (pointers head mem) else [])

-- The entries of the XSDT from `i` on, `n` of them: words of eight bytes behind its header of 36.
abbrev pub below_entries : (xsdt i n : ℕ) → Memory → List ℕ
below_entries xsdt i zero mem = []
below_entries xsdt i (suc n) mem =
    below (read_le 8 (xsdt + 36 + 8 * i) mem) mem ++ below_entries xsdt (i + 1) n mem

-- No table that a FACP points to is a FACP.
abbrev pub IsLeaf : ℕ → Memory → Type 0
IsLeaf p mem = p ≢ 0 → named_facp p mem ≡ false

abbrev pub PointsDown : ℕ → Memory → Type 0
PointsDown head mem =
    named_facp head mem ≡ true
    → IsLeaf (read_le 4 (head + 36) mem) mem
      × IsLeaf (read_le 4 (head + 40) mem) mem
      × IsLeaf (read_le 8 (head + 132) mem) mem
      × IsLeaf (read_le 8 (head + 140) mem) mem

abbrev pointed : ℕ → List ℕ
pointed p = if p == 0 then [] else p ∷ []

present-pointed : (p : ℕ) (ps : List ℕ) → pointed p ++ present ps ≡ present (p ∷ ps)
present-pointed p ps = elim (Bool-cases (p == 0)) [ inl z ↦ rw z refl | inr nz ↦ rw nz refl ]

present-four :
    (a b c d : ℕ)
    → pointed a ++ (pointed b ++ (pointed c ++ pointed d)) ≡ present (a ∷ b ∷ c ∷ d ∷ [])
present-four a b c d =
    ap (λ (l : List ℕ). pointed a ++ l)
      (ap (λ (l : List ℕ). pointed b ++ l) (present-pointed c (d ∷ []))
        ∙ present-pointed b (c ∷ d ∷ []))
    ∙ present-pointed a (b ∷ c ∷ d ∷ [])

follow-leaf :
    (fuel p : ℕ) (mem : Memory)
    → IsLeaf p mem
    → follow (λ pointer. print_header (suc fuel) pointer mem) p ≡ some (pointed p)
unfolding print_header
follow-leaf fuel p mem leaf = elim (Bool-cases (p == 0)) [
  | inl z ↦ rw z refl
  | inr nz ↦ rw (nz, leaf (not_zero nz)) refl
]
  where
    not_zero : (p == 0) ≡ false → p ≢ 0
    not_zero e = ground arith

follow_all-some :
    (print : ℕ → Shown) (head : ℕ) (mem : Memory) {a b c d : List ℕ}
    → follow print (firmware_ctrl head mem) ≡ some a
    → follow print (dsdt head mem) ≡ some b
    → follow print (x_firmware_ctrl head mem) ≡ some c
    → follow print (x_dsdt head mem) ≡ some d
    → follow_all print head mem ≡ some (head ∷ (a ++ (b ++ (c ++ d))))
follow_all-some print head mem fa fb fc fd = rw (fa, fb, fc, fd) refl

print_header-below :
    (fuel head : ℕ) (mem : Memory)
    → PointsDown head mem
    → print_header (suc (suc fuel)) head mem ≡ some (below head mem)
unfolding print_header
print_header-below fuel head mem down = elim (Bool-cases (is_facp head mem)) [
  | inr leaf ↦ rw leaf refl
  | inl facp ↦
      let (a, b, c, d) = down facp in
      rw facp (
        follow_all-some (λ pointer. print_header (suc fuel) pointer mem) head mem
          (follow-leaf fuel (firmware_ctrl head mem) mem a) (follow-leaf fuel (dsdt head mem) mem b)
          (follow-leaf fuel (x_firmware_ctrl head mem) mem c)
          (follow-leaf fuel (x_dsdt head mem) mem d)
        ∙ ap (λ (l : List ℕ). some (head ∷ l))
            (present-four (firmware_ctrl head mem) (dsdt head mem) (x_firmware_ctrl head mem)
              (x_dsdt head mem)))
]

print_entries-below :
    (fuel xsdt i n : ℕ) (mem : Memory)
    → ((k : ℕ) → k < i + n → PointsDown (read_le 8 (xsdt + 36 + 8 * k) mem) mem)
    → print_entries (suc (suc fuel)) xsdt i n mem ≡ some (below_entries xsdt i n mem)
unfolding print_entries
print_entries-below fuel xsdt i zero mem down = refl
print_entries-below fuel xsdt i (suc n) mem down =
    rw
      (
        print_header-below fuel (read_le 8 (entry_slot xsdt i) mem) mem (down i (omega arith)),
        print_entries-below fuel xsdt (i + 1) n mem (λ k lt. down k (omega arith)),
      )
      refl

-- The configuration tables, the first of them of other kinds.
abbrev pub behind : List ℕ → List (Bool × ℕ) → List (Bool × ℕ)
behind [] rest = rest
behind (a ∷ more) rest = (false, a) ∷ behind more rest

root_behind :
    (root : ℕ) (others : List ℕ) (rest : List (Bool × ℕ))
    → find_root (behind others ((true, root) ∷ rest)) ≡ some root
unfolding find_root
root_behind root [] rest = refl
root_behind root (a ∷ more) rest = root_behind root more rest

-- The first ACPI table of the configuration has at 24 the address of an XSDT of at least a header's length, and
-- no FACP among it and its entries points to a FACP. Then the printing ends two calls deep; it shows the XSDT and
-- then, in the order of the entries, one for every eight bytes behind the header of 36, each table, a FACP
-- followed by the tables that its four pointers name, in order, where they are not 0; a table that two of them
-- name is shown twice.
pub print_all_acpi_tables-shows :
    (fuel root : ℕ) (others : List ℕ) (rest : List (Bool × ℕ)) (mem : Memory)
    → 36 ≤ read_le 4 (read_le 8 (root + 24) mem + 4) mem
    → read_le 4 (read_le 8 (root + 24) mem + 4) mem < 2 ^ 32
    → PointsDown (read_le 8 (root + 24) mem) mem
    → ((k : ℕ)
        → k < (read_le 4 (read_le 8 (root + 24) mem + 4) mem - 36) / 8
        → PointsDown (read_le 8 (read_le 8 (root + 24) mem + 36 + 8 * k) mem) mem)
    → print_all_acpi_tables (suc (suc fuel)) (behind others ((true, root) ∷ rest)) mem
      ≡ some (
          below (read_le 8 (root + 24) mem) mem
          ++ below_entries
              (read_le 8 (root + 24) mem)
              0
              ((read_le 4 (read_le 8 (root + 24) mem + 4) mem - 36) / 8)
              mem)
unfolding print_all_acpi_tables
print_all_acpi_tables-shows fuel root others rest mem long small top down =
    let xsdt = xsdt_of root mem in
    let count : entry_count xsdt mem ≡ (length_of xsdt mem - 36) / 8 = omega arith in
    rw
      (
        root_behind root others rest,
        print_header-below fuel xsdt mem top,
        count,
        print_entries-below fuel xsdt 0 ((length_of xsdt mem - 36) / 8) mem
            (λ k lt. down k (omega arith)),
      )
      refl
