-- ===== src/Acpi/Print.antt =====
-- `PrintHeader` and `PrintAllACPITables` (edk2/MyAcpiPkg/MyAcpi.c): the tables that are shown, by their
-- addresses, in order.
pub mod Shows
use oshm.Prelude.{
  ℕ, zero, suc, ◌+◌, ◌-◌, ◌/◌, ◌%◌, ◌^◌, ◌≤◌, ◌<◌, ◌≡◌, refl, Bool, false, Option, none, some, List,
  [], ◌∷◌, ◌++◌, arith, if◌then◌else◌, ◌==◌, Bool-cases, inl, inr,
}
use oshm.Acpi.{header_size}
use oshm.Acpi.Memory.{Memory, read_le, find_root, xsdt_of, entry_slot, length_of}

-- A run that may not end: `none` if the fuel runs out.
abbrev pub Shown : Type 0
Shown = Option (List ℕ)

infixl 5 ◌>>=◌
abbrev pub ◌>>=◌ : Shown → (List ℕ → Shown) → Shown
none >>= f = none
some a >>= f = f a

-- "FACP"
abbrev pub is_facp : ℕ → Memory → Bool
is_facp head mem = read_le 4 head mem == 0x50434146

-- The four pointers of a FACP table.
abbrev pub firmware_ctrl : ℕ → Memory → ℕ
firmware_ctrl head mem = read_le 4 (head + 36) mem

abbrev pub dsdt : ℕ → Memory → ℕ
dsdt head mem = read_le 4 (head + 40) mem

abbrev pub x_firmware_ctrl : ℕ → Memory → ℕ
x_firmware_ctrl head mem = read_le 8 (head + 132) mem

abbrev pub x_dsdt : ℕ → Memory → ℕ
x_dsdt head mem = read_le 8 (head + 140) mem

-- A pointer that is 0 is not followed.
abbrev pub follow : (ℕ → Shown) → ℕ → Shown
follow print pointer = if pointer == 0 then some [] else print pointer

abbrev pub follow_all : (ℕ → Shown) → ℕ → Memory → Shown
follow_all print head mem = do
  a ← follow print (firmware_ctrl head mem)
  b ← follow print (dsdt head mem)
  c ← follow print (x_firmware_ctrl head mem)
  d ← follow print (x_dsdt head mem)
  some (head ∷ (a ++ (b ++ (c ++ d))))

unfoldable pub print_header : (fuel head : ℕ) → Memory → Shown
print_header zero head mem = none
print_header (suc fuel) head mem =
    let deeper = follow_all (λ pointer. print_header fuel pointer mem) head mem in
    if is_facp head mem then deeper else some (head ∷ [])

-- `(Xsdt->Length - sizeof(EFI_ACPI_DESCRIPTION_HEADER)) / sizeof(UINT64)`, unsigned.
abbrev pub entry_count : ℕ → Memory → ℕ
entry_count xsdt mem = (length_of xsdt mem + 2 ^ 64 - header_size) % 2 ^ 64 / 8

-- The loop over the entries from `i` on, with `n` of them left.
unfoldable pub print_entries : (fuel xsdt i n : ℕ) → Memory → Shown
unfolding print_header
print_entries fuel xsdt i zero mem = some []
print_entries fuel xsdt i (suc n) mem = do
  a ← print_header fuel (read_le 8 (entry_slot xsdt i) mem) mem
  b ← print_entries fuel xsdt (i + 1) n mem
  some (a ++ b)

abbrev pub print_found : ℕ → Option ℕ → Memory → Shown
print_found fuel none mem = some []
print_found fuel (some root) mem = do
  a ← print_header fuel (xsdt_of root mem) mem
  b ← print_entries fuel (xsdt_of root mem) 0 (entry_count (xsdt_of root mem) mem) mem
  some (a ++ b)

unfoldable pub print_all_acpi_tables : (fuel : ℕ) → List (Bool × ℕ) → Memory → Shown
unfolding print_entries find_root
print_all_acpi_tables fuel tables mem = print_found fuel (find_root tables) mem
