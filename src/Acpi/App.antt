-- ===== src/Acpi/App.antt =====
-- edk2/MyAddAcpiPkg/Application/MyAddAcpiApp/MyAddAcpiApp.c: a table of one's own is built and
-- installed.
use oshm.Prelude.{
  leb, ◌^◌, ℕ, zero, suc, ◌+◌, ◌-◌, ◌%◌, ◌≤◌, ◌<◌, ◌≡◌, refl, Bool, not, List, [], ◌∷◌, ◌++◌, take,
  drop, length, arith, ◌&&◌, if◌then◌else◌, Bool-cases, inl, inr, replicate,
}
use oshm.Acpi.{Bytes, le_bytes, sum, codes}

-- The loop of `CalculateChecksum` over the first `size` bytes.
unfoldable pub sum_loop : ℕ → Bytes → (size : ℕ) → ℕ
sum_loop acc bytes zero = acc
sum_loop acc [] (suc n) = acc
sum_loop acc (b ∷ bs) (suc n) = sum_loop ((acc + b) % 256) bs n

unfoldable pub calculate_checksum : Bytes → (size : ℕ) → ℕ
unfolding sum_loop
calculate_checksum buffer size = (255 - sum_loop 0 buffer size + 1) % 256

-- `MyTable->Header.Checksum = …`, the byte at 9.
abbrev set_checksum : Bytes → ℕ → Bytes
set_checksum table c = take 9 table ++ (c ∷ drop 10 table)

-- "MYTB" and so on, as bytes.
abbrev pub header : (length : ℕ) → Bytes
header length =
    (b'M' ∷ b'Y' ∷ b'T' ∷ b'B' ∷ [])
    ++ (le_bytes 4 length
        ++ (1 ∷ 0 ∷ b'M' ∷ b'Y' ∷ b'O' ∷ b'E' ∷ b'M' ∷ b' ' ∷ b'M' ∷ b'Y' ∷ b'A' ∷ b'C' ∷ b'P'
              ∷ b'I' ∷ b'T' ∷ b'B' ∷ []
            ++ (le_bytes 4 1 ++ (b'M' ∷ b'Y' ∷ b'I' ∷ b'D' ∷ [] ++ le_bytes 4 1))))

-- "This is my custom ACPI table for storing information"
abbrev pub text : Bytes
text = codes "This is my custom ACPI table for storing information"

-- `CopyMem (MyTable->MyString, …, 50)` over a zeroed field of 64 bytes.
abbrev pub my_string : Bytes
my_string = take 50 text ++ replicate 14 0

-- sizeof(MY_ADD_ACPI_TABLE)
abbrev table_size : ℕ
table_size = 112

-- `MyTable` with the checksum 0.
unfoldable pub my_table : Bytes
unfolding le_bytes
my_table =
    header table_size ++ (le_bytes 4 0x12345678 ++ (le_bytes 8 0x8877665544332211 ++ my_string))

unfoldable pub checked : Bytes → Bytes
unfolding calculate_checksum
checked table =
    let cleared = set_checksum table 0 in
    set_checksum cleared (calculate_checksum cleared (length cleared))

-- What the firmware answers: a status for the protocol and for the installation of a table, and
-- whether there is memory.
pub record Firmware : Type 0 where
  pub located : ℕ
  pub allocated : Bool
  pub install : Bytes → ℕ

-- `EFI_ERROR`: the highest bit of a status; others are successes and warnings.
abbrev efi_error : ℕ → Bool
efi_error status = leb (2 ^ 63) status

-- EFI_OUT_OF_RESOURCES
abbrev out_of_resources : ℕ
out_of_resources = 0x8000000000000009

-- The tables that were handed over, and the pools that are held.
pub record World : Type 0 where
  pub tables : List Bytes
  pub pools : ℕ

-- From the allocation on: `InstallAcpiTable` copies the table where it succeeds.
unfoldable pub install_table : Firmware → Bytes → World → ℕ × World
install_table f table w =
    let held = record w { pools = w.pools + 1 } in
    if efi_error (f.install table)
    then (f.install table, record held { pools = held.pools - 1 })
    else (0, record held { tables = table ∷ held.tables; pools = held.pools - 1 })

unfoldable pub uefi_main : Firmware → World → ℕ × World
unfolding my_table checked install_table
uefi_main f w =
    if efi_error f.located
    then (f.located, w)
    else if not f.allocated
    then (out_of_resources, w)
    else install_table f (checked my_table) w

sum-append : (xs ys : Bytes) → sum (xs ++ ys) ≡ sum xs + sum ys
sum-append [] ys = omega arith
sum-append (x ∷ xs) ys = omega (arith, sum-append xs ys)

sum_loop-sum :
    (acc : ℕ) (bs : Bytes) → acc < 256 → sum_loop acc bs (length bs) ≡ (acc + sum bs) % 256
unfolding sum_loop
sum_loop-sum acc [] lt = omega arith
sum_loop-sum acc (b ∷ bs) lt = omega (arith, sum_loop-sum ((acc + b) % 256) bs (omega arith))

checksum-total : (bs : Bytes) → (sum bs + calculate_checksum bs (length bs)) % 256 ≡ 0
unfolding calculate_checksum
checksum-total bs = omega (arith, sum_loop-sum 0 bs (omega arith))

-- The checksum of a table makes the sum of all of its bytes 0 in eight bits, for every table that is
-- long enough to have the byte, whatever stood in it; the table keeps its length and all its other
-- bytes.
pub checked-sum :
    (table : Bytes)
    → 10 ≤ length table
    → (sum (checked table) % 256 ≡ 0)
      × (length (checked table) ≡ length table)
      × (take 9 (checked table) ≡ take 9 table)
      × (drop 10 (checked table) ≡ drop 10 table)
unfolding checked calculate_checksum
checked-sum (a ∷ b ∷ c ∷ d ∷ e ∷ f ∷ g ∷ h ∷ i ∷ x ∷ rest) le =
    (omega (arith, checksum-total (a ∷ b ∷ c ∷ d ∷ e ∷ f ∷ g ∷ h ∷ i ∷ 0 ∷ rest)), refl, refl, refl)
checked-sum _ le = absurd (omega arith)

-- On every branch the program gives the memory back that it takes. Where the protocol is found and
-- memory is given, the table is handed over exactly if the firmware takes it, and an error of the
-- firmware is returned, a warning is not; where not, no table is handed over.
pub uefi_main_lem :
    (f : Firmware) (w : World)
    → ((uefi_main f w).1.pools ≡ w.pools)
      × ((uefi_main f w).1.tables ≡ (
          if not (efi_error f.located)
            && f.allocated
            && not (efi_error (f.install (checked my_table)))
          then checked my_table ∷ w.tables
          else w.tables))
      × ((uefi_main f w).0 ≡ (
          if efi_error f.located
          then f.located
          else if not f.allocated
          then out_of_resources
          else if efi_error (f.install (checked my_table))
          then f.install (checked my_table)
          else 0))
unfolding uefi_main
uefi_main_lem f w = elim (Bool-cases (efi_error f.located)) [
  | inl missing ↦ rw missing (refl, refl, refl)
  | inr located ↦ rw located (elim (Bool-cases f.allocated) [
    | inr full ↦ rw full (refl, refl, refl)
    | inl allocated ↦ rw allocated (elim (Bool-cases (efi_error (f.install (checked my_table)))) [
      | inl refused ↦ rw refused (omega arith, refl, refl)
      | inr taken ↦ rw taken (omega arith, refl, refl)
    ])
  ])
]
