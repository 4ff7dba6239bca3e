-- ===== src/Acpi/Change.antt =====
-- `ChangeACPITable` (edk2/MyAcpiPkg/MyAcpi.c): a table of the firmware is written over in place.
use oshm.Prelude.{
  ℕ, ◌+◌, ◌-◌, ◌*◌, ◌≤◌, ◌<◌, ◌≡◌, ◌≢◌, refl, ap, ◌∙◌, Bool, true, false, Option, none, some, List,
  arith, ◌==◌, ◌&&◌, ltb, leb, update, ◌⊎◌,
}
use oshm.Acpi.Memory.{
  Memory, read_le, copy_mem, find_root, xsdt_of, entry_slot, length_of, read_le-ext,
}

-- `calc` is `CalculateCheckSum8` of the firmware's library, which gives the checksum of a range.
module _ (calc : Memory → ℕ → ℕ → ℕ) where
  -- From the `CopyMem` on: the byte at 9 is the checksum, and the entry is read again.
  abbrev write_table : (slot table new_table : ℕ) → Memory → Memory
  write_table slot table new_table mem =
      let copied = copy_mem table new_table (length_of table mem) mem in
      let cleared = update copied (table + 9) 0 in
      update cleared (table + 9) (calc cleared (read_le 8 slot cleared) (length_of table cleared))

  abbrev change_found : Option ℕ → (index new_table : ℕ) → Memory → Memory
  change_found none index new_table mem = mem
  change_found (some root) index new_table mem =
      let slot = entry_slot (xsdt_of root mem) index in
      write_table slot (read_le 8 slot mem) new_table mem

  unfoldable pub change_acpi_table : List (Bool × ℕ) → (index new_table : ℕ) → Memory → Memory
  unfolding find_root
  change_acpi_table tables index new_table mem = change_found (find_root tables) index new_table mem

copy_mem-inside :
    (dst src n i : ℕ) (m : Memory) → i < n → copy_mem dst src n m (dst + i) ≡ m (src + i)
copy_mem-inside dst src n i m lt =
    let offset : dst + i - dst ≡ i = omega arith in
    let within : (leb dst (dst + i) && ltb (dst + i) (dst + n)) ≡ true = ground arith in
    rw (within, offset) refl

copy_mem-outside :
    (dst src n a : ℕ) (m : Memory) → (a < dst) ⊎ (dst + n ≤ a) → copy_mem dst src n m a ≡ m a
copy_mem-outside dst src n a m out =
    let outside : (leb dst a && ltb a (dst + n)) ≡ false = ground arith in rw outside refl

-- By the layout of the tables: `table` is the entry `index` of the system, and the slot of the entry is none of
-- its bytes.
pub record Installed (tables : List (Bool × ℕ)) (index root table : ℕ) (mem : Memory) : Type 0 where
  pub found : find_root tables ≡ some root
  pub entry : read_le 8 (read_le 8 (root + 24) mem + 36 + 8 * index) mem ≡ table
  pub apart :
      (i : ℕ)
      → i < 8
      → (read_le 8 (root + 24) mem + 36 + 8 * index + i < table)
        ⊎ (table + read_le 4 (table + 4) mem ≤ read_le 8 (root + 24) mem + 36 + 8 * index + i)

module _ (calc : Memory → ℕ → ℕ → ℕ) (tables : List (Bool × ℕ)) (index root table new_table : ℕ)
    (mem : Memory) (at : Installed tables index root table mem) where
  change-unfolds :
      change_acpi_table calc tables index new_table mem
      ≡ write_table calc (entry_slot (xsdt_of root mem) index) table new_table mem
  unfolding change_acpi_table
  change-unfolds = rw (at.found, at.entry) refl

  module _ (long : 10 ≤ read_le 4 (table + 4) mem) where
    abbrev slot : ℕ
    slot = entry_slot (xsdt_of root mem) index

    abbrev copied : Memory
    copied = copy_mem table new_table (length_of table mem) mem

    abbrev cleared : Memory
    cleared = update copied (table + 9) 0

    -- The length field after the checksum is stored.
    length-set : (c : ℕ) → length_of table (update cleared (table + 9) c) ≡ length_of new_table mem
    length-set c =
        read_le-ext 4 (table + 4) (new_table + 4) (update cleared (table + 9) c) mem (λ i lt.
          let other : (table + 4 + i == table + 9) ≡ false = ground arith in
          rw other (
            ap copied {x = table + 4 + i} {y = table + (4 + i)} (omega arith)
            ∙ copy_mem-inside table new_table (length_of table mem) (4 + i) mem (omega arith)
            ∙ ap mem {x = new_table + (4 + i)} {y = new_table + 4 + i} (omega arith)))

    -- As many bytes as the old table has are those of the new one, but for the checksum; bytes
    -- outside of the old table are as they were.
    change_acpi_table-copies :
        ((i : ℕ)
          → i < length_of table mem
          → i ≢ 9
          → change_acpi_table calc tables index new_table mem (table + i) ≡ mem (new_table + i))
        × ((a : ℕ)
            → (a < table) ⊎ (table + length_of table mem ≤ a)
            → change_acpi_table calc tables index new_table mem a ≡ mem a)
    change_acpi_table-copies = rw change-unfolds (
      (λ i lt ne.
          let other : (table + i == table + 9) ≡ false = ground arith in
          rw other (copy_mem-inside table new_table (length_of table mem) i mem lt)),
      λ a out.
          let other : (a == table + 9) ≡ false = ground arith in
          rw other (copy_mem-outside table new_table (length_of table mem) a mem out),
    )

    -- The entry `index` is a table of ten bytes at least, and its slot is none of them. Writing a table of 36
    -- zeros over it makes its length 0; the bytes of the header are then 0 but for the checksum, those of the
    -- table behind a header are what stands behind the zeros in memory, and all bytes outside of the table are
    -- as they were.
    pub change_acpi_table-empty :
        ((i : ℕ) → i < 36 → mem (new_table + i) ≡ 0)
        → let after = change_acpi_table calc tables index new_table mem in
          (read_le 4 (table + 4) after ≡ 0)
          × ((i : ℕ) → i < 36 → i < read_le 4 (table + 4) mem → i ≢ 9 → after (table + i) ≡ 0)
          × ((i : ℕ)
              → 36 ≤ i
              → i < read_le 4 (table + 4) mem
              → after (table + i) ≡ mem (new_table + i))
          × ((a : ℕ) → (a < table) ⊎ (table + read_le 4 (table + 4) mem ≤ a) → after a ≡ mem a)
    unfolding read_le
    change_acpi_table-empty zeros = (
      rw change-unfolds (
          length-set (calc cleared (read_le 8 slot cleared) (length_of table cleared))
          ∙ read_le-ext 4 (new_table + 4) 0 mem (λ (a : ℕ). 0)
              (λ i lt.
                ap mem {x = new_table + 4 + i} {y = new_table + (4 + i)} (omega arith)
                ∙ zeros (4 + i) (omega arith))),
      (λ i head lt ne. change_acpi_table-copies.0 i lt ne ∙ zeros i head),
      (λ i behind lt. change_acpi_table-copies.0 i lt (omega arith)),
      change_acpi_table-copies.1,
    )
