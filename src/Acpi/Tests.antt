-- ===== src/Acpi/Tests.antt =====
-- ACPI tables on concrete bytes.
use oshm.Prelude.{
  ℕ, ◌≢◌, ◌⊎◌, ◌*◌, ◌+◌, zero, suc, ◌%◌, ◌-◌, ◌≤◌, ◌<◌, ◌≡◌, refl, Bool, true, false, some, List,
  [], ◌∷◌, ◌++◌, take, drop, length, replicate, arith, ◌==◌, if◌then◌else◌, pos, inl,
}
use oshm.Acpi.{Bytes, sum, codes}
use oshm.Acpi.App.{Firmware, World, checked, my_table, checked-sum}
use oshm.Acpi.Show.{mytb_show}
use oshm.Acpi.Memory.{Memory, range_sum, read_le, length_of}
use oshm.Acpi.Change.{change_acpi_table, Installed, change_acpi_table-empty}
use oshm.Acpi.Print.{print_all_acpi_tables}
use oshm.Acpi.Print.Shows.{PointsDown, print_all_acpi_tables-shows}

-- The text that the driver shows of the table that the program installs: its last two letters are cut.
abbrev cut_text : Bytes
cut_text = codes "This is my custom ACPI table for storing informati"

mytb_shows_cut_text : mytb_show (some (checked my_table)) [] ≡ (pos 50, cut_text ++ 0 ∷ [])
unfolding mytb_show checked my_table
mytb_shows_cut_text = refl

checked-sum_example :
    (sum (checked (replicate 12 200)) % 256 ≡ 0)
    × (length (checked (replicate 12 200)) ≡ 12)
    × (take 9 (checked (replicate 12 200)) ≡ replicate 9 200)
    × (drop 10 (checked (replicate 12 200)) ≡ replicate 2 200)
checked-sum_example = checked-sum (replicate 12 200) (omega arith)

abbrev firmware : Firmware
firmware = record { located = 0; allocated = true; install = λ table. 0 }

abbrev untouched : World
untouched = record { tables = []; pools = 0 }

-- A machine: the pointer to the XSDT at 24 of 1000, the XSDT of 44 bytes at 2000 with one entry, 3000,
-- a FACP of 40 bytes there, whose old and new pointers to a DSDT are both 5000.
abbrev machine : Memory
machine a =
    if a == 1024
    then 208
    else if a == 1025
    then 7
    else if a == 2004
    then 44
    else if a == 2036
    then 184
    else if a == 2037
    then 11
    else if a == 3000
    then 0x46
    else if a == 3001
    then 0x41
    else if a == 3002
    then 0x43
    else if a == 3003
    then 0x50
    else if a == 3004
    then 40
    else if a == 3040
    then 0x88
    else if a == 3041
    then 0x13
    else if a == 3140
    then 0x88
    else if a == 3141
    then 0x13
    else if a == 6036
    then 9
    else 0

abbrev tables : List (Bool × ℕ)
tables = (false, 7) ∷ (true, 1000) ∷ []

-- The checksum that the firmware's library computes.
abbrev calc : Memory → ℕ → ℕ → ℕ
calc m a n = (256 - range_sum m a n % 256) % 256

installed : Installed tables 0 1000 3000 machine
unfolding read_le change_acpi_table
installed = record { found = refl; entry = refl; apart = λ i lt. inl (omega arith) }

old_is_long : 10 ≤ length_of 3000 machine
unfolding read_le
old_is_long = omega arith

-- The table at 6000 is 36 zeros, with a 9 behind them.
change_acpi_table-empty_example :
    let after = change_acpi_table calc tables 0 6000 machine in
    (length_of 3000 after ≡ 0)
    × ((i : ℕ) → i < 36 → i < length_of 3000 machine → i ≢ 9 → after (3000 + i) ≡ 0)
    × ((i : ℕ) → 36 ≤ i → i < length_of 3000 machine → after (3000 + i) ≡ machine (6000 + i))
    × ((a : ℕ) → (a < 3000) ⊎ (3000 + length_of 3000 machine ≤ a) → after a ≡ machine a)
change_acpi_table-empty_example =
    change_acpi_table-empty calc tables 0 1000 3000 6000 machine installed old_is_long
      (λ i lt. ground arith)

dsdt_is_leaf : (read_le 4 5000 machine == 0x50434146) ≡ false
unfolding read_le
dsdt_is_leaf = refl

facp_down : PointsDown 3000 machine
unfolding read_le
facp_down = λ e.
    ((λ ne. absurd (ne refl)), (λ ne. dsdt_is_leaf), (λ ne. absurd (ne refl)), λ ne. dsdt_is_leaf)

entries_down : (k : ℕ) → k < 1 → PointsDown (read_le 8 (2000 + 36 + 8 * k) machine) machine
unfolding read_le
entries_down zero lt = facp_down
entries_down (suc k) lt = absurd (omega arith)

xsdt_down : PointsDown 2000 machine
unfolding read_le
xsdt_down e = absurd (cc e)

-- The XSDT, its one entry, and twice the DSDT of that.
print_all_acpi_tables-shows_example :
    print_all_acpi_tables 2 tables machine ≡ some (2000 ∷ 3000 ∷ 5000 ∷ 5000 ∷ [])
unfolding read_le
print_all_acpi_tables-shows_example =
    print_all_acpi_tables-shows 0 1000 (7 ∷ []) [] machine (omega arith) (omega arith) xsdt_down
      entries_down
