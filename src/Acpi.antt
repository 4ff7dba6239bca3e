-- ===== src/Acpi.antt =====
-- The ACPI tables: the bytes that the firmware programs of edk2/ and the driver
-- drivers/acpi/my_acpi_message.c share.
use Prim.Native.Char.{code}
use Prim.Native.String.{String}
use oshm.Prelude.{
  ℕ, zero, suc, ◌+◌, ◌-◌, ◌*◌, ◌/◌, ◌%◌, ◌^◌, ◌≡◌, List, [], ◌∷◌, ◌++◌, take, drop, length, arith,
  ◌<◌,
}
pub mod App
pub mod Memory
pub mod Show
pub mod Change
pub mod Print
mod Tests

abbrev pub Bytes : Type 0
Bytes = List ℕ

-- A number in `n` bytes, the lowest first.
unfoldable pub le_bytes : ℕ → ℕ → Bytes
le_bytes zero x = []
le_bytes (suc n) x = (x % 256) ∷ le_bytes n (x / 256)

-- The sum of bytes, and as a UINT8.
abbrev pub sum : Bytes → ℕ
sum [] = 0
sum (b ∷ bs) = b + sum bs

-- sizeof(EFI_ACPI_DESCRIPTION_HEADER)
abbrev pub header_size : ℕ
header_size = 36

-- An ASCII text as bytes.
abbrev pub codes : String → Bytes
codes String.[] = []
codes (String.◌∷◌ c s) = code c ∷ codes s
