-- ===== src/Vdso.antt =====
-- arch/x86/entry/vdso/vma.c and vget_task_struct_info.c: the mappings of a process that show it the
-- vDSO, the kernel's time data and, since the OShm patch, the task's own `task_struct`.
pub mod Address
pub mod Fault
pub mod Layout
pub mod Map
pub mod TaskInfo
mod Tests
use oshm.Prelude.{ℕ, ◌+◌, ◌-◌, ◌*◌, ◌/◌, ◌%◌, ◌^◌, Bool, if◌then◌else◌, ltb, leb, ℤ, pos, negsuc}

abbrev pub page_size : ℕ
page_size = 4096

-- `VVAR_TASK_STRUCT_NR_PAGES` and `VTASK_SIZE`
abbrev task_struct_nr_pages : ℕ
task_struct_nr_pages = 6

abbrev pub vtask_size : ℕ
vtask_size = 24576

-- `unsigned long` arithmetic; a `long` is its bit pattern.
abbrev pub add_word : ℕ → ℕ → ℕ
add_word a b = (a + b) % 2 ^ 64

abbrev pub sub_word : ℕ → ℕ → ℕ
sub_word a b = (a + 2 ^ 64 - b) % 2 ^ 64

abbrev pub neg_word : ℕ → ℕ
neg_word a = (2 ^ 64 - a) % 2 ^ 64

-- `IS_ERR_VALUE`
abbrev pub is_err_value : ℕ → Bool
is_err_value a = leb (2 ^ 64 - 4095) a

-- The conversion of an `unsigned long` to an `int`.
abbrev pub to_int : ℕ → ℤ
to_int a = if ltb (a % 2 ^ 32) (2 ^ 31) then pos (a % 2 ^ 32) else negsuc (2 ^ 32 - 1 - a % 2 ^ 32)

-- The fields of `struct vdso_image` that the code reads.
pub record VdsoImage : Type 0 where
  pub size : ℕ
  pub sym_vvar_start : ℕ
  pub sym_vvar_page : ℕ
  pub sym_pvclock_page : ℕ
  pub sym_hvclock_page : ℕ
  pub sym_timens_page : ℕ
