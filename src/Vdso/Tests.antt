-- ===== src/Vdso/Tests.antt =====
-- A process that maps the vDSO, faults on its pages and asks for its task, and the theorems there.
use oshm.Prelude.{
  ℕ, ◌-◌, ◌^◌, ◌≡◌, refl, true, false, none, some, List, [], ◌∷◌, arith, ◌==◌, if◌then◌else◌, ℤ,
  pos, neg, enomem,
}
use oshm.Vdso.{VdsoImage, vtask_size, add_word, sub_word}
use oshm.Vdso.Map.{Kind, vdso, vvar, vtask, other, Vma, vma, Mm, MemoryManager, map_vdso}
use oshm.Vdso.Layout.{AllOrNothing, map_vdso-AllOrNothing, map_vdso-misses_error}
use oshm.Vdso.Address.{Machine, arch_setup_additional_pages}
use oshm.Vdso.Fault.{
  ok, sigbus, image_page, Inserter, TimeData, TaskMemory, vdso_fault, vvar_fault, vtask_fault,
  inserts, ShowsTask, vtask_fault_bounds,
}

-- Two pages of text behind four pages of time data.
abbrev image : VdsoImage
image = record {
  size = 8192;
  sym_vvar_start = 2 ^ 64 - 16384;
  sym_vvar_page = 2 ^ 64 - 16384;
  sym_pvclock_page = 2 ^ 64 - 12288;
  sym_hvclock_page = 2 ^ 64 - 8192;
  sym_timens_page = 2 ^ 64 - 4096;
}

abbrev tail : List Vma → List Vma
tail [] = []
tail (v ∷ vs) = vs

-- Finds room at `b` and installs all but the kind with the number `bad`.
abbrev number : Kind → ℕ
number vdso = 1
number vvar = 2
number vtask = 3
number other = 4

abbrev manager : ℕ → ℕ → MemoryManager
manager b bad = record {
  lock_killed = false;
  get_unmapped_area = λ a n. b;
  install = λ k a n. if number k == bad then enomem else 0;
  do_munmap = λ a n vs. tail vs;
}

abbrev mm : Mm
mm = record {
  maps = vma other 4096 4096 ∷ [];
  vdso_base = 0;
  vdso_image = image;
  vtask_base = 0;
  locked = false;
}

maps_of : ℤ × Mm → ℤ × List Vma
maps_of (r, m) = (r, m.maps)

mapped : maps_of (map_vdso (manager 0x10000 0) image 0 mm) ≡ (
  pos 0,
  vma vtask 0x10000 24576
      ∷ vma vvar 0x16000 16384
      ∷ vma vdso 0x1a000 8192
      ∷ vma other 4096 4096
      ∷ [],
)
unfolding maps_of map_vdso
mapped = refl

not_mapped :
    maps_of (map_vdso (manager 0x10000 3) image 0 mm) ≡ (neg enomem, vma other 4096 4096 ∷ [])
unfolding maps_of map_vdso
not_mapped = refl

map_vdso-AllOrNothing_example :
    AllOrNothing image 0x16000 mm (map_vdso (manager 0x10000 2) image 0 mm)
map_vdso-AllOrNothing_example =
    map_vdso-AllOrNothing (manager 0x10000 2) image 0 mm (λ k a n vs. refl) refl

-- No room: -ENOMEM of the search is taken for an address.
map_vdso-misses_error_example :
    ((map_vdso (manager (2 ^ 64 - 12) 0) image 0 mm).0 ≡ pos 0)
    × (sub_word (add_word (2 ^ 64 - 12) vtask_size) vtask_size ≡ 2 ^ 64 - 12)
    × (add_word (2 ^ 64 - 12) vtask_size ≡ vtask_size - 12)
map_vdso-misses_error_example =
    map_vdso-misses_error (manager (2 ^ 64 - 12) 0) image 0 12 mm refl (omega arith) (omega arith)
      refl (λ k a n. ground arith)

abbrev machine : Machine
machine = record {
  default_map_window = 2 ^ 47 - 4096;
  random_int = 1234567;
  align_vdso_addr = λ a. a;
}

disabled : arch_setup_additional_pages machine (manager 0x10000 0) 0 image 0 mm ≡ (pos 0, mm)
unfolding arch_setup_additional_pages
disabled = refl

abbrev inserter : Inserter
inserter = record { insert = λ a p. ok; is_error = λ r. false }

abbrev time_data : TimeData
time_data = record {
  vvar_pfn = 77;
  timens_page = some 88;
  pvclock_page = none;
  hvclock_page = none;
}

faults :
    (vdso_fault (some image) 1
      ≡ record { result = ok; page = some (image_page 4096); inserted = [] })
    × (vdso_fault (some image) 2 ≡ record { result = sigbus; page = none; inserted = [] })
    × (vvar_fault inserter time_data (some image) 3 0x19000 ≡ inserts inserter 0x19000 77 [])
unfolding vdso_fault vvar_fault
faults = (refl, refl, refl)

abbrev task : TaskMemory
task = record { phys_addr = 0x12340; task_size = 9000 }

vtask_fault_bounds_example :
    ShowsTask inserter task true 6 0x12000 (vtask_fault inserter task true 6 0x12000)
vtask_fault_bounds_example = vtask_fault_bounds inserter task true 6 0x12000
