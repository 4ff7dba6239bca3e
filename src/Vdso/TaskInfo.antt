-- ===== src/Vdso/TaskInfo.antt =====
-- `__vdso_get_task_struct_info` (vget_task_struct_info.c), which runs in the user's process, with the
-- pages that `vtask_fault` shows it there.
use oshm.Prelude.{
  ℕ, ◌+◌, ◌-◌, ◌*◌, ◌/◌, ◌%◌, ◌^◌, ◌≤◌, ◌<◌, ◌≡◌, refl, ap, Bool, true, false, not, Option, none,
  some, [], ◌∷◌, arith, ◌==◌, ==_iff, if◌then◌else◌, leb, ℤ, pos, neg, einval,
}
use oshm.Vdso.{page_size, vtask_size, add_word, sub_word}
use oshm.Vdso.Fault.{
  image_page, task_metadata, Outcome, Inserter, TaskMemory, vtask_fault, metadata_magic,
}

-- `struct task_info`
pub record TaskInfo : Type 0 where
  pub pid : ℕ
  pub task_struct_ptr : ℕ

-- `vdata >> PAGE_SHIFT << PAGE_SHIFT`
abbrev page_of : ℕ → ℕ
page_of a = a / page_size * page_size

-- What the function reads: words at user addresses. `pid_offset` is `offsetof(struct task_struct,
-- pid)`, `vdata` the address of the vDSO's data, and `info` says whether the pointer is not null.
unfoldable pub get_task_struct_info :
    (load : ℕ → ℕ) (pid_offset vdata : ℕ) (info : Bool) → ℤ × Option TaskInfo
get_task_struct_info load pid_offset vdata info =
    if not info
    then (neg einval, none)
    else let vtask_base = sub_word (page_of vdata) vtask_size in
      let metadata = add_word vtask_base (vtask_size - page_size) in
      if vtask_base == 0
      then (neg einval, none)
      else if not (load metadata == metadata_magic)
      then (neg einval, none)
      else let ptr = add_word vtask_base (load (add_word metadata 8)) in
        (pos 0, some (record { pid = load (add_word ptr pid_offset); task_struct_ptr = ptr }))

-- A word of a page of `struct task_metadata`: its three fields, and zeros after them.
abbrev metadata_word : ℕ → ℕ → ℕ → ℕ → ℕ
metadata_word magic task_offset task_size i =
    if i == 0 then magic else if i == 8 then task_offset else if i == 16 then task_size else 0

-- What a read sees after its fault: a word of the page that was set, or of the frame that was
-- inserted. `phys` is the physical memory; what a fault that fails shows is `broken`.
abbrev pub shown : (phys : ℕ → ℕ) (broken : ℕ) → ℕ → Outcome → ℕ
shown phys broken i o = elim o.page [
  | some p ↦ elim p [ task_metadata m t n ↦ metadata_word m t n i | image_page a ↦ broken ]
  | none ↦ elim o.inserted [ [] ↦ broken | x ∷ xs ↦ phys (x.1 * page_size + i) ]
]

-- A read of the mapping that starts at `base`.
abbrev pub user_load : Inserter → TaskMemory → (phys : ℕ → ℕ) → (broken base : ℕ) → ℕ → ℕ
user_load v t phys broken base a =
    shown phys broken (a % page_size) (vtask_fault v t true (sub_word a base / page_size) a)

-- A mapping of `vtask_size` from a page's address on, below the vvar page with the vDSO's data.
pub record IsMapped (base vdata : ℕ) : Type 0 where
  pub aligned : base % page_size ≡ 0
  pub positive : 0 < base
  pub small : base < 2 ^ 47
  pub from : base + vtask_size ≤ vdata
  pub to : vdata < base + vtask_size + page_size

module _ (v : Inserter) (t : TaskMemory) (phys : ℕ → ℕ) (broken : ℕ) {base vdata : ℕ}
    (m : IsMapped base vdata) where
  -- The word at the place `i` of the metadata page.
  load_metadata :
      (a i : ℕ)
      → i < page_size
      → a ≡ base + (vtask_size - page_size) + i
      → user_load v t phys broken base a
        ≡ metadata_word metadata_magic (t.phys_addr % page_size) t.task_size i
  unfolding vtask_fault
  load_metadata a i lt e =
      let page : sub_word a base / page_size ≡ 5 = omega arith in
      let last : (sub_word a base / page_size == 5) ≡ true = (==_iff _ 5).1 page in
      let place : a % page_size ≡ i = omega arith in rw last (rw place refl)

  -- The word at the distance `k` from the task's start, in the five pages that are frames.
  load_task :
      (a k : ℕ)
      → t.phys_addr % page_size + k < vtask_size - page_size
      → a ≡ base + t.phys_addr % page_size + k
      → user_load v t phys broken base a ≡ phys (t.phys_addr + k)
  unfolding vtask_fault
  load_task a k lt e =
      let page : sub_word a base / page_size ≡ (t.phys_addr % page_size + k) / page_size =
        omega arith in
      let first : (sub_word a base / page_size == 5) ≡ false = ground arith in
      let within : leb 6 (sub_word a base / page_size) ≡ false = ground arith in
      let place : (t.phys_addr / page_size + sub_word a base / page_size) * page_size
            + a % page_size
          ≡ t.phys_addr + k =
        omega arith in
      rw (first, within) (ap phys place)

-- Through the pages that the fault handler shows, memory given, the function finds the calling task:
-- it returns 0 and the process number that physical memory holds in the task's own `task_struct`, and
-- a read at the pointer that it returns, at any distance within the five pages of the mapping, is the
-- read of physical memory at that distance from the `task_struct`.
pub get_task_struct_info-own_task :
    (v : Inserter) (t : TaskMemory) (phys : ℕ → ℕ) (broken base vdata pid_offset : ℕ)
    → IsMapped base vdata
    → t.phys_addr % page_size + pid_offset < vtask_size - page_size
    → let load = user_load v t phys broken base in
      let ptr = base + t.phys_addr % page_size in
      (get_task_struct_info load pid_offset vdata true
        ≡ (pos 0, some (record { pid = phys (t.phys_addr + pid_offset); task_struct_ptr = ptr })))
      × ((k : ℕ)
          → t.phys_addr % page_size + k < vtask_size - page_size
          → load (ptr + k) ≡ phys (t.phys_addr + k))
unfolding get_task_struct_info
get_task_struct_info-own_task v t phys broken base vdata pid_offset m fits =
    let off = t.phys_addr % page_size in
    let ptr : ℕ = base + off in
    let load = user_load v t phys broken base in
    let found : sub_word (page_of vdata) vtask_size ≡ base = omega arith in
    let set : (base == 0) ≡ false = ground arith in
    let meta : add_word base (vtask_size - page_size) ≡ base + (vtask_size - page_size) + 0 =
      omega arith in
    let meta' : add_word (add_word base (vtask_size - page_size)) 8
        ≡ base + (vtask_size - page_size) + 8 =
      omega arith in
    let magic : load (add_word base (vtask_size - page_size)) ≡ metadata_magic =
      load_metadata v t phys broken m _ 0 (omega arith) meta in
    let offset : load (add_word (add_word base (vtask_size - page_size)) 8) ≡ off =
      load_metadata v t phys broken m _ 8 (omega arith) meta' in
    let at : add_word base off ≡ ptr = omega arith in
    let pid_at : add_word ptr pid_offset ≡ base + off + pid_offset = omega arith in
    let pid : load (add_word ptr pid_offset) ≡ phys (t.phys_addr + pid_offset) =
      load_task v t phys broken m _ pid_offset fits pid_at in
    (
      rw (found, set, magic, offset, at, pid) refl,
      (λ k lt. load_task v t phys broken m (ptr + k) k lt refl),
    )
