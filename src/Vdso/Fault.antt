-- ===== src/Vdso/Fault.antt =====
-- The page fault handlers of the three mappings.
use oshm.Prelude.{
  ℕ, ◌+◌, ◌-◌, ◌*◌, ◌/◌, ◌%◌, ◌^◌, ◌<◌, ◌≡◌, ◌≢◌, refl, Bool, true, false, Option, none, some, List,
  [], ◌∷◌, arith, ◌==◌, if◌then◌else◌, leb,
}
use oshm.Vdso.{VdsoImage, page_size, vtask_size, add_word, sub_word}

-- `vm_fault_t`; `code` is what `vmf_insert_pfn` gave.
pub data VmFault : Type 0 where
  ok sigbus oom : VmFault
  code : ℕ → VmFault

-- The page put into `vmf->page`: one of the image by its offset, or a page of `struct task_metadata`.
pub data Page : Type 0 where
  image_page : ℕ → Page
  task_metadata : (magic task_offset task_size : ℕ) → Page

-- What a handler returns, the page it sets, and the frames it has inserted, newest first.
pub record Outcome : Type 0 where
  pub result : VmFault
  pub page : Option Page
  pub inserted : List (ℕ × ℕ)

abbrev pub fails : VmFault → Outcome
fails r = record { result = r; page = none; inserted = [] }

abbrev pub gives : Page → Outcome
gives p = record { result = ok; page = some p; inserted = [] }

-- `pgoff << PAGE_SHIFT`
abbrev offset_of : ℕ → ℕ
offset_of pgoff = pgoff * page_size % 2 ^ 64

abbrev in_image : ℕ → VdsoImage → Outcome
in_image pgoff image =
    if leb image.size (offset_of pgoff) then fails sigbus else gives (image_page (offset_of pgoff))

unfoldable pub vdso_fault : Option VdsoImage → ℕ → Outcome
vdso_fault none pgoff = fails sigbus
vdso_fault (some image) pgoff = in_image pgoff image

-- `vmf_insert_pfn` at an address with a frame, and which of its codes are errors.
pub record Inserter : Type 0 where
  pub insert : ℕ → ℕ → VmFault
  pub is_error : VmFault → Bool

abbrev pub inserts : Inserter → ℕ → ℕ → List (ℕ × ℕ) → Outcome
inserts v address pfn before = record {
  result = v.insert address pfn;
  page = none;
  inserted = (address, pfn) ∷ before;
}

-- The frames of the time data: the real page, that of the task's time namespace if it is in one, and
-- those of the two paravirtual clocks where they are present and in use.
pub record TimeData : Type 0 where
  pub vvar_pfn : ℕ
  pub timens_page : Option ℕ
  pub pvclock_page : Option ℕ
  pub hvclock_page : Option ℕ

-- The fault on the vvar page inside a time namespace: the real page goes to the namespace's place
-- first, and then the namespace's page to the address of the fault.
abbrev vvar_page_fault : Inserter → TimeData → VdsoImage → ℕ → ℕ → Option ℕ → Outcome
vvar_page_fault v d image address sym_offset none = inserts v address d.vvar_pfn []
vvar_page_fault v d image address sym_offset (some timens) =
    let addr = add_word address (sub_word image.sym_timens_page sym_offset) in
    let err = v.insert addr d.vvar_pfn in
    if v.is_error err
    then record { result = err; page = none; inserted = (addr, d.vvar_pfn) ∷ [] }
    else inserts v address timens ((addr, d.vvar_pfn) ∷ [])

abbrev clock_fault : Inserter → ℕ → Option ℕ → Outcome
clock_fault v address none = fails sigbus
clock_fault v address (some pfn) = inserts v address pfn []

abbrev timens_fault : Inserter → TimeData → ℕ → Option ℕ → Outcome
timens_fault v d address none = fails sigbus
timens_fault v d address (some timens) = inserts v address d.vvar_pfn []

abbrev sym_offset_of : VdsoImage → ℕ → ℕ
sym_offset_of image pgoff = add_word (offset_of pgoff) image.sym_vvar_start

unfoldable pub vvar_fault : Inserter → TimeData → Option VdsoImage → ℕ → ℕ → Outcome
vvar_fault v d none pgoff address = fails sigbus
vvar_fault v d (some image) pgoff address =
    let sym_offset = sym_offset_of image pgoff in
    if sym_offset == 0
    then fails sigbus
    else if sym_offset == image.sym_vvar_page
    then vvar_page_fault v d image address sym_offset d.timens_page
    else if sym_offset == image.sym_pvclock_page
    then clock_fault v address d.pvclock_page
    else if sym_offset == image.sym_hvclock_page
    then clock_fault v address d.hvclock_page
    else if sym_offset == image.sym_timens_page
    then timens_fault v d address d.timens_page
    else fails sigbus

-- "TSKM"
abbrev pub metadata_magic : ℕ
metadata_magic = 0x54534B4D

-- The calling task's `task_struct`: its physical address and its size.
pub record TaskMemory : Type 0 where
  pub phys_addr : ℕ
  pub task_size : ℕ

-- The last page of the mapping is made up; the others are the frames from the task's on. `alloc` says
-- whether `alloc_page` succeeds.
unfoldable pub vtask_fault : Inserter → TaskMemory → Bool → ℕ → ℕ → Outcome
vtask_fault v t alloc pgoff address =
    if pgoff == vtask_size / page_size - 1
    then (if alloc
        then gives (task_metadata metadata_magic (t.phys_addr % page_size) t.task_size)
        else fails oom)
    else if leb (vtask_size / page_size) pgoff
    then fails sigbus
    else inserts v address (t.phys_addr / page_size + pgoff) []

-- A fault on the vvar page of a task in a time namespace leaves the namespace's page there, and the
-- real page at the place of the namespace's, unless the first insertion fails; then the fault fails
-- with its code and the namespace's page is not inserted.
pub vvar_fault-timens :
    (v : Inserter) (d : TimeData) (image : VdsoImage) (pgoff address timens : ℕ)
    → d.timens_page ≡ some timens
    → sym_offset_of image pgoff ≢ 0
    → sym_offset_of image pgoff ≡ image.sym_vvar_page
    → let place = add_word address (sub_word image.sym_timens_page (sym_offset_of image pgoff)) in
      let o = vvar_fault v d (some image) pgoff address in
      (v.is_error (v.insert place d.vvar_pfn) ≡ false
        → o ≡ inserts v address timens ((place, d.vvar_pfn) ∷ []))
      × (v.is_error (v.insert place d.vvar_pfn) ≡ true
          → (o.result ≡ v.insert place d.vvar_pfn) × (o.inserted ≡ (place, d.vvar_pfn) ∷ []))
unfolding vvar_fault
vvar_fault-timens v d image pgoff address timens ns ne at =
    let z : (sym_offset_of image pgoff == 0) ≡ false = ground arith in
    let p : (sym_offset_of image pgoff == image.sym_vvar_page) ≡ true = ground arith in
    rw (z, p, ns) ((λ h. rw h), (λ h. rw h (refl, refl)))

-- What a fault on the six pages of the task's mapping is to do: the first five are the frames from the one
-- that holds the start of the `task_struct`, the sixth is made up, and there is no seventh.
abbrev pub ShowsTask : Inserter → TaskMemory → Bool → (pgoff address : ℕ) → Outcome → Type 0
ShowsTask v t alloc pgoff address o =
    (pgoff < 5
      → (o.result ≡ v.insert address (t.phys_addr / 4096 + pgoff))
        × (o.page ≡ none)
        × (o.inserted ≡ (address, t.phys_addr / 4096 + pgoff) ∷ []))
    × (pgoff ≡ 5
        → (o.inserted ≡ [])
          × (alloc ≡ true
              → (o.result ≡ ok)
                × (o.page ≡ some (task_metadata 0x54534B4D (t.phys_addr % 4096) t.task_size)))
          × (alloc ≡ false → (o.result ≡ oom) × (o.page ≡ none)))
    × (5 < pgoff → (o.result ≡ sigbus) × (o.page ≡ none) × (o.inserted ≡ []))

-- A fault on one of the first five pages of the task's mapping inserts one frame at its address, counted from
-- the frame that holds the start of the `task_struct`, and gives what the insertion gives; one on the
-- sixth inserts nothing, and shows the page with the magic number, the place of the structure in its first
-- frame and its size, or is out of memory; one beyond them is refused and shows nothing.
pub vtask_fault_bounds :
    (v : Inserter) (t : TaskMemory) (alloc : Bool) (pgoff address : ℕ)
    → ShowsTask v t alloc pgoff address (vtask_fault v t alloc pgoff address)
unfolding vtask_fault
vtask_fault_bounds v t alloc pgoff address = ground arith
