-- ===== src/Vdso/Map.antt =====
-- `map_vdso` and `map_vdso_once`: the three mappings are made together or not at all.
use oshm.Prelude.{
  ℕ, Bool, true, false, not, ◌||◌, List, [], ◌∷◌, ◌==◌, if◌then◌else◌, ℤ, pos, neg, eintr, eexist,
  ◌≡◌,
}
use oshm.Vdso.{VdsoImage, vtask_size, add_word, sub_word, neg_word, is_err_value, to_int}

-- Which `vm_special_mapping` a region has.
pub data Kind : Type 0 where
  vdso vvar vtask other : Kind

pub record Vma : Type 0 where
  pub kind : Kind
  pub start : ℕ
  pub size : ℕ

abbrev pub vma : Kind → ℕ → ℕ → Vma
vma k a n = record { kind = k; start = a; size = n }

-- `mm_struct` with its `mm_context_t`; `locked` is its write lock.
pub record Mm : Type 0 where
  pub maps : List Vma
  pub vdso_base : ℕ
  pub vdso_image : VdsoImage
  pub vtask_base : ℕ
  pub locked : Bool

-- The calls into the memory manager. `install` gives 0, or the error number of an error pointer.
pub record MemoryManager : Type 0 where
  pub lock_killed : Bool
  pub get_unmapped_area : ℕ → ℕ → ℕ
  pub install : Kind → ℕ → ℕ → ℕ
  pub do_munmap : ℕ → ℕ → List Vma → List Vma

-- What the code relies on: unmapping the newest mapping, at its place and size, takes it away.
abbrev pub Unmaps : MemoryManager → Type 0
Unmaps m = (k : Kind) (a n : ℕ) (vs : List Vma) → m.do_munmap a n (vma k a n ∷ vs) ≡ vs

abbrev with_maps : List Vma → Mm → Mm
with_maps vs mm = record mm { maps = vs }

abbrev unlock : ℤ → Mm → ℤ × Mm
unlock r mm = (r, record mm { locked = false })

-- From the third mapping on; `a` is `addr`, `t` is `text_start`.
unfoldable pub map_vtask : MemoryManager → VdsoImage → ℕ → ℕ → Mm → ℤ × Mm
map_vtask m image a t mm =
    let v = sub_word a vtask_size in
    let err = m.install vtask v vtask_size in
    if not (err == 0)
    then unlock (neg err) (
        with_maps (m.do_munmap t image.size (m.do_munmap a (neg_word image.sym_vvar_start) mm.maps))
          mm)
    else unlock (pos 0) (record mm {
      maps = vma vtask v vtask_size ∷ mm.maps;
      vdso_base = t;
      vdso_image = image;
      vtask_base = v;
    })

unfoldable pub map_vvar : MemoryManager → VdsoImage → ℕ → ℕ → Mm → ℤ × Mm
unfolding map_vtask
map_vvar m image a t mm =
    let n = neg_word image.sym_vvar_start in
    let err = m.install vvar a n in
    if not (err == 0)
    then unlock (neg err) (with_maps (m.do_munmap t image.size mm.maps) mm)
    else map_vtask m image a t (with_maps (vma vvar a n ∷ mm.maps) mm)

unfoldable pub map_text : MemoryManager → VdsoImage → ℕ → Mm → ℤ × Mm
unfolding map_vvar
map_text m image a mm =
    let t = sub_word a image.sym_vvar_start in
    let err = m.install vdso t image.size in
    if not (err == 0)
    then unlock (neg err) mm
    else map_vvar m image a t (with_maps (vma vdso t image.size ∷ mm.maps) mm)

-- The whole length: `image->size - image->sym_vvar_start + VTASK_SIZE`.
abbrev pub length_of : VdsoImage → ℕ
length_of image = add_word (sub_word image.size image.sym_vvar_start) vtask_size

unfoldable pub map_vdso : MemoryManager → VdsoImage → ℕ → Mm → ℤ × Mm
unfolding map_text
map_vdso m image addr mm =
    if m.lock_killed
    then (neg eintr, mm)
    else let a = add_word (m.get_unmapped_area addr (length_of image)) vtask_size in
      let mm' : Mm = record mm { locked = true } in
      if is_err_value a then unlock (to_int a) mm' else map_text m image a mm'

-- `vma_is_special_mapping` for one of the three kinds.
abbrev is_special : Kind → Bool
is_special other = false
is_special _ = true

unfoldable pub any_special : List Vma → Bool
any_special [] = false
any_special (v ∷ vs) = is_special v.kind || any_special vs

-- The lock is taken for the search and given back before `map_vdso`.
unfoldable pub map_vdso_once : MemoryManager → VdsoImage → ℕ → Mm → ℤ × Mm
unfolding any_special
map_vdso_once m image addr mm =
    if any_special mm.maps
    then unlock (neg eexist) (record mm { locked = true })
    else map_vdso m image addr (record mm { locked = false })
