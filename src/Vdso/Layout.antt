-- ===== src/Vdso/Layout.antt =====
-- What `map_vdso` leaves in the address space, and the failure that it does not see.
use oshm.Prelude.{
  ℕ, zero, suc, ◌+◌, ◌-◌, ◌^◌, ◌≤◌, ◌<◌, ◌≡◌, ◌≢◌, refl, ap, sym, Bool, true, false, List, ◌∷◌,
  arith, ◌==◌, if◌then◌else◌, Bool-cases, inl, inr, ℤ, pos, neg, eexist,
}
use oshm.Vdso.{VdsoImage, vtask_size, add_word, sub_word, neg_word, is_err_value, to_int}
use oshm.Vdso.Map.{
  Kind, vdso, vvar, vtask, Vma, vma, Mm, MemoryManager, Unmaps, map_vdso, map_vdso_once,
  any_special, length_of,
}

-- All errors of the memory manager are numbers above 0.
abbrev AllInstall : MemoryManager → Type 0
AllInstall m = (k : Kind) (a n : ℕ) → m.install k a n ≡ 0

-- The result of a call that gives `r`: either all three mappings, one upon the other, or nothing.
abbrev pub AllOrNothing : VdsoImage → ℕ → Mm → ℤ × Mm → Type 0
AllOrNothing image a mm (r, mm') =
    (r ≡ pos 0
      → (mm'.maps
          ≡ vma vtask (sub_word a vtask_size) vtask_size
            ∷ vma vvar a (neg_word image.sym_vvar_start)
            ∷ vma vdso (sub_word a image.sym_vvar_start) image.size
            ∷ mm.maps)
        × (mm'.vdso_base ≡ sub_word a image.sym_vvar_start)
        × (mm'.vtask_base ≡ sub_word a vtask_size)
        × (mm'.vdso_image ≡ image))
    × (r ≢ pos 0
        → (mm'.maps ≡ mm.maps)
          × (mm'.vdso_base ≡ mm.vdso_base)
          × (mm'.vtask_base ≡ mm.vtask_base)
          × (mm'.vdso_image ≡ mm.vdso_image))
    × (mm'.locked ≡ false)

neg-ne_zero : (e : ℕ) → (e == 0) ≡ false → neg e ≢ pos 0
neg-ne_zero zero h = cc
neg-ne_zero (suc e) h = λ q. cc

to_int-ne_zero : (a : ℕ) → a < 2 ^ 64 → is_err_value a ≡ true → to_int a ≢ pos 0
to_int-ne_zero a lt h = λ q. ground arith

module _ (image : VdsoImage) (a : ℕ) (mm : Mm) where
  abbrev restored : List Vma → Mm
  restored vs = record mm { maps = vs; locked = false }

  undone :
      (r : ℤ) (vs : List Vma) → r ≢ pos 0 → vs ≡ mm.maps → AllOrNothing image a mm (r, restored vs)
  undone r vs ne same = ((λ e. absurd (ne e)), (λ e. (same, refl, refl, refl)), refl)

-- `map_vdso` on an unlocked address space makes all three mappings and records them, and returns 0,
-- or returns another number and leaves the mappings and the recorded addresses as they were; either
-- way the lock is free. `do_munmap` is taken to remove a mapping that was just made.
pub map_vdso-AllOrNothing :
    (m : MemoryManager) (image : VdsoImage) (addr : ℕ) (mm : Mm)
    → Unmaps m
    → mm.locked ≡ false
    → AllOrNothing image
        (add_word (m.get_unmapped_area addr (length_of image)) vtask_size)
        mm
        (map_vdso m image addr mm)
unfolding map_vdso
map_vdso-AllOrNothing m image addr mm un free =
    let a = add_word (m.get_unmapped_area addr (length_of image)) vtask_size in
    let t = sub_word a image.sym_vvar_start in
    let n = neg_word image.sym_vvar_start in
    elim (Bool-cases m.lock_killed) [
      | inl killed ↦ rw killed ((λ e. cc), (λ e. (refl, refl, refl, refl)), free)
      | inr alive ↦ rw alive (elim (Bool-cases (is_err_value a)) [
        | inl bad ↦ rw bad (undone image a mm _ mm.maps (to_int-ne_zero a (omega arith) bad) refl)
        | inr good ↦ rw good (elim (Bool-cases (m.install vdso t image.size == 0)) [
          | inr fails ↦ rw fails (undone image a mm _ mm.maps (neg-ne_zero _ fails) refl)
          | inl text ↦ rw text (elim (Bool-cases (m.install vvar a n == 0)) [
            | inr fails ↦
                rw fails
                  (undone image a mm _ _ (neg-ne_zero _ fails) (un vdso t image.size mm.maps))
            | inl data_ok ↦
                rw data_ok
                  (elim (Bool-cases (m.install vtask (sub_word a vtask_size) vtask_size == 0)) [
                    | inr fails ↦ rw fails (
                        undone image a mm _ _ (neg-ne_zero _ fails) (
                          rw (un vvar a n (vma vdso t image.size ∷ mm.maps))
                            (un vdso t image.size mm.maps)))
                    | inl task ↦
                        rw task ((λ e. (refl, refl, refl, refl)), (λ ne. absurd (ne refl)), refl)
                  ])
          ])
        ])
      ])
    ]

-- With room for the whole length at `b`, without a wrap, the three mappings tile it: the task's
-- pages from `b`, the time data after them, the vDSO's text after that and up to the end.
pub layout-tiles :
    (image : VdsoImage) (b v : ℕ)
    → image.sym_vvar_start ≡ 2 ^ 64 - v
    → 0 < v
    → b + vtask_size + v + image.size < 2 ^ 64
    → let a = add_word b vtask_size in
      (sub_word a vtask_size ≡ b)
      × (a ≡ b + vtask_size)
      × (a + neg_word image.sym_vvar_start ≡ sub_word a image.sym_vvar_start)
      × (sub_word a image.sym_vvar_start + image.size ≡ b + length_of image)
layout-tiles image b v e positive room = omega arith

-- An error pointer of `get_unmapped_area`, the failure of the search for room, is not recognised: with
-- `VTASK_SIZE` added it is a small address and no error value, so if the mappings can be installed
-- there, `map_vdso` returns 0.
pub map_vdso-misses_error :
    (m : MemoryManager) (image : VdsoImage) (addr e : ℕ) (mm : Mm)
    → m.lock_killed ≡ false
    → 0 < e
    → e ≤ 4095
    → m.get_unmapped_area addr (length_of image) ≡ 2 ^ 64 - e
    → AllInstall m
    → ((map_vdso m image addr mm).0 ≡ pos 0)
      × (sub_word (add_word (2 ^ 64 - e) vtask_size) vtask_size ≡ 2 ^ 64 - e)
      × (add_word (2 ^ 64 - e) vtask_size ≡ vtask_size - e)
unfolding map_vdso
map_vdso-misses_error m image addr e mm alive positive small fails works =
    let unseen : is_err_value (add_word (2 ^ 64 - e) vtask_size) ≡ false = ground arith in
    (rw (alive, fails, unseen) (simp works), omega arith, omega arith)

-- `map_vdso_once` refuses exactly if one of the three kinds of mapping is there already, and then
-- changes no mapping; otherwise it is `map_vdso` on the unlocked address space.
map_vdso_once_lem :
    (m : MemoryManager) (image : VdsoImage) (addr : ℕ) (mm : Mm)
    → mm.locked ≡ false
    → map_vdso_once m image addr mm
      ≡ (if any_special mm.maps then (neg eexist, mm) else map_vdso m image addr mm)
unfolding map_vdso_once
map_vdso_once_lem m image addr mm free = elim (Bool-cases (any_special mm.maps)) [
  | inl there ↦ rw there (ap (λ (b : Bool). (neg eexist, record mm { locked = b })) (sym free))
  | inr none_there ↦
      rw none_there (ap (λ (b : Bool). map_vdso m image addr (record mm { locked = b })) (sym free))
]
