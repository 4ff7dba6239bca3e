-- ===== src/Vdso/Address.antt =====
-- `vdso_addr` and `map_vdso_randomized`: where above the stack the vDSO is asked to go.
use oshm.Prelude.{
  ℕ, ◌+◌, ◌-◌, ◌*◌, ◌/◌, ◌%◌, ◌^◌, ◌≤◌, ◌<◌, ◌≡◌, arith, if◌then◌else◌, ltb, leb, ℤ, pos,
}
use oshm.Vdso.{VdsoImage, page_size, add_word, sub_word}
use oshm.Vdso.Map.{Mm, MemoryManager, map_vdso}

abbrev pub pmd_size : ℕ
pmd_size = 2 ^ 21

-- `PAGE_ALIGN`, and `& PMD_MASK`, on words.
abbrev pub page_align : ℕ → ℕ
page_align a = (a + (page_size - 1)) % 2 ^ 64 / page_size * page_size

abbrev pmd_floor : ℕ → ℕ
pmd_floor a = a / pmd_size * pmd_size

-- `DEFAULT_MAP_WINDOW`, `get_random_int()` and `align_vdso_addr`.
pub record Machine : Type 0 where
  pub default_map_window : ℕ
  pub random_int : ℕ
  pub align_vdso_addr : ℕ → ℕ

-- The lowest possible end, rounded up to a PMD boundary and cut at the end of the map window, less
-- `len`.
unfoldable pub last_start : Machine → ℕ → ℕ → ℕ
last_start c start len =
    let end = pmd_floor (add_word (add_word start len) (pmd_size - 1)) in
    sub_word (if leb c.default_map_window end then c.default_map_window else end) len

-- `offset` is an `unsigned int`, and so is `offset << PAGE_SHIFT`.
unfoldable pub pick : Machine → ℕ → ℕ → ℕ
pick c start end =
    if ltb start end
    then add_word start
        (c.random_int % ((end - start) / page_size + 1) % 2 ^ 32 * page_size % 2 ^ 32)
    else start

unfoldable pub vdso_addr : Machine → ℕ → ℕ → ℕ
unfolding last_start pick
vdso_addr c start len =
    c.align_vdso_addr (pick c (page_align start) (last_start c (page_align start) (len % 2 ^ 32)))

-- `map_vdso_randomized`; the length is passed as an `unsigned`.
unfoldable pub map_vdso_randomized : Machine → MemoryManager → VdsoImage → ℕ → Mm → ℤ × Mm
unfolding vdso_addr
map_vdso_randomized c m image start_stack mm =
    map_vdso m image (vdso_addr c start_stack (sub_word image.size image.sym_vvar_start)) mm

-- `arch_setup_additional_pages`; the number is `vdso64_enabled`.
unfoldable pub arch_setup_additional_pages :
    Machine → MemoryManager → ℕ → VdsoImage → ℕ → Mm → ℤ × Mm
unfolding map_vdso_randomized
arch_setup_additional_pages c m vdso64_enabled image start_stack mm =
    if leb 1 vdso64_enabled then map_vdso_randomized c m image start_stack mm else (pos 0, mm)

page_align_bounds :
    (a : ℕ)
    → a < 2 ^ 63
    → (a ≤ page_align a) × (page_align a < a + page_size) × (page_align a % page_size ≡ 0)
page_align_bounds a h = omega arith

last_start_bounds :
    (c : Machine) (start len : ℕ)
    → start + len + pmd_size < c.default_map_window
    → c.default_map_window < 2 ^ 48
    → (start ≤ last_start c start len)
      × (last_start c start len < start + pmd_size)
      × (last_start c start len + len ≤ c.default_map_window)
unfolding last_start
last_start_bounds c start len room small = ground arith

pick-between :
    (c : Machine) (start end : ℕ)
    → start ≤ end
    → end < start + pmd_size
    → end < 2 ^ 48
    → start % page_size ≡ 0
    → (start ≤ pick c start end) × (pick c start end ≤ end) × (pick c start end % page_size ≡ 0)
unfolding pick
pick-between c start end le near small aligned =
    let k = c.random_int % ((end - start) / page_size + 1) in
    let k_le : k ≤ (end - start) / page_size = omega arith in ground arith

-- The address that is picked for a stack start and a length with room for a PMD more in the map
-- window, before its last alignment: it is a page's address, it lies at or above the stack start and
-- less than a page and a PMD above it, and the region that starts there ends in the map window.
pub pick_bounds :
    (c : Machine) (start len : ℕ)
    → start + len + 2 ^ 22 < c.default_map_window
    → c.default_map_window < 2 ^ 48
    → let a = pick c (page_align start) (last_start c (page_align start) len) in
      (start ≤ a)
      × (a < start + page_size + pmd_size)
      × (a + len ≤ c.default_map_window)
      × (a % page_size ≡ 0)
pick_bounds c start len room small =
    let s = page_align start in
    let e = last_start c s len in
    let (up, near, aligned) = page_align_bounds start (omega arith) in
    let (le, lt, fits) = last_start_bounds c s len (omega arith) small in
    let (above, below, page) = pick-between c s e le lt (omega arith) aligned in
    (omega arith, omega arith, omega arith, page)
