-- ===== src/Acpi/Show.antt =====
-- drivers/acpi/my_acpi_message.c: /sys/kernel/mytb/mytb_string shows the text of the table MYTB.
use oshm.Prelude.{
  ℕ, zero, suc, ◌+◌, ◌≤◌, ◌<◌, ◌≡◌, ◌≢◌, refl, ap, sym, ◌∙◌, Bool, true, false, not, ◌&&◌, Option,
  none, some, [], ◌∷◌, ◌++◌, take, drop, length, arith, ◌==◌, ltb, if◌then◌else◌, Bool-cases, inl,
  inr, ℤ, pos, neg, eqb_ℤ, enodev, enomem,
}
use oshm.Acpi.{Bytes}

-- The offset of `my_string` in `struct my_acpi_table`, in which no field is padded.
abbrev string_offset : ℕ
string_offset = 48

abbrev pub page_size : ℕ
page_size = 4096

unfoldable pub strnlen : Bytes → ℕ → ℕ
strnlen s zero = 0
strnlen [] (suc n) = 0
strnlen (c ∷ cs) (suc n) = if c == 0 then 0 else suc (strnlen cs n)

-- `mytb_show` on the table that `acpi_get_table` gives, with the page `buf`: the length and the
-- page after it. The table is taken to be as long as the structure.
unfoldable pub mytb_show : Option Bytes → Bytes → ℤ × Bytes
unfolding strnlen
mytb_show none buf = (neg enodev, buf)
mytb_show (some table) buf =
    let my_string = drop string_offset table in
    let len = strnlen my_string 64 in
    let copied = take len my_string ++ drop len buf in
    (pos len, if ltb len page_size then take len copied ++ (0 ∷ drop (len + 1) copied) else copied)

-- The directory mytb and its file, by whether they are there.
pub record Sysfs : Type 0 where
  pub kobj : Bool
  pub file : Bool

-- `acpi_mytb_init`: whether the table and memory are there, and what `sysfs_create_file` gives.
unfoldable pub acpi_mytb_init : (found created : Bool) → (retval : ℤ) → Sysfs → ℤ × Sysfs
acpi_mytb_init found created retval w =
    if not found
    then (neg enodev, w)
    else if not created
    then (neg enomem, w)
    else let w' = record w { kobj = true } in
      if not (eqb_ℤ retval (pos 0))
      then (retval, record w' { kobj = false })
      else (pos 0, record w' { file = true })

-- `acpi_mytb_exit`: the file goes with its directory.
unfoldable pub acpi_mytb_exit : Sysfs → Sysfs
acpi_mytb_exit w = record w { kobj = false; file = false }

abbrev NonZero : Bytes → Type 0
NonZero [] = Unit {0}
NonZero (c ∷ cs) = (c ≢ 0) × NonZero cs

strnlen-text :
    (s rest : Bytes) (n : ℕ) → NonZero s → length s < n → strnlen (s ++ 0 ∷ rest) n ≡ length s
unfolding strnlen
strnlen-text s rest zero h lt = absurd (omega arith)
strnlen-text [] rest (suc n) h lt = refl
strnlen-text (c ∷ cs) rest (suc n) h lt =
    let (ne, more) = h in ground (arith, strnlen-text cs rest n more)

strnlen-full : (s rest : Bytes) (n : ℕ) → NonZero s → length s ≡ n → strnlen (s ++ rest) n ≡ n
unfolding strnlen
strnlen-full s rest zero h e = refl
strnlen-full [] rest (suc n) h e = absurd (omega arith)
strnlen-full (c ∷ cs) rest (suc n) h e =
    let (ne, more) = h in ground (arith, strnlen-full cs rest n more)

take-prefix : (s rest : Bytes) → take (length s) (s ++ rest) ≡ s
take-prefix [] rest = refl
take-prefix (c ∷ cs) rest = ap (λ (t : Bytes). c ∷ t) (take-prefix cs rest)

drop-prefix : (s rest : Bytes) → drop (length s) (s ++ rest) ≡ rest
drop-prefix [] rest = refl
drop-prefix (c ∷ cs) rest = drop-prefix cs rest

drop-over :
    (s buf : Bytes) → drop (suc (length s)) (s ++ drop (length s) buf) ≡ drop (suc (length s)) buf
drop-over [] buf = refl
drop-over (c ∷ cs) [] = drop-prefix-nil cs
  where
    drop-prefix-nil : (t : Bytes) → drop (suc (length t)) (t ++ []) ≡ []
    drop-prefix-nil [] = refl
    drop-prefix-nil (c ∷ cs) = drop-prefix-nil cs
drop-over (c ∷ cs) (b ∷ bs) = drop-over cs bs

-- What the page becomes where `s` is copied to it.
abbrev pub shown : Bytes → Bytes → ℤ × Bytes
shown s buf = (pos (length s), s ++ (0 ∷ drop (suc (length s)) buf))

show-copied :
    (front s rest buf : Bytes)
    → length front ≡ string_offset
    → strnlen (s ++ rest) 64 ≡ length s
    → length s ≤ 64
    → mytb_show (some (front ++ (s ++ rest))) buf ≡ shown s buf
unfolding mytb_show
show-copied front s rest buf at len le =
    let field : drop string_offset (front ++ (s ++ rest)) ≡ s ++ rest =
      ap (λ (k : ℕ). drop k (front ++ (s ++ rest))) (sym at) ∙ drop-prefix front (s ++ rest) in
    let within : ltb (length s) page_size ≡ true = ground arith in
    let next : length s + 1 ≡ suc (length s) = omega arith in
    rw
      (
        field,
        len,
        take-prefix s rest,
        within,
        take-prefix s (drop (length s) buf),
        next,
        drop-over s buf,
      )
      refl

-- A text without zeros that ends in the 64 bytes of its field, by a zero, is shown whole: its length is
-- returned, and the page is the text, a zero, and what it was behind them.
pub mytb_show-text :
    (front s rest buf : Bytes)
    → length front ≡ string_offset
    → NonZero s
    → length s < 64
    → mytb_show (some (front ++ (s ++ 0 ∷ rest))) buf ≡ shown s buf
mytb_show-text front s rest buf at h lt =
    show-copied front s (0 ∷ rest) buf at (strnlen-text s rest 64 h lt) (omega arith)

-- A field of 64 bytes without a zero is shown as it is, and no byte behind it.
mytb_show-full :
    (front s rest buf : Bytes)
    → length front ≡ string_offset
    → NonZero s
    → length s ≡ 64
    → mytb_show (some (front ++ (s ++ rest))) buf ≡ shown s buf
mytb_show-full front s rest buf at h e =
    show-copied front s rest buf at (strnlen-full s rest 64 h e ∙ sym e) (omega arith)

abbrev no_entries : Sysfs
no_entries = record { kobj = false; file = false }

-- Loading the driver: the directory and its file are there together, where the table is found,
-- memory is given and the file is made, and 0 is returned exactly then; else neither is there.
-- Unloading removes both.
acpi_mytb_init-all_or_none :
    (found created : Bool) (retval : ℤ)
    → ((acpi_mytb_init found created retval no_entries).1 ≡ (
        if found && created && eqb_ℤ retval (pos 0)
        then record { kobj = true; file = true }
        else no_entries))
      × (eqb_ℤ (acpi_mytb_init found created retval no_entries).0 (pos 0)
          ≡ (found && created && eqb_ℤ retval (pos 0)))
      × (acpi_mytb_exit (acpi_mytb_init found created retval no_entries).1 ≡ no_entries)
unfolding acpi_mytb_init acpi_mytb_exit
acpi_mytb_init-all_or_none false created retval = (refl, refl, refl)
acpi_mytb_init-all_or_none true false retval = (refl, refl, refl)
acpi_mytb_init-all_or_none true true retval = elim (Bool-cases (eqb_ℤ retval (pos 0))) [
  | inl made ↦ rw made (refl, refl, refl)
  | inr failed ↦ rw failed (refl, failed, refl)
]
