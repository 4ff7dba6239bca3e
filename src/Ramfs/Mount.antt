-- ===== src/Ramfs/Mount.antt =====
-- The mount options, the super block and the set-up of fs/ramfs/inode.c.
use oshm.Prelude.{
  update, ℕ, ◌+◌, ◌-◌, ◌*◌, ◌/◌, ◌%◌, ◌<◌, ◌≡◌, refl, Bool, true, false, not, ◌&&◌, Option, none,
  some, [], ◌∷◌, ◌++◌, arith, ◌==◌, ltb, if◌then◌else◌, Bool-cases, inl, inr, ◌⊎◌, suc, ltb_ℤ, ℤ,
  pos, neg, eqb_ℤ, enomem, enoparam,
}
use oshm.Ramfs.Bytes.{Bytes, digits, digit}
use oshm.Ramfs.Inodes.{Fs, with_type, ramfs_get_inode}

-- `struct ramfs_fs_info`
pub record FsInfo : Type 0 where
  pub mode : ℕ
  pub sync_dir : Option Bytes

-- 0755
abbrev default_mode : ℕ
default_mode = 493

-- `ramfs_init_fs_context`: `got` is `kzalloc`.
unfoldable pub ramfs_init_fs_context : (got : Bool) → ℤ × Option FsInfo
ramfs_init_fs_context got =
    if got
    then (pos 0, some (record { mode = default_mode; sync_dir = none }))
    else (neg enomem, none)

-- `ramfs_parse_param`: `fs_parse` gives an option's number, of which there is only 0, or an error, and
-- the value; S_IALLUGO is the twelve low bits.
unfoldable pub ramfs_parse_param : (opt : ℤ) (uint_32 : ℕ) → FsInfo → ℤ × FsInfo
ramfs_parse_param opt uint_32 fsi =
    if ltb_ℤ opt (pos 0)
    then (if eqb_ℤ opt (neg enoparam) then pos 0 else opt, fsi)
    else if eqb_ℤ opt (pos 0)
    then (pos 0, record fsi { mode = uint_32 % 4096 })
    else (pos 0, fsi)

-- ",mode="
abbrev pub mode_text : Bytes
mode_text = b',' ∷ b'm' ∷ b'o' ∷ b'd' ∷ b'e' ∷ b'=' ∷ []

-- `ramfs_show_options`
unfoldable pub ramfs_show_options : FsInfo → Bytes
unfolding digits
ramfs_show_options fsi =
    if not (fsi.mode == default_mode) then mode_text ++ digits 8 64 fsi.mode else []

-- `d_make_root` on what `ramfs_get_inode` gave; it may fail by itself, and then puts the inode.
abbrev make_root : (got_root : Bool) → FsInfo → Option ℕ × Fs → ℤ × FsInfo × Fs
make_root got_root fsi (none, fs) = (neg enomem, fsi, fs)
make_root got_root fsi (some ino, fs) =
    if got_root
    then (pos 0, fsi, fs)
    else (neg enomem, fsi, record fs { inode = update fs.inode ino none })

-- `ramfs_fill_super`
unfoldable pub ramfs_fill_super :
    (got got_root : Bool) (owner : ℕ → ℕ) → FsInfo → Fs → ℤ × FsInfo × Fs
unfolding ramfs_get_inode
ramfs_fill_super got got_root owner fsi fs =
    make_root got_root (record fsi { sync_dir = none })
      (ramfs_get_inode got owner (with_type 4 fsi.mode) 0 fs)

-- The three entries below /proc/fs/ramfs, by whether they are there.
pub record ProcFiles : Type 0 where
  pub root : Bool
  pub bind : Bool
  pub sync : Bool

abbrev no_files : ProcFiles
no_files = record { root = false; bind = false; sync = false }

-- `ramfs_proc_init`: which of the three calls succeed.
unfoldable pub ramfs_proc_init : (root bind sync : Bool) → ProcFiles → ℤ × ProcFiles
ramfs_proc_init root bind sync p =
    if not root
    then (neg enomem, p)
    else let p₁ = record p { root = true } in
      if not bind
      then (neg enomem, record p₁ { root = false })
      else let p₂ = record p₁ { bind = true } in
        if not sync
        then (neg enomem, record p₂ { bind = false; root = false })
        else (pos 0, record p₂ { sync = true })

-- `init_ramfs_fs`: `ret` is what `register_filesystem` gives.
unfoldable pub init_ramfs_fs : (ret : ℤ) (root bind sync : Bool) → ProcFiles → ℤ × ProcFiles
unfolding ramfs_proc_init
init_ramfs_fs ret root bind sync p =
    if eqb_ℤ ret (pos 0) then (ret, (ramfs_proc_init root bind sync p).1) else (ret, p)

-- Reading octal digits.
abbrev pub octal : ℕ → Bytes → ℕ
octal acc [] = acc
octal acc (c ∷ cs) = octal (acc * 8 + (c - b'0')) cs

octal-append :
    (acc : ℕ) (xs : Bytes) (c : ℕ) → octal acc (xs ++ c ∷ []) ≡ octal acc xs * 8 + (c - b'0')
octal-append acc [] c = refl
octal-append acc (x ∷ xs) c = octal-append (acc * 8 + (x - b'0')) xs c

digit-octal : (n : ℕ) → digit (n % 8) - b'0' ≡ n % 8
digit-octal n = ground arith

octal-last : (places n : ℕ) → n < 8 → octal 0 (digits 8 (suc places) n) ≡ n
unfolding digits
octal-last places n lt =
    let small : ltb n 8 ≡ true = ground arith in rw small (omega (arith, digit-octal n))

octal-more :
    (places n : ℕ)
    → octal 0 (digits 8 places (n / 8)) ≡ n / 8
    → octal 0 (digits 8 (suc places) n) ≡ n
unfolding digits
octal-more places n ih = elim (Bool-cases (ltb n 8)) [
  | inl small ↦ octal-last places n (ground arith)
  | inr large ↦
      rw large
        (omega (arith, octal-append 0 (digits 8 places (n / 8)) (digit (n % 8)), digit-octal n, ih))
]

octal_mode : (n : ℕ) → n < 4096 → octal 0 (digits 8 64 n) ≡ n
octal_mode n lt = octal-more 63 n (
    octal-more 62 (n / 8) (octal-more 61 (n / 8 / 8) (octal-last 60 (n / 8 / 8 / 8) (omega arith))))

-- The options that are shown for a mount, given to a new mount of the default mode: it has the mode of the first, that
-- of its mode option cut to the twelve permission bits, or 0755 where none is shown.
pub ramfs_show_options-parse :
    (fsi fresh : FsInfo) (uint_32 : ℕ)
    → fresh.mode ≡ default_mode
    → ((ramfs_show_options (ramfs_parse_param (pos 0) uint_32 fsi).1 ≡ [])
        × (uint_32 % 4096 ≡ fresh.mode))
      ⊎ ((text : Bytes) × (ramfs_show_options (ramfs_parse_param (pos 0) uint_32 fsi).1
            ≡ mode_text ++ text)
          × ((ramfs_parse_param (pos 0) (octal 0 text) fresh).1.mode ≡ uint_32 % 4096))
unfolding ramfs_show_options ramfs_parse_param
ramfs_show_options-parse fsi fresh uint_32 default =
    elim (Bool-cases (uint_32 % 4096 == default_mode)) [
      | inl same ↦ rw same (inl (refl, ground arith))
      | inr other ↦ rw other (
          inr (
            digits 8 64 (uint_32 % 4096),
            refl,
            omega (arith, octal_mode (uint_32 % 4096) (omega arith)),
          ))
    ]

-- Booting: the result is that of the registration. The three files are there together if the
-- registration and their three creations succeed, and none of them is there otherwise.
init_ramfs_fs-all_or_none :
    (ret : ℤ) (root bind sync : Bool)
    → ((init_ramfs_fs ret root bind sync no_files).0 ≡ ret)
      × ((init_ramfs_fs ret root bind sync no_files).1 ≡ (
          if eqb_ℤ ret (pos 0) && root && bind && sync
          then record { root = true; bind = true; sync = true }
          else no_files))
unfolding init_ramfs_fs
init_ramfs_fs-all_or_none ret root bind sync = elim (Bool-cases (eqb_ℤ ret (pos 0))) [
  | inr refused ↦ rw refused (refl, refl)
  | inl registered ↦ rw registered (refl, ground arith)
]
