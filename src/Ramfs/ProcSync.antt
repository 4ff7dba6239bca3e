-- ===== src/Ramfs/ProcSync.antt =====
-- `ramfs_proc_sync_write` (fs/ramfs/inode.c): a path written to /proc/fs/ramfs/sync names a file to
-- save.
use oshm.Prelude.{
  ℕ, ◌≡◌, refl, Bool, true, ◌||◌, not, Option, none, some, [], ◌∷◌, ◌++◌, ◌==◌, if◌then◌else◌,
  Bool-cases, inl, inr, length, ltb_ℤ, ℤ, pos, neg, eqb_ℤ, enomem, efault, einval,
}
use mathlib.Core.Path.{subst}
use oshm.Ramfs.Bytes.{Bytes, is_newline, c_string, strip_end, All, EndsPlain}
use oshm.Ramfs.Parse.{is_text, strip-newlines, strip-plain, c_string-text}

-- A line end, a space or a tab.
abbrev is_blank : ℕ → Bool
is_blank c = is_newline c || ((c == b' ') || (c == 9))

-- `has_content` after the loop over the buffer. It is not initialised: `start` is what it holds.
unfoldable pub has_content : (start : ℕ) → Bytes → ℕ
has_content start [] = start
has_content start (c ∷ cs) = if is_blank c then has_content start cs else 1

-- `filp_open` gives an error below 0, and `flush` is `ramfs_file_flush` on the file of the name;
-- `none` where that does not return.
module _ {ℓ} {S : Type ℓ} (filp_open : Bytes → ℤ) (flush : Bytes → S → Option (ℤ × S)) where
  abbrev sync_result : ℕ → Option (ℤ × S) → Option (ℤ × S)
  sync_result original_count none = none
  sync_result original_count (some (ret, s)) =
      some (if eqb_ℤ ret (pos 0) then pos original_count else ret, s)

  -- From the opening on. (`original_count` is an `int`; the kernel writes no more than fits one.)
  abbrev sync_named : ℕ → Bytes → S → Option (ℤ × S)
  sync_named original_count name s =
      if ltb_ℤ (filp_open name) (pos 0)
      then some (filp_open name, s)
      else sync_result original_count (flush name s)

  abbrev sync_stripped : ℕ → Bytes → S → Option (ℤ × S)
  sync_stripped original_count [] s = some (neg einval, s)
  sync_stripped original_count (c ∷ cs) s = sync_named original_count (c_string (c ∷ cs)) s

  unfoldable pub ramfs_proc_sync_write :
      (got_memory copied : Bool) (start : ℕ) → Bytes → S → Option (ℤ × S)
  unfolding has_content strip_end
  ramfs_proc_sync_write got_memory copied start buffer s =
      if not got_memory
      then some (neg enomem, s)
      else if not copied
      then some (neg efault, s)
      else if has_content start buffer == 0
      then some (pos (length buffer), s)
      else sync_stripped (length buffer) (strip_end is_newline buffer) s

  has_content-newlines :
      (start : ℕ) (end : Bytes) → All is_newline end → has_content start end ≡ start
  unfolding has_content
  has_content-newlines start [] h = refl
  has_content-newlines start (c ∷ cs) h = rw h.0 (has_content-newlines start cs h.1)

  -- A buffer of line ends alone, with memory and a good address: the file system is left alone, and
  -- what is returned, the length or -EINVAL, is decided by what the stack held before.
  pub ramfs_proc_sync_write-newlines :
      (start : ℕ) (end : Bytes) (s : S)
      → All is_newline end
      → ramfs_proc_sync_write true true start end s
        ≡ some (if start == 0 then pos (length end) else neg einval, s)
  unfolding ramfs_proc_sync_write
  ramfs_proc_sync_write-newlines start end s h =
      rw (has_content-newlines start end h, strip-newlines end h)
        (elim (Bool-cases (start == 0)) [ inl z ↦ rw z | inr nz ↦ rw nz ])

  has_content-name :
      (start : ℕ) (name end : Bytes) → has_content 0 name ≡ 1 → has_content start (name ++ end) ≡ 1
  unfolding has_content
  has_content-name start [] end h = cc
  has_content-name start (c ∷ cs) end h = elim (Bool-cases (is_blank c)) [
    | inl blank ↦ rw blank (
        has_content-name start cs end
          (subst (λ (t : Bool). (if t then has_content 0 cs else 1) ≡ 1) blank h))
    | inr plain ↦ rw plain
  ]

  -- A name that has a byte that is not blank, no zero, and no line end as its last byte, followed by
  -- any line ends, with memory and a good address: whatever the stack held, exactly the name is
  -- opened; an error of that is returned; else the file is flushed, and a 0 of the flush becomes the
  -- length of the whole buffer, any other number is passed on.
  pub ramfs_proc_sync_write-name :
      (start : ℕ) (name end : Bytes) (s : S)
      → has_content 0 name ≡ 1
      → All is_text name
      → EndsPlain name
      → All is_newline end
      → ramfs_proc_sync_write true true start (name ++ end) s ≡ (
          if ltb_ℤ (filp_open name) (pos 0)
          then some (filp_open name, s)
          else sync_result (length (name ++ end)) (flush name s))
  unfolding ramfs_proc_sync_write
  ramfs_proc_sync_write-name start [] end s h t p n = cc
  ramfs_proc_sync_write-name start (c ∷ cs) end s h t p n = rw (
    has_content-name start (c ∷ cs) end h,
    strip-plain (c ∷ cs) end n p,
    c_string-text (c ∷ cs) t,
  )
