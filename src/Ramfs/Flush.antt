-- ===== src/Ramfs/Flush.antt =====
-- `ramfs_file_flush` (fs/ramfs/inode.c): a file of a bound ramfs is copied beside its place in the
-- directory on disk, and the copy is renamed to that place.
use oshm.Prelude.{
  ℕ, ◌+◌, ◌-◌, ◌≤◌, ◌<◌, ◌≡◌, ◌≢◌, refl, ap, sym, ◌∙◌, Bool, true, false, not, ◌&&◌, ◌||◌, Option,
  none, some, List, [], ◌∷◌, ◌++◌, arith, if◌then◌else◌, Bool-cases, Option-cases, inl, inr, ◌⊎◌,
  length, take, length-append, ltb_ℤ, ℤ, pos, negsuc, neg, eqb_ℤ, eqb_ℤ_iff, enomem, einval,
}
use oshm.Ramfs.Bytes.{Bytes, slash, base_name, dir_name, digits}
use oshm.Ramfs.Vfs.{FilePath, Vfs, Laws, opened}
use oshm.Ramfs.Copy.{Loop, copy_file_content, Copied, copy_file_content-copies}
mod Names
pub mod Outcome

-- The answers from outside, in the order of their use: memory for the path, `d_path` (an error
-- below 0, or the path), memory for the two names, the clock and the process, what
-- `copy_file_content` is given, memory for the directory's name, and whether both `getname_kernel`
-- succeed.
pub record FlushAnswers : Type 0 where
  pub got_path : Bool
  pub d_path : ℕ ⊎ Bytes
  pub got_names : Bool
  pub seconds : ℕ
  pub nanos : ℕ
  pub pid : ℕ
  pub got_copy_paths : Bool
  pub got_copy_buf : Bool
  pub got_dir_name : Bool
  pub got_filenames : Bool

-- `snprintf(buf, PATH_MAX, …)`, with a PATH_MAX of 4096, keeps what fits before the closing zero.
abbrev pub snprintf : Bytes → Bytes
snprintf text = take 4095 text

abbrev pub stamp : FlushAnswers → Bytes
stamp a =
    b'.'
    ∷ (digits 16 64 a.seconds
        ++ (b'.'
            ∷ (digits 16 64 a.nanos
                ++ (b'.' ∷ (digits 10 64 a.pid ++ (b'.' ∷ b't' ∷ b'm' ∷ b'p' ∷ []))))))

-- "%s/.%s.%lx.%lx.%d.tmp"
abbrev pub tmp_text : FlushAnswers → Bytes → Bytes → Bytes
tmp_text a dir name = dir ++ slash ∷ b'.' ∷ (name ++ stamp a)

-- "%s/%s"
abbrev pub final_text : Bytes → Bytes → Bytes
final_text dir name = dir ++ slash ∷ name

module _ (v : Vfs) (a : FlushAnswers) where
  abbrev pub rename_over : FilePath → FilePath → v.State → ℤ × v.State
  rename_over tmp_path final_path s =
      if a.got_filenames then v.rename tmp_path final_path s else (neg enomem, s)

  -- From the creation of the target on, whose own failure is only logged.
  unfoldable pub touch_and_rename : FilePath → FilePath → v.State → ℤ × v.State
  touch_and_rename tmp_path final_path s =
      let s' = (v.open_create final_path false s).1 in
      let new_dentry = v.lookup_one (dir_name final_path) (base_name final_path) s' in
      if ltb_ℤ new_dentry (pos 0) then (new_dentry, s') else rename_over tmp_path final_path s'

  -- From the first `kern_path` on.
  unfoldable pub put_in_place : FilePath → FilePath → v.State → ℤ × v.State
  unfolding touch_and_rename
  put_in_place tmp_path final_path s =
      let error = v.kern_path tmp_path s in
      if not (eqb_ℤ error (pos 0))
      then (error, s)
      else if not a.got_dir_name
      then (neg enomem, s)
      else let error' = v.kern_path (dir_name final_path) s in
        if not (eqb_ℤ error' (pos 0)) then (error', s) else touch_and_rename tmp_path final_path s

  -- The check of `copy_file_content`'s result.
  abbrev pub after_copy : FilePath → FilePath → Loop v → Loop v
  after_copy tmp_path final_path none = none
  after_copy tmp_path final_path (some (ret, s)) =
      if eqb_ℤ ret (pos 0) then some (put_in_place tmp_path final_path s) else some (ret, s)

  -- From the opening of the temporary file on.
  unfoldable pub copy_and_install : (fuel : ℕ) → FilePath → FilePath → FilePath → v.State → Loop v
  unfolding put_in_place
  copy_and_install fuel file tmp_path final_path s =
      let (dest_file, s') = v.open_create tmp_path true s in
      if ltb_ℤ dest_file (pos 0)
      then some (dest_file, s')
      else after_copy tmp_path final_path
          (copy_file_content v file tmp_path fuel a.got_copy_paths a.got_copy_buf s')

  abbrev flush_named : (fuel : ℕ) → FilePath → Bytes → ℕ ⊎ Bytes → v.State → Loop v
  flush_named fuel file sync_dir (inl e) s = some (negsuc e, s)
  flush_named fuel file sync_dir (inr dest_path) s =
      let filename = base_name dest_path in
      if not a.got_names
      then some (neg enomem, s)
      else copy_and_install fuel file (snprintf (tmp_text a sync_dir filename))
          (snprintf (final_text sync_dir filename)) s

  -- `file` is what the file is called in `Vfs`; `bound` is the directory of its super block, `none`
  -- where that has no information or no directory.
  unfoldable pub ramfs_file_flush : (fuel : ℕ) → Option FilePath → Option Bytes → v.State → Loop v
  unfolding copy_and_install
  ramfs_file_flush fuel none bound s = some (neg einval, s)
  ramfs_file_flush fuel (some file) none s = some (neg einval, s)
  ramfs_file_flush fuel (some file) (some sync_dir) s =
      if not a.got_path then some (neg enomem, s) else flush_named fuel file sync_dir a.d_path s
