-- ===== src/Ramfs/Write.antt =====
-- The operations of fs/ramfs/file-mmu.c that save a file: `ramfs_fsync` and `ramfs_file_write_iter`.
use oshm.Prelude.{
  ℕ, ◌≤◌, ◌<◌, ◌≡◌, ◌≢◌, refl, Bool, true, false, not, ◌&&◌, Option, none, some, is_some,
  if◌then◌else◌, Bool-cases, inl, inr, ◌⊎◌, length, ltb_ℤ, ℤ, pos, negsuc, neg, ne_zero_of_lt,
  enomem,
}
use oshm.Ramfs.Bytes.{Bytes, base_name}
use oshm.Ramfs.Vfs.{FilePath, Vfs, Laws}
use oshm.Ramfs.Copy.{Loop}
use oshm.Ramfs.Flush.{FlushAnswers, snprintf, tmp_text, final_text, ramfs_file_flush}
use oshm.Ramfs.Flush.Outcome.{Target, Flushed, ramfs_file_flush-all_or_nothing}

-- The second opening of a file that is open for writing only: memory for its path, `d_path`, and an
-- error of `filp_open` below 0.
pub record ReopenAnswers : Type 0 where
  pub got_path : Bool
  pub d_path : ℕ ⊎ Bytes
  pub read_file : ℤ

-- The result of the flush is logged only.
abbrev pub logged : (v : Vfs) → ℤ → Loop v → Loop v
logged v ret none = none
logged v ret (some (sync_ret, s)) = some (ret, s)

-- `bound` gives the directory that the file system of each file is bound to.
module _ (v : Vfs) (a : FlushAnswers) (bound : FilePath → Option Bytes) (fuel : ℕ) where
  abbrev flush_file : FilePath → v.State → Loop v
  flush_file file s = ramfs_file_flush v a fuel (some file) (bound file) s

  abbrev fsync_opened : ℤ → ℕ ⊎ Bytes → v.State → Loop v
  fsync_opened read_file (inl e) s = some (negsuc e, s)
  fsync_opened read_file (inr path_str) s =
      if ltb_ℤ read_file (pos 0) then some (read_file, s) else flush_file path_str s

  -- `readable` is FMODE_READ of the file.
  unfoldable pub ramfs_fsync : ReopenAnswers → FilePath → (readable : Bool) → v.State → Loop v
  ramfs_fsync b file readable s =
      if not readable
      then (if not b.got_path then some (neg enomem, s) else fsync_opened b.read_file b.d_path s)
      else flush_file file s

  abbrev write_opened : ℤ → ℤ → ℕ ⊎ Bytes → v.State → Loop v
  write_opened ret read_file (inl e) s = some (ret, s)
  write_opened ret read_file (inr path_str) s =
      if ltb_ℤ read_file (pos 0) then some (ret, s) else logged v ret (flush_file path_str s)

  -- After `generic_file_write_iter` returned `ret`.
  unfoldable pub sync_written : ReopenAnswers → FilePath → (readable : Bool) → ℤ × v.State → Loop v
  sync_written b file readable (ret, s) =
      if ltb_ℤ (pos 0) ret && is_some (bound file) && not readable
      then (if not b.got_path then some (ret, s) else write_opened ret b.read_file b.d_path s)
      else if ltb_ℤ (pos 0) ret && is_some (bound file)
      then logged v ret (flush_file file s)
      else some (ret, s)

  -- `write` is `generic_file_write_iter` on the file.
  unfoldable pub ramfs_file_write_iter :
      (v.State → ℤ × v.State) → ReopenAnswers → FilePath → (readable : Bool) → v.State → Loop v
  unfolding sync_written
  ramfs_file_write_iter write b file readable s = sync_written b file readable (write s)

-- What a write reports and leaves: `ret` is the result of the write itself.
abbrev pub Wrote : (v : Vfs) → ℤ → FilePath → FilePath → Bytes → v.State → Loop v → Type 0
Wrote v ret tmp final c s none = ⊥
Wrote v ret tmp final c s (some (r, s')) =
    (r ≡ ret)
    × Target (v.content s final) (v.content s' final) c
    × ((q : FilePath) → q ≢ tmp → q ≢ final → v.content s' q ≡ v.content s q)

logged-Wrote :
    (v : Vfs) (ret : ℤ) (tmp final : FilePath) (c : Bytes) (s : v.State) (o : Loop v)
    → Flushed v tmp final c s o
    → Wrote v ret tmp final c s (logged v ret o)
logged-Wrote v ret tmp final c s none h = h
logged-Wrote v ret tmp final c s (some (r, t)) (target, kept, done) = (refl, target, kept)

module _ (v : Vfs) (l : Laws v) (a : FlushAnswers) (bound : FilePath → Option Bytes) (fuel : ℕ)
    (b : ReopenAnswers) (file dir path c : Bytes) (is_path : a.d_path ≡ inr path)
    (same_path : b.d_path ≡ inr file) (is_bound : bound file ≡ some dir)
    (fits : length (tmp_text a dir (base_name path)) ≤ 4095)
    (other : file ≢ snprintf (tmp_text a dir (base_name path))) (lt : length c < fuel) where
  flush_file-Flushed :
      (s : v.State)
      → v.content s file ≡ some c
      → Flushed v
          (snprintf (tmp_text a dir (base_name path)))
          (snprintf (final_text dir (base_name path)))
          c
          s
          (flush_file v a bound fuel file s)
  flush_file-Flushed s at =
      rw is_bound
        (ramfs_file_flush-all_or_nothing v l a fuel file dir path c s is_path fits other at lt)

  -- `fsync` of a file with the content `c`, where the reopened path is the file's own and with the
  -- conditions of a flush (a bound directory, the temporary name not cut off and not the file, fuel
  -- above the length of `c`): it returns, and whether the file was open for reading or
  -- not, the target is as it was, or new and empty, or all of `c`, other files are as they were,
  -- and a 0 is only returned where the target holds all of `c`.
  pub ramfs_fsync-honest :
      (readable : Bool) (s : v.State)
      → v.content s file ≡ some c
      → Flushed v
          (snprintf (tmp_text a dir (base_name path)))
          (snprintf (final_text dir (base_name path)))
          c
          s
          (ramfs_fsync v a bound fuel b file readable s)
  unfolding ramfs_fsync
  ramfs_fsync-honest true s at = flush_file-Flushed s at
  ramfs_fsync-honest false s at = elim (Bool-cases b.got_path) [
    | inr full ↦ rw full (inl refl, (λ q n m. refl), λ z. cc)
    | inl memory ↦
        rw (memory, same_path)
          (elim (Bool-cases (ltb_ℤ b.read_file (pos 0))) [
            | inl refused ↦
                rw refused
                  (inl refl, (λ q n m. refl), λ z. absurd (ne_zero_of_lt b.read_file refused z))
            | inr opened ↦ rw opened (flush_file-Flushed s at)
          ])
  ]

  -- A write to such a file, after which its content is `c`: the call returns the result of the write
  -- itself whether the file could be saved or not, the target is as it was, or new and empty, or
  -- all of `c`, and no other file is changed by the saving.
  pub ramfs_file_write_iter-result :
      (write : v.State → ℤ × v.State) (readable : Bool) (s : v.State)
      → v.content (write s).1 file ≡ some c
      → Wrote v
          (write s).0
          (snprintf (tmp_text a dir (base_name path)))
          (snprintf (final_text dir (base_name path)))
          c
          (write s).1
          (ramfs_file_write_iter v a bound fuel write b file readable s)
  unfolding ramfs_file_write_iter
  ramfs_file_write_iter-result write readable s at = elim (Bool-cases (ltb_ℤ (pos 0) (write s).0)) [
    | inr nothing ↦ rw nothing unsaved
    | inl wrote ↦
        rw (wrote, is_bound)
          (elim (Bool-cases readable) [
            | inl reads ↦ rw reads saved
            | inr blind ↦ rw blind (elim (Bool-cases b.got_path) [
              | inr full ↦ rw full unsaved
              | inl memory ↦
                  rw (memory, same_path)
                    (elim (Bool-cases (ltb_ℤ b.read_file (pos 0))) [
                      | inl refused ↦ rw refused unsaved
                      | inr opened ↦ rw (opened, is_bound) saved
                    ])
            ])
          ])
  ]
    where
      unsaved :
          Wrote v
            (write s).0
            (snprintf (tmp_text a dir (base_name path)))
            (snprintf (final_text dir (base_name path)))
            c
            (write s).1
            (some (write s))
      unsaved = (refl, inl refl, λ q n m. refl)

      saved :
          Wrote v
            (write s).0
            (snprintf (tmp_text a dir (base_name path)))
            (snprintf (final_text dir (base_name path)))
            c
            (write s).1
            (logged v (write s).0 (ramfs_file_flush v a fuel (some file) (some dir) (write s).1))
      saved =
          logged-Wrote v (write s).0 (snprintf (tmp_text a dir (base_name path)))
            (snprintf (final_text dir (base_name path))) c (write s).1
            (ramfs_file_flush v a fuel (some file) (some dir) (write s).1)
            (ramfs_file_flush-all_or_nothing v l a fuel file dir path c (write s).1 is_path fits
              other at lt)
