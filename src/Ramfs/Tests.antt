-- ===== src/Ramfs/Tests.antt =====
-- fs/ramfs on a concrete disk.
use Prim.Native.Char.{code}
use Prim.Native.String.{String}
use mathlib.Core.Path.{subst}
use oshm.Prelude.{
  ℕ, ◌+◌, ◌≤◌, ◌≡◌, ◌≢◌, refl, Bool, true, false, ◌&&◌, Bool-cases, Option, none, some, [], ◌∷◌,
  ◌++◌, arith, if◌then◌else◌, inl, inr, ℤ, pos, ltb, length,
}
use oshm.Ramfs.Bytes.{Bytes, space, is_newline, base_name, digits, All}
use oshm.Ramfs.Parse.{parse_bind, parse_bind-print, is_path_byte, is_space, is_text}
use oshm.Ramfs.Bind.{Mounts, BindAnswers, ramfs_bind, CanBind, FailsWith, ramfs_bind-leaks}
use oshm.Ramfs.Vfs.{FilePath}
use oshm.Ramfs.Disk.{same, disk, disk-Laws}
use oshm.Ramfs.Copy.{copy_file_content, Copied, copy_file_content-copies}
use oshm.Ramfs.Flush.{FlushAnswers, snprintf, tmp_text, final_text, ramfs_file_flush}
use oshm.Ramfs.Flush.Outcome.{Flushed, ramfs_file_flush-all_or_nothing}
use oshm.Ramfs.Write.{ReopenAnswers, ramfs_fsync, ramfs_fsync-honest}
use oshm.Ramfs.Inodes.{directory, Inode, Fs, ramfs_mkdir}
use oshm.Ramfs.Inodes.Laws.{changed, new_inode, Makes, IsFresh, ramfs_mkdir-Makes}
use oshm.Ramfs.Mount.{FsInfo}

abbrev codes : String → Bytes
codes String.[] = []
codes (String.◌∷◌ c s) = code c ∷ codes s

all : (ℕ → Bool) → Bytes → Bool
all p [] = true
all p (c ∷ cs) = p c && all p cs

all-All : (p : ℕ → Bool) (s : Bytes) → all p s ≡ true → All p s
unfolding all
all-All p [] h = tt
all-All p (c ∷ cs) h = elim (Bool-cases (p c)) [
  | inl yes_c ↦ (yes_c, all-All p cs (subst (λ (t : Bool). t && all p cs ≡ true) yes_c h))
  | inr no_c ↦ cc (subst (λ (t : Bool). t && all p cs ≡ true) no_c h)
]

parse_bind-print_example :
    parse_bind (codes "/mnt/r" ++ space ∷ ((space ∷ []) ++ (codes "/data" ++ 10 ∷ [])))
    ≡ some (codes "/mnt/r", codes "/data")
unfolding all
parse_bind-print_example =
    parse_bind-print (codes "/mnt/r") (space ∷ []) (codes "/data") (10 ∷ [])
      (all-All is_path_byte (codes "/mnt/r") refl) (all-All is_space (space ∷ []) refl)
      (all-All is_text (codes "/data") refl) refl refl (all-All is_newline (10 ∷ []) refl)

abbrev answers : BindAnswers
answers = record {
  first_sync = pos 0;
  ramfs_error = pos 0;
  ramfs = record { super_block = 3; is_ramfs = true; is_dir = true };
  sync_error = pos 0;
  sync = record { super_block = 1; is_ramfs = false; is_dir = true };
  alloc = true;
}

abbrev mounts : Mounts
mounts = record { has_info = λ sb. true; sync_dir = λ sb. none; path_refs = 0 }

can_bind : CanBind answers mounts
can_bind = record {
  seen = refl;
  mounted = refl;
  ramfs = refl;
  found = refl;
  directory = refl;
  info = refl;
  memory = refl;
}

ramfs_bind-leaks_example : FailsWith answers mounts (ramfs_bind answers (codes "/data") mounts)
ramfs_bind-leaks_example = ramfs_bind-leaks answers (codes "/data") mounts

-- A file of a ramfs, and the directory that it is bound to.
abbrev file : Bytes
file = codes "/mnt/r/f"

abbrev dir : Bytes
dir = codes "/d"

abbrev content : Bytes
content = 1 ∷ 2 ∷ 3 ∷ []

abbrev one_file : FilePath → Option Bytes
one_file p = if same p file then some content else none

abbrev flush_answers : FlushAnswers
flush_answers = record {
  got_path = true;
  d_path = inr file;
  got_names = true;
  seconds = 0x65;
  nanos = 0xAB;
  pid = 42;
  got_copy_paths = true;
  got_copy_buf = true;
  got_dir_name = true;
  got_filenames = true;
}

flush_names :
    (snprintf (tmp_text flush_answers dir (base_name file)) ≡ codes "/d/.f.65.ab.42.tmp")
    × (snprintf (final_text dir (base_name file)) ≡ codes "/d/f")
unfolding ramfs_file_flush base_name digits
flush_names = (refl, refl)

abbrev empty_tmp : FilePath → Option Bytes
empty_tmp p = if same p (codes "/d/t") then some [] else one_file p

copy_file_content-copies_example :
    Copied disk file
      (codes "/d/t")
      content
      empty_tmp
      (copy_file_content disk file (codes "/d/t") 4 true true empty_tmp)
unfolding same
copy_file_content-copies_example =
    copy_file_content-copies disk disk-Laws file (codes "/d/t") content (λ e. cc) 4 true true
      empty_tmp refl refl (omega arith)

-- The run of a flush: it returns 0, and the file is there.
result_of : Option (ℤ × (FilePath → Option Bytes)) → Option (ℤ × Option Bytes × Option Bytes)
result_of none = none
result_of (some (r, s)) = some (r, s (codes "/d/f"), s (codes "/d/.f.65.ab.42.tmp"))

flush_runs :
    result_of (ramfs_file_flush disk flush_answers 4 (some file) (some dir) one_file)
    ≡ some (pos 0, some content, none)
unfolding result_of ramfs_file_flush copy_file_content base_name digits same
flush_runs = refl

tmp_fits : length (tmp_text flush_answers dir (base_name file)) ≤ 4095
unfolding ramfs_file_flush base_name digits
tmp_fits = omega arith

apart : file ≢ snprintf (tmp_text flush_answers dir (base_name file))
unfolding ramfs_file_flush base_name digits
apart e = cc

there : one_file file ≡ some content
unfolding same
there = refl

ramfs_file_flush-all_or_nothing_example :
    Flushed disk
      (snprintf (tmp_text flush_answers dir (base_name file)))
      (snprintf (final_text dir (base_name file)))
      content
      one_file
      (ramfs_file_flush disk flush_answers 4 (some file) (some dir) one_file)
ramfs_file_flush-all_or_nothing_example =
    ramfs_file_flush-all_or_nothing disk disk-Laws flush_answers 4 file dir file content one_file
      refl tmp_fits apart there (omega arith)

abbrev reopen : ReopenAnswers
reopen = record { got_path = true; d_path = inr file; read_file = pos 0 }

abbrev bound : FilePath → Option Bytes
bound p = some dir

ramfs_fsync-honest_example :
    Flushed disk
      (snprintf (tmp_text flush_answers dir (base_name file)))
      (snprintf (final_text dir (base_name file)))
      content
      one_file
      (ramfs_fsync disk flush_answers bound 4 reopen file false one_file)
ramfs_fsync-honest_example =
    ramfs_fsync-honest disk disk-Laws flush_answers bound 4 reopen file dir file content refl refl
      refl tmp_fits apart (omega arith) false one_file there

-- A write of three bytes that makes the file.
abbrev write_three : (FilePath → Option Bytes) → ℤ × (FilePath → Option Bytes)
write_three s = (pos 3, one_file)

abbrev opens : Bytes → ℤ
opens name = pos 0

-- A flush that succeeds, on a world that counts the flushes.
abbrev counted : Bytes → ℕ → Option (ℤ × ℕ)
counted name n = some (pos 0, n + 1)

abbrev root : Inode
root = record { mode = 0x41ED; ops = directory; nlink = 2; rdev = 0; mtime = 0; ctime = 0 }

abbrev fresh_fs : Fs
fresh_fs = record {
  inode = λ i. if ltb i 2 then some root else none;
  dentry = λ d. none;
  d_count = λ d. 0;
  next_ino = 2;
  now = 9;
}

fresh_fs-IsFresh : IsFresh fresh_fs
fresh_fs-IsFresh i le = ground arith

ramfs_mkdir-Makes_example :
    Makes true
      (new_inode (493 + 0x4000) directory 2 0 9)
      (changed (2 + 1) 9 root)
      1
      5
      fresh_fs
      (ramfs_mkdir true (λ m. m) 1 5 493 fresh_fs)
ramfs_mkdir-Makes_example =
    ramfs_mkdir-Makes (λ m. m) 1 5 root fresh_fs fresh_fs-IsFresh refl true 493 (omega arith)

abbrev default_info : FsInfo
default_info = record { mode = 493; sync_dir = none }
