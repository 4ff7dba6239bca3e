-- ===== src/Ramfs/Inodes.antt =====
-- The inodes, directories and mounts of fs/ramfs/inode.c.
use oshm.Prelude.{
  ℕ, ◌+◌, ◌-◌, ◌*◌, ◌/◌, ◌%◌, ◌≤◌, ◌<◌, ◌≡◌, ◌≢◌, refl, ap, sym, Bool, true, false, not, ◌&&◌, ◌||◌,
  Option, none, some, List, [], ◌∷◌, ◌++◌, arith, ◌==◌, if◌then◌else◌, Bool-cases, inl, inr, update,
  update_self, update_ne, length, ltb_ℤ, ℤ, pos, negsuc, neg, eqb_ℤ, eqb_ℤ_iff, enomem, enospc,
  enoparam,
}
use mathlib.Core.Option
use Prim.Native.Nat.{bit_or}
use oshm.Ramfs.Bytes.{Bytes}
pub mod Laws

-- The four classes of `mode & S_IFMT` that the code tells apart, and what each sets.
pub data Kind : Type 0 where
  special : Kind
  regular : Kind
  directory : Kind
  symlink : Kind

abbrev pub s_ifmt : ℕ → ℕ
s_ifmt mode = mode / 4096 % 16

abbrev pub kind_of : ℕ → Kind
kind_of mode =
    if s_ifmt mode == 8
    then regular
    else if s_ifmt mode == 4
    then directory
    else if s_ifmt mode == 10
    then symlink
    else special

-- `mode | S_IFDIR` and the like.
abbrev pub with_type : ℕ → ℕ → ℕ
with_type type mode = mode % 4096 + bit_or (mode / 4096) type * 4096

pub record Inode : Type 0 where
  pub mode : ℕ
  pub ops : Kind
  pub nlink : ℕ
  pub rdev : ℕ
  pub mtime : ℕ
  pub ctime : ℕ

-- The inodes by number; which inode each dentry has and how often the dentry is held; the next inode number and the clock.
pub record Fs : Type 0 where
  pub inode : ℕ → Option Inode
  pub dentry : ℕ → Option ℕ
  pub d_count : ℕ → ℕ
  pub next_ino : ℕ
  pub now : ℕ

abbrev pub links_of : Kind → ℕ
links_of directory = 2
links_of _ = 1

abbrev pub rdev_of : Kind → ℕ → ℕ
rdev_of special dev = dev
rdev_of _ dev = 0

-- `ramfs_get_inode`; `got` is `new_inode`, `owner` the mode that `inode_init_owner` gives.
unfoldable pub ramfs_get_inode : (got : Bool) (owner : ℕ → ℕ) (mode dev : ℕ) → Fs → Option ℕ × Fs
ramfs_get_inode got owner mode dev fs =
    let kind = kind_of mode in
    let made : Inode = record {
      mode = owner mode;
      ops = kind;
      nlink = links_of kind;
      rdev = rdev_of kind dev;
      mtime = fs.now;
      ctime = fs.now;
    } in
    if got
    then (
      some fs.next_ino,
      record fs { inode = update fs.inode fs.next_ino (some made); next_ino = fs.next_ino + 1 },
    )
    else (none, fs)

abbrev on_inode : (Inode → Inode) → ℕ → Fs → Fs
on_inode f i fs = record fs { inode = update fs.inode i (Option.map f (fs.inode i)) }

-- `dir->i_mtime = dir->i_ctime = current_time(dir)`
abbrev touch_dir : ℕ → Fs → Fs
touch_dir dir fs = on_inode (λ i. record i { mtime = fs.now; ctime = fs.now }) dir fs

abbrev pub inc_nlink : ℕ → Fs → Fs
inc_nlink dir fs = on_inode (λ i. record i { nlink = i.nlink + 1 }) dir fs

-- `d_instantiate` and `dget`.
abbrev attach : (d ino : ℕ) → Fs → Fs
attach d ino fs = record fs {
  dentry = update fs.dentry d (some ino);
  d_count = update fs.d_count d (fs.d_count d + 1);
}

abbrev instantiate : (dir d : ℕ) → Option ℕ × Fs → ℤ × Fs
instantiate dir d (none, fs) = (neg enospc, fs)
instantiate dir d (some ino, fs) = (pos 0, touch_dir dir (attach d ino fs))

module _ (got : Bool) (owner : ℕ → ℕ) where
  unfoldable pub ramfs_mknod : (dir d mode dev : ℕ) → Fs → ℤ × Fs
  unfolding ramfs_get_inode
  ramfs_mknod dir d mode dev fs = instantiate dir d (ramfs_get_inode got owner mode dev fs)

  unfoldable pub ramfs_mkdir : (dir d mode : ℕ) → Fs → ℤ × Fs
  unfolding ramfs_mknod
  ramfs_mkdir dir d mode fs =
      let (retval, fs') = ramfs_mknod dir d (with_type 4 mode) 0 fs in
      if eqb_ℤ retval (pos 0) then (retval, inc_nlink dir fs') else (retval, fs')

  unfoldable pub ramfs_create : (dir d mode : ℕ) → Fs → ℤ × Fs
  unfolding ramfs_mknod
  ramfs_create dir d mode fs = ramfs_mknod dir d (with_type 8 mode) 0 fs

  -- `page_symlink` gave `error`; on an error the new inode is put, and goes.
  abbrev link_page : (error : ℤ) (dir d : ℕ) → Option ℕ × Fs → ℤ × Fs
  link_page error dir d (none, fs) = (neg enospc, fs)
  link_page error dir d (some ino, fs) =
      if eqb_ℤ error (pos 0)
      then instantiate dir d (some ino, fs)
      else (error, record fs { inode = update fs.inode ino none })

  -- S_IFLNK|S_IRWXUGO
  unfoldable pub ramfs_symlink : (error : ℤ) (dir d : ℕ) → Fs → ℤ × Fs
  unfolding ramfs_get_inode
  ramfs_symlink error dir d fs =
      link_page error dir d (ramfs_get_inode got owner (with_type 10 0x1FF) 0 fs)

  -- `d_tmpfile` drops a link of the inode, and the dentry has it.
  abbrev d_tmpfile : ℕ → Option ℕ × Fs → ℤ × Fs
  d_tmpfile d (none, fs) = (neg enospc, fs)
  d_tmpfile d (some ino, fs) =
      let unlinked = on_inode (λ i. record i { nlink = i.nlink - 1 }) ino fs in
      (pos 0, record unlinked { dentry = update unlinked.dentry d (some ino) })

  unfoldable pub ramfs_tmpfile : (dir d mode : ℕ) → Fs → ℤ × Fs
  unfolding ramfs_get_inode
  ramfs_tmpfile dir d mode fs = d_tmpfile d (ramfs_get_inode got owner mode 0 fs)
