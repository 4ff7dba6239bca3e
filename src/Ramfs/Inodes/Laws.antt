-- ===== src/Ramfs/Inodes/Laws.antt =====
-- What the directory operations of fs/ramfs/inode.c make and what they leave alone.
use oshm.Prelude.{
  ℕ, ◌+◌, ◌*◌, ◌/◌, ◌≤◌, ◌<◌, ◌≡◌, ◌≢◌, refl, sym, ◌∙◌, Bool, true, false, none, some, arith,
  if◌then◌else◌, Bool-cases, inl, inr, ℤ, pos, neg, eqb_ℤ, eqb_ℤ_iff, enospc,
}
use mathlib.Core.Path.{subst}
use Prim.Native.Nat.{bit_or}
use mathlib.Core.Option
use oshm.Ramfs.Inodes.{
  Kind, regular, directory, symlink, kind_of, s_ifmt, with_type, Inode, Fs, links_of, rdev_of,
  inc_nlink, ramfs_mknod, ramfs_mkdir, ramfs_create, ramfs_symlink, ramfs_tmpfile,
}

-- No inode has a number that is still to be given out.
abbrev pub IsFresh : Fs → Type 0
IsFresh fs = (i : ℕ) → fs.next_ino ≤ i → fs.inode i ≡ none

-- `fs'` has the new inode `made` in the dentry `d`, which is held once more, and the inode `above` for the
-- directory `dir`, and all else is as in `fs`.
pub record Made (made above : Inode) (dir d : ℕ) (fs fs' : Fs) : Type 0 where
  pub at : fs'.inode fs.next_ino ≡ some made
  pub entry : fs'.dentry d ≡ some fs.next_ino
  pub pinned : fs'.d_count d ≡ fs.d_count d + 1
  pub dir_at : fs'.inode dir ≡ some above
  pub others : (i : ℕ) → i ≢ dir → i ≢ fs.next_ino → fs'.inode i ≡ fs.inode i
  pub entries : (e : ℕ) → e ≢ d → (fs'.dentry e ≡ fs.dentry e) × (fs'.d_count e ≡ fs.d_count e)
  pub numbers : fs'.next_ino ≡ fs.next_ino + 1
  pub clock : fs'.now ≡ fs.now
  pub fresh : IsFresh fs'

-- With an inode to be had, it is made and 0 is returned; else nothing changes, and -ENOSPC is returned.
abbrev pub Makes : Bool → (made above : Inode) → (dir d : ℕ) → Fs → ℤ × Fs → Type 0
Makes true made above dir d fs (r, fs') = (r ≡ pos 0) × Made made above dir d fs fs'
Makes false made above dir d fs (r, fs') = (r ≡ neg enospc) × (fs' ≡ fs)

-- A new inode at the time `now`.
abbrev pub new_inode : (mode : ℕ) (kind : Kind) (nlink rdev now : ℕ) → Inode
new_inode mode kind nlink rdev now = record {
  mode = mode;
  ops = kind;
  nlink = nlink;
  rdev = rdev;
  mtime = now;
  ctime = now;
}

-- A directory whose entries changed at the time `now`.
abbrev pub changed : (nlink now : ℕ) → Inode → Inode
changed nlink now parent = record parent { nlink = nlink; mtime = now; ctime = now }

typed_mode :
    (type mode : ℕ) → mode < 4096 → bit_or 0 type ≡ type → with_type type mode ≡ mode + type * 4096
typed_mode type mode lt same =
    let none_set : mode / 4096 ≡ 0 = omega arith in rw (none_set, same) (omega arith)

kind_of-with_type :
    (type mode : ℕ)
    → mode < 4096
    → type < 16
    → bit_or 0 type ≡ type
    → s_ifmt (with_type type mode) ≡ type
kind_of-with_type type mode lt small same =
    let none_set : mode / 4096 ≡ 0 = omega arith in rw (none_set, same) (omega arith)

some-ne_none : (i : Inode) → some i ≢ none
some-ne_none i = λ e. cc

module _ (owner : ℕ → ℕ) (dir d : ℕ) (parent : Inode) (fs : Fs) (new : IsFresh fs)
    (at : fs.inode dir ≡ some parent) where
  dir-ne_next : dir ≢ fs.next_ino
  dir-ne_next e = some-ne_none parent (sym at ∙ new dir (omega arith))

  ramfs_mknod-Made :
      (mode dev : ℕ)
      → ((ramfs_mknod true owner dir d mode dev fs).0 ≡ pos 0)
        × Made
            (new_inode
              (owner mode)
              (kind_of mode)
              (links_of (kind_of mode))
              (rdev_of (kind_of mode) dev)
              fs.now)
            (changed parent.nlink fs.now parent)
            dir
            d
            fs
            (ramfs_mknod true owner dir d mode dev fs).1
  unfolding ramfs_mknod
  ramfs_mknod-Made mode dev =
      let ne = dir-ne_next in
      (
        refl,
        record {
          at = ground arith;
          entry = ground arith;
          pinned = ground arith;
          dir_at = ground arith;
          others = λ i a b. ground arith;
          entries = λ e a. ground arith;
          numbers = refl;
          clock = refl;
          fresh = λ i le. ground (arith, new i);
        },
      )

  -- `mknod` in a directory, where no inode has a number to come: with an inode to be had, the new
  -- inode has the operations and the links of the mode's type, the dentry has it and is held once
  -- more, the directory has the time of the call, all other inodes and dentries are as before, and
  -- again no inode has a number to come. Without one, -ENOSPC, and nothing changes.
  pub ramfs_mknod-Makes :
      (got : Bool) (mode dev : ℕ)
      → Makes got
          (new_inode
            (owner mode)
            (kind_of mode)
            (links_of (kind_of mode))
            (rdev_of (kind_of mode) dev)
            fs.now)
          (changed parent.nlink fs.now parent)
          dir
          d
          fs
          (ramfs_mknod got owner dir d mode dev fs)
  unfolding ramfs_mknod
  ramfs_mknod-Makes true mode dev = ramfs_mknod-Made mode dev
  ramfs_mknod-Makes false mode dev = (refl, refl)

  inc_nlink-Made :
      (made : Inode) (links : ℕ) (fs' : Fs)
      → Made made (changed links fs.now parent) dir d fs fs'
      → Made made (changed (links + 1) fs.now parent) dir d fs (inc_nlink dir fs')
  inc_nlink-Made made links fs' m =
      let ne = dir-ne_next in
      record {
        at = ground (arith, m.at);
        entry = m.entry;
        pinned = m.pinned;
        dir_at = ground (arith, m.dir_at);
        others = λ i a b. ground (arith, m.others i);
        entries = m.entries;
        numbers = m.numbers;
        clock = m.clock;
        fresh = λ i le. ground (arith, m.fresh i, m.dir_at);
      }

  -- What `mknod` makes of a mode of permission bits with a type.
  typed_inode :
      (type mode : ℕ) (kind : Kind)
      → mode < 4096
      → bit_or 0 type ≡ type
      → kind_of (with_type type mode) ≡ kind
      → new_inode
          (owner (with_type type mode))
          (kind_of (with_type type mode))
          (links_of (kind_of (with_type type mode)))
          (rdev_of (kind_of (with_type type mode)) 0)
          fs.now
        ≡ new_inode (owner (mode + type * 4096)) kind (links_of kind) (rdev_of kind 0) fs.now
  typed_inode type mode kind lt same e = rw (e, typed_mode type mode lt same) refl

  -- `mkdir` with a mode of permission bits, in a directory, where no inode has a number to come. With
  -- an inode to be had: 0; the new inode has the owner's mode for these bits with a directory's type, a
  -- directory's operations, two links, no device and the time of the call; the dentry has it and is held
  -- once more; the parent has one link more and the time of the call, and is else the same; all other
  -- inodes, dentries and their counts and the clock are as before; one number is used up; and again no
  -- inode has a number to come. Without one: -ENOSPC, and nothing changes.
  pub ramfs_mkdir-Makes :
      (got : Bool) (mode : ℕ)
      → mode < 4096
      → Makes got
          (new_inode (owner (mode + 0x4000)) directory 2 0 fs.now)
          (changed (parent.nlink + 1) fs.now parent)
          dir
          d
          fs
          (ramfs_mkdir got owner dir d mode fs)
  unfolding ramfs_mkdir
  ramfs_mkdir-Makes false mode lt = (refl, refl)
  ramfs_mkdir-Makes true mode lt =
      let is_dir : kind_of (with_type 4 mode) ≡ directory =
        rw (kind_of-with_type 4 mode lt (omega arith) refl) refl in
      let (_, m) = ramfs_mknod-Made (with_type 4 mode) 0 in
      (
        refl,
        subst
            (λ (made : Inode).
              Made made (changed (parent.nlink + 1) fs.now parent) dir d fs
                (ramfs_mkdir true owner dir d mode fs).1)
            (typed_inode 4 mode directory lt refl is_dir)
            (inc_nlink-Made _ parent.nlink (ramfs_mknod true owner dir d (with_type 4 mode) 0 fs).1
              m),
      )

  -- `create` with a mode that has no type: as `mknod` of a regular file.
  pub ramfs_create-Makes :
      (got : Bool) (mode : ℕ)
      → mode < 4096
      → Makes got
          (new_inode (owner (mode + 0x8000)) regular 1 0 fs.now)
          (changed parent.nlink fs.now parent)
          dir
          d
          fs
          (ramfs_create got owner dir d mode fs)
  unfolding ramfs_create
  ramfs_create-Makes got mode lt =
      let is_file : kind_of (with_type 8 mode) ≡ regular =
        rw (kind_of-with_type 8 mode lt (omega arith) refl) refl in
      subst
        (λ (made : Inode).
          Makes got made (changed parent.nlink fs.now parent) dir d fs
            (ramfs_create got owner dir d mode fs))
        (typed_inode 8 mode regular lt refl is_file) (ramfs_mknod-Makes got (with_type 8 mode) 0)

  -- `symlink` whose page is written: as `mknod` of a link.
  pub ramfs_symlink-Makes :
      (got : Bool)
      → Makes got
          (new_inode (owner (0x1FF + 0xA000)) symlink 1 0 fs.now)
          (changed parent.nlink fs.now parent)
          dir
          d
          fs
          (ramfs_symlink got owner (pos 0) dir d fs)
  unfolding ramfs_symlink ramfs_mknod
  ramfs_symlink-Makes false = (refl, refl)
  ramfs_symlink-Makes true = ramfs_mknod-Makes true (with_type 10 0x1FF) 0

  -- `symlink` with any error of the page: with an inode to be had that error is returned, without one
  -- -ENOSPC, and every inode and every dentry is as before.
  pub ramfs_symlink-undone :
      (got : Bool) (error : ℤ)
      → error ≢ pos 0
      → ((ramfs_symlink got owner error dir d fs).0 ≡ (if got then error else neg enospc))
        × ((i : ℕ) → (ramfs_symlink got owner error dir d fs).1.inode i ≡ fs.inode i)
        × ((e : ℕ) → (ramfs_symlink got owner error dir d fs).1.dentry e ≡ fs.dentry e)
  unfolding ramfs_symlink
  ramfs_symlink-undone false error ne = (refl, (λ i. refl), λ e. refl)
  ramfs_symlink-undone true error ne = elim (Bool-cases (eqb_ℤ error (pos 0))) [
    | inl written ↦ absurd (ne ((eqb_ℤ_iff error (pos 0)).0 written))
    | inr failed ↦ rw failed (refl, (λ i. ground (arith, new i)), λ e. refl)
  ]

  -- `tmpfile` of a regular file: with an inode to be had, 0, the dentry has the new inode, which has no
  -- link, and the directory is left alone; without one, -ENOSPC and nothing changes.
  pub ramfs_tmpfile-unlinked :
      (mode : ℕ)
      → kind_of mode ≡ regular
      → ((ramfs_tmpfile true owner dir d mode fs).0 ≡ pos 0)
        × ((ramfs_tmpfile true owner dir d mode fs).1.dentry d ≡ some fs.next_ino)
        × (Option.map
              (λ (i : Inode). i.nlink)
              ((ramfs_tmpfile true owner dir d mode fs).1.inode fs.next_ino)
            ≡ some 0)
        × ((ramfs_tmpfile true owner dir d mode fs).1.inode dir ≡ some parent)
        × (ramfs_tmpfile false owner dir d mode fs ≡ (neg enospc, fs))
  unfolding ramfs_tmpfile
  ramfs_tmpfile-unlinked mode is_file =
      let ne = dir-ne_next in rw is_file (refl, ground arith, ground arith, ground arith, refl)
