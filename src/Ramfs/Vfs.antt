-- ===== src/Ramfs/Vfs.antt =====
-- The calls of fs/ramfs into the kernel's file layer, as an interface: the operations that the code
-- uses, and what it relies on of each.
use oshm.Prelude.{
  ℕ, ◌≤◌, ◌<◌, ◌≡◌, ◌≢◌, Bool, true, false, Option, none, some, [], ◌++◌, length, take, drop, ℤ,
  pos, leb_ℤ, ltb_ℤ,
}
use oshm.Ramfs.Bytes.{Bytes}

-- A name of a file, as a string.
abbrev pub FilePath : Type 0
FilePath = Bytes

-- `content` is what the disk and the memory file systems hold. A number below 0 is an error.
pub record Vfs : Type 1 where
  pub State : Type 0
  pub content : State → FilePath → Option Bytes
  pub kernel_read : FilePath → ℕ → ℕ → State → ℤ × Bytes
  pub kernel_write : FilePath → ℕ → Bytes → State → ℤ × State
  pub vfs_fsync : FilePath → State → ℤ
  pub open_create : FilePath → Bool → State → ℤ × State
  pub kern_path : FilePath → State → ℤ
  pub lookup_one : FilePath → FilePath → State → ℤ
  pub rename : FilePath → FilePath → State → ℤ × State

-- A file that is opened to be made: empty if it is cut or is new, and as it was otherwise.
abbrev pub opened : Bool → Option Bytes → Option Bytes
opened true old = some []
opened false none = some []
opened false (some c) = some c

-- Reads give a part of what the file holds from the position on, at most `n` bytes, and nothing only
-- at its end; they may be short, and may fail. A write reports no more than
-- its length, and one that reports all of it at the end of a file has appended it. No call changes any other file, and a call that fails changes none, but for a
-- write, which may leave anything in its own file.
pub record Laws (v : Vfs) : Type 0 where
  pub read_part :
      (p : FilePath) (i n k : ℕ) (s : v.State) (b c : Bytes)
      → v.content s p ≡ some c
      → v.kernel_read p i n s ≡ (pos k, b)
      → (b ≡ take k (drop i c)) × (length b ≡ k) × (k ≤ n)
  pub read_end :
      (p : FilePath) (i n : ℕ) (s : v.State) (b c : Bytes)
      → 0 < n
      → v.content s p ≡ some c
      → v.kernel_read p i n s ≡ (pos 0, b)
      → length c ≤ i
  pub write_bound :
      (p : FilePath) (i : ℕ) (b : Bytes) (s : v.State)
      → leb_ℤ (v.kernel_write p i b s).0 (pos (length b)) ≡ true
  pub write_append :
      (p : FilePath) (b c : Bytes) (s : v.State)
      → v.content s p ≡ some c
      → (v.kernel_write p (length c) b s).0 ≡ pos (length b)
      → v.content (v.kernel_write p (length c) b s).1 p ≡ some (c ++ b)
  pub write_frame :
      (p : FilePath) (i : ℕ) (b : Bytes) (s : v.State) (q : FilePath)
      → q ≢ p
      → v.content (v.kernel_write p i b s).1 q ≡ v.content s q
  pub open_made :
      (p : FilePath) (cut : Bool) (s : v.State)
      → ltb_ℤ (v.open_create p cut s).0 (pos 0) ≡ false
      → v.content (v.open_create p cut s).1 p ≡ opened cut (v.content s p)
  pub open_failed :
      (p : FilePath) (cut : Bool) (s : v.State) (q : FilePath)
      → ltb_ℤ (v.open_create p cut s).0 (pos 0) ≡ true
      → v.content (v.open_create p cut s).1 q ≡ v.content s q
  pub open_frame :
      (p : FilePath) (cut : Bool) (s : v.State) (q : FilePath)
      → q ≢ p
      → v.content (v.open_create p cut s).1 q ≡ v.content s q
  pub rename_moves :
      (p q : FilePath) (s : v.State)
      → (v.rename p q s).0 ≡ pos 0
      → v.content (v.rename p q s).1 q ≡ v.content s p
  pub rename_gone :
      (p q : FilePath) (s : v.State)
      → p ≢ q
      → (v.rename p q s).0 ≡ pos 0
      → v.content (v.rename p q s).1 p ≡ none
  pub rename_frame :
      (p q : FilePath) (s : v.State) (r : FilePath)
      → r ≢ p
      → r ≢ q
      → v.content (v.rename p q s).1 r ≡ v.content s r
  pub rename_failed :
      (p q : FilePath) (s : v.State) (r : FilePath)
      → (v.rename p q s).0 ≢ pos 0
      → v.content (v.rename p q s).1 r ≡ v.content s r
