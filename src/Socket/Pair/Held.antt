-- ===== src/Socket/Pair/Held.antt =====
-- What `__sys_socketpair` (net/socket.c) holds with both sockets made, and after their release.
use oshm.Prelude.{
  ℕ, zero, suc, Bool, ◌≤◌, ◌+◌, ◌≡◌, ◌≢◌, ◌∙◌, refl, ne_zero_of_lt, ne_zero_of_eqb, true, false,
  arith, ◌==◌, Bool-cases, inl, inr, ◌⊎◌, ℤ, pos, eqb_ℤ, ltb_ℤ,
}
use oshm.Socket.{Socket, Net, sock_release}
use oshm.Task.{TaskStruct}
use oshm.Socket.Balance.{IsUndone, counted}
use oshm.Socket.Calls.{sock_alloc_file, fput}
use oshm.Socket.Pair.{PairAnswers, pair_files, join_pair}

-- The thread that has made so many sockets.
abbrev pub counted_times : ℕ → TaskStruct → TaskStruct
counted_times zero t = t
counted_times (suc c) t = counted false (counted_times c t)

-- The state holds `k` sockets, with all that belongs to them, and `lost` protocol sockets more, and counts
-- `c` sockets more for the thread.
pub record Holds (k lost c : ℕ) (n m : Net) : Type 0 where
  pub task : m.task ≡ counted_times c n.task
  pub inodes : m.inodes ≡ n.inodes + k
  pub sks : m.sks ≡ n.sks + k + lost
  pub owners : m.owners ≡ n.owners + k
  pub families : m.families ≡ n.families
  pub rcu : m.rcu ≡ n.rcu

-- A socket of a family, without a file.
abbrev pub made : ℤ → Socket
made type = record { type = type; ops = true; sk = true; file = false }

pub made_eq : (s : Socket) → s.ops ≡ true → s.sk ≡ true → s.file ≡ false → s ≡ made s.type
made_eq s ops sk file = λ i. record { type = s.type; ops = ops i; sk = sk i; file = file i }

-- Nothing is held, but up to two sockets are counted; if a module was not loaded (`busy`), one protocol socket
-- may be left.
abbrev pub Nothing : (busy : Bool) → Net → Net → Type 0
Nothing busy n m = (c : ℕ) × (c ≤ 2) × (Holds 0 0 c n m ⊎ ((busy ≡ true) × Holds 0 1 c n m))

-- Both sockets and 0, or none and an error.
abbrev pub PairOrNone : Bool → Net → ℤ × Net → Type 0
PairOrNone busy n (err, m) = ((err ≡ pos 0) × Holds 2 0 2 n m) ⊎ ((err ≢ pos 0) × Nothing busy n m)

pub failing :
    (busy : Bool) (n m : Net) (err : ℤ) (c : ℕ)
    → err ≢ pos 0
    → c ≤ 2
    → Holds 0 0 c n m
    → PairOrNone busy n (err, m)
failing busy n m err c ne le h = inr (ne, (c, le, inl h))

released :
    (t1 t2 : ℤ) (n m : Net)
    → Holds 2 0 2 n m
    → Holds 0 0 2 n (sock_release (made t1) (sock_release (made t2) m))
unfolding sock_release
released t1 t2 n m h =
    let i = h.inodes in
    let k = h.sks in
    let o = h.owners in
    record {
      task = h.task;
      inodes = omega arith;
      sks = omega arith;
      owners = omega arith;
      families = h.families;
      rcu = h.rcu;
    }

first_released :
    (t1 t2 : ℤ) (n m : Net)
    → Holds 2 0 2 n m
    → Holds 0 0 2 n (sock_release (made t2) (sock_release (made t1) m))
unfolding sock_release
first_released t1 t2 n m h =
    let i = h.inodes in
    let k = h.sks in
    let o = h.owners in
    record {
      task = h.task;
      inodes = omega arith;
      sks = omega arith;
      owners = omega arith;
      families = h.families;
      rcu = h.rcu;
    }

closed :
    (t1 t2 : ℤ) (n m : Net)
    → Holds 2 0 2 n m
    → Holds 0 0 2 n (fput (record (made t1) { file = true }) (sock_release (made t2) m))
unfolding sock_release
closed t1 t2 n m h =
    let i = h.inodes in
    let k = h.sks in
    let o = h.owners in
    record {
      task = h.task;
      inodes = omega arith;
      sks = omega arith;
      owners = omega arith;
      families = h.families;
      rcu = h.rcu;
    }

pair_files-PairOrNone :
    (busy : Bool) (a : PairAnswers) (flags : ℕ) (t1 t2 : ℤ) (n m : Net)
    → Holds 2 0 2 n m
    → PairOrNone busy n (pair_files a flags (made t1) (made t2) m)
unfolding pair_files sock_alloc_file
pair_files-PairOrNone busy a flags t1 t2 n m h =
    let e1 = a.files1.alloc_file_pseudo flags in
    let e2 = a.files2.alloc_file_pseudo flags in
    elim (Bool-cases (ltb_ℤ e1 (pos 0))) [
      | inl no_file ↦ rw no_file (
          rw no_file (
            failing busy n _ e1 2 (ne_zero_of_lt e1 no_file) (omega arith)
              (first_released t1 t2 n m h)))
      | inr file ↦ rw file (elim (Bool-cases (ltb_ℤ e2 (pos 0))) [
        | inl no_file ↦ rw no_file (
            rw no_file
              (failing busy n _ e2 2 (ne_zero_of_lt e2 no_file) (omega arith) (closed t1 t2 n m h)))
        | inr file2 ↦ rw file2 (inl (refl, h))
      ])
    ]

pub join_pair-PairOrNone :
    (busy : Bool) (a : PairAnswers) (flags : ℕ) (t1 t2 : ℤ) (n m : Net)
    → Holds 2 0 2 n m
    → PairOrNone busy n (join_pair a flags (made t1) (made t2) m)
unfolding join_pair
join_pair-PairOrNone busy a flags t1 t2 n m h =
    let undone = released t1 t2 n m h in
    elim (Bool-cases (eqb_ℤ a.security_socketpair (pos 0))) [
      | inr refused ↦ rw refused (
          failing busy n _ a.security_socketpair 2 (ne_zero_of_eqb a.security_socketpair refused)
            (omega arith) undone)
      | inl allowed ↦ rw allowed (elim (Bool-cases (ltb_ℤ a.socketpair (pos 0))) [
        | inl apart ↦ rw apart (
            failing busy n _ a.socketpair 2 (ne_zero_of_lt a.socketpair apart) (omega arith) undone)
        | inr joined ↦ rw joined (pair_files-PairOrNone busy a flags t1 t2 n m h)
      ])
    ]

-- The first socket goes again, when the second was not made.
pub alone_released :
    (lost : ℕ) (t1 : ℤ) (n m m' : Net)
    → Holds 1 0 1 n m
    → IsUndone (lost == 1) m m'
    → lost ≤ 1
    → Holds 0 lost 1 n (sock_release (made t1) m')
unfolding sock_release
alone_released lost t1 n m m' h out le =
    let i = h.inodes in
    let k = h.sks in
    let o = h.owners in
    let i' = out.inodes in
    let k' = out.sks in
    let o' = out.owners in
    record {
      task = out.task ∙ h.task;
      inodes = omega arith;
      sks = ground arith;
      owners = omega arith;
      families = out.families ∙ h.families;
      rcu = out.rcu ∙ h.rcu;
    }
