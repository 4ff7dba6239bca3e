-- ===== src/Socket/Pair.antt =====
-- `__sys_socketpair` (net/socket.c): two sockets that are joined, or nothing.
pub mod Held
pub mod Outcome
use Prim.Native.Nat.{bit_and, bit_or}
use oshm.Prelude.{
  ℕ, zero, suc, Bool, ap, ◌≤◌, ◌||◌, ◌+◌, ◌-◌, ◌≡◌, ◌≢◌, ◌∙◌, refl, eqb_ℤ_iff, ne_zero_of_lt,
  ne_zero_of_eqb, true, false, not, none, some, arith, ◌==◌, if◌then◌else◌, Bool-cases, inl, inr,
  ◌⊎◌, ℤ, pos, neg, eqb_ℤ, ltb_ℤ, einval,
}
use oshm.Socket.{Outside, Socket, Net, Result, sock_release, sock_create, family_of}
use oshm.Task.{TaskStruct}
use oshm.Socket.Balance.{IsUndone, counted, Settled, sock_create_in-Outcome}
use oshm.Socket.Calls.{Files, Sys, complement, sock_alloc_file, flags_of, fput}

-- The answers of a call: the two descriptors, the writes of them to the user, what is outside of each of
-- the two creations, the hook and the protocol that join the sockets, and the file layer for each.
pub record PairAnswers : Type 0 where
  pub fd1 : ℤ
  pub fd2 : ℤ
  pub put1 : ℤ
  pub put2 : ℤ
  pub outside1 : Outside
  pub outside2 : Outside
  pub security_socketpair : ℤ
  pub socketpair : ℤ
  pub files1 : Files
  pub files2 : Files

-- From `sock_alloc_file` on; the state is that of the sockets.
unfoldable pub pair_files : PairAnswers → (flags : ℕ) → Socket → Socket → Net → ℤ × Net
pair_files a flags s1 s2 n =
    let (err1, s1', n1) = sock_alloc_file a.files1 s1 flags n in
    if ltb_ℤ err1 (pos 0)
    then (err1, sock_release s2 n1)
    else let (err2, s2', n2) = sock_alloc_file a.files2 s2 flags n1 in
      if ltb_ℤ err2 (pos 0) then (err2, fput s1' n2) else (pos 0, n2)

-- The two sockets are joined.
unfoldable pub join_pair : PairAnswers → (flags : ℕ) → Socket → Socket → Net → ℤ × Net
unfolding pair_files
join_pair a flags s1 s2 n =
    if not (eqb_ℤ a.security_socketpair (pos 0))
    then (a.security_socketpair, sock_release s1 (sock_release s2 n))
    else if ltb_ℤ a.socketpair (pos 0)
    then (a.socketpair, sock_release s1 (sock_release s2 n))
    else pair_files a flags s1 s2 n

-- A hook that gives a positive number, as none does, would leave the caller with an unset pointer to a socket; here
-- it ends the call.
abbrev pub second_made : PairAnswers → (flags : ℕ) → Socket → Result → ℤ × Net
second_made a flags s1 (err, none, n) = (err, sock_release s1 n)
second_made a flags s1 (err, some s2, n) = join_pair a flags s1 s2 n

abbrev pub first_made : PairAnswers → ℤ → ℤ → ℤ → (flags : ℕ) → Result → ℤ × Net
first_made a family type protocol flags (err, none, n) = (err, n)
first_made a family type protocol flags (err, some s1, n) =
    second_made a flags s1 (sock_create a.outside2 family type protocol n)

-- With both descriptors in the user's memory; they are installed, or put back.
abbrev pub installed : ℕ → ℤ × Net → ℤ × Sys
installed fds (err, n) =
    if eqb_ℤ err (pos 0)
    then (err, record { net = n; fds = fds + 2 })
    else (err, record { net = n; fds = fds + 2 - 2 })

unfoldable pub sys_socketpair : PairAnswers → (family : ℤ) (type : ℕ) (protocol : ℤ) → Sys → ℤ × Sys
unfolding join_pair
sys_socketpair a family type protocol y =
    let f = a.files1 in
    let flags = bit_and type (complement f.type_mask) in
    if not (bit_and flags (complement (bit_or f.cloexec f.nonblock)) == 0)
    then (neg einval, y)
    else if ltb_ℤ a.fd1 (pos 0)
    then (a.fd1, y)
    else if ltb_ℤ a.fd2 (pos 0)
    then (a.fd2, record y { fds = y.fds + 1 - 1 })
    else if not (eqb_ℤ a.put1 (pos 0))
    then (a.put1, record y { fds = y.fds + 2 - 2 })
    else if not (eqb_ℤ a.put2 (pos 0))
    then (a.put2, record y { fds = y.fds + 2 - 2 })
    else installed y.fds (
        first_made a family (pos (bit_and type f.type_mask)) protocol (flags_of f flags)
          (sock_create a.outside1 family (pos (bit_and type f.type_mask)) protocol y.net))
