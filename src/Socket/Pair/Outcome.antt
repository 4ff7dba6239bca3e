-- ===== src/Socket/Pair/Outcome.antt =====
-- What `__sys_socketpair` (net/socket.c) holds when it returns.
use Prim.Native.Nat.{bit_and, bit_or}
use oshm.Prelude.{
  ℕ, Bool, ap, ◌||◌, ◌+◌, ◌≡◌, ◌≢◌, ◌∙◌, refl, eqb_ℤ_iff, ne_zero_of_lt, ne_zero_of_eqb, true,
  false, not, none, some, arith, ◌==◌, Bool-cases, inl, inr, ◌⊎◌, ℤ, pos, eqb_ℤ, ltb_ℤ,
}
use oshm.Socket.{Net, Result, sock_create, family_of}
use oshm.Socket.Balance.{IsUndone, counted, Settled, sock_create_in-Outcome}
use oshm.Socket.Calls.{Sys, complement, flags_of}
use oshm.Socket.Pair.{PairAnswers, second_made, first_made, installed, sys_socketpair}
use oshm.Socket.Pair.Held.{
  Holds, made, made_eq, Nothing, PairOrNone, failing, join_pair-PairOrNone, alone_released,
}

second_made-PairOrNone :
    (a : PairAnswers) (busy : Bool) (family protocol : ℤ) (flags : ℕ) (t1 : ℤ) (n m : Net)
    (r : Result)
    → (a.outside2.try_module_get_owner family ≡ false → busy ≡ true)
    → Holds 1 0 1 n m
    → Settled a.outside2 family protocol false m r
    → PairOrNone busy n (second_made a flags (made t1) r)
second_made-PairOrNone a busy family protocol flags t1 n m (err, none, m') why h (inl (ne, out)) =
    failing busy n _ err 1 ne (omega arith) (alone_released 0 t1 n m m' h out (omega arith))
second_made-PairOrNone a busy family protocol flags t1 n m (err, none, m') why h (inr l) = inr (
  ne_zero_of_lt err (rw (l.2) refl),
  (1, omega arith, inr (why l.1, alone_released 1 t1 n m m' h l.3 (omega arith))),
)
second_made-PairOrNone a busy family protocol flags t1 n m (err, some s, m') why h (inr never) =
    absurd (cc never)
second_made-PairOrNone a busy family protocol flags t1 n m (err, some s, m') why h (inl all) =
    let (e, ops, sk, file, out) = all in
    let i = h.inodes in
    let k = h.sks in
    let o = h.owners in
    let i' = out.inodes in
    let k' = out.sks in
    let o' = out.owners in
    rw (made_eq s ops sk file) (
      join_pair-PairOrNone busy a flags t1 s.type n m' (record {
        task = out.task ∙ ap (counted false) h.task;
        inodes = omega arith;
        sks = omega arith;
        owners = omega arith;
        families = out.families ∙ h.families;
        rcu = out.rcu ∙ h.rcu;
      }))

-- A module of the two sockets' operations is not loaded.
abbrev pub busy_of : PairAnswers → (family type : ℤ) → Bool
busy_of a family type =
    not (a.outside1.try_module_get_owner (family_of a.outside1 family type))
    || not (a.outside2.try_module_get_owner (family_of a.outside2 family type))

first_made-PairOrNone :
    (a : PairAnswers) (family type protocol : ℤ) (flags : ℕ) (n : Net) (r : Result)
    → Settled a.outside1 (family_of a.outside1 family type) protocol false n r
    → PairOrNone (busy_of a family type) n (first_made a family type protocol flags r)
first_made-PairOrNone a family type protocol flags n (err, none, m) (inl (ne, out)) =
    failing (busy_of a family type) n m err 0 ne (omega arith) (nothing_more out)
  where
    nothing_more : IsUndone false n m → Holds 0 0 0 n m
    nothing_more u = record {
      task = u.task;
      inodes = u.inodes ∙ omega arith;
      sks = u.sks ∙ omega arith;
      owners = u.owners ∙ omega arith;
      families = u.families;
      rcu = u.rcu;
    }
first_made-PairOrNone a family type protocol flags n (err, none, m) (inr l) =
    let u = l.3 in
    inr (
      ne_zero_of_lt err (rw (l.2) refl),
      (
        0,
        omega arith,
        inr (
          rw (l.1) refl,
          record {
            task = u.task;
            inodes = u.inodes ∙ omega arith;
            sks = u.sks ∙ omega arith;
            owners = u.owners ∙ omega arith;
            families = u.families;
            rcu = u.rcu;
          },
        ),
      ),
    )
first_made-PairOrNone a family type protocol flags n (err, some s, m) (inr never) =
    absurd (cc never)
first_made-PairOrNone a family type protocol flags n (err, some s, m) (inl all) =
    let (e, ops, sk, file, out) = all in
    rw (made_eq s ops sk file) (
      second_made-PairOrNone a (busy_of a family type) (family_of a.outside2 family type) protocol
        flags s.type n m (sock_create a.outside2 family type protocol m) (λ b. rw b (ground arith))
        (record {
          task = out.task;
          inodes = out.inodes;
          sks = out.sks ∙ omega arith;
          owners = out.owners;
          families = out.families;
          rcu = out.rcu;
        })
        (sock_create_in-Outcome a.outside2 family type protocol false m))

-- A pair in the user's hands with its two descriptors, or nothing held and an error.
abbrev pub PairedOrNone : (busy : Bool) → Sys → ℤ × Sys → Type 0
PairedOrNone busy y (err, y') =
    ((err ≡ pos 0) × (y'.fds ≡ y.fds + 2) × Holds 2 0 2 y.net y'.net)
    ⊎ ((err ≢ pos 0) × (y'.fds ≡ y.fds) × Nothing busy y.net y'.net)

installed-PairedOrNone :
    (busy : Bool) (y : Sys) (r : ℤ × Net)
    → PairOrNone busy y.net r
    → PairedOrNone busy y (installed y.fds r)
installed-PairedOrNone busy y (err, m) (inl (e, h)) = rw e (inl (refl, refl, h))
installed-PairedOrNone busy y (err, m) (inr (ne, h)) = elim (Bool-cases (eqb_ℤ err (pos 0))) [
  | inl e ↦ absurd (ne ((eqb_ℤ_iff err (pos 0)).0 e))
  | inr d ↦ rw d (inr (ne, omega arith, h))
]

none_held : (busy : Bool) (n : Net) → Nothing busy n n
none_held busy n = (
  0,
  omega arith,
  inl (record {
    task = refl;
    inodes = omega arith;
    sks = omega arith;
    owners = omega arith;
    families = refl;
    rcu = refl;
  }),
)

-- A call of socketpair returns 0, and then two sockets, each with its inode, its protocol socket and
-- the module of its operations, and two descriptors are held beyond those before, and the thread's count is
-- two higher; or it returns another number, and then every descriptor, inode and module is given back, and
-- every protocol socket too, but for one at most where the module of a socket's operations is not loaded. The
-- thread's count is then as before or up to two higher.
pub sys_socketpair-PairedOrNone :
    (a : PairAnswers) (family : ℤ) (type : ℕ) (protocol : ℤ) (y : Sys)
    → PairedOrNone
        (busy_of a family (pos (bit_and type a.files1.type_mask)))
        y
        (sys_socketpair a family type protocol y)
unfolding sys_socketpair
sys_socketpair-PairedOrNone a family type protocol y =
    let f = a.files1 in
    let flags = bit_and type (complement f.type_mask) in
    let type' : ℤ = pos (bit_and type f.type_mask) in
    let busy = busy_of a family type' in
    let kept = none_held busy y.net in
    elim (Bool-cases (bit_and flags (complement (bit_or f.cloexec f.nonblock)) == 0)) [
      | inr bad ↦ rw bad (inr (ne_zero_of_lt _ refl, refl, kept))
      | inl ok ↦ rw ok (elim (Bool-cases (ltb_ℤ a.fd1 (pos 0))) [
        | inl full ↦ rw full (inr (ne_zero_of_lt a.fd1 full, refl, kept))
        | inr one ↦ rw one (elim (Bool-cases (ltb_ℤ a.fd2 (pos 0))) [
          | inl full ↦ rw full (inr (ne_zero_of_lt a.fd2 full, omega arith, kept))
          | inr two ↦ rw two (elim (Bool-cases (eqb_ℤ a.put1 (pos 0))) [
            | inr fault ↦ rw fault (inr (ne_zero_of_eqb a.put1 fault, omega arith, kept))
            | inl told1 ↦ rw told1 (elim (Bool-cases (eqb_ℤ a.put2 (pos 0))) [
              | inr fault ↦ rw fault (inr (ne_zero_of_eqb a.put2 fault, omega arith, kept))
              | inl told2 ↦ rw told2 (
                  installed-PairedOrNone busy y
                    (first_made a family type' protocol (flags_of f flags)
                      (sock_create a.outside1 family type' protocol y.net))
                    (first_made-PairOrNone a family type' protocol (flags_of f flags) y.net
                      (sock_create a.outside1 family type' protocol y.net)
                      (sock_create_in-Outcome a.outside1 family type' protocol false y.net)))
            ])
          ])
        ])
      ])
    ]
