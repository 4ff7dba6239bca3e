-- ===== src/Socket/Balance.antt =====
-- What `__sock_create` holds when it returns.
use oshm.Prelude.{
  ◌+◌, ◌-◌, ◌⊎◌, ◌≡◌, ◌≢◌, refl, Bool, true, false, not, ◌||◌, none, some, arith, if◌then◌else◌,
  Bool-cases, inl, inr, ℤ, pos, eqb_ℤ, ne_zero_of_lt, ne_zero_of_eqb, leb_ℤ, ltb_ℤ, neg,
  eafnosupport,
}
use oshm.Task.{TaskStruct, incr_int}
use oshm.Socket.{
  Outside, Socket, Net, Result, create_in_family, create_socket, sock_create_in, over_limit,
  count_socket, family_of,
}

-- Everything that was taken has been given back, but for protocol sockets if `lost`.
pub record IsUndone (lost : Bool) (n m : Net) : Type 0 where
  pub task : m.task ≡ n.task
  pub inodes : m.inodes ≡ n.inodes
  pub sks : m.sks ≡ (if lost then n.sks + 1 else n.sks)
  pub families : m.families ≡ n.families
  pub owners : m.owners ≡ n.owners
  pub rcu : m.rcu ≡ n.rcu

-- A user's socket raises the count of the thread, a kernel's socket leaves the thread alone.
abbrev pub counted : (kern : Bool) → TaskStruct → TaskStruct
counted true t = t
counted false t = record t { socket_count = incr_int t.socket_count }

count_socket_eq : (kern : Bool) (t : TaskStruct) → count_socket kern t ≡ counted kern t
count_socket_eq true t = refl
count_socket_eq false t = refl

-- One socket more, with its inode, protocol socket and module, counted if it is the user's.
pub record IsMade (kern : Bool) (n m : Net) : Type 0 where
  pub task : m.task ≡ counted kern n.task
  pub inodes : m.inodes ≡ n.inodes + 1
  pub sks : m.sks ≡ n.sks + 1
  pub families : m.families ≡ n.families
  pub owners : m.owners ≡ n.owners + 1
  pub rcu : m.rcu ≡ n.rcu

-- A socket comes with 0, and then `made` says what has been taken; no socket comes with another
-- number, and then all is given back.
abbrev pub Outcome : Bool → Bool → Net → Result → Type 0
Outcome lost kern n (r, none, m) = (r ≢ pos 0) × IsUndone lost n m
Outcome lost kern n (r, some s, m) =
    (r ≡ pos 0) × (s.ops ≡ true) × (s.sk ≡ true) × (s.file ≡ false) × IsMade kern n m

-- The module of the socket's operations cannot be got, once the family has made a protocol socket: the
-- number is -EAFNOSUPPORT, no socket comes, and the protocol socket stays behind.
abbrev pub LosesSk : Outside → (family protocol : ℤ) → Bool → Net → Result → Type 0
LosesSk o family protocol kern n (r, none, m) =
    (ltb_ℤ (o.create family protocol kern) (pos 0) ≡ false)
    × (o.try_module_get_owner family ≡ false)
    × (r ≡ neg eafnosupport)
    × IsUndone true n m
LosesSk o family protocol kern n (r, some s, m) = true ≡ false

-- The two ends of a creation.
abbrev pub Settled : Outside → (family protocol : ℤ) → Bool → Net → Result → Type 0
Settled o family protocol kern n x = Outcome false kern n x ⊎ LosesSk o family protocol kern n x

abbrev with_family : Net → Net
with_family n = record n { inodes = n.inodes + 1; families = n.families + 1; rcu = n.rcu + 1 - 1 }

create_in_family-Settled :
    (o : Outside) (family type protocol : ℤ) (kern : Bool) (n : Net)
    → Settled o family protocol kern n (
        create_in_family o family type protocol kern
          (record { type = type; ops = false; sk = false; file = false })
          (with_family n))
unfolding create_in_family
create_in_family-Settled o family type protocol kern n =
    elim (Bool-cases (ltb_ℤ (o.create family protocol kern) (pos 0))) [
      | inl fails ↦
          rw fails (inl (ne_zero_of_lt (o.create family protocol kern) fails, ground arith))
      | inr works ↦ rw works (elim (Bool-cases (o.try_module_get_owner family)) [
        | inr busy ↦ rw busy (inr (works, busy, refl, ground arith))
        | inl got ↦
            rw got
              (elim (Bool-cases
                (eqb_ℤ (o.security_socket_post_create family type protocol kern) (pos 0))) [
                  | inl allowed ↦ rw allowed (
                      inl (
                        refl,
                        refl,
                        refl,
                        refl,
                        record {
                          task = count_socket_eq kern n.task;
                          inodes = refl;
                          sks = refl;
                          families = omega arith;
                          owners = refl;
                          rcu = omega arith;
                        },
                      ))
                  | inr refused ↦ rw refused (
                      inl (
                        ne_zero_of_eqb (o.security_socket_post_create family type protocol kern)
                            refused,
                        ground arith,
                      ))
                ])
      ])
    ]

pub create_socket-Settled :
    (o : Outside) (family type protocol : ℤ) (kern : Bool) (n : Net)
    → Settled o family protocol kern n (create_socket o family type protocol kern n)
unfolding create_socket
create_socket-Settled o family type protocol kern n = elim (Bool-cases o.new_inode) [
  | inr full ↦ rw full (inl (ne_zero_of_lt _ refl, ground arith))
  | inl room ↦
      rw room (elim (Bool-cases (not (o.net_families family) || not (o.try_module_get family))) [
        | inl missing ↦ rw missing (inl (ne_zero_of_lt _ refl, ground arith))
        | inr known ↦ rw known (create_in_family-Settled o family type protocol kern n)
      ])
]

-- `__sock_create` keeps its books but in one case. If it returns a socket, the number is 0, one inode,
-- one protocol socket and one reference to the module of its operations are held beyond those before, and
-- the thread's count is raised exactly if the socket is not the kernel's. If it returns none, nothing is
-- counted, and the number is not 0 and all that it took is given back, or the family's `create` has worked,
-- the module of its operations cannot be got, the number is -EAFNOSUPPORT and all but the protocol socket is
-- given back.
pub sock_create_in-Outcome :
    (o : Outside) (family type protocol : ℤ) (kern : Bool) (n : Net)
    → Settled o
        (family_of o family type)
        protocol
        kern
        n
        (sock_create_in o family type protocol kern n)
unfolding sock_create_in
sock_create_in-Outcome o family type protocol kern n =
    elim (Bool-cases (ltb_ℤ family (pos 0) || leb_ℤ o.nproto family)) [
      | inl bad ↦ rw bad (inl (ne_zero_of_lt _ refl, ground arith))
      | inr family_ok ↦
          rw family_ok (elim (Bool-cases (ltb_ℤ type (pos 0) || leb_ℤ o.sock_max type)) [
            | inl bad ↦ rw bad (inl (ne_zero_of_lt _ refl, ground arith))
            | inr type_ok ↦ rw type_ok (elim (Bool-cases (over_limit kern n.task)) [
              | inl over ↦ rw over (inl (ne_zero_of_lt _ refl, ground arith))
              | inr within ↦
                  rw within
                    (elim (Bool-cases (
                      eqb_ℤ (o.security_socket_create (family_of o family type) type protocol kern)
                        (pos 0))) [
                          | inr refused ↦ rw refused (
                              inl (
                                ne_zero_of_eqb
                                    (o.security_socket_create (family_of o family type) type
                                      protocol kern)
                                    refused,
                                ground arith,
                              ))
                          | inl allowed ↦ rw allowed (
                              create_socket-Settled o (family_of o family type) type protocol kern
                                n)
                        ])
            ])
          ])
    ]

-- With a socket, it has been made.
pub some-Outcome :
    (o : Outside) (family protocol : ℤ) (kern : Bool) (n m : Net) (r : ℤ) (s : Socket)
    → Settled o family protocol kern n (r, some s, m)
    → Outcome false kern n (r, some s, m)
some-Outcome o family protocol kern n m r s (inl out) = out
some-Outcome o family protocol kern n m r s (inr never) = absurd (cc never)
