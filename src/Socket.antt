-- ===== src/Socket.antt =====
-- net/socket.c: how sockets are made and given back, with the limit on a thread's sockets that the
-- OShm patch adds.
pub mod Balance
pub mod Calls
pub mod Descriptor
pub mod Pair
pub mod Quota
mod Tests
use oshm.Prelude.{
  ℕ, ◌+◌, ◌-◌, Bool, true, false, not, ◌&&◌, ◌||◌, Option, none, some, if◌then◌else◌, ℤ, pos, neg,
  eqb_ℤ, leb_ℤ, ltb_ℤ, einval, enfile, emfile, eafnosupport,
}
use oshm.Task.{TaskStruct, incr_int}

-- What the code calls and takes from headers outside this repository: bounds and names of families,
-- the security hooks, the protocol families and their modules, and the inode cache.
pub record Outside : Type 0 where
  pub nproto : ℤ
  pub sock_max : ℤ
  pub pf_inet : ℤ
  pub pf_packet : ℤ
  pub sock_packet : ℤ
  pub security_socket_create : ℤ → ℤ → ℤ → Bool → ℤ
  pub new_inode : Bool
  pub net_families : ℤ → Bool
  pub try_module_get : ℤ → Bool
  pub create : ℤ → ℤ → Bool → ℤ
  pub try_module_get_owner : ℤ → Bool
  pub security_socket_post_create : ℤ → ℤ → ℤ → Bool → ℤ

-- `struct socket`: which of its pointers are set.
pub record Socket : Type 0 where
  pub type : ℤ
  pub ops : Bool
  pub sk : Bool
  pub file : Bool

-- The calling task, and how many of each are held: socket inodes, protocol sockets, references to
-- the modules of families and of socket operations, RCU read locks.
pub record Net : Type 0 where
  pub task : TaskStruct
  pub inodes : ℕ
  pub sks : ℕ
  pub families : ℕ
  pub owners : ℕ
  pub rcu : ℕ

-- `sock_alloc`, with the type that the caller stores.
unfoldable pub sock_alloc : ℤ → Net → Socket × Net
sock_alloc type n = (
  record { type = type; ops = false; sk = false; file = false },
  record n { inodes = n.inodes + 1 },
)

-- `__sock_release`: the protocol's release, which gives the protocol socket back if there is one, and
-- the module reference, if there are operations, and the inode, if no file has it.
unfoldable pub sock_release : Socket → Net → Net
sock_release s n =
    let closed : Net =
      if s.ops
      then record n { sks = if s.sk then n.sks - 1 else n.sks; owners = n.owners - 1 }
      else n in
    if s.file then closed else record closed { inodes = closed.inodes - 1 }

-- A result: the error number, `*res`, and the state.
abbrev pub Result : Type 0
Result = ℤ × Option Socket × Net

abbrev pub failed : ℤ → Net → Result
failed e n = (e, none, n)

-- `out_module_put`: no operations are left in the socket, so its release gives back the inode only.
unfoldable pub module_put_and_release : ℤ → Socket → Net → Result
unfolding sock_release
module_put_and_release e s n =
    failed e (sock_release (record s { ops = false }) (record n { families = n.families - 1 }))

abbrev pub count_socket : Bool → TaskStruct → TaskStruct
count_socket kern t = if kern then t else record t { socket_count = incr_int t.socket_count }

-- From the security hook after the family's `create` on.
unfoldable pub finish_create : Outside → ℤ → ℤ → ℤ → Bool → Socket → Net → Result
unfolding sock_release
finish_create o family type protocol kern s n =
    let err = o.security_socket_post_create family type protocol kern in
    if not (eqb_ℤ err (pos 0))
    then failed err (sock_release s n)
    else (pos 0, some s, record n { task = count_socket kern n.task })

-- From the call of `pf->create` on.
unfoldable pub create_in_family : Outside → ℤ → ℤ → ℤ → Bool → Socket → Net → Result
unfolding module_put_and_release finish_create
create_in_family o family type protocol kern s n =
    let err = o.create family protocol kern in
    if ltb_ℤ err (pos 0)
    then module_put_and_release err (record s { sk = false }) n
    else let made : Socket = record s { ops = true; sk = true } in
      let n' : Net = record n { sks = n.sks + 1 } in
      if not (o.try_module_get_owner family)
      then module_put_and_release (neg eafnosupport) made n'
      else finish_create o family type protocol kern made
          (record n' { owners = n'.owners + 1; families = n'.families - 1 })

-- The limit on the calling thread's sockets.
unfoldable pub over_limit : Bool → TaskStruct → Bool
over_limit kern t =
    not kern && ltb_ℤ (pos 0) t.max_socket_allowed && leb_ℤ t.max_socket_allowed t.socket_count

-- `(PF_INET, SOCK_PACKET)` is an old name of `PF_PACKET`.
abbrev pub family_of : Outside → ℤ → ℤ → ℤ
family_of o family type =
    if eqb_ℤ family o.pf_inet && eqb_ℤ type o.sock_packet then o.pf_packet else family

-- From `sock_alloc` on.
unfoldable pub create_socket : Outside → ℤ → ℤ → ℤ → Bool → Net → Result
unfolding sock_alloc sock_release create_in_family
create_socket o family type protocol kern n =
    if not o.new_inode
    then failed (neg enfile) n
    else let (s, n₁) = sock_alloc type n in
      let locked : Net = record n₁ { rcu = n₁.rcu + 1 } in
      if not (o.net_families family) || not (o.try_module_get family)
      then failed (neg eafnosupport) (sock_release s (record locked { rcu = locked.rcu - 1 }))
      else create_in_family o family type protocol kern s
          (record locked { families = locked.families + 1; rcu = locked.rcu - 1 })

-- `__sock_create`
unfoldable pub sock_create_in : Outside → ℤ → ℤ → ℤ → Bool → Net → Result
unfolding over_limit create_socket
sock_create_in o family type protocol kern n =
    if ltb_ℤ family (pos 0) || leb_ℤ o.nproto family
    then failed (neg eafnosupport) n
    else if ltb_ℤ type (pos 0) || leb_ℤ o.sock_max type
    then failed (neg einval) n
    else if over_limit kern n.task
    then failed (neg emfile) n
    else let family' = family_of o family type in
      let err = o.security_socket_create family' type protocol kern in
      if not (eqb_ℤ err (pos 0)) then failed err n else create_socket o family' type protocol kern n

abbrev pub sock_create : Outside → ℤ → ℤ → ℤ → Net → Result
sock_create o family type protocol = sock_create_in o family type protocol false

abbrev pub sock_create_kern : Outside → ℤ → ℤ → ℤ → Net → Result
sock_create_kern o family type protocol = sock_create_in o family type protocol true
