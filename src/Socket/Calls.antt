-- ===== src/Socket/Calls.antt =====
-- net/socket.c: the system calls that give a user a socket, over file descriptors.
use Prim.Native.Nat.{bit_and, bit_or}
use oshm.Prelude.{
  ℕ, ◌+◌, ◌-◌, ◌^◌, ◌≡◌, Bool, true, false, not, ◌&&◌, Option, none, some, arith, ◌==◌,
  if◌then◌else◌, Bool-cases, inl, inr, ℤ, pos, neg, eqb_ℤ, ltb_ℤ, einval, enfile, econnaborted,
}
use oshm.Task.{incr_int}
use oshm.Socket.{Outside, Socket, Net, Result, sock_alloc, sock_release, sock_create, family_of}
use oshm.Socket.Balance.{Outcome, IsUndone, some-Outcome, sock_create_in-Outcome}

-- The flag bits of `socket`, and the calls into the file layer, each with the number it returns.
pub record Files : Type 0 where
  pub type_mask : ℕ
  pub cloexec : ℕ
  pub nonblock : ℕ
  pub o_nonblock : ℕ
  pub get_unused_fd_flags : ℕ → ℤ
  pub alloc_file_pseudo : ℕ → ℤ

-- The sockets, and the descriptors that are reserved or in use.
pub record Sys : Type 0 where
  pub net : Net
  pub fds : ℕ

-- `~x` of an `unsigned int`
abbrev pub complement : ℕ → ℕ
complement x = 2 ^ 32 - 1 - x

-- The file's error number, or 0 and the socket bound to the file.
unfoldable pub sock_alloc_file : Files → Socket → ℕ → Net → ℤ × Socket × Net
sock_alloc_file f s flags n =
    let err = f.alloc_file_pseudo flags in
    if ltb_ℤ err (pos 0) then (err, s, sock_release s n) else (pos 0, record s { file = true }, n)

unfoldable pub sock_map_fd : Files → Socket → ℕ → Sys → ℤ × Sys
unfolding sock_alloc_file
sock_map_fd f s flags y =
    let fd = f.get_unused_fd_flags flags in
    if ltb_ℤ fd (pos 0)
    then (fd, record y { net = sock_release s y.net })
    else let (err, s', n) = sock_alloc_file f s flags y.net in
      if ltb_ℤ err (pos 0)
      then (err, record { net = n; fds = y.fds + 1 - 1 })
      else (fd, record { net = n; fds = y.fds + 1 })

abbrev pub flags_of : Files → ℕ → ℕ
flags_of f flags =
    if not (f.nonblock == f.o_nonblock) && not (bit_and flags f.nonblock == 0)
    then bit_or (bit_and flags (complement f.nonblock)) f.o_nonblock
    else flags

abbrev map_created : Files → ℕ → Result → ℕ → ℤ × Sys
map_created f flags (r, none, n) fds = (r, record { net = n; fds = fds })
map_created f flags (r, some s, n) fds = sock_map_fd f s flags (record { net = n; fds = fds })

-- `__sys_socket`
unfoldable pub sys_socket : Outside → Files → ℤ → ℕ → ℤ → Sys → ℤ × Sys
sys_socket o f family type protocol y =
    let flags = bit_and type (complement f.type_mask) in
    if not (bit_and flags (complement (bit_or f.cloexec f.nonblock)) == 0)
    then (neg einval, y)
    else map_created f (bit_and (flags_of f flags) (bit_or f.cloexec f.o_nonblock))
        (sock_create o family (pos (bit_and type f.type_mask)) protocol y.net) y.fds

-- The calls of `do_accept` into the protocol, the security hooks and the user's memory, and whether
-- the caller asks for the peer's address.
pub record Accepting : Type 0 where
  pub security_socket_accept : ℤ
  pub accept : ℤ
  pub wants_peer : Bool
  pub getname : ℤ
  pub move_addr_to_user : ℤ

-- `fput` of a socket's file: `sock_close`, and the file layer gives the inode back.
abbrev pub fput : Socket → Net → Net
fput s n = let n' = sock_release s n in record n' { inodes = n'.inodes - 1 }

-- The error of handing the peer's address to the caller, or 0.
abbrev peer_error : Accepting → ℤ
peer_error a =
    if not a.wants_peer
    then pos 0
    else if ltb_ℤ a.getname (pos 0)
    then neg econnaborted
    else if ltb_ℤ a.move_addr_to_user (pos 0)
    then a.move_addr_to_user
    else pos 0

-- `sock` is the socket of the listening file; a file that is no socket is refused before.
unfoldable pub do_accept : Outside → Files → Accepting → Socket → ℕ → Net → ℤ × Option Socket × Net
do_accept o f a sock flags n =
    if not o.new_inode
    then (neg enfile, none, n)
    else let (fresh, n₁) = sock_alloc sock.type n in
      let s : Socket = record fresh { ops = sock.ops } in
      let n₂ : Net = record n₁ { owners = n₁.owners + 1 } in
      let (err, s', n₃) = sock_alloc_file f s flags n₂ in
      if ltb_ℤ err (pos 0)
      then (err, none, n₃)
      else if not (eqb_ℤ a.security_socket_accept (pos 0))
      then (a.security_socket_accept, none, fput s' n₃)
      else if ltb_ℤ a.accept (pos 0)
      then (a.accept, none, fput s' n₃)
      else let joined : Socket = record s' { sk = true } in
        let n₄ : Net = record n₃ { sks = n₃.sks + 1 } in
        if ltb_ℤ (peer_error a) (pos 0)
        then (peer_error a, none, fput joined n₄)
        else (pos 0, some joined, n₄)

mapped-no_descriptor :
    (f : Files) (s : Socket) (flags : ℕ) (y : Sys) (m : Net)
    → Outcome false false y.net (pos 0, some s, m)
    → ltb_ℤ (f.get_unused_fd_flags flags) (pos 0) ≡ true
    → let (r, y') = map_created f flags (pos 0, some s, m) y.fds in
      (r ≡ f.get_unused_fd_flags flags)
      × (y'.fds ≡ y.fds)
      × IsUndone false y.net (record y'.net { task = y.net.task })
      × (y'.net.task.socket_count ≡ incr_int y.net.task.socket_count)
unfolding sock_map_fd sock_release
mapped-no_descriptor f s flags y m (r, ops, sk, file, made) full =
    rw (full, ops, sk, file) (ground arith)

-- A user's socket that gets no file descriptor is released again, and still stays counted: the call
-- returns the number that the descriptor table gave, everything that it took is given back, and the
-- count of the calling thread is one higher.
pub sys_socket-no_descriptor :
    (o : Outside) (f : Files) (family : ℤ) (type : ℕ) (protocol : ℤ) (y : Sys) {s : Socket}
    {m : Net}
    → (bit_and (bit_and type (complement f.type_mask)) (complement (bit_or f.cloexec f.nonblock))
        == 0)
      ≡ true
    → sock_create o family (pos (bit_and type f.type_mask)) protocol y.net ≡ (pos 0, some s, m)
    → ((g : ℕ) → ltb_ℤ (f.get_unused_fd_flags g) (pos 0) ≡ true)
    → (g : ℕ) × (let (r, y') = sys_socket o f family type protocol y in
        (r ≡ f.get_unused_fd_flags g)
        × (y'.fds ≡ y.fds)
        × IsUndone false y.net (record y'.net { task = y.net.task })
        × (y'.net.task.socket_count ≡ incr_int y.net.task.socket_count))
unfolding sys_socket
sys_socket-no_descriptor o f family type protocol y {s} {m} flags made full =
    let g =
      bit_and (flags_of f (bit_and type (complement f.type_mask)))
        (bit_or f.cloexec f.o_nonblock) in
    let out : Outcome false false y.net (pos 0, some s, m) =
      some-Outcome o (family_of o family (pos (bit_and type f.type_mask))) protocol false y.net m
        (pos 0) s
        (rw made at (
          sock_create_in-Outcome o family (pos (bit_and type f.type_mask)) protocol false y.net)) in
    (g, rw (flags, made) (mapped-no_descriptor f s g y m out (full g)))

abbrev pub Accepted : Net → ℤ × Option Socket × Net → Type 0
Accepted n (r, none, m) = IsUndone false n m
Accepted n (r, some s, m) =
    (r ≡ pos 0)
    × (s.file ≡ true)
    × (m.task ≡ n.task)
    × (m.inodes ≡ n.inodes + 1)
    × (m.sks ≡ n.sks + 1)
    × (m.owners ≡ n.owners + 1)

-- `do_accept` on a socket with operations gives a socket with an inode, a protocol socket and a
-- module reference of its own, whatever limit the calling thread has, and does not count it; if it
-- fails, all that it took is given back.
pub do_accept-Accepted :
    (o : Outside) (f : Files) (a : Accepting) (sock : Socket) (flags : ℕ) (n : Net)
    → sock.ops ≡ true
    → Accepted n (do_accept o f a sock flags n)
unfolding do_accept sock_alloc sock_alloc_file sock_release
do_accept-Accepted o f a sock flags n ops = elim (Bool-cases o.new_inode) [
  | inr full ↦ rw full (ground arith)
  | inl room ↦
      rw (room, ops)
        (elim (Bool-cases (ltb_ℤ (f.alloc_file_pseudo flags) (pos 0))) [
          | inl no_file ↦ rw no_file (ground arith)
          | inr file ↦ rw file (elim (Bool-cases (eqb_ℤ a.security_socket_accept (pos 0))) [
            | inr refused ↦ rw refused (ground arith)
            | inl allowed ↦ rw allowed (elim (Bool-cases (ltb_ℤ a.accept (pos 0))) [
              | inl fails ↦ rw fails (ground arith)
              | inr works ↦ rw works (elim (Bool-cases (ltb_ℤ (peer_error a) (pos 0))) [
                | inl lost ↦ rw lost (ground arith)
                | inr told ↦ rw told (ground arith)
              ])
            ])
          ])
        ])
]
