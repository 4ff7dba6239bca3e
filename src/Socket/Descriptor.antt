-- ===== src/Socket/Descriptor.antt =====
-- net/socket.c: the system calls on the descriptor of a socket. What a call does is written to a log: which
-- security hook it asks, and which operation of the protocol it calls.
pub mod Bodies
pub mod Orderly
mod Tests
use oshm.Prelude.{
  ℕ, ◌+◌, ◌-◌, ◌^◌, Bool, true, false, not, ◌&&◌, ◌||◌, ◌==◌, ltb, leb, Option, none, some, List,
  [], ◌∷◌, if◌then◌else◌, ℤ, pos, negsuc, neg, eqb_ℤ, ltb_ℤ, leb_ℤ, ebadf, enotsock, einval, efault,
  enomem, eopnotsupp,
}

-- The operations of a protocol, `getname` for both ends, and the generic options of net/core/sock.c.
pub data Op : Type 0 where
  bind : Op
  connect : Op
  listen : Op
  getsockname : Op
  getpeername : Op
  sendmsg : Op
  recvmsg : Op
  shutdown : Op
  setsockopt : Op
  getsockopt : Op
  sock_setsockopt : Op
  sock_getsockopt : Op

-- The hook that is asked for an operation.
abbrev pub hook_of : Op → Op
hook_of sock_setsockopt = setsockopt
hook_of sock_getsockopt = getsockopt
hook_of op = op

-- The number of a call is the length of an address, the backlog or the like.
pub data Event : Type 0 where
  asked : Op → Event
  called : Op → ℤ → Event

-- `refs` are the references to files that calls hold.
pub record State : Type 0 where
  pub refs : ℕ
  pub log : List Event

-- What the files, the user's memory, the security module and the protocol answer. `fdget` says whether there
-- is a file, and whether it is a socket; `shared` whether its table is, so that a reference is needed.
pub record Outside : Type 0 where
  pub fdget : ℤ → Option Bool
  pub shared : Bool
  pub copy_from_user : Bool
  pub copy_to_user : Bool
  pub audit_sockaddr : ℤ
  pub get_user : ℤ × ℤ
  pub put_user : ℤ
  pub import_single_range : ℤ
  pub somaxconn : ℕ
  pub security : Op → ℤ
  pub op : Op → ℤ → ℤ
  pub msg_namelen : ℤ
  pub in_compat_syscall : Bool
  pub bpf_setsockopt : (level optlen : ℤ) → ℤ × ℤ × ℕ
  pub bpf_getsockopt : ℤ → ℤ
  pub use_custom_sol_socket : Bool
  pub has_setsockopt : Bool
  pub has_getsockopt : Bool

abbrev fput_light : (fput_needed : Bool) → State → State
fput_light fput_needed st = if fput_needed then record st { refs = st.refs - 1 } else st

abbrev get_file : Outside → State → State
get_file o st = if o.shared then record st { refs = st.refs + 1 } else st

abbrev and_put : Bool → ℤ × State → ℤ × State
and_put fput_needed (r, st) = (r, fput_light fput_needed st)

abbrev on_file : Outside → Option Bool → (State → ℤ × State) → State → ℤ × State
on_file o none body st = (neg ebadf, st)
on_file o (some false) body st = (neg enotsock, fput_light o.shared (get_file o st))
on_file o (some true) body st = and_put o.shared (body (get_file o st))

-- `sockfd_lookup_light`, the part of a call between it and `fput_light`, and the latter.
unfoldable pub with_socket : Outside → (fd : ℤ) → (State → ℤ × State) → State → ℤ × State
with_socket o fd body st = on_file o (o.fdget fd) body st

-- The hook, and the operation if it is let.
unfoldable pub permitted : Outside → Op → ℤ → State → ℤ × State
permitted o op arg st =
    let err = o.security (hook_of op) in
    let st' : State = record st { log = asked (hook_of op) ∷ st.log } in
    if eqb_ℤ err (pos 0)
    then (o.op op arg, record st' { log = called op arg ∷ st'.log })
    else (err, st')

-- An address has at most 128 bytes.
unfoldable pub move_addr_to_kernel : Outside → (ulen : ℤ) → ℤ
move_addr_to_kernel o ulen =
    if ltb_ℤ ulen (pos 0) || ltb_ℤ (pos 128) ulen
    then neg einval
    else if eqb_ℤ ulen (pos 0)
    then pos 0
    else if o.copy_from_user
    then o.audit_sockaddr
    else neg efault

unfoldable pub move_addr_to_user : Outside → (klen : ℤ) → ℤ
move_addr_to_user o klen =
    let (err, ulen) = o.get_user in
    let len : ℤ = if ltb_ℤ klen ulen then klen else ulen in
    if not (eqb_ℤ err (pos 0))
    then err
    else if ltb_ℤ len (pos 0)
    then neg einval
    else if not (eqb_ℤ len (pos 0)) && not (eqb_ℤ o.audit_sockaddr (pos 0))
    then neg enomem
    else if not (eqb_ℤ len (pos 0)) && not o.copy_to_user
    then neg efault
    else o.put_user

unfoldable pub sys_bind : Outside → (fd addrlen : ℤ) → State → ℤ × State
sys_bind o fd addrlen = with_socket o fd (λ st.
    let err = move_addr_to_kernel o addrlen in
    if eqb_ℤ err (pos 0) then permitted o bind addrlen st else (err, st))

-- A backlog is compared without its sign.
abbrev pub bounded : Outside → ℤ → ℤ
bounded o (pos n) = if ltb o.somaxconn n then pos o.somaxconn else pos n
bounded o (negsuc n) = if ltb o.somaxconn (2 ^ 32 - 1 - n) then pos o.somaxconn else negsuc n

unfoldable pub sys_listen : Outside → (fd backlog : ℤ) → State → ℤ × State
sys_listen o fd backlog = with_socket o fd (permitted o listen (bounded o backlog))

-- `__sys_connect_file` on a file that is a socket or not.
abbrev connect_file : Outside → (is_socket : Bool) → (addrlen : ℤ) → State → ℤ × State
connect_file o is_socket addrlen st =
    if is_socket then permitted o connect addrlen st else (neg enotsock, st)

abbrev connect_on : Outside → Option Bool → (addrlen : ℤ) → State → ℤ × State
connect_on o none addrlen st = (neg ebadf, st)
connect_on o (some is_socket) addrlen st =
    let err = move_addr_to_kernel o addrlen in
    and_put o.shared (
      if eqb_ℤ err (pos 0)
      then connect_file o is_socket addrlen (get_file o st)
      else (err, get_file o st))

-- The address is copied before the file is known to be a socket.
unfoldable pub sys_connect : Outside → (fd addrlen : ℤ) → State → ℤ × State
sys_connect o fd addrlen st = connect_on o (o.fdget fd) addrlen st

-- The answer of `getname` is a length.
abbrev then_to_user : Outside → ℤ × State → ℤ × State
then_to_user o (err, st) = if ltb_ℤ err (pos 0) then (err, st) else (move_addr_to_user o err, st)

abbrev name_of : Outside → Op → State → ℤ × State
name_of o op st =
    if eqb_ℤ (o.security op) (pos 0)
    then then_to_user o (permitted o op (pos 0) st)
    else permitted o op (pos 0) st

unfoldable pub sys_getsockname : Outside → (fd : ℤ) → State → ℤ × State
sys_getsockname o fd = with_socket o fd (name_of o getsockname)

unfoldable pub sys_getpeername : Outside → (fd : ℤ) → State → ℤ × State
sys_getpeername o fd = with_socket o fd (name_of o getpeername)

-- `addr` is the length of an address, if there is one.
abbrev send_to : Outside → Option ℤ → State → ℤ × State
send_to o none st = permitted o sendmsg (pos 0) st
send_to o (some addr_len) st =
    let err = move_addr_to_kernel o addr_len in
    if ltb_ℤ err (pos 0) then (err, st) else permitted o sendmsg addr_len st

unfoldable pub sys_sendto : Outside → (fd : ℤ) → (addr : Option ℤ) → State → ℤ × State
sys_sendto o fd addr st =
    if eqb_ℤ o.import_single_range (pos 0)
    then with_socket o fd (send_to o addr) st
    else (o.import_single_range, st)

-- The sender's address goes to the user, where one is wanted and something was received.
abbrev from_whom : Outside → (wants_addr : Bool) → ℤ × State → ℤ × State
from_whom o wants_addr (err, st) =
    let err2 = move_addr_to_user o o.msg_namelen in
    if not (ltb_ℤ err (pos 0)) && wants_addr && ltb_ℤ err2 (pos 0) then (err2, st) else (err, st)

unfoldable pub sys_recvfrom : Outside → (fd : ℤ) → (wants_addr : Bool) → State → ℤ × State
sys_recvfrom o fd wants_addr st =
    if eqb_ℤ o.import_single_range (pos 0)
    then with_socket o fd (λ v. from_whom o wants_addr (permitted o recvmsg (pos 0) v)) st
    else (o.import_single_range, st)

unfoldable pub sys_shutdown : Outside → (fd how : ℤ) → State → ℤ × State
sys_shutdown o fd how = with_socket o fd (permitted o shutdown how)

abbrev pub ask : Op → State → State
ask op st = record st { log = asked op ∷ st.log }

abbrev call : Outside → Op → ℤ → State → ℤ × State
call o op arg st = (o.op op arg, record st { log = called op arg ∷ st.log })

-- What the BPF program of the group gives, if it is run: an error, and the level and the length of the option
-- from there on.
abbrev pub after_program : Outside → (level optlen : ℤ) → ℤ × ℤ × ℤ
after_program o level optlen =
    if o.in_compat_syscall
    then (pos 0, level, optlen)
    else let (err, level', optlen') = o.bpf_setsockopt level optlen in (err, level', pos optlen')

-- With the answer of the program. SOL_SOCKET is 1.
abbrev pub set_after : Outside → ℤ × ℤ × ℤ → State → ℤ × State
set_after o (bpf, level, optlen) st =
    if ltb_ℤ bpf (pos 0)
    then (bpf, st)
    else if ltb_ℤ (pos 0) bpf
    then (pos 0, st)
    else if eqb_ℤ level (pos 1) && not o.use_custom_sol_socket
    then call o sock_setsockopt optlen st
    else if not o.has_setsockopt
    then (neg eopnotsupp, st)
    else call o setsockopt optlen st

abbrev set_on : Outside → (level optlen : ℤ) → State → ℤ × State
set_on o level optlen st =
    let err = o.security setsockopt in
    if not (eqb_ℤ err (pos 0))
    then (err, ask setsockopt st)
    else set_after o (after_program o level optlen) (ask setsockopt st)

unfoldable pub sys_setsockopt : Outside → (fd level optlen : ℤ) → State → ℤ × State
sys_setsockopt o fd level optlen st =
    if ltb_ℤ optlen (pos 0) then (neg einval, st) else with_socket o fd (set_on o level optlen) st

abbrev after_bpf : Outside → ℤ × State → ℤ × State
after_bpf o (err, st) = (if o.in_compat_syscall then err else o.bpf_getsockopt err, st)

abbrev get_on : Outside → (level : ℤ) → State → ℤ × State
get_on o level st =
    let err = o.security getsockopt in
    if not (eqb_ℤ err (pos 0))
    then (err, ask getsockopt st)
    else after_bpf o (
        if eqb_ℤ level (pos 1)
        then call o sock_getsockopt (pos 0) (ask getsockopt st)
        else if not o.has_getsockopt
        then (neg eopnotsupp, ask getsockopt st)
        else call o getsockopt (pos 0) (ask getsockopt st))

unfoldable pub sys_getsockopt : Outside → (fd level : ℤ) → State → ℤ × State
sys_getsockopt o fd level = with_socket o fd (get_on o level)
