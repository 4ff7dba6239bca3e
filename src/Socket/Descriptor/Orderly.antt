-- ===== src/Socket/Descriptor/Orderly.antt =====
-- The calls on a descriptor (net/socket.c) give the file back and ask before they act.
use oshm.Prelude.{Bool, Option, ℤ, pos, eqb_ℤ, ltb_ℤ}
use oshm.Socket.Descriptor.{
  bind, listen, getsockname, getpeername, recvmsg, shutdown, State, Outside, move_addr_to_kernel,
  bounded, sys_bind, sys_listen, sys_connect, sys_getsockname, sys_getpeername, sys_sendto,
  sys_recvfrom, sys_shutdown, sys_setsockopt, sys_getsockopt,
}
use oshm.Socket.Descriptor.Bodies.{
  IsOrderly, unmoved, if-IsOrderly, permitted-IsOrderly, with_socket-IsOrderly, copied_zero,
  bounded-Fits, from_whom-IsOrderly, connect_on-IsOrderly, name_of-IsOrderly, send_to-IsOrderly,
  set_on-IsOrderly, get_on-IsOrderly,
}

-- The system calls on a descriptor, with their numbers.
pub data Call : Type 0 where
  bind_call : (fd addrlen : ℤ) → Call
  listen_call : (fd backlog : ℤ) → Call
  connect_call : (fd addrlen : ℤ) → Call
  getsockname_call : (fd : ℤ) → Call
  getpeername_call : (fd : ℤ) → Call
  sendto_call : (fd : ℤ) → (addr : Option ℤ) → Call
  recvfrom_call : (fd : ℤ) → (wants_addr : Bool) → Call
  shutdown_call : (fd how : ℤ) → Call
  setsockopt_call : (fd level optlen : ℤ) → Call
  getsockopt_call : (fd level : ℤ) → Call

abbrev pub run : Outside → Call → State → ℤ × State
run o (bind_call fd n) st = sys_bind o fd n st
run o (listen_call fd n) st = sys_listen o fd n st
run o (connect_call fd n) st = sys_connect o fd n st
run o (getsockname_call fd) st = sys_getsockname o fd st
run o (getpeername_call fd) st = sys_getpeername o fd st
run o (sendto_call fd addr) st = sys_sendto o fd addr st
run o (recvfrom_call fd wants) st = sys_recvfrom o fd wants st
run o (shutdown_call fd how) st = sys_shutdown o fd how st
run o (setsockopt_call fd level n) st = sys_setsockopt o fd level n st
run o (getsockopt_call fd level) st = sys_getsockopt o fd level st

-- Every call on a descriptor, whatever the answers are, gives the reference to the file back; it calls one
-- operation at most, directly after the hook for it has said yes, with a length of an address from 0 to
-- 128 and a backlog within the limit; and otherwise it asks one hook at most.
pub run-IsOrderly : (o : Outside) (c : Call) (st : State) → IsOrderly o st (run o c st)
unfolding sys_bind sys_listen sys_connect sys_getsockname sys_getpeername sys_sendto sys_recvfrom
    sys_shutdown sys_setsockopt sys_getsockopt
run-IsOrderly o (bind_call fd n) st = with_socket-IsOrderly o fd _ st (λ v.
    if-IsOrderly (eqb_ℤ (move_addr_to_kernel o n) (pos 0))
      (λ e. permitted-IsOrderly o bind n v (copied_zero o n e)) (λ _. unmoved o v _))
run-IsOrderly o (listen_call fd n) st =
    with_socket-IsOrderly o fd _ st
      (λ v. permitted-IsOrderly o listen (bounded o n) v (bounded-Fits o n))
run-IsOrderly o (connect_call fd n) st = connect_on-IsOrderly o (o.fdget fd) n st
run-IsOrderly o (getsockname_call fd) st =
    with_socket-IsOrderly o fd _ st (λ v. name_of-IsOrderly o getsockname v tt)
run-IsOrderly o (getpeername_call fd) st =
    with_socket-IsOrderly o fd _ st (λ v. name_of-IsOrderly o getpeername v tt)
run-IsOrderly o (sendto_call fd addr) st =
    if-IsOrderly (eqb_ℤ o.import_single_range (pos 0))
      (λ _. with_socket-IsOrderly o fd _ st (λ v. send_to-IsOrderly o addr v)) (λ _. unmoved o st _)
run-IsOrderly o (recvfrom_call fd wants) st =
    if-IsOrderly (eqb_ℤ o.import_single_range (pos 0))
      (λ _.
        with_socket-IsOrderly o fd _ st
          (λ v. from_whom-IsOrderly o v wants _ (permitted-IsOrderly o recvmsg (pos 0) v tt)))
      (λ _. unmoved o st _)
run-IsOrderly o (shutdown_call fd how) st =
    with_socket-IsOrderly o fd _ st (λ v. permitted-IsOrderly o shutdown how v tt)
run-IsOrderly o (setsockopt_call fd level n) st =
    if-IsOrderly (ltb_ℤ n (pos 0)) (λ _. unmoved o st _)
      (λ _. with_socket-IsOrderly o fd _ st (λ v. set_on-IsOrderly o level n v))
run-IsOrderly o (getsockopt_call fd level) st =
    with_socket-IsOrderly o fd _ st (λ v. get_on-IsOrderly o level v)
