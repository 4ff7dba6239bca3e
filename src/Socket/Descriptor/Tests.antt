-- ===== src/Socket/Descriptor/Tests.antt =====
-- A concrete call of connect.
use oshm.Prelude.{◌≡◌, refl, true, false, none, some, [], ◌∷◌, pos, neg, ltb_ℤ, if◌then◌else◌}
use oshm.Socket.Descriptor.{
  connect, asked, called, State, Outside, sys_connect, permitted, move_addr_to_kernel,
}
use oshm.Socket.Descriptor.Bodies.{IsOrderly}
use oshm.Socket.Descriptor.Orderly.{run, connect_call, run-IsOrderly}

abbrev outside : Outside
outside = record {
  fdget = λ fd. if ltb_ℤ fd (pos 3) then none else some true;
  shared = true;
  copy_from_user = true;
  copy_to_user = true;
  audit_sockaddr = pos 0;
  get_user = (pos 0, pos 16);
  put_user = pos 0;
  import_single_range = pos 0;
  somaxconn = 4096;
  security = λ op. pos 0;
  op = λ op n. neg 115;
  msg_namelen = pos 16;
  in_compat_syscall = false;
  bpf_setsockopt = λ level optlen. (pos 0, level, 4);
  bpf_getsockopt = λ e. e;
  use_custom_sol_socket = false;
  has_setsockopt = true;
  has_getsockopt = true;
}

abbrev start : State
start = record { refs = 0; log = [] }

-- The protocol says -EINPROGRESS.
connects :
    run outside (connect_call (pos 4) (pos 16)) start
    ≡ (neg 115, record { refs = 0; log = called connect (pos 16) ∷ asked connect ∷ [] })
unfolding sys_connect permitted move_addr_to_kernel
connects = refl

run-IsOrderly_example : IsOrderly outside start (run outside (connect_call (pos 4) (pos 16)) start)
run-IsOrderly_example = run-IsOrderly outside (connect_call (pos 4) (pos 16)) start
