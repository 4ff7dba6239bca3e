-- ===== src/Socket/Tests.antt =====
-- Sockets made, refused and released at small states, and the theorems there.
use oshm.Prelude.{ℕ, ◌+◌, ◌≤◌, ◌≡◌, refl, true, false, List, [], ◌∷◌, arith, ℤ, pos, neg, emfile}
use oshm.Task.{TaskStruct, incr_int}
use oshm.Socket.{Outside, Socket, Net, sock_release, sock_create, sock_create_in, sock_create_kern}
use oshm.Socket.Balance.{Settled, sock_create_in-Outcome}
use oshm.Socket.Quota.{Event, accept, make, release, live, limit_is_for_life}
use oshm.Socket.Pair.{PairAnswers, sys_socketpair}
use oshm.Socket.Pair.Outcome.{PairedOrNone, sys_socketpair-PairedOrNone}
use oshm.Socket.Calls.{
  Files, Sys, Accepting, Accepted, sys_socket, do_accept, do_accept-Accepted,
  sys_socket-no_descriptor,
}

-- Everything outside works.
abbrev outside : Outside
outside = record {
  nproto = pos 46;
  sock_max = pos 11;
  pf_inet = pos 2;
  pf_packet = pos 17;
  sock_packet = pos 10;
  security_socket_create = λ f t p k. pos 0;
  new_inode = true;
  net_families = λ f. true;
  try_module_get = λ f. true;
  create = λ f p k. pos 0;
  try_module_get_owner = λ f. true;
  security_socket_post_create = λ f t p k. pos 0;
}

abbrev task_with : ℕ → ℕ → TaskStruct
task_with limit count = record {
  max_socket_allowed = pos limit;
  socket_count = pos count;
  priority_level = pos 0;
  euid = 0;
  uid = 0;
  usage = 1;
}

abbrev net_with : TaskStruct → Net
net_with t = record { task = t; inodes = 0; sks = 0; families = 0; owners = 0; rcu = 0 }

abbrev made_socket : Socket
made_socket = record { type = pos 1; ops = true; sk = true; file = false }

-- The second of two sockets is refused with limit 1, also after the first is released.
released_is_counted :
    (live
      (make outside (pos 2) (pos 1) (pos 0)
        ∷ release made_socket
        ∷ make outside (pos 2) (pos 1) (pos 0)
        ∷ [])
      (net_with (task_with 1 0))).0
    ≡ 1
unfolding live sock_create_in sock_release incr_int
released_is_counted = refl

kernel_is_not_limited :
    (sock_create_kern outside (pos 2) (pos 1) (pos 0) (net_with (task_with 1 1))).0 ≡ pos 0
unfolding sock_create_in
kernel_is_not_limited = refl

-- The module of the socket's operations is gone.
abbrev unloaded : Outside
unloaded = record outside { try_module_get_owner = λ f. false }

lost_protocol_socket :
    (sock_create_in unloaded (pos 2) (pos 1) (pos 0) false (net_with (task_with 3 1))).2.sks ≡ 1
unfolding sock_create_in
lost_protocol_socket = refl

sock_create_in-Outcome_example :
    Settled unloaded
      (pos 2)
      (pos 0)
      false
      (net_with (task_with 3 1))
      (sock_create_in unloaded (pos 2) (pos 1) (pos 0) false (net_with (task_with 3 1)))
sock_create_in-Outcome_example =
    sock_create_in-Outcome unloaded (pos 2) (pos 1) (pos 0) false (net_with (task_with 3 1))

-- The descriptor table is full.
abbrev full_table : Files
full_table = record {
  type_mask = 15;
  cloexec = 0x80000;
  nonblock = 0x800;
  o_nonblock = 0x800;
  get_unused_fd_flags = λ flags. neg emfile;
  alloc_file_pseudo = λ flags. pos 0;
}

abbrev accepts : Accepting
accepts = record {
  security_socket_accept = pos 0;
  accept = pos 0;
  wants_peer = true;
  getname = pos 16;
  move_addr_to_user = pos 0;
}

abbrev many : List Event
many =
    make outside (pos 2) (pos 1) (pos 0)
    ∷ release made_socket
    ∷ accept outside full_table accepts (pos 1) 0
    ∷ make outside (pos 2) (pos 1) (pos 0)
    ∷ []

limit_is_for_life_example : (live many (net_with (task_with 3 2))).0 + 2 ≤ 3
limit_is_for_life_example =
    limit_is_for_life many (net_with (task_with 3 2)) 3 2 (omega arith) (omega arith) refl refl
      (omega arith)

abbrev start : Sys
start = record { net = net_with (task_with 3 1); fds = 0 }

do_accept-Accepted_example :
    Accepted
      (net_with (task_with 1 1))
      (do_accept outside full_table accepts made_socket 0 (net_with (task_with 1 1)))
do_accept-Accepted_example =
    do_accept-Accepted outside full_table accepts made_socket 0 (net_with (task_with 1 1)) refl

-- The file layer works, and the second file of the pair fails if `err` is below 0.
abbrev pair_answers : ℤ → PairAnswers
pair_answers err = record {
  fd1 = pos 3;
  fd2 = pos 4;
  put1 = pos 0;
  put2 = pos 0;
  outside1 = outside;
  outside2 = outside;
  security_socketpair = pos 0;
  socketpair = pos 0;
  files1 = full_table;
  files2 = record full_table { alloc_file_pseudo = λ flags. err };
}

pair_is_counted :
    (sys_socketpair (pair_answers (pos 0)) (pos 1) 1 (pos 0) start).1.net.task.socket_count ≡ pos 3
unfolding sys_socketpair sock_create_in incr_int oshm.Socket.Calls.sock_alloc_file
pair_is_counted = refl

-- With the second file missing, nothing is left, and both sockets stay counted.
failed_pair_is_counted :
    (sys_socketpair (pair_answers (neg emfile)) (pos 1) 1 (pos 0) start).1.net.task.socket_count
    ≡ pos 3
unfolding sys_socketpair sock_create_in sock_release incr_int oshm.Socket.Calls.sock_alloc_file
failed_pair_is_counted = refl

sys_socketpair-PairedOrNone_example :
    PairedOrNone false start (sys_socketpair (pair_answers (neg emfile)) (pos 1) 1 (pos 0) start)
sys_socketpair-PairedOrNone_example =
    sys_socketpair-PairedOrNone (pair_answers (neg emfile)) (pos 1) 1 (pos 0) start
