-- ===== src/SocketAttrs/Tests.antt =====
-- The system call at a small process table.
use oshm.Prelude.{
  ℕ, ◌≡◌, refl, true, false, Option, none, some, arith, ◌==◌, if◌then◌else◌, ℤ, pos, neg, negsuc,
  eperm, esrch, einval,
}
use oshm.Task.{TaskStruct, IsInRange}
use oshm.SocketAttrs.{World, may_set, check_and_set, set_thread_socket_attrs}
use oshm.SocketAttrs.Laws.{target, reply, attrs_after, set_thread_socket_attrs_lem}

abbrev task_of : ℕ → TaskStruct
task_of uid = record {
  max_socket_allowed = pos 0;
  socket_count = pos 0;
  priority_level = pos 0;
  euid = uid;
  uid = uid;
  usage = 1;
}

-- Task 1 calls; tasks 1 and 2 are of user 1000, task 3 is of root.
abbrev world : World
world = record { tasks = λ a. if a == 3 then task_of 0 else task_of 1000; current = 1; rcu = 0 }

abbrev find : ℤ → Option ℕ
find (pos n) = if n == 20 then some 2 else if n == 30 then some 3 else none
find (negsuc n) = none

replies :
    ((set_thread_socket_attrs find false (pos 20) (pos 4) (pos 7) 0 world).0 ≡ pos 0)
    × ((set_thread_socket_attrs find false (pos 30) (pos 4) (pos 7) 0 world).0 ≡ neg eperm)
    × ((set_thread_socket_attrs find true (pos 30) (pos 4) (pos 7) 0 world).0 ≡ pos 0)
    × ((set_thread_socket_attrs find true (pos 31) (pos 4) (pos 7) 0 world).0 ≡ neg esrch)
    × ((set_thread_socket_attrs find true (pos 0) (pos 4) (pos 7) 1 world).0 ≡ neg einval)
unfolding set_thread_socket_attrs check_and_set may_set
replies = (refl, refl, refl, refl, refl)

set_thread_socket_attrs_lem_example :
    ((set_thread_socket_attrs find false (pos 20) (pos 4) (pos 7) 0 world).0
      ≡ (if 0 == 0 then reply false world (target find world (pos 20)) else neg einval))
    × ((b : ℕ)
        → (set_thread_socket_attrs find false (pos 20) (pos 4) (pos 7) 0 world).1.tasks b ≡ (
            if 0 == 0
            then attrs_after false world (target find world (pos 20)) (pos 4) (pos 7) b
            else world.tasks b))
    × ((set_thread_socket_attrs find false (pos 20) (pos 4) (pos 7) 0 world).1.rcu ≡ 0)
set_thread_socket_attrs_lem_example =
    set_thread_socket_attrs_lem find false (pos 20) (pos 4) (pos 7) 0 world

world-IsInRange : (b : ℕ) → IsInRange (world.tasks b)
world-IsInRange b = ground arith
