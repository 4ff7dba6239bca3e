-- ===== src/Task.antt =====
-- The fields that the OShm patch adds to `struct task_struct` (include/linux/sched.h) for sockets, the
-- identity of a task, and the values that `copy_process` (kernel/fork.c) gives a new task.
use oshm.Prelude.{
  ℕ, ◌+◌, ◌-◌, ◌^◌, zero, suc, ◌==◌, if◌then◌else◌, ◌&&◌, ◌≡◌, ℤ, pos, neg, negsuc, leb_ℤ, true,
}

pub record TaskStruct : Type 0 where
  pub max_socket_allowed : ℤ
  pub socket_count : ℤ
  pub priority_level : ℤ
  pub euid : ℕ
  pub uid : ℕ
  pub usage : ℕ

-- The three assignments of `copy_process`; the other fields are those of the copy.
unfoldable pub init_socket_attrs : TaskStruct → TaskStruct
init_socket_attrs p = record p {
  max_socket_allowed = pos 0;
  socket_count = pos 0;
  priority_level = pos 0;
}

-- `n++` of an `int`, which wraps.
unfoldable pub incr_int : ℤ → ℤ
incr_int (pos n) = if n + 1 == 2 ^ 31 then negsuc (2 ^ 31 - 1) else pos (n + 1)
incr_int (negsuc zero) = pos 0
incr_int (negsuc (suc n)) = negsuc n

-- The ranges that the two settable attributes are meant to have.
pub record IsInRange (t : TaskStruct) : Type 0 where
  pub limit : leb_ℤ (neg 1) t.max_socket_allowed ≡ true
  pub priority : (leb_ℤ (pos 0) t.priority_level && leb_ℤ t.priority_level (pos 100)) ≡ true
