-- ===== src/SocketAttrs.antt =====
-- kernel/set_thread_socket_attrs.c: the system call that sets a task's socket limit and priority.
pub mod Laws
mod Tests
use oshm.Prelude.{
  ℕ, ◌+◌, ◌-◌, Bool, true, false, not, ◌&&◌, Option, none, some, ◌==◌, if◌then◌else◌, update, ℤ,
  pos, neg, eqb_ℤ, leb_ℤ, eperm, esrch, einval,
}
use oshm.Task.{TaskStruct}

-- All tasks by address, the calling one, and how many RCU read locks it holds.
pub record World : Type 0 where
  pub tasks : ℕ → TaskStruct
  pub current : ℕ
  pub rcu : ℕ

abbrev pub rcu_read_lock : World → World
rcu_read_lock w = record w { rcu = w.rcu + 1 }

abbrev pub rcu_read_unlock : World → World
rcu_read_unlock w = record w { rcu = w.rcu - 1 }

abbrev pub modify : ℕ → (TaskStruct → TaskStruct) → World → World
modify a f w = record w { tasks = update w.tasks a (f (w.tasks a)) }

abbrev pub get_task_struct : ℕ → World → World
get_task_struct a = modify a (λ t. record t { usage = t.usage + 1 })

abbrev put_task_struct : ℕ → World → World
put_task_struct a = modify a (λ t. record t { usage = t.usage - 1 })

-- `capable` is `capable(CAP_SYS_RESOURCE)` of the calling task.
unfoldable pub may_set : Bool → World → ℕ → Bool
may_set capable w a = not (
    not capable
    && not ((w.tasks w.current).euid == (w.tasks a).euid)
    && not ((w.tasks w.current).euid == (w.tasks a).uid))

-- A value out of range leaves the attribute as it is.
unfoldable pub set_attrs : ℤ → ℤ → TaskStruct → TaskStruct
set_attrs max_sockets priority_level t = record t {
  max_socket_allowed = if leb_ℤ (neg 1) max_sockets then max_sockets else t.max_socket_allowed;
  priority_level =
      if leb_ℤ (pos 0) priority_level && leb_ℤ priority_level (pos 100)
      then priority_level
      else t.priority_level;
}

-- From the permission check to the label `out` and the return.
unfoldable pub check_and_set : Bool → ℕ → ℤ → ℤ → World → ℤ × World
check_and_set capable a max_sockets priority_level w =
    if may_set capable w a
    then (pos 0, modify a (set_attrs max_sockets priority_level) w)
    else (neg eperm, w)

-- `put_task_struct` at `out`, where the task was looked up.
abbrev and_put : ℕ → ℤ × World → ℤ × World
and_put a (r, w) = (r, put_task_struct a w)

abbrev pub on_found : Option ℕ → Bool → ℤ → ℤ → World → ℤ × World
on_found none capable max_sockets priority_level w = (neg esrch, rcu_read_unlock w)
on_found (some a) capable max_sockets priority_level w =
    and_put a
      (check_and_set capable a max_sockets priority_level (rcu_read_unlock (get_task_struct a w)))

-- `find_task_by_vpid` looks a process number up in the caller's namespace.
unfoldable pub set_thread_socket_attrs :
    (find_task_by_vpid : ℤ → Option ℕ) (capable : Bool) → ℤ → ℤ → ℤ → ℕ → World → ℤ × World
set_thread_socket_attrs find_task_by_vpid capable pid max_sockets priority_level flags w =
    if not (flags == 0)
    then (neg einval, w)
    else if eqb_ℤ pid (pos 0)
    then check_and_set capable w.current max_sockets priority_level w
    else on_found (find_task_by_vpid pid) capable max_sockets priority_level (rcu_read_lock w)
