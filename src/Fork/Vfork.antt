-- ===== src/Fork/Vfork.antt =====
-- `kernel_clone` (kernel/fork.c), and how a vfork waits: the completion on the caller's stack, which the
-- child ends in `mm_release`, and which a fatal signal makes the caller leave.
pub mod Progress
use oshm.Prelude.{
  ℕ, ◌+◌, ◌-◌, ◌≡◌, Bool, true, false, not, ◌&&◌, Option, none, some, ◌==◌, if◌then◌else◌, ℤ, pos,
  neg, einval,
}
use oshm.Fork.Clone
use oshm.Fork.{has, Answers, Copying, Result, failed, ok}
use oshm.Fork.Args.{KernelCloneArgs}
use oshm.Fork.Copy.{copy_process}

-- The event for a tracer: PTRACE_EVENT_VFORK 2, PTRACE_EVENT_CLONE 3, PTRACE_EVENT_FORK 1, or 0.
unfoldable pub trace_event : (enabled : ℕ → Bool) → KernelCloneArgs → ℕ
trace_event enabled args =
    if has args.flags Clone.untraced
    then 0
    else let event : ℕ =
        if has args.flags Clone.vfork then 2 else if not (args.exit_signal == 17) then 3 else 1 in
      if enabled event then event else 0

-- What `kernel_clone` leaves: its reply, the state of the copy, the event, whether it writes the number
-- to the parent's memory, and whether it waits for the child.
pub record Cloned : Type 0 where
  pub reply : ℤ
  pub copying : Copying
  pub trace : ℕ
  pub tells_parent : Bool
  pub waits : Bool

abbrev cloned : (nr trace : ℕ) → KernelCloneArgs → Result → Cloned
cloned nr trace args (failed e s) = record {
  reply = e;
  copying = s;
  trace = 0;
  tells_parent = false;
  waits = false;
}
cloned nr trace args (ok s) = record {
  reply = pos nr;
  copying = s;
  trace = trace;
  tells_parent = has args.flags Clone.parent_settid;
  waits = has args.flags Clone.vfork;
}

-- `nr` is the number of the new task in the caller's namespace.
unfoldable pub kernel_clone :
    Answers → (enabled : ℕ → Bool) → (nr : ℕ) → KernelCloneArgs → Copying → Cloned
unfolding trace_event
kernel_clone a enabled nr args s =
    if has args.flags Clone.pidfd
      && has args.flags Clone.parent_settid
      && args.pidfd == args.parent_tid
    then cloned nr 0 args (failed (neg einval) s)
    else cloned nr (trace_event enabled args) args (copy_process a args.flags false s)

-- Where the caller stands: in the wait, after the wait with `killed` and before it has the child's lock,
-- or returned with `killed`, when the completion on its stack is gone.
pub data Parent : Type 0 where
  waiting : Parent
  leaving : Parent
  returned : (killed : Bool) → Parent

-- `vfork_done` says that the child still points to the completion; `looked`, that the child has seen this in
-- `mm_release` and goes on to take its lock; `usage` counts the references to the child's structure.
pub record Vfork : Type 0 where
  pub parent : Parent
  pub vfork_done : Bool
  pub looked : Bool
  pub completed : Bool
  pub released : Bool
  pub usage : ℕ

-- After `init_completion` and `get_task_struct`.
unfoldable pub init_vfork : (usage : ℕ) → Vfork
init_vfork usage = record {
  parent = waiting;
  vfork_done = true;
  looked = false;
  completed = false;
  released = false;
  usage = usage + 1;
}

-- Under the child's lock, where the pointer is read again; with it the child has given its memory back.
unfoldable pub complete_vfork_done : Vfork → Vfork
complete_vfork_done v =
    if v.vfork_done
    then record v { vfork_done = false; completed = true; released = true }
    else record v { released = true }

-- The child gives its memory back, by exit or by exec: it looks at the pointer without a lock, and is at its
-- end if there is none.
unfoldable pub mm_release : Vfork → Vfork
mm_release v = if v.vfork_done then record v { looked = true } else record v { released = true }

-- The end of `wait_for_vfork_done`.
unfoldable pub leave_vfork : (killed : Bool) → Vfork → Vfork
leave_vfork killed v = record v {
  parent = returned killed;
  vfork_done = if killed then false else v.vfork_done;
  usage = v.usage - 1;
}

-- The steps of the two tasks, in any order.
pub data Step (v : Vfork) : Vfork → Type 0 where
  release : v.released ≡ false → v.looked ≡ false → Step v (mm_release v)
  complete : v.released ≡ false → v.looked ≡ true → Step v (complete_vfork_done v)
  wake : v.parent ≡ waiting → v.completed ≡ true → Step v (leave_vfork false v)
  kill : v.parent ≡ waiting → v.completed ≡ false → Step v (record v { parent = leaving })
  unlink : v.parent ≡ leaving → Step v (leave_vfork true v)

pub data Run (v : Vfork) : ℕ → Vfork → Type 0 where
  here : Run v 0 v
  next : {n : ℕ} {u w : Vfork} → Run v n u → Step u w → Run v (n + 1) w
