-- ===== src/Fork/Tests.antt =====
-- Calls of clone, vfork and unshare at small states, and the theorems there.
use oshm.Prelude.{
  ℕ, ◌+◌, ◌≤◌, ◌≡◌, ◌⊎◌, refl, Bool, true, if◌then◌else◌, pos, neg, inr, arith, ◌==◌, ltb, enospc,
}
use oshm.Fork.Args.{KernelCloneArgs, CloneArgs, clone_args, vfork_args, clone3_args}
use oshm.Fork.Args.Laws.{clone3_args-eq-clone}
use oshm.Fork.Vfork.{
  Vfork, init_vfork, mm_release, complete_vfork_done, leave_vfork, release, complete, kill, unlink,
  Run, here, next, leaving,
}
use oshm.Fork.Vfork.Progress.{IsSafe, IsOver, GoesOn, vfork-IsSafe, vfork-ends}
use oshm.Fork.Unshare
use oshm.Fork.Unshare.{ksys_unshare, closed_flags}
use oshm.Fork.Unshare.Laws.{Undone, ksys_unshare-Undone}

vfork_is_clone : clone_args 0x4111 0 0 0 0 ≡ vfork_args
unfolding clone_args vfork_args
vfork_is_clone = refl

abbrev user_args : CloneArgs
user_args = record {
  flags = 0x100;
  pidfd = 0;
  child_tid = 0;
  parent_tid = 0;
  exit_signal = 17;
  stack = 0;
  stack_size = 0;
  tls = 0;
  set_tid = 0;
  set_tid_size = 0;
  cgroup = 0;
}

abbrev any_access : ℕ → ℕ → Bool
any_access a n = true

abbrev kernel_args : KernelCloneArgs
kernel_args = record {
  flags = 0x100;
  pidfd = 0;
  child_tid = 0;
  parent_tid = 0;
  exit_signal = 17;
  stack = 0;
  stack_size = 0;
  tls = 0;
  set_tid_size = 0;
  cgroup = 0;
}

user_args_pass : clone3_args any_access 88 (pos 0) true user_args ≡ inr kernel_args
unfolding clone3_args
user_args_pass = refl

clone3_args-eq-clone_example : clone_args (0x100 + 17) 0 0 0 0 ≡ kernel_args
clone3_args-eq-clone_example =
    clone3_args-eq-clone any_access 88 (pos 0) true user_args user_args_pass (omega arith) refl refl
      refl refl refl

-- A caller that is killed while it waits, and a child that lets go later.
-- The child has seen the pointer before the caller, killed, takes it away.
abbrev killed_state : Vfork
killed_state = leave_vfork true (record (mm_release (init_vfork 1)) { parent = leaving })

killed_run : Run (init_vfork 1) 4 (complete_vfork_done killed_state)
unfolding init_vfork leave_vfork mm_release
killed_run =
    next (next (next (next here (release refl refl)) (kill refl refl)) (unlink refl))
      (complete refl refl)

vfork-IsSafe_example : IsSafe 1 (complete_vfork_done killed_state)
vfork-IsSafe_example = vfork-IsSafe 1 killed_run

-- The child has ended, and nobody has woken the caller yet.
abbrev woken_run : Run (init_vfork 1) 2 (complete_vfork_done (mm_release (init_vfork 1)))
unfolding init_vfork mm_release
woken_run = next (next here (release refl refl)) (complete refl refl)

vfork-ends_example :
    (2 ≤ 4)
    × (GoesOn (complete_vfork_done (mm_release (init_vfork 1)))
        ⊎ IsOver 1 (complete_vfork_done (mm_release (init_vfork 1))))
vfork-ends_example = vfork-ends 1 woken_run

-- The user's namespaces may not be taken, after new ones are made.
abbrev refusing : Unshare.Answers
refusing = record {
  thread_group_empty = true;
  sighand_count = 1;
  current_is_single_threaded = true;
  copy_fs_struct = true;
  dup_fd = pos 0;
  unshare_userns = pos 0;
  nsproxy_namespaces = pos 0;
  set_cred_ucounts = neg enospc;
}

abbrev task : Unshare.Task
task = record {
  fs = 1;
  files = 2;
  cred = 3;
  nsproxy = 4;
  count = λ x. if x == 0 then 0 else if ltb x 5 then 2 else 0;
  next = 5;
  sem_undo = true;
  shm = true;
}

-- CLONE_NEWUSER and CLONE_NEWNET: the object 7 is the new nsproxy.
loses_nsproxy : (ksys_unshare refusing 0x50000000 task).1.count 7 ≡ 1
unfolding ksys_unshare Unshare.unknown_flag
loses_nsproxy = refl

nothing_at : (x : ℕ) → task.next ≤ x → task.count x ≡ 0
nothing_at x h = ground arith

ksys_unshare-Undone_example :
    Undone refusing (closed_flags 0x50000000) task (ksys_unshare refusing 0x50000000 task)
ksys_unshare-Undone_example = ksys_unshare-Undone refusing 0x50000000 task nothing_at
