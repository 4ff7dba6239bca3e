-- ===== src/Fork/Copy.antt =====
-- `copy_process` (kernel/fork.c), from the first check to the return, with the functions that copy or
-- share a part of the calling task.
mod Stages
mod Parts
mod SetUp
pub mod Outcome
mod Tests
use oshm.Prelude.{
  ℕ, ◌+◌, Bool, true, false, not, ◌&&◌, ◌||◌, Option, none, some, ◌∷◌, if◌then◌else◌, ℤ, pos, neg,
  eqb_ℤ, ltb_ℤ, einval, enomem, eagain, eintr, erestartnointr,
}
use oshm.Fork.Clone
use oshm.Fork.{
  has, Answers, Origin, shared, fresh, Child, Resource, Held, release, Copying, Result, failed, ok,
  ◌>>◌, task_struct, creds, nproc, delays, mempolicy, perf, audit, security, semundo, files, fs,
  sighand, signal, mm, namespaces, io_context, thread, pid, pidfd, pidfile, cgroup, tasklist_lock,
  siglock,
}
use oshm.Fork.Flags.{refuses}
use oshm.Fork.Labels.{
  bad_fork_free, bad_fork_cleanup_count, bad_fork_cleanup_threadgroup_lock, bad_fork_cleanup_policy,
  bad_fork_cleanup_perf, bad_fork_cleanup_audit, bad_fork_cleanup_security,
  bad_fork_cleanup_semundo, bad_fork_cleanup_files, bad_fork_cleanup_fs, bad_fork_cleanup_sighand,
  bad_fork_cleanup_signal, bad_fork_cleanup_mm, bad_fork_cleanup_namespaces, bad_fork_cleanup_io,
  bad_fork_cleanup_thread, bad_fork_free_pid, bad_fork_put_pidfd, bad_fork_cancel_cgroup,
}

abbrev take : Resource → Copying → Copying
take r s = record s { held = r ∷ s.held }

abbrev give : Resource → Copying → Copying
give r s = record s { held = release r s.held }

-- `goto label` with `retval`. Every label ends in `fork_out`.
abbrev undo : (Child → Held → Held) → ℤ → Copying → Result
undo label e s = failed e (record s { held = label s.p s.held; linked = false })

-- A call that takes `r`, or whose error goes to the label: any number but 0, or a number below 0.
pub try : ℤ → (Child → Held → Held) → Resource → Copying → Result
try e label r s = if not (eqb_ℤ e (pos 0)) then undo label e s else ok (take r s)

pub try_below : ℤ → (Child → Held → Held) → Resource → Copying → Result
try_below e label r s = if ltb_ℤ e (pos 0) then undo label e s else ok (take r s)

-- A function that copies a part, with the error number that it returns.
pub checked : (Copying → ℤ × Copying) → (Child → Held → Held) → Copying → Result
checked f label s = let (e, t) = f s in if not (eqb_ℤ e (pos 0)) then undo label e t else ok t

module _ (a : Answers) (flags : ℕ) where
  copy_files : Copying → ℤ × Copying
  copy_files s =
      if not a.has_files
      then (pos 0, record s { p = record s.p { files = none } })
      else if has flags Clone.files
      then (pos 0, take files (record s { p = record s.p { files = some shared } }))
      else if ltb_ℤ a.dup_fd (pos 0)
      then (a.dup_fd, s)
      else (pos 0, take files (record s { p = record s.p { files = some fresh } }))

  copy_fs : Copying → ℤ × Copying
  copy_fs s =
      if has flags Clone.fs
      then if a.fs_in_exec
        then (neg eagain, s)
        else (pos 0, take fs (record s { p = record s.p { fs = some shared } }))
      else if not a.copy_fs_struct
      then (neg enomem, s)
      else (pos 0, take fs (record s { p = record s.p { fs = some fresh } }))

  copy_sighand : Copying → ℤ × Copying
  copy_sighand s =
      if has flags Clone.sighand
      then (pos 0, take sighand (record s { p = record s.p { sighand = some shared } }))
      else if not a.alloc_sighand
      then (neg enomem, s)
      else (pos 0, take sighand (record s { p = record s.p { sighand = some fresh } }))

  -- A thread holds no reference of its own here.
  copy_signal : Copying → ℤ × Copying
  copy_signal s =
      if has flags Clone.thread
      then (pos 0, record s { p = record s.p { signal = some shared } })
      else if not a.alloc_signal
      then (neg enomem, s)
      else (pos 0, take signal (record s { p = record s.p { signal = some fresh } }))

  -- `mm_init` frees what it could not initialise.
  dup_mm : Copying → Bool × Copying
  dup_mm s =
      if not a.allocate_mm
      then (false, s)
      else let t = take mm s in
        if not a.mm_init
        then (false, give mm t)
        else if not (eqb_ℤ a.dup_mmap (pos 0))
        then (false, give mm t)
        else if a.has_binfmt && not a.try_module_get
        then (false, give mm t)
        else (true, t)

  copy_mm : Copying → ℤ × Copying
  unfolding dup_mm
  copy_mm s =
      if not a.has_mm
      then (pos 0, record s { p = record s.p { mm = none } })
      else if has flags Clone.vm
      then (pos 0, take mm (record s { p = record s.p { mm = some shared } }))
      else let (got, t) = dup_mm s in
        if not got
        then (neg enomem, record t { p = record t.p { mm = none } })
        else (pos 0, record t { p = record t.p { mm = some fresh } })

  copy_io : Copying → ℤ × Copying
  copy_io s =
      if not a.has_io_context
      then (pos 0, record s { p = record s.p { io_context = none } })
      else if has flags Clone.io
      then (pos 0, take io_context (record s { p = record s.p { io_context = some shared } }))
      else if not a.ioprio_valid
      then (pos 0, record s { p = record s.p { io_context = none } })
      else if not a.get_task_io_context
      then (neg enomem, record s { p = record s.p { io_context = none } })
      else (pos 0, take io_context (record s { p = record s.p { io_context = some fresh } }))

module _ (a : Answers) (flags : ℕ) (idle : Bool) where
  dup_task : Copying → Result
  dup_task s =
      if a.task_sigpending
      then undo (λ p h. h) (neg erestartnointr) s
      else if not a.dup_task_struct
      then undo (λ p h. h) (neg enomem) s
      else ok (take task_struct s)

  take_creds : Copying → Result
  take_creds s =
      if ltb_ℤ a.copy_creds (pos 0)
      then undo (bad_fork_free flags idle) a.copy_creds s
      else ok (take nproc (take creds s))

  check_limits : Copying → Result
  check_limits s =
      if a.is_ucounts_overlimit
        && (not a.init_user && not a.cap_sys_resource && not a.cap_sys_admin)
      then undo (bad_fork_cleanup_count flags idle) (neg eagain) s
      else if a.too_many_threads
      then undo (bad_fork_cleanup_count flags idle) (neg eagain) s
      else ok (take delays s)

  assign_cpu : Copying → Result
  assign_cpu s =
      if not (eqb_ℤ a.sched_fork (pos 0))
      then undo (bad_fork_cleanup_policy flags idle) a.sched_fork s
      else ok s

  pub number_task : Copying → Result
  number_task s =
      if idle
      then ok s
      else if ltb_ℤ a.alloc_pid (pos 0)
      then undo (bad_fork_cleanup_thread flags idle) a.alloc_pid s
      else ok (take pid s)

  pub open_pidfd : Copying → Result
  open_pidfd s =
      if not (has flags Clone.pidfd)
      then ok s
      else if ltb_ℤ a.get_unused_fd (pos 0)
      then undo (bad_fork_free_pid flags idle) a.get_unused_fd s
      else if ltb_ℤ a.anon_inode_getfile (pos 0)
      then undo (bad_fork_free_pid flags idle) a.anon_inode_getfile (give pidfd (take pidfd s))
      else let t = take pidfile (take pidfd s) in
        if not (eqb_ℤ a.put_user (pos 0))
        then undo (bad_fork_put_pidfd flags idle) a.put_user t
        else ok t

  -- The store of a process; the return jumps to no label.
  pub give_store : Copying → Result
  give_store s =
      if has flags Clone.thread
      then ok (record s { p = record s.p { kv_store = some shared } })
      else let arrays = (if a.kmalloc_store then 1 else 0) + (if a.kmalloc_lock then 1 else 0) in
        if not a.kmalloc_store || not a.kmalloc_lock
        then failed (neg enomem) (record s { stores = s.stores + arrays })
        else ok (record s { p = record s.p { kv_store = some fresh }; stores = s.stores + arrays })

  -- At the end the locks and the pins of the groups are given back, and the node leaves the list.
  pub publish : Copying → Result
  publish s =
      if not (eqb_ℤ a.cgroup_can_fork (pos 0))
      then undo (bad_fork_put_pidfd flags idle) a.cgroup_can_fork s
      else let t = take siglock (take tasklist_lock (take cgroup s)) in
        if not a.pid_ns_adding
        then undo (bad_fork_cancel_cgroup flags idle) (neg enomem) t
        else if a.fatal_signal_pending
        then undo (bad_fork_cancel_cgroup flags idle) (neg eintr) t
        else ok (record (give cgroup (give tasklist_lock (give siglock t))) { linked = false })

  -- The calls that take what every task has.
  pub set_up : Copying → Result
  set_up =
      dup_task
      >> take_creds
      >> check_limits
      >> try_below a.mpol_dup (bad_fork_cleanup_threadgroup_lock flags idle) mempolicy
      >> assign_cpu
      >> try a.perf_event_init_task (bad_fork_cleanup_policy flags idle) perf
      >> try a.audit_alloc (bad_fork_cleanup_perf flags idle) audit
      >> try a.security_task_alloc (bad_fork_cleanup_audit flags idle) security
      >> try a.copy_semundo (bad_fork_cleanup_security flags idle) semundo

  -- The calls that copy or share a part of the caller.
  pub copy_parts : Copying → Result
  copy_parts =
      checked (copy_files a flags) (bad_fork_cleanup_semundo flags idle)
      >> checked (copy_fs a flags) (bad_fork_cleanup_files flags idle)
      >> checked (copy_sighand a flags) (bad_fork_cleanup_fs flags idle)
      >> checked (copy_signal a flags) (bad_fork_cleanup_sighand flags idle)
      >> checked (copy_mm a flags) (bad_fork_cleanup_signal flags idle)
      >> try a.copy_namespaces (bad_fork_cleanup_mm flags idle) namespaces
      >> checked (copy_io a flags) (bad_fork_cleanup_namespaces flags idle)
      >> try a.copy_thread (bad_fork_cleanup_io flags idle) thread

  pub until_store : Copying → Result
  until_store = set_up >> copy_parts >> number_task >> open_pidfd

  unfoldable pub copy_process : Copying → Result
  copy_process s =
      if refuses a flags
      then failed (neg einval) s
      else (until_store >> give_store >> publish)
          (record s { linked = not (has flags Clone.thread) })
