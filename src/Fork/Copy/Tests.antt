-- ===== src/Fork/Copy/Tests.antt =====
-- Tasks made and refused at small states, and the theorems there.
use oshm.Prelude.{ℕ, ◌+◌, ◌≤◌, ◌≡◌, refl, true, false, none, some, [], ◌∷◌, pos, neg, enomem}
use oshm.Fork.{
  Answers, Child, Copying, failed, ok, shared, fresh, pid, thread, io_context, namespaces, mm,
  signal, sighand, fs, files, semundo, security, audit, perf, mempolicy, delays, nproc, creds,
  task_struct,
}
use oshm.Fork.Flags.{refuses}
use oshm.Fork.Labels.{bad_fork_put_pidfd}
use oshm.Fork.Copy.{
  copy_process, until_store, set_up, dup_task, take_creds, check_limits, assign_cpu, try, try_below,
  checked, copy_parts, copy_files, copy_fs, copy_sighand, copy_signal, copy_mm, copy_io,
  number_task, open_pidfd, give_store, publish,
}
use oshm.Fork.Copy.Outcome.{Outcome, copy_process-Outcome, copy_process-no_store}

-- Every call works.
abbrev works : Answers
works = record {
  signal_unkillable = false;
  same_pid_ns = true;
  same_time_ns = true;
  task_sigpending = false;
  dup_task_struct = true;
  copy_creds = pos 0;
  is_ucounts_overlimit = false;
  init_user = false;
  cap_sys_resource = false;
  cap_sys_admin = false;
  too_many_threads = false;
  mpol_dup = pos 0;
  sched_fork = pos 0;
  perf_event_init_task = pos 0;
  audit_alloc = pos 0;
  security_task_alloc = pos 0;
  copy_semundo = pos 0;
  has_files = true;
  dup_fd = pos 0;
  fs_in_exec = false;
  copy_fs_struct = true;
  alloc_sighand = true;
  alloc_signal = true;
  has_mm = true;
  allocate_mm = true;
  mm_init = true;
  dup_mmap = pos 0;
  has_binfmt = true;
  try_module_get = true;
  copy_namespaces = pos 0;
  has_io_context = true;
  ioprio_valid = true;
  get_task_io_context = true;
  copy_thread = pos 0;
  alloc_pid = pos 0;
  get_unused_fd = pos 3;
  anon_inode_getfile = pos 0;
  put_user = pos 0;
  kmalloc_store = true;
  kmalloc_lock = true;
  cgroup_can_fork = pos 0;
  pid_ns_adding = true;
  fatal_signal_pending = false;
}

abbrev no_child : Child
no_child = record {
  files = none;
  fs = none;
  sighand = none;
  signal = none;
  mm = none;
  io_context = none;
  kv_store = none;
}

abbrev start : Copying
start = record { p = no_child; held = []; linked = false; stores = 0 }

-- The flags of pthread_create, without the numbers: CLONE_VM, FS, FILES, SIGHAND, THREAD, SYSVSEM.
abbrev pthread : ℕ
pthread = 0x50f00

abbrev killed : Answers
killed = record works { fatal_signal_pending = true }

copy_process-Outcome_example : Outcome killed 0 false start (copy_process killed 0 false start)
copy_process-Outcome_example = copy_process-Outcome killed 0 false start refl

abbrev no_memory : Answers
no_memory = record works { kmalloc_lock = false }

-- All that a process holds just before its store is made.
abbrev at_store : Copying
at_store = record {
  p = record {
    files = some fresh;
    fs = some fresh;
    sighand = some fresh;
    signal = some fresh;
    mm = some fresh;
    io_context = some fresh;
    kv_store = none;
  };
  held =
      pid ∷ thread ∷ io_context ∷ namespaces ∷ mm ∷ signal ∷ sighand ∷ fs ∷ files ∷ semundo
      ∷ security ∷ audit ∷ perf ∷ mempolicy ∷ delays ∷ nproc ∷ creds ∷ task_struct ∷ [];
  linked = true;
  stores = 0;
}

reaches_store : until_store no_memory 0 false (record start { linked = true }) ≡ ok at_store
unfolding until_store set_up dup_task take_creds check_limits assign_cpu try try_below checked
    copy_parts copy_files copy_fs copy_sighand copy_signal copy_mm copy_io number_task open_pidfd
reaches_store = refl

copy_process-no_store_example :
    (n : ℕ) × (copy_process no_memory 0 false start
      ≡ failed (neg enomem) (record at_store { stores = n }))
    × (n ≤ 0 + 1)
    × (at_store.linked ≡ true)
    × (bad_fork_put_pidfd 0 false at_store.p at_store.held ≡ [])
unfolding refuses
copy_process-no_store_example =
    copy_process-no_store no_memory 0 false start refl refl reaches_store refl

abbrev thread_done : Copying
thread_done = record at_store {
  p = record {
    files = some shared;
    fs = some shared;
    sighand = some shared;
    signal = some shared;
    mm = some shared;
    io_context = some fresh;
    kv_store = some shared;
  };
  held =
      pid ∷ thread ∷ io_context ∷ namespaces ∷ mm ∷ sighand ∷ fs ∷ files ∷ semundo ∷ security
      ∷ audit ∷ perf ∷ mempolicy ∷ delays ∷ nproc ∷ creds ∷ task_struct ∷ [];
  linked = false;
}

makes_thread : copy_process works pthread false start ≡ ok thread_done
unfolding copy_process refuses until_store set_up dup_task take_creds check_limits assign_cpu try
    try_below checked copy_parts copy_files copy_fs copy_sighand copy_signal copy_mm copy_io
    number_task open_pidfd give_store publish
makes_thread = refl
