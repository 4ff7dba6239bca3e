-- ===== src/Fork.antt =====
-- kernel/fork.c: how a task is copied. The flags of a call, what the copy takes from the rest of the
-- kernel, and what it holds while it is made.
pub mod Clone
pub mod Flags
pub mod Labels
pub mod Copy
pub mod Args
pub mod Vfork
pub mod Unshare
mod Tests
use oshm.Prelude.{
  ℕ, ◌/◌, ◌%◌, ◌^◌, Bool, true, false, Option, List, [], ◌∷◌, ◌==◌, if◌then◌else◌, ℤ,
}

-- `flags & (1 << k)`; the flags are the numbers k of include/uapi/linux/sched.h.
abbrev pub has : ℕ → ℕ → Bool
has flags k = (flags / 2 ^ k) % 2 == 1

-- What `copy_process` finds at the calling task and what the calls it makes answer: an error number
-- that is 0 if all is well, or whether memory is got.
pub record Answers : Type 0 where
  pub signal_unkillable : Bool
  pub same_pid_ns : Bool
  pub same_time_ns : Bool
  pub task_sigpending : Bool
  pub dup_task_struct : Bool
  pub copy_creds : ℤ
  pub is_ucounts_overlimit : Bool
  pub init_user : Bool
  pub cap_sys_resource : Bool
  pub cap_sys_admin : Bool
  pub too_many_threads : Bool
  pub mpol_dup : ℤ
  pub sched_fork : ℤ
  pub perf_event_init_task : ℤ
  pub audit_alloc : ℤ
  pub security_task_alloc : ℤ
  pub copy_semundo : ℤ
  pub has_files : Bool
  pub dup_fd : ℤ
  pub fs_in_exec : Bool
  pub copy_fs_struct : Bool
  pub alloc_sighand : Bool
  pub alloc_signal : Bool
  pub has_mm : Bool
  pub allocate_mm : Bool
  pub mm_init : Bool
  pub dup_mmap : ℤ
  pub has_binfmt : Bool
  pub try_module_get : Bool
  pub copy_namespaces : ℤ
  pub has_io_context : Bool
  pub ioprio_valid : Bool
  pub get_task_io_context : Bool
  pub copy_thread : ℤ
  pub alloc_pid : ℤ
  pub get_unused_fd : ℤ
  pub anon_inode_getfile : ℤ
  pub put_user : ℤ
  pub kmalloc_store : Bool
  pub kmalloc_lock : Bool
  pub cgroup_can_fork : ℤ
  pub pid_ns_adding : Bool
  pub fatal_signal_pending : Bool

-- Whether a part of the new task is the caller's or its own.
pub data Origin : Type 0 where
  shared : Origin
  fresh : Origin

-- The parts of the new task that are shared or copied; `none` is a null pointer.
pub record Child : Type 0 where
  pub files : Option Origin
  pub fs : Option Origin
  pub sighand : Option Origin
  pub signal : Option Origin
  pub mm : Option Origin
  pub io_context : Option Origin
  pub kv_store : Option Origin

-- What a label of the clean-up gives back: memory, references, counts and locks.
pub data Resource : Type 0 where
  task_struct : Resource
  creds : Resource
  nproc : Resource
  delays : Resource
  mempolicy : Resource
  perf : Resource
  audit : Resource
  security : Resource
  semundo : Resource
  files : Resource
  fs : Resource
  sighand : Resource
  signal : Resource
  mm : Resource
  namespaces : Resource
  io_context : Resource
  thread : Resource
  pid : Resource
  pidfd : Resource
  pidfile : Resource
  cgroup : Resource
  tasklist_lock : Resource
  siglock : Resource

abbrev number : Resource → ℕ
number task_struct = 1
number creds = 2
number nproc = 3
number delays = 4
number mempolicy = 5
number perf = 6
number audit = 7
number security = 8
number semundo = 9
number files = 10
number fs = 11
number sighand = 12
number signal = 13
number mm = 14
number namespaces = 15
number io_context = 16
number thread = 17
number pid = 18
number pidfd = 19
number pidfile = 20
number cgroup = 21
number tasklist_lock = 22
number siglock = 23

abbrev pub Held : Type 0
Held = List Resource

-- One of a resource is given back.
abbrev pub release : Resource → Held → Held
release r [] = []
release r (q ∷ qs) = if number q == number r then qs else q ∷ release r qs

abbrev pub release_if : Bool → Resource → Held → Held
release_if b r h = if b then release r h else h

-- A state of the copy. `linked` says that the node `delayed`, which stands on the caller's stack, is in
-- the list of the caller's signals; the arrays of key-value stores, which no label gives back, are
-- counted apart.
pub record Copying : Type 0 where
  pub p : Child
  pub held : Held
  pub linked : Bool
  pub stores : ℕ

-- `failed` is `ERR_PTR`.
pub data Result : Type 0 where
  failed : ℤ → Copying → Result
  ok : Copying → Result

-- What follows a step: nothing, if it has failed.
abbrev pub after : (Copying → Result) → Result → Result
after g (failed e s) = failed e s
after g (ok s) = g s

infixl 5 ◌>>◌
abbrev pub ◌>>◌ : (Copying → Result) → (Copying → Result) → Copying → Result
◌>>◌ f g s = after g (f s)
