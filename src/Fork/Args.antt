-- ===== src/Fork/Args.antt =====
-- The arguments of the calls that make a task (kernel/fork.c): fork, vfork, clone and clone3, up to the
-- structure that `kernel_clone` takes.
pub mod Laws
use oshm.Prelude.{
  ℕ, ◌+◌, ◌-◌, ◌*◌, ◌/◌, ◌%◌, ◌^◌, ◌≤◌, ◌<◌, ◌≡◌, ◌⊎◌, refl, Bool, true, false, not, ◌&&◌, ◌||◌,
  Option, none, some, ◌==◌, ltb, leb, if◌then◌else◌, ℤ, pos, neg, eqb_ℤ, einval, e2big, efault,
  Bool-cases, inl, inr, arith,
}
use oshm.Fork.Clone
use oshm.Fork.{has}

-- `struct kernel_clone_args`, but for the array of task numbers, and `struct clone_args` of the user.
pub record KernelCloneArgs : Type 0 where
  pub flags : ℕ
  pub pidfd : ℕ
  pub child_tid : ℕ
  pub parent_tid : ℕ
  pub exit_signal : ℕ
  pub stack : ℕ
  pub stack_size : ℕ
  pub tls : ℕ
  pub set_tid_size : ℕ
  pub cgroup : ℕ

pub record CloneArgs : Type 0 where
  pub flags : ℕ
  pub pidfd : ℕ
  pub child_tid : ℕ
  pub parent_tid : ℕ
  pub exit_signal : ℕ
  pub stack : ℕ
  pub stack_size : ℕ
  pub tls : ℕ
  pub set_tid : ℕ
  pub set_tid_size : ℕ
  pub cgroup : ℕ

abbrev sigchld : ℕ
sigchld = 17

-- The arguments that `fork` and `vfork` write out; all other fields are 0.
abbrev plain : KernelCloneArgs
plain = record {
  flags = 0;
  pidfd = 0;
  child_tid = 0;
  parent_tid = 0;
  exit_signal = 0;
  stack = 0;
  stack_size = 0;
  tls = 0;
  set_tid_size = 0;
  cgroup = 0;
}

unfoldable pub fork_args : KernelCloneArgs
fork_args = record plain { exit_signal = sigchld }

unfoldable pub vfork_args : KernelCloneArgs
vfork_args = record plain { flags = 2 ^ Clone.vfork + 2 ^ Clone.vm; exit_signal = sigchld }

-- `lower_32_bits(clone_flags)` split into the flags and the signal, the lowest 8 bits.
unfoldable pub clone_args : (clone_flags newsp parent_tidptr child_tidptr tls : ℕ) → KernelCloneArgs
clone_args clone_flags newsp parent_tidptr child_tidptr tls = record plain {
  flags = clone_flags % 2 ^ 32 - clone_flags % 256;
  pidfd = parent_tidptr;
  child_tid = child_tidptr;
  parent_tid = parent_tidptr;
  exit_signal = clone_flags % 256;
  stack = newsp;
  tls = tls;
}

-- `usize` is the size that the user gives; `copy_struct` is the error of `copy_struct_from_user`, which
-- fills `args`, and `copy_tids` whether the task numbers could be copied.
unfoldable pub copy_clone_args_from_user :
    (usize : ℕ) (copy_struct : ℤ) (copy_tids : Bool) → CloneArgs → ℤ ⊎ KernelCloneArgs
copy_clone_args_from_user usize copy_struct copy_tids args =
    if ltb 4096 usize
    then inl (neg e2big)
    else if ltb usize 64
    then inl (neg einval)
    else if not (eqb_ℤ copy_struct (pos 0))
    then inl copy_struct
    else if ltb 32 args.set_tid_size
    then inl (neg einval)
    else if args.set_tid == 0 && ltb 0 args.set_tid_size
    then inl (neg einval)
    else if not (args.set_tid == 0) && args.set_tid_size == 0
    then inl (neg einval)
    else if not (args.exit_signal / 256 == 0) || ltb 64 args.exit_signal
    then inl (neg einval)
    else if has args.flags Clone.into_cgroup && (ltb (2 ^ 31 - 1) args.cgroup || ltb usize 88)
    then inl (neg einval)
    else if not (args.set_tid == 0) && not copy_tids
    then inl (neg efault)
    else inr (record {
      flags = args.flags;
      pidfd = args.pidfd;
      child_tid = args.child_tid;
      parent_tid = args.parent_tid;
      exit_signal = args.exit_signal;
      stack = args.stack;
      stack_size = args.stack_size;
      tls = args.tls;
      set_tid_size = args.set_tid_size;
      cgroup = args.cgroup;
    })

-- The stack pointer that is kept, or `none` for `false`. A stack grows down from its end.
unfoldable pub clone3_stack_valid : (access_ok : ℕ → ℕ → Bool) → KernelCloneArgs → Option ℕ
clone3_stack_valid access_ok kargs =
    if kargs.stack == 0
    then if ltb 0 kargs.stack_size then none else some kargs.stack
    else if kargs.stack_size == 0
    then none
    else if not (access_ok kargs.stack kargs.stack_size)
    then none
    else some ((kargs.stack + kargs.stack_size) % 2 ^ 64)

-- Bits above 33, and the lowest seven bits and CLONE_DETACHED, are refused.
unfoldable pub bad_flags : KernelCloneArgs → Bool
bad_flags kargs =
    not (kargs.flags / 2 ^ 34 == 0)
    || (has kargs.flags Clone.detached || not (kargs.flags % 128 == 0))
    || (has kargs.flags Clone.sighand && has kargs.flags Clone.clear_sighand)
    || ((has kargs.flags Clone.thread || has kargs.flags Clone.parent)
        && not (kargs.exit_signal == 0))

abbrev with_stack : KernelCloneArgs → Option ℕ → Option KernelCloneArgs
with_stack kargs none = none
with_stack kargs (some stack) = some (record kargs { stack = stack })

unfoldable pub clone3_args_valid :
    (access_ok : ℕ → ℕ → Bool) → KernelCloneArgs → Option KernelCloneArgs
unfolding bad_flags clone3_stack_valid
clone3_args_valid access_ok kargs =
    if bad_flags kargs then none else with_stack kargs (clone3_stack_valid access_ok kargs)

abbrev valid_or : ℤ → Option KernelCloneArgs → ℤ ⊎ KernelCloneArgs
valid_or e none = inl e
valid_or e (some kargs) = inr kargs

abbrev checked_args : (ℕ → ℕ → Bool) → ℤ ⊎ KernelCloneArgs → ℤ ⊎ KernelCloneArgs
checked_args access_ok (inl e) = inl e
checked_args access_ok (inr kargs) = valid_or (neg einval) (clone3_args_valid access_ok kargs)

-- `clone3` up to its call of `kernel_clone`: an error, or the arguments of that call.
unfoldable pub clone3_args :
    (access_ok : ℕ → ℕ → Bool) (usize : ℕ) (copy_struct : ℤ) (copy_tids : Bool)
    → CloneArgs
    → ℤ ⊎ KernelCloneArgs
unfolding copy_clone_args_from_user clone3_args_valid
clone3_args access_ok usize copy_struct copy_tids args =
    checked_args access_ok (copy_clone_args_from_user usize copy_struct copy_tids args)
