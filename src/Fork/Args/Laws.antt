-- ===== src/Fork/Args/Laws.antt =====
-- What clone3 lets through, and that clone asks for the same.
use oshm.Prelude.{
  ℕ, ◌+◌, ◌-◌, ◌/◌, ◌%◌, ◌^◌, ◌≤◌, ◌<◌, ◌≡◌, ◌⊎◌, refl, ap, sym, ◌∙◌, Bool, true, false, not, ◌&&◌,
  ◌||◌, Option, none, some, ◌==◌, ℤ, Bool-cases, inl, inr, arith,
}
use mathlib.Core.Path.{subst}
use oshm.Fork.Clone
use oshm.Fork.{has}
use oshm.Fork.Flags.{or_false}
use oshm.Fork.Args.{
  KernelCloneArgs, CloneArgs, with_stack, valid_or, checked_args, clone_args, clone3_args,
  copy_clone_args_from_user, clone3_args_valid, clone3_stack_valid, bad_flags,
}

-- What holds of the arguments that clone3 hands to `kernel_clone`.
pub record IsValid (access_ok : ℕ → ℕ → Bool) (args : CloneArgs) (kargs : KernelCloneArgs)
    : Type 0 where
  pub flags : (kargs.flags ≡ args.flags) × (args.flags < 2 ^ 34) × (args.flags % 128 ≡ 0)
  pub exit_signal : (kargs.exit_signal ≡ args.exit_signal) × (args.exit_signal ≤ 64)
  pub silent :
      ((has args.flags Clone.thread || has args.flags Clone.parent) ≡ false)
      ⊎ (args.exit_signal ≡ 0)
  pub tids : (kargs.set_tid_size ≡ args.set_tid_size) × (args.set_tid_size ≤ 32)
  pub stack :
      ((args.stack ≡ 0) × (args.stack_size ≡ 0) × (kargs.stack ≡ 0))
      ⊎ ((access_ok args.stack args.stack_size ≡ true)
          × (kargs.stack ≡ (args.stack + args.stack_size) % 2 ^ 64))

same_args : CloneArgs → KernelCloneArgs
same_args args = record {
  flags = args.flags;
  pidfd = args.pidfd;
  child_tid = args.child_tid;
  parent_tid = args.parent_tid;
  exit_signal = args.exit_signal;
  stack = args.stack;
  stack_size = args.stack_size;
  tls = args.tls;
  set_tid_size = args.set_tid_size;
  cgroup = args.cgroup;
}

module _ (usize : ℕ) (copy_struct : ℤ) (copy_tids : Bool) (args : CloneArgs) {k : KernelCloneArgs}
    (h : copy_clone_args_from_user usize copy_struct copy_tids args ≡ inr k) where
  copied_tids : args.set_tid_size ≤ 32
  unfolding copy_clone_args_from_user
  copied_tids = ground arith

  copied_signal : args.exit_signal ≤ 64
  unfolding copy_clone_args_from_user
  copied_signal = ground arith

  copied_args : same_args args ≡ k
  unfolding copy_clone_args_from_user same_args
  copied_args = ground arith

stack_lem :
    (access_ok : ℕ → ℕ → Bool) (k : KernelCloneArgs) {stack : ℕ}
    → clone3_stack_valid access_ok k ≡ some stack
    → ((k.stack ≡ 0) × (k.stack_size ≡ 0) × (stack ≡ 0))
      ⊎ ((access_ok k.stack k.stack_size ≡ true) × (stack ≡ (k.stack + k.stack_size) % 2 ^ 64))
unfolding clone3_stack_valid
stack_lem access_ok k h = elim (Bool-cases (k.stack == 0)) [
  | inl empty ↦ ground arith
  | inr given ↦ ground arith
]

stack_none :
    (access_ok : ℕ → ℕ → Bool) (k : KernelCloneArgs) {stack : ℕ}
    → k.stack ≡ 0
    → clone3_stack_valid access_ok k ≡ some stack
    → (k.stack_size ≡ 0) × (stack ≡ 0)
unfolding clone3_stack_valid
stack_none access_ok k e h = ground arith

flags_lem :
    (k : KernelCloneArgs)
    → bad_flags k ≡ false
    → (k.flags < 2 ^ 34)
      × (k.flags % 128 ≡ 0)
      × (((has k.flags Clone.thread || has k.flags Clone.parent) ≡ false) ⊎ (k.exit_signal ≡ 0))
unfolding bad_flags
flags_lem k h =
    let h3 = or_false _ _ h in
    let h2 = or_false _ _ h3.0 in
    let h1 = or_false _ _ h2.0 in
    (
      below k.flags h1.0,
      low k.flags (or_false _ _ h1.1).1,
      silent (has k.flags Clone.thread || has k.flags Clone.parent) k.exit_signal h3.1,
    )
  where
    below : (n : ℕ) → not (n / 2 ^ 34 == 0) ≡ false → n < 2 ^ 34
    below n e = ground arith

    low : (n : ℕ) → not (n % 128 == 0) ≡ false → n % 128 ≡ 0
    low n e = ground arith

    silent : (b : Bool) (n : ℕ) → (b && not (n == 0)) ≡ false → (b ≡ false) ⊎ (n ≡ 0)
    silent true n e = inr (ground arith)
    silent false n e = inl refl

valid_lem :
    (access_ok : ℕ → ℕ → Bool) (m k : KernelCloneArgs)
    → clone3_args_valid access_ok m ≡ some k
    → (stack : ℕ) × (bad_flags m ≡ false)
      × (clone3_stack_valid access_ok m ≡ some stack)
      × (record m { stack = stack } ≡ k)
unfolding clone3_args_valid
valid_lem access_ok m k h = elim (Bool-cases (bad_flags m)) [
  | inl bad ↦ absurd (none_ne_some (rw bad at h))
  | inr good ↦
      let (stack, kept, eq) = stacked (clone3_stack_valid access_ok m) (rw good at h) in
      (stack, good, kept, eq)
]
  where
    none_ne_some : ◌≡◌ {A = Option KernelCloneArgs} none (some k) → ⊥
    none_ne_some e = cc

    stacked :
        (o : Option ℕ)
        → with_stack m o ≡ some k
        → (stack : ℕ) × (o ≡ some stack) × (record m { stack = stack } ≡ k)
    stacked none e = cc
    stacked (some stack) e = (stack, refl, cc)

valid_or_lem :
    (o : Option KernelCloneArgs) (e : ℤ) {k : KernelCloneArgs} → valid_or e o ≡ inr k → o ≡ some k
valid_or_lem none e h = cc
valid_or_lem (some m) e h = cc

checked_lem :
    (access_ok : ℕ → ℕ → Bool) (r : ℤ ⊎ KernelCloneArgs) {k : KernelCloneArgs}
    → checked_args access_ok r ≡ inr k
    → (m : KernelCloneArgs) × (r ≡ inr m) × (clone3_args_valid access_ok m ≡ some k)
checked_lem access_ok (inl e) h = cc
checked_lem access_ok (inr m) h = (m, refl, valid_or_lem (clone3_args_valid access_ok m) _ h)

module _ (access_ok : ℕ → ℕ → Bool) (usize : ℕ) (copy_struct : ℤ) (copy_tids : Bool)
    (args : CloneArgs) {kargs : KernelCloneArgs}
    (passed : clone3_args access_ok usize copy_struct copy_tids args ≡ inr kargs) where
  handed :
      (stack : ℕ) × (bad_flags (same_args args) ≡ false)
      × (clone3_stack_valid access_ok (same_args args) ≡ some stack)
      × (record (same_args args) { stack = stack } ≡ kargs)
      × (args.set_tid_size ≤ 32)
      × (args.exit_signal ≤ 64)
  unfolding clone3_args
  handed =
      let (m, copied, valid) =
        checked_lem access_ok (copy_clone_args_from_user usize copy_struct copy_tids args) passed in
      let same = copied_args usize copy_struct copy_tids args copied in
      let (stack, good, kept, eq) = valid_lem access_ok m kargs valid in
      (
        stack,
        subst (λ x. bad_flags x ≡ false) (sym same) good,
        subst (λ x. clone3_stack_valid access_ok x ≡ some stack) (sym same) kept,
        ap (λ (x : KernelCloneArgs). record x { stack = stack }) same ∙ eq,
        copied_tids usize copy_struct copy_tids args copied,
        copied_signal usize copy_struct copy_tids args copied,
      )

  -- The arguments that clone3 hands on are valid: the flags have no bit above 33 and none of the lowest
  -- seven, the signal is at most 64, and none with CLONE_THREAD or CLONE_PARENT, at most 32 task numbers
  -- are given, and the stack is missing with its size, or is readable and kept as its end.
  pub clone3_args-IsValid : IsValid access_ok args kargs
  unfolding same_args
  clone3_args-IsValid =
      let (stack, good, kept, path, tids, signal) = handed in
      let (high, low, silent) = flags_lem (same_args args) good in
      record {
        flags = (sym (ap (λ (x : KernelCloneArgs). x.flags) path), high, low);
        exit_signal = (sym (ap (λ (x : KernelCloneArgs). x.exit_signal) path), signal);
        silent = silent;
        tids = (sym (ap (λ (x : KernelCloneArgs). x.set_tid_size) path), tids);
        stack =
            rw (sym (ap (λ (x : KernelCloneArgs). x.stack) path))
              (stack_lem access_ok (same_args args) kept);
      }

  -- clone3 with no signal bits, stack, task numbers or group, flags below 2^32, and one place for the
  -- file and the parent's number, asks `kernel_clone` for what clone asks with the flags and the signal
  -- in one number.
  pub clone3_args-eq-clone :
      args.flags < 2 ^ 32
      → args.flags % 256 ≡ 0
      → args.stack ≡ 0
      → args.set_tid_size ≡ 0
      → args.cgroup ≡ 0
      → args.pidfd ≡ args.parent_tid
      → clone_args (args.flags + args.exit_signal) 0 args.parent_tid args.child_tid args.tls ≡ kargs
  unfolding clone_args same_args
  clone3_args-eq-clone below plain no_stack no_tids no_cgroup one_place =
      let (stack, good, kept, path, tids, signal) = handed in
      let (no_size, low) = stack_none access_ok (same_args args) no_stack kept in
      let whole : (args.flags + args.exit_signal) % 2 ^ 32 ≡ args.flags + args.exit_signal =
        omega arith in
      let bits : (args.flags + args.exit_signal) % 256 ≡ args.exit_signal = omega arith in
      let rest : args.flags + args.exit_signal - args.exit_signal ≡ args.flags = omega arith in
      rw (whole, bits, rest) (ground arith)
