-- ===== src/Fork/Flags.antt =====
-- The checks of flags of kernel/fork.c: those at the start of `copy_process`, and those of clone3.
use oshm.Prelude.{ℕ, ◌≡◌, Bool, true, false, not, ◌&&◌, ◌||◌, arith}
use oshm.Fork.Clone
use oshm.Fork.{has, Answers}

-- Whether one of the checks refuses the flags with -EINVAL.
unfoldable pub refuses : Answers → ℕ → Bool
refuses a flags =
    (has flags Clone.newns && has flags Clone.fs)
    || (has flags Clone.newuser && has flags Clone.fs)
    || (has flags Clone.thread && not (has flags Clone.sighand))
    || (has flags Clone.sighand && not (has flags Clone.vm))
    || (has flags Clone.parent && a.signal_unkillable)
    || (has flags Clone.thread
        && ((has flags Clone.newuser || has flags Clone.newpid) || not a.same_pid_ns))
    || ((has flags Clone.thread || has flags Clone.vm) && not a.same_time_ns)
    || (has flags Clone.pidfd && (has flags Clone.detached || has flags Clone.thread))

pub or_false : (b c : Bool) → (b || c) ≡ false → (b ≡ false) × (c ≡ false)
or_false b c h = ground arith

thread_case : (b c : Bool) → (b && not c) ≡ false → b ≡ true → c ≡ true
thread_case b c h e = ground arith

-- Flags that pass with CLONE_THREAD ask for shared signal handlers and shared memory.
pub refuses-thread :
    (a : Answers) (flags : ℕ)
    → refuses a flags ≡ false
    → has flags Clone.thread ≡ true
    → (has flags Clone.sighand ≡ true) × (has flags Clone.vm ≡ true)
unfolding refuses
refuses-thread a flags good thread =
    let fourth = (or_false _ _ (or_false _ _ (or_false _ _ (or_false _ _ good).0).0).0).0 in
    let sighand = thread_case _ _ (or_false _ _ (or_false _ _ fourth).0).1 thread in
    (sighand, thread_case _ _ (or_false _ _ fourth).1 sighand)
