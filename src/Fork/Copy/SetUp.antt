-- ===== src/Fork/Copy/SetUp.antt =====
-- The stages of `copy_process` up to the key-value store, in which every error is undone.
use oshm.Prelude.{
  ℕ, ◌≡◌, refl, Bool, true, false, not, ◌&&◌, ◌∷◌, if◌then◌else◌, pos, eqb_ℤ, ltb_ℤ, Bool-cases,
  inl, inr, ne_zero_of_lt, ne_zero_of_eqb,
}
use oshm.Fork.Clone
use oshm.Fork.{has, Answers, Child, Held, mempolicy, perf, audit, security, semundo, pidfd, pidfile}
use oshm.Fork.Labels.{
  bad_fork_free, bad_fork_cleanup_count, bad_fork_cleanup_threadgroup_lock, bad_fork_cleanup_policy,
  bad_fork_cleanup_perf, bad_fork_cleanup_audit, bad_fork_cleanup_security,
  bad_fork_cleanup_semundo, bad_fork_cleanup_thread, bad_fork_free_pid, bad_fork_put_pidfd,
}
use oshm.Fork.Copy.{
  dup_task, take_creds, check_limits, assign_cpu, set_up, number_task, open_pidfd, until_store,
}
use oshm.Fork.Copy.Stages.{Stage, ◌then◌, try-Stage, try_below-Stage}
use oshm.Fork.Copy.Parts.{parts_of, copy_parts-Stage}

module _ (a : Answers) (flags : ℕ) (idle : Bool) where
  dup_task-Stage : Stage (λ p h. h) (bad_fork_free flags idle) (λ p. p) (dup_task a flags idle)
  unfolding dup_task bad_fork_free
  dup_task-Stage = record {
    done = λ s. elim (Bool-cases a.task_sigpending) [
      | inl pending ↦ rw pending (ne_zero_of_lt _ refl, refl, refl, refl)
      | inr free ↦ rw free (elim (Bool-cases a.dup_task_struct) [
        | inl got ↦ rw got (refl, refl, refl, refl)
        | inr fails ↦ rw fails (ne_zero_of_lt _ refl, refl, refl, refl)
      ])
    ];
  }

  take_creds-Stage :
      Stage
        (bad_fork_free flags idle)
        (bad_fork_cleanup_count flags idle)
        (λ p. p)
        (take_creds a flags idle)
  unfolding take_creds bad_fork_cleanup_count
  take_creds-Stage = record {
    done = λ s. elim (Bool-cases (ltb_ℤ a.copy_creds (pos 0))) [
      | inl fails ↦ rw fails (ne_zero_of_lt a.copy_creds fails, refl, refl, refl)
      | inr works ↦ rw works (refl, refl, refl, refl)
    ];
  }

  check_limits-Stage :
      Stage
        (bad_fork_cleanup_count flags idle)
        (bad_fork_cleanup_threadgroup_lock flags idle)
        (λ p. p)
        (check_limits a flags idle)
  unfolding check_limits bad_fork_cleanup_threadgroup_lock
  check_limits-Stage = record {
    done = λ s.
        elim (Bool-cases (
          a.is_ucounts_overlimit
          && (not a.init_user && not a.cap_sys_resource && not a.cap_sys_admin))) [
            | inl over ↦ rw over (ne_zero_of_lt _ refl, refl, refl, refl)
            | inr within ↦ rw within (elim (Bool-cases a.too_many_threads) [
              | inl many ↦ rw many (ne_zero_of_lt _ refl, refl, refl, refl)
              | inr few ↦ rw few (refl, refl, refl, refl)
            ])
          ];
  }

  assign_cpu-Stage :
      Stage
        (bad_fork_cleanup_policy flags idle)
        (bad_fork_cleanup_policy flags idle)
        (λ p. p)
        (assign_cpu a flags idle)
  unfolding assign_cpu
  assign_cpu-Stage = record {
    done = λ s. elim (Bool-cases (eqb_ℤ a.sched_fork (pos 0))) [
      | inl works ↦ rw works (refl, refl, refl, refl)
      | inr fails ↦ rw fails (ne_zero_of_eqb a.sched_fork fails, refl, refl, refl)
    ];
  }

  set_up-Stage :
      Stage (λ p h. h) (bad_fork_cleanup_semundo flags idle) (λ p. p) (set_up a flags idle)
  unfolding set_up bad_fork_cleanup_policy bad_fork_cleanup_perf bad_fork_cleanup_audit
      bad_fork_cleanup_security bad_fork_cleanup_semundo
  set_up-Stage =
      dup_task-Stage
      then take_creds-Stage
      then check_limits-Stage
      then try_below-Stage a.mpol_dup mempolicy (λ p h. refl)
      then assign_cpu-Stage
      then try-Stage a.perf_event_init_task perf (λ p h. refl)
      then try-Stage a.audit_alloc audit (λ p h. refl)
      then try-Stage a.security_task_alloc security (λ p h. refl)
      then try-Stage a.copy_semundo semundo (λ p h. refl)

  number_task-Stage :
      Stage
        (bad_fork_cleanup_thread flags idle)
        (bad_fork_free_pid flags idle)
        (λ p. p)
        (number_task a flags idle)
  unfolding number_task bad_fork_free_pid
  number_task-Stage = record {
    done = λ s. elim (Bool-cases idle) [
      | inl old ↦ rw old (refl, refl, refl, refl)
      | inr new ↦ rw new (elim (Bool-cases (ltb_ℤ a.alloc_pid (pos 0))) [
        | inl fails ↦ rw fails (ne_zero_of_lt a.alloc_pid fails, refl, refl, refl)
        | inr works ↦ rw works (refl, refl, refl, refl)
      ])
    ];
  }

  pidfd_top :
      (p : Child) (h : Held)
      → has flags Clone.pidfd ≡ true
      → bad_fork_put_pidfd flags idle p (pidfile ∷ pidfd ∷ h) ≡ bad_fork_free_pid flags idle p h
  unfolding bad_fork_put_pidfd
  pidfd_top p h asked = rw asked refl

  pidfd_none :
      (p : Child) (h : Held)
      → has flags Clone.pidfd ≡ false
      → bad_fork_put_pidfd flags idle p h ≡ bad_fork_free_pid flags idle p h
  unfolding bad_fork_put_pidfd
  pidfd_none p h plain = rw plain refl

  open_pidfd-Stage :
      Stage
        (bad_fork_free_pid flags idle)
        (bad_fork_put_pidfd flags idle)
        (λ p. p)
        (open_pidfd a flags idle)
  unfolding open_pidfd bad_fork_put_pidfd
  open_pidfd-Stage = record {
    done = λ s. elim (Bool-cases (has flags Clone.pidfd)) [
      | inr plain ↦ rw plain (pidfd_none s.p s.held plain, refl, refl, refl)
      | inl asked ↦ rw asked (elim (Bool-cases (ltb_ℤ a.get_unused_fd (pos 0))) [
        | inl full ↦ rw full (ne_zero_of_lt a.get_unused_fd full, refl, refl, refl)
        | inr got ↦ rw got (elim (Bool-cases (ltb_ℤ a.anon_inode_getfile (pos 0))) [
          | inl fails ↦ rw fails (ne_zero_of_lt a.anon_inode_getfile fails, refl, refl, refl)
          | inr file ↦ rw file (elim (Bool-cases (eqb_ℤ a.put_user (pos 0))) [
            | inr fault ↦ rw fault (ne_zero_of_eqb a.put_user fault, refl, refl, refl)
            | inl told ↦ rw told (pidfd_top s.p s.held asked, refl, refl, refl)
          ])
        ])
      ])
    ];
  }

  pub until_store-Stage :
      Stage (λ p h. h) (bad_fork_put_pidfd flags idle) (parts_of a flags) (until_store a flags idle)
  unfolding until_store
  until_store-Stage =
      set_up-Stage then copy_parts-Stage a flags idle then number_task-Stage then open_pidfd-Stage
