-- ===== src/Fork/Copy/Parts.antt =====
-- The stages of `copy_process` that copy or share a part of the caller.
use oshm.Prelude.{
  ℕ, ◌≡◌, refl, Bool, false, not, ◌&&◌, Option, none, some, if◌then◌else◌, pos, eqb_ℤ, ltb_ℤ,
  Bool-cases, inl, inr, ne_zero_of_lt, arith,
}
use oshm.Fork.Clone
use oshm.Fork.{has, Answers, Child, Held, Copying, Origin, shared, fresh, namespaces, thread}
use oshm.Fork.Labels.{
  bad_fork_free, bad_fork_cleanup_count, bad_fork_cleanup_threadgroup_lock, bad_fork_cleanup_policy,
  bad_fork_cleanup_perf, bad_fork_cleanup_audit, bad_fork_cleanup_security,
  bad_fork_cleanup_semundo, bad_fork_cleanup_files, bad_fork_cleanup_fs, bad_fork_cleanup_sighand,
  bad_fork_cleanup_signal, bad_fork_cleanup_mm, bad_fork_cleanup_namespaces, bad_fork_cleanup_io,
  bad_fork_cleanup_thread,
}
use oshm.Fork.Copy.{
  copy_files, copy_fs, copy_sighand, copy_signal, dup_mm, copy_mm, copy_io, copy_parts,
}
use oshm.Fork.Copy.Stages.{Stage, Copied, ◌then◌, checked-Stage, try-Stage}

abbrev pub origin : Bool → Origin
origin b = if b then shared else fresh

module _ (a : Answers) (flags : ℕ) where
  abbrev pub files_of : Option Origin
  files_of = if a.has_files then some (origin (has flags Clone.files)) else none

  abbrev pub mm_of : Option Origin
  mm_of = if a.has_mm then some (origin (has flags Clone.vm)) else none

  abbrev pub io_of : Option Origin
  io_of =
      if not a.has_io_context
      then none
      else if has flags Clone.io
      then some shared
      else if a.ioprio_valid
      then some fresh
      else none

  -- The parts of the new task, as the flags ask for them.
  abbrev pub parts_of : Child → Child
  parts_of p = record p {
    files = files_of;
    fs = some (origin (has flags Clone.fs));
    sighand = some (origin (has flags Clone.sighand));
    signal = some (origin (has flags Clone.thread));
    mm = mm_of;
    io_context = io_of;
  }

module _ (a : Answers) (flags : ℕ) (idle : Bool) where
  -- The labels below `bad_fork_cleanup_files` look at no part of the new task.
  semundo_any :
      (p q : Child) (h : Held)
      → bad_fork_cleanup_semundo flags idle p h ≡ bad_fork_cleanup_semundo flags idle q h
  unfolding bad_fork_free bad_fork_cleanup_count bad_fork_cleanup_threadgroup_lock
      bad_fork_cleanup_policy bad_fork_cleanup_perf bad_fork_cleanup_audit bad_fork_cleanup_security
      bad_fork_cleanup_semundo
  semundo_any p q h = refl

  copy_files-Copied :
      (s : Copying)
      → Copied
          (bad_fork_cleanup_semundo flags idle)
          (bad_fork_cleanup_files flags idle)
          (λ p. record p { files = files_of a flags })
          s
          (copy_files a flags s)
  unfolding copy_files bad_fork_cleanup_files
  copy_files-Copied s = elim (Bool-cases a.has_files) [
    | inr no_files ↦ rw no_files (inl (refl, semundo_any _ s.p s.held, refl, refl, refl))
    | inl files ↦ rw files (elim (Bool-cases (has flags Clone.files)) [
      | inl share ↦ rw share (inl (refl, semundo_any _ s.p s.held, refl, refl, refl))
      | inr copy ↦ rw copy (elim (Bool-cases (ltb_ℤ a.dup_fd (pos 0))) [
        | inl fails ↦ rw fails (inr (ne_zero_of_lt a.dup_fd fails, refl, refl))
        | inr works ↦ rw works (inl (refl, semundo_any _ s.p s.held, refl, refl, refl))
      ])
    ])
  ]

  copy_fs-Copied :
      (s : Copying)
      → Copied
          (bad_fork_cleanup_files flags idle)
          (bad_fork_cleanup_fs flags idle)
          (λ p. record p { fs = some (origin (has flags Clone.fs)) })
          s
          (copy_fs a flags s)
  unfolding copy_fs bad_fork_cleanup_fs bad_fork_cleanup_files
  copy_fs-Copied s = elim (Bool-cases (has flags Clone.fs)) [
    | inl share ↦ rw share (elim (Bool-cases a.fs_in_exec) [
      | inl busy ↦ rw busy (inr (ne_zero_of_lt _ refl, refl, refl))
      | inr idle ↦ rw idle (inl (refl, semundo_any _ s.p _, refl, refl, refl))
    ])
    | inr copy ↦ rw copy (elim (Bool-cases a.copy_fs_struct) [
      | inr fails ↦ rw fails (inr (ne_zero_of_lt _ refl, refl, refl))
      | inl works ↦ rw works (inl (refl, semundo_any _ s.p _, refl, refl, refl))
    ])
  ]

  copy_sighand-Copied :
      (s : Copying)
      → Copied
          (bad_fork_cleanup_fs flags idle)
          (bad_fork_cleanup_sighand flags idle)
          (λ p. record p { sighand = some (origin (has flags Clone.sighand)) })
          s
          (copy_sighand a flags s)
  unfolding copy_sighand bad_fork_cleanup_sighand bad_fork_cleanup_fs bad_fork_cleanup_files
  copy_sighand-Copied s = elim (Bool-cases (has flags Clone.sighand)) [
    | inl share ↦ rw share (inl (refl, semundo_any _ s.p _, refl, refl, refl))
    | inr copy ↦ rw copy (elim (Bool-cases a.alloc_sighand) [
      | inr fails ↦ rw fails (inr (ne_zero_of_lt _ refl, refl, refl))
      | inl works ↦ rw works (inl (refl, semundo_any _ s.p _, refl, refl, refl))
    ])
  ]

  copy_signal-Copied :
      (s : Copying)
      → Copied
          (bad_fork_cleanup_sighand flags idle)
          (bad_fork_cleanup_signal flags idle)
          (λ p. record p { signal = some (origin (has flags Clone.thread)) })
          s
          (copy_signal a flags s)
  unfolding copy_signal bad_fork_cleanup_signal bad_fork_cleanup_sighand bad_fork_cleanup_fs
      bad_fork_cleanup_files
  copy_signal-Copied s = elim (Bool-cases (has flags Clone.thread)) [
    | inl share ↦ rw share (inl (refl, semundo_any _ s.p _, refl, refl, refl))
    | inr copy ↦ rw copy (elim (Bool-cases a.alloc_signal) [
      | inr fails ↦ rw fails (inr (ne_zero_of_lt _ refl, refl, refl))
      | inl works ↦ rw works (inl (refl, semundo_any _ s.p _, refl, refl, refl))
    ])
  ]

  signal_mm :
      (p : Child) (o : Option Origin) (h : Held)
      → bad_fork_cleanup_signal flags idle (record p { mm = o }) h
        ≡ bad_fork_cleanup_signal flags idle p h
  unfolding bad_fork_cleanup_signal bad_fork_cleanup_sighand bad_fork_cleanup_fs
      bad_fork_cleanup_files
  signal_mm p o h = semundo_any _ p _

  dup_mm-keeps : (s : Copying) → (dup_mm a flags s).0 ≡ false → (dup_mm a flags s).1 ≡ s
  unfolding dup_mm
  dup_mm-keeps s = ground arith

  copy_mm-Copied :
      (s : Copying)
      → Copied
          (bad_fork_cleanup_signal flags idle)
          (bad_fork_cleanup_mm flags idle)
          (λ p. record p { mm = mm_of a flags })
          s
          (copy_mm a flags s)
  unfolding copy_mm bad_fork_cleanup_mm
  copy_mm-Copied s = elim (Bool-cases a.has_mm) [
    | inr kernel ↦ rw kernel (inl (refl, signal_mm s.p _ _, refl, refl, refl))
    | inl user ↦ rw user (elim (Bool-cases (has flags Clone.vm)) [
      | inl share ↦ rw share (inl (refl, signal_mm s.p _ _, refl, refl, refl))
      | inr copy ↦ rw copy (elim (Bool-cases a.allocate_mm) [
        | inr fails ↦ rw fails (inr (ne_zero_of_lt _ refl, signal_mm s.p _ _, refl))
        | inl got ↦ rw got (elim (Bool-cases a.mm_init) [
          | inr fails ↦ rw fails (inr (ne_zero_of_lt _ refl, signal_mm s.p _ _, refl))
          | inl init ↦ rw init (elim (Bool-cases (eqb_ℤ a.dup_mmap (pos 0))) [
            | inr fails ↦ rw fails (inr (ne_zero_of_lt _ refl, signal_mm s.p _ _, refl))
            | inl mapped ↦ rw mapped (elim (Bool-cases (a.has_binfmt && not a.try_module_get)) [
              | inl fails ↦ rw fails (inr (ne_zero_of_lt _ refl, signal_mm s.p _ _, refl))
              | inr works ↦ rw works (inl (refl, signal_mm s.p _ _, refl, refl, refl))
            ])
          ])
        ])
      ])
    ])
  ]

  namespaces_io :
      (p : Child) (o : Option Origin) (h : Held)
      → bad_fork_cleanup_namespaces flags idle (record p { io_context = o }) h
        ≡ bad_fork_cleanup_namespaces flags idle p h
  unfolding bad_fork_cleanup_namespaces bad_fork_cleanup_mm bad_fork_cleanup_signal
      bad_fork_cleanup_sighand bad_fork_cleanup_fs bad_fork_cleanup_files
  namespaces_io p o h = semundo_any _ p _

  copy_io-Copied :
      (s : Copying)
      → Copied
          (bad_fork_cleanup_namespaces flags idle)
          (bad_fork_cleanup_io flags idle)
          (λ p. record p { io_context = io_of a flags })
          s
          (copy_io a flags s)
  unfolding copy_io bad_fork_cleanup_io
  copy_io-Copied s = elim (Bool-cases a.has_io_context) [
    | inr no_io ↦ rw no_io (inl (refl, namespaces_io s.p _ _, refl, refl, refl))
    | inl io ↦ rw io (elim (Bool-cases (has flags Clone.io)) [
      | inl share ↦ rw share (inl (refl, namespaces_io s.p _ _, refl, refl, refl))
      | inr own ↦ rw own (elim (Bool-cases a.ioprio_valid) [
        | inr plain ↦ rw plain (inl (refl, namespaces_io s.p _ _, refl, refl, refl))
        | inl valid ↦ rw valid (elim (Bool-cases a.get_task_io_context) [
          | inr fails ↦ rw fails (inr (ne_zero_of_lt _ refl, namespaces_io s.p _ _, refl))
          | inl works ↦ rw works (inl (refl, namespaces_io s.p _ _, refl, refl, refl))
        ])
      ])
    ])
  ]

  pub copy_parts-Stage :
      Stage
        (bad_fork_cleanup_semundo flags idle)
        (bad_fork_cleanup_thread flags idle)
        (parts_of a flags)
        (copy_parts a flags idle)
  unfolding copy_parts bad_fork_cleanup_namespaces bad_fork_cleanup_thread
  copy_parts-Stage =
      checked-Stage _ (copy_files a flags) copy_files-Copied
      then checked-Stage _ (copy_fs a flags) copy_fs-Copied
      then checked-Stage _ (copy_sighand a flags) copy_sighand-Copied
      then checked-Stage _ (copy_signal a flags) copy_signal-Copied
      then checked-Stage _ (copy_mm a flags) copy_mm-Copied
      then try-Stage a.copy_namespaces namespaces (λ p h. refl)
      then checked-Stage _ (copy_io a flags) copy_io-Copied
      then try-Stage a.copy_thread thread (λ p h. refl)
