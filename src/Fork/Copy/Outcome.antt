-- ===== src/Fork/Copy/Outcome.antt =====
-- What `copy_process` holds when it returns, and what the new task shares with the caller.
use oshm.Prelude.{
  ℕ, ◌+◌, ◌≤◌, ◌≡◌, ◌≢◌, ◌⊎◌, refl, sym, ap, ◌∙◌, Bool, true, false, not, ◌&&◌, ◌||◌, Option, none,
  some, if◌then◌else◌, ℤ, pos, neg, einval, enomem, eqb_ℤ, Bool-cases, inl, inr, ne_zero_of_lt,
  ne_zero_of_eqb, arith,
}
use oshm.Fork.Clone
use oshm.Fork.{has, Answers, Child, Held, Copying, Result, failed, ok, after, Origin, shared, fresh}
use oshm.Fork.Flags.{refuses, refuses-thread}
use oshm.Fork.Labels.{
  bad_fork_free, bad_fork_cleanup_count, bad_fork_cleanup_threadgroup_lock, bad_fork_cleanup_policy,
  bad_fork_cleanup_perf, bad_fork_cleanup_audit, bad_fork_cleanup_security,
  bad_fork_cleanup_semundo, bad_fork_cleanup_files, bad_fork_cleanup_fs, bad_fork_cleanup_sighand,
  bad_fork_cleanup_signal, bad_fork_cleanup_mm, bad_fork_cleanup_namespaces, bad_fork_cleanup_io,
  bad_fork_cleanup_thread, bad_fork_free_pid, bad_fork_put_pidfd, bad_fork_cancel_cgroup,
}
use oshm.Fork.Copy.{give_store, publish, until_store, copy_process}
use oshm.Fork.Copy.Stages.{Done, ◌then◌}
use oshm.Fork.Copy.SetUp.{until_store-Stage}
use oshm.Fork.Copy.Parts.{origin, parts_of}

module _ (a : Answers) (flags : ℕ) (idle : Bool) where
  store_any :
      (p : Child) (o : Option Origin) (h : Held)
      → bad_fork_put_pidfd flags idle (record p { kv_store = o }) h
        ≡ bad_fork_put_pidfd flags idle p h
  unfolding bad_fork_put_pidfd bad_fork_free_pid bad_fork_cleanup_thread bad_fork_cleanup_io
      bad_fork_cleanup_namespaces bad_fork_cleanup_mm bad_fork_cleanup_signal
      bad_fork_cleanup_sighand bad_fork_cleanup_fs bad_fork_cleanup_files bad_fork_cleanup_semundo
      bad_fork_cleanup_security bad_fork_cleanup_audit bad_fork_cleanup_perf bad_fork_cleanup_policy
      bad_fork_cleanup_threadgroup_lock bad_fork_cleanup_count bad_fork_free
  store_any p o h = refl

  -- After `publish`: `put_pidfd` gives back what the new task holds, or has given it back.
  abbrev Published : Copying → Result → Type 0
  Published s (failed e t) =
      (e ≢ pos 0)
      × (t.held ≡ bad_fork_put_pidfd flags idle s.p s.held)
      × (t.linked ≡ false)
      × (t.stores ≡ s.stores)
  Published s (ok t) = (t.held ≡ s.held) × (t.p ≡ s.p) × (t.linked ≡ false) × (t.stores ≡ s.stores)

  publish-Published : (s : Copying) → Published s (publish a flags idle s)
  unfolding publish bad_fork_cancel_cgroup
  publish-Published s = elim (Bool-cases (eqb_ℤ a.cgroup_can_fork (pos 0))) [
    | inr fails ↦ rw fails (ne_zero_of_eqb a.cgroup_can_fork fails, refl, refl, refl)
    | inl works ↦ rw works (elim (Bool-cases a.pid_ns_adding) [
      | inr dying ↦ rw dying (ne_zero_of_lt _ refl, refl, refl, refl)
      | inl alive ↦ rw alive (elim (Bool-cases a.fatal_signal_pending) [
        | inl killed ↦ rw killed (ne_zero_of_lt _ refl, refl, refl, refl)
        | inr calm ↦ rw calm (refl, refl, refl, refl)
      ])
    ])
  ]

  -- The new task: the parts as the flags ask, and the store that is the caller's for a thread.
  abbrev pub child_of : Child → Child
  child_of p = record (parts_of a flags p) { kv_store = some (origin (has flags Clone.thread)) }

  abbrev pub Outcome : Copying → Result → Type 0
  Outcome s (failed e t) =
      (e ≢ pos 0)
      × (((t.held ≡ s.held)
            × (t.linked ≡ false)
            × ((t.stores ≡ s.stores)
                ⊎ ((has flags Clone.thread ≡ false) × (t.stores ≡ s.stores + 2))))
          ⊎ ((has flags Clone.thread ≡ false)
              × (e ≡ neg enomem)
              × (t.linked ≡ true)
              × (t.stores ≤ s.stores + 1)
              × (bad_fork_put_pidfd flags idle t.p t.held ≡ s.held)))
  Outcome s (ok t) =
      (bad_fork_put_pidfd flags idle t.p t.held ≡ s.held)
      × (t.linked ≡ false)
      × (t.stores ≡ s.stores + (if has flags Clone.thread then 0 else 2))
      × (t.p ≡ child_of s.p)

  module _ (s t : Copying) (back : bad_fork_put_pidfd flags idle t.p t.held ≡ s.held)
      (child : t.p ≡ parts_of a flags s.p) (linked : t.linked ≡ not (has flags Clone.thread))
      (stores : t.stores ≡ s.stores) where
    published :
        (o : Option Origin) (n : ℕ) (r : Result)
        → (n ≡ t.stores) ⊎ ((has flags Clone.thread ≡ false) × (n ≡ t.stores + 2))
        → n ≡ t.stores + (if has flags Clone.thread then 0 else 2)
        → o ≡ some (origin (has flags Clone.thread))
        → Published (record t { p = record t.p { kv_store = o }; stores = n }) r
        → Outcome s r
    published o n (failed e u) small count kind (ne, held, off, same) = (
      ne,
      inl (
        held ∙ store_any t.p o t.held ∙ back,
        off,
        elim small [
          | inl none_made ↦ inl (omega arith)
          | inr (process, two) ↦ inr (process, omega arith)
        ],
      ),
    )
    published o n (ok u) small count kind (held, same_p, off, same) = (
      rw (same_p, held) (store_any t.p o t.held ∙ back),
      off,
      omega arith,
      same_p ∙ (λ i. record (child i) { kv_store = kind i }),
    )

    -- What `give_store` does at `t`.
    abbrev Given : Result → Type 0
    Given (failed e u) =
        (has flags Clone.thread ≡ false)
        × (e ≡ neg enomem)
        × (u.linked ≡ true)
        × (u.stores ≤ s.stores + 1)
        × (bad_fork_put_pidfd flags idle u.p u.held ≡ s.held)
    Given (ok u) =
        (o : Option Origin) × (n : ℕ) × (u
          ≡ record t { p = record t.p { kv_store = o }; stores = n })
        × ((n ≡ t.stores) ⊎ ((has flags Clone.thread ≡ false) × (n ≡ t.stores + 2)))
        × (n ≡ t.stores + (if has flags Clone.thread then 0 else 2))
        × (o ≡ some (origin (has flags Clone.thread)))

    give_store-Given : Given (give_store a flags idle t)
    unfolding give_store
    give_store-Given = elim (Bool-cases (has flags Clone.thread)) [
      | inl thread ↦
          rw thread (some shared, t.stores, refl, inl refl, rw thread (omega arith), rw thread refl)
      | inr process ↦ rw process (elim (Bool-cases a.kmalloc_store) [
        | inr no_store ↦
            rw no_store (process, refl, linked ∙ rw process refl, one_at_most a.kmalloc_lock, back)
        | inl store ↦ rw store (elim (Bool-cases a.kmalloc_lock) [
          | inr no_lock ↦ rw no_lock (process, refl, linked ∙ rw process refl, omega arith, back)
          | inl lock ↦ rw lock (
            some fresh,
            t.stores + 2,
            refl,
            inr (process, refl),
            rw process refl,
            rw process refl,
          )
        ])
      ])
    ]
      where
        one_at_most : (b : Bool) → t.stores + (0 + (if b then 1 else 0)) ≤ s.stores + 1
        one_at_most b = ground arith

    after_store : (r : Result) → Given r → Outcome s (after (publish a flags idle) r)
    after_store (failed e u) (process, no_memory, on, few, kept) =
        (rw no_memory (ne_zero_of_lt _ refl), inr (process, no_memory, on, few, kept))
    after_store (ok u) (o, n, u_eq, small, count, kind) =
        rw u_eq (published o n _ small count kind (publish-Published _))

  after_until :
      (s : Copying) (r : Result)
      → Done
          (λ p h. h)
          (bad_fork_put_pidfd flags idle)
          (parts_of a flags)
          (record s { linked = not (has flags Clone.thread) })
          r
      → Outcome s (after (publish a flags idle) (after (give_store a flags idle) r))
  after_until s (failed e t) (ne, held, off, same) = (ne, inl (held, off, inl same))
  after_until s (ok t) (back, child, linked, stores) =
      after_store s t back child linked stores (give_store a flags idle t)
        (give_store-Given s t back child linked stores)

  -- A call of `copy_process`, begun with the node off the list, keeps its books as follows. It fails
  -- with a number other than 0, and all that it took is given back, the node is off the list, and the
  -- arrays of stores are those before or, for a process, the two new ones are lost. Or it fails for a
  -- process with -ENOMEM, the node is left on the list, and all of the new task is still held, with one
  -- array at most. Or it succeeds: the node is off the list, `bad_fork_put_pidfd` would give back just
  -- what the task holds, a process has two arrays of its own and a thread none, and every part of the
  -- task is the caller's or a copy as the flags ask.
  pub copy_process-Outcome :
      (s : Copying) → s.linked ≡ false → Outcome s (copy_process a flags idle s)
  unfolding copy_process
  copy_process-Outcome s off = elim (Bool-cases (refuses a flags)) [
    | inl bad ↦ rw bad (ne_zero_of_lt _ refl, inl (refl, off, inl refl))
    | inr good ↦ rw good (
        after_until s
          (until_store a flags idle (record s { linked = not (has flags Clone.thread) }))
          ((until_store-Stage a flags idle).done
            (record s { linked = not (has flags Clone.thread) })))
  ]

  few :
      {m n : ℕ} (b c : Bool)
      → (b && c) ≡ false
      → m ≡ n
      → m + ((if b then 1 else 0) + (if c then 1 else 0)) ≤ n + 1
  few b c h e = ground arith

  give_store-fails :
      (t : Copying)
      → has flags Clone.thread ≡ false
      → (a.kmalloc_store && a.kmalloc_lock) ≡ false
      → give_store a flags idle t
        ≡ failed (neg enomem) (record t {
          stores =
              t.stores + ((if a.kmalloc_store then 1 else 0) + (if a.kmalloc_lock then 1 else 0));
        })
  unfolding give_store
  give_store-fails t process lack = rw process (rw (lacks a.kmalloc_store a.kmalloc_lock lack) refl)
    where
      lacks : (b c : Bool) → (b && c) ≡ false → (not b || not c) ≡ true
      lacks b c h = ground arith

  failed_ne_ok : (e : ℤ) (s t : Copying) → failed e s ≢ ok t
  failed_ne_ok e s t = λ h. cc

  refused :
      (s : Copying) → refuses a flags ≡ true → copy_process a flags idle s ≡ failed (neg einval) s
  unfolding copy_process
  refused s bad = rw bad

  -- A call for a process that gets as far as the store, by `until_store`, and does not get the memory
  -- of both arrays, returns -ENOMEM with the caller's node, which stands on its stack, still in the list
  -- of its signals, and with all that the new task holds.
  pub copy_process-no_store :
      (s : Copying) {t : Copying}
      → refuses a flags ≡ false
      → has flags Clone.thread ≡ false
      → until_store a flags idle (record s { linked = true }) ≡ ok t
      → (a.kmalloc_store && a.kmalloc_lock) ≡ false
      → (n : ℕ) × (copy_process a flags idle s ≡ failed (neg enomem) (record t { stores = n }))
        × (n ≤ s.stores + 1)
        × (t.linked ≡ true)
        × (bad_fork_put_pidfd flags idle t.p t.held ≡ s.held)
  unfolding copy_process
  copy_process-no_store s {t} good process reached lack =
      let done : Done (λ p h. h) (bad_fork_put_pidfd flags idle) (parts_of a flags)
          (record s { linked = true }) (ok t) =
        rw reached at ((until_store-Stage a flags idle).done (record s { linked = true })) in
      let n = t.stores + ((if a.kmalloc_store then 1 else 0) + (if a.kmalloc_lock then 1 else 0)) in
      (
        n,
        rw (good, process, reached)
            (ap (after (publish a flags idle)) (give_store-fails t process lack)),
        few a.kmalloc_store a.kmalloc_lock lack done.3,
        done.2,
        done.0,
      )

  -- A task made with CLONE_THREAD has the caller's memory, if there is one, signal handlers, signals and
  -- key-value store.
  pub copy_process-thread_shares :
      (s : Copying) {t : Copying}
      → has flags Clone.thread ≡ true
      → s.linked ≡ false
      → copy_process a flags idle s ≡ ok t
      → (t.p.mm ≡ (if a.has_mm then some shared else none))
        × (t.p.sighand ≡ some shared)
        × (t.p.signal ≡ some shared)
        × (t.p.kv_store ≡ some shared)
  copy_process-thread_shares s {t} thread off done = elim (Bool-cases (refuses a flags)) [
    | inl bad ↦ absurd (failed_ne_ok _ _ _ (sym (refused s bad) ∙ done))
    | inr good ↦
        let (sighand, vm) = refuses-thread a flags good thread in
        let out : Outcome s (ok t) = rw done at (copy_process-Outcome s off) in
        let child = out.3 in
        (
          ap (λ (p : Child). p.mm) child ∙ rw vm refl,
          ap (λ (p : Child). p.sighand) child ∙ rw sighand refl,
          ap (λ (p : Child). p.signal) child ∙ rw thread refl,
          ap (λ (p : Child). p.kv_store) child ∙ rw thread refl,
        )
  ]
