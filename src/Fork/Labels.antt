-- ===== src/Fork/Labels.antt =====
-- The labels at the end of `copy_process`, each of which falls through to the next.
use oshm.Prelude.{ℕ, Bool, not, is_some}
use oshm.Fork.Clone
use oshm.Fork.{
  has, Child, Held, release, release_if, task_struct, creds, nproc, delays, mempolicy, perf, audit,
  security, semundo, files, fs, sighand, signal, mm, namespaces, io_context, thread, pid, pidfd,
  pidfile, cgroup, tasklist_lock, siglock,
}

-- `idle` says that the number of the new task is that of the idle tasks.
module _ (flags : ℕ) (idle : Bool) (p : Child) where
  -- The last label, `fork_out`, takes the node off the list: it has no resource.
  unfoldable pub bad_fork_free : Held → Held
  bad_fork_free h = release task_struct h

  unfoldable pub bad_fork_cleanup_count : Held → Held
  bad_fork_cleanup_count h = bad_fork_free (release creds (release nproc h))

  unfoldable pub bad_fork_cleanup_threadgroup_lock : Held → Held
  bad_fork_cleanup_threadgroup_lock h = bad_fork_cleanup_count (release delays h)

  unfoldable pub bad_fork_cleanup_policy : Held → Held
  bad_fork_cleanup_policy h = bad_fork_cleanup_threadgroup_lock (release mempolicy h)

  unfoldable pub bad_fork_cleanup_perf : Held → Held
  bad_fork_cleanup_perf h = bad_fork_cleanup_policy (release perf h)

  unfoldable pub bad_fork_cleanup_audit : Held → Held
  bad_fork_cleanup_audit h = bad_fork_cleanup_perf (release audit h)

  unfoldable pub bad_fork_cleanup_security : Held → Held
  bad_fork_cleanup_security h = bad_fork_cleanup_audit (release security h)

  unfoldable pub bad_fork_cleanup_semundo : Held → Held
  bad_fork_cleanup_semundo h = bad_fork_cleanup_security (release semundo h)

  -- `exit_files` does nothing for a task without files.
  unfoldable pub bad_fork_cleanup_files : Held → Held
  bad_fork_cleanup_files h = bad_fork_cleanup_semundo (release_if (is_some p.files) files h)

  unfoldable pub bad_fork_cleanup_fs : Held → Held
  bad_fork_cleanup_fs h = bad_fork_cleanup_files (release fs h)

  unfoldable pub bad_fork_cleanup_sighand : Held → Held
  bad_fork_cleanup_sighand h = bad_fork_cleanup_fs (release sighand h)

  unfoldable pub bad_fork_cleanup_signal : Held → Held
  bad_fork_cleanup_signal h =
      bad_fork_cleanup_sighand (release_if (not (has flags Clone.thread)) signal h)

  unfoldable pub bad_fork_cleanup_mm : Held → Held
  bad_fork_cleanup_mm h = bad_fork_cleanup_signal (release_if (is_some p.mm) mm h)

  unfoldable pub bad_fork_cleanup_namespaces : Held → Held
  bad_fork_cleanup_namespaces h = bad_fork_cleanup_mm (release namespaces h)

  unfoldable pub bad_fork_cleanup_io : Held → Held
  bad_fork_cleanup_io h =
      bad_fork_cleanup_namespaces (release_if (is_some p.io_context) io_context h)

  unfoldable pub bad_fork_cleanup_thread : Held → Held
  bad_fork_cleanup_thread h = bad_fork_cleanup_io (release thread h)

  unfoldable pub bad_fork_free_pid : Held → Held
  bad_fork_free_pid h = bad_fork_cleanup_thread (release_if (not idle) pid h)

  unfoldable pub bad_fork_put_pidfd : Held → Held
  bad_fork_put_pidfd h =
      bad_fork_free_pid
        (release_if (has flags Clone.pidfd) pidfd (release_if (has flags Clone.pidfd) pidfile h))

  unfoldable pub bad_fork_cancel_cgroup : Held → Held
  bad_fork_cancel_cgroup h =
      bad_fork_put_pidfd (release cgroup (release tasklist_lock (release siglock h)))
