-- ===== src/Fork/Unshare.antt =====
-- `ksys_unshare` (kernel/fork.c): a task leaves what it shares, all of it or nothing.
pub mod Laws
use oshm.Prelude.{
  ℕ, ◌+◌, ◌-◌, ◌*◌, ◌/◌, ◌%◌, ◌^◌, ◌≡◌, Bool, true, false, not, ◌&&◌, ◌||◌, Option, none, some,
  is_some, ◌==◌, ltb, if◌then◌else◌, ℤ, pos, neg, eqb_ℤ, ltb_ℤ, einval, enomem, update,
}
use oshm.Fork.Clone
use oshm.Fork.{has}

-- `flags |= 1 << k`
abbrev pub with_flag : ℕ → ℕ → ℕ
with_flag k flags = if has flags k then flags else flags + 2 ^ k

-- What the calls answer, and what the calling task is.
pub record Answers : Type 0 where
  pub thread_group_empty : Bool
  pub sighand_count : ℕ
  pub current_is_single_threaded : Bool
  pub copy_fs_struct : Bool
  pub dup_fd : ℤ
  pub unshare_userns : ℤ
  pub nsproxy_namespaces : ℤ
  pub set_cred_ucounts : ℤ

-- The objects of the calling task, by their addresses, and how often each object is held. The address
-- 0 is a null pointer; `next` is where the next object is made.
pub record Task : Type 0 where
  pub fs : ℕ
  pub files : ℕ
  pub cred : ℕ
  pub nsproxy : ℕ
  pub count : ℕ → ℕ
  pub next : ℕ
  pub sem_undo : Bool
  pub shm : Bool

-- The flags that one flag brings with it, in the order of the code.
unfoldable pub closed_flags : ℕ → ℕ
closed_flags flags =
    let f1 =
      (if has flags Clone.newuser
        then with_flag Clone.fs (with_flag Clone.thread flags)
        else flags) in
    let f2 = (if has f1 Clone.vm then with_flag Clone.sighand f1 else f1) in
    let f3 = (if has f2 Clone.sighand then with_flag Clone.thread f2 else f2) in
    if has f3 Clone.newns then with_flag Clone.fs f3 else f3

-- A bit that is none of the fourteen that can be asked for.
unfoldable pub unknown_flag : ℕ → Bool
unknown_flag flags =
    not (flags % 2 ^ 7 == 0)
    || has flags 12
    || has flags 13
    || has flags 14
    || has flags 15
    || has flags 19
    || has flags 20
    || has flags 21
    || has flags 22
    || has flags 23
    || has flags 24
    || not (flags / 2 ^ 31 == 0)

unfoldable pub check_unshare_flags : Answers → ℕ → ℤ
check_unshare_flags a flags =
    if unknown_flag flags
    then neg einval
    else if (has flags Clone.thread || has flags Clone.sighand || has flags Clone.vm)
        && not a.thread_group_empty
    then neg einval
    else if (has flags Clone.sighand || has flags Clone.vm) && ltb 1 a.sighand_count
    then neg einval
    else if has flags Clone.vm && not a.current_is_single_threaded
    then neg einval
    else pos 0

-- A new object with one reference.
abbrev pub make : Task → Task
make t = record t { count = update t.count t.next 1; next = t.next + 1 }

-- A reference is given back; an object without references is freed.
abbrev pub put : ℕ → Task → Task
put x t = record t { count = update t.count x (t.count x - 1) }

-- The error number, the new object, if one is made, and the state.
abbrev pub Made : Type 0
Made = ℤ × Option ℕ × Task

unfoldable pub unshare_fs : Answers → ℕ → Task → Made
unshare_fs a flags t =
    if not (has flags Clone.fs) || t.fs == 0
    then (pos 0, none, t)
    else if t.count t.fs == 1
    then (pos 0, none, t)
    else if not a.copy_fs_struct
    then (neg enomem, none, t)
    else (pos 0, some t.next, make t)

unfoldable pub unshare_fd : Answers → ℕ → Task → Made
unshare_fd a flags t =
    if has flags Clone.files && (not (t.files == 0) && ltb 1 (t.count t.files))
    then if ltb_ℤ a.dup_fd (pos 0) then (a.dup_fd, none, t) else (pos 0, some t.next, make t)
    else (pos 0, none, t)

-- The calls outside this file make an object if the flags ask for one.
abbrev pub make_if : Bool → ℤ → Task → Made
make_if asked err t =
    if not asked
    then (pos 0, none, t)
    else if not (eqb_ℤ err (pos 0))
    then (err, none, t)
    else (pos 0, some t.next, make t)

abbrev pub asks_namespace : ℕ → Bool
asks_namespace flags =
    has flags Clone.newns
    || has flags Clone.newuts
    || has flags Clone.newipc
    || has flags Clone.newnet
    || has flags Clone.newpid
    || has flags Clone.newcgroup
    || has flags Clone.newtime

abbrev pub put_if : Option ℕ → Task → Task
put_if none t = t
put_if (some x) t = put x t

-- The objects change places: the reference of the old one is given back after the new one is installed.
abbrev pub install_fs : Option ℕ → Task → Task
install_fs none t = t
install_fs (some x) t = put t.fs (record t { fs = x })

abbrev pub install_files : Option ℕ → Task → Task
install_files none t = t
install_files (some x) t = put t.files (record t { files = x })

abbrev pub install_cred : Option ℕ → Task → Task
install_cred none t = t
install_cred (some x) t = put t.cred (record t { cred = x })

abbrev pub install_nsproxy : Option ℕ → Task → Task
install_nsproxy none t = t
install_nsproxy (some x) t = put t.nsproxy (record t { nsproxy = x })

-- The end of a call that succeeds. `do_sysvsem` leaves the undo list, CLONE_NEWIPC the segments.
abbrev pub commit : ℕ → (new_fs new_fd new_cred new_nsproxy : Option ℕ) → Task → Task
commit flags new_fs new_fd new_cred new_nsproxy t =
    let do_sysvsem = has flags Clone.newipc || has flags Clone.sysvsem in
    let left : Task = record t {
      sem_undo = t.sem_undo && not do_sysvsem;
      shm = t.shm && not (has flags Clone.newipc);
    } in
    if is_some new_fs || is_some new_fd || do_sysvsem || is_some new_cred || is_some new_nsproxy
    then install_cred new_cred
        (install_files new_fd (install_fs new_fs (install_nsproxy new_nsproxy left)))
    else t

-- From the call of `set_cred_ucounts` on; the label does not give the name spaces back.
abbrev pub with_nsproxy : Answers → ℕ → (new_fs new_fd new_cred : Option ℕ) → Made → ℤ × Task
with_nsproxy a flags new_fs new_fd new_cred (err, new_nsproxy, t) =
    if not (eqb_ℤ err (pos 0))
    then (err, put_if new_fs (put_if new_fd (put_if new_cred t)))
    else if is_some new_cred && not (eqb_ℤ a.set_cred_ucounts (pos 0))
    then (a.set_cred_ucounts, put_if new_fs (put_if new_fd (put_if new_cred t)))
    else (pos 0, commit flags new_fs new_fd new_cred new_nsproxy t)

abbrev pub with_cred : Answers → ℕ → (new_fs new_fd : Option ℕ) → Made → ℤ × Task
with_cred a flags new_fs new_fd (err, new_cred, t) =
    if not (eqb_ℤ err (pos 0))
    then (err, put_if new_fs (put_if new_fd t))
    else with_nsproxy a flags new_fs new_fd new_cred
        (make_if (asks_namespace flags) a.nsproxy_namespaces t)

abbrev pub with_fd : Answers → ℕ → (new_fs : Option ℕ) → Made → ℤ × Task
with_fd a flags new_fs (err, new_fd, t) =
    if not (eqb_ℤ err (pos 0))
    then (err, put_if new_fs t)
    else with_cred a flags new_fs new_fd (make_if (has flags Clone.newuser) a.unshare_userns t)

abbrev pub with_fs : Answers → ℕ → Made → ℤ × Task
with_fs a flags (err, new_fs, t) =
    if not (eqb_ℤ err (pos 0)) then (err, t) else with_fd a flags new_fs (unshare_fd a flags t)

unfoldable pub ksys_unshare : Answers → ℕ → Task → ℤ × Task
unfolding closed_flags check_unshare_flags unshare_fs unshare_fd
ksys_unshare a unshare_flags t =
    let flags = closed_flags unshare_flags in
    let err = check_unshare_flags a flags in
    if not (eqb_ℤ err (pos 0)) then (err, t) else with_fs a flags (unshare_fs a flags t)
