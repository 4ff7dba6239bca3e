-- ===== src/Fork/Unshare/Laws.antt =====
-- A call of unshare that fails changes nothing, but for name spaces that it may lose.
use oshm.Prelude.{
  ℕ, ◌+◌, ◌≤◌, ◌≡◌, ◌≢◌, ◌⊎◌, refl, Bool, true, false, not, ◌&&◌, ◌||◌, Option, none, some, is_some,
  ◌==◌, if◌then◌else◌, ℤ, pos, eqb_ℤ, ltb, ltb_ℤ, Bool-cases, inl, inr, arith, ne_zero_of_eqb,
}
use oshm.Fork.Clone
use oshm.Fork.{has}
use oshm.Fork.Unshare.{
  Answers, Task, Made, make, put, put_if, make_if, asks_namespace, closed_flags,
  check_unshare_flags, unshare_fs, unshare_fd, with_fs, with_fd, with_cred, with_nsproxy,
  ksys_unshare,
}

-- No object stands from `next` on.
abbrev pub IsFresh : Task → Type 0
IsFresh t = (x : ℕ) → t.next ≤ x → t.count x ≡ 0

-- One reference to an object, if there is one.
abbrev pub one : Option ℕ → ℕ → ℕ
one none x = 0
one (some y) x = if x == y then 1 else 0

-- The task is as at `t`, and each object is held `n` times.
pub record Holds (t u : Task) (n : ℕ → ℕ) : Type 0 where
  pub parts : (u.fs ≡ t.fs) × (u.files ≡ t.files) × (u.cred ≡ t.cred) × (u.nsproxy ≡ t.nsproxy)
  pub undo : (u.sem_undo ≡ t.sem_undo) × (u.shm ≡ t.shm)
  pub counts : (x : ℕ) → u.count x ≡ n x
  pub fresh : IsFresh u

abbrev plus : (ℕ → ℕ) → Option ℕ → ℕ → ℕ
plus n o x = n x + one o x

module _ (t u : Task) (n : ℕ → ℕ) where
  make-Holds : Holds t u n → Holds t (make u) (plus n (some u.next))
  make-Holds h = record {
    parts = h.parts;
    undo = h.undo;
    counts = λ x. counts (h.fresh u.next) x (h.counts x);
    fresh = λ x le. fresh x (h.fresh x) le;
  }
    where
      counts :
          (u.next ≤ u.next → u.count u.next ≡ 0)
          → (x : ℕ) → u.count x ≡ n x
          → (make u).count x ≡ plus n (some u.next) x
      counts none_there x same = ground arith

      fresh : (x : ℕ) → (u.next ≤ x → u.count x ≡ 0) → u.next + 1 ≤ x → (make u).count x ≡ 0
      fresh x old le = ground arith

  put-Holds : (y : ℕ) → Holds t u (plus n (some y)) → Holds t (put y u) n
  put-Holds y h = record {
    parts = h.parts;
    undo = h.undo;
    counts = λ x. counts x (h.counts x) (h.counts y);
    fresh = λ x le. fresh x (h.fresh x le);
  }
    where
      counts :
          (x : ℕ)
          → u.count x ≡ plus n (some y) x
          → u.count y ≡ plus n (some y) y
          → (put y u).count x ≡ n x
      counts x at_x at_y = ground arith

      fresh : (x : ℕ) → u.count x ≡ 0 → (put y u).count x ≡ 0
      fresh x none_there = ground arith

  same-Holds : Holds t u n → Holds t u (plus n none)
  same-Holds h = record {
    parts = h.parts;
    undo = h.undo;
    counts = λ x. omega (arith, h.counts x);
    fresh = h.fresh;
  }

  none-Holds : Holds t u (plus n none) → Holds t u n
  none-Holds h = record {
    parts = h.parts;
    undo = h.undo;
    counts = λ x. omega (arith, h.counts x);
    fresh = h.fresh;
  }

put_if-Holds :
    (t u : Task) (n : ℕ → ℕ) (o : Option ℕ) → Holds t u (plus n o) → Holds t (put_if o u) n
put_if-Holds t u n none h = none-Holds t u n h
put_if-Holds t u n (some y) h = put-Holds t u n y h

-- A call makes an object or none; with an error it makes none.
abbrev Makes : Task → (ℕ → ℕ) → Made → Type 0
Makes t n (err, o, u) = Holds t u (plus n o) × ((eqb_ℤ err (pos 0) ≡ true) ⊎ (o ≡ none))

module _ (t u : Task) (n : ℕ → ℕ) (h : Holds t u n) where
  make_if-Makes : (asked : Bool) (err : ℤ) → Makes t n (make_if asked err u)
  make_if-Makes false err = (same-Holds t u n h, inl refl)
  make_if-Makes true err = elim (Bool-cases (eqb_ℤ err (pos 0))) [
    | inl fine ↦ rw fine (make-Holds t u n h, inl refl)
    | inr fails ↦ rw fails (same-Holds t u n h, inr refl)
  ]

  unshare_fd-Makes : (a : Answers) (flags : ℕ) → Makes t n (unshare_fd a flags u)
  unfolding unshare_fd
  unshare_fd-Makes a flags =
      elim (Bool-cases (has flags Clone.files && (not (u.files == 0) && ltb 1 (u.count u.files)))) [
        | inr alone ↦ rw alone (same-Holds t u n h, inl refl)
        | inl shared ↦ rw shared (elim (Bool-cases (ltb_ℤ a.dup_fd (pos 0))) [
          | inl fails ↦ rw fails (same-Holds t u n h, inr refl)
          | inr works ↦ rw works (make-Holds t u n h, inl refl)
        ])
      ]

  unshare_fs-Makes : (a : Answers) (flags : ℕ) → Makes t n (unshare_fs a flags u)
  unfolding unshare_fs
  unshare_fs-Makes a flags = elim (Bool-cases (not (has flags Clone.fs) || u.fs == 0)) [
    | inl nothing ↦ rw nothing (same-Holds t u n h, inl refl)
    | inr asked ↦ rw asked (elim (Bool-cases (u.count u.fs == 1)) [
      | inl alone ↦ rw alone (same-Holds t u n h, inl refl)
      | inr shared ↦ rw shared (elim (Bool-cases a.copy_fs_struct) [
        | inr fails ↦ rw fails (same-Holds t u n h, inr refl)
        | inl works ↦ rw works (make-Holds t u n h, inl refl)
      ])
    ])
  ]

no_object :
    (t u : Task) (n : ℕ → ℕ) (err : ℤ) (o : Option ℕ)
    → eqb_ℤ err (pos 0) ≡ false
    → (eqb_ℤ err (pos 0) ≡ true) ⊎ (o ≡ none)
    → Holds t u (plus n o)
    → Holds t u n
no_object t u n err none fails why h = none-Holds t u n h
no_object t u n err (some y) fails (inl fine) h = cc
no_object t u n err (some y) fails (inr e) h = cc

-- An error, and everything is as before, but that one new name space may be held for ever.
abbrev pub Undone : Answers → ℕ → Task → ℤ × Task → Type 0
Undone a flags t (err, u) =
    (err ≡ pos 0)
    ⊎ ((err ≢ pos 0)
        × (Holds t u t.count
            ⊎ ((err ≡ a.set_cred_ucounts)
                × (asks_namespace flags ≡ true)
                × ((x : ℕ) × Holds t u (plus t.count (some x))))))

module _ (a : Answers) (flags : ℕ) (t : Task) where
  failed-Undone :
      (err : ℤ) (u : Task)
      → eqb_ℤ err (pos 0) ≡ false
      → Holds t u t.count
      → Undone a flags t (err, u)
  failed-Undone err u fails h = inr (ne_zero_of_eqb err fails, inl h)

  undo_all :
      (u : Task) (n : ℕ → ℕ) (fs fd cred : Option ℕ)
      → Holds t u (plus (plus (plus n fs) fd) cred)
      → Holds t (put_if fs (put_if fd (put_if cred u))) n
  undo_all u n fs fd cred h =
      put_if-Holds t _ n fs
        (put_if-Holds t _ (plus n fs) fd (put_if-Holds t u (plus (plus n fs) fd) cred h))

  -- The order in which objects are counted does not matter.
  lost_first :
      (u : Task) (fs fd cred o : Option ℕ)
      → Holds t u (plus (plus (plus (plus t.count fs) fd) cred) o)
      → Holds t u (plus (plus (plus (plus t.count o) fs) fd) cred)
  lost_first u fs fd cred o h = record {
    parts = h.parts;
    undo = h.undo;
    counts = λ x. omega (arith, h.counts x);
    fresh = h.fresh;
  }

  refused : (b c : Bool) → (b && not c) ≡ true → c ≡ false
  refused b c h = ground arith

  with_nsproxy-Undone :
      (fs fd cred : Option ℕ) (r : Made)
      → ((r.1 ≡ none) ⊎ (asks_namespace flags ≡ true))
      → Makes t (plus (plus (plus t.count fs) fd) cred) r
      → Undone a flags t (with_nsproxy a flags fs fd cred r)
  with_nsproxy-Undone fs fd cred (err, none, u) asks (h, why) =
      let back = undo_all u t.count fs fd cred (none-Holds t u _ h) in
      elim (Bool-cases (eqb_ℤ err (pos 0))) [
        | inr fails ↦ rw fails (failed-Undone err _ fails back)
        | inl fine ↦
            rw fine (elim (Bool-cases (is_some cred && not (eqb_ℤ a.set_cred_ucounts (pos 0)))) [
              | inl over ↦ rw over (failed-Undone a.set_cred_ucounts _ (refused _ _ over) back)
              | inr within ↦ rw within (inl refl)
            ])
      ]
  with_nsproxy-Undone fs fd cred (err, some y, u) asks (h, why) = elim why [
    | inr none_made ↦ cc
    | inl fine ↦
        rw fine (elim (Bool-cases (is_some cred && not (eqb_ℤ a.set_cred_ucounts (pos 0)))) [
          | inl over ↦ rw over (
              inr (
                ne_zero_of_eqb a.set_cred_ucounts (refused _ _ over),
                inr (
                  refl,
                  asked asks,
                  (
                    y,
                    undo_all u (plus t.count (some y)) fs fd cred
                        (lost_first u fs fd cred (some y) h),
                  ),
                ),
              ))
          | inr within ↦ rw within (inl refl)
        ])
  ]
    where
      asked :
          ((◌≡◌ {A = Option ℕ} (some y) none) ⊎ (asks_namespace flags ≡ true))
          → asks_namespace flags ≡ true
      asked (inl e) = cc
      asked (inr e) = e

  asks_if : (asked : Bool) (err : ℤ) (u : Task) → ((make_if asked err u).1 ≡ none) ⊎ (asked ≡ true)
  asks_if false err u = inl refl
  asks_if true err u = inr refl

  with_cred-Undone :
      (fs fd : Option ℕ) (r : Made)
      → Makes t (plus (plus t.count fs) fd) r
      → Undone a flags t (with_cred a flags fs fd r)
  with_cred-Undone fs fd (err, o, u) (h, why) = elim (Bool-cases (eqb_ℤ err (pos 0))) [
    | inl fine ↦ rw fine (
        with_nsproxy-Undone fs fd o (make_if (asks_namespace flags) a.nsproxy_namespaces u)
          (asks_if (asks_namespace flags) a.nsproxy_namespaces u)
          (make_if-Makes t u _ h (asks_namespace flags) a.nsproxy_namespaces))
    | inr fails ↦ rw fails (
        failed-Undone err _ fails (
          put_if-Holds t _ t.count fs
            (put_if-Holds t u (plus t.count fs) fd (no_object t u _ err o fails why h))))
  ]

  with_fd-Undone :
      (fs : Option ℕ) (r : Made)
      → Makes t (plus t.count fs) r
      → Undone a flags t (with_fd a flags fs r)
  with_fd-Undone fs (err, o, u) (h, why) = elim (Bool-cases (eqb_ℤ err (pos 0))) [
    | inl fine ↦ rw fine (
        with_cred-Undone fs o (make_if (has flags Clone.newuser) a.unshare_userns u)
          (make_if-Makes t u _ h (has flags Clone.newuser) a.unshare_userns))
    | inr fails ↦ rw fails (
        failed-Undone err _ fails (put_if-Holds t u t.count fs (no_object t u _ err o fails why h)))
  ]

  with_fs-Undone : (r : Made) → Makes t t.count r → Undone a flags t (with_fs a flags r)
  with_fs-Undone (err, o, u) (h, why) = elim (Bool-cases (eqb_ℤ err (pos 0))) [
    | inl fine ↦
        rw fine (with_fd-Undone o (unshare_fd a flags u) (unshare_fd-Makes t u _ h a flags))
    | inr fails ↦ rw fails (failed-Undone err u fails (no_object t u t.count err o fails why h))
  ]

-- A call of unshare returns 0, or it returns another number, and then the task has its file system data,
-- files, credentials and name spaces, its undo list and its segments as before, and every object is held
-- as often as before; but if `set_cred_ucounts` is what fails, with flags that ask for a name space, one
-- new object may stay held.
pub ksys_unshare-Undone :
    (a : Answers) (flags : ℕ) (t : Task)
    → IsFresh t
    → Undone a (closed_flags flags) t (ksys_unshare a flags t)
unfolding ksys_unshare
ksys_unshare-Undone a flags t fresh =
    let f = closed_flags flags in
    let start : Holds t t t.count = record {
      parts = (refl, refl, refl, refl);
      undo = (refl, refl);
      counts = λ x. refl;
      fresh = fresh;
    } in
    elim (Bool-cases (eqb_ℤ (check_unshare_flags a f) (pos 0))) [
      | inl fine ↦
          rw fine (with_fs-Undone a f t (unshare_fs a f t) (unshare_fs-Makes t t t.count start a f))
      | inr bad ↦ rw bad (failed-Undone a f t (check_unshare_flags a f) t bad start)
    ]
