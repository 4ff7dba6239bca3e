-- ===== src/SocketAttrs/Laws.antt =====
-- Who may set what, and what a call leaves alone.
use oshm.Prelude.{
  ℕ, zero, suc, ltb, leb_ℤ, negsuc, ◌+◌, ◌-◌, ◌≡◌, ◌≢◌, refl, ap, Bool, false, ◌&&◌, ◌||◌, Option,
  none, some, arith, ◌==◌, ==_iff, if◌then◌else◌, Bool-cases, Option-cases, ◌∙◌, inl, inr, ℤ, pos,
  neg, eqb_ℤ, eqb_ℤ_iff, eperm, esrch, einval,
}
use oshm.Task.{TaskStruct, IsInRange}
use oshm.SocketAttrs.{
  World, rcu_read_lock, rcu_read_unlock, get_task_struct, on_found, may_set, set_attrs,
  check_and_set, set_thread_socket_attrs,
}

-- The task that a call is about.
abbrev pub target : (ℤ → Option ℕ) → World → ℤ → Option ℕ
target find w pid = if eqb_ℤ pid (pos 0) then some w.current else find pid

-- What a call returns, by the code's own test.
abbrev reply_set : Bool → World → Option ℕ → ℤ
reply_set capable w none = neg esrch
reply_set capable w (some a) = if may_set capable w a then pos 0 else neg eperm

-- Who may set the task `a`: a caller with CAP_SYS_RESOURCE, and one whose effective user number is the
-- task's effective or real one.
abbrev pub permits : Bool → World → ℕ → Bool
permits capable w a =
    let caller = (w.tasks w.current).euid in
    capable || (caller == (w.tasks a).euid) || (caller == (w.tasks a).uid)

-- What a call returns, and the attributes that it gives the task at `b`, by its arguments alone.
abbrev pub reply : Bool → World → Option ℕ → ℤ
reply capable w none = neg esrch
reply capable w (some a) = if permits capable w a then pos 0 else neg eperm

-- The limit asked for counts from -1 up, the priority from 0 to 100.
abbrev pub allowed : ℤ → ℤ → ℤ
allowed (pos n) old = pos n
allowed (negsuc zero) old = negsuc zero
allowed (negsuc (suc n)) old = old

abbrev pub priority : ℤ → ℤ → ℤ
priority (pos n) old = if ltb n 101 then pos n else old
priority (negsuc n) old = old

abbrev pub asked : ℤ → ℤ → TaskStruct → TaskStruct
asked m p t = record t {
  max_socket_allowed = allowed m t.max_socket_allowed;
  priority_level = priority p t.priority_level;
}

abbrev pub attrs_after : Bool → World → Option ℕ → ℤ → ℤ → ℕ → TaskStruct
attrs_after capable w none m p b = w.tasks b
attrs_after capable w (some a) m p b =
    if b == a && permits capable w a then asked m p (w.tasks b) else w.tasks b

abbrev attrs_set : Bool → World → Option ℕ → ℤ → ℤ → ℕ → TaskStruct
attrs_set capable w none m p b = w.tasks b
attrs_set capable w (some a) m p b =
    if b == a && may_set capable w a then set_attrs m p (w.tasks b) else w.tasks b

set_attrs-asked : (m p : ℤ) (t : TaskStruct) → set_attrs m p t ≡ asked m p t
unfolding set_attrs
set_attrs-asked m p t = rw (limit m t.max_socket_allowed, level p t.priority_level) refl
  where
    limit : (m old : ℤ) → (if leb_ℤ (neg 1) m then m else old) ≡ allowed m old
    limit (pos n) old = refl
    limit (negsuc zero) old = refl
    limit (negsuc (suc n)) old = ground arith

    level : (p old : ℤ) → (if leb_ℤ (pos 0) p && leb_ℤ p (pos 100) then p else old) ≡ priority p old
    level (pos n) old = ground arith
    level (negsuc n) old = refl

may_set-permits : (capable : Bool) (w : World) (a : ℕ) → may_set capable w a ≡ permits capable w a
unfolding may_set
may_set-permits capable w a = ground arith

reply_set_eq :
    (capable : Bool) (w : World) (o : Option ℕ) → reply_set capable w o ≡ reply capable w o
reply_set_eq capable w none = refl
reply_set_eq capable w (some a) = rw (may_set-permits capable w a) refl

attrs_set-after :
    (capable : Bool) (w : World) (o : Option ℕ) (m p : ℤ) (b : ℕ)
    → attrs_set capable w o m p b ≡ attrs_after capable w o m p b
attrs_set-after capable w none m p b = refl
attrs_set-after capable w (some a) m p b =
    rw (set_attrs-asked m p (w.tasks b), may_set-permits capable w a) refl

set_attrs-IsInRange : (m p : ℤ) (t : TaskStruct) → IsInRange t → IsInRange (set_attrs m p t)
unfolding set_attrs
set_attrs-IsInRange m p t v = ground arith

-- Holding the task found and the RCU lock does not change who may set it.
held : ℕ → World → World
held a w = rcu_read_unlock (get_task_struct a (rcu_read_lock w))

may_set-held :
    (capable : Bool) (a : ℕ) (w : World) → may_set capable (held a w) a ≡ may_set capable w a
unfolding may_set held
may_set-held capable a w = elim (Bool-cases (w.current == a)) [
  | inl same ↦ rw (same, (==_iff a a).1 refl) (rw ((==_iff w.current a).0 same))
  | inr other ↦ rw (other, (==_iff a a).1 refl)
]

check_and_set_lem :
    (capable : Bool) (a : ℕ) (m p : ℤ) (w : World)
    → ((check_and_set capable a m p w).0 ≡ reply_set capable w (some a))
      × ((b : ℕ) → (check_and_set capable a m p w).1.tasks b ≡ attrs_set capable w (some a) m p b)
      × ((check_and_set capable a m p w).1.rcu ≡ w.rcu)
unfolding check_and_set
check_and_set_lem capable a m p w = elim (Bool-cases (may_set capable w a)) [
  | inl may ↦ rw may (refl, (λ b. ground (arith, ==_iff b a, ap w.tasks {x = b} {y = a})), refl)
  | inr not_may ↦ rw not_may (refl, (λ b. ground arith), refl)
]

restore : (n : ℕ) → n + 1 - 1 ≡ n
restore n = omega arith

-- Looking the task up, setting it and giving it back.
found_lem :
    (capable : Bool) (a : ℕ) (m p : ℤ) (w : World)
    → ((on_found (some a) capable m p (rcu_read_lock w)).0 ≡ reply_set capable w (some a))
      × ((b : ℕ)
          → (on_found (some a) capable m p (rcu_read_lock w)).1.tasks b
            ≡ attrs_set capable w (some a) m p b)
      × ((on_found (some a) capable m p (rcu_read_lock w)).1.rcu ≡ w.rcu)
unfolding held set_attrs
found_lem capable a m p w =
    let facts = check_and_set_lem capable a m p (held a w) in
    (
      rw (facts.0, may_set-held capable a w) refl,
      (λ b. elim (Bool-cases (b == a)) [
        | inr other ↦ rw (other, facts.1 b, other)
        | inl same ↦
            rw (same, (==_iff b a).0 same, facts.1 a, may_set-held capable a w, (==_iff a a).1 refl)
              (elim (Bool-cases (may_set capable w a)) [
                | inl may ↦ rw may (rw (restore (w.tasks a).usage))
                | inr not_may ↦ rw not_may (rw (restore (w.tasks a).usage))
              ])
      ]),
      facts.2 ∙ omega arith,
    )

abbrev with_flags_zero : (ℤ → Option ℕ) → Bool → ℤ → ℤ → ℤ → World → ℤ × World
with_flags_zero find capable pid m p w =
    if eqb_ℤ pid (pos 0)
    then check_and_set capable w.current m p w
    else on_found (find pid) capable m p (rcu_read_lock w)

good_flags :
    (find : ℤ → Option ℕ) (capable : Bool) (pid m p : ℤ) (w : World)
    → ((with_flags_zero find capable pid m p w).0 ≡ reply_set capable w (target find w pid))
      × ((b : ℕ)
          → (with_flags_zero find capable pid m p w).1.tasks b
            ≡ attrs_set capable w (target find w pid) m p b)
      × ((with_flags_zero find capable pid m p w).1.rcu ≡ w.rcu)
good_flags find capable pid m p w = elim (Bool-cases (eqb_ℤ pid (pos 0))) [
  | inl self ↦ rw self (check_and_set_lem capable w.current m p w)
  | inr other ↦ rw other (elim (Option-cases (find pid)) [
    | inl missing ↦ rw missing (refl, λ b. refl, omega arith)
    | inr (a, found) ↦ rw found (found_lem capable a m p w)
  ])
]

-- Every branch of the system call at once. Flags other than 0 give -EINVAL and change nothing.
-- Otherwise a process number that is not found gives -ESRCH, a task that the caller may not set,
-- with neither CAP_SYS_RESOURCE nor an effective user number that is the task's effective or real one,
-- gives -EPERM, and any other gives 0; the task found, if it may be set, gets the values that are in range,
-- and every other field of it, its use count, every other task and the RCU depth are as before.
pub set_thread_socket_attrs_lem :
    (find : ℤ → Option ℕ) (capable : Bool) (pid m p : ℤ) (flags : ℕ) (w : World)
    → (set_thread_socket_attrs find capable pid m p flags w).0
        ≡ (if flags == 0 then reply capable w (target find w pid) else neg einval)
      × ((b : ℕ)
          → (set_thread_socket_attrs find capable pid m p flags w).1.tasks b
            ≡ (if flags == 0 then attrs_after capable w (target find w pid) m p b else w.tasks b))
      × ((set_thread_socket_attrs find capable pid m p flags w).1.rcu ≡ w.rcu)
unfolding set_thread_socket_attrs
set_thread_socket_attrs_lem find capable pid m p flags w = elim (Bool-cases (flags == 0)) [
  | inr bad ↦ rw bad (refl, λ b. refl, refl)
  | inl good ↦ rw good (
      let (r, t, rcu) = good_flags find capable pid m p w in
      (
        r ∙ reply_set_eq capable w (target find w pid),
        (λ b. t b ∙ attrs_set-after capable w (target find w pid) m p b),
        rcu,
      ))
]

-- The call keeps every task's limit at -1 or above and its priority between 0 and 100, whatever the
-- arguments are.
set_thread_socket_attrs-IsInRange :
    (find : ℤ → Option ℕ) (capable : Bool) (pid m p : ℤ) (flags : ℕ) (w : World)
    → ((b : ℕ) → IsInRange (w.tasks b))
    → (b : ℕ) → IsInRange ((set_thread_socket_attrs find capable pid m p flags w).1.tasks b)
set_thread_socket_attrs-IsInRange find capable pid m p flags w v b =
    rw ((set_thread_socket_attrs_lem find capable pid m p flags w).1 b)
      (elim (Bool-cases (flags == 0)) [
        | inr bad ↦ rw bad (v b)
        | inl good ↦ rw good (kept (target find w pid))
      ])
  where
    kept : (o : Option ℕ) → IsInRange (attrs_after capable w o m p b)
    kept none = v b
    kept (some a) = elim (Bool-cases (b == a && permits capable w a)) [
      | inr not_may ↦ rw not_may (v b)
      | inl may ↦
          rw (may, ← set_attrs-asked m p (w.tasks b)) (set_attrs-IsInRange m p (w.tasks b) (v b))
    ]

-- A caller without CAP_SYS_RESOURCE that finds a task of another user, by both of the task's user
-- numbers, gets -EPERM and no task changes at all.
pub set_thread_socket_attrs-stranger :
    (find : ℤ → Option ℕ) (pid m p : ℤ) (w : World) (a : ℕ)
    → pid ≢ pos 0
    → find pid ≡ some a
    → (w.tasks w.current).euid ≢ (w.tasks a).euid
    → (w.tasks w.current).euid ≢ (w.tasks a).uid
    → ((set_thread_socket_attrs find false pid m p 0 w).0 ≡ neg eperm)
      × ((b : ℕ) → (set_thread_socket_attrs find false pid m p 0 w).1.tasks b ≡ w.tasks b)
set_thread_socket_attrs-stranger find pid m p w a other at ne ne' =
    let (r, t, rcu) = set_thread_socket_attrs_lem find false pid m p 0 w in
    let who : target find w pid ≡ some a = ground (arith, eqb_ℤ_iff pid (pos 0)) in
    let refused : permits false w a ≡ false = ground arith in
    (rw (r, who, refused), λ b. rw (t b, who, refused) (ground arith))
