-- ===== src/Fork/Vfork/Progress.antt =====
-- A vfork ends, and never leaves the child with a pointer to a stack that is gone.
use oshm.Prelude.{
  ℕ, ◌+◌, ◌≤◌, ◌≡◌, ◌≢◌, ◌⊎◌, refl, sym, ◌∙◌, Bool, true, false, if◌then◌else◌, inl, inr, arith,
  Bool-cases,
}
use mathlib.Core.Path.{subst}
use oshm.Fork.Vfork.{
  Parent, waiting, leaving, returned, Vfork, init_vfork, mm_release, complete_vfork_done,
  leave_vfork, Step, release, complete, wake, kill, unlink, Run, here, next,
}

-- Before the caller has returned, the child has neither ended the completion nor let go of it, or both.
abbrev pub Pending : Vfork → Type 0
Pending v =
    ((v.released ≡ false) × (v.vfork_done ≡ true) × (v.completed ≡ false))
    ⊎ ((v.released ≡ true) × (v.vfork_done ≡ false) × (v.completed ≡ true))

-- `n` references to the child are those of others.
abbrev At : ℕ → Vfork → Parent → Type 0
At n v waiting = Pending v × (v.usage ≡ n + 1)
At n v leaving = Pending v × (v.usage ≡ n + 1)
At n v (returned killed) =
    (v.vfork_done ≡ false) × (v.usage ≡ n) × ((killed ≡ true) ⊎ (v.released ≡ true))

abbrev pub IsSafe : ℕ → Vfork → Type 0
IsSafe n v = At n v v.parent

mm_release_lem :
    (v : Vfork)
    → ((mm_release v).parent ≡ v.parent)
      × ((mm_release v).usage ≡ v.usage)
      × ((mm_release v).vfork_done ≡ v.vfork_done)
      × ((mm_release v).completed ≡ v.completed)
      × ((v.vfork_done ≡ true)
          → ((mm_release v).released ≡ v.released) × ((mm_release v).looked ≡ true))
      × ((v.vfork_done ≡ false) → (mm_release v).released ≡ true)
unfolding mm_release
mm_release_lem v = ground arith

complete_vfork_done_lem :
    (v : Vfork)
    → ((complete_vfork_done v).parent ≡ v.parent)
      × ((complete_vfork_done v).usage ≡ v.usage)
      × ((complete_vfork_done v).released ≡ true)
      × ((complete_vfork_done v).vfork_done ≡ false)
      × ((v.vfork_done ≡ true) → (complete_vfork_done v).completed ≡ true)
unfolding complete_vfork_done
complete_vfork_done_lem v = ground arith

release-At :
    (n : ℕ) (v : Vfork) (p : Parent) → v.released ≡ false → At n v p → At n (mm_release v) p
release-At n v waiting r (pending, use_n) = ground (arith, mm_release_lem v)
release-At n v leaving r (pending, use_n) = ground (arith, mm_release_lem v)
release-At n v (returned k) r (off, use_n, why) = ground (arith, mm_release_lem v)

complete-At :
    (n : ℕ) (v : Vfork) (p : Parent)
    → v.released ≡ false
    → At n v p
    → At n (complete_vfork_done v) p
complete-At n v waiting r (pending, use_n) = ground (arith, complete_vfork_done_lem v)
complete-At n v leaving r (pending, use_n) = ground (arith, complete_vfork_done_lem v)
complete-At n v (returned k) r (off, use_n, why) = ground (arith, complete_vfork_done_lem v)

Step-IsSafe : (n : ℕ) {v w : Vfork} → Step v w → IsSafe n v → IsSafe n w
unfolding leave_vfork
Step-IsSafe n {v} (release r l) safe = rw ((mm_release_lem v).0) (release-At n v v.parent r safe)
Step-IsSafe n {v} (complete r l) safe =
    rw ((complete_vfork_done_lem v).0) (complete-At n v v.parent r safe)
Step-IsSafe n {v} (wake p c) safe =
    let now : At n v waiting = subst (At n v) p safe in
    (woken_off v now.0 c, omega (arith, now.1), inr (woken_released v now.0 c))
  where
    woken_off : (v : Vfork) → Pending v → v.completed ≡ true → v.vfork_done ≡ false
    woken_off v pending c = ground arith

    woken_released : (v : Vfork) → Pending v → v.completed ≡ true → v.released ≡ true
    woken_released v pending c = ground arith
Step-IsSafe n {v} (kill p c) safe = let now : At n v waiting = subst (At n v) p safe in now
Step-IsSafe n {v} (unlink p) safe =
    let now : At n v leaving = subst (At n v) p safe in (refl, omega (arith, now.1), inl refl)

-- In every state that a vfork reaches, whatever the order of the steps: until the caller has returned,
-- it holds its reference and the child either still points to the completion or has ended it; once it
-- has returned, the child does not point to the completion, which stood on the caller's stack, the
-- reference is given back, and the child has let go of the memory unless the caller was killed.
pub vfork-IsSafe : (usage : ℕ) {k : ℕ} {v : Vfork} → Run (init_vfork usage) k v → IsSafe usage v
unfolding init_vfork
vfork-IsSafe usage here = (inl (refl, refl, refl), refl)
vfork-IsSafe usage (next r st) = Step-IsSafe usage st (vfork-IsSafe usage r)

stage : Parent → ℕ
stage waiting = 2
stage leaving = 1
stage (returned killed) = 0

-- The steps that are left at most.
steps_left : Vfork → ℕ
steps_left v = (if v.released then 0 else if v.looked then 1 else 2) + stage v.parent

Step-steps_left : {v w : Vfork} → Step v w → steps_left w + 1 ≤ steps_left v
unfolding steps_left stage leave_vfork
Step-steps_left {v} (release r l) =
    rw (r, l)
      (elim (Bool-cases v.vfork_done) [
        | inl set ↦ ground (arith, mm_release_lem v)
        | inr clear ↦ ground (arith, mm_release_lem v)
      ])
Step-steps_left {v} (complete r l) = ground (arith, complete_vfork_done_lem v)
Step-steps_left {v} (wake p c) = rw p (ground arith)
Step-steps_left {v} (kill p c) = rw p (ground arith)
Step-steps_left {v} (unlink p) = rw p (ground arith)

Run-steps_left : {v u : Vfork} {k : ℕ} → Run v k u → k + steps_left u ≤ steps_left v
Run-steps_left here = omega arith
Run-steps_left (next {n} {u} {w} r st) = omega (arith, Run-steps_left r, Step-steps_left st)

-- Everything is over: the caller has returned, and the child has let go of the memory.
abbrev pub IsOver : ℕ → Vfork → Type 0
IsOver n v =
    ((killed : Bool) × (v.parent ≡ returned killed))
    × (v.released ≡ true)
    × (v.vfork_done ≡ false)
    × (v.usage ≡ n)

-- A step that needs no fatal signal is possible.
abbrev pub GoesOn : Vfork → Type 0
GoesOn v = (w : Vfork) × Step v w × (w.parent ≢ leaving)

waiting-ne_leaving : (p : Parent) → p ≡ waiting → p ≢ leaving
waiting-ne_leaving p e l = apart (sym e ∙ l)
  where
    apart : waiting ≢ leaving
    apart = ground arith

returned-ne_leaving : (k : Bool) → returned k ≢ leaving
returned-ne_leaving k = ground arith

-- The child's own next step, which leaves the caller where it is.
child-GoesOn : (v : Vfork) → v.parent ≢ leaving → v.released ≡ false → GoesOn v
child-GoesOn v stays r = elim (Bool-cases v.looked) [
  | inl l ↦ (complete_vfork_done v, complete r l, rw ((complete_vfork_done_lem v).0) stays)
  | inr l ↦ (mm_release v, release r l, rw ((mm_release_lem v).0) stays)
]

At-GoesOn : (n : ℕ) (v : Vfork) (p : Parent) → v.parent ≡ p → At n v p → GoesOn v ⊎ IsOver n v
unfolding leave_vfork
At-GoesOn n v waiting e (inl (r, d, c), u) = inl (child-GoesOn v (waiting-ne_leaving v.parent e) r)
At-GoesOn n v waiting e (inr (r, d, c), u) =
    inl (leave_vfork false v, wake e c, returned-ne_leaving false)
At-GoesOn n v leaving e (pending, u) = inl (leave_vfork true v, unlink e, returned-ne_leaving true)
At-GoesOn n v (returned k) e (off, u, why) = elim (Bool-cases v.released) [
  | inl r ↦ inr ((k, e), r, off, u)
  | inr r ↦ inl (child-GoesOn v (λ l. returned-ne_leaving k (sym e ∙ l)) r)
]

-- A vfork ends, and needs no signal to: whatever the order of its steps it takes four at most; and in every
-- state that it reaches, a step other than the fatal signal is possible, or the caller has returned, the child
-- has let go of the memory and of the completion, and the reference to it is given back.
pub vfork-ends :
    (usage : ℕ) {k : ℕ} {v : Vfork}
    → Run (init_vfork usage) k v
    → (k ≤ 4) × (GoesOn v ⊎ IsOver usage v)
unfolding steps_left stage init_vfork
vfork-ends usage {k} {v} r =
    (omega (arith, Run-steps_left r), At-GoesOn usage v v.parent refl (vfork-IsSafe usage r))
