-- ===== src/Fork/Copy/Stages.antt =====
-- What one stage of `copy_process` does to the books, and how stages are put together.
use oshm.Prelude.{
  ◌≡◌, ◌≢◌, ◌⊎◌, eqb_ℤ_iff, refl, ap, ◌∙◌, false, ◌∷◌, ℤ, pos, eqb_ℤ, ltb_ℤ, Bool-cases, inl, inr,
  ne_zero_of_lt, ne_zero_of_eqb,
}
use oshm.Fork.{Child, Held, Copying, Result, failed, ok, after, ◌>>◌, Resource}
use oshm.Fork.Copy.{try, try_below, checked}

-- After a failure everything is given back as `label` does it, and the node is off the list; after
-- success `label'` gives back what `label` did before, and the new task has changed by `g`.
abbrev pub Done : (label label' : Child → Held → Held) → (Child → Child) → Copying → Result → Type 0
Done label label' g s (failed e t) =
    (e ≢ pos 0) × (t.held ≡ label s.p s.held) × (t.linked ≡ false) × (t.stores ≡ s.stores)
Done label label' g s (ok t) =
    (label' t.p t.held ≡ label s.p s.held)
    × (t.p ≡ g s.p)
    × (t.linked ≡ s.linked)
    × (t.stores ≡ s.stores)

pub record Stage (label label' : Child → Held → Held) (g : Child → Child) (f : Copying → Result)
    : Type 0 where
  pub done : (s : Copying) → Done label label' g s (f s)

module _ (l m n : Child → Held → Held) (g g' : Child → Child) where
  Done-then :
      (f' : Copying → Result) (s : Copying) (r : Result)
      → Done l m g s r
      → Stage m n g' f'
      → Done l n (λ p. g' (g p)) s (after f' r)
  Done-then f' s (failed e t) d next = d
  Done-then f' s (ok t) (back, child, linked, stores) next =
      Done-after s t (f' t) back child linked stores (next.done t)
    where
      Done-after :
          (s t : Copying) (r : Result)
          → m t.p t.held ≡ l s.p s.held
          → t.p ≡ g s.p
          → t.linked ≡ s.linked
          → t.stores ≡ s.stores
          → Done m n g' t r
          → Done l n (λ p. g' (g p)) s r
      Done-after s t (failed e u) back child linked stores (ne, held, off, same) =
          (ne, held ∙ back, off, same ∙ stores)
      Done-after s t (ok u) back child linked stores (held, child', linked', same) =
          (held ∙ back, child' ∙ ap g' child, linked' ∙ linked, same ∙ stores)

module _ {l m n : Child → Held → Held} {g g' : Child → Child} where
  infixl 5 ◌then◌
  pub ◌then◌ :
      {f f' : Copying → Result}
      → Stage l m g f
      → Stage m n g' f'
      → Stage l n (λ p. g' (g p)) (f >> f')
  ◌then◌ {f} {f'} first next = record {
    done = λ s. Done-then l m n g g' f' s (f s) (first.done s) next;
  }

-- A part is copied, or an error is returned and nothing is held for it.
abbrev pub Copied :
    (label label' : Child → Held → Held) → (Child → Child) → Copying → ℤ × Copying → Type 0
Copied label label' g s (e, t) =
    ((e ≡ pos 0)
      × (label' t.p t.held ≡ label s.p s.held)
      × (t.p ≡ g s.p)
      × (t.linked ≡ s.linked)
      × (t.stores ≡ s.stores))
    ⊎ ((e ≢ pos 0) × (label t.p t.held ≡ label s.p s.held) × (t.stores ≡ s.stores))

module _ {label label' : Child → Held → Held} where
  pub checked-Stage :
      (g : Child → Child) (f : Copying → ℤ × Copying)
      → ((s : Copying) → Copied label label' g s (f s))
      → Stage label label' g (checked f label)
  unfolding checked
  checked-Stage g f copied = record {
    done = λ s. elim (copied s) [
      | inl (e, back, child, linked, stores) ↦ rw e (back, child, linked, stores)
      | inr (ne, back, stores) ↦ elim (Bool-cases (eqb_ℤ (f s).0 (pos 0))) [
        | inl e ↦ absurd (ne ((eqb_ℤ_iff (f s).0 (pos 0)).0 e))
        | inr d ↦ rw d (ne, back, refl, stores)
      ]
    ];
  }

  module _ (e : ℤ) (r : Resource)
      (top : (p : Child) (h : Held) → label' p (r ∷ h) ≡ label p h) where
    pub try-Stage : Stage label label' (λ p. p) (try e label r)
    unfolding try
    try-Stage = record {
      done = λ s. elim (Bool-cases (eqb_ℤ e (pos 0))) [
        | inl fine ↦ rw fine (top s.p s.held, refl, refl, refl)
        | inr fails ↦ rw fails (ne_zero_of_eqb e fails, refl, refl, refl)
      ];
    }

    pub try_below-Stage : Stage label label' (λ p. p) (try_below e label r)
    unfolding try_below
    try_below-Stage = record {
      done = λ s. elim (Bool-cases (ltb_ℤ e (pos 0))) [
        | inr fine ↦ rw fine (top s.p s.held, refl, refl, refl)
        | inl fails ↦ rw fails (ne_zero_of_lt e fails, refl, refl, refl)
      ];
    }
