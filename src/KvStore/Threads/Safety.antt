-- ===== src/KvStore/Threads/Safety.antt =====
-- Mutual exclusion: the invariant of the interleaved calls, kept by every step.
use oshm.Prelude.{
  ℕ, ◌≡◌, ◌≢◌, ◌∙◌, sym, ap, Bool, true, false, some, List, arith, ◌==◌, Bool-cases, inl, inr, ◌⊎◌,
  update, update_self, update_ne, ℤ,
}
use oshm.KvStore.{MyData, Store, spin_unlock, set_bucket}
use oshm.KvStore.Trace.{Call, write, read}
use oshm.KvStore.Threads.{
  lock_of, finish, Place, outside, inside, System, lock_taken, Step, enter, leave, Reach, here,
  later, Inv,
}

-- What `finish` does to a store: the lock is free, and all that changes is in one bucket.
finish-frame :
    (c : Call) (ds : List MyData) (s : Store) {r : ℤ} {s' : Store}
    → finish c ds s ≡ some (r, s')
    → (s'.locked ≡ update s.locked (lock_of c) false)
      × ((h : ℕ) → h ≢ lock_of c → s'.bucket h ≡ s.bucket h)
unfolding finish set_bucket spin_unlock
finish-frame (write alloc k v) ds s {s'} e = (ground arith, λ h ne. ground arith)
finish-frame (read k) ds s {s'} e = (ground arith, λ h ne. ground arith)

-- After one thread has moved, a thread that is inside is that one, or was there before.
stayed :
    (f : ℕ → Place) (i j : ℕ) (c : Call) (ds : List MyData)
    → update f i outside j ≡ inside c ds
    → (j ≢ i) × (f j ≡ inside c ds)
stayed f i j c ds e = ground arith

came :
    (f : ℕ → Place) (i j : ℕ) (c d : Call) (ds es : List MyData)
    → update f i (inside c ds) j ≡ inside d es
    → ((j ≡ i) × (c ≡ d) × (ds ≡ es)) ⊎ ((j ≢ i) × (f j ≡ inside d es))
came f i j c d ds es e = elim (Bool-cases (j == i)) [
  | inl same ↦ inl (ground arith, ground arith, ground arith)
  | inr other ↦ inr (ground arith, ground arith)
]

module _ {a b : System} (v : Inv a) where
  -- A thread inside keeps its lock and its list while the lock of another call is given back.
  leave-Inv :
      (i : ℕ) (c : Call) (ds : List MyData) (r : ℤ)
      → a.place i ≡ inside c ds
      → finish c ds a.store ≡ some (r, b.store)
      → b.place ≡ update a.place i outside
      → Inv b
  leave-Inv i c ds r at e p = record {
    holds = λ j d es q.
        let (ne, was) = before j d es q in
        ap (λ (l : ℕ → Bool). l (lock_of d)) frame.0
        ∙ update_ne a.store.locked (lock_of c) false (lock_of d) (apart j d es ne was)
        ∙ v.holds j d es was;
    current = λ j d es q.
        let (ne, was) = before j d es q in
        frame.1 (lock_of d) (apart j d es ne was) ∙ v.current j d es was;
    alone = λ j k d d' es es' q q' same.
        v.alone j k d d' es es' (before j d es q).1 (before k d' es' q').1 same;
  }
    where
      frame :
          (b.store.locked ≡ update a.store.locked (lock_of c) false)
          × ((h : ℕ) → h ≢ lock_of c → b.store.bucket h ≡ a.store.bucket h)
      frame = finish-frame c ds a.store e

      before :
          (j : ℕ) (d : Call) (es : List MyData)
          → b.place j ≡ inside d es
          → (j ≢ i) × (a.place j ≡ inside d es)
      before j d es q = stayed a.place i j d es (sym (ap (λ (f : ℕ → Place). f j) p) ∙ q)

      apart :
          (j : ℕ) (d : Call) (es : List MyData)
          → j ≢ i
          → a.place j ≡ inside d es
          → lock_of d ≢ lock_of c
      apart j d es ne was same = ne (v.alone j i d c es ds was at same)

  enter-Inv :
      (i : ℕ) (c : Call)
      → a.store.locked (lock_of c) ≡ false
      → b.store ≡ lock_taken c a.store
      → b.place ≡ update a.place i (inside c (a.store.bucket (lock_of c)))
      → Inv b
  enter-Inv i c free s p = record {
    holds = λ j d es q. locked-at (lock_of d) ∙ held j d es (before j d es q);
    current =
        λ j d es q. ap (λ (t : Store). t.bucket (lock_of d)) s ∙ list j d es (before j d es q);
    alone = λ j k d d' es es' q q' same.
        only j k d d' es es' (before j d es q) (before k d' es' q') same;
  }
    where
      Where : ℕ → Call → List MyData → Type 0
      Where j d es =
          ((j ≡ i) × (c ≡ d) × (a.store.bucket (lock_of c) ≡ es))
          ⊎ ((j ≢ i) × (a.place j ≡ inside d es))

      before : (j : ℕ) (d : Call) (es : List MyData) → b.place j ≡ inside d es → Where j d es
      before j d es q =
          came a.place i j c d (a.store.bucket (lock_of c)) es
            (sym (ap (λ (f : ℕ → Place). f j) p) ∙ q)

      locked-at : (h : ℕ) → b.store.locked h ≡ update a.store.locked (lock_of c) true h
      locked-at h = ap (λ (t : Store). t.locked h) s

      apart :
          (j : ℕ) (d : Call) (es : List MyData) → a.place j ≡ inside d es → lock_of d ≢ lock_of c
      apart j d es was same = cc (v.holds j d es was, free, ap a.store.locked same)

      held :
          (j : ℕ) (d : Call) (es : List MyData)
          → Where j d es
          → update a.store.locked (lock_of c) true (lock_of d) ≡ true
      held j d es (inl (e, q, r)) = rw (← q) (update_self a.store.locked (lock_of c) true)
      held j d es (inr (ne, was)) =
          update_ne a.store.locked (lock_of c) true (lock_of d) (apart j d es was)
          ∙ v.holds j d es was

      list : (j : ℕ) (d : Call) (es : List MyData) → Where j d es → a.store.bucket (lock_of d) ≡ es
      list j d es (inl (e, q, r)) = rw (← q) r
      list j d es (inr (ne, was)) = v.current j d es was

      only :
          (j k : ℕ) (d d' : Call) (es es' : List MyData)
          → Where j d es
          → Where k d' es'
          → lock_of d ≡ lock_of d'
          → j ≡ k
      only j k d d' es es' (inl x) (inl y) same = x.0 ∙ sym y.0
      only j k d d' es es' (inl x) (inr y) same =
          absurd (apart k d' es' y.1 (sym same ∙ ap lock_of (sym x.1)))
      only j k d d' es es' (inr x) (inl y) same =
          absurd (apart j d es x.1 (same ∙ ap lock_of (sym y.1)))
      only j k d d' es es' (inr x) (inr y) same = v.alone j k d d' es es' x.1 y.1 same

Step-Inv : {a b : System} → Step a b → Inv a → Inv b
Step-Inv (enter i c out free s p) v = enter-Inv v i c free s p
Step-Inv (leave i c ds r at e p) v = leave-Inv v i c ds r at e p

-- All threads are outside and all locks are free.
pub record IsQuiet (s : System) : Type 0 where
  pub idle : (h : ℕ) → s.store.locked h ≡ false
  pub out : (i : ℕ) → s.place i ≡ outside

pub Reach-Inv : {a b : System} → IsQuiet a → Reach a b → Inv b
Reach-Inv {a} q here = record {
  holds = λ i c ds e. cc (q.out i, e);
  current = λ i c ds e. cc (q.out i, e);
  alone = λ i j c d ds es e e' same. cc (q.out i, e);
}
Reach-Inv q (later r st) = Step-Inv st (Reach-Inv q r)

-- In every state that interleaved calls reach from a quiet one, two threads that are inside a call on
-- the same bucket are one thread, and the list that it looks at is the bucket's current list.
pub mutual_exclusion :
    {a b : System} (i j : ℕ) (c d : Call) (ds es : List MyData)
    → IsQuiet a
    → Reach a b
    → b.place i ≡ inside c ds
    → b.place j ≡ inside d es
    → lock_of c ≡ lock_of d
    → (i ≡ j) × (b.store.bucket (lock_of c) ≡ ds) × (b.store.bucket (lock_of d) ≡ es)
mutual_exclusion i j c d ds es q r e e' same =
    let v = Reach-Inv q r in
    (v.alone i j c d ds es e e' same, v.current i c ds e, v.current j d es e')
