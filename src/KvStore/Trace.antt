-- ===== src/KvStore/Trace.antt =====
-- Sequences of the two system calls against a plain map from keys to values.
use oshm.Prelude.{
  ℕ, ◌≡◌, refl, ◌⊎◌, Bool, ◌&&◌, ◌||◌, Option, none, some, List, [], ◌∷◌, arith, ap, ◌∙◌,
  if◌then◌else◌, is_some, ℤ, pos, neg, eqb_ℤ, enomem,
}
use oshm.KvStore.{MyData, Store, find, M, pure, ◌>>=◌, hash, read_kv, write_kv}
use oshm.KvStore.Calls.{IsIdle, lookup, reply_of_write, write_kv_lem, read_kv_lem}

-- A call with its arguments; the Boolean says whether `kmalloc` would succeed.
pub data Call : Type 0 where
  write : Bool → ℤ → ℤ → Call
  read : ℤ → Call

abbrev pub call : Call → M ℤ
call (write alloc k v) = write_kv alloc k v
call (read k) = read_kv k

-- The replies of a sequence of calls.
unfoldable pub run : List Call → M (List ℤ)
run [] = pure []
run (c ∷ cs) = do r ← call c; rs ← run cs; pure (r ∷ rs)

-- The specification: what a reply may be, and the map afterwards.
abbrev pub Map : Type 0
Map = ℤ → Option ℤ

abbrev Allowed : Map → Call → ℤ → Type 0
Allowed m (write alloc k v) r = r ≡ (if is_some (m k) || alloc then pos 0 else neg enomem)
Allowed m (read k) r = ((v : ℤ) → m k ≡ some v → r ≡ v) × (m k ≡ none → (r ≡ neg 2) ⊎ (r ≡ neg 3))

abbrev pub next : Map → Call → Map
next m (write alloc k v) j = if eqb_ℤ k j && (is_some (m k) || alloc) then some v else m j
next m (read k) j = m j

abbrev pub AllAllowed : Map → List Call → List ℤ → Type 0
AllAllowed m [] [] = Unit {0}
AllAllowed m (c ∷ cs) (r ∷ rs) = Allowed m c r × AllAllowed (next m c) cs rs
AllAllowed m _ _ = ⊥

-- The store stands for the map.
abbrev Holds : Store → Map → Type 0
Holds s m = (j : ℤ) → lookup s j ≡ m j

call-Allowed :
    (c : Call) (s : Store) (m : Map)
    → IsIdle s
    → Holds s m
    → (r : ℤ) × (s' : Store) × (call c s ≡ some (r, s'))
      × Allowed m c r
      × IsIdle s'
      × Holds s' (next m c)
call-Allowed (write alloc k v) s m idle holds =
    let (s', e, looks, idle') = write_kv_lem s idle alloc k v in
    (
      reply_of_write alloc k s,
      s',
      e,
      rw (← holds k) refl,
      idle',
      (λ j. rw (← holds k, ← holds j) (looks j)),
    )
call-Allowed (read k) s m idle holds =
    let (r, s', e, same, idle', found, missing) = read_kv_lem k s idle in
    (
      r,
      s',
      e,
      ((λ v q. found v (holds k ∙ q)), λ q. ground (arith, missing (holds k ∙ q))),
      idle',
      (λ j. ap (λ (b : ℕ → List MyData). find j (b (hash j))) same ∙ holds j),
    )

-- Any sequence of the two calls on a store with free locks runs to its end, and its replies are
-- those that a map from keys to values allows: a read of a key that is mapped gives its value, a
-- read of any other key gives -2 or -3, and a write fails with -ENOMEM exactly if the key is new and
-- there is no memory.
pub run_refines :
    (cs : List Call) (s : Store) (m : Map)
    → IsIdle s
    → Holds s m
    → (rs : List ℤ) × (s' : Store) × (run cs s ≡ some (rs, s')) × AllAllowed m cs rs × IsIdle s'
unfolding run
run_refines [] s m idle holds = ([], s, refl, tt, idle)
run_refines (c ∷ cs) s m idle holds =
    let (r, s', e, ok, idle', holds') = call-Allowed c s m idle holds in
    let (rs, s'', e', oks, idle'') = run_refines cs s' (next m c) idle' holds' in
    (r ∷ rs, s'', rw (e, e') refl, (ok, oks), idle'')
