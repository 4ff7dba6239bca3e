-- ===== src/Sock/Backlog/Order.antt =====
-- The backlog of a socket (net/core/sock.c) keeps the order and loses nothing, and cannot be flooded.
use oshm.Prelude.{ℕ, ◌+◌, ◌≤◌, ◌≡◌, ◌≢◌, refl, sym, ap, ◌∙◌, List, [], ◌∷◌, ◌++◌, arith}
use mathlib.Core.Path.{subst}
use mathlib.Core.List.{append-nil, append_assoc}
use oshm.Sock.Backlog.{
  Stage, free, owned, draining, Sock, init, Step, lock, receive, queue, full, rcvqueues_full, take,
  retake, process, unlock, drained, Run, here, next,
}

-- What the owner has taken off and not yet gone through.
abbrev batch : Stage → List ℕ
batch free = []
batch owned = []
batch (draining q) = q

-- What was accepted is what was received, then what was taken off, then the backlog; a free socket has an
-- empty backlog, and the backlog was given no more packets than its length.
pub record IsOrderly (limit : ℕ) (sk : Sock) : Type 0 where
  pub all : sk.received ++ (batch sk.stage ++ sk.backlog) ≡ sk.accepted
  pub rest : sk.stage ≡ free → sk.backlog ≡ []
  pub count : sk.stage ≢ free → sk.queued ≤ sk.len
  pub bound : sk.queued ≤ limit + 1

-- All packets that were accepted, where they are now.
abbrev contents : Stage → (received backlog : List ℕ) → List ℕ
contents st received backlog = received ++ (batch st ++ backlog)

snoc :
    (st : Stage) (r b : List ℕ) (p : ℕ)
    → contents st r (b ++ (p ∷ [])) ≡ contents st r b ++ (p ∷ [])
snoc st r b p =
    ap (λ x. r ++ x) (sym (append_assoc (batch st) b (p ∷ [])))
    ∙ sym (append_assoc r (batch st ++ b) (p ∷ []))

not_free : (st st' : Stage) → st ≡ st' → st' ≢ free → st ≢ free
not_free st st' e ne = λ f. ne (sym e ∙ f)

owned_is : owned ≢ free
owned_is = λ e. cc

draining_is : (q : List ℕ) → draining q ≢ free
draining_is q = λ e. cc

nothing_left :
    {limit : ℕ} {a : Sock} → IsOrderly limit a → a.stage ≡ free → batch a.stage ++ a.backlog ≡ []
nothing_left {a = a} k e = ap (λ st. batch st ++ a.backlog) e ∙ k.rest e

received_all : {limit : ℕ} {a : Sock} → IsOrderly limit a → a.stage ≡ free → a.received ≡ a.accepted
received_all {a = a} k e =
    sym (append-nil a.received) ∙ ap (λ x. a.received ++ x) (sym (nothing_left k e)) ∙ k.all

Step-IsOrderly : {limit : ℕ} {a b : Sock} → Step limit a b → IsOrderly limit a → IsOrderly limit b
Step-IsOrderly {limit} {a} (lock e) k = record {
  all = subst (λ st. contents st a.received a.backlog ≡ a.accepted) e k.all;
  rest = λ f. absurd (owned_is f);
  count = λ ne. omega arith;
  bound = omega arith;
}
Step-IsOrderly {limit} {a} (receive p e) k = record {
  all =
      ap (λ x. (a.received ++ (p ∷ [])) ++ x) (nothing_left k e)
      ∙ append-nil (a.received ++ (p ∷ []))
      ∙ ap (λ x. x ++ (p ∷ [])) (received_all k e);
  rest = k.rest;
  count = λ ne. absurd (ne e);
  bound = k.bound;
}
Step-IsOrderly {limit} {a} (queue p size busy h room) k = record {
  all = snoc a.stage a.received a.backlog p ∙ ap (λ x. x ++ (p ∷ [])) k.all;
  rest = λ f. absurd (busy f);
  count = λ ne. omega (arith, k.count busy, h);
  bound = omega (arith, k.count busy, room);
}
Step-IsOrderly (full p busy h) k = record {
  all = k.all;
  rest = k.rest;
  count = k.count;
  bound = k.bound;
}
Step-IsOrderly (rcvqueues_full p) k = record {
  all = k.all;
  rest = k.rest;
  count = k.count;
  bound = k.bound;
}
Step-IsOrderly {limit} {a} (take e ne) k = record {
  all =
      ap (λ x. a.received ++ x) (append-nil a.backlog)
      ∙ subst (λ st. contents st a.received a.backlog ≡ a.accepted) e k.all;
  rest = λ f. refl;
  count = λ d. k.count (not_free a.stage owned e owned_is);
  bound = k.bound;
}
Step-IsOrderly {limit} {a} (retake e ne) k = record {
  all =
      ap (λ x. a.received ++ x) (append-nil a.backlog)
      ∙ subst (λ st. contents st a.received a.backlog ≡ a.accepted) e k.all;
  rest = λ f. refl;
  count = λ d. k.count (not_free a.stage (draining []) e (draining_is []));
  bound = k.bound;
}
Step-IsOrderly {limit} {a} (process p q e) k = record {
  all =
      append_assoc a.received (p ∷ []) (q ++ a.backlog)
      ∙ subst (λ st. contents st a.received a.backlog ≡ a.accepted) e k.all;
  rest = λ f. absurd (draining_is q f);
  count = λ d. k.count (not_free a.stage (draining (p ∷ q)) e (draining_is (p ∷ q)));
  bound = k.bound;
}
Step-IsOrderly {limit} {a} (unlock e empty) k = record {
  all = subst (λ st. contents st a.received a.backlog ≡ a.accepted) e k.all;
  rest = λ f. empty;
  count = λ ne. absurd (ne refl);
  bound = k.bound;
}
Step-IsOrderly {limit} {a} (drained e empty) k = record {
  all = subst (λ st. contents st a.received a.backlog ≡ a.accepted) e k.all;
  rest = λ f. empty;
  count = λ ne. absurd (ne refl);
  bound = k.bound;
}

Run-IsOrderly : {limit : ℕ} {a b : Sock} → Run limit a b → IsOrderly limit a → IsOrderly limit b
Run-IsOrderly here k = k
Run-IsOrderly (next r st) k = Step-IsOrderly st (Run-IsOrderly r k)

init-IsOrderly : (limit : ℕ) → IsOrderly limit init
unfolding init
init-IsOrderly limit = record {
  all = refl;
  rest = λ f. refl;
  count = λ ne. absurd (ne refl);
  bound = omega arith;
}

-- Whenever the socket is free again, in whatever order packets arrived, were put aside and were gone
-- through: the protocol has received every packet that was not dropped, once and in the order in which
-- they came, and in one ownership at most `limit` packets and one went to the backlog, however many
-- arrived.
pub backlog-received :
    (limit : ℕ) {sk : Sock}
    → Run limit init sk
    → sk.stage ≡ free
    → (sk.received ≡ sk.accepted) × (sk.queued ≤ limit + 1)
backlog-received limit r e =
    let k = Run-IsOrderly r (init-IsOrderly limit) in (received_all k e, k.bound)
