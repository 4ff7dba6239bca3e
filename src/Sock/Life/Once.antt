-- ===== src/Sock/Life/Once.antt =====
-- A socket is freed once: when it is closed and its last packet is done, in whatever order.
use oshm.Prelude.{
  some, ℕ, ◌+◌, ◌<◌, ◌≤◌, ◌≡◌, refl, Bool, true, false, not, ◌&&◌, ◌||◌, List, [], ◌∷◌, ◌++◌, ◌==◌,
  length, if◌then◌else◌, arith,
}
use mathlib.Core.Path.{subst}
use oshm.Sock.Life.{
  Sock, Life, Step, send, complete, close, Run, here, next, sk_alloc, sk_free, tcp_wfree,
  sock_wfree, skb_set_owner_w, free_now, sk_destruct, sub_and_free,
}

abbrev pub total : List ℕ → ℕ
total [] = 0
total (x ∷ xs) = x + total xs

total-append : (xs ys : List ℕ) → total (xs ++ ys) ≡ total xs + total ys
total-append [] ys = omega arith
total-append (x ∷ xs) ys = omega (arith, total-append xs ys)

-- The two ways to be done with a packet differ in the call of `sk_write_space` only.
abbrev pub told : Bool → Sock → Sock
told b sk = if b then sk else record sk { write_spaces = sk.write_spaces + 1 }

-- A packet that is counted, done by `sock_wfree`, leaves what TCP's `__sock_wfree` leaves, but that a
-- socket without the write queue flag is told of the room once; nothing is taken off that is not there,
-- and no warning is given.
pub sock_wfree-eq-tcp_wfree :
    (sk : Sock) (size : ℕ)
    → 0 < size
    → size ≤ sk.sk_wmem_alloc
    → sock_wfree size sk ≡ tcp_wfree size (told sk.use_write_queue sk)
unfolding sock_wfree tcp_wfree free_now sk_destruct
sock_wfree-eq-tcp_wfree sk size pos_size counted = ground arith

-- Every packet has a size.
abbrev pub IsSized : List ℕ → Type 0
IsSized [] = Unit {0}
IsSized (x ∷ xs) = (0 < x) × IsSized xs

IsSized-middle :
    (before : List ℕ) {size : ℕ} (later : List ℕ)
    → IsSized (before ++ size ∷ later)
    → (0 < size) × IsSized (before ++ later)
IsSized-middle [] later h = h
IsSized-middle (x ∷ xs) later (pos_x, h) =
    let (pos_size, rest) = IsSized-middle xs later h in (pos_size, (pos_x, rest))

total-middle :
    (before : List ℕ) (size : ℕ) (later : List ℕ)
    → total (before ++ size ∷ later) ≡ size + total (before ++ later)
total-middle before size later =
    omega (arith, total-append before (size ∷ later), total-append before later)

-- The socket of the state, with `inuse` others in its namespace: what it counts, that it is counted
-- there until it is freed, and that it is freed when nothing is counted any more.
pub record IsCounted (inuse : ℕ) (is_open : Bool) (pending : ℕ) (sk : Sock) : Type 0 where
  pub wmem : sk.sk_wmem_alloc ≡ (if is_open then 1 else 0) + pending
  pub others :
      sk.inuse ≡ (if sk.sk_net_refcnt && not (sk.sk_wmem_alloc == 0) then inuse + 1 else inuse)
  pub freed : length sk.fates ≡ (if sk.sk_wmem_alloc == 0 then 1 else 0)
  pub quiet : sk.warned ≡ false

abbrev pub IsAlive : ℕ → Life → Type 0
IsAlive inuse a = IsSized a.packets × IsCounted inuse a.is_open (total a.packets) a.sk

skb_set_owner_w-IsCounted :
    (inuse size n : ℕ) (sk : Sock)
    → 0 < size
    → IsCounted inuse true n sk
    → IsCounted inuse true (size + n) (skb_set_owner_w size sk)
unfolding skb_set_owner_w
skb_set_owner_w-IsCounted inuse size n sk h c =
    let m = c.wmem in
    let o = c.others in
    let f = c.freed in
    record { wmem = ground arith; others = ground arith; freed = ground arith; quiet = c.quiet }

sub_and_free-IsCounted :
    (inuse size p n : ℕ) (b c : Bool) (sk : Sock)
    → 0 < size
    → (if b then 1 else 0) + p ≡ size + ((if c then 1 else 0) + n)
    → IsCounted inuse b p sk
    → IsCounted inuse c n (sub_and_free size sk)
unfolding free_now sk_destruct
sub_and_free-IsCounted inuse size p n b c sk h e k =
    let m = k.wmem in
    let o = k.others in
    let f = k.freed in
    let q = k.quiet in
    record {
      wmem = ground arith;
      others = ground arith;
      freed = ground arith;
      quiet = ground arith;
    }

sock_wfree-IsCounted :
    (inuse size n : ℕ) (b : Bool) (sk : Sock)
    → 0 < size
    → IsCounted inuse b (size + n) sk
    → IsCounted inuse b n (sock_wfree size sk)
unfolding tcp_wfree
sock_wfree-IsCounted inuse size n b sk h k = rw (sock_wfree-eq-tcp_wfree sk size h (ground arith)) (
    sub_and_free-IsCounted inuse size (size + n) n b b (told sk.use_write_queue sk) h (ground arith)
      (told-IsCounted sk.use_write_queue))
  where
    told-IsCounted : (c : Bool) → IsCounted inuse b (size + n) (told c sk)
    told-IsCounted true = k
    told-IsCounted false = record {
      wmem = k.wmem;
      others = k.others;
      freed = k.freed;
      quiet = k.quiet;
    }

Step-IsAlive : (inuse : ℕ) {a b : Life} → Step a b → IsAlive inuse a → IsAlive inuse b
unfolding sk_free
Step-IsAlive inuse (send {q} {sk} size h room) (sized, k) =
    ((h, sized), skb_set_owner_w-IsCounted inuse size (total q) sk h k)
Step-IsAlive inuse (complete {b} before size later {sk}) (sized, k) =
    let (h, rest) = IsSized-middle before later sized in
    (
      rest,
      sock_wfree-IsCounted inuse size (total (before ++ later)) b sk h
          (subst (λ n. IsCounted inuse b n sk) (total-middle before size later) k),
    )
Step-IsAlive inuse (close {q} {sk}) (sized, k) = (
  sized,
  sub_and_free-IsCounted inuse 1 (total q) (total q) true false sk (omega arith) (omega arith) k,
)

-- The state after `sk_alloc`.
abbrev pub opened : Sock → Life
opened sk = record { is_open = true; packets = []; sk = sk }

Run-IsAlive : (inuse : ℕ) {a b : Life} → Run a b → IsAlive inuse a → IsAlive inuse b
Run-IsAlive inuse here k = k
Run-IsAlive inuse (next r st) k = Step-IsAlive inuse st (Run-IsAlive inuse r k)

abbrev pub is_empty : List ℕ → Bool
is_empty [] = true
is_empty (x ∷ xs) = false

-- The socket is open, or a packet is under way.
abbrev pub in_use : Life → Bool
in_use a = a.is_open || not (is_empty a.packets)

total-IsSized : (q : List ℕ) → IsSized q → (total q == 0) ≡ is_empty q
total-IsSized [] h = refl
total-IsSized (x ∷ xs) (h, rest) = ground arith

-- Of a socket that `sk_alloc` gave, in a namespace with `inuse` others, after any sends, completions and
-- the one close, in whatever order: `sk_wmem_alloc` is the size of the packets under way, and one if the
-- socket is open; it has been given to its end once if it is closed and no packet is left, and never
-- before; the namespace counts it until then, unless it is the kernel's; and no warning was given.
pub sk_alloc-freed_once :
    (inuse : ℕ) (memory kern queue rcu reuseport listeners : Bool) (sk : Sock) {b : Life}
    → sk_alloc memory kern inuse queue rcu reuseport listeners ≡ some sk
    → Run (opened sk) b
    → (b.sk.sk_wmem_alloc ≡ (if b.is_open then 1 else 0) + total b.packets)
      × (length b.sk.fates ≡ (if in_use b then 0 else 1))
      × (b.sk.inuse ≡ (if b.sk.sk_net_refcnt && in_use b then inuse + 1 else inuse))
      × (b.sk.warned ≡ false)
unfolding sk_alloc
sk_alloc-freed_once inuse memory kern queue rcu reuseport listeners sk {b} e r =
    let (sized, k) = Run-IsAlive inuse r (tt, start memory e) in
    let m = k.wmem in
    let o = k.others in
    let f = k.freed in
    let t = total-IsSized b.packets sized in (m, ground arith, ground arith, k.quiet)
  where
    start :
        (memory : Bool)
        → sk_alloc memory kern inuse queue rcu reuseport listeners ≡ some sk
        → IsCounted inuse true 0 sk
    start memory e = record {
      wmem = ground arith;
      others = ground arith;
      freed = ground arith;
      quiet = ground arith;
    }

-- From every state that it reaches, the socket can be closed and its packets done, so that nothing is
-- left.
pub Run-ends : {a b : Life} → Run a b → (c : Life) × Run a c × (in_use c ≡ false)
Run-ends {a} {b} r = closed b.is_open b.packets b.sk r
  where
    drained :
        (q : List ℕ) (sk : Sock)
        → Run a (record { is_open = false; packets = q; sk = sk })
        → (c : Life) × Run a c × (in_use c ≡ false)
    drained [] sk r = (_, r, refl)
    drained (x ∷ q) sk r = drained q (sock_wfree x sk) (next r (complete [] x q))

    closed :
        (o : Bool) (q : List ℕ) (sk : Sock)
        → Run a (record { is_open = o; packets = q; sk = sk })
        → (c : Life) × Run a c × (in_use c ≡ false)
    closed true q sk r = drained q (sk_free sk) (next r close)
    closed false q sk r = drained q sk r
