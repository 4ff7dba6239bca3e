-- ===== src/Sock/Backlog.antt =====
-- The lock of a socket and its backlog (net/core/sock.c): what arrives while a task owns the socket is put
-- aside, and `release_sock` goes through it before the socket is free.
pub mod Order
use oshm.Prelude.{ℕ, ◌+◌, ◌≤◌, ◌<◌, ◌≡◌, ◌≢◌, List, [], ◌∷◌, ◌++◌}

-- Free; owned by a task; or inside `__release_sock` with the packets that it has taken off, and that it goes
-- through without the spin lock.
pub data Stage : Type 0 where
  free : Stage
  owned : Stage
  draining : List ℕ → Stage

-- Packets are numbers. `len` is that of the backlog, which is set to 0 only at the end; `received` are the
-- packets that the protocol has got, `accepted` those that were not dropped, both in order; `queued`
-- counts the packets that went to the backlog since the socket was locked.
pub record Sock : Type 0 where
  pub stage : Stage
  pub backlog : List ℕ
  pub len : ℕ
  pub sk_drops : ℕ
  pub received : List ℕ
  pub accepted : List ℕ
  pub queued : ℕ

unfoldable pub init : Sock
init = record {
  stage = free;
  backlog = [];
  len = 0;
  sk_drops = 0;
  received = [];
  accepted = [];
  queued = 0;
}

-- `sk_backlog_rcv`
abbrev pub rcv : ℕ → Sock → Sock
rcv p sk = record sk { received = sk.received ++ (p ∷ []) }

abbrev pub accept : ℕ → Sock → Sock
accept p sk = record sk { accepted = sk.accepted ++ (p ∷ []) }

-- `sk_add_backlog` with room.
abbrev pub add_backlog : (size : ℕ) → ℕ → Sock → Sock
add_backlog size p sk = record sk {
  backlog = sk.backlog ++ (p ∷ []);
  len = sk.len + size;
  queued = sk.queued + 1;
}

abbrev pub drop : Sock → Sock
drop sk = record sk { sk_drops = sk.sk_drops + 1 }

-- The pieces that run under the spin lock, or by the task in `__release_sock`: `lock_sock` of a free socket,
-- `__sk_receive_skb` on a free socket, on one that is not, and on one that has no room; the outer loop of
-- `__release_sock`, a round of the inner one, and its end with that of `release_sock`. `limit` is the
-- receive buffer, and a packet has a size. `sk_rcvqueues_full` drops a packet before the lock is looked at;
-- it also counts the memory of the receive queue, which is not part of the state, so it may say so in any state.
pub data Step (limit : ℕ) : Sock → Sock → Type 0 where
  lock : {sk : Sock} → sk.stage ≡ free → Step limit sk (record sk { stage = owned; queued = 0 })
  receive : {sk : Sock} (p : ℕ) → sk.stage ≡ free → Step limit sk (rcv p (accept p sk))
  queue :
      {sk : Sock} (p size : ℕ)
      → sk.stage ≢ free
      → 0 < size
      → sk.len ≤ limit
      → Step limit sk (add_backlog size p (accept p sk))
  full : {sk : Sock} (p : ℕ) → sk.stage ≢ free → limit < sk.len → Step limit sk (drop sk)
  rcvqueues_full : {sk : Sock} (p : ℕ) → Step limit sk (drop sk)
  take :
      {sk : Sock}
      → sk.stage ≡ owned
      → sk.backlog ≢ []
      → Step limit sk (record sk { stage = draining sk.backlog; backlog = [] })
  retake :
      {sk : Sock}
      → sk.stage ≡ draining []
      → sk.backlog ≢ []
      → Step limit sk (record sk { stage = draining sk.backlog; backlog = [] })
  process :
      {sk : Sock} (p : ℕ) (q : List ℕ)
      → sk.stage ≡ draining (p ∷ q)
      → Step limit sk (rcv p (record sk { stage = draining q }))
  unlock :
      {sk : Sock}
      → sk.stage ≡ owned
      → sk.backlog ≡ []
      → Step limit sk (record sk { stage = free; len = 0 })
  drained :
      {sk : Sock}
      → sk.stage ≡ draining []
      → sk.backlog ≡ []
      → Step limit sk (record sk { stage = free; len = 0 })

pub data Run (limit : ℕ) (a : Sock) : Sock → Type 0 where
  here : Run limit a a
  next : {b c : Sock} → Run limit a b → Step limit b c → Run limit a c
