-- ===== src/Sock/Memory.antt =====
-- The memory that is charged to a socket (net/core/sock.c): pages of 4096 bytes, counted for the whole
-- protocol and, if there is one, for the socket's memory group.
pub mod Books
use oshm.Prelude.{
  ℕ, ◌+◌, ◌-◌, ◌*◌, ◌/◌, Bool, true, false, not, ◌&&◌, ◌||◌, ltb, leb, if◌then◌else◌,
}

-- The fields of `struct sock` that the accounting reads and writes.
pub record Sock : Type 0 where
  pub is_stream : Bool
  pub sk_forward_alloc : ℕ
  pub sk_wmem_queued : ℕ
  pub sk_rmem_alloc : ℕ
  pub sk_wmem_alloc : ℕ
  pub sk_sndbuf : ℕ

-- What the headers outside this repository and the memory group answer: how many pages a size takes, the
-- three limits of the protocol, the smallest buffers, whether there is a memory group and whether it has
-- room, what the protocol does with its pressure flag and what a socket sees of it, how many sockets
-- there are, and the send buffer that `sk_stream_moderate_sndbuf` leaves.
pub record Limits : Type 0 where
  pub sk_mem_pages : ℕ → ℕ
  pub low : ℕ
  pub pressure : ℕ
  pub hard : ℕ
  pub rmem0 : ℕ
  pub wmem0 : ℕ
  pub memcg : Bool
  pub memcg_has_room : Bool
  pub enter_memory_pressure : Bool → Bool
  pub leave_memory_pressure : Bool → Bool
  pub sk_has_memory_pressure : Bool
  pub sk_under_memory_pressure : Bool → Bool
  pub sk_under_global_memory_pressure : Bool → Bool
  pub sockets_allocated : ℕ
  pub moderate_sndbuf : Sock → ℕ

-- With the pages of the protocol, its pressure flag, and the pages of the memory group.
pub record World : Type 0 where
  pub sk : Sock
  pub memory_allocated : ℕ
  pub memory_pressure : Bool
  pub memcg_pages : ℕ

pub data Kind : Type 0 where
  send : Kind
  recv : Kind

abbrev is_send : Kind → Bool
is_send send = true
is_send recv = false

abbrev charge : Bool → ℕ → World → World
charge b amt w = if b then record w { memcg_pages = w.memcg_pages + amt } else w

abbrev uncharge : Bool → ℕ → World → World
uncharge b amt w = if b then record w { memcg_pages = w.memcg_pages - amt } else w

-- From `suppress_allocation` on; a stream whose buffer is full is charged by force.
unfoldable pub suppress_allocation :
    Limits → (size amt : ℕ) → Kind → (charged : Bool) → World → Bool × World
suppress_allocation l size amt kind charged w =
    let stream = is_send kind && w.sk.is_stream in
    let w' : World =
      if stream then record w { sk = record w.sk { sk_sndbuf = l.moderate_sndbuf w.sk } } else w in
    if stream && leb w'.sk.sk_sndbuf (w'.sk.sk_wmem_queued + size)
    then (true, charge (l.memcg && not charged) amt w')
    else (
      false,
      uncharge (l.memcg && charged) amt
          (record w' { memory_allocated = w'.memory_allocated - amt }),
    )

-- Whether the socket holds less than its smallest buffer.
abbrev below_minimum : Limits → Kind → Sock → Bool
below_minimum l recv sk = ltb sk.sk_rmem_alloc l.rmem0
below_minimum l send sk =
    if sk.is_stream then ltb sk.sk_wmem_queued l.wmem0 else ltb sk.sk_wmem_alloc l.wmem0

-- Whether the protocol lets the socket go on: no pressure, or the socket is smaller than the average.
abbrev fair_share : Limits → World → Bool
fair_share l w =
    if not l.sk_has_memory_pressure
    then false
    else if not (l.sk_under_memory_pressure w.memory_pressure)
    then true
    else ltb
        (l.sockets_allocated
          * l.sk_mem_pages (w.sk.sk_wmem_queued + w.sk.sk_rmem_alloc + w.sk.sk_forward_alloc))
        l.hard

-- `__sk_mem_raise_allocated` from the hard limit on.
unfoldable pub check_limits :
    Limits → (size amt : ℕ) → Kind → (charged : Bool) → World → Bool × World
check_limits l size amt kind charged u =
    if ltb l.hard u.memory_allocated
    then suppress_allocation l size amt kind charged u
    else if below_minimum l kind u.sk
    then (true, u)
    else if fair_share l u
    then (true, u)
    else suppress_allocation l size amt kind charged u

unfoldable pub raise_allocated : Limits → (size amt : ℕ) → Kind → World → Bool × World
raise_allocated l size amt kind w =
    let added = record w { memory_allocated = w.memory_allocated + amt } in
    let charged = not l.memcg || l.memcg_has_room in
    let v = charge (l.memcg && charged) amt added in
    if not charged
    then suppress_allocation l size amt kind charged v
    else if leb v.memory_allocated l.low
    then (true, record v { memory_pressure = l.leave_memory_pressure v.memory_pressure })
    else let u = record v {
      memory_pressure =
          if ltb l.pressure v.memory_allocated
          then l.enter_memory_pressure v.memory_pressure
          else v.memory_pressure;
    } in
      check_limits l size amt kind charged u

abbrev with_forward : (ℕ → ℕ) → World → World
with_forward f w = record w { sk = record w.sk { sk_forward_alloc = f w.sk.sk_forward_alloc } }

unfoldable pub mem_schedule : Limits → (size : ℕ) → Kind → World → Bool × World
mem_schedule l size kind w =
    let amt = l.sk_mem_pages size in
    let (ret, w') = raise_allocated l size amt kind (with_forward (λ n. n + amt * 4096) w) in
    (ret, if ret then w' else with_forward (λ n. n - amt * 4096) w')

unfoldable pub reduce_allocated : Limits → (amount : ℕ) → World → World
reduce_allocated l amount w =
    let v = uncharge l.memcg amount (record w { memory_allocated = w.memory_allocated - amount }) in
    if l.sk_under_global_memory_pressure v.memory_pressure && ltb v.memory_allocated l.low
    then record v { memory_pressure = l.leave_memory_pressure v.memory_pressure }
    else v

unfoldable pub mem_reclaim : Limits → (amount : ℕ) → World → World
mem_reclaim l amount w =
    reduce_allocated l (amount / 4096) (with_forward (λ n. n - amount / 4096 * 4096) w)
