-- ===== src/Sock/Memory/Books.antt =====
-- The books of a socket's memory (net/core/sock.c): the bytes of the socket, the pages of its protocol
-- and those of its memory group change together.
use oshm.Prelude.{
  ℕ, ◌+◌, ◌-◌, ◌*◌, ◌≡◌, refl, Bool, true, false, not, ◌&&◌, ◌||◌, ltb, leb, if◌then◌else◌, arith,
}
use oshm.Sock.Memory.{
  World, Limits, Kind, charge, below_minimum, fair_share, check_limits, with_forward,
  suppress_allocation, raise_allocated, mem_schedule, reduce_allocated, mem_reclaim,
}

-- What has been charged: the bytes of the socket, the pages of the protocol and of the group, and the
-- rest of the socket but for its send buffer.
pub record Charged (l : Limits) (bytes pages : ℕ) (w v : World) : Type 0 where
  pub forward : v.sk.sk_forward_alloc ≡ w.sk.sk_forward_alloc + bytes
  pub allocated : v.memory_allocated ≡ w.memory_allocated + pages
  pub group : v.memcg_pages ≡ w.memcg_pages + (if l.memcg then pages else 0)
  pub queued : v.sk.sk_wmem_queued ≡ w.sk.sk_wmem_queued
  pub rmem : v.sk.sk_rmem_alloc ≡ w.sk.sk_rmem_alloc
  pub wmem : v.sk.sk_wmem_alloc ≡ w.sk.sk_wmem_alloc

abbrev pages_if : Bool → ℕ → ℕ
pages_if b n = if b then n else 0

-- `Charged`, or nothing, as the result says.
pub record Raised (l : Limits) (bytes amt : ℕ) (w : World) (r : Bool × World) : Type 0 where
  pub books : Charged l (pages_if r.0 bytes) (pages_if r.0 amt) w r.1

-- The world after the charge that the function begins with.
abbrev begun : Limits → ℕ → World → (charged pressure : Bool) → World
begun l amt w charged pressure =
    record (charge (l.memcg && charged) amt
      (record w { memory_allocated = w.memory_allocated + amt })) { memory_pressure = pressure }

suppress-Raised :
    (l : Limits) (size amt : ℕ) (kind : Kind) (charged pressure : Bool) (w : World)
    → Raised l 0 amt w
        (suppress_allocation l size amt kind charged (begun l amt w charged pressure))
unfolding suppress_allocation
suppress-Raised l size amt kind charged pressure w = record {
  books = record {
    forward = ground arith;
    allocated = ground arith;
    group = ground arith;
    queued = ground arith;
    rmem = ground arith;
    wmem = ground arith;
  };
}

accept-Raised :
    (l : Limits) (amt : ℕ) (charged pressure : Bool) (w : World)
    → not charged ≡ false
    → Raised l 0 amt w (true, begun l amt w charged pressure)
accept-Raised l amt charged pressure w h = record {
  books = record {
    forward = ground arith;
    allocated = ground arith;
    group = ground arith;
    queued = ground arith;
    rmem = ground arith;
    wmem = ground arith;
  };
}

if-Raised :
    {l : Limits} {bytes amt : ℕ} {w : World} (b : Bool) {x y : Bool × World}
    → (b ≡ true → Raised l bytes amt w x)
    → (b ≡ false → Raised l bytes amt w y)
    → Raised l bytes amt w (if b then x else y)
if-Raised true c d = c refl
if-Raised false c d = d refl

limits-Raised :
    (l : Limits) (size amt : ℕ) (kind : Kind) (charged : Bool) (w u : World)
    → Raised l 0 amt w (true, u)
    → Raised l 0 amt w (suppress_allocation l size amt kind charged u)
    → Raised l 0 amt w (check_limits l size amt kind charged u)
unfolding check_limits
limits-Raised l size amt kind charged w u ok ko =
    if-Raised (ltb l.hard u.memory_allocated) (λ _. ko)
      (λ _.
        if-Raised (below_minimum l kind u.sk) (λ _. ok)
          (λ _. if-Raised (fair_share l u) (λ _. ok) (λ _. ko)))

-- `__sk_mem_raise_allocated` charges the pages to the protocol and to the group if it succeeds, also by
-- force, and nothing if it fails.
raise-Raised :
    (l : Limits) (size amt : ℕ) (kind : Kind) (w : World)
    → Raised l 0 amt w (raise_allocated l size amt kind w)
unfolding raise_allocated
raise-Raised l size amt kind w =
    let charged = not l.memcg || l.memcg_has_room in
    if-Raised (not charged)
      (λ _.
        suppress-Raised l size amt kind charged
          (charge (l.memcg && charged) amt
            (record w { memory_allocated = w.memory_allocated + amt })).memory_pressure
          w)
      (λ h.
        let v =
          charge (l.memcg && charged) amt
            (record w { memory_allocated = w.memory_allocated + amt }) in
        let p : Bool =
          if ltb l.pressure v.memory_allocated
          then l.enter_memory_pressure v.memory_pressure
          else v.memory_pressure in
        if-Raised (leb v.memory_allocated l.low)
          (λ _. accept-Raised l amt charged (l.leave_memory_pressure v.memory_pressure) w h)
          (λ _.
            limits-Raised l size amt kind charged w (begun l amt w charged p)
              (accept-Raised l amt charged p w h) (suppress-Raised l size amt kind charged p w)))

moved :
    {l : Limits} (bytes : ℕ) {amt : ℕ} {w : World} (r : Bool × World)
    → Raised l 0 amt (with_forward (λ n. n + bytes) w) r
    → Raised l bytes amt w (r.0, if r.0 then r.1 else with_forward (λ n. n - bytes) r.1)
moved bytes (true, v) c = record {
  books = record {
    forward = (let f = c.books.forward in ground arith);
    allocated = c.books.allocated;
    group = c.books.group;
    queued = c.books.queued;
    rmem = c.books.rmem;
    wmem = c.books.wmem;
  };
}
moved bytes (false, v) c = record {
  books = record {
    forward = (let f = c.books.forward in ground arith);
    allocated = c.books.allocated;
    group = c.books.group;
    queued = c.books.queued;
    rmem = c.books.rmem;
    wmem = c.books.wmem;
  };
}

-- `__sk_mem_schedule` charges the bytes of these pages to the socket too, or nothing.
mem_schedule-Raised :
    (l : Limits) (size : ℕ) (kind : Kind) (w : World)
    → Raised l (l.sk_mem_pages size * 4096) (l.sk_mem_pages size) w (mem_schedule l size kind w)
unfolding mem_schedule
mem_schedule-Raised l size kind w = moved (l.sk_mem_pages size * 4096) _ (
    raise-Raised l size (l.sk_mem_pages size) kind
      (with_forward (λ n. n + l.sk_mem_pages size * 4096) w))

reclaimed :
    (l : Limits) (pages : ℕ) {w : World} (r : Bool × World)
    → r.0 ≡ true
    → Raised l (pages * 4096) pages w r
    → Charged l 0 0 w (mem_reclaim l (pages * 4096) r.1)
unfolding mem_reclaim reduce_allocated
reclaimed l pages (ret, v) ok c =
    let f = c.books.forward in
    let a = c.books.allocated in
    let g = c.books.group in
    let q = c.books.queued in
    let m = c.books.rmem in
    let n = c.books.wmem in
    record {
      forward = ground arith;
      allocated = ground arith;
      group = ground arith;
      queued = ground arith;
      rmem = ground arith;
      wmem = ground arith;
    }

-- `__sk_mem_reclaim` of the bytes that a successful `__sk_mem_schedule` charged, whatever it did to the
-- send buffer and the pressure flag, leaves the bytes of the socket, the pages of its protocol and those
-- of its memory group as they were.
pub mem_reclaim-schedule :
    (l : Limits) (size : ℕ) (kind : Kind) (w : World)
    → (mem_schedule l size kind w).0 ≡ true
    → Charged l 0 0 w (mem_reclaim l (l.sk_mem_pages size * 4096) (mem_schedule l size kind w).1)
mem_reclaim-schedule l size kind w ok = reclaimed _ _ _ ok (mem_schedule-Raised l size kind w)
