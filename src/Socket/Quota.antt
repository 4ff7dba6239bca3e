-- ===== src/Socket/Quota.antt =====
-- The limit on a thread's sockets over the life of the thread.
use oshm.Prelude.{
  ℕ, ◌+◌, ◌^◌, ◌≤◌, ◌<◌, ◌≡◌, refl, Bool, true, false, not, ◌&&◌, ◌||◌, Option, none, some, List,
  [], ◌∷◌, arith, if◌then◌else◌, is_some, Bool-cases, inl, inr, ℤ, pos, neg, leb_ℤ, ltb_ℤ, emfile,
  eqb_ℤ,
}
use oshm.Task.{TaskStruct, incr_int}
use oshm.Socket.{
  Outside, Socket, Net, Result, sock_release, create_socket, sock_create_in, sock_create,
  over_limit, count_socket, family_of,
}
use oshm.Socket.Balance.{Settled, create_socket-Settled}
use oshm.Socket.Calls.{Files, Accepting, do_accept, Accepted, do_accept-Accepted}

abbrev in_bounds : Outside → ℤ → ℤ → Bool
in_bounds o family type =
    not (ltb_ℤ family (pos 0) || leb_ℤ o.nproto family)
    && not (ltb_ℤ type (pos 0) || leb_ℤ o.sock_max type)

-- A user's call with a family and a type in their bounds, by a thread whose limit is positive and
-- whose count has reached it, gives -EMFILE, makes no socket and changes nothing.
pub sock_create-over_limit :
    (o : Outside) (family type protocol : ℤ) (n : Net) (limit count : ℕ)
    → in_bounds o family type ≡ true
    → n.task.max_socket_allowed ≡ pos limit
    → n.task.socket_count ≡ pos count
    → 0 < limit
    → limit ≤ count
    → sock_create o family type protocol n ≡ (neg emfile, none, n)
unfolding sock_create_in over_limit
sock_create-over_limit o family type protocol n limit count ok l c positive full = ground arith

-- A call in the life of a thread: a user's socket is made by `sock_create`, one is accepted from a
-- listening socket of a type, or one is released.
pub data Event : Type 0 where
  accept : Outside → Files → Accepting → (type : ℤ) (flags : ℕ) → Event
  make : Outside → ℤ → ℤ → ℤ → Event
  release : Socket → Event

abbrev listening : ℤ → Socket
listening type = record { type = type; ops = true; sk = true; file = true }

-- The state after the events, and how many sockets `sock_create` has made in them.
unfoldable pub live : List Event → Net → ℕ × Net
live [] n = (0, n)
live (make o family type protocol ∷ es) n =
    let (r, s, m) = sock_create o family type protocol n in
    let (k, m') = live es m in ((if is_some s then k + 1 else k), m')
live (accept o f a type flags ∷ es) n = live es (do_accept o f a (listening type) flags n).2
live (release s ∷ es) n = live es (sock_release s n)

-- What a call does to the calling task: it counts a socket that it makes, and nothing else.
abbrev Counts : Net → Result → Type 0
Counts n (r, none, m) = m.task ≡ n.task
Counts n (r, some s, m) = m.task ≡ count_socket false n.task

Settled-Counts :
    (o : Outside) (family protocol : ℤ) (n : Net) (x : Result)
    → Settled o family protocol false n x
    → Counts n x
Settled-Counts o family protocol n (r, none, m) (inl u) = u.1.task
Settled-Counts o family protocol n (r, some s, m) (inl u) = u.4.task
Settled-Counts o family protocol n (r, none, m) (inr u) = u.3.task
Settled-Counts o family protocol n (r, some s, m) (inr never) = absurd (cc never)

create_socket-Counts :
    (o : Outside) (family type protocol : ℤ) (n : Net)
    → Counts n (create_socket o family type protocol false n)
create_socket-Counts o family type protocol n =
    Settled-Counts o family protocol n (create_socket o family type protocol false n)
      (create_socket-Settled o family type protocol false n)

incr_int-pos : (c : ℕ) → c + 1 < 2 ^ 31 → incr_int (pos c) ≡ pos (c + 1)
unfolding incr_int
incr_int-pos c h = ground arith

lt_of_not_over :
    (t : TaskStruct) (limit c : ℕ)
    → t.max_socket_allowed ≡ pos limit
    → t.socket_count ≡ pos c
    → 0 < limit
    → over_limit false t ≡ false
    → c < limit
unfolding over_limit
lt_of_not_over t limit c l k positive h = ground arith

task-sock_release : (s : Socket) (n : Net) → (sock_release s n).task ≡ n.task
unfolding sock_release
task-sock_release s n = ground arith

Accepted-task : (n : Net) (x : ℤ × Option Socket × Net) → Accepted n x → x.2.task ≡ n.task
Accepted-task n (r, none, m) u = u.task
Accepted-task n (r, some s, m) u = u.2

task-do_accept :
    (o : Outside) (f : Files) (a : Accepting) (type : ℤ) (flags : ℕ) (n : Net)
    → (do_accept o f a (listening type) flags n).2.task ≡ n.task
task-do_accept o f a type flags n =
    Accepted-task n (do_accept o f a (listening type) flags n)
      (do_accept-Accepted o f a (listening type) flags n refl)

-- A socket is made only below the limit, and the count goes up by one exactly then.
make_step :
    (o : Outside) (family type protocol : ℤ) (n : Net) (limit c : ℕ)
    → limit < 2 ^ 31
    → n.task.max_socket_allowed ≡ pos limit
    → n.task.socket_count ≡ pos c
    → 0 < limit
    → let (r, s, m) = sock_create o family type protocol n in
      (m.task.max_socket_allowed ≡ pos limit)
      × (m.task.socket_count ≡ pos (if is_some s then c + 1 else c))
      × (is_some s ≡ true → c < limit)
unfolding sock_create_in
make_step o family type protocol n limit c small l k positive =
    elim (Bool-cases (ltb_ℤ family (pos 0) || leb_ℤ o.nproto family)) [
      | inl bad ↦ rw bad (l, k, λ e. cc)
      | inr family_ok ↦
          rw family_ok (elim (Bool-cases (ltb_ℤ type (pos 0) || leb_ℤ o.sock_max type)) [
            | inl bad ↦ rw bad (l, k, λ e. cc)
            | inr type_ok ↦ rw type_ok (elim (Bool-cases (over_limit false n.task)) [
              | inl over ↦ rw over (l, k, λ e. cc)
              | inr within ↦
                  rw within
                    (elim (Bool-cases (
                      eqb_ℤ (o.security_socket_create (family_of o family type) type protocol false)
                        (pos 0))) [
                          | inr refused ↦ rw refused (l, k, λ e. cc)
                          | inl allowed ↦ rw allowed (
                              counted
                                (create_socket o (family_of o family type) type protocol false n)
                                (lt_of_not_over n.task limit c l k positive within)
                                (create_socket-Counts o (family_of o family type) type protocol n))
                        ])
            ])
          ])
    ]
  where
    counted :
        (x : Result)
        → c < limit
        → Counts n x
        → (x.2.task.max_socket_allowed ≡ pos limit)
          × (x.2.task.socket_count ≡ pos (if is_some x.1 then c + 1 else c))
          × (is_some x.1 ≡ true → c < limit)
    counted (r, none, m) lt e = rw e (l, k, λ q. lt)
    counted (r, some s, m) lt e = rw e (l, rw k (incr_int-pos c (omega arith)), λ q. lt)

-- While a thread keeps one positive limit, `sock_create` makes for it at most as many sockets as the
-- limit leaves above its count, however many of them it releases in the meantime, and whatever it
-- accepts; the accepted sockets are outside this bound.
pub limit_is_for_life :
    (es : List Event) (n : Net) (limit c : ℕ)
    → limit < 2 ^ 31
    → 0 < limit
    → n.task.max_socket_allowed ≡ pos limit
    → n.task.socket_count ≡ pos c
    → c ≤ limit
    → (live es n).0 + c ≤ limit
unfolding live
limit_is_for_life [] n limit c small positive l k h = omega arith
limit_is_for_life (make o family type protocol ∷ es) n limit c small positive l k h =
    let (l', k', lt) = make_step o family type protocol n limit c small l k positive in
    let m : Net = (sock_create o family type protocol n).2 in
    elim (Bool-cases (is_some (sock_create o family type protocol n).1)) [
      | inl made ↦
          let below : c < limit = lt made in
          rw made (
            omega (
              arith,
              limit_is_for_life es m limit (c + 1) small positive l' (rw made at k') (omega arith),
            ))
      | inr not_made ↦
          rw not_made (limit_is_for_life es m limit c small positive l' (rw not_made at k') h)
    ]
limit_is_for_life (release s ∷ es) n limit c small positive l k h =
    limit_is_for_life es (sock_release s n) limit c small positive (rw (task-sock_release s n) l)
      (rw (task-sock_release s n) k) h
limit_is_for_life (accept o f a type flags ∷ es) n limit c small positive l k h =
    limit_is_for_life es (do_accept o f a (listening type) flags n).2 limit c small positive
      (rw (task-do_accept o f a type flags n) l) (rw (task-do_accept o f a type flags n) k) h
