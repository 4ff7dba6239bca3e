-- ===== src/Sock/Timeout.antt =====
-- `sock_set_timeout` and `sock_get_timeout` (net/core/sock.c): time limits in ticks, 250 in a second.
use oshm.Prelude.{
  ℕ, ◌+◌, ◌-◌, ◌*◌, ◌/◌, ◌%◌, ◌^◌, ◌≤◌, ◌<◌, ◌≡◌, ◌&&◌, ◌||◌, Option, none, some, ◌==◌, ltb,
  if◌then◌else◌, ℤ, pos, neg, negsuc, leb_ℤ, ltb_ℤ, einval, efault, edom, arith,
}

-- A value that stands for no limit.
abbrev max_schedule_timeout : ℕ
max_schedule_timeout = 2 ^ 63 - 1

abbrev hz : ℕ
hz = 250

-- Seconds and microseconds.
pub record Timeval : Type 0 where
  pub sec : ℤ
  pub usec : ℤ

abbrev to_ticks : ℤ → ℤ → ℕ → ℕ
to_ticks (pos s) (pos u) timeo =
    if s == 0 && u == 0
    then max_schedule_timeout
    else if ltb s (max_schedule_timeout / hz - 1)
    then s * hz + (u + (1000000 / hz - 1)) / (1000000 / hz)
    else max_schedule_timeout
to_ticks (negsuc s) u timeo = 0
to_ticks (pos s) (negsuc u) timeo = timeo

-- `size` is that of the layout that the caller uses; `copy` is what `copy_from_sockptr` gives. The result
-- is the error number and the value at `timeo_p`.
unfoldable pub sock_set_timeout : (optlen size : ℕ) → Option Timeval → (timeo : ℕ) → ℤ × ℕ
sock_set_timeout optlen size none timeo =
    if ltb optlen size then (neg einval, timeo) else (neg efault, timeo)
sock_set_timeout optlen size (some tv) timeo =
    if ltb optlen size
    then (neg einval, timeo)
    else if ltb_ℤ tv.usec (pos 0) || leb_ℤ (pos 1000000) tv.usec
    then (neg edom, timeo)
    else (pos 0, to_ticks tv.sec tv.usec timeo)

unfoldable pub sock_get_timeout : ℕ → Timeval
sock_get_timeout timeo =
    if timeo == max_schedule_timeout
    then record { sec = pos 0; usec = pos 0 }
    else record { sec = pos (timeo / hz); usec = pos (timeo % hz * 1000000 / hz) }

-- Microseconds of a limit that is read.
abbrev micros : ℤ → ℤ → ℕ
micros (pos s) (pos u) = s * 1000000 + u
micros (pos s) (negsuc u) = 0
micros (negsuc s) u = 0

abbrev pub micros_of : Timeval → ℕ
micros_of tv = micros tv.sec tv.usec

-- A limit of less than the longest number of ticks, set with a whole structure, is read as at least what
-- was set, and less than a tick of 4000 microseconds more; the ticks fit a C `long`.
pub get-set_timeout :
    (s u optlen size timeo : ℕ)
    → size ≤ optlen
    → u < 1000000
    → s < (2 ^ 63 - 1) / 250 - 1
    → let (ret, t) =
        sock_set_timeout optlen size (some (record { sec = pos s; usec = pos u })) timeo in
      (ret ≡ pos 0)
      × (t ≤ 2 ^ 63 - 1)
      × (s * 1000000 + u ≤ micros_of (sock_get_timeout t))
      × (micros_of (sock_get_timeout t) < s * 1000000 + u + 4000)
unfolding sock_set_timeout sock_get_timeout
get-set_timeout s u optlen size timeo whole below short = ground arith

-- A limit below 0 seconds is no wait at all, and one that is too long for the ticks is none.
pub set_timeout-outside :
    (s u optlen size timeo : ℕ)
    → size ≤ optlen
    → u < 1000000
    → (sock_set_timeout optlen size (some (record { sec = negsuc s; usec = pos u })) timeo
        ≡ (pos 0, 0))
      × (sock_set_timeout optlen size
            (some (record { sec = pos (s + ((2 ^ 63 - 1) / 250 - 1)); usec = pos u }))
            timeo
          ≡ (pos 0, 2 ^ 63 - 1))
unfolding sock_set_timeout
set_timeout-outside s u optlen size timeo whole below = ground arith
