-- ===== src/Prelude/Int.antt =====
-- The C types `int`, `long` and `ssize_t` as signed integers, and the error numbers.
use Prim.Native.Nat.{ℕ, zero, suc}
use mathlib.Core.Path.{◌≡◌, refl}
use mathlib.Core.Logic.{◌↔◌, ◌≢◌}
use mathlib.Core.Bool.{Bool, true, false}
use native.Mathlib.Omega.{arith}
use oshm.Prelude.Tests.{ltb, leb, ◌==◌}

-- `negsuc n` is -(n + 1).
pub data ℤ : Type 0 where
  pos : ℕ → ℤ
  negsuc : ℕ → ℤ

-- -n
abbrev pub neg : ℕ → ℤ
neg zero = pos 0
neg (suc n) = negsuc n

abbrev pub eqb_ℤ : ℤ → ℤ → Bool
eqb_ℤ (pos a) (pos b) = a == b
eqb_ℤ (negsuc a) (negsuc b) = a == b
eqb_ℤ (pos a) (negsuc b) = false
eqb_ℤ (negsuc a) (pos b) = false

abbrev pub leb_ℤ : ℤ → ℤ → Bool
leb_ℤ (pos a) (pos b) = leb a b
leb_ℤ (negsuc a) (negsuc b) = leb b a
leb_ℤ (pos a) (negsuc b) = false
leb_ℤ (negsuc a) (pos b) = true

abbrev pub ltb_ℤ : ℤ → ℤ → Bool
ltb_ℤ (pos a) (pos b) = ltb a b
ltb_ℤ (negsuc a) (negsuc b) = ltb b a
ltb_ℤ (pos a) (negsuc b) = false
ltb_ℤ (negsuc a) (pos b) = true

pub eqb_ℤ_iff : (a b : ℤ) → (eqb_ℤ a b ≡ true) ↔ (a ≡ b)
eqb_ℤ_iff (pos a) (pos b) = ground arith
eqb_ℤ_iff (negsuc a) (negsuc b) = ground arith
eqb_ℤ_iff (pos a) (negsuc b) = ground arith
eqb_ℤ_iff (negsuc a) (pos b) = ground arith

pub eqb_ℤ_refl : (a : ℤ) → eqb_ℤ a a ≡ true
eqb_ℤ_refl a = (eqb_ℤ_iff a a).1 refl

pub ne_zero_of_lt : (x : ℤ) → ltb_ℤ x (pos 0) ≡ true → x ≢ pos 0
ne_zero_of_lt (pos n) h = ground arith
ne_zero_of_lt (negsuc n) h = λ e. cc

pub ne_zero_of_eqb : (x : ℤ) → eqb_ℤ x (pos 0) ≡ false → x ≢ pos 0
ne_zero_of_eqb x h = λ e. cc ((eqb_ℤ_iff x (pos 0)).1 e)

-- The error numbers of include/uapi/asm-generic/errno-base.h and errno.h.
abbrev pub eperm : ℕ
eperm = 1

abbrev pub esrch : ℕ
esrch = 3

abbrev pub eintr : ℕ
eintr = 4

abbrev pub eio : ℕ
eio = 5

abbrev pub e2big : ℕ
e2big = 7

abbrev pub eagain : ℕ
eagain = 11

abbrev pub enomem : ℕ
enomem = 12

abbrev pub eacces : ℕ
eacces = 13

abbrev pub efault : ℕ
efault = 14

abbrev pub eexist : ℕ
eexist = 17

abbrev pub enodev : ℕ
enodev = 19

abbrev pub enotdir : ℕ
enotdir = 20

abbrev pub einval : ℕ
einval = 22

abbrev pub enfile : ℕ
enfile = 23

abbrev pub emfile : ℕ
emfile = 24

abbrev pub efbig : ℕ
efbig = 27

abbrev pub enospc : ℕ
enospc = 28

abbrev pub edom : ℕ
edom = 33

abbrev pub enosys : ℕ
enosys = 38

abbrev pub eafnosupport : ℕ
eafnosupport = 97

abbrev pub erestartnointr : ℕ
erestartnointr = 513

abbrev pub enoparam : ℕ
enoparam = 519

abbrev pub econnaborted : ℕ
econnaborted = 103

abbrev pub enotsupp : ℕ
enotsupp = 524

abbrev pub enoprotoopt : ℕ
enoprotoopt = 92

abbrev pub eopnotsupp : ℕ
eopnotsupp = 95

abbrev pub ebadf : ℕ
ebadf = 9

abbrev pub enotsock : ℕ
enotsock = 88
