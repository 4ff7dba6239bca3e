-- ===== src/Ramfs/Bytes.antt =====
-- C strings as lists of bytes: a kernel buffer is read up to its first zero.
use oshm.Prelude.{
  ℕ, ◌≡◌, Bool, true, false, ◌||◌, Option, none, some, List, [], ◌∷◌, ◌++◌, ◌==◌, ◌+◌, ◌-◌, ◌/◌,
  ◌%◌, zero, suc, ltb, if◌then◌else◌,
}

abbrev pub Bytes : Type 0
Bytes = List ℕ

abbrev pub space : ℕ
space = b' '

abbrev pub slash : ℕ
slash = b'/'

-- `\n` or `\r`
abbrev pub is_newline : ℕ → Bool
is_newline c = (c == 10) || (c == 13)

unfoldable pub c_string : Bytes → Bytes
c_string [] = []
c_string (c ∷ cs) = if c == 0 then [] else c ∷ c_string cs

-- `strchr(s, c)`: what stands before and behind the first `c`.
unfoldable pub split_at : ℕ → Bytes → Option (Bytes × Bytes)
split_at d [] = none
split_at d (c ∷ cs) =
    if c == d
    then some ([], cs)
    else elim (split_at d cs) [ none ↦ none | some (a, b) ↦ some (c ∷ a, b) ]

-- `while (*s == ' ') s++;`
unfoldable pub skip_spaces : Bytes → Bytes
skip_spaces [] = []
skip_spaces (c ∷ cs) = if c == space then skip_spaces cs else c ∷ cs

-- The trailing bytes with a property are cut off.
unfoldable pub strip_end : (ℕ → Bool) → Bytes → Bytes
strip_end p [] = []
strip_end p (c ∷ cs) = elim (strip_end p cs) [
  | [] ↦ if p c then [] else c ∷ []
  | d ∷ ds ↦ c ∷ d ∷ ds
]

-- `strrchr(s, '/') + 1`, or the whole string.
unfoldable pub base_name : Bytes → Bytes
unfolding split_at
base_name [] = []
base_name (c ∷ cs) = elim (split_at slash cs) [
  | some _ ↦ base_name cs
  | none ↦ if c == slash then cs else c ∷ cs
]

-- The string is cut at its last slash; without one it becomes "/".
unfoldable pub before_slash : Bytes → Option Bytes
before_slash [] = none
before_slash (c ∷ cs) = elim (before_slash cs) [
  | some b ↦ some (c ∷ b)
  | none ↦ if c == slash then some [] else none
]

unfoldable pub dir_name : Bytes → Bytes
unfolding before_slash
dir_name s = elim (before_slash s) [ some b ↦ b | none ↦ slash ∷ [] ]

-- `%d` of a number that is not negative and `%lx`: 64 places are enough for a `long`.
abbrev pub digit : ℕ → ℕ
digit d = if ltb d 10 then b'0' + d else b'a' + (d - 10)

unfoldable pub digits : ℕ → ℕ → ℕ → Bytes
digits base zero n = []
digits base (suc places) n =
    let front = digits base places (n / base) in
    (if ltb n base then [] else front) ++ digit (n % base) ∷ []

abbrev pub All : (ℕ → Bool) → Bytes → Type 0
All p [] = Unit {0}
All p (c ∷ cs) = (p c ≡ true) × All p cs

-- The last byte, if there is one, is not a line end.
abbrev pub EndsPlain : Bytes → Type 0
EndsPlain [] = Unit {0}
EndsPlain (c ∷ []) = is_newline c ≡ false
EndsPlain (c ∷ d ∷ cs) = EndsPlain (d ∷ cs)
