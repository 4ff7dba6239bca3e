-- ===== src/Tcpdump/Filling.antt =====
-- How the buffer of a capture fills.
use oshm.Prelude.{
  ℕ, zero, suc, ◌+◌, ◌-◌, ◌%◌, ◌^◌, ◌≤◌, ◌<◌, ◌≡◌, refl, ap, sym, ◌∙◌, true, false, List, [], ◌∷◌,
  ◌++◌, arith, ltb, leb, if◌then◌else◌, Bool-cases, inl, inr, length, take, drop, length-append,
  length-drop,
}
use mathlib.Core.List.{append_assoc, append-nil}
use oshm.Tcpdump.{Bytes, CaptureBuffer, copy_to, default_packet_handler, deliver}

-- The packets that fit one after another into `room` bytes: one that does not is left out, and later
-- ones may fit again.
unfoldable pub kept : ℕ → List Bytes → Bytes
kept room [] = []
kept room (p ∷ ps) =
    let (next, part) : ℕ × Bytes =
      if leb (length p) room then (room - length p, p) else (room, []) in
    part ++ kept next ps

-- Every packet is shorter than 2^32, as `caplen` is.
abbrev pub Short : List Bytes → Type 0
Short [] = Unit {0}
Short (p ∷ ps) = (length p < 2 ^ 32) × Short ps

take-append : (xs ys : Bytes) → take (length xs) (xs ++ ys) ≡ xs
take-append [] ys = refl
take-append (x ∷ xs) ys = ap (λ (t : Bytes). x ∷ t) (take-append xs ys)

drop-append : (n : ℕ) (xs ys : Bytes) → drop (length xs + n) (xs ++ ys) ≡ drop n ys
drop-append n [] ys = ap (λ (k : ℕ). drop k ys) {x = 0 + n} {y = n} (omega arith)
drop-append n (x ∷ xs) ys =
    ap (λ (k : ℕ). drop k (x ∷ (xs ++ ys))) {x = suc (length xs) + n} {y = suc (length xs + n)}
      (omega arith)
    ∙ drop-append n xs ys

drop-nil : (n : ℕ) → drop {A = ℕ} n [] ≡ []
drop-nil zero = refl
drop-nil (suc n) = refl

drop-drop : (m n : ℕ) (xs : Bytes) → drop m (drop n xs) ≡ drop (n + m) xs
drop-drop m zero xs = ap (λ (k : ℕ). drop k xs) {x = m} {y = 0 + m} (omega arith)
drop-drop m (suc n) [] = drop-nil m ∙ sym (drop-nil (suc n + m))
drop-drop m (suc n) (x ∷ xs) =
    drop-drop m n xs
    ∙ ap (λ (k : ℕ). drop k (x ∷ xs)) {x = suc (n + m)} {y = suc n + m} (omega arith)

-- A buffer that is filled up to the end of `done`.
abbrev pub filled : (done rest : Bytes) → CaptureBuffer
filled done rest = record { buffer = done ++ rest; bytes_written = length done }

copy_to-end :
    (done rest p : Bytes)
    → copy_to (done ++ rest) (length done) p ≡ (done ++ p) ++ drop (length p) rest
copy_to-end done rest p =
    rw
      (
        take-append done rest,
        drop-append (length p) done rest,
        append_assoc done p (drop (length p) rest),
      )
      refl

handler-fits :
    (done rest p : Bytes)
    → length (done ++ rest) + 2 ^ 32 ≤ 2 ^ 64
    → length p ≤ length rest
    → default_packet_handler (filled done rest) p ≡ filled (done ++ p) (drop (length p) rest)
unfolding default_packet_handler
handler-fits done rest p small fits =
    let l = length-append done rest in
    let goes : ltb (length (done ++ rest)) ((length done + length p) % 2 ^ 64) ≡ false =
      ground (arith, l) in
    rw (goes, copy_to-end done rest p, length-append done p) refl

handler-skips :
    (done rest p : Bytes)
    → length (done ++ rest) + 2 ^ 32 ≤ 2 ^ 64
    → length p < 2 ^ 32
    → length rest < length p
    → default_packet_handler (filled done rest) p ≡ filled done rest
unfolding default_packet_handler
handler-skips done rest p small short large =
    let l = length-append done rest in
    let stays : ltb (length (done ++ rest)) ((length done + length p) % 2 ^ 64) ≡ true =
      ground (arith, l) in
    rw stays refl

leb→le : (a b : ℕ) → leb a b ≡ true → a ≤ b
leb→le a b h = ground arith

-- A handler that starts behind `done` in a buffer of less than 2^64 - 2^32 bytes fills the rest with
-- the packets that fit, one after another, leaves `done` and what is behind them as it was, and
-- counts exactly what it wrote, so it never writes past the end.
pub deliver-kept :
    (done rest : Bytes) (packets : List Bytes)
    → length (done ++ rest) + 2 ^ 32 ≤ 2 ^ 64
    → Short packets
    → deliver default_packet_handler (filled done rest) packets
      ≡ filled
          (done ++ kept (length rest) packets)
          (drop (length (kept (length rest) packets)) rest)
unfolding deliver kept
deliver-kept done rest [] small short = rw (append-nil done) refl
deliver-kept done rest (p ∷ ps) small short = elim (Bool-cases (leb (length p) (length rest))) [
  | inl fits ↦
      rw (fits, handler-fits done rest p small (ground arith))
        (deliver-kept (done ++ p) (drop (length p) rest) ps
            (omega (
              arith,
              length-append done rest,
              length-append (done ++ p) (drop (length p) rest),
              length-append done p,
              length-drop (length p) rest,
              leb→le (length p) (length rest) fits,
            ))
            short.1
          ∙ (let k = kept (length rest - length p) ps in
              rw
                (
                  length-drop (length p) rest,
                  append_assoc done p k,
                  drop-drop (length k) (length p) rest,
                  length-append p k,
                )
                refl))
  | inr large ↦
      rw (large, handler-skips done rest p small short.0 (ground arith))
        (deliver-kept done rest ps small short.1)
]

-- No more is kept than there is room for.
length-kept-le : (room : ℕ) (packets : List Bytes) → length (kept room packets) ≤ room
unfolding kept
length-kept-le room [] = omega arith
length-kept-le room (p ∷ ps) = elim (Bool-cases (leb (length p) room)) [
  | inl fits ↦ rw fits (
      ground
        (arith, length-append p (kept (room - length p) ps), length-kept-le (room - length p) ps))
  | inr large ↦ rw large (length-kept-le room ps)
]
