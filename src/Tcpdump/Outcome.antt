-- ===== src/Tcpdump/Outcome.antt =====
-- The two capture functions on every branch.
use oshm.Prelude.{
  ℕ, ◌+◌, ◌-◌, ◌^◌, ◌≤◌, ◌≡◌, refl, Bool, false, not, ◌&&◌, ◌||◌, Option, none, some, List, [], ◌∷◌,
  ◌++◌, arith, ◌==◌, ltb, if◌then◌else◌, Bool-cases, inl, inr, length, drop, ℤ, pos, neg, negsuc,
  eqb_ℤ, enodev, einval, eio,
}
use oshm.Tcpdump.{
  Bytes, default_packet_handler, deliver, Pcap, Live, filters, capture_with_handler,
  custom_tcpdump_capture,
}
use oshm.Tcpdump.Filling.{Short, kept, filled, deliver-kept}

-- A text of one byte at least.
abbrev pub has_text : Option Bytes → Bool
has_text none = false
has_text (some text) = ltb 0 (length text)

filters-has_text : (o : Option Bytes) → filters o ≡ has_text o
filters-has_text none = refl
filters-has_text (some []) = refl
filters-has_text (some (c ∷ cs)) = ground arith

-- The interface opens, and the filter, if there is one with a text, compiles and is set.
abbrev pub ready : Pcap → Option Bytes → Bool
ready p custom_filter = p.opens && (not (has_text custom_filter) || (p.compiles && p.sets))

-- The error of what is not ready.
abbrev refusal : Pcap → ℤ
refusal p = if p.opens then neg einval else neg enodev

restore : (n : ℕ) → n + 1 - 1 ≡ n
restore n = omega arith

result {ℓ} :
    {U : Type ℓ} (p : Pcap) (handler : U → Bytes → U) (user : U) (count : ℕ) (w : Live)
    → ◌≡◌ {A = ℤ × U × Live}
        (if eqb_ℤ (p.loop count).1 (negsuc 0)
          then (neg eio, deliver handler user (p.loop count).0, w)
          else (pos 0, deliver handler user (p.loop count).0, w))
        (
          if eqb_ℤ (p.loop count).1 (negsuc 0) then neg eio else pos 0,
          deliver handler user (p.loop count).0,
          w,
        )
result p handler user count w = elim (Bool-cases (eqb_ℤ (p.loop count).1 (negsuc 0))) [
  | inl bad ↦ rw bad refl
  | inr good ↦ rw good refl
]

-- The capture with a handler: every handle and program that it makes is gone at its end. If libpcap is
-- ready the handler has seen exactly the packets of the loop, in order, and the result is -EIO for
-- a return of -1 and 0 for any other; if it is not, the handler has seen nothing, and the result is
-- -ENODEV where the interface does not open and -EINVAL else.
capture_with_handler_lem {ℓ} :
    {U : Type ℓ} (p : Pcap) (iface : Bytes) (custom_filter : Option Bytes) (handler : U → Bytes → U)
    (user : U) (count : ℕ) (w : Live)
    → capture_with_handler p (some iface) custom_filter (some handler) user count w ≡ (
        if ready p custom_filter
        then (
          if eqb_ℤ (p.loop count).1 (negsuc 0) then neg eio else pos 0,
          deliver handler user (p.loop count).0,
          w,
        )
        else (refusal p, user, w))
unfolding capture_with_handler
capture_with_handler_lem p iface custom_filter handler user count w = elim (Bool-cases p.opens) [
  | inr closed ↦ rw closed refl
  | inl opens ↦
      rw (opens, ← filters-has_text custom_filter)
        (elim (Bool-cases (filters custom_filter)) [
          | inr no_filter ↦ rw (no_filter, restore w.handles) (result p handler user count w)
          | inl filter ↦ rw filter (elim (Bool-cases p.compiles) [
            | inr bad ↦ rw (bad, restore w.handles) refl
            | inl compiles ↦ rw compiles (elim (Bool-cases p.sets) [
              | inr unset ↦ rw (unset, restore w.handles, restore w.programs) refl
              | inl sets ↦
                  rw (sets, restore w.handles, restore w.programs) (result p handler user count w)
            ])
          ])
        ])
]

-- What the first `n` bytes of a buffer become.
abbrev pub with_packets : Bytes → List Bytes → Bytes
with_packets buffer packets =
    kept (length buffer) packets ++ drop (length (kept (length buffer) packets)) buffer

abbrev pub size_of : Option Bytes → ℕ
size_of none = 0
size_of (some buffer) = length buffer

-- The capture with an interface and a buffer that is not empty.
abbrev captured : Pcap → (custom_filter : Option Bytes) → Bytes → Live → ℤ × Option Bytes × Live
captured p custom_filter buffer w =
    if ready p custom_filter
    then (
      if eqb_ℤ (p.loop 10).1 (negsuc 0) then neg eio else pos 0,
      some (with_packets buffer (p.loop 10).0),
      w,
    )
    else (refusal p, some buffer, w)

-- What the capture is to do with its arguments.
abbrev pub expected :
    Pcap → (iface custom_filter buffer : Option Bytes) → Live → ℤ × Option Bytes × Live
expected p none custom_filter buffer w = (neg einval, buffer, w)
expected p (some iface) custom_filter none w = (neg einval, none, w)
expected p (some iface) custom_filter (some []) w = (neg einval, some [], w)
expected p (some iface) custom_filter (some (c ∷ cs)) w = captured p custom_filter (c ∷ cs) w

captured_lem :
    (p : Pcap) (iface : Bytes) (custom_filter : Option Bytes) (buffer : Bytes) (w : Live)
    → (length buffer == 0) ≡ false
    → length buffer + 2 ^ 32 ≤ 2 ^ 64
    → Short (p.loop 10).0
    → custom_tcpdump_capture p (some iface) custom_filter (some buffer) w
      ≡ captured p custom_filter buffer w
unfolding custom_tcpdump_capture
captured_lem p iface custom_filter buffer w full small short =
    rw
      (
        full,
        capture_with_handler_lem p iface custom_filter default_packet_handler (filled [] buffer) 10
            w,
      )
      (elim (Bool-cases (ready p custom_filter)) [
        | inr unready ↦ rw unready refl
        | inl is_ready ↦ rw (is_ready, deliver-kept [] buffer (p.loop 10).0 small short) refl
      ])

-- The capture, for a buffer below 2^64 - 2^32 bytes and packets below 2^32: every handle and program is gone
-- at its end. Without an interface, without a buffer or with an empty one, it is -EINVAL and nothing changes.
-- Else, if libpcap is ready, the buffer begins with those of the ten packets asked for that fit one after
-- another, and is as it was behind them, and the result is -EIO for a return of -1 of the loop and 0 for any
-- other; if libpcap is not ready, the buffer is as it was, and the result is -ENODEV where the interface does
-- not open and -EINVAL else.
pub custom_tcpdump_capture_lem :
    (p : Pcap) (iface custom_filter buffer : Option Bytes) (w : Live)
    → size_of buffer + 2 ^ 32 ≤ 2 ^ 64
    → Short (p.loop 10).0
    → custom_tcpdump_capture p iface custom_filter buffer w
      ≡ expected p iface custom_filter buffer w
unfolding custom_tcpdump_capture
custom_tcpdump_capture_lem p none custom_filter none w small short = refl
custom_tcpdump_capture_lem p none custom_filter (some buffer) w small short = refl
custom_tcpdump_capture_lem p (some iface) custom_filter none w small short = refl
custom_tcpdump_capture_lem p (some iface) custom_filter (some []) w small short = refl
custom_tcpdump_capture_lem p (some iface) custom_filter (some (c ∷ cs)) w small short =
    captured_lem p iface custom_filter (c ∷ cs) w (ground arith) small short
