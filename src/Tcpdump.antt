-- ===== src/Tcpdump.antt =====
-- tcpdump/custom_tcpdump.c: packets of an interface are captured into a buffer or given to a handler.
use oshm.Prelude.{
  ℕ, ◌+◌, ◌-◌, ◌%◌, ◌^◌, ◌≤◌, ◌<◌, ◌≡◌, refl, Bool, true, false, not, ◌&&◌, ◌||◌, Option, none,
  some, List, [], ◌∷◌, ◌++◌, ltb, ◌==◌, if◌then◌else◌, is_some, length, take, drop, ℤ, pos, neg,
  eqb_ℤ, negsuc, enodev, einval, eio,
}
mod Filling
mod Outcome
mod Tests

abbrev pub Bytes : Type 0
Bytes = List ℕ

-- `capture_buffer_t`: the size is the length of the buffer.
pub record CaptureBuffer : Type 0 where
  pub buffer : Bytes
  pub bytes_written : ℕ

-- `memcpy` to a place in a buffer.
abbrev pub copy_to : Bytes → ℕ → Bytes → Bytes
copy_to buffer at bytes = take at buffer ++ (bytes ++ drop (at + length bytes) buffer)

-- `default_packet_handler`: the bytes of a packet are the `caplen` that were captured; the sum is a
-- `size_t`.
unfoldable pub default_packet_handler : CaptureBuffer → Bytes → CaptureBuffer
default_packet_handler c packet =
    if ltb (length c.buffer) ((c.bytes_written + length packet) % 2 ^ 64) then c else record c {
      buffer = copy_to c.buffer c.bytes_written packet;
      bytes_written = c.bytes_written + length packet;
    }

-- The handler on the packets that `pcap_loop` delivers, in order.
unfoldable pub deliver {ℓ} : {U : Type ℓ} → (U → Bytes → U) → U → List Bytes → U
deliver handler user [] = user
deliver handler user (p ∷ ps) = deliver handler (handler user p) ps

-- What libpcap answers: whether the interface opens, the filter compiles and is set, and what
-- `pcap_loop` delivers and returns for a number of packets.
pub record Pcap : Type 0 where
  pub opens : Bool
  pub compiles : Bool
  pub sets : Bool
  pub loop : ℕ → List Bytes × ℤ

-- The open handles and the compiled programs of the process.
pub record Live : Type 0 where
  pub handles : ℕ
  pub programs : ℕ

abbrev open_live : Live → Live
open_live w = record w { handles = w.handles + 1 }

abbrev close_live : Live → Live
close_live w = record w { handles = w.handles - 1 }

abbrev compiled : Live → Live
compiled w = record w { programs = w.programs + 1 }

abbrev free_code : Live → Live
free_code w = record w { programs = w.programs - 1 }

-- A filter that is given and is not empty.
abbrev pub filters : Option Bytes → Bool
filters none = false
filters (some []) = false
filters (some (c ∷ cs)) = true

-- The filter, on an open handle: an error, or 0.
unfoldable pub apply_filter : Pcap → Option Bytes → Live → ℤ × Live
apply_filter p custom_filter w =
    if filters custom_filter
    then (if not p.compiles
        then (neg einval, w)
        else if not p.sets
        then (neg einval, free_code (compiled w))
        else (pos 0, free_code (compiled w)))
    else (pos 0, w)

module _ {ℓ} {U : Type ℓ} where
  -- `pcap_loop` on; a return of -1 is an error, -2 is a loop that was broken.
  abbrev loop_and_close : (U → Bytes → U) → List Bytes × ℤ → U → Live → ℤ × U × Live
  loop_and_close handler (packets, ret) user w =
      if eqb_ℤ ret (negsuc 0)
      then (neg eio, deliver handler user packets, close_live w)
      else (pos 0, deliver handler user packets, close_live w)

  abbrev capture_opened : Pcap → (U → Bytes → U) → ℕ → U → ℤ × Live → ℤ × U × Live
  capture_opened p handler count user (ret, w) =
      if eqb_ℤ ret (pos 0)
      then loop_and_close handler (p.loop count) user w
      else (ret, user, close_live w)

  -- `custom_tcpdump_capture_with_handler`; `none` is a null pointer.
  unfoldable pub capture_with_handler :
      Pcap
      → (iface custom_filter : Option Bytes) → Option (U → Bytes → U)
      → U
      → ℕ
      → Live
      → ℤ × U × Live
  unfolding apply_filter deliver
  capture_with_handler p none custom_filter handler user count w = (neg einval, user, w)
  capture_with_handler p (some iface) custom_filter none user count w = (neg einval, user, w)
  capture_with_handler p (some iface) custom_filter (some handler) user count w =
      if not p.opens
      then (neg enodev, user, w)
      else capture_opened p handler count user (apply_filter p custom_filter (open_live w))

-- `custom_tcpdump_capture`, on the buffer that the caller gives, which `none` says is a null pointer.
abbrev buffer_after : ℤ × CaptureBuffer × Live → ℤ × Option Bytes × Live
buffer_after (ret, c, w) = (ret, some c.buffer, w)

unfoldable pub custom_tcpdump_capture :
    Pcap → (iface custom_filter buffer : Option Bytes) → Live → ℤ × Option Bytes × Live
unfolding capture_with_handler default_packet_handler
custom_tcpdump_capture p iface custom_filter none w = (neg einval, none, w)
custom_tcpdump_capture p iface custom_filter (some buffer) w =
    if not (is_some iface) || (length buffer == 0)
    then (neg einval, some buffer, w)
    else buffer_after (
        capture_with_handler p iface custom_filter (some default_packet_handler)
          (record { buffer = buffer; bytes_written = 0 }) 10 w)
