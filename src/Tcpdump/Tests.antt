-- ===== src/Tcpdump/Tests.antt =====
-- Captures on concrete packets.
use oshm.Prelude.{◌≡◌, refl, true, none, some, List, [], ◌∷◌, arith, pos, neg, einval}
use oshm.Tcpdump.{Bytes, Pcap, Live, default_packet_handler, deliver, custom_tcpdump_capture}
use oshm.Tcpdump.Filling.{kept, filled, deliver-kept}
use oshm.Tcpdump.Outcome.{with_packets, custom_tcpdump_capture_lem}

abbrev eth0 : Bytes
eth0 = b'e' ∷ b't' ∷ b'h' ∷ b'0' ∷ []

abbrev packets : List Bytes
packets = (1 ∷ 2 ∷ []) ∷ (3 ∷ 4 ∷ 5 ∷ 6 ∷ []) ∷ (7 ∷ []) ∷ []

abbrev working : Pcap
working = record { opens = true; compiles = true; sets = true; loop = λ n. (packets, pos 0) }

abbrev idle : Live
idle = record { handles = 0; programs = 0 }

abbrev buffer : Bytes
buffer = 0 ∷ 0 ∷ 0 ∷ 0 ∷ []

-- The second packet does not fit, the third does again.
capture_small :
    custom_tcpdump_capture working (some eth0) none (some buffer) idle
    ≡ (pos 0, some (1 ∷ 2 ∷ 7 ∷ 0 ∷ []), idle)
unfolding custom_tcpdump_capture
capture_small = refl

capture_without_interface :
    custom_tcpdump_capture working none none (some buffer) idle ≡ (neg einval, some buffer, idle)
unfolding custom_tcpdump_capture
capture_without_interface = refl

deliver-kept_example :
    deliver default_packet_handler (filled [] buffer) packets ≡ filled (kept 4 packets) (0 ∷ [])
unfolding kept
deliver-kept_example = deliver-kept [] buffer packets (omega arith) (omega arith)

custom_tcpdump_capture_lem_example :
    custom_tcpdump_capture working (some eth0) none (some buffer) idle
    ≡ (pos 0, some (with_packets buffer packets), idle)
custom_tcpdump_capture_lem_example =
    custom_tcpdump_capture_lem working (some eth0) none (some buffer) idle (omega arith)
      (omega arith)
