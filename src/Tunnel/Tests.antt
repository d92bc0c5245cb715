-- ===== src/Tunnel/Tests.antt =====
-- Runs of the tunnels' drains, and their theorems at concrete inputs.
use aether_gui.Common.{ℕ, ◌≤◌, refl, true, List, [], ◌∷◌, arith, length}
use aether_gui.Common.Outcome.{Ensures}
use aether_gui.Octets.Wire.{octets, octets-IsOctets}
use aether_gui.Masque.{datagram, unknown, encode_capsule, next, capsule_of, varint_len}
use aether_gui.Tunnel.{drain_capsules, feed_chunks}
use aether_gui.Tunnel.Drain.{drain_capsules-Ensures}
use aether_gui.Tunnel.Stream.{Sent}
use aether_gui.Tunnel.Chunks.{Fed, feed_chunks-encode_stream}

-- Two packets with an unknown capsule between them, and the start of a third.
abbrev sent : List Sent
sent =
    record { kind = 0; value = 1 ∷ 2 ∷ []; capsule = datagram (1 ∷ 2 ∷ []) }
    ∷ record { kind = 9; value = 5 ∷ []; capsule = unknown 9 (5 ∷ []) }
    ∷ record { kind = 0; value = 3 ∷ []; capsule = datagram (3 ∷ []) }
    ∷ []

abbrev tail : List ℕ
tail = 0 ∷ 4 ∷ 1 ∷ []

abbrev chunks : List (List ℕ)
chunks = (0 ∷ []) ∷ (2 ∷ 1 ∷ []) ∷ (2 ∷ 9 ∷ 1 ∷ 5 ∷ 0 ∷ []) ∷ (1 ∷ 3 ∷ 0 ∷ 4 ∷ 1 ∷ []) ∷ []

drain_capsules-Ensures_example : Ensures (λ d. length d.buf ≤ 3) (drain_capsules octets true tail)
drain_capsules-Ensures_example = drain_capsules-Ensures octets octets-IsOctets true tail

feed_chunks-encode_stream_example :
    Fed octets octets-IsOctets sent tail (feed_chunks octets true chunks [])
unfolding next encode_capsule varint_len capsule_of
feed_chunks-encode_stream_example =
    feed_chunks-encode_stream octets octets-IsOctets chunks sent tail
      (
        record { kind = omega arith; value = omega arith; parses = refl },
        (
          record { kind = omega arith; value = omega arith; parses = refl },
          (record { kind = omega arith; value = omega arith; parses = refl }, tt),
        ),
      )
      refl refl
