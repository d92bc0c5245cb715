-- ===== src/Probe/Packet.antt =====
-- The whole probe packet of aether/src/masque.rs.
use aether_gui.Common.{ℕ, ◌-◌, ◌≡◌, refl, ap, List, [], ◌∷◌, ◌++◌, length, take, drop}
use aether_gui.Common.Outcome.{ok, ◌>>=◌}
use aether_gui.Common.Bytes.{IsBytes, be16}
use aether_gui.Probe.{probe_dns_query, probe_header, set_checksum, build_dns_probe_packet}
use aether_gui.Probe.Checksum.{Verifies, set_checksum-Verifies}

-- An IPv4 packet of the length that its header tells (here under 256), whose header verifies, around
-- a UDP datagram of the length that its header tells, around the payload.
pub record IsUdpPacket (payload pkt : List ℕ) : Type 0 where
  pub total_length : take 2 (drop 2 pkt) ≡ be16 (length pkt)
  pub checksum : Verifies (take 20 pkt)
  pub udp_length : take 2 (drop 24 pkt) ≡ be16 (length pkt - 20)
  pub rest : drop 28 pkt ≡ payload

-- For a source address of four bytes the probe packet is built, and it is a well-formed IPv4 packet
-- with a UDP datagram that carries the query: its lengths are right and its header checksum verifies.
pub build_dns_probe_packet-IsUdpPacket :
    (query_id id sport a b c d : ℕ)
    → IsBytes (a ∷ b ∷ c ∷ d ∷ [])
    → (pkt : List ℕ) × (build_dns_probe_packet query_id id sport (a ∷ b ∷ c ∷ d ∷ []) ≡ ok pkt)
      × IsUdpPacket (probe_dns_query query_id) pkt
unfolding build_dns_probe_packet probe_dns_query set_checksum probe_header
build_dns_probe_packet-IsUdpPacket query_id id sport a b c d bytes =
    let (csum, run, good) = set_checksum-Verifies 60 id a b c d bytes in
    (
      packet csum,
      ap (λ m. m >>= λ sum. ok (packet sum)) run,
      record { total_length = refl; checksum = good; udp_length = refl; rest = refl },
    )
  where
    packet : ℕ → List ℕ
    packet csum =
        set_checksum (probe_header 60 id (a ∷ b ∷ c ∷ d ∷ [])) csum
        ++ be16 sport
        ++ be16 53
        ++ be16 40
        ++ (0x00 ∷ 0x00 ∷ [])
        ++ probe_dns_query query_id
