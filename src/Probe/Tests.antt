-- ===== src/Probe/Tests.antt =====
-- Examples of the probe packet of aether/src/masque.rs.
use aether_gui.Common.{ℕ, ◌≡◌, refl, List, [], ◌∷◌, arith}
use aether_gui.Common.Outcome.{ok}
use aether_gui.Probe.{
  ipv4_header_checksum, sum_words, fold_carries, probe_dns_query, build_dns_probe_packet,
}
use aether_gui.Probe.Packet.{build_dns_probe_packet-IsUdpPacket, IsUdpPacket}

-- The header of a textbook example, with its checksum left out.
checksum_run :
    ipv4_header_checksum (
      0x45 ∷ 0x00 ∷ 0x00 ∷ 0x73 ∷ 0x00 ∷ 0x00 ∷ 0x40 ∷ 0x00 ∷ 0x40 ∷ 0x11 ∷ 0x00 ∷ 0x00 ∷ 0xc0
      ∷ 0xa8 ∷ 0x00 ∷ 0x01 ∷ 0xc0 ∷ 0xa8 ∷ 0x00 ∷ 0xc7 ∷ [])
    ≡ ok 0xb861
unfolding ipv4_header_checksum sum_words fold_carries
checksum_run = refl

build_dns_probe_packet-IsUdpPacket_example :
    (pkt : List ℕ) × (build_dns_probe_packet 7 8 20_500 (172 ∷ 16 ∷ 0 ∷ 2 ∷ []) ≡ ok pkt)
    × IsUdpPacket (probe_dns_query 7) pkt
build_dns_probe_packet-IsUdpPacket_example =
    build_dns_probe_packet-IsUdpPacket 7 8 20_500 172 16 0 2
      (omega arith, (omega arith, (omega arith, (omega arith, tt))))
