-- ===== src/Probe.antt =====
-- The probe packet of aether/src/masque.rs: a DNS query in UDP in IPv4 with its header checksum.
pub mod Checksum
pub mod Packet
mod Tests
use aether_gui.Common.{
  ℕ, zero, suc, ◌+◌, ◌-◌, ◌*◌, ◌/◌, ◌%◌, ◌^◌, ◌≤◌, ◌<◌, ◌≡◌, refl, sym, ap, ◌∙◌, subst, ◌≢◌, ◌↔◌,
  ◌⊎◌, inl, inr, Bool, true, false, ◌&&◌, ◌||◌, not, Option, none, some, List, [], ◌∷◌, ◌++◌, map,
  append-nil, append_assoc, arith, bit_and, min, max, length, get_elem?, take, drop, replicate, All,
  length-append, length-take, length-drop, take-append-drop, drop-nil, drop-add, drop-length_append,
  take-length_append, take-length, drop-length, take-append_le, drop-append_le, get_elem?-add,
  get_elem?-lt, get_elem?-drop, get_elem?-drop_zero, drop-step, get_elem?-All, All-append, ltb, leb,
  ◌==◌, if◌then◌else◌, ltb→lt, lt→ltb, le→ltb, ltb→le, leb→le, le→leb, lt→leb, ==_iff, ==_refl,
  Bool-cases, Option-cases,
}
use aether_gui.Common.Outcome.{
  Outcome, ok, err, panic, stuck, Absent, absent, ◌>>=◌, ◌>>◌, guard, of_index, or_err, index,
  checked_add, Ensures, Ensures-bind, Ensures-weaken, Ensures-if, get_elem?-some, index-Ensures,
  index-Ensures-All, guard-Ensures,
}
use aether_gui.Common.Bytes.{IsByte, IsBytes, u16_be, be16, be32}

-- The first two loops: pairs of bytes in network order, a last single byte in the high place.
unfoldable pub sum_words : List ℕ → ℕ
sum_words [] = 0
sum_words (a ∷ []) = a * 256
sum_words (a ∷ b ∷ rest) = (a * 256 + b) + sum_words rest

-- `while (sum >> 16) != 0`, one round for each unit of fuel.
unfoldable pub fold_carries : ℕ → ℕ → Outcome Absent ℕ
fold_carries zero sum = stuck
fold_carries (suc fuel) sum =
    let rest = fold_carries fuel (sum % 65_536 + sum / 65_536) in
    if sum / 65_536 == 0 then ok sum else rest

-- `!(sum as u16)`
abbrev pub complement : ℕ → ℕ
complement sum = 65_535 - sum % 65_536

unfoldable pub ipv4_header_checksum : List ℕ → Outcome Absent ℕ
ipv4_header_checksum header = do sum ← fold_carries 3 (sum_words header); ok (complement sum)

-- The labels "cloudflare" and "com" behind their lengths.
unfoldable pub probe_dns_query : ℕ → List ℕ
probe_dns_query id =
    be16 id
    ++ (0x01 ∷ 0x00 ∷ 0x00 ∷ 0x01 ∷ 0 ∷ 0 ∷ 0 ∷ 0 ∷ 0 ∷ 0 ∷ 10 ∷ 99 ∷ 108 ∷ 111 ∷ 117 ∷ 100 ∷ 102
        ∷ 108 ∷ 97 ∷ 114 ∷ 101 ∷ 3 ∷ 99 ∷ 111 ∷ 109 ∷ 0x00 ∷ 0x00 ∷ 0x01 ∷ 0x00 ∷ 0x01 ∷ [])

-- The header before its checksum is written; `src` is `src.octets()`.
unfoldable pub probe_header : ℕ → ℕ → List ℕ → List ℕ
probe_header total_len id src =
    (0x45 ∷ 0x00 ∷ [])
    ++ be16 total_len
    ++ be16 id
    ++ (0x00 ∷ 0x00 ∷ 64 ∷ 17 ∷ 0x00 ∷ 0x00 ∷ [])
    ++ src
    ++ (8 ∷ 8 ∷ 8 ∷ 8 ∷ [])

-- `pkt[10..12].copy_from_slice(..)` on the header.
unfoldable pub set_checksum : List ℕ → ℕ → List ℕ
set_checksum header csum = take 10 header ++ be16 csum ++ drop 12 header

unfoldable pub build_dns_probe_packet : ℕ → ℕ → ℕ → List ℕ → Outcome Absent (List ℕ)
build_dns_probe_packet query_id id sport src =
    let dns = probe_dns_query query_id in
    let udp_len = 8 + length dns in
    let header = probe_header (20 + udp_len) id src in
    do
      csum ← ipv4_header_checksum header
      ok (
          set_checksum header csum
          ++ be16 sport
          ++ be16 53
          ++ be16 udp_len
          ++ (0x00 ∷ 0x00 ∷ [])
          ++ dns)
