-- ===== src/Wireguard.antt =====
-- The client id in WireGuard messages and the probe packet of aether/src/wireguard.rs. A packet is the
-- list of its bytes, and the functions on the client id give the packet after the mutation. The child
-- modules are about the tasks of the tunnel and the check of an endpoint.
pub mod ClientId
pub mod Session
pub mod Verify
pub mod Dataplane
pub mod Confirmation
pub mod Tagging
pub mod Run
pub mod Tasks
pub mod Covered
pub mod Order
mod Tests
use aether_gui.Probe.{ipv4_header_checksum, build_dns_probe_packet}
use aether_gui.Common.Outcome.{Outcome, Absent}
use aether_gui.Common.{
  ℕ, zero, suc, ◌+◌, ◌-◌, ◌*◌, ◌/◌, ◌%◌, ◌^◌, ◌≤◌, ◌<◌, ◌≡◌, refl, sym, ap, ◌∙◌, subst, ◌≢◌, ◌↔◌,
  ◌⊎◌, inl, inr, Bool, true, false, ◌&&◌, ◌||◌, not, Option, none, some, List, [], ◌∷◌, ◌++◌, map,
  append-nil, append_assoc, arith, bit_and, min, max, length, get_elem?, take, drop, replicate, All,
  length-append, length-take, length-drop, take-append-drop, drop-nil, drop-add, drop-length_append,
  take-length_append, take-length, drop-length, take-append_le, drop-append_le, get_elem?-add,
  get_elem?-lt, get_elem?-drop, get_elem?-drop_zero, drop-step, get_elem?-All, All-append, ltb, leb,
  ◌==◌, if◌then◌else◌, ltb→lt, lt→ltb, le→ltb, ltb→le, leb→le, le→leb, lt→leb, ==_iff, ==_refl,
  Bool-cases, Option-cases,
}
use aether_gui.Common.Outcome.{
  Outcome, ok, err, panic, stuck, Absent, absent, ◌>>=◌, ◌>>◌, guard, of_index, or_err, index,
  checked_add, Ensures, Ensures-bind, Ensures-weaken, Ensures-if, get_elem?-some, index-Ensures,
  index-Ensures-All, guard-Ensures,
}
use aether_gui.Common.Bytes.{IsByte, IsBytes, u16_be, be16, be32}

abbrev pub wg_msg_type_min : ℕ
wg_msg_type_min = 1

abbrev pub wg_msg_type_max : ℕ
wg_msg_type_max = 4

-- `pkt[1..4].copy_from_slice(bytes)` for three bytes on a packet of four bytes at least.
pub copy_reserved : List ℕ → List ℕ → List ℕ
copy_reserved pkt bytes = take 1 pkt ++ (bytes ++ drop 4 pkt)

-- The two guards, with `pkt[0]` as the code indexes it: behind the test of the length.
pub set_reserved : List ℕ → List ℕ → List ℕ
set_reserved [] bytes = []
set_reserved (kind ∷ rest) bytes =
    if ltb (length (kind ∷ rest)) 4
    then kind ∷ rest
    else if ltb kind wg_msg_type_min || ltb wg_msg_type_max kind
    then kind ∷ rest
    else copy_reserved (kind ∷ rest) bytes

pub inject_client_id : List ℕ → List ℕ → List ℕ
inject_client_id pkt client_id = set_reserved pkt client_id

pub strip_client_id : List ℕ → List ℕ
strip_client_id pkt = set_reserved pkt (0 ∷ 0 ∷ 0 ∷ [])

-- The file has copies of the checksum and of the probe packet of masque.rs, line by line the same.
abbrev pub ipv4_checksum : List ℕ → Outcome Absent ℕ
ipv4_checksum = ipv4_header_checksum

abbrev pub build_dataplane_probe : ℕ → ℕ → ℕ → List ℕ → Outcome Absent (List ℕ)
build_dataplane_probe = build_dns_probe_packet
