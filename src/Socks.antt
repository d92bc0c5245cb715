-- ===== src/Socks.antt =====
-- The SOCKS5 server of aether/src/socks.rs: the bytes of its messages, and the datagrams of its UDP
-- relay. The server's dialogue is in Socks.Session, the relay loop in Socks.Relay.
pub mod Utf8
pub mod Session
pub mod Relay
pub mod Upload
pub mod Datagrams
pub mod Safety
pub mod Requests
pub mod Steps
pub mod Replies
mod Tests
use aether_gui.Common.{
  ℕ, zero, suc, ◌+◌, ◌-◌, ◌*◌, ◌/◌, ◌%◌, ◌^◌, ◌≤◌, ◌<◌, ◌≡◌, refl, sym, ap, ◌∙◌, subst, ◌≢◌, ◌↔◌,
  ◌⊎◌, inl, inr, Bool, true, false, ◌&&◌, ◌||◌, not, Option, none, some, List, [], ◌∷◌, ◌++◌, map,
  append-nil, append_assoc, arith, bit_and, min, max, length, get_elem?, take, drop, replicate, All,
  length-append, length-take, length-drop, take-append-drop, drop-nil, drop-add, drop-length_append,
  take-length_append, take-length, drop-length, take-append_le, drop-append_le, get_elem?-add,
  get_elem?-lt, get_elem?-drop, get_elem?-drop_zero, drop-step, get_elem?-All, All-append, ltb, leb,
  ◌==◌, if◌then◌else◌, ltb→lt, lt→ltb, le→ltb, ltb→le, leb→le, le→leb, lt→leb, ==_iff, ==_refl,
  Bool-cases, Option-cases,
}
use aether_gui.Common.Outcome.{
  Outcome, ok, err, panic, stuck, Absent, absent, ◌>>=◌, ◌>>◌, guard, of_index, or_err, index,
  checked_add, Ensures, Ensures-bind, Ensures-weaken, Ensures-if, get_elem?-some, index-Ensures,
  index-Ensures-All, guard-Ensures,
}
use aether_gui.Common.Bytes.{IsByte, IsBytes, u16_be, be16, be32}
use aether_gui.Net.{IpAddr, v4, v6, SocketAddr}
use aether_gui.Socks.Utf8.{from_utf8_lossy}

abbrev pub ver : ℕ
ver = 0x05

abbrev pub cmd_connect : ℕ
cmd_connect = 0x01

abbrev pub cmd_udp_associate : ℕ
cmd_udp_associate = 0x03

abbrev pub atyp_v4 : ℕ
atyp_v4 = 0x01

abbrev pub atyp_domain : ℕ
atyp_domain = 0x03

abbrev pub atyp_v6 : ℕ
atyp_v6 = 0x04

abbrev pub rep_ok : ℕ
rep_ok = 0x00

abbrev pub rep_general : ℕ
rep_general = 0x01

abbrev pub rep_not_supported : ℕ
rep_not_supported = 0x07

-- A name is the bytes of its `String`.
pub data Target : Type 0 where
  ip : IpAddr → Target
  domain : List ℕ → Target

unfoldable pub push_ip : IpAddr → List ℕ → List ℕ
push_ip (v4 o) port = atyp_v4 ∷ (o ++ port)
push_ip (v6 o) port = atyp_v6 ∷ (o ++ port)

-- The address and the port of `reply_bound` and `build_udp_reply`.
unfoldable pub push_addr : SocketAddr → List ℕ
push_addr a = push_ip a.ip (be16 a.port)

-- `buf[pos..pos + n]` behind its guard `buf.len() < pos + n`.
abbrev pub slice_at : List ℕ → ℕ → ℕ → Outcome Absent (List ℕ)
slice_at buf pos n = do guard (leb (pos + n) (length buf)) absent; ok (take n (drop pos buf))

unfoldable pub read_name : List ℕ → ℕ → Outcome Absent (Target × ℕ)
read_name buf pos = do
  len ← or_err absent (get_elem? buf pos)
  name ← slice_at buf (pos + 1) len
  ok (domain (from_utf8_lossy name), pos + 1 + len)

-- The match on `atyp`: the target, and the position behind it.
unfoldable pub udp_target : List ℕ → ℕ → Outcome Absent (Target × ℕ)
udp_target buf atyp =
    if atyp == atyp_v4
    then (do o ← slice_at buf 4 4; ok (ip (v4 o), 8))
    else if atyp == atyp_v6
    then (do o ← slice_at buf 4 16; ok (ip (v6 o), 20))
    else if atyp == atyp_domain
    then read_name buf 4
    else err absent

-- The port behind the target, and the payload.
unfoldable pub udp_rest : List ℕ → Target × ℕ → Outcome Absent (Target × ℕ × List ℕ)
udp_rest buf (target, pos) = do
  guard (leb (pos + 2) (length buf)) absent
  hi ← index buf pos
  lo ← index buf (pos + 1)
  ok (target, u16_be hi lo, drop (pos + 2) buf)

unfoldable pub parse_udp_request : List ℕ → Outcome Absent (Target × ℕ × List ℕ)
parse_udp_request buf = do
  guard (leb 4 (length buf)) absent
  frag ← index buf 2
  guard (frag == 0) absent
  atyp ← index buf 3
  found ← udp_target buf atyp
  udp_rest buf found

unfoldable pub build_udp_reply : SocketAddr → List ℕ → List ℕ
build_udp_reply src payload = 0x00 ∷ 0x00 ∷ 0x00 ∷ (push_addr src ++ payload)
