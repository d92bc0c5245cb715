-- ===== src/Dns.antt =====
-- The DNS code of aether/src/socks.rs and aether/src/dns.rs: queries, and the scans of a response.
-- A response is a list of bytes, a position a number; `buf[i]` panics out of bounds.
pub mod Query
pub mod Ech
pub mod Safety
pub mod Message
pub mod Decode
pub mod Answers
mod Tests
use aether_gui.Common.{
  ℕ, zero, suc, ◌+◌, ◌%◌, ◌≤◌, ◌≡◌, Bool, ◌&&◌, List, [], ◌∷◌, ◌++◌, bit_and, length, get_elem?,
  take, drop, ltb, leb, ◌==◌, if◌then◌else◌,
}
use aether_gui.Common.Outcome.{
  Outcome, ok, err, panic, stuck, Absent, absent, ◌>>=◌, ◌>>◌, guard, or_err, index, checked_add,
}
use aether_gui.Common.Bytes.{u16_be, be16}
use aether_gui.Net.{IpAddr, v4}

-- The loop of `skip_name`. `buf.get(pos)?` fails past the end, so every round moves on in the buffer.
pub skip_name_loop : ℕ → List ℕ → ℕ → Outcome Absent ℕ
skip_name_loop zero buf pos = stuck
skip_name_loop (suc fuel) buf pos = do
  len ← or_err absent (get_elem? buf pos)
  let rest = skip_name_loop fuel buf (pos + (1 + len))
  if bit_and len 0xc0 == 0xc0 then ok (pos + 2) else if len == 0 then ok (pos + 1) else rest

pub skip_name : List ℕ → ℕ → Outcome Absent ℕ
skip_name buf pos = skip_name_loop (suc (length buf)) buf pos

-- `u16::from_be_bytes([buf[pos], buf[pos + 1]])`
pub u16_at : List ℕ → ℕ → Outcome Absent ℕ
u16_at buf pos = do hi ← index buf pos; lo ← index buf (pos + 1); ok (u16_be hi lo)

-- `for _ in 0..qd`
pub skip_questions : ℕ → List ℕ → ℕ → Outcome Absent ℕ
skip_questions zero buf pos = ok pos
skip_questions (suc qd) buf pos = do
  name_end ← skip_name buf pos
  next ← checked_add name_end 4
  skip_questions qd buf next

-- `Ipv4Addr::new(resp[pos], resp[pos + 1], resp[pos + 2], resp[pos + 3])`
pub ipv4_at : List ℕ → ℕ → Outcome Absent IpAddr
ipv4_at buf pos = do
  a ← index buf pos
  b ← index buf (pos + 1)
  c ← index buf (pos + 2)
  d ← index buf (pos + 3)
  ok (v4 (a ∷ b ∷ c ∷ d ∷ []))

-- `for _ in 0..an` of `parse_dns_a`
pub scan_a : ℕ → List ℕ → ℕ → Outcome Absent IpAddr
scan_a zero buf pos = err absent
scan_a (suc an) buf pos = do
  fixed ← skip_name buf pos
  guard (leb (fixed + 10) (length buf)) absent
  rtype ← u16_at buf fixed
  rdlen ← u16_at buf (fixed + 8)
  guard (leb (fixed + 10 + rdlen) (length buf)) absent
  let rest = scan_a an buf (fixed + 10 + rdlen)
  if rtype == 1 && rdlen == 4 then ipv4_at buf (fixed + 10) else rest

pub parse_dns_a : List ℕ → Outcome Absent IpAddr
parse_dns_a resp = do
  guard (leb 12 (length resp)) absent
  qd ← u16_at resp 4
  an ← u16_at resp 6
  pos ← skip_questions qd resp 12
  scan_a an resp pos
