-- ===== src/Dns/Safety.antt =====
-- The scans of aether/src/socks.rs on arbitrary bytes: no panic, and no endless loop.
use aether_gui.Common.{
  ℕ, zero, suc, ◌+◌, ◌≤◌, ◌<◌, inl, inr, List, arith, length, get_elem?, get_elem?-lt, leb, leb→le,
  Option-cases,
}
use aether_gui.Common.Outcome.{
  Absent, absent, guard, index, checked_add, Ensures, Ensures-bind, get_elem?-some,
  index-Ensures-All, guard-Ensures,
}
use aether_gui.Common.Bytes.{IsByte, IsBytes}
use aether_gui.Net.{IsIpAddr}
use aether_gui.Dns.{skip_name_loop, skip_name, u16_at, skip_questions, ipv4_at, scan_a, parse_dns_a}

-- Enough fuel: a round that goes on has moved the position up in the buffer.
skip_name_loop-Ensures :
    (fuel : ℕ) (buf : List ℕ) (pos : ℕ)
    → length buf ≤ fuel + pos
    → Ensures (λ p. (pos < p) × (p ≤ length buf + 1)) (skip_name_loop (suc fuel) buf pos)
unfolding skip_name_loop
skip_name_loop-Ensures zero buf pos h = elim (Option-cases (get_elem? buf pos)) [
  | inl e ↦ rw e tt
  | inr (len, e) ↦ absurd (omega (arith, get_elem?-lt buf pos e))
]
skip_name_loop-Ensures (suc fuel) buf pos h = elim (Option-cases (get_elem? buf pos)) [
  | inl e ↦ rw e tt
  | inr (len, e) ↦
      rw e
        (ground (arith, get_elem?-lt buf pos e, skip_name_loop-Ensures fuel buf (pos + (1 + len))))
]

pub skip_name-Ensures :
    (buf : List ℕ) (pos : ℕ) → Ensures (λ p. (pos < p) × (p ≤ length buf + 1)) (skip_name buf pos)
unfolding skip_name
skip_name-Ensures buf pos = skip_name_loop-Ensures (length buf) buf pos (omega arith)

pub u16_at-Ensures :
    (buf : List ℕ) (pos : ℕ) → pos + 2 ≤ length buf → Ensures (λ _. Unit {0}) (u16_at buf pos)
unfolding u16_at
u16_at-Ensures buf pos h =
    let (a, ea) = get_elem?-some buf pos (omega arith) in
    let (b, eb) = get_elem?-some buf (pos + 1) (omega arith) in rw ea (rw eb tt)

octet-Ensures :
    (buf : List ℕ) (i : ℕ)
    → i < length buf
    → IsBytes buf
    → Ensures IsByte (index {E = Absent} buf i)
octet-Ensures = index-Ensures-All Absent IsByte

ipv4_at-Ensures :
    (buf : List ℕ) (pos : ℕ)
    → pos + 4 ≤ length buf
    → IsBytes buf
    → Ensures IsIpAddr (ipv4_at buf pos)
unfolding ipv4_at
ipv4_at-Ensures buf pos h k =
    Ensures-bind IsByte _ (index buf pos) _ (octet-Ensures buf pos (omega arith) k) λ a ka.
      Ensures-bind IsByte _ (index buf (pos + 1)) _ (octet-Ensures buf _ (omega arith) k) λ b kb.
        Ensures-bind IsByte _ (index buf (pos + 2)) _ (octet-Ensures buf _ (omega arith) k) λ c kc.
          Ensures-bind IsByte _ (index buf (pos + 3)) _ (octet-Ensures buf _ (omega arith) k)
            λ d kd. omega arith

pub skip_questions-Ensures :
    (qd : ℕ) (buf : List ℕ) (pos : ℕ) → Ensures (λ _. Unit {0}) (skip_questions qd buf pos)
unfolding skip_questions
skip_questions-Ensures zero buf pos = tt
skip_questions-Ensures (suc qd) buf pos =
    Ensures-bind _ _ (skip_name buf pos) _ (skip_name-Ensures buf pos) λ p h.
      Ensures-bind (λ _. Unit {0}) _ (checked_add p 4) _ (ground arith)
        λ q _. skip_questions-Ensures qd buf q

scan_a-Ensures :
    (an : ℕ) (buf : List ℕ) (pos : ℕ) → IsBytes buf → Ensures IsIpAddr (scan_a an buf pos)
unfolding scan_a
scan_a-Ensures zero buf pos k = tt
scan_a-Ensures (suc an) buf pos k =
    Ensures-bind _ _ (skip_name buf pos) _ (skip_name-Ensures buf pos) λ p h.
      Ensures-bind _ _ (guard (leb (p + 10) (length buf)) absent) _ (guard-Ensures _ absent)
        λ _ room.
          Ensures-bind _ _ (u16_at buf p) _ (u16_at-Ensures buf p (omega (arith, leb→le)))
            λ rtype _.
              Ensures-bind _ _ (u16_at buf (p + 8)) _
                (u16_at-Ensures buf (p + 8) (omega (arith, leb→le)))
                λ rdlen _.
                  Ensures-bind _ _ (guard (leb (p + 10 + rdlen) (length buf)) absent) _
                    (guard-Ensures _ absent)
                    λ _ fits.
                      ground (
                        arith,
                        ipv4_at-Ensures buf (p + 10),
                        scan_a-Ensures an buf (p + 10 + rdlen),
                      )

-- On every list of bytes `parse_dns_a` neither panics nor loops, and an address that it returns has
-- four octets.
pub parse_dns_a-Ensures : (resp : List ℕ) → IsBytes resp → Ensures IsIpAddr (parse_dns_a resp)
unfolding parse_dns_a
parse_dns_a-Ensures resp k =
    Ensures-bind _ _ (guard (leb 12 (length resp)) absent) _ (guard-Ensures _ absent) λ _ long.
      Ensures-bind _ _ (u16_at resp 4) _ (u16_at-Ensures resp 4 (omega (arith, leb→le))) λ qd _.
        Ensures-bind _ _ (u16_at resp 6) _ (u16_at-Ensures resp 6 (omega (arith, leb→le))) λ an _.
          Ensures-bind _ _ (skip_questions qd resp 12) _ (skip_questions-Ensures qd resp 12)
            λ pos _. scan_a-Ensures an resp pos k
