-- ===== src/Socks/Safety.antt =====
-- No datagram makes the relay of aether/src/socks.rs panic.
use aether_gui.Common.{
  ℕ, ◌+◌, ◌≤◌, ◌≡◌, refl, inl, inr, true, List, arith, length, get_elem?, take, drop, length-take,
  length-drop, leb, ◌==◌, leb→le, Option-cases,
}
use aether_gui.Common.Outcome.{
  ok, absent, ◌>>=◌, guard, Ensures, Ensures-bind, Ensures-if, get_elem?-some, guard-Ensures,
}
use aether_gui.Net.{IpAddr, v4, v6}
use aether_gui.Socks.{Target, ip, slice_at, read_name, udp_target, udp_rest, parse_udp_request}

-- The position behind the target, and what is left of the buffer there.
abbrev pub IsWithin : List ℕ → Target × ℕ → Type 0
IsWithin buf (target, pos) = pos ≤ length buf

-- The payload is the end of the datagram, behind a header of seven bytes at least.
abbrev pub IsPayload : List ℕ → Target × ℕ × List ℕ → Type 0
IsPayload buf (target, port, payload) =
    (pos : ℕ) × (7 ≤ pos) × (pos ≤ length buf) × (payload ≡ drop pos buf)

slice_at-Ensures :
    (buf : List ℕ) (pos n : ℕ)
    → Ensures (λ o. (pos + n ≤ length buf) × (length o ≡ n)) (slice_at buf pos n)
slice_at-Ensures buf pos n =
    Ensures-bind (λ _. leb (pos + n) (length buf) ≡ true)
      (λ o. (pos + n ≤ length buf) × (length o ≡ n)) (guard (leb (pos + n) (length buf)) absent)
      (λ _. ok (take n (drop pos buf))) (guard-Ensures (leb (pos + n) (length buf)) absent)
      (λ _ h.
        let le = leb→le (pos + n) (length buf) h in
        (le, omega (arith, le, length-take n (drop pos buf), length-drop pos buf)))

read_name-Ensures :
    (buf : List ℕ) → Ensures (λ found. (5 ≤ found.1) × IsWithin buf found) (read_name buf 4)
unfolding read_name
read_name-Ensures buf = elim (Option-cases (get_elem? buf 4)) [
  | inl e ↦ rw e tt
  | inr (len, e) ↦ rw e (
      Ensures-bind (λ o. (5 + len ≤ length buf) × (length o ≡ len))
        (λ (found : Target × ℕ). (5 ≤ found.1) × IsWithin buf found) (slice_at buf 5 len) _
        (slice_at-Ensures buf 5 len) (λ o h. (omega arith, omega (arith, h.0))))
]

address-Ensures :
    (buf : List ℕ) (n : ℕ) (make : List ℕ → IpAddr)
    → 1 ≤ n
    → Ensures
        (λ found. (5 ≤ found.1) × IsWithin buf found)
        (slice_at buf 4 n >>= λ o. ok (ip (make o), 4 + n))
address-Ensures buf n make some_bytes =
    Ensures-bind (λ o. (4 + n ≤ length buf) × (length o ≡ n))
      (λ (found : Target × ℕ). (5 ≤ found.1) × IsWithin buf found) (slice_at buf 4 n) _
      (slice_at-Ensures buf 4 n) (λ o h. (omega arith, h.0))

udp_target-Ensures :
    (buf : List ℕ) (atyp : ℕ)
    → Ensures (λ found. (5 ≤ found.1) × IsWithin buf found) (udp_target buf atyp)
unfolding udp_target
udp_target-Ensures buf atyp =
    Ensures-if _ (atyp == 1) _ _ (λ _. address-Ensures buf 4 v4 (omega arith))
      (λ _.
        Ensures-if _ (atyp == 4) _ _ (λ _. address-Ensures buf 16 v6 (omega arith))
          (λ _. Ensures-if _ (atyp == 3) _ _ (λ _. read_name-Ensures buf) (λ _. tt)))

udp_rest-Ensures :
    (buf : List ℕ) (found : Target × ℕ)
    → (5 ≤ found.1) × IsWithin buf found
    → Ensures (IsPayload buf) (udp_rest buf found)
unfolding udp_rest
udp_rest-Ensures buf (target, pos) (low, within) =
    Ensures-bind (λ _. leb (pos + 2) (length buf) ≡ true) (IsPayload buf)
      (guard (leb (pos + 2) (length buf)) absent) _
      (guard-Ensures (leb (pos + 2) (length buf)) absent)
      (λ _ h.
        let le = leb→le (pos + 2) (length buf) h in
        let (a, ea) = get_elem?-some buf pos (omega (arith, le)) in
        let (b, eb) = get_elem?-some buf (pos + 1) (omega (arith, le)) in
        rw ea (rw eb (pos + 2, omega arith, le, refl)))

-- On every datagram the reader of requests neither panics nor loops, and a payload that it returns is
-- the end of the datagram behind a header of seven bytes or more.
pub parse_udp_request-Ensures : (buf : List ℕ) → Ensures (IsPayload buf) (parse_udp_request buf)
unfolding parse_udp_request
parse_udp_request-Ensures buf =
    Ensures-bind (λ _. leb 4 (length buf) ≡ true) (IsPayload buf)
      (guard (leb 4 (length buf)) absent) _ (guard-Ensures (leb 4 (length buf)) absent)
      (λ _ h.
        let le = leb→le 4 (length buf) h in
        let (frag, ef) = get_elem?-some buf 2 (omega (arith, le)) in
        let (atyp, ea) = get_elem?-some buf 3 (omega (arith, le)) in
        rw ef (
          Ensures-bind (λ _. (frag == 0) ≡ true) (IsPayload buf) (guard (frag == 0) absent) _
            (guard-Ensures (frag == 0) absent)
            (λ _ _. rw ea (
              Ensures-bind (λ found. (5 ≤ found.1) × IsWithin buf found) (IsPayload buf)
                (udp_target buf atyp) (udp_rest buf) (udp_target-Ensures buf atyp)
                (udp_rest-Ensures buf)))))
