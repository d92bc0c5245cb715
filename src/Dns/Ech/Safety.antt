-- ===== src/Dns/Ech/Safety.antt =====
-- The HTTPS scan on arbitrary bytes.
use aether_gui.Common.{
  ℕ, zero, suc, ◌+◌, ◌≤◌, ◌≡◌, ◌⊎◌, inl, inr, false, Option, none, some, List, [], ◌∷◌, arith,
  length, take, leb, leb→le, le→leb, lt→leb, Bool-cases,
}
use aether_gui.Common.Outcome.{
  Outcome, ok, err, panic, stuck, Absent, absent, guard, Ensures, Ensures-bind, guard-Ensures,
}
use aether_gui.Dns.{skip_name, u16_at, skip_questions}
use aether_gui.Dns.Safety.{skip_name-Ensures, u16_at-Ensures, skip_questions-Ensures}
use aether_gui.Dns.Ech.{
  slice, svcparams_loop, parse_svcparams_ech, or_else, scan_https, parse_https_ech, query_ech,
  fetch_ech_config, is_empty,
}

abbrev Done : List ℕ → Type 0
Done _ = Unit {0}

or_else-Ensures :
    (m rest : Outcome Absent (List ℕ))
    → Ensures Done m
    → Ensures Done rest
    → Ensures Done (or_else m rest)
or_else-Ensures (ok a) rest h k = tt
or_else-Ensures (err e) rest h k = k
or_else-Ensures panic rest h k = absurd h
or_else-Ensures stuck rest h k = absurd h

-- One of the answers parses to `ech`.
abbrev pub Carried : List ℕ → List (Option (List ℕ)) → Type 0
Carried ech [] = ⊥
Carried ech (answer ∷ answers) = (query_ech answer ≡ ok ech) ⊎ Carried ech answers

slice-Ensures :
    (msg : List ℕ) (start len : ℕ) → start + len ≤ length msg → Ensures Done (slice msg start len)
unfolding slice
slice-Ensures msg start len h = rw (le→leb _ _ h) tt

svcparams_loop-Ensures :
    (fuel : ℕ) (msg : List ℕ) (p end : ℕ)
    → end ≤ length msg
    → end ≤ fuel + p
    → Ensures Done (svcparams_loop (suc fuel) msg p end)
unfolding svcparams_loop
svcparams_loop-Ensures zero msg p end h enough = rw (lt→leb (p + 4) end (omega arith)) tt
svcparams_loop-Ensures (suc fuel) msg p end h enough = elim (Bool-cases (leb (p + 4) end)) [
  | inl room ↦ rw room (
      Ensures-bind _ _ (u16_at msg p) _ (u16_at-Ensures msg p (omega (arith, leb→le _ _ room)))
        λ key _.
          Ensures-bind _ _ (u16_at msg (p + 2)) _
            (u16_at-Ensures msg (p + 2) (omega (arith, leb→le _ _ room)))
            λ len _.
              Ensures-bind _ _ (guard (leb (p + 4 + len) end) absent) _ (guard-Ensures _ absent)
                λ _ fits. ground (
                  arith,
                  slice-Ensures msg (p + 4) len,
                  svcparams_loop-Ensures fuel msg (p + 4 + len) end,
                ))
  | inr short ↦ rw short tt
]

parse_svcparams_ech-Ensures :
    (msg : List ℕ) (start rdlen : ℕ)
    → start + rdlen ≤ length msg
    → Ensures Done (parse_svcparams_ech msg start rdlen)
unfolding parse_svcparams_ech
parse_svcparams_ech-Ensures msg start rdlen h =
    Ensures-bind _ _ (guard (leb (start + 2) (start + rdlen)) absent) _ (guard-Ensures _ absent)
      λ _ room.
        Ensures-bind _ _ (skip_name msg (start + 2)) _ (skip_name-Ensures msg (start + 2))
          λ p moved. svcparams_loop-Ensures rdlen msg p (start + rdlen) h (omega arith)

scan_https-Ensures : (an : ℕ) (msg : List ℕ) (pos : ℕ) → Ensures Done (scan_https an msg pos)
unfolding scan_https
scan_https-Ensures zero msg pos = tt
scan_https-Ensures (suc an) msg pos =
    Ensures-bind _ _ (skip_name msg pos) _ (skip_name-Ensures msg pos) λ p moved.
      Ensures-bind _ _ (guard (leb (p + 10) (length msg)) absent) _ (guard-Ensures _ absent)
        λ _ room.
          Ensures-bind _ _ (u16_at msg p) _ (u16_at-Ensures msg p (omega (arith, leb→le)))
            λ rtype _.
              Ensures-bind _ _ (u16_at msg (p + 8)) _
                (u16_at-Ensures msg (p + 8) (omega (arith, leb→le)))
                λ rdlen _.
                  Ensures-bind _ _ (guard (leb (p + 10 + rdlen) (length msg)) absent) _
                    (guard-Ensures _ absent)
                    λ _ fits. ground (
                      arith,
                      or_else-Ensures (parse_svcparams_ech msg (p + 10) rdlen)
                          (scan_https an msg (p + 10 + rdlen)),
                      parse_svcparams_ech-Ensures msg (p + 10) rdlen,
                      scan_https-Ensures an msg (p + 10 + rdlen),
                    )

-- On every list of bytes `parse_https_ech` neither panics nor loops.
pub parse_https_ech-Ensures : (msg : List ℕ) → Ensures Done (parse_https_ech msg)
unfolding parse_https_ech
parse_https_ech-Ensures msg =
    Ensures-bind _ _ (guard (leb 12 (length msg)) absent) _ (guard-Ensures _ absent) λ _ long.
      Ensures-bind _ _ (u16_at msg 4) _ (u16_at-Ensures msg 4 (omega (arith, leb→le))) λ qd _.
        Ensures-bind _ _ (u16_at msg 6) _ (u16_at-Ensures msg 6 (omega (arith, leb→le))) λ an _.
          Ensures-bind _ _ (skip_questions qd msg 12) _ (skip_questions-Ensures qd msg 12)
            λ pos _. scan_https-Ensures an msg pos

query_ech-Ensures : (answer : Option (List ℕ)) → Ensures Done (query_ech answer)
unfolding query_ech
query_ech-Ensures none = tt
query_ech-Ensures (some datagram) = parse_https_ech-Ensures (take 4096 datagram)

-- Whatever the servers answer, the bootstrap neither panics nor loops, and a configuration that it
-- returns is not empty and is what one of the answers parses to.
pub fetch_ech_config-Ensures :
    (answers : List (Option (List ℕ)))
    → Ensures (λ ech. (is_empty ech ≡ false) × Carried ech answers) (fetch_ech_config answers)
unfolding fetch_ech_config
fetch_ech_config-Ensures [] = tt
fetch_ech_config-Ensures (answer ∷ answers) =
    ground (arith, query_ech-Ensures answer, fetch_ech_config-Ensures answers)
