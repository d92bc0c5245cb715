-- ===== src/Prober/Ending.antt =====
-- The end of the scan of aether/src/prober.rs.
use aether_gui.Common.{
  ℕ, ◌+◌, ◌≤◌, ◌≡◌, refl, sym, subst, ◌⊎◌, inl, inr, Bool, Option, none, some, List, [], ◌∷◌, arith,
  if◌then◌else◌, le→leb,
}
use aether_gui.Common.Outcome.{Outcome, ok, err, panic, stuck}
use aether_gui.Error.{AetherError}
use aether_gui.Prober.{
  ProbeResult, Strategy, Round, Scan, start, IpScan, ScanMode, effective_ip, strategy, Step, go,
  return, break, effective, on_event, step, conclude, on_family, hunt_loop, hunt_best_gateway,
}

-- Some round finds the clock at the deadline or past it.
abbrev pub Reaches : ℕ → List Round → Type 0
Reaches deadline [] = ⊥
Reaches deadline (r ∷ rounds) = (deadline ≤ r.top) ⊎ Reaches deadline rounds

abbrev pub Ended : Option (Outcome AetherError ProbeResult) → Type 0
Ended answer = (out : Outcome AetherError ProbeResult) × (answer ≡ some out)

effective_le : (quiet : Option ℕ) (deadline : ℕ) → effective quiet deadline ≤ deadline
unfolding effective
effective_le none deadline = omega arith
effective_le (some q) deadline = grind arith

pub hunt_loop-Ended :
    (st : Strategy) (deadline : ℕ) (rounds : List Round) (s : Scan)
    → Reaches deadline rounds
    → Ended (hunt_loop st deadline rounds s)
unfolding hunt_loop step
hunt_loop-Ended st deadline [] s h = absurd h
hunt_loop-Ended st deadline (r ∷ rounds) s (inl late) =
    subst
      (λ over. Ended (
        conclude (hunt_loop st deadline rounds)
          (if over then break s else on_event st r.handled r.event s)))
      (sym (
        le→leb _ _
          (passed (effective s.quiet_until deadline) (effective_le s.quiet_until deadline))))
      (_, refl)
  where
    passed : (limit : ℕ) → limit ≤ deadline → limit ≤ r.top
    passed limit h = omega arith
hunt_loop-Ended st deadline (r ∷ rounds) s (inr later) =
    next (step st deadline r s) (λ s'. hunt_loop-Ended st deadline rounds s' later)
  where
    next :
        (x : Step)
        → ((s' : Scan) → Ended (hunt_loop st deadline rounds s'))
        → Ended (conclude (hunt_loop st deadline rounds) x)
    next (go s') ih = ih s'
    next (return pr) ih = (_, refl)
    next (break s') ih = (_, refl)

-- The search ends: whatever the probes give, it has an answer once a round finds the clock at the
-- overall deadline of its mode.
pub hunt_best_gateway-Ended :
    (ip : IpScan) (mode : ScanMode) (has_ipv6 : Bool) (began : ℕ) (rounds : List Round)
    → Reaches (began + (strategy mode).overall_deadline) rounds
    → Ended (hunt_best_gateway ip mode has_ipv6 began rounds)
unfolding hunt_best_gateway
hunt_best_gateway-Ended ip mode has_ipv6 began rounds h = by_family (effective_ip ip has_ipv6)
  where
    by_family :
        (family : Outcome AetherError IpScan)
        → Ended (
            on_family
              (λ f.
                hunt_loop (strategy mode) (began + (strategy mode).overall_deadline) rounds start)
              family)
    by_family (ok family) = hunt_loop-Ended _ _ rounds start h
    by_family (err e) = (_, refl)
    by_family panic = (_, refl)
    by_family stuck = (_, refl)
