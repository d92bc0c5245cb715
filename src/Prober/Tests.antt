-- ===== src/Prober/Tests.antt =====
-- Examples of the gateway scan of aether/src/prober.rs.
use aether_gui.Common.{refl, subst, ◌≢◌, inl, true, false, List, [], ◌∷◌, arith}
use aether_gui.Common.Outcome.{ok}
use aether_gui.Prober.{
  ProbeResult, both, v4_only, ScanMode, turbo, balanced, found, failed, exhausted, slept, Round,
  want_v4, want_v6, strategy, start, effective_ip, effective, better, on_found, on_event, step,
  finish, hunt_loop, hunt_best_gateway,
}
use aether_gui.Prober.Selection.{hunt_best_gateway-IsChoice, IsBest, handled_results}
use aether_gui.Prober.Ending.{hunt_best_gateway-Ended, Ended}
use aether_gui.Net.{v4}

abbrev far : ProbeResult
far = record { ip = v4 (162 ∷ 159 ∷ 192 ∷ 1 ∷ []); port = 443; rtt = 80 }

abbrev near : ProbeResult
near = record { ip = v4 (162 ∷ 159 ∷ 193 ∷ 5 ∷ []); port = 443; rtt = 35 }

abbrev rounds : List Round
rounds =
    record { top = 1000; event = found far; handled = 1400 }
    ∷ record { top = 1400; event = failed; handled = 1500 }
    ∷ record { top = 1500; event = found near; handled = 1900 }
    ∷ record { top = 1900; event = exhausted; handled = 2000 }
    ∷ []

balanced≢turbo : balanced ≢ turbo
balanced≢turbo e = absurd (subst IsSlow e tt)
  where
    IsSlow : ScanMode → Type 0
    IsSlow turbo = ⊥
    IsSlow mode = Unit

hunt_best_gateway-IsChoice_example : IsBest near (far ∷ near ∷ [])
unfolding effective_ip hunt_best_gateway hunt_loop step on_event on_found better finish strategy
    handled_results effective want_v4 want_v6 start
hunt_best_gateway-IsChoice_example =
    hunt_best_gateway-IsChoice both v4_only balanced false 900 rounds (ok near) balanced≢turbo refl
      refl

hunt_best_gateway-Ended_example : Ended (
    hunt_best_gateway both turbo true 900
      (record { top = 50_000; event = slept; handled = 50_000 } ∷ []))
unfolding strategy
hunt_best_gateway-Ended_example =
    hunt_best_gateway-Ended both turbo true 900
      (record { top = 50_000; event = slept; handled = 50_000 } ∷ []) (inl (omega arith))
