-- ===== src/WgScan/Tests.antt =====
-- The theorems on the scan of aether/src/wg_prober.rs at concrete inputs.
use aether_gui.Common.{
  ℕ, ◌≡◌, refl, subst, ◌≢◌, inl, inr, false, Option, none, some, List, [], ◌∷◌, arith, replicate,
}
use aether_gui.Common.Outcome.{Outcome, ok, Ensures}
use aether_gui.Error.{AetherError}
use aether_gui.Candidates.{Draw, parse_cidr, sample_cidr_v4, sample_loop}
use aether_gui.Prober.{
  Strategy, v4_only, both, ScanMode, turbo, balanced, failed, ProbeResult, Round, start,
  effective_ip, want_v4, want_v6,
}
use aether_gui.Prober.Selection.{IsChoice, handled_results}
use aether_gui.Net.{v4}
use aether_gui.WgScan.Ranges.{wg_prefixes_v4}
use aether_gui.WgScan.{
  wg_strategy, hunt_best_wg_endpoint, verify_one_wg, wg_hosts_v4, wg_hosts_v6, build_wg_candidates,
}
use aether_gui.WgScan.Choice.{hunt_best_wg_endpoint-IsChoice}
use aether_gui.WgScan.Rotation.{
  IsRotated, wanted_seeds, wanted_hosts, build_wg_candidates-IsRotated,
}

abbrev rounds : List Round
rounds =
    record {
      top = 500;
      event = verify_one_wg (v4 (188 ∷ 114 ∷ 96 ∷ 1 ∷ [])) 2408 false (ok 90) (ok 120);
      handled = 900;
    }
    ∷ record {
      top = 900;
      event = verify_one_wg (v4 (188 ∷ 114 ∷ 97 ∷ 1 ∷ [])) 500 false (ok 40) (ok 120);
      handled = 1000;
    }
    ∷ record { top = 90_000; event = failed; handled = 90_000 }
    ∷ []

balanced_not_turbo : balanced ≢ turbo
balanced_not_turbo e = absurd (subst IsSlow e tt)
  where
    IsSlow : ScanMode → Type 0
    IsSlow turbo = ⊥
    IsSlow mode = Unit

hunt_best_wg_endpoint-IsChoice_example :
    (out : Outcome AetherError ProbeResult) × (hunt_best_wg_endpoint both balanced false 100 rounds
      ≡ some out)
    × IsChoice none (handled_results (wg_strategy balanced) 80_100 rounds start) out
unfolding effective_ip want_v4 want_v6 wg_strategy
hunt_best_wg_endpoint-IsChoice_example =
    hunt_best_wg_endpoint-IsChoice both v4_only balanced false 100 rounds balanced_not_turbo refl
      (inr (inr (inl (omega arith))))

-- A parser that reads every text as one address.
abbrev one_address : List ℕ → Option ℕ
one_address text = some 167_838_208

abbrev draws : List ℕ → List ℕ
draws cidr = 6 ∷ 6 ∷ 2 ∷ []

abbrev no_draws : List ℕ → ℕ → Draw
no_draws cidr i = record { pick = 0; bits = 0 }

abbrev two_samples : Strategy
two_samples = record {
  concurrency = 8;
  per_probe_timeout = 7000;
  overall_deadline = 80_000;
  quiet_after_first = 12_000;
  target_successes = 5;
  early_exit_first = false;
  full_subnet = false;
  sample_per_cidr = 2;
}

-- Every one of the six ranges gives two hosts.
abbrev hosts : List (List ℕ)
hosts = replicate 6 (167_838_215 ∷ 167_838_211 ∷ [])

build_wg_candidates-IsRotated_example :
    Ensures
      (IsRotated
        (500 ∷ 2408 ∷ 500 ∷ [])
        (wanted_seeds one_address one_address v4_only)
        (wanted_hosts hosts []))
      (build_wg_candidates one_address one_address draws no_draws two_samples
        (500 ∷ 2408 ∷ 500 ∷ [])
        v4_only)
unfolding want_v4 want_v6 wg_hosts_v4 wg_hosts_v6 sample_cidr_v4 sample_loop parse_cidr
    wg_prefixes_v4
build_wg_candidates-IsRotated_example =
    build_wg_candidates-IsRotated one_address one_address draws no_draws two_samples
      (500 ∷ 2408 ∷ 500 ∷ []) v4_only hosts [] refl refl
