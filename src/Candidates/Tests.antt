-- ===== src/Candidates/Tests.antt =====
-- Runs of the candidates of aether/src/prober.rs, and their theorems at concrete inputs.
use aether_gui.Common.{
  ℕ, ◌+◌, ◌*◌, ◌≡◌, refl, true, false, Option, none, some, List, [], ◌∷◌, arith,
}
use aether_gui.Common.Outcome.{
  Outcome, ok, err, panic, stuck, Absent, absent, ◌>>=◌, or_err, Ensures,
}
use aether_gui.Common.Text.{parse_uint, split_once}
use aether_gui.Candidates.Ranges.{masque_cidrs_v4}
use aether_gui.Candidates.{
  Draw, parse_cidr, sample_loop, sample_cidr_v4, enumerate_cidr_v4, hosts_v4, hosts_v6,
  build_candidates,
}
use aether_gui.Candidates.Sampling.{sample_cidr_v4-take}
use aether_gui.Candidates.Building.{IsCandidates, build_candidates-IsCandidates}
use aether_gui.Prober.{Strategy, v4_only, want_v4, want_v6}

-- A parser of dotted addresses.
abbrev dotted_number : List ℕ → Outcome Absent ℕ
dotted_number text = do
  (a, rest) ← or_err absent (split_once 46 [] text)
  (b, rest') ← or_err absent (split_once 46 [] rest)
  (c, d) ← or_err absent (split_once 46 [] rest')
  high ← or_err absent (parse_uint 256 a)
  second ← or_err absent (parse_uint 256 b)
  third ← or_err absent (parse_uint 256 c)
  low ← or_err absent (parse_uint 256 d)
  ok (((high * 256 + second) * 256 + third) * 256 + low)

abbrev of_outcome : Outcome Absent ℕ → Option ℕ
of_outcome (ok n) = some n
of_outcome (err e) = none
of_outcome panic = none
of_outcome stuck = none

abbrev dotted : List ℕ → Option ℕ
dotted text = of_outcome (dotted_number text)

abbrev no_ipv6 : List ℕ → Option ℕ
no_ipv6 text = none

abbrev draws : List ℕ → List ℕ
draws cidr = 6 ∷ 6 ∷ 2 ∷ []

abbrev no_draws : List ℕ → ℕ → Draw
no_draws cidr i = record { pick = 0; bits = 0 }

abbrev two_samples : Strategy
two_samples = record {
  concurrency = 16;
  per_probe_timeout = 6000;
  overall_deadline = 120_000;
  quiet_after_first = 20_000;
  target_successes = 6;
  early_exit_first = false;
  full_subnet = false;
  sample_per_cidr = 2;
}

abbrev hosts_in : Outcome Absent (List (List ℕ)) → List (List ℕ)
hosts_in (ok hosts) = hosts
hosts_in (err e) = []
hosts_in panic = []
hosts_in stuck = []

abbrev ports : List ℕ
ports = 443 ∷ 500 ∷ []

-- "10.1.2.0/24"
abbrev cidr : List ℕ
cidr = 49 ∷ 48 ∷ 46 ∷ 49 ∷ 46 ∷ 50 ∷ 46 ∷ 48 ∷ 47 ∷ 50 ∷ 52 ∷ []

sample_cidr_v4-take_example :
    sample_cidr_v4 dotted 2 (6 ∷ 6 ∷ 2 ∷ []) cidr ≡ ok (167_838_215 ∷ 167_838_211 ∷ [])
unfolding parse_cidr
sample_cidr_v4-take_example =
    sample_cidr_v4-take dotted 2 (6 ∷ 6 ∷ 2 ∷ []) cidr 167_838_208 24 refl (omega arith)
      (omega arith)

build_candidates-IsCandidates_example :
    Ensures
      (IsCandidates dotted no_ipv6 draws no_draws ports v4_only
        (hosts_in (hosts_v4 dotted no_ipv6 draws no_draws two_samples true))
        [])
      (build_candidates dotted no_ipv6 draws no_draws two_samples ports v4_only)
unfolding want_v4 want_v6 hosts_v4 hosts_v6 sample_cidr_v4 sample_loop parse_cidr masque_cidrs_v4
build_candidates-IsCandidates_example =
    build_candidates-IsCandidates dotted no_ipv6 draws no_draws two_samples ports v4_only
      (hosts_in (hosts_v4 dotted no_ipv6 draws no_draws two_samples true)) [] refl refl

enumerate_cidr_v4_run :
    enumerate_cidr_v4 (λ text. some 256) (48 ∷ 47 ∷ 51 ∷ 48 ∷ []) ≡ ok (257 ∷ 258 ∷ [])
unfolding enumerate_cidr_v4 parse_cidr
enumerate_cidr_v4_run = refl
