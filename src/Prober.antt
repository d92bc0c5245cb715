-- ===== src/Prober.antt =====
-- The gateway scan of aether/src/prober.rs: the scan modes, the choice of address families, and the
-- loop of hunt_best_gateway that picks a gateway from the probes' results. Times are milliseconds.
pub mod Selection
pub mod Turbo
pub mod Ending
mod Tests
use aether_gui.Common.{
  ℕ, zero, suc, ◌+◌, ◌-◌, ◌*◌, ◌/◌, ◌%◌, ◌^◌, ◌≤◌, ◌<◌, ◌≡◌, refl, sym, ap, ◌∙◌, subst, ◌≢◌, ◌↔◌,
  ◌⊎◌, inl, inr, Bool, true, false, ◌&&◌, ◌||◌, not, Option, none, some, List, [], ◌∷◌, ◌++◌, map,
  append-nil, append_assoc, arith, bit_and, min, max, length, get_elem?, take, drop, replicate, All,
  length-append, length-take, length-drop, take-append-drop, drop-nil, drop-add, drop-length_append,
  take-length_append, take-length, drop-length, take-append_le, drop-append_le, get_elem?-add,
  get_elem?-lt, get_elem?-drop, get_elem?-drop_zero, drop-step, get_elem?-All, All-append, ltb, leb,
  ◌==◌, if◌then◌else◌, ltb→lt, lt→ltb, le→ltb, ltb→le, leb→le, le→leb, lt→leb, ==_iff, ==_refl,
  Bool-cases, Option-cases,
}
use aether_gui.Common.Outcome.{
  Outcome, ok, err, panic, stuck, Absent, absent, ◌>>=◌, ◌>>◌, guard, of_index, or_err, index,
  checked_add, Ensures, Ensures-bind, Ensures-weaken, get_elem?-some, index-Ensures,
  index-Ensures-All, guard-Ensures,
}
use aether_gui.Common.Bytes.{IsByte, IsBytes, u16_be, be16, be32}
use aether_gui.Error.{AetherError}
use aether_gui.Net.{IpAddr}

pub record ProbeResult : Type 0 where
  pub ip : IpAddr
  pub port : ℕ
  pub rtt : ℕ

pub data IpScan : Type 0 where
  v4_only v6_only both : IpScan

unfoldable pub want_v4 : IpScan → Bool
want_v4 v4_only = true
want_v4 v6_only = false
want_v4 both = true

unfoldable pub want_v6 : IpScan → Bool
want_v6 v4_only = false
want_v6 v6_only = true
want_v6 both = true

pub data ScanMode : Type 0 where
  turbo balanced thorough stealth ironclad : ScanMode

pub record Strategy : Type 0 where
  pub concurrency : ℕ
  pub per_probe_timeout : ℕ
  pub overall_deadline : ℕ
  pub quiet_after_first : ℕ
  pub target_successes : ℕ
  pub early_exit_first : Bool
  pub full_subnet : Bool
  pub sample_per_cidr : ℕ

pub strategy : ScanMode → Strategy
strategy turbo = record {
  concurrency = 20;
  per_probe_timeout = 6000;
  overall_deadline = 45_000;
  quiet_after_first = 0;
  target_successes = 1;
  early_exit_first = true;
  full_subnet = false;
  sample_per_cidr = 64;
}
strategy balanced = record {
  concurrency = 16;
  per_probe_timeout = 6000;
  overall_deadline = 120_000;
  quiet_after_first = 20_000;
  target_successes = 6;
  early_exit_first = false;
  full_subnet = false;
  sample_per_cidr = 140;
}
strategy thorough = record {
  concurrency = 20;
  per_probe_timeout = 10_000;
  overall_deadline = 300_000;
  quiet_after_first = 30_000;
  target_successes = 0;
  early_exit_first = false;
  full_subnet = true;
  sample_per_cidr = 0;
}
strategy stealth = record {
  concurrency = 3;
  per_probe_timeout = 12_000;
  overall_deadline = 180_000;
  quiet_after_first = 25_000;
  target_successes = 4;
  early_exit_first = false;
  full_subnet = false;
  sample_per_cidr = 64;
}
strategy ironclad = record {
  concurrency = 4;
  per_probe_timeout = 15_000;
  overall_deadline = 180_000;
  quiet_after_first = 15_000;
  target_successes = 3;
  early_exit_first = false;
  full_subnet = false;
  sample_per_cidr = 140;
}

-- The first lines of `hunt_best_gateway`: which families are scanned, given `host_has_ipv6()`.
unfoldable pub effective_ip : IpScan → Bool → Outcome AetherError IpScan
unfolding want_v4 want_v6
effective_ip ip has_ipv6 =
    if want_v6 ip && not has_ipv6
    then (if want_v4 ip then ok v4_only else err AetherError.no_clean_endpoint)
    else ok ip

-- What `tokio::select!` delivers: the stream of probes is at its end, a probe failed, a probe found a
-- gateway, or the sleep is over.
pub data Event : Type 0 where
  exhausted : Event
  failed : Event
  found : ProbeResult → Event
  slept : Event

-- One round of the loop: the clock at its top, the event, and the clock when the event is handled.
pub record Round : Type 0 where
  pub top : ℕ
  pub event : Event
  pub handled : ℕ

pub record Scan : Type 0 where
  pub best : Option ProbeResult
  pub successes : ℕ
  pub quiet_until : Option ℕ

unfoldable pub start : Scan
start = record { best = none; successes = 0; quiet_until = none }

pub data Step : Type 0 where
  go : Scan → Step
  return : ProbeResult → Step
  break : Scan → Step

-- `Some(cur) if cur.rtt <= pr.rtt => cur, _ => pr`
pub better : Option ProbeResult → ProbeResult → ProbeResult
better none pr = pr
better (some cur) pr = if leb cur.rtt pr.rtt then cur else pr

abbrev pub is_none {ℓ} : {A : Type ℓ} → Option A → Bool
is_none none = true
is_none (some a) = false

-- `Some(q) => q.min(deadline), None => deadline`
pub effective : Option ℕ → ℕ → ℕ
effective none deadline = deadline
effective (some q) deadline = min q deadline

pub on_found : Strategy → ℕ → ProbeResult → Scan → Step
unfolding better
on_found st clock pr s =
    let s' = record s { best = some (better s.best pr); successes = s.successes + 1 } in
    if st.early_exit_first
    then return pr
    else if ltb 0 st.target_successes
        && leb st.target_successes s'.successes
        && is_none s.quiet_until
    then (if ltb 0 st.quiet_after_first
        then go (record s' { quiet_until = some (clock + st.quiet_after_first) })
        else break s')
    else go s'

pub on_event : Strategy → ℕ → Event → Scan → Step
unfolding on_found
on_event st clock exhausted s = break s
on_event st clock failed s = go s
on_event st clock (found pr) s = on_found st clock pr s
on_event st clock slept s = break s

-- The body of the loop. `remaining.is_zero()` when the effective deadline is not ahead.
pub step : Strategy → ℕ → Round → Scan → Step
unfolding on_event effective
step st deadline r s =
    if leb (effective s.quiet_until deadline) r.top
    then break s
    else on_event st r.handled r.event s

-- `None` of the model: the schedule ends before the loop does.
pub finish : Scan → Outcome AetherError ProbeResult
finish s = or_err AetherError.no_clean_endpoint s.best

-- What follows a step: the next rounds, `return Ok(pr)`, or the lines after the loop.
abbrev pub conclude :
    (Scan → Option (Outcome AetherError ProbeResult))
    → Step
    → Option (Outcome AetherError ProbeResult)
conclude rest (go s') = rest s'
conclude rest (return pr) = some (ok pr)
conclude rest (break s') = some (finish s')

pub hunt_loop : Strategy → ℕ → List Round → Scan → Option (Outcome AetherError ProbeResult)
hunt_loop st deadline [] s = none
hunt_loop st deadline (r ∷ rounds) s =
    conclude (hunt_loop st deadline rounds) (step st deadline r s)

-- The search on the family that `effective_ip` gives, with its error passed on.
abbrev pub on_family :
    (IpScan → Option (Outcome AetherError ProbeResult))
    → Outcome AetherError IpScan
    → Option (Outcome AetherError ProbeResult)
on_family search (ok family) = search family
on_family search (err e) = some (err e)
on_family search panic = some panic
on_family search stuck = some stuck

-- The whole search: `began` is the clock when the deadline is set. The probes run on the addresses of
-- the effective family; the rounds say what they gave.
pub hunt_best_gateway :
    IpScan → ScanMode → Bool → ℕ → List Round → Option (Outcome AetherError ProbeResult)
unfolding start
hunt_best_gateway ip mode has_ipv6 began rounds =
    on_family
      (λ family. hunt_loop (strategy mode) (began + (strategy mode).overall_deadline) rounds start)
      (effective_ip ip has_ipv6)
