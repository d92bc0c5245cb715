-- ===== src/Prober/Turbo.antt =====
-- The turbo mode of the scan of aether/src/prober.rs.
use aether_gui.Common.{
  ℕ, ◌+◌, ◌≡◌, refl, sym, ap, ◌∙◌, subst, Bool, true, false, Option, none, some, List, [], ◌∷◌,
  ◌++◌, leb, if◌then◌else◌,
}
use mathlib.Core.Option.{some-injective}
use aether_gui.Common.Outcome.{Outcome, ok, err, or_err}
use aether_gui.Error.{AetherError}
use aether_gui.Prober.{
  ProbeResult, Strategy, Event, exhausted, failed, found, slept, Round, Scan, start, IpScan, turbo,
  effective_ip, strategy, Step, go, return, break, effective, on_found, on_event, step, conclude,
  on_family, finish, hunt_loop, hunt_best_gateway,
}
use aether_gui.Prober.Selection.{result_of, step_results, handled_after, handled_results}

-- The answer of turbo: the first result, or the error.
unfoldable pub first_of : List ProbeResult → Outcome AetherError ProbeResult
first_of [] = err AetherError.no_clean_endpoint
first_of (pr ∷ results) = ok pr

-- What one step of turbo owes: a result ends the loop, and nothing is kept before.
TakesFirst : List ProbeResult → Step → Type 0
TakesFirst handled (go s') = (handled ≡ []) × (s'.best ≡ none)
TakesFirst handled (return pr) = handled ≡ pr ∷ []
TakesFirst handled (break s') = (handled ≡ []) × (s'.best ≡ none)

TakesFirst-return : (pr : ProbeResult) → TakesFirst (pr ∷ []) (return pr)
unfolding TakesFirst
TakesFirst-return pr = refl

TakesFirst-early :
    (handled : List ProbeResult) (early : Bool) (x y : Step)
    → early ≡ true
    → TakesFirst handled x
    → TakesFirst handled (if early then x else y)
TakesFirst-early handled early x y eq px =
    subst (λ b. TakesFirst handled (if b then x else y)) (sym eq) px

on_found-TakesFirst :
    (st : Strategy) (clock : ℕ) (pr : ProbeResult) (s : Scan)
    → st.early_exit_first ≡ true
    → TakesFirst (pr ∷ []) (on_found st clock pr s)
unfolding on_found
on_found-TakesFirst st clock pr s early =
    TakesFirst-early _ st.early_exit_first _ _ early (TakesFirst-return pr)

on_event-TakesFirst :
    (st : Strategy) (clock : ℕ) (event : Event) (s : Scan)
    → st.early_exit_first ≡ true
    → s.best ≡ none
    → TakesFirst (result_of event) (on_event st clock event s)
unfolding on_event TakesFirst
on_event-TakesFirst st clock exhausted s early eq = (refl, eq)
on_event-TakesFirst st clock failed s early eq = (refl, eq)
on_event-TakesFirst st clock (found pr) s early eq = on_found-TakesFirst st clock pr s early
on_event-TakesFirst st clock slept s early eq = (refl, eq)

step-TakesFirst :
    (st : Strategy) (deadline : ℕ) (r : Round) (s : Scan)
    → st.early_exit_first ≡ true
    → s.best ≡ none
    → TakesFirst (step_results (effective s.quiet_until deadline) r) (step st deadline r s)
unfolding step TakesFirst
step-TakesFirst st deadline r s early eq = by_cases (leb (effective s.quiet_until deadline) r.top)
  where
    by_cases :
        (over : Bool)
        → TakesFirst
            (if over then [] else result_of r.event)
            (if over then break s else on_event st r.handled r.event s)
    by_cases true = (refl, eq)
    by_cases false = on_event-TakesFirst st r.handled r.event s early eq

first_of_after :
    (handled : List ProbeResult) (x : Step) (rest : Scan → Option (Outcome AetherError ProbeResult))
    (later : Scan → List ProbeResult) (out : Outcome AetherError ProbeResult)
    → ((s' : Scan) → s'.best ≡ none → rest s' ≡ some out → out ≡ first_of (later s'))
    → TakesFirst handled x
    → conclude rest x ≡ some out
    → out ≡ first_of (handled ++ handled_after later x)
unfolding TakesFirst first_of finish
first_of_after handled (go s') rest later out ih (none_yet, eq) h =
    ih s' eq h ∙ ap (λ l. first_of (l ++ later s')) (sym none_yet)
first_of_after handled (return pr) rest later out ih one h =
    sym (some-injective _ _ h) ∙ ap (λ l. first_of (l ++ [])) (sym one)
first_of_after handled (break s') rest later out ih (none_yet, eq) h =
    sym (some-injective _ _ h)
    ∙ ap (or_err AetherError.no_clean_endpoint) eq
    ∙ ap (λ l. first_of (l ++ [])) (sym none_yet)

hunt_loop_turbo :
    (st : Strategy) (deadline : ℕ) (rounds : List Round) (s : Scan)
    (out : Outcome AetherError ProbeResult)
    → st.early_exit_first ≡ true
    → s.best ≡ none
    → hunt_loop st deadline rounds s ≡ some out
    → out ≡ first_of (handled_results st deadline rounds s)
unfolding hunt_loop handled_results
hunt_loop_turbo st deadline [] s out early eq h = cc
hunt_loop_turbo st deadline (r ∷ rounds) s out early eq h =
    first_of_after _ (step st deadline r s) (hunt_loop st deadline rounds)
      (handled_results st deadline rounds) out
      (λ s' eq' h'. hunt_loop_turbo st deadline rounds s' out early eq' h')
      (step-TakesFirst st deadline r s early eq) h

-- Turbo: the search ends with the first result that the loop handles, and with no_clean_endpoint
-- when it handles none.
pub hunt_best_gateway_turbo :
    (ip family : IpScan) (has_ipv6 : Bool) (began : ℕ) (rounds : List Round)
    (out : Outcome AetherError ProbeResult)
    → effective_ip ip has_ipv6 ≡ ok family
    → hunt_best_gateway ip turbo has_ipv6 began rounds ≡ some out
    → out
      ≡ first_of (
          handled_results (strategy turbo) (began + (strategy turbo).overall_deadline) rounds start)
unfolding hunt_best_gateway start strategy
hunt_best_gateway_turbo ip family has_ipv6 began rounds out eq h =
    hunt_loop_turbo _ _ rounds start out refl refl (sym (ap (on_family _) eq) ∙ h)
