-- ===== src/Prober/Selection.antt =====
-- Which gateway the scan of aether/src/prober.rs selects.
use aether_gui.Common.{
  ℕ, ◌+◌, ◌≤◌, ◌≡◌, refl, sym, ap, ◌∙◌, subst, ◌≢◌, ◌⊎◌, inl, Bool, true, false, Option, none, some,
  List, [], ◌∷◌, ◌++◌, arith, All, ltb, leb, if◌then◌else◌,
}
use mathlib.Core.Option.{some-injective}
use aether_gui.Common.Outcome.{Outcome, ok, err, panic, stuck, or_err}
use aether_gui.Error.{AetherError}
use aether_gui.Prober.{
  ProbeResult, Strategy, Event, exhausted, failed, found, slept, Round, Scan, start, IpScan,
  ScanMode, turbo, balanced, thorough, stealth, ironclad, effective_ip, strategy, Step, go, return,
  break, better, effective, on_found, on_event, step, conclude, on_family, finish, hunt_loop,
  hunt_best_gateway,
}

abbrev pub In : ProbeResult → List ProbeResult → Type 0
In pr [] = ⊥
In pr (x ∷ xs) = (pr ≡ x) ⊎ In pr xs

-- The results that the loop handles before it ends.
abbrev pub result_of : Event → List ProbeResult
result_of exhausted = []
result_of failed = []
result_of (found pr) = pr ∷ []
result_of slept = []

-- The result that one round handles: none when the effective deadline has passed.
abbrev pub step_results : ℕ → Round → List ProbeResult
step_results limit r = if leb limit r.top then [] else result_of r.event

abbrev pub handled_after : (Scan → List ProbeResult) → Step → List ProbeResult
handled_after later (go s') = later s'
handled_after later (return pr) = []
handled_after later (break s') = []

unfoldable pub handled_results : Strategy → ℕ → List Round → Scan → List ProbeResult
handled_results st deadline [] s = []
handled_results st deadline (r ∷ rounds) s =
    step_results (effective s.quiet_until deadline) r
    ++ handled_after (handled_results st deadline rounds) (step st deadline r s)

-- `pr` is one of the results, and none of them is faster.
abbrev pub IsBest : ProbeResult → List ProbeResult → Type 0
IsBest pr results = In pr results × All (λ other. pr.rtt ≤ other.rtt) results

-- The best so far, and the results still to come.
abbrev pub IsChoice :
    Option ProbeResult → List ProbeResult → Outcome AetherError ProbeResult → Type 0
IsChoice none results (ok pr) = IsBest pr results
IsChoice (some cur) results (ok pr) = IsBest pr (cur ∷ results)
IsChoice none results (err e) = (results ≡ []) × (e ≡ AetherError.no_clean_endpoint)
IsChoice (some cur) results (err e) = ⊥
IsChoice best results panic = ⊥
IsChoice best results stuck = ⊥

IsChoice-finish : (s : Scan) → IsChoice s.best [] (finish s)
unfolding finish
IsChoice-finish s = go_ s.best
  where
    go_ : (best : Option ProbeResult) → IsChoice best [] (or_err AetherError.no_clean_endpoint best)
    go_ none = (refl, refl)
    go_ (some cur) = (inl refl, omega arith)

IsChoice-better :
    (best : Option ProbeResult) (pr : ProbeResult) (results : List ProbeResult)
    (out : Outcome AetherError ProbeResult)
    → IsChoice (some (better best pr)) results out
    → IsChoice best (pr ∷ results) out
unfolding better
IsChoice-better none pr results (ok x) h = h
IsChoice-better none pr results (err e) h = absurd h
IsChoice-better none pr results panic h = absurd h
IsChoice-better none pr results stuck h = absurd h
IsChoice-better (some cur) pr results (ok x) h = ground arith
IsChoice-better (some cur) pr results (err e) h = h
IsChoice-better (some cur) pr results panic h = h
IsChoice-better (some cur) pr results stuck h = h

-- What one step owes, given the results it handled: the choice after it extends to them, and a step
-- that ends the loop leaves the best of them.
Picks : List ProbeResult → Option ProbeResult → Step → Type 0
Picks handled best (go s') =
    (results : List ProbeResult) (out : Outcome AetherError ProbeResult)
    → IsChoice s'.best results out
    → IsChoice best (handled ++ results) out
Picks handled best (return pr) = ⊥
Picks handled best (break s') = IsChoice best (handled ++ []) (finish s')

Picks-if :
    (handled : List ProbeResult) (best : Option ProbeResult) (test : Bool) (x y : Step)
    → Picks handled best x
    → Picks handled best y
    → Picks handled best (if test then x else y)
Picks-if handled best true x y px py = px
Picks-if handled best false x y px py = py

Picks-not_early :
    (handled : List ProbeResult) (best : Option ProbeResult) (early : Bool) (x y : Step)
    → early ≡ false
    → Picks handled best y
    → Picks handled best (if early then x else y)
Picks-not_early handled best early x y late py =
    subst (λ b. Picks handled best (if b then x else y)) (sym late) py

Picks-go :
    (pr : ProbeResult) (best : Option ProbeResult) (s : Scan)
    → s.best ≡ some (better best pr)
    → Picks (pr ∷ []) best (go s)
unfolding Picks
Picks-go pr best s eq results out h =
    IsChoice-better best pr results out (subst (λ b. IsChoice b results out) eq h)

Picks-break :
    (pr : ProbeResult) (best : Option ProbeResult) (s : Scan)
    → s.best ≡ some (better best pr)
    → Picks (pr ∷ []) best (break s)
unfolding Picks
Picks-break pr best s eq =
    IsChoice-better best pr [] (finish s)
      (subst (λ b. IsChoice b [] (finish s)) eq (IsChoice-finish s))

on_found-Picks :
    (st : Strategy) (clock : ℕ) (pr : ProbeResult) (s : Scan)
    → st.early_exit_first ≡ false
    → Picks (pr ∷ []) s.best (on_found st clock pr s)
unfolding on_found
on_found-Picks st clock pr s late = Picks-not_early _ _ st.early_exit_first _ _ late (
    Picks-if _ _ _ _ _
      (Picks-if _ _ (ltb 0 st.quiet_after_first) _ _ (Picks-go pr s.best _ refl)
        (Picks-break pr s.best _ refl))
      (Picks-go pr s.best _ refl))

on_event-Picks :
    (st : Strategy) (clock : ℕ) (event : Event) (s : Scan)
    → st.early_exit_first ≡ false
    → Picks (result_of event) s.best (on_event st clock event s)
unfolding on_event Picks
on_event-Picks st clock exhausted s late = IsChoice-finish s
on_event-Picks st clock failed s late = λ results out h. h
on_event-Picks st clock (found pr) s late = on_found-Picks st clock pr s late
on_event-Picks st clock slept s late = IsChoice-finish s

step-Picks :
    (st : Strategy) (deadline : ℕ) (r : Round) (s : Scan)
    → st.early_exit_first ≡ false
    → Picks (step_results (effective s.quiet_until deadline) r) s.best (step st deadline r s)
unfolding step Picks
step-Picks st deadline r s late = by_cases (leb (effective s.quiet_until deadline) r.top)
  where
    by_cases :
        (over : Bool)
        → Picks
            (if over then [] else result_of r.event)
            s.best
            (if over then break s else on_event st r.handled r.event s)
    by_cases true = IsChoice-finish s
    by_cases false = on_event-Picks st r.handled r.event s late

-- The rest of the loop after a step, given the choice of the rounds that follow.
IsChoice-after :
    (handled : List ProbeResult) (best : Option ProbeResult) (x : Step)
    (rest : Scan → Option (Outcome AetherError ProbeResult)) (later : Scan → List ProbeResult)
    (out : Outcome AetherError ProbeResult)
    → ((s' : Scan) → rest s' ≡ some out → IsChoice s'.best (later s') out)
    → Picks handled best x
    → conclude rest x ≡ some out
    → IsChoice best (handled ++ handled_after later x) out
unfolding Picks
IsChoice-after handled best (go s') rest later out ih p h = p _ _ (ih s' h)
IsChoice-after handled best (return pr) rest later out ih p h = absurd p
IsChoice-after handled best (break s') rest later out ih p h =
    subst (IsChoice best (handled ++ [])) (some-injective _ _ h) p

pub hunt_loop-IsChoice :
    (st : Strategy) (deadline : ℕ) (rounds : List Round) (s : Scan)
    (out : Outcome AetherError ProbeResult)
    → st.early_exit_first ≡ false
    → hunt_loop st deadline rounds s ≡ some out
    → IsChoice s.best (handled_results st deadline rounds s) out
unfolding hunt_loop handled_results
hunt_loop-IsChoice st deadline [] s out late h = cc
hunt_loop-IsChoice st deadline (r ∷ rounds) s out late h =
    IsChoice-after _ s.best (step st deadline r s) (hunt_loop st deadline rounds)
      (handled_results st deadline rounds) out
      (λ s' eq. hunt_loop-IsChoice st deadline rounds s' out late eq)
      (step-Picks st deadline r s late) h

early_exit_off : (mode : ScanMode) → mode ≢ turbo → (strategy mode).early_exit_first ≡ false
unfolding strategy
early_exit_off turbo slow = absurd (slow refl)
early_exit_off balanced slow = refl
early_exit_off thorough slow = refl
early_exit_off stealth slow = refl
early_exit_off ironclad slow = refl

-- Every mode but turbo: when the search ends with `ok pr`, `pr` is one of the results the loop
-- handled and none of them has a smaller round-trip time; when it ends with an error, the error is
-- no_clean_endpoint and the loop handled no result.
pub hunt_best_gateway-IsChoice :
    (ip family : IpScan) (mode : ScanMode) (has_ipv6 : Bool) (began : ℕ) (rounds : List Round)
    (out : Outcome AetherError ProbeResult)
    → mode ≢ turbo
    → effective_ip ip has_ipv6 ≡ ok family
    → hunt_best_gateway ip mode has_ipv6 began rounds ≡ some out
    → IsChoice none
        (handled_results (strategy mode) (began + (strategy mode).overall_deadline) rounds start)
        out
unfolding hunt_best_gateway start
hunt_best_gateway-IsChoice ip family mode has_ipv6 began rounds out slow eq h =
    hunt_loop-IsChoice _ _ rounds start out (early_exit_off mode slow)
      (sym (ap (on_family _) eq) ∙ h)
