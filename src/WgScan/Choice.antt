-- ===== src/WgScan/Choice.antt =====
-- The answer of the scan of aether/src/wg_prober.rs.
use aether_gui.Common.{ℕ, ◌+◌, ◌≡◌, refl, ◌≢◌, Bool, false, none, some, List}
use aether_gui.Common.Outcome.{Outcome, ok}
use aether_gui.Error.{AetherError}
use aether_gui.Prober.{
  IpScan, ScanMode, turbo, balanced, thorough, stealth, ironclad, ProbeResult, Round, start,
  effective_ip, hunt_loop,
}
use aether_gui.Prober.Selection.{IsChoice, handled_results, hunt_loop-IsChoice}
use aether_gui.Prober.Ending.{Reaches, hunt_loop-Ended}
use aether_gui.WgScan.{wg_strategy, hunt_best_wg_endpoint}

wg_early_exit_off : (mode : ScanMode) → mode ≢ turbo → (wg_strategy mode).early_exit_first ≡ false
unfolding wg_strategy
wg_early_exit_off turbo slow = absurd (slow refl)
wg_early_exit_off balanced slow = refl
wg_early_exit_off thorough slow = refl
wg_early_exit_off stealth slow = refl
wg_early_exit_off ironclad slow = refl

-- In every mode but turbo, once a round finds the clock at the deadline of the mode, or past it, the
-- scan has an answer: one of the results that it handled, none of them with a smaller round-trip time,
-- or no_clean_endpoint when it handled none.
pub hunt_best_wg_endpoint-IsChoice :
    (ip family : IpScan) (mode : ScanMode) (has_ipv6 : Bool) (began : ℕ) (rounds : List Round)
    → mode ≢ turbo
    → effective_ip ip has_ipv6 ≡ ok family
    → Reaches (began + (wg_strategy mode).overall_deadline) rounds
    → (out : Outcome AetherError ProbeResult) × (hunt_best_wg_endpoint ip mode has_ipv6 began rounds
        ≡ some out)
      × IsChoice none
          (handled_results
            (wg_strategy mode)
            (began + (wg_strategy mode).overall_deadline)
            rounds
            start)
          out
unfolding hunt_best_wg_endpoint start
hunt_best_wg_endpoint-IsChoice ip family mode has_ipv6 began rounds slow eq late =
    let (out, e) =
      hunt_loop-Ended (wg_strategy mode) (began + (wg_strategy mode).overall_deadline) rounds start
        late in
    (out, rw eq e, choice out e)
  where
    choice :
        (out : Outcome AetherError ProbeResult)
        → hunt_loop (wg_strategy mode) (began + (wg_strategy mode).overall_deadline) rounds start
          ≡ some out
        → IsChoice none
            (handled_results
              (wg_strategy mode)
              (began + (wg_strategy mode).overall_deadline)
              rounds
              start)
            out
    choice out e =
        hunt_loop-IsChoice (wg_strategy mode) (began + (wg_strategy mode).overall_deadline) rounds
          start out (wg_early_exit_off mode slow) e
