-- ===== src/H2/Deadline.antt =====
-- The deadline of the validation in `run` of aether/src/masque_h2.rs.
use aether_gui.Common.{
  ℕ, ◌+◌, ◌≤◌, ◌≡◌, refl, sym, ap, ◌∙◌, subst, ◌≢◌, ◌⊎◌, inl, inr, Bool, true, false, ◌&&◌, not,
  Option, some, List, [], ◌∷◌, if◌then◌else◌, le→leb, if_both, Bool-cases,
}
use aether_gui.Common.Outcome.{Outcome, err}
use aether_gui.Octets.{Octets}
use aether_gui.Error.{AetherError}
use aether_gui.H2.Kept.{AllNext, Kept, run_loop-kept, turn-kept}
use aether_gui.H2.Validation.{IsSound, IsSound-Kept, begin_loop-IsSound, Validated}
use aether_gui.H2.{
  Settings, Tunnel, begin_vars, TunnelRound, Next, go, stop, passed, begin_loop, on_ping, on_pong,
  on_event, turn, run_loop, next_rounds, finish_stream,
}

-- Some round finds the clock at the deadline or past it.
abbrev pub Overdue : ℕ → List TunnelRound → Type 0
Overdue due [] = ⊥
Overdue due (r ∷ rounds) = (due ≤ r.top) ⊎ Overdue due rounds

-- The loop returned, or the tunnel is ready.
abbrev pub Settled : Tunnel × Option (Outcome AetherError (Unit {0})) → Type 0
Settled (s, result) =
    (s.ready_fired ≡ true) ⊎ ((out : Outcome AetherError (Unit {0})) × (result ≡ some out))

abbrev Ready : Tunnel → Type 0
Ready s = s.ready_fired ≡ true

false≢true : false ≢ true
false≢true e = subst (λ b. if b then ⊥ else Unit) e tt

module _ (o : Octets) (cfg : Settings) where
  Ready-Kept : Kept o cfg Ready
  unfolding on_ping on_pong
  Ready-Kept = record {
    sends = λ pkt goes s h. if_both Ready goes _ _ h h;
    takes = λ d s h. h;
    finishes = λ s h. h;
    pings = λ now sent s e h. pinged now sent s h;
    pongs = λ answered s h. ponged answered s h;
    confirms = λ goes s e h. absurd (false≢true (sym e ∙ h));
  }
    where
      pinged :
          (now : ℕ) (sent : Bool) (s : Tunnel) → Ready s → AllNext Ready (on_ping o cfg now sent s)
      pinged now true s h = h
      pinged now false s h = h

      ponged : (answered : Bool) (s : Tunnel) → Ready s → AllNext Ready (on_pong o cfg answered s)
      ponged true s h = h
      ponged false s h = h

  run_loop-Ready :
      (rounds : List TunnelRound) (s : Tunnel) → Ready s → Settled (run_loop o cfg rounds s)
  run_loop-Ready rounds s h = inl (run_loop-kept o cfg Ready Ready-Kept rounds s h)

module _ (o : Octets) (cfg : Settings) (wanted : Bool) (due : ℕ)
    (checks : cfg.data_check ≡ true) where
  -- While the tunnel is not ready, a round that finds the clock past the deadline ends the loop.
  turn-overdue :
      (r : TunnelRound) (s : Tunnel)
      → IsSound wanted cfg.data_check due s
      → s.ready_fired ≡ false
      → due ≤ r.top
      → turn o cfg r s ≡ stop (err AetherError.masque) (finish_stream s)
  unfolding turn
  turn-overdue r s h e late =
      ap
        (λ b.
          if b
          then stop (err AetherError.masque) (finish_stream s)
          else if passed s.pong_deadline r.top
          then stop (err AetherError.masque) (finish_stream s)
          else on_event o cfg r.handled r.event s)
        over
    where
      deadline : s.validate_deadline ≡ some due
      deadline =
          (subst (λ b. Validated true due b s.validate_deadline s.validate_successes) e
            (subst (λ c. Validated c due s.ready_fired s.validate_deadline s.validate_successes)
              checks h.validated)).0

      over : cfg.data_check && not s.ready_fired && passed s.validate_deadline r.top ≡ true
      over =
          ap (λ c. c && not s.ready_fired && passed s.validate_deadline r.top) checks
          ∙ ap (λ b. not b && passed s.validate_deadline r.top) e
          ∙ ap (λ d. passed d r.top) deadline
          ∙ le→leb _ _ late

  run_loop-Settled :
      (rounds : List TunnelRound) (s : Tunnel)
      → IsSound wanted cfg.data_check due s
      → Overdue due rounds
      → Settled (run_loop o cfg rounds s)
  unfolding run_loop
  run_loop-Settled [] s h late = absurd late
  run_loop-Settled (r ∷ rounds) s h (inl late) = elim (Bool-cases s.ready_fired) [
    | inl e ↦ run_loop-Ready o cfg (r ∷ rounds) s e
    | inr e ↦
        subst (λ x. Settled (next_rounds o cfg (run_loop o cfg rounds) x))
          (sym (turn-overdue r s h e late)) (inr (_, refl))
  ]
  run_loop-Settled (r ∷ rounds) s h (inr later) =
      after (turn o cfg r s)
        (turn-kept o cfg (IsSound wanted cfg.data_check due) (IsSound-Kept o cfg wanted due) r s h)
        (λ s' h'. run_loop-Settled rounds s' h' later)
    where
      after :
          (x : Next)
          → AllNext (IsSound wanted cfg.data_check due) x
          → ((s' : Tunnel)
              → IsSound wanted cfg.data_check due s'
              → Settled (run_loop o cfg rounds s'))
          → Settled (next_rounds o cfg (run_loop o cfg rounds) x)
      after (go s') h' ih = ih s' h'
      after (stop result s') h' ih = inr (_, refl)

-- With the data check on, an edge that never confirms traffic cannot hold the tunnel: whatever the
-- events, once a round finds the clock at the deadline set at the start, or past it, the loop has
-- returned or the tunnel is ready.
pub begin_loop-Settled :
    (o : Octets) (cfg : Settings) (wanted : Bool) (now : ℕ) (goes : Bool)
    (rounds : List TunnelRound)
    → cfg.data_check ≡ true
    → Overdue (now + cfg.validation) rounds
    → Settled (run_loop o cfg rounds (begin_loop o cfg now goes (begin_vars wanted)))
begin_loop-Settled o cfg wanted now goes rounds checks late =
    run_loop-Settled o cfg wanted (now + cfg.validation) checks rounds _
      (begin_loop-IsSound o cfg wanted now goes) late
