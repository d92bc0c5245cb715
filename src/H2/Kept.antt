-- ===== src/H2/Kept.antt =====
-- What the loop of `run` of aether/src/masque_h2.rs keeps, by its pieces.
use aether_gui.Common.{
  and_left, and_right, of_not, ℕ, ◌≡◌, Bool, true, false, ◌&&◌, not, none, some, List, [], ◌∷◌,
  if_both, if_known,
}
use aether_gui.Common.Outcome.{Outcome, ok, err, panic, stuck, Absent}
use aether_gui.Octets.{Octets}
use aether_gui.Tunnel.{Drained}
use aether_gui.H2.{
  Settings, Tunnel, close, migrate, TunnelEvent, ping, pong, probe, control, outbound, chunk,
  body_failed, body_ended, TunnelRound, Next, go, stop, passed, framed, on_ping, on_pong,
  on_control, on_outbound, confirm, take_in, on_drained, on_event, turn, run_loop, next_rounds,
  finish_stream,
}

abbrev pub AllNext : (Tunnel → Type 0) → Next → Type 0
AllNext P (go s) = P s
AllNext P (stop result s) = P s

-- What each piece of the loop keeps.
pub record Kept (o : Octets) (cfg : Settings) (P : Tunnel → Type 0) : Type 0 where
  pub sends : (pkt : List ℕ) (goes : Bool) (s : Tunnel) → P s → P (framed o cfg pkt goes s)
  pub takes : (d : Drained) (s : Tunnel) → P s → P (take_in o cfg s d)
  pub finishes : (s : Tunnel) → P s → P (finish_stream s)
  pub pings :
      (now : ℕ) (sent : Bool) (s : Tunnel)
      → s.ready_fired ≡ true
      → P s
      → AllNext P (on_ping o cfg now sent s)
  pub pongs : (answered : Bool) (s : Tunnel) → P s → AllNext P (on_pong o cfg answered s)
  pub confirms : (goes : Bool) (s : Tunnel) → s.ready_fired ≡ false → P s → P (confirm o cfg goes s)

-- Then every round keeps it, and the loop.
module _ (o : Octets) (cfg : Settings) (P : Tunnel → Type 0) (k : Kept o cfg P) where
  on_drained-kept :
      (goes : Bool) (s : Tunnel) (d : Outcome Absent Drained)
      → P s
      → AllNext P (on_drained o cfg goes s d)
  unfolding on_drained
  on_drained-kept goes s (ok d) h =
      if_known P (d.delivered && not s.ready_fired) _ _
        (λ e.
          k.confirms goes (take_in o cfg s d)
            (of_not s.ready_fired (and_right d.delivered (not s.ready_fired) e)) (k.takes d s h))
        (λ _. k.takes d s h)
  on_drained-kept goes s (err e) h = h
  on_drained-kept goes s panic h = h
  on_drained-kept goes s stuck h = h

  on_event-kept :
      (now : ℕ) (e : TunnelEvent) (s : Tunnel) → P s → AllNext P (on_event o cfg now e s)
  unfolding on_event on_control on_outbound
  on_event-kept now (ping sent) s h =
      if_known (AllNext P) (s.ready_fired && not s.awaiting_pong) _ _
        (λ e. k.pings now sent s (and_left s.ready_fired (not s.awaiting_pong) e) h) (λ _. h)
  on_event-kept now (pong answered) s h =
      if_known (AllNext P) s.awaiting_pong _ _ (λ _. k.pongs answered s h) (λ _. h)
  on_event-kept now (probe goes) s h =
      if_known (AllNext P) (cfg.data_check && not s.ready_fired) _ _
        (λ _. k.sends cfg.probe_packet goes s h) (λ _. h)
  on_event-kept now (control none) s h = k.finishes s h
  on_event-kept now (control (some close)) s h = k.finishes s h
  on_event-kept now (control (some migrate)) s h = h
  on_event-kept now (outbound none goes) s h = k.finishes s h
  on_event-kept now (outbound (some pkt) true) s h = k.sends pkt true s h
  on_event-kept now (outbound (some pkt) false) s h = h
  on_event-kept now (chunk bytes open_ goes) s h = on_drained-kept goes s _ h
  on_event-kept now body_failed s h = h
  on_event-kept now body_ended s h = h

  pub turn-kept : (r : TunnelRound) (s : Tunnel) → P s → AllNext P (turn o cfg r s)
  unfolding turn
  turn-kept r s h =
      if_both (AllNext P) (cfg.data_check && not s.ready_fired && passed s.validate_deadline r.top)
        _ _ (k.finishes s h)
        (if_both (AllNext P) (passed s.pong_deadline r.top) _ _ (k.finishes s h)
          (on_event-kept r.handled r.event s h))

  pub run_loop-kept : (rounds : List TunnelRound) (s : Tunnel) → P s → P (run_loop o cfg rounds s).0
  unfolding run_loop
  run_loop-kept [] s h = h
  run_loop-kept (r ∷ rounds) s h =
      after (turn o cfg r s) (turn-kept r s h) (λ s' h'. run_loop-kept rounds s' h')
    where
      after :
          (x : Next)
          → AllNext P x
          → ((s' : Tunnel) → P s' → P (run_loop o cfg rounds s').0)
          → P (next_rounds o cfg (run_loop o cfg rounds) x).0
      after (go s') h' ih = ih s' h'
      after (stop result s') h' ih = h'
