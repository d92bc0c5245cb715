-- ===== src/H2/Trips.antt =====
-- The round trips that `run` of aether/src/masque_h2.rs counts while it validates the data plane.
use aether_gui.Common.{ℕ, zero, suc, ◌+◌, ◌≤◌, ◌≡◌, ◌⊎◌, List, [], ◌∷◌}
use aether_gui.Common.Outcome.{Outcome}
use aether_gui.Octets.{Octets}
use aether_gui.Masque.{push}
use aether_gui.Tunnel.Carrying.{Carries}
use aether_gui.H2.{
  Settings, Tunnel, TunnelEvent, ping, pong, probe, control, outbound, chunk, body_failed,
  body_ended, TunnelRound, Next, go, stop, turn,
}

-- The event is a chunk that completes a DATAGRAM capsule in the parser.
abbrev pub Brings : Octets → TunnelEvent → Tunnel → Type 0
Brings o (ping sent) s = ⊥
Brings o (pong answered) s = ⊥
Brings o (probe goes) s = ⊥
Brings o (control c) s = ⊥
Brings o (outbound pkt goes) s = ⊥
Brings o (chunk bytes open_ goes) s = Carries o (push s.buf bytes)
Brings o body_failed s = ⊥
Brings o body_ended s = ⊥

-- So many rounds of a run, at least, bring a datagram.
abbrev pub Trips : Octets → Settings → List TunnelRound → Tunnel → ℕ → Type 0
Trips o cfg rounds s zero = Unit
Trips o cfg [] s (suc n) = ⊥
Trips o cfg (r ∷ rounds) s (suc n) =
    (s' : Tunnel) × (turn o cfg r s ≡ go s')
    × (Trips o cfg rounds s' (suc n) ⊎ (Brings o r.event s × Trips o cfg rounds s' n))

-- A turn counts a round trip only if its event brings a datagram.
abbrev Counted : Octets → TunnelEvent → Tunnel → Next → Type 0
Counted o event s (go s') =
    (s'.validate_successes ≡ s.validate_successes)
    ⊎ (Brings o event s × (s'.validate_successes ≡ s.validate_successes + 1))
Counted o event s (stop result s') = s'.validate_successes ≡ s.validate_successes

module _ (o : Octets) (cfg : Settings) where
  abbrev Same : Tunnel → Tunnel → Type 0
  Same s s' = s'.validate_successes ≡ s.validate_successes

  -- What a run has counted: no more round trips than rounds that bring a datagram.
  abbrev pub Counts : List TunnelRound → Tunnel → Tunnel → Type 0
  Counts rounds s s' =
      (n : ℕ) × (s'.validate_successes ≤ s.validate_successes + n) × Trips o cfg rounds s n
