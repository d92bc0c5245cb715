-- ===== src/H2/Tests.antt =====
-- Runs of the HTTP/2 tunnel's loop, and its theorems at concrete inputs.
use aether_gui.Common.{ℕ, ◌≡◌, refl, inl, true, some, List, [], ◌∷◌, ◌++◌, arith}
use aether_gui.Common.Outcome.{}
use aether_gui.Octets.Wire.{octets}
use aether_gui.H2.Trips.{Trips}
use aether_gui.H2.Deadline.{Settled, begin_loop-Settled}
use aether_gui.H2.{
  Settings, begin_vars, ping, pong, probe, chunk, outbound, body_ended, TunnelRound, begin_loop,
  run_loop, validation_timeout,
}

abbrev settings : Settings
settings = record {
  data_check = true;
  validation = 10_000;
  keepalive_timeout = 20_000;
  probe_packet = 69 ∷ 0 ∷ [];
}

abbrev answer : List ℕ
answer = 0 ∷ 3 ∷ 69 ∷ 1 ∷ 2 ∷ []

-- A probe is resent, two answers come in three chunks, the first ping is sent, a packet goes out, and
-- the edge ends the stream.
abbrev rounds : List TunnelRound
rounds =
    record { top = 1_000; event = probe true; handled = 1_700 }
    ∷ record { top = 1_700; event = chunk (answer ++ (0 ∷ [])) true true; handled = 1_800 }
    ∷ record { top = 1_800; event = chunk (3 ∷ 69 ∷ []) true true; handled = 1_900 }
    ∷ record { top = 1_900; event = chunk (1 ∷ 2 ∷ []) true true; handled = 2_000 }
    ∷ record { top = 2_000; event = ping true; handled = 15_000 }
    ∷ record { top = 15_000; event = outbound (some (69 ∷ 7 ∷ [])) true; handled = 15_100 }
    ∷ record { top = 15_100; event = body_ended; handled = 15_200 }
    ∷ []

begin_loop-Settled_example : Settled (
    run_loop octets settings
      (record { top = 12_000; event = pong true; handled = 12_000 } ∷ [])
      (begin_loop octets settings 1_000 true (begin_vars true)))
begin_loop-Settled_example =
    begin_loop-Settled octets settings true 1_000 true
      (record { top = 12_000; event = pong true; handled = 12_000 } ∷ []) refl (inl (omega arith))

validation_timeout_run : validation_timeout (some (48 ∷ [])) ≡ 10_000
unfolding validation_timeout
validation_timeout_run = refl
