-- ===== src/Wireguard/Tests.antt =====
-- Runs of aether/src/wireguard.rs, and its theorems at concrete inputs.
use aether_gui.Common.{ℕ, ◌≡◌, refl, inl, inr, true, false, none, some, List, [], ◌∷◌, arith}
use aether_gui.Common.Outcome.{}
use aether_gui.Noize.{NoizeConfig}
use aether_gui.Wireguard.Session.{write_to_network, write_to_tunnel, Encapsulated}
use aether_gui.Wireguard.Verify.{
  received, slept, DataRound, DataPart, HandshakeRound, verify_endpoint_keep_session,
}
use aether_gui.Wireguard.Dataplane.{Answers}
use aether_gui.Wireguard.Confirmation.{Shaken, Confirmed, verify_endpoint-Answers}
use aether_gui.Noize.{is_enabled}
use aether_gui.Wireguard.Session.{
  message, obfuscation, program_message, keepalive_junk, post_handshake_junk,
}
use aether_gui.Wireguard.Verify.{
  handshake_loop, verify_dataplane, data_loop, data_turn, send_dataplane_probe,
}
use aether_gui.Common.{some}
use aether_gui.Common.Outcome.{ok}
use aether_gui.Wireguard.Run.{
  wg_step, WgStep, arrived, reply, outbound, claim, obfuscated, send, tick, spawned_turn,
  begin_tunnel, wg_run,
}
use aether_gui.Wireguard.Tasks.{IsTaggedTunnel, wg_run-IsTaggedTunnel}
use aether_gui.Wireguard.Covered.{IsObfuscated}
use aether_gui.Wireguard.Order.{wg_run-IsObfuscated}
use aether_gui.Wireguard.{inject_client_id, strip_client_id, set_reserved, copy_reserved}
use aether_gui.Wireguard.ClientId.{strip-inject_client_id}

abbrev initiation : List ℕ
initiation = 1 ∷ 0 ∷ 0 ∷ 0 ∷ 171 ∷ 205 ∷ []

inject_run : inject_client_id initiation (9 ∷ 8 ∷ 7 ∷ []) ≡ 1 ∷ 9 ∷ 8 ∷ 7 ∷ 171 ∷ 205 ∷ []
unfolding inject_client_id set_reserved copy_reserved
inject_run = refl

strip-inject_client_id_example :
    strip_client_id (inject_client_id initiation (9 ∷ 8 ∷ 7 ∷ [])) ≡ initiation
strip-inject_client_id_example =
    strip-inject_client_id initiation 9 8 7 (λ low high. (refl, refl, refl))

abbrev probe : Encapsulated
probe = record { result = write_to_network (4 ∷ 0 ∷ 0 ∷ 0 ∷ 9 ∷ []); taken = true }

abbrev answer_at : ℕ → DataRound
answer_at now = record {
  top = now;
  resent = probe;
  event = received (4 ∷ 9 ∷ 8 ∷ 7 ∷ 5 ∷ []) (write_to_tunnel (69 ∷ [])) true;
  handled = now;
  next_probe = probe;
}

abbrev behind : DataPart
behind = record {
  now = 200;
  first = probe;
  rounds = answer_at 300 ∷ answer_at 1_500 ∷ answer_at 9_000 ∷ [];
}

-- The endpoint answers the handshake, and the clock passes the deadline behind that.
abbrev handshake_rounds : List HandshakeRound
handshake_rounds =
    record {
      top = 100;
      event = received (2 ∷ 9 ∷ 8 ∷ 7 ∷ []) (write_to_network (4 ∷ 0 ∷ 0 ∷ 0 ∷ [])) true;
      handled = 150;
    }
    ∷ record { top = 8_000; event = slept; handled = 8_000 }
    ∷ []

verify_endpoint-Answers_example :
    Answers (Shaken handshake_rounds × Confirmed (9 ∷ 8 ∷ 7 ∷ []) true 50 5_050 behind) (
      verify_endpoint_keep_session
        (9 ∷ 8 ∷ 7 ∷ [])
        true
        50
        5_050
        behind
        true
        (record { result = write_to_network initiation; taken = true })
        handshake_rounds)
verify_endpoint-Answers_example =
    verify_endpoint-Answers (9 ∷ 8 ∷ 7 ∷ []) true 50 5_050 behind true
      (record { result = write_to_network initiation; taken = true }) handshake_rounds
      (inr (inr (inl (omega arith)))) (inr (inl (omega arith)))

abbrev light : NoizeConfig
light = record {
  i1 = none;
  jc = 4;
  jc_before_hs = 2;
  jc_after_hs = 1;
  jmin = 10;
  jmax = 30;
  allow_zero_size = false;
}

-- A reply and a message of the timer go out while the obfuscation of the first packet is under way.
abbrev steps : List WgStep
steps =
    outbound (some (69 ∷ [])) (write_to_network (4 ∷ 0 ∷ 0 ∷ 0 ∷ 1 ∷ []))
    ∷ claim
    ∷ arrived (2 ∷ 9 ∷ 8 ∷ 7 ∷ []) (write_to_network (4 ∷ 0 ∷ 0 ∷ 0 ∷ []))
    ∷ reply true
    ∷ tick (write_to_network (4 ∷ 0 ∷ 0 ∷ 0 ∷ []))
    ∷ obfuscated
    ∷ send true
    ∷ spawned_turn 0 true
    ∷ spawned_turn 1 true
    ∷ spawned_turn 0 true
    ∷ []

wg_run-IsTaggedTunnel_example :
    IsTaggedTunnel 9 8 7 (wg_run light (9 ∷ 8 ∷ 7 ∷ []) steps (begin_tunnel false))
wg_run-IsTaggedTunnel_example = wg_run-IsTaggedTunnel 9 8 7 light false steps

wg_run-IsObfuscated_example :
    IsObfuscated light false (wg_run light (9 ∷ 8 ∷ 7 ∷ []) steps (begin_tunnel false)).session.wire
wg_run-IsObfuscated_example = wg_run-IsObfuscated light false (9 ∷ 8 ∷ 7 ∷ []) steps

-- The obfuscation goes out behind the reply, and the packet of the program behind the obfuscation.
wg_run_order :
    (wg_run light (9 ∷ 8 ∷ 7 ∷ []) steps (begin_tunnel false)).session.wire
    ≡ message (4 ∷ 9 ∷ 8 ∷ 7 ∷ [])
      ∷ obfuscation
      ∷ program_message (4 ∷ 9 ∷ 8 ∷ 7 ∷ 1 ∷ [])
      ∷ keepalive_junk
      ∷ message (4 ∷ 9 ∷ 8 ∷ 7 ∷ [])
      ∷ post_handshake_junk
      ∷ []
unfolding wg_run wg_step begin_tunnel inject_client_id set_reserved copy_reserved is_enabled
wg_run_order = refl

verify_endpoint_run :
    (verify_endpoint_keep_session
      (9 ∷ 8 ∷ 7 ∷ [])
      true
      50
      5_050
      behind
      true
      (record { result = write_to_network initiation; taken = true })
      handshake_rounds).0
    ≡ some (ok 1_450)
unfolding verify_endpoint_keep_session handshake_loop verify_dataplane data_loop data_turn
    send_dataplane_probe
verify_endpoint_run = refl
