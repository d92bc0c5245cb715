-- ===== src/Wireguard/Verify.antt =====
-- The check of an endpoint: send_dataplane_probe, verify_dataplane and verify_endpoint_keep_session of
-- aether/src/wireguard.rs. Schedules of rounds give the clock, what the select delivers and the results
-- of the tunnel. Times are milliseconds.
use aether_gui.Common.{
  ℕ, ◌+◌, ◌-◌, Bool, true, Option, none, some, List, [], ◌∷◌, max, leb, if◌then◌else◌,
}
use aether_gui.Common.Outcome.{Outcome, ok, err, panic, stuck}
use aether_gui.Error.{AetherError}
use aether_gui.Wireguard.Session.{
  TunnResult, done, tunn_err, write_to_network, write_to_tunnel, obfuscation, Session, Encapsulated,
  send_message, decapsulate,
}

-- What the select delivers: a datagram with the result of `decapsulate` and whether the socket takes
-- what that writes, an error of the socket, or the end of the sleep.
pub data WgEvent : Type 0 where
  received : List ℕ → TunnResult → Bool → WgEvent
  recv_failed : WgEvent
  slept : WgEvent

-- A round of verify_dataplane: the clock at its top, the probe resent there, and for an answer the
-- clock and the probe behind it.
pub record DataRound : Type 0 where
  pub top : ℕ
  pub resent : Encapsulated
  pub event : WgEvent
  pub handled : ℕ
  pub next_probe : Encapsulated

pub record Dataplane : Type 0 where
  pub session : Session
  pub successes : ℕ
  pub last_probe_at : ℕ
  pub resend_at : ℕ

-- `none` goes on.
abbrev pub Verdict : Type 0
Verdict = Option (Outcome AetherError ℕ)

abbrev pub dataplane_required_successes : ℕ
dataplane_required_successes = 2

abbrev pub dataplane_probe_gap : ℕ
dataplane_probe_gap = 600

module _ (client_id : List ℕ) where
  abbrev pub probe_result : TunnResult → Bool → Session → Outcome AetherError (Unit {0}) × Session
  probe_result (write_to_network pkt) taken s =
      (if taken then ok tt else err AetherError.io, send_message client_id pkt taken s)
  probe_result tunn_err taken s = (err AetherError.other, s)
  probe_result done taken s = (ok tt, s)
  probe_result (write_to_tunnel pkt) taken s = (ok tt, s)

  unfoldable pub send_dataplane_probe :
      Encapsulated → Session → Outcome AetherError (Unit {0}) × Session
  send_dataplane_probe out s = probe_result out.result out.taken s

  module _ (start deadline : ℕ) where
    abbrev pub resend : DataRound → Dataplane → Dataplane
    resend r d =
        if leb d.resend_at r.top
        then record d {
          session = (send_dataplane_probe r.resent d.session).1;
          last_probe_at = r.top;
          resend_at = r.top + 700;
        }
        else d

    -- The second answer ends the check; the first is followed by another probe.
    abbrev pub on_answer : DataRound → Dataplane → Verdict × Dataplane
    on_answer r d =
        let d' = record d { successes = d.successes + 1 } in
        if leb dataplane_required_successes d'.successes
        then (some (ok (r.handled - start)), d')
        else (
          none,
          record d' {
            session = (send_dataplane_probe r.next_probe d.session).1;
            last_probe_at = max r.handled (d.last_probe_at + dataplane_probe_gap);
            resend_at = max r.handled (d.last_probe_at + dataplane_probe_gap) + 700;
          },
        )

    abbrev pub on_data_result : DataRound → TunnResult → Bool → Dataplane → Verdict × Dataplane
    on_data_result r (write_to_tunnel pkt) taken d = on_answer r d
    on_data_result r (write_to_network pkt) taken d =
        (none, record d { session = send_message client_id pkt taken d.session })
    on_data_result r done taken d = (none, d)
    on_data_result r tunn_err taken d = (none, d)

    abbrev pub on_data_event : DataRound → WgEvent → Dataplane → Verdict × Dataplane
    on_data_event r (received bytes result taken) d =
        on_data_result r result taken (record d { session = decapsulate bytes d.session })
    on_data_event r recv_failed d = (some (err AetherError.io), d)
    on_data_event r slept d = (none, d)

    unfoldable pub data_turn : DataRound → Dataplane → Verdict × Dataplane
    data_turn r d =
        if leb deadline r.top
        then (some (err AetherError.other), d)
        else on_data_event r r.event (resend r d)

    abbrev pub next_data : (Dataplane → Verdict × Session) → Verdict × Dataplane → Verdict × Session
    next_data rest (none, d) = rest d
    next_data rest (some out, d) = (some out, d.session)

    -- An answer `none` means that the schedule ends before the loop does.
    unfoldable pub data_loop : List DataRound → Dataplane → Verdict × Session
    data_loop [] d = (none, d.session)
    data_loop (r ∷ rounds) d = next_data (data_loop rounds) (data_turn r d)

    abbrev pub probed :
        ℕ → List DataRound → Outcome AetherError (Unit {0}) × Session → Verdict × Session
    probed now rounds (ok _, s) =
        data_loop rounds
          (record { session = s; successes = 0; last_probe_at = now; resend_at = now + 700 })
    probed now rounds (err e, s) = (some (err e), s)
    probed now rounds (panic, s) = (some panic, s)
    probed now rounds (stuck, s) = (some stuck, s)

    unfoldable pub verify_dataplane :
        ℕ → Encapsulated → List DataRound → Session → Verdict × Session
    verify_dataplane now first rounds s = probed now rounds (send_dataplane_probe first s)

-- What happens behind the handshake.
pub record DataPart : Type 0 where
  pub now : ℕ
  pub first : Encapsulated
  pub rounds : List DataRound

pub record HandshakeRound : Type 0 where
  pub top : ℕ
  pub event : WgEvent
  pub handled : ℕ

module _ (client_id : List ℕ) (data_check : Bool) (start deadline : ℕ) (behind : DataPart) where
  -- The handshake is done.
  abbrev pub on_established : ℕ → Session → Verdict × Session
  on_established elapsed s =
      if data_check
      then verify_dataplane client_id start deadline behind.now behind.first behind.rounds s
      else (some (ok elapsed), s)

  abbrev pub on_handshake_result :
      HandshakeRound
      → TunnResult
      → Bool
      → Session
      → (Session → Verdict × Session)
      → Verdict × Session
  on_handshake_result r done taken s again = on_established (r.handled - start) s
  on_handshake_result r (write_to_network pkt) taken s again =
      if taken
      then on_established (r.handled - start) (send_message client_id pkt true s)
      else (some (err AetherError.io), s)
  on_handshake_result r tunn_err taken s again = again s
  on_handshake_result r (write_to_tunnel pkt) taken s again = again s

  abbrev pub on_handshake_event :
      HandshakeRound → WgEvent → Session → (Session → Verdict × Session) → Verdict × Session
  on_handshake_event r (received bytes result taken) s again =
      on_handshake_result r result taken (decapsulate bytes s) again
  on_handshake_event r recv_failed s again = (some (err AetherError.io), s)
  on_handshake_event r slept s again = (some (err AetherError.other), s)

  unfoldable pub handshake_loop : List HandshakeRound → Session → Verdict × Session
  handshake_loop [] s = (none, s)
  handshake_loop (r ∷ rounds) s =
      let waiting = on_handshake_event r r.event s (handshake_loop rounds) in
      if leb deadline r.top then (some (err AetherError.other), s) else waiting

  abbrev pub initiated :
      List HandshakeRound → Encapsulated → Session → TunnResult → Verdict × Session
  initiated rounds out s (write_to_network pkt) =
      if out.taken
      then handshake_loop rounds (send_message client_id pkt true s)
      else (some (err AetherError.io), s)
  initiated rounds out s done = (some (err AetherError.other), s)
  initiated rounds out s tunn_err = (some (err AetherError.other), s)
  initiated rounds out s (write_to_tunnel pkt) = (some (err AetherError.other), s)

  -- Behind the set-up of the socket and the tunnel; the first argument is whether the obfuscation is on.
  unfoldable pub verify_endpoint_keep_session :
      Bool → Encapsulated → List HandshakeRound → Verdict × Session
  verify_endpoint_keep_session enabled init rounds =
      initiated rounds init
        (record { wire = if enabled then obfuscation ∷ [] else []; decapsulated = [] }) init.result
