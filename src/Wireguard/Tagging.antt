-- ===== src/Wireguard/Tagging.antt =====
-- The client id on the wire of aether/src/wireguard.rs, in the check of an endpoint.
use aether_gui.Common.{
  ℕ, ◌+◌, ◌-◌, Bool, true, false, none, some, List, [], ◌∷◌, All, All-append, leb, if◌then◌else◌,
  if_both,
}
use aether_gui.Common.Outcome.{Outcome, ok, err, panic, stuck}
use aether_gui.Error.{AetherError}
use aether_gui.Wireguard.{inject_client_id, strip_client_id}
use aether_gui.Wireguard.ClientId.{IsTagged, IsPlain, set_reserved-IsTagged}
use aether_gui.Wireguard.Session.{
  TunnResult, done, tunn_err, write_to_network, write_to_tunnel, Sent, obfuscation,
  post_handshake_junk, keepalive_junk, message, program_message, Session, Encapsulated, put,
  send_message, decapsulate,
}
use aether_gui.Wireguard.Verify.{
  WgEvent, received, recv_failed, slept, DataRound, Dataplane, Verdict,
  dataplane_required_successes, probe_result, send_dataplane_probe, resend, on_data_event,
  data_turn, next_data, data_loop, probed, verify_dataplane, DataPart, HandshakeRound,
  on_established, on_handshake_event, handshake_loop, initiated, verify_endpoint_keep_session,
}

module _ (x y z : ℕ) where
  abbrev pub IsTaggedSent : Sent → Type 0
  IsTaggedSent obfuscation = Unit
  IsTaggedSent post_handshake_junk = Unit
  IsTaggedSent keepalive_junk = Unit
  IsTaggedSent (message pkt) = IsTagged x y z pkt
  IsTaggedSent (program_message pkt) = IsTagged x y z pkt

  -- Each message on the wire carries the client id, and the tunnel has got none that does: the
  -- reserved bytes are zero again.
  pub record IsAddressed (s : Session) : Type 0 where
    pub tagged : All IsTaggedSent s.wire
    pub plain : All IsPlain s.decapsulated

  pub put-IsAddressed :
      (sent : Sent) (s : Session) → IsTaggedSent sent → IsAddressed s → IsAddressed (put sent s)
  put-IsAddressed sent s h k = record {
    tagged = All-append IsTaggedSent s.wire (sent ∷ []) k.tagged (h, tt);
    plain = k.plain;
  }

  pub inject_client_id-IsTagged :
      (pkt : List ℕ) → IsTagged x y z (inject_client_id pkt (x ∷ y ∷ z ∷ []))
  unfolding inject_client_id
  inject_client_id-IsTagged pkt = set_reserved-IsTagged x y z pkt

  pub send_message-IsAddressed :
      (pkt : List ℕ) (taken : Bool) (s : Session)
      → IsAddressed s
      → IsAddressed (send_message (x ∷ y ∷ z ∷ []) pkt taken s)
  send_message-IsAddressed pkt taken s h =
      if_both IsAddressed taken _ _
        (put-IsAddressed (message (inject_client_id pkt (x ∷ y ∷ z ∷ []))) s
          (inject_client_id-IsTagged pkt) h)
        h

  pub decapsulate-IsAddressed :
      (bytes : List ℕ) (s : Session) → IsAddressed s → IsAddressed (decapsulate bytes s)
  unfolding strip_client_id
  decapsulate-IsAddressed bytes s h = record {
    tagged = h.tagged;
    plain =
        All-append IsPlain s.decapsulated (strip_client_id bytes ∷ []) h.plain
          (set_reserved-IsTagged 0 0 0 bytes, tt);
  }

  send_dataplane_probe-IsAddressed :
      (out : Encapsulated) (s : Session)
      → IsAddressed s
      → IsAddressed (send_dataplane_probe (x ∷ y ∷ z ∷ []) out s).1
  unfolding send_dataplane_probe
  send_dataplane_probe-IsAddressed out s h = sent out.result
    where
      sent :
          (result : TunnResult) → IsAddressed (probe_result (x ∷ y ∷ z ∷ []) result out.taken s).1
      sent (write_to_network pkt) = send_message-IsAddressed pkt out.taken s h
      sent tunn_err = h
      sent done = h
      sent (write_to_tunnel pkt) = h

  module _ (start deadline : ℕ) where
    data_turn-IsAddressed :
        (r : DataRound) (d : Dataplane)
        → IsAddressed d.session
        → IsAddressed (data_turn (x ∷ y ∷ z ∷ []) start deadline r d).1.session
    unfolding data_turn
    data_turn-IsAddressed r d h =
        if_both (λ (p : Verdict × Dataplane). IsAddressed p.1.session) (leb deadline r.top) _ _ h
          (on r.event (resend (x ∷ y ∷ z ∷ []) start deadline r d) (
            if_both (λ (d' : Dataplane). IsAddressed d'.session) (leb d.resend_at r.top) _ _
              (send_dataplane_probe-IsAddressed r.resent d.session h) h))
      where
        on :
            (event : WgEvent) (d' : Dataplane)
            → IsAddressed d'.session
            → IsAddressed (on_data_event (x ∷ y ∷ z ∷ []) start deadline r event d').1.session
        on (received bytes done taken) d' k = decapsulate-IsAddressed bytes d'.session k
        on (received bytes tunn_err taken) d' k = decapsulate-IsAddressed bytes d'.session k
        on (received bytes (write_to_network pkt) taken) d' k =
            send_message-IsAddressed pkt taken (decapsulate bytes d'.session)
              (decapsulate-IsAddressed bytes d'.session k)
        on (received bytes (write_to_tunnel pkt) taken) d' k =
            if_both (λ (p : Verdict × Dataplane). IsAddressed p.1.session)
              (leb dataplane_required_successes (d'.successes + 1)) _ _
              (decapsulate-IsAddressed bytes d'.session k)
              (send_dataplane_probe-IsAddressed r.next_probe (decapsulate bytes d'.session)
                (decapsulate-IsAddressed bytes d'.session k))
        on recv_failed d' k = k
        on slept d' k = k

    data_loop-IsAddressed :
        (rounds : List DataRound) (d : Dataplane)
        → IsAddressed d.session
        → IsAddressed (data_loop (x ∷ y ∷ z ∷ []) start deadline rounds d).1
    unfolding data_loop
    data_loop-IsAddressed [] d h = h
    data_loop-IsAddressed (r ∷ rounds) d h =
        after (data_turn (x ∷ y ∷ z ∷ []) start deadline r d) (data_turn-IsAddressed r d h)
          (λ d' k. data_loop-IsAddressed rounds d' k)
      where
        after :
            (p : Verdict × Dataplane)
            → IsAddressed p.1.session
            → ((d' : Dataplane)
                → IsAddressed d'.session
                → IsAddressed (data_loop (x ∷ y ∷ z ∷ []) start deadline rounds d').1)
            → IsAddressed
                (next_data
                  (x ∷ y ∷ z ∷ [])
                  start
                  deadline
                  (data_loop (x ∷ y ∷ z ∷ []) start deadline rounds)
                  p).1
        after (none, d') k ih = ih d' k
        after (some out, d') k ih = k

    verify_dataplane-IsAddressed :
        (now : ℕ) (first : Encapsulated) (rounds : List DataRound) (s : Session)
        → IsAddressed s
        → IsAddressed (verify_dataplane (x ∷ y ∷ z ∷ []) start deadline now first rounds s).1
    unfolding verify_dataplane
    verify_dataplane-IsAddressed now first rounds s h =
        sent (send_dataplane_probe (x ∷ y ∷ z ∷ []) first s)
          (send_dataplane_probe-IsAddressed first s h)
      where
        sent :
            (p : Outcome AetherError (Unit {0}) × Session)
            → IsAddressed p.1
            → IsAddressed (probed (x ∷ y ∷ z ∷ []) start deadline now rounds p).1
        sent (ok _, s') k =
            data_loop-IsAddressed rounds
              (record { session = s'; successes = 0; last_probe_at = now; resend_at = now + 700 }) k
        sent (err e, s') k = k
        sent (panic, s') k = k
        sent (stuck, s') k = k

  module _ (data_check : Bool) (start deadline : ℕ) (behind : DataPart) where
    on_established-IsAddressed :
        (elapsed : ℕ) (s : Session)
        → IsAddressed s
        → IsAddressed (on_established (x ∷ y ∷ z ∷ []) data_check start deadline behind elapsed s).1
    on_established-IsAddressed elapsed s h =
        if_both (λ (p : Verdict × Session). IsAddressed p.1) data_check _ _
          (verify_dataplane-IsAddressed start deadline behind.now behind.first behind.rounds s h) h

    handshake_loop-IsAddressed :
        (rounds : List HandshakeRound) (s : Session)
        → IsAddressed s
        → IsAddressed (handshake_loop (x ∷ y ∷ z ∷ []) data_check start deadline behind rounds s).1
    unfolding handshake_loop
    handshake_loop-IsAddressed [] s h = h
    handshake_loop-IsAddressed (r ∷ rounds) s h =
        if_both (λ (p : Verdict × Session). IsAddressed p.1) (leb deadline r.top) _ _ h
          (on r.event (λ s' k. handshake_loop-IsAddressed rounds s' k))
      where
        on :
            (event : WgEvent)
            → ((s' : Session)
                → IsAddressed s'
                → IsAddressed
                    (handshake_loop (x ∷ y ∷ z ∷ []) data_check start deadline behind rounds s').1)
            → IsAddressed
                (on_handshake_event
                  (x ∷ y ∷ z ∷ [])
                  data_check
                  start
                  deadline
                  behind
                  r
                  event
                  s
                  (handshake_loop (x ∷ y ∷ z ∷ []) data_check start deadline behind rounds)).1
        on (received bytes done taken) ih =
            on_established-IsAddressed (r.handled - start) (decapsulate bytes s)
              (decapsulate-IsAddressed bytes s h)
        on (received bytes tunn_err taken) ih =
            ih (decapsulate bytes s) (decapsulate-IsAddressed bytes s h)
        on (received bytes (write_to_network pkt) true) ih =
            on_established-IsAddressed (r.handled - start)
              (send_message (x ∷ y ∷ z ∷ []) pkt true (decapsulate bytes s))
              (send_message-IsAddressed pkt true (decapsulate bytes s)
                (decapsulate-IsAddressed bytes s h))
        on (received bytes (write_to_network pkt) false) ih = decapsulate-IsAddressed bytes s h
        on (received bytes (write_to_tunnel pkt) taken) ih =
            ih (decapsulate bytes s) (decapsulate-IsAddressed bytes s h)
        on recv_failed ih = h
        on slept ih = h

    -- In the check of an endpoint each message that goes out carries the client id in its reserved
    -- bytes, and each that comes in reaches the tunnel with zeros there, whatever the tunnel, the
    -- endpoint and the socket do.
    pub verify_endpoint-IsAddressed :
        (enabled : Bool) (init : Encapsulated) (rounds : List HandshakeRound)
        → IsAddressed
            (verify_endpoint_keep_session
              (x ∷ y ∷ z ∷ [])
              data_check
              start
              deadline
              behind
              enabled
              init
              rounds).1
    unfolding verify_endpoint_keep_session
    verify_endpoint-IsAddressed enabled init rounds = sent init.result (begun enabled)
      where
        begun :
            (on : Bool)
            → IsAddressed (record { wire = if on then obfuscation ∷ [] else []; decapsulated = [] })
        begun true = record { tagged = (tt, tt); plain = tt }
        begun false = record { tagged = tt; plain = tt }

        sent :
            (result : TunnResult)
            → IsAddressed
                (record { wire = if enabled then obfuscation ∷ [] else []; decapsulated = [] })
            → IsAddressed
                (initiated
                  (x ∷ y ∷ z ∷ [])
                  data_check
                  start
                  deadline
                  behind
                  rounds
                  init
                  (record { wire = if enabled then obfuscation ∷ [] else []; decapsulated = [] })
                  result).1
        sent (write_to_network pkt) h =
            if_both (λ (p : Verdict × Session). IsAddressed p.1) init.taken _ _
              (handshake_loop-IsAddressed rounds
                (send_message (x ∷ y ∷ z ∷ []) pkt true
                  (record { wire = if enabled then obfuscation ∷ [] else []; decapsulated = [] }))
                (send_message-IsAddressed pkt true
                  (record { wire = if enabled then obfuscation ∷ [] else []; decapsulated = [] })
                  h))
              h
        sent done h = h
        sent tunn_err h = h
        sent (write_to_tunnel pkt) h = h
