-- ===== src/Wireguard/Confirmation.antt =====
-- What an answer of the check of an endpoint in aether/src/wireguard.rs means, and that there is one.
use aether_gui.Common.{
  ℕ, ◌-◌, ◌≤◌, ◌≡◌, refl, ◌⊎◌, inl, inr, Bool, true, false, some, List, [], ◌∷◌, arith, leb,
  if◌then◌else◌, if_both, if_known,
}
use aether_gui.Common.Outcome.{ok}
use aether_gui.Wireguard.Session.{
  TunnResult, done, tunn_err, write_to_network, write_to_tunnel, obfuscation, Session, Encapsulated,
  send_message, decapsulate,
}
use aether_gui.Wireguard.Verify.{
  WgEvent, received, recv_failed, slept, dataplane_required_successes, verify_dataplane, DataPart,
  HandshakeRound, on_established, on_handshake_event, handshake_loop, initiated,
  verify_endpoint_keep_session,
}
use aether_gui.Wireguard.Dataplane.{
  packets_of, DataOver, Answers, Answers-weaken, verify_dataplane-Answers,
}

-- The endpoint answered the handshake.
abbrev pub Shakes : WgEvent → Type 0
Shakes (received bytes done taken) = Unit
Shakes (received bytes tunn_err taken) = ⊥
Shakes (received bytes (write_to_network pkt) taken) = Unit
Shakes (received bytes (write_to_tunnel pkt) taken) = ⊥
Shakes recv_failed = ⊥
Shakes slept = ⊥

abbrev pub Shaken : List HandshakeRound → Type 0
Shaken [] = ⊥
Shaken (r ∷ rounds) = Shakes r.event ⊎ Shaken rounds

-- Some round of the handshake finds the clock at the deadline or past it.
abbrev pub HandshakeOver : ℕ → List HandshakeRound → Type 0
HandshakeOver deadline [] = ⊥
HandshakeOver deadline (r ∷ rounds) = (deadline ≤ r.top) ⊎ HandshakeOver deadline rounds

module _ (client_id : List ℕ) (data_check : Bool) (start deadline : ℕ) (behind : DataPart) where
  -- With the data check on, two packets came through the tunnel.
  abbrev pub Confirmed : Type 0
  Confirmed = if data_check then dataplane_required_successes ≤ packets_of behind.rounds else Unit

  on_established-Answers :
      (A : Type 0) (elapsed : ℕ) (s : Session)
      → DataOver deadline behind.rounds
      → A
      → Answers
          (A × Confirmed)
          (on_established client_id data_check start deadline behind elapsed s)
  on_established-Answers A elapsed s over a = checked data_check
    where
      checked :
          (check : Bool)
          → Answers
              (A
                × (if check then dataplane_required_successes ≤ packets_of behind.rounds else Unit))
              (if check
                then verify_dataplane client_id start deadline behind.now behind.first behind.rounds
                    s
                else (some (ok elapsed), s))
      checked true =
          Answers-weaken (dataplane_required_successes ≤ packets_of behind.rounds)
            (A × (dataplane_required_successes ≤ packets_of behind.rounds)) (λ k. (a, k))
            (verify_dataplane client_id start deadline behind.now behind.first behind.rounds s)
            (verify_dataplane-Answers client_id start deadline behind.now behind.first behind.rounds
              s over)
      checked false = (_, refl, (a, tt))

  handshake_loop-Answers :
      (rounds : List HandshakeRound) (s : Session)
      → DataOver deadline behind.rounds
      → HandshakeOver deadline rounds
      → Answers
          (Shaken rounds × Confirmed)
          (handshake_loop client_id data_check start deadline behind rounds s)
  unfolding handshake_loop
  handshake_loop-Answers [] s over ends = absurd ends
  handshake_loop-Answers (r ∷ rounds) s over (inl late) =
      if_known (Answers (Shaken (r ∷ rounds) × Confirmed)) (leb deadline r.top) _ _
        (λ e. (_, refl, tt)) (λ e. absurd (clash e))
    where
      clash : leb deadline r.top ≡ false → ⊥
      clash e = ground arith
  handshake_loop-Answers (r ∷ rounds) s over (inr later) =
      if_both (Answers (Shaken (r ∷ rounds) × Confirmed)) (leb deadline r.top) _ _ (_, refl, tt)
        (on r.event (λ shakes. inl shakes) (λ s'. handshake_loop-Answers rounds s' over later))
    where
      again :
          (s' : Session)
          → ((s'' : Session)
              → Answers
                  (Shaken rounds × Confirmed)
                  (handshake_loop client_id data_check start deadline behind rounds s''))
          → Answers
              (Shaken (r ∷ rounds) × Confirmed)
              (handshake_loop client_id data_check start deadline behind rounds s')
      again s' ih =
          Answers-weaken (Shaken rounds × Confirmed) (Shaken (r ∷ rounds) × Confirmed)
            (λ (shaken, k). (inr shaken, k))
            (handshake_loop client_id data_check start deadline behind rounds s') (ih s')

      on :
          (event : WgEvent)
          → (Shakes event → Shaken (r ∷ rounds))
          → ((s' : Session)
              → Answers
                  (Shaken rounds × Confirmed)
                  (handshake_loop client_id data_check start deadline behind rounds s'))
          → Answers (Shaken (r ∷ rounds) × Confirmed) (
              on_handshake_event client_id data_check start deadline behind r event s
                (handshake_loop client_id data_check start deadline behind rounds))
      on (received bytes done taken) f ih =
          on_established-Answers (Shaken (r ∷ rounds)) (r.handled - start) (decapsulate bytes s)
            over (f tt)
      on (received bytes tunn_err taken) f ih = again (decapsulate bytes s) ih
      on (received bytes (write_to_network pkt) true) f ih =
          on_established-Answers (Shaken (r ∷ rounds)) (r.handled - start)
            (send_message client_id pkt true (decapsulate bytes s)) over (f tt)
      on (received bytes (write_to_network pkt) false) f ih = (_, refl, tt)
      on (received bytes (write_to_tunnel pkt) taken) f ih = again (decapsulate bytes s) ih
      on recv_failed f ih = (_, refl, tt)
      on slept f ih = (_, refl, tt)

  -- When a round of each loop finds the clock at the deadline or past it, the check of an endpoint has
  -- an answer, whatever the endpoint does, and not a panic; a success means that the endpoint answered
  -- the handshake, and, with the data check on, that two packets came through the tunnel.
  pub verify_endpoint-Answers :
      (enabled : Bool) (init : Encapsulated) (rounds : List HandshakeRound)
      → DataOver deadline behind.rounds
      → HandshakeOver deadline rounds
      → Answers (Shaken rounds × Confirmed) (
          verify_endpoint_keep_session client_id data_check start deadline behind enabled init
            rounds)
  unfolding verify_endpoint_keep_session
  verify_endpoint-Answers enabled init rounds over ends = sent init.result
    where
      sent :
          (result : TunnResult)
          → Answers (Shaken rounds × Confirmed) (
              initiated client_id data_check start deadline behind rounds init
                (record { wire = if enabled then obfuscation ∷ [] else []; decapsulated = [] })
                result)
      sent (write_to_network pkt) =
          if_both (Answers (Shaken rounds × Confirmed)) init.taken _ _
            (handshake_loop-Answers rounds
              (send_message client_id pkt true
                (record { wire = if enabled then obfuscation ∷ [] else []; decapsulated = [] }))
              over ends)
            (_, refl, tt)
      sent done = (_, refl, tt)
      sent tunn_err = (_, refl, tt)
      sent (write_to_tunnel pkt) = (_, refl, tt)
