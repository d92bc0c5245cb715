-- ===== src/Wireguard/Dataplane.antt =====
-- The answers of verify_dataplane, the second half of the check of an endpoint in
-- aether/src/wireguard.rs.
use aether_gui.Common.{
  ℕ, ◌+◌, ◌≤◌, ◌≡◌, refl, sym, subst, ◌⊎◌, inl, inr, Bool, true, false, none, some, List, [], ◌∷◌,
  arith, leb, if◌then◌else◌, leb→le, le→leb, if_both, if_known,
}
use aether_gui.Common.Outcome.{Outcome, ok, err, panic, stuck}
use aether_gui.Error.{AetherError}
use aether_gui.Wireguard.Session.{
  TunnResult, done, tunn_err, write_to_network, write_to_tunnel, Session, Encapsulated,
  send_message, decapsulate,
}
use aether_gui.Wireguard.Verify.{
  WgEvent, received, recv_failed, slept, DataRound, Dataplane, Verdict,
  dataplane_required_successes, probe_result, send_dataplane_probe, resend, on_answer,
  on_data_event, data_turn, next_data, data_loop, probed, verify_dataplane,
}

-- The packets that came through the tunnel.
abbrev pub packets_in : WgEvent → ℕ
packets_in (received bytes done taken) = 0
packets_in (received bytes tunn_err taken) = 0
packets_in (received bytes (write_to_network pkt) taken) = 0
packets_in (received bytes (write_to_tunnel pkt) taken) = 1
packets_in recv_failed = 0
packets_in slept = 0

abbrev pub packets_of : List DataRound → ℕ
packets_of [] = 0
packets_of (r ∷ rounds) = packets_in r.event + packets_of rounds

-- Some round finds the clock at the deadline or past it.
abbrev pub DataOver : ℕ → List DataRound → Type 0
DataOver deadline [] = ⊥
DataOver deadline (r ∷ rounds) = (deadline ≤ r.top) ⊎ DataOver deadline rounds

-- An answer that is a success only under the condition, and no panic.
abbrev pub Only : Type 0 → Outcome AetherError ℕ → Type 0
Only A (ok elapsed) = A
Only A (err e) = Unit
Only A panic = ⊥
Only A stuck = ⊥

Only-weaken : (A B : Type 0) → (A → B) → (out : Outcome AetherError ℕ) → Only A out → Only B out
Only-weaken A B f (ok elapsed) h = f h
Only-weaken A B f (err e) h = h
Only-weaken A B f panic h = h
Only-weaken A B f stuck h = h

-- The answer is there, and a success only under the condition.
abbrev pub Answers : Type 0 → Verdict × Session → Type 0
Answers A x = (out : Outcome AetherError ℕ) × (x.0 ≡ some out) × Only A out

pub Answers-weaken : (A B : Type 0) → (A → B) → (x : Verdict × Session) → Answers A x → Answers B x
Answers-weaken A B f x (out, e, h) = (out, e, Only-weaken A B f out h)

module _ (client_id : List ℕ) (start deadline : ℕ) where
  -- A turn that goes on has counted so many packets; one that ends has a success for two at least.
  abbrev Turned : ℕ → Verdict × Dataplane → Type 0
  Turned count (none, d) = d.successes ≡ count
  Turned count (some out, d) = Only (dataplane_required_successes ≤ count) out

  on_answer-Turned :
      (r : DataRound) (d : Dataplane)
      → Turned (d.successes + 1) (on_answer client_id start deadline r d)
  on_answer-Turned r d =
      if_known (Turned (d.successes + 1)) (leb dataplane_required_successes (d.successes + 1)) _ _
        (λ enough. leb→le _ _ enough) (λ few. refl)

  on_data_event-Turned :
      (r : DataRound) (event : WgEvent) (d : Dataplane)
      → Turned (d.successes + packets_in event) (on_data_event client_id start deadline r event d)
  on_data_event-Turned r (received bytes done taken) d = omega arith
  on_data_event-Turned r (received bytes tunn_err taken) d = omega arith
  on_data_event-Turned r (received bytes (write_to_network pkt) taken) d = omega arith
  on_data_event-Turned r (received bytes (write_to_tunnel pkt) taken) d =
      on_answer-Turned r (record d { session = decapsulate bytes d.session })
  on_data_event-Turned r recv_failed d = tt
  on_data_event-Turned r slept d = omega arith

  data_turn-Turned :
      (r : DataRound) (d : Dataplane)
      → Turned (d.successes + packets_in r.event) (data_turn client_id start deadline r d)
  unfolding data_turn
  data_turn-Turned r d =
      if_both (Turned (d.successes + packets_in r.event)) (leb deadline r.top) _ _ tt (
        if_both
          (λ d'.
            Turned (d.successes + packets_in r.event)
              (on_data_event client_id start deadline r r.event d'))
          (leb d.resend_at r.top) _ _
          (on_data_event-Turned r r.event (record d {
            session = (send_dataplane_probe client_id r.resent d.session).1;
            last_probe_at = r.top;
            resend_at = r.top + 700;
          }))
          (on_data_event-Turned r r.event d))

  data_loop-Answers :
      (rounds : List DataRound) (d : Dataplane)
      → DataOver deadline rounds
      → Answers
          (dataplane_required_successes ≤ d.successes + packets_of rounds)
          (data_loop client_id start deadline rounds d)
  unfolding data_loop data_turn
  data_loop-Answers [] d over = absurd over
  data_loop-Answers (r ∷ rounds) d (inl late) =
      subst
        (λ b. Answers (dataplane_required_successes ≤ d.successes + packets_of (r ∷ rounds)) (
          next_data client_id start deadline (data_loop client_id start deadline rounds) (
            if b
            then (some (err AetherError.other), d)
            else on_data_event client_id start deadline r r.event
                (resend client_id start deadline r d))))
        (sym (le→leb deadline r.top late)) (_, refl, tt)
  data_loop-Answers (r ∷ rounds) d (inr later) =
      after (data_turn client_id start deadline r d) (data_turn-Turned r d)
        (λ d'. data_loop-Answers rounds d' later)
    where
      after :
          (x : Verdict × Dataplane)
          → Turned (d.successes + packets_in r.event) x
          → ((d' : Dataplane)
              → Answers
                  (dataplane_required_successes ≤ d'.successes + packets_of rounds)
                  (data_loop client_id start deadline rounds d'))
          → Answers
              (dataplane_required_successes ≤ d.successes + packets_of (r ∷ rounds))
              (next_data client_id start deadline (data_loop client_id start deadline rounds) x)
      after (none, d') h ih =
          Answers-weaken (dataplane_required_successes ≤ d'.successes + packets_of rounds)
            (dataplane_required_successes ≤ d.successes + packets_of (r ∷ rounds))
            (λ k. omega arith) (data_loop client_id start deadline rounds d') (ih d')
      after (some out, d') h ih = (
        out,
        refl,
        Only-weaken (dataplane_required_successes ≤ d.successes + packets_in r.event)
            (dataplane_required_successes ≤ d.successes + packets_of (r ∷ rounds))
            (λ k. omega arith) out h,
      )

  pub verify_dataplane-Answers :
      (now : ℕ) (first : Encapsulated) (rounds : List DataRound) (s : Session)
      → DataOver deadline rounds
      → Answers
          (dataplane_required_successes ≤ packets_of rounds)
          (verify_dataplane client_id start deadline now first rounds s)
  unfolding verify_dataplane send_dataplane_probe
  verify_dataplane-Answers now first rounds s over = sent first.result first.taken
    where
      loop :
          (s' : Session)
          → Answers (dataplane_required_successes ≤ packets_of rounds) (
              data_loop client_id start deadline rounds (record {
                session = s';
                successes = 0;
                last_probe_at = now;
                resend_at = now + 700;
              }))
      loop s' =
          let d : Dataplane = record {
            session = s';
            successes = 0;
            last_probe_at = now;
            resend_at = now + 700;
          } in
          Answers-weaken (dataplane_required_successes ≤ 0 + packets_of rounds)
            (dataplane_required_successes ≤ packets_of rounds) (λ k. omega arith)
            (data_loop client_id start deadline rounds d) (data_loop-Answers rounds d over)

      sent :
          (result : TunnResult) (taken : Bool)
          → Answers
              (dataplane_required_successes ≤ packets_of rounds)
              (probed client_id start deadline now rounds (probe_result client_id result taken s))
      sent (write_to_network pkt) true = loop (send_message client_id pkt true s)
      sent (write_to_network pkt) false = (_, refl, tt)
      sent tunn_err taken = (_, refl, tt)
      sent done taken = loop s
      sent (write_to_tunnel pkt) taken = loop s
