-- ===== src/Quic/Verify/Answer.antt =====
-- What an answer of `verify_masque` of aether/src/quic.rs means, and that there is one.
use aether_gui.Common.{
  ℕ, ◌+◌, ◌≤◌, ◌≡◌, refl, sym, ◌∙◌, subst, ◌⊎◌, inl, inr, Bool, true, false, ◌&&◌, not, Option,
  none, some, List, [], ◌∷◌, ◌++◌, arith, leb, if◌then◌else◌, le→leb, if_both,
}
use aether_gui.Common.Outcome.{Outcome, ok, err, panic, stuck}
use aether_gui.Error.{AetherError}
use mathlib.Core.Option.{some-injective}
use aether_gui.Octets.{Octets}
use aether_gui.H2.{data_probe_required_successes}
use aether_gui.Quic.Connection.{conn_recv, on_timeout, send_request}
use aether_gui.Quic.Verify.Rounds.{check_rest-Earns, check_loop-Earned}
use aether_gui.Quic.Verify.Earning.{
  granted, granted_in, packets_in, packets_of, or_right, Earned, Earns, Earned-later, Earned-now,
  Earns-from,
}
use aether_gui.Quic.Verify.{
  Woken, received, recv_failed, slept, VerifyRound, Check, CheckNext, proceed, answer, and_check,
  begin_check, flush_connected, log_call, on_woken, sent_request, with_stream, end_check,
  check_rest, check_open, check_turn, next_checks, check_loop, verify_masque,
}

-- The request was opened on the stream in some round.
abbrev pub OpenedOn : ℕ → List VerifyRound → Type 0
OpenedOn sid [] = ⊥
OpenedOn sid (r ∷ rounds) = (r.opened ≡ some sid) ⊎ OpenedOn sid rounds

-- Some round finds the clock at the deadline or past it.
abbrev pub Expired : ℕ → List VerifyRound → Type 0
Expired deadline [] = ⊥
Expired deadline (r ∷ rounds) = (deadline ≤ r.top) ⊎ Expired deadline rounds

module _ (o : Octets) (data_check : Bool) where
  -- A success means a request that was opened, a 200 on its stream, and with the data check on two
  -- packets of it.
  abbrev pub Means : List VerifyRound → Outcome AetherError ℕ → Type 0
  Means rounds (ok elapsed) =
      (sid : ℕ) × OpenedOn sid rounds
      × (granted_in sid rounds ≡ true)
      × (if data_check then data_probe_required_successes ≤ packets_of o sid rounds else Unit)
  Means rounds (err e) = Unit
  Means rounds panic = ⊥
  Means rounds stuck = ⊥

-- Nothing is granted or counted.
abbrev nothing : Check
nothing = record {
  h3_conn = false;
  req_stream = none;
  connect_ip_ok = false;
  last_probe = 0;
  probe_successes = 0;
  calls = [];
  wire = [];
}

-- Before the request there is nothing.
abbrev Closed : Check → Type 0
Closed s =
    (s.req_stream ≡ none)
    × (s.h3_conn ≡ false)
    × (s.connect_ip_ok ≡ false)
    × (s.probe_successes ≡ 0)

abbrev Quiet : CheckNext → Type 0
Quiet (proceed s) = Closed s
Quiet (answer out s) = (e : AetherError) × (out ≡ err e)

module _ (o : Octets) (probe : List ℕ) (data_check : Bool) (start : ℕ) where
  -- A round either leaves the request closed or opens it, and then earns from nothing.
  abbrev Opening : VerifyRound → CheckNext → Type 0
  Opening r x =
      (sid : ℕ) × (r.opened ≡ some sid)
      × Earns data_check sid nothing (granted sid r.polls) (packets_in o sid r.datagrams) x

  flush_connected-Quiet :
      (writes : List (List ℕ × Bool)) (fails : Bool) (s : Check)
      → Closed s
      → Quiet (flush_connected writes fails s)
  unfolding flush_connected
  flush_connected-Quiet [] fails s h = if_both Quiet fails _ _ (_, refl) h
  flush_connected-Quiet ((bytes, taken) ∷ writes) fails s h =
      if_both Quiet taken _ _
        (flush_connected-Quiet writes fails (record s { wire = s.wire ++ (bytes ∷ []) }) h)
        (_, refl)

  check_rest-Quiet :
      (r : VerifyRound) (s : Check) → Closed s → Quiet (check_rest o probe data_check start r s)
  check_rest-Quiet r s h =
      subst
        (λ req. Quiet (
          and_check (with_stream o probe data_check start r req s) λ s'.
            and_check (flush_connected r.writes r.write_fails s')
              (end_check o probe data_check start r)))
        (sym h.0)
        (ended (flush_connected r.writes r.write_fails s)
          (flush_connected-Quiet r.writes r.write_fails s h))
    where
      ended : (x : CheckNext) → Quiet x → Quiet (and_check x (end_check o probe data_check start r))
      ended (proceed s') h' = if_both Quiet r.closed _ _ (_, refl) h'
      ended (answer out s') h' = h'

  Turned : VerifyRound → CheckNext → Type 0
  Turned r x = Quiet x ⊎ Opening r x

  check_open-Turned :
      (r : VerifyRound) (s : Check)
      → Closed s
      → Turned r (
          and_check
            (check_open o probe data_check start r s)
            (check_rest o probe data_check start r))
  unfolding Turned
  check_open-Turned r s h =
      if_both (λ x. Turned r (and_check x (check_rest o probe data_check start r)))
        (r.established && not s.h3_conn) _ _ (requested r.opened (λ sid e. e))
        (inl (check_rest-Quiet r s h))
    where
      requested :
          (opened : Option ℕ)
          → ((sid : ℕ) → opened ≡ some sid → r.opened ≡ some sid)
          → Turned r (
              and_check
                (sent_request o probe data_check start opened s)
                (check_rest o probe data_check start r))
      requested none back = inl (_, refl)
      requested (some sid) back = inr (
        sid,
        back sid refl,
        Earns-from data_check sid asked nothing (granted sid r.polls) (packets_in o sid r.datagrams)
            (check_rest o probe data_check start r asked) h.2 h.3
            (check_rest-Earns o probe data_check start sid r asked (refl, refl)),
      )
        where
          asked : Check
          asked = log_call send_request (record s { req_stream = some sid; h3_conn = true })

  check_turn-Turned :
      (deadline : ℕ) (r : VerifyRound) (s : Check)
      → Closed s
      → Turned r (check_turn o probe data_check start deadline r s)
  unfolding check_turn Turned
  check_turn-Turned deadline r s h =
      if_both (Turned r) (leb deadline r.top) _ _ (inl (_, refl)) (woken r.woken)
    where
      woken :
          (w : Woken)
          → Turned r (
              and_check (on_woken o probe data_check start w s) λ s1.
                and_check
                  (check_open o probe data_check start r s1)
                  (check_rest o probe data_check start r))
      woken (received bytes) = check_open-Turned r (log_call (conn_recv bytes) s) h
      woken recv_failed = inl (_, refl)
      woken slept = check_open-Turned r (log_call on_timeout s) h

  Means-later :
      (r : VerifyRound) (rounds : List VerifyRound) (out : Outcome AetherError ℕ)
      → Means o data_check rounds out
      → Means o data_check (r ∷ rounds) out
  Means-later r rounds (ok elapsed) (sid, opened, grants, packets) = (
    sid,
    inr opened,
    or_right (granted sid r.polls) (granted_in sid rounds) grants,
    more data_check packets,
  )
    where
      more :
          (check : Bool)
          → (if check then data_probe_required_successes ≤ packets_of o sid rounds else Unit)
          → if check then data_probe_required_successes ≤ packets_of o sid (r ∷ rounds) else Unit
      more true k = omega arith
      more false k = tt
  Means-later r rounds (err e) h = h
  Means-later r rounds panic h = h
  Means-later r rounds stuck h = h

  Earned-Means :
      (r : VerifyRound) (rounds : List VerifyRound) (sid : ℕ) (out : Outcome AetherError ℕ)
      → r.opened ≡ some sid
      → Earned data_check sid nothing
          (granted_in sid (r ∷ rounds))
          (packets_of o sid (r ∷ rounds))
          out
      → Means o data_check (r ∷ rounds) out
  Earned-Means r rounds sid (ok elapsed) e (grants, packets) =
      (sid, inl e, grants, plain data_check packets)
    where
      plain :
          (check : Bool)
          → (if check
              then data_probe_required_successes ≤ 0 + packets_of o sid (r ∷ rounds)
              else Unit)
          → if check then data_probe_required_successes ≤ packets_of o sid (r ∷ rounds) else Unit
      plain true k = omega arith
      plain false k = tt
  Earned-Means r rounds sid (err x) e h = h
  Earned-Means r rounds sid panic e h = h
  Earned-Means r rounds sid stuck e h = h

  check_loop-Means :
      (deadline : ℕ) (rounds : List VerifyRound) (s : Check) (out : Outcome AetherError ℕ)
      → Closed s
      → check_loop o probe data_check start deadline rounds s ≡ some out
      → Means o data_check rounds out
  unfolding check_loop Turned
  check_loop-Means deadline [] s out h e = cc
  check_loop-Means deadline (r ∷ rounds) s out h e =
      after (check_turn o probe data_check start deadline r s) e (check_turn-Turned deadline r s h)
        (λ s' h' e'. check_loop-Means deadline rounds s' out h' e')
    where
      after :
          (x : CheckNext)
          → next_checks o probe data_check start
              (check_loop o probe data_check start deadline rounds)
              x
            ≡ some out
          → Turned r x
          → ((s' : Check)
              → Closed s'
              → check_loop o probe data_check start deadline rounds s' ≡ some out
              → Means o data_check rounds out)
          → Means o data_check (r ∷ rounds) out
      after (proceed s') e' (inl quiet) ih = Means-later r rounds out (ih s' quiet e')
      after (answer out' s') e' (inl (x, failed)) ih =
          subst (Means o data_check (r ∷ rounds)) (sym failed ∙ some-injective _ _ e') tt
      after (proceed s') e' (inr (sid, opened, earned)) ih = Earned-Means r rounds sid out opened (
          Earned-later data_check sid nothing s' (granted sid r.polls) (granted_in sid rounds)
            (packets_in o sid r.datagrams) (packets_of o sid rounds) out earned
            (check_loop-Earned o probe data_check start sid deadline rounds s' out earned.0 e'))
      after (answer out' s') e' (inr (sid, opened, earned)) ih =
          Earned-Means r rounds sid out opened (
            Earned-now data_check sid nothing (granted sid r.polls) (granted_in sid rounds)
              (packets_in o sid r.datagrams) (packets_of o sid rounds) out
              (subst
                (Earned data_check sid nothing (granted sid r.polls) (packets_in o sid r.datagrams))
                (some-injective _ _ e') earned))

  Answered : Option (Outcome AetherError ℕ) → Type 0
  Answered result = (out : Outcome AetherError ℕ) × (result ≡ some out)

  check_loop-Answered :
      (deadline : ℕ) (rounds : List VerifyRound) (s : Check)
      → Expired deadline rounds
      → Answered (check_loop o probe data_check start deadline rounds s)
  unfolding check_loop check_turn Answered
  check_loop-Answered deadline [] s h = absurd h
  check_loop-Answered deadline (r ∷ rounds) s (inl late) =
      subst
        (λ b. Answered (
          next_checks o probe data_check start (check_loop o probe data_check start deadline rounds)
            (if b
              then answer (err AetherError.other) s
              else and_check (on_woken o probe data_check start r.woken s) λ s1.
                and_check (check_open o probe data_check start r s1)
                  (check_rest o probe data_check start r))))
        (sym (le→leb deadline r.top late)) (_, refl)
  check_loop-Answered deadline (r ∷ rounds) s (inr later) =
      after (check_turn o probe data_check start deadline r s)
        (λ s'. check_loop-Answered deadline rounds s' later)
    where
      after :
          (x : CheckNext)
          → ((s' : Check) → Answered (check_loop o probe data_check start deadline rounds s'))
          → Answered (
              next_checks o probe data_check start
                (check_loop o probe data_check start deadline rounds)
                x)
      after (proceed s') ih = ih s'
      after (answer out s') ih = (_, refl)

  -- The check of a gateway ends once a round finds the clock at its deadline, or past it, whatever the
  -- gateway does; it neither panics nor hangs, and a success means that the request was opened, that a
  -- 200 came on its stream, and, with the data check on, that two packets of the stream came.
  pub verify_masque-Means :
      (timeout : ℕ) (first : List (List ℕ × Bool)) (first_fails : Bool) (rounds : List VerifyRound)
      → Expired (start + timeout) rounds
      → (out : Outcome AetherError ℕ) × (verify_masque o probe data_check start timeout first
            first_fails rounds
          ≡ some out)
        × Means o data_check rounds out
  unfolding verify_masque begin_check Answered
  verify_masque-Means timeout first first_fails rounds expired =
      begun (flush_connected first first_fails (begin_check start))
        (flush_connected-Quiet first first_fails (begin_check start) (refl, refl, refl, refl))
    where
      begun :
          (x : CheckNext)
          → Quiet x
          → (out : Outcome AetherError ℕ) × (next_checks o probe data_check start
                (check_loop o probe data_check start (start + timeout) rounds)
                x
              ≡ some out)
            × Means o data_check rounds out
      begun (proceed s) h =
          let (out, e) = check_loop-Answered (start + timeout) rounds s expired in
          (out, e, check_loop-Means (start + timeout) rounds s out h e)
      begun (answer out s) (x, failed) =
          (out, refl, subst (Means o data_check rounds) (sym failed) tt)
