-- ===== src/Quic/Verify/Counting.antt =====
-- What the loops inside a round of `verify_masque` of aether/src/quic.rs earn.
use aether_gui.Common.{
  ℕ, ◌+◌, ◌≤◌, ◌≡◌, refl, sym, ◌∙◌, subst, Bool, true, false, ◌||◌, not, Option, none, some, List,
  [], ◌∷◌, arith, leb, ◌==◌, if◌then◌else◌, leb→le, if_known,
}
use aether_gui.Common.Outcome.{Outcome, ok, err, panic, stuck}
use aether_gui.Error.{AetherError}
use aether_gui.Octets.{Octets}
use aether_gui.Common.Text.{same}
use aether_gui.H2.{data_probe_required_successes}
use aether_gui.Masque.{encode_ip_datagram}
use aether_gui.Quic.Connection.{packet_of}
use aether_gui.Quic.Verify.Earning.{
  any_ok, granted, one_if, packets_in, or_left, or_right, if_of, Open, Earns, and_check-Earns,
}
use aether_gui.Quic.Verify.{
  VerifyPoll, statuses, other_event, poll_error, Check, CheckNext, proceed, answer, status_ok,
  send_probe_framed, send_probe, on_statuses, poll_loop, count_packet, count_loop,
}

zero_plus : (n : ℕ) → 0 + n ≡ n
zero_plus n = omega arith

module _ (o : Octets) (probe : List ℕ) (data_check : Bool) (start : ℕ) (sid : ℕ) where
  -- Sending a probe changes none of what counts.
  abbrev pub Same : Check → Check → Type 0
  Same s' s =
      (s'.req_stream ≡ s.req_stream)
      × (s'.h3_conn ≡ s.h3_conn)
      × (s'.connect_ip_ok ≡ s.connect_ip_ok)
      × (s'.probe_successes ≡ s.probe_successes)

  pub send_probe-Same :
      (now : ℕ) (s : Check) → Same (send_probe o probe data_check start sid now s) s
  send_probe-Same now s = framed (encode_ip_datagram o sid probe)
    where
      framed :
          (x : Outcome AetherError (List ℕ))
          → Same (record (send_probe_framed o probe data_check start x s) { last_probe = now }) s
      framed (ok bytes) = (refl, refl, refl, refl)
      framed (err e) = (refl, refl, refl, refl)
      framed panic = (refl, refl, refl, refl)
      framed stuck = (refl, refl, refl, refl)

  pub Open-Same : (s' s : Check) → Same s' s → Open data_check sid s → Open data_check sid s'
  Open-Same s' s same (req, h3) = (same.0 ∙ req, same.1 ∙ h3)

  pub proceed-Earns :
      (s : Check) (g : Bool) → Open data_check sid s → Earns data_check sid s g 0 (proceed s)
  proceed-Earns s g open_ = (open_, kept s.connect_ip_ok, omega arith)
    where
      kept : (b : Bool) → if b then b || g ≡ true else Unit
      kept true = refl
      kept false = tt

  on_statuses-Earns :
      (now : ℕ) (values : List (List ℕ)) (s : Check)
      → Open data_check sid s
      → Earns data_check sid s
          (any_ok values)
          0
          (on_statuses o probe data_check start sid now values s)
  unfolding on_statuses
  on_statuses-Earns now [] s open_ = proceed-Earns s false open_
  on_statuses-Earns now (value ∷ values) s open_ =
      if_known (Earns data_check sid s (any_ok (value ∷ values)) 0) (same value status_ok) _ _
        (λ e.
          if_known (Earns data_check sid s (any_ok (value ∷ values)) 0) (not data_check) _ _
            (λ off. (
              or_right s.connect_ip_ok _ (or_left (same value status_ok) (any_ok values) e),
              unchecked off,
            ))
            (λ _.
              onward e (on_statuses o probe data_check start sid now values s')
                (on_statuses-Earns now values s' (Open-Same s' s1 probed open_))))
        (λ _. tt)
    where
      s1 : Check
      s1 = record s { connect_ip_ok = true }

      s' : Check
      s' = send_probe o probe data_check start sid now s1

      probed : Same s' s1
      probed = send_probe-Same now s1

      unchecked :
          not data_check ≡ true
          → if data_check then data_probe_required_successes ≤ s.probe_successes + 0 else Unit
      unchecked off = ground arith

      onward :
          same value status_ok ≡ true
          → (x : CheckNext) → Earns data_check sid s' (any_ok values) 0 x
          → Earns data_check sid s (any_ok (value ∷ values)) 0 x
      onward e (answer (ok elapsed) s'') (h, k) = (
        or_right s.connect_ip_ok _ (or_left (same value status_ok) (any_ok values) e),
        subst (λ m. if data_check then data_probe_required_successes ≤ m + 0 else Unit) probed.3 k,
      )
      onward e (answer (err x) s'') h = tt
      onward e (answer panic s'') h = h
      onward e (answer stuck s'') h = h
      onward e (proceed s'') (o', h, k) = (
        o',
        if_of s''.connect_ip_ok (s.connect_ip_ok || any_ok (value ∷ values) ≡ true)
            (or_right s.connect_ip_ok _ (or_left (same value status_ok) (any_ok values) e)),
        subst (λ m. s''.probe_successes ≤ m + 0) probed.3 k,
      )

  pub poll_loop-Earns :
      (now : ℕ) (polls : List VerifyPoll) (s : Check)
      → Open data_check sid s
      → Earns data_check sid s
          (granted sid polls)
          0
          (poll_loop o probe data_check start sid now polls s)
  unfolding poll_loop
  poll_loop-Earns now [] s open_ = proceed-Earns s false open_
  poll_loop-Earns now (statuses stream_id values ∷ polls) s open_ =
      and_check-Earns data_check sid s (if stream_id == sid then any_ok values else false)
        (granted sid polls) 0 0
        (if stream_id == sid
          then on_statuses o probe data_check start sid now values s
          else proceed s)
        (poll_loop o probe data_check start sid now polls) (ours (stream_id == sid))
        (λ s' open'. poll_loop-Earns now polls s' open')
    where
      ours :
          (b : Bool)
          → Earns data_check sid s
              (if b then any_ok values else false)
              0
              (if b then on_statuses o probe data_check start sid now values s else proceed s)
      ours true = on_statuses-Earns now values s open_
      ours false = proceed-Earns s false open_
  poll_loop-Earns now (other_event ∷ polls) s open_ = poll_loop-Earns now polls s open_
  poll_loop-Earns now (poll_error ∷ polls) s open_ = tt

  pub count_loop-Earns :
      (now : ℕ) (answers : List (Option (List ℕ))) (s : Check)
      → s.connect_ip_ok ≡ true
      → Open data_check sid s
      → Earns data_check sid s false
          (packets_in o sid answers)
          (count_loop o probe data_check start sid now answers s)
  unfolding count_loop
  count_loop-Earns now [] s granted_ open_ = proceed-Earns s false open_
  count_loop-Earns now (none ∷ answers) s granted_ open_ = proceed-Earns s false open_
  count_loop-Earns now (some bytes ∷ answers) s granted_ open_ =
      counted (packet_of o sid bytes) (λ s' g' o'. count_loop-Earns now answers s' g' o')
    where
      s1 : Check
      s1 = record s { probe_successes = s.probe_successes + 1 }

      s' : Check
      s' = send_probe o probe data_check start sid now s1

      probed : Same s' s1
      probed = send_probe-Same now s1

      shifted :
          (x : CheckNext)
          → Earns data_check sid s' false (packets_in o sid answers) x
          → Earns data_check sid s false (1 + packets_in o sid answers) x
      shifted (answer (ok elapsed) s'') (h, k) =
          (subst (λ b. b || false ≡ true) probed.2 h, enough data_check k)
        where
          enough :
              (check : Bool)
              → (if check
                  then data_probe_required_successes ≤ s'.probe_successes + packets_in o sid answers
                  else Unit)
              → if check
                then data_probe_required_successes
                  ≤ s.probe_successes + (1 + packets_in o sid answers)
                else Unit
          enough true k' = omega (arith, probed.3)
          enough false k' = tt
      shifted (answer (err x) s'') h = tt
      shifted (answer panic s'') h = h
      shifted (answer stuck s'') h = h
      shifted (proceed s'') (o', h, k) = (
        o',
        subst (λ b. if s''.connect_ip_ok then b || false ≡ true else Unit) probed.2 h,
        omega (arith, probed.3),
      )

      counted :
          (found : Option (List ℕ))
          → ((t : Check)
              → t.connect_ip_ok ≡ true
              → Open data_check sid t
              → Earns data_check sid t false
                  (packets_in o sid answers)
                  (count_loop o probe data_check start sid now answers t))
          → Earns data_check sid s false (one_if found + packets_in o sid answers) (
              count_packet o probe data_check start sid now found s
                (count_loop o probe data_check start sid now answers))
      counted none ih =
          subst
            (λ m.
              Earns data_check sid s false m
                (count_loop o probe data_check start sid now answers s))
            (sym (zero_plus (packets_in o sid answers))) (ih s granted_ open_)
      counted (some pkt) ih =
          if_known (Earns data_check sid s false (1 + packets_in o sid answers))
            (leb data_probe_required_successes (s.probe_successes + 1)) _ _
            (λ e.
              (or_left s.connect_ip_ok false granted_, if_of data_check _ (reached (leb→le _ _ e))))
            (λ _.
              shifted (count_loop o probe data_check start sid now answers s')
                (ih s' (probed.2 ∙ granted_) (Open-Same s' s1 probed open_)))
        where
          reached :
              data_probe_required_successes ≤ s.probe_successes + 1
              → data_probe_required_successes ≤ s.probe_successes + (1 + packets_in o sid answers)
          reached h = omega arith
