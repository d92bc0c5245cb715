-- ===== src/Quic/Verify/Rounds.antt =====
-- What the rounds of `verify_masque` of aether/src/quic.rs earn once the request is out.
use aether_gui.Common.{
  ℕ, ◌+◌, ◌-◌, ◌≡◌, refl, sym, ap, ◌∙◌, subst, Bool, true, false, ◌&&◌, ◌||◌, not, some, List, [],
  ◌∷◌, ◌++◌, arith, leb, if◌then◌else◌, if_both, if_known,
}
use aether_gui.Common.Outcome.{Outcome}
use aether_gui.Error.{AetherError}
use mathlib.Core.Option.{some-injective}
use aether_gui.Octets.{Octets}
use aether_gui.Quic.Connection.{conn_recv, on_timeout}
use aether_gui.Quic.Verify.Counting.{
  send_probe-Same, Open-Same, proceed-Earns, poll_loop-Earns, count_loop-Earns,
}
use aether_gui.Quic.Verify.Earning.{
  granted, granted_in, packets_in, packets_of, Open, Earned, Earns, Earned-later, Earned-now,
  and_check-Earns, Earns-from,
}
use aether_gui.Quic.Verify.{
  Woken, received, recv_failed, slept, VerifyRound, Check, CheckNext, proceed, answer, and_check,
  flush_connected, send_probe, poll_loop, count_loop, probe_link, log_call, on_woken, sent_request,
  with_stream, end_check, check_rest, check_open, check_turn, next_checks, check_loop,
}

or_false : (b : Bool) → b || false ≡ b
or_false true = refl
or_false false = refl

module _ (o : Octets) (probe : List ℕ) (data_check : Bool) (start : ℕ) where
  module _ (sid : ℕ) where
    -- Statements of the same grant and count.
    Earns-cast :
        (s : Check) (g g' : Bool) (n n' : ℕ) (x : CheckNext)
        → g ≡ g'
        → n ≡ n'
        → Earns data_check sid s g n x
        → Earns data_check sid s g' n' x
    Earns-cast s g g' n n' x e e' h =
        subst (λ b. Earns data_check sid s b n' x) e
          (subst (λ m. Earns data_check sid s g m x) e' h)

    probe_link-Earns :
        (r : VerifyRound) (s : Check)
        → Open data_check sid s
        → Earns data_check sid s false
            (packets_in o sid r.datagrams)
            (probe_link o probe data_check start sid r s)
    probe_link-Earns r s open_ =
        if_known (Earns data_check sid s false (packets_in o sid r.datagrams)) s.connect_ip_ok _ _
          (λ e.
            if_both
              (λ s'.
                Earns data_check sid s false (packets_in o sid r.datagrams)
                  (count_loop o probe data_check start sid r.handled r.datagrams s'))
              (leb 700 (r.handled - s.last_probe)) _ _ (resent e)
              (count_loop-Earns o probe data_check start sid r.handled r.datagrams s e open_))
          (λ _. (open_, kept s.connect_ip_ok, omega arith))
      where
        kept : (b : Bool) → if b then b || false ≡ true else Unit
        kept true = refl
        kept false = tt

        resent :
            s.connect_ip_ok ≡ true
            → Earns data_check sid s false (packets_in o sid r.datagrams) (
                count_loop o probe data_check start sid r.handled r.datagrams
                  (send_probe o probe data_check start sid r.handled s))
        resent e =
            let same_ = send_probe-Same o probe data_check start sid r.handled s in
            Earns-from data_check sid (send_probe o probe data_check start sid r.handled s) s false
              (packets_in o sid r.datagrams)
              (count_loop o probe data_check start sid r.handled r.datagrams
                (send_probe o probe data_check start sid r.handled s))
              same_.2 same_.3
              (count_loop-Earns o probe data_check start sid r.handled r.datagrams
                (send_probe o probe data_check start sid r.handled s) (same_.2 ∙ e)
                (Open-Same o probe data_check start sid
                  (send_probe o probe data_check start sid r.handled s) s same_ open_))

    flush_connected-Earns :
        (writes : List (List ℕ × Bool)) (fails : Bool) (s : Check)
        → Open data_check sid s
        → Earns data_check sid s false 0 (flush_connected writes fails s)
    unfolding flush_connected
    flush_connected-Earns [] fails s open_ =
        if_both (Earns data_check sid s false 0) fails _ _ tt
          (proceed-Earns o probe data_check start sid s false open_)
    flush_connected-Earns ((bytes, taken) ∷ writes) fails s open_ =
        if_both (Earns data_check sid s false 0) taken _ _
          (Earns-from data_check sid (record s { wire = s.wire ++ (bytes ∷ []) }) s false 0 _ refl
            refl
            (flush_connected-Earns writes fails (record s { wire = s.wire ++ (bytes ∷ []) }) open_))
          tt

    pub check_rest-Earns :
        (r : VerifyRound) (s : Check)
        → Open data_check sid s
        → Earns data_check sid s
            (granted sid r.polls)
            (packets_in o sid r.datagrams)
            (check_rest o probe data_check start r s)
    check_rest-Earns r s open_ =
        Earns-cast s ((granted sid r.polls || false) || (false || false)) (granted sid r.polls)
          ((0 + packets_in o sid r.datagrams) + (0 + 0)) (packets_in o sid r.datagrams)
          (check_rest o probe data_check start r s)
          (or_false (granted sid r.polls || false) ∙ or_false (granted sid r.polls)) (omega arith)
          (and_check-Earns data_check sid s (granted sid r.polls || false) (false || false)
            (0 + packets_in o sid r.datagrams) (0 + 0)
            (with_stream o probe data_check start r s.req_stream s) _ streamed
            (λ s' open'.
              and_check-Earns data_check sid s' false false 0 0
                (flush_connected r.writes r.write_fails s') (end_check o probe data_check start r)
                (flush_connected-Earns r.writes r.write_fails s' open')
                (λ s'' open''.
                  if_both (Earns data_check sid s'' false 0) r.closed _ _ tt
                    (proceed-Earns o probe data_check start sid s'' false open''))))
      where
        streamed :
            Earns data_check sid s
              (granted sid r.polls || false)
              (0 + packets_in o sid r.datagrams)
              (with_stream o probe data_check start r s.req_stream s)
        streamed =
            subst
              (λ req.
                Earns data_check sid s (granted sid r.polls || false)
                  (0 + packets_in o sid r.datagrams) (with_stream o probe data_check start r req s))
              (sym open_.0)
              (and_check-Earns data_check sid s (granted sid r.polls) false 0
                (packets_in o sid r.datagrams)
                (poll_loop o probe data_check start sid r.handled r.polls s)
                (probe_link o probe data_check start sid r)
                (poll_loop-Earns o probe data_check start sid r.handled r.polls s open_)
                (λ s' open'. probe_link-Earns r s' open'))

    check_turn-Earns :
        (deadline : ℕ) (r : VerifyRound) (s : Check)
        → Open data_check sid s
        → Earns data_check sid s
            (granted sid r.polls)
            (packets_in o sid r.datagrams)
            (check_turn o probe data_check start deadline r s)
    unfolding check_turn
    check_turn-Earns deadline r s open_ =
        if_both (Earns data_check sid s (granted sid r.polls) (packets_in o sid r.datagrams))
          (leb deadline r.top) _ _ tt (woken r.woken)
      where
        rest : Check → CheckNext
        rest s1 =
            and_check (check_open o probe data_check start r s1)
              (check_rest o probe data_check start r)

        opened :
            (s1 : Check)
            → Open data_check sid s1
            → Earns data_check sid s1 (granted sid r.polls) (packets_in o sid r.datagrams) (rest s1)
        opened s1 open1 =
            subst
              (λ b. Earns data_check sid s1 (granted sid r.polls) (packets_in o sid r.datagrams) (
                and_check
                  (if b then sent_request o probe data_check start r.opened s1 else proceed s1)
                  (check_rest o probe data_check start r)))
              (sym (ap (λ b. r.established && not b) open1.1 ∙ and_false r.established))
              (check_rest-Earns r s1 open1)
          where
            and_false : (b : Bool) → b && false ≡ false
            and_false true = refl
            and_false false = refl

        woken :
            (w : Woken)
            → Earns data_check sid s
                (granted sid r.polls)
                (packets_in o sid r.datagrams)
                (and_check (on_woken o probe data_check start w s) rest)
        woken (received bytes) =
            Earns-from data_check sid (log_call (conn_recv bytes) s) s (granted sid r.polls)
              (packets_in o sid r.datagrams) (rest (log_call (conn_recv bytes) s)) refl refl
              (opened (log_call (conn_recv bytes) s) open_)
        woken recv_failed = tt
        woken slept =
            Earns-from data_check sid (log_call on_timeout s) s (granted sid r.polls)
              (packets_in o sid r.datagrams) (rest (log_call on_timeout s)) refl refl
              (opened (log_call on_timeout s) open_)

    pub check_loop-Earned :
        (deadline : ℕ) (rounds : List VerifyRound) (s : Check) (out : Outcome AetherError ℕ)
        → Open data_check sid s
        → check_loop o probe data_check start deadline rounds s ≡ some out
        → Earned data_check sid s (granted_in sid rounds) (packets_of o sid rounds) out
    unfolding check_loop
    check_loop-Earned deadline [] s out open_ e = cc
    check_loop-Earned deadline (r ∷ rounds) s out open_ e =
        after (check_turn o probe data_check start deadline r s) e
          (check_turn-Earns deadline r s open_)
          (λ s' open' e'. check_loop-Earned deadline rounds s' out open' e')
      where
        after :
            (x : CheckNext)
            → next_checks o probe data_check start
                (check_loop o probe data_check start deadline rounds)
                x
              ≡ some out
            → Earns data_check sid s (granted sid r.polls) (packets_in o sid r.datagrams) x
            → ((s' : Check)
                → Open data_check sid s'
                → check_loop o probe data_check start deadline rounds s' ≡ some out
                → Earned data_check sid s' (granted_in sid rounds) (packets_of o sid rounds) out)
            → Earned data_check sid s
                (granted sid r.polls || granted_in sid rounds)
                (packets_in o sid r.datagrams + packets_of o sid rounds)
                out
        after (proceed s') e' h ih =
            Earned-later data_check sid s s' (granted sid r.polls) (granted_in sid rounds)
              (packets_in o sid r.datagrams) (packets_of o sid rounds) out h (ih s' h.0 e')
        after (answer out' s') e' h ih =
            Earned-now data_check sid s (granted sid r.polls) (granted_in sid rounds)
              (packets_in o sid r.datagrams) (packets_of o sid rounds) out
              (subst
                (λ x.
                  Earned data_check sid s (granted sid r.polls) (packets_in o sid r.datagrams) x)
                (some-injective _ _ e') h)
