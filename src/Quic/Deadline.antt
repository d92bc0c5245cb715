-- ===== src/Quic/Deadline.antt =====
-- The deadline of the validation in `run` of aether/src/quic.rs.
use aether_gui.Common.{
  ℕ, ◌+◌, ◌≤◌, ◌≡◌, refl, sym, ap, ◌∙◌, subst, ◌⊎◌, inl, inr, Bool, true, false, ◌&&◌, not, Option,
  none, some, List, [], ◌∷◌, ◌++◌, leb, if◌then◌else◌, le→leb, if_both, Bool-cases,
}
use aether_gui.Common.Outcome.{Outcome, err}
use aether_gui.Common.{else_part}
use aether_gui.Error.{AetherError}
use aether_gui.Net.{SocketAddr}
use aether_gui.Octets.{Octets, IsOctets}
use aether_gui.Quic.Returning.{IsReturn, Returns, quic_turn-Returns}
use aether_gui.H2.{Settings, passed, data_probe_required_successes}
use aether_gui.Quic.Connection.{
  validation_timeout, conn_close, Readiness, Link, Next, go, stop, call, Flushed, flush,
}
use aether_gui.Quic.Run.{
  QuicRound, on_quic_event, after_event, begin_link, opened_core, confirm_core, quic_turn,
  next_quic_rounds, quic_loop, run_quic,
}
use aether_gui.Quic.Core.{AllNext, Kept, quic_turn-AllNext, quic_loop-kept}
use aether_gui.Quic.Soundness.{IsSound, run_quic-IsSound, deadline_open}

-- Some round finds the clock at the deadline or past it.
abbrev pub Late : ℕ → List QuicRound → Type 0
Late due [] = ⊥
Late due (r ∷ rounds) = (due ≤ r.top) ⊎ Late due rounds

-- `run` returned, with a value or an error, or the tunnel is ready.
abbrev pub Settled : Link × Option (Outcome AetherError (Unit {0})) → Type 0
Settled (s, result) =
    (s.core.ready_fired ≡ true)
    ⊎ ((out : Outcome AetherError (Unit {0})) × (result ≡ some out) × IsReturn out)

abbrev Ready : Readiness → Type 0
Ready c = c.ready_fired ≡ true

-- While the tunnel is not ready, the deadline stands and the connection is the one it was set for.
abbrev Standing : ℕ → Readiness → Type 0
Standing due c = (c.validate_deadline ≡ some due) × (c.established_ever ≡ true) × (c.h3_conn ≡ true)

abbrev Due : ℕ → Readiness → Type 0
Due due c = if c.ready_fired then Unit else Standing due c

module _ (o : Octets) (cfg : Settings) where
  opened_core-Ready : (sid now : ℕ) (c : Readiness) → Ready c → Ready (opened_core o cfg sid now c)
  opened_core-Ready sid now c h =
      if_both Ready cfg.data_check _ _ h (if_both Ready (not c.ready_fired) _ _ refl h)

  confirm_core-Ready : (c : Readiness) → Ready c → Ready (confirm_core o cfg c)
  confirm_core-Ready c h =
      if_both Ready (leb data_probe_required_successes (c.validate_successes + 1)) _ _ refl h

  Ready-Kept : Kept cfg o Ready
  Ready-Kept = record {
    opens = λ sid now c _ h. opened_core-Ready sid now c h;
    fails = λ c h. h;
    confirms = λ c _ _ h. confirm_core-Ready c h;
    reconnects = λ c _ h. h;
  }

  Ready-Due : (due : ℕ) (c : Readiness) → Ready c → Due due c
  Ready-Due due c h = rw h tt

  -- A statement that holds unless the tunnel is ready.
  Due-carried :
      (due : ℕ) (c c' : Readiness)
      → (Ready c → Due due c')
      → (c.ready_fired ≡ false → Standing due c → Due due c')
      → Due due c
      → Due due c'
  Due-carried due c c' ready unready h = elim (Bool-cases c.ready_fired) [
    | inl e ↦ ready e
    | inr e ↦ unready e (else_part Unit (Standing due c) c.ready_fired e h)
  ]

  Due-Kept : (due : ℕ) → Kept cfg o (Due due)
  Due-Kept due = record {
    opens = λ sid now c closed h.
        Due-carried due c (opened_core o cfg sid now c)
          (λ e. Ready-Due due (opened_core o cfg sid now c) (opened_core-Ready sid now c e))
          (λ _ k. absurd (clash c.h3_conn closed k.2)) h;
    fails = λ c h. failed c h;
    confirms = λ c e _ h. confirmed c e h;
    reconnects = λ c never h.
        Due-carried due c (record c { h3_conn = false; req_stream = none })
          (λ e. Ready-Due due (record c { h3_conn = false; req_stream = none }) e)
          (λ _ k. absurd (clash c.established_ever never k.1)) h;
  }
    where
      clash : (b : Bool) → b ≡ false → b ≡ true → ⊥
      clash b e e' = cc

      failed : (c : Readiness) → Due due c → Due due (record c { established_ever = true })
      failed c h =
          Due-carried due c (record c { established_ever = true })
            (λ e. Ready-Due due (record c { established_ever = true }) e)
            (λ e k. rw e (k.0, refl, k.2)) h

      confirmed :
          (c : Readiness) → c.ready_fired ≡ false → Due due c → Due due (confirm_core o cfg c)
      confirmed c e h =
          if_both (Due due) (leb data_probe_required_successes (c.validate_successes + 1)) _ _ tt
            (rw e (else_part Unit (Standing due c) c.ready_fired e h))

  module _ (laws : IsOctets o) (due : ℕ) (checks : cfg.data_check ≡ true) where
    -- While the tunnel is not ready, a round that finds the clock past the deadline ends the loop.
    quic_turn-late :
        (r : QuicRound) (s : Link)
        → Due due s.core
        → s.core.ready_fired ≡ false
        → due ≤ r.top
        → quic_turn o cfg r s
          ≡ stop (err AetherError.masque) (call (conn_close validation_timeout) s)
    unfolding quic_turn
    quic_turn-late r s h e late =
        ap
          (λ b.
            if b
            then stop (err AetherError.masque) (call (conn_close validation_timeout) s)
            else after_event o cfg r (on_quic_event o cfg r.event s))
          over
      where
        over :
            cfg.data_check && not s.core.ready_fired && passed s.core.validate_deadline r.top ≡ true
        over =
            ap (λ c. c && not s.core.ready_fired && passed s.core.validate_deadline r.top) checks
            ∙ ap (λ b. not b && passed s.core.validate_deadline r.top) e
            ∙ ap (λ d. passed d r.top)
                (else_part Unit (Standing due s.core) s.core.ready_fired e h).0
            ∙ le→leb _ _ late

    quic_loop-Settled :
        (rounds : List QuicRound) (s : Link)
        → Due due s.core
        → Late due rounds
        → Settled (quic_loop o cfg rounds s)
    unfolding quic_loop
    quic_loop-Settled [] s h late = absurd late
    quic_loop-Settled (r ∷ rounds) s h (inl late) = elim (Bool-cases s.core.ready_fired) [
      | inl e ↦ inl (quic_loop-kept o cfg Ready Ready-Kept (r ∷ rounds) s e)
      | inr e ↦
          subst (λ x. Settled (next_quic_rounds o cfg (quic_loop o cfg rounds) x))
            (sym (quic_turn-late r s h e late)) (inr (_, refl, tt))
    ]
    quic_loop-Settled (r ∷ rounds) s h (inr later) =
        after (quic_turn o cfg r s) (quic_turn-AllNext o cfg (Due due) (Due-Kept due) r s h)
          (quic_turn-Returns o laws cfg r s) (λ s' h'. quic_loop-Settled rounds s' h' later)
      where
        after :
            (x : Next)
            → AllNext (Due due) x
            → Returns x
            → ((s' : Link) → Due due s'.core → Settled (quic_loop o cfg rounds s'))
            → Settled (next_quic_rounds o cfg (quic_loop o cfg rounds) x)
        after (go s') h' ends ih = ih s' h'
        after (stop result s') h' ends ih = inr (result, refl, ends)

  quic_loop-append :
      (before rounds : List QuicRound) (s s' : Link)
      → quic_loop o cfg before s ≡ (s', none)
      → quic_loop o cfg (before ++ rounds) s ≡ quic_loop o cfg rounds s'
  unfolding quic_loop
  quic_loop-append [] rounds s s' e =
      ap (λ (p : Link × Option (Outcome AetherError (Unit {0}))). quic_loop o cfg rounds p.0) e
  quic_loop-append (r ∷ before) rounds s s' e =
      after (quic_turn o cfg r s) e (λ s'' e'. quic_loop-append before rounds s'' s' e')
    where
      after :
          (x : Next)
          → next_quic_rounds o cfg (quic_loop o cfg before) x ≡ (s', none)
          → ((s'' : Link)
              → quic_loop o cfg before s'' ≡ (s', none)
              → quic_loop o cfg (before ++ rounds) s'' ≡ quic_loop o cfg rounds s')
          → next_quic_rounds o cfg (quic_loop o cfg (before ++ rounds)) x
            ≡ quic_loop o cfg rounds s'
      after (go s'') e' ih = ih s'' e'
      after (stop result s'') e' ih = cc

  run_quic-append :
      (wanted : Bool) (local : SocketAddr) (ech : Option (List ℕ)) (first : Flushed)
      (before rounds : List QuicRound) (s : Link)
      → run_quic o cfg wanted local ech first before ≡ (s, none)
      → run_quic o cfg wanted local ech first (before ++ rounds) ≡ quic_loop o cfg rounds s
  unfolding run_quic
  run_quic-append wanted local ech first before rounds s e =
      after (flush first (begin_link wanted local ech)) e
    where
      after :
          (x : Next)
          → next_quic_rounds o cfg (quic_loop o cfg before) x ≡ (s, none)
          → next_quic_rounds o cfg (quic_loop o cfg (before ++ rounds)) x ≡ quic_loop o cfg rounds s
      after (go s') e' = quic_loop-append before rounds s' s e'
      after (stop result s') e' = cc

  -- When the loop has set the deadline of the validation, the edge cannot hold the tunnel: whatever it
  -- does, once a later round finds the clock at that deadline, or past it, `run` has returned,
  -- with a value or an error, or the tunnel is ready.
  pub run_quic-Settled :
      (laws : IsOctets o) (wanted : Bool) (local : SocketAddr) (ech : Option (List ℕ))
      (first : Flushed) (before rounds : List QuicRound) (s : Link) (due : ℕ)
      → cfg.data_check ≡ true
      → run_quic o cfg wanted local ech first before ≡ (s, none)
      → s.core.validate_deadline ≡ some due
      → Late due rounds
      → Settled (run_quic o cfg wanted local ech first (before ++ rounds))
  run_quic-Settled laws wanted local ech first before rounds s due checks e deadline late =
      subst Settled (sym (run_quic-append wanted local ech first before rounds s e))
        (quic_loop-Settled laws due checks rounds s standing late)
    where
      sound : IsSound wanted cfg.data_check s.core
      sound =
          subst
            (λ (p : Link × Option (Outcome AetherError (Unit {0}))).
              IsSound wanted cfg.data_check p.0.core)
            e (run_quic-IsSound wanted o cfg local ech first before)

      standing : Due due s.core
      standing = elim (Bool-cases s.core.ready_fired) [
        | inl ready ↦ Ready-Due due s.core ready
        | inr unready ↦
            let (ever, is_open) = deadline_open s.core due deadline sound.opened in
            rw unready (deadline, ever, is_open)
      ]
