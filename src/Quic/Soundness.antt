-- ===== src/Quic/Soundness.antt =====
-- The validation of the data plane in `run` of aether/src/quic.rs: what stays true of its variables.
use aether_gui.Common.{
  ℕ, ◌+◌, ◌≤◌, ◌<◌, ◌≡◌, refl, sym, subst, inl, inr, Bool, true, false, not, Option, none, some,
  List, arith, leb, if◌then◌else◌, leb→le, if_known, Bool-cases,
}
use aether_gui.Common.Outcome.{}
use aether_gui.Common.{leb-false, then_part, else_part}
use aether_gui.Net.{SocketAddr}
use aether_gui.Octets.{Octets}
use aether_gui.H2.{Settings, data_probe_required_successes}
use aether_gui.Quic.Connection.{Readiness, Flushed, flush}
use aether_gui.Quic.Run.{
  QuicRound, begin_link, fire_ready, opened_core, confirm_core, quic_loop, run_quic,
}
use aether_gui.Quic.Core.{Kept, flush_loop-AllNext, quic_loop-kept, next_quic_rounds-kept}

-- `ready_tx` is sent once when the tunnel is ready, if it was passed, and not before.
abbrev pub Signalled : Bool → Readiness → Type 0
Signalled wanted c =
    if c.ready_fired
    then (c.ready_tx ≡ false) × (c.signals ≡ (if wanted then 1 else 0))
    else (c.ready_tx ≡ wanted) × (c.signals ≡ 0)

abbrev Fresh : Readiness → Type 0
Fresh c =
    (c.req_stream ≡ none)
    × (c.validate_deadline ≡ none)
    × (c.validate_successes ≡ 0)
    × (c.ready_fired ≡ false)

abbrev Asking : Readiness → Type 0
Asking c = (c.established_ever ≡ true) × ((sid : ℕ) × (c.req_stream ≡ some sid))

-- Without an HTTP/3 connection there is no request, no deadline, no success, and the tunnel is not
-- ready; with one the request has a stream.
abbrev pub Opened : Readiness → Type 0
Opened c = if c.h3_conn then Asking c else Fresh c

abbrev Pending : Bool → Readiness → Type 0
Pending check c =
    (check ≡ true)
    × ((dl : ℕ) × (c.validate_deadline ≡ some dl))
    × (c.validate_successes < data_probe_required_successes)

-- With the data check on, the tunnel is ready only after two confirmed round trips, and between the
-- request and then a deadline runs.
abbrev pub Validated : Bool → Readiness → Type 0
Validated check c =
    if c.ready_fired
    then (c.validate_deadline ≡ none)
      × (if check then data_probe_required_successes ≤ c.validate_successes else Unit)
    else (if c.h3_conn then Pending check c else Unit)

-- A deadline that runs shows that the connection is open.
pub deadline_open :
    (c : Readiness) (due : ℕ)
    → c.validate_deadline ≡ some due
    → Opened c
    → (c.established_ever ≡ true) × (c.h3_conn ≡ true)
deadline_open c due e h = elim (Bool-cases c.h3_conn) [
  | inl open_ ↦ ((then_part (Asking c) (Fresh c) c.h3_conn open_ h).0, open_)
  | inr closed ↦ absurd (clash (else_part (Asking c) (Fresh c) c.h3_conn closed h).1)
]
  where
    clash : c.validate_deadline ≡ none → ⊥
    clash e' = cc

pub record IsSound (wanted check : Bool) (c : Readiness) : Type 0 where
  pub signalled : Signalled wanted c
  pub opened : Opened c
  pub validated : Validated check c

module _ (wanted : Bool) where
  -- `fire_ready` sends on `ready_tx` when it is there, and takes it.
  Signalled-fire_ready :
      (c : Readiness) → c.ready_fired ≡ false → Signalled wanted c → Signalled wanted (fire_ready c)
  Signalled-fire_ready c e h =
      let (tx, none_yet) =
        else_part _ ((c.ready_tx ≡ wanted) × (c.signals ≡ 0)) c.ready_fired e h in
      (refl, counted c.ready_tx c.signals wanted tx none_yet)
    where
      counted :
          (tx : Bool) (n : ℕ) (w : Bool)
          → tx ≡ w
          → n ≡ 0
          → (if tx then n + 1 else n) ≡ (if w then 1 else 0)
      counted true n true e' z = omega arith
      counted false n false e' z = z
      counted true n false e' z = cc
      counted false n true e' z = cc

  module _ (o : Octets) (cfg : Settings) where
    opened_core-IsSound :
        (sid now : ℕ) (c : Readiness)
        → c.h3_conn ≡ false
        → IsSound wanted cfg.data_check c
        → IsSound wanted cfg.data_check (opened_core o cfg sid now c)
    opened_core-IsSound sid now c closed h =
        if_known (IsSound wanted cfg.data_check) cfg.data_check _ _
          (λ check. record {
            signalled = h.signalled;
            opened = (refl, (sid, refl));
            validated = validating check;
          })
          (λ check.
            if_known (IsSound wanted cfg.data_check) (not c.ready_fired) _ _
              (λ _. record {
                signalled = Signalled-fire_ready c unready h.signalled;
                opened = (refl, (sid, refl));
                validated = (fresh.1, rw check tt);
              })
              (λ ready. absurd (clash ready)))
      where
        fresh : Fresh c
        fresh = else_part (Asking c) (Fresh c) c.h3_conn closed h.opened

        unready : c.ready_fired ≡ false
        unready = fresh.3

        clash : not c.ready_fired ≡ false → ⊥
        clash ready = ground arith

        validating :
            cfg.data_check ≡ true
            → Validated cfg.data_check (record c {
              established_ever = true;
              h3_conn = true;
              req_stream = some sid;
              validate_deadline = some (now + cfg.validation);
            })
        validating check = rw unready (check, (now + cfg.validation, refl), omega (arith, fresh.2))

    -- A request that is out shows that the connection is open.
    asking_open :
        (c : Readiness) → ((sid : ℕ) × (c.req_stream ≡ some sid)) → Opened c → c.h3_conn ≡ true
    asking_open c (sid, e) h = elim (Bool-cases c.h3_conn) [
      | inl open_ ↦ open_
      | inr closed ↦ absurd (clash (else_part (Asking c) (Fresh c) c.h3_conn closed h).0)
    ]
      where
        clash : c.req_stream ≡ none → ⊥
        clash e' = cc

    confirm_core-IsSound :
        (c : Readiness)
        → c.ready_fired ≡ false
        → ((sid : ℕ) × (c.req_stream ≡ some sid))
        → IsSound wanted cfg.data_check c
        → IsSound wanted cfg.data_check (confirm_core o cfg c)
    confirm_core-IsSound c unready asked h =
        if_known (IsSound wanted cfg.data_check)
          (leb data_probe_required_successes (c.validate_successes + 1)) _ _
          (λ enough. record {
            signalled = Signalled-fire_ready c unready h.signalled;
            opened = opened (λ s. s) (λ fresh. absurd (clash fresh));
            validated = (refl, checked cfg.data_check (leb→le _ _ enough));
          })
          (λ few. record {
            signalled = h.signalled;
            opened = opened (λ s. s) (λ fresh. absurd (clash fresh));
            validated = counting (leb-false _ _ few);
          })
      where
        is_open : c.h3_conn ≡ true
        is_open = asking_open c asked h.opened

        clash : Fresh c → ⊥
        clash fresh = cc (fresh.0, asked.1)

        opened :
            {B : Type 0}
            → (Asking c → Asking c)
            → (Fresh c → B)
            → (if c.h3_conn then Asking c else B)
        opened {B} f g =
            subst (λ b. if b then Asking c else B) (sym is_open)
              (then_part (Asking c) (Fresh c) c.h3_conn is_open h.opened)

        checked :
            (check : Bool)
            → data_probe_required_successes ≤ c.validate_successes + 1
            → if check then data_probe_required_successes ≤ c.validate_successes + 1 else Unit
        checked true enough = enough
        checked false enough = tt

        pending : Pending cfg.data_check c
        pending = then_part (Pending cfg.data_check c) Unit c.h3_conn is_open (
            else_part
              ((c.validate_deadline ≡ none)
                × (if cfg.data_check
                    then data_probe_required_successes ≤ c.validate_successes
                    else Unit))
              (if c.h3_conn then Pending cfg.data_check c else Unit) c.ready_fired unready
              h.validated)

        counting :
            c.validate_successes + 1 < data_probe_required_successes
            → Validated cfg.data_check (record c { validate_successes = c.validate_successes + 1 })
        counting few = rw unready (rw is_open (pending.0, pending.1, few))

    reconnect-IsSound :
        (c : Readiness)
        → c.established_ever ≡ false
        → IsSound wanted cfg.data_check c
        → IsSound wanted cfg.data_check (record c { h3_conn = false; req_stream = none })
    reconnect-IsSound c never h = record {
      signalled = h.signalled;
      opened = (refl, fresh.1, fresh.2, fresh.3);
      validated = rw fresh.3 tt;
    }
      where
        closed : c.h3_conn ≡ false
        closed = elim (Bool-cases c.h3_conn) [
          | inl open_ ↦ absurd (clash (then_part (Asking c) (Fresh c) c.h3_conn open_ h.opened).0)
          | inr e ↦ e
        ]
          where
            clash : c.established_ever ≡ true → ⊥
            clash ever = cc

        fresh : Fresh c
        fresh = else_part (Asking c) (Fresh c) c.h3_conn closed h.opened

    fails-IsSound :
        (c : Readiness)
        → IsSound wanted cfg.data_check c
        → IsSound wanted cfg.data_check (record c { established_ever = true })
    fails-IsSound c h = record { signalled = h.signalled; opened = opened; validated = h.validated }
      where
        opened : Opened (record c { established_ever = true })
        opened = elim (Bool-cases c.h3_conn) [
          | inl open_ ↦ rw open_ (refl, (then_part (Asking c) (Fresh c) c.h3_conn open_ h.opened).1)
          | inr closed ↦ rw closed (else_part (Asking c) (Fresh c) c.h3_conn closed h.opened)
        ]

    pub IsSound-Kept : Kept cfg o (IsSound wanted cfg.data_check)
    IsSound-Kept = record {
      opens = opened_core-IsSound;
      fails = fails-IsSound;
      confirms = confirm_core-IsSound;
      reconnects = reconnect-IsSound;
    }

    begin_link-IsSound :
        (local : SocketAddr) (ech : Option (List ℕ))
        → IsSound wanted cfg.data_check (begin_link wanted local ech).core
    unfolding begin_link
    begin_link-IsSound local ech = record {
      signalled = (refl, refl);
      opened = (refl, refl, refl, refl);
      validated = tt;
    }

    -- However the edge, the program and the clock behave, the variables of the tunnel stay sound:
    -- `ready_tx` is sent at most once, when it was passed, and only then is the tunnel ready; with the
    -- data check on, that is after two confirmed round trips, and from the request until then a deadline
    -- runs; without an open HTTP/3 connection there is no request, no deadline and no success.
    pub run_quic-IsSound :
        (local : SocketAddr) (ech : Option (List ℕ)) (first : Flushed) (rounds : List QuicRound)
        → IsSound wanted cfg.data_check (run_quic o cfg wanted local ech first rounds).0.core
    unfolding run_quic
    run_quic-IsSound local ech first rounds =
        next_quic_rounds-kept o cfg (IsSound wanted cfg.data_check) IsSound-Kept
          (quic_loop o cfg rounds) (flush first (begin_link wanted local ech))
          (flush_loop-AllNext (IsSound wanted cfg.data_check) first.writes first.fails
            (begin_link wanted local ech) (begin_link-IsSound local ech))
          (λ s h. quic_loop-kept o cfg (IsSound wanted cfg.data_check) IsSound-Kept rounds s h)
