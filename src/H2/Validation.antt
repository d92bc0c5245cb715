-- ===== src/H2/Validation.antt =====
-- The validation of the data plane in `run` of aether/src/masque_h2.rs: what stays true of its
-- variables, and the deadline.
use aether_gui.Common.{
  leb-false, ℕ, ◌+◌, ◌≤◌, ◌<◌, ◌≡◌, refl, sym, ap, ◌∙◌, subst, Bool, true, false, Option, none,
  some, List, arith, leb, if◌then◌else◌, leb→le, if_known,
}
use aether_gui.Common.Outcome.{}
use aether_gui.Octets.{Octets}
use aether_gui.Tunnel.{Drained}
use aether_gui.H2.Kept.{AllNext, Kept, run_loop-kept}
use aether_gui.H2.{
  Settings, Tunnel, begin_vars, TunnelRound, fire, framed, begin_loop, on_ping, on_pong, confirm,
  take_in, run_loop, data_probe_required_successes, finish_stream,
}

-- `signals` counts the sends on `ready_tx`: none before the tunnel is ready, one after if it was there.
abbrev pub Signalled : Bool → Tunnel → Type 0
Signalled wanted s =
    if s.ready_fired
    then (s.ready_tx ≡ false) × (s.signals ≡ (if wanted then 1 else 0))
    else (s.ready_tx ≡ wanted) × (s.signals ≡ 0)

-- The deadline `due` runs exactly while the data plane is being validated, which ends with the second round
-- trip.
abbrev pub Validated : Bool → ℕ → Bool → Option ℕ → ℕ → Type 0
Validated false due ready deadline successes = (ready ≡ true) × (deadline ≡ none)
Validated true due ready deadline successes =
    if ready
    then (deadline ≡ none) × (data_probe_required_successes ≤ successes)
    else (deadline ≡ some due) × (successes < data_probe_required_successes)

abbrev pub Watched : Tunnel → Type 0
Watched s =
    if s.awaiting_pong
    then (s.ready_fired ≡ true) × ((dl : ℕ) × (s.pong_deadline ≡ some dl))
    else (s.pong_deadline ≡ none)

pub record IsSound (wanted data_check : Bool) (due : ℕ) (s : Tunnel) : Type 0 where
  pub signalled : Signalled wanted s
  pub validated : Validated data_check due s.ready_fired s.validate_deadline s.validate_successes
  pub watched : Watched s

Watched-fire :
    (awaiting : Bool) (fired : Bool) (deadline : Option ℕ)
    → (if awaiting then (fired ≡ true) × ((dl : ℕ) × (deadline ≡ some dl)) else (deadline ≡ none))
    → (if awaiting then (true ≡ true) × ((dl : ℕ) × (deadline ≡ some dl)) else (deadline ≡ none))
Watched-fire true fired deadline h = (refl, h.1)
Watched-fire false fired deadline h = h

-- `fire` sends on `ready_tx` when it is there, and takes it.
Signalled-fire :
    (wanted : Bool) (s : Tunnel)
    → s.ready_fired ≡ false
    → Signalled wanted s
    → Signalled wanted (fire s)
Signalled-fire wanted s e h = (refl, counted s.ready_tx s.signals unready.0 unready.1)
  where
    unready : (s.ready_tx ≡ wanted) × (s.signals ≡ 0)
    unready =
        subst
          (λ b.
            if b
            then (s.ready_tx ≡ false) × (s.signals ≡ (if wanted then 1 else 0))
            else (s.ready_tx ≡ wanted) × (s.signals ≡ 0))
          e h

    counted :
        (tx : Bool) (n : ℕ)
        → tx ≡ wanted
        → n ≡ 0
        → (if tx then n + 1 else n) ≡ (if wanted then 1 else 0)
    counted tx n et en = ap (λ b. if b then n + 1 else n) et ∙ by_wanted wanted
      where
        by_wanted : (b : Bool) → (if b then n + 1 else n) ≡ (if b then 1 else 0)
        by_wanted true = omega arith
        by_wanted false = en

finish_stream-IsSound :
    (wanted check : Bool) (due : ℕ) (s : Tunnel)
    → IsSound wanted check due s
    → IsSound wanted check due (finish_stream s)
finish_stream-IsSound wanted check due s h = record {
  signalled = h.signalled;
  validated = h.validated;
  watched = h.watched;
}

take_in-IsSound :
    (o : Octets) (cfg : Settings) (wanted check : Bool) (due : ℕ) (s : Tunnel) (d : Drained)
    → IsSound wanted check due s
    → IsSound wanted check due (take_in o cfg s d)
take_in-IsSound o cfg wanted check due s d h = record {
  signalled = h.signalled;
  validated = h.validated;
  watched = h.watched;
}

module _ (o : Octets) (cfg : Settings) (wanted : Bool) (due : ℕ) where
  framed-IsSound :
      (check : Bool) (pkt : List ℕ) (goes : Bool) (s : Tunnel)
      → IsSound wanted check due s
      → IsSound wanted check due (framed o cfg pkt goes s)
  framed-IsSound check pkt true s h = record {
    signalled = h.signalled;
    validated = h.validated;
    watched = h.watched;
  }
  framed-IsSound check pkt false s h = h

  on_ping-IsSound :
      (check : Bool) (now : ℕ) (sent : Bool) (s : Tunnel)
      → s.ready_fired ≡ true
      → IsSound wanted check due s
      → AllNext (IsSound wanted check due) (on_ping o cfg now sent s)
  unfolding on_ping
  on_ping-IsSound check now true s e h = record {
    signalled = h.signalled;
    validated = h.validated;
    watched = (e, (_, refl));
  }
  on_ping-IsSound check now false s e h = h

  on_pong-IsSound :
      (check : Bool) (answered : Bool) (s : Tunnel)
      → IsSound wanted check due s
      → AllNext (IsSound wanted check due) (on_pong o cfg answered s)
  unfolding on_pong
  on_pong-IsSound check true s h = record {
    signalled = h.signalled;
    validated = h.validated;
    watched = refl;
  }
  on_pong-IsSound check false s h = finish_stream-IsSound wanted check due s h

  -- With the data check off the tunnel is ready from the start, so no round trip is counted.
  confirm-IsSound :
      (check goes : Bool) (s : Tunnel)
      → s.ready_fired ≡ false
      → IsSound wanted check due s
      → IsSound wanted check due (confirm o cfg goes s)
  unfolding confirm
  confirm-IsSound check goes s e h =
      if_known (IsSound wanted check due)
        (leb data_probe_required_successes (s.validate_successes + 1)) _ _
        (λ enough. record {
          signalled = Signalled-fire wanted s e h.signalled;
          validated = fired check (leb→le _ _ enough);
          watched = Watched-fire s.awaiting_pong s.ready_fired s.pong_deadline h.watched;
        })
        (λ few. framed-IsSound check cfg.probe_packet goes _ (record {
          signalled = h.signalled;
          validated = counted check (leb-false _ _ few) h.validated;
          watched = h.watched;
        }))
    where
      fired :
          (c : Bool)
          → data_probe_required_successes ≤ s.validate_successes + 1
          → Validated c due true none (s.validate_successes + 1)
      fired true enough = (refl, enough)
      fired false enough = (refl, refl)

      counted :
          (c : Bool)
          → s.validate_successes + 1 < data_probe_required_successes
          → Validated c due s.ready_fired s.validate_deadline s.validate_successes
          → Validated c due s.ready_fired s.validate_deadline (s.validate_successes + 1)
      counted true few v =
          subst
            (λ b.
              if b
                then (s.validate_deadline ≡ none)
                  × (data_probe_required_successes ≤ s.validate_successes)
                else (s.validate_deadline ≡ some due)
                  × (s.validate_successes < data_probe_required_successes)
              → Validated true due b s.validate_deadline (s.validate_successes + 1))
            (sym e) (λ pending. (pending.0, few)) v
      counted false few v = v

  pub IsSound-Kept : Kept o cfg (IsSound wanted cfg.data_check due)
  IsSound-Kept = record {
    sends = framed-IsSound cfg.data_check;
    takes = λ d s. take_in-IsSound o cfg wanted cfg.data_check due s d;
    finishes = finish_stream-IsSound wanted cfg.data_check due;
    pings = on_ping-IsSound cfg.data_check;
    pongs = on_pong-IsSound cfg.data_check;
    confirms = confirm-IsSound cfg.data_check;
  }

abbrev pending : Octets → Settings → Bool → ℕ → Bool → Tunnel
pending o cfg wanted due goes = record (framed o cfg cfg.probe_packet goes (begin_vars wanted)) {
  validate_deadline = some due;
}

pub begin_loop-IsSound :
    (o : Octets) (cfg : Settings) (wanted : Bool) (now : ℕ) (goes : Bool)
    → IsSound wanted cfg.data_check
        (now + cfg.validation)
        (begin_loop o cfg now goes (begin_vars wanted))
unfolding begin_loop begin_vars
begin_loop-IsSound o cfg wanted now goes =
    if_known (IsSound wanted cfg.data_check (now + cfg.validation)) cfg.data_check _ _
      (λ e.
        subst
          (λ c.
            IsSound wanted c (now + cfg.validation)
              (pending o cfg wanted (now + cfg.validation) goes))
          (sym e) (checked goes))
      (λ e.
        subst (λ c. IsSound wanted c (now + cfg.validation) (fire (begin_vars wanted))) (sym e)
          unchecked)
  where
    checked :
        (g : Bool)
        → IsSound wanted true (now + cfg.validation) (pending o cfg wanted (now + cfg.validation) g)
    checked true = record {
      signalled = (refl, refl);
      validated = (refl, omega arith);
      watched = refl;
    }
    checked false = record {
      signalled = (refl, refl);
      validated = (refl, omega arith);
      watched = refl;
    }

    unchecked : IsSound wanted false (now + cfg.validation) (fire (begin_vars wanted))
    unchecked = record {
      signalled = Signalled-fire wanted (begin_vars wanted) refl (refl, refl);
      validated = (refl, refl);
      watched = refl;
    }

-- However the events come, the variables of the loop stay sound: `ready_tx` is sent at most once, when
-- it was passed; with the data check on, only after two confirmed round trips, and until then the
-- deadline set at the start stands; a pong is awaited only once the tunnel is ready, and exactly then a
-- deadline for it runs.
pub run_loop-IsSound :
    (o : Octets) (cfg : Settings) (wanted : Bool) (now : ℕ) (goes : Bool)
    (rounds : List TunnelRound)
    → IsSound wanted cfg.data_check
        (now + cfg.validation)
        (run_loop o cfg rounds (begin_loop o cfg now goes (begin_vars wanted))).0
run_loop-IsSound o cfg wanted now goes rounds =
    run_loop-kept o cfg (IsSound wanted cfg.data_check (now + cfg.validation))
      (IsSound-Kept o cfg wanted (now + cfg.validation)) rounds _
      (begin_loop-IsSound o cfg wanted now goes)
