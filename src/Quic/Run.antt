-- ===== src/Quic/Run.antt =====
-- The loop of `run` of aether/src/quic.rs. A schedule of rounds gives what the select delivers and what
-- quiche and the sockets answer in the round. Times are milliseconds.
use aether_gui.Common.{
  ◌⊎◌, inl, inr, ℕ, ◌+◌, Bool, true, false, ◌&&◌, not, Option, none, some, List, [], ◌∷◌, leb,
  if◌then◌else◌,
}
use aether_gui.Common.Outcome.{Outcome, ok, err}
use aether_gui.Error.{AetherError}
use aether_gui.Net.{SocketAddr}
use aether_gui.Octets.{Octets}
use aether_gui.H2.{Settings, Control, close, migrate, passed, data_probe_required_successes}
use aether_gui.Quic.Connection.{
  validation_timeout, bye, eof, send_ack_eliciting, conn_recv, conn_close, on_timeout, send_request,
  connect_with, Readiness, Link, Next, go, stop, and_then, call, Flushed, flush, Migration,
  do_migrate, Poll, poll_h3, drain_datagrams, send_packet,
}

-- What the select delivers; a keepalive carries whether the connection is established.
pub data QuicEvent : Type 0 where
  keepalive : Bool → QuicEvent
  probe_tick : QuicEvent
  packet : List ℕ → QuicEvent
  control : Option Control → Migration → QuicEvent
  outbound : Option (List ℕ) → QuicEvent
  timer : QuicEvent

pub record QuicRound : Type 0 where
  pub top : ℕ
  pub event : QuicEvent
  pub established : Bool
  pub opened : AetherError ⊎ ℕ
  pub opened_at : ℕ
  pub polls : List Poll
  pub datagrams : List (Option (List ℕ))
  pub inbound_open : Bool
  pub flushed : Flushed
  pub closed : Bool
  pub retry_configs : Option (List ℕ)
  pub reconnected : Option AetherError
  pub reflushed : Flushed

-- The variables as `run` declares them, behind the set-up of the first connection.
unfoldable pub begin_link : Bool → SocketAddr → Option (List ℕ) → Link
begin_link wanted local ech = record {
  core = record {
    ready_tx = wanted;
    ready_fired = false;
    validate_deadline = none;
    validate_successes = 0;
    h3_conn = false;
    req_stream = none;
    established_ever = false;
    signals = 0;
  };
  ech_retried = false;
  current_ech = ech;
  capsules = [];
  sockets = local ∷ [];
  calls = connect_with ech ∷ [];
  wire = [];
  inbound = [];
  addresses = [];
}

-- `ready_fired = true` and the send on `ready_tx`, if it is still there.
abbrev pub fire_ready : Readiness → Readiness
fire_ready c = record c {
  ready_fired = true;
  ready_tx = false;
  signals = if c.ready_tx then c.signals + 1 else c.signals;
}

abbrev pub is_some {ℓ} : {A : Type ℓ} → Option A → Bool
is_some none = false
is_some (some a) = true

module _ (o : Octets) (cfg : Settings) where
  -- A branch of the select that its guard disables does not happen: such an event changes nothing.
  unfoldable pub on_quic_event : QuicEvent → Link → Link
  on_quic_event (keepalive established) s = if established then call send_ack_eliciting s else s
  on_quic_event probe_tick s =
      if cfg.data_check && not s.core.ready_fired
      then send_packet o s.core.req_stream cfg.probe_packet s
      else s
  on_quic_event (packet bytes) s = call (conn_recv bytes) s
  on_quic_event (control (some migrate) m) s = do_migrate m s
  on_quic_event (control (some close) m) s = call (conn_close bye) s
  on_quic_event (control none m) s = call (conn_close bye) s
  on_quic_event (outbound (some pkt)) s = send_packet o s.core.req_stream pkt s
  on_quic_event (outbound none) s = call (conn_close eof) s
  on_quic_event timer s = call on_timeout s

  -- The variables when the request is sent.
  abbrev pub opened_core : ℕ → ℕ → Readiness → Readiness
  opened_core sid now c =
      let c' = record c { established_ever = true; h3_conn = true; req_stream = some sid } in
      if cfg.data_check
      then record c' { validate_deadline = some (now + cfg.validation) }
      else if not c'.ready_fired
      then fire_ready c'
      else c'

  abbrev pub on_opened : ℕ → AetherError ⊎ ℕ → Link → Next
  on_opened now (inr sid) s =
      go (call send_request (record s { core = opened_core sid now s.core }))
  on_opened now (inl e) s =
      stop (err e) (record s { core = record s.core { established_ever = true } })

  unfoldable pub open_request : QuicRound → Link → Next
  open_request r s =
      if r.established && not s.core.h3_conn then on_opened r.opened_at r.opened s else go s

  abbrev pub poll_stream : Bool → Option ℕ → List Poll → Link → Next
  poll_stream false sid polls s = go s
  poll_stream true none polls s = go s
  poll_stream true (some sid) polls s = poll_h3 o sid polls s

  -- The round trip that the datagrams of a round confirm.
  abbrev pub confirm_core : Readiness → Readiness
  confirm_core c =
      let c' = record c { validate_successes = c.validate_successes + 1 } in
      if leb data_probe_required_successes c'.validate_successes
      then fire_ready (record c' { validate_deadline = none })
      else c'

  abbrev pub confirm_link : Bool × Link → Link
  confirm_link (got_data, s) =
      if got_data && not s.core.ready_fired then record s { core = confirm_core s.core } else s

  -- The second connection of an ECH retry, on the variables behind it.
  abbrev pub reconnected_with : QuicRound → List ℕ → Link → Option AetherError → Next
  reconnected_with r retry s none = flush r.reflushed (
      call (connect_with (some retry)) (record s {
        ech_retried = true;
        current_ech = some retry;
        core = record s.core { h3_conn = false; req_stream = none };
        capsules = [];
      }))
  reconnected_with r retry s (some e) =
      stop (err e) (record s { ech_retried = true; current_ech = some retry })

  abbrev pub reconnect : QuicRound → List ℕ → Link → Next
  reconnect r retry s = reconnected_with r retry s r.reconnected

  abbrev pub retry_or_end : QuicRound → Option (List ℕ) → Link → Next
  retry_or_end r none s = stop (ok tt) s
  retry_or_end r (some retry) s = reconnect r retry s

  unfoldable pub at_closed : QuicRound → Link → Next
  at_closed r s =
      if r.closed
      then (if not s.core.established_ever && not s.ech_retried && is_some s.current_ech
          then retry_or_end r r.retry_configs s
          else stop (ok tt) s)
      else go s

  -- What follows the select.
  unfoldable pub after_event : QuicRound → Link → Next
  after_event r s = and_then (open_request r s) λ s1.
      and_then (poll_stream s1.core.h3_conn s1.core.req_stream r.polls s1) λ s2.
        and_then
          (flush r.flushed
            (confirm_link (drain_datagrams o s2.core.req_stream r.inbound_open r.datagrams s2)))
          (at_closed r)

  unfoldable pub quic_turn : QuicRound → Link → Next
  quic_turn r s =
      if cfg.data_check && not s.core.ready_fired && passed s.core.validate_deadline r.top
      then stop (err AetherError.masque) (call (conn_close validation_timeout) s)
      else after_event r (on_quic_event r.event s)

  abbrev pub next_quic_rounds :
      (Link → Link × Option (Outcome AetherError (Unit {0})))
      → Next
      → Link × Option (Outcome AetherError (Unit {0}))
  next_quic_rounds rest (go s) = rest s
  next_quic_rounds rest (stop result s) = (s, some result)

  -- The loop over a schedule; `none` means that the schedule ends before the loop does.
  unfoldable pub quic_loop : List QuicRound → Link → Link × Option (Outcome AetherError (Unit {0}))
  quic_loop [] s = (s, none)
  quic_loop (r ∷ rounds) s = next_quic_rounds (quic_loop rounds) (quic_turn r s)

  -- The flush before the loop, and the loop.
  unfoldable pub run_quic :
      Bool
      → SocketAddr
      → Option (List ℕ)
      → Flushed
      → List QuicRound
      → Link × Option (Outcome AetherError (Unit {0}))
  run_quic wanted local ech first rounds =
      next_quic_rounds (quic_loop rounds) (flush first (begin_link wanted local ech))
