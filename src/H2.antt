-- ===== src/H2.antt =====
-- The loop of the HTTP/2 tunnel, `run` of aether/src/masque_h2.rs: the validation of the data plane
-- before the proxy is exposed, the keepalive, and the traffic. Times are milliseconds.
pub mod Kept
pub mod Validation
pub mod Trips
pub mod Deadline
mod Tests
use aether_gui.Common.{
  ℕ, zero, suc, ◌+◌, ◌-◌, ◌*◌, ◌/◌, ◌%◌, ◌^◌, ◌≤◌, ◌<◌, ◌≡◌, refl, sym, ap, ◌∙◌, subst, ◌≢◌, ◌↔◌,
  ◌⊎◌, inl, inr, Bool, true, false, ◌&&◌, ◌||◌, not, Option, none, some, List, [], ◌∷◌, ◌++◌, map,
  append-nil, append_assoc, arith, bit_and, min, max, length, get_elem?, take, drop, replicate, All,
  length-append, length-take, length-drop, take-append-drop, drop-nil, drop-add, drop-length_append,
  take-length_append, take-length, drop-length, take-append_le, drop-append_le, get_elem?-add,
  get_elem?-lt, get_elem?-drop, get_elem?-drop_zero, drop-step, get_elem?-All, All-append, ltb, leb,
  ◌==◌, if◌then◌else◌, ltb→lt, lt→ltb, le→ltb, ltb→le, leb→le, le→leb, lt→leb, if_both, ==_iff,
  ==_refl, Bool-cases, Option-cases,
}
use aether_gui.Common.Outcome.{
  Outcome, ok, err, panic, stuck, Absent, absent, ◌>>=◌, ◌>>◌, guard, of_index, or_err, index,
  checked_add, Ensures, Ensures-bind, Ensures-weaken, Ensures-if, get_elem?-some, index-Ensures,
  index-Ensures-All, guard-Ensures,
}
use aether_gui.Common.Bytes.{IsByte, IsBytes, u16_be, be16, be32}
use aether_gui.Common.Text.{trim, parse_uint, same, lower}
use aether_gui.Error.{AetherError}
use aether_gui.Octets.{Octets}
use aether_gui.Masque.{encode_datagram_capsule, push}
use aether_gui.Tunnel.{AssignedAddr, Drained, drain_capsules}

-- `parse`, `filter(|&v| v > 0)` and `unwrap_or`, on a variable that may be missing.
abbrev pub positive_or : ℕ → Option ℕ → ℕ
positive_or d none = d
positive_or d (some v) = if ltb 0 v then v else d

abbrev pub seconds_of : ℕ → Option (List ℕ) → ℕ
seconds_of d none = d
seconds_of d (some text) = positive_or d (parse_uint (2 ^ 64) text)

unfoldable pub validation_timeout : Option (List ℕ) → ℕ
validation_timeout var = 1000 * seconds_of 10 var

unfoldable pub h2_keepalive_interval : Option (List ℕ) → ℕ
h2_keepalive_interval var = 1000 * seconds_of 15 var

unfoldable pub h2_keepalive_timeout : Option (List ℕ) → ℕ
h2_keepalive_timeout var = 1000 * seconds_of 20 var

unfoldable pub data_check_enabled : Option (List ℕ) → Bool
data_check_enabled none = true
data_check_enabled (some text) = false

-- "1", "true", "h2", "yes" and "on".
abbrev pub is_switch : List ℕ → Bool
is_switch v =
    same v (49 ∷ [])
    || same v (116 ∷ 114 ∷ 117 ∷ 101 ∷ [])
    || same v (104 ∷ 50 ∷ [])
    || same v (121 ∷ 101 ∷ 115 ∷ [])
    || same v (111 ∷ 110 ∷ [])

unfoldable pub enabled : Option (List ℕ) → Bool
enabled none = false
enabled (some v) = is_switch (map lower (trim v))

abbrev pub data_probe_required_successes : ℕ
data_probe_required_successes = 2

pub record Settings : Type 0 where
  pub data_check : Bool
  pub validation : ℕ
  pub keepalive_timeout : ℕ
  pub probe_packet : List ℕ

-- The variables of the loop, and what it did: the frames sent on the stream, the packets and addresses
-- handed on, how often `ready_tx` was sent, and whether the stream was ended from this side.
pub record Tunnel : Type 0 where
  pub ready_tx : Bool
  pub ready_fired : Bool
  pub validate_successes : ℕ
  pub validate_deadline : Option ℕ
  pub awaiting_pong : Bool
  pub pong_deadline : Option ℕ
  pub buf : List ℕ
  pub frames : List (List ℕ)
  pub inbound : List (List ℕ)
  pub addresses : List AssignedAddr
  pub signals : ℕ
  pub end_stream : Bool

-- The variables as `run` declares them.
unfoldable pub begin_vars : Bool → Tunnel
begin_vars wanted = record {
  ready_tx = wanted;
  ready_fired = false;
  validate_successes = 0;
  validate_deadline = none;
  awaiting_pong = false;
  pong_deadline = none;
  buf = [];
  frames = [];
  inbound = [];
  addresses = [];
  signals = 0;
  end_stream = false;
}

pub data Control : Type 0 where
  close migrate : Control

-- What the select delivers. `ping`, `probe` and `outbound` carry whether the send succeeds; a chunk
-- carries whether the receiver of packets is there and whether a follow-up probe is sent.
pub data TunnelEvent : Type 0 where
  ping : Bool → TunnelEvent
  pong : Bool → TunnelEvent
  probe : Bool → TunnelEvent
  control : Option Control → TunnelEvent
  outbound : Option (List ℕ) → Bool → TunnelEvent
  chunk : List ℕ → Bool → Bool → TunnelEvent
  body_failed : TunnelEvent
  body_ended : TunnelEvent

pub record TunnelRound : Type 0 where
  pub top : ℕ
  pub event : TunnelEvent
  pub handled : ℕ

pub data Next : Type 0 where
  go : Tunnel → Next
  stop : Outcome AetherError (Unit {0}) → Tunnel → Next

-- `ready_tx.take()` and the send on it.
abbrev pub fire : Tunnel → Tunnel
fire s = record s {
  ready_fired = true;
  ready_tx = false;
  signals = if s.ready_tx then s.signals + 1 else s.signals;
}

-- `send_stream.send_data(Bytes::new(), true)`
abbrev pub finish_stream : Tunnel → Tunnel
finish_stream s = record s { end_stream = true }

-- `if let Some(dl) = deadline { if now >= dl .. }`
abbrev pub passed : Option ℕ → ℕ → Bool
passed none now = false
passed (some dl) now = leb dl now

module _ (o : Octets) (cfg : Settings) where
  abbrev pub framed : List ℕ → Bool → Tunnel → Tunnel
  framed pkt goes s =
      if goes then record s { frames = s.frames ++ (encode_datagram_capsule o pkt ∷ []) } else s

  -- The lines before the loop, at the clock `now`; `goes` is whether the first probe is sent.
  unfoldable pub begin_loop : ℕ → Bool → Tunnel → Tunnel
  begin_loop now goes s =
      if cfg.data_check
      then record (framed cfg.probe_packet goes s) {
        validate_deadline = some (now + cfg.validation);
      }
      else if not s.ready_fired
      then fire s
      else s

  unfoldable pub on_ping : ℕ → Bool → Tunnel → Next
  on_ping now true s =
      go (record s { awaiting_pong = true; pong_deadline = some (now + cfg.keepalive_timeout) })
  on_ping now false s = go s

  unfoldable pub on_pong : Bool → Tunnel → Next
  on_pong true s = go (record s { awaiting_pong = false; pong_deadline = none })
  on_pong false s = stop (err AetherError.masque) (finish_stream s)

  unfoldable pub on_control : Option Control → Tunnel → Next
  on_control none s = stop (ok tt) (finish_stream s)
  on_control (some close) s = stop (ok tt) (finish_stream s)
  on_control (some migrate) s = go s

  unfoldable pub on_outbound : Option (List ℕ) → Bool → Tunnel → Next
  on_outbound none goes s = stop (ok tt) (finish_stream s)
  on_outbound (some pkt) true s = go (framed pkt true s)
  on_outbound (some pkt) false s = stop (err AetherError.masque) s

  -- The round trip that a chunk confirms: the tunnel is ready after the second.
  unfoldable pub confirm : Bool → Tunnel → Tunnel
  confirm goes s =
      let s' = record s { validate_successes = s.validate_successes + 1 } in
      if leb data_probe_required_successes s'.validate_successes
      then fire (record s' { validate_deadline = none })
      else framed cfg.probe_packet goes s'

  abbrev pub take_in : Tunnel → Drained → Tunnel
  take_in s d = record s {
    buf = d.buf;
    inbound = s.inbound ++ d.packets;
    addresses = s.addresses ++ d.addresses;
  }

  unfoldable pub on_drained : Bool → Tunnel → Outcome Absent Drained → Next
  unfolding confirm
  on_drained goes s (ok d) =
      go (if d.delivered && not s.ready_fired then confirm goes (take_in s d) else take_in s d)
  on_drained goes s (err e) = stop (err AetherError.masque) s
  on_drained goes s panic = stop panic s
  on_drained goes s stuck = stop stuck s

  -- A branch of the select that its guard disables does not happen: such an event changes nothing.
  unfoldable pub on_event : ℕ → TunnelEvent → Tunnel → Next
  on_event now (ping sent) s =
      if s.ready_fired && not s.awaiting_pong then on_ping now sent s else go s
  on_event now (pong answered) s = if s.awaiting_pong then on_pong answered s else go s
  on_event now (probe goes) s =
      if cfg.data_check && not s.ready_fired then go (framed cfg.probe_packet goes s) else go s
  on_event now (control c) s = on_control c s
  on_event now (outbound pkt goes) s = on_outbound pkt goes s
  on_event now (chunk bytes open_ goes) s =
      on_drained goes s (drain_capsules o open_ (push s.buf bytes))
  on_event now body_failed s = stop (err AetherError.masque) s
  on_event now body_ended s = stop (ok tt) s

  -- The body of the loop: the two deadlines, and the event.
  unfoldable pub turn : TunnelRound → Tunnel → Next
  turn r s =
      if cfg.data_check && not s.ready_fired && passed s.validate_deadline r.top
      then stop (err AetherError.masque) (finish_stream s)
      else if passed s.pong_deadline r.top
      then stop (err AetherError.masque) (finish_stream s)
      else on_event r.handled r.event s

  abbrev pub next_rounds :
      (Tunnel → Tunnel × Option (Outcome AetherError (Unit {0})))
      → Next
      → Tunnel × Option (Outcome AetherError (Unit {0}))
  next_rounds rest (go s) = rest s
  next_rounds rest (stop result s) = (s, some result)

  -- The loop over a schedule; `none` means that the schedule ends before the loop does.
  unfoldable pub run_loop :
      List TunnelRound → Tunnel → Tunnel × Option (Outcome AetherError (Unit {0}))
  run_loop [] s = (s, none)
  run_loop (r ∷ rounds) s = next_rounds (run_loop rounds) (turn r s)
