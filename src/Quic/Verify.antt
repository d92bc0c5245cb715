-- ===== src/Quic/Verify.antt =====
-- The check of a gateway, `verify_masque` of aether/src/quic.rs, from its loop on. A round gives the
-- clock at its top, what wakes the select, what quiche and the socket answer, and the clock when the
-- answers are handled.
pub mod Earning
pub mod Counting
pub mod Rounds
pub mod Answer
use aether_gui.Common.{
  ℕ, zero, suc, ◌+◌, ◌-◌, ◌*◌, ◌/◌, ◌%◌, ◌^◌, ◌≤◌, ◌<◌, ◌≡◌, refl, sym, ap, ◌∙◌, subst, ◌≢◌, ◌↔◌,
  ◌⊎◌, inl, inr, Bool, true, false, ◌&&◌, ◌||◌, not, Option, none, some, List, [], ◌∷◌, ◌++◌, map,
  append-nil, append_assoc, arith, bit_and, bit_or, min, max, length, get_elem?, take, drop,
  replicate, All, length-append, length-take, length-drop, take-append-drop, drop-nil, drop-add,
  drop-length_append, take-length_append, take-length, drop-length, take-append_le, drop-append_le,
  get_elem?-add, get_elem?-lt, get_elem?-drop, get_elem?-drop_zero, drop-step, get_elem?-All,
  All-append, ltb, leb, ◌==◌, if◌then◌else◌, ltb→lt, lt→ltb, le→ltb, ltb→le, leb→le, le→leb, lt→leb,
  if_both, if_known, ==_iff, ==_refl, Bool-cases, Option-cases,
}
use aether_gui.Common.Outcome.{
  Outcome, ok, err, panic, stuck, Absent, absent, ◌>>=◌, ◌>>◌, guard, of_index, or_err, index,
  checked_add, Ensures, Ensures-bind, Ensures-weaken, Ensures-if, get_elem?-some, index-Ensures,
  index-Ensures-All, guard-Ensures,
}
use aether_gui.Common.Bytes.{IsByte, IsBytes, u16_be, be16, be32}
use aether_gui.Error.{AetherError}
use aether_gui.Octets.{Octets}
use aether_gui.Common.Text.{same}
use aether_gui.H2.{data_probe_required_successes}
use aether_gui.Masque.{encode_ip_datagram}
use aether_gui.Quic.Connection.{
  QuicCall, dgram_send, conn_recv, on_timeout, send_request, packet_of,
}

-- What `h3c.poll` gives; for headers, the stream and the values of `:status`.
pub data VerifyPoll : Type 0 where
  statuses : ℕ → List (List ℕ) → VerifyPoll
  other_event : VerifyPoll
  poll_error : VerifyPoll

pub data Woken : Type 0 where
  received : List ℕ → Woken
  recv_failed : Woken
  slept : Woken

pub record VerifyRound : Type 0 where
  pub top : ℕ
  pub woken : Woken
  pub handled : ℕ
  pub established : Bool
  pub opened : Option ℕ
  pub polls : List VerifyPoll
  pub datagrams : List (Option (List ℕ))
  pub writes : List (List ℕ × Bool)
  pub write_fails : Bool
  pub closed : Bool

pub record Check : Type 0 where
  pub h3_conn : Bool
  pub req_stream : Option ℕ
  pub connect_ip_ok : Bool
  pub last_probe : ℕ
  pub probe_successes : ℕ
  pub calls : List QuicCall
  pub wire : List (List ℕ)

pub data CheckNext : Type 0 where
  proceed : Check → CheckNext
  answer : Outcome AetherError ℕ → Check → CheckNext

abbrev pub and_check : CheckNext → (Check → CheckNext) → CheckNext
and_check (proceed s) f = f s
and_check (answer out s) f = answer out s

abbrev pub log_call : QuicCall → Check → Check
log_call c s = record s { calls = s.calls ++ (c ∷ []) }

-- "200"
abbrev pub status_ok : List ℕ
status_ok = 50 ∷ 48 ∷ 48 ∷ []

-- The variables at the loop, at the clock `now`, behind the first flush.
unfoldable pub begin_check : ℕ → Check
begin_check now = record {
  h3_conn = false;
  req_stream = none;
  connect_ip_ok = false;
  last_probe = now;
  probe_successes = 0;
  calls = [];
  wire = [];
}

unfoldable pub flush_connected : List (List ℕ × Bool) → Bool → Check → CheckNext
flush_connected [] fails s = if fails then answer (err AetherError.quic) s else proceed s
flush_connected ((bytes, taken) ∷ writes) fails s =
    let rest = flush_connected writes fails (record s { wire = s.wire ++ (bytes ∷ []) }) in
    if taken then rest else answer (err AetherError.io) s

module _ (o : Octets) (probe : List ℕ) (data_check : Bool) (start : ℕ) where
  abbrev pub send_probe_framed : Outcome AetherError (List ℕ) → Check → Check
  send_probe_framed (ok framed) s = log_call (dgram_send framed) s
  send_probe_framed (err e) s = s
  send_probe_framed panic s = s
  send_probe_framed stuck s = s

  -- The probe, sent at the clock `now`.
  abbrev pub send_probe : ℕ → ℕ → Check → Check
  send_probe sid now s = record (send_probe_framed (encode_ip_datagram o sid probe) s) {
    last_probe = now;
  }

  unfoldable pub on_statuses : ℕ → ℕ → List (List ℕ) → Check → CheckNext
  on_statuses sid now [] s = proceed s
  on_statuses sid now (value ∷ values) s =
      let rest =
        on_statuses sid now values (send_probe sid now (record s { connect_ip_ok = true })) in
      if same value status_ok
      then (if not data_check then answer (ok (now - start)) s else rest)
      else answer (err AetherError.other) s

  -- The answers up to `Done`.
  unfoldable pub poll_loop : ℕ → ℕ → List VerifyPoll → Check → CheckNext
  poll_loop sid now [] s = proceed s
  poll_loop sid now (statuses stream_id values ∷ polls) s =
      and_check (if stream_id == sid then on_statuses sid now values s else proceed s)
        (poll_loop sid now polls)
  poll_loop sid now (other_event ∷ polls) s = poll_loop sid now polls s
  poll_loop sid now (poll_error ∷ polls) s = answer (err AetherError.h3) s

  abbrev pub count_packet : ℕ → ℕ → Option (List ℕ) → Check → (Check → CheckNext) → CheckNext
  count_packet sid now none s again = again s
  count_packet sid now (some pkt) s again =
      let s' = record s { probe_successes = s.probe_successes + 1 } in
      if leb data_probe_required_successes s'.probe_successes
      then answer (ok (now - start)) s'
      else again (send_probe sid now s')

  -- `none` is an error of `dgram_recv`, which ends the loop as `Done` does.
  unfoldable pub count_loop : ℕ → ℕ → List (Option (List ℕ)) → Check → CheckNext
  count_loop sid now [] s = proceed s
  count_loop sid now (none ∷ answers) s = proceed s
  count_loop sid now (some bytes ∷ answers) s =
      count_packet sid now (packet_of o sid bytes) s (count_loop sid now answers)

  -- The resend of the probe, 700 ms after the last, and the drain.
  abbrev pub probe_link : ℕ → VerifyRound → Check → CheckNext
  probe_link sid r s =
      if s.connect_ip_ok
      then count_loop sid r.handled r.datagrams
          (if leb 700 (r.handled - s.last_probe) then send_probe sid r.handled s else s)
      else proceed s

  abbrev pub on_woken : Woken → Check → CheckNext
  on_woken (received bytes) s = proceed (log_call (conn_recv bytes) s)
  on_woken recv_failed s = answer (err AetherError.io) s
  on_woken slept s = proceed (log_call on_timeout s)

  abbrev pub sent_request : Option ℕ → Check → CheckNext
  sent_request none s = answer (err AetherError.h3) s
  sent_request (some sid) s =
      proceed (log_call send_request (record s { req_stream = some sid; h3_conn = true }))

  abbrev pub with_stream : VerifyRound → Option ℕ → Check → CheckNext
  with_stream r none s = proceed s
  with_stream r (some sid) s = and_check (poll_loop sid r.handled r.polls s) (probe_link sid r)

  abbrev pub end_check : VerifyRound → Check → CheckNext
  end_check r s = if r.closed then answer (err AetherError.other) s else proceed s

  -- What follows the opening of the request.
  abbrev pub check_rest : VerifyRound → Check → CheckNext
  check_rest r s =
      and_check (with_stream r s.req_stream s)
        λ s'. and_check (flush_connected r.writes r.write_fails s') (end_check r)

  abbrev pub check_open : VerifyRound → Check → CheckNext
  check_open r s = if r.established && not s.h3_conn then sent_request r.opened s else proceed s

  unfoldable pub check_turn : ℕ → VerifyRound → Check → CheckNext
  check_turn deadline r s =
      if leb deadline r.top
      then answer (err AetherError.other) s
      else and_check (on_woken r.woken s) λ s1. and_check (check_open r s1) (check_rest r)

  abbrev pub next_checks :
      (Check → Option (Outcome AetherError ℕ)) → CheckNext → Option (Outcome AetherError ℕ)
  next_checks rest (proceed s) = rest s
  next_checks rest (answer out s) = some out

  -- `none` means that the schedule ends before the loop does.
  unfoldable pub check_loop : ℕ → List VerifyRound → Check → Option (Outcome AetherError ℕ)
  check_loop deadline [] s = none
  check_loop deadline (r ∷ rounds) s =
      next_checks (check_loop deadline rounds) (check_turn deadline r s)

  -- The first flush, and the loop; the clock starts before the signature packets.
  unfoldable pub verify_masque :
      ℕ → List (List ℕ × Bool) → Bool → List VerifyRound → Option (Outcome AetherError ℕ)
  verify_masque timeout first first_fails rounds =
      next_checks (check_loop (start + timeout) rounds)
        (flush_connected first first_fails (begin_check start))
