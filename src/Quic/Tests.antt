-- ===== src/Quic/Tests.antt =====
-- Runs of the QUIC tunnel's loop and of the check of a gateway, and their theorems at concrete inputs.
use aether_gui.Common.{
  ℕ, ◌≡◌, refl, inl, inr, true, false, Option, none, some, List, [], ◌∷◌, ◌++◌, arith,
}
use aether_gui.Common.Outcome.{Outcome, ok}
use aether_gui.Error.{AetherError}
use aether_gui.Net.{v4, SocketAddr}
use aether_gui.Octets.Wire.{octets, octets-IsOctets}
use aether_gui.Masque.{decode_ip_datagram, encode_ip_datagram, quarter_stream_id, varint_len}
use aether_gui.H2.{Settings}
use aether_gui.Quic.Connection.{
  packet_of, send_packet, Link, Flushed, flush_loop, headers, drain_datagrams, poll_h3, on_poll,
  drain_loop_datagrams,
}
use aether_gui.Quic.Run.{
  QuicEvent, timer, probe_tick, QuicRound, run_quic, quic_loop, quic_turn, after_event,
  open_request, at_closed, on_quic_event, begin_link,
}
use aether_gui.Quic.Soundness.{IsSound, run_quic-IsSound}
use aether_gui.Quic.Deadline.{Settled, run_quic-Settled}
use aether_gui.Quic.Framing.{Arrival, Handed, drain_datagrams-Handed}
use aether_gui.Quic.Verify.{
  check_loop, check_turn, flush_connected, begin_check, on_statuses, poll_loop, count_loop,
  statuses, slept, VerifyRound, verify_masque, status_ok,
}
use aether_gui.Quic.Verify.Answer.{Means, verify_masque-Means}

abbrev settings : Settings
settings = record {
  data_check = true;
  validation = 10_000;
  keepalive_timeout = 20_000;
  probe_packet = 69 ∷ 0 ∷ [];
}

abbrev local : SocketAddr
local = record { ip = v4 (0 ∷ 0 ∷ 0 ∷ 0 ∷ []); port = 40_000 }

abbrev nothing_written : Flushed
nothing_written = record { writes = []; fails = false }

-- A round of an open connection, on the request's stream 0, with the datagrams that it drains.
abbrev round_at : ℕ → QuicEvent → List (Option (List ℕ)) → QuicRound
round_at now event datagrams = record {
  top = now;
  event = event;
  established = true;
  opened = inr 0;
  opened_at = now;
  polls = headers ∷ [];
  datagrams = datagrams;
  inbound_open = true;
  flushed = nothing_written;
  closed = false;
  retry_configs = none;
  reconnected = none;
  reflushed = nothing_written;
}

abbrev answer : Option (List ℕ)
answer = some (0 ∷ 0 ∷ 69 ∷ 7 ∷ [])

-- The request goes out, the probe is sent, and two answers come.
abbrev rounds : List QuicRound
rounds =
    round_at 1_000 timer []
    ∷ round_at 1_700 probe_tick (answer ∷ [])
    ∷ round_at 1_900 timer (answer ∷ answer ∷ [])
    ∷ []

run_quic-IsSound_example :
    IsSound true true (run_quic octets settings true local none nothing_written rounds).0.core
run_quic-IsSound_example = run_quic-IsSound true octets settings local none nothing_written rounds

-- The tunnel behind the round in which the request goes out.
abbrev requested : Link
requested =
    (run_quic octets settings true local none nothing_written (round_at 1_000 timer [] ∷ [])).0

run_quic-Settled_example : Settled (
    run_quic octets settings true local none nothing_written
      ((round_at 1_000 timer [] ∷ []) ++ (round_at 11_000 timer [] ∷ [])))
unfolding run_quic quic_loop quic_turn after_event open_request at_closed on_quic_event begin_link
    flush_loop poll_h3 on_poll drain_datagrams drain_loop_datagrams
run_quic-Settled_example =
    run_quic-Settled octets settings octets-IsOctets true local none nothing_written
      (round_at 1_000 timer [] ∷ []) (round_at 11_000 timer [] ∷ []) requested 11_000 refl refl refl
      (inl (omega arith))

abbrev arrivals : List Arrival
arrivals =
    record { stream = 0; packet = 69 ∷ 7 ∷ [] }
    ∷ record { stream = 8; packet = 69 ∷ 8 ∷ [] }
    ∷ record { stream = 0; packet = 69 ∷ 9 ∷ [] }
    ∷ []

abbrev given : List (Option (List ℕ))
given = answer ∷ some (2 ∷ 0 ∷ 69 ∷ 8 ∷ []) ∷ some (0 ∷ 0 ∷ 69 ∷ 9 ∷ []) ∷ []

drain_datagrams-Handed_example :
    Handed octets octets-IsOctets
      ((69 ∷ 7 ∷ []) ∷ (69 ∷ 9 ∷ []) ∷ [])
      (false, begin_link true local none)
      (drain_datagrams octets (some 0) true given (begin_link true local none))
unfolding encode_ip_datagram quarter_stream_id varint_len
drain_datagrams-Handed_example =
    drain_datagrams-Handed octets octets-IsOctets 0 arrivals given (begin_link true local none)
      ((omega arith, refl, (omega arith, refl, (omega arith, refl, tt))))

abbrev check_round : ℕ → List (Option (List ℕ)) → VerifyRound
check_round now datagrams = record {
  top = now;
  woken = slept;
  handled = now;
  established = true;
  opened = some 0;
  polls = statuses 0 (status_ok ∷ []) ∷ [];
  datagrams = datagrams;
  writes = [];
  write_fails = false;
  closed = false;
}

abbrev check_rounds : List VerifyRound
check_rounds =
    check_round 100 (answer ∷ []) ∷ check_round 200 (answer ∷ []) ∷ check_round 9_000 [] ∷ []

verify_masque-Means_example :
    (out : Outcome AetherError ℕ) × (verify_masque octets
        (69 ∷ 0 ∷ [])
        true
        50
        6_000
        []
        false
        check_rounds
      ≡ some out)
    × Means octets true check_rounds out
verify_masque-Means_example =
    verify_masque-Means octets (69 ∷ 0 ∷ []) true 50 6_000 [] false check_rounds
      (inr (inr (inl (omega arith))))

-- The second answer makes the tunnel ready, and both are handed on.
ready_run : (run_quic octets settings true local none nothing_written rounds).0.core.signals ≡ 1
unfolding run_quic quic_loop quic_turn after_event open_request at_closed on_quic_event begin_link
    flush_loop poll_h3 on_poll drain_datagrams drain_loop_datagrams packet_of send_packet
    encode_ip_datagram decode_ip_datagram quarter_stream_id varint_len
ready_run = refl

verify_masque_run :
    verify_masque octets (69 ∷ 0 ∷ []) true 50 6_000 [] false check_rounds ≡ some (ok 150)
unfolding verify_masque check_loop check_turn flush_connected begin_check on_statuses poll_loop
    count_loop packet_of encode_ip_datagram decode_ip_datagram quarter_stream_id varint_len
verify_masque_run = refl
