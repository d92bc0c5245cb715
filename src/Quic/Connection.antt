-- ===== src/Quic/Connection.antt =====
-- What the tunnel of aether/src/quic.rs does with its connection: the calls of quiche, the sockets, and
-- the loops over what quiche hands out. What quiche and the sockets answer is an argument.
use aether_gui.Common.{
  ℕ, zero, suc, Bool, true, false, ◌&&◌, ◌||◌, Option, none, some, List, [], ◌∷◌, ◌++◌, length,
  ◌==◌, if◌then◌else◌,
}
use aether_gui.Common.Outcome.{Outcome, ok, err, panic, stuck, Absent}
use aether_gui.Error.{AetherError}
use aether_gui.Net.{IpAddr, v4, v6, SocketAddr}
use aether_gui.Common.Text.{same}
use aether_gui.Octets.{Octets}
use aether_gui.Masque.{Capsule, address_assign, next, push, encode_ip_datagram, decode_ip_datagram}
use aether_gui.Tunnel.{AssignedAddr, assigned}

pub data CloseReason : Type 0 where
  validation_timeout bye eof : CloseReason

-- The calls of the connection.
pub data QuicCall : Type 0 where
  send_ack_eliciting : QuicCall
  dgram_send : List ℕ → QuicCall
  conn_recv : List ℕ → QuicCall
  conn_close : CloseReason → QuicCall
  on_timeout : QuicCall
  send_request : QuicCall
  connect_with : Option (List ℕ) → QuicCall
  probe_path : SocketAddr → QuicCall
  migrate_source : SocketAddr → QuicCall

-- A datagram that a socket of the tunnel, named by its local address, sent.
pub record SentOn : Type 0 where
  pub local : SocketAddr
  pub to : SocketAddr
  pub bytes : List ℕ

-- The variables that say how far the tunnel is, and how often `ready_tx` was sent.
pub record Readiness : Type 0 where
  pub ready_tx : Bool
  pub ready_fired : Bool
  pub validate_deadline : Option ℕ
  pub validate_successes : ℕ
  pub h3_conn : Bool
  pub req_stream : Option ℕ
  pub established_ever : Bool
  pub signals : ℕ

-- All the variables of `run`, with what it did. The addresses are those that it logs as assigned by the
-- edge; each of them is also sent on `addr_tx`, if that is there.
pub record Link : Type 0 where
  pub core : Readiness
  pub ech_retried : Bool
  pub current_ech : Option (List ℕ)
  pub capsules : List ℕ
  pub sockets : List SocketAddr
  pub calls : List QuicCall
  pub wire : List SentOn
  pub inbound : List (List ℕ)
  pub addresses : List AssignedAddr

-- A stretch of the loop's body goes on, or `run` returns.
pub data Next : Type 0 where
  go : Link → Next
  stop : Outcome AetherError (Unit {0}) → Link → Next

abbrev pub and_then : Next → (Link → Next) → Next
and_then (go s) f = f s
and_then (stop result s) f = stop result s

abbrev pub call : QuicCall → Link → Link
call c s = record s { calls = s.calls ++ (c ∷ []) }

abbrev same_ip : IpAddr → IpAddr → Bool
same_ip (v4 a) (v4 b) = same a b
same_ip (v4 a) (v6 b) = false
same_ip (v6 a) (v4 b) = false
same_ip (v6 a) (v6 b) = same a b

abbrev pub same_socket : SocketAddr → SocketAddr → Bool
same_socket a b = same_ip a.ip b.ip && a.port == b.port

abbrev pub has_socket : List SocketAddr → SocketAddr → Bool
has_socket [] a = false
has_socket (b ∷ rest) a = same_socket b a || has_socket rest a

abbrev first_socket : List SocketAddr → Option SocketAddr
first_socket [] = none
first_socket (a ∷ rest) = some a

-- `sockets.get(&send_info.from)`, or any socket.
abbrev pub socket_for : List SocketAddr → SocketAddr → Option SocketAddr
socket_for sockets from = if has_socket sockets from then some from else first_socket sockets

-- What one `conn.send` wrote, and whether the socket took it.
pub record Written : Type 0 where
  pub bytes : List ℕ
  pub from : SocketAddr
  pub to : SocketAddr
  pub taken : Bool

-- The answers of `conn.send` up to `Done`, or, when `fails`, up to another error.
pub record Flushed : Type 0 where
  pub writes : List Written
  pub fails : Bool

abbrev pub send_on : Option SocketAddr → Written → Link → Next
send_on none w s = go s
send_on (some local) w s =
    if w.taken
    then go
        (record s { wire = s.wire ++ (record { local = local; to = w.to; bytes = w.bytes } ∷ []) })
    else stop (err AetherError.io) s

unfoldable pub flush_loop : List Written → Bool → Link → Next
flush_loop [] fails s = if fails then stop (err AetherError.quic) s else go s
flush_loop (w ∷ writes) fails s =
    and_then (send_on (socket_for s.sockets w.from) w s) (flush_loop writes fails)

abbrev pub flush : Flushed → Link → Next
flush f = flush_loop f.writes f.fails

-- The answers to `do_migrate`: the spare ids, the address of the new socket, and the two calls.
pub record Migration : Type 0 where
  pub available_dcids : ℕ
  pub bound : Option SocketAddr
  pub probed : Bool

-- Its errors are only logged.
abbrev pub bound_at : Migration → Option SocketAddr → Link → Link
bound_at m none s = s
bound_at m (some local) s =
    let s' = call (probe_path local) (record s { sockets = local ∷ s.sockets }) in
    if m.probed then call (migrate_source local) s' else s'

unfoldable pub do_migrate : Migration → Link → Link
do_migrate m s = if m.available_dcids == 0 then s else bound_at m m.bound s

-- The `match` on a capsule: addresses are handed on, packets are not expected on the stream.
abbrev pub handle_stream_capsule :
    Outcome AetherError (Option Capsule)
    → List ℕ × List AssignedAddr
    → (List ℕ × List AssignedAddr → Outcome Absent (List ℕ × List AssignedAddr))
    → Outcome Absent (List ℕ × List AssignedAddr)
handle_stream_capsule (ok none) d again = ok d
handle_stream_capsule (ok (some (address_assign addrs))) d again =
    again (d.0, d.1 ++ assigned addrs)
handle_stream_capsule (ok (some other)) d again = again d
handle_stream_capsule (err e) d again = ok d
handle_stream_capsule panic d again = panic
handle_stream_capsule stuck d again = stuck

module _ (o : Octets) where
  unfoldable pub drain_stream_loop :
      ℕ → List ℕ × List AssignedAddr → Outcome Absent (List ℕ × List AssignedAddr)
  drain_stream_loop zero d = stuck
  drain_stream_loop (suc fuel) (buf, addresses) =
      let (result, buf') = next o buf in
      handle_stream_capsule result (buf', addresses) (drain_stream_loop fuel)

  -- `drain_capsules`: each round that goes on has taken a capsule off the buffer.
  unfoldable pub drain_stream_capsules : List ℕ → Outcome Absent (List ℕ × List AssignedAddr)
  drain_stream_capsules buf = drain_stream_loop (suc (length buf)) (buf, [])

-- What `h3c.poll` gives; for data, the stream and the chunks that `recv_body` reads until it gives none.
pub data Poll : Type 0 where
  headers : Poll
  body : ℕ → List (List ℕ) → Poll
  finished : Poll
  reset : Poll
  poll_failed : Poll

abbrev pub push_all : List ℕ → List (List ℕ) → List ℕ
push_all buf [] = buf
push_all buf (chunk ∷ chunks) = push_all (push buf chunk) chunks

abbrev pub drained_stream : Link → Outcome Absent (List ℕ × List AssignedAddr) → Next
drained_stream s (ok (buf, more)) =
    go (record s { capsules = buf; addresses = s.addresses ++ more })
drained_stream s (err e) = stop stuck s
drained_stream s panic = stop panic s
drained_stream s stuck = stop stuck s

-- `Ok(Some(ip_packet))`; an error is only logged.
abbrev pub found_in : Outcome AetherError (Option (List ℕ)) → Option (List ℕ)
found_in (ok found) = found
found_in (err e) = none
found_in panic = none
found_in stuck = none

-- A packet is handed to `inbound_tx`: when its receiver is gone, the drain returns.
abbrev pub take_datagram :
    Option (List ℕ) → Bool → Bool × Link → (Bool × Link → Bool × Link) → Bool × Link
take_datagram none open_ d again = again d
take_datagram (some pkt) true (delivered, s) again =
    again (true, record s { inbound = s.inbound ++ (pkt ∷ []) })
take_datagram (some pkt) false (delivered, s) again = (true, s)

module _ (o : Octets) where
  unfoldable pub on_poll : ℕ → Poll → Link → Next
  on_poll sid headers s = go s
  on_poll sid (body stream_id chunks) s =
      if stream_id == sid
      then drained_stream s (drain_stream_capsules o (push_all s.capsules chunks))
      else go s
  on_poll sid finished s = go s
  on_poll sid reset s = go s
  on_poll sid poll_failed s = stop (err AetherError.h3) s

  -- The answers up to `Done`.
  unfoldable pub poll_h3 : ℕ → List Poll → Link → Next
  poll_h3 sid [] s = go s
  poll_h3 sid (p ∷ polls) s = and_then (on_poll sid p s) (poll_h3 sid polls)

  -- One answer of `dgram_recv` that is a packet of the request stream.
  unfoldable pub packet_of : ℕ → List ℕ → Option (List ℕ)
  packet_of sid bytes = found_in (decode_ip_datagram o bytes sid)

  -- `none` is an error of `dgram_recv`, which ends the loop as `Done` does.
  unfoldable pub drain_loop_datagrams :
      ℕ → Bool → List (Option (List ℕ)) → Bool × Link → Bool × Link
  drain_loop_datagrams sid open_ [] d = d
  drain_loop_datagrams sid open_ (none ∷ answers) d = d
  drain_loop_datagrams sid open_ (some bytes ∷ answers) d =
      take_datagram (packet_of sid bytes) open_ d (drain_loop_datagrams sid open_ answers)

  unfoldable pub drain_datagrams : Option ℕ → Bool → List (Option (List ℕ)) → Link → Bool × Link
  drain_datagrams none open_ answers s = (false, s)
  drain_datagrams (some sid) open_ answers s = drain_loop_datagrams sid open_ answers (false, s)

  -- `dgram_send` of a framed packet: a packet that cannot be framed is dropped.
  abbrev pub send_framed : Outcome AetherError (List ℕ) → Link → Link
  send_framed (ok framed) s = call (dgram_send framed) s
  send_framed (err e) s = s
  send_framed panic s = s
  send_framed stuck s = s

  unfoldable pub send_packet : Option ℕ → List ℕ → Link → Link
  send_packet none pkt s = s
  send_packet (some sid) pkt s = send_framed (encode_ip_datagram o sid pkt) s
