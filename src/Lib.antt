-- ===== src/Lib.antt =====
-- Aether, the Rust core of AetherGUI (aether/src): a client for MASQUE and WireGuard tunnels with a
-- local SOCKS5 proxy.
--
-- How the program works, and which file models which part:
--
--   * The proxy (aether/src/socks.rs) resolves names through the tunnel: Dns is its resolver
--     (build_dns_query in Dns.Query, parse_dns_a and skip_name in Dns). Dns.Ech is the bootstrap of
--     aether/src/dns.rs, which looks for an ECH configuration (parse_https_ech, fetch_ech_config).
--     Dns.Message and Dns.Ech.Svcb describe the same bytes from the side of a server.
--   * A MASQUE tunnel carries IP packets in datagrams (HTTP/3) or in capsules (HTTP/2): Masque is
--     aether/src/masque.rs. encode_ip_datagram, decode_ip_datagram, encode_capsule and the parser's
--     `next` have their names in Rust. Octets is the crate `octets` as a record of operations with
--     documented laws, Octets.Wire an instance that runs.
--   * Tunnel is what the tunnels do with the parser: drain_capsules and the chunk arm of `run` in
--     aether/src/masque_h2.rs.
--
-- Conventions. A byte slice is a list of numbers below 256; a function that returns an Option or a
-- Result has an outcome (Common.Outcome): `ok`, `err`, `panic` for an index out of bounds, and `stuck`,
-- which is no behaviour of the program, for a loop of the model that has used up its fuel. Errors are
-- the variants of AetherError (aether/src/error.rs) without their messages. Numbers are unbounded,
-- except where the code asks (checked_add) or casts; positions in a buffer stay near its length, which
-- Rust bounds by 2^63. Random numbers, clocks and what a socket delivers are arguments.
--
-- Fuel: skip_name takes one round more than the buffer has bytes, the scan of service parameters one
-- more than the record has, the loops over addresses and routes as many as the value has bytes, a
-- drain one more than the buffer has: each round takes a byte at least, and the theorems on `Ensures`
-- show that no run is stuck.
-- Socks (aether/src/socks.rs): the messages and datagrams in Socks, the dialogue of handle_client as a
--   state monad over the client's socket in Socks.Session, the loops of handle_udp_associate and
--   handle_connect over the events that they wait for in Socks.Relay. Socks.Utf8 is
--   String::from_utf8_lossy of the standard library. The world of a dialogue (the reader of addresses of
--   std::net, the stack's answers, the resolver's datagram) is a record of its results.
--
-- Netstack (aether/src/netstack.rs): the stack's tables, handle_cmd and handle_data; Netstack.Service
--   is service_tcp, service_udp, flush_tx and the turns of run. The crate smoltcp is a record of the
--   calls that the code makes. HashMap is an association list; the order of its keys plays no part in
--   the theorems. The stack's effects are a log: answers to commands, bytes handed to a socket
--   (send_slice), chunks passed on, packets sent out.
--
--
-- Probe (aether/src/masque.rs): build_dns_probe_packet, its query and ipv4_header_checksum. The carry
--   loop has fuel 3: a sum of 32 bits is below 2^17 after one round and below 2^16 after two.
--
-- Wireguard (aether/src/wireguard.rs): inject_client_id and strip_client_id as functions from the bytes
--   of a packet to its bytes after the mutation. Wireguard.Session is what the file does with the
--   socket and with boringtun's tunnel, whose results are arguments. Wireguard.Verify is
--   send_dataplane_probe, verify_dataplane and verify_endpoint_keep_session over schedules of rounds.
--   Wireguard.Run is WgTunnel::run: a step is what a task does up to its next await, and a run is any
--   sequence of steps; the datagrams of one burst of junk or obfuscation are one entry of its wire. The
--   tasks go on when run has returned, as tokio does not abort them.
--
-- Fragment (aether/src/fragment.rs): the settings of the write fragmentation, from the three
--   environment variables, and poll_write as a step: the inner stream, whether the sleep is over and
--   gen_range of the crate rand are arguments.
--
-- Prober (aether/src/prober.rs): the search for a gateway. A schedule of rounds gives, for each
--   turn of the loop, the clock and the event that select! delivers (a probe's result, a failed
--   probe, the end of the probes, the sleep); None of the model is a schedule that ends too early.
--
-- Candidates (aether/src/prober.rs): the list of candidates of that scan. An address is the number of
--   its octets, the set `seen` is the list that it guards, and sums wrap and shifts are modulo the
--   width, as in a release build. sample_cidr_v4 draws until it has enough: the model is stuck when its
--   draws run out, and the theorem on it says which draws are enough.
--
-- WgScan (aether/src/wg_prober.rs): its modes, hunt_best_wg_endpoint and build_wg_candidates. The loop
--   and the functions on ranges repeat those of prober.rs, and the model uses Prober and Candidates.
--   The constants are those of aether/src/wireguard.rs.
--
-- Noize (aether/src/aethernoize.rs): the junk datagrams as the list that is handed to the socket, and
--   wrap_ikev2. The n-th call of the generator is an operation of a record with the laws of rand.
--
-- H2 (aether/src/masque_h2.rs): the settings and the loop of run. A schedule of rounds gives the clock
--   at the top of the loop, the event that select! delivers and the clock when it is handled; an event
--   whose branch is disabled does nothing, and the order of `biased` is left open. That send_capsule
--   succeeds is part of the event. H2.Kept is what the pieces of the loop keep.
--
-- Quic (aether/src/quic.rs): Quic.Connection is what run does with its connection (flush, do_migrate,
--   poll_h3, drain_capsules, drain_datagrams), Quic.Run its loop with the ECH retry, and Quic.Verify is
--   verify_masque. The answers of quiche and of the sockets are part of a schedule of rounds: what
--   conn.send writes, what poll and dgram_recv give up to Done, whether the connection is established
--   or closed. A guard of the select that is off makes its event do nothing. Each capsule that the
--   drain takes shortens its buffer, so its fuel is one more than the length of the buffer.
--
-- Not modelled: the connection setup of all tunnels, and verify_h2 and send_capsule of
-- aether/src/masque_h2.rs; the signature packets (aether/src/noize.rs, parse_cps and apply_obfuscation
-- of aether/src/aethernoize.rs); the main program and its reconnection (aether/src/main.rs,
-- aether/src/tunnelping.rs), which put the parts together; and the terminal, files, HTTP to the
-- registration service, TLS and key handling, which call external crates, and the Swift application
-- around the program.
pub mod Common
pub mod Error
pub mod Octets
pub mod Net
pub mod Dns
pub mod Masque
pub mod Probe
pub mod Tunnel
pub mod H2
pub mod Socks
pub mod Netstack
pub mod Prober
pub mod Fragment
pub mod Wireguard
pub mod Candidates
pub mod WgScan
pub mod Noize
pub mod Quic
