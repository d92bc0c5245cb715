-- ===== src/Netstack/Tests.antt =====
-- Examples of the network stack of aether/src/netstack.rs.
use aether_gui.Common.{
  ℕ, suc, ◌≡◌, refl, true, false, none, some, List, [], ◌∷◌, ◌++◌, arith, min, length,
}
use aether_gui.Common.Assoc.{lookup, insert, remove, keys}
use aether_gui.Netstack.{Smoltcp, TcpSocketState, TcpState, tcp, NetStack, new_conn, handle_data}
use aether_gui.Netstack.Service.{
  Turn, app_data, slept, run, service, service_tcp, service_udp, serve_ids, serve, establish,
  send_pending, finish_half, pass_on, deliver, receive, finish_service, serve_live, refuse,
  serve_udp_ids, flush_tx, flush, handle_event, handle_all,
}
use aether_gui.Common.Outcome.{ok}
use aether_gui.Netstack.Addresses.{parse_v4, strip_cidr, cidr_prefix}
use aether_gui.Netstack.Served.{transmitted_bytes}
use aether_gui.Netstack.Delivery.{submitted_bytes}
use aether_gui.Socks.Relay.{Read, chunk, upload}
use aether_gui.Socks.Upload.{client_bytes, run-upload}
use aether_gui.Netstack.Runs.{run-Flows, data_taken}

-- Sockets that are established at once and take three bytes at a time; the state counts them.
abbrev toy : Smoltcp
toy = record {
  Sockets = ℕ;
  connect = λ dst port n. some (n, suc n);
  bind = λ port n. some (n, suc n);
  state = λ handle n. TcpSocketState.established;
  can_send = λ handle n. true;
  send_slice = λ handle bytes n. (min 3 (length bytes), n);
  close = λ handle n. n;
  can_recv = λ handle n. false;
  recv = λ handle n. (none, n);
  recv_from = λ handle n. (none, n);
  send_to = λ handle dst bytes n. n;
  remove_socket = λ handle n. n;
  poll = λ rx n. (some ([], []), n);
}

abbrev begun : NetStack toy
begun = record {
  rx = [];
  tx = [];
  sockets = 1;
  tcp_conns = (1, new_conn 0) ∷ [];
  udp_conns = [];
  next_id = 2;
  next_port = 49_153;
  iface = record { addrs = []; ipv4_route = none; ipv6_route = none };
}

abbrev turns : List Turn
turns =
    record {
      takes = λ id chunk. true;
      out = λ pkt. true;
      event = app_data (tcp 1 (10 ∷ 11 ∷ []) ∷ tcp 2 (9 ∷ []) ∷ tcp 1 (12 ∷ 13 ∷ []) ∷ []);
    }
    ∷ record { takes = λ id chunk. true; out = λ pkt. true; event = slept }
    ∷ []

after_run :
    lookup 1 (run toy turns begun).0.tcp_conns
    ≡ some (record {
      handle = 0;
      from_stack_rx = false;
      connect_resp = false;
      pending = 13 ∷ [];
      established = true;
      half_closed = false;
    })
unfolding run service service_tcp service_udp serve_ids serve establish send_pending finish_half
    pass_on deliver receive finish_service serve_live refuse serve_udp_ids flush_tx flush
    handle_event handle_all handle_data lookup insert remove keys
after_run = refl

run-Flows_example :
    (st : TcpState) × (lookup 1 begun.tcp_conns ≡ some st)
    × (transmitted_bytes 1 (run toy turns begun).1 ++ (13 ∷ [])
        ≡ st.pending ++ submitted_bytes 1 (data_taken turns))
run-Flows_example = run-Flows toy 1 turns begun (omega arith) _ after_run

abbrev reads : List Read
reads = chunk (10 ∷ 11 ∷ []) true ∷ chunk (12 ∷ 13 ∷ []) true ∷ []

taken : submitted_bytes 1 (data_taken turns) ≡ submitted_bytes 1 (upload 1 reads)
unfolding submitted_bytes data_taken upload
taken = refl

run-upload_example : transmitted_bytes 1 (run toy turns begun).1 ++ (13 ∷ []) ≡ client_bytes reads
unfolding lookup
run-upload_example =
    run-upload toy 1 reads turns begun (new_conn 0) _ (omega arith) refl refl taken after_run

-- An address with its prefix, and one whose prefix has no room.
abbrev net_text : List ℕ
net_text = 47 ∷ 51 ∷ 50 ∷ []

abbrev ip4 : List ℕ
ip4 = 172 ∷ 16 ∷ 0 ∷ 2 ∷ []

abbrev ip6 : List ℕ
ip6 = 38 ∷ 6 ∷ 71 ∷ 0 ∷ 0 ∷ 0 ∷ 0 ∷ 0 ∷ 0 ∷ 0 ∷ 0 ∷ 0 ∷ 0 ∷ 0 ∷ 0 ∷ 1 ∷ []

parse_v4_run : parse_v4 (λ text. some ip4) net_text ≡ ok (some (ip4, 32))
unfolding parse_v4 strip_cidr cidr_prefix
parse_v4_run = refl
