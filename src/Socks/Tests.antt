-- ===== src/Socks/Tests.antt =====
-- Examples of the SOCKS5 server of aether/src/socks.rs.
use aether_gui.Common.{◌≡◌, refl, none, some, List, [], ◌∷◌, ◌++◌, map, arith}
use aether_gui.Common.Outcome.{ok, Ensures}
use aether_gui.Net.{IpAddr, v4, SocketAddr}
use aether_gui.Socks.{Target, ip, domain, parse_udp_request, build_udp_reply}
use aether_gui.Socks.Utf8.{from_utf8_lossy, lossy, advance, begin_with, lead}
use aether_gui.Socks.Session.{Conn, World, timeout, handle_client, dispatch}
use aether_gui.Socks.Requests.{greeting, request, seen, handle_client-request}
use aether_gui.Socks.Safety.{IsPayload, parse_udp_request-Ensures}
use aether_gui.Socks.Relay.{
  Message, sends, receives, delivery, event_of, relay_loop, resolver, close, control_closed,
  relay_loop-delivery,
}
use aether_gui.Socks.Steps.{Says}
use aether_gui.Socks.Replies.{IsServed, IsRefused, IsWorld, handle_client-Says}
use aether_gui.Socks.Datagrams.{
  encode_udp_request, parse_udp_request-encode, parse_udp_request-build_udp_reply,
}

abbrev localhost : IpAddr
localhost = v4 (127 ∷ 0 ∷ 0 ∷ 1 ∷ [])

abbrev relay : SocketAddr
relay = record { ip = localhost; port = 1081 }

-- A stack that opens every connection, and a resolver that does not answer.
abbrev world : World
world = record {
  parse_ip = λ name. none;
  open_udp = ok tt;
  open_tcp = λ dst. ok tt;
  send_query = λ q. ok timeout;
  query_id = 7;
  bind_relay = ok relay;
}

abbrev example_com : Target
example_com = domain (101 ∷ 46 ∷ 99 ∷ 111 ∷ [])

abbrev client : Conn
client = record {
  input = greeting (0 ∷ []) ++ (request 1 0 example_com 443 ++ (22 ∷ []));
  writes = 3;
  written = [];
}

handle_client-request_example :
    handle_client world client
    ≡ dispatch world 1
        (seen example_com, 443)
        (record { input = 22 ∷ []; writes = 2; written = 5 ∷ 0 ∷ [] })
handle_client-request_example =
    handle_client-request world (0 ∷ []) 1 0 example_com 443 (22 ∷ []) 2 (omega arith) (omega arith)

world-IsWorld : IsWorld world
world-IsWorld = record { open_udp = tt; open_tcp = λ a. tt; send_query = λ q. tt; bind_relay = tt }

handle_client-Says_example : Says IsServed (IsRefused world) (handle_client world client)
handle_client-Says_example = handle_client-Says world client world-IsWorld refl

parse_udp_request-encode_example :
    parse_udp_request (encode_udp_request 0 0 (ip localhost) 53 (1 ∷ 2 ∷ []))
    ≡ ok (ip localhost, 53, 1 ∷ 2 ∷ [])
parse_udp_request-encode_example =
    parse_udp_request-encode 0 0 (ip localhost) 53 (1 ∷ 2 ∷ []) (omega arith) (omega arith)

parse_udp_request-build_udp_reply_example :
    parse_udp_request (build_udp_reply relay (9 ∷ [])) ≡ ok (ip localhost, 1081, 9 ∷ [])
parse_udp_request-build_udp_reply_example =
    parse_udp_request-build_udp_reply relay (9 ∷ []) (omega arith) (omega arith)

parse_udp_request-Ensures_example :
    Ensures
      (IsPayload (0 ∷ 0 ∷ 0 ∷ 3 ∷ 200 ∷ 1 ∷ 2 ∷ []))
      (parse_udp_request (0 ∷ 0 ∷ 0 ∷ 3 ∷ 200 ∷ 1 ∷ 2 ∷ []))
parse_udp_request-Ensures_example = parse_udp_request-Ensures (0 ∷ 0 ∷ 0 ∷ 3 ∷ 200 ∷ 1 ∷ 2 ∷ [])

-- A cut character and a stray byte, in bytes of U+FFFD.
lossy_run :
    from_utf8_lossy (97 ∷ 0xe2 ∷ 0x82 ∷ 98 ∷ 0x80 ∷ [])
    ≡ 97 ∷ 0xef ∷ 0xbf ∷ 0xbd ∷ 98 ∷ 0xef ∷ 0xbf ∷ 0xbd ∷ []
unfolding from_utf8_lossy lossy advance begin_with lead
lossy_run = refl

-- A client sends, another host answers, the client sends again from another port.
abbrev messages : List Message
messages =
    sends relay (ip localhost) 53 (1 ∷ [])
    ∷ receives relay (9 ∷ [])
    ∷ sends (record { ip = localhost; port = 2000 }) example_com 80 (2 ∷ 3 ∷ [])
    ∷ []

relay_loop-delivery_example :
    relay_loop
      (resolver (λ name. some localhost))
      (map event_of messages ++ (control_closed ∷ []))
      none
    ≡ ok (delivery (λ name. some localhost) messages none ++ (close ∷ []))
relay_loop-delivery_example =
    relay_loop-delivery (λ name. some localhost) messages none
      ((omega arith, omega arith), ((omega arith, omega arith), ((omega arith, omega arith), tt)))
