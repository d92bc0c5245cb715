-- ===== src/Socks/Relay.antt =====
-- The relays of aether/src/socks.rs: the loop of handle_udp_associate over the events of its select,
-- and the two loops of handle_connect.
use aether_gui.Common.{
  ℕ, ◌<◌, ◌≡◌, refl, sym, ap, Bool, true, false, Option, none, some, List, [], ◌∷◌, ◌++◌, map,
  append_assoc, All,
}
use aether_gui.Common.Outcome.{Outcome, ok, err, panic, stuck, Absent, ◌>>=◌, or_err}
use aether_gui.Error.{AetherError}
use aether_gui.Net.{IpAddr, SocketAddr, IsIpAddr}
use aether_gui.Netstack.{DataIn, tcp, tcp_close}
use aether_gui.Socks.{Target, ip, domain, parse_udp_request, build_udp_reply}
use aether_gui.Socks.Requests.{IsTarget, seen}
use aether_gui.Socks.Datagrams.{
  encode_udp_request, parse_udp_request-encode, build_udp_reply-encode,
}

pub data RelayEvent : Type 0 where
  request : List ℕ → SocketAddr → RelayEvent
  request_failed : RelayEvent
  answer : SocketAddr → List ℕ → RelayEvent
  stack_closed : RelayEvent
  control : RelayEvent
  control_closed : RelayEvent

pub data Output : Type 0 where
  to_stack : SocketAddr → List ℕ → Output
  to_client : List ℕ → SocketAddr → Output
  close : Output

abbrev pub addressed : ℕ → List ℕ → Outcome AetherError IpAddr → Outcome Absent (List Output)
addressed port payload (ok a) = ok (to_stack (record { ip = a; port = port }) payload ∷ [])
addressed port payload (err e) = ok []
addressed port payload panic = panic
addressed port payload stuck = stuck

-- The datagram is forwarded if it is a request, and its name has an address.
unfoldable pub forward :
    (List ℕ → Outcome AetherError IpAddr)
    → Outcome Absent (Target × ℕ × List ℕ)
    → Outcome Absent (List Output)
forward dns_resolve (ok (ip a, port, payload)) = addressed port payload (ok a)
forward dns_resolve (ok (domain name, port, payload)) = addressed port payload (dns_resolve name)
forward dns_resolve (err e) = ok []
forward dns_resolve panic = panic
forward dns_resolve stuck = stuck

-- `if let Some(c) = client`
unfoldable pub reply_to : Option SocketAddr → SocketAddr → List ℕ → List Output
reply_to none src bytes = []
reply_to (some c) src bytes = to_client (build_udp_reply src bytes) c ∷ []

-- The loop, and `sender.close()` behind it. A schedule that ends before the loop does ends its run.
unfoldable pub relay_loop :
    (List ℕ → Outcome AetherError IpAddr)
    → List RelayEvent
    → Option SocketAddr
    → Outcome Absent (List Output)
relay_loop dns_resolve [] client = ok []
relay_loop dns_resolve (request buf from ∷ events) client = do
  out ← forward dns_resolve (parse_udp_request buf)
  rest ← relay_loop dns_resolve events (some from)
  ok (out ++ rest)
relay_loop dns_resolve (request_failed ∷ events) client = ok (close ∷ [])
relay_loop dns_resolve (answer src bytes ∷ events) client = do
  rest ← relay_loop dns_resolve events client
  ok (reply_to client src bytes ++ rest)
relay_loop dns_resolve (stack_closed ∷ events) client = ok (close ∷ [])
relay_loop dns_resolve (control ∷ events) client = relay_loop dns_resolve events client
relay_loop dns_resolve (control_closed ∷ events) client = ok (close ∷ [])

-- What a client and the other hosts say through the relay.
pub data Message : Type 0 where
  sends : SocketAddr → Target → ℕ → List ℕ → Message
  receives : SocketAddr → List ℕ → Message

abbrev pub event_of : Message → RelayEvent
event_of (sends from target port payload) =
    request (encode_udp_request 0 0 target port payload) from
event_of (receives src bytes) = answer src bytes

abbrev pub IsMessage : Message → Type 0
IsMessage (sends from target port payload) = IsTarget target × (port < 65_536)
IsMessage (receives src bytes) = IsIpAddr src.ip × (src.port < 65_536)

abbrev pub lookup_of : (List ℕ → Option IpAddr) → Target → Option IpAddr
lookup_of names (ip a) = some a
lookup_of names (domain name) = names name

abbrev pub sent : Option IpAddr → ℕ → List ℕ → List Output
sent none port payload = []
sent (some a) port payload = to_stack (record { ip = a; port = port }) payload ∷ []

abbrev pub received : Option SocketAddr → SocketAddr → List ℕ → List Output
received none src bytes = []
received (some c) src bytes = to_client (encode_udp_request 0 0 (ip src.ip) src.port bytes) c ∷ []

-- What the relay is for: each payload goes to the address of its target, and each answer, with its
-- source in front, to the client that sent last.
unfoldable pub delivery : (List ℕ → Option IpAddr) → List Message → Option SocketAddr → List Output
delivery names [] client = []
delivery names (sends from target port payload ∷ messages) client =
    sent (lookup_of names (seen target)) port payload ++ delivery names messages (some from)
delivery names (receives src bytes ∷ messages) client =
    received client src bytes ++ delivery names messages client

abbrev pub resolver : (List ℕ → Option IpAddr) → List ℕ → Outcome AetherError IpAddr
resolver names name = or_err AetherError.other (names name)

forward-sent :
    (names : List ℕ → Option IpAddr) (target : Target) (port : ℕ) (payload : List ℕ)
    → forward (resolver names) (ok (target, port, payload))
      ≡ ok (sent (lookup_of names target) port payload)
unfolding forward
forward-sent names (ip a) port payload = refl
forward-sent names (domain name) port payload = by_name (names name)
  where
    by_name :
        (found : Option IpAddr)
        → addressed port payload (or_err AetherError.other found) ≡ ok (sent found port payload)
    by_name none = refl
    by_name (some a) = refl

reply_to-received :
    (client : Option SocketAddr) (src : SocketAddr) (bytes : List ℕ)
    → reply_to client src bytes ≡ received client src bytes
unfolding reply_to
reply_to-received none src bytes = refl
reply_to-received (some c) src bytes =
    ap (λ l. to_client l c ∷ []) (build_udp_reply-encode src bytes)

-- The relay does what it is for, on every exchange that the client ends: its outputs are the
-- deliveries in order, and then the close.
pub relay_loop-delivery :
    (names : List ℕ → Option IpAddr) (messages : List Message) (client : Option SocketAddr)
    → All IsMessage messages
    → relay_loop (resolver names) (map event_of messages ++ (control_closed ∷ [])) client
      ≡ ok (delivery names messages client ++ (close ∷ []))
unfolding relay_loop delivery
relay_loop-delivery names [] client h = refl
relay_loop-delivery names (sends from target port payload ∷ messages) client
      ((is_target, small), h) =
    rw
      (
        parse_udp_request-encode 0 0 target port payload is_target small,
        forward-sent names (seen target) port payload,
        relay_loop-delivery names messages (some from) h,
      )
      (ap ok (
        sym (
          append_assoc (sent (lookup_of names (seen target)) port payload)
            (delivery names messages (some from)) (close ∷ []))))
relay_loop-delivery names (receives src bytes ∷ messages) client (is_address, h) =
    rw (relay_loop-delivery names messages client h, reply_to-received client src bytes)
      (ap ok (
        sym
          (append_assoc (received client src bytes) (delivery names messages client) (close ∷ []))))

-- What a read of the client's socket gives: bytes and whether the stack still takes them, the end, or
-- an error.
pub data Read : Type 0 where
  chunk : List ℕ → Bool → Read
  eof : Read
  read_failed : Read

-- The task `up` of handle_connect: the messages that it sends to the stack.
unfoldable pub upload : ℕ → List Read → List DataIn
upload id [] = []
upload id (chunk bytes true ∷ reads) = tcp id bytes ∷ upload id reads
upload id (chunk bytes false ∷ reads) = []
upload id (eof ∷ reads) = tcp_close id ∷ []
upload id (read_failed ∷ reads) = tcp_close id ∷ []

-- The loop over `from_stack.recv()`: the chunks written, each with whether the write succeeds.
unfoldable pub download : List (List ℕ × Bool) → List (List ℕ)
download [] = []
download ((bytes, true) ∷ chunks) = bytes ∷ download chunks
download ((bytes, false) ∷ chunks) = []
