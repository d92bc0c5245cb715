-- ===== src/Socks/Datagrams.antt =====
-- The datagrams of a client of the UDP relay of aether/src/socks.rs, as it encodes and reads them.
use aether_gui.Common.{
  ℕ, suc, ◌+◌, ◌/◌, ◌%◌, ◌<◌, ◌≡◌, refl, ap, ◌∙◌, some, List, [], ◌∷◌, ◌++◌, append_assoc, arith,
  length, get_elem?, drop, length-append, drop-add, drop-length_append, take-length_append, le→leb,
}
use aether_gui.Common.Outcome.{ok}
use aether_gui.Common.Bytes.{be16}
use aether_gui.Net.{IpAddr, v4, v6, SocketAddr, IsIpAddr}
use aether_gui.Socks.{
  Target, ip, domain, push_ip, push_addr, slice_at, read_name, atyp_v4, atyp_v6, atyp_domain,
  udp_target, udp_rest, parse_udp_request, build_udp_reply,
}
use aether_gui.Socks.Utf8.{from_utf8_lossy}
use aether_gui.Socks.Requests.{u16_be-be16, atyp_of, address_of, IsTarget, seen}

abbrev pub encode_udp_request : ℕ → ℕ → Target → ℕ → List ℕ → List ℕ
encode_udp_request r0 r1 target port payload =
    r0 ∷ r1 ∷ 0x00 ∷ atyp_of target ∷ (address_of target ++ (be16 port ++ payload))

-- The bytes at a known place.
slice_at-front :
    (front bytes rest : List ℕ) (pos n : ℕ)
    → length front ≡ pos
    → length bytes ≡ n
    → slice_at (front ++ (bytes ++ rest)) pos n ≡ ok bytes
slice_at-front front bytes rest pos n e e' =
    rw
      (
        le→leb (pos + n) (length (front ++ (bytes ++ rest))) (
            omega (
              arith,
              e,
              e',
              length-append {0} front (bytes ++ rest),
              length-append {0} bytes rest,
            )),
        ← e,
        ← e',
        drop-length_append front (bytes ++ rest),
        take-length_append bytes rest,
      )
      refl

get_elem?-front :
    (front : List ℕ) (x y : ℕ) (rest : List ℕ)
    → (get_elem? (front ++ (x ∷ y ∷ rest)) (length front) ≡ some x)
      × (get_elem? (front ++ (x ∷ y ∷ rest)) (suc (length front)) ≡ some y)
get_elem?-front [] x y rest = (refl, refl)
get_elem?-front (a ∷ front) x y rest = get_elem?-front front x y rest

udp_rest-front :
    (front : List ℕ) (target : Target) (pos port : ℕ) (payload : List ℕ)
    → length front ≡ pos
    → port < 65_536
    → udp_rest (front ++ (be16 port ++ payload)) (target, pos) ≡ ok (target, port, payload)
unfolding udp_rest
udp_rest-front front target pos port payload e small =
    let (first, second) = get_elem?-front front (port / 256 % 256) (port % 256) payload in
    let skipped : drop (length front + 2) (front ++ (be16 port ++ payload)) ≡ payload =
      drop-add (length front) 2 (front ++ (be16 port ++ payload))
      ∙ ap (drop 2) (drop-length_append front (be16 port ++ payload)) in
    rw (← e) (
      rw
        (
          le→leb (length front + 2) (length (front ++ (be16 port ++ payload)))
              (omega (arith, length-append {0} front (be16 port ++ payload))),
          first,
          next (length front),
          second,
          skipped,
          u16_be-be16 port small,
        )
        refl)
  where
    next : (n : ℕ) → n + 1 ≡ suc n
    next n = omega arith

udp_target-seen :
    (r0 r1 : ℕ) (target : Target) (rest : List ℕ)
    → IsTarget target
    → udp_target (r0 ∷ r1 ∷ 0 ∷ atyp_of target ∷ (address_of target ++ rest)) (atyp_of target)
      ≡ ok (seen target, length (r0 ∷ r1 ∷ 0 ∷ atyp_of target ∷ address_of target))
unfolding udp_target read_name
udp_target-seen r0 r1 (ip (v4 o)) rest (four, bytes) =
    rw (slice_at-front (r0 ∷ r1 ∷ 0 ∷ atyp_v4 ∷ []) o rest 4 4 refl four)
      (ap (λ n. ok (ip (v4 o), n)) (omega (arith, four)))
udp_target-seen r0 r1 (ip (v6 o)) rest (sixteen, bytes) =
    rw (slice_at-front (r0 ∷ r1 ∷ 0 ∷ atyp_v6 ∷ []) o rest 4 16 refl sixteen)
      (ap (λ n. ok (ip (v6 o), n)) (omega (arith, sixteen)))
udp_target-seen r0 r1 (domain name) rest h =
    rw
      (slice_at-front (r0 ∷ r1 ∷ 0 ∷ atyp_domain ∷ length name ∷ []) name rest 5 (length name) refl
        refl)
      (ap (λ n. ok (domain (from_utf8_lossy name), n)) (omega arith))

-- A datagram of a client is read as the target, port and payload that the client encoded, whatever
-- stands in the two reserved bytes.
pub parse_udp_request-encode :
    (r0 r1 : ℕ) (target : Target) (port : ℕ) (payload : List ℕ)
    → IsTarget target
    → port < 65_536
    → parse_udp_request (encode_udp_request r0 r1 target port payload)
      ≡ ok (seen target, port, payload)
unfolding parse_udp_request
parse_udp_request-encode r0 r1 target port payload h small =
    rw
      (
        le→leb 4 (length (encode_udp_request r0 r1 target port payload)) (omega arith),
        udp_target-seen r0 r1 target (be16 port ++ payload) h,
      )
      (udp_rest-front (r0 ∷ r1 ∷ 0 ∷ atyp_of target ∷ address_of target) (seen target) _ port
        payload refl small)

pub build_udp_reply-encode :
    (src : SocketAddr) (payload : List ℕ)
    → build_udp_reply src payload ≡ encode_udp_request 0 0 (ip src.ip) src.port payload
unfolding build_udp_reply push_addr push_ip
build_udp_reply-encode src payload = by_family src.ip
  where
    by_family :
        (a : IpAddr)
        → 0 ∷ 0 ∷ 0 ∷ (push_ip a (be16 src.port) ++ payload)
          ≡ encode_udp_request 0 0 (ip a) src.port payload
    by_family (v4 o) = ap (λ l. 0 ∷ 0 ∷ 0 ∷ atyp_v4 ∷ l) (append_assoc o (be16 src.port) payload)
    by_family (v6 o) = ap (λ l. 0 ∷ 0 ∷ 0 ∷ atyp_v6 ∷ l) (append_assoc o (be16 src.port) payload)

-- A reply of the relay is a datagram that the reader of requests reads as its source and payload.
pub parse_udp_request-build_udp_reply :
    (src : SocketAddr) (payload : List ℕ)
    → IsIpAddr src.ip
    → src.port < 65_536
    → parse_udp_request (build_udp_reply src payload) ≡ ok (ip src.ip, src.port, payload)
parse_udp_request-build_udp_reply src payload h small =
    ap parse_udp_request (build_udp_reply-encode src payload)
    ∙ parse_udp_request-encode 0 0 (ip src.ip) src.port payload h small
