-- ===== src/Masque.antt =====
-- aether/src/masque.rs: IP datagrams and capsules of CONNECT-IP, and the probe packet. `o` stands for
-- the crate `octets`. An error is a variant of `AetherError`, without its message.
pub mod Datagram
pub mod Framing
pub mod Values
pub mod Addresses
mod Tests
use aether_gui.Common.{
  ℕ, zero, suc, ◌+◌, ◌-◌, ◌*◌, ◌/◌, ◌%◌, ◌^◌, ◌≤◌, ◌<◌, ◌≡◌, refl, sym, ap, ◌∙◌, subst, ◌≢◌, ◌↔◌,
  ◌⊎◌, inl, inr, Bool, true, false, ◌&&◌, ◌||◌, not, Option, none, some, List, [], ◌∷◌, ◌++◌, map,
  append-nil, append_assoc, arith, bit_and, min, max, length, get_elem?, take, drop, replicate, All,
  length-append, length-take, length-drop, take-append-drop, drop-nil, drop-add, drop-length_append,
  take-length_append, get_elem?-add, get_elem?-lt, get_elem?-drop, get_elem?-drop_zero, drop-step,
  get_elem?-All, All-append, ltb, leb, ◌==◌, if◌then◌else◌, ltb→lt, lt→ltb, le→ltb, ltb→le, leb→le,
  le→leb, lt→leb, ==_iff, ==_refl, Bool-cases, Option-cases,
}
use aether_gui.Common.Outcome.{
  Outcome, ok, err, panic, stuck, Absent, absent, ◌>>=◌, ◌>>◌, guard, of_index, or_err, index,
  checked_add, Ensures, Ensures-bind, get_elem?-some, index-Ensures, index-Ensures-All,
  guard-Ensures,
}
use aether_gui.Common.Bytes.{IsByte, IsBytes, u16_be, be16, be32}
use aether_gui.Error.{AetherError}
use aether_gui.Octets.{Octets, Reader, Writer, with_capacity, contents}

abbrev pub capsule_datagram : ℕ
capsule_datagram = 0

abbrev pub capsule_address_assign : ℕ
capsule_address_assign = 1

abbrev pub capsule_address_request : ℕ
capsule_address_request = 2

abbrev pub capsule_route_advertisement : ℕ
capsule_route_advertisement = 3

-- `consts::CONNECT_IP_CONTEXT_ID`
abbrev pub connect_ip_context_id : ℕ
connect_ip_context_id = 0

pub record AssignedAddress : Type 0 where
  pub request_id : ℕ
  pub ip_version : ℕ
  pub address : List ℕ
  pub prefix_len : ℕ

pub record RouteAdvertisement : Type 0 where
  pub ip_version : ℕ
  pub start : List ℕ
  pub end : List ℕ
  pub protocol : ℕ

pub data Capsule : Type 0 where
  address_assign : List AssignedAddress → Capsule
  address_request : Capsule
  datagram : List ℕ → Capsule
  route_advertisement : List RouteAdvertisement → Capsule
  unknown : ℕ → List ℕ → Capsule

unfoldable pub quarter_stream_id : ℕ → ℕ
quarter_stream_id stream_id = stream_id / 4

unfoldable pub varint_len : ℕ → ℕ
varint_len v =
    if ltb v 64 then 1 else if ltb v 16384 then 2 else if ltb v 1_073_741_824 then 4 else 8

-- `let _ = b.put_…(…)`: a failed write leaves the writer as it was.
abbrev pub or_keep : Writer → Option Writer → Writer
or_keep w none = w
or_keep w (some w') = w'

-- `match ip_version { 4 => 4, 6 => 16, _ => return Err(…) }`
pub addr_len : ℕ → Outcome AetherError ℕ
addr_len ip_version =
    if ip_version == 4 then ok 4 else if ip_version == 6 then ok 16 else err AetherError.capsule

-- A `CapsuleParser` is its buffer.
unfoldable pub push : List ℕ → List ℕ → List ℕ
push buf chunk = buf ++ chunk

module _ (o : Octets) where
  unfoldable pub encode_ip_datagram : ℕ → List ℕ → Outcome AetherError (List ℕ)
  encode_ip_datagram stream_id ip_packet = do
    let qsid = quarter_stream_id stream_id
    let cap = varint_len qsid + varint_len connect_ip_context_id + length ip_packet
    b ← or_err AetherError.capsule (o.put_varint qsid (with_capacity cap))
    c ← or_err AetherError.capsule (o.put_varint connect_ip_context_id b)
    d ← or_err AetherError.capsule (o.put_bytes ip_packet c)
    ok (contents d)

  unfoldable pub decode_ip_datagram : List ℕ → ℕ → Outcome AetherError (Option (List ℕ))
  decode_ip_datagram dgram expect_stream_id = do
    (qsid, b) ← or_err AetherError.capsule (o.get_varint dgram)
    let context = do
      (ctx, c) ← or_err AetherError.capsule (o.get_varint b)
      let payload = do
        (bytes, d) ← or_err AetherError.capsule (o.get_bytes (length c) c)
        ok (some bytes)
      if ctx == connect_ip_context_id then payload else ok none
    if qsid == quarter_stream_id expect_stream_id then context else ok none

  unfoldable pub encode_capsule : ℕ → List ℕ → List ℕ
  encode_capsule kind value =
      let a = with_capacity (varint_len kind + varint_len (length value) + length value) in
      let b = or_keep a (o.put_varint kind a) in
      let c = or_keep b (o.put_varint (length value) b) in
      let d = or_keep c (o.put_bytes value c) in contents d

  unfoldable pub encode_address_request : ℕ → ℕ → ℕ → List ℕ
  encode_address_request request_id ip_version prefix_len =
      let a = with_capacity (varint_len request_id + 1 + 1) in
      let b = or_keep a (o.put_varint request_id a) in
      let c = or_keep b (o.put_u8 ip_version b) in
      let d = or_keep c (o.put_u8 prefix_len c) in
      encode_capsule capsule_address_request (contents d)

  unfoldable pub encode_datagram_capsule : List ℕ → List ℕ
  encode_datagram_capsule ip_packet = encode_capsule capsule_datagram ip_packet

  -- one round of `while b.cap() > 0`
  pub get_assigned : Reader → Outcome AetherError (AssignedAddress × Reader)
  get_assigned r = do
    (request_id, r1) ← or_err AetherError.capsule (o.get_varint r)
    (ip_version, r2) ← or_err AetherError.capsule (o.get_u8 r1)
    len ← addr_len ip_version
    (address, r3) ← or_err AetherError.capsule (o.get_bytes len r2)
    (prefix_len, r4) ← or_err AetherError.capsule (o.get_u8 r3)
    ok (
      record {
        request_id = request_id;
        ip_version = ip_version;
        address = address;
        prefix_len = prefix_len;
      },
      r4,
    )

  pub address_loop : ℕ → Reader → List AssignedAddress → Outcome AetherError (List AssignedAddress)
  address_loop fuel [] out = ok out
  address_loop zero (b ∷ r) out = stuck
  address_loop (suc fuel) (b ∷ r) out = do
    (a, rest) ← get_assigned (b ∷ r)
    address_loop fuel rest (out ++ (a ∷ []))

  -- Every round takes a byte at least.
  pub parse_address_assign : List ℕ → Outcome AetherError (List AssignedAddress)
  parse_address_assign value = address_loop (length value) value []

  pub get_route : Reader → Outcome AetherError (RouteAdvertisement × Reader)
  get_route r = do
    (ip_version, r1) ← or_err AetherError.capsule (o.get_u8 r)
    len ← addr_len ip_version
    (start, r2) ← or_err AetherError.capsule (o.get_bytes len r1)
    (end, r3) ← or_err AetherError.capsule (o.get_bytes len r2)
    (protocol, r4) ← or_err AetherError.capsule (o.get_u8 r3)
    ok (record { ip_version = ip_version; start = start; end = end; protocol = protocol }, r4)

  pub route_loop :
      ℕ → Reader → List RouteAdvertisement → Outcome AetherError (List RouteAdvertisement)
  route_loop fuel [] out = ok out
  route_loop zero (b ∷ r) out = stuck
  route_loop (suc fuel) (b ∷ r) out = do
    (a, rest) ← get_route (b ∷ r)
    route_loop fuel rest (out ++ (a ∷ []))

  pub parse_route_advertisement : List ℕ → Outcome AetherError (List RouteAdvertisement)
  parse_route_advertisement value = route_loop (length value) value []

  -- the `match kind` of `next`
  unfoldable pub capsule_of : ℕ → List ℕ → Outcome AetherError (Option Capsule)
  capsule_of kind value =
      if kind == capsule_address_assign
      then (parse_address_assign value >>= λ addrs. ok (some (address_assign addrs)))
      else if kind == capsule_address_request
      then ok (some address_request)
      else if kind == capsule_route_advertisement
      then (parse_route_advertisement value >>= λ routes. ok (some (route_advertisement routes)))
      else if kind == capsule_datagram
      then ok (some (datagram value))
      else ok (some (unknown kind value))

  -- The result of `next`, and the buffer behind it: `drain(0..b.off())`, also where parsing the value
  -- fails afterwards.
  unfoldable pub next : List ℕ → Outcome AetherError (Option Capsule) × List ℕ
  next buf = elim (o.get_varint buf) [
    | none ↦ (ok none, buf)
    | some (kind, r1) ↦ elim (o.get_varint r1) [
      | none ↦ (ok none, buf)
      | some (len, r2) ↦ if ltb (length r2) len then (ok none, buf) else elim (o.get_bytes len r2) [
        | none ↦ (err AetherError.capsule, buf)
        | some (value, r3) ↦ (capsule_of kind value, drop (length buf - length r3) buf)
      ]
    ]
  ]
