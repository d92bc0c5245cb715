-- ===== src/Tunnel.antt =====
-- How the HTTP/2 tunnel of aether/src/masque_h2.rs takes data out of the capsule parser.
pub mod Drain
pub mod Stream
pub mod Chunks
pub mod Carrying
mod Tests
use aether_gui.Common.{
  ℕ, zero, suc, ◌+◌, ◌-◌, ◌*◌, ◌/◌, ◌%◌, ◌^◌, ◌≤◌, ◌<◌, ◌≡◌, refl, sym, ap, ◌∙◌, subst, ◌≢◌, ◌↔◌,
  ◌⊎◌, inl, inr, Bool, true, false, ◌&&◌, ◌||◌, not, Option, none, some, List, [], ◌∷◌, ◌++◌, map,
  append-nil, append_assoc, arith, bit_and, min, max, length, get_elem?, take, drop, replicate, All,
  length-append, length-take, length-drop, take-append-drop, drop-nil, drop-add, drop-length_append,
  take-length_append, take-length, drop-length, take-append_le, drop-append_le, get_elem?-add,
  get_elem?-lt, get_elem?-drop, get_elem?-drop_zero, drop-step, get_elem?-All, All-append, ltb, leb,
  ◌==◌, if◌then◌else◌, ltb→lt, lt→ltb, le→ltb, ltb→le, leb→le, le→leb, lt→leb, ==_iff, ==_refl,
  Bool-cases, Option-cases,
}
use aether_gui.Common.Outcome.{
  Outcome, ok, err, panic, stuck, Absent, absent, ◌>>=◌, ◌>>◌, guard, of_index, or_err, index,
  checked_add, Ensures, Ensures-bind, get_elem?-some, index-Ensures, index-Ensures-All,
  guard-Ensures,
}
use aether_gui.Common.Bytes.{IsByte, IsBytes, u16_be, be16, be32}
use aether_gui.Error.{AetherError}
use aether_gui.Net.{IpAddr, v4, v6}
use aether_gui.Octets.{Octets}
use aether_gui.Masque.{
  Capsule, datagram, address_assign, address_request, route_advertisement, unknown, AssignedAddress,
  next, push, decode_ip_datagram,
}

pub record AssignedAddr : Type 0 where
  pub ip : IpAddr
  pub prefix : ℕ

unfoldable pub bytes_to_ip : ℕ → List ℕ → Option IpAddr
bytes_to_ip version bytes =
    if version == 4 && length bytes == 4
    then some (v4 bytes)
    else if version == 6 && length bytes == 16
    then some (v6 bytes)
    else none

abbrev prepend : Option IpAddr → ℕ → List AssignedAddr → List AssignedAddr
prepend none prefix rest = rest
prepend (some ip) prefix rest = record { ip = ip; prefix = prefix } ∷ rest

-- `for a in addrs`: what is handed to `addr_tx.try_send`, whose errors are ignored.
unfoldable pub assigned : List AssignedAddress → List AssignedAddr
assigned [] = []
assigned (a ∷ rest) = prepend (bytes_to_ip a.ip_version a.address) a.prefix_len (assigned rest)

-- The parser's buffer, and what a drain has handed out so far.
pub record Drained : Type 0 where
  pub buf : List ℕ
  pub delivered : Bool
  pub packets : List (List ℕ)
  pub addresses : List AssignedAddr

pub fresh : List ℕ → Drained
fresh buf = record { buf = buf; delivered = false; packets = []; addresses = [] }

-- `inbound_tx.send(pkt).await`: it fails when the receiver is gone, and then the drain returns.
unfoldable pub deliver :
    Bool → List ℕ → Drained → (Drained → Outcome Absent Drained) → Outcome Absent Drained
deliver true pkt d again = again (record d { delivered = true; packets = d.packets ++ (pkt ∷ []) })
deliver false pkt d again = ok (record d { delivered = true })

-- The `match` on what `next` returned, with the state behind it.
unfoldable pub handle_capsule :
    Bool
    → Outcome AetherError (Option Capsule)
    → Drained
    → (Drained → Outcome Absent Drained)
    → Outcome Absent Drained
unfolding deliver
handle_capsule open_ (ok none) d again = ok d
handle_capsule open_ (ok (some (datagram pkt))) d again = deliver open_ pkt d again
handle_capsule open_ (ok (some (address_assign addrs))) d again =
    again (record d { addresses = d.addresses ++ assigned addrs })
handle_capsule open_ (ok (some address_request)) d again = again d
handle_capsule open_ (ok (some (route_advertisement routes))) d again = again d
handle_capsule open_ (ok (some (unknown kind payload))) d again = again d
handle_capsule open_ (err e) d again = ok d
handle_capsule open_ panic d again = panic
handle_capsule open_ stuck d again = stuck

module _ (o : Octets) (inbound_open : Bool) where
  -- the `loop` of `drain_capsules`
  unfoldable pub drain_loop : ℕ → Drained → Outcome Absent Drained
  drain_loop zero d = stuck
  drain_loop (suc fuel) d =
      let (result, buf') = next o d.buf in
      handle_capsule inbound_open result (record d { buf = buf' }) (drain_loop fuel)

  -- Every round that goes on has taken a capsule off the buffer.
  unfoldable pub drain_capsules : List ℕ → Outcome Absent Drained
  drain_capsules buf = drain_loop (suc (length buf)) (fresh buf)

  -- Each chunk of the response body is pushed into the parser, which is then drained.
  unfoldable pub feed_chunks : List (List ℕ) → List ℕ → Outcome Absent Drained
  feed_chunks [] buf = ok (fresh buf)
  feed_chunks (chunk ∷ chunks) buf = do
    d ← drain_capsules (push buf chunk)
    rest ← feed_chunks chunks d.buf
    ok (record rest {
      delivered = d.delivered || rest.delivered;
      packets = d.packets ++ rest.packets;
      addresses = d.addresses ++ rest.addresses;
    })
