-- ===== src/Tunnel/Stream.antt =====
-- What the edge sends over an HTTP/2 response body, and what `drain_capsules` of
-- aether/src/masque_h2.rs does with one capsule of it.
use aether_gui.Common.{
  ℕ, ◌≡◌, refl, sym, ap, ◌∙◌, true, some, List, [], ◌∷◌, ◌++◌, append-nil, append_assoc,
}
use aether_gui.Common.Outcome.{Outcome, ok, Absent}
use aether_gui.Masque.{
  Capsule, datagram, address_assign, address_request, route_advertisement, unknown,
}
use aether_gui.Tunnel.{AssignedAddr, assigned, Drained, handle_capsule}

-- A capsule that the edge sends, with what it means.
pub record Sent : Type 0 where
  pub kind : ℕ
  pub value : List ℕ
  pub capsule : Capsule

abbrev pub packets_of : Capsule → List (List ℕ)
packets_of (datagram pkt) = pkt ∷ []
packets_of (address_assign addrs) = []
packets_of address_request = []
packets_of (route_advertisement routes) = []
packets_of (unknown kind payload) = []

abbrev pub addresses_of : Capsule → List AssignedAddr
addresses_of (datagram pkt) = []
addresses_of (address_assign addrs) = assigned addrs
addresses_of address_request = []
addresses_of (route_advertisement routes) = []
addresses_of (unknown kind payload) = []

abbrev pub all_packets : List Sent → List (List ℕ)
all_packets [] = []
all_packets (s ∷ rest) = packets_of s.capsule ++ all_packets rest

abbrev pub all_addresses : List Sent → List AssignedAddr
all_addresses [] = []
all_addresses (s ∷ rest) = addresses_of s.capsule ++ all_addresses rest

pub all_packets-append : (a b : List Sent) → all_packets (a ++ b) ≡ all_packets a ++ all_packets b
all_packets-append [] b = refl
all_packets-append (s ∷ a) b =
    ap (λ l. packets_of s.capsule ++ l) (all_packets-append a b)
    ∙ sym (append_assoc (packets_of s.capsule) (all_packets a) (all_packets b))

pub all_addresses-append :
    (a b : List Sent) → all_addresses (a ++ b) ≡ all_addresses a ++ all_addresses b
all_addresses-append [] b = refl
all_addresses-append (s ∷ a) b =
    ap (λ l. addresses_of s.capsule ++ l) (all_addresses-append a b)
    ∙ sym (append_assoc (addresses_of s.capsule) (all_addresses a) (all_addresses b))

abbrev pub joined : List (List ℕ) → List ℕ
joined [] = []
joined (c ∷ chunks) = c ++ joined chunks

-- What a drain with an open receiver does with one capsule.
pub absorb : Capsule → Drained → Drained
absorb (datagram pkt) d = record d { delivered = true; packets = d.packets ++ (pkt ∷ []) }
absorb (address_assign addrs) d = record d { addresses = d.addresses ++ assigned addrs }
absorb address_request d = d
absorb (route_advertisement routes) d = d
absorb (unknown kind payload) d = d

pub handle_capsule-absorb :
    (c : Capsule) (d : Drained) (again : Drained → Outcome Absent Drained)
    → handle_capsule true (ok (some c)) d again ≡ again (absorb c d)
unfolding handle_capsule absorb
handle_capsule-absorb (datagram pkt) d again = refl
handle_capsule-absorb (address_assign addrs) d again = refl
handle_capsule-absorb address_request d again = refl
handle_capsule-absorb (route_advertisement routes) d again = refl
handle_capsule-absorb (unknown kind payload) d again = refl

pub absorb_lem :
    (c : Capsule) (d : Drained)
    → ((absorb c d).buf ≡ d.buf)
      × ((absorb c d).packets ≡ d.packets ++ packets_of c)
      × ((absorb c d).addresses ≡ d.addresses ++ addresses_of c)
unfolding absorb
absorb_lem (datagram pkt) d = (refl, refl, sym (append-nil d.addresses))
absorb_lem (address_assign addrs) d = (refl, sym (append-nil d.packets), refl)
absorb_lem address_request d = (refl, sym (append-nil d.packets), sym (append-nil d.addresses))
absorb_lem (route_advertisement routes) d =
    (refl, sym (append-nil d.packets), sym (append-nil d.addresses))
absorb_lem (unknown kind payload) d =
    (refl, sym (append-nil d.packets), sym (append-nil d.addresses))
