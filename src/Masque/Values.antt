-- ===== src/Masque/Values.antt =====
-- The values of capsules in aether/src/masque.rs: the loops of `parse_address_assign` and
-- `parse_route_advertisement` end, and read back what a server encodes.
use aether_gui.Common.{
  ℕ, zero, suc, ◌≤◌, ◌<◌, ◌≡◌, ap, ◌≢◌, inl, inr, none, List, [], ◌∷◌, ◌++◌, arith, length,
  length-append, length-drop, Option-cases,
}
use aether_gui.Common.Outcome.{or_err, Ensures, Ensures-bind}
use aether_gui.Error.{AetherError}
use aether_gui.Octets.{Octets, IsOctets, Reader}
use aether_gui.Masque.{
  AssignedAddress, RouteAdvertisement, addr_len, get_assigned, address_loop, parse_address_assign,
  get_route, route_loop, parse_route_advertisement, capsule_of,
}

module _ (o : Octets) (laws : IsOctets o) where
  open laws use {varint}

  abbrev Shorter {ℓ} : {A : Type ℓ} → Reader → A × Reader → Type 0
  Shorter r p = length p.1 < length r

  abbrev NoLonger {ℓ} : {A : Type ℓ} → Reader → A × Reader → Type 0
  NoLonger r p = length p.1 ≤ length r

  varint-Ensures : (r : Reader) → Ensures (Shorter r) (or_err AetherError.capsule (o.get_varint r))
  varint-Ensures r = elim (Option-cases (o.get_varint r)) [
    | inl e ↦ rw e tt
    | inr ((v, rest), e) ↦ rw e (shorter v rest (laws.get_varint_front r v rest e))
  ]
    where
      shorter :
          (v : ℕ) (rest : Reader)
          → (front : List ℕ) × (r ≡ front ++ rest) × (0 < length front)
          → length rest < length r
      shorter v rest (front, split, some_bytes) =
          omega (arith, ap length split, length-append front rest)

  u8-Ensures : (r : Reader) → Ensures (Shorter r) (or_err AetherError.capsule (o.get_u8 r))
  u8-Ensures [] = rw laws.get_u8_nil tt
  u8-Ensures (b ∷ r) = rw (laws.get_u8_cons b r) (omega arith)

  bytes-Ensures :
      (n : ℕ) (r : Reader) → Ensures (NoLonger r) (or_err AetherError.capsule (o.get_bytes n r))
  bytes-Ensures n r = rw (laws.get_bytes_lem n r) (ground (arith, length-drop n r))

  addr_len-Ensures : (v : ℕ) → Ensures (λ _. Unit {0}) (addr_len v)
  unfolding addr_len
  addr_len-Ensures v = ground arith

  get_assigned-Ensures : (r : Reader) → Ensures (Shorter r) (get_assigned o r)
  unfolding get_assigned
  get_assigned-Ensures r =
      Ensures-bind _ _ (or_err AetherError.capsule (o.get_varint r)) _ (varint-Ensures r) λ p1 h1.
        Ensures-bind _ _ (or_err AetherError.capsule (o.get_u8 p1.1)) _ (u8-Ensures p1.1) λ p2 h2.
          Ensures-bind _ _ (addr_len p2.0) _ (addr_len-Ensures p2.0) λ len _.
            Ensures-bind _ _ (or_err AetherError.capsule (o.get_bytes len p2.1)) _
              (bytes-Ensures len p2.1)
              λ p3 h3.
                Ensures-bind _ _ (or_err AetherError.capsule (o.get_u8 p3.1)) _ (u8-Ensures p3.1)
                  λ p4 h4. omega arith

  get_route-Ensures : (r : Reader) → Ensures (Shorter r) (get_route o r)
  unfolding get_route
  get_route-Ensures r =
      Ensures-bind _ _ (or_err AetherError.capsule (o.get_u8 r)) _ (u8-Ensures r) λ p1 h1.
        Ensures-bind _ _ (addr_len p1.0) _ (addr_len-Ensures p1.0) λ len _.
          Ensures-bind _ _ (or_err AetherError.capsule (o.get_bytes len p1.1)) _
            (bytes-Ensures len p1.1)
            λ p2 h2.
              Ensures-bind _ _ (or_err AetherError.capsule (o.get_bytes len p2.1)) _
                (bytes-Ensures len p2.1)
                λ p3 h3.
                  Ensures-bind _ _ (or_err AetherError.capsule (o.get_u8 p3.1)) _ (u8-Ensures p3.1)
                    λ p4 h4. omega arith

  address_loop-Ensures :
      (fuel : ℕ) (r : Reader) (out : List AssignedAddress)
      → length r ≤ fuel
      → Ensures (λ _. Unit {0}) (address_loop o fuel r out)
  unfolding address_loop
  address_loop-Ensures zero [] out h = tt
  address_loop-Ensures (suc fuel) [] out h = tt
  address_loop-Ensures zero (b ∷ r) out h = absurd (omega arith)
  address_loop-Ensures (suc fuel) (b ∷ r) out h =
      Ensures-bind _ _ (get_assigned o (b ∷ r)) _ (get_assigned-Ensures (b ∷ r))
        λ p shorter. address_loop-Ensures fuel p.1 (out ++ (p.0 ∷ [])) (omega arith)

  route_loop-Ensures :
      (fuel : ℕ) (r : Reader) (out : List RouteAdvertisement)
      → length r ≤ fuel
      → Ensures (λ _. Unit {0}) (route_loop o fuel r out)
  unfolding route_loop
  route_loop-Ensures zero [] out h = tt
  route_loop-Ensures (suc fuel) [] out h = tt
  route_loop-Ensures zero (b ∷ r) out h = absurd (omega arith)
  route_loop-Ensures (suc fuel) (b ∷ r) out h =
      Ensures-bind _ _ (get_route o (b ∷ r)) _ (get_route-Ensures (b ∷ r))
        λ p shorter. route_loop-Ensures fuel p.1 (out ++ (p.0 ∷ [])) (omega arith)

  -- Whatever a complete capsule holds, `next` ends with a capsule or with an error: it neither panics
  -- nor loops, and does not take the capsule for an incomplete one.
  pub capsule_of-Ensures :
      (kind : ℕ) (value : List ℕ) → Ensures (λ c. c ≢ none) (capsule_of o kind value)
  unfolding capsule_of
  capsule_of-Ensures kind value = ground (arith, addresses, routes)
    where
      addresses : Ensures (λ _. Unit {0}) (parse_address_assign o value)
      addresses =
          unfold parse_address_assign in address_loop-Ensures (length value) value [] (omega arith)

      routes : Ensures (λ _. Unit {0}) (parse_route_advertisement o value)
      routes =
          unfold parse_route_advertisement in
          route_loop-Ensures (length value) value [] (omega arith)
