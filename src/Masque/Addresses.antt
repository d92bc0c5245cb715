-- ===== src/Masque/Addresses.antt =====
-- `parse_address_assign` of aether/src/masque.rs on what the edge encodes (RFC 9484, section 4.7.1).
use aether_gui.Common.{
  ℕ, zero, suc, ◌≤◌, ◌<◌, ◌≡◌, refl, sym, ap, ◌∙◌, ◌⊎◌, List, [], ◌∷◌, ◌++◌, append-nil,
  append_assoc, arith, length, All, length-append, drop-length_append, take-length_append, le→leb,
}
use aether_gui.Common.Outcome.{ok}
use aether_gui.Octets.{Octets, IsOctets, IsVarint, Reader}
use aether_gui.Masque.{AssignedAddress, addr_len, get_assigned, address_loop, parse_address_assign}

-- An address of version 4 has four bytes, one of version 6 sixteen.
abbrev pub IsVersioned : ℕ → List ℕ → Type 0
IsVersioned version address =
    (version ≡ 4) × (length address ≡ 4) ⊎ (version ≡ 6) × (length address ≡ 16)

pub record IsAssigned (a : AssignedAddress) : Type 0 where
  pub request_id : IsVarint a.request_id
  pub versioned : IsVersioned a.ip_version a.address

addr_len-IsVersioned :
    (version : ℕ) (address : List ℕ)
    → IsVersioned version address
    → addr_len version ≡ ok (length address)
unfolding addr_len
addr_len-IsVersioned version address h = ground arith

module _ (o : Octets) (laws : IsOctets o) where
  open laws use {varint}

  abbrev pub encode_assigned : AssignedAddress → List ℕ
  encode_assigned a = varint a.request_id ++ (a.ip_version ∷ (a.address ++ (a.prefix_len ∷ [])))

  abbrev pub encode_all : List AssignedAddress → List ℕ
  encode_all [] = []
  encode_all (a ∷ more) = encode_assigned a ++ encode_all more

  get_assigned-encode_assigned :
      (a : AssignedAddress) (rest : Reader)
      → IsAssigned a
      → get_assigned o (encode_assigned a ++ rest) ≡ ok (a, rest)
  unfolding get_assigned
  get_assigned-encode_assigned a rest h =
      rw
        (append_assoc (varint a.request_id) (a.ip_version ∷ (a.address ++ (a.prefix_len ∷ [])))
          rest)
        (rw
          (laws.get-varint a.request_id
            ((a.ip_version ∷ (a.address ++ (a.prefix_len ∷ []))) ++ rest) h.request_id)
          (rw (laws.get_u8_cons a.ip_version ((a.address ++ (a.prefix_len ∷ [])) ++ rest)) (
            rw (addr_len-IsVersioned a.ip_version a.address h.versioned) (
              rw (append_assoc a.address (a.prefix_len ∷ []) rest) (
                rw (laws.get_bytes_lem (length a.address) (a.address ++ (a.prefix_len ∷ rest))) (
                  rw
                    (le→leb (length a.address) (length (a.address ++ (a.prefix_len ∷ rest)))
                      (omega (arith, length-append a.address (a.prefix_len ∷ rest))))
                    (rw (take-length_append a.address (a.prefix_len ∷ rest)) (
                      rw (drop-length_append a.address (a.prefix_len ∷ rest))
                        (rw (laws.get_u8_cons a.prefix_len rest))))))))))

  length-encode_assigned : (a : AssignedAddress) → 0 < length (encode_assigned a)
  length-encode_assigned a = omega (
    arith,
    length-append (varint a.request_id) (a.ip_version ∷ (a.address ++ (a.prefix_len ∷ []))),
  )

  address_loop_round :
      (fuel : ℕ) (a : AssignedAddress) (rest r : Reader) (out : List AssignedAddress)
      → IsAssigned a
      → r ≡ encode_assigned a ++ rest
      → address_loop o (suc fuel) r out ≡ address_loop o fuel rest (out ++ (a ∷ []))
  address_loop_round fuel a rest [] out h e =
      absurd (
        omega
          (arith, ap length e, length-append (encode_assigned a) rest, length-encode_assigned a))
  address_loop_round fuel a rest (b ∷ r) out h e =
      unfold address_loop in rw (ap (get_assigned o) e ∙ get_assigned-encode_assigned a rest h)

  address_loop-encode_all :
      (addresses : List AssignedAddress) (fuel : ℕ) (out : List AssignedAddress)
      → All IsAssigned addresses
      → length (encode_all addresses) ≤ fuel
      → address_loop o fuel (encode_all addresses) out ≡ ok (out ++ addresses)
  address_loop-encode_all [] fuel out h enough = unfold address_loop in ap ok (sym (append-nil out))
  address_loop-encode_all (a ∷ more) zero out h enough =
      absurd (
        omega
          (arith, length-append (encode_assigned a) (encode_all more), length-encode_assigned a))
  address_loop-encode_all (a ∷ more) (suc fuel) out (h, hs) enough =
      address_loop_round fuel a (encode_all more) _ out h refl
      ∙ address_loop-encode_all more fuel (out ++ (a ∷ [])) hs (
          omega
            (arith, length-append (encode_assigned a) (encode_all more), length-encode_assigned a))
      ∙ ap ok (append_assoc out (a ∷ []) more)

  -- Every list of addresses that the edge encodes is read back as it was.
  pub parse_address_assign-encode_all :
      (addresses : List AssignedAddress)
      → All IsAssigned addresses
      → parse_address_assign o (encode_all addresses) ≡ ok addresses
  unfolding parse_address_assign
  parse_address_assign-encode_all addresses h =
      address_loop-encode_all addresses (length (encode_all addresses)) [] h (omega arith)
