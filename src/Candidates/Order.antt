-- ===== src/Candidates/Order.antt =====
-- The order and completeness of the candidates of aether/src/prober.rs.
use aether_gui.Common.{
  All-weaken, All-split, ℕ, ◌≡◌, refl, sym, ap, ◌∙◌, subst, inl, inr, Bool, true, false, ◌&&◌, not,
  List, [], ◌∷◌, map, arith, All, ◌==◌, if◌then◌else◌, ==_iff, ==_refl, Bool-cases,
}
use aether_gui.Common.Outcome.{}
use aether_gui.Common.Distinct.{
  Has, IsDistinct, insert_all-keeps, insert_all-adds, insert_all-IsDistinct,
}
use aether_gui.Candidates.{
  Address, ipv4, ipv6, same_address, Endpoint, same_endpoint, at_port, other_ports, seeds_at_ports,
  insert_endpoints, insert_family, first_port,
}

eq_sym : (a b : ℕ) → (a == b) ≡ (b == a)
eq_sym a b = ground arith

same_address_refl : (a : Address) → same_address a a ≡ true
same_address_refl (ipv4 a) = ==_refl a
same_address_refl (ipv6 a) = ==_refl a

same_address_sym : (a b : Address) → same_address a b ≡ same_address b a
same_address_sym (ipv4 a) (ipv4 b) = eq_sym a b
same_address_sym (ipv4 a) (ipv6 b) = refl
same_address_sym (ipv6 a) (ipv4 b) = refl
same_address_sym (ipv6 a) (ipv6 b) = eq_sym a b

pub same_endpoint_refl : (e : Endpoint) → same_endpoint e e ≡ true
same_endpoint_refl e =
    ap (λ b. b && e.port == e.port) (same_address_refl e.address) ∙ ==_refl e.port

pub same_endpoint_sym : (d e : Endpoint) → same_endpoint d e ≡ same_endpoint e d
same_endpoint_sym d e =
    ap (λ b. b && d.port == e.port) (same_address_sym d.address e.address)
    ∙ ap (λ b. same_address e.address d.address && b) (eq_sym d.port e.port)

abbrev pub Tried : List Endpoint → Endpoint → Type 0
Tried = Has same_endpoint

pub keeps :
    (e : Endpoint) (xs out : List Endpoint) → Tried out e → Tried (insert_endpoints xs out) e
keeps = insert_all-keeps same_endpoint

pub adds : (xs out : List Endpoint) → All (Tried (insert_endpoints xs out)) xs
adds = insert_all-adds same_endpoint same_endpoint_refl

pub distinct :
    (xs out : List Endpoint)
    → IsDistinct same_endpoint out
    → IsDistinct same_endpoint (insert_endpoints xs out)
distinct = insert_all-IsDistinct same_endpoint same_endpoint_sym

module _ (primary : ℕ) (seeds hosts : List Address) (out : List Endpoint) where
  pub insert_family-IsDistinct :
      IsDistinct same_endpoint out
      → IsDistinct same_endpoint (insert_family primary seeds hosts out)
  unfolding insert_family
  insert_family-IsDistinct d =
      distinct (map (at_port primary) hosts) (insert_endpoints (map (at_port primary) seeds) out)
        (distinct (map (at_port primary) seeds) out d)

  pub insert_family-keeps :
      (e : Endpoint) → Tried out e → Tried (insert_family primary seeds hosts out) e
  unfolding insert_family
  insert_family-keeps e h =
      keeps e (map (at_port primary) hosts) (insert_endpoints (map (at_port primary) seeds) out)
        (keeps e (map (at_port primary) seeds) out h)

  pub insert_family-adds_hosts :
      All (Tried (insert_family primary seeds hosts out)) (map (at_port primary) hosts)
  unfolding insert_family
  insert_family-adds_hosts =
      adds (map (at_port primary) hosts) (insert_endpoints (map (at_port primary) seeds) out)

  pub insert_family-adds_seeds :
      All (Tried (insert_family primary seeds hosts out)) (map (at_port primary) seeds)
  unfolding insert_family
  insert_family-adds_seeds =
      All-weaken
        (λ e h.
          keeps e (map (at_port primary) hosts) (insert_endpoints (map (at_port primary) seeds) out)
            h)
        (map (at_port primary) seeds) (adds (map (at_port primary) seeds) out)

-- Each seed is tried at each port, and each host at the first.
abbrev pub Covers : List Endpoint → List ℕ → List Address → List Address → Type 0
Covers out ports seeds hosts =
    All (λ a. All (λ port. Tried out (at_port port a)) (first_port ports ∷ ports)) seeds
    × All (λ a. Tried out (at_port (first_port ports) a)) hosts

module _ (out : List Endpoint) (primary : ℕ) where
  other_ports-Tried :
      (a : Address) (ports : List ℕ)
      → Tried out (at_port primary a)
      → All (Tried out) (other_ports primary ports a)
      → All (λ port. Tried out (at_port port a)) ports
  other_ports-Tried a [] h hs = tt
  other_ports-Tried a (port ∷ ports) h hs = elim (Bool-cases (port == primary)) [
    | inl e ↦ (
      subst (λ p. Tried out (at_port p a)) (sym ((==_iff port primary).0 e)) h,
      other_ports-Tried a ports h (unless (at_port port a) _ (port == primary) e hs),
    )
    | inr e ↦
        let both = needed (at_port port a) _ (port == primary) e hs in
        (both.0, other_ports-Tried a ports h both.1)
  ]
    where
      unless :
          (x : Endpoint) (rest : List Endpoint) (b : Bool)
          → b ≡ true
          → All (Tried out) (if not b then x ∷ rest else rest)
          → All (Tried out) rest
      unless x rest b e k = subst (λ c. All (Tried out) (if not c then x ∷ rest else rest)) e k

      needed :
          (x : Endpoint) (rest : List Endpoint) (b : Bool)
          → b ≡ false
          → All (Tried out) (if not b then x ∷ rest else rest)
          → All (Tried out) (x ∷ rest)
      needed x rest b e k = subst (λ c. All (Tried out) (if not c then x ∷ rest else rest)) e k

  pub seeds_at_ports-Tried :
      (ports : List ℕ) (seeds : List Address)
      → All (Tried out) (map (at_port primary) seeds)
      → All (Tried out) (seeds_at_ports primary ports seeds)
      → All (λ a. All (λ port. Tried out (at_port port a)) (primary ∷ ports)) seeds
  seeds_at_ports-Tried ports [] h k = tt
  seeds_at_ports-Tried ports (a ∷ seeds) (h, hs) k =
      let parts = All-split (Tried out) (other_ports primary ports a) _ k in
      ((h, other_ports-Tried a ports h parts.0), seeds_at_ports-Tried ports seeds hs parts.1)
