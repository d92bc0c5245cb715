-- ===== src/Candidates/Building.antt =====
-- What the candidates of aether/src/prober.rs hold.
use aether_gui.Common.{
  All-weaken, All-map, ℕ, ◌≡◌, Bool, true, false, Option, List, [], ◌∷◌, map, All, if◌then◌else◌,
}
use aether_gui.Common.Outcome.{ok, Ensures}
use aether_gui.Common.Distinct.{IsDistinct}
use aether_gui.Candidates.Ranges.{masque_seeds, masque_seeds_v6}
use aether_gui.Candidates.Order.{
  Tried, keeps, adds, distinct, Covers, insert_family-IsDistinct, insert_family-keeps,
  insert_family-adds_hosts, insert_family-adds_seeds, seeds_at_ports-Tried,
}
use aether_gui.Candidates.Turns.{in_turn-All}
use aether_gui.Candidates.{
  Address, ipv4, ipv6, Endpoint, same_endpoint, at_port, seeds_at_ports, insert_endpoints,
  insert_family, first_port, in_turn, order_candidates, parse_seeds, hosts_v4, hosts_v6, Draw,
  build_candidates,
}
use aether_gui.Prober.{Strategy, IpScan, v4_only, v6_only, both, want_v4, want_v6}

module _ (ports : List ℕ) (seeds hosts : List Address) (out result : List Endpoint) where
  -- What a family adds stays, and so do the seeds at the other ports.
  family-Covers :
      ((e : Endpoint) → Tried (insert_family (first_port ports) seeds hosts out) e → Tried result e)
      → All (Tried result) (seeds_at_ports (first_port ports) ports seeds)
      → Covers result ports seeds hosts
  family-Covers stays others = (
    seeds_at_ports-Tried result (first_port ports) ports seeds
        (All-weaken stays _ (insert_family-adds_seeds (first_port ports) seeds hosts out)) others,
    All-map (Tried result) (at_port (first_port ports)) hosts
        (All-weaken stays _ (insert_family-adds_hosts (first_port ports) seeds hosts out)),
  )

abbrev pub Ordered :
    IpScan
    → List ℕ
    → List Address
    → List Address
    → List Address
    → List Address
    → List Endpoint
    → Type 0
Ordered ip ports seeds hosts seeds6 hosts6 out =
    IsDistinct same_endpoint out
    × (if want_v4 ip then Covers out ports seeds hosts else Unit)
    × (if want_v6 ip then Covers out ports seeds6 hosts6 else Unit)

order_candidates-Ordered :
    (ip : IpScan) (ports : List ℕ) (seeds hosts seeds6 hosts6 : List Address)
    → Ordered ip ports seeds hosts seeds6 hosts6
        (order_candidates ip ports seeds hosts seeds6 hosts6)
unfolding order_candidates want_v4 want_v6
order_candidates-Ordered v4_only ports seeds hosts seeds6 hosts6 = (
  distinct others family (insert_family-IsDistinct (first_port ports) seeds hosts [] tt),
  family-Covers ports seeds hosts [] (insert_endpoints others family)
      (λ e h. keeps e others family h) (adds others family),
  tt,
)
  where
    others : List Endpoint
    others = seeds_at_ports (first_port ports) ports seeds

    family : List Endpoint
    family = insert_family (first_port ports) seeds hosts []
order_candidates-Ordered v6_only ports seeds hosts seeds6 hosts6 = (
  distinct others family (insert_family-IsDistinct (first_port ports) seeds6 hosts6 [] tt),
  tt,
  family-Covers ports seeds6 hosts6 [] (insert_endpoints others family)
      (λ e h. keeps e others family h) (adds others family),
)
  where
    others : List Endpoint
    others = seeds_at_ports (first_port ports) ports seeds6

    family : List Endpoint
    family = insert_family (first_port ports) seeds6 hosts6 []
order_candidates-Ordered both ports seeds hosts seeds6 hosts6 = (
  distinct others6 _ (
      distinct others _ (
        insert_family-IsDistinct primary seeds6 hosts6 family
          (insert_family-IsDistinct primary seeds hosts [] tt))),
  family-Covers ports seeds hosts [] (insert_endpoints others6 (insert_endpoints others family6))
      (λ e h.
        keeps e others6 (insert_endpoints others family6)
          (keeps e others family6 (insert_family-keeps primary seeds6 hosts6 family e h)))
      (All-weaken (λ e h. keeps e others6 (insert_endpoints others family6) h) others
        (adds others family6)),
  family-Covers ports seeds6 hosts6 family
      (insert_endpoints others6 (insert_endpoints others family6))
      (λ e h. keeps e others6 (insert_endpoints others family6) (keeps e others family6 h))
      (adds others6 (insert_endpoints others family6)),
)
  where
    primary : ℕ
    primary = first_port ports

    others : List Endpoint
    others = seeds_at_ports primary ports seeds

    others6 : List Endpoint
    others6 = seeds_at_ports primary ports seeds6

    family : List Endpoint
    family = insert_family primary seeds hosts []

    family6 : List Endpoint
    family6 = insert_family primary seeds6 hosts6 family

-- Every seed at every port, and every host of every range at the first.
abbrev pub CoversRanges : List Endpoint → List ℕ → (ℕ → Address) → List ℕ → List (List ℕ) → Type 0
CoversRanges out ports family seeds ranges =
    All (λ a. All (λ port. Tried out (at_port port (family a))) (first_port ports ∷ ports)) seeds
    × All (All (λ a. Tried out (at_port (first_port ports) (family a)))) ranges

Covers-CoversRanges :
    (wanted : Bool) (out : List Endpoint) (ports : List ℕ) (family : ℕ → Address) (seeds : List ℕ)
    (ranges : List (List ℕ))
    → (if wanted then Covers out ports (map family seeds) (map family (in_turn ranges)) else Unit)
    → (if wanted then CoversRanges out ports family seeds ranges else Unit)
Covers-CoversRanges false out ports family seeds ranges h = tt
Covers-CoversRanges true out ports family seeds ranges (h, k) = (
  All-map (λ a. All (λ port. Tried out (at_port port a)) (first_port ports ∷ ports)) family seeds h,
  in_turn-All (λ a. Tried out (at_port (first_port ports) (family a))) ranges
      (All-map (λ a. Tried out (at_port (first_port ports) a)) family (in_turn ranges) k),
)

module _ (parse4 parse6 : List ℕ → Option ℕ) (draws4 : List ℕ → List ℕ)
    (draws6 : List ℕ → ℕ → Draw) where
  -- The candidates of a scan whose ranges gave these hosts: none twice, and all that is wanted.
  abbrev pub IsCandidates : List ℕ → IpScan → List (List ℕ) → List (List ℕ) → List Endpoint → Type 0
  IsCandidates ports ip hosts hosts6 out =
      IsDistinct same_endpoint out
      × (if want_v4 ip
          then CoversRanges out ports ipv4 (parse_seeds parse4 masque_seeds) hosts
          else Unit)
      × (if want_v6 ip
          then CoversRanges out ports ipv6 (parse_seeds parse6 masque_seeds_v6) hosts6
          else Unit)

  -- When the ranges of the wanted families give these hosts, the candidates are built: no pair of
  -- address and port is there twice, every seed of a wanted family is there with every port, and every
  -- host of every range with the first port.
  pub build_candidates-IsCandidates :
      (st : Strategy) (ports : List ℕ) (ip : IpScan) (hosts hosts6 : List (List ℕ))
      → hosts_v4 parse4 parse6 draws4 draws6 st (want_v4 ip) ≡ ok hosts
      → hosts_v6 parse4 parse6 draws4 draws6 st (want_v6 ip) ≡ ok hosts6
      → Ensures
          (IsCandidates ports ip hosts hosts6)
          (build_candidates parse4 parse6 draws4 draws6 st ports ip)
  unfolding build_candidates
  build_candidates-IsCandidates st ports ip hosts hosts6 e e6 = rw e (
      rw e6 (
        ordered.0,
        Covers-CoversRanges (want_v4 ip) _ ports ipv4 (parse_seeds parse4 masque_seeds) hosts
            ordered.1,
        Covers-CoversRanges (want_v6 ip) _ ports ipv6 (parse_seeds parse6 masque_seeds_v6) hosts6
            ordered.2,
      ))
    where
      ordered :
          Ordered ip ports
            (map ipv4 (parse_seeds parse4 masque_seeds))
            (map ipv4 (in_turn hosts))
            (map ipv6 (parse_seeds parse6 masque_seeds_v6))
            (map ipv6 (in_turn hosts6))
            (order_candidates ip ports
              (map ipv4 (parse_seeds parse4 masque_seeds))
              (map ipv4 (in_turn hosts))
              (map ipv6 (parse_seeds parse6 masque_seeds_v6))
              (map ipv6 (in_turn hosts6)))
      ordered = order_candidates-Ordered ip ports _ _ _ _
