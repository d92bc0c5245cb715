-- ===== src/WgScan/Rotation.antt =====
-- The candidates of aether/src/wg_prober.rs.
use aether_gui.Common.{
  ◌+◌, ◌≤◌, refl, sym, ap, ◌∙◌, subst, true, false, ◌||◌, Bool, map, append-nil, append_assoc, All,
  All-append, All-weaken, if_both, ==_refl, ◌++◌, ℕ, suc, ◌%◌, ◌<◌, ◌≡◌, Option, some, List, [],
  ◌∷◌, arith, length, get_elem?, ◌==◌, if◌then◌else◌,
}
use aether_gui.Common.Outcome.{ok, Ensures, Ensures-weaken, get_elem?-some}
use aether_gui.Common.Distinct.{
  IsDistinct, insert_new, insert_all, insert_new-keeps, insert_new-adds, insert_new-IsDistinct,
  insert_all-IsDistinct, insert_all-adds, insert_all-extends, length-insert_new, contains, Has,
}
use aether_gui.Common.Text.{is_empty}
use aether_gui.WgScan.Ranges.{wg_seeds_v4, wg_seeds_v6}
use aether_gui.Candidates.{
  in_turn, parse_seeds, ipv4, ipv6, Address, Endpoint, same_endpoint, at_port, Draw,
}
use aether_gui.Candidates.Order.{Tried, same_endpoint_refl, same_endpoint_sym}
use aether_gui.Prober.{Strategy, IpScan, want_v4, want_v6}
use aether_gui.WgScan.{distinct_ports, rotate_ports, wg_hosts_v4, wg_hosts_v6, build_wg_candidates}

-- The addresses are tried in turn at the ports.
abbrev pub Rotated : List Endpoint → List ℕ → ℕ → List Address → Type 0
Rotated out ports idx [] = Unit
Rotated out ports idx (a ∷ ips) =
    ((port : ℕ) × (get_elem? ports (idx % length ports) ≡ some port) × Tried out (at_port port a))
    × Rotated out ports (suc idx) ips

-- The ports that take turns: those that are given, none twice, or 2408 when none is given.
abbrev pub IsUsed : List ℕ → List ℕ → Type 0
IsUsed [] used = used ≡ 2408 ∷ []
IsUsed (p ∷ ports) used =
    IsDistinct ◌==◌ used × All (Has ◌==◌ used) (p ∷ ports) × All (Has ◌==◌ (p ∷ ports)) used

-- The seeds are tried before the hosts: they are done within as many candidates as there are seeds.
pub record IsRotated (ports : List ℕ) (seeds hosts : List Address) (out : List Endpoint)
    : Type 0 where
  pub once : IsDistinct same_endpoint out
  pub used : List ℕ
  pub usable : IsUsed ports used
  pub front : List Endpoint
  pub rest : List Endpoint
  pub split : out ≡ front ++ rest
  pub few : length front ≤ length seeds
  pub fronted : Rotated front used 0 seeds
  pub rotated : Rotated out used (length seeds) hosts

record Rotation (before : List Endpoint) (ports : List ℕ) (idx : ℕ) (ips : List Address)
    (out : List Endpoint) : Type 0 where
  once : IsDistinct same_endpoint out
  more : List Endpoint
  split : out ≡ before ++ more
  keeps : (e : Endpoint) → Tried before e → Tried out e
  rotated : Rotated out ports idx ips

mod_below : (n k : ℕ) → 0 < k → n % k < k
mod_below n k h = grind arith

rotate_ports-Ensures :
    (ports : List ℕ) (idx : ℕ) (ips : List Address) (out : List Endpoint)
    → 0 < length ports
    → IsDistinct same_endpoint out
    → Ensures (Rotation out ports idx ips) (rotate_ports ports idx ips out)
unfolding rotate_ports
rotate_ports-Ensures ports idx [] out some_port d = record {
  once = d;
  more = [];
  split = sym (append-nil out);
  keeps = λ e h. h;
  rotated = tt;
}
rotate_ports-Ensures ports idx (a ∷ ips) out some_port d =
    let (port, e) =
      get_elem?-some ports (idx % length ports) (mod_below idx (length ports) some_port) in
    let (one, pushed) = insert_all-extends same_endpoint (at_port port a ∷ []) out in
    rw e (
      Ensures-weaken _ _
        (rotate_ports ports (suc idx) ips (insert_new same_endpoint (at_port port a) out))
        (λ r h. record {
          once = h.once;
          more = one ++ h.more;
          split = h.split ∙ ap (λ l. l ++ h.more) pushed ∙ append_assoc out one h.more;
          keeps = λ x k. h.keeps x (insert_new-keeps same_endpoint (at_port port a) x out k);
          rotated = (
            (
              port,
              e,
              h.keeps (at_port port a)
                  (insert_new-adds same_endpoint same_endpoint_refl (at_port port a) out),
            ),
            h.rotated,
          );
        })
        (rotate_ports-Ensures ports (suc idx) ips (insert_new same_endpoint (at_port port a) out)
          some_port (insert_new-IsDistinct same_endpoint same_endpoint_sym (at_port port a) out d)))

-- The seeds, and the hosts behind them, from a position on.
record Staged (before : List Endpoint) (ports : List ℕ) (idx : ℕ) (seeds hosts : List Address)
    (out : List Endpoint) : Type 0 where
  once : IsDistinct same_endpoint out
  front : List Endpoint
  rest : List Endpoint
  split : out ≡ front ++ rest
  few : length front ≤ length before + length seeds
  keeps : (e : Endpoint) → Tried before e → Tried front e
  fronted : Rotated front ports idx seeds
  rotated : Rotated out ports (idx + length seeds) hosts

rotate_ports-Staged :
    (ports : List ℕ) (idx : ℕ) (seeds hosts : List Address) (out : List Endpoint)
    → 0 < length ports
    → IsDistinct same_endpoint out
    → Ensures (Staged out ports idx seeds hosts) (rotate_ports ports idx (seeds ++ hosts) out)
unfolding rotate_ports
rotate_ports-Staged ports idx [] hosts out some_port d =
    Ensures-weaken _ _ (rotate_ports ports idx hosts out)
      (λ r h. record {
        once = h.once;
        front = out;
        rest = h.more;
        split = h.split;
        few = omega arith;
        keeps = λ e k. k;
        fronted = tt;
        rotated = subst (λ i. Rotated r ports i hosts) plain h.rotated;
      })
      (rotate_ports-Ensures ports idx hosts out some_port d)
  where
    plain : idx ≡ idx + 0
    plain = omega arith
rotate_ports-Staged ports idx (a ∷ seeds) hosts out some_port d =
    let (port, e) =
      get_elem?-some ports (idx % length ports) (mod_below idx (length ports) some_port) in
    rw e (
      Ensures-weaken _ _
        (rotate_ports ports (suc idx) (seeds ++ hosts)
          (insert_new same_endpoint (at_port port a) out))
        (λ r h. record {
          once = h.once;
          front = h.front;
          rest = h.rest;
          split = h.split;
          few = omega (arith, h.few, length-insert_new same_endpoint (at_port port a) out);
          keeps = λ x k. h.keeps x (insert_new-keeps same_endpoint (at_port port a) x out k);
          fronted = (
            (
              port,
              e,
              h.keeps (at_port port a)
                  (insert_new-adds same_endpoint same_endpoint_refl (at_port port a) out),
            ),
            h.fronted,
          );
          rotated = subst (λ i. Rotated r ports i hosts) behind h.rotated;
        })
        (rotate_ports-Staged ports (suc idx) seeds hosts
          (insert_new same_endpoint (at_port port a) out) some_port
          (insert_new-IsDistinct same_endpoint same_endpoint_sym (at_port port a) out d)))
  where
    behind : suc idx + length seeds ≡ idx + suc (length seeds)
    behind = omega arith

insert_all-All :
    (P : ℕ → Type 0) (xs out : List ℕ) → All P xs → All P out → All P (insert_all ◌==◌ xs out)
insert_all-All P [] out h k = k
insert_all-All P (x ∷ xs) out (h, hs) k =
    insert_all-All P xs (insert_new ◌==◌ x out) hs
      (if_both (All P) (contains ◌==◌ x out) _ _ k (All-append P out (x ∷ []) k (h, tt)))

All-Has : (xs : List ℕ) → All (Has ◌==◌ xs) xs
All-Has [] = tt
All-Has (x ∷ xs) = (first x (==_refl x), All-weaken (λ y h. later (y == x) h) xs (All-Has xs))
  where
    first : (y : ℕ) → (y == x) ≡ true → Has ◌==◌ (x ∷ xs) y
    first y e = rw e refl

    later : (b : Bool) {c : Bool} → c ≡ true → b || c ≡ true
    later true e = refl
    later false e = e

distinct_ports-IsUsed : (ports : List ℕ) → IsUsed ports (distinct_ports ports)
distinct_ports-IsUsed [] = refl
distinct_ports-IsUsed (p ∷ ports) = by_cases (insert_all ◌==◌ (p ∷ ports) []) (
  insert_all-IsDistinct ◌==◌ (λ a b. ground arith) (p ∷ ports) [] tt,
  insert_all-adds ◌==◌ ==_refl (p ∷ ports) [],
  insert_all-All (Has ◌==◌ (p ∷ ports)) (p ∷ ports) [] (All-Has (p ∷ ports)) tt,
)
  where
    by_cases :
        (l : List ℕ)
        → IsUsed (p ∷ ports) l
        → IsUsed (p ∷ ports) (if is_empty l then 2408 ∷ [] else l)
    by_cases [] (d, every, own) = absurd (clash every.0)
      where
        clash : false ≡ true → ⊥
        clash e = cc
    by_cases (q ∷ l) h = h

distinct_ports_some : (ports : List ℕ) → 0 < length (distinct_ports ports)
distinct_ports_some ports = by_cases (insert_all ◌==◌ ports [])
  where
    by_cases : (l : List ℕ) → 0 < length (if is_empty l then 2408 ∷ [] else l)
    by_cases [] = omega arith
    by_cases (p ∷ l) = omega arith

module _ (parse4 parse6 : List ℕ → Option ℕ) where
  abbrev pub wanted_seeds : IpScan → List Address
  wanted_seeds ip =
      (if want_v4 ip then map ipv4 (parse_seeds parse4 wg_seeds_v4) else [])
      ++ (if want_v6 ip then map ipv6 (parse_seeds parse6 wg_seeds_v6) else [])

abbrev pub wanted_hosts : List (List ℕ) → List (List ℕ) → List Address
wanted_hosts hosts hosts6 = map ipv4 (in_turn hosts) ++ map ipv6 (in_turn hosts6)

module _ (parse4 parse6 : List ℕ → Option ℕ) (draws4 : List ℕ → List ℕ)
    (draws6 : List ℕ → ℕ → Draw) where
  -- When the ranges of the wanted families give these hosts, the candidates are built without a panic:
  -- no pair of address and port is there twice; the addresses are tried in turn at the given ports,
  -- each of which is used once, or at 2408 when none is given; and the seeds come first, within as many
  -- candidates as there are seeds.
  pub build_wg_candidates-IsRotated :
      (st : Strategy) (ports : List ℕ) (ip : IpScan) (hosts hosts6 : List (List ℕ))
      → wg_hosts_v4 parse4 parse6 draws4 draws6 st (want_v4 ip) ≡ ok hosts
      → wg_hosts_v6 parse4 parse6 draws4 draws6 st (want_v6 ip) ≡ ok hosts6
      → Ensures
          (IsRotated ports (wanted_seeds parse4 parse6 ip) (wanted_hosts hosts hosts6))
          (build_wg_candidates parse4 parse6 draws4 draws6 st ports ip)
  unfolding build_wg_candidates
  build_wg_candidates-IsRotated st ports ip hosts hosts6 e e6 = rw e (
      rw e6 (
        Ensures-weaken _ _
          (rotate_ports (distinct_ports ports) 0
            (wanted_seeds parse4 parse6 ip ++ wanted_hosts hosts hosts6) [])
          (λ out h. record {
            once = h.once;
            used = distinct_ports ports;
            usable = distinct_ports-IsUsed ports;
            front = h.front;
            rest = h.rest;
            split = h.split;
            few = omega (arith, h.few);
            fronted = h.fronted;
            rotated =
                subst (λ i. Rotated out (distinct_ports ports) i (wanted_hosts hosts hosts6)) plain
                  h.rotated;
          })
          (rotate_ports-Staged (distinct_ports ports) 0 (wanted_seeds parse4 parse6 ip)
            (wanted_hosts hosts hosts6) [] (distinct_ports_some ports) tt)))
    where
      plain : 0 + length (wanted_seeds parse4 parse6 ip) ≡ length (wanted_seeds parse4 parse6 ip)
      plain = omega arith
