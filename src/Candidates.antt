-- ===== src/Candidates.antt =====
-- The candidates of the gateway scan of aether/src/prober.rs, by the constants of that file.
pub mod Ranges
pub mod Sampling
pub mod Order
pub mod Turns
pub mod Building
mod Tests
use aether_gui.Common.{
  ℕ, zero, suc, ◌+◌, ◌-◌, ◌*◌, ◌/◌, ◌%◌, ◌^◌, ◌≤◌, ◌<◌, ◌≡◌, refl, sym, ap, ◌∙◌, subst, ◌≢◌, ◌↔◌,
  ◌⊎◌, inl, inr, Bool, true, false, ◌&&◌, ◌||◌, not, Option, none, some, List, [], ◌∷◌, ◌++◌, map,
  append-nil, append_assoc, arith, bit_and, bit_or, min, max, length, get_elem?, take, drop,
  replicate, All, length-append, length-take, length-drop, take-append-drop, drop-nil, drop-add,
  drop-length_append, take-length_append, take-length, drop-length, take-append_le, drop-append_le,
  get_elem?-add, get_elem?-lt, get_elem?-drop, get_elem?-drop_zero, drop-step, get_elem?-All,
  All-append, ltb, leb, ◌==◌, if◌then◌else◌, ltb→lt, lt→ltb, le→ltb, ltb→le, leb→le, le→leb, lt→leb,
  if_both, if_known, ==_iff, ==_refl, Bool-cases, Option-cases,
}
use aether_gui.Common.Outcome.{
  Outcome, ok, err, panic, stuck, Absent, absent, ◌>>=◌, ◌>>◌, guard, of_index, or_err, index,
  checked_add, Ensures, Ensures-bind, Ensures-weaken, Ensures-if, get_elem?-some, index-Ensures,
  index-Ensures-All, guard-Ensures,
}
use aether_gui.Common.Bytes.{IsByte, IsBytes, u16_be, be16, be32}
use aether_gui.Common.Text.{parse_uint, split_once, unwrap_or}
use aether_gui.Common.Distinct.{insert_new, insert_all}
use aether_gui.Candidates.Ranges.{masque_cidrs_v4, masque_seeds, masque_cidrs_v6, masque_seeds_v6}
use aether_gui.Prober.{Strategy, IpScan, want_v4, want_v6}

-- `IpAddr`, by the number that `u32::from` or `u128::from` makes of its octets.
pub data Address : Type 0 where
  ipv4 : ℕ → Address
  ipv6 : ℕ → Address

abbrev pub same_address : Address → Address → Bool
same_address (ipv4 a) (ipv4 b) = a == b
same_address (ipv4 a) (ipv6 b) = false
same_address (ipv6 a) (ipv4 b) = false
same_address (ipv6 a) (ipv6 b) = a == b

pub record Endpoint : Type 0 where
  pub address : Address
  pub port : ℕ

abbrev pub same_endpoint : Endpoint → Endpoint → Bool
same_endpoint d e = same_address d.address e.address && d.port == e.port

abbrev pub at_port : ℕ → Address → Endpoint
at_port port a = record { address = a; port = port }

-- `filter_map(|s| s.parse().ok())`
abbrev pub parse_seeds : (List ℕ → Option ℕ) → List (List ℕ) → List ℕ
parse_seeds parse [] = []
parse_seeds parse (s ∷ rest) = keep (parse s) (parse_seeds parse rest)
  where
    keep : Option ℕ → List ℕ → List ℕ
    keep none more = more
    keep (some a) more = a ∷ more

-- The address of a range and its prefix: `parse_v4` and `parse_v6` are the parsers of std::net.
unfoldable pub parse_cidr : (List ℕ → Option ℕ) → List ℕ → Outcome Absent (ℕ × ℕ)
parse_cidr parse cidr = do
  (ip, prefix) ← or_err absent (split_once 47 [] cidr)
  base ← or_err absent (parse ip)
  bits ← or_err absent (parse_uint 256 prefix)
  ok (base, bits)

-- `Ipv4Addr::from(base + off)`, where the sum wraps.
abbrev pub host_at : ℕ → ℕ → ℕ
host_at base off = (base + off) % 2 ^ 32

abbrev pub count_from : ℕ → ℕ → List ℕ
count_from zero from = []
count_from (suc n) from = from ∷ count_from n (suc from)

abbrev pub enumerate_range : ℕ → ℕ → List ℕ
enumerate_range base host_bits =
    if host_bits == 0
    then base ∷ []
    else if ltb 12 host_bits
    then []
    else map (host_at base) (count_from (2 ^ host_bits - 1 - 1) 1)

abbrev pub or_empty :
    Outcome Absent (ℕ × ℕ) → (ℕ × ℕ → Outcome Absent (List ℕ)) → Outcome Absent (List ℕ)
or_empty (ok range) f = f range
or_empty (err e) f = ok []
or_empty panic f = panic
or_empty stuck f = stuck

unfoldable pub enumerate_cidr_v4 : (List ℕ → Option ℕ) → List ℕ → Outcome Absent (List ℕ)
enumerate_cidr_v4 parse cidr =
    or_empty (parse_cidr parse cidr)
      (λ (range : ℕ × ℕ). ok (enumerate_range range.0 (32 - range.1)))

-- The loop of the sampling: each draw of `gen_range(0..usable)` that is new gives an address. When the
-- draws of the model run out the loop would draw on: `stuck`.
unfoldable pub sample_loop : ℕ → ℕ → List ℕ → List ℕ → Outcome Absent (List ℕ)
sample_loop base want [] chosen =
    if leb want (length chosen) then ok (map (host_at base) chosen) else stuck
sample_loop base want (draw ∷ draws) chosen =
    let rest = sample_loop base want draws (insert_new ◌==◌ (1 + draw) chosen) in
    if leb want (length chosen) then ok (map (host_at base) chosen) else rest

abbrev pub range_size : ℕ → ℕ
range_size host_bits = if leb 32 host_bits then 2 ^ 32 - 1 else 2 ^ host_bits

unfoldable pub sample_cidr_v4 : (List ℕ → Option ℕ) → ℕ → List ℕ → List ℕ → Outcome Absent (List ℕ)
sample_cidr_v4 parse n draws cidr = or_empty (parse_cidr parse cidr) (λ (range : ℕ × ℕ).
    if leb (range_size (32 - range.1)) 2
    then ok (range.0 ∷ [])
    else sample_loop range.0 (min (n % 2 ^ 32) (range_size (32 - range.1) - 2)) draws [])

-- A draw for an IPv6 address: the index into the IPv4 ranges, and the 32 random bits.
pub record Draw : Type 0 where
  pub pick : ℕ
  pub bits : ℕ

abbrev pub parse_ranges : (List ℕ → Option ℕ) → List (List ℕ) → List (ℕ × ℕ)
parse_ranges parse [] = []
parse_ranges parse (c ∷ rest) = keep (parse_cidr parse c) (parse_ranges parse rest)
  where
    keep : Outcome Absent (ℕ × ℕ) → List (ℕ × ℕ) → List (ℕ × ℕ)
    keep (ok range) more = range ∷ more
    keep other more = more

-- The shift is modulo 32, as in a release build.
unfoldable pub embedded : List (ℕ × ℕ) → Draw → Outcome Absent ℕ
embedded [] d = ok d.bits
embedded (r ∷ rs) d = do
  range ← index (r ∷ rs) d.pick
  ok (
      bit_or range.0
        (if 32 - range.1 == 0 then 0 else bit_and d.bits (2 ^ ((32 - range.1) % 32) - 1)))

unfoldable pub sample_v6_loop : ℕ → List (ℕ × ℕ) → (ℕ → Draw) → ℕ → ℕ → Outcome Absent (List ℕ)
sample_v6_loop base v4 draws zero i = ok []
sample_v6_loop base v4 draws (suc n) i = do
  low ← embedded v4 (draws i)
  rest ← sample_v6_loop base v4 draws n (suc i)
  ok (bit_or base low ∷ rest)

unfoldable pub sample_cidr_v6 :
    (List ℕ → Option ℕ)
    → (List ℕ → Option ℕ)
    → ℕ
    → List (List ℕ)
    → (ℕ → Draw)
    → List ℕ
    → Outcome Absent (List ℕ)
sample_cidr_v6 parse4 parse6 n v4_cidrs draws cidr =
    or_empty (parse_cidr parse6 cidr) (λ (range : ℕ × ℕ).
      if 128 - range.1 == 0
      then ok (range.0 ∷ [])
      else sample_v6_loop range.0 (parse_ranges parse4 v4_cidrs) draws n 0)

-- `iter().map(..).collect()` of a function that may panic.
abbrev pub collect :
    (List ℕ → Outcome Absent (List ℕ)) → List (List ℕ) → Outcome Absent (List (List ℕ))
collect f [] = ok []
collect f (c ∷ cs) = do hosts ← f c; rest ← collect f cs; ok (hosts ∷ rest)

abbrev pub pushed_at {ℓ} : {A : Type ℓ} → Option A → List A → List A
pushed_at none more = more
pushed_at (some a) more = a ∷ more

-- The i-th hosts of all ranges, and the rounds `for i in 0..max_len`.
abbrev pub column : ℕ → List (List ℕ) → List ℕ
column i [] = []
column i (hosts ∷ ranges) = pushed_at (get_elem? hosts i) (column i ranges)

abbrev pub columns : ℕ → ℕ → List (List ℕ) → List ℕ
columns zero i ranges = []
columns (suc n) i ranges = column i ranges ++ columns n (suc i) ranges

abbrev pub max_len : List (List ℕ) → ℕ
max_len [] = 0
max_len (hosts ∷ ranges) = max (length hosts) (max_len ranges)

-- `for &port in ports`, for one seed, and for all.
abbrev pub other_ports : ℕ → List ℕ → Address → List Endpoint
other_ports primary [] a = []
other_ports primary (port ∷ ports) a =
    let rest = other_ports primary ports a in
    if not (port == primary) then at_port port a ∷ rest else rest

abbrev pub seeds_at_ports : ℕ → List ℕ → List Address → List Endpoint
seeds_at_ports primary ports [] = []
seeds_at_ports primary ports (a ∷ seeds) =
    other_ports primary ports a ++ seeds_at_ports primary ports seeds

abbrev pub insert_endpoints : List Endpoint → List Endpoint → List Endpoint
insert_endpoints = insert_all same_endpoint

-- The seeds of a family at the primary port, then the hosts of its ranges in turn.
unfoldable pub insert_family : ℕ → List Address → List Address → List Endpoint → List Endpoint
insert_family primary seeds hosts out =
    insert_endpoints (map (at_port primary) hosts)
      (insert_endpoints (map (at_port primary) seeds) out)

abbrev pub first_port : List ℕ → ℕ
first_port [] = 443
first_port (port ∷ ports) = port

abbrev pub in_turn : List (List ℕ) → List ℕ
in_turn ranges = columns (max_len ranges) 0 ranges

-- The lines of `build_candidates` on the addresses of the seeds and of the ranges.
unfoldable pub order_candidates :
    IpScan → List ℕ → List Address → List Address → List Address → List Address → List Endpoint
order_candidates ip ports seeds hosts seeds6 hosts6 =
    let primary = first_port ports in
    let out = if want_v4 ip then insert_family primary seeds hosts [] else [] in
    let out' = if want_v6 ip then insert_family primary seeds6 hosts6 out else out in
    let out'' =
      if want_v4 ip then insert_endpoints (seeds_at_ports primary ports seeds) out' else out' in
    if want_v6 ip then insert_endpoints (seeds_at_ports primary ports seeds6) out'' else out''

module _ (parse4 parse6 : List ℕ → Option ℕ) (draws4 : List ℕ → List ℕ)
    (draws6 : List ℕ → ℕ → Draw) where
  unfoldable pub hosts_v4 : Strategy → Bool → Outcome Absent (List (List ℕ))
  hosts_v4 st false = ok []
  hosts_v4 st true =
      collect
        (λ c.
          if st.full_subnet
          then enumerate_cidr_v4 parse4 c
          else sample_cidr_v4 parse4 st.sample_per_cidr (draws4 c) c)
        masque_cidrs_v4

  unfoldable pub hosts_v6 : Strategy → Bool → Outcome Absent (List (List ℕ))
  hosts_v6 st false = ok []
  hosts_v6 st true =
      collect
        (λ c.
          sample_cidr_v6 parse4 parse6 (if st.sample_per_cidr == 0 then 96 else st.sample_per_cidr)
            masque_cidrs_v4 (draws6 c) c)
        masque_cidrs_v6

  -- The draws are given by the range that is sampled.
  unfoldable pub build_candidates : Strategy → List ℕ → IpScan → Outcome Absent (List Endpoint)
  build_candidates st ports ip = do
    hosts ← hosts_v4 st (want_v4 ip)
    hosts6 ← hosts_v6 st (want_v6 ip)
    ok (
        order_candidates ip ports (map ipv4 (parse_seeds parse4 masque_seeds))
          (map ipv4 (in_turn hosts)) (map ipv6 (parse_seeds parse6 masque_seeds_v6))
          (map ipv6 (in_turn hosts6)))
