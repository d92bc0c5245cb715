-- ===== src/WgScan.antt =====
-- The scan for a WireGuard endpoint of aether/src/wg_prober.rs. Its loop is that of
-- aether/src/prober.rs, line by line but for the log; its modes and candidates are its own.
pub mod Ranges
pub mod Choice
pub mod Rotation
mod Tests
use aether_gui.Common.{
  ℕ, zero, suc, ◌+◌, ◌-◌, ◌*◌, ◌/◌, ◌%◌, ◌^◌, ◌≤◌, ◌<◌, ◌≡◌, refl, sym, ap, ◌∙◌, subst, ◌≢◌, ◌↔◌,
  ◌⊎◌, inl, inr, Bool, true, false, ◌&&◌, ◌||◌, not, Option, none, some, List, [], ◌∷◌, ◌++◌, map,
  append-nil, append_assoc, arith, bit_and, bit_or, min, max, length, get_elem?, take, drop,
  replicate, All, length-append, length-take, length-drop, take-append-drop, drop-nil, drop-add,
  drop-length_append, take-length_append, take-length, drop-length, take-append_le, drop-append_le,
  get_elem?-add, get_elem?-lt, get_elem?-drop, get_elem?-drop_zero, drop-step, get_elem?-All,
  All-append, ltb, leb, ◌==◌, if◌then◌else◌, ltb→lt, lt→ltb, le→ltb, ltb→le, leb→le, le→leb, lt→leb,
  if_both, if_known, ==_iff, ==_refl, Bool-cases, Option-cases,
}
use aether_gui.Common.Outcome.{
  Outcome, ok, err, panic, stuck, Absent, absent, ◌>>=◌, ◌>>◌, guard, of_index, or_err, index,
  checked_add, Ensures, Ensures-bind, Ensures-weaken, Ensures-if, get_elem?-some, index-Ensures,
  index-Ensures-All, guard-Ensures,
}
use aether_gui.Common.Bytes.{IsByte, IsBytes, u16_be, be16, be32}
use aether_gui.Common.Distinct.{insert_new, insert_all}
use aether_gui.Common.Text.{is_empty}
use aether_gui.Error.{AetherError}
use aether_gui.Common.Text.{trim, same, lower}
use aether_gui.Candidates.{
  Address, ipv4, ipv6, Endpoint, same_endpoint, at_port, insert_endpoints, parse_seeds, in_turn,
  enumerate_cidr_v4, sample_cidr_v4, sample_cidr_v6, collect, Draw,
}
use aether_gui.Prober.{
  Strategy, IpScan, want_v4, want_v6, ScanMode, turbo, balanced, thorough, stealth, ironclad,
  ProbeResult, Event, failed, found, Round, start, effective_ip, on_family, hunt_loop,
}
use aether_gui.Net.{IpAddr}
use aether_gui.WgScan.Ranges.{wg_prefixes_v4, wg_prefixes_v6, wg_seeds_v4, wg_seeds_v6}

abbrev pub mode_of : List ℕ → ScanMode
mode_of v =
    if same v (116 ∷ 117 ∷ 114 ∷ 98 ∷ 111 ∷ []) || same v (102 ∷ 97 ∷ 115 ∷ 116 ∷ [])
    then turbo
    else if same v (116 ∷ 104 ∷ 111 ∷ 114 ∷ 111 ∷ 117 ∷ 103 ∷ 104 ∷ [])
        || same v (100 ∷ 101 ∷ 101 ∷ 112 ∷ [])
        || same v (112 ∷ 114 ∷ 111 ∷ [])
    then thorough
    else if same v (115 ∷ 116 ∷ 101 ∷ 97 ∷ 108 ∷ 116 ∷ 104 ∷ [])
        || same v (113 ∷ 117 ∷ 105 ∷ 101 ∷ 116 ∷ [])
    then stealth
    else if same v (105 ∷ 114 ∷ 111 ∷ 110 ∷ 99 ∷ 108 ∷ 97 ∷ 100 ∷ [])
        || same v (114 ∷ 101 ∷ 97 ∷ 108 ∷ [])
        || same v (118 ∷ 101 ∷ 114 ∷ 105 ∷ 102 ∷ 121 ∷ [])
        || same v (103 ∷ 117 ∷ 97 ∷ 114 ∷ 97 ∷ 110 ∷ 116 ∷ 101 ∷ 101 ∷ 100 ∷ [])
    then ironclad
    else balanced

-- `WgScanMode::parse`
unfoldable pub parse_wg_mode : List ℕ → ScanMode
parse_wg_mode text = mode_of (map lower (trim text))

unfoldable pub wg_strategy : ScanMode → Strategy
wg_strategy turbo = record {
  concurrency = 12;
  per_probe_timeout = 5000;
  overall_deadline = 30000;
  quiet_after_first = 0;
  target_successes = 1;
  early_exit_first = true;
  full_subnet = false;
  sample_per_cidr = 40;
}
wg_strategy balanced = record {
  concurrency = 8;
  per_probe_timeout = 7000;
  overall_deadline = 80000;
  quiet_after_first = 12000;
  target_successes = 5;
  early_exit_first = false;
  full_subnet = false;
  sample_per_cidr = 120;
}
wg_strategy thorough = record {
  concurrency = 10;
  per_probe_timeout = 9000;
  overall_deadline = 250000;
  quiet_after_first = 25000;
  target_successes = 0;
  early_exit_first = false;
  full_subnet = true;
  sample_per_cidr = 0;
}
wg_strategy stealth = record {
  concurrency = 3;
  per_probe_timeout = 10000;
  overall_deadline = 150000;
  quiet_after_first = 20000;
  target_successes = 3;
  early_exit_first = false;
  full_subnet = false;
  sample_per_cidr = 50;
}
wg_strategy ironclad = record {
  concurrency = 4;
  per_probe_timeout = 15000;
  overall_deadline = 180000;
  quiet_after_first = 15000;
  target_successes = 3;
  early_exit_first = false;
  full_subnet = false;
  sample_per_cidr = 120;
}

-- One probe, by the results of `verify_endpoint_keep_session` and `wg_http_ping_established`.
abbrev pub verify_one_wg : IpAddr → ℕ → Bool → Outcome AetherError ℕ → Outcome AetherError ℕ → Event
verify_one_wg ip port false (ok rtt) ping = found (record { ip = ip; port = port; rtt = rtt })
verify_one_wg ip port true (ok rtt) (ok http_rtt) =
    found (record { ip = ip; port = port; rtt = http_rtt })
verify_one_wg ip port real verified ping = failed

unfoldable pub hunt_best_wg_endpoint :
    IpScan → ScanMode → Bool → ℕ → List Round → Option (Outcome AetherError ProbeResult)
hunt_best_wg_endpoint ip mode has_ipv6 began rounds =
    on_family
      (λ family.
        hunt_loop (wg_strategy mode) (began + (wg_strategy mode).overall_deadline) rounds start)
      (effective_ip ip has_ipv6)

-- The ports, each once, and 2408 when there is none.
abbrev pub distinct_ports : List ℕ → List ℕ
distinct_ports ports =
    let deduped = insert_all ◌==◌ ports [] in if is_empty deduped then 2408 ∷ [] else deduped

-- `for (idx, a) in ips.iter().enumerate()`: the ports take turns.
unfoldable pub rotate_ports :
    List ℕ → ℕ → List Address → List Endpoint → Outcome Absent (List Endpoint)
rotate_ports ports idx [] out = ok out
rotate_ports ports idx (a ∷ ips) out = do
  port ← index ports (idx % length ports)
  rotate_ports ports (suc idx) ips (insert_new same_endpoint (at_port port a) out)

module _ (parse4 parse6 : List ℕ → Option ℕ) (draws4 : List ℕ → List ℕ)
    (draws6 : List ℕ → ℕ → Draw) where
  unfoldable pub wg_hosts_v4 : Strategy → Bool → Outcome Absent (List (List ℕ))
  wg_hosts_v4 st false = ok []
  wg_hosts_v4 st true =
      collect
        (λ c.
          if st.full_subnet
          then enumerate_cidr_v4 parse4 c
          else sample_cidr_v4 parse4 st.sample_per_cidr (draws4 c) c)
        wg_prefixes_v4

  unfoldable pub wg_hosts_v6 : Strategy → Bool → Outcome Absent (List (List ℕ))
  wg_hosts_v6 st false = ok []
  wg_hosts_v6 st true =
      collect
        (λ c.
          sample_cidr_v6 parse4 parse6 (if st.sample_per_cidr == 0 then 80 else st.sample_per_cidr)
            wg_prefixes_v4 (draws6 c) c)
        wg_prefixes_v6

  abbrev pub wg_addresses : IpScan → List (List ℕ) → List (List ℕ) → List Address
  wg_addresses ip hosts hosts6 =
      ((if want_v4 ip then map ipv4 (parse_seeds parse4 wg_seeds_v4) else [])
        ++ (if want_v6 ip then map ipv6 (parse_seeds parse6 wg_seeds_v6) else []))
      ++ (map ipv4 (in_turn hosts) ++ map ipv6 (in_turn hosts6))

  unfoldable pub build_wg_candidates : Strategy → List ℕ → IpScan → Outcome Absent (List Endpoint)
  build_wg_candidates st ports ip = do
    hosts ← wg_hosts_v4 st (want_v4 ip)
    hosts6 ← wg_hosts_v6 st (want_v6 ip)
    rotate_ports (distinct_ports ports) 0 (wg_addresses ip hosts hosts6) []
