-- ===== src/Dns/Ech.antt =====
-- The ECH bootstrap of aether/src/dns.rs: the scan of an HTTPS record and the order of the queries.
pub mod Svcb
pub mod Safety
pub mod Answers
use aether_gui.Common.{
  ℕ, zero, suc, ◌+◌, ◌-◌, ◌*◌, ◌/◌, ◌%◌, ◌^◌, ◌≤◌, ◌<◌, ◌≡◌, refl, sym, ap, ◌∙◌, subst, ◌≢◌, ◌↔◌,
  ◌⊎◌, inl, inr, Bool, true, false, ◌&&◌, ◌||◌, not, Option, none, some, List, [], ◌∷◌, ◌++◌, map,
  append-nil, append_assoc, arith, bit_and, min, max, length, get_elem?, take, drop, replicate, All,
  length-append, length-take, length-drop, take-append-drop, drop-nil, drop-add, drop-length_append,
  take-length_append, get_elem?-add, get_elem?-lt, get_elem?-drop, get_elem?-drop_zero, drop-step,
  get_elem?-All, All-append, ltb, leb, ◌==◌, if◌then◌else◌, ltb→lt, lt→ltb, le→ltb, ltb→le, leb→le,
  le→leb, lt→leb, ==_iff, ==_refl, Bool-cases, Option-cases,
}
use aether_gui.Common.Outcome.{
  Outcome, ok, err, panic, stuck, Absent, absent, ◌>>=◌, ◌>>◌, guard, of_index, or_err, index,
  checked_add, Ensures, Ensures-bind, get_elem?-some, index-Ensures, index-Ensures-All,
  guard-Ensures,
}
use aether_gui.Common.Bytes.{IsByte, IsBytes, u16_be, be16, be32}
use aether_gui.Dns.{skip_name, u16_at, skip_questions}

abbrev pub rr_https : ℕ
rr_https = 65

abbrev pub svcparam_ech : ℕ
svcparam_ech = 5

-- `msg[start..start + len].to_vec()`
unfoldable pub slice : List ℕ → ℕ → ℕ → Outcome Absent (List ℕ)
slice msg start len =
    if leb (start + len) (length msg) then ok (take len (drop start msg)) else panic

-- `while p + 4 <= end`
unfoldable pub svcparams_loop : ℕ → List ℕ → ℕ → ℕ → Outcome Absent (List ℕ)
svcparams_loop zero msg p end = stuck
svcparams_loop (suc fuel) msg p end =
    let round = do
      key ← u16_at msg p
      len ← u16_at msg (p + 2)
      guard (leb (p + 4 + len) end) absent
      let rest = svcparams_loop fuel msg (p + 4 + len) end
      if key == svcparam_ech then slice msg (p + 4) len else rest
    in if leb (p + 4) end then round else err absent

-- Every round moves on by four bytes at least, and the first starts behind `rdata_start`.
unfoldable pub parse_svcparams_ech : List ℕ → ℕ → ℕ → Outcome Absent (List ℕ)
parse_svcparams_ech msg rdata_start rdlen = do
  let end = rdata_start + rdlen
  guard (leb (rdata_start + 2) end) absent
  p ← skip_name msg (rdata_start + 2)
  svcparams_loop (suc rdlen) msg p end

-- `if let Some(ech) = first { return Some(ech) }`, and on with the loop otherwise.
abbrev pub or_else {ℓ} : {A : Type ℓ} → Outcome Absent A → Outcome Absent A → Outcome Absent A
or_else (ok a) rest = ok a
or_else (err e) rest = rest
or_else panic rest = panic
or_else stuck rest = stuck

-- `for _ in 0..an`
unfoldable pub scan_https : ℕ → List ℕ → ℕ → Outcome Absent (List ℕ)
scan_https zero msg pos = err absent
scan_https (suc an) msg pos = do
  fixed ← skip_name msg pos
  guard (leb (fixed + 10) (length msg)) absent
  rtype ← u16_at msg fixed
  rdlen ← u16_at msg (fixed + 8)
  guard (leb (fixed + 10 + rdlen) (length msg)) absent
  let rest = scan_https an msg (fixed + 10 + rdlen)
  if rtype == rr_https then or_else (parse_svcparams_ech msg (fixed + 10) rdlen) rest else rest

unfoldable pub parse_https_ech : List ℕ → Outcome Absent (List ℕ)
parse_https_ech msg = do
  guard (leb 12 (length msg)) absent
  qd ← u16_at msg 4
  an ← u16_at msg 6
  pos ← skip_questions qd msg 12
  scan_https an msg pos

-- `query_ech`, by what `recv` of at most 4096 bytes delivers: `none` is an error or the timeout.
unfoldable pub query_ech : Option (List ℕ) → Outcome Absent (List ℕ)
query_ech none = err absent
query_ech (some datagram) = parse_https_ech (take 4096 datagram)

abbrev pub is_empty : List ℕ → Bool
is_empty [] = true
is_empty (x ∷ xs) = false

-- The two nested loops of `fetch_ech_config`, over the answers to (host, server) in their order.
unfoldable pub fetch_ech_config : List (Option (List ℕ)) → Outcome Absent (List ℕ)
fetch_ech_config [] = err absent
fetch_ech_config (answer ∷ answers) =
    let later = fetch_ech_config answers in
    elim (query_ech answer) [
      | ok ech ↦ if is_empty ech then later else ok ech
      | err e ↦ later
      | panic ↦ panic
      | stuck ↦ stuck
    ]
