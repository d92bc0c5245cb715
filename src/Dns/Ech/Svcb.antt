-- ===== src/Dns/Ech/Svcb.antt =====
-- HTTPS records from the side of a server (RFC 9460): the independent description that the scan of
-- aether/src/dns.rs meets.
use aether_gui.Common.{
  ℕ, ◌<◌, ◌≢◌, Option, none, some, List, [], ◌∷◌, ◌++◌, length, All, ◌==◌, if◌then◌else◌,
}
use aether_gui.Common.Outcome.{}
use aether_gui.Common.Bytes.{be16}
use aether_gui.Dns.Message.{Name, IsName, encode_name, Rr, IsRr}
use aether_gui.Dns.Ech.{rr_https, svcparam_ech}

pub record Param : Type 0 where
  pub key : ℕ
  pub value : List ℕ

pub record Svcb : Type 0 where
  pub priority : ℕ
  pub target : Name
  pub params : List Param

abbrev pub encode_param : Param → List ℕ
encode_param q = be16 q.key ++ (be16 (length q.value) ++ q.value)

abbrev pub encode_params : List Param → List ℕ
encode_params [] = []
encode_params (q ∷ qs) = encode_param q ++ encode_params qs

abbrev pub encode_svcb : Svcb → List ℕ
encode_svcb s = be16 s.priority ++ (encode_name s.target ++ encode_params s.params)

pub record IsParam (q : Param) : Type 0 where
  pub key : q.key < 65536
  pub value : length q.value < 65536

pub record IsSvcb (s : Svcb) : Type 0 where
  pub target : IsName s.target
  pub params : All IsParam s.params

abbrev pub find_ech : List Param → Option (List ℕ)
find_ech [] = none
find_ech (q ∷ qs) = if q.key == svcparam_ech then some q.value else find_ech qs

-- A record of the answer section: an HTTPS record by its content, or any other record.
pub data Answer : Type 0 where
  https : Name → ℕ → ℕ → Svcb → Answer
  other : Rr → Answer

abbrev pub to_rr : Answer → Rr
to_rr (https name class ttl s) = record {
  name = name;
  rtype = rr_https;
  class = class;
  ttl = ttl;
  rdata = encode_svcb s;
}
to_rr (other r) = r

abbrev pub IsAnswer : Answer → Type 0
IsAnswer (https name class ttl s) = IsRr (to_rr (https name class ttl s)) × IsSvcb s
IsAnswer (other r) = IsRr r × (r.rtype ≢ rr_https)

-- The ECH configuration of the first HTTPS record that has one.
abbrev pub first_ech : List Answer → Option (List ℕ)
first_ech [] = none
first_ech (https name class ttl s ∷ answers) = elim (find_ech s.params) [
  | some ech ↦ some ech
  | none ↦ first_ech answers
]
first_ech (other r ∷ answers) = first_ech answers
