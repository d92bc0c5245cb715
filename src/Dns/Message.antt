-- ===== src/Dns/Message.antt =====
-- The DNS wire format, from the side of a server: what a response says, and its bytes (RFC 1035).
-- It is the independent description that the scans of aether/src/socks.rs and aether/src/dns.rs meet.
use aether_gui.Common.{
  ℕ, ◌≤◌, ◌<◌, ◌&&◌, Option, none, some, List, [], ◌∷◌, ◌++◌, length, All, ◌==◌, if◌then◌else◌,
}
use aether_gui.Common.Outcome.{}
use aether_gui.Common.Bytes.{be16, be32}
use aether_gui.Net.{IpAddr, v4}

-- A name is its labels, ended by the root or by a pointer to another place.
pub data Name : Type 0 where
  root : Name
  pointer : ℕ → ℕ → Name
  label : List ℕ → Name → Name

abbrev pub encode_name : Name → List ℕ
encode_name root = 0 ∷ []
encode_name (pointer hi lo) = hi ∷ lo ∷ []
encode_name (label l n) = length l ∷ (l ++ encode_name n)

-- RFC 1035 bounds a label by 63 bytes; the code reads any length whose two top bits are not both set.
abbrev pub IsName : Name → Type 0
IsName root = Unit {0}
IsName (pointer hi lo) = (192 ≤ hi) × (hi < 256)
IsName (label l n) = (0 < length l) × (length l < 192) × IsName n

pub record Rr : Type 0 where
  pub name : Name
  pub rtype : ℕ
  pub class : ℕ
  pub ttl : ℕ
  pub rdata : List ℕ

pub record IsRr (r : Rr) : Type 0 where
  pub name : IsName r.name
  pub rtype : r.rtype < 65536
  pub rdata : length r.rdata < 65536

-- Type, class, time to live and data length, and the data.
abbrev pub encode_fields : Rr → List ℕ
encode_fields r =
    be16 r.rtype ++ (be16 r.class ++ (be32 r.ttl ++ (be16 (length r.rdata) ++ r.rdata)))

abbrev pub encode_rr : Rr → List ℕ
encode_rr r = encode_name r.name ++ encode_fields r

abbrev pub encode_rrs : List Rr → List ℕ
encode_rrs [] = []
encode_rrs (r ∷ rs) = encode_rr r ++ encode_rrs rs

pub record Question : Type 0 where
  pub name : Name
  pub qtype : ℕ
  pub class : ℕ

abbrev pub encode_question : Question → List ℕ
encode_question q = encode_name q.name ++ (be16 q.qtype ++ be16 q.class)

abbrev pub encode_questions : List Question → List ℕ
encode_questions [] = []
encode_questions (q ∷ qs) = encode_question q ++ encode_questions qs

pub record Message : Type 0 where
  pub id : ℕ
  pub flags : ℕ
  pub questions : List Question
  pub answers : List Rr
  pub authorities : ℕ
  pub additionals : ℕ
  -- the other two sections, which the program does not read
  pub rest : List ℕ

abbrev pub IsQuestion : Question → Type 0
IsQuestion q = IsName q.name

pub record IsMessage (m : Message) : Type 0 where
  pub questions : All IsQuestion m.questions
  pub answers : All IsRr m.answers
  pub few_questions : length m.questions < 65536
  pub few_answers : length m.answers < 65536

abbrev pub encode_body : Message → List ℕ
encode_body m = encode_questions m.questions ++ (encode_rrs m.answers ++ m.rest)

abbrev pub encode_message : Message → List ℕ
encode_message m =
    be16 m.id
    ++ (be16 m.flags
        ++ (be16 (length m.questions)
            ++ (be16 (length m.answers)
                ++ (be16 m.authorities ++ (be16 m.additionals ++ encode_body m)))))

-- The data of the first A record, which holds an address of four bytes.
abbrev pub first_a : List Rr → Option IpAddr
first_a [] = none
first_a (r ∷ rs) = if r.rtype == 1 && length r.rdata == 4 then some (v4 r.rdata) else first_a rs
