-- ===== src/Dns/Tests.antt =====
-- Runs of the DNS code, and its theorems at concrete inputs.
use aether_gui.Common.{ℕ, ◌≡◌, refl, false, none, some, List, [], ◌∷◌, ◌++◌, map, arith}
use aether_gui.Common.Outcome.{ok, absent, or_err, Ensures}
use aether_gui.Net.{v4, IsIpAddr}
use aether_gui.Dns.{skip_name_loop, skip_name, u16_at, skip_questions, ipv4_at, scan_a, parse_dns_a}
use aether_gui.Dns.Message.{root, pointer, label, Rr, Message, IsMessage, encode_message, first_a}
use aether_gui.Dns.Safety.{parse_dns_a-Ensures}
use aether_gui.Dns.Answers.{parse_dns_a-encode_message}
use aether_gui.Dns.Query.{split_dot, push_labels, build_dns_query, build_query}
use aether_gui.Dns.Query.WellFormed.{
  IsQuery, name_of, nonempty, query_message, build_dns_query-encode_message,
  build_query-encode_message,
}
use aether_gui.Dns.Ech.{
  parse_https_ech, fetch_ech_config, query_ech, is_empty, scan_https, slice, svcparams_loop,
  parse_svcparams_ech,
}
use aether_gui.Dns.Ech.Svcb.{Svcb, Answer, https, other, to_rr, first_ech}
use aether_gui.Dns.Ech.Safety.{fetch_ech_config-Ensures, Carried}
use aether_gui.Dns.Ech.Answers.{parse_https_ech-encode_message}

-- A CNAME and then the address 1.2.3.4, both for the name of the question.
abbrev alias : Rr
alias = record { name = pointer 192 12; rtype = 5; class = 1; ttl = 60; rdata = 1 ∷ b'b' ∷ 0 ∷ [] }

abbrev address : Rr
address = record {
  name = pointer 192 12;
  rtype = 1;
  class = 1;
  ttl = 60;
  rdata = 1 ∷ 2 ∷ 3 ∷ 4 ∷ [];
}

abbrev response : Message
response = record {
  id = 7;
  flags = 0x8180;
  questions = record { name = label (b'a' ∷ []) root; qtype = 1; class = 1 } ∷ [];
  answers = alias ∷ address ∷ [];
  authorities = 0;
  additionals = 1;
  rest = 9 ∷ 9 ∷ [];
}

response-IsMessage : IsMessage response
response-IsMessage = omega arith

parse_dns_a_run : parse_dns_a (encode_message response) ≡ ok (v4 (1 ∷ 2 ∷ 3 ∷ 4 ∷ []))
unfolding parse_dns_a skip_questions skip_name skip_name_loop scan_a u16_at ipv4_at
parse_dns_a_run = refl

parse_dns_a-encode_message_example :
    parse_dns_a (encode_message response) ≡ or_err absent (first_a response.answers)
parse_dns_a-encode_message_example =
    parse_dns_a-encode_message response response-IsMessage (omega arith)

parse_dns_a-Ensures_example : Ensures IsIpAddr (parse_dns_a (encode_message response))
parse_dns_a-Ensures_example = parse_dns_a-Ensures (encode_message response) (omega arith)

abbrev example_com : List ℕ
example_com = b'e' ∷ b'x' ∷ b'.' ∷ b'c' ∷ b'o' ∷ b'm' ∷ []

build_dns_query-encode_message_example :
    (build_dns_query 1 example_com 1
      ≡ encode_message (query_message 1 (name_of (split_dot example_com)) 1))
    × IsQuery (query_message 1 (name_of (split_dot example_com)) 1)
unfolding split_dot
build_dns_query-encode_message_example =
    build_dns_query-encode_message 1 example_com 1 (omega arith) (omega arith)

build_query-encode_message_example :
    (build_query 1 (example_com ++ (b'.' ∷ [])) 65
      ≡ encode_message
          (query_message 1 (name_of (nonempty (split_dot (example_com ++ (b'.' ∷ []))))) 65))
    × IsQuery (query_message 1 (name_of (nonempty (split_dot (example_com ++ (b'.' ∷ []))))) 65)
unfolding split_dot
build_query-encode_message_example =
    build_query-encode_message 1 (example_com ++ (b'.' ∷ [])) 65 (omega arith) (omega arith)

-- A trailing dot leaves an empty label: the resolver's query then has a root label too many.
trailing_dot_run :
    build_dns_query 0 (b'a' ∷ b'.' ∷ []) 1
    ≡ 0 ∷ 0 ∷ 1 ∷ 0 ∷ 0 ∷ 1 ∷ 0 ∷ 0 ∷ 0 ∷ 0 ∷ 0 ∷ 0 ∷ 1 ∷ b'a' ∷ 0 ∷ 0 ∷ 0 ∷ 1 ∷ 0 ∷ 1 ∷ []
unfolding build_dns_query split_dot push_labels
trailing_dot_run = refl

abbrev service : Svcb
service = record {
  priority = 1;
  target = root;
  params =
      record { key = 1; value = 2 ∷ b'h' ∷ b'2' ∷ [] }
      ∷ record { key = 5; value = 8 ∷ 9 ∷ [] }
      ∷ [];
}

abbrev https_answers : List Answer
https_answers = other alias ∷ https (pointer 192 12) 1 60 service ∷ []

abbrev https_response : Message
https_response = record response { answers = map to_rr https_answers }

parse_https_ech-encode_message_example :
    parse_https_ech (encode_message https_response) ≡ or_err absent (first_ech https_answers)
parse_https_ech-encode_message_example =
    parse_https_ech-encode_message https_response https_answers (omega arith) (omega arith)
      (omega arith) refl

fetch_ech_config_run :
    fetch_ech_config
      (none ∷ some (encode_message response) ∷ some (encode_message https_response) ∷ [])
    ≡ ok (8 ∷ 9 ∷ [])
unfolding fetch_ech_config query_ech parse_https_ech scan_https parse_svcparams_ech svcparams_loop
    slice skip_questions skip_name skip_name_loop u16_at
fetch_ech_config_run = refl

fetch_ech_config-Ensures_example :
    Ensures
      (λ ech.
        (is_empty ech ≡ false) × Carried ech (none ∷ some (encode_message https_response) ∷ []))
      (fetch_ech_config (none ∷ some (encode_message https_response) ∷ []))
fetch_ech_config-Ensures_example =
    fetch_ech_config-Ensures (none ∷ some (encode_message https_response) ∷ [])
