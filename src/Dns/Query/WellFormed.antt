-- ===== src/Dns/Query/WellFormed.antt =====
-- What the two query builders send, against the wire format.
use aether_gui.Common.{
  suc, ◌+◌, ◌≤◌, ◌==◌, sym, subst, if_both, length-append, ℕ, ◌%◌, ◌<◌, ◌≡◌, refl, ap, ◌∙◌, List,
  [], ◌∷◌, ◌++◌, append-nil, append_assoc, arith, length, All,
}
use aether_gui.Common.Outcome.{}
use aether_gui.Common.Bytes.{be16}
use aether_gui.Dns.Query.{
  push_front, split_dot, push_labels, push_nonempty_labels, query_header, build_dns_query,
  build_query,
}
use aether_gui.Dns.Message.{
  Name, root, pointer, label, Question, encode_name, IsName, Message, IsMessage, encode_body,
  encode_message,
}

-- The labels as a name that ends at the root.
abbrev pub name_of : List (List ℕ) → Name
name_of [] = root
name_of (l ∷ ls) = label l (name_of ls)

abbrev pub nonempty : List (List ℕ) → List (List ℕ)
nonempty [] = []
nonempty ([] ∷ ls) = nonempty ls
nonempty ((c ∷ l) ∷ ls) = (c ∷ l) ∷ nonempty ls

abbrev pub query_message : ℕ → Name → ℕ → Message
query_message id name qtype = record {
  id = id;
  flags = 0x100;
  questions = record { name = name; qtype = qtype; class = 1 } ∷ [];
  answers = [];
  authorities = 0;
  additionals = 0;
  rest = [];
}

-- A label has 63 bytes at most, and between dots one at least.
abbrev pub IsLabel : List ℕ → Type 0
IsLabel l = length l ≤ 63

abbrev pub IsNonemptyLabel : List ℕ → Type 0
IsNonemptyLabel l = (0 < length l) × (length l ≤ 63)

-- A name as RFC 1035 has it in a query: labels of 1 to 63 bytes up to the root, and no pointer.
abbrev pub IsPlainName : Name → Type 0
IsPlainName root = Unit {0}
IsPlainName (pointer hi lo) = ⊥
IsPlainName (label l n) = (0 < length l) × (length l ≤ 63) × IsPlainName n

-- Such a name takes 255 bytes at most.
abbrev pub IsAskedName : Question → Type 0
IsAskedName q = IsPlainName q.name × (length (encode_name q.name) ≤ 255)

-- A query of RFC 1035.
abbrev pub IsQuery : Message → Type 0
IsQuery m = IsMessage m × All IsAskedName m.questions

push_labels-encode_name :
    (ls : List (List ℕ)) (rest : List ℕ)
    → All IsLabel ls
    → push_labels ls ++ (0 ∷ rest) ≡ encode_name (name_of ls) ++ rest
unfolding push_labels
push_labels-encode_name [] rest h = refl
push_labels-encode_name (l ∷ ls) rest (h, hs) = cc (
  small,
  append_assoc l (push_labels ls) (0 ∷ rest),
  append_assoc l (encode_name (name_of ls)) rest,
  push_labels-encode_name ls rest hs,
)
  where
    small : length l % 256 ≡ length l
    small = omega arith

push_nonempty_labels-nonempty :
    (ls : List (List ℕ)) → push_nonempty_labels ls ≡ push_labels (nonempty ls)
unfolding push_labels push_nonempty_labels
push_nonempty_labels-nonempty [] = refl
push_nonempty_labels-nonempty ([] ∷ ls) = push_nonempty_labels-nonempty ls
push_nonempty_labels-nonempty ((c ∷ l) ∷ ls) =
    ap (λ t. (length (c ∷ l) % 256) ∷ ((c ∷ l) ++ t)) (push_nonempty_labels-nonempty ls)

IsPlainName-IsName : (n : Name) → IsPlainName n → IsName n
IsPlainName-IsName root h = tt
IsPlainName-IsName (pointer hi lo) h = absurd h
IsPlainName-IsName (label l n) (pos, short, h) = (pos, omega arith, IsPlainName-IsName n h)

nonempty-IsPlainName : (ls : List (List ℕ)) → All IsLabel ls → IsPlainName (name_of (nonempty ls))
nonempty-IsPlainName [] h = tt
nonempty-IsPlainName ([] ∷ ls) (h, hs) = nonempty-IsPlainName ls hs
nonempty-IsPlainName ((c ∷ l) ∷ ls) (h, hs) = (omega arith, h, nonempty-IsPlainName ls hs)

name_of-IsPlainName : (ls : List (List ℕ)) → All IsNonemptyLabel ls → IsPlainName (name_of ls)
name_of-IsPlainName [] h = tt
name_of-IsPlainName (l ∷ ls) ((pos, short), hs) = (pos, short, name_of-IsPlainName ls hs)

-- The bytes that a name takes: one for each label's length, its bytes, and the root.
length-encode_name :
    (l : List ℕ) (n : Name)
    → length (encode_name (label l n)) ≡ suc (length l + length (encode_name n))
length-encode_name l n = omega (arith, length-append l (encode_name n))

length-push_front :
    (c : ℕ) (l : List ℕ) (ls : List (List ℕ))
    → length (encode_name (name_of (push_front c (l ∷ ls))))
      ≡ suc (length (encode_name (name_of (l ∷ ls))))
unfolding push_front
length-push_front c l ls =
    omega (arith, length-encode_name (c ∷ l) (name_of ls), length-encode_name l (name_of ls))

-- The dots of a name are where the lengths go.
length-split_dot :
    (name : List ℕ)
    → (first : List ℕ) × (more : List (List ℕ)) × (split_dot name ≡ first ∷ more)
      × (length (encode_name (name_of (split_dot name))) ≡ length name + 2)
unfolding split_dot push_front
length-split_dot [] = ([], [], refl, refl)
length-split_dot (c ∷ cs) =
    let (first, more, e, total) = length-split_dot cs in
    if_both Splits (c == b'.') _ _
      ([], split_dot cs, refl, omega (arith, length-encode_name [] (name_of (split_dot cs)), total))
      (subst (λ labels. Splits (push_front c labels)) (sym e)
        (
          c ∷ first,
          more,
          refl,
          omega (
            arith,
            length-push_front c first more,
            ap (λ ls. length (encode_name (name_of ls))) e,
            total,
          ),
        ))
  where
    Splits : List (List ℕ) → Type 0
    Splits labels =
        (first : List ℕ) × (more : List (List ℕ)) × (labels ≡ first ∷ more)
        × (length (encode_name (name_of labels)) ≡ length (c ∷ cs) + 2)

length-nonempty :
    (ls : List (List ℕ))
    → length (encode_name (name_of (nonempty ls))) ≤ length (encode_name (name_of ls))
length-nonempty [] = omega arith
length-nonempty ([] ∷ ls) = omega (arith, length-nonempty ls, length-encode_name [] (name_of ls))
length-nonempty ((c ∷ l) ∷ ls) = omega (
  arith,
  length-nonempty ls,
  length-encode_name (c ∷ l) (name_of ls),
  length-encode_name (c ∷ l) (name_of (nonempty ls)),
)

IsNonemptyLabel-IsLabel : (ls : List (List ℕ)) → All IsNonemptyLabel ls → All IsLabel ls
IsNonemptyLabel-IsLabel [] h = tt
IsNonemptyLabel-IsLabel (l ∷ ls) ((pos, short), hs) = (short, IsNonemptyLabel-IsLabel ls hs)

nonempty-IsLabel : (ls : List (List ℕ)) → All IsLabel ls → All IsLabel (nonempty ls)
nonempty-IsLabel [] h = tt
nonempty-IsLabel ([] ∷ ls) (h, hs) = nonempty-IsLabel ls hs
nonempty-IsLabel ((c ∷ l) ∷ ls) (h, hs) = (h, nonempty-IsLabel ls hs)

one_question :
    (id : ℕ) (n : Name) (qtype : ℕ)
    → encode_name n ++ (be16 qtype ++ (0 ∷ 1 ∷ [])) ≡ encode_body (query_message id n qtype)
one_question id n qtype = simp append-nil

IsQuery-query_message :
    (id : ℕ) (n : Name) (qtype : ℕ)
    → IsPlainName n
    → length (encode_name n) ≤ 255
    → IsQuery (query_message id n qtype)
IsQuery-query_message id n qtype plain short = (
  record {
    questions = (IsPlainName-IsName n plain, tt);
    answers = tt;
    few_questions = omega arith;
    few_answers = omega arith;
  },
  ((plain, short), tt),
)

-- For a name of at most 253 bytes with labels of 1 to 63 bytes, the query that the SOCKS resolver sends
-- is a DNS query as RFC 1035 has it, with one question for the labels of the name in order.
pub build_dns_query-encode_message :
    (id : ℕ) (name : List ℕ) (qtype : ℕ)
    → All IsNonemptyLabel (split_dot name)
    → length name ≤ 253
    → (build_dns_query id name qtype
        ≡ encode_message (query_message id (name_of (split_dot name)) qtype))
      × IsQuery (query_message id (name_of (split_dot name)) qtype)
unfolding build_dns_query
build_dns_query-encode_message id name qtype h short = (
  ap (query_header id) (
      push_labels-encode_name (split_dot name) _ (IsNonemptyLabel-IsLabel _ h)
      ∙ one_question id (name_of (split_dot name)) qtype),
  IsQuery-query_message id (name_of (split_dot name)) qtype (name_of-IsPlainName (split_dot name) h)
      (let (first, more, e, total) = length-split_dot name in omega arith),
)

-- For a name of at most 253 bytes whose labels have at most 63, the bootstrap query is a DNS query as
-- RFC 1035 has it, with one question for the labels of the name that are not empty, in order.
pub build_query-encode_message :
    (id : ℕ) (name : List ℕ) (qtype : ℕ)
    → All IsLabel (split_dot name)
    → length name ≤ 253
    → (build_query id name qtype
        ≡ encode_message (query_message id (name_of (nonempty (split_dot name))) qtype))
      × IsQuery (query_message id (name_of (nonempty (split_dot name))) qtype)
unfolding build_query
build_query-encode_message id name qtype h short = (
  ap (query_header id) (
      ap (λ t. t ++ (0 ∷ (be16 qtype ++ (0 ∷ 1 ∷ []))))
        (push_nonempty_labels-nonempty (split_dot name))
      ∙ push_labels-encode_name (nonempty (split_dot name)) _ (nonempty-IsLabel _ h)
      ∙ one_question id (name_of (nonempty (split_dot name))) qtype),
  IsQuery-query_message id (name_of (nonempty (split_dot name))) qtype
      (nonempty-IsPlainName (split_dot name) h)
      (let (first, more, e, total) = length-split_dot name in
        omega (arith, length-nonempty (split_dot name))),
)
