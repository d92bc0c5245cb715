-- ===== src/Dns/Query.antt =====
-- `build_dns_query` of aether/src/socks.rs and `build_query` of aether/src/dns.rs. A name is its UTF-8
-- bytes; `rand::random()` gives the identifier, an argument here.
pub mod WellFormed
use aether_gui.Common.{
  ℕ, zero, suc, ◌+◌, ◌-◌, ◌*◌, ◌/◌, ◌%◌, ◌^◌, ◌≤◌, ◌<◌, ◌≡◌, refl, sym, ap, ◌∙◌, subst, ◌≢◌, ◌↔◌,
  ◌⊎◌, inl, inr, Bool, true, false, ◌&&◌, ◌||◌, not, Option, none, some, List, [], ◌∷◌, ◌++◌, map,
  append-nil, append_assoc, arith, bit_and, min, max, length, get_elem?, take, drop, replicate, All,
  length-append, length-take, length-drop, take-append-drop, drop-nil, drop-add, drop-length_append,
  take-length_append, get_elem?-add, get_elem?-lt, get_elem?-drop, get_elem?-drop_zero, drop-step,
  get_elem?-All, All-append, ltb, leb, ◌==◌, if◌then◌else◌, ltb→lt, lt→ltb, le→ltb, ltb→le, leb→le,
  le→leb, lt→leb, ==_iff, ==_refl, Bool-cases, Option-cases,
}
use aether_gui.Common.Outcome.{
  Outcome, ok, err, panic, stuck, Absent, absent, ◌>>=◌, ◌>>◌, guard, of_index, or_err, index,
  checked_add, Ensures, Ensures-bind, get_elem?-some, index-Ensures, index-Ensures-All,
  guard-Ensures,
}
use aether_gui.Common.Bytes.{IsByte, IsBytes, u16_be, be16, be32}

pub push_front : ℕ → List (List ℕ) → List (List ℕ)
push_front c [] = (c ∷ []) ∷ []
push_front c (l ∷ ls) = (c ∷ l) ∷ ls

-- `name.split('.')`
unfoldable pub split_dot : List ℕ → List (List ℕ)
unfolding push_front
split_dot [] = [] ∷ []
split_dot (c ∷ cs) =
    let labels = split_dot cs in if c == b'.' then [] ∷ labels else push_front c labels

-- `q.push(label.len() as u8); q.extend_from_slice(label.as_bytes())` for each label
unfoldable pub push_labels : List (List ℕ) → List ℕ
push_labels [] = []
push_labels (l ∷ ls) = (length l % 256) ∷ (l ++ push_labels ls)

-- the same loop with `if label.is_empty() { continue; }`
unfoldable pub push_nonempty_labels : List (List ℕ) → List ℕ
push_nonempty_labels [] = []
push_nonempty_labels ([] ∷ ls) = push_nonempty_labels ls
push_nonempty_labels ((c ∷ l) ∷ ls) = (length (c ∷ l) % 256) ∷ ((c ∷ l) ++ push_nonempty_labels ls)

pub query_header : ℕ → List ℕ → List ℕ
query_header id q =
    be16 id ++ (0x01 ∷ 0x00 ∷ 0x00 ∷ 0x01 ∷ 0x00 ∷ 0x00 ∷ 0x00 ∷ 0x00 ∷ 0x00 ∷ 0x00 ∷ q)

unfoldable pub build_dns_query : ℕ → List ℕ → ℕ → List ℕ
unfolding query_header
build_dns_query id name qtype =
    query_header id (push_labels (split_dot name) ++ (0x00 ∷ (be16 qtype ++ (0x00 ∷ 0x01 ∷ []))))

unfoldable pub build_query : ℕ → List ℕ → ℕ → List ℕ
unfolding query_header
build_query id name qtype =
    query_header id
      (push_nonempty_labels (split_dot name) ++ (0x00 ∷ (be16 qtype ++ (0x00 ∷ 0x01 ∷ []))))
