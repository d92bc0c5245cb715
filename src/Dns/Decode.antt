-- ===== src/Dns/Decode.antt =====
-- The scan of aether/src/socks.rs on a well-formed response.
use aether_gui.Common.{
  ℕ, zero, suc, ◌+◌, ◌^◌, ◌≤◌, ◌<◌, ◌≡◌, refl, ap, ◌∙◌, some, List, [], ◌∷◌, ◌++◌, append_assoc,
  arith, length, get_elem?, drop, All, length-append, length-drop, drop-length_append,
  get_elem?-drop, get_elem?-drop_zero, drop-step, lt→ltb,
}
use aether_gui.Common.Outcome.{ok}
use aether_gui.Common.Bytes.{be16}
use aether_gui.Common.Masks.{top_two_bits}
use aether_gui.Dns.{skip_name_loop, skip_name, u16_at, skip_questions}
use aether_gui.Dns.Message.{
  Name, root, pointer, label, encode_name, IsName, Rr, IsRr, encode_fields, encode_rr, Question,
  encode_question, encode_questions, IsQuestion,
}

skip_name_round :
    (fuel : ℕ) (buf : List ℕ) (pos len : ℕ)
    → get_elem? buf pos ≡ some len
    → 0 < len
    → len < 192
    → skip_name_loop (suc fuel) buf pos ≡ skip_name_loop fuel buf (pos + (1 + len))
unfolding skip_name_loop
skip_name_round fuel buf pos len e some_bytes short = rw e (ground (arith, top_two_bits len))

skip_name_end :
    (fuel : ℕ) (buf : List ℕ) (pos : ℕ)
    → get_elem? buf pos ≡ some 0
    → skip_name_loop (suc fuel) buf pos ≡ ok (pos + 1)
unfolding skip_name_loop
skip_name_end fuel buf pos e = rw e

skip_name_pointer :
    (fuel : ℕ) (buf : List ℕ) (pos hi : ℕ)
    → get_elem? buf pos ≡ some hi
    → 192 ≤ hi
    → hi < 256
    → skip_name_loop (suc fuel) buf pos ≡ ok (pos + 2)
unfolding skip_name_loop
skip_name_pointer fuel buf pos hi e lo_hi hi_hi = rw e (ground (arith, top_two_bits hi))

behind_label :
    (l : List ℕ) (n : Name) (buf rest : List ℕ) (pos : ℕ)
    → drop pos buf ≡ encode_name (label l n) ++ rest
    → drop (pos + (1 + length l)) buf ≡ encode_name n ++ rest
behind_label l n buf rest pos e =
    drop-step pos (suc (length l)) _ buf _ _ e (omega arith)
      (rw (append_assoc l (encode_name n) rest) (drop-length_append l (encode_name n ++ rest)))

skip_name_loop-encode_name :
    (n : Name) (fuel : ℕ) (buf rest : List ℕ) (pos : ℕ)
    → IsName n
    → drop pos buf ≡ encode_name n ++ rest
    → length (encode_name n) ≤ suc fuel
    → skip_name_loop (suc fuel) buf pos ≡ ok (pos + length (encode_name n))
skip_name_loop-encode_name root fuel buf rest pos h e f =
    skip_name_end fuel buf pos (get_elem?-drop_zero pos buf _ e)
skip_name_loop-encode_name (pointer hi lo) fuel buf rest pos (low, high) e f =
    skip_name_pointer fuel buf pos hi (get_elem?-drop_zero pos buf _ e) low high
skip_name_loop-encode_name (label l n) zero buf rest pos h e f =
    absurd (omega (arith, length-append l (encode_name n)))
skip_name_loop-encode_name (label l n) (suc fuel) buf rest pos (some_bytes, short, h) e f =
    skip_name_round (suc fuel) buf pos (length l) (get_elem?-drop_zero pos buf _ e) some_bytes short
    ∙ skip_name_loop-encode_name n fuel buf rest (pos + (1 + length l)) h
        (behind_label l n buf rest pos e) (omega (arith, length-append l (encode_name n)))
    ∙ ap ok (omega (arith, length-append l (encode_name n)))

-- `skip_name` ends exactly behind a name, wherever it stands in the buffer.
pub skip_name-encode_name :
    (n : Name) (buf rest : List ℕ) (pos : ℕ)
    → IsName n
    → drop pos buf ≡ encode_name n ++ rest
    → skip_name buf pos ≡ ok (pos + length (encode_name n))
unfolding skip_name
skip_name-encode_name n buf rest pos h e =
    skip_name_loop-encode_name n (length buf) buf rest pos h e
      (omega (arith, ap length e, length-drop pos buf, length-append (encode_name n) rest))

-- A Rust slice has at most `isize::MAX` bytes.
abbrev pub IsSlice : List ℕ → Type 0
IsSlice buf = length buf < 2 ^ 63

pub u16_at-be16 :
    (buf rest : List ℕ) (pos v : ℕ)
    → v < 65536
    → drop pos buf ≡ be16 v ++ rest
    → u16_at buf pos ≡ ok v
unfolding u16_at
u16_at-be16 buf rest pos v h e =
    rw (get_elem?-drop_zero pos buf _ e) (rw (get_elem?-drop pos 1 buf _ e) (ap ok (omega arith)))

pub fits :
    (buf front rest : List ℕ) (pos : ℕ)
    → drop pos buf ≡ front ++ rest
    → 0 < length front
    → pos + length front ≤ length buf
fits buf front rest pos e h =
    omega (arith, ap length e, length-drop pos buf, length-append front rest)

pub behind :
    (buf front rest : List ℕ) (pos : ℕ)
    → drop pos buf ≡ front ++ rest
    → drop (pos + length front) buf ≡ rest
behind buf front rest pos e =
    drop-step pos (length front) _ buf _ _ e refl (drop-length_append front rest)

pub length-encode_name : (n : Name) → 0 < length (encode_name n)
length-encode_name root = omega arith
length-encode_name (pointer hi lo) = omega arith
length-encode_name (label l n) = omega arith

pub skip_questions-encode :
    (qs : List Question) (buf rest : List ℕ) (pos : ℕ)
    → IsSlice buf
    → All IsQuestion qs
    → drop pos buf ≡ encode_questions qs ++ rest
    → skip_questions (length qs) buf pos ≡ ok (pos + length (encode_questions qs))
unfolding skip_questions
skip_questions-encode [] buf rest pos s h e = ap ok (omega arith)
skip_questions-encode (q ∷ qs) buf rest pos s (hq, hqs) e =
    rw (skip_name-encode_name q.name buf _ pos hq at_name) (
      rw
        (lt→ltb (pos + length name + 4) (2 ^ 64) (
          omega (
            arith,
            fits buf (encode_question q) _ pos at_question (omega (arith, length-question)),
            length-question,
          )))
        (skip_questions-encode qs buf rest (pos + length name + 4) s hqs at_next
          ∙ ap ok (
              omega
                (arith, length-append (encode_question q) (encode_questions qs), length-question))))
  where
    name : List ℕ
    name = encode_name q.name

    length-question : length (encode_question q) ≡ length name + 4
    length-question = length-append name _

    at_question : drop pos buf ≡ encode_question q ++ (encode_questions qs ++ rest)
    at_question = e ∙ append_assoc (encode_question q) (encode_questions qs) rest

    at_name :
        drop pos buf ≡ name ++ ((be16 q.qtype ++ be16 q.class) ++ (encode_questions qs ++ rest))
    at_name = at_question ∙ append_assoc name (be16 q.qtype ++ be16 q.class) _

    at_next : drop (pos + length name + 4) buf ≡ encode_questions qs ++ rest
    at_next =
        ap (λ k. drop k buf) (omega (arith, length-question))
        ∙ behind buf (encode_question q) _ pos at_question

length-encode_fields : (r : Rr) → length (encode_fields r) ≡ 10 + length r.rdata
length-encode_fields r = omega arith

-- What one round of the scan reads of a record, wherever it stands.
module _ (r : Rr) (buf rest : List ℕ) (pos : ℕ) (h : IsRr r)
    (e : drop pos buf ≡ encode_rr r ++ rest) where
  pub fixed : ℕ
  fixed = pos + length (encode_name r.name)

  at_name : drop pos buf ≡ encode_name r.name ++ (encode_fields r ++ rest)
  at_name = e ∙ append_assoc (encode_name r.name) (encode_fields r) rest

  at_fields : drop fixed buf ≡ encode_fields r ++ rest
  unfolding fixed
  at_fields = behind buf (encode_name r.name) _ pos at_name

  pub at_rdata : drop (fixed + 10) buf ≡ r.rdata ++ rest
  at_rdata = drop-step fixed 10 _ buf _ _ at_fields refl refl

  pub at_rest : drop (fixed + 10 + length r.rdata) buf ≡ rest
  at_rest = behind buf r.rdata rest (fixed + 10) at_rdata

  pub rr_fits : fixed + 10 + length r.rdata ≤ length buf
  rr_fits = omega (arith, fits buf (encode_fields r) rest fixed at_fields (omega arith))

  pub read_name : skip_name buf pos ≡ ok fixed
  unfolding fixed
  read_name = skip_name-encode_name r.name buf _ pos h.name at_name

  pub read_rtype : u16_at buf fixed ≡ ok r.rtype
  read_rtype = u16_at-be16 buf _ fixed r.rtype h.rtype at_fields

  pub read_rdlen : u16_at buf (fixed + 8) ≡ ok (length r.rdata)
  read_rdlen =
      u16_at-be16 buf _ (fixed + 8) (length r.rdata) h.rdata
        (drop-step fixed 8 _ buf _ _ at_fields refl refl)
