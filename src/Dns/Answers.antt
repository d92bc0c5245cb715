-- ===== src/Dns/Answers.antt =====
-- `parse_dns_a` of aether/src/socks.rs on the bytes of a well-formed response.
use aether_gui.Common.{
  ℕ, suc, ◌+◌, ◌≡◌, refl, ◌∙◌, ◌&&◌, List, [], ◌∷◌, ◌++◌, append_assoc, arith, length, drop, All,
  drop-add, drop-length_append, get_elem?-drop, get_elem?-drop_zero, ◌==◌, if◌then◌else◌, le→leb,
}
use aether_gui.Common.Outcome.{ok, absent, or_err}
use aether_gui.Net.{v4}
use aether_gui.Dns.{ipv4_at, scan_a, parse_dns_a}
use aether_gui.Dns.Message.{
  Rr, IsRr, encode_rr, encode_rrs, encode_questions, Message, IsMessage, encode_message, first_a,
}
use aether_gui.Dns.Decode.{
  IsSlice, u16_at-be16, skip_questions-encode, fixed, at_rdata, at_rest, rr_fits, read_name,
  read_rtype, read_rdlen,
}

ipv4_at-octets :
    (o buf rest : List ℕ) (pos : ℕ)
    → length o ≡ 4
    → drop pos buf ≡ o ++ rest
    → ipv4_at buf pos ≡ ok (v4 o)
unfolding ipv4_at
ipv4_at-octets [] buf rest pos h e = absurd (omega arith)
ipv4_at-octets (a ∷ []) buf rest pos h e = absurd (omega arith)
ipv4_at-octets (a ∷ b ∷ []) buf rest pos h e = absurd (omega arith)
ipv4_at-octets (a ∷ b ∷ c ∷ []) buf rest pos h e = absurd (omega arith)
ipv4_at-octets (a ∷ b ∷ c ∷ d ∷ x ∷ o) buf rest pos h e = absurd (omega arith)
ipv4_at-octets (a ∷ b ∷ c ∷ d ∷ []) buf rest pos h e = rw (get_elem?-drop_zero pos buf _ e) (
    rw (get_elem?-drop pos 1 buf _ e)
      (rw (get_elem?-drop pos 2 buf _ e) (rw (get_elem?-drop pos 3 buf _ e))))

scan_a_round :
    (n : ℕ) (r : Rr) (buf rest : List ℕ) (pos : ℕ) (h : IsRr r)
    (e : drop pos buf ≡ encode_rr r ++ rest)
    → scan_a (suc n) buf pos ≡ (
        if r.rtype == 1 && length r.rdata == 4
        then ok (v4 r.rdata)
        else scan_a n buf (fixed r buf rest pos h e + 10 + length r.rdata))
unfolding scan_a
scan_a_round n r buf rest pos h e = rw (read_name r buf rest pos h e) (
    rw
      (le→leb (fixed r buf rest pos h e + 10) (length buf)
        (omega (arith, rr_fits r buf rest pos h e)))
      (rw (read_rtype r buf rest pos h e) (
        rw (read_rdlen r buf rest pos h e) (
          rw (le→leb _ _ (rr_fits r buf rest pos h e)) (
            ground (
              arith,
              at_rdata r buf rest pos h e,
              ipv4_at-octets r.rdata buf rest (fixed r buf rest pos h e + 10),
            ))))))

scan_a-encode :
    (rs : List Rr) (buf rest : List ℕ) (pos : ℕ)
    → All IsRr rs
    → drop pos buf ≡ encode_rrs rs ++ rest
    → scan_a (length rs) buf pos ≡ or_err absent (first_a rs)
scan_a-encode [] buf rest pos h e = unfold scan_a in refl
scan_a-encode (r ∷ rs) buf rest pos (h, hs) e =
    scan_a_round (length rs) r buf _ pos h here
    ∙ ground (
      arith,
      scan_a-encode rs buf rest (fixed r buf _ pos h here + 10 + length r.rdata) hs
          (at_rest r buf _ pos h here),
    )
  where
    here : drop pos buf ≡ encode_rr r ++ (encode_rrs rs ++ rest)
    here = e ∙ append_assoc (encode_rr r) (encode_rrs rs) rest

-- On the bytes of any well-formed response, `parse_dns_a` returns the address of its first A record
-- with four bytes of data, whatever stands before and behind it, and fails if there is none.
pub parse_dns_a-encode_message :
    (m : Message)
    → IsMessage m
    → IsSlice (encode_message m)
    → parse_dns_a (encode_message m) ≡ or_err absent (first_a m.answers)
unfolding parse_dns_a
parse_dns_a-encode_message m h s = rw (le→leb 12 (length buf) (omega arith)) (
    rw (u16_at-be16 buf _ 4 (length m.questions) h.few_questions refl) (
      rw (u16_at-be16 buf _ 6 (length m.answers) h.few_answers refl) (
        rw (skip_questions-encode m.questions buf _ 12 s h.questions refl)
          (scan_a-encode m.answers buf m.rest _ h.answers at_answers))))
  where
    buf : List ℕ
    buf = encode_message m

    at_answers :
        drop (12 + length (encode_questions m.questions)) buf ≡ encode_rrs m.answers ++ m.rest
    at_answers = drop-add 12 _ buf ∙ drop-length_append (encode_questions m.questions) _
