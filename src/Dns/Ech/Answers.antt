-- ===== src/Dns/Ech/Answers.antt =====
-- `parse_https_ech` of aether/src/dns.rs on the bytes of a well-formed response.
use aether_gui.Common.{
  ℕ, zero, suc, ◌+◌, ◌*◌, ◌≤◌, ◌≡◌, refl, ap, ◌∙◌, Option, none, some, List, [], ◌∷◌, ◌++◌, map,
  append_assoc, arith, length, drop, All, length-append, drop-add, drop-length_append,
  take-length_append, drop-step, ◌==◌, if◌then◌else◌, le→leb, lt→leb,
}
use aether_gui.Common.Outcome.{ok, absent, or_err}
use mathlib.Core.Path.{ap₂}
use aether_gui.Dns.Message.{
  encode_name, Rr, IsRr, encode_rr, encode_rrs, encode_questions, Message, IsMessage,
  encode_message,
}
use aether_gui.Dns.Decode.{
  IsSlice, u16_at-be16, skip_name-encode_name, skip_questions-encode, behind, fits, fixed, at_rdata,
  at_rest, rr_fits, read_name, read_rtype, read_rdlen,
}
use aether_gui.Dns.Ech.{
  slice, svcparams_loop, parse_svcparams_ech, or_else, scan_https, parse_https_ech, rr_https,
}
use aether_gui.Dns.Ech.Svcb.{
  Param, Svcb, encode_param, encode_params, encode_svcb, IsParam, IsSvcb, find_ech, Answer, https,
  other, to_rr, IsAnswer, first_ech,
}

slice-append :
    (msg front rest : List ℕ) (pos : ℕ)
    → drop pos msg ≡ front ++ rest
    → pos + length front ≤ length msg
    → slice msg pos (length front) ≡ ok front
unfolding slice
slice-append msg front rest pos e h = rw (le→leb _ _ h) (rw e (rw (take-length_append front rest)))

svcparams_loop-encode :
    (qs : List Param) (fuel : ℕ) (msg rest : List ℕ) (p end : ℕ)
    → All IsParam qs
    → drop p msg ≡ encode_params qs ++ rest
    → p + length (encode_params qs) ≡ end
    → end ≤ length msg
    → length qs ≤ fuel
    → svcparams_loop (suc fuel) msg p end ≡ or_err absent (find_ech qs)
unfolding svcparams_loop
svcparams_loop-encode [] fuel msg rest p end h e ends inside enough =
    rw (lt→leb (p + 4) end (omega arith))
svcparams_loop-encode (q ∷ qs) zero msg rest p end h e ends inside enough = absurd (omega arith)
svcparams_loop-encode (q ∷ qs) (suc fuel) msg rest p end (hq, hqs) e ends inside enough =
    rw (le→leb (p + 4) end (omega (arith, size))) (
      rw (u16_at-be16 msg _ p q.key hq.key here) (
        rw
          (u16_at-be16 msg _ (p + 2) (length q.value) hq.value
            (drop-step p 2 _ msg _ _ here refl refl))
          (rw (le→leb (p + 4 + length q.value) end (omega (arith, size))) (
            ground (
              arith,
              slice-append msg q.value (encode_params qs ++ rest) (p + 4) at_value
                  (omega (arith, size)),
              svcparams_loop-encode qs fuel msg rest (p + 4 + length q.value) end hqs at_next
                  (omega (arith, size)) inside (omega arith),
            )))))
  where
    here : drop p msg ≡ encode_param q ++ (encode_params qs ++ rest)
    here = e ∙ append_assoc (encode_param q) (encode_params qs) rest

    size : length (encode_params (q ∷ qs)) ≡ 4 + length q.value + length (encode_params qs)
    size = omega (arith, length-append q.value (encode_params qs))

    at_value : drop (p + 4) msg ≡ q.value ++ (encode_params qs ++ rest)
    at_value = drop-step p 4 _ msg _ _ here refl refl

    at_next : drop (p + 4 + length q.value) msg ≡ encode_params qs ++ rest
    at_next = behind msg q.value _ (p + 4) at_value

length-encode_params : (qs : List Param) → 4 * length qs ≤ length (encode_params qs)
length-encode_params [] = omega arith
length-encode_params (q ∷ qs) =
    omega (arith, length-append q.value (encode_params qs), length-encode_params qs)

parse_svcparams_ech-encode :
    (s : Svcb) (msg rest : List ℕ) (start : ℕ)
    → IsSvcb s
    → drop start msg ≡ encode_svcb s ++ rest
    → parse_svcparams_ech msg start (length (encode_svcb s)) ≡ or_err absent (find_ech s.params)
unfolding parse_svcparams_ech
parse_svcparams_ech-encode s msg rest start h e =
    rw (le→leb (start + 2) (start + length (encode_svcb s)) (omega arith)) (
      rw (skip_name-encode_name s.target msg _ (start + 2) h.target at_target) (
        svcparams_loop-encode s.params (length (encode_svcb s)) msg rest _ _ h.params at_params
          (omega (arith, size)) (omega (arith, fits msg (encode_svcb s) rest start e (omega arith)))
          (omega (arith, size, length-encode_params s.params))))
  where
    size :
        length (encode_name s.target ++ encode_params s.params)
        ≡ length (encode_name s.target) + length (encode_params s.params)
    size = length-append (encode_name s.target) (encode_params s.params)

    at_target : drop (start + 2) msg ≡ encode_name s.target ++ (encode_params s.params ++ rest)
    at_target =
        drop-step start 2 _ msg _ _ e refl
          (append_assoc (encode_name s.target) (encode_params s.params) rest)

    at_params :
        drop (start + 2 + length (encode_name s.target)) msg ≡ encode_params s.params ++ rest
    at_params = behind msg (encode_name s.target) _ (start + 2) at_target

scan_https_round :
    (n : ℕ) (r : Rr) (msg rest : List ℕ) (pos : ℕ) (h : IsRr r)
    (e : drop pos msg ≡ encode_rr r ++ rest)
    → scan_https (suc n) msg pos ≡ (
        let next = scan_https n msg (fixed r msg rest pos h e + 10 + length r.rdata) in
        if r.rtype == rr_https
        then or_else (parse_svcparams_ech msg (fixed r msg rest pos h e + 10) (length r.rdata)) next
        else next)
unfolding scan_https
scan_https_round n r msg rest pos h e = rw (read_name r msg rest pos h e) (
    rw
      (le→leb (fixed r msg rest pos h e + 10) (length msg)
        (omega (arith, rr_fits r msg rest pos h e)))
      (rw (read_rtype r msg rest pos h e)
        (rw (read_rdlen r msg rest pos h e) (rw (le→leb _ _ (rr_fits r msg rest pos h e))))))

or_else-or_err :
    (o later : Option (List ℕ))
    → or_else (or_err absent o) (or_err absent later)
      ≡ or_err absent (elim o [ some ech ↦ some ech | none ↦ later ])
or_else-or_err none later = refl
or_else-or_err (some ech) later = refl

at_rr :
    (a : Answer) (more : List Answer) (msg rest : List ℕ) (pos : ℕ)
    → drop pos msg ≡ encode_rrs (map to_rr (a ∷ more)) ++ rest
    → drop pos msg ≡ encode_rr (to_rr a) ++ (encode_rrs (map to_rr more) ++ rest)
at_rr a more msg rest pos e =
    e ∙ append_assoc (encode_rr (to_rr a)) (encode_rrs (map to_rr more)) rest

scan_https-encode :
    (answers : List Answer) (msg rest : List ℕ) (pos : ℕ)
    → All IsAnswer answers
    → drop pos msg ≡ encode_rrs (map to_rr answers) ++ rest
    → scan_https (length (map to_rr answers)) msg pos ≡ or_err absent (first_ech answers)
scan_https-encode [] msg rest pos h e = unfold scan_https in refl
scan_https-encode (https name class ttl s ∷ more) msg rest pos ((h, hs), more_h) e =
    let a = https name class ttl s in
    let here = at_rr a more msg rest pos e in
    let next = fixed (to_rr a) msg _ pos h here + 10 + length (encode_svcb s) in
    scan_https_round (length (map to_rr more)) (to_rr a) msg _ pos h here
    ∙ ap₂ or_else (parse_svcparams_ech-encode s msg _ _ hs (at_rdata (to_rr a) msg _ pos h here))
        (scan_https-encode more msg rest next more_h (at_rest (to_rr a) msg _ pos h here))
    ∙ or_else-or_err (find_ech s.params) (first_ech more)
scan_https-encode (other r ∷ more) msg rest pos ((h, not_https), more_h) e =
    let here = at_rr (other r) more msg rest pos e in
    let next = fixed r msg _ pos h here + 10 + length r.rdata in
    scan_https_round (length (map to_rr more)) r msg _ pos h here
    ∙ ground (arith, scan_https-encode more msg rest next more_h (at_rest r msg _ pos h here))

-- On the bytes of a well-formed response whose answers are `answers`, `parse_https_ech` returns the
-- ECH configuration of the first HTTPS record that has one, and fails if none has.
pub parse_https_ech-encode_message :
    (m : Message) (answers : List Answer)
    → IsMessage m
    → IsSlice (encode_message m)
    → All IsAnswer answers
    → m.answers ≡ map to_rr answers
    → parse_https_ech (encode_message m) ≡ or_err absent (first_ech answers)
unfolding parse_https_ech
parse_https_ech-encode_message m answers h s ha p = rw (le→leb 12 (length buf) (omega arith)) (
    rw (u16_at-be16 buf _ 4 (length m.questions) h.few_questions refl) (
      rw (u16_at-be16 buf _ 6 (length m.answers) h.few_answers refl) (
        rw (skip_questions-encode m.questions buf _ 12 s h.questions refl) (
          ap (λ rs. scan_https (length rs) buf (12 + length (encode_questions m.questions))) p
          ∙ scan_https-encode answers buf m.rest _ ha at_answers))))
  where
    buf : List ℕ
    buf = encode_message m

    at_answers :
        drop (12 + length (encode_questions m.questions)) buf
        ≡ encode_rrs (map to_rr answers) ++ m.rest
    at_answers =
        drop-add 12 _ buf
        ∙ drop-length_append (encode_questions m.questions) _
        ∙ ap (λ rs. encode_rrs rs ++ m.rest) p
