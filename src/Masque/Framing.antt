-- ===== src/Masque/Framing.antt =====
-- `CapsuleParser::next` of aether/src/masque.rs: where a capsule ends, and what more input changes.
use aether_gui.Common.{
  ℕ, ◌-◌, ◌≤◌, ◌<◌, ◌≡◌, sym, ap, ◌∙◌, ◌⊎◌, inl, inr, none, some, List, ◌++◌, append_assoc, arith,
  length, take, drop, length-append, take-append-drop, drop-length_append, take-length_append,
  take-append_le, drop-append_le, ltb, ltb→lt, lt→ltb, le→ltb, ltb→le, le→leb, Bool-cases,
  Option-cases,
}
use aether_gui.Common.Outcome.{ok}
use mathlib.Core.Path.{ap₂}
use aether_gui.Octets.{Octets, IsOctets, IsVarint}
use aether_gui.Masque.{capsule_of, next, encode_capsule}
use aether_gui.Masque.Datagram.{encode_capsule_lem}

module _ (o : Octets) (laws : IsOctets o) where
  open laws use {varint}

  drop_front :
      (front rest : List ℕ) → drop (length (front ++ rest) - length rest) (front ++ rest) ≡ rest
  drop_front front rest =
      ap (λ n. drop n (front ++ rest)) (omega (arith, length-append front rest))
      ∙ drop-length_append front rest

  regroup : (a b c d : List ℕ) → a ++ (b ++ (c ++ d)) ≡ (a ++ (b ++ c)) ++ d
  regroup a b c d = simp append_assoc

  next_step :
      (buf r1 r2 : List ℕ) (kind len : ℕ)
      → o.get_varint buf ≡ some (kind, r1)
      → o.get_varint r1 ≡ some (len, r2)
      → len ≤ length r2
      → next o buf ≡ (capsule_of o kind (take len r2), drop (length buf - length (drop len r2)) buf)
  unfolding next
  next_step buf r1 r2 kind len e1 e2 h =
      rw (e1, next)
        (rw e2 (
          rw (le→ltb (length r2) len h)
            (rw (laws.get_bytes_lem len r2) (rw (le→leb len (length r2) h)))))

  next_frame :
      (buf front r1 r2 : List ℕ) (kind len : ℕ)
      → o.get_varint buf ≡ some (kind, r1)
      → o.get_varint r1 ≡ some (len, r2)
      → len ≤ length r2
      → buf ≡ front ++ drop len r2
      → next o buf ≡ (capsule_of o kind (take len r2), drop len r2)
  next_frame buf front r1 r2 kind len e1 e2 h split =
      next_step buf r1 r2 kind len e1 e2 h ∙ ap (λ l. (capsule_of o kind (take len r2), l)) behind
    where
      behind : drop (length buf - length (drop len r2)) buf ≡ drop len r2
      behind = rw split (drop_front front (drop len r2))

  next_waits_kind : (buf : List ℕ) → o.get_varint buf ≡ none → next o buf ≡ (ok none, buf)
  unfolding next
  next_waits_kind buf e = rw (e, next)

  next_waits_length :
      (buf r1 : List ℕ) (kind : ℕ)
      → o.get_varint buf ≡ some (kind, r1)
      → o.get_varint r1 ≡ none
      → next o buf ≡ (ok none, buf)
  unfolding next
  next_waits_length buf r1 kind e1 e2 = rw (e1, next) (rw e2)

  next_waits_value :
      (buf r1 r2 : List ℕ) (kind len : ℕ)
      → o.get_varint buf ≡ some (kind, r1)
      → o.get_varint r1 ≡ some (len, r2)
      → length r2 < len
      → next o buf ≡ (ok none, buf)
  unfolding next
  next_waits_value buf r1 r2 kind len e1 e2 h =
      rw (e1, next) (rw e2 (rw (lt→ltb (length r2) len h)))

  -- `next` takes one capsule off the front of the buffer, and leaves what follows it.
  pub next-encode_capsule :
      (kind : ℕ) (value rest : List ℕ)
      → IsVarint kind
      → IsVarint (length value)
      → next o (encode_capsule o kind value ++ rest) ≡ (capsule_of o kind value, rest)
  next-encode_capsule kind value rest hk hv =
      ap (λ l. next o l) framed
      ∙ next_frame _ (varint kind ++ (varint (length value) ++ value)) _ (value ++ rest) kind
          (length value) (laws.get-varint kind _ hk) (laws.get-varint (length value) _ hv)
          (omega (arith, length-append value rest)) split
      ∙ ap₂ (λ v r. (capsule_of o kind v, r)) (take-length_append value rest)
          (drop-length_append value rest)
    where
      framed :
          encode_capsule o kind value ++ rest
          ≡ varint kind ++ (varint (length value) ++ (value ++ rest))
      framed = rw (encode_capsule_lem o laws kind value hk hv) (simp append_assoc)

      split :
          varint kind ++ (varint (length value) ++ (value ++ rest))
          ≡ (varint kind ++ (varint (length value) ++ value)) ++ drop (length value) (value ++ rest)
      split = rw (drop-length_append value rest) (simp append_assoc)

  -- A complete capsule at the front of a buffer.
  pub record Frame (buf : List ℕ) : Type 0 where
    pub kind : ℕ
    pub value : List ℕ
    pub front : List ℕ
    pub rest : List ℕ
    pub split : buf ≡ front ++ rest
    pub nonempty : 0 < length front
    pub now : next o buf ≡ (capsule_of o kind value, rest)
    pub later : (more : List ℕ) → next o (buf ++ more) ≡ (capsule_of o kind value, rest ++ more)

  frame :
      (buf r1 r2 : List ℕ) (kind len : ℕ)
      → o.get_varint buf ≡ some (kind, r1)
      → o.get_varint r1 ≡ some (len, r2)
      → len ≤ length r2
      → Frame buf
  frame buf r1 r2 kind len e1 e2 h =
      let (f1, s1, n1) = laws.get_varint_front buf kind r1 e1 in
      let (f2, s2, n2) = laws.get_varint_front r1 len r2 e2 in
      let front = f1 ++ (f2 ++ take len r2) in
      let split =
        s1
        ∙ ap (λ l. f1 ++ l) (s2 ∙ ap (λ l. f2 ++ l) (sym (take-append-drop len r2)))
        ∙ regroup f1 f2 (take len r2) (drop len r2) in
      record {
        kind = kind;
        value = take len r2;
        front = front;
        rest = drop len r2;
        split = split;
        nonempty = omega (arith, length-append f1 (f2 ++ take len r2));
        now = next_frame buf front r1 r2 kind len e1 e2 h split;
        later = λ more.
            next_frame (buf ++ more) front (r1 ++ more) (r2 ++ more) kind len
              (laws.get_varint-append buf more kind r1 e1)
              (laws.get_varint-append r1 more len r2 e2) (omega (arith, length-append r2 more))
              (ap (λ l. l ++ more) split
                ∙ append_assoc front (drop len r2) more
                ∙ ap (λ l. front ++ l) (sym (drop-append_le len r2 more h)))
            ∙ ap₂ (λ v r. (capsule_of o kind v, r)) (take-append_le len r2 more h)
                (drop-append_le len r2 more h);
      }

  -- Either `next` waits for more input and leaves the buffer alone, or a complete capsule stands at the
  -- front of the buffer.
  pub next_cases : (buf : List ℕ) → (next o buf ≡ (ok none, buf)) ⊎ Frame buf
  next_cases buf = elim (Option-cases (o.get_varint buf)) [
    | inl e1 ↦ inl (next_waits_kind buf e1)
    | inr ((kind, r1), e1) ↦ elim (Option-cases (o.get_varint r1)) [
      | inl e2 ↦ inl (next_waits_length buf r1 kind e1 e2)
      | inr ((len, r2), e2) ↦ elim (Bool-cases (ltb (length r2) len)) [
        | inl short ↦ inl (next_waits_value buf r1 r2 kind len e1 e2 (ltb→lt _ _ short))
        | inr long ↦ inr (frame buf r1 r2 kind len e1 e2 (ltb→le _ _ long))
      ]
    ]
  ]
