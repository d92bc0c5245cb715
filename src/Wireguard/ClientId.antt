-- ===== src/Wireguard/ClientId.antt =====
-- What the client id changes in the packets of aether/src/wireguard.rs.
use aether_gui.Common.{
  ℕ, ◌≤◌, ◌<◌, ◌≡◌, refl, sym, subst, if_known, true, ap, ◌∙◌, inl, inr, false, ◌||◌, List, [], ◌∷◌,
  arith, length, ltb, if◌then◌else◌, le→ltb, Bool-cases,
}
use aether_gui.Common.Outcome.{}
use aether_gui.Wireguard.{
  copy_reserved, set_reserved, inject_client_id, strip_client_id, wg_msg_type_min, wg_msg_type_max,
}

-- The reserved bytes of the messages of the protocol, types 1 to 4, are these.
abbrev pub IsTagged : ℕ → ℕ → ℕ → List ℕ → Type 0
IsTagged x y z (kind ∷ a ∷ b ∷ c ∷ rest) = 1 ≤ kind → kind ≤ 4 → (a ≡ x) × (b ≡ y) × (c ≡ z)
IsTagged x y z pkt = Unit

abbrev pub IsPlain : List ℕ → Type 0
IsPlain = IsTagged 0 0 0

set_reserved-short : (pkt bytes : List ℕ) → length pkt < 4 → set_reserved pkt bytes ≡ pkt
unfolding set_reserved
set_reserved-short [] bytes h = refl
set_reserved-short (kind ∷ rest) bytes h = ground arith

set_reserved-long :
    (kind a b c x y z : ℕ) (rest : List ℕ)
    → set_reserved (kind ∷ a ∷ b ∷ c ∷ rest) (x ∷ y ∷ z ∷ []) ≡ (
        if ltb kind wg_msg_type_min || ltb wg_msg_type_max kind
        then kind ∷ a ∷ b ∷ c ∷ rest
        else kind ∷ x ∷ y ∷ z ∷ rest)
unfolding set_reserved copy_reserved
set_reserved-long kind a b c x y z rest =
    rw (le→ltb (length (kind ∷ a ∷ b ∷ c ∷ rest)) 4 (omega arith)) refl

pub set_reserved-IsTagged :
    (x y z : ℕ) (pkt : List ℕ) → IsTagged x y z (set_reserved pkt (x ∷ y ∷ z ∷ []))
set_reserved-IsTagged x y z [] =
    subst (IsTagged x y z) (sym (set_reserved-short [] _ (omega arith))) tt
set_reserved-IsTagged x y z (k ∷ []) =
    subst (IsTagged x y z) (sym (set_reserved-short (k ∷ []) _ (omega arith))) tt
set_reserved-IsTagged x y z (k ∷ a ∷ []) =
    subst (IsTagged x y z) (sym (set_reserved-short (k ∷ a ∷ []) _ (omega arith))) tt
set_reserved-IsTagged x y z (k ∷ a ∷ b ∷ []) =
    subst (IsTagged x y z) (sym (set_reserved-short (k ∷ a ∷ b ∷ []) _ (omega arith))) tt
set_reserved-IsTagged x y z (k ∷ a ∷ b ∷ c ∷ rest) =
    subst (IsTagged x y z) (sym (set_reserved-long k a b c x y z rest)) (
      if_known (IsTagged x y z) (ltb k wg_msg_type_min || ltb wg_msg_type_max k) _ _
        (λ other low high. absurd (clash other low high)) (λ message low high. (refl, refl, refl)))
  where
    clash : (ltb k wg_msg_type_min || ltb wg_msg_type_max k) ≡ true → 1 ≤ k → k ≤ 4 → ⊥
    clash other low high = grind arith

set_reserved-short_twice :
    (pkt first second : List ℕ)
    → length pkt < 4
    → set_reserved (set_reserved pkt first) second ≡ pkt
set_reserved-short_twice pkt first second h =
    ap (λ p. set_reserved p second) (set_reserved-short pkt first h)
    ∙ set_reserved-short pkt second h

stripped :
    (kind a b c x y z : ℕ) (rest : List ℕ)
    → IsPlain (kind ∷ a ∷ b ∷ c ∷ rest)
    → set_reserved
        (if ltb kind wg_msg_type_min || ltb wg_msg_type_max kind
          then kind ∷ a ∷ b ∷ c ∷ rest
          else kind ∷ x ∷ y ∷ z ∷ rest)
        (0 ∷ 0 ∷ 0 ∷ [])
      ≡ kind ∷ a ∷ b ∷ c ∷ rest
stripped kind a b c x y z rest plain =
    elim (Bool-cases (ltb kind wg_msg_type_min || ltb wg_msg_type_max kind)) [
      | inl other ↦ rw other (set_reserved-long kind a b c 0 0 0 rest ∙ rw other refl)
      | inr message ↦
          let (at_least, at_most) = in_protocol message in
          let (a0, b0, c0) = plain at_least at_most in
          rw message
            (set_reserved-long kind x y z 0 0 0 rest ∙ rw message (rw a0 (rw b0 (rw c0 refl))))
    ]
  where
    in_protocol :
        (ltb kind wg_msg_type_min || ltb wg_msg_type_max kind) ≡ false → (1 ≤ kind) × (kind ≤ 4)
    in_protocol h = grind arith

-- Reading undoes writing: a message of the protocol is sent with the client id and received with its
-- reserved bytes zero again, and a packet that is no message comes through as it is.
pub strip-inject_client_id :
    (pkt : List ℕ) (x y z : ℕ)
    → IsPlain pkt
    → strip_client_id (inject_client_id pkt (x ∷ y ∷ z ∷ [])) ≡ pkt
unfolding inject_client_id strip_client_id
strip-inject_client_id [] x y z plain = set_reserved-short_twice [] _ _ (omega arith)
strip-inject_client_id (k ∷ []) x y z plain = set_reserved-short_twice (k ∷ []) _ _ (omega arith)
strip-inject_client_id (k ∷ a ∷ []) x y z plain =
    set_reserved-short_twice (k ∷ a ∷ []) _ _ (omega arith)
strip-inject_client_id (k ∷ a ∷ b ∷ []) x y z plain =
    set_reserved-short_twice (k ∷ a ∷ b ∷ []) _ _ (omega arith)
strip-inject_client_id (k ∷ a ∷ b ∷ c ∷ rest) x y z plain =
    ap (λ pkt. set_reserved pkt (0 ∷ 0 ∷ 0 ∷ [])) (set_reserved-long k a b c x y z rest)
    ∙ stripped k a b c x y z rest plain
