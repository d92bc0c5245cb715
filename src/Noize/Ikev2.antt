-- ===== src/Noize/Ikev2.antt =====
-- The IKEv2 wrapping of aether/src/aethernoize.rs.
use aether_gui.Common.{
  ℕ, ◌+◌, ◌%◌, ◌^◌, ◌≤◌, ◌<◌, ◌≡◌, sym, ap, ◌∙◌, subst, List, [], ◌∷◌, ◌++◌, arith, min, length,
  take, drop, length-append, length-take, drop-add, drop-length_append, leb, leb→le, if_known,
}
use aether_gui.Common.Outcome.{}
use aether_gui.Noize.{Rng, IsRng, be32_bytes, initiator_spi, ikev2_tail, wrap_ikev2}

drop_behind : (k : ℕ) (xs ys : List ℕ) → length xs ≡ 8 → drop (8 + k) (xs ++ ys) ≡ drop k ys
drop_behind k xs ys e =
    drop-add 8 k (xs ++ ys)
    ∙ ap (drop k) (subst (λ n. drop n (xs ++ ys) ≡ ys) e (drop-length_append xs ys))

module _ (rng : Rng) (laws : IsRng rng) where
  length-initiator_spi : (payload : List ℕ) → length (initiator_spi rng payload) ≡ 8
  length-initiator_spi payload =
      if_known (λ l. length l ≡ 8) (leb 8 (length payload)) _ _
        (λ e. length-take 8 payload ∙ full (leb→le 8 (length payload) e)) (λ _. laws.filled 0 8)
    where
      full : 8 ≤ length payload → min 8 (length payload) ≡ 8
      full h = grind arith

  -- The layout of a wrapped payload: the header's length field gives the length of the datagram, and
  -- the payload stands whole behind 52 bytes.
  pub wrap_ikev2-layout :
      (payload : List ℕ)
      → 0 < length payload
      → length payload + 52 < 2 ^ 32
      → (length (wrap_ikev2 rng payload) ≡ length payload + 52)
        × (take 4 (drop 24 (wrap_ikev2 rng payload)) ≡ be32_bytes (length (wrap_ikev2 rng payload)))
        × (drop 52 (wrap_ikev2 rng payload) ≡ payload)
  unfolding wrap_ikev2
  wrap_ikev2-layout [] some_byte small = absurd (omega arith)
  wrap_ikev2-layout (b ∷ bs) some_byte small =
      (total, ap (take 4) (behind 8) ∙ ap be32_bytes (sym (total ∙ field)), behind 36)
    where
      tail : List ℕ
      tail = ikev2_tail (b ∷ bs)

      field : length (b ∷ bs) + 52 ≡ (28 + 24 + length (b ∷ bs)) % 2 ^ 32
      field = omega arith

      total :
          length (initiator_spi rng (b ∷ bs) ++ (rng.fill_bytes 1 8 ++ tail)) ≡ length (b ∷ bs) + 52
      total =
          length-append (initiator_spi rng (b ∷ bs)) (rng.fill_bytes 1 8 ++ tail)
          ∙ ap (λ n. n + length (rng.fill_bytes 1 8 ++ tail)) (length-initiator_spi (b ∷ bs))
          ∙ ap (λ n. 8 + n)
              (length-append (rng.fill_bytes 1 8) tail
                ∙ ap (λ n. n + length tail) (laws.filled 1 8))
          ∙ omega arith

      behind :
          (k : ℕ)
          → drop (8 + (8 + k)) (initiator_spi rng (b ∷ bs) ++ (rng.fill_bytes 1 8 ++ tail))
            ≡ drop k tail
      behind k =
          drop_behind (8 + k) (initiator_spi rng (b ∷ bs)) (rng.fill_bytes 1 8 ++ tail)
            (length-initiator_spi (b ∷ bs))
          ∙ drop_behind k (rng.fill_bytes 1 8) tail (laws.filled 1 8)
