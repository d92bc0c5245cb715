-- ===== src/Probe/Checksum.antt =====
-- The header checksum of the probe packet of aether/src/masque.rs.
use aether_gui.Common.{
  ℕ, suc, ◌+◌, ◌*◌, ◌/◌, ◌%◌, ◌^◌, ◌≤◌, ◌<◌, ◌≡◌, refl, ap, ◌∙◌, inl, inr, true, false, List, [],
  ◌∷◌, arith, ltb, ◌==◌, ltb→lt, ltb→le, Bool-cases,
}
use aether_gui.Common.Outcome.{ok}
use aether_gui.Common.Bytes.{IsBytes}
use aether_gui.Probe.{
  sum_words, fold_carries, complement, ipv4_header_checksum, probe_header, set_checksum,
}

-- The ones' complement sum: 16 bits wide, equal to the sum modulo 65535, and zero only for zero.
abbrev pub IsFolded : ℕ → ℕ → Type 0
IsFolded sum n = (n < 65_536) × ((k : ℕ) × (sum ≡ n + 65_535 * k)) × (0 < sum → 0 < n)

Folds : ℕ → ℕ → Type 0
Folds fuel sum = (n : ℕ) × (fold_carries fuel sum ≡ ok n) × IsFolded sum n

fold_done : (fuel sum : ℕ) → sum < 65_536 → fold_carries (suc fuel) sum ≡ ok sum
unfolding fold_carries
fold_done fuel sum h = rw (none_high (omega (arith, h))) refl
  where
    none_high : sum / 65_536 ≡ 0 → (sum / 65_536 == 0) ≡ true
    none_high e = ground arith

fold_more :
    (fuel sum : ℕ)
    → 65_536 ≤ sum
    → fold_carries (suc fuel) sum ≡ fold_carries fuel (sum % 65_536 + sum / 65_536)
unfolding fold_carries
fold_more fuel sum h = rw (some_high (omega (arith, h))) refl
  where
    some_high : 0 < sum / 65_536 → (sum / 65_536 == 0) ≡ false
    some_high e = ground arith

IsFolded-round : (sum n : ℕ) → IsFolded (sum % 65_536 + sum / 65_536) n → IsFolded sum n
IsFolded-round sum n (small, (k, e), positive) =
    (small, (k + sum / 65_536, omega (arith, e)), λ h. positive (omega (arith, h)))

Folds-step :
    (fuel sum : ℕ)
    → (65_536 ≤ sum → Folds fuel (sum % 65_536 + sum / 65_536))
    → Folds (suc fuel) sum
unfolding Folds
Folds-step fuel sum more = elim (Bool-cases (ltb sum 65_536)) [
  | inl small ↦
      let h = ltb→lt sum 65_536 small in (sum, fold_done fuel sum h, (h, (0, omega arith), λ p. p))
  | inr big ↦
      let h = ltb→le sum 65_536 big in
      let (n, run, folded) = more h in (n, fold_more fuel sum h ∙ run, IsFolded-round sum n folded)
]

fold_carries-Folds : (sum : ℕ) → sum < 2 ^ 32 → Folds 3 sum
fold_carries-Folds sum h =
    Folds-step 2 sum
      (λ big. Folds-step 1 _ (λ still. Folds-step 0 _ (λ again. absurd (omega (arith, h, again)))))

-- A sum that the complement of its own folded sum completes folds to all ones.
completed : (sum f n : ℕ) → IsFolded sum f → IsFolded (sum + complement f) n → 0 < sum → n ≡ 65_535
completed sum f n (small, (k, e), _) (small', (k', e'), positive) some_sum =
    omega (arith, e, e', positive (omega (arith, some_sum)))

be16_value : (v : ℕ) → v < 65_536 → (v / 256 % 256) * 256 + v % 256 ≡ v
be16_value v h = omega arith

complement_lt : (sum : ℕ) → complement sum < 65_536
complement_lt sum = omega arith

unfoldable pub Verifies : List ℕ → Type 0
Verifies header = fold_carries 3 (sum_words header) ≡ ok 65_535

-- The header of the probe for `src` of four bytes, and its words.
set_checksum-sum :
    (total id a b c d csum : ℕ)
    → csum < 65_536
    → sum_words (set_checksum (probe_header total id (a ∷ b ∷ c ∷ d ∷ [])) csum)
      ≡ sum_words (probe_header total id (a ∷ b ∷ c ∷ d ∷ [])) + csum
unfolding sum_words set_checksum probe_header
set_checksum-sum total id a b c d csum h = omega (arith, be16_value csum h)

probe_header-sum :
    (total id a b c d : ℕ)
    → IsBytes (a ∷ b ∷ c ∷ d ∷ [])
    → (0 < sum_words (probe_header total id (a ∷ b ∷ c ∷ d ∷ [])))
      × (sum_words (probe_header total id (a ∷ b ∷ c ∷ d ∷ [])) < 2 ^ 31)
unfolding sum_words probe_header
probe_header-sum total id a b c d (ha, (hb, (hc, (hd, _)))) = (omega arith, omega arith)

-- The checksum is computed, and the header with it in place verifies: its ones' complement sum is
-- all ones.
pub set_checksum-Verifies :
    (total id a b c d : ℕ)
    → IsBytes (a ∷ b ∷ c ∷ d ∷ [])
    → (csum : ℕ) × (ipv4_header_checksum (probe_header total id (a ∷ b ∷ c ∷ d ∷ [])) ≡ ok csum)
      × Verifies (set_checksum (probe_header total id (a ∷ b ∷ c ∷ d ∷ [])) csum)
unfolding ipv4_header_checksum Verifies Folds
set_checksum-Verifies total id a b c d bytes =
    let (some_sum, bound) = probe_header-sum total id a b c d bytes in
    let (f, run, folded) =
      fold_carries-Folds (sum_words (probe_header total id (a ∷ b ∷ c ∷ d ∷ [])))
        (omega (arith, bound)) in
    let sum = set_checksum-sum total id a b c d (complement f) (complement_lt f) in
    let (n, run', folded') =
      fold_carries-Folds (sum_words (probe_header total id (a ∷ b ∷ c ∷ d ∷ [])) + complement f)
        (omega (arith, bound, complement_lt f)) in
    (
      complement f,
      rw run refl,
      ap (fold_carries 3) sum ∙ run' ∙ ap ok (completed _ f n folded folded' some_sum),
    )
