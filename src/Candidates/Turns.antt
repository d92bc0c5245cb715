-- ===== src/Candidates/Turns.antt =====
-- The rounds in which the hosts of the ranges of aether/src/prober.rs take turns.
use aether_gui.Common.{
  All-weaken, All-split, All-zip, ℕ, zero, suc, ◌≤◌, Option, none, some, List, [], ◌∷◌, arith, max,
  length, get_elem?, take, drop, All,
}
use aether_gui.Common.Outcome.{}
use aether_gui.Candidates.{pushed_at, column, columns, max_len, in_turn}

abbrev Holds : (ℕ → Type 0) → Option ℕ → Type 0
Holds P none = Unit
Holds P (some a) = P a

module _ (P : ℕ → Type 0) where
  column-All :
      (i : ℕ) (ranges : List (List ℕ))
      → All P (column i ranges)
      → All (λ hosts. Holds P (get_elem? hosts i)) ranges
  column-All i [] h = tt
  column-All i (hosts ∷ ranges) h =
      let parts = front (get_elem? hosts i) h in (parts.0, column-All i ranges parts.1)
    where
      front :
          (x : Option ℕ)
          → All P (pushed_at x (column i ranges))
          → Holds P x × All P (column i ranges)
      front none k = (tt, k)
      front (some a) (k, ks) = (k, ks)

  take-drop-All :
      (n i : ℕ) (hosts : List ℕ)
      → Holds P (get_elem? hosts i)
      → All P (take n (drop (suc i) hosts))
      → All P (take (suc n) (drop i hosts))
  take-drop-All n zero [] h k = tt
  take-drop-All n (suc i) [] h k = tt
  take-drop-All n zero (x ∷ xs) h k = (h, k)
  take-drop-All n (suc i) (x ∷ xs) h k = take-drop-All n i xs h k

  columns-All :
      (n i : ℕ) (ranges : List (List ℕ))
      → All P (columns n i ranges)
      → All (λ hosts. All P (take n (drop i hosts))) ranges
  columns-All zero i [] h = tt
  columns-All zero i (hosts ∷ ranges) h = (tt, columns-All zero i ranges tt)
  columns-All (suc n) i ranges h =
      let parts = All-split P (column i ranges) (columns n (suc i) ranges) h in
      All-zip (λ hosts first rest. take-drop-All n i hosts first rest) ranges
        (column-All i ranges parts.0) (columns-All n (suc i) ranges parts.1)

  take-All : (n : ℕ) (xs : List ℕ) → length xs ≤ n → All P (take n xs) → All P xs
  take-All n [] le h = tt
  take-All zero (x ∷ xs) le h = absurd (omega arith)
  take-All (suc n) (x ∷ xs) le (h, hs) = (h, take-All n xs (omega arith) hs)

  lengths_le : (ranges : List (List ℕ)) → All (λ hosts. length hosts ≤ max_len ranges) ranges
  lengths_le [] = tt
  lengths_le (hosts ∷ ranges) = (
    grind arith,
    All-weaken (λ xs le. above (length xs) (length hosts) (max_len ranges) le) ranges
        (lengths_le ranges),
  )
    where
      above : (n a b : ℕ) → n ≤ b → n ≤ max a b
      above n a b le = grind arith

  -- What holds of all the hosts in turn holds of each host of each range.
  pub in_turn-All : (ranges : List (List ℕ)) → All P (in_turn ranges) → All (All P) ranges
  in_turn-All ranges h =
      All-zip (λ hosts le k. take-All (max_len ranges) hosts le k) ranges (lengths_le ranges)
        (columns-All (max_len ranges) 0 ranges h)
