-- ===== src/Candidates/Ranges.antt =====
-- The constants of aether/src/prober.rs, as the bytes of their texts.
use aether_gui.Common.{ℕ, List, [], ◌∷◌}

unfoldable pub masque_cidrs_v4 : List (List ℕ)
masque_cidrs_v4 =
    (49 ∷ 54 ∷ 50 ∷ 46 ∷ 49 ∷ 53 ∷ 57 ∷ 46 ∷ 51 ∷ 54 ∷ 46 ∷ 48 ∷ 47 ∷ 50 ∷ 52 ∷ [])
    ∷ (49 ∷ 54 ∷ 50 ∷ 46 ∷ 49 ∷ 53 ∷ 57 ∷ 46 ∷ 52 ∷ 54 ∷ 46 ∷ 48 ∷ 47 ∷ 50 ∷ 52 ∷ [])
    ∷ (49 ∷ 54 ∷ 50 ∷ 46 ∷ 49 ∷ 53 ∷ 57 ∷ 46 ∷ 49 ∷ 57 ∷ 50 ∷ 46 ∷ 48 ∷ 47 ∷ 50 ∷ 52 ∷ [])
    ∷ (49 ∷ 54 ∷ 50 ∷ 46 ∷ 49 ∷ 53 ∷ 57 ∷ 46 ∷ 49 ∷ 57 ∷ 51 ∷ 46 ∷ 48 ∷ 47 ∷ 50 ∷ 52 ∷ [])
    ∷ (49 ∷ 54 ∷ 50 ∷ 46 ∷ 49 ∷ 53 ∷ 57 ∷ 46 ∷ 49 ∷ 57 ∷ 53 ∷ 46 ∷ 48 ∷ 47 ∷ 50 ∷ 52 ∷ [])
    ∷ (49 ∷ 54 ∷ 50 ∷ 46 ∷ 49 ∷ 53 ∷ 57 ∷ 46 ∷ 49 ∷ 57 ∷ 54 ∷ 46 ∷ 48 ∷ 47 ∷ 50 ∷ 52 ∷ [])
    ∷ (49 ∷ 54 ∷ 50 ∷ 46 ∷ 49 ∷ 53 ∷ 57 ∷ 46 ∷ 49 ∷ 57 ∷ 55 ∷ 46 ∷ 48 ∷ 47 ∷ 50 ∷ 52 ∷ [])
    ∷ (49 ∷ 54 ∷ 50 ∷ 46 ∷ 49 ∷ 53 ∷ 57 ∷ 46 ∷ 49 ∷ 57 ∷ 56 ∷ 46 ∷ 48 ∷ 47 ∷ 50 ∷ 52 ∷ [])
    ∷ (49 ∷ 54 ∷ 50 ∷ 46 ∷ 49 ∷ 53 ∷ 57 ∷ 46 ∷ 50 ∷ 48 ∷ 52 ∷ 46 ∷ 48 ∷ 47 ∷ 50 ∷ 52 ∷ [])
    ∷ (49 ∷ 55 ∷ 50 ∷ 46 ∷ 54 ∷ 53 ∷ 46 ∷ 50 ∷ 53 ∷ 49 ∷ 46 ∷ 48 ∷ 47 ∷ 50 ∷ 52 ∷ [])
    ∷ (49 ∷ 56 ∷ 56 ∷ 46 ∷ 49 ∷ 49 ∷ 52 ∷ 46 ∷ 57 ∷ 54 ∷ 46 ∷ 48 ∷ 47 ∷ 50 ∷ 52 ∷ [])
    ∷ (49 ∷ 56 ∷ 56 ∷ 46 ∷ 49 ∷ 49 ∷ 52 ∷ 46 ∷ 57 ∷ 55 ∷ 46 ∷ 48 ∷ 47 ∷ 50 ∷ 52 ∷ [])
    ∷ (49 ∷ 56 ∷ 56 ∷ 46 ∷ 49 ∷ 49 ∷ 52 ∷ 46 ∷ 57 ∷ 56 ∷ 46 ∷ 48 ∷ 47 ∷ 50 ∷ 52 ∷ [])
    ∷ (49 ∷ 56 ∷ 56 ∷ 46 ∷ 49 ∷ 49 ∷ 52 ∷ 46 ∷ 57 ∷ 57 ∷ 46 ∷ 48 ∷ 47 ∷ 50 ∷ 52 ∷ [])
    ∷ []

unfoldable pub masque_seeds : List (List ℕ)
masque_seeds =
    (49 ∷ 54 ∷ 50 ∷ 46 ∷ 49 ∷ 53 ∷ 57 ∷ 46 ∷ 49 ∷ 57 ∷ 56 ∷ 46 ∷ 50 ∷ [])
    ∷ (49 ∷ 54 ∷ 50 ∷ 46 ∷ 49 ∷ 53 ∷ 57 ∷ 46 ∷ 49 ∷ 57 ∷ 56 ∷ 46 ∷ 49 ∷ [])
    ∷ (49 ∷ 54 ∷ 50 ∷ 46 ∷ 49 ∷ 53 ∷ 57 ∷ 46 ∷ 49 ∷ 57 ∷ 50 ∷ 46 ∷ 49 ∷ [])
    ∷ (49 ∷ 54 ∷ 50 ∷ 46 ∷ 49 ∷ 53 ∷ 57 ∷ 46 ∷ 49 ∷ 57 ∷ 51 ∷ 46 ∷ 49 ∷ [])
    ∷ (49 ∷ 54 ∷ 50 ∷ 46 ∷ 49 ∷ 53 ∷ 57 ∷ 46 ∷ 49 ∷ 57 ∷ 53 ∷ 46 ∷ 49 ∷ [])
    ∷ (49 ∷ 54 ∷ 50 ∷ 46 ∷ 49 ∷ 53 ∷ 57 ∷ 46 ∷ 49 ∷ 57 ∷ 54 ∷ 46 ∷ 49 ∷ [])
    ∷ []

unfoldable pub masque_cidrs_v6 : List (List ℕ)
masque_cidrs_v6 =
    (50 ∷ 54 ∷ 48 ∷ 54 ∷ 58 ∷ 52 ∷ 55 ∷ 48 ∷ 48 ∷ 58 ∷ 100 ∷ 48 ∷ 58 ∷ 58 ∷ 47 ∷ 52 ∷ 56 ∷ [])
    ∷ (50 ∷ 54 ∷ 48 ∷ 54 ∷ 58 ∷ 52 ∷ 55 ∷ 48 ∷ 48 ∷ 58 ∷ 100 ∷ 49 ∷ 58 ∷ 58 ∷ 47 ∷ 52 ∷ 56 ∷ [])
    ∷ (50 ∷ 54 ∷ 48 ∷ 54 ∷ 58 ∷ 52 ∷ 55 ∷ 48 ∷ 48 ∷ 58 ∷ 49 ∷ 48 ∷ 50 ∷ 58 ∷ 58 ∷ 47 ∷ 52 ∷ 56 ∷ [])
    ∷ []

unfoldable pub masque_seeds_v6 : List (List ℕ)
masque_seeds_v6 =
    (50 ∷ 54 ∷ 48 ∷ 54 ∷ 58 ∷ 52 ∷ 55 ∷ 48 ∷ 48 ∷ 58 ∷ 100 ∷ 48 ∷ 58 ∷ 58 ∷ 97 ∷ 50 ∷ 57 ∷ 102 ∷ 58
      ∷ 99 ∷ 54 ∷ 48 ∷ 50 ∷ [])
    ∷ (50 ∷ 54 ∷ 48 ∷ 54 ∷ 58 ∷ 52 ∷ 55 ∷ 48 ∷ 48 ∷ 58 ∷ 100 ∷ 49 ∷ 58 ∷ 58 ∷ 97 ∷ 50 ∷ 57 ∷ 102
        ∷ 58 ∷ 99 ∷ 54 ∷ 48 ∷ 50 ∷ [])
    ∷ (50 ∷ 54 ∷ 48 ∷ 54 ∷ 58 ∷ 52 ∷ 55 ∷ 48 ∷ 48 ∷ 58 ∷ 100 ∷ 48 ∷ 58 ∷ 58 ∷ 97 ∷ 50 ∷ 57 ∷ 102
        ∷ 58 ∷ 99 ∷ 54 ∷ 48 ∷ 49 ∷ [])
    ∷ (50 ∷ 54 ∷ 48 ∷ 54 ∷ 58 ∷ 52 ∷ 55 ∷ 48 ∷ 48 ∷ 58 ∷ 100 ∷ 48 ∷ 58 ∷ 58 ∷ 97 ∷ 50 ∷ 57 ∷ 102
        ∷ 58 ∷ 99 ∷ 48 ∷ 48 ∷ 49 ∷ [])
    ∷ []
