-- ===== src/WgScan/Ranges.antt =====
-- The address constants of aether/src/wireguard.rs, as the bytes of their texts.
use aether_gui.Common.{ℕ, List, [], ◌∷◌}

unfoldable pub wg_prefixes_v4 : List (List ℕ)
wg_prefixes_v4 =
    (49 ∷ 54 ∷ 50 ∷ 46 ∷ 49 ∷ 53 ∷ 57 ∷ 46 ∷ 49 ∷ 57 ∷ 50 ∷ 46 ∷ 48 ∷ 47 ∷ 50 ∷ 52 ∷ [])
    ∷ (49 ∷ 54 ∷ 50 ∷ 46 ∷ 49 ∷ 53 ∷ 57 ∷ 46 ∷ 49 ∷ 57 ∷ 53 ∷ 46 ∷ 48 ∷ 47 ∷ 50 ∷ 52 ∷ [])
    ∷ (49 ∷ 56 ∷ 56 ∷ 46 ∷ 49 ∷ 49 ∷ 52 ∷ 46 ∷ 57 ∷ 54 ∷ 46 ∷ 48 ∷ 47 ∷ 50 ∷ 52 ∷ [])
    ∷ (49 ∷ 56 ∷ 56 ∷ 46 ∷ 49 ∷ 49 ∷ 52 ∷ 46 ∷ 57 ∷ 55 ∷ 46 ∷ 48 ∷ 47 ∷ 50 ∷ 52 ∷ [])
    ∷ (49 ∷ 56 ∷ 56 ∷ 46 ∷ 49 ∷ 49 ∷ 52 ∷ 46 ∷ 57 ∷ 56 ∷ 46 ∷ 48 ∷ 47 ∷ 50 ∷ 52 ∷ [])
    ∷ (49 ∷ 56 ∷ 56 ∷ 46 ∷ 49 ∷ 49 ∷ 52 ∷ 46 ∷ 57 ∷ 57 ∷ 46 ∷ 48 ∷ 47 ∷ 50 ∷ 52 ∷ [])
    ∷ []

unfoldable pub wg_prefixes_v6 : List (List ℕ)
wg_prefixes_v6 =
    (50 ∷ 54 ∷ 48 ∷ 54 ∷ 58 ∷ 52 ∷ 55 ∷ 48 ∷ 48 ∷ 58 ∷ 100 ∷ 48 ∷ 58 ∷ 58 ∷ 47 ∷ 54 ∷ 52 ∷ [])
    ∷ (50 ∷ 54 ∷ 48 ∷ 54 ∷ 58 ∷ 52 ∷ 55 ∷ 48 ∷ 48 ∷ 58 ∷ 100 ∷ 49 ∷ 58 ∷ 58 ∷ 47 ∷ 54 ∷ 52 ∷ [])
    ∷ []

unfoldable pub wg_seeds_v4 : List (List ℕ)
wg_seeds_v4 =
    (49 ∷ 54 ∷ 50 ∷ 46 ∷ 49 ∷ 53 ∷ 57 ∷ 46 ∷ 49 ∷ 57 ∷ 50 ∷ 46 ∷ 49 ∷ [])
    ∷ (49 ∷ 54 ∷ 50 ∷ 46 ∷ 49 ∷ 53 ∷ 57 ∷ 46 ∷ 49 ∷ 57 ∷ 53 ∷ 46 ∷ 49 ∷ [])
    ∷ (49 ∷ 56 ∷ 56 ∷ 46 ∷ 49 ∷ 49 ∷ 52 ∷ 46 ∷ 57 ∷ 54 ∷ 46 ∷ 49 ∷ [])
    ∷ (49 ∷ 56 ∷ 56 ∷ 46 ∷ 49 ∷ 49 ∷ 52 ∷ 46 ∷ 57 ∷ 55 ∷ 46 ∷ 49 ∷ [])
    ∷ []

unfoldable pub wg_seeds_v6 : List (List ℕ)
wg_seeds_v6 =
    (50 ∷ 54 ∷ 48 ∷ 54 ∷ 58 ∷ 52 ∷ 55 ∷ 48 ∷ 48 ∷ 58 ∷ 100 ∷ 48 ∷ 58 ∷ 58 ∷ 97 ∷ 50 ∷ 57 ∷ 102 ∷ 58
      ∷ 99 ∷ 48 ∷ 48 ∷ 49 ∷ [])
    ∷ (50 ∷ 54 ∷ 48 ∷ 54 ∷ 58 ∷ 52 ∷ 55 ∷ 48 ∷ 48 ∷ 58 ∷ 100 ∷ 49 ∷ 58 ∷ 58 ∷ 97 ∷ 50 ∷ 57 ∷ 102
        ∷ 58 ∷ 99 ∷ 48 ∷ 48 ∷ 49 ∷ [])
    ∷ (50 ∷ 54 ∷ 48 ∷ 54 ∷ 58 ∷ 52 ∷ 55 ∷ 48 ∷ 48 ∷ 58 ∷ 100 ∷ 48 ∷ 58 ∷ 58 ∷ 97 ∷ 50 ∷ 57 ∷ 102
        ∷ 58 ∷ 99 ∷ 51 ∷ 48 ∷ 49 ∷ [])
    ∷ (50 ∷ 54 ∷ 48 ∷ 54 ∷ 58 ∷ 52 ∷ 55 ∷ 48 ∷ 48 ∷ 58 ∷ 100 ∷ 48 ∷ 58 ∷ 58 ∷ 98 ∷ 99 ∷ 55 ∷ 50 ∷ 58
        ∷ 54 ∷ 48 ∷ 48 ∷ 49 ∷ [])
    ∷ []
