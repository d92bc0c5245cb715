-- ===== src/Fragment/Bounds.antt =====
-- The bounds that aether/src/fragment.rs promises of its configuration and of the sizes it picks.
use aether_gui.Common.{ℕ, ◌≤◌, ◌<◌, Option, List, arith, min, max, leb, if◌then◌else◌}
use aether_gui.Common.Outcome.{}
use aether_gui.Fragment.{FragmentConfig, from_env, pick_chunk_len}

-- The documented bound of `gen_range` on a range that is not empty.
abbrev pub IsRange : (ℕ → ℕ → ℕ) → Type 0
IsRange gen = (lo hi : ℕ) → lo ≤ hi → (lo ≤ gen lo hi) × (gen lo hi ≤ hi)

abbrev pub IsConfig : FragmentConfig → Type 0
IsConfig cfg =
    (1 ≤ cfg.size_min) × (cfg.size_min ≤ cfg.size_max) × (cfg.delay_min_ms ≤ cfg.delay_max_ms)

-- Whatever the environment says, the configuration has sizes of 1 at least, in order, and its delays
-- in order.
pub from_env-IsConfig : (flag size delay : Option (List ℕ)) → IsConfig (from_env flag size delay)
unfolding from_env
from_env-IsConfig flag size delay = go _ _ _ _
  where
    go : (a b c d : ℕ) → (1 ≤ max a 1) × (max a 1 ≤ max b (max a 1)) × (c ≤ max d c)
    go a b c d = grind arith

drawn :
    (lo hi n : ℕ)
    → lo ≤ hi
    → (lo ≤ n) × (n ≤ hi)
    → (lo ≤ (if leb hi lo then hi else n)) × ((if leb hi lo then hi else n) ≤ hi)
drawn lo hi n h (low, high) = ground arith

-- While bytes remain, a chunk has one byte at least, no more than remain, and no more than size_max;
-- it has size_min bytes at least unless fewer remain.
pub pick_chunk_len_bounds :
    (gen : ℕ → ℕ → ℕ) (cfg : FragmentConfig) (remaining : ℕ)
    → IsRange gen
    → IsConfig cfg
    → 0 < remaining
    → (1 ≤ pick_chunk_len gen cfg remaining)
      × (pick_chunk_len gen cfg remaining ≤ remaining)
      × (pick_chunk_len gen cfg remaining ≤ cfg.size_max)
      × (min cfg.size_min remaining ≤ pick_chunk_len gen cfg remaining)
unfolding pick_chunk_len
pick_chunk_len_bounds gen cfg remaining random (one, sizes, delays) some_left =
    bounded _ (drawn _ _ _ in_order (random _ _ in_order))
  where
    in_order :
        min (max cfg.size_min 1) (min (max cfg.size_max 1) remaining)
        ≤ min (max cfg.size_max 1) remaining
    in_order = omega arith

    bounded :
        (n : ℕ)
        → (min (max cfg.size_min 1) (min (max cfg.size_max 1) remaining) ≤ n)
          × (n ≤ min (max cfg.size_max 1) remaining)
        → (1 ≤ n) × (n ≤ remaining) × (n ≤ cfg.size_max) × (min cfg.size_min remaining ≤ n)
    bounded n (low, high) = (omega arith, omega arith, omega arith, omega arith)
