-- ===== src/Fragment/Tests.antt =====
-- Examples of the write fragmentation of aether/src/fragment.rs.
use aether_gui.Common.{
  ℕ, ◌≡◌, refl, true, false, none, some, List, [], ◌∷◌, ◌++◌, arith, min, length,
}
use aether_gui.Common.Outcome.{ok, Ensures}
use aether_gui.Fragment.{
  FragmentConfig, pending, written, new, parse_range, range_of, ordered, from_env, pick_chunk_len,
  poll_write, delay_after, pick_delay,
}
use aether_gui.Fragment.Bounds.{from_env-IsConfig, IsConfig, IsRange}
use aether_gui.Fragment.Stream.{Turn, write_turns, write_turns-Ensures}

-- "40-8", "on"
abbrev size_text : List ℕ
size_text = 52 ∷ 48 ∷ 45 ∷ 56 ∷ []

abbrev on_text : List ℕ
on_text = 79 ∷ 110 ∷ []

-- The draw of the least number.
abbrev least : ℕ → ℕ → ℕ
least lo hi = lo

least-IsRange : IsRange least
least-IsRange lo hi h = (omega arith, h)

abbrev cfg : FragmentConfig
cfg = record { enabled = true; size_min = 2; size_max = 3; delay_min_ms = 1; delay_max_ms = 4 }

cfg-IsConfig : IsConfig cfg
cfg-IsConfig = (omega arith, omega arith, omega arith)

size_text_range : parse_range size_text (16, 32) ≡ (8, 40)
unfolding parse_range range_of ordered
size_text_range = refl

from_env-IsConfig_example : IsConfig (from_env (some on_text) (some size_text) none)
from_env-IsConfig_example = from_env-IsConfig (some on_text) (some size_text) none

-- The inner stream takes one byte, then waits, then takes all.
abbrev turns : List Turn
turns =
    record { elapsed = false; inner = λ buf. written (min 1 (length buf)) }
    ∷ record { elapsed = false; inner = λ buf. written 0 }
    ∷ record { elapsed = true; inner = λ buf. pending }
    ∷ record { elapsed = false; inner = λ buf. written (length buf) }
    ∷ []

write_turns-Ensures_example :
    Ensures
      (λ q. q.wire ++ q.rest ≡ 7 ∷ 8 ∷ 9 ∷ 10 ∷ [])
      (write_turns least turns (7 ∷ 8 ∷ 9 ∷ 10 ∷ []) (new cfg))
unfolding new
write_turns-Ensures_example =
    write_turns-Ensures least turns (7 ∷ 8 ∷ 9 ∷ 10 ∷ []) (new cfg) least-IsRange cfg-IsConfig
      ((λ buf. omega arith), ((λ buf. omega arith), ((λ buf. tt), ((λ buf. omega arith), tt))))

write_turns_run :
    write_turns least turns (7 ∷ 8 ∷ 9 ∷ 10 ∷ []) (new cfg)
    ≡ ok (record { wire = 7 ∷ 8 ∷ 9 ∷ []; rest = 10 ∷ [] })
unfolding new write_turns poll_write pick_chunk_len delay_after pick_delay
write_turns_run = refl
