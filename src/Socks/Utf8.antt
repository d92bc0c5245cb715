-- ===== src/Socks/Utf8.antt =====
-- `String::from_utf8_lossy`, which aether/src/socks.rs applies to the names of its clients: the bytes
-- of the string that it gives. Each longest part that could begin a character but does not go on as
-- one becomes U+FFFD.
use aether_gui.Common.{
  ℕ, ◌-◌, ◌<◌, ◌≡◌, refl, ap, ◌&&◌, Option, none, some, List, [], ◌∷◌, ◌++◌, All, ltb, leb, ◌==◌,
  if◌then◌else◌, lt→ltb,
}
use aether_gui.Common.Outcome.{}

-- How many bytes must follow a lead byte, and the range of the first of them.
unfoldable pub lead : ℕ → Option (ℕ × ℕ × ℕ)
lead b =
    if ltb b 0x80
    then some (0, 0, 0)
    else if ltb b 0xc2
    then none
    else if ltb b 0xe0
    then some (1, 0x80, 0xbf)
    else if b == 0xe0
    then some (2, 0xa0, 0xbf)
    else if b == 0xed
    then some (2, 0x80, 0x9f)
    else if ltb b 0xf0
    then some (2, 0x80, 0xbf)
    else if b == 0xf0
    then some (3, 0x90, 0xbf)
    else if ltb b 0xf4
    then some (3, 0x80, 0xbf)
    else if b == 0xf4
    then some (3, 0x80, 0x8f)
    else none

-- Between characters, or inside one: its bytes so far, how many are missing, the range of the next.
pub data State : Type 0 where
  idle : State
  inside : List ℕ → ℕ → ℕ → ℕ → State

abbrev pub replacement : List ℕ
replacement = 0xef ∷ 0xbf ∷ 0xbd ∷ []

unfoldable pub begin_with : List ℕ → ℕ → Option (ℕ × ℕ × ℕ) → List ℕ × State
begin_with out b none = (out ++ replacement, idle)
begin_with out b (some (need, lo, hi)) =
    if need == 0 then (out ++ (b ∷ []), idle) else (out, inside (b ∷ []) need lo hi)

-- What a byte puts out, and the state after it.
unfoldable pub advance : State → ℕ → List ℕ × State
unfolding begin_with lead
advance idle b = begin_with [] b (lead b)
advance (inside seen need lo hi) b =
    if leb lo b && leb b hi
    then (if need == 1
        then (seen ++ (b ∷ []), idle)
        else ([], inside (seen ++ (b ∷ [])) (need - 1) 0x80 0xbf))
    else begin_with replacement b (lead b)

unfoldable pub lossy : State → List ℕ → List ℕ
lossy idle [] = []
lossy (inside seen need lo hi) [] = replacement
lossy s (b ∷ bs) = (advance s b).0 ++ lossy (advance s b).1 bs

unfoldable pub from_utf8_lossy : List ℕ → List ℕ
from_utf8_lossy bytes = lossy idle bytes

advance_ascii : (b : ℕ) → b < 0x80 → advance idle b ≡ (b ∷ [], idle)
unfolding advance begin_with lead
advance_ascii b small = rw (lt→ltb b 0x80 small) refl

-- A name in ASCII stays as it is.
pub from_utf8_lossy_ascii :
    (bytes : List ℕ) → All (λ b. b < 0x80) bytes → from_utf8_lossy bytes ≡ bytes
unfolding from_utf8_lossy lossy
from_utf8_lossy_ascii [] h = refl
from_utf8_lossy_ascii (b ∷ bs) (small, rest) =
    rw (advance_ascii b small) (ap (λ l. b ∷ l) (from_utf8_lossy_ascii bs rest))
