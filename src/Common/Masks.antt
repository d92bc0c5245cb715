-- ===== src/Common/Masks.antt =====
-- Bit masks on one byte as orders, checked by evaluation over all bytes.
use Prim.Native.Nat.{ℕ, zero, suc, ◌<◌, bit_and}
use mathlib.Core.Path.{◌≡◌, refl}
use mathlib.Core.Bool.{Bool, true, false}
use native.Mathlib.Omega.{arith}
use aether_gui.Common.Tests.{◌==◌, leb, if◌then◌else◌}

-- The mask `0xc0` gives the same answer as the order, for a byte and all bytes under it.
pointer_test_agrees : ℕ → Bool
pointer_test_agrees zero = true
pointer_test_agrees (suc b) =
    let smaller = pointer_test_agrees b in
    if bit_and b 0xc0 == 0xc0
    then (if leb 192 b then smaller else false)
    else (if leb 192 b then false else smaller)

pointer_test_sound :
    (bound b : ℕ)
    → pointer_test_agrees bound ≡ true
    → b < bound
    → (bit_and b 0xc0 == 0xc0) ≡ leb 192 b
unfolding pointer_test_agrees
pointer_test_sound zero b e h = absurd (omega arith)
pointer_test_sound (suc bound) b e h = ground (arith, pointer_test_sound bound b)

-- `b & 0xc0 == 0xc0`: the two top bits of a byte are set from 192 on.
pub top_two_bits : (b : ℕ) → b < 256 → (bit_and b 0xc0 == 0xc0) ≡ leb 192 b
unfolding pointer_test_agrees
top_two_bits b h = pointer_test_sound 256 b refl h
