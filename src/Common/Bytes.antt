-- ===== src/Common/Bytes.antt =====
-- Bytes, big-endian integers, and the mask test of DNS compression as an order.
use Prim.Native.Nat.{ℕ, ◌+◌, ◌*◌, ◌/◌, ◌%◌, ◌<◌}
use mathlib.Core.List.{List, [], ◌∷◌}
use aether_gui.Common.Lists.{All}

abbrev pub IsByte : ℕ → Type 0
IsByte b = b < 256

abbrev pub IsBytes : List ℕ → Type 0
IsBytes = All IsByte

-- `u16::from_be_bytes([hi, lo])`
abbrev pub u16_be : ℕ → ℕ → ℕ
u16_be hi lo = hi * 256 + lo

-- `v.to_be_bytes()` of a u16, a u32
abbrev pub be16 : ℕ → List ℕ
be16 v = (v / 256 % 256) ∷ (v % 256) ∷ []

abbrev pub be32 : ℕ → List ℕ
be32 v = (v / 16777216 % 256) ∷ (v / 65536 % 256) ∷ (v / 256 % 256) ∷ (v % 256) ∷ []
