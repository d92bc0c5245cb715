-- ===== src/Common/Text.antt =====
-- What the code uses of the standard library's texts: a text is the list of its code points.
use mathlib.Core.List.{List, [], ◌∷◌, ◌++◌}
use mathlib.Core.Bool.{Bool, true, false, ◌&&◌, ◌||◌}
use mathlib.Core.Option.{Option, none, some}
use Prim.Native.Nat.{ℕ, ◌+◌, ◌-◌, ◌*◌}
use aether_gui.Common.Tests.{◌==◌, leb, ltb, if◌then◌else◌}

-- `char::is_whitespace`: the code points of White_Space.
abbrev pub is_whitespace : ℕ → Bool
is_whitespace c =
    (leb 9 c && leb c 13)
    || c == 32
    || c == 133
    || c == 160
    || c == 5760
    || (leb 8192 c && leb c 8202)
    || c == 8232
    || c == 8233
    || c == 8239
    || c == 8287
    || c == 12_288

abbrev pub trim_start : List ℕ → List ℕ
trim_start [] = []
trim_start (c ∷ cs) = if is_whitespace c then trim_start cs else c ∷ cs

abbrev pub reverse_onto : List ℕ → List ℕ → List ℕ
reverse_onto [] acc = acc
reverse_onto (c ∷ cs) acc = reverse_onto cs (c ∷ acc)

abbrev pub trim : List ℕ → List ℕ
trim s = reverse_onto (trim_start (reverse_onto (trim_start s) [])) []

-- The digits of `from_str` of the unsigned types, with its checked multiplication and addition below
-- the limit.
abbrev pub digits : ℕ → ℕ → List ℕ → Option ℕ
digits limit acc [] = some acc
digits limit acc (c ∷ cs) =
    let rest = digits limit (acc * 10 + (c - 48)) cs in
    if leb 48 c && leb c 57 && ltb (acc * 10 + (c - 48)) limit then rest else none

-- `from_str`: one leading plus sign is allowed, and a number has a digit at least.
abbrev pub parse_digits : ℕ → List ℕ → Option ℕ
parse_digits limit [] = none
parse_digits limit (c ∷ cs) = digits limit 0 (c ∷ cs)

abbrev pub parse_uint : ℕ → List ℕ → Option ℕ
parse_uint limit [] = none
parse_uint limit (c ∷ cs) = if c == 43 then parse_digits limit cs else parse_digits limit (c ∷ cs)

abbrev pub unwrap_or {ℓ} : {A : Type ℓ} → Option A → A → A
unwrap_or none d = d
unwrap_or (some a) d = a

-- `split_once` at a separator, with the part before it collected in front.
abbrev pub split_once : ℕ → List ℕ → List ℕ → Option (List ℕ × List ℕ)
split_once sep before [] = none
split_once sep before (c ∷ cs) =
    let rest = split_once sep (before ++ (c ∷ [])) cs in
    if c == sep then some (before, cs) else rest

abbrev pub is_empty {ℓ} : {A : Type ℓ} → List A → Bool
is_empty [] = true
is_empty (x ∷ xs) = false

-- Equality of texts.
abbrev pub same : List ℕ → List ℕ → Bool
same [] [] = true
same [] (y ∷ ys) = false
same (x ∷ xs) [] = false
same (x ∷ xs) (y ∷ ys) = let rest = same xs ys in x == y && rest

-- `to_lowercase` on ASCII.
abbrev pub lower : ℕ → ℕ
lower c = if leb 65 c && leb c 90 then c + 32 else c
