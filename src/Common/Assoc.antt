-- ===== src/Common/Assoc.antt =====
-- Maps with numbers as keys, as association lists, and their laws by lookups.
use mathlib.Core.List.{List, [], ◌∷◌}
use mathlib.Core.Path.{◌≡◌, refl}
use mathlib.Core.Option.{Option, none, some}
use native.Mathlib.Omega.{arith}
use Prim.Native.Nat.{ℕ}
use aether_gui.Common.Tests.{◌==◌, if◌then◌else◌}

module _ {ℓ} {V : Type ℓ} where
  unfoldable pub lookup : ℕ → List (ℕ × V) → Option V
  lookup key [] = none
  lookup key (entry ∷ table) =
      let behind = lookup key table in if entry.0 == key then some entry.1 else behind

  unfoldable pub insert : ℕ → V → List (ℕ × V) → List (ℕ × V)
  insert key value [] = (key, value) ∷ []
  insert key value (entry ∷ table) =
      let behind = insert key value table in
      if entry.0 == key then (key, value) ∷ table else entry ∷ behind

  unfoldable pub remove : ℕ → List (ℕ × V) → List (ℕ × V)
  remove key [] = []
  remove key (entry ∷ table) =
      let behind = remove key table in if entry.0 == key then behind else entry ∷ behind

  unfoldable pub keys : List (ℕ × V) → List ℕ
  keys [] = []
  keys (entry ∷ table) = entry.0 ∷ keys table

  pub lookup-insert :
      (key other : ℕ) (value : V) (table : List (ℕ × V))
      → lookup other (insert key value table)
        ≡ (if key == other then some value else lookup other table)
  unfolding lookup insert
  lookup-insert key other value [] = refl
  lookup-insert key other value (entry ∷ table) =
      ground (arith, lookup-insert key other value table)

  pub lookup-remove :
      (key other : ℕ) (table : List (ℕ × V))
      → lookup other (remove key table) ≡ (if key == other then none else lookup other table)
  unfolding lookup remove
  lookup-remove key other [] = ground arith
  lookup-remove key other (entry ∷ table) = ground (arith, lookup-remove key other table)
