-- ===== src/Common/Outcome.antt =====
-- What a piece of Rust code does: it returns, fails (`None`, `Err`, the `?` operator), or panics on an
-- index out of bounds. `stuck` is no behaviour of the program: a loop of the model ran out of fuel.
use Prim.Native.Nat.{ℕ, zero, suc, ◌+◌, ◌^◌, ◌<◌}
use mathlib.Core.Path.{◌≡◌, refl}
use aether_gui.Common.Tests.{ltb, if◌then◌else◌}
use mathlib.Core.List.{List, [], ◌∷◌}
use mathlib.Core.Bool.{Bool, true, false}
use native.Mathlib.Omega.{arith}
use aether_gui.Common.Lists.{length, get_elem?, All, get_elem?-All}
use mathlib.Core.Option.{Option, none, some}

pub data Outcome {ℓ κ} (E : Type ℓ) (A : Type κ) : Type (ℓ ⊔ κ) where
  ok : A → Outcome E A
  err : E → Outcome E A
  panic : Outcome E A
  stuck : Outcome E A

infixl 5 ◌>>=◌ ◌>>◌
abbrev pub ◌>>=◌ {ℓ κ μ} :
    {E : Type ℓ} {A : Type κ} {B : Type μ} → Outcome E A → (A → Outcome E B) → Outcome E B
ok a >>= f = f a
err e >>= f = err e
panic >>= f = panic
stuck >>= f = stuck

abbrev pub ◌>>◌ {ℓ κ} : {E : Type ℓ} {B : Type κ} → Outcome E (Unit {0}) → Outcome E B → Outcome E B
m >> k = m >>= λ _. k

-- The only reason why an `Option` is `None`.
pub data Absent : Type 0 where
  absent : Absent

abbrev pub guard {ℓ} : {E : Type ℓ} → Bool → E → Outcome E (Unit {0})
guard true e = ok tt
guard false e = err e

-- `xs[i]`
abbrev pub of_index {ℓ κ} : {E : Type ℓ} {A : Type κ} → Option A → Outcome E A
of_index none = panic
of_index (some a) = ok a

-- `opt.ok_or(e)?`, and `opt?` at `absent`
abbrev pub or_err {ℓ κ} : {E : Type ℓ} {A : Type κ} → E → Option A → Outcome E A
or_err e none = err e
or_err e (some a) = ok a

abbrev pub index {ℓ κ} : {E : Type ℓ} {A : Type κ} → List A → ℕ → Outcome E A
index xs i = of_index (get_elem? xs i)

-- The code neither panics nor loops, and what it returns satisfies `P`.
abbrev pub Ensures {ℓ κ} : {E : Type ℓ} {A : Type κ} → (A → Type 0) → Outcome E A → Type 0
Ensures P (ok a) = P a
Ensures P (err e) = Unit {0}
Ensures P panic = ⊥
Ensures P stuck = ⊥

pub Ensures-bind {ℓ κ μ} :
    {E : Type ℓ} {A : Type κ} {B : Type μ} (P : A → Type 0) (Q : B → Type 0) (m : Outcome E A)
    (f : A → Outcome E B)
    → Ensures P m
    → ((a : A) → P a → Ensures Q (f a))
    → Ensures Q (m >>= f)
Ensures-bind P Q (ok a) f h k = k a h
Ensures-bind P Q (err e) f h k = tt
Ensures-bind P Q panic f h k = absurd h
Ensures-bind P Q stuck f h k = absurd h

-- A read below the length does not panic.
pub get_elem?-some {ℓ} :
    {A : Type ℓ} (xs : List A) (i : ℕ) → i < length xs → (a : A) × (get_elem? xs i ≡ some a)
get_elem?-some [] i h = elim h [ ]
get_elem?-some (x ∷ xs) zero h = (x, refl)
get_elem?-some (x ∷ xs) (suc i) h = get_elem?-some xs i (omega arith)

pub index-Ensures {ℓ κ} :
    (E : Type ℓ) {A : Type κ} (xs : List A) (i : ℕ)
    → i < length xs
    → Ensures (λ _. Unit {0}) (index {E = E} xs i)
index-Ensures E xs i h = let (a, e) = get_elem?-some xs i h in rw e tt

-- `usize` addition in `checked_add`, on a 64-bit target.
abbrev pub checked_add : ℕ → ℕ → Outcome Absent ℕ
checked_add a b = if ltb (a + b) (2 ^ 64) then ok (a + b) else err absent

pub guard-Ensures {ℓ} : {E : Type ℓ} (b : Bool) (e : E) → Ensures (λ _. b ≡ true) (guard b e)
guard-Ensures true e = refl
guard-Ensures false e = tt

pub index-Ensures-All {ℓ κ} :
    (E : Type ℓ) {A : Type κ} (P : A → Type 0) (xs : List A) (i : ℕ)
    → i < length xs
    → All P xs
    → Ensures P (index {E = E} xs i)
index-Ensures-All E P xs i h k =
    let (a, e) = get_elem?-some xs i h in rw e (get_elem?-All P xs i k e)

pub Ensures-weaken {ℓ κ} :
    {E : Type ℓ} {A : Type κ} (P Q : A → Type 0) (m : Outcome E A)
    → ((a : A) → P a → Q a)
    → Ensures P m
    → Ensures Q m
Ensures-weaken P Q (ok a) f h = f a h
Ensures-weaken P Q (err e) f h = tt
Ensures-weaken P Q panic f h = absurd h
Ensures-weaken P Q stuck f h = absurd h

pub Ensures-if {ℓ κ} :
    {E : Type ℓ} {A : Type κ} (P : A → Type 0) (test : Bool) (m n : Outcome E A)
    → (test ≡ true → Ensures P m)
    → (test ≡ false → Ensures P n)
    → Ensures P (if test then m else n)
Ensures-if P true m n if_true if_false = if_true refl
Ensures-if P false m n if_true if_false = if_false refl
