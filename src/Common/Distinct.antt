-- ===== src/Common/Distinct.antt =====
-- Lists filled through a HashSet: an element is pushed when the set did not hold it.
use Prim.Native.Nat.{suc, ◌≤◌}
use mathlib.Core.Path.{◌≡◌, refl, sym, ap, ◌∙◌, subst}
use mathlib.Core.Bool.{Bool, true, false, ◌||◌}
use mathlib.Core.List.{List, [], ◌∷◌, ◌++◌, append-nil, append_assoc}
use native.Mathlib.Omega.{arith}
use aether_gui.Common.Tests.{if◌then◌else◌, if_both, if_known}
use aether_gui.Common.Lists.{All, length, length-append}

module _ {ℓ} {A : Type ℓ} (eq : A → A → Bool) where
  abbrev pub contains : A → List A → Bool
  contains x [] = false
  contains x (y ∷ ys) = eq x y || contains x ys

  -- `if seen.insert(x) { out.push(x) }`, where `seen` holds what is in `out`.
  abbrev pub insert_new : A → List A → List A
  insert_new x out = if contains x out then out else out ++ (x ∷ [])

  abbrev pub insert_all : List A → List A → List A
  insert_all [] out = out
  insert_all (x ∷ xs) out = insert_all xs (insert_new x out)

  abbrev pub Has : List A → A → Type 0
  Has out x = contains x out ≡ true

  abbrev pub IsDistinct : List A → Type 0
  IsDistinct [] = Unit
  IsDistinct (x ∷ xs) = (contains x xs ≡ false) × IsDistinct xs

  or_true : (a b : Bool) → b ≡ true → a || b ≡ true
  or_true true b h = refl
  or_true false b h = h

  or_false : (a b : Bool) → a ≡ false → b ≡ false → a || b ≡ false
  or_false true b h k = h
  or_false false b h k = k

  or_left_false : (a b : Bool) → a || b ≡ false → a ≡ false
  or_left_false true b h = h
  or_left_false false b h = refl

  or_right_false : (a b : Bool) → a || b ≡ false → b ≡ false
  or_right_false true b h = absurd (subst (λ c. if c then Unit else ⊥) h tt)
  or_right_false false b h = h

  contains-append :
      (x : A) (ys zs : List A) → contains x (ys ++ zs) ≡ contains x ys || contains x zs
  contains-append x [] zs = refl
  contains-append x (y ∷ ys) zs =
      ap (λ b. eq x y || b) (contains-append x ys zs)
      ∙ assoc (eq x y) (contains x ys) (contains x zs)
    where
      assoc : (a b c : Bool) → a || (b || c) ≡ (a || b) || c
      assoc true b c = refl
      assoc false b c = refl

  pub insert_new-keeps : (x y : A) (out : List A) → Has out y → Has (insert_new x out) y
  insert_new-keeps x y out h =
      if_both (λ o. Has o y) (contains x out) _ _ h
        (contains-append y out (x ∷ []) ∙ ap (λ b. b || contains y (x ∷ [])) h)

  pub insert_all-keeps : (y : A) (xs out : List A) → Has out y → Has (insert_all xs out) y
  insert_all-keeps y [] out h = h
  insert_all-keeps y (x ∷ xs) out h =
      insert_all-keeps y xs (insert_new x out) (insert_new-keeps x y out h)

  -- What is pushed stands behind what was there.
  pub insert_all-extends : (xs out : List A) → (more : List A) × (insert_all xs out ≡ out ++ more)
  insert_all-extends [] out = ([], sym (append-nil out))
  insert_all-extends (x ∷ xs) out =
      let (more, e) = insert_all-extends xs (insert_new x out) in
      let (one, e1) = pushed in
      (one ++ more, e ∙ ap (λ o. o ++ more) e1 ∙ append_assoc out one more)
    where
      pushed : (one : List A) × (insert_new x out ≡ out ++ one)
      pushed =
          if_both (λ o. (one : List A) × (o ≡ out ++ one)) (contains x out) _ _
            ([], sym (append-nil out)) (x ∷ [], refl)

  pub length-insert_new : (x : A) (out : List A) → length (insert_new x out) ≤ suc (length out)
  length-insert_new x out =
      if_both (λ o. length o ≤ suc (length out)) (contains x out) _ _ (omega arith)
        (omega (arith, length-append out (x ∷ [])))

  module _ (eq_refl : (x : A) → eq x x ≡ true) where
    pub insert_new-adds : (x : A) (out : List A) → Has (insert_new x out) x
    insert_new-adds x out =
        if_known (λ o. Has o x) (contains x out) _ _ (λ h. h)
          (λ _.
            contains-append x out (x ∷ [])
            ∙ or_true (contains x out) _ (ap (λ b. b || false) (eq_refl x)))

    pub insert_all-adds : (xs out : List A) → All (Has (insert_all xs out)) xs
    insert_all-adds [] out = tt
    insert_all-adds (x ∷ xs) out = (
      insert_all-keeps x xs (insert_new x out) (insert_new-adds x out),
      insert_all-adds xs (insert_new x out),
    )

  module _ (eq_sym : (x y : A) → eq x y ≡ eq y x) where
    IsDistinct-append :
        (out : List A) (x : A)
        → contains x out ≡ false
        → IsDistinct out
        → IsDistinct (out ++ (x ∷ []))
    IsDistinct-append [] x h d = (refl, tt)
    IsDistinct-append (y ∷ out) x h (new, d) = (
      contains-append y out (x ∷ [])
          ∙ or_false (contains y out) _ new
              (or_false (eq y x) false (eq_sym y x ∙ or_left_false (eq x y) _ h) refl),
      IsDistinct-append out x (or_right_false (eq x y) _ h) d,
    )

    pub insert_new-IsDistinct :
        (x : A) (out : List A) → IsDistinct out → IsDistinct (insert_new x out)
    insert_new-IsDistinct x out d =
        if_known IsDistinct (contains x out) _ _ (λ _. d) (λ new. IsDistinct-append out x new d)

    pub insert_all-IsDistinct : (xs out : List A) → IsDistinct out → IsDistinct (insert_all xs out)
    insert_all-IsDistinct [] out d = d
    insert_all-IsDistinct (x ∷ xs) out d =
        insert_all-IsDistinct xs (insert_new x out) (insert_new-IsDistinct x out d)
