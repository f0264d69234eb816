-- ===== src/Base/Equality.antt =====
-- Equality tests as an interface (`PartialEq`, `Eq`), with the instances that keys need.
use Prim.Native.Nat.{ℕ}
use mathlib.Core.Path.{◌≡◌, refl}
use mathlib.Core.Logic.{◌↔◌}
use mathlib.Core.Bool.{Bool, true, false, ◌&&◌, ◌||◌}
use mathlib.Core.List.{List, [], ◌∷◌, ◌++◌}
use native.Mathlib.Omega.{arith}
use blockscape.Base.Tests.{nat_beq, nat_beq_iff, if◌then◌else◌}

infix 50 ◌==◌
-- A test that says yes exactly at equal values.
pub record Eq {ℓ} (T : Type ℓ) : Type ℓ where
  pub beq : T → T → Bool
  pub beq_iff : (x y : T) → (beq x y ≡ true) ↔ (x ≡ y)

instance abbrev pub nat_eq : Eq ℕ
nat_eq = record { beq = nat_beq; beq_iff = nat_beq_iff }

abbrev pub ◌==◌ {ℓ} : {T : Type ℓ} ⦃test : Eq T⦄ → T → T → Bool
◌==◌ ⦃test⦄ = test.beq

module _ {ℓ} {A : Type ℓ} ⦃e : Eq A⦄ where
  unfoldable pub list_beq : List A → List A → Bool
  list_beq [] [] = true
  list_beq (x ∷ xs) (y ∷ ys) = x == y && list_beq xs ys
  list_beq _ _ = false

  list_beq_sound : (xs ys : List A) → list_beq xs ys ≡ true → xs ≡ ys
  unfolding list_beq
  list_beq_sound [] [] h = refl
  list_beq_sound [] (y ∷ ys) h = cc
  list_beq_sound (x ∷ xs) [] h = cc
  list_beq_sound (x ∷ xs) (y ∷ ys) h = ground (arith, e.beq_iff x y, list_beq_sound xs ys)

  list_beq_refl : (xs : List A) → list_beq xs xs ≡ true
  unfolding list_beq
  list_beq_refl [] = refl
  list_beq_refl (x ∷ xs) = ground (arith, e.beq_iff x x, list_beq_refl xs)

  pub list_beq_iff : (xs ys : List A) → (list_beq xs ys ≡ true) ↔ (xs ≡ ys)
  list_beq_iff xs ys = (list_beq_sound xs ys, λ p. rw p (list_beq_refl ys))

  -- A common prefix does not matter.
  pub list_beq-append : (p xs ys : List A) → list_beq (p ++ xs) (p ++ ys) ≡ list_beq xs ys
  unfolding list_beq
  list_beq-append [] xs ys = refl
  list_beq-append (a ∷ p) xs ys = ground (arith, e.beq_iff a a, list_beq-append p xs ys)

  -- `a == a` passes.
  pub beq_refl : (a : A) → (a == a) ≡ true
  beq_refl a = (e.beq_iff a a).1 refl

instance abbrev pub list_eq {ℓ} : {A : Type ℓ} ⦃e : Eq A⦄ → Eq (List A)
list_eq = record { beq = list_beq; beq_iff = list_beq_iff }

module _ {ℓ} {A : Type ℓ} ⦃e : Eq A⦄ where
  -- `slice.contains(&x)`
  abbrev pub contains : List A → A → Bool
  contains [] a = false
  contains (x ∷ xs) a = x == a || contains xs a

  -- `vec.retain(|x| x != a)`
  abbrev pub retain_ne : A → List A → List A
  retain_ne a [] = []
  retain_ne a (x ∷ xs) = let rest = retain_ne a xs in if x == a then rest else x ∷ rest

  pub contains-append :
      (xs ys : List A) (a : A) → contains (xs ++ ys) a ≡ (contains xs a || contains ys a)
  contains-append [] ys a = refl
  contains-append (x ∷ xs) ys a = ground (arith, contains-append xs ys a)

  pub contains-retain_ne :
      (a b : A) (xs : List A)
      → contains (retain_ne a xs) b ≡ (if a == b then false else contains xs b)
  contains-retain_ne a b [] = ground arith
  contains-retain_ne a b (x ∷ xs) =
      ground (arith, contains-retain_ne a b xs, e.beq_iff x a, e.beq_iff x b, e.beq_iff a b)

  pub retain_ne_absent : (a : A) (xs : List A) → contains xs a ≡ false → retain_ne a xs ≡ xs
  retain_ne_absent a [] h = refl
  retain_ne_absent a (x ∷ xs) h = ground (arith, retain_ne_absent a xs)

  pub retain_ne-append :
      (a : A) (xs ys : List A) → retain_ne a (xs ++ ys) ≡ retain_ne a xs ++ retain_ne a ys
  retain_ne-append a [] ys = refl
  retain_ne-append a (x ∷ xs) ys = ground (arith, retain_ne-append a xs ys)
