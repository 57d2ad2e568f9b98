-- ===== src/Base/Any.antt =====
-- Tests of some and of all elements of a list.
use mathlib.Core.Path.{◌≡◌, refl, sym, ◌∙◌, subst}
use mathlib.Core.Logic.{inl, inr}
use mathlib.Core.Bool.{Bool, true, false, ◌&&◌}
use mathlib.Core.List.{List, [], ◌∷◌}
use native.Mathlib.Omega.{arith}
use r4r.Base.Tests.{Bool-cases}
use r4r.Base.Equality.{Eq, ◌==◌, contains, ==→≡, ==_refl}
use r4r.Base.Lists.{any}

pub same_truth : (a b : Bool) → (a ≡ true → b ≡ true) → (b ≡ true → a ≡ true) → a ≡ b
same_truth true b f g = sym (f refl)
same_truth false false f g = refl
same_truth false true f g = g refl

module _ {ℓ} {A : Type ℓ} ⦃e : Eq A⦄ where
  pub any-witness :
      (p : A → Bool) (xs : List A)
      → any p xs ≡ true
      → (x : A) × (contains xs x ≡ true) × (p x ≡ true)
  any-witness p [] h = absurd (cc)
  any-witness p (x ∷ xs) h = elim (Bool-cases (p x)) [
    | inl here ↦ (x, rw (==_refl x) refl, here)
    | inr other ↦
        let (y, there, holds) = any-witness p xs (sym (rw other refl) ∙ h) in
        (y, ground arith, holds)
  ]

  pub any-contains :
      (p : A → Bool) (xs : List A) (x : A) → contains xs x ≡ true → p x ≡ true → any p xs ≡ true
  any-contains p [] x there holds = absurd (cc)
  any-contains p (y ∷ xs) x there holds = elim (Bool-cases (y == x)) [
    | inl same ↦ rw (==→≡ y x same, holds) refl
    | inr other ↦
        let ih = any-contains p xs x (sym (rw other refl) ∙ there) holds in ground (arith, ih)
  ]

  abbrev pub every : (A → Bool) → List A → Bool
  every p [] = true
  every p (x ∷ xs) = p x && every p xs

  pub every-contains :
      (p : A → Bool) (xs : List A) (x : A) → every p xs ≡ true → contains xs x ≡ true → p x ≡ true
  every-contains p [] x all there = absurd (cc)
  every-contains p (y ∷ xs) x all there = elim (Bool-cases (y == x)) [
    | inl same ↦ subst (λ z. p z ≡ true) (==→≡ y x same) (ground arith)
    | inr other ↦ every-contains p xs x (ground arith) (sym (rw other refl) ∙ there)
  ]
