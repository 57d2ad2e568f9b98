-- ===== src/Base/Sort.antt =====
-- `std::sort` as insertion sort over the comparison that the source passes, and the order `<` of
-- `std::string`.
use mathlib.Core.Path.{◌≡◌, refl}
use mathlib.Core.Bool.{Bool, true, false, ◌&&◌, ◌||◌}
use mathlib.Core.List.{List, [], ◌∷◌}
use native.Mathlib.Omega.{arith}
use r4r.Base.Tests.{ltb, eqb, if◌then◌else◌}
use r4r.Base.Equality.{Eq, ◌==◌, contains}
use r4r.Base.Lists.{All}
use r4r.Base.Text.{Str}

-- Lexicographic `<` on bytes.
unfoldable pub str_lt : Str → Str → Bool
str_lt s [] = false
str_lt [] (d ∷ t) = true
str_lt (c ∷ s) (d ∷ t) = ltb c d || (eqb c d && str_lt s t)

module _ {ℓ} {A : Type ℓ} (lt : A → A → Bool) where
  unfoldable pub insert_sorted : A → List A → List A
  insert_sorted x [] = x ∷ []
  insert_sorted x (y ∷ ys) = if lt y x then y ∷ insert_sorted x ys else x ∷ y ∷ ys

  unfoldable pub sort : List A → List A
  unfolding insert_sorted
  sort [] = []
  sort (x ∷ xs) = insert_sorted x (sort xs)

  module _ ⦃e : Eq A⦄ where
    pub contains-insert_sorted :
        (a x : A) (xs : List A) → contains (insert_sorted x xs) a ≡ (x == a || contains xs a)
    unfolding insert_sorted
    contains-insert_sorted a x [] = refl
    contains-insert_sorted a x (y ∷ ys) = ground (arith, contains-insert_sorted a x ys)

    -- Sorting keeps the members.
    pub contains-sort : (a : A) (xs : List A) → contains (sort xs) a ≡ contains xs a
    unfolding sort
    contains-sort a [] = refl
    contains-sort a (x ∷ xs) =
        ground (arith, contains-insert_sorted a x (sort xs), contains-sort a xs)

module _ {ℓ κ} {A : Type ℓ} (lt : A → A → Bool) (P : A → Type κ) where
  insert_sorted-All : (x : A) (xs : List A) → P x → All P xs → All P (insert_sorted lt x xs)
  unfolding insert_sorted
  insert_sorted-All x [] p all = (p, tt)
  insert_sorted-All x (y ∷ ys) p (q, all) = from (lt y x) (insert_sorted-All x ys p all)
    where
      from :
          (b : Bool)
          → All P (insert_sorted lt x ys)
          → All P (if b then y ∷ insert_sorted lt x ys else x ∷ y ∷ ys)
      from true below = (q, below)
      from false below = (p, (q, all))

  pub sort-All : (xs : List A) → All P xs → All P (sort lt xs)
  unfolding sort
  sort-All [] all = tt
  sort-All (x ∷ xs) (p, all) = insert_sorted-All x (sort lt xs) p (sort-All xs all)
