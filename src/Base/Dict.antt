-- ===== src/Base/Dict.antt =====
-- Maps as association lists in insertion order, and the laws by which they are used.
-- `std::map`, `std::unordered_map`: `try_emplace` keeps the first value, `insert_or_assign` is `m[k] = v`.
use mathlib.Core.Path.{◌≡◌, refl, sym, ◌∙◌}
use mathlib.Core.Logic.{◌⊎◌, inl, inr}
use mathlib.Core.Bool.{Bool, true, false}
use mathlib.Core.Option.{Option, none, some}
use mathlib.Core.List.{List, [], ◌∷◌}
use native.Mathlib.Omega.{arith}
use r4r.Base.Tests.{if◌then◌else◌, Bool-cases, Option-cases}
use r4r.Base.Equality.{Eq, ◌==◌, ==→≡}

abbrev pub Dict {ℓ κ} : Type ℓ → Type κ → Type (ℓ ⊔ κ)
Dict K V = List (K × V)

module _ {ℓ κ} {K : Type ℓ} {V : Type κ} where
  abbrev pub keys : Dict K V → List K
  keys [] = []
  keys ((k, _) ∷ d) = k ∷ keys d

  abbrev pub values : Dict K V → List V
  values [] = []
  values ((_, v) ∷ d) = v ∷ values d

module _ {ℓ κ} {K : Type ℓ} {V : Type κ} ⦃e : Eq K⦄ where
  unfoldable pub lookup : K → Dict K V → Option V
  lookup k [] = none
  lookup k ((j, w) ∷ d) = if j == k then some w else lookup k d

  unfoldable pub has : K → Dict K V → Bool
  unfolding lookup
  has k d = elim (lookup k d) [ none ↦ false | some _ ↦ true ]

  unfoldable pub insert_or_assign : K → V → Dict K V → Dict K V
  insert_or_assign k v [] = (k, v) ∷ []
  insert_or_assign k v ((j, w) ∷ d) = if j == k then (j, v) ∷ d else (j, w) ∷ insert_or_assign k v d

  unfoldable pub try_emplace : K → V → Dict K V → Dict K V
  try_emplace k v [] = (k, v) ∷ []
  try_emplace k v ((j, w) ∷ d) = if j == k then (j, w) ∷ d else (j, w) ∷ try_emplace k v d

  unfoldable pub erase : K → Dict K V → Dict K V
  erase k [] = []
  erase k ((j, w) ∷ d) = let rest = erase k d in if j == k then rest else (j, w) ∷ rest

  pub has-none : (k : K) (d : Dict K V) → lookup k d ≡ none → has k d ≡ false
  unfolding has
  has-none k d absent = rw (has, absent) refl

  pub has-some : (k : K) (d : Dict K V) {v : V} → lookup k d ≡ some v → has k d ≡ true
  unfolding has
  has-some k d present = rw (has, present) refl

  pub lookup-insert_or_assign :
      (j k : K) (v : V) (d : Dict K V)
      → lookup j (insert_or_assign k v d) ≡ (if k == j then some v else lookup j d)
  unfolding lookup insert_or_assign
  lookup-insert_or_assign j k v [] = refl
  lookup-insert_or_assign j k v ((i, w) ∷ d) = ground (arith, lookup-insert_or_assign j k v d)

  pub lookup-try_emplace :
      (j k : K) (v : V) (d : Dict K V)
      → lookup j (try_emplace k v d)
        ≡ (if k == j then elim (lookup j d) [ none ↦ some v | some w ↦ some w ] else lookup j d)
  unfolding lookup try_emplace
  lookup-try_emplace j k v [] = refl
  lookup-try_emplace j k v ((i, w) ∷ d) = ground (arith, lookup-try_emplace j k v d)

  -- A value is found in the map as it was, or is the new one.
  pub try_emplace-cases :
      (j k : K) (v : V) (d : Dict K V) {w : V}
      → lookup j (try_emplace k v d) ≡ some w
      → (lookup j d ≡ some w) ⊎ ((k ≡ j) × (v ≡ w))
  try_emplace-cases j k v d found = elim (Bool-cases (k == j)) [
    | inr differ ↦ inl (sym (lookup-try_emplace j k v d ∙ rw differ refl) ∙ found)
    | inl same ↦ elim (Option-cases (lookup j d)) [
      | inl absent ↦
          let new : lookup j (try_emplace k v d) ≡ some v =
            lookup-try_emplace j k v d ∙ rw (same, absent) refl in
          inr (==→≡ k j same, cc)
      | inr (x, present) ↦
          let old : lookup j (try_emplace k v d) ≡ some x =
            lookup-try_emplace j k v d ∙ rw (same, present) refl in
          inl (cc)
    ]
  ]

  pub lookup-erase :
      (j k : K) (d : Dict K V) → lookup j (erase k d) ≡ (if k == j then none else lookup j d)
  unfolding lookup erase
  lookup-erase j k [] = ground arith
  lookup-erase j k ((i, w) ∷ d) = ground (arith, lookup-erase j k d)

  -- An erasure and an insertion of different keys can be swapped.
  pub erase-try_emplace :
      (j k : K) (v : V) (d : Dict K V)
      → (j == k) ≡ false
      → erase j (try_emplace k v d) ≡ try_emplace k v (erase j d)
  unfolding erase try_emplace
  erase-try_emplace j k v [] differ = ground arith
  erase-try_emplace j k v ((i, w) ∷ d) differ = ground (arith, erase-try_emplace j k v d differ)

  -- No key stands in two entries.
  abbrev pub NodupKeys : Dict K V → Type κ
  NodupKeys [] = Unit
  NodupKeys ((k, _) ∷ d) = (lookup k d ≡ none) × NodupKeys d

  pub insert_or_assign-NodupKeys :
      (k : K) (v : V) (d : Dict K V) → NodupKeys d → NodupKeys (insert_or_assign k v d)
  unfolding insert_or_assign lookup
  insert_or_assign-NodupKeys k v [] u = (refl, tt)
  insert_or_assign-NodupKeys k v ((j, w) ∷ d) (fresh, u) =
      ground (arith, insert_or_assign-NodupKeys k v d u, lookup-insert_or_assign j k v d)

  pub try_emplace-NodupKeys :
      (k : K) (v : V) (d : Dict K V) → NodupKeys d → NodupKeys (try_emplace k v d)
  unfolding try_emplace lookup
  try_emplace-NodupKeys k v [] u = (refl, tt)
  try_emplace-NodupKeys k v ((j, w) ∷ d) (fresh, u) =
      ground (arith, try_emplace-NodupKeys k v d u, lookup-try_emplace j k v d)
