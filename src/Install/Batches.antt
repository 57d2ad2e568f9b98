-- ===== src/Install/Batches.antt =====
-- Cutting a plan into batches keeps the packages that have to be installed, their order and what must
-- come first, and respects the limit.
use r4r.Base.{ℕ, zero, suc, ◌+◌, ◌-◌, ◌≤◌, ◌<◌, min, List, [], ◌∷◌, ◌++◌, not}
use r4r.Base.{
  length, take, drop, take-append-drop, length-take, length-drop, concat, filter, is_empty,
}
use r4r.Base.{
  All, All-append, ltb, ltb→lt, leb, leb→le, concat-append, filter-append, if◌then◌else◌,
  append-nil,
}
use r4r.Base.{◌≡◌, refl, sym, ap, ◌∙◌, inl, inr, Bool-cases, arith}
use r4r.Rpkg.{RPackage, package_eq}
use r4r.Install.{split_batch, expand_batch, expand_plan}

take-drop_split : (n i : ℕ) (xs : List RPackage) → take n (drop i xs) ++ drop (i + n) xs ≡ drop i xs
take-drop_split n zero xs = let e : 0 + n ≡ n = omega arith in rw e (take-append-drop n xs)
take-drop_split zero (suc i) [] = let e : suc i + 0 ≡ suc i = omega arith in rw e
take-drop_split (suc n) (suc i) [] = let e : suc i + suc n ≡ suc (i + suc n) = omega arith in rw e
take-drop_split n (suc i) (x ∷ xs) =
    let e : suc i + n ≡ suc (i + n) = omega arith in rw e (take-drop_split n i xs)

drop_all : (n : ℕ) (xs : List RPackage) → length xs ≤ n → drop n xs ≡ []
drop_all zero [] h = refl
drop_all zero (x ∷ xs) h = absurd (omega arith)
drop_all (suc n) [] h = refl
drop_all (suc n) (x ∷ xs) h = drop_all n xs (omega arith)

drop-min : (k : ℕ) (xs : List RPackage) → drop (min k (length xs)) xs ≡ drop k xs
drop-min k xs = elim (Bool-cases (leb k (length xs))) [
  | inl le ↦ let e : min k (length xs) ≡ k = ground arith in rw e
  | inr gt ↦
      let e : min k (length xs) ≡ length xs = ground arith in
      rw e (drop_all (length xs) xs (omega arith) ∙ sym (drop_all k xs (ground arith)))
]

-- One round of the loop: the slice that it copies, and what is left for the later rounds.
slice-append-drop :
    (m i : ℕ) (xs : List RPackage)
    → i < length xs
    → take (min (i + m) (length xs) - i) (drop i xs) ++ drop (i + m) xs ≡ drop i xs
slice-append-drop m i xs h =
    let n : ℕ = min (i + m) (length xs) - i in
    let e : i + n ≡ min (i + m) (length xs) = omega arith in
    let tail : drop (i + m) xs ≡ drop (i + n) xs =
      sym (drop-min (i + m) xs) ∙ ap (λ k. drop k xs) (sym e) in
    ap (λ t. take n (drop i xs) ++ t) tail ∙ take-drop_split n i xs

abbrev pub IsBatch : ℕ → List RPackage → Type 0
IsBatch max_parallel batch = (0 < length batch) × (length batch ≤ max_parallel)

module _ (m : ℕ) (pos : 0 < m) where
  concat-split_batch :
      (fuel : ℕ) (batch : List RPackage) (i : ℕ)
      → length batch ≤ fuel + i
      → concat (split_batch fuel m batch i) ≡ drop i batch
  unfolding split_batch
  concat-split_batch zero batch i h = sym (drop_all i batch (omega arith))
  concat-split_batch (suc fuel) batch i h = elim (Bool-cases (ltb i (length batch))) [
    | inl more ↦
        rw (more, concat-split_batch fuel batch (i + m) (ground arith))
          (slice-append-drop m i batch (ground arith))
    | inr over ↦ rw over (sym (drop_all i batch (ground arith)))
  ]

  split_batch-IsBatch :
      (fuel : ℕ) (batch : List RPackage) (i : ℕ) → All (IsBatch m) (split_batch fuel m batch i)
  unfolding split_batch
  split_batch-IsBatch zero batch i = tt
  split_batch-IsBatch (suc fuel) batch i = elim (Bool-cases (ltb i (length batch))) [
    | inl more ↦ rw more (
      omega (
        arith,
        length-take (min (i + m) (length batch) - i) (drop i batch),
        length-drop i batch,
        ltb→lt i (length batch) more,
      ),
      split_batch-IsBatch fuel batch (i + m),
    )
    | inr over ↦ rw over tt
  ]

  pub concat-expand_batch :
      (batch : List RPackage)
      → concat (expand_batch m batch) ≡ filter (λ pkg. not pkg.is_base) batch
  unfolding expand_batch
  concat-expand_batch batch = go (filter (λ pkg. not pkg.is_base) batch)
    where
      go :
          (kept : List RPackage)
          → concat (
              if is_empty kept
              then []
              else if leb (length kept) m
              then kept ∷ []
              else split_batch (length kept) m kept 0)
            ≡ kept
      go [] = refl
      go (x ∷ xs) = elim (Bool-cases (leb (suc (length xs)) m)) [
        | inl fits ↦ rw fits (append-nil (x ∷ xs))
        | inr big ↦ rw big (concat-split_batch (suc (length xs)) (x ∷ xs) 0 (omega arith))
      ]

  expand_batch-IsBatch : (batch : List RPackage) → All (IsBatch m) (expand_batch m batch)
  unfolding expand_batch
  expand_batch-IsBatch batch = go (filter (λ pkg. not pkg.is_base) batch)
    where
      go :
          (kept : List RPackage)
          → All (IsBatch m) (
              if is_empty kept
              then []
              else if leb (length kept) m
              then kept ∷ []
              else split_batch (length kept) m kept 0)
      go [] = tt
      go (x ∷ xs) = elim (Bool-cases (leb (suc (length xs)) m)) [
        | inl fits ↦ rw fits ((omega arith, leb→le (suc (length xs)) m fits), tt)
        | inr big ↦ rw big (split_batch-IsBatch (suc (length xs)) (x ∷ xs) 0)
      ]

  pub concat-expand_plan :
      (plan : List (List RPackage))
      → concat (expand_plan m plan) ≡ filter (λ pkg. not pkg.is_base) (concat plan)
  unfolding expand_plan
  concat-expand_plan [] = refl
  concat-expand_plan (batch ∷ plan) =
      concat-append (expand_batch m batch) (expand_plan m plan)
      ∙ rw (concat-expand_batch batch, concat-expand_plan plan)
          (sym (filter-append (λ pkg. not pkg.is_base) batch (concat plan)))

  pub expand_plan-IsBatch : (plan : List (List RPackage)) → All (IsBatch m) (expand_plan m plan)
  unfolding expand_plan
  expand_plan-IsBatch [] = tt
  expand_plan-IsBatch (batch ∷ plan) =
      All-append (IsBatch m) (expand_batch m batch) (expand_plan m plan)
        (expand_batch-IsBatch batch) (expand_plan-IsBatch plan)
