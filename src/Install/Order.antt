-- ===== src/Install/Order.antt =====
-- What `build` hands to the script writer: every package to install once more in order, in batches of
-- the allowed size, and no package before one that it depends on.
use r4r.Base.{ℕ, zero, suc, ◌+◌, ◌-◌, ◌≤◌, ◌<◌, Str, List, [], ◌∷◌, ◌++◌, Bool, true, false, not}
use r4r.Base.{
  length, concat, filter, All, ltb, if◌then◌else◌, contains, ◌==◌, ==→≡, list_eq, nat_eq, ok,
}
use r4r.Base.{◌≡◌, refl, sym, ap, ◌∙◌, subst, inl, inr, Bool-cases, some, arith}
use r4r.Rpkg.{RPackage, RPackages, find, package_eq}
use r4r.Rpkg.Plan.{get_installation_plan}
use r4r.Rpkg.Plan.Steps.{step_at, contains-append}
use r4r.Rpkg.Plan.Order.{plan-ordered}
use r4r.Install.{Builder, expand_batch, expand_plan, build}
use r4r.Install.Batches.{IsBatch, concat-expand_batch, concat-expand_plan, expand_plan-IsBatch}

abbrev pub is_installed : RPackage → Bool
is_installed pkg = not pkg.is_base

contains-filter :
    (q : RPackage) (xs : List RPackage)
    → contains (filter is_installed xs) q ≡ true
    → contains xs q ≡ true
contains-filter q [] h = h
contains-filter q (x ∷ xs) h = ground (arith, contains-filter q xs)

contains-kept :
    (kept : Bool) (x q : RPackage) (rest : List RPackage)
    → (x == q) ≡ true
    → kept ≡ true
    → contains (if kept then x ∷ rest else rest) q ≡ true
contains-kept true x q rest same h = ground arith
contains-kept false x q rest same h = cc

filter-contains :
    (q : RPackage) (xs : List RPackage)
    → q.is_base ≡ false
    → contains xs q ≡ true
    → contains (filter is_installed xs) q ≡ true
filter-contains q [] b h = h
filter-contains q (x ∷ xs) b h = elim (Bool-cases (x == q)) [
  | inl same ↦
      contains-kept (is_installed x) x q _ same
        (ap (λ (y : RPackage). is_installed y) (==→≡ x q same) ∙ ap not b)
  | inr differ ↦ ground (arith, filter-contains q xs b)
]

-- The batch that holds a package of the flattened list.
contains-concat_of_step :
    (q : RPackage) (xss : List (List RPackage)) (i : ℕ)
    → contains (step_at xss i) q ≡ true
    → contains (concat xss) q ≡ true
contains-concat_of_step q [] i h = h
contains-concat_of_step q (xs ∷ xss) zero h = rw contains-append (ground arith)
contains-concat_of_step q (xs ∷ xss) (suc i) h =
    rw contains-append (ground (arith, contains-concat_of_step q xss i h))

step_of_contains-concat :
    (q : RPackage) (xss : List (List RPackage))
    → contains (concat xss) q ≡ true
    → (i : ℕ) × (i < length xss) × (contains (step_at xss i) q ≡ true)
step_of_contains-concat q [] h = absurd (cc)
step_of_contains-concat q (xs ∷ xss) h = elim (Bool-cases (contains xs q)) [
  | inl here ↦ (0, omega arith, here)
  | inr later ↦
      let (i, lt, m) =
        step_of_contains-concat q xss (ground (arith, contains-append q xs (concat xss))) in
      (suc i, omega arith, m)
]

step_at-append_left :
    (xs ys : List (List RPackage)) (i : ℕ) → i < length xs → step_at (xs ++ ys) i ≡ step_at xs i
step_at-append_left [] ys i h = absurd (omega arith)
step_at-append_left (x ∷ xs) ys zero h = refl
step_at-append_left (x ∷ xs) ys (suc i) h = step_at-append_left xs ys i (omega arith)

step_at-append_right :
    (xs ys : List (List RPackage)) (i : ℕ) → step_at (xs ++ ys) (length xs + i) ≡ step_at ys i
step_at-append_right [] ys i = let e : 0 + i ≡ i = omega arith in rw e
step_at-append_right (x ∷ xs) ys i =
    let e : suc (length xs) + i ≡ suc (length xs + i) = omega arith in
    rw e (step_at-append_right xs ys i)

module _ (m : ℕ) (pos : 0 < m) where
  -- The number of batches made from the steps before the step `s`.
  offset : List (List RPackage) → ℕ → ℕ
  offset [] s = 0
  offset (batch ∷ plan) zero = 0
  offset (batch ∷ plan) (suc s) = length (expand_batch m batch) + offset plan s

  offset_mono :
      (plan : List (List RPackage)) (t s : ℕ) → t < s → offset plan (suc t) ≤ offset plan s
  unfolding offset
  offset_mono [] t s h = omega arith
  offset_mono (batch ∷ plan) t zero h = absurd (omega arith)
  offset_mono (batch ∷ []) zero (suc s) h = omega arith
  offset_mono (batch ∷ _ ∷ plan) zero (suc s) h = omega arith
  offset_mono (batch ∷ plan) (suc t) (suc s) h = omega (arith, offset_mono plan t s (omega arith))

  -- A package of a batch comes from a step whose batches begin no later.
  batch-step :
      (p : RPackage) (plan : List (List RPackage)) (i : ℕ)
      → contains (step_at (expand_plan m plan) i) p ≡ true
      → (s : ℕ) × (contains (step_at plan s) p ≡ true) × (offset plan s ≤ i)
  unfolding expand_plan offset
  batch-step p [] i h = absurd (cc)
  batch-step p (batch ∷ plan) i h =
      let n : ℕ = length (expand_batch m batch) in
      elim (Bool-cases (ltb i n)) [
        | inl here ↦
            let at_i : contains (step_at (expand_batch m batch) i) p ≡ true =
              subst (λ x. contains x p ≡ true)
                (step_at-append_left (expand_batch m batch) (expand_plan m plan) i (ground arith))
                h in
            (
              0,
              contains-filter p batch (
                  subst (λ x. contains x p ≡ true) (concat-expand_batch m pos batch)
                    (contains-concat_of_step p (expand_batch m batch) i at_i)),
              omega arith,
            )
        | inr later ↦
            let e : i ≡ n + (i - n) = ground arith in
            let at_i : contains (step_at (expand_plan m plan) (i - n)) p ≡ true =
              subst (λ x. contains x p ≡ true)
                (ap (step_at (expand_batch m batch ++ expand_plan m plan)) e
                  ∙ step_at-append_right (expand_batch m batch) (expand_plan m plan) (i - n))
                h in
            let (s, found, le) = batch-step p plan (i - n) at_i in (suc s, found, omega arith)
      ]

  -- A package to install stands in a batch made from its step.
  step-batch :
      (q : RPackage) (plan : List (List RPackage)) (t : ℕ)
      → q.is_base ≡ false
      → contains (step_at plan t) q ≡ true
      → (j : ℕ) × (contains (step_at (expand_plan m plan) j) q ≡ true) × (j < offset plan (suc t))
  unfolding expand_plan offset
  step-batch q [] t b h = absurd (cc)
  step-batch q (batch ∷ plan) zero b h =
      let (j, lt, found) =
        step_of_contains-concat q (expand_batch m batch)
          (rw (concat-expand_batch m pos batch) (filter-contains q batch b h)) in
      (
        j,
        subst (λ x. contains x q ≡ true)
            (sym (step_at-append_left (expand_batch m batch) (expand_plan m plan) j lt)) found,
        omega arith,
      )
  step-batch q (batch ∷ plan) (suc t) b h =
      let (j, found, lt) = step-batch q plan t b h in
      (
        length (expand_batch m batch) + j,
        subst (λ x. contains x q ≡ true)
            (sym (step_at-append_right (expand_batch m batch) (expand_plan m plan) j)) found,
        omega arith,
      )

-- With a positive limit and an output `build` succeeds: its batches are, in the plan's order, the
-- plan's packages without the base packages, none is empty and none exceeds the limit.
pub build-batches :
    (b : Builder)
    → 0 < b.max_parallel
    → b.has_output ≡ true
    → (batches : List (List RPackage)) × (build b ≡ ok batches)
      × (concat batches ≡ filter is_installed (concat b.plan))
      × All (IsBatch b.max_parallel) batches
unfolding build
build-batches b pos out = (
  expand_plan b.max_parallel b.plan,
  ground arith,
  concat-expand_plan b.max_parallel pos b.plan,
  expand_plan-IsBatch b.max_parallel pos b.plan,
)

build-eq-ok :
    (b : Builder) (batches : List (List RPackage))
    → build b ≡ ok batches
    → (0 < b.max_parallel) × (expand_plan b.max_parallel b.plan ≡ batches)
unfolding build
build-eq-ok b batches h = ground arith

-- When the plan is the installation plan of a database, each dependency of a package of batch i is
-- stored, and is a base package or stands in a batch j < i.
pub build-ordered :
    (packages : RPackages) (pkg_set : List RPackage) (b : Builder) (batches : List (List RPackage))
    (i : ℕ) (p : RPackage) (d : Str)
    → get_installation_plan packages pkg_set ≡ ok b.plan
    → build b ≡ ok batches
    → contains (step_at batches i) p ≡ true
    → contains p.dependencies d ≡ true
    → (q : RPackage) × (find packages d ≡ some q)
      × (q.is_base ≡ false → (j : ℕ) × (j < i) × (contains (step_at batches j) q ≡ true))
build-ordered packages pkg_set b batches i p d planned built m dep =
    let (pos, e) = build-eq-ok b batches built in
    let (s, at_step, le) =
      batch-step b.max_parallel pos p b.plan i
        (subst (λ x. contains (step_at x i) p ≡ true) (sym e) m) in
    let (q, t, found, lt, at_t) = plan-ordered packages pkg_set b.plan s p d planned at_step dep in
    (
      q,
      found,
      λ installed.
          let (j, at_j, below) = step-batch b.max_parallel pos q b.plan t installed at_t in
          (
            j,
            omega (arith, offset_mono b.max_parallel pos b.plan t s lt),
            subst (λ x. contains (step_at x j) q ≡ true) e at_j,
          ),
    )
