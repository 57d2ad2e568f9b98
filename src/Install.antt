-- ===== src/Install.antt =====
-- src/install_r_package_builder.h: the builder of the R script that installs the packages of a plan,
-- batch by batch, at most `max_parallel` at a time.
pub mod Batches
pub mod Order
mod Tests
use r4r.Base.{ℕ, zero, suc, ◌+◌, ◌-◌, min, Str, lit, List, [], ◌∷◌, ◌++◌, Bool, true, false, not}
use r4r.Base.{
  length, take, drop, filter, is_empty, ltb, leb, eqb, if◌then◌else◌, Result, ok, throw, ◌>>=◌,
}
use r4r.Rpkg.{RPackage}

-- The parts of the builder that `build` reads. The output stream is set or it is not.
pub record Builder : Type 0 where
  pub plan : List (List RPackage)
  pub has_output : Bool
  pub max_parallel : ℕ

-- The loop that cuts a batch, from its index `i`. A round moves `i` on by `max_parallel`, so the
-- length of the batch bounds the number of rounds.
unfoldable pub split_batch : ℕ → ℕ → List RPackage → ℕ → List (List RPackage)
split_batch zero max_parallel batch i = []
split_batch (suc fuel) max_parallel batch i =
    let rest =
      take (min (i + max_parallel) (length batch) - i) (drop i batch)
      ∷ split_batch fuel max_parallel batch (i + max_parallel) in
    if ltb i (length batch) then rest else []

-- The body of the loop over the plan.
unfoldable pub expand_batch : ℕ → List RPackage → List (List RPackage)
unfolding split_batch
expand_batch max_parallel original =
    let batch = filter (λ pkg. not pkg.is_base) original in
    if is_empty batch
    then []
    else if leb (length batch) max_parallel
    then batch ∷ []
    else split_batch (length batch) max_parallel batch 0

unfoldable pub expand_plan : ℕ → List (List RPackage) → List (List RPackage)
unfolding expand_batch
expand_plan max_parallel [] = []
expand_plan max_parallel (batch ∷ plan) =
    expand_batch max_parallel batch ++ expand_plan max_parallel plan

-- `build`, up to the plan that it hands to `write_script`.
unfoldable pub build : Builder → Result (List (List RPackage))
unfolding expand_plan
build b =
    if eqb b.max_parallel 0
    then throw (lit "Error: max_parallel cannot be zero.")
    else if not b.has_output
    then throw (lit "Error: output is not set.")
    else ok (expand_plan b.max_parallel b.plan)
