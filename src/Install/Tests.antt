-- ===== src/Install/Tests.antt =====
-- Batches of a small plan, and the theorems at concrete data.
use r4r.Base.{
  ℕ, Str, lit, List, [], ◌∷◌, some, true, false, contains, list_eq, nat_eq, ok, throw, arith,
}
use r4r.Base.{◌≡◌, refl, ◌<◌, sort, str_lt, concat, filter, All}
use r4r.Base.Dict
use r4r.Rpkg.{RPackage, RPackages, Repository, find, package_eq}
use r4r.Rpkg.Visit.{visit_dependencies, dfs_visit}
use r4r.Rpkg.Plan.{get_installation_plan}
use r4r.Rpkg.Plan.Steps.{step_at}
use r4r.Install.{Builder, build}
use r4r.Install.Batches.{IsBatch}
use r4r.Install.Order.{is_installed, build-batches, build-ordered}

abbrev cran_package : Str → List Str → RPackage
cran_package name dependencies = record {
  name = name;
  lib_path = lit "/" ∷ lit "lib" ∷ [];
  version = lit "2.0";
  dependencies = dependencies;
  is_base = false;
  needs_compilation = true;
  repository = Repository.cran;
}

abbrev cli : RPackage
cli = cran_package (lit "cli") (lit "utils" ∷ [])

abbrev glue : RPackage
glue = cran_package (lit "glue") []

abbrev rlang : RPackage
rlang = cran_package (lit "rlang") (lit "utils" ∷ [])

abbrev utils : RPackage
utils = record (cran_package (lit "utils") []) { is_base = true }

abbrev tibble : RPackage
tibble = cran_package (lit "tibble") (lit "cli" ∷ lit "glue" ∷ lit "rlang" ∷ [])

abbrev database : RPackages
database =
    (lit "tibble", tibble)
    ∷ (lit "cli", cli)
    ∷ (lit "glue", glue)
    ∷ (lit "rlang", rlang)
    ∷ (lit "utils", utils)
    ∷ []

abbrev builder : Builder
builder = record {
  plan = (glue ∷ utils ∷ []) ∷ (cli ∷ rlang ∷ []) ∷ (tibble ∷ []) ∷ [];
  has_output = true;
  max_parallel = 1;
}

abbrev batches : List (List RPackage)
batches = (glue ∷ []) ∷ (cli ∷ []) ∷ (rlang ∷ []) ∷ (tibble ∷ []) ∷ []

planned : get_installation_plan database (tibble ∷ []) ≡ ok builder.plan
unfolding get_installation_plan dfs_visit visit_dependencies package_eq list_eq nat_eq find
    Dict.lookup Dict.has Dict.insert_or_assign str_lt sort
planned = refl

built : build builder ≡ ok batches
unfolding build
built = refl

no_limit :
    build (record builder { max_parallel = 0 }) ≡ throw (lit "Error: max_parallel cannot be zero.")
unfolding build
no_limit = refl

no_output : build (record builder { has_output = false }) ≡ throw (lit "Error: output is not set.")
unfolding build
no_output = refl

build-batches_example :
    (batches : List (List RPackage)) × (build builder ≡ ok batches)
    × (concat batches ≡ filter is_installed (concat builder.plan))
    × All (IsBatch 1) batches
build-batches_example = build-batches builder (omega arith) refl

build-ordered_example :
    (q : RPackage) × (find database (lit "rlang") ≡ some q)
    × (q.is_base ≡ false → (j : ℕ) × (j < 3) × (contains (step_at batches j) q ≡ true))
unfolding package_eq list_eq nat_eq
build-ordered_example =
    build-ordered database (tibble ∷ []) builder batches 3 tibble (lit "rlang") planned built refl
      refl
