-- ===== src/Rpkg/Plan.antt =====
-- `get_installation_plan` and `get_dependencies`: batches of packages, a package after all that it
-- depends on.
pub mod Steps
pub mod Order
use r4r.Base.{ℕ, zero, suc, ◌+◌, List, [], ◌∷◌, ◌++◌, Bool, concat, length}
use r4r.Base.{if◌then◌else◌, Result, ok, ◌>>=◌, sort, str_lt}
use r4r.Base.Dict
use r4r.Base.Dict.{Dict}
use r4r.Rpkg.{RPackage, RPackages, package_eq}
use r4r.Rpkg.Visit.{Walk, dfs_visit}

abbrev pub by_name : RPackage → RPackage → Bool
by_name a b = str_lt a.name b.name

abbrev pub start : Walk
start = record { in_stack = []; dependency_levels = []; max_level = 0 }

-- `installation_plan[level].push_back(pkg)`
unfoldable pub push_back_at : ℕ → RPackage → List (List RPackage) → List (List RPackage)
push_back_at level pkg [] = []
push_back_at zero pkg (step ∷ plan) = (step ++ pkg ∷ []) ∷ plan
push_back_at (suc level) pkg (step ∷ plan) = step ∷ push_back_at level pkg plan

unfoldable pub empty_plan : ℕ → List (List RPackage)
empty_plan zero = []
empty_plan (suc n) = [] ∷ empty_plan n

unfoldable pub fill_plan : Dict RPackage ℕ → List (List RPackage) → List (List RPackage)
unfolding push_back_at
fill_plan [] plan = plan
fill_plan ((pkg, level) ∷ levels) plan = fill_plan levels (push_back_at level pkg plan)

unfoldable pub sort_steps : List (List RPackage) → List (List RPackage)
sort_steps [] = []
sort_steps (step ∷ plan) = sort by_name step ∷ sort_steps plan

module _ (packages : RPackages) where
  unfoldable pub visit_all : ℕ → List RPackage → Walk → Result Walk
  visit_all fuel [] w = ok w
  visit_all fuel (p ∷ pkgs) w =
      (if Dict.has p w.dependency_levels then ok w else dfs_visit packages fuel p w)
      >>= visit_all fuel pkgs

  -- A walk is never deeper than the number of packages, as all on its stack differ.
  unfoldable pub get_installation_plan : List RPackage → Result (List (List RPackage))
  unfolding empty_plan fill_plan sort_steps visit_all
  get_installation_plan pkg_set =
      visit_all (length packages + 1) (sort by_name pkg_set) start >>= λ w.
      ok (sort_steps (fill_plan w.dependency_levels (empty_plan (w.max_level + 1))))

  unfoldable pub get_dependencies : List RPackage → Result (List RPackage)
  get_dependencies pkg_set = get_installation_plan pkg_set >>= λ plan. ok (concat plan)
