-- ===== src/Rpkg/Visit.antt =====
-- The depth-first walk `RpkgDatabase::dfs_visit`, which gives a package the level above those of its
-- dependencies.
pub mod Keeps
pub mod Explains
use r4r.Base.{ℕ, zero, suc, ◌+◌, max, Str, lit, List, [], ◌∷◌, ◌++◌, none, some}
use r4r.Base.{
  ◌==◌, contains, filter, not, if◌then◌else◌, Result, ok, throw, fatal, out_of_fuel, ◌>>=◌,
}
use r4r.Base.Dict
use r4r.Base.Dict.{Dict}
use r4r.Rpkg.{RPackage, RPackages, find, package_eq}

-- What `dfs_visit` updates through its references.
pub record Walk : Type 0 where
  pub in_stack : List RPackage
  pub dependency_levels : Dict RPackage ℕ
  pub max_level : ℕ

abbrev pub cycle_message : Str → Str
cycle_message d_name = lit "Cycle detected in package dependencies: " ++ d_name

-- The second half of the loop's body: the dependency has a level by now.
abbrev pub raise_level : RPackage → ℕ → Walk → Result (ℕ × Walk)
raise_level d_pkg level w = elim (Dict.lookup d_pkg w.dependency_levels) [
  | none ↦ fatal
  | some l ↦ ok (max level (l + 1), w)
]

-- The statements before and after the loop.
abbrev pub enter : RPackage → Walk → Walk
enter pkg w = record w { in_stack = pkg ∷ w.in_stack }

abbrev pub leave : RPackage → ℕ × Walk → Walk
leave pkg (level, w) = record {
  in_stack = filter (λ q. not (q == pkg)) w.in_stack;
  dependency_levels = Dict.insert_or_assign pkg level w.dependency_levels;
  max_level = max w.max_level level;
}

module _ (packages : RPackages) where
  -- One round of the loop over the dependencies; `visit` is the recursive call.
  abbrev pub visit_dependency : (RPackage → Walk → Result Walk) → Str → ℕ → Walk → Result (ℕ × Walk)
  visit_dependency visit d_name level w = elim (find packages d_name) [
    | none ↦ fatal
    | some d_pkg ↦
        if contains w.in_stack d_pkg
        then throw (cycle_message d_name)
        else if Dict.has d_pkg w.dependency_levels
        then raise_level d_pkg level w
        else visit d_pkg w >>= raise_level d_pkg level
  ]

  unfoldable pub visit_dependencies :
      (RPackage → Walk → Result Walk) → List Str → ℕ → Walk → Result (ℕ × Walk)
  visit_dependencies visit [] level w = ok (level, w)
  visit_dependencies visit (d ∷ ds) level w =
      visit_dependency visit d level w >>= λ (level', w'). visit_dependencies visit ds level' w'

  -- The fuel bounds the depth of the recursion.
  unfoldable pub dfs_visit : ℕ → RPackage → Walk → Result Walk
  dfs_visit zero pkg w = out_of_fuel
  dfs_visit (suc fuel) pkg w =
      visit_dependencies (dfs_visit fuel) pkg.dependencies 0 (enter pkg w) >>= λ r. ok (leave pkg r)
