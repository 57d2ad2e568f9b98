-- ===== src/Rpkg/Load/Consistent.antt =====
-- A database that was read is closed under dependencies, which the installation plan relies on.
use r4r.Base.{
  Str, List, [], ◌∷◌, Option, none, some, Bool, true, false, contains, filter, ◌==◌, ==→≡, list_eq,
  nat_eq, Result, ok, throw, fatal, out_of_fuel,
}
use r4r.Base.{◌≡◌, ◌≢◌, refl, sym, ◌∙◌, ◌⊎◌, inl, inr, subst, Bool-cases, arith}
use r4r.Base.Dict
use r4r.Base.Dict.{Dict}
use r4r.Rpkg.{RPackage, RPackages, find, package_eq}
use r4r.Rpkg.Visit.Explains.{IsStored, Cycle, Explains}
use r4r.Rpkg.Plan.{get_installation_plan}
use r4r.Rpkg.Plan.Order.{plan-explained}
use r4r.Rpkg.Load.{
  erase_missing, erase_all_missing, add_package_lines, parse_r_packages, from_stream,
}

-- Every dependency of a package that is stored is the name of one.
abbrev pub IsConsistent : RPackages → Type 0
IsConsistent packages =
    (p : RPackage) (d : Str)
    → IsStored packages p
    → contains p.dependencies d ≡ true
    → find packages d ≢ none

contains-filter :
    (f : Str → Bool) (xs : List Str) (d : Str) → contains (filter f xs) d ≡ true → f d ≡ true
contains-filter f [] d stands = absurd (cc)
contains-filter f (x ∷ xs) d stands = elim (Bool-cases (x == d)) [
  | inl same ↦
      let e : x ≡ d = ==→≡ x d same in
      elim (Bool-cases (f x)) [
        | inl kept ↦ subst (λ y. f y ≡ true) e kept
        | inr dropped ↦ contains-filter f xs d (sym (rw dropped refl) ∙ stands)
      ]
  | inr other ↦ contains-filter f xs d (ground arith)
]

abbrev erased : RPackages → Option RPackage → Option RPackage
erased packages none = none
erased packages (some p) = some (erase_missing packages p)

lookup-erase_all_missing :
    (packages rest : RPackages) (k : Str)
    → Dict.lookup k (erase_all_missing packages rest) ≡ erased packages (Dict.lookup k rest)
unfolding Dict.lookup erase_all_missing
lookup-erase_all_missing packages [] k = refl
lookup-erase_all_missing packages ((j, p) ∷ rest) k =
    ground (arith, lookup-erase_all_missing packages rest k)

parse_r_packages-IsConsistent : (input : List Str) → IsConsistent (parse_r_packages input)
unfolding parse_r_packages find
parse_r_packages-IsConsistent input p d (k, stored) depends absent =
    from (Dict.lookup k packages) (sym (lookup-erase_all_missing packages packages k) ∙ stored)
  where
    packages : RPackages
    packages = add_package_lines input []

    gone : erased packages (Dict.lookup d packages) ≡ none
    gone = sym (lookup-erase_all_missing packages packages d) ∙ absent

    unknown :
        (o : Option RPackage)
        → Dict.lookup d packages ≡ o
        → erased packages o ≡ none
        → Dict.has d packages ≡ false
    unknown none e h = Dict.has-none d packages e
    unknown (some q) e h = absurd (cc)

    from : (o : Option RPackage) → erased packages o ≡ some p → ⊥
    from none same = cc
    from (some q) same =
        let e : erase_missing packages q ≡ p = cc in
        let kept =
          contains-filter (λ dep. Dict.has dep packages) q.dependencies d
            (subst (λ r. contains r.dependencies d ≡ true) (sym e) depends) in
        let lost = unknown (Dict.lookup d packages) refl gone in cc

-- What the planner can say of such a database: a plan, or a cycle that exists.
abbrev pub PlanOrCycle : RPackages → Result (List (List RPackage)) → Type 0
PlanOrCycle packages r =
    ((plan : List (List RPackage)) × (r ≡ ok plan))
    ⊎ ((message : Str) × (r ≡ throw message) × Cycle packages message)

Explains-PlanOrCycle :
    (packages : RPackages) (r : Result (List (List RPackage)))
    → IsConsistent packages
    → Explains packages r
    → PlanOrCycle packages r
Explains-PlanOrCycle packages (ok plan) consistent why = inl (plan, refl)
Explains-PlanOrCycle packages (throw message) consistent why = inr (message, refl, why)
Explains-PlanOrCycle packages fatal consistent why =
    absurd (consistent why.dependent why.name why.stored why.depends why.absent)
Explains-PlanOrCycle packages out_of_fuel consistent why = absurd why

-- For every output of R, and requested packages that the database read from it stores, the
-- installation plan is computed, or the computation ends in an exception that names a stored
-- package of a cycle of dependencies: no CHECK fails, no dependency is missing.
pub from_stream-PlanOrCycle :
    (input : List Str) (pkg_set : List RPackage)
    → ((p : RPackage) → contains pkg_set p ≡ true → IsStored (from_stream input).packages p)
    → PlanOrCycle
        (from_stream input).packages
        (get_installation_plan (from_stream input).packages pkg_set)
unfolding from_stream
from_stream-PlanOrCycle input pkg_set stored =
    Explains-PlanOrCycle (parse_r_packages input) _ (parse_r_packages-IsConsistent input)
      (plan-explained (parse_r_packages input) pkg_set stored)
