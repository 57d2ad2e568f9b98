-- ===== src/Rpkg/Tests.antt =====
-- Plans of small databases, and the theorems at concrete data.
use r4r.Base.{
  ℕ, Str, lit, List, [], ◌∷◌, some, none, true, false, contains, list_eq, nat_eq, ok, throw, arith,
}
use r4r.Base.{◌≡◌, ◌≢◌, refl, ◌<◌, sort, str_lt, Result, subst, sym, inl, inr, ◌⊎◌, ==→≡}
use r4r.Base.Dict
use r4r.Rpkg.{RPackage, RPackages, Repository, find, package_eq}
use r4r.Rpkg.Visit.{cycle_message, visit_dependencies, dfs_visit}
use r4r.Rpkg.Visit.Explains.{DependsOn, IsStored, Explains}
use r4r.Rpkg.Plan.{get_installation_plan, get_dependencies}
use r4r.Rpkg.Plan.Steps.{step_at}
use r4r.Rpkg.Plan.Order.{plan-ordered, plan_complete, plan-explained, plan-total}

abbrev cran_package : Str → List Str → RPackage
cran_package name dependencies = record {
  name = name;
  lib_path = lit "/" ∷ lit "lib" ∷ [];
  version = lit "1.0";
  dependencies = dependencies;
  is_base = false;
  needs_compilation = false;
  repository = Repository.cran;
}

abbrev askpass : RPackage
askpass = cran_package (lit "askpass") (lit "sys" ∷ [])

abbrev sys : RPackage
sys = cran_package (lit "sys") []

abbrev curl : RPackage
curl = cran_package (lit "curl") (lit "askpass" ∷ lit "sys" ∷ [])

abbrev database : RPackages
database = (lit "curl", curl) ∷ (lit "askpass", askpass) ∷ (lit "sys", sys) ∷ []

abbrev plan : List (List RPackage)
plan = (sys ∷ []) ∷ (askpass ∷ []) ∷ (curl ∷ []) ∷ []

run : RPackages → List RPackage → Result (List (List RPackage))
unfolding get_installation_plan dfs_visit visit_dependencies package_eq list_eq nat_eq find
    Dict.lookup Dict.has Dict.insert_or_assign str_lt sort
run = get_installation_plan

planned : get_installation_plan database (curl ∷ []) ≡ ok plan
unfolding run
planned = refl

flattened : get_dependencies database (curl ∷ []) ≡ ok (sys ∷ askpass ∷ curl ∷ [])
unfolding run get_dependencies
flattened = refl

-- `a` and `b` depend on one another.
abbrev round_trip : RPackages
round_trip =
    (lit "a", cran_package (lit "a") (lit "b" ∷ []))
    ∷ (lit "b", cran_package (lit "b") (lit "a" ∷ []))
    ∷ []

cyclic :
    get_installation_plan round_trip (cran_package (lit "a") (lit "b" ∷ []) ∷ [])
    ≡ throw (cycle_message (lit "a"))
unfolding run
cyclic = refl

plan-ordered_example :
    (q : RPackage) × (j : ℕ) × (find database (lit "sys") ≡ some q)
    × (j < 2)
    × (contains (step_at plan j) q ≡ true)
unfolding package_eq list_eq nat_eq
plan-ordered_example = plan-ordered database (curl ∷ []) plan 2 curl (lit "sys") planned refl refl

plan_complete_example :
    (contains (curl ∷ []) curl ≡ true → (i : ℕ) × (contains (step_at plan i) curl ≡ true))
    × ((i j : ℕ)
        → contains (step_at plan i) curl ≡ true
        → contains (step_at plan j) curl ≡ true
        → i ≡ j)
plan_complete_example = plan_complete database (curl ∷ []) plan curl planned

IsStored-request :
    (packages : RPackages) (request p : RPackage) (k : Str)
    → find packages k ≡ some request
    → contains (request ∷ []) p ≡ true
    → IsStored packages p
IsStored-request packages request p k e m =
    let same : request ≡ p = ground arith in (k, subst (λ x. find packages k ≡ some x) same e)

curl_stored : find database (lit "curl") ≡ some curl
unfolding run
curl_stored = refl

plan-explained_example : Explains database (get_installation_plan database (curl ∷ []))
plan-explained_example =
    plan-explained database (curl ∷ [])
      (λ p m. IsStored-request database curl p (lit "curl") curl_stored m)

abbrev pair : RPackages
pair = (lit "askpass", askpass) ∷ (lit "sys", sys) ∷ []

from_sys : {p q : RPackage} → DependsOn pair p q → p ≡ sys → ⊥
from_sys (DependsOn.direct {p} d m found) e =
    let m' : contains sys.dependencies d ≡ true =
      subst (λ (x : RPackage). contains x.dependencies d ≡ true) e m in
    cc
from_sys (DependsOn.via a b) e = from_sys a e

pair-find : (d : Str) (q : RPackage) → find pair d ≡ some q → (q ≡ askpass) ⊎ (q ≡ sys)
unfolding find Dict.lookup
pair-find d q h = ground arith

from_askpass : {p q : RPackage} → DependsOn pair p q → p ≡ askpass → q ≡ sys
unfolding find Dict.lookup list_eq nat_eq
from_askpass (DependsOn.direct {p} {q} d m found) e =
    let m' : contains askpass.dependencies d ≡ true =
      subst (λ (x : RPackage). contains x.dependencies d ≡ true) e m in
    let named : lit "sys" ≡ d = ==→≡ (lit "sys") d (ground arith) in
    let found' : find pair (lit "sys") ≡ some q =
      subst (λ (x : Str). find pair x ≡ some q) (sym named) found in
    cc
from_askpass (DependsOn.via a b) e = absurd (from_sys b (from_askpass a e))

target : {p q : RPackage} → DependsOn pair p q → (q ≡ askpass) ⊎ (q ≡ sys)
target (DependsOn.direct {q} d m found) = pair-find d q found
target (DependsOn.via a b) = target b

pair_acyclic : (p : RPackage) → ¬ DependsOn pair p p
pair_acyclic p h = elim (target h) [ inl e ↦ from_sys h (from_askpass h e) | inr e ↦ from_sys h e ]

pair_consistent :
    (p : RPackage) (d : Str)
    → IsStored pair p
    → contains p.dependencies d ≡ true
    → find pair d ≢ none
unfolding find Dict.lookup list_eq nat_eq
pair_consistent p d (k, e) m missing = elim (pair-find k p e) [
  | inl a ↦
      let m' : contains askpass.dependencies d ≡ true =
        subst (λ (x : RPackage). contains x.dependencies d ≡ true) a m in
      let named : lit "sys" ≡ d = ==→≡ (lit "sys") d (ground arith) in
      let missing' : find pair (lit "sys") ≡ none =
        subst (λ (x : Str). find pair x ≡ none) (sym named) missing in
      cc
  | inr b ↦
      let m' : contains sys.dependencies d ≡ true =
        subst (λ (x : RPackage). contains x.dependencies d ≡ true) b m in
      cc
]

askpass_stored : find pair (lit "askpass") ≡ some askpass
unfolding run
askpass_stored = refl

plan-total_example :
    (plan : List (List RPackage)) × (get_installation_plan pair (askpass ∷ []) ≡ ok plan)
plan-total_example =
    plan-total pair (askpass ∷ [])
      (λ p m. IsStored-request pair askpass p (lit "askpass") askpass_stored m) pair_consistent
      pair_acyclic
