-- ===== src/Rpkg/Plan/Steps.antt =====
-- Which packages the steps of an installation plan hold: exactly those of the level.
use r4r.Base.{ℕ, zero, suc, ◌+◌, ◌<◌, List, [], ◌∷◌, ◌++◌, some, Bool, true, false}
use r4r.Base.{◌==◌, contains, length, ◌&&◌, ◌||◌, contains-sort, nat_eq}
use r4r.Base.{◌≡◌, refl, sym, ap, ◌∙◌, subst, ◌↔◌, arith, eqb}
use r4r.Base.Dict
use r4r.Base.Dict.{Dict}
use r4r.Rpkg.{RPackage, RPackages, package_eq}
use r4r.Rpkg.Visit.{Walk}
use r4r.Rpkg.Visit.Keeps.{level?, IsLevelled}
use r4r.Rpkg.Plan.{by_name, push_back_at, empty_plan, fill_plan, sort_steps}

-- The step `i`; empty beyond the end.
abbrev pub step_at : List (List RPackage) → ℕ → List RPackage
step_at [] i = []
step_at (step ∷ plan) zero = step
step_at (step ∷ plan) (suc i) = step_at plan i

pub contains-append :
    (p : RPackage) (xs ys : List RPackage)
    → contains (xs ++ ys) p ≡ (contains xs p || contains ys p)
contains-append p [] ys = refl
contains-append p (x ∷ xs) ys = ground (arith, contains-append p xs ys)

length-push_back_at :
    (l : ℕ) (q : RPackage) (plan : List (List RPackage))
    → length (push_back_at l q plan) ≡ length plan
unfolding push_back_at
length-push_back_at l q [] = refl
length-push_back_at zero q (s ∷ plan) = refl
length-push_back_at (suc l) q (s ∷ plan) = ap suc (length-push_back_at l q plan)

step_at-push_back_at :
    (l : ℕ) (q : RPackage) (plan : List (List RPackage)) (i : ℕ) (p : RPackage)
    → l < length plan
    → contains (step_at (push_back_at l q plan) i) p
      ≡ (contains (step_at plan i) p || (eqb l i && (q == p)))
unfolding push_back_at
step_at-push_back_at l q [] i p h = absurd (omega arith)
step_at-push_back_at zero q (s ∷ plan) zero p h = ground (arith, contains-append p s (q ∷ []))
step_at-push_back_at zero q (s ∷ plan) (suc i) p h = ground arith
step_at-push_back_at (suc l) q (s ∷ plan) zero p h = ground arith
step_at-push_back_at (suc l) q (s ∷ plan) (suc i) p h =
    step_at-push_back_at l q plan i p (omega arith) ∙ ground arith

-- Some entry gives `p` the level `i`.
has_entry : Dict RPackage ℕ → RPackage → ℕ → Bool
has_entry [] p i = false
has_entry ((q, l) ∷ d) p i = (eqb l i && (q == p)) || has_entry d p i

abbrev IsInRange : ℕ → Dict RPackage ℕ → Type 0
IsInRange n [] = Unit
IsInRange n ((q, l) ∷ d) = (l < n) × IsInRange n d

step_at-fill_plan :
    (d : Dict RPackage ℕ) (plan : List (List RPackage)) (i : ℕ) (p : RPackage)
    → IsInRange (length plan) d
    → contains (step_at (fill_plan d plan) i) p ≡ (contains (step_at plan i) p || has_entry d p i)
unfolding fill_plan has_entry
step_at-fill_plan [] plan i p h = ground arith
step_at-fill_plan ((q, l) ∷ d) plan i p (lt, h) =
    step_at-fill_plan d (push_back_at l q plan) i p
      (subst (λ n. IsInRange n d) (sym (length-push_back_at l q plan)) h)
    ∙ ground (arith, step_at-push_back_at l q plan i p lt)

has_entry_iff :
    (d : Dict RPackage ℕ) (p : RPackage) (i : ℕ)
    → Dict.NodupKeys d
    → (has_entry d p i ≡ true) ↔ (Dict.lookup p d ≡ some i)
unfolding has_entry Dict.lookup
has_entry_iff [] p i u = (λ h. cc, λ h. cc)
has_entry_iff ((q, l) ∷ d) p i (fresh, u) = ground (arith, has_entry_iff d p i u)

length-empty_plan : (n : ℕ) → length (empty_plan n) ≡ n
unfolding empty_plan
length-empty_plan zero = refl
length-empty_plan (suc n) = ap suc (length-empty_plan n)

step_at-empty_plan : (n i : ℕ) → step_at (empty_plan n) i ≡ []
unfolding empty_plan
step_at-empty_plan zero i = refl
step_at-empty_plan (suc n) zero = refl
step_at-empty_plan (suc n) (suc i) = step_at-empty_plan n i

step_at-sort_steps :
    (plan : List (List RPackage)) (i : ℕ) (p : RPackage)
    → contains (step_at (sort_steps plan) i) p ≡ contains (step_at plan i) p
unfolding sort_steps
step_at-sort_steps [] i p = refl
step_at-sort_steps (s ∷ plan) zero p = contains-sort by_name p s
step_at-sort_steps (s ∷ plan) (suc i) p = step_at-sort_steps plan i p

IsInRange-of_bounded :
    (d : Dict RPackage ℕ) (n : ℕ)
    → Dict.NodupKeys d
    → ((p : RPackage) (l : ℕ) → Dict.lookup p d ≡ some l → l < n)
    → IsInRange n d
unfolding Dict.lookup
IsInRange-of_bounded [] n u h = tt
IsInRange-of_bounded ((q, l) ∷ d) n (fresh, u) h =
    (h q l (ground arith), IsInRange-of_bounded d n u λ p k e. h p k (ground (arith)))

-- The plan that `get_installation_plan` builds from the levels of a walk.
abbrev pub plan_of : Walk → List (List RPackage)
plan_of w = sort_steps (fill_plan w.dependency_levels (empty_plan (w.max_level + 1)))

-- A step of the plan holds exactly the packages of its level.
pub step_at-plan_of :
    (packages : RPackages) (w : Walk) (i : ℕ) (p : RPackage)
    → IsLevelled packages w
    → (contains (step_at (plan_of w) i) p ≡ true) ↔ (level? w p ≡ some i)
step_at-plan_of packages w i p inv =
    let empty : List (List RPackage) = empty_plan (w.max_level + 1) in
    let size : w.max_level + 1 ≡ length empty = sym (length-empty_plan (w.max_level + 1)) in
    let bounded : IsInRange (length empty) w.dependency_levels =
      subst (λ n. IsInRange n w.dependency_levels) size
        (IsInRange-of_bounded w.dependency_levels (w.max_level + 1) inv.unique
          λ q l e. omega (arith, inv.bounded q l e)) in
    rw
      (
        step_at-sort_steps,
        step_at-fill_plan w.dependency_levels empty i p bounded,
        step_at-empty_plan (w.max_level + 1) i,
      )
      (has_entry_iff w.dependency_levels p i inv.unique)
