-- ===== src/Rpkg/Plan/Order.antt =====
-- What `get_installation_plan` promises: the order of the steps, that they hold every requested
-- package once, and when there is no plan.
use r4r.Base.{ℕ, ◌+◌, ◌≤◌, ◌<◌, Str, List, [], ◌∷◌, none, some, true, false}
use r4r.Base.{◌==◌, ==→≡, contains, length, sort, contains-sort, list_eq, nat_eq}
use r4r.Base.{Result, ok, throw, fatal, out_of_fuel, bind-eq-ok}
use r4r.Base.{◌≡◌, ◌≢◌, refl, ◌∙◌, subst, inl, inr, Bool-cases, Option-cases, arith}
use r4r.Base.Dict
use r4r.Rpkg.{RPackage, RPackages, find, package_eq}
use r4r.Rpkg.Visit.{Walk, dfs_visit}
use r4r.Rpkg.Visit.Keeps.{level?, IsLevelled, Extends, Extends-refl, Extends-trans, dfs_visit_sound}
use r4r.Rpkg.Visit.Explains.{
  DependsOn, IsStored, Explains, Explains-bind, room-le, dfs_visit_explained,
}
use r4r.Rpkg.Plan.{by_name, start, visit_all, get_installation_plan}
use r4r.Rpkg.Plan.Steps.{step_at, plan_of, step_at-plan_of}

module _ (packages : RPackages) where
  start-IsLevelled : IsLevelled packages start
  unfolding Dict.lookup
  start-IsLevelled = record {
    apart = λ q h. absurd (cc);
    above = λ p l h. absurd (cc);
    bounded = λ p l h. absurd (cc);
    unique = tt;
  }

  -- What the loop over the requested packages leaves.
  record IsCovered (w w' : Walk) (pkgs : List RPackage) : Type 0 where
    pub levelled : IsLevelled packages w'
    pub extends : Extends w w'
    pub covers : (p : RPackage) → contains pkgs p ≡ true → (l : ℕ) × (level? w' p ≡ some l)

  covers-cons :
      (p : RPackage) (pkgs : List RPackage) (v w : Walk) (l : ℕ)
      → level? v p ≡ some l
      → IsCovered v w pkgs
      → (q : RPackage) → contains (p ∷ pkgs) q ≡ true
      → (k : ℕ) × (level? w q ≡ some k)
  covers-cons p pkgs v w l e c q m = elim (Bool-cases (p == q)) [
    | inl same ↦ (l, subst (λ x. level? w x ≡ some l) (==→≡ p q same) (c.extends.keeps p l e))
    | inr differ ↦ c.covers q (ground arith)
  ]

  visit_all_sound :
      (fuel : ℕ) (pkgs : List RPackage) (w w' : Walk)
      → IsLevelled packages w
      → w.in_stack ≡ []
      → visit_all packages fuel pkgs w ≡ ok w'
      → IsCovered w w' pkgs
  unfolding visit_all Dict.has
  visit_all_sound fuel [] w w' inv off h =
      let same : w ≡ w' = cc in
      subst (λ x. IsCovered w x []) same
        (record { levelled = inv; extends = Extends-refl w; covers = λ p m. absurd (cc) })
  visit_all_sound fuel (p ∷ pkgs) w w' inv off h = elim (Option-cases (level? w p)) [
    | inr (l, e) ↦
        let c = visit_all_sound fuel pkgs w w' inv off (rw (e, Dict.has) at h) in
        record {
          levelled = c.levelled;
          extends = c.extends;
          covers = covers-cons p pkgs w w' l e c;
        }
    | inl new ↦
        let (v, visited, later) =
          bind-eq-ok (dfs_visit packages fuel p w) (visit_all packages fuel pkgs)
            (rw (new, Dict.has) at h) in
        let r = dfs_visit_sound packages fuel p w v inv (rw off) new visited in
        let c = visit_all_sound fuel pkgs v w' r.levelled (r.extends.stack ∙ off) later in
        record {
          levelled = c.levelled;
          extends = Extends-trans r.extends c.extends;
          covers = covers-cons p pkgs v w' r.level r.done c;
        }
  ]

  visit_all-Explains :
      (fuel : ℕ) (pkgs : List RPackage) (w : Walk)
      → ((p : RPackage) → contains pkgs p ≡ true → IsStored packages p)
      → IsLevelled packages w
      → w.in_stack ≡ []
      → length packages ≤ fuel
      → Explains packages (visit_all packages fuel pkgs w)
  unfolding visit_all Dict.has
  visit_all-Explains fuel [] w stored inv off fits = tt
  visit_all-Explains fuel (p ∷ pkgs) w stored inv off fits = elim (Option-cases (level? w p)) [
    | inr (l, e) ↦
        rw (e, Dict.has)
          (visit_all-Explains fuel pkgs w (λ q m. stored q (ground arith)) inv off fits)
    | inl new ↦
        rw (new, Dict.has)
          (Explains-bind packages (dfs_visit packages fuel p w) (visit_all packages fuel pkgs)
            (dfs_visit_explained packages fuel p w (stored p (ground arith)) inv (rw off) new
              (λ q m. absurd (let n : false ≡ true = rw off at m in cc))
              (omega (arith, room-le w.in_stack packages)))
            λ v visited.
              let r = dfs_visit_sound packages fuel p w v inv (rw off) new visited in
              visit_all-Explains fuel pkgs v (λ q m. stored q (ground arith)) r.levelled
                (r.extends.stack ∙ off) fits)
  ]

  explained-ok {ℓ} :
      {A : Type ℓ}
      → ((p : RPackage) (d : Str)
          → IsStored packages p
          → contains p.dependencies d ≡ true
          → find packages d ≢ none)
      → ((p : RPackage) → ¬ DependsOn packages p p)
      → (r : Result A) → Explains packages r
      → (a : A) × (r ≡ ok a)
  explained-ok consistent acyclic (ok a) h = (a, refl)
  explained-ok consistent acyclic (throw e) h = absurd (acyclic h.on h.round)
  explained-ok consistent acyclic fatal h =
      absurd (consistent h.dependent h.name h.stored h.depends h.absent)
  explained-ok consistent acyclic out_of_fuel h = absurd h

  module _ (pkg_set : List RPackage) where
    -- The walk behind a plan.
    plan-IsCovered :
        (plan : List (List RPackage))
        → get_installation_plan packages pkg_set ≡ ok plan
        → (w : Walk) × (plan_of w ≡ plan) × IsCovered start w (sort by_name pkg_set)
    unfolding get_installation_plan
    plan-IsCovered plan h =
        let (w, walked, built) =
          bind-eq-ok (visit_all packages (length packages + 1) (sort by_name pkg_set) start)
            (λ w. ok (plan_of w)) h in
        (w, (cc), visit_all_sound _ (sort by_name pkg_set) start w start-IsLevelled refl walked)

    -- In a plan, every dependency of a package of step i is stored in the database, and its package
    -- stands in a step j < i.
    pub plan-ordered :
        (plan : List (List RPackage)) (i : ℕ) (p : RPackage) (d : Str)
        → get_installation_plan packages pkg_set ≡ ok plan
        → contains (step_at plan i) p ≡ true
        → contains p.dependencies d ≡ true
        → (q : RPackage) × (j : ℕ) × (find packages d ≡ some q)
          × (j < i)
          × (contains (step_at plan j) q ≡ true)
    plan-ordered plan i p d h m dep =
        let (w, e, c) = plan-IsCovered plan h in
        let at_level = (step_at-plan_of packages w i p c.levelled).0 (rw e m) in
        let b = c.levelled.above p i at_level d dep in
        (
          b.target,
          b.level,
          b.found,
          b.lower,
          subst (λ x. contains (step_at x b.level) b.target ≡ true) e
              ((step_at-plan_of packages w b.level b.target c.levelled).1 b.has_level),
        )

    -- A plan holds every requested package, and no package stands in two of its steps.
    pub plan_complete :
        (plan : List (List RPackage)) (p : RPackage)
        → get_installation_plan packages pkg_set ≡ ok plan
        → (contains pkg_set p ≡ true → (i : ℕ) × (contains (step_at plan i) p ≡ true))
          × ((i j : ℕ)
              → contains (step_at plan i) p ≡ true
              → contains (step_at plan j) p ≡ true
              → i ≡ j)
    plan_complete plan p h =
        let (w, e, c) = plan-IsCovered plan h in
        (
          λ m.
              let (l, at_level) = c.covers p (rw contains-sort m) in
              (
                l,
                subst (λ x. contains (step_at x l) p ≡ true) e
                    ((step_at-plan_of packages w l p c.levelled).1 at_level),
              ),
          λ i j mi mj.
              let a = (step_at-plan_of packages w i p c.levelled).0 (rw e mi) in
              let b = (step_at-plan_of packages w j p c.levelled).0 (rw e mj) in ground arith,
        )

    -- For requested packages of the database, the computation never runs out of fuel; an exception
    -- names a stored package that depends on itself, and a failed CHECK means a dependency that is not
    -- stored.
    pub plan-explained :
        ((p : RPackage) → contains pkg_set p ≡ true → IsStored packages p)
        → Explains packages (get_installation_plan packages pkg_set)
    unfolding get_installation_plan
    plan-explained stored =
        Explains-bind packages
          (visit_all packages (length packages + 1) (sort by_name pkg_set) start) _
          (visit_all-Explains (length packages + 1) (sort by_name pkg_set) start
            (λ p m. stored p (rw contains-sort at m)) start-IsLevelled refl (omega arith))
          λ a h. tt

    -- For requested packages of a database that stores every dependency of its packages and in which
    -- no package depends on itself, even through others, there is a plan.
    pub plan-total :
        ((p : RPackage) → contains pkg_set p ≡ true → IsStored packages p)
        → ((p : RPackage) (d : Str)
            → IsStored packages p
            → contains p.dependencies d ≡ true
            → find packages d ≢ none)
        → ((p : RPackage) → ¬ DependsOn packages p p)
        → (plan : List (List RPackage)) × (get_installation_plan packages pkg_set ≡ ok plan)
    plan-total stored consistent acyclic =
        explained-ok consistent acyclic (get_installation_plan packages pkg_set)
          (plan-explained stored)
