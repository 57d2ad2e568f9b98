-- ===== src/Rpkg/Visit/Explains.antt =====
-- Why a walk ends as it does: a cycle is reported only where there is one, the CHECK fails only on a
-- dependency that is not stored, and the fuel never runs out.
use r4r.Base.{ℕ, zero, suc, ◌≤◌, ◌<◌, Str, lit, List, [], ◌++◌, ◌∷◌, none, some, true, false}
use r4r.Base.{
  ◌==◌, ==→≡, contains, if◌then◌else◌, length, Result, ok, throw, fatal, out_of_fuel, ◌>>=◌,
}
use r4r.Base.{◌≡◌, refl, subst, inl, inr, Bool-cases, Option-cases, arith, list_eq, nat_eq}
use r4r.Base.Dict
use r4r.Rpkg.{RPackage, RPackages, find, package_eq}
use r4r.Rpkg.Visit.{Walk, enter, raise_level, visit_dependency, visit_dependencies, dfs_visit}
use r4r.Rpkg.Visit.Keeps.{
  level?, IsLevelled, VisitsWell, visit_dependency-IsRaised, enter-IsLevelled, dfs_visit_sound,
}

module _ (packages : RPackages) where
  -- `p` depends on `q`, directly or through other packages.
  pub data DependsOn : RPackage → RPackage → Type 0 where
    direct :
        {p q : RPackage} (d : Str)
        → contains p.dependencies d ≡ true
        → find packages d ≡ some q
        → DependsOn p q
    via : {p q r : RPackage} → DependsOn p q → DependsOn q r → DependsOn p r

  abbrev pub IsStored : RPackage → Type 0
  IsStored p = (k : Str) × (find packages k ≡ some p)

  -- The message names a stored package, and that package depends on itself.
  pub record Cycle (message : Str) : Type 0 where
    pub on : RPackage
    pub name : Str
    pub named : find packages name ≡ some on
    pub round : DependsOn on on
    pub message_eq : message ≡ lit "Cycle detected in package dependencies: " ++ name

  pub record Missing : Type 0 where
    pub dependent : RPackage
    pub name : Str
    pub stored : IsStored dependent
    pub depends : contains dependent.dependencies name ≡ true
    pub absent : find packages name ≡ none

  abbrev pub Explains {ℓ} : {A : Type ℓ} → Result A → Type 0
  Explains (ok a) = Unit
  Explains (throw message) = Cycle message
  Explains fatal = Missing
  Explains out_of_fuel = ⊥

  pub Explains-bind {ℓ κ} :
      {A : Type ℓ} {B : Type κ} (m : Result A) (f : A → Result B)
      → Explains m
      → ((a : A) → m ≡ ok a → Explains (f a))
      → Explains (m >>= f)
  Explains-bind (ok a) f h k = k a refl
  Explains-bind (throw e) f h k = h
  Explains-bind fatal f h k = h
  Explains-bind out_of_fuel f h k = h

-- The stored packages that are not on the stack.
pub room : List RPackage → RPackages → ℕ
room s [] = 0
room s ((k, q) ∷ d) = if contains s q then room s d else suc (room s d)

pub room-le : (s : List RPackage) (d : RPackages) → room s d ≤ length d
unfolding room
room-le s [] = omega arith
room-le s ((k, q) ∷ d) = ground (arith, room-le s d)

room-cons : (p : RPackage) (s : List RPackage) (d : RPackages) → room (p ∷ s) d ≤ room s d
unfolding room
room-cons p s [] = omega arith
room-cons p s ((k, q) ∷ d) = ground (arith, room-cons p s d)

room-lt :
    (p : RPackage) (s : List RPackage) (k : Str) (d : RPackages)
    → Dict.lookup k d ≡ some p
    → contains s p ≡ false
    → room (p ∷ s) d < room s d
unfolding room Dict.lookup
room-lt p s k [] e off = absurd (cc)
room-lt p s k ((j, q) ∷ d) e off = elim (Bool-cases (j == k)) [
  | inl same ↦ let pq : q ≡ p = ground arith in rw pq (ground (arith, room-cons p s d))
  | inr differ ↦ ground (arith, room-cons p s d, room-lt p s k d)
]

module _ (packages : RPackages) where
  -- Every package on the stack depends on `p`.
  abbrev pub LeadsTo : List RPackage → RPackage → Type 0
  LeadsTo s p = (q : RPackage) → contains s q ≡ true → DependsOn packages q p

  abbrev pub VisitsExplained : ℕ → (RPackage → Walk → Result Walk) → Type 0
  VisitsExplained bound visit =
      (p : RPackage) (w : Walk)
      → IsStored packages p
      → IsLevelled packages w
      → contains w.in_stack p ≡ false
      → level? w p ≡ none
      → LeadsTo w.in_stack p
      → room w.in_stack packages ≤ bound
      → Explains packages (visit p w)

  module _ (bound : ℕ) (visit : RPackage → Walk → Result Walk) (well : VisitsWell packages visit)
      (explained : VisitsExplained bound visit) (p : RPackage) (stored : IsStored packages p) where
    raise_level-Explains :
        (q : RPackage) (level l : ℕ) (w : Walk)
        → level? w q ≡ some l
        → Explains packages (raise_level q level w)
    raise_level-Explains q level l w e = rw (e, raise_level) tt

    -- `p` stands on the stack, and each package on it is `p` or depends on `p`.
    visit_dependency-Explains :
        (d : Str) (level : ℕ) (w : Walk)
        → contains p.dependencies d ≡ true
        → IsLevelled packages w
        → ((q t : RPackage)
            → contains w.in_stack q ≡ true
            → DependsOn packages p t
            → DependsOn packages q t)
        → room w.in_stack packages ≤ bound
        → Explains packages (visit_dependency packages visit d level w)
    unfolding Dict.has
    visit_dependency-Explains d level w m inv leads fits = elim (Option-cases (find packages d)) [
      | inl missing ↦
          rw (missing, visit_dependency)
            (record { dependent = p; name = d; stored = stored; depends = m; absent = missing })
      | inr (q, found) ↦
          let pq : DependsOn packages p q = DependsOn.direct d m found in
          elim (Bool-cases (contains w.in_stack q)) [
            | inl cycle ↦
                rw (found, visit_dependency, cycle)
                  (record {
                    on = q;
                    name = d;
                    named = found;
                    round = leads q q cycle pq;
                    message_eq = refl;
                  })
            | inr off ↦ elim (Option-cases (level? w q)) [
              | inr (l, e) ↦
                  rw (found, visit_dependency, off, e, Dict.has)
                    (raise_level-Explains q level l w e)
              | inl new ↦
                  rw (found, visit_dependency, off, new, Dict.has)
                    (Explains-bind packages (visit q w) (raise_level q level)
                      (explained q w (d, found) inv off new (λ t mt. leads t q mt pq) fits)
                      λ u visited.
                        let v = well q w u inv off new visited in
                        raise_level-Explains q level v.level u v.done)
            ]
          ]
    ]

    visit_dependencies-Explains :
        (ds : List Str) (level : ℕ) (w : Walk)
        → ((d : Str) → contains ds d ≡ true → contains p.dependencies d ≡ true)
        → IsLevelled packages w
        → ((q t : RPackage)
            → contains w.in_stack q ≡ true
            → DependsOn packages p t
            → DependsOn packages q t)
        → room w.in_stack packages ≤ bound
        → Explains packages (visit_dependencies packages visit ds level w)
    unfolding visit_dependencies
    visit_dependencies-Explains [] level w m inv leads fits = tt
    visit_dependencies-Explains (d ∷ ds) level w m inv leads fits =
        Explains-bind packages (visit_dependency packages visit d level w)
          (λ (level', w'). visit_dependencies packages visit ds level' w')
          (visit_dependency-Explains d level w (m d (ground arith)) inv leads fits)
          λ (level', w') first.
            let r = visit_dependency-IsRaised packages visit well d level w inv first in
            visit_dependencies-Explains ds level' w' (λ e me. m e (ground arith)) r.levelled
              (λ q t mq. leads q t (rw r.extends.stack at mq)) (rw r.extends.stack fits)

  -- On every branch: success, a real cycle or a dependency that is not stored.
  pub dfs_visit_explained : (fuel : ℕ) → VisitsExplained fuel (dfs_visit packages fuel)
  unfolding dfs_visit
  dfs_visit_explained zero p w (k, stored) inv off new leads fits =
      absurd (omega (arith, room-lt p w.in_stack k packages (unfold find in stored) off))
  dfs_visit_explained (suc fuel) p w (k, stored) inv off new leads fits =
      Explains-bind packages
        (visit_dependencies packages (dfs_visit packages fuel) p.dependencies 0 (enter p w)) _
        (visit_dependencies-Explains fuel (dfs_visit packages fuel) (dfs_visit_sound packages fuel)
          (dfs_visit_explained fuel) p (k, stored) p.dependencies 0 (enter p w) (λ d m. m)
          (enter-IsLevelled packages p w inv new)
          (λ q t mq pt. elim (Bool-cases (p == q)) [
            | inl same ↦ subst (λ x. DependsOn packages x t) (==→≡ p q same) pt
            | inr differ ↦ DependsOn.via (leads q (ground arith)) pt
          ])
          (omega (arith, room-lt p w.in_stack k packages (unfold find in stored) off)))
        λ a h. tt
