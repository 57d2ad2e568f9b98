-- ===== src/Rpkg/Visit/Keeps.antt =====
-- What a successful walk guarantees: levels rise along dependencies, and recorded levels stay.
use r4r.Base.{ℕ, zero, suc, ◌+◌, ◌≤◌, ◌<◌, max, Str, List, [], ◌∷◌, Option, none, some, true, false}
use r4r.Base.{
  ◌==◌, ==→≡, contains, filter, not, if◌then◌else◌, Result, ok, bind-eq-ok, list_eq, nat_eq,
}
use r4r.Base.{◌≡◌, refl, sym, ◌∙◌, subst, inl, inr, Bool-cases, Option-cases, arith}
use r4r.Base.Dict
use r4r.Base.Dict.{Dict}
use r4r.Rpkg.{RPackage, RPackages, find, package_eq}
use r4r.Rpkg.Visit.{
  Walk, enter, raise_level, visit_dependency, visit_dependencies, leave, dfs_visit,
}

-- What an existing entry of the map says.
abbrev pub level? : Walk → RPackage → Option ℕ
level? w p = Dict.lookup p w.dependency_levels

module _ (packages : RPackages) where
  -- The dependency `d` is stored, and its package has a level below `bound`.
  pub record IsBelow (levels : Dict RPackage ℕ) (bound : ℕ) (d : Str) : Type 0 where
    pub target : RPackage
    pub level : ℕ
    pub found : find packages d ≡ some target
    pub has_level : Dict.lookup target levels ≡ some level
    pub lower : level < bound

  pub record IsLevelled (w : Walk) : Type 0 where
    pub apart : (q : RPackage) → contains w.in_stack q ≡ true → level? w q ≡ none
    pub above :
        (p : RPackage) (l : ℕ)
        → level? w p ≡ some l
        → (d : Str) → contains p.dependencies d ≡ true
        → IsBelow w.dependency_levels l d
    pub bounded : (p : RPackage) (l : ℕ) → level? w p ≡ some l → l ≤ w.max_level
    pub unique : Dict.NodupKeys w.dependency_levels

-- A later walk: the same stack, and no recorded level lost or changed.
pub record Extends (w w' : Walk) : Type 0 where
  pub stack : w'.in_stack ≡ w.in_stack
  pub keeps : (q : RPackage) (l : ℕ) → level? w q ≡ some l → level? w' q ≡ some l

pub Extends-refl : (w : Walk) → Extends w w
Extends-refl w = record { stack = refl; keeps = λ q l h. h }

pub Extends-trans : {u v w : Walk} → Extends u v → Extends v w → Extends u w
Extends-trans a b = record {
  stack = b.stack ∙ a.stack;
  keeps = λ q l h. b.keeps q l (a.keeps q l h);
}

module _ (packages : RPackages) where
  IsBelow-Extends :
      {w w' : Walk} {b b' : ℕ} {d : Str}
      → Extends w w'
      → b ≤ b'
      → IsBelow packages w.dependency_levels b d
      → IsBelow packages w'.dependency_levels b' d
  IsBelow-Extends x le h = record {
    target = h.target;
    level = h.level;
    found = h.found;
    has_level = x.keeps h.target h.level h.has_level;
    lower = omega (arith, h.lower);
  }

  -- What a visit of `p` gives.
  pub record IsVisited (w w' : Walk) (p : RPackage) : Type 0 where
    pub levelled : IsLevelled packages w'
    pub extends : Extends w w'
    pub level : ℕ
    pub done : level? w' p ≡ some level

  abbrev pub VisitsWell : (RPackage → Walk → Result Walk) → Type 0
  VisitsWell visit =
      (p : RPackage) (w w' : Walk)
      → IsLevelled packages w
      → contains w.in_stack p ≡ false
      → level? w p ≡ none
      → visit p w ≡ ok w'
      → IsVisited w w' p

  -- What a run of the loop over `ds` gives.
  pub record IsRaised (w : Walk) (level : ℕ) (ds : List Str) (level' : ℕ) (w' : Walk) : Type 0 where
    pub levelled : IsLevelled packages w'
    pub extends : Extends w w'
    pub rises : level ≤ level'
    pub below : (d : Str) → contains ds d ≡ true → IsBelow packages w'.dependency_levels level' d

  single-IsBelow :
      {u : Dict RPackage ℕ} {b : ℕ} (d e : Str)
      → IsBelow packages u b d
      → contains (d ∷ []) e ≡ true
      → IsBelow packages u b e
  single-IsBelow {u} {b} d e h m =
      let same : d ≡ e = ground arith in subst (λ x. IsBelow packages u b x) same h

  cons-IsBelow :
      {u : Dict RPackage ℕ} {b : ℕ} (d : Str) (ds : List Str)
      → IsBelow packages u b d
      → ((e : Str) → contains ds e ≡ true → IsBelow packages u b e)
      → (e : Str) → contains (d ∷ ds) e ≡ true
      → IsBelow packages u b e
  cons-IsBelow {u} {b} d ds h hs e m = elim (Bool-cases (d == e)) [
    | inl same ↦ subst (λ x. IsBelow packages u b x) (==→≡ d e same) h
    | inr differ ↦ hs e (ground arith)
  ]

  raise_level-IsRaised :
      (d : Str) (q : RPackage) (level : ℕ) (w u : Walk) {r : ℕ × Walk}
      → find packages d ≡ some q
      → IsLevelled packages u
      → Extends w u
      → raise_level q level u ≡ ok r
      → IsRaised w level (d ∷ []) r.0 r.1
  raise_level-IsRaised d q level w u {r} found inv ext h = elim (Option-cases (level? u q)) [
    | inl missing ↦ absurd (ground arith)
    | inr (l, e) ↦
        let same : (max level (l + 1), u) ≡ r = ground arith in
        subst (λ x. IsRaised w level (d ∷ []) x.0 x.1) same
          (record {
            levelled = inv;
            extends = ext;
            rises = omega arith;
            below = λ d'. single-IsBelow d d' (record {
              target = q;
              level = l;
              found = found;
              has_level = e;
              lower = omega arith;
            });
          })
  ]

  module _ (visit : RPackage → Walk → Result Walk) (well : VisitsWell visit) where
    pub visit_dependency-IsRaised :
        (d : Str) (level : ℕ) (w : Walk) {r : ℕ × Walk}
        → IsLevelled packages w
        → visit_dependency packages visit d level w ≡ ok r
        → IsRaised w level (d ∷ []) r.0 r.1
    unfolding Dict.has
    visit_dependency-IsRaised d level w inv h = elim (Option-cases (find packages d)) [
      | inl missing ↦ absurd (ground arith)
      | inr (q, found) ↦ elim (Bool-cases (contains w.in_stack q)) [
        | inl cycle ↦ absurd (ground arith)
        | inr off ↦ elim (Option-cases (level? w q)) [
          | inr (l, e) ↦
              raise_level-IsRaised d q level w w found inv (Extends-refl w) (ground arith)
          | inl new ↦
              let (u, visited, raised) =
                bind-eq-ok (visit q w) (raise_level q level) (ground arith) in
              let v = well q w u inv off new visited in
              raise_level-IsRaised d q level w u found v.levelled v.extends raised
        ]
      ]
    ]

    visit_dependencies-IsRaised :
        (ds : List Str) (level : ℕ) (w : Walk) {r : ℕ × Walk}
        → IsLevelled packages w
        → visit_dependencies packages visit ds level w ≡ ok r
        → IsRaised w level ds r.0 r.1
    unfolding visit_dependencies
    visit_dependencies-IsRaised [] level w {r} inv h =
        let same : (level, w) ≡ r = cc in
        subst (λ x. IsRaised w level [] x.0 x.1) same
          (record {
            levelled = inv;
            extends = Extends-refl w;
            rises = omega arith;
            below = λ d m. absurd (cc);
          })
    visit_dependencies-IsRaised (d ∷ ds) level w inv h =
        let ((level', w'), first, later) =
          bind-eq-ok (visit_dependency packages visit d level w)
            (λ (level', w'). visit_dependencies packages visit ds level' w') h in
        let a = visit_dependency-IsRaised d level w inv first in
        let b = visit_dependencies-IsRaised ds level' w' a.levelled later in
        record {
          levelled = b.levelled;
          extends = Extends-trans a.extends b.extends;
          rises = omega (arith, a.rises, b.rises);
          below =
              cons-IsBelow d ds (IsBelow-Extends b.extends b.rises (a.below d (ground arith)))
                b.below;
        }

  -- A new entry leaves what was below a bound below it.
  IsBelow-insert :
      (p : RPackage) (l : ℕ) (levels : Dict RPackage ℕ) {b : ℕ} (d : Str)
      → Dict.lookup p levels ≡ none
      → IsBelow packages levels b d
      → IsBelow packages (Dict.insert_or_assign p l levels) b d
  IsBelow-insert p l levels d new h = record {
    target = h.target;
    level = h.level;
    found = h.found;
    has_level = rw Dict.lookup-insert_or_assign (ground (arith, h.has_level));
    lower = h.lower;
  }

  pub enter-IsLevelled :
      (p : RPackage) (w : Walk)
      → IsLevelled packages w
      → level? w p ≡ none
      → IsLevelled packages (enter p w)
  enter-IsLevelled p w inv new = record {
    apart = λ q m. elim (Bool-cases (p == q)) [
      | inl same ↦ subst (λ x. level? w x ≡ none) (==→≡ p q same) new
      | inr differ ↦ inv.apart q (ground arith)
    ];
    above = inv.above;
    bounded = inv.bounded;
    unique = inv.unique;
  }

  filter_absent :
      (p : RPackage) (s : List RPackage) → contains s p ≡ false → filter (λ q. not (q == p)) s ≡ s
  filter_absent p [] h = refl
  filter_absent p (q ∷ s) h = ground (arith, filter_absent p s)

  leave_stack :
      (p : RPackage) (w u : Walk) (l : ℕ)
      → contains w.in_stack p ≡ false
      → u.in_stack ≡ p ∷ w.in_stack
      → (leave p (l, u)).in_stack ≡ w.in_stack
  leave_stack p w u l off e = rw e (ground (arith, filter_absent p w.in_stack))

  module _ (p : RPackage) (w u : Walk) (l : ℕ) (off : contains w.in_stack p ≡ false)
      (h : IsRaised (enter p w) 0 p.dependencies l u) where
    new_in_loop : level? u p ≡ none
    new_in_loop = h.levelled.apart p (rw h.extends.stack (ground arith))

    level?-leave :
        (q : RPackage) → level? (leave p (l, u)) q ≡ (if p == q then some l else level? u q)
    level?-leave q = Dict.lookup-insert_or_assign q p l u.dependency_levels

    leave-apart :
        (q : RPackage)
        → contains (leave p (l, u)).in_stack q ≡ true
        → level? (leave p (l, u)) q ≡ none
    leave-apart q m =
        let m' : contains w.in_stack q ≡ true = rw (leave_stack p w u l off h.extends.stack) at m in
        let n : level? u q ≡ none = h.levelled.apart q (rw h.extends.stack (ground arith)) in
        rw level?-leave (ground arith)

    leave-above :
        (q : RPackage) (k : ℕ)
        → level? (leave p (l, u)) q ≡ some k
        → (d : Str) → contains q.dependencies d ≡ true
        → IsBelow packages (leave p (l, u)).dependency_levels k d
    leave-above q k e d m = elim (Bool-cases (p == q)) [
      | inl same ↦
          let pq : p ≡ q = ==→≡ p q same in
          let lk : l ≡ k = ground (arith, level?-leave q) in
          let m' : contains p.dependencies d ≡ true =
            subst (λ x. contains x.dependencies d ≡ true) (sym pq) m in
          subst (λ x. IsBelow packages (leave p (l, u)).dependency_levels x d) lk
            (IsBelow-insert p l u.dependency_levels d new_in_loop (h.below d m'))
      | inr differ ↦
          IsBelow-insert p l u.dependency_levels d new_in_loop
            (h.levelled.above q k (ground (arith, level?-leave q)) d m)
    ]

    leave-bounded :
        (q : RPackage) (k : ℕ) → level? (leave p (l, u)) q ≡ some k → k ≤ (leave p (l, u)).max_level
    leave-bounded q k e = elim (Bool-cases (p == q)) [
      | inl same ↦ let lk : l ≡ k = ground (arith, level?-leave q) in omega arith
      | inr differ ↦ omega (arith, h.levelled.bounded q k (ground (arith, level?-leave q)))
    ]

    leave-keeps :
        (q : RPackage) (k : ℕ)
        → level? w p ≡ none
        → level? w q ≡ some k
        → level? (leave p (l, u)) q ≡ some k
    leave-keeps q k new e =
        let kept : level? u q ≡ some k = h.extends.keeps q k e in
        rw level?-leave (ground (arith, new_in_loop))

    -- The walk that `dfs_visit` returns, from the one that its loop returns.
    leave-IsVisited : level? w p ≡ none → IsVisited w (leave p (l, u)) p
    leave-IsVisited new = record {
      levelled = record {
        apart = leave-apart;
        above = leave-above;
        bounded = leave-bounded;
        unique = Dict.insert_or_assign-NodupKeys p l u.dependency_levels h.levelled.unique;
      };
      extends = record {
        stack = leave_stack p w u l off h.extends.stack;
        keeps = λ q k e. leave-keeps q k new e;
      };
      level = l;
      done = rw level?-leave (ground arith);
    }

  -- A visit that succeeds records levels that rise along dependencies, and changes no older one.
  pub dfs_visit_sound : (fuel : ℕ) → VisitsWell (dfs_visit packages fuel)
  unfolding dfs_visit
  dfs_visit_sound zero p w w' inv off new h = absurd (cc)
  dfs_visit_sound (suc fuel) p w w' inv off new h =
      let (r, looped, left) =
        bind-eq-ok
          (visit_dependencies packages (dfs_visit packages fuel) p.dependencies 0 (enter p w))
          (λ r. ok (leave p r)) h in
      let raised =
        visit_dependencies-IsRaised (dfs_visit packages fuel) (dfs_visit_sound fuel) p.dependencies
          0 (enter p w) (enter-IsLevelled p w inv new) looped in
      let same : leave p r ≡ w' = cc in
      subst (λ x. IsVisited w x p) same (leave-IsVisited p w r.1 r.0 off raised new)
