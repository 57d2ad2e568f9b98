-- ===== src/Resolvers/DebFiles.antt =====
-- The files that the resolver of Debian packages takes belong to packages of the manifest.
use r4r.Base.{
  ℕ, List, [], ◌∷◌, ◌++◌, Option, none, some, Bool, true, false, ◌||◌, contains, All, All-map, Eq,
  Result, ok, ◌>>=◌, bind-eq-ok, ok-injective, if◌then◌else◌, ◌==◌, ==_refl, list_eq, nat_eq,
  Bool-cases,
}
use r4r.Base.{◌≡◌, ◌⊎◌, inl, inr, refl, sym, ap, ◌∙◌, subst, arith}
use r4r.Base.Dict.{Dict}
use r4r.Path.{FilePath}
use r4r.System.{System, is_regular_file}
use r4r.Symlinks.{resolve_symlinks}
use r4r.Dpkg
use r4r.Dpkg.{DebPackage, DpkgDatabase}
use r4r.Rpkg.{package_eq}
use r4r.FileTracer.{FileInfo}
use r4r.Resolvers.{
  deb_eq, add_new, merge, erase_if, Traced, is_passed_over, deb_package, deb_resolved, deb_resolve,
}
use r4r.Resolvers.Erase.{erase_if-Keeps, erase_if-accounts}

module _ {ℓ} {A : Type ℓ} ⦃e : Eq A⦄ where
  contains-append :
      (xs ys : List A) (a : A) → contains (xs ++ ys) a ≡ (contains xs a || contains ys a)
  contains-append [] ys a = refl
  contains-append (x ∷ xs) ys a = ground (arith, contains-append xs ys a)

  pub contains-add_new :
      (b : A) (xs : List A) (a : A) → contains (add_new b xs) a ≡ (contains xs a || b == a)
  contains-add_new b xs a = ground (arith, contains-append xs (b ∷ []) a)

  pub contains-merge :
      (more xs : List A) (a : A) → contains (merge more xs) a ≡ (contains xs a || contains more a)
  contains-merge [] xs a = ground arith
  contains-merge (b ∷ more) xs a =
      ground (arith, contains-merge more (add_new b xs) a, contains-add_new b xs a)

-- A file of a Debian package: some name of the path belongs to one that is not passed over.
pub record OfDeb (sys : System) (links : Dict FilePath FilePath) (fuel : ℕ) (db : DpkgDatabase)
    (path : FilePath) (pkg : DebPackage) : Type 0 where
  pub names : List FilePath
  pub name : FilePath
  pub resolved : resolve_symlinks fuel sys links path ≡ ok names
  pub stands : contains names name ≡ true
  pub owned : Dpkg.lookup_by_path name db ≡ some pkg
  pub wanted : is_passed_over pkg ≡ false

module _ (fuel : ℕ) (sys : System) (links : Dict FilePath FilePath) where
  module _ (db : DpkgDatabase) where
    deb_package-owned :
        (names : List FilePath) {pkg : DebPackage}
        → deb_package sys links fuel db names ≡ ok (some pkg)
        → (name : FilePath) × (contains names name ≡ true)
          × (Dpkg.lookup_by_path name db ≡ some pkg)
          × (is_passed_over pkg ≡ false)
    unfolding deb_package
    deb_package-owned [] found = absurd (cc)
    deb_package-owned (p ∷ names) {pkg = pkg} found =
        let (regular, asked, rest) = bind-eq-ok (is_regular_file sys p) _ found in
        from (Dpkg.lookup_by_path p db) refl rest (λ e. deb_package-owned names {pkg = pkg} e)
      where
        Found : List FilePath → Type 0
        Found names =
            (name : FilePath) × (contains names name ≡ true)
            × (Dpkg.lookup_by_path name db ≡ some pkg)
            × (is_passed_over pkg ≡ false)

        later : Found names → Found (p ∷ names)
        later (name, stands, owned, wanted) = (name, ground arith, owned, wanted)

        from :
            (o : Option DebPackage)
            → Dpkg.lookup_by_path p db ≡ o
            → (elim o as (λ _. Result (Option DebPackage)) [
              | none ↦ deb_package sys links fuel db names
              | some x ↦
                  if is_passed_over x then deb_package sys links fuel db names else ok (some x)
            ])
              ≡ ok (some pkg)
            → (deb_package sys links fuel db names ≡ ok (some pkg) → Found names)
            → Found (p ∷ names)
        from none e found ih = later (ih found)
        from (some x) e found ih = elim (Bool-cases (is_passed_over x)) [
          | inl over ↦ later (ih (sym (rw over refl) ∙ found))
          | inr wanted ↦
              let same : x ≡ pkg =
                let s : ok (some x) ≡ ok (some pkg) = sym (rw wanted refl) ∙ found in cc in
              (
                p,
                rw (==_refl p) refl,
                e ∙ ap some same,
                subst (λ y. is_passed_over y ≡ false) same wanted,
              )
        ]

    abbrev pub DebDone : FilePath → List DebPackage → Type 0
    DebDone path packages =
        (pkg : DebPackage) × OfDeb sys links fuel db path pkg × (contains packages pkg ≡ true)

    deb_resolved-cases :
        (path : FilePath) (s : List DebPackage) (b : Bool) (s' : List DebPackage)
        → deb_resolved sys links fuel db path s ≡ ok (b, s')
        → ((b ≡ false) × (s ≡ s'))
          ⊎ ((pkg : DebPackage) × OfDeb sys links fuel db path pkg × (add_new pkg s ≡ s'))
    unfolding deb_resolved
    deb_resolved-cases path s b s' done =
        let (found, both, rest) =
          bind-eq-ok (resolve_symlinks fuel sys links path >>= deb_package sys links fuel db) _
            done in
        let (names, resolved, owner) =
          bind-eq-ok (resolve_symlinks fuel sys links path) (deb_package sys links fuel db) both in
        from found names resolved owner rest
      where
        from :
            (found : Option DebPackage) (names : List FilePath)
            → resolve_symlinks fuel sys links path ≡ ok names
            → deb_package sys links fuel db names ≡ ok found
            → (elim found as (λ _. Result (Bool × List DebPackage)) [
              | none ↦ ok (false, s)
              | some pkg ↦ ok (true, add_new pkg s)
            ])
              ≡ ok (b, s')
            → ((b ≡ false) × (s ≡ s'))
              ⊎ ((pkg : DebPackage) × OfDeb sys links fuel db path pkg × (add_new pkg s ≡ s'))
        from none names resolved owner rest = inl (cc, cc)
        from (some pkg) names resolved owner rest =
            let (name, stands, owned, wanted) = deb_package-owned names owner in
            inr (
              pkg,
              record {
                names = names;
                name = name;
                resolved = resolved;
                stands = stands;
                owned = owned;
                wanted = wanted;
              },
              cc,
            )

    deb_resolved-taken :
        (path : FilePath) (s s' : List DebPackage)
        → deb_resolved sys links fuel db path s ≡ ok (true, s')
        → DebDone path s'
    deb_resolved-taken path s s' done = elim (deb_resolved-cases path s true s' done) [
      | inl (wrong, same) ↦ absurd (cc)
      | inr (pkg, of, same) ↦ (
        pkg,
        of,
        subst (λ x. contains x pkg ≡ true) same
            (let e = contains-add_new pkg s pkg in let r = ==_refl pkg in ground (arith, e, r)),
      )
    ]

    deb_resolved-grows :
        (path : FilePath) (s : List DebPackage) (b : Bool) (s' : List DebPackage) (x : DebPackage)
        → deb_resolved sys links fuel db path s ≡ ok (b, s')
        → contains s x ≡ true
        → contains s' x ≡ true
    deb_resolved-grows path s b s' x done there = elim (deb_resolved-cases path s b s' done) [
      | inl (wrong, same) ↦ subst (λ y. contains y x ≡ true) same there
      | inr (pkg, of, same) ↦
          subst (λ y. contains y x ≡ true) same
            (let e = contains-add_new pkg s x in ground (arith, e))
    ]

    -- After the resolver of Debian packages, a file belongs to a package of the manifest or stays.
    pub deb_resolve-accounts :
        (t : Traced) {t' : Traced} (P : FileInfo → Type 0)
        → deb_resolve sys links fuel db t ≡ ok t'
        → All P t'.files
        → All (λ f. DebDone f.path t'.manifest.deb_packages ⊎ P f) t.files
    unfolding deb_resolve
    deb_resolve-accounts t {t' = t'} P done stays =
        let (r, first, rest) =
          bind-eq-ok (erase_if (λ info. deb_resolved sys links fuel db info.path) t.files []) _
            done in
        let (q, second, last) =
          bind-eq-ok (erase_if (λ entry. deb_resolved sys links fuel db entry.0) t.symlinks r.1) _
            rest in
        subst (λ u. All P u.files → All (λ f. DebDone f.path u.manifest.deb_packages ⊎ P f) t.files)
          (ok-injective last)
          (λ stays'.
            All-map _ _ t.files
              (λ f owned. elim owned [
                | inr p ↦ inr p
                | inl (pkg, of, there) ↦
                    let kept =
                      erase_if-Keeps (λ entry. deb_resolved sys links fuel db entry.0)
                        (λ s. contains s pkg ≡ true)
                        (λ a s b s' e. deb_resolved-grows a.0 s b s' pkg e) t.symlinks r.1 second
                        there in
                    inl (
                      pkg,
                      of,
                      (let e = contains-merge q.1 t.manifest.deb_packages pkg in
                          ground (arith, e, kept)),
                    )
              ])
              (erase_if-accounts (λ info. deb_resolved sys links fuel db info.path)
                (λ f packages. DebDone f.path packages) P
                (λ f s s' e. deb_resolved-taken f.path s s' e)
                (λ x f s b s' e d. (d.0, d.1, deb_resolved-grows f.path s b s' d.0 e d.2)) t.files
                [] first stays'))
          stays
