-- ===== src/Resolvers/RFiles.antt =====
-- The files that the resolver of R packages takes belong to packages of the manifest.
use r4r.Base.{
  ℕ, List, [], ◌∷◌, Option, none, some, Bool, true, false, contains, All, All-map, Result, ok,
  bind-eq-ok, ok-injective, ==_refl, list_eq, nat_eq,
}
use r4r.Base.{◌≡◌, ◌⊎◌, inl, inr, refl, ◌∙◌, subst, arith}
use r4r.Base.Dict.{Dict}
use r4r.Path.{FilePath}
use r4r.System.{System}
use r4r.Symlinks.{resolve_symlinks}
use r4r.Rpkg.{RPackage, package_eq}
use r4r.Rpkg.Load
use r4r.Rpkg.Load.{RpkgDatabase}
use r4r.FileTracer.{FileInfo}
use r4r.Resolvers.{deb_eq, add_new, erase_if, Traced, r_package, r_resolved, r_resolve}
use r4r.Resolvers.Erase.{erase_if-accounts}
use r4r.Resolvers.DebFiles.{contains-add_new, contains-merge}

-- A file of an R package: some name of the path lies in its folder.
pub record OfR (sys : System) (links : Dict FilePath FilePath) (fuel : ℕ) (db : RpkgDatabase)
    (path : FilePath) (pkg : RPackage) : Type 0 where
  pub names : List FilePath
  pub name : FilePath
  pub resolved : resolve_symlinks fuel sys links path ≡ ok names
  pub stands : contains names name ≡ true
  pub owned : Load.lookup_by_path name db ≡ some pkg

module _ (fuel : ℕ) (sys : System) (links : Dict FilePath FilePath) (db : RpkgDatabase) where
  r_package-owned :
      (names : List FilePath) {pkg : RPackage}
      → r_package sys links fuel db names ≡ some pkg
      → (name : FilePath) × (contains names name ≡ true) × (Load.lookup_by_path name db ≡ some pkg)
  unfolding r_package
  r_package-owned [] found = absurd (cc)
  r_package-owned (p ∷ names) {pkg = pkg} found =
      from (Load.lookup_by_path p db) refl found (λ e. r_package-owned names {pkg = pkg} e)
    where
      Found : List FilePath → Type 0
      Found names =
          (name : FilePath) × (contains names name ≡ true)
          × (Load.lookup_by_path name db ≡ some pkg)

      from :
          (o : Option RPackage)
          → Load.lookup_by_path p db ≡ o
          → (elim o as (λ _. Option RPackage) [
            | none ↦ r_package sys links fuel db names
            | some x ↦ some x
          ])
            ≡ some pkg
          → (r_package sys links fuel db names ≡ some pkg → Found names)
          → Found (p ∷ names)
      from none e found ih = let (name, stands, owned) = ih found in (name, ground arith, owned)
      from (some x) e found ih = (p, rw (==_refl p) refl, e ∙ found)

  abbrev pub RDone : FilePath → List RPackage → Type 0
  RDone path packages =
      (pkg : RPackage) × OfR sys links fuel db path pkg × (contains packages pkg ≡ true)

  r_resolved-cases :
      (f : FileInfo) (s : List RPackage) (b : Bool) (s' : List RPackage)
      → r_resolved sys links fuel db f s ≡ ok (b, s')
      → ((b ≡ false) × (s ≡ s'))
        ⊎ ((pkg : RPackage) × OfR sys links fuel db f.path pkg × (add_new pkg s ≡ s'))
  unfolding r_resolved
  r_resolved-cases f s b s' done =
      let (names, resolved, rest) = bind-eq-ok (resolve_symlinks fuel sys links f.path) _ done in
      from (r_package sys links fuel db names) names refl resolved rest
    where
      from :
          (found : Option RPackage) (names : List FilePath)
          → r_package sys links fuel db names ≡ found
          → resolve_symlinks fuel sys links f.path ≡ ok names
          → (elim found as (λ _. Result (Bool × List RPackage)) [
            | none ↦ ok (false, s)
            | some pkg ↦ ok (true, add_new pkg s)
          ])
            ≡ ok (b, s')
          → ((b ≡ false) × (s ≡ s'))
            ⊎ ((pkg : RPackage) × OfR sys links fuel db f.path pkg × (add_new pkg s ≡ s'))
      from none names owner resolved rest = inl (cc, cc)
      from (some pkg) names owner resolved rest =
          let (name, stands, owned) = r_package-owned names owner in
          inr (
            pkg,
            record {
              names = names;
              name = name;
              resolved = resolved;
              stands = stands;
              owned = owned;
            },
            cc,
          )

  r_resolved-taken :
      (f : FileInfo) (s s' : List RPackage)
      → r_resolved sys links fuel db f s ≡ ok (true, s')
      → RDone f.path s'
  r_resolved-taken f s s' done = elim (r_resolved-cases f s true s' done) [
    | inl (wrong, same) ↦ absurd (cc)
    | inr (pkg, of, same) ↦ (
      pkg,
      of,
      subst (λ x. contains x pkg ≡ true) same
          (let e = contains-add_new pkg s pkg in let r = ==_refl pkg in ground (arith, e, r)),
    )
  ]

  r_resolved-grows :
      (f : FileInfo) (s : List RPackage) (b : Bool) (s' : List RPackage) (x : RPackage)
      → r_resolved sys links fuel db f s ≡ ok (b, s')
      → contains s x ≡ true
      → contains s' x ≡ true
  r_resolved-grows f s b s' x done there = elim (r_resolved-cases f s b s' done) [
    | inl (wrong, same) ↦ subst (λ y. contains y x ≡ true) same there
    | inr (pkg, of, same) ↦
        subst (λ y. contains y x ≡ true) same
          (let e = contains-add_new pkg s x in ground (arith, e))
  ]

  -- After the resolver of R packages, a file belongs to a package of the manifest or stays; the Debian packages
  -- are as before.
  pub r_resolve-accounts :
      (t : Traced) {t' : Traced} (P : FileInfo → Type 0)
      → r_resolve sys links fuel db t ≡ ok t'
      → (t'.manifest.deb_packages ≡ t.manifest.deb_packages)
        × (All P t'.files → All (λ f. RDone f.path t'.manifest.r_packages ⊎ P f) t.files)
  unfolding r_resolve
  r_resolve-accounts t {t' = t'} P done =
      let (r, first, last) =
        bind-eq-ok (erase_if (r_resolved sys links fuel db) t.files []) _ done in
      subst
        (λ u.
          (u.manifest.deb_packages ≡ t.manifest.deb_packages)
          × (All P u.files → All (λ f. RDone f.path u.manifest.r_packages ⊎ P f) t.files))
        (ok-injective last)
        (
          refl,
          λ stays.
              All-map _ _ t.files
                (λ f owned. elim owned [
                  | inr p ↦ inr p
                  | inl (pkg, of, there) ↦ inl (
                    pkg,
                    of,
                    (let e = contains-merge r.1 t.manifest.r_packages pkg in ground (arith, e)),
                  )
                ])
                (erase_if-accounts (r_resolved sys links fuel db)
                  (λ f packages. RDone f.path packages) P (λ f s s' e. r_resolved-taken f s s' e)
                  (λ x f s b s' e d. (d.0, d.1, r_resolved-grows f s b s' d.0 e d.2)) t.files []
                  first stays),
        )
