-- ===== src/Resolvers/Total.antt =====
-- `ResolveFileTask::run` ends where the resolution of each traced path ends.
use r4r.Base.{
  ℕ, List, [], ◌∷◌, Option, none, some, Bool, true, contains, All, All-map, length, ◌+◌, ◌*◌, ◌≤◌,
  Result, ok, out_of_fuel, ◌>>=◌, bind-eq-ok, bind-ne-out_of_fuel, ok-injective, if◌then◌else◌,
  list_eq, nat_eq,
}
use r4r.Base.{◌≡◌, ◌≢◌, subst, arith}
use r4r.Base.Dict.{Dict}
use r4r.Path.{FilePath}
use r4r.System.{System, is_regular_file}
use r4r.Symlinks.{resolve_symlinks}
use r4r.Symlinks.Total.{ClosedNames, resolve_symlinks-total}
use r4r.Dpkg.{DebPackage, DpkgDatabase}
use r4r.Dpkg
use r4r.Rpkg.{RPackage}
use r4r.Rpkg.Load.{RpkgDatabase}
use r4r.FileTracer.{FileInfo}
use r4r.Resolvers.{
  erase_if, Traced, is_passed_over, deb_package, deb_resolved, deb_resolve, r_resolved, r_resolve,
  resolve_files,
}
use r4r.Resolvers.Erase.{erase_if-ends, erase_if-All}
use r4r.Resolvers.CopyTotal.{if_ends, is_regular_file_ends, copy_resolve_ends}

module _ (sys : System) (links : Dict FilePath FilePath) (fuel : ℕ) (universe : List FilePath)
    (closed : ClosedNames sys links universe) (enough : 3 * length universe + 2 ≤ fuel) where
  deb_package_ends :
      (db : DpkgDatabase) (names : List FilePath)
      → deb_package sys links fuel db names ≢ out_of_fuel
  unfolding deb_package
  deb_package_ends db [] = λ e. cc
  deb_package_ends db (p ∷ names) =
      let ih = deb_package_ends db names in
      bind-ne-out_of_fuel (is_regular_file sys p) _ (is_regular_file_ends sys p)
        (λ regular e. from (Dpkg.lookup_by_path p db) (deb_package sys links fuel db names) ih)
    where
      from :
          (o : Option DebPackage) (later : Result (Option DebPackage))
          → later ≢ out_of_fuel
          → (elim o as (λ _. Result (Option DebPackage)) [
            | none ↦ later
            | some x ↦ if is_passed_over x then later else ok (some x)
          ])
            ≢ out_of_fuel
      from none later ih = ih
      from (some x) later ih = if_ends (is_passed_over x) later (ok (some x)) ih (λ e. cc)

  deb_resolved_ends :
      (db : DpkgDatabase) (p : FilePath)
      → contains universe p ≡ true
      → (s : List DebPackage) → deb_resolved sys links fuel db p s ≢ out_of_fuel
  unfolding deb_resolved
  deb_resolved_ends db p there s =
      bind-ne-out_of_fuel (resolve_symlinks fuel sys links p >>= deb_package sys links fuel db) _
        (bind-ne-out_of_fuel (resolve_symlinks fuel sys links p) _
          (resolve_symlinks-total sys links universe closed p fuel there enough)
          (λ names e. deb_package_ends db names))
        (λ found e. ground arith)

  r_resolved_ends :
      (db : RpkgDatabase) (f : FileInfo)
      → contains universe f.path ≡ true
      → (s : List RPackage) → r_resolved sys links fuel db f s ≢ out_of_fuel
  unfolding r_resolved
  r_resolved_ends db f there s =
      bind-ne-out_of_fuel (resolve_symlinks fuel sys links f.path) _
        (resolve_symlinks-total sys links universe closed f.path fuel there enough)
        (λ found e. ground arith)

-- `resolve_files` does not run out of fuel when it is at least two more than three times the length of each of two
-- lists of names. Each list holds, with every name in it, the names that this one leads to for its resolver, the
-- first also the traced files and links, and the second the traced files.
pub resolve_files-total :
    (fuel : ℕ) (sys0 : System) (links0 : Dict FilePath FilePath) (sys1 : System)
    (links1 : Dict FilePath FilePath) (sys2 : System) (dpkg_db : DpkgDatabase)
    (rpkg_db : RpkgDatabase) (t : Traced) (names0 names1 : List FilePath)
    → ClosedNames sys0 links0 names0
    → ClosedNames sys1 links1 names1
    → 3 * length names0 + 2 ≤ fuel
    → 3 * length names1 + 2 ≤ fuel
    → All (λ f. contains names0 f.path ≡ true) t.files
    → All (λ (l : FilePath × FilePath). contains names0 l.0 ≡ true) t.symlinks
    → All (λ f. contains names1 f.path ≡ true) t.files
    → resolve_files fuel sys0 links0 sys1 links1 sys2 dpkg_db rpkg_db t ≢ out_of_fuel
unfolding resolve_files deb_resolve r_resolve
resolve_files-total fuel sys0 links0 sys1 links1 sys2 dpkg_db rpkg_db t names0 names1 closed0
      closed1 enough0 enough1 files0 symlinks0 files1 =
    bind-ne-out_of_fuel
      (deb_resolve sys0 links0 fuel dpkg_db t >>= r_resolve sys1 links1 fuel rpkg_db) _
      (bind-ne-out_of_fuel (deb_resolve sys0 links0 fuel dpkg_db t) _ deb_ends r_ends)
      (λ t2 e. copy_resolve_ends sys2 t2)
  where
    of_file : FileInfo → List DebPackage → Result (Bool × List DebPackage)
    of_file info = deb_resolved sys0 links0 fuel dpkg_db info.path

    of_link : FilePath × FilePath → List DebPackage → Result (Bool × List DebPackage)
    of_link entry = deb_resolved sys0 links0 fuel dpkg_db entry.0

    deb_ends : deb_resolve sys0 links0 fuel dpkg_db t ≢ out_of_fuel
    deb_ends =
        bind-ne-out_of_fuel (erase_if of_file t.files []) _
          (erase_if-ends of_file t.files [] (
            All-map _ _ t.files
              (λ f there.
                deb_resolved_ends sys0 links0 fuel names0 closed0 enough0 dpkg_db f.path there)
              files0))
          (λ r e.
            bind-ne-out_of_fuel (erase_if of_link t.symlinks r.1) _
              (erase_if-ends of_link t.symlinks r.1 (
                All-map _ _ t.symlinks
                  (λ l there.
                    deb_resolved_ends sys0 links0 fuel names0 closed0 enough0 dpkg_db l.0 there)
                  symlinks0))
              (λ q e'. λ x. cc))

    r_ends :
        (t1 : Traced)
        → deb_resolve sys0 links0 fuel dpkg_db t ≡ ok t1
        → r_resolve sys1 links1 fuel rpkg_db t1 ≢ out_of_fuel
    r_ends t1 e =
        let (r, first, rest) = bind-eq-ok (erase_if of_file t.files []) _ e in
        let (q, second, last) = bind-eq-ok (erase_if of_link t.symlinks r.1) _ rest in
        let kept : All (λ f. contains names1 f.path ≡ true) t1.files =
          subst (λ u. All (λ f. contains names1 f.path ≡ true) u.files) (ok-injective last)
            (erase_if-All of_file _ t.files [] first files1) in
        bind-ne-out_of_fuel (erase_if (r_resolved sys1 links1 fuel rpkg_db) t1.files []) _
          (erase_if-ends (r_resolved sys1 links1 fuel rpkg_db) t1.files [] (
            All-map _ _ t1.files
              (λ f there. r_resolved_ends sys1 links1 fuel names1 closed1 enough1 rpkg_db f there)
              kept))
          (λ r' e'. λ x. cc)
