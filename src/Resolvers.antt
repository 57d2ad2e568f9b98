-- ===== src/Resolvers.antt =====
-- src/resolvers.h: the resolvers, which find out where each traced file comes from, and the task of
-- src/tracer.h that runs them in turn. The map of the links of the root directory, the answers of the system and
-- the databases are parameters.
pub mod Erase
pub mod DebFiles
pub mod RFiles
pub mod CopyFiles
pub mod Accounts
pub mod CopyTotal
pub mod Total
pub mod Tests
use r4r.Base.{
  ℕ, Str, lit, List, [], ◌∷◌, ◌++◌, Option, none, some, Bool, true, false, not, ◌&&◌, ◌||◌,
  contains, filter, Eq, Result, ok, throw, fatal, out_of_fuel, ◌>>=◌, if◌then◌else◌, ◌==◌, list_eq,
  nat_eq, ℕ_discrete,
}
use r4r.Base.Dict
use r4r.Base.Dict.{Dict}
use r4r.Path.{FilePath}
use r4r.Util.{find_delim}
use r4r.System.{
  System, exists, is_regular_file, is_symlink_or_throw, resolve_symlink, check_accessibility,
  AccessStatus, accessible, does_not_exist, insufficient_permission, FileType, none_, is_symlink,
}
use r4r.Symlinks.{resolve_symlinks}
use r4r.Dpkg.{DebPackage, DpkgDatabase}
use r4r.Dpkg
use r4r.Rpkg.{RPackage, package_eq}
use r4r.Rpkg.Load.{RpkgDatabase}
use r4r.Rpkg.Load
use r4r.FileTracer.{FileInfo}
use r4r.Manifest.{
  FileStatus, copy, result, ignore_did_not_exist_before, ignore_no_longer_exist,
  ignore_not_accessible, ignore_directory, Manifest,
}

DebPackage-discrete : Discrete DebPackage
unfolding ℕ_discrete
DebPackage-discrete = hlevel ℕ_discrete

instance unfoldable pub deb_eq : Eq DebPackage
unfolding DebPackage-discrete
deb_eq = record { dec = DebPackage-discrete }

-- `std::unordered_set::insert`
abbrev pub add_new {ℓ} : {A : Type ℓ} ⦃e : Eq A⦄ → A → List A → List A
add_new a xs = if contains xs a then xs else xs ++ a ∷ []

-- `std::unordered_set::merge`
abbrev pub merge {ℓ} : {A : Type ℓ} ⦃e : Eq A⦄ → List A → List A → List A
merge [] xs = xs
merge (a ∷ more) xs = merge more (add_new a xs)

-- `std::erase_if` with a test that changes a state: the elements that stay, and the last state.
unfoldable pub erase_if {ℓ κ} :
    {A : Type ℓ} {S : Type κ} → (A → S → Result (Bool × S)) → List A → S → Result (List A × S)
erase_if test [] s = ok ([], s)
erase_if test (a ∷ more) s =
    test a s >>= λ r. erase_if test more r.1 >>= λ q. ok (if r.0 then q.0 else a ∷ q.0, q.1)

-- What a resolver changes.
pub record Traced : Type 0 where
  pub files : List FileInfo
  pub symlinks : Dict FilePath FilePath
  pub manifest : Manifest

abbrev pub occurs : Str → Str → Bool
occurs part s = elim (find_delim part s) [ none ↦ false | some r ↦ true ]

-- The packages that the resolver passes over.
abbrev pub is_passed_over : DebPackage → Bool
is_passed_over pkg = occurs (lit "rstudio") pkg.name || occurs (lit "bslib") pkg.name

module _ (sys : System) (links : Dict FilePath FilePath) (fuel : ℕ) where
  module _ (db : DpkgDatabase) where
    -- The loop of `resolved`, over the names of the path.
    unfoldable pub deb_package : List FilePath → Result (Option DebPackage)
    deb_package [] = ok none
    deb_package (p ∷ names) =
        let later = deb_package names in
        is_regular_file sys p >>= λ regular. elim (Dpkg.lookup_by_path p db) [
          | none ↦ later
          | some pkg ↦ if is_passed_over pkg then later else ok (some pkg)
        ]

    unfoldable pub deb_resolved : FilePath → List DebPackage → Result (Bool × List DebPackage)
    deb_resolved path packages = resolve_symlinks fuel sys links path >>= deb_package >>= λ found.
        elim found [ none ↦ ok (false, packages) | some pkg ↦ ok (true, add_new pkg packages) ]

    unfoldable pub deb_resolve : Traced → Result Traced
    deb_resolve t = erase_if (λ info. deb_resolved info.path) t.files [] >>= λ r.
        erase_if (λ entry. deb_resolved entry.0) t.symlinks r.1 >>= λ q. ok (record {
          files = r.0;
          symlinks = q.0;
          manifest = record t.manifest { deb_packages = merge q.1 t.manifest.deb_packages };
        })

  module _ (db : RpkgDatabase) where
    unfoldable pub r_package : List FilePath → Option RPackage
    r_package [] = none
    r_package (p ∷ names) = elim (Load.lookup_by_path p db) [
      | none ↦ r_package names
      | some pkg ↦ some pkg
    ]

    unfoldable pub r_resolved : FileInfo → List RPackage → Result (Bool × List RPackage)
    r_resolved info packages = resolve_symlinks fuel sys links info.path >>= λ names.
        elim (r_package names) [
          | none ↦ ok (false, packages)
          | some pkg ↦ ok (true, add_new pkg packages)
        ]

    unfoldable pub r_resolve : Traced → Result Traced
    r_resolve t = erase_if r_resolved t.files [] >>= λ r. ok (record {
      files = r.0;
      symlinks = t.symlinks;
      manifest = record t.manifest { r_packages = merge r.1 t.manifest.r_packages };
    })

-- The first loop of `CopyFileResolver`: the files that are marked as results.
unfoldable pub result_files : Dict FilePath FileStatus → List FilePath
result_files [] = []
result_files ((f, result) ∷ copy_files) = f ∷ result_files copy_files
result_files ((f, other) ∷ copy_files) = result_files copy_files

module _ (sys : System) where
  -- Whether the file itself can be copied: a regular file, or a link to one.
  unfoldable pub should_consider : FilePath → Result Bool
  should_consider path = is_regular_file sys path >>= λ regular.
      is_symlink_or_throw sys path >>= λ link.
      (if link then resolve_symlink sys path else ok none) >>= λ target. elim target [
        | none ↦ ok regular
        | some t ↦ is_regular_file sys t
      ]

  unfoldable pub accessible_status : FileInfo → Result FileStatus
  accessible_status f = should_consider f.path >>= λ considered.
      ok (if considered then (if f.existed_before then copy else result) else ignore_directory)

  -- `catch (fs::filesystem_error const&)`
  abbrev pub or_not_accessible : Result FileStatus → Result FileStatus
  or_not_accessible (throw message) = ok ignore_not_accessible
  or_not_accessible other = other

  unfoldable pub copy_status : FileInfo → Result FileStatus
  copy_status f = elim (check_accessibility sys f.path) [
    | accessible ↦ or_not_accessible (accessible_status f)
    | does_not_exist ↦ ok ignore_no_longer_exist
    | insufficient_permission ↦ ok ignore_not_accessible
  ]

  unfoldable pub copy_file :
      List FilePath → FileInfo → Dict FilePath FileStatus → Result (Bool × Dict FilePath FileStatus)
  copy_file results f copy_files =
      if contains results f.path
      then ok (true, copy_files)
      else copy_status f >>= λ status. ok (true, Dict.try_emplace f.path status copy_files)

  abbrev pub is_true : Option Bool → Bool
  is_true none = false
  is_true (some b) = b

  abbrev pub is_link_now : FilePath → Bool
  is_link_now p = is_symlink (sys.symlink_status p)

  -- A traced link that is still a link to something that is there.
  unfoldable pub copy_link : FilePath × FilePath → List FilePath → Result (Bool × List FilePath)
  copy_link (link, target) symlinks =
      if is_link_now link && is_true (exists sys target)
      then ok (true, add_new link symlinks)
      else ok (false, symlinks)

  unfoldable pub copy_resolve : Traced → Result Traced
  copy_resolve t =
      erase_if (copy_file (result_files t.manifest.copy_files)) t.files t.manifest.copy_files
      >>= λ r. erase_if copy_link t.symlinks t.manifest.symlinks >>= λ q. ok (record {
        files = r.0;
        symlinks = q.0;
        manifest = record t.manifest { copy_files = r.1; symlinks = q.1 };
      })

-- `ResolveFileTask::run`, with the system and the links that each resolver finds.
unfoldable pub resolve_files :
    ℕ
    → System
    → Dict FilePath FilePath
    → System
    → Dict FilePath FilePath
    → System
    → DpkgDatabase
    → RpkgDatabase
    → Traced
    → Result Traced
resolve_files fuel sys0 links0 sys1 links1 sys2 dpkg_database rpkg_database t =
    deb_resolve sys0 links0 fuel dpkg_database t
    >>= r_resolve sys1 links1 fuel rpkg_database
    >>= copy_resolve sys2
