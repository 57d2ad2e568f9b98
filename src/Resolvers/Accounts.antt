-- ===== src/Resolvers/Accounts.antt =====
-- `ResolveFileTask::run`: the resolvers in turn account for every traced file.
use r4r.Base.{ℕ, [], All, All-map, ◌>>=◌, bind-eq-ok, ok, ◌≡◌, ◌⊎◌, inl, inr, sym, ◌∙◌, subst}
use r4r.Base.Dict.{Dict}
use r4r.Path.{FilePath}
use r4r.System.{System}
use r4r.Dpkg.{DpkgDatabase}
use r4r.Rpkg.Load.{RpkgDatabase}
use r4r.Resolvers.{Traced, deb_resolve, r_resolve, copy_resolve, resolve_files}
use r4r.Resolvers.DebFiles.{DebDone, deb_resolve-accounts}
use r4r.Resolvers.RFiles.{RDone, r_resolve-accounts}
use r4r.Resolvers.CopyFiles.{Listed, copy_resolve-Copied}

-- When `resolve_files` returns, with any answers of the system to each resolver, no file is left to resolve. Every
-- traced file has a name that a package in the manifest owns, a Debian package that is not passed over or an R
-- package, or it has a status among the files to copy.
pub resolve_files-accounts :
    (fuel : ℕ) (sys0 : System) (links0 : Dict FilePath FilePath) (sys1 : System)
    (links1 : Dict FilePath FilePath) (sys2 : System) (dpkg_db : DpkgDatabase)
    (rpkg_db : RpkgDatabase) (t : Traced) {t' : Traced}
    → resolve_files fuel sys0 links0 sys1 links1 sys2 dpkg_db rpkg_db t ≡ ok t'
    → (t'.files ≡ [])
      × All
          (λ f.
            DebDone fuel sys0 links0 dpkg_db f.path t'.manifest.deb_packages
            ⊎ (RDone fuel sys1 links1 rpkg_db f.path t'.manifest.r_packages
                ⊎ Listed f.path t'.manifest.copy_files))
          t.files
unfolding resolve_files
resolve_files-accounts fuel sys0 links0 sys1 links1 sys2 dpkg_db rpkg_db t {t' = t'} done =
    let (t2, both, third) =
      bind-eq-ok (deb_resolve sys0 links0 fuel dpkg_db t >>= r_resolve sys1 links1 fuel rpkg_db)
        (copy_resolve sys2) done in
    let (t1, first, second) =
      bind-eq-ok (deb_resolve sys0 links0 fuel dpkg_db t) (r_resolve sys1 links1 fuel rpkg_db)
        both in
    let copied = copy_resolve-Copied sys2 t2 {t' = t'} third in
    let (same_deb, in_r) =
      r_resolve-accounts fuel sys1 links1 rpkg_db t1 {t' = t2}
        (λ f. Listed f.path t'.manifest.copy_files) second in
    let after_deb =
      deb_resolve-accounts fuel sys0 links0 dpkg_db t {t' = t1}
        (λ f.
          RDone fuel sys1 links1 rpkg_db f.path t2.manifest.r_packages
          ⊎ Listed f.path t'.manifest.copy_files)
        first (in_r copied.listed) in
    (
      copied.none_left,
      All-map _ _ t.files
          (λ f where_. elim where_ [
            | inl deb ↦ inl (
                subst (DebDone fuel sys0 links0 dpkg_db f.path)
                  (sym same_deb ∙ sym copied.same_deb_packages) deb)
            | inr (inl r) ↦
                inr (
                  inl
                    (subst (RDone fuel sys1 links1 rpkg_db f.path) (sym copied.same_r_packages) r))
            | inr (inr listed) ↦ inr (inr listed)
          ])
          after_deb,
    )
