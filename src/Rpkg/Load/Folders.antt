-- ===== src/Rpkg/Load/Folders.antt =====
-- Which package a path belongs to: the one with the innermost folder.
use r4r.Base.{Str, List, [], ◌∷◌, some, true, contains, ◌==◌, ==→≡, ==_refl, list_eq, nat_eq}
use r4r.Base.{◌≡◌, refl, sym, ap, ◌∙◌, ◌⊎◌, inl, inr, subst, Bool-cases, arith}
use r4r.Base.Dict.{values}
use r4r.Path.{FilePath}
use r4r.Trie.{find_last_matching}
use r4r.Trie.Prefix.{is_prefix_refl, canonical_idem, is_prefix-canonical, prefix_of}
use r4r.Trie.Find.{canonical, is_prefix}
use r4r.Trie.Refine.{History, build, latest, is_known, find_last_matching-build}
use r4r.Rpkg.{RPackage, RPackages, package_eq}
use r4r.Rpkg.Load.{folder, insert_packages, build_files_db, from_stream, lookup_by_path}

-- No other folder of a package that holds the path lies deeper.
pub record IsInnermost (packages : RPackages) (path : FilePath) (pkg : RPackage) : Type 0 where
  pub stands : contains (values packages) pkg ≡ true
  pub inside : is_prefix (canonical (folder pkg)) (canonical path) ≡ true
  pub innermost :
      (q : RPackage)
      → contains (values packages) q ≡ true
      → is_prefix (canonical (folder q)) (canonical path) ≡ true
      → is_prefix (canonical (folder q)) (canonical (folder pkg)) ≡ true

-- The insertions, the latest first.
abbrev folder_history : RPackages → History RPackage → History RPackage
folder_history [] h = h
folder_history ((name, pkg) ∷ packages) h = folder_history packages ((folder pkg, pkg) ∷ h)

folder_history-build :
    (packages : RPackages) (h : History RPackage)
    → insert_packages packages (build h) ≡ build (folder_history packages h)
unfolding insert_packages
folder_history-build [] h = refl
folder_history-build ((name, pkg) ∷ packages) h =
    folder_history-build packages ((folder pkg, pkg) ∷ h)

-- What is found among the insertions was inserted there.
latest-Found :
    (P : FilePath → RPackage → Type 0) (q : FilePath) (packages : RPackages) (h : History RPackage)
    (pkg : RPackage)
    → ((x : RPackage) → latest q h ≡ some x → P q x)
    → ((x : RPackage)
        → contains (values packages) x ≡ true
        → canonical (folder x) ≡ canonical q
        → P q x)
    → latest q (folder_history packages h) ≡ some pkg
    → P q pkg
latest-Found P q [] h pkg before new found = before pkg found
latest-Found P q ((name, p) ∷ packages) h pkg before new found =
    latest-Found P q packages ((folder p, p) ∷ h) pkg
      (λ x e. elim (Bool-cases (canonical (folder p) == canonical q)) [
        | inl same ↦
            let here : some p ≡ some x = sym (rw same refl) ∙ e in
            let px : p ≡ x = cc in
            subst (P q) px
              (new p (rw (==_refl p) refl) (==→≡ (canonical (folder p)) (canonical q) same))
        | inr other ↦ before x (sym (rw other refl) ∙ e)
      ])
      (λ x stands. new x (ground arith)) found

is_known-history :
    (q : RPackage) (packages : RPackages) (h : History RPackage)
    → (contains (values packages) q ≡ true) ⊎ (is_known (canonical (folder q)) h ≡ true)
    → is_known (canonical (folder q)) (folder_history packages h) ≡ true
is_known-history q [] h (inl stands) = absurd (cc)
is_known-history q [] h (inr known) = known
is_known-history q ((name, p) ∷ packages) h stands =
    is_known-history q packages ((folder p, p) ∷ h) (elim stands [
      | inr known ↦ inr (ground arith)
      | inl stands ↦ elim (Bool-cases (p == q)) [
        | inl same ↦
            let e : q ≡ p = sym (==→≡ p q same) in
            let self : is_prefix (canonical (canonical (folder q))) (canonical (folder p)) ≡ true =
              subst
                (λ x. is_prefix (canonical (canonical (folder q))) (canonical (folder x)) ≡ true) e
                (subst (λ t. is_prefix t (canonical (folder q)) ≡ true)
                  (sym (canonical_idem (folder q))) (is_prefix_refl (canonical (folder q)))) in
            inr (rw self refl)
        | inr other ↦ inl (sym (rw other refl) ∙ stands)
      ]
    ])

-- A package that `lookup_by_path` gives for a path, in a database that was read, is a package of
-- the database whose folder holds the path, and every other package's folder that holds the path
-- holds this package's folder too; empty components aside.
pub lookup_by_path-IsInnermost :
    (input : List Str) (path : FilePath) (pkg : RPackage)
    → lookup_by_path path (from_stream input) ≡ some pkg
    → IsInnermost (from_stream input).packages path pkg
unfolding lookup_by_path from_stream build_files_db
lookup_by_path-IsInnermost input path pkg found =
    let packages = (from_stream input).packages in
    let (p, last, pre, known, longest) =
      find_last_matching-build (folder_history packages []) path in
    let by_history : latest p (folder_history packages []) ≡ some pkg =
      sym (ap (find_last_matching path) (folder_history-build packages []) ∙ last) ∙ found in
    let (stands, same) =
      latest-Found
        (λ q x. (contains (values packages) x ≡ true) × (canonical (folder x) ≡ canonical q)) p
        packages [] pkg (λ x e. absurd (cc)) (λ x stands e. (stands, e)) by_history in
    record {
      stands = stands;
      inside = subst (λ t. is_prefix t (canonical path) ≡ true) (sym same) (prefix_of path p pre);
      innermost = λ q stands_q inside_q.
          subst (λ t. is_prefix (canonical (folder q)) t ≡ true) (sym same)
            (subst (λ t. is_prefix t (canonical p) ≡ true) (canonical_idem (folder q))
              (is_prefix-canonical (canonical (folder q)) p (
                longest (canonical (folder q)) inside_q
                  (is_known-history q packages [] (inl stands_q)))));
    }
