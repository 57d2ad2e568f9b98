-- ===== src/Dpkg/Owner.antt =====
-- Which package a path belongs to.
use r4r.Base.{
  Str, List, [], ◌∷◌, Option, none, some, Bool, true, false, is_empty, contains, if◌then◌else◌,
  ◌==◌, ==→≡, ==_refl, list_eq, nat_eq,
}
use r4r.Base.{◌≡◌, refl, sym, ap, ◌∙◌, inl, inr, subst, Bool-cases, arith}
use r4r.Base.Dict.{Dict}
use r4r.Path.{FilePath, parse_path}
use r4r.Trie.{FileSystemTrie, find}
use r4r.Trie.Find.{canonical}
use r4r.Trie.Refine.{History, build, latest, find-build}
use r4r.Dpkg.{
  DebPackage, process_package_list_file, add_packages, parse_dpkg_list_output, from_path,
  lookup_by_path,
}
use r4r.Dpkg.Installed.{IsEntry, Installed, parse_dpkg_list_output-Installed}

-- The output lists the package as installed, and the package's list names the path, empty components
-- aside.
pub record Owns (list_file : Str → Option (List Str)) (dpkg_output : List Str) (path : FilePath)
    (pkg : DebPackage) : Type 0 where
  pub key : Str
  pub lines : List Str
  pub line : Str
  pub listed : list_file key ≡ some lines
  pub stands : contains lines line ≡ true
  pub same : canonical (parse_path line) ≡ canonical path
  pub installed : Installed dpkg_output key pkg

-- The insertions that the lists make, the latest first.
abbrev file_history : List Str → DebPackage → History DebPackage → History DebPackage
file_history [] pkg h = h
file_history (line ∷ lines) pkg h =
    file_history lines pkg (if is_empty line then h else (parse_path line, pkg) ∷ h)

file_history-build :
    (lines : List Str) (pkg : DebPackage) (h : History DebPackage)
    → process_package_list_file lines pkg (build h) ≡ build (file_history lines pkg h)
unfolding process_package_list_file
file_history-build [] pkg h = refl
file_history-build (line ∷ lines) pkg h = elim (Bool-cases (is_empty line)) [
  | inl empty ↦ rw (process_package_list_file, empty) (file_history-build lines pkg h)
  | inr filled ↦
      rw (process_package_list_file, filled)
        (file_history-build lines pkg ((parse_path line, pkg) ∷ h))
]

-- All that a history finds satisfies `P`.
abbrev Finds : (FilePath → DebPackage → Type 0) → History DebPackage → Type 0
Finds P h = (q : FilePath) (pkg : DebPackage) → latest q h ≡ some pkg → P q pkg

-- The lines of the package's list give `P`.
abbrev Gives : (FilePath → DebPackage → Type 0) → List Str → DebPackage → Type 0
Gives P lines pkg =
    (line : Str) (q : FilePath)
    → contains lines line ≡ true
    → canonical (parse_path line) ≡ canonical q
    → P q pkg

Finds-cons :
    (P : FilePath → DebPackage → Type 0) (p : FilePath) (pkg : DebPackage) (h : History DebPackage)
    → ((q : FilePath) → canonical p ≡ canonical q → P q pkg)
    → Finds P h
    → Finds P ((p, pkg) ∷ h)
Finds-cons P p pkg h gives finds q x found = elim (Bool-cases (canonical p == canonical q)) [
  | inl same ↦
      let new : some pkg ≡ some x = sym (rw same refl) ∙ found in
      let e : pkg ≡ x = cc in subst (P q) e (gives q (==→≡ (canonical p) (canonical q) same))
  | inr other ↦ let old : latest q h ≡ some x = sym (rw other refl) ∙ found in finds q x old
]

Finds-file_history :
    (P : FilePath → DebPackage → Type 0) (lines : List Str) (pkg : DebPackage)
    (h : History DebPackage)
    → Gives P lines pkg
    → Finds P h
    → Finds P (file_history lines pkg h)
Finds-file_history P [] pkg h gives finds = finds
Finds-file_history P (line ∷ lines) pkg h gives finds =
    Finds-file_history P lines pkg (if is_empty line then h else (parse_path line, pkg) ∷ h)
      (λ l q stands same. gives l q (ground arith) same) (from (is_empty line))
  where
    from : (b : Bool) → Finds P (if b then h else (parse_path line, pkg) ∷ h)
    from true = finds
    from false =
        Finds-cons P (parse_path line) pkg h (λ q same. gives line q (rw (==_refl line) refl) same)
          finds

abbrev package_history :
    (Str → Option (List Str)) → Dict Str DebPackage → History DebPackage → History DebPackage
package_history list_file [] h = h
package_history list_file ((key, pkg) ∷ packages) h =
    package_history list_file packages
      (elim (list_file key) [ none ↦ h | some lines ↦ file_history lines pkg h ])

package_history-build :
    (list_file : Str → Option (List Str)) (packages : Dict Str DebPackage) (h : History DebPackage)
    → add_packages list_file packages (build h) ≡ build (package_history list_file packages h)
unfolding add_packages
package_history-build list_file [] h = refl
package_history-build list_file ((key, pkg) ∷ packages) h =
    ap (add_packages list_file packages) (from (list_file key))
    ∙ package_history-build list_file packages
        (elim (list_file key) [ none ↦ h | some lines ↦ file_history lines pkg h ])
  where
    from :
        (o : Option (List Str))
        → (elim o as (λ _. FileSystemTrie DebPackage) [
          | none ↦ build h
          | some lines ↦ process_package_list_file lines pkg (build h)
        ])
          ≡ build (elim o as (λ _. History DebPackage) [
            | none ↦ h
            | some lines ↦ file_history lines pkg h
          ])
    from none = refl
    from (some lines) = file_history-build lines pkg h

Finds-package_history :
    (P : FilePath → DebPackage → Type 0) (list_file : Str → Option (List Str))
    (packages : Dict Str DebPackage) (h : History DebPackage)
    → ((key : Str) (pkg : DebPackage) (lines : List Str)
        → IsEntry key pkg packages
        → list_file key ≡ some lines
        → Gives P lines pkg)
    → Finds P h
    → Finds P (package_history list_file packages h)
Finds-package_history P list_file [] h gives finds = finds
Finds-package_history P list_file ((key, pkg) ∷ packages) h gives finds =
    Finds-package_history P list_file packages _ (λ k p lines at. gives k p lines (inr at))
      (from (list_file key) refl)
  where
    from :
        (o : Option (List Str))
        → list_file key ≡ o
        → Finds P (elim o as (λ _. History DebPackage) [
          | none ↦ h
          | some lines ↦ file_history lines pkg h
        ])
    from none listed = finds
    from (some lines) listed =
        Finds-file_history P lines pkg h (gives key pkg lines (inl (refl, refl)) listed) finds

-- The package that `lookup_by_path` gives is installed, as a line of dpkg's output behind its header
-- says: the words of that line begin with the status ii, the package's name and its version. And the
-- list of files of that name names the path, empty components aside.
pub lookup_by_path-Owns :
    (list_file : Str → Option (List Str)) (dpkg_output : List Str) (path : FilePath)
    (pkg : DebPackage)
    → lookup_by_path path (from_path list_file dpkg_output) ≡ some pkg
    → Owns list_file dpkg_output path pkg
unfolding lookup_by_path from_path
lookup_by_path-Owns list_file dpkg_output path pkg found =
    let packages = parse_dpkg_list_output dpkg_output in
    let by_history : latest path (package_history list_file packages []) ≡ some pkg =
      sym (
        ap (find path) (package_history-build list_file packages [])
        ∙ find-build (package_history list_file packages []) path)
      ∙ found in
    Finds-package_history (Owns list_file dpkg_output) list_file packages []
      (λ key p lines at listed line q stands same. record {
        key = key;
        lines = lines;
        line = line;
        listed = listed;
        stands = stands;
        same = same;
        installed = parse_dpkg_list_output-Installed key p dpkg_output at;
      })
      (λ q p none_. absurd (cc)) path pkg by_history
