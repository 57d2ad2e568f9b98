-- ===== src/Rpkg/Load.antt =====
-- src/rpkg_database.h: the database as it is built from the lines that R prints for the installed
-- packages, and the lookup of the package that a file belongs to. The order in which the map of the
-- packages is walked is the order of its entries here; a std::set is a list in rising order.
pub mod Consistent
pub mod Names
pub mod Folders
mod Tests
use r4r.Base.{
  ℕ, Str, lit, List, [], ◌∷◌, ◌++◌, Option, none, some, Bool, true, false, not, ◌&&◌, ◌||◌,
  is_empty, isspace, eqb, get_elem?, contains, filter, insert_sorted, str_lt, if◌then◌else◌, ◌==◌,
  list_eq, nat_eq,
}
use r4r.Base.Dict
use r4r.Base.Dict.{Dict}
use r4r.Path.{FilePath, parse_path, join}
use r4r.Trie.{FileSystemTrie, empty_trie, insert, find_last_matching}
use r4r.Util.{string_trim, string_split_n, string_iequals}
use r4r.Rpkg.{GitHub, Repository, github, cran, RPackage, RPackages}

abbrev pub na : Str
na = lit "NA"

-- The separator of the columns, U+00A0 in UTF-8.
abbrev pub nbsp : Str
nbsp = 194 ∷ 160 ∷ []

-- The first characters, up to a parenthesis or white space.
unfoldable pub name_prefix : Str → Str
name_prefix [] = []
name_prefix (x ∷ s) = if eqb x b'(' || isspace x then [] else x ∷ name_prefix s

-- std::set::insert
unfoldable pub set_insert : Str → List Str → List Str
set_insert name target = if contains target name then target else insert_sorted str_lt name target

-- `dep`: what is read since the last comma, as a dependency.
unfoldable pub add_dependency : Str → List Str → List Str
unfolding set_insert
add_dependency tmp target =
    let name = string_trim (name_prefix (string_trim tmp)) in
    if is_empty tmp || (is_empty name || name == lit "R") then target else set_insert name target

-- The loop over the field; `tmp` is what is read since the last comma.
unfoldable pub parse_dependencies : Str → Str → List Str → List Str
parse_dependencies tmp [] target = add_dependency tmp target
parse_dependencies tmp (c ∷ s) target =
    let next = parse_dependencies [] s (add_dependency tmp target) in
    let longer = parse_dependencies (tmp ++ c ∷ []) s target in if eqb c b',' then next else longer

unfoldable pub parse_dependency_field : Str → List Str → List Str
parse_dependency_field field target =
    if field == na then target else parse_dependencies [] field target

abbrev pub is_missing : Str → Bool
is_missing s = is_empty s || s == na

unfoldable pub parse_github_repo : Str → Str → Str → Option GitHub
parse_github_repo org name ref =
    if is_missing org || is_missing name
    then none
    else some (record { org = org; name = name; ref = if is_missing ref then lit "HEAD" else ref })

-- `tokens->at(i)`; there are twelve.
abbrev pub token : List Str → ℕ → Str
token tokens i = elim (get_elem? tokens i) [ none ↦ [] | some s ↦ s ]

-- Where the package comes from; nothing when its line is skipped.
unfoldable pub parse_repository : List Str → Option Repository
parse_repository tokens =
    if string_iequals (token tokens 8) (lit "github")
    then elim (parse_github_repo (token tokens 9) (token tokens 10) (token tokens 11)) [
      | none ↦ none
      | some gh ↦ some (github gh)
    ]
    else some cran

abbrev pub parse_package : List Str → Repository → RPackage
parse_package tokens repo = record {
  name = token tokens 0;
  lib_path = parse_path (token tokens 1);
  version = token tokens 2;
  dependencies =
      parse_dependency_field (token tokens 5)
        (parse_dependency_field (token tokens 4) (parse_dependency_field (token tokens 3) []));
  is_base = token tokens 6 == lit "base";
  needs_compilation = token tokens 7 == lit "yes";
  repository = repo;
}

-- The body of the loop over the lines.
unfoldable pub add_package_line : Str → RPackages → RPackages
add_package_line line packages =
    if is_empty (string_trim line)
    then packages
    else elim (string_split_n 12 nbsp (string_trim line)) [
      | none ↦ packages
      | some tokens ↦ elim (parse_repository tokens) [
        | none ↦ packages
        | some repo ↦ Dict.try_emplace (token tokens 0) (parse_package tokens repo) packages
      ]
    ]

unfoldable pub add_package_lines : List Str → RPackages → RPackages
add_package_lines [] packages = packages
add_package_lines (line ∷ input) packages = add_package_lines input (add_package_line line packages)

-- The second loop: of the dependencies, only names of packages stay.
abbrev pub erase_missing : RPackages → RPackage → RPackage
erase_missing packages pkg = record pkg {
  dependencies = filter (λ dep. Dict.has dep packages) pkg.dependencies;
}

unfoldable pub erase_all_missing : RPackages → RPackages → RPackages
erase_all_missing packages [] = []
erase_all_missing packages ((name, pkg) ∷ rest) =
    (name, erase_missing packages pkg) ∷ erase_all_missing packages rest

unfoldable pub parse_r_packages : List Str → RPackages
parse_r_packages input =
    let packages = add_package_lines input [] in erase_all_missing packages packages

pub record RpkgDatabase : Type 0 where
  pub packages : RPackages
  pub files : FileSystemTrie RPackage

abbrev pub folder : RPackage → FilePath
folder pkg = join pkg.lib_path (parse_path pkg.name)

unfoldable pub insert_packages : RPackages → FileSystemTrie RPackage → FileSystemTrie RPackage
insert_packages [] files = files
insert_packages ((name, pkg) ∷ packages) files =
    insert_packages packages (insert (folder pkg) pkg files)

unfoldable pub build_files_db : RPackages → FileSystemTrie RPackage
build_files_db packages = insert_packages packages empty_trie

unfoldable pub from_stream : List Str → RpkgDatabase
from_stream input =
    let packages = parse_r_packages input in
    record { packages = packages; files = build_files_db packages }

unfoldable pub lookup_by_path : FilePath → RpkgDatabase → Option RPackage
lookup_by_path path db = find_last_matching path db.files
