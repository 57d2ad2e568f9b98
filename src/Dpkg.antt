-- ===== src/Dpkg.antt =====
-- src/dpkg_database.h: the packages that dpkg lists as installed, and the trie of their files. The
-- output of dpkg and the lists of files are parameters, read line by line; the order in which the map of
-- the packages is walked is the order of its entries here.
pub mod Installed
pub mod Owner
mod Tests
use r4r.Base.{
  ℕ, Str, lit, List, [], ◌∷◌, ◌++◌, Option, none, some, Bool, true, false, is_empty, isspace,
  starts_with, if◌then◌else◌, ◌==◌, list_eq, nat_eq,
}
use r4r.Base.Dict
use r4r.Base.Dict.{Dict}
use r4r.Path.{FilePath, parse_path}
use r4r.Trie.{FileSystemTrie, empty_trie, insert, find}

pub record DebPackage : Type 0 where
  pub name : Str
  pub version : Str

pub record DpkgDatabase : Type 0 where
  pub packages : Dict Str DebPackage
  pub files : FileSystemTrie DebPackage

-- `stream >> word`: white space is skipped, then a word is read.
unfoldable pub read_words : Str → Str → List Str
read_words word [] = if is_empty word then [] else word ∷ []
read_words word (c ∷ s) =
    let next = read_words [] s in
    let longer = read_words (word ++ c ∷ []) s in
    if isspace c then (if is_empty word then next else word ∷ next) else longer

-- One line behind the header: an installed package is added, unless its name is there.
unfoldable pub add_dpkg_line : List Str → Dict Str DebPackage → Dict Str DebPackage
add_dpkg_line (status ∷ name ∷ version ∷ more) packages =
    if status == lit "ii"
    then Dict.try_emplace name (record { name = name; version = version }) packages
    else packages
add_dpkg_line words packages = packages

unfoldable pub parse_dpkg_lines : List Str → Dict Str DebPackage → Dict Str DebPackage
parse_dpkg_lines [] packages = packages
parse_dpkg_lines (line ∷ lines) packages =
    parse_dpkg_lines lines (add_dpkg_line (read_words [] line) packages)

-- `parse_dpkg_list_output`: the header ends with a line that starts with "+++-".
unfoldable pub parse_dpkg_list_output : List Str → Dict Str DebPackage
parse_dpkg_list_output [] = []
parse_dpkg_list_output (line ∷ lines) =
    let skipped = parse_dpkg_list_output lines in
    if starts_with line (lit "+++-") then parse_dpkg_lines lines [] else skipped

-- `process_package_list_file`, on the lines of the file.
unfoldable pub process_package_list_file :
    List Str → DebPackage → FileSystemTrie DebPackage → FileSystemTrie DebPackage
process_package_list_file [] pkg trie = trie
process_package_list_file (line ∷ lines) pkg trie =
    process_package_list_file lines pkg
      (if is_empty line then trie else insert (parse_path line) pkg trie)

-- The loop of `from_path`; `list_file` gives the lines of a package's list, when there is one.
unfoldable pub add_packages :
    (Str → Option (List Str))
    → Dict Str DebPackage
    → FileSystemTrie DebPackage
    → FileSystemTrie DebPackage
add_packages list_file [] trie = trie
add_packages list_file ((pkg_name, pkg) ∷ packages) trie =
    add_packages list_file packages (elim (list_file pkg_name) [
      | none ↦ trie
      | some lines ↦ process_package_list_file lines pkg trie
    ])

unfoldable pub from_path : (Str → Option (List Str)) → List Str → DpkgDatabase
from_path list_file dpkg_output =
    let packages = parse_dpkg_list_output dpkg_output in
    record { packages = packages; files = add_packages list_file packages empty_trie }

unfoldable pub lookup_by_path : FilePath → DpkgDatabase → Option DebPackage
lookup_by_path path db = find path db.files

-- `lookup_by_name` on amd64.
unfoldable pub lookup_by_name : Str → DpkgDatabase → Option DebPackage
lookup_by_name name db = elim (Dict.lookup name db.packages) [
  | none ↦ Dict.lookup (name ++ lit ":amd64") db.packages
  | some pkg ↦ some pkg
]
