-- ===== src/Dpkg/Tests.antt =====
-- The output of dpkg for two packages, of which one is installed.
use r4r.Base.{
  Str, lit, List, [], ◌∷◌, Option, none, some, ◌≡◌, refl, ◌==◌, if◌then◌else◌, list_eq, nat_eq,
  starts_with, isspace,
}
use r4r.Base.Dict
use r4r.Path.{FilePath, parse_path, split_components}
use r4r.Trie.{insert, find, insert_node, find_node, get_child, set_child}
use r4r.Dpkg.{
  DebPackage, from_path, lookup_by_path, lookup_by_name, parse_dpkg_list_output, parse_dpkg_lines,
  add_dpkg_line, read_words, process_package_list_file, add_packages,
}
use r4r.Dpkg.Owner.{Owns, lookup_by_path-Owns}

abbrev dpkg_output : List Str
dpkg_output =
    lit "Desired=Unknown/Install"
    ∷ lit "+++-====-====-===="
    ∷ lit "ii  zlib1g:amd64  1.3  amd64  compression"
    ∷ lit "rc  old  0.1  amd64  removed"
    ∷ []

abbrev list_file : Str → Option (List Str)
list_file name =
    if name == lit "zlib1g:amd64"
    then some (lit "/." ∷ lit "/lib" ∷ lit "/lib/libz.so" ∷ [])
    else none

abbrev zlib : DebPackage
zlib = record { name = lit "zlib1g:amd64"; version = lit "1.3" }

abbrev libz : FilePath
libz = lit "/" ∷ lit "lib" ∷ lit "libz.so" ∷ []

found_libz : lookup_by_path libz (from_path list_file dpkg_output) ≡ some zlib
unfolding lookup_by_path from_path parse_dpkg_list_output parse_dpkg_lines add_dpkg_line read_words
    process_package_list_file add_packages insert find insert_node find_node get_child set_child
    parse_path split_components starts_with isspace Dict.try_emplace list_eq nat_eq
found_libz = refl

found_zlib : lookup_by_name (lit "zlib1g") (from_path list_file dpkg_output) ≡ some zlib
unfolding lookup_by_name from_path parse_dpkg_list_output parse_dpkg_lines add_dpkg_line read_words
    starts_with isspace Dict.try_emplace Dict.lookup list_eq nat_eq
found_zlib = refl

lookup_by_path-Owns_example : Owns list_file dpkg_output libz zlib
lookup_by_path-Owns_example = lookup_by_path-Owns list_file dpkg_output libz zlib found_libz
