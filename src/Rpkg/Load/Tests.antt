-- ===== src/Rpkg/Load/Tests.antt =====
-- Two packages as R lists them, with a dependency that is not installed.
use r4r.Base.{
  Str, lit, List, [], ◌∷◌, ◌++◌, some, true, false, not, ◌&&◌, ◌||◌, contains, All, isspace,
  starts_with, tolower, insert_sorted, str_lt, ◌==◌, ==→≡, list_eq, nat_eq, Bool-cases, inl, inr,
}
use r4r.Base.{◌≡◌, refl, subst, arith, ap}
use r4r.Base.Dict
use r4r.Path.{
  FilePath, split_components, parse_path, join, is_absolute, strip_trailing, with_trailing,
}
use r4r.Trie.{find_last_matching, find_last_node, get_child, insert, insert_node, set_child}
use r4r.Util.{find_delim, string_split_n, trim_start, string_trim, string_iequals}
use r4r.Rpkg.{RPackage, cran, find, package_eq}
use r4r.Rpkg.Plan.{get_installation_plan}
use r4r.Rpkg.Visit.Explains.{IsStored}
use r4r.Rpkg.Load.{
  add_dependency, add_package_line, add_package_lines, build_files_db, erase_all_missing,
  from_stream, insert_packages, lookup_by_path, name_prefix, nbsp, parse_dependencies,
  parse_dependency_field, parse_r_packages, parse_repository, na, set_insert,
}
use r4r.Rpkg.Load.Consistent.{PlanOrCycle, from_stream-PlanOrCycle}
use r4r.Rpkg.Load.Names.{
  Dependency, IsPlain, names, print_dependencies, parse_dependency_field-print_dependencies,
}
use r4r.Rpkg.Load.Folders.{IsInnermost, lookup_by_path-IsInnermost}

abbrev row : List Str → Str
row [] = []
row (s ∷ []) = s
row (s ∷ t ∷ r) = s ++ (nbsp ++ row (t ∷ r))

abbrev input : List Str
input =
    row (
      lit "askpass"
      ∷ lit "/lib"
      ∷ lit "1.1"
      ∷ lit "R (>= 3.0)"
      ∷ lit "sys (>= 2.1), gone"
      ∷ na
      ∷ na
      ∷ lit "yes"
      ∷ na
      ∷ na
      ∷ na
      ∷ na
      ∷ [])
    ∷ row
        (lit "sys" ∷ lit "/lib" ∷ lit "2.1" ∷ na ∷ na ∷ na ∷ na ∷ lit "no" ∷ na ∷ na ∷ na ∷ na ∷ [])
    ∷ []

abbrev askpass : RPackage
askpass = record {
  name = lit "askpass";
  lib_path = lit "/" ∷ lit "lib" ∷ [];
  version = lit "1.1";
  dependencies = lit "sys" ∷ [];
  is_base = false;
  needs_compilation = true;
  repository = cran;
}

abbrev sys : RPackage
sys = record {
  name = lit "sys";
  lib_path = lit "/" ∷ lit "lib" ∷ [];
  version = lit "2.1";
  dependencies = [];
  is_base = false;
  needs_compilation = false;
  repository = cran;
}

read_packages : (from_stream input).packages ≡ (lit "askpass", askpass) ∷ (lit "sys", sys) ∷ []
unfolding from_stream parse_r_packages add_package_lines add_package_line parse_repository
    parse_dependency_field parse_dependencies add_dependency set_insert name_prefix
    erase_all_missing string_trim trim_start isspace string_split_n find_delim starts_with
    string_iequals tolower Dict.try_emplace Dict.has Dict.lookup parse_path split_components
    insert_sorted str_lt list_eq nat_eq
read_packages = refl

askpass_stored : find (from_stream input).packages (lit "askpass") ≡ some askpass
unfolding find Dict.lookup list_eq nat_eq
askpass_stored = ap (Dict.lookup (lit "askpass")) read_packages

IsStored-requested :
    (p : RPackage) → contains (askpass ∷ []) p ≡ true → IsStored (from_stream input).packages p
IsStored-requested p m = elim (Bool-cases (askpass == p)) [
  | inl same ↦
      subst (IsStored (from_stream input).packages) (==→≡ askpass p same)
        (lit "askpass", askpass_stored)
  | inr other ↦ absurd (ground arith)
]

from_stream-PlanOrCycle_example :
    PlanOrCycle
      (from_stream input).packages
      (get_installation_plan (from_stream input).packages (askpass ∷ []))
from_stream-PlanOrCycle_example = from_stream-PlanOrCycle input (askpass ∷ []) IsStored-requested

abbrev two_dependencies : List Dependency
two_dependencies =
    record { name = lit "R"; constraint = lit " (>= 3.0)" }
    ∷ record { name = lit "sys"; constraint = lit "(>= 2.1) " }
    ∷ []

two_dependencies-IsPlain : All IsPlain two_dependencies
unfolding isspace
two_dependencies-IsPlain = (
  record {
    named = refl;
    chars = (refl, tt);
    apart = refl;
    no_comma = (refl, (refl, (refl, (refl, (refl, (refl, (refl, (refl, (refl, tt)))))))));
  },
  (
    record {
      named = refl;
      chars = (refl, (refl, (refl, tt)));
      apart = refl;
      no_comma = (refl, (refl, (refl, (refl, (refl, (refl, (refl, (refl, (refl, tt)))))))));
    },
    tt,
  ),
)

two_dependencies_given : (print_dependencies two_dependencies == na) ≡ false
unfolding list_eq nat_eq
two_dependencies_given = refl

parse_dependency_field-print_dependencies_example :
    contains (parse_dependency_field (print_dependencies two_dependencies) []) (lit "sys") ≡ (
      contains [] (lit "sys")
      || (contains (names two_dependencies) (lit "sys") && not (lit "sys" == lit "R")))
parse_dependency_field-print_dependencies_example =
    parse_dependency_field-print_dependencies two_dependencies [] (lit "sys")
      two_dependencies-IsPlain two_dependencies_given

abbrev data_file : FilePath
data_file = lit "/" ∷ lit "lib" ∷ lit "sys" ∷ lit "R" ∷ lit "sys.rdb" ∷ []

found_sys : lookup_by_path data_file (from_stream input) ≡ some sys
unfolding from_stream build_files_db insert_packages lookup_by_path find_last_matching
    find_last_node insert insert_node get_child set_child join is_absolute strip_trailing
    with_trailing parse_path split_components list_eq nat_eq
found_sys = ap (λ d. find_last_matching data_file (build_files_db d)) read_packages

lookup_by_path-IsInnermost_example : IsInnermost (from_stream input).packages data_file sys
lookup_by_path-IsInnermost_example = lookup_by_path-IsInnermost input data_file sys found_sys
