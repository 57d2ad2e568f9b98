-- ===== src/Resolvers/Tests.antt =====
-- Three traced files: one of a Debian package, one of an R package, and one to copy.
use r4r.Base.{
  lit, List, [], ◌∷◌, none, some, true, false, contains, All, ok, out_of_fuel, ◌≡◌, ◌≢◌, ◌⊎◌, refl,
  sym, ◌∙◌, subst, arith, ok-injective, ◌==◌, list_eq, nat_eq, starts_with, isspace,
}
use r4r.Base.Dict
use r4r.Path.{
  FilePath, parse_path, split_components, is_absolute, join, strip_trailing, with_trailing,
}
use r4r.Trie.{
  insert, find, insert_node, find_node, get_child, set_child, find_last_matching, find_last_node,
}
use r4r.System.{
  System, regular, bytes, exists, is_regular_file, is_symlink_or_throw, check_accessibility,
}
use r4r.Symlinks.{other_name, first_name, singleton, link_target, resolve_names, resolve_symlinks}
use r4r.Dpkg.{
  DebPackage, DpkgDatabase, from_path, parse_dpkg_list_output, parse_dpkg_lines, add_dpkg_line,
  read_words, process_package_list_file, add_packages,
}
use r4r.Dpkg
use r4r.Rpkg.{RPackage, cran}
use r4r.Rpkg.Load
use r4r.Rpkg.Load.{RpkgDatabase, build_files_db, insert_packages}
use r4r.Util.{find_delim}
use r4r.FileTracer.{FileInfo}
use r4r.Manifest.{copy, Manifest}
use r4r.Resolvers.{
  Traced, erase_if, deb_package, deb_resolved, deb_resolve, r_package, r_resolved, r_resolve,
  result_files, should_consider, accessible_status, copy_status, copy_file, copy_link, copy_resolve,
  resolve_files,
}
use r4r.Resolvers.DebFiles.{DebDone}
use r4r.Resolvers.RFiles.{RDone}
use r4r.Resolvers.CopyFiles.{Listed, Copied, copy_resolve-Copied}
use r4r.Resolvers.Accounts.{resolve_files-accounts}
use r4r.Resolvers.Total.{resolve_files-total}
use r4r.Symlinks.Total.{ClosedNames}

abbrev libz : FilePath
libz = lit "/" ∷ lit "lib" ∷ lit "libz.so" ∷ []

abbrev code : FilePath
code = lit "/" ∷ lit "r" ∷ lit "sys" ∷ lit "a" ∷ []

abbrev table : FilePath
table = lit "/" ∷ lit "d" ∷ lit "t" ∷ []

abbrev all_there : System
all_there = record {
  status = λ p. regular;
  symlink_status = λ p. regular;
  filesystem_error = λ p. lit "filesystem error";
  read_symlink = λ p. none;
  current_path = none;
  file_size = λ p. none;
  equivalent = λ p q. p == q;
  page_size = 4096;
  process_vm_readv = λ pid a n. bytes [];
  strerror = λ n. lit "error";
  can_open = λ p. true;
}

abbrev zlib : DebPackage
zlib = record { name = lit "zlib1g"; version = lit "1.3" }

abbrev deb_database : DpkgDatabase
deb_database =
    from_path (λ name. some (lit "/lib/libz.so" ∷ []))
      (lit "+++-====-====-====" ∷ lit "ii  zlib1g  1.3  amd64  compression" ∷ [])

abbrev sys : RPackage
sys = record {
  name = lit "sys";
  lib_path = lit "/" ∷ lit "r" ∷ [];
  version = lit "2.1";
  dependencies = [];
  is_base = false;
  needs_compilation = false;
  repository = cran;
}

abbrev r_database : RpkgDatabase
r_database = record {
  packages = (lit "sys", sys) ∷ [];
  files = build_files_db ((lit "sys", sys) ∷ []);
}

abbrev traced_file : FilePath → FileInfo
traced_file p = record { path = p; size = none; existed_before = true }

abbrev pub empty_manifest : Manifest
empty_manifest = record {
  cmd = [];
  cwd = [];
  envir = [];
  user = record {
    uid = 0;
    group = record { gid = 0; name = [] };
    username = [];
    home_directory = [];
    shell = [];
    groups = [];
  };
  timezone = [];
  copy_files = [];
  symlinks = [];
  r_packages = [];
  deb_packages = [];
}

abbrev three_files : Traced
three_files = record {
  files = traced_file table ∷ traced_file libz ∷ traced_file code ∷ [];
  symlinks = [];
  manifest = empty_manifest;
}

abbrev resolved : Traced
resolved = record {
  files = [];
  symlinks = [];
  manifest = record empty_manifest {
    copy_files = (table, copy) ∷ [];
    r_packages = sys ∷ [];
    deb_packages = zlib ∷ [];
  };
}

resolve_three_files :
    resolve_files 4 all_there [] all_there [] all_there deb_database r_database three_files
    ≡ ok resolved
unfolding resolve_files deb_resolve r_resolve copy_resolve erase_if deb_resolved deb_package
    r_resolved r_package result_files copy_file copy_status accessible_status should_consider
    copy_link is_regular_file is_symlink_or_throw check_accessibility exists resolve_symlinks
    resolve_names link_target first_name other_name Dpkg.lookup_by_path from_path
    parse_dpkg_list_output parse_dpkg_lines add_dpkg_line read_words process_package_list_file
    add_packages insert find insert_node find_node get_child set_child find_last_matching
    find_last_node parse_path split_components starts_with isspace Dict.try_emplace Dict.lookup
    Load.lookup_by_path build_files_db insert_packages join is_absolute strip_trailing with_trailing
    find_delim list_eq nat_eq
resolve_three_files = refl

resolve_files-accounts_example :
    (resolved.files ≡ [])
    × All
        (λ f.
          DebDone 4 all_there [] deb_database f.path resolved.manifest.deb_packages
          ⊎ (RDone 4 all_there [] r_database f.path resolved.manifest.r_packages
              ⊎ Listed f.path resolved.manifest.copy_files))
        three_files.files
resolve_files-accounts_example =
    resolve_files-accounts 4 all_there [] all_there [] all_there deb_database r_database three_files
      resolve_three_files

copied_three_files :
    copy_resolve all_there three_files
    ≡ ok (record {
      files = [];
      symlinks = [];
      manifest = record empty_manifest {
        copy_files = (table, copy) ∷ (libz, copy) ∷ (code, copy) ∷ [];
      };
    })
unfolding copy_resolve erase_if result_files copy_file copy_status accessible_status should_consider
    copy_link is_regular_file is_symlink_or_throw check_accessibility exists Dict.try_emplace
    list_eq nat_eq
copied_three_files = refl

copy_resolve-Copied_example : Copied all_there three_files (record {
  files = [];
  symlinks = [];
  manifest = record empty_manifest {
    copy_files = (table, copy) ∷ (libz, copy) ∷ (code, copy) ∷ [];
  };
})
copy_resolve-Copied_example = copy_resolve-Copied all_there three_files copied_three_files

abbrev three_names : List FilePath
three_names = table ∷ libz ∷ code ∷ []

no_other_name : (p : FilePath) → first_name all_there p [] ≡ none
unfolding first_name other_name
no_other_name p = refl

no_target : (p : FilePath) → link_target all_there p ≡ ok []
unfolding link_target
no_target p = refl

three_names-ClosedNames : ClosedNames all_there [] three_names
three_names-ClosedNames p there = (
  subst (λ o. All (λ s. contains three_names s ≡ true) (singleton o)) (sym (no_other_name p)) tt,
  λ targets read.
      subst (All (λ s. contains three_names s ≡ true)) (ok-injective (sym (no_target p) ∙ read)) tt,
)

known_files : All (λ f. contains three_names f.path ≡ true) three_files.files
unfolding list_eq nat_eq
known_files = (refl, (refl, (refl, tt)))

resolve_files-total_example :
    resolve_files 11 all_there [] all_there [] all_there deb_database r_database three_files
    ≢ out_of_fuel
resolve_files-total_example =
    resolve_files-total 11 all_there [] all_there [] all_there deb_database r_database three_files
      three_names three_names three_names-ClosedNames three_names-ClosedNames (omega arith)
      (omega arith) known_files tt known_files
