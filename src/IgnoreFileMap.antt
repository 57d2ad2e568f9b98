-- ===== src/IgnoreFileMap.antt =====
-- src/ignore_file_map.h: the files that the tracer passes over, and the rules that src/tracer.h gives to it.
pub mod Rules
mod Tests
use r4r.Base.{
  ℕ, Str, lit, List, [], ◌∷◌, ◌++◌, Option, none, some, Bool, true, false, ◌||◌, ◌&&◌, any, Result,
  ok, ◌>>=◌, if◌then◌else◌, ◌==◌, list_eq, nat_eq,
}
use r4r.Base.Dict.{Dict}
use r4r.Path.{FilePath, parse_path, join, is_sub_path}
use r4r.System.{System}
use r4r.Symlinks.{resolve_symlinks}
use r4r.Trie.{FileSystemTrie, empty_trie, insert, find, find_last_matching}

pub record IgnoreFileMap : Type 0 where
  pub wildcards : FileSystemTrie Bool
  pub files : FileSystemTrie Bool
  pub custom : List (FilePath → Bool)
  pub symlinks : Dict FilePath FilePath

-- The symbolic links are read when the map is made.
abbrev pub empty_map : Dict FilePath FilePath → IgnoreFileMap
empty_map links = record {
  wildcards = empty_trie;
  files = empty_trie;
  custom = [];
  symlinks = links;
}

unfoldable pub add_wildcard : FilePath → IgnoreFileMap → IgnoreFileMap
add_wildcard path m = record m { wildcards = insert path true m.wildcards }

unfoldable pub add_file : FilePath → IgnoreFileMap → IgnoreFileMap
add_file path m = record m { files = insert path true m.files }

unfoldable pub add_custom : (FilePath → Bool) → IgnoreFileMap → IgnoreFileMap
add_custom fun m = record m { custom = m.custom ++ fun ∷ [] }

-- `it && *it`
abbrev pub is_set : Option Bool → Bool
is_set none = false
is_set (some b) = b

-- The loop over the names of the file.
unfoldable pub has_file : FileSystemTrie Bool → List FilePath → Bool
has_file files [] = false
has_file files (p ∷ names) = is_set (find p files) || has_file files names

unfoldable pub ignore : ℕ → IgnoreFileMap → System → FilePath → Result Bool
ignore fuel m sys path =
    if is_set (find_last_matching path m.wildcards)
    then ok true
    else resolve_symlinks fuel sys m.symlinks path >>= λ names.
        ok (has_file m.files names || any (λ fun. fun path) m.custom)

abbrev pub filename : FilePath → Str
filename [] = []
filename (c ∷ []) = if c == lit "/" then [] else c
filename (c ∷ d ∷ p) = filename (d ∷ p)

abbrev pub fontconfig_dirs : List FilePath
fontconfig_dirs =
    parse_path (lit "/usr/share/fonts")
    ∷ parse_path (lit "/usr/share/poppler")
    ∷ parse_path (lit "/usr/share/texmf/fonts")
    ∷ []

-- The .uuid files of fontconfig.
unfoldable pub ignore_font_uuid_files : FilePath → Bool
ignore_font_uuid_files path =
    any (λ d. is_sub_path path d && filename path == lit ".uuid") fontconfig_dirs

unfoldable pub configure_default_ignore_pattern : Option Str → IgnoreFileMap → IgnoreFileMap
configure_default_ignore_pattern home m =
    let system = add_file (parse_path (lit "/")) (
      add_wildcard (parse_path (lit "/var/cache")) (
        add_wildcard (parse_path (lit "/usr/local/share/fonts")) (
          add_wildcard (parse_path (lit "/usr/lib/locale/locale-archive")) (
            add_wildcard (parse_path (lit "/sys")) (
              add_wildcard (parse_path (lit "/proc")) (
                add_wildcard (parse_path (lit "/etc/passwd")) (
                  add_wildcard (parse_path (lit "/etc/nsswitch.conf")) (
                    add_wildcard (parse_path (lit "/etc/ld.so.cache"))
                      (add_wildcard (parse_path (lit "/dev")) m))))))))) in
    add_custom ignore_font_uuid_files (elim home [
      | none ↦ system
      | some home_dir ↦
          add_wildcard (join (parse_path home_dir) (parse_path (lit ".cache/fontconfig"))) system
    ])

-- The last part of `load_image_default_files`: the files of the base image.
unfoldable pub add_default_files : List Str → IgnoreFileMap → IgnoreFileMap
add_default_files [] m = m
add_default_files (path ∷ paths) m = add_default_files paths (add_file (parse_path path) m)
