-- ===== src/IgnoreFileMap/Tests.antt =====
-- The rules that the tracer starts with.
use r4r.Base.{
  Str, lit, List, [], ◌∷◌, some, true, any, ok, ◌>>=◌, ◌≡◌, refl, ◌||◌, ◌==◌, if◌then◌else◌,
  list_eq, nat_eq,
}
use r4r.Path.{
  FilePath, parse_path, split_components, join, is_absolute, strip_trailing, with_trailing,
}
use r4r.Symlinks.{resolve_symlinks}
use r4r.Symlinks.Tests.{linked}
use r4r.Trie.Find.{canonical, is_prefix}
use r4r.IgnoreFileMap.{empty_map, ignore, ignore_font_uuid_files, configure_default_ignore_pattern}
use r4r.IgnoreFileMap.Rules.{
  Rule, wildcard, file, custom, add_rules, wildcards_of, files_of, customs_of, is_flat,
  ignore-add_rules,
}

abbrev wildcard_at : Str → Rule
wildcard_at s = wildcard (parse_path s)

abbrev default_rules : List Rule
default_rules =
    wildcard_at (lit "/dev")
    ∷ wildcard_at (lit "/etc/ld.so.cache")
    ∷ wildcard_at (lit "/etc/nsswitch.conf")
    ∷ wildcard_at (lit "/etc/passwd")
    ∷ wildcard_at (lit "/proc")
    ∷ wildcard_at (lit "/sys")
    ∷ wildcard_at (lit "/usr/lib/locale/locale-archive")
    ∷ wildcard_at (lit "/usr/local/share/fonts")
    ∷ wildcard_at (lit "/var/cache")
    ∷ file (parse_path (lit "/"))
    ∷ wildcard_at (lit "/root/.cache/fontconfig")
    ∷ custom ignore_font_uuid_files
    ∷ []

default_rules_added :
    configure_default_ignore_pattern (some (lit "/root")) (empty_map [])
    ≡ add_rules default_rules (empty_map [])
unfolding configure_default_ignore_pattern join is_absolute strip_trailing with_trailing parse_path
    split_components list_eq nat_eq
default_rules_added = refl

default_rules_flat : is_flat (wildcards_of default_rules []) ≡ true
unfolding is_prefix parse_path split_components list_eq nat_eq
default_rules_flat = refl

abbrev null_device : FilePath
null_device = lit "/" ∷ lit "dev" ∷ lit "null" ∷ []

ignore-add_rules_example : ignore 8 (add_rules default_rules (empty_map [])) linked null_device ≡ (
    if any (λ w. is_prefix (canonical w) (canonical null_device)) (wildcards_of default_rules [])
    then ok true
    else resolve_symlinks 8 linked [] null_device >>= λ names. ok (
        any (λ n. any (λ f. canonical f == canonical n) (files_of default_rules [])) names
        || any (λ fun. fun null_device) (customs_of default_rules)))
ignore-add_rules_example = ignore-add_rules 8 default_rules [] linked null_device default_rules_flat
