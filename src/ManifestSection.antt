-- ===== src/ManifestSection.antt =====
-- src/manifest_section.h and `EditManifestTask` of src/tracer.h: the section of the files to copy, which
-- the user can change in an editor. The editor is a parameter, a function from the text of the file to the one that
-- it writes, if it writes one.
pub mod Entries
pub mod Text
pub mod Load
pub mod RoundTrip
mod Tests
use r4r.Base.{
  ℕ, Str, lit, List, [], ◌∷◌, ◌++◌, ◌-◌, Option, none, some, Bool, true, false, is_empty, length,
  take, drop, starts_with, Result, ok, ◌>>=◌, if◌then◌else◌, sort, not, list_eq, nat_eq,
}
use r4r.Base.Dict
use r4r.Base.Dict.{Dict}
use r4r.Path.{FilePath, parse_path, path_string, path_lt}
use r4r.Util.{string_trim}
use r4r.Manifest.{
  FileStatus, copy, result, ignore_did_not_exist_before, ignore_no_longer_exist,
  ignore_not_accessible, ignore_directory, status_text, Manifest,
}
use r4r.ManifestFormat.{
  getlines, with_prefixed_ostream, prefixed_comment, ends_with, ManifestFormat, empty_format,
  get_section, add_section, write, read,
}

abbrev pub copy_section : Str
copy_section = lit "copy"

abbrev pub copy_help : Str
copy_help =
    lit
      "The following files have not been resolved.\n# - ignores the file.\nC - marks the file to be copied into the image.\nR - marks the file as a result file.\n"

-- The lines of the files; a file that is no longer there has none.
unfoldable pub save_entries : Dict FilePath FileStatus → Str
save_entries [] = []
save_entries ((path, copy) ∷ files) =
    lit "C " ++ (path_string path ++ (lit "\n" ++ save_entries files))
save_entries ((path, result) ∷ files) =
    lit "R " ++ (path_string path ++ (lit "\n" ++ save_entries files))
save_entries ((path, ignore_no_longer_exist) ∷ files) = save_entries files
save_entries ((path, status) ∷ files) =
    lit "# "
    ++ (path_string path ++ (lit " # " ++ (status_text status ++ (lit "\n" ++ save_entries files))))

abbrev pub sorted_files : Dict FilePath FileStatus → Dict FilePath FileStatus
sorted_files = sort (λ lhs rhs. path_lt lhs.0 rhs.0)

-- `CopyFilesManifestSection::save`; nothing where it returns false.
unfoldable pub save : Manifest → Option Str
save manifest =
    if is_empty manifest.copy_files
    then none
    else some (
        with_prefixed_ostream prefixed_comment copy_help
        ++ save_entries (sorted_files manifest.copy_files))

unfoldable pub line_status : Str → Option FileStatus
line_status line =
    if starts_with line (lit "C")
    then some copy
    else if starts_with line (lit "R")
    then some result
    else none

-- The path without its quotes; a path with an opening quote only is none.
unfoldable pub line_path : Str → Option Str
line_path line =
    if starts_with line (b'"' ∷ [])
    then (if ends_with b'"' line then some (take (length line - 2) (drop 1 line)) else none)
    else some line

unfoldable pub load_line : Str → Dict FilePath FileStatus → Dict FilePath FileStatus
load_line line files = elim (line_status line) [
  | none ↦ files
  | some status ↦ elim (line_path (string_trim (drop 1 line))) [
    | none ↦ files
    | some path ↦ Dict.try_emplace (parse_path path) status files
  ]
]

unfoldable pub load_lines : List Str → Dict FilePath FileStatus → Dict FilePath FileStatus
load_lines [] files = files
load_lines (line ∷ lines) files = load_lines lines (load_line line files)

-- `CopyFilesManifestSection::load`
unfoldable pub load : Str → Manifest → Manifest
load content manifest = record manifest { copy_files = load_lines (getlines content) [] }

abbrev pub manifest_preamble : Str
manifest_preamble =
    lit
      "This is the manifest file generated by R4R.\nYou can update its content by either adding or removing/commenting lines in the corresponding sections."

-- The text that is written, if there is any content.
unfoldable pub save_manifest : Manifest → Result (Option Str)
save_manifest manifest = elim (save manifest) [
  | none ↦ ok none
  | some content ↦
      add_section (record { name = copy_section; content = content })
        (record { preamble = manifest_preamble; sections = [] })
      >>= λ format. ok (some (write format))
]

unfoldable pub load_manifest : Str → Manifest → Result Manifest
load_manifest text manifest = read text empty_format >>= λ format.
    elim (get_section copy_section format) [
      | none ↦ ok manifest
      | some section ↦ ok (load section.content manifest)
    ]

-- `EditManifestTask::run`
unfoldable pub edit_manifest : Bool → (Str → Option Str) → Manifest → Result Manifest
edit_manifest interactive editor manifest = save_manifest manifest >>= λ saved.
    if not interactive then ok manifest else elim saved [
      | none ↦ ok manifest
      | some text ↦ elim (editor text) [
        | none ↦ ok manifest
        | some edited ↦ load_manifest edited manifest
      ]
    ]
