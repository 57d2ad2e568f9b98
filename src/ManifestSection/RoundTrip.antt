-- ===== src/ManifestSection/RoundTrip.antt =====
-- Editing a manifest without a change.
use r4r.Base.{
  Str, [], ◌∷◌, ◌++◌, Option, none, some, true, false, is_empty, isalpha, isalnum, isdigit, All,
  Result, ok, ◌>>=◌, sort-All, list_eq, nat_eq, Bool-cases,
}
use r4r.Base.{◌≡◌, inl, inr, refl, sym, ap, ◌∙◌, subst}
use r4r.Base.Dict
use r4r.Base.Dict.{Dict, NodupKeys}
use r4r.Path.{FilePath, path_lt}
use r4r.Manifest.{FileStatus, Manifest}
use r4r.ManifestFormat.{
  getlines, with_prefixed_ostream, prefixed_comment, Section, ManifestFormat, is_valid_section_name,
  get_section, add_section, write,
}
use r4r.ManifestFormat.Steps.{content_lines, joined, IsContent, IsReadable}
use r4r.ManifestFormat.RoundTrip.{read-write}
use r4r.ManifestSection.{
  copy_section, copy_help, save_entries, sorted_files, save, load_lines, load, manifest_preamble,
  save_manifest, load_manifest, edit_manifest,
}
use r4r.ManifestSection.Entries.{marked_status, marked_entries, emplace_all, lookup-read_again}
use r4r.ManifestSection.Text.{AllPlain, marked_lines, kept-copy_help, kept-save_entries}
use r4r.ManifestSection.Load.{marked_lines-IsContent, load_lines-joined}

module _ (m : Manifest) (plain : AllPlain m.copy_files) where
  abbrev sorted : Dict FilePath FileStatus
  sorted = sorted_files m.copy_files

  abbrev content : Str
  content = with_prefixed_ostream prefixed_comment copy_help ++ save_entries sorted

  abbrev section : Section
  section = record { name = copy_section; content = content }

  abbrev text : Str
  text = write (record { preamble = manifest_preamble; sections = section ∷ [] })

  sorted-AllPlain : AllPlain sorted
  sorted-AllPlain = sort-All _ _ m.copy_files plain

  content_lines_lem : content_lines content ≡ marked_lines sorted
  content_lines_lem =
      kept-copy_help (save_entries sorted) ∙ kept-save_entries sorted sorted-AllPlain

  section-IsReadable : IsReadable [] (section ∷ [])
  unfolding is_valid_section_name isalpha isalnum isdigit
  section-IsReadable = (
    refl,
    refl,
    subst (All IsContent) (sym content_lines_lem) (marked_lines-IsContent sorted sorted-AllPlain),
    tt,
  )

  save-some : is_empty m.copy_files ≡ false → save m ≡ some content
  unfolding save
  save-some filled = rw filled refl

  saved : is_empty m.copy_files ≡ false → save_manifest m ≡ ok (some text)
  unfolding save_manifest add_section get_section is_valid_section_name isalpha isalnum isdigit
  saved filled =
      ap
        (λ (o : Option Str). elim o as (λ _. Result (Option Str)) [
          | none ↦ ok none
          | some written ↦
              add_section (record { name = copy_section; content = written })
                (record { preamble = manifest_preamble; sections = [] })
              >>= λ format. ok (some (write format))
        ])
        (save-some filled)

  loaded :
      load_manifest text m ≡ ok (record m { copy_files = emplace_all (marked_entries sorted) [] })
  unfolding load_manifest get_section load list_eq nat_eq
  loaded =
      ap
        (λ (r : Result ManifestFormat). r >>= λ format.
          elim (get_section copy_section format) as (λ _. Result Manifest) [
            | none ↦ ok m
            | some found ↦ ok (load found.content m)
          ])
        (read-write (record { preamble = manifest_preamble; sections = section ∷ [] })
          section-IsReadable)
      ∙ ap (λ d. ok (record m { copy_files = d }))
          (ap (λ lines. load_lines (getlines (joined [] lines)) []) content_lines_lem
            ∙ load_lines-joined sorted sorted-AllPlain)

edit_manifest_empty :
    (m : Manifest) → is_empty m.copy_files ≡ true → edit_manifest true some m ≡ ok m
unfolding edit_manifest save_manifest save
edit_manifest_empty m empty = rw (edit_manifest, save_manifest, save, empty) refl

lookup_nothing :
    (d : Dict FilePath FileStatus)
    → is_empty d ≡ true
    → (p : FilePath) → Dict.lookup p d ≡ marked_status (Dict.lookup p d)
unfolding Dict.lookup
lookup_nothing [] empty p = refl
lookup_nothing (e ∷ d) empty p = absurd (cc)

-- Where the editor writes the text that it was given, the files that were marked to be copied or as results have their
-- statuses again, in a map that has no other file; all else in the manifest stays. The paths differ, are absolute, of one line, end with no
-- white space, have no comment sign, and are those of their texts.
pub edit_manifest_unchanged :
    (m : Manifest)
    → AllPlain m.copy_files
    → NodupKeys m.copy_files
    → (d : Dict FilePath FileStatus) × (edit_manifest true some m
        ≡ ok (record m { copy_files = d }))
      × ((p : FilePath) → Dict.lookup p d ≡ marked_status (Dict.lookup p m.copy_files))
unfolding edit_manifest
edit_manifest_unchanged m plain u = elim (Bool-cases (is_empty m.copy_files)) [
  | inl empty ↦ (m.copy_files, edit_manifest_empty m empty, lookup_nothing m.copy_files empty)
  | inr filled ↦ (
    emplace_all (marked_entries (sorted m plain)) [],
    ap
          (λ (r : Result (Option Str)). r >>= λ saved. elim saved as (λ _. Result Manifest) [
            | none ↦ ok m
            | some edited ↦ load_manifest edited m
          ])
          (saved m plain filled)
        ∙ loaded m plain,
    λ p. lookup-read_again (λ lhs rhs. path_lt lhs.0 rhs.0) p m.copy_files u,
  )
]
