-- ===== src/ManifestFormat.antt =====
-- src/manifest_format.h: the text of a manifest, with named sections, and the line prefixes of
-- src/util_io.h with which it is written.
pub mod Lines
pub mod Clean
pub mod Steps
pub mod RoundTrip
mod Tests
use r4r.Base.{
  ℕ, Str, lit, List, [], ◌∷◌, ◌++◌, Option, none, some, Bool, true, false, not, ◌&&◌, ◌||◌,
  is_empty, isalpha, isalnum, eqb, Result, ok, throw, ◌>>=◌, if◌then◌else◌, ◌==◌, list_eq, nat_eq,
}
use r4r.Util.{string_trim}

-- The lines that `std::getline` gives: a line feed at the end starts no further one.
abbrev pub onto_first : ℕ → List Str → List Str
onto_first c [] = (c ∷ []) ∷ []
onto_first c (line ∷ lines) = (c ∷ line) ∷ lines

unfoldable pub getlines : Str → List Str
getlines [] = []
getlines (c ∷ s) = let rest = getlines s in if eqb c b'\n' then [] ∷ rest else onto_first c rest

-- `LinePrefixingFilter` on a text, from the flag `at_nl` on.
unfoldable pub prefix_lines : Str → Bool → Str → Str
prefix_lines prefix at_nl [] = []
prefix_lines prefix at_nl (c ∷ s) =
    (if at_nl then prefix else []) ++ c ∷ prefix_lines prefix (eqb c b'\n') s

-- `with_prefixed_ostream`, whose filter is new.
unfoldable pub with_prefixed_ostream : Str → Str → Str
with_prefixed_ostream prefix text = prefix_lines prefix true text

abbrev pub comment : ℕ
comment = b'#'

abbrev pub prefixed_comment : Str
prefixed_comment = lit "# "

pub record Section : Type 0 where
  pub name : Str
  pub content : Str

pub record ManifestFormat : Type 0 where
  pub preamble : Str
  pub sections : List Section

abbrev pub empty_format : ManifestFormat
empty_format = record { preamble = []; sections = [] }

abbrev is_name_char : ℕ → Bool
is_name_char c = isalnum c || eqb c b'_'

abbrev pub all_name_chars : Str → Bool
all_name_chars [] = true
all_name_chars (c ∷ s) = is_name_char c && all_name_chars s

unfoldable pub is_valid_section_name : Str → Bool
is_valid_section_name [] = false
is_valid_section_name (c ∷ s) = (isalpha c || eqb c b'_') && all_name_chars (c ∷ s)

-- The text without its last byte, and the last byte.
abbrev pub but_last : Str → Str
but_last [] = []
but_last (c ∷ []) = []
but_last (c ∷ d ∷ s) = c ∷ but_last (d ∷ s)

abbrev pub ends_with : ℕ → Str → Bool
ends_with b [] = false
ends_with b (c ∷ []) = eqb c b
ends_with b (c ∷ d ∷ s) = ends_with b (d ∷ s)

unfoldable pub is_section_header : Str → Bool
is_section_header line = ends_with b':' line && is_valid_section_name (but_last line)

abbrev find_section : Str → List Section → Option Section
find_section name [] = none
find_section name (section ∷ sections) =
    if section.name == name then some section else find_section name sections

unfoldable pub get_section : Str → ManifestFormat → Option Section
get_section name format = find_section name format.sections

unfoldable pub add_section : Section → ManifestFormat → Result ManifestFormat
add_section section format =
    if not (is_valid_section_name section.name)
    then throw (lit "Invalid section name: " ++ section.name)
    else elim (get_section section.name format) [
      | some _ ↦ throw (lit "section: " ++ section.name ++ lit " already exists")
      | none ↦ ok (record format { sections = format.sections ++ section ∷ [] })
    ]

unfoldable pub write_sections : List Section → Str
write_sections [] = []
write_sections (section ∷ sections) =
    section.name
    ++ (lit ":\n"
        ++ (with_prefixed_ostream (lit "  ") section.content
            ++ (lit "\n\n" ++ write_sections sections)))

unfoldable pub write : ManifestFormat → Str
write format =
    (if is_empty format.preamble
      then []
      else with_prefixed_ostream prefixed_comment format.preamble ++ lit "\n\n")
    ++ write_sections format.sections

-- The line in front of a comment.
unfoldable pub until_comment : Str → Str
until_comment [] = []
until_comment (c ∷ s) = if eqb c comment then [] else c ∷ until_comment s

-- A line of content behind those that a section has.
abbrev pub add_content : Str → Str → Str
add_content line [] = line
add_content line (c ∷ content) = (c ∷ content) ++ b'\n' ∷ line

-- The section that was added last is the one that is read.
unfoldable pub append_last : Str → List Section → List Section
append_last line [] = []
append_last line (section ∷ []) = record section { content = add_content line section.content } ∷ []
append_last line (section ∷ next ∷ sections) = section ∷ append_last line (next ∷ sections)

-- A line of the text, and whether a section header was met before. No comment sign is left in the line when the
-- source looks for one again.
unfoldable pub read_line : Str → ManifestFormat × Bool → Result (ManifestFormat × Bool)
read_line line0 (format, in_section) =
    let line = string_trim (until_comment line0) in
    if is_empty line
    then ok (format, in_section)
    else if is_section_header line
    then (add_section (record { name = but_last line; content = [] }) format >>= λ added.
        ok (added, true))
    else if in_section
    then ok (record format { sections = append_last line format.sections }, true)
    else throw (lit "Content line encountered before any section header: " ++ line)

unfoldable pub read_lines : List Str → ManifestFormat × Bool → Result (ManifestFormat × Bool)
read_lines [] st = ok st
read_lines (line ∷ lines) st = read_line line st >>= read_lines lines

-- `operator>>`
unfoldable pub read : Str → ManifestFormat → Result ManifestFormat
read text format = read_lines (getlines text) (format, false) >>= λ st. ok st.0
