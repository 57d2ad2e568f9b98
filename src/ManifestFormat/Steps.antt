-- ===== src/ManifestFormat/Steps.antt =====
-- Reading, line by line, what is left of the lines of a manifest.
use r4r.Base.{
  Str, lit, List, [], ◌∷◌, ◌++◌, none, Bool, true, false, is_empty, All, Result, ok, throw, ◌>>=◌,
  if◌then◌else◌, list_eq, nat_eq, Bool-cases,
}
use mathlib.Core.Path.{fun_ext}
use r4r.Base.{◌≡◌, inl, inr, refl, sym, ap, ◌∙◌}
use r4r.ManifestFormat.{
  Section, ManifestFormat, is_valid_section_name, is_section_header, but_last, find_section,
  get_section, add_section, add_content, append_last, read_line, read_lines,
}
use r4r.ManifestFormat.Lines.{pieces, kept}
use r4r.ManifestFormat.Clean.{clean, header, header-HeaderLine}

abbrev pub State : Type 0
State = ManifestFormat × Bool

-- The lines of content behind those that are there.
abbrev pub joined : Str → List Str → Str
joined content [] = content
joined content (line ∷ lines) = joined (add_content line content) lines

-- The lines that reading leaves of a content.
abbrev pub content_lines : Str → List Str
content_lines content = kept clean (pieces content)

-- The section as it is read.
abbrev pub as_read : Section → Section
as_read section = record section { content = joined [] (content_lines section.content) }

abbrev pub IsContent : Str → Type 0
IsContent line = is_section_header line ≡ false

-- Names are valid and differ, and no line of a content is a section header.
abbrev pub IsReadable : List Section → List Section → Type 0
IsReadable before [] = Unit
IsReadable before (section ∷ sections) =
    (is_valid_section_name section.name ≡ true)
    × (find_section section.name before ≡ none)
    × All IsContent (content_lines section.content)
    × IsReadable (before ++ as_read section ∷ []) sections

-- What `read_line` does with a cleaned line.
unfoldable pub step : Str → State → Result State
unfolding read_line
step line (format, in_section) =
    if is_empty line
    then ok (format, in_section)
    else if is_section_header line
    then (add_section (record { name = but_last line; content = [] }) format >>= λ added.
        ok (added, true))
    else if in_section
    then ok (record format { sections = append_last line format.sections }, true)
    else throw (lit "Content line encountered before any section header: " ++ line)

unfoldable pub steps : List Str → State → Result State
unfolding step
steps [] st = ok st
steps (line ∷ lines) st = step line st >>= steps lines

step_empty : (line : Str) (st : State) → is_empty line ≡ true → step line st ≡ ok st
unfolding step
step_empty line (format, b) empty = rw empty refl

kept_empty :
    (line : Str) (lines : List Str)
    → is_empty (clean line) ≡ true
    → kept clean (line ∷ lines) ≡ kept clean lines
kept_empty line lines empty = rw empty refl

kept_filled :
    (line : Str) (lines : List Str)
    → is_empty (clean line) ≡ false
    → kept clean (line ∷ lines) ≡ clean line ∷ kept clean lines
kept_filled line lines filled = rw filled refl

read_line-step : (line : Str) (st : State) → read_line line st ≡ step (clean line) st
unfolding read_line step
read_line-step line (format, b) = refl

pub read_lines-steps :
    (lines : List Str) (st : State) → read_lines lines st ≡ steps (kept clean lines) st
unfolding read_lines steps
read_lines-steps [] st = refl
read_lines-steps (line ∷ lines) st =
    ap (λ r. r >>= read_lines lines) (read_line-step line st)
    ∙ elim (Bool-cases (is_empty (clean line))) [
      | inl empty ↦
          ap (λ r. r >>= read_lines lines) (step_empty (clean line) st empty)
          ∙ (read_lines-steps lines st ∙ ap (λ ls. steps ls st) (sym (kept_empty line lines empty)))
      | inr filled ↦
          ap (λ (next : State → Result State). step (clean line) st >>= next)
            (fun_ext (read_lines-steps lines))
          ∙ ap (λ ls. steps ls st) (sym (kept_filled line lines filled))
    ]

append_last-append :
    (line : Str) (front : List Section) (section : Section)
    → append_last line (front ++ section ∷ [])
      ≡ front ++ record section { content = add_content line section.content } ∷ []
unfolding append_last
append_last-append line [] section = refl
append_last-append line (s ∷ []) section = refl
append_last-append line (s ∷ t ∷ front) section =
    ap (λ u. s ∷ u) (append_last-append line (t ∷ front) section)

-- Lines that are kept are not empty.
abbrev pub AllFilled : List Str → Type 0
AllFilled = All (λ line. is_empty line ≡ false)

pub kept-AllFilled : (lines : List Str) → AllFilled (kept clean lines)
kept-AllFilled [] = tt
kept-AllFilled (line ∷ lines) = elim (Bool-cases (is_empty (clean line))) [
  | inl empty ↦ rw empty (kept-AllFilled lines)
  | inr filled ↦ rw filled (filled, kept-AllFilled lines)
]

steps_content :
    (lines more : List Str) (preamble : Str) (front : List Section) (section : Section)
    → AllFilled lines
    → All IsContent lines
    → steps (lines ++ more) (record { preamble = preamble; sections = front ++ section ∷ [] }, true)
      ≡ steps more (
        record {
          preamble = preamble;
          sections = front ++ record section { content = joined section.content lines } ∷ [];
        },
        true,
      )
unfolding steps
steps_content [] more preamble front section filled content = refl
steps_content (line ∷ lines) more preamble front section (filled, rest) (content, later) =
    rw (filled, content)
      (ap (λ ss. steps (lines ++ more) (record { preamble = preamble; sections = ss }, true))
          (append_last-append line front section)
        ∙ steps_content lines more preamble front
            (record section { content = add_content line section.content }) rest later)

add_fresh :
    (name : Str) (preamble : Str) (front : List Section)
    → is_valid_section_name name ≡ true
    → find_section name front ≡ none
    → add_section
        (record { name = name; content = [] })
        (record { preamble = preamble; sections = front })
      ≡ ok (record {
        preamble = preamble;
        sections = front ++ record { name = name; content = [] } ∷ [];
      })
unfolding add_section get_section
add_fresh name preamble front valid fresh = rw (valid, fresh) refl

pub steps_section :
    (name : Str) (lines more : List Str) (preamble : Str) (front : List Section) (b : Bool)
    → is_valid_section_name name ≡ true
    → find_section name front ≡ none
    → AllFilled lines
    → All IsContent lines
    → steps (header name ∷ (lines ++ more)) (record { preamble = preamble; sections = front }, b)
      ≡ steps more (
        record {
          preamble = preamble;
          sections = front ++ record { name = name; content = joined [] lines } ∷ [];
        },
        true,
      )
unfolding steps
steps_section name lines more preamble front b valid fresh filled content =
    let h = header-HeaderLine name valid in
    let added =
      ap
        (λ n.
          add_section (record { name = n; content = [] })
            (record { preamble = preamble; sections = front }))
        h.named
      ∙ add_fresh name preamble front valid fresh in
    rw (h.filled, h.is_header, added)
      (steps_content lines more preamble front (record { name = name; content = [] }) filled
        content)
