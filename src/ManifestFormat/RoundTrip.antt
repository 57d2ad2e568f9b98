-- ===== src/ManifestFormat/RoundTrip.antt =====
-- Reading a manifest that was written.
use r4r.Base.{
  Str, lit, List, [], ◌∷◌, ◌++◌, Bool, true, false, is_empty, append_assoc, append-nil, map, Result,
  ok, ◌>>=◌, if◌then◌else◌, list_eq, nat_eq,
}
use r4r.Base.{◌≡◌, refl, sym, ap, ◌∙◌}
use r4r.ManifestFormat.{
  getlines, prefix_lines, with_prefixed_ostream, prefixed_comment, Section, ManifestFormat,
  empty_format, is_valid_section_name, write_sections, write, read,
}
use r4r.ManifestFormat.Lines.{pieces, kept, kept-getlines, kept-prefix_lines, kept-feed, pieces_one}
use r4r.ManifestFormat.Clean.{
  clean, clean_nil, clean_indented, clean_comment, header, header-HeaderLine,
}
use r4r.ManifestFormat.Steps.{
  State, content_lines, as_read, IsReadable, steps, read_lines-steps, kept-AllFilled, steps_section,
}

-- The lines of the text of the sections.
section_lines : List Section → List Str
section_lines [] = []
section_lines (section ∷ sections) =
    header section.name ∷ (content_lines section.content ++ section_lines sections)

kept-header :
    (name text : Str)
    → is_valid_section_name name ≡ true
    → kept clean (pieces (name ++ (lit ":\n" ++ text))) ≡ header name ∷ kept clean (pieces text)
kept-header name text valid =
    let h = header-HeaderLine name valid in
    let first : kept clean (header name ∷ []) ≡ header name ∷ [] = rw (h.cleaned, h.filled) refl in
    ap (λ t. kept clean (pieces t)) (sym (append_assoc name (lit ":") (b'\n' ∷ text)))
    ∙ (kept-feed clean (header name) text
        ∙ ap (λ t. t ++ kept clean (pieces text))
            (ap (kept clean) (pieces_one (header name) h.one_line) ∙ first))

kept_blank : (text : Str) → kept clean (pieces (b'\n' ∷ text)) ≡ kept clean (pieces text)
unfolding pieces
kept_blank text = rw clean_nil refl

pub kept_nothing : kept clean (pieces []) ≡ []
unfolding pieces
kept_nothing = rw clean_nil refl

kept-write_sections :
    (before sections : List Section)
    → IsReadable before sections
    → kept clean (pieces (write_sections sections)) ≡ section_lines sections
unfolding write_sections section_lines with_prefixed_ostream
kept-write_sections before [] readable = kept_nothing
kept-write_sections before (section ∷ sections) (valid, fresh, content, readable) =
    let rest = write_sections sections in
    kept-header section.name (prefix_lines (lit "  ") true section.content ++ (lit "\n\n" ++ rest))
      valid
    ∙ ap (λ t. header section.name ∷ t)
        (kept-feed clean (prefix_lines (lit "  ") true section.content) (b'\n' ∷ rest)
          ∙ (ap (λ t. t ++ kept clean (pieces (b'\n' ∷ rest)))
                (kept-prefix_lines clean clean (lit "  ") (refl, (refl, tt)) clean_indented
                  clean_nil clean_nil section.content)
              ∙ ap (λ t. content_lines section.content ++ t)
                  (kept_blank rest
                    ∙ kept-write_sections (before ++ as_read section ∷ []) sections readable)))

steps-section_lines :
    (before sections : List Section) (preamble : Str) (b : Bool)
    → IsReadable before sections
    → (c : Bool) × (steps
          (section_lines sections)
          (record { preamble = preamble; sections = before }, b)
        ≡ ok (record { preamble = preamble; sections = before ++ map as_read sections }, c))
unfolding steps section_lines
steps-section_lines before [] preamble b readable =
    (b, ap (λ t. ok (record { preamble = preamble; sections = t }, b)) (sym (append-nil before)))
steps-section_lines before (section ∷ sections) preamble b (valid, fresh, content, readable) =
    let (c, ih) =
      steps-section_lines (before ++ as_read section ∷ []) sections preamble true readable in
    (
      c,
      steps_section section.name (content_lines section.content) (section_lines sections) preamble
            before b valid fresh (kept-AllFilled (pieces section.content)) content
          ∙ (ih
              ∙ ap (λ t. ok (record { preamble = preamble; sections = t }, c))
                  (append_assoc before (as_read section ∷ []) (map as_read sections))),
    )

-- The preamble is all comments.
kept-preamble :
    (preamble text : Str)
    → kept clean (
        pieces (
          (if is_empty preamble
            then []
            else with_prefixed_ostream prefixed_comment preamble ++ lit "\n\n")
          ++ text))
      ≡ kept clean (pieces text)
unfolding with_prefixed_ostream
kept-preamble preamble text = from (is_empty preamble)
  where
    none_kept : (lines : List Str) → kept (λ line. []) lines ≡ []
    none_kept [] = refl
    none_kept (line ∷ lines) = none_kept lines

    from :
        (b : Bool)
        → kept clean (
            pieces (
              (if b then [] else prefix_lines prefixed_comment true preamble ++ lit "\n\n")
              ++ text))
          ≡ kept clean (pieces text)
    from true = refl
    from false =
        let prefixed = prefix_lines prefixed_comment true preamble in
        ap (λ t. kept clean (pieces t)) (append_assoc prefixed (lit "\n\n") text)
        ∙ (kept-feed clean prefixed (b'\n' ∷ text)
            ∙ (ap (λ t. t ++ kept clean (pieces (b'\n' ∷ text)))
                  (kept-prefix_lines clean (λ line. []) prefixed_comment (refl, (refl, tt))
                      clean_comment clean_nil refl preamble
                    ∙ none_kept (pieces preamble))
                ∙ kept_blank text))

-- A manifest that was written is read with its sections in order, where their names are valid and differ and no
-- line of a content is a section header. Of a content the lines are left that are not empty without comments and
-- outer white space, and the preamble is not read.
pub read-write :
    (format : ManifestFormat)
    → IsReadable [] format.sections
    → read (write format) empty_format
      ≡ ok (record { preamble = []; sections = map as_read format.sections })
unfolding read write
read-write format readable =
    let text = write_sections format.sections in
    let (c, e) = steps-section_lines [] format.sections [] false readable in
    ap (λ (r : Result State). r >>= λ st. ok st.0)
      (read_lines-steps (getlines (write format)) (empty_format, false)
        ∙ (ap (λ lines. steps lines (empty_format, false))
              (kept-getlines clean (write format) clean_nil
                ∙ (kept-preamble format.preamble text
                    ∙ kept-write_sections [] format.sections readable))
            ∙ e))
