-- ===== src/ManifestFormat/Tests.antt =====
-- A manifest with two sections, with comments and blank lines in their contents.
use r4r.Base.{
  lit, [], ◌∷◌, ok, throw, ◌≡◌, refl, map, isalpha, isalnum, isdigit, isspace, list_eq, nat_eq,
}
use r4r.Util.{string_trim, trim_start}
use r4r.ManifestFormat.{
  ManifestFormat, empty_format, getlines, prefix_lines, with_prefixed_ostream,
  is_valid_section_name, is_section_header, get_section, add_section, write_sections, write,
  until_comment, read_line, read_lines, read,
}
use r4r.ManifestFormat.Lines.{pieces}
use r4r.ManifestFormat.Steps.{IsReadable, as_read}
use r4r.ManifestFormat.RoundTrip.{read-write}

abbrev two_sections : ManifestFormat
two_sections = record {
  preamble = lit "Edit me.\n";
  sections =
      record { name = lit "copy"; content = lit "# help\nC /a\n\n  R /b # kept\n" }
      ∷ record { name = lit "_x1"; content = [] }
      ∷ [];
}

written :
    write two_sections
    ≡ lit "# Edit me.\n\n\ncopy:\n  # help\n  C /a\n  \n    R /b # kept\n\n\n_x1:\n\n\n"
unfolding write write_sections with_prefixed_ostream prefix_lines
written = refl

two_sections_read :
    map as_read two_sections.sections
    ≡ record { name = lit "copy"; content = lit "C /a\nR /b" }
      ∷ record { name = lit "_x1"; content = [] }
      ∷ []
unfolding pieces until_comment string_trim trim_start isspace
two_sections_read = refl

read_outside :
    read (lit "C /a\n") empty_format
    ≡ throw (lit "Content line encountered before any section header: C /a")
unfolding read read_lines read_line getlines until_comment string_trim trim_start isspace
    is_section_header is_valid_section_name
read_outside = refl

read_twice : read (lit "a:\na:\n") empty_format ≡ throw (lit "section: a already exists")
unfolding read read_lines read_line getlines until_comment string_trim trim_start isspace
    is_section_header is_valid_section_name isalpha isalnum isdigit add_section get_section list_eq
    nat_eq
read_twice = refl

two_sections-IsReadable : IsReadable [] two_sections.sections
unfolding is_valid_section_name is_section_header isalpha isalnum isdigit pieces until_comment
    string_trim trim_start isspace list_eq nat_eq
two_sections-IsReadable = (refl, refl, (refl, (refl, tt)), (refl, refl, tt, tt))

read-write_example :
    read (write two_sections) empty_format
    ≡ ok (record { preamble = []; sections = map as_read two_sections.sections })
read-write_example = read-write two_sections two_sections-IsReadable
