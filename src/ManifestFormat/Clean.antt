-- ===== src/ManifestFormat/Clean.antt =====
-- What is left of a line without its comment and its outer white space.
use r4r.Base.{
  ℕ, Str, lit, [], ◌∷◌, ◌++◌, true, false, ◌||◌, is_empty, isspace, isalpha, isalnum, isdigit, All,
  reverse, reverse-append, reverse-reverse, eqb, arith,
}
use r4r.Base.{◌≡◌, refl, sym, ap, ◌∙◌}
use r4r.Util.{trim_start, string_trim}
use r4r.Util.Trim.{IsSolid, trim_start-blank, trim_start-solid, string_trim-IsSolid}
use r4r.ManifestFormat.{
  comment, until_comment, is_valid_section_name, all_name_chars, but_last, ends_with,
  is_section_header,
}
use r4r.ManifestFormat.Lines.{IsOneLine}

abbrev pub clean : Str → Str
clean line = string_trim (until_comment line)

pub clean_nil : clean [] ≡ []
unfolding until_comment string_trim trim_start
clean_nil = refl

pub clean_indented : (line : Str) → clean (lit "  " ++ line) ≡ clean line
unfolding until_comment string_trim isspace
clean_indented line =
    let t = until_comment line in
    ap (λ s. reverse (trim_start (reverse s)))
      (trim_start-blank 32 (32 ∷ t) refl ∙ trim_start-blank 32 t refl)

pub clean_comment : (line : Str) → clean (lit "# " ++ line) ≡ []
unfolding until_comment string_trim trim_start
clean_comment line = refl

abbrev pub HasNoComment : Str → Type 0
HasNoComment = All (λ c. eqb c comment ≡ false)

pub until_comment-HasNoComment : (s : Str) → HasNoComment s → until_comment s ≡ s
unfolding until_comment
until_comment-HasNoComment [] h = refl
until_comment-HasNoComment (c ∷ s) (other, h) =
    rw other (ap (λ t. c ∷ t) (until_comment-HasNoComment s h))

-- A text that starts and ends with no white space is trimmed.
pub string_trim-solid_ends :
    (s t : Str) (c d : ℕ)
    → isspace c ≡ false
    → isspace d ≡ false
    → c ∷ t ≡ s ++ d ∷ []
    → string_trim (c ∷ t) ≡ c ∷ t
unfolding string_trim
string_trim-solid_ends s t c d first last e =
    let back : reverse (c ∷ t) ≡ d ∷ reverse s = ap reverse e ∙ reverse-append s (d ∷ []) in
    ap (λ u. reverse (trim_start (reverse u))) (trim_start-solid c t first)
    ∙ (ap (λ u. reverse (trim_start u)) back
        ∙ (ap reverse (trim_start-solid d (reverse s) last ∙ sym back) ∙ reverse-reverse (c ∷ t)))

name_char :
    (c : ℕ)
    → (isalnum c || eqb c b'_') ≡ true
    → (eqb c comment ≡ false) × ((eqb c b'\n' ≡ false) × (isspace c ≡ false))
unfolding isalnum isalpha isdigit isspace
name_char c h = (ground arith, (ground arith, ground arith))

-- The line of a section header.
abbrev pub header : Str → Str
header name = name ++ lit ":"

all_name_chars-plain :
    (s : Str)
    → all_name_chars s ≡ true
    → HasNoComment (header s) × (IsOneLine (header s) × IsSolid (header s))
unfolding isspace
all_name_chars-plain [] h = ((refl, tt), ((refl, tt), (refl, tt)))
all_name_chars-plain (c ∷ s) h =
    let (a, (b, d)) = name_char c (ground arith) in
    let (no_comments, (one, solid)) = all_name_chars-plain s (ground arith) in
    ((a, no_comments), ((b, one), (d, solid)))

but_last-header : (s : Str) → but_last (header s) ≡ s
but_last-header [] = refl
but_last-header (c ∷ []) = refl
but_last-header (c ∷ d ∷ s) = ap (λ t. c ∷ t) (but_last-header (d ∷ s))

ends_with-header : (s : Str) → ends_with b':' (header s) ≡ true
ends_with-header [] = refl
ends_with-header (c ∷ []) = refl
ends_with-header (c ∷ d ∷ s) = ends_with-header (d ∷ s)

-- The line of a valid name is read as it is, as a header of this name.
pub record HeaderLine (name : Str) : Type 0 where
  pub one_line : IsOneLine (header name)
  pub cleaned : clean (header name) ≡ header name
  pub filled : is_empty (header name) ≡ false
  pub is_header : is_section_header (header name) ≡ true
  pub named : but_last (header name) ≡ name

pub header-HeaderLine : (name : Str) → is_valid_section_name name ≡ true → HeaderLine name
unfolding is_valid_section_name is_section_header
header-HeaderLine [] valid = absurd (cc)
header-HeaderLine (c ∷ s) valid =
    let (no_comment, (one, solid)) = all_name_chars-plain (c ∷ s) (ground arith) in
    record {
      one_line = one;
      cleaned =
          ap string_trim (until_comment-HasNoComment (header (c ∷ s)) no_comment)
          ∙ string_trim-IsSolid (header (c ∷ s)) solid;
      filled = refl;
      is_header = rw (ends_with-header (c ∷ s), but_last-header (c ∷ s), valid) refl;
      named = but_last-header (c ∷ s);
    }
