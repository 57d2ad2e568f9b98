-- ===== src/ManifestSection/Load.antt =====
-- Loading the lines of the files that keep a mark.
use r4r.Base.{
  ℕ, Str, List, [], ◌∷◌, ◌++◌, some, Bool, false, ◌&&◌, isspace, isalpha, isalnum, isdigit, All,
  append_assoc, append-nil, reverse, starts_with, list_eq, nat_eq, arith,
}
use r4r.Base.{◌≡◌, inl, inr, refl, sym, ap, ◌∙◌, subst}
use r4r.Base.Dict
use r4r.Base.Dict.{Dict}
use r4r.Path.{FilePath, path_string}
use r4r.Util.{string_trim, trim_start}
use r4r.Util.Trim.{trim_start-blank}
use r4r.Manifest.{
  FileStatus, copy, result, ignore_did_not_exist_before, ignore_no_longer_exist,
  ignore_not_accessible, ignore_directory,
}
use r4r.ManifestFormat.{getlines, is_section_header, is_valid_section_name, but_last, ends_with}
use r4r.ManifestFormat.Lines.{pieces, IsOneLine, pieces-append, pieces_one, getlines-pieces}
use r4r.ManifestFormat.Clean.{string_trim-solid_ends}
use r4r.ManifestFormat.Steps.{IsContent, joined}
use r4r.ManifestSection.{line_status, line_path, load_line, load_lines}
use r4r.ManifestSection.Entries.{marked_entries, emplace_all}
use r4r.ManifestSection.Text.{IsPlain, AllPlain, marked_lines}

-- A mark and a path are no section header.
marked-IsContent : (mark : ℕ) (t u : Str) → t ≡ b'/' ∷ u → IsContent (mark ∷ 32 ∷ t)
unfolding is_section_header is_valid_section_name isalpha isalnum isdigit
marked-IsContent mark t u e =
    subst (λ x. is_section_header (mark ∷ 32 ∷ x) ≡ false) (sym e)
      (spaced (but_last (b'/' ∷ u)) (ends_with b':' (b'/' ∷ u)))
  where
    spaced : (v : Str) (b : Bool) → (b && is_valid_section_name (mark ∷ 32 ∷ v)) ≡ false
    spaced v b = ground arith

pub marked_lines-IsContent :
    (d : Dict FilePath FileStatus) → AllPlain d → All IsContent (marked_lines d)
marked_lines-IsContent [] plain = tt
marked_lines-IsContent ((p, copy) ∷ d) (plain, rest) =
    (marked-IsContent b'C' (path_string p) plain.behind plain.starts, marked_lines-IsContent d rest)
marked_lines-IsContent ((p, result) ∷ d) (plain, rest) =
    (marked-IsContent b'R' (path_string p) plain.behind plain.starts, marked_lines-IsContent d rest)
marked_lines-IsContent ((p, ignore_did_not_exist_before) ∷ d) (plain, rest) =
    marked_lines-IsContent d rest
marked_lines-IsContent ((p, ignore_no_longer_exist) ∷ d) (plain, rest) =
    marked_lines-IsContent d rest
marked_lines-IsContent ((p, ignore_not_accessible) ∷ d) (plain, rest) =
    marked_lines-IsContent d rest
marked_lines-IsContent ((p, ignore_directory) ∷ d) (plain, rest) = marked_lines-IsContent d rest

-- The path behind a mark is read back.
load_path :
    (p : FilePath) → IsPlain p → line_path (string_trim (32 ∷ path_string p)) ≡ some (path_string p)
unfolding line_path string_trim isspace starts_with
load_path p plain = ap line_path (trimmed ∙ plain.starts) ∙ (slashed ∙ ap some (sym plain.starts))
  where
    slashed : line_path (b'/' ∷ plain.behind) ≡ some (b'/' ∷ plain.behind)
    slashed = refl

    trimmed : string_trim (32 ∷ path_string p) ≡ path_string p
    trimmed =
        ap (λ t. reverse (trim_start (reverse t))) (trim_start-blank 32 (path_string p) refl)
        ∙ subst (λ t. string_trim t ≡ t) (sym plain.starts)
            (string_trim-solid_ends plain.before plain.behind b'/' plain.last refl plain.solid
              (sym plain.starts ∙ plain.ends))

load_mark :
    (mark : ℕ) (s : FileStatus) (p : FilePath) (d : Dict FilePath FileStatus)
    → IsPlain p
    → line_status (mark ∷ 32 ∷ path_string p) ≡ some s
    → load_line (mark ∷ 32 ∷ path_string p) d ≡ Dict.try_emplace p s d
unfolding load_line
load_mark mark s p d plain status =
    rw (load_line, status, load_path p plain) (ap (λ q. Dict.try_emplace q s d) plain.parsed)

pub load_lines-marked_lines :
    (es d : Dict FilePath FileStatus)
    → AllPlain es
    → load_lines (marked_lines es) d ≡ emplace_all (marked_entries es) d
unfolding load_lines line_status starts_with
load_lines-marked_lines [] d plain = refl
load_lines-marked_lines ((p, copy) ∷ es) d (plain, rest) =
    ap (load_lines (marked_lines es)) (load_mark b'C' copy p d plain refl)
    ∙ load_lines-marked_lines es (Dict.try_emplace p copy d) rest
load_lines-marked_lines ((p, result) ∷ es) d (plain, rest) =
    ap (load_lines (marked_lines es)) (load_mark b'R' result p d plain refl)
    ∙ load_lines-marked_lines es (Dict.try_emplace p result d) rest
load_lines-marked_lines ((p, ignore_did_not_exist_before) ∷ es) d (plain, rest) =
    load_lines-marked_lines es d rest
load_lines-marked_lines ((p, ignore_no_longer_exist) ∷ es) d (plain, rest) =
    load_lines-marked_lines es d rest
load_lines-marked_lines ((p, ignore_not_accessible) ∷ es) d (plain, rest) =
    load_lines-marked_lines es d rest
load_lines-marked_lines ((p, ignore_directory) ∷ es) d (plain, rest) =
    load_lines-marked_lines es d rest

marked_lines-IsOneLine :
    (d : Dict FilePath FileStatus) → AllPlain d → All IsOneLine (marked_lines d)
marked_lines-IsOneLine [] plain = tt
marked_lines-IsOneLine ((p, copy) ∷ d) (plain, rest) =
    ((refl, (refl, plain.one_line)), marked_lines-IsOneLine d rest)
marked_lines-IsOneLine ((p, result) ∷ d) (plain, rest) =
    ((refl, (refl, plain.one_line)), marked_lines-IsOneLine d rest)
marked_lines-IsOneLine ((p, ignore_did_not_exist_before) ∷ d) (plain, rest) =
    marked_lines-IsOneLine d rest
marked_lines-IsOneLine ((p, ignore_no_longer_exist) ∷ d) (plain, rest) =
    marked_lines-IsOneLine d rest
marked_lines-IsOneLine ((p, ignore_not_accessible) ∷ d) (plain, rest) =
    marked_lines-IsOneLine d rest
marked_lines-IsOneLine ((p, ignore_directory) ∷ d) (plain, rest) = marked_lines-IsOneLine d rest

-- The lines that were joined are the pieces of the content.
pieces-joined :
    (c : ℕ) (content : Str) (lines : List Str)
    → All IsOneLine lines
    → pieces (joined (c ∷ content) lines) ≡ pieces (c ∷ content) ++ lines
pieces-joined c content [] one = sym (append-nil (pieces (c ∷ content)))
pieces-joined c content (line ∷ lines) (one, rest) =
    pieces-joined c (content ++ b'\n' ∷ line) lines rest
    ∙ (ap (λ t. t ++ lines)
          (pieces-append (c ∷ content) line
            ∙ ap (λ t. pieces (c ∷ content) ++ t) (pieces_one line one))
        ∙ append_assoc (pieces (c ∷ content)) (line ∷ []) lines)

-- A last line with nothing in it is passed over.
load_lines_blank :
    (lines : List Str) (d : Dict FilePath FileStatus)
    → load_lines (lines ++ [] ∷ []) d ≡ load_lines lines d
unfolding load_lines load_line line_status starts_with
load_lines_blank [] d = refl
load_lines_blank (line ∷ lines) d = load_lines_blank lines (load_line line d)

load_lines-pieces :
    (content : Str) (d : Dict FilePath FileStatus)
    → load_lines (getlines content) d ≡ load_lines (pieces content) d
load_lines-pieces content d = elim (getlines-pieces content) [
  | inl e ↦ ap (λ lines. load_lines lines d) e
  | inr e ↦ sym (load_lines_blank (getlines content) d) ∙ ap (λ lines. load_lines lines d) e
]

load_lines-pieces-joined :
    (lines : List Str)
    → All IsOneLine lines
    → load_lines (pieces (joined [] lines)) [] ≡ load_lines lines []
unfolding load_lines load_line line_status starts_with pieces
load_lines-pieces-joined [] one = refl
load_lines-pieces-joined ([] ∷ lines) (first, rest) = load_lines-pieces-joined lines rest
load_lines-pieces-joined ((c ∷ line) ∷ lines) (first, rest) =
    ap (λ t. load_lines t [])
      (pieces-joined c line lines rest ∙ ap (λ t. t ++ lines) (pieces_one (c ∷ line) first))

-- Loading the content that was joined from the lines of the marked files.
pub load_lines-joined :
    (es : Dict FilePath FileStatus)
    → AllPlain es
    → load_lines (getlines (joined [] (marked_lines es))) [] ≡ emplace_all (marked_entries es) []
load_lines-joined es plain =
    load_lines-pieces (joined [] (marked_lines es)) []
    ∙ (load_lines-pieces-joined (marked_lines es) (marked_lines-IsOneLine es plain)
        ∙ load_lines-marked_lines es [] plain)
