-- ===== src/ManifestSection/Text.antt =====
-- The lines that are left of the text of the files.
use r4r.Base.{
  ℕ, Str, lit, List, [], ◌∷◌, ◌++◌, false, isspace, All, All-append, append_assoc, eqb, any,
  list_eq, nat_eq, arith,
}
use r4r.Base.{◌≡◌, refl, sym, ap, ◌∙◌}
use r4r.Base.Dict.{Dict}
use r4r.Path.{FilePath, parse_path, path_string}
use r4r.Util.{string_trim, trim_start}
use r4r.Manifest.{
  FileStatus, copy, result, ignore_did_not_exist_before, ignore_no_longer_exist,
  ignore_not_accessible, ignore_directory, status_text,
}
use r4r.ManifestFormat.{
  prefix_lines, with_prefixed_ostream, prefixed_comment, but_last, until_comment,
}
use r4r.ManifestFormat.Lines.{pieces, kept, IsOneLine, kept-feed, pieces_one}
use r4r.ManifestFormat.Clean.{
  clean, clean_comment, HasNoComment, until_comment-HasNoComment, string_trim-solid_ends,
}
use r4r.ManifestFormat.RoundTrip.{kept_nothing}
use r4r.ManifestSection.{copy_help, save_entries}

-- A path whose text is one line and reads back: it starts with a slash, ends with no white space, and has no comment
-- sign.
pub record IsPlain (p : FilePath) : Type 0 where
  pub one_line : IsOneLine (path_string p)
  pub no_comment : HasNoComment (path_string p)
  pub behind : Str
  pub starts : path_string p ≡ b'/' ∷ behind
  pub before : Str
  pub last : ℕ
  pub ends : path_string p ≡ before ++ last ∷ []
  pub solid : isspace last ≡ false
  pub parsed : parse_path (path_string p) ≡ p

abbrev pub AllPlain : Dict FilePath FileStatus → Type 0
AllPlain = All (λ (entry : FilePath × FileStatus). IsPlain entry.0)

-- The lines that keep a mark.
abbrev pub marked_lines : Dict FilePath FileStatus → List Str
marked_lines [] = []
marked_lines ((p, copy) ∷ d) = (lit "C " ++ path_string p) ∷ marked_lines d
marked_lines ((p, result) ∷ d) = (lit "R " ++ path_string p) ∷ marked_lines d
marked_lines ((p, other) ∷ d) = marked_lines d

-- A mark before a plain path is left as it is.
kept_mark :
    (mark : ℕ) (p : FilePath) (rest : Str)
    → IsPlain p
    → eqb mark b'\n' ≡ false
    → eqb mark b'#' ≡ false
    → isspace mark ≡ false
    → kept clean (pieces (mark ∷ 32 ∷ path_string p ++ (lit "\n" ++ rest)))
      ≡ (mark ∷ 32 ∷ path_string p) ∷ kept clean (pieces rest)
kept_mark mark p rest plain feed sign solid =
    let line = mark ∷ 32 ∷ path_string p in
    let cleaned : clean line ≡ line =
      until_trim line (sign, (refl, plain.no_comment))
        (string_trim-solid_ends (mark ∷ 32 ∷ plain.before) (32 ∷ path_string p) mark plain.last
          solid plain.solid (ap (λ t. mark ∷ 32 ∷ t) plain.ends)) in
    let one : kept clean (line ∷ []) ≡ line ∷ [] = rw cleaned refl in
    kept-feed clean line rest
    ∙ ap (λ t. t ++ kept clean (pieces rest))
        (ap (kept clean) (pieces_one line (feed, (refl, plain.one_line))) ∙ one)
  where
    until_trim : (s : Str) → HasNoComment s → string_trim s ≡ s → clean s ≡ s
    until_trim s h e = ap string_trim (until_comment-HasNoComment s h) ∙ e

IsOneLine-any : (s : Str) → any (λ c. eqb c b'\n') s ≡ false → IsOneLine s
IsOneLine-any [] h = tt
IsOneLine-any (c ∷ s) h = (ground arith, IsOneLine-any s (ground arith))

status_text-IsOneLine : (s : FileStatus) → IsOneLine (status_text s)
unfolding status_text
status_text-IsOneLine copy = IsOneLine-any (status_text copy) refl
status_text-IsOneLine result = IsOneLine-any (status_text result) refl
status_text-IsOneLine ignore_did_not_exist_before =
    IsOneLine-any (status_text ignore_did_not_exist_before) refl
status_text-IsOneLine ignore_no_longer_exist =
    IsOneLine-any (status_text ignore_no_longer_exist) refl
status_text-IsOneLine ignore_not_accessible = IsOneLine-any (status_text ignore_not_accessible) refl
status_text-IsOneLine ignore_directory = IsOneLine-any (status_text ignore_directory) refl

-- The line of an ignored file is a comment.
kept_ignored :
    (p : FilePath) (s : FileStatus) (rest : Str)
    → IsPlain p
    → kept clean (
        pieces
          (lit "# " ++ (path_string p ++ (lit " # " ++ (status_text s ++ (lit "\n" ++ rest))))))
      ≡ kept clean (pieces rest)
kept_ignored p s rest plain =
    let remark = path_string p ++ (lit " # " ++ status_text s) in
    let line = lit "# " ++ remark in
    let one : IsOneLine remark =
      All-append (λ c. eqb c b'\n' ≡ false) (path_string p) (lit " # " ++ status_text s)
        plain.one_line (refl, (refl, (refl, status_text-IsOneLine s))) in
    let nothing : kept clean (line ∷ []) ≡ [] = rw (clean_comment remark) refl in
    ap (λ t. kept clean (pieces (lit "# " ++ t)))
      (sym (append_assoc (path_string p) (lit " # " ++ status_text s) (b'\n' ∷ rest)))
    ∙ (kept-feed clean line rest
        ∙ ap (λ t. t ++ kept clean (pieces rest))
            (ap (kept clean) (pieces_one line (refl, (refl, one))) ∙ nothing))

pub kept-save_entries :
    (d : Dict FilePath FileStatus)
    → AllPlain d
    → kept clean (pieces (save_entries d)) ≡ marked_lines d
unfolding save_entries isspace
kept-save_entries [] plain = kept_nothing
kept-save_entries ((p, copy) ∷ d) (plain, rest) =
    kept_mark b'C' p (save_entries d) plain refl refl refl
    ∙ ap (λ t. (lit "C " ++ path_string p) ∷ t) (kept-save_entries d rest)
kept-save_entries ((p, result) ∷ d) (plain, rest) =
    kept_mark b'R' p (save_entries d) plain refl refl refl
    ∙ ap (λ t. (lit "R " ++ path_string p) ∷ t) (kept-save_entries d rest)
kept-save_entries ((p, ignore_no_longer_exist) ∷ d) (plain, rest) = kept-save_entries d rest
kept-save_entries ((p, ignore_did_not_exist_before) ∷ d) (plain, rest) =
    kept_ignored p ignore_did_not_exist_before (save_entries d) plain ∙ kept-save_entries d rest
kept-save_entries ((p, ignore_not_accessible) ∷ d) (plain, rest) =
    kept_ignored p ignore_not_accessible (save_entries d) plain ∙ kept-save_entries d rest
kept-save_entries ((p, ignore_directory) ∷ d) (plain, rest) =
    kept_ignored p ignore_directory (save_entries d) plain ∙ kept-save_entries d rest

unfoldable help_comment : Str
unfolding with_prefixed_ostream prefix_lines
help_comment = but_last (with_prefixed_ostream prefixed_comment copy_help)

help_lines : with_prefixed_ostream prefixed_comment copy_help ≡ help_comment ++ b'\n' ∷ []
unfolding with_prefixed_ostream prefix_lines help_comment
help_lines = refl

kept-help_comment : kept clean (pieces help_comment) ≡ []
unfolding with_prefixed_ostream prefix_lines help_comment pieces until_comment string_trim
    trim_start
kept-help_comment = refl

-- The help above the files is all comments.
pub kept-copy_help :
    (rest : Str)
    → kept clean (pieces (with_prefixed_ostream prefixed_comment copy_help ++ rest))
      ≡ kept clean (pieces rest)
kept-copy_help rest =
    ap (λ t. kept clean (pieces t))
      (ap (λ t. t ++ rest) help_lines ∙ append_assoc help_comment (b'\n' ∷ []) rest)
    ∙ (kept-feed clean help_comment rest
        ∙ ap (λ t. t ++ kept clean (pieces rest)) kept-help_comment)
