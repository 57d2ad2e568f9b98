-- ===== src/Util/Quote.antt =====
-- `escape_cmd_arg` against the quoting rules of the shell (POSIX, Shell Command Language, 2.2 and 2.3).
use r4r.Base.{
  ℕ, Str, [], ◌∷◌, ◌++◌, Option, none, some, Bool, true, false, ◌&&◌, ◌||◌, not, is_empty, eqb,
  if◌then◌else◌, ◌≡◌, refl, ap, ◌∙◌, Bool-cases, inl, inr, arith,
}
use r4r.Util.{is_special, needs_escaping, single_quoted, double_quoted, escape_cmd_arg}

-- Where the shell stands in a word, behind an unquoted backslash or one in double quotes too.
pub data Mode : Type 0 where
  unquoted : Mode
  backslash : Mode
  single : Mode
  double : Mode
  double_backslash : Mode

abbrev add : ℕ → Option Str → Option Str
add c none = none
add c (some s) = some (c ∷ s)

-- Outside of quotes, these end the word: an operator or white space.
abbrev ends_word : ℕ → Bool
ends_word c =
    eqb c b'|'
    || eqb c b'&'
    || eqb c b';'
    || eqb c b'<'
    || eqb c b'>'
    || eqb c b'('
    || eqb c b')'
    || eqb c 9
    || eqb c 10
    || eqb c b' '

-- These make the shell put something else in the word's place: in double quotes too, or outside of
-- quotes only (a pattern for file names).
abbrev expands : ℕ → Bool
expands c = eqb c b'$' || eqb c b'`'

abbrev matches_files : ℕ → Bool
matches_files c = eqb c b'*' || eqb c b'?' || eqb c b'['

-- The rest of a word up to the end of the text; none where the text is not the rest of one word, or
-- is not taken literally.
unfoldable pub read_word : Mode → Str → Option Str
read_word unquoted [] = some []
read_word backslash [] = none
read_word single [] = none
read_word double [] = none
read_word double_backslash [] = none
read_word unquoted (c ∷ s) =
    let in_single = read_word single s in
    let in_double = read_word double s in
    let escaped = read_word backslash s in
    let plain = add c (read_word unquoted s) in
    if eqb c 39
    then in_single
    else if eqb c b'"'
    then in_double
    else if eqb c b'\\'
    then escaped
    else if ends_word c || expands c || matches_files c
    then none
    else plain
read_word backslash (c ∷ s) =
    let rest = read_word unquoted s in if eqb c 10 then rest else add c rest
read_word single (c ∷ s) =
    let closed = read_word unquoted s in
    let more = add c (read_word single s) in if eqb c 39 then closed else more
read_word double (c ∷ s) =
    let closed = read_word unquoted s in
    let escaped = read_word double_backslash s in
    let more = add c (read_word double s) in
    if eqb c b'"' then closed else if eqb c b'\\' then escaped else if expands c then none else more
read_word double_backslash (c ∷ s) =
    let rest = read_word double s in
    if eqb c 10
    then rest
    else if expands c || eqb c b'"' || eqb c b'\\'
    then add c rest
    else add b'\\' (add c rest)

-- The one argument that the shell makes of a text. No text is no argument, and at the start of a word
-- a number sign begins a comment and a tilde stands for a folder.
unfoldable pub read_argument : Str → Option Str
read_argument [] = none
read_argument (c ∷ s) = if eqb c b'#' || eqb c b'~' then none else read_word unquoted (c ∷ s)

-- The text is not empty and does not begin with a tilde.
abbrev pub starts_plain : Str → Bool
starts_plain [] = false
starts_plain (c ∷ s) = not (eqb c b'~')

-- There is no exclamation mark in the text.
abbrev pub has_no_bang : Str → Bool
has_no_bang [] = true
has_no_bang (c ∷ s) = not (eqb c b'!') && has_no_bang s

is_special-plain :
    (c : ℕ)
    → is_special c ≡ false
    → (eqb c 39 ≡ false)
      × (eqb c b'"' ≡ false)
      × (eqb c b'\\' ≡ false)
      × (eqb c b'#' ≡ false)
      × ((ends_word c || expands c || matches_files c) ≡ false)
unfolding is_special
is_special-plain c h = (ground arith, ground arith, ground arith, ground arith, ground arith)

read_word-plain : (s : Str) → needs_escaping s ≡ false → read_word unquoted s ≡ some s
unfolding needs_escaping read_word
read_word-plain [] h = refl
read_word-plain (c ∷ s) h =
    let special : is_special c ≡ false = ground arith in
    let ih = read_word-plain s (ground arith) in
    let (quote, quotes, slash, _, plain) = is_special-plain c special in
    rw (quote, quotes, slash, plain) (ap (add c) ih)

read_word-single_quoted : (s : Str) → read_word single (single_quoted s ++ 39 ∷ []) ≡ some s
unfolding read_word single_quoted
read_word-single_quoted [] = refl
read_word-single_quoted (c ∷ s) = elim (Bool-cases (eqb c 39)) [
  | inl quote ↦
      let same : 39 ≡ c = ground arith in
      rw quote (ap (add 39) (read_word-single_quoted s) ∙ ap (λ x. some (x ∷ s)) same)
  | inr other ↦ rw other (rw other (ap (add c) (read_word-single_quoted s)))
]

-- The characters behind which the backslashes of `double_quoted` stand.
abbrev stays_escaped : ℕ → Bool
stays_escaped c = expands c || eqb c b'"' || eqb c b'\\'

stays_escaped-true : (c : ℕ) → stays_escaped c ≡ true → eqb c 10 ≡ false
stays_escaped-true c h = ground arith

stays_escaped-false :
    (c : ℕ)
    → stays_escaped c ≡ false
    → (eqb c b'"' ≡ false) × (eqb c b'\\' ≡ false) × (expands c ≡ false)
stays_escaped-false c h = (ground arith, ground arith, ground arith)

double_quoted-cons :
    (c : ℕ) (s : Str)
    → eqb c b'!' ≡ false
    → double_quoted (c ∷ s)
      ≡ (if stays_escaped c then b'\\' ∷ c ∷ double_quoted s else c ∷ double_quoted s)
unfolding double_quoted
double_quoted-cons c s h = rw h (ground arith)

read_word-double_quoted :
    (s : Str) → has_no_bang s ≡ true → read_word double (double_quoted s ++ b'"' ∷ []) ≡ some s
unfolding read_word
read_word-double_quoted [] h = unfold double_quoted in refl
read_word-double_quoted (c ∷ s) h =
    let step = ap (add c) (read_word-double_quoted s (ground arith)) in
    let bang : eqb c b'!' ≡ false = ground arith in
    rw (double_quoted-cons c s bang) (elim (Bool-cases (stays_escaped c)) [
      | inl special ↦ rw special (rw (stays_escaped-true c special, special) step)
      | inr other ↦
          let (quotes, slash, literal) = stays_escaped-false c other in
          rw other (rw (quotes, slash, literal) step)
    ])

read_argument-plain :
    (s : Str) → starts_plain s ≡ true → needs_escaping s ≡ false → read_argument s ≡ some s
unfolding read_argument
read_argument-plain [] start h = absurd (cc)
read_argument-plain (c ∷ s) start h =
    let special : is_special c ≡ false = unfold needs_escaping in ground arith in
    let (_, _, _, hash, _) = is_special-plain c special in
    let tilde : eqb c b'~' ≡ false = ground arith in rw (hash, tilde) (read_word-plain (c ∷ s) h)

-- The shell reads the argument back from what `escape_cmd_arg` makes of it, with single quotes or, if
-- the argument has no exclamation mark, with double quotes; unless quotes are forced, the argument
-- must not be empty or begin with a tilde.
pub read_argument-escape_cmd_arg :
    (arg : Str) (single_quote force : Bool)
    → (force || starts_plain arg) ≡ true
    → (single_quote || has_no_bang arg) ≡ true
    → read_argument (escape_cmd_arg arg single_quote force) ≡ some arg
unfolding escape_cmd_arg
read_argument-escape_cmd_arg arg single_quote force start bang =
    from (is_empty arg && not force) (force || needs_escaping arg) refl refl single_quote bang
  where
    nothing : {A : Type 0} (s : Str) → is_empty s ≡ true → starts_plain s ≡ true → A
    nothing [] e plain = absurd (cc)
    nothing (c ∷ s) e plain = absurd (cc)

    from :
        (empty escaped : Bool)
        → (is_empty arg && not force) ≡ empty
        → (force || needs_escaping arg) ≡ escaped
        → (single_quote : Bool) → (single_quote || has_no_bang arg) ≡ true
        → read_argument (
            if empty
            then arg
            else if not escaped
            then arg
            else if single_quote
            then 39 ∷ (single_quoted arg ++ 39 ∷ [])
            else b'"' ∷ (double_quoted arg ++ b'"' ∷ []))
          ≡ some arg
    from true escaped none_ e q bang =
        nothing arg (ground (arith, none_)) (ground (arith, none_, start))
    from false false some_ e q bang =
        read_argument-plain arg (ground (arith, e, start)) (ground (arith, e))
    from false true some_ e true bang =
        unfold read_argument read_word in read_word-single_quoted arg
    from false true some_ e false bang =
        unfold read_argument read_word in read_word-double_quoted arg bang
