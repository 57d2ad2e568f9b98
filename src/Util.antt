-- ===== src/Util.antt =====
-- src/util.h: the functions on strings.
pub mod Quote
pub mod Split
pub mod Trim
mod Tests
use r4r.Base.{
  ℕ, zero, suc, Str, lit, List, [], ◌∷◌, ◌++◌, Option, none, some, Bool, true, false, ◌&&◌, ◌||◌,
  not, is_empty, length, drop, reverse, starts_with, isspace, tolower, eqb, map, if◌then◌else◌,
  ◌==◌, list_eq, nat_eq,
}
use r4r.Base.Dict
use r4r.Base.Dict.{Dict}

-- The characters for which `escape_cmd_arg` quotes its argument.
unfoldable pub is_special : ℕ → Bool
is_special c =
    eqb c b' '
    || eqb c 9
    || eqb c 10
    || eqb c 39
    || eqb c b'"'
    || eqb c b'\\'
    || eqb c b'$'
    || eqb c b'`'
    || eqb c b'&'
    || eqb c b'|'
    || eqb c b'>'
    || eqb c b'<'
    || eqb c b'*'
    || eqb c b'?'
    || eqb c b'('
    || eqb c b')'
    || eqb c b'['
    || eqb c b']'
    || eqb c b';'
    || eqb c b'!'
    || eqb c b'#'

unfoldable pub needs_escaping : Str → Bool
needs_escaping [] = false
needs_escaping (c ∷ s) = is_special c || needs_escaping s

-- Inside single quotes: the quote is closed, escaped and opened again.
unfoldable pub single_quoted : Str → Str
single_quoted [] = []
single_quoted (c ∷ s) =
    if eqb c 39 then 39 ∷ b'\\' ∷ 39 ∷ 39 ∷ single_quoted s else c ∷ single_quoted s

unfoldable pub double_quoted : Str → Str
double_quoted [] = []
double_quoted (c ∷ s) =
    if eqb c b'$' || eqb c b'`' || eqb c b'"' || eqb c b'\\' || eqb c b'!'
    then b'\\' ∷ c ∷ double_quoted s
    else c ∷ double_quoted s

unfoldable pub escape_cmd_arg : Str → Bool → Bool → Str
escape_cmd_arg arg single_quote force =
    if is_empty arg && not force
    then arg
    else if not (force || needs_escaping arg)
    then arg
    else if single_quote
    then 39 ∷ (single_quoted arg ++ 39 ∷ [])
    else b'"' ∷ (double_quoted arg ++ b'"' ∷ [])

-- `str.find(delim, start)`: what stands before the first occurrence, and behind it.
unfoldable pub find_delim : Str → Str → Option (Str × Str)
find_delim delim [] = if is_empty delim then some ([], []) else none
find_delim delim (c ∷ s) =
    let later : Option (Str × Str) = elim (find_delim delim s) [
      | none ↦ none
      | some r ↦ some (c ∷ r.0, r.1)
    ] in
    if starts_with (c ∷ s) delim then some ([], drop (length delim) (c ∷ s)) else later

-- `string_split_n`, with the places of the result that are left.
unfoldable pub string_split_n : ℕ → Str → Str → Option (List Str)
string_split_n zero delim s = elim (find_delim delim s) [
  | none ↦ if is_empty s then some [] else none
  | some r ↦ none
]
string_split_n (suc n) delim s = elim (find_delim delim s) [
  | none ↦ if eqb n 0 then some (s ∷ []) else none
  | some (front, back) ↦ elim (string_split_n n delim back) [
    | none ↦ none
    | some parts ↦ some (front ∷ parts)
  ]
]

unfoldable pub trim_start : Str → Str
trim_start [] = []
trim_start (c ∷ s) = let rest = trim_start s in if isspace c then rest else c ∷ s

unfoldable pub string_trim : Str → Str
string_trim s = reverse (trim_start (reverse (trim_start s)))

unfoldable pub string_iequals : Str → Str → Bool
string_iequals [] [] = true
string_iequals [] (d ∷ t) = false
string_iequals (c ∷ s) [] = false
string_iequals (c ∷ s) (d ∷ t) = eqb (tolower c) (tolower d) && string_iequals s t

unfoldable pub string_tolowercase : Str → Str
string_tolowercase s = map tolower s

abbrev ends_with_quote : Str → Bool
ends_with_quote s = starts_with (reverse s) (b'"' ∷ [])

-- A leading and a trailing double quote are taken off together.
unfoldable pub string_unquote : Str → Str
string_unquote [] = []
string_unquote (c ∷ []) = c ∷ []
string_unquote (c ∷ e ∷ s) =
    if eqb c b'"' && ends_with_quote (e ∷ s) then reverse (drop 1 (reverse (e ∷ s))) else c ∷ e ∷ s

-- A line of an os-release file.
unfoldable pub add_release_line : Str → Dict Str Str → Dict Str Str
add_release_line line0 d =
    let line = string_trim line0 in
    elim (find_delim (lit "=") line) [
      | none ↦ d
      | some (key, value) ↦
          if starts_with line (lit "#")
          then d
          else Dict.insert_or_assign (string_trim key)
              (string_trim (string_unquote (string_trim value))) d
    ]

-- `load_os_release_map`, on the lines of the stream.
unfoldable pub load_os_release_map : List Str → Dict Str Str → Dict Str Str
load_os_release_map [] d = d
load_os_release_map (line ∷ lines) d = load_os_release_map lines (add_release_line line d)

pub record OsRelease : Type 0 where
  pub distribution : Str
  pub release : Str

-- `load_os_release`, from the map of the file.
unfoldable pub load_os_release : Dict Str Str → Option OsRelease
load_os_release d = elim (Dict.lookup (lit "ID") d) [
  | none ↦ none
  | some id ↦ some (record {
    distribution = string_tolowercase id;
    release = elim (Dict.lookup (lit "VERSION_ID") d) [ none ↦ [] | some v ↦ string_tolowercase v ];
  })
]
