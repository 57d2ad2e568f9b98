-- ===== src/Util/Tests.antt =====
-- The string functions on short texts.
use r4r.Base.{
  none, lit, [], ◌∷◌, some, true, false, length, ◌≡◌, refl, ◌⊎◌, isspace, list_eq, nat_eq,
  starts_with,
}
use r4r.Base.Dict
use r4r.Util.{
  is_special, needs_escaping, single_quoted, double_quoted, escape_cmd_arg, find_delim,
  string_split_n, trim_start, string_trim, string_unquote, add_release_line, load_os_release_map,
}
use r4r.Util.Quote.{read_word, read_argument, read_argument-escape_cmd_arg}
use r4r.Util.Split.{ended, string_split_n-ended}

escaped_quote : escape_cmd_arg (lit "it's") true false ≡ lit "'it'\\''s'"
unfolding escape_cmd_arg needs_escaping is_special single_quoted
escaped_quote = refl

read_argument-escape_cmd_arg_example :
    read_argument (escape_cmd_arg (lit "it's") true false) ≡ some (lit "it's")
read_argument-escape_cmd_arg_example =
    read_argument-escape_cmd_arg (lit "it's") true false refl refl

-- A tilde is left as it is, and the shell puts a folder in its place.
escaped_tilde : read_argument (escape_cmd_arg (lit "~/x") true false) ≡ none
unfolding escape_cmd_arg needs_escaping is_special read_argument
escaped_tilde = refl

-- In double quotes, the shell keeps the backslash before an exclamation mark.
escaped_bang : read_argument (escape_cmd_arg (lit "a!") false false) ≡ some (lit "a\\!")
unfolding escape_cmd_arg needs_escaping is_special double_quoted read_argument read_word
escaped_bang = refl

-- A delimiter behind the last part is accepted.
split_trailing : string_split_n 2 (lit ", ") (lit "a, b, ") ≡ some (lit "a" ∷ lit "b" ∷ [])
unfolding string_split_n find_delim starts_with
split_trailing = refl

string_split_n-ended_example :
    (length (lit "a" ∷ lit "b" ∷ []) ≡ 2)
    × ((ended (lit ", ") (lit "a" ∷ lit "b" ∷ []) ≡ lit "a, b, , ")
        ⊎ (ended (lit ", ") (lit "a" ∷ lit "b" ∷ []) ≡ lit "a, b, "))
string_split_n-ended_example = string_split_n-ended 2 (lit ", ") (lit "a, b, ") split_trailing

release_lines :
    load_os_release_map (lit "# made up" ∷ lit " ID = \" Debian\" " ∷ lit "x" ∷ []) []
    ≡ (lit "ID", lit "Debian") ∷ []
unfolding load_os_release_map add_release_line string_trim trim_start isspace find_delim starts_with
    string_unquote Dict.insert_or_assign list_eq nat_eq
release_lines = refl
