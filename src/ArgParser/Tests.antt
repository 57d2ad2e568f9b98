-- ===== src/ArgParser/Tests.antt =====
-- A parser with two options and one positional, as src/main.cpp declares them in kind.
use r4r.Base.{
  Str, lit, List, [], ◌∷◌, Option, none, some, true, false, All, map, length, ◌+◌, ok, ◌≡◌, refl,
  list_eq, nat_eq, starts_with,
}
use r4r.ArgParser.{
  ParserOption, Positional, ArgumentParser, find_option, set_value, assign, parse_short_options,
  split_equal, set_long_option, parse_long_option, parse_positional, parse_positionals, parse_args,
  validate_options, validate_positionals, apply_defaults, parse,
}
use r4r.ArgParser.Keeps.{SameSpecs}
use r4r.ArgParser.Valid.{is_served, is_filled, parse-served}
use r4r.ArgParser.Settings.{print_setting, is_settable, are_settings, parse_args-settings}

abbrev output : Option Str → ParserOption Unit
output v = record {
  short_name = lit "o";
  long_name = lit "output";
  help = lit "Path";
  has_arg = some (lit "PATH");
  is_required = false;
  default_value = some (lit ".");
  callback = none;
  value = v;
}

abbrev verbose : Option Str → ParserOption Unit
verbose v = record {
  short_name = lit "v";
  long_name = [];
  help = lit "Verbose";
  has_arg = none;
  is_required = false;
  default_value = none;
  callback = none;
  value = v;
}

abbrev command : List Str → Positional Unit
command values = record {
  name = lit "command";
  help = lit "The program to trace";
  is_required = true;
  allows_multiple = true;
  callback = none;
  values = values;
}

abbrev parser : Option Str → Option Str → List Str → ArgumentParser Unit
parser o v values = record {
  options = output o ∷ verbose v ∷ [];
  positionals = command values ∷ [];
  client = tt;
}

-- The options end at the first positional.
parsed :
    parse (lit "-v" ∷ lit "R" ∷ lit "-o" ∷ []) (parser none none [])
    ≡ ok (parser (some (lit ".")) (some []) (lit "R" ∷ lit "-o" ∷ []))
unfolding parse parse_args parse_short_options find_option set_value assign parse_positionals
    parse_positional validate_options validate_positionals apply_defaults starts_with list_eq nat_eq
parsed = refl

-- An argument that is just two dashes sets the first option that lacks one of its names.
lone_dashes :
    parse (lit "--" ∷ lit "R" ∷ []) (parser none none [])
    ≡ ok (parser (some (lit ".")) (some []) (lit "R" ∷ []))
unfolding parse parse_args parse_long_option set_long_option split_equal find_option set_value
    assign parse_positionals parse_positional validate_options validate_positionals apply_defaults
    starts_with list_eq nat_eq
lone_dashes = refl

abbrev served : ArgumentParser Unit
served = parser (some (lit ".")) (some []) (lit "R" ∷ lit "-o" ∷ [])

parse-served_example :
    All (λ opt. is_served opt ≡ true) served.options
    × All (λ pos. is_filled pos ≡ true) served.positionals
    × SameSpecs (parser none none []) served
parse-served_example =
    parse-served (lit "-v" ∷ lit "R" ∷ lit "-o" ∷ []) (parser none none []) parsed

abbrev two_outputs : List (Str × Str)
two_outputs = (lit "output", lit "a") ∷ (lit "output", lit "b=c") ∷ []

parse_args-settings_example :
    parse_args
      (length (map print_setting two_outputs) + 1)
      (map print_setting two_outputs)
      (parser none none [])
    ≡ ok (parser (some (lit "b=c")) none [])
unfolding set_value are_settings is_settable list_eq nat_eq
parse_args-settings_example = parse_args-settings two_outputs (parser none none []) refl
