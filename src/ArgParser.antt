-- ===== src/ArgParser.antt =====
-- src/argparser.h: the command line parser. A callback changes the state of its client, `S`, and can
-- throw. The options and positionals that a caller has added are the parser's initial state.
pub mod Keeps
pub mod Valid
pub mod Settings
mod Tests
use r4r.Base.{
  ℕ, zero, suc, Str, lit, List, [], ◌∷◌, ◌++◌, Option, none, some, Bool, true, false, ◌&&◌, ◌||◌,
  ◌+◌, not, length, drop, is_empty, starts_with, eqb,
}
use r4r.Base.{Result, ok, throw, out_of_fuel, ◌>>=◌, if◌then◌else◌, ◌==◌, list_eq, nat_eq}

-- `ArgumentParser::Option`
pub record ParserOption (S : Type 0) : Type 0 where
  pub short_name : Str
  pub long_name : Str
  pub help : Str
  pub has_arg : Option Str
  pub is_required : Bool
  pub default_value : Option Str
  pub callback : Option (Str → S → Result S)
  pub value : Option Str

pub record Positional (S : Type 0) : Type 0 where
  pub name : Str
  pub help : Str
  pub is_required : Bool
  pub allows_multiple : Bool
  pub callback : Option (Str → S → Result S)
  pub values : List Str

pub record ArgumentParser (S : Type 0) : Type 0 where
  pub options : List (ParserOption S)
  pub positionals : List (Positional S)
  pub client : S

abbrev pub has_value : Option Str → Bool
has_value none = false
has_value (some v) = true

abbrev pub first_or_empty : List Str → Str
first_or_empty [] = []
first_or_empty (a ∷ args) = a

-- The name before the first '=', and the value behind it.
unfoldable pub split_equal : Str → Str × Option Str
split_equal [] = ([], none)
split_equal (c ∷ s) =
    let rest = split_equal s in if eqb c b'=' then ([], some s) else (c ∷ rest.0, rest.1)

module _ {S : Type 0} where
  abbrev pub call : Option (Str → S → Result S) → Str → S → Result S
  call none v s = ok s
  call (some f) v s = f v s

  abbrev pub is_named : Str → ParserOption S → Bool
  is_named name opt = opt.short_name == name || opt.long_name == name

  -- `find_option`
  unfoldable pub find_option : Str → List (ParserOption S) → Result (ParserOption S)
  find_option name [] = throw (lit "Unknown option: " ++ name)
  find_option name (opt ∷ opts) = if is_named name opt then ok opt else find_option name opts

  -- The first option of the name gets the value.
  unfoldable pub set_value : Str → Str → List (ParserOption S) → List (ParserOption S)
  set_value name v [] = []
  set_value name v (opt ∷ opts) =
      if is_named name opt
      then record opt { value = some v } ∷ opts
      else opt ∷ set_value name v opts

  -- `opt.value = value` and the callback, for the option that `find_option` has found.
  unfoldable pub assign : Str → ParserOption S → Str → ArgumentParser S → Result (ArgumentParser S)
  assign name opt v p = call opt.callback v p.client >>= λ s.
      ok (record p { options = set_value name v p.options; client = s })

  -- An option with an argument, which must not be empty.
  unfoldable pub take_argument :
      Str
      → Str
      → ParserOption S
      → Str
      → List Str
      → ArgumentParser S
      → Result (ArgumentParser S × List Str)
  take_argument message name opt value rest p =
      if is_empty value then throw message else (assign name opt value p >>= λ q. ok (q, rest))

  -- `parse_short_options` behind the dash, with the arguments that follow.
  unfoldable pub parse_short_options :
      Str → List Str → ArgumentParser S → Result (ArgumentParser S × List Str)
  parse_short_options [] args p = ok (p, args)
  parse_short_options (c ∷ options) args p = find_option (c ∷ []) p.options >>= λ opt.
      elim opt.has_arg [
        | none ↦ assign (c ∷ []) opt [] p >>= parse_short_options options args
        | some metavar ↦
            let value = if is_empty options then first_or_empty args else options in
            let rest = if is_empty options then drop 1 args else args in
            take_argument (lit "Option requires argument: -" ++ opt.short_name) (c ∷ []) opt value
              rest p
      ]

  -- A long option whose name and value are apart.
  unfoldable pub set_long_option :
      Str × Option Str → List Str → ArgumentParser S → Result (ArgumentParser S × List Str)
  set_long_option given args p =
      let value : Str = elim given.1 [ none ↦ first_or_empty args | some v ↦ v ] in
      let rest : List Str = elim given.1 [ none ↦ drop 1 args | some v ↦ args ] in
      find_option given.0 p.options >>= λ opt. elim opt.has_arg [
        | none ↦ assign given.0 opt [] p >>= λ q. ok (q, args)
        | some metavar ↦
            take_argument (lit "Option requires argument: --" ++ opt.long_name) given.0 opt value
              rest p
      ]

  -- `parse_long_option` behind the two dashes.
  unfoldable pub parse_long_option :
      Str → List Str → ArgumentParser S → Result (ArgumentParser S × List Str)
  parse_long_option arg args p = set_long_option (split_equal arg) args p

  -- `parse_positional`, with the positionals from `positional_index` on.
  unfoldable pub parse_positional :
      ℕ → Str → List (Positional S) → S → Result (List (Positional S) × (ℕ × S))
  parse_positional index arg [] s = throw (lit "Unexpected positional argument: " ++ arg)
  parse_positional zero arg (pos ∷ ps) s = call pos.callback arg s >>= λ s'. ok (
    record pos { values = pos.values ++ arg ∷ [] } ∷ ps,
    (if pos.allows_multiple then 0 else 1, s'),
  )
  parse_positional (suc index) arg (pos ∷ ps) s =
      parse_positional index arg ps s >>= λ r. ok (pos ∷ r.0, (suc r.1.0, r.1.1))

  -- The positional arguments: the first one ends the options.
  unfoldable pub parse_positionals : ℕ → List Str → ArgumentParser S → Result (ArgumentParser S)
  parse_positionals index [] p = ok p
  parse_positionals index (arg ∷ args) p =
      parse_positional index arg p.positionals p.client >>= λ r.
      parse_positionals r.1.0 args (record p { positionals = r.0; client = r.1.1 })

  -- The loop of `parse`.
  unfoldable pub parse_args : ℕ → List Str → ArgumentParser S → Result (ArgumentParser S)
  parse_args zero args p = out_of_fuel
  parse_args (suc fuel) [] p = ok p
  parse_args (suc fuel) (arg ∷ args) p =
      if starts_with arg (lit "--")
      then (parse_long_option (drop 2 arg) args p >>= λ r. parse_args fuel r.1 r.0)
      else if starts_with arg (lit "-")
      then (parse_short_options (drop 1 arg) args p >>= λ r. parse_args fuel r.1 r.0)
      else parse_positionals 0 (arg ∷ args) p

  unfoldable pub format_option_name : ParserOption S → Str
  format_option_name opt =
      let short = if is_empty opt.short_name then [] else lit "-" ++ opt.short_name in
      let dashes = if is_empty short then lit "--" else lit "/--" in
      if is_empty opt.long_name then short else short ++ (dashes ++ opt.long_name)

  unfoldable pub validate_options : List (ParserOption S) → Result (Unit {0})
  validate_options [] = ok tt
  validate_options (opt ∷ opts) =
      if opt.is_required && not (has_value opt.value)
      then throw (lit "Missing required option: " ++ format_option_name opt)
      else validate_options opts

  unfoldable pub validate_positionals : List (Positional S) → Result (Unit {0})
  validate_positionals [] = ok tt
  validate_positionals (pos ∷ ps) =
      if pos.is_required && is_empty pos.values
      then throw (lit "Missing required positional: " ++ pos.name)
      else validate_positionals ps

  unfoldable pub apply_defaults : List (ParserOption S) → S → Result (List (ParserOption S) × S)
  apply_defaults [] s = ok ([], s)
  apply_defaults (opt ∷ opts) s = elim opt.default_value [
    | none ↦ apply_defaults opts s >>= λ r. ok (opt ∷ r.0, r.1)
    | some v ↦
        if has_value opt.value
        then (apply_defaults opts s >>= λ r. ok (opt ∷ r.0, r.1))
        else call opt.callback v s >>= λ s'.
            apply_defaults opts s' >>= λ r. ok (record opt { value = some v } ∷ r.0, r.1)
  ]

  -- `parse`; `args` are the arguments behind the name of the program.
  unfoldable pub parse : List Str → ArgumentParser S → Result (ArgumentParser S)
  parse args p = parse_args (length args + 1) args p >>= λ q. validate_options q.options >>= λ _.
      validate_positionals q.positionals >>= λ _.
      apply_defaults q.options q.client >>= λ r. ok (record q { options = r.0; client = r.1 })

  -- `Result::contains`, `get` and `get_positional`
  unfoldable pub result_contains : Str → ArgumentParser S → Bool
  result_contains name p = any p.options
    where
      any : List (ParserOption S) → Bool
      any [] = false
      any (opt ∷ opts) = (is_named name opt && has_value opt.value) || any opts

  unfoldable pub get : Str → List (ParserOption S) → Option Str
  get name [] = none
  get name (opt ∷ opts) = if is_named name opt then opt.value else get name opts

  unfoldable pub get_positional : Str → List (Positional S) → List Str
  get_positional name [] = []
  get_positional name (pos ∷ ps) = if pos.name == name then pos.values else get_positional name ps
