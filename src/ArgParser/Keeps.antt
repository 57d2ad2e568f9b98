-- ===== src/ArgParser/Keeps.antt =====
-- What the parser changes of its options and positionals: their values only.
use r4r.Base.{
  ℕ, zero, suc, Str, lit, List, [], ◌∷◌, ◌++◌, Option, none, some, Bool, true, false, is_empty, map,
  starts_with, drop,
}
use r4r.Base.{
  Result, ok, ◌>>=◌, bind-eq-ok, ok-injective, if◌then◌else◌, ◌≡◌, refl, ap, ◌∙◌, list_eq, nat_eq,
}
use r4r.ArgParser.{
  ParserOption, Positional, ArgumentParser, call, is_named, find_option, set_value, assign,
  take_argument, first_or_empty, parse_short_options, split_equal, parse_long_option,
  set_long_option, parse_positional, parse_positionals, parse_args,
}

module _ {S : Type 0} where
  abbrev pub without_value : ParserOption S → ParserOption S
  without_value opt = record opt { value = none }

  abbrev pub without_values : Positional S → Positional S
  without_values pos = record pos { values = [] }

  -- The options and the positionals of the two parsers differ in their values only.
  pub record SameSpecs (p q : ArgumentParser S) : Type 0 where
    pub options : map without_value p.options ≡ map without_value q.options
    pub positionals : map without_values p.positionals ≡ map without_values q.positionals

  pub SameSpecs-refl : {p q : ArgumentParser S} → p ≡ q → SameSpecs p q
  SameSpecs-refl e = record {
    options = ap (λ r. map without_value r.options) e;
    positionals = ap (λ r. map without_values r.positionals) e;
  }

  pub SameSpecs-trans : {p q r : ArgumentParser S} → SameSpecs p q → SameSpecs q r → SameSpecs p r
  SameSpecs-trans a b = record {
    options = a.options ∙ b.options;
    positionals = a.positionals ∙ b.positionals;
  }

  set_value-without_value :
      (name v : Str) (opts : List (ParserOption S))
      → map without_value opts ≡ map without_value (set_value name v opts)
  unfolding set_value
  set_value-without_value name v [] = refl
  set_value-without_value name v (opt ∷ opts) =
      from (is_named name opt) (set_value-without_value name v opts)
    where
      from :
          (b : Bool)
          → map without_value opts ≡ map without_value (set_value name v opts)
          → map without_value (opt ∷ opts)
            ≡ map without_value
                (if b then record opt { value = some v } ∷ opts else opt ∷ set_value name v opts)
      from true ih = refl
      from false ih = ap (λ l. without_value opt ∷ l) ih

  assign-SameSpecs :
      (name : Str) (opt : ParserOption S) (v : Str) (p : ArgumentParser S) {q : ArgumentParser S}
      → assign name opt v p ≡ ok q
      → SameSpecs p q
  unfolding assign
  assign-SameSpecs name opt v p done =
      let (s, called, rest) =
        bind-eq-ok (call opt.callback v p.client)
          (λ s. ok (record p { options = set_value name v p.options; client = s })) done in
      let mid : ArgumentParser S = record p { options = set_value name v p.options; client = s } in
      SameSpecs-trans {q = mid}
        (record { options = set_value-without_value name v p.options; positionals = refl })
        (SameSpecs-refl (cc))

  take_argument-SameSpecs :
      (message name : Str) (opt : ParserOption S) (v : Str) (rest : List Str) (p : ArgumentParser S)
      {r : ArgumentParser S × List Str}
      → take_argument message name opt v rest p ≡ ok r
      → SameSpecs p r.0
  unfolding take_argument
  take_argument-SameSpecs message name opt [] rest p done = absurd (cc)
  take_argument-SameSpecs message name opt (c ∷ v) rest p done =
      let (q, assigned, end) = bind-eq-ok (assign name opt (c ∷ v) p) (λ q. ok (q, rest)) done in
      SameSpecs-trans (assign-SameSpecs name opt (c ∷ v) p assigned) (SameSpecs-refl (cc))

  parse_short_options-SameSpecs :
      (options : Str) (args : List Str) (p : ArgumentParser S) {r : ArgumentParser S × List Str}
      → parse_short_options options args p ≡ ok r
      → SameSpecs p r.0
  unfolding parse_short_options
  parse_short_options-SameSpecs [] args p done = SameSpecs-refl (cc)
  parse_short_options-SameSpecs (c ∷ options) args p {r = r} done =
      let (opt, found, rest) = bind-eq-ok (find_option (c ∷ []) p.options) _ done in
      from opt opt.has_arg (λ q. parse_short_options-SameSpecs options args q {r = r}) rest
    where
      from :
          (opt : ParserOption S) (has_arg : Option Str)
          → ((q : ArgumentParser S) → parse_short_options options args q ≡ ok r → SameSpecs q r.0)
          → (elim has_arg as (λ _. Result (ArgumentParser S × List Str)) [
            | none ↦ assign (c ∷ []) opt [] p >>= parse_short_options options args
            | some metavar ↦
                take_argument
                  (lit "Option requires argument: -" ++ opt.short_name)
                  (c ∷ [])
                  opt
                  (if is_empty options then first_or_empty args else options)
                  (if is_empty options then drop 1 args else args)
                  p
          ])
            ≡ ok r
          → SameSpecs p r.0
      from opt none ih done =
          let (q, assigned, end) =
            bind-eq-ok (assign (c ∷ []) opt [] p) (parse_short_options options args) done in
          SameSpecs-trans (assign-SameSpecs (c ∷ []) opt [] p assigned) (ih q end)
      from opt (some metavar) ih done = take_argument-SameSpecs _ (c ∷ []) opt _ _ p done

  parse_long_option-SameSpecs :
      (arg : Str) (args : List Str) (p : ArgumentParser S) {r : ArgumentParser S × List Str}
      → parse_long_option arg args p ≡ ok r
      → SameSpecs p r.0
  unfolding parse_long_option set_long_option
  parse_long_option-SameSpecs arg args p {r = r} done =
      let (opt, found, rest) = bind-eq-ok (find_option (split_equal arg).0 p.options) _ done in
      from opt opt.has_arg rest
    where
      from :
          (opt : ParserOption S) (has_arg : Option Str)
          → (elim has_arg as (λ _. Result (ArgumentParser S × List Str)) [
            | none ↦ assign (split_equal arg).0 opt [] p >>= λ q. ok (q, args)
            | some metavar ↦
                take_argument
                  (lit "Option requires argument: --" ++ opt.long_name)
                  (split_equal arg).0
                  opt
                  (elim (split_equal arg).1 as (λ _. Str) [
                    | none ↦ first_or_empty args
                    | some v ↦ v
                  ])
                  (elim (split_equal arg).1 as (λ _. List Str) [
                    | none ↦ drop 1 args
                    | some v ↦ args
                  ])
                  p
          ])
            ≡ ok r
          → SameSpecs p r.0
      from opt none done =
          let (q, assigned, end) =
            bind-eq-ok (assign (split_equal arg).0 opt [] p) (λ q. ok (q, args)) done in
          SameSpecs-trans (assign-SameSpecs (split_equal arg).0 opt [] p assigned)
            (SameSpecs-refl (cc))
      from opt (some metavar) done = take_argument-SameSpecs _ (split_equal arg).0 opt _ _ p done

  parse_positional-without_values :
      (index : ℕ) (arg : Str) (ps : List (Positional S)) (s : S) {r : List (Positional S) × (ℕ × S)}
      → parse_positional index arg ps s ≡ ok r
      → map without_values ps ≡ map without_values r.0
  unfolding parse_positional
  parse_positional-without_values zero arg [] s done = absurd (cc)
  parse_positional-without_values (suc index) arg [] s done = absurd (cc)
  parse_positional-without_values zero arg (pos ∷ ps) s done =
      let (s', called, rest) =
        bind-eq-ok (call pos.callback arg s)
          (λ s'. ok (
            record pos { values = pos.values ++ arg ∷ [] } ∷ ps,
            (if pos.allows_multiple then 0 else 1, s'),
          ))
          done in
      ap (λ r. map without_values r.0) (ok-injective rest)
  parse_positional-without_values (suc index) arg (pos ∷ ps) s done =
      let (r, parsed, rest) =
        bind-eq-ok (parse_positional index arg ps s) (λ r. ok (pos ∷ r.0, (suc r.1.0, r.1.1)))
          done in
      ap (λ l. without_values pos ∷ l) (parse_positional-without_values index arg ps s parsed)
      ∙ ap (λ r. map without_values r.0) (ok-injective rest)

  parse_positionals-SameSpecs :
      (index : ℕ) (args : List Str) (p : ArgumentParser S) {q : ArgumentParser S}
      → parse_positionals index args p ≡ ok q
      → SameSpecs p q
  unfolding parse_positionals
  parse_positionals-SameSpecs index [] p done = SameSpecs-refl (ok-injective done)
  parse_positionals-SameSpecs index (arg ∷ args) p done =
      let (r, parsed, rest) =
        bind-eq-ok (parse_positional index arg p.positionals p.client)
          (λ r. parse_positionals r.1.0 args (record p { positionals = r.0; client = r.1.1 }))
          done in
      let mid : ArgumentParser S = record p { positionals = r.0; client = r.1.1 } in
      SameSpecs-trans {q = mid}
        (record {
          options = refl;
          positionals = parse_positional-without_values index arg p.positionals p.client parsed;
        })
        (parse_positionals-SameSpecs r.1.0 args mid rest)

  pub parse_args-SameSpecs :
      (fuel : ℕ) (args : List Str) (p : ArgumentParser S) {q : ArgumentParser S}
      → parse_args fuel args p ≡ ok q
      → SameSpecs p q
  unfolding parse_args
  parse_args-SameSpecs zero args p done = absurd (cc)
  parse_args-SameSpecs (suc fuel) [] p done = SameSpecs-refl (ok-injective done)
  parse_args-SameSpecs (suc fuel) (arg ∷ args) p {q = q} done =
      from (λ a u. parse_args-SameSpecs fuel a u {q = q}) (starts_with arg (lit "--"))
        (starts_with arg (lit "-")) done
    where
      from :
          ((a : List Str) (u : ArgumentParser S) → parse_args fuel a u ≡ ok q → SameSpecs u q)
          → (long short : Bool)
          → (if long
              then (parse_long_option (drop 2 arg) args p >>= λ r. parse_args fuel r.1 r.0)
              else if short
              then (parse_short_options (drop 1 arg) args p >>= λ r. parse_args fuel r.1 r.0)
              else parse_positionals 0 (arg ∷ args) p)
            ≡ ok q
          → SameSpecs p q
      from ih true short done =
          let (r, parsed, rest) =
            bind-eq-ok (parse_long_option (drop 2 arg) args p) (λ r. parse_args fuel r.1 r.0)
              done in
          SameSpecs-trans (parse_long_option-SameSpecs (drop 2 arg) args p parsed) (ih r.1 r.0 rest)
      from ih false true done =
          let (r, parsed, rest) =
            bind-eq-ok (parse_short_options (drop 1 arg) args p) (λ r. parse_args fuel r.1 r.0)
              done in
          SameSpecs-trans (parse_short_options-SameSpecs (drop 1 arg) args p parsed)
            (ih r.1 r.0 rest)
      from ih false false done = parse_positionals-SameSpecs 0 (arg ∷ args) p done
