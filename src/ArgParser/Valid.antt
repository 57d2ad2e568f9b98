-- ===== src/ArgParser/Valid.antt =====
-- What a command line that is accepted guarantees.
use r4r.Base.{
  Str, lit, List, [], ◌∷◌, ◌++◌, Option, none, some, Bool, true, false, ◌&&◌, ◌||◌, not, is_empty,
  map, All, length, ◌+◌,
}
use r4r.Base.{
  Result, ok, throw, ◌>>=◌, bind-eq-ok, ok-injective, if◌then◌else◌, ◌≡◌, refl, ap, ◌∙◌, subst,
  arith,
}
use r4r.ArgParser.{
  ParserOption, Positional, ArgumentParser, call, parse_args, validate_options,
  validate_positionals, apply_defaults, format_option_name, parse, has_value,
}
use r4r.ArgParser.Keeps.{
  SameSpecs, SameSpecs-trans, SameSpecs-refl, without_value, parse_args-SameSpecs,
}

module _ {S : Type 0} where
  -- An option that is required or has a default has a value.
  abbrev pub is_served : ParserOption S → Bool
  is_served opt = has_value opt.value || not (opt.is_required || has_value opt.default_value)

  -- A required positional has a value.
  abbrev pub is_filled : Positional S → Bool
  is_filled pos = not (is_empty pos.values) || not pos.is_required

  abbrev is_given : ParserOption S → Bool
  is_given opt = has_value opt.value || not opt.is_required

  validate_options-given :
      (opts : List (ParserOption S))
      → validate_options opts ≡ ok tt
      → All (λ opt. is_given opt ≡ true) opts
  unfolding validate_options
  validate_options-given [] done = tt
  validate_options-given (opt ∷ opts) done =
      let r = from opt.is_required (has_value opt.value) done in
      (r.0, validate_options-given opts r.1)
    where
      from :
          (required given : Bool)
          → (if required && not given
              then throw (lit "Missing required option: " ++ format_option_name opt)
              else validate_options opts)
            ≡ ok tt
          → ((given || not required) ≡ true) × (validate_options opts ≡ ok tt)
      from true true done = (refl, done)
      from true false done = absurd (cc)
      from false true done = (refl, done)
      from false false done = (refl, done)

  validate_positionals-filled :
      (ps : List (Positional S))
      → validate_positionals ps ≡ ok tt
      → All (λ pos. is_filled pos ≡ true) ps
  unfolding validate_positionals
  validate_positionals-filled [] done = tt
  validate_positionals-filled (pos ∷ ps) done =
      let r = from pos.is_required (is_empty pos.values) done in
      (r.0, validate_positionals-filled ps r.1)
    where
      from :
          (required empty : Bool)
          → (if required && empty
              then throw (lit "Missing required positional: " ++ pos.name)
              else validate_positionals ps)
            ≡ ok tt
          → ((not empty || not required) ≡ true) × (validate_positionals ps ≡ ok tt)
      from true true done = absurd (cc)
      from true false done = (refl, done)
      from false true done = (refl, done)
      from false false done = (refl, done)

  -- What the defaults do to the options.
  abbrev Completes : List (ParserOption S) → List (ParserOption S) → Type 0
  Completes opts opts' =
      All (λ opt. is_served opt ≡ true) opts' × (map without_value opts ≡ map without_value opts')

  apply_defaults-Completes :
      (opts : List (ParserOption S)) (s : S) {r : List (ParserOption S) × S}
      → All (λ opt. is_given opt ≡ true) opts
      → apply_defaults opts s ≡ ok r
      → Completes opts r.0
  unfolding apply_defaults
  apply_defaults-Completes [] s given done =
      subst (λ r. Completes [] r.0) (ok-injective done) (tt, refl)
  apply_defaults-Completes (opt ∷ opts) s {r = r} (given, given') done =
      from opt.default_value opt.value refl refl
        (λ s' q. apply_defaults-Completes opts s' {r = q} given') done
    where
      -- The tail is completed, and the head served.
      joined :
          (o : ParserOption S) (q : List (ParserOption S) × S)
          → is_served o ≡ true
          → without_value opt ≡ without_value o
          → Completes opts q.0
          → ok (o ∷ q.0, q.1) ≡ ok r
          → Completes (opt ∷ opts) r.0
      joined o q served same later done =
          subst (λ r. Completes (opt ∷ opts) r.0) (ok-injective done)
            (
              (served, later.0),
              ap (λ x. x ∷ map without_value opts) same ∙ ap (λ l. without_value o ∷ l) later.1,
            )

      from :
          (default value : Option Str)
          → opt.default_value ≡ default
          → opt.value ≡ value
          → ((s' : S) (q : List (ParserOption S) × S)
              → apply_defaults opts s' ≡ ok q
              → Completes opts q.0)
          → (elim default as (λ _. Result (List (ParserOption S) × S)) [
            | none ↦ apply_defaults opts s >>= λ r. ok (opt ∷ r.0, r.1)
            | some v ↦
                if has_value value
                then (apply_defaults opts s >>= λ r. ok (opt ∷ r.0, r.1))
                else call opt.callback v s >>= λ s'.
                    apply_defaults opts s' >>= λ r. ok (record opt { value = some v } ∷ r.0, r.1)
          ])
            ≡ ok r
          → Completes (opt ∷ opts) r.0
      from none value d v ih done =
          let (q, later, end) =
            bind-eq-ok (apply_defaults opts s) (λ r. ok (opt ∷ r.0, r.1)) done in
          joined opt q (ground (arith, d, v, given)) refl (ih s q later) end
      from (some w) (some x) d v ih done =
          let (q, later, end) =
            bind-eq-ok (apply_defaults opts s) (λ r. ok (opt ∷ r.0, r.1)) done in
          joined opt q (ground (arith, v)) refl (ih s q later) end
      from (some w) none d v ih done =
          let (s', called, rest) =
            bind-eq-ok (call opt.callback w s)
              (λ s'. apply_defaults opts s' >>= λ r. ok (record opt { value = some w } ∷ r.0, r.1))
              done in
          let (q, later, end) =
            bind-eq-ok (apply_defaults opts s') (λ r. ok (record opt { value = some w } ∷ r.0, r.1))
              rest in
          joined (record opt { value = some w }) q refl refl (ih s' q later) end

  -- After a command line that is accepted, every option that is required or has a default has a
  -- value, every required positional has one, and nothing but the values of the options and positionals
  -- has changed.
  pub parse-served :
      (args : List Str) (p : ArgumentParser S) {q : ArgumentParser S}
      → parse args p ≡ ok q
      → All (λ opt. is_served opt ≡ true) q.options
        × All (λ pos. is_filled pos ≡ true) q.positionals
        × SameSpecs p q
  unfolding parse
  parse-served args p {q = q} done =
      let (u, parsed, rest) = bind-eq-ok (parse_args (length args + 1) args p) _ done in
      let (a, valid, rest) = bind-eq-ok (validate_options u.options) _ rest in
      let (b, filled, rest) = bind-eq-ok (validate_positionals u.positionals) _ rest in
      let (r, completed, rest) =
        bind-eq-ok (apply_defaults u.options u.client)
          (λ r. ok (record u { options = r.0; client = r.1 })) rest in
      let last : record u { options = r.0; client = r.1 } ≡ q = ok-injective rest in
      let (served, same) =
        apply_defaults-Completes u.options u.client (validate_options-given u.options valid)
          completed in
      (
        subst (λ z. All (λ opt. is_served opt ≡ true) z.options) last served,
        subst (λ z. All (λ pos. is_filled pos ≡ true) z.positionals) last
            (validate_positionals-filled u.positionals filled),
        SameSpecs-trans (parse_args-SameSpecs (length args + 1) args p parsed)
            (SameSpecs-trans (record { options = same; positionals = refl }) (SameSpecs-refl last)),
      )
