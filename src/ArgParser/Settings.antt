-- ===== src/ArgParser/Settings.antt =====
-- Command lines of long options with values, as a caller writes them.
use r4r.Base.{
  ℕ, suc, Str, lit, List, [], ◌∷◌, ◌++◌, Option, none, some, Bool, true, false, ◌&&◌, not, is_empty,
  map, length, ◌+◌, contains, starts_with, eqb, list_eq, nat_eq,
}
use r4r.Base.{
  Result, ok, ◌>>=◌, if◌then◌else◌, ◌≡◌, refl, sym, ap, ◌∙◌, arith, Bool-cases, inl, inr,
}
use r4r.ArgParser.{
  ParserOption, ArgumentParser, call, is_named, find_option, set_value, assign, take_argument,
  split_equal, parse_long_option, set_long_option, parse_args, get, has_value,
}

abbrev pub Setting : Type 0
Setting = Str × Str

-- `--name=value`
abbrev pub print_setting : Setting → Str
print_setting (name, v) = b'-' ∷ b'-' ∷ (name ++ b'=' ∷ v)

split_equal-setting :
    (name v : Str) → contains name b'=' ≡ false → split_equal (name ++ b'=' ∷ v) ≡ (name, some v)
unfolding split_equal
split_equal-setting [] v plain = refl
split_equal-setting (c ∷ name) v plain =
    let other : eqb c b'=' ≡ false = ground arith in
    let ih = split_equal-setting name v (ground arith) in rw other (ap (λ r. (c ∷ r.0, r.1)) ih)

module _ {S : Type 0} where
  abbrev has_callback : Option (Str → S → Result S) → Bool
  has_callback none = false
  has_callback (some f) = true

  -- The first option of the name takes an argument and has no callback.
  unfoldable pub is_settable : Str → List (ParserOption S) → Bool
  is_settable name [] = false
  is_settable name (opt ∷ opts) =
      if is_named name opt
      then has_value opt.has_arg && not (has_callback opt.callback)
      else is_settable name opts

  abbrev pub set_all : List Setting → List (ParserOption S) → List (ParserOption S)
  set_all [] opts = opts
  set_all ((name, v) ∷ ss) opts = set_all ss (set_value name v opts)

  is_settable-set_value :
      (j k v : Str) (opts : List (ParserOption S))
      → is_settable j (set_value k v opts) ≡ is_settable j opts
  unfolding is_settable set_value
  is_settable-set_value j k v [] = refl
  is_settable-set_value j k v (opt ∷ opts) =
      from (is_named j opt) (is_named k opt) refl refl (is_settable-set_value j k v opts)
    where
      from :
          (a b : Bool)
          → is_named j opt ≡ a
          → is_named k opt ≡ b
          → is_settable j (set_value k v opts) ≡ is_settable j opts
          → is_settable j
              (if b then record opt { value = some v } ∷ opts else opt ∷ set_value k v opts)
            ≡ is_settable j (opt ∷ opts)
      from a true ja kb ih = refl
      from true false ja kb ih = rw ja refl
      from false false ja kb ih = rw ja ih

  -- The option found has the two properties.
  find_option-settable :
      (name : Str) (opts : List (ParserOption S))
      → is_settable name opts ≡ true
      → (opt : ParserOption S) × (find_option name opts ≡ ok opt)
        × (has_value opt.has_arg ≡ true)
        × (has_callback opt.callback ≡ false)
  unfolding is_settable find_option
  find_option-settable name [] h = absurd (cc)
  find_option-settable name (opt ∷ opts) h = elim (Bool-cases (is_named name opt)) [
    | inl named ↦
        let both : (has_value opt.has_arg && not (has_callback opt.callback)) ≡ true =
          sym (rw (is_settable, named) refl) ∙ h in
        (opt, rw (find_option, named) refl, ground (arith, both), ground (arith, both))
    | inr other ↦
        let later : is_settable name opts ≡ true = sym (rw (is_settable, other) refl) ∙ h in
        let (o, found, a, b) = find_option-settable name opts later in
        (o, rw (find_option, other) found, a, b)
  ]

  assign-silent :
      (name v : Str) (opt : ParserOption S) (p : ArgumentParser S)
      → has_callback opt.callback ≡ false
      → assign name opt v p ≡ ok (record p { options = set_value name v p.options })
  unfolding assign
  assign-silent name v opt p silent = from opt.callback silent
    where
      from :
          (f : Option (Str → S → Result S))
          → has_callback f ≡ false
          → (call f v p.client >>= λ s.
              ok (record p { options = set_value name v p.options; client = s }))
            ≡ ok (record p { options = set_value name v p.options })
      from none silent = refl
      from (some f) silent = absurd (cc)

  set_long_option-setting :
      (name v : Str) (args : List Str) (p : ArgumentParser S)
      → is_empty v ≡ false
      → is_settable name p.options ≡ true
      → set_long_option (name, some v) args p
        ≡ ok (record p { options = set_value name v p.options }, args)
  unfolding set_long_option take_argument assign
  set_long_option-setting name v args p some_ settable =
      let (opt, found, takes, silent) = find_option-settable name p.options settable in
      ap (λ r. r >>= next) found ∙ from opt opt.has_arg takes silent
    where
      argument : ParserOption S → Result (ArgumentParser S × List Str)
      argument opt =
          take_argument (lit "Option requires argument: --" ++ opt.long_name) name opt v args p

      next : ParserOption S → Result (ArgumentParser S × List Str)
      next opt = elim opt.has_arg [
        | none ↦ assign name opt [] p >>= λ q. ok (q, args)
        | some metavar ↦ argument opt
      ]

      from :
          (opt : ParserOption S) (has_arg : Option Str)
          → has_value has_arg ≡ true
          → has_callback opt.callback ≡ false
          → (elim has_arg as (λ _. Result (ArgumentParser S × List Str)) [
            | none ↦ assign name opt [] p >>= λ q. ok (q, args)
            | some metavar ↦ argument opt
          ])
            ≡ ok (record p { options = set_value name v p.options }, args)
      from opt none takes silent = absurd (cc)
      from opt (some metavar) takes silent =
          let taken : argument opt ≡ (assign name opt v p >>= λ q. ok (q, args)) =
            rw (take_argument, some_) refl in
          taken ∙ ap (λ r. r >>= λ q. ok (q, args)) (assign-silent name v opt p silent)

  -- One setting.
  parse_long_option-setting :
      (name v : Str) (args : List Str) (p : ArgumentParser S)
      → contains name b'=' ≡ false
      → is_empty v ≡ false
      → is_settable name p.options ≡ true
      → parse_long_option (name ++ b'=' ∷ v) args p
        ≡ ok (record p { options = set_value name v p.options }, args)
  unfolding parse_long_option
  parse_long_option-setting name v args p plain some_ settable =
      ap (λ given. set_long_option given args p) (split_equal-setting name v plain)
      ∙ set_long_option-setting name v args p some_ settable

  -- The two dashes are taken off.
  parse_args-setting :
      (fuel : ℕ) (name v : Str) (args : List Str) (p : ArgumentParser S)
      → parse_args (suc fuel) (print_setting (name, v) ∷ args) p
        ≡ (parse_long_option (name ++ b'=' ∷ v) args p >>= λ r. parse_args fuel r.1 r.0)
  unfolding parse_args starts_with
  parse_args-setting fuel name v args p = refl

  -- Every name is the plain name of an option that takes an argument and has no callback, and every
  -- value is there.
  unfoldable pub are_settings : List Setting → List (ParserOption S) → Bool
  are_settings [] opts = true
  are_settings ((name, v) ∷ ss) opts =
      (not (contains name b'=') && not (is_empty v))
      && (is_settable name opts && are_settings ss opts)

  are_settings-set_value :
      (ss : List Setting) (k v : Str) (opts : List (ParserOption S))
      → are_settings ss (set_value k v opts) ≡ are_settings ss opts
  unfolding are_settings
  are_settings-set_value [] k v opts = refl
  are_settings-set_value ((name, w) ∷ ss) k v opts =
      rw (is_settable-set_value name k v opts, are_settings-set_value ss k v opts) refl

  -- A command line of settings is read, without running out of rounds, and sets the options one
  -- after the other: a later setting of a name wins.
  pub parse_args-settings :
      (ss : List Setting) (p : ArgumentParser S)
      → are_settings ss p.options ≡ true
      → parse_args (length (map print_setting ss) + 1) (map print_setting ss) p
        ≡ ok (record p { options = set_all ss p.options })
  parse_args-settings ss p good =
      let e : length (map print_setting ss) + 1 ≡ suc (length (map print_setting ss)) =
        omega arith in
      ap (λ n. parse_args n (map print_setting ss) p) e ∙ run ss p good
    where
      run :
          (ss : List Setting) (p : ArgumentParser S)
          → are_settings ss p.options ≡ true
          → parse_args (suc (length (map print_setting ss))) (map print_setting ss) p
            ≡ ok (record p { options = set_all ss p.options })
      run [] p good = unfold parse_args in refl
      run ((name, v) ∷ ss) p good =
          let good' : ((not (contains name b'=') && not (is_empty v))
                && (is_settable name p.options && are_settings ss p.options))
              ≡ true =
            unfold are_settings in good in
          let q : ArgumentParser S = record p { options = set_value name v p.options } in
          let later : are_settings ss q.options ≡ true =
            are_settings-set_value ss name v p.options ∙ ground (arith, good') in
          parse_args-setting (suc (length (map print_setting ss))) name v (map print_setting ss) p
          ∙ ap (λ r. r >>= λ z. parse_args (suc (length (map print_setting ss))) z.1 z.0)
              (parse_long_option-setting name v (map print_setting ss) p (ground (arith, good'))
                (ground (arith, good')) (ground (arith, good')))
          ∙ run ss q later

  -- The last setting of a name is what the result gives for it.
  pub get-set_value :
      (name v : Str) (opts : List (ParserOption S))
      → is_settable name opts ≡ true
      → get name (set_value name v opts) ≡ some v
  unfolding get set_value is_settable
  get-set_value name v [] h = absurd (cc)
  get-set_value name v (opt ∷ opts) h = elim (Bool-cases (is_named name opt)) [
    | inl named ↦ rw (set_value, named) (rw (get, named) refl)
    | inr other ↦
        let later : is_settable name opts ≡ true = sym (rw (is_settable, other) refl) ∙ h in
        rw (set_value, other) (rw (get, other) (get-set_value name v opts later))
  ]
