-- ===== src/Rpkg/Load/Names.antt =====
-- The dependencies of a package, as R prints them and as `parse_dependency_field` reads them.
use r4r.Base.{
  ℕ, Str, lit, List, [], ◌∷◌, ◌++◌, Bool, true, false, not, ◌&&◌, ◌||◌, is_empty, isspace, eqb,
  contains, contains-insert_sorted, str_lt, All, All-append, append_assoc, append-nil,
  if◌then◌else◌, ◌==◌, ==→≡, list_eq, nat_eq, Bool-cases, inl, inr,
}
use r4r.Base.{◌≡◌, refl, sym, ap, ◌∙◌, subst, arith}
use r4r.Util.{trim_start, string_trim}
use r4r.Util.Trim.{
  IsSolid, IsBlank, trim_end, trim_end_split, trim_start-solid, trim_start-blank,
  string_trim-IsSolid,
}
use r4r.Rpkg.Load.{
  na, name_prefix, set_insert, add_dependency, parse_dependencies, parse_dependency_field,
}

-- A dependency: a name, and what stands behind it, such as a version constraint.
pub record Dependency : Type 0 where
  pub name : Str
  pub constraint : Str

-- A character that a name can have.
abbrev is_name_char : ℕ → Bool
is_name_char c = not (isspace c) && (not (eqb c b'(') && not (eqb c b','))

-- The constraint is set off from the name.
abbrev is_set_off : Str → Bool
is_set_off [] = true
is_set_off (c ∷ s) = eqb c b'(' || isspace c

pub record IsPlain (d : Dependency) : Type 0 where
  pub named : is_empty d.name ≡ false
  pub chars : All (λ c. is_name_char c ≡ true) d.name
  pub apart : is_set_off d.constraint ≡ true
  pub no_comma : All (λ c. eqb c b',' ≡ false) d.constraint

abbrev text : Dependency → Str
text d = d.name ++ d.constraint

-- The field as R prints it.
abbrev pub print_dependencies : List Dependency → Str
print_dependencies [] = []
print_dependencies (d ∷ []) = text d
print_dependencies (d ∷ e ∷ ds) = text d ++ (b',' ∷ b' ' ∷ print_dependencies (e ∷ ds))

name_prefix-blank : (s blank : Str) → IsBlank blank → name_prefix (s ++ blank) ≡ name_prefix s
unfolding name_prefix
name_prefix-blank [] [] h = refl
name_prefix-blank [] (c ∷ blank) (space, h) = ground arith
name_prefix-blank (c ∷ s) blank h = ground (arith, name_prefix-blank s blank h)

name_prefix-trim_end : (s : Str) → name_prefix (trim_end s) ≡ name_prefix s
name_prefix-trim_end s =
    let (blank, all, e) = trim_end_split s in
    sym (ap name_prefix e ∙ name_prefix-blank (trim_end s) blank all)

name_prefix-append :
    (name c : Str)
    → All (λ x. is_name_char x ≡ true) name
    → is_set_off c ≡ true
    → name_prefix (name ++ c) ≡ name
unfolding name_prefix
name_prefix-append [] [] h apart = refl
name_prefix-append [] (c ∷ s) h apart = rw apart refl
name_prefix-append (x ∷ name) c (hx, h) apart = ground (arith, name_prefix-append name c h apart)

name-IsSolid : (name : Str) → All (λ x. is_name_char x ≡ true) name → IsSolid name
name-IsSolid [] h = tt
name-IsSolid (x ∷ name) (hx, h) = (ground arith, name-IsSolid name h)

trim_start-append : (lead t : Str) → IsBlank lead → trim_start (lead ++ t) ≡ trim_start t
trim_start-append [] t h = refl
trim_start-append (c ∷ lead) t (space, h) =
    trim_start-blank c (lead ++ t) space ∙ trim_start-append lead t h

trim_start-text :
    (name c : Str) → is_empty name ≡ false → IsSolid name → trim_start (name ++ c) ≡ name ++ c
trim_start-text [] c named h = absurd (cc)
trim_start-text (x ∷ name) c named (hx, h) = trim_start-solid x (name ++ c) hx

-- The name that is read from the text of a dependency with white space before it.
read_name :
    (lead : Str) (d : Dependency)
    → IsBlank lead
    → IsPlain d
    → string_trim (name_prefix (string_trim (lead ++ text d))) ≡ d.name
unfolding string_trim
read_name lead d blank plain =
    let solid = name-IsSolid d.name plain.chars in
    let start =
      trim_start-append lead (text d) blank
      ∙ trim_start-text d.name d.constraint plain.named solid in
    ap string_trim (
      ap (λ t. name_prefix (trim_end t)) start
      ∙ name_prefix-trim_end (text d)
      ∙ name_prefix-append d.name d.constraint plain.chars plain.apart)
    ∙ string_trim-IsSolid d.name solid

-- The effect of one dependency: R itself is left out.
abbrev added : Dependency → List Str → List Str
added d target = if d.name == lit "R" then target else set_insert d.name target

abbrev all_added : List Dependency → List Str → List Str
all_added [] target = target
all_added (d ∷ ds) target = all_added ds (added d target)

is_empty-append :
    (lead name c : Str) → is_empty name ≡ false → is_empty (lead ++ (name ++ c)) ≡ false
is_empty-append [] [] c named = absurd (cc)
is_empty-append [] (x ∷ name) c named = refl
is_empty-append (l ∷ lead) name c named = refl

add_dependency-text :
    (lead : Str) (d : Dependency) (target : List Str)
    → IsBlank lead
    → IsPlain d
    → add_dependency (lead ++ text d) target ≡ added d target
unfolding add_dependency
add_dependency-text lead d target blank plain =
    rw
      (
        is_empty-append lead d.name d.constraint plain.named,
        read_name lead d blank plain,
        plain.named,
      )
      refl

parse_dependencies-comma :
    (tmp w rest : Str) (target : List Str)
    → All (λ c. eqb c b',' ≡ false) w
    → parse_dependencies tmp (w ++ b',' ∷ rest) target
      ≡ parse_dependencies [] rest (add_dependency (tmp ++ w) target)
unfolding parse_dependencies
parse_dependencies-comma tmp [] rest target h = rw append-nil refl
parse_dependencies-comma tmp (c ∷ w) rest target (hc, h) = rw hc (
    parse_dependencies-comma (tmp ++ c ∷ []) w rest target h
    ∙ ap (λ t. parse_dependencies [] rest (add_dependency t target)) (append_assoc tmp (c ∷ []) w))

parse_dependencies-end :
    (tmp w : Str) (target : List Str)
    → All (λ c. eqb c b',' ≡ false) w
    → parse_dependencies tmp w target ≡ add_dependency (tmp ++ w) target
unfolding parse_dependencies
parse_dependencies-end tmp [] target h = rw append-nil refl
parse_dependencies-end tmp (c ∷ w) target (hc, h) = rw hc (
    parse_dependencies-end (tmp ++ c ∷ []) w target h
    ∙ ap (λ t. add_dependency t target) (append_assoc tmp (c ∷ []) w))

no_comma-name :
    (name : Str) → All (λ x. is_name_char x ≡ true) name → All (λ c. eqb c b',' ≡ false) name
no_comma-name [] h = tt
no_comma-name (x ∷ name) (hx, h) = (ground arith, no_comma-name name h)

space-IsBlank : IsBlank (b' ' ∷ [])
unfolding isspace
space-IsBlank = (refl, tt)

no_comma-text :
    (lead : Str) (d : Dependency)
    → All (λ c. eqb c b',' ≡ false) lead
    → IsPlain d
    → All (λ c. eqb c b',' ≡ false) (lead ++ text d)
no_comma-text lead d h plain =
    All-append (λ c. eqb c b',' ≡ false) lead (text d) h
      (All-append (λ c. eqb c b',' ≡ false) d.name d.constraint (no_comma-name d.name plain.chars)
        plain.no_comma)

parse_dependencies-print :
    (lead : Str) (d : Dependency) (ds : List Dependency) (target : List Str)
    → IsBlank lead
    → All (λ c. eqb c b',' ≡ false) lead
    → All IsPlain (d ∷ ds)
    → parse_dependencies [] (lead ++ print_dependencies (d ∷ ds)) target ≡ all_added (d ∷ ds) target
parse_dependencies-print lead d [] target blank free (plain, rest) =
    parse_dependencies-end [] (lead ++ text d) target (no_comma-text lead d free plain)
    ∙ add_dependency-text lead d target blank plain
parse_dependencies-print lead d (e ∷ ds) target blank free (plain, rest) =
    ap (λ t. parse_dependencies [] t target)
      (sym (append_assoc lead (text d) (b',' ∷ b' ' ∷ print_dependencies (e ∷ ds))))
    ∙ parse_dependencies-comma [] (lead ++ text d) (b' ' ∷ print_dependencies (e ∷ ds)) target
        (no_comma-text lead d free plain)
    ∙ ap (parse_dependencies [] (b' ' ∷ print_dependencies (e ∷ ds)))
        (add_dependency-text lead d target blank plain)
    ∙ parse_dependencies-print (b' ' ∷ []) e ds (added d target) space-IsBlank (refl, tt) rest

contains-set_insert :
    (name : Str) (target : List Str) (n : Str)
    → contains (set_insert name target) n ≡ (contains target n || name == n)
unfolding set_insert
contains-set_insert name target n = ground (arith, contains-insert_sorted str_lt n name target)

abbrev pub names : List Dependency → List Str
names [] = []
names (d ∷ ds) = d.name ∷ names ds

absorb : (t m r x : Bool) → (x ≡ true → r ≡ true) → (t || (m && not r)) ≡ (t || ((x || m) && not r))
absorb t m r true h = rw (h refl) (ground arith)
absorb t m r false h = refl

regroup :
    (t m r x : Bool)
    → (x ≡ true → r ≡ false)
    → ((t || x) || (m && not r)) ≡ (t || ((x || m) && not r))
regroup t m r true h = rw (h refl) (ground arith)
regroup t m r false h = ground arith

contains-all_added :
    (ds : List Dependency) (target : List Str) (n : Str)
    → contains (all_added ds target) n
      ≡ (contains target n || (contains (names ds) n && not (n == lit "R")))
contains-all_added [] target n = ground arith
contains-all_added (d ∷ ds) target n = elim (Bool-cases (d.name == lit "R")) [
  | inl same ↦ rw same (
      contains-all_added ds target n
      ∙ absorb (contains target n) (contains (names ds) n) (n == lit "R") (d.name == n)
          (λ e. subst (λ x. (x == lit "R") ≡ true) (==→≡ d.name n e) same))
  | inr other ↦ rw other (
      contains-all_added ds (set_insert d.name target) n
      ∙ ap (λ t. t || (contains (names ds) n && not (n == lit "R")))
          (contains-set_insert d.name target n)
      ∙ regroup (contains target n) (contains (names ds) n) (n == lit "R") (d.name == n)
          (λ e. subst (λ x. (x == lit "R") ≡ false) (==→≡ d.name n e) other))
]

-- From the field that R prints for dependencies with plain names, each with a constraint set off
-- behind it and without commas, exactly the names other than R are added to those that are there,
-- unless the field reads NA.
pub parse_dependency_field-print_dependencies :
    (ds : List Dependency) (target : List Str) (n : Str)
    → All IsPlain ds
    → (print_dependencies ds == na) ≡ false
    → contains (parse_dependency_field (print_dependencies ds) target) n
      ≡ (contains target n || (contains (names ds) n && not (n == lit "R")))
unfolding parse_dependency_field parse_dependencies add_dependency
parse_dependency_field-print_dependencies [] target n plain given = rw given (ground arith)
parse_dependency_field-print_dependencies (d ∷ ds) target n plain given = rw given (
    ap (λ t. contains t n) (parse_dependencies-print [] d ds target tt tt plain)
    ∙ contains-all_added (d ∷ ds) target n)
