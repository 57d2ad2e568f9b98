-- ===== src/Dockerfile/Logical.antt =====
-- The logical lines of a Dockerfile: a line feed behind a backslash does not end one.
use r4r.Base.{
  ℕ, Str, List, [], ◌∷◌, ◌++◌, Bool, true, false, not, ◌&&◌, ◌||◌, is_empty, eqb, filter,
  if◌then◌else◌, All, arith,
}
use r4r.Base.{◌≡◌, refl, ap, ◌∙◌}
use r4r.Util.{is_special, needs_escaping, single_quoted, double_quoted, escape_cmd_arg}
use r4r.Dockerfile.{string_join}

-- One logical line that does not end in a backslash; `escaped` tells of a backslash before it.
unfoldable pub is_logical : Bool → Str → Bool
is_logical escaped [] = not escaped
is_logical escaped (c ∷ s) = (not (eqb c b'\n') || escaped) && is_logical (eqb c b'\\') s

abbrev pub onto_line : ℕ → List Str → List Str
onto_line c [] = (c ∷ []) ∷ []
onto_line c (line ∷ lines) = (c ∷ line) ∷ lines

-- How Docker reads a file: its logical lines.
unfoldable pub logical_lines : Bool → Str → List Str
logical_lines escaped [] = [] ∷ []
logical_lines escaped (c ∷ s) =
    if eqb c b'\n' && not escaped
    then [] ∷ logical_lines false s
    else onto_line c (logical_lines (eqb c b'\\') s)

-- Its instructions and comments: the lines with something in them.
abbrev pub instructions : Str → List Str
instructions text = filter (λ line. not (is_empty line)) (logical_lines false text)

pub is_logical-append :
    (b : Bool) (s t : Str) → is_logical b s ≡ true → is_logical b (s ++ t) ≡ is_logical false t
unfolding is_logical
is_logical-append false [] t h = refl
is_logical-append true [] t h = absurd (cc)
is_logical-append b (c ∷ s) t h =
    let ih = is_logical-append (eqb c b'\\') s t (ground arith) in ground (arith, ih)

pub logical_lines-append :
    (b : Bool) (s t : Str)
    → is_logical b s ≡ true
    → logical_lines b (s ++ b'\n' ∷ t) ≡ s ∷ logical_lines false t
unfolding is_logical logical_lines
logical_lines-append false [] t h = refl
logical_lines-append true [] t h = absurd (cc)
logical_lines-append b (c ∷ s) t h =
    let ih = logical_lines-append (eqb c b'\\') s t (ground arith) in
    let kept : (eqb c b'\n' && not b) ≡ false = ground arith in rw kept (ap (onto_line c) ih)

abbrev pub IsLogical : Str → Type 0
IsLogical s = is_logical false s ≡ true

-- A separator that is gone through between logical lines.
pub string_join-IsLogical :
    (sep : Str) (xs : List Str)
    → ((t : Str) → is_logical false (sep ++ t) ≡ is_logical false t)
    → All IsLogical xs
    → IsLogical (string_join sep xs)
unfolding string_join is_logical
string_join-IsLogical sep [] through all = refl
string_join-IsLogical sep (x ∷ []) through (h, all) = h
string_join-IsLogical sep (x ∷ y ∷ xs) through (h, all) =
    is_logical-append false x (sep ++ string_join sep (y ∷ xs)) h
    ∙ (through (string_join sep (y ∷ xs)) ∙ string_join-IsLogical sep (y ∷ xs) through all)

-- A text with no line feed.
abbrev pub IsOneLine : Str → Type 0
IsOneLine = All (λ c. eqb c b'\n' ≡ false)

closed :
    (b : Bool) (s : Str) (d : ℕ)
    → IsOneLine s
    → eqb d b'\n' ≡ false
    → eqb d b'\\' ≡ false
    → is_logical b (s ++ d ∷ []) ≡ true
unfolding is_logical
closed b [] d one feed slash = ground arith
closed b (c ∷ s) d (h, one) feed slash =
    let ih = closed (eqb c b'\\') s d one feed slash in ground (arith, ih)

single_quoted-IsOneLine : (s : Str) → IsOneLine s → IsOneLine (single_quoted s)
unfolding single_quoted
single_quoted-IsOneLine [] one = tt
single_quoted-IsOneLine (c ∷ s) (h, one) = from (eqb c 39) (single_quoted-IsOneLine s one)
  where
    from :
        (b : Bool)
        → IsOneLine (single_quoted s)
        → IsOneLine (if b then 39 ∷ b'\\' ∷ 39 ∷ 39 ∷ single_quoted s else c ∷ single_quoted s)
    from true ih = (refl, (refl, (refl, (refl, ih))))
    from false ih = (h, ih)

double_quoted-IsOneLine : (s : Str) → IsOneLine s → IsOneLine (double_quoted s)
unfolding double_quoted
double_quoted-IsOneLine [] one = tt
double_quoted-IsOneLine (c ∷ s) (h, one) =
    from (eqb c b'$' || eqb c b'`' || eqb c b'"' || eqb c b'\\' || eqb c b'!')
      (double_quoted-IsOneLine s one)
  where
    from :
        (b : Bool)
        → IsOneLine (double_quoted s)
        → IsOneLine (if b then b'\\' ∷ c ∷ double_quoted s else c ∷ double_quoted s)
    from true ih = (refl, (h, ih))
    from false ih = (h, ih)

plain : (b : Bool) (s : Str) → b ≡ false → needs_escaping s ≡ false → is_logical b s ≡ true
unfolding is_logical needs_escaping is_special
plain b [] e h = ground arith
plain b (c ∷ s) e h =
    let ih = plain (eqb c b'\\') s (ground arith) (ground arith) in ground (arith, ih)

choose :
    (b : Bool) (s t : Str)
    → (b ≡ true → IsLogical s)
    → (b ≡ false → IsLogical t)
    → IsLogical (if b then s else t)
choose true s t first second = first refl
choose false s t first second = second refl

nothing : (s : Str) → is_empty s ≡ true → IsLogical s
unfolding is_logical
nothing [] empty = refl
nothing (c ∷ s) empty = absurd (cc)

quoted :
    (d : ℕ) (s : Str) → eqb d b'\n' ≡ false → is_logical (eqb d b'\\') s ≡ true → IsLogical (d ∷ s)
unfolding is_logical
quoted d s feed h = ground arith

-- An escaped argument of one line is logical.
pub escape_cmd_arg-IsLogical :
    (s : Str) (single force : Bool) → IsOneLine s → IsLogical (escape_cmd_arg s single force)
unfolding escape_cmd_arg
escape_cmd_arg-IsLogical s single force one =
    choose (is_empty s && not force) s _ (λ h. nothing s (ground arith))
      (λ h.
        choose (not (force || needs_escaping s)) s _ (λ k. plain false s refl (ground arith))
          (λ k.
            choose single (39 ∷ (single_quoted s ++ 39 ∷ []))
              (b'"' ∷ (double_quoted s ++ b'"' ∷ []))
              (λ l.
                quoted 39 _ refl
                  (closed false (single_quoted s) 39 (single_quoted-IsOneLine s one) refl refl))
              (λ l.
                quoted b'"' _ refl
                  (closed false (double_quoted s) b'"' (double_quoted-IsOneLine s one) refl refl))))
