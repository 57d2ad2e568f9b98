-- ===== src/ManifestFormat/Lines.antt =====
-- The lines of a text with something left when they are cleaned, and what prefixes do to them.
use r4r.Base.{
  ℕ, Str, List, [], ◌∷◌, ◌++◌, Bool, true, false, is_empty, All, append-nil, eqb, if◌then◌else◌,
  Bool-cases, arith,
}
use r4r.Base.{◌≡◌, ◌⊎◌, inl, inr, refl, sym, ap, ◌∙◌}
use r4r.ManifestFormat.{onto_first, getlines, prefix_lines}

-- The pieces between the line feeds.
unfoldable pub pieces : Str → List Str
pieces [] = [] ∷ []
pieces (c ∷ s) = let rest = pieces s in if eqb c b'\n' then [] ∷ rest else onto_first c rest

-- The lines of which `clean` leaves something.
abbrev pub kept : (Str → Str) → List Str → List Str
kept clean [] = []
kept clean (line ∷ lines) =
    let rest = kept clean lines in if is_empty (clean line) then rest else clean line ∷ rest

abbrev pub IsOneLine : Str → Type 0
IsOneLine = All (λ c. eqb c b'\n' ≡ false)

pub kept-append :
    (clean : Str → Str) (xs ys : List Str) → kept clean (xs ++ ys) ≡ kept clean xs ++ kept clean ys
kept-append clean [] ys = refl
kept-append clean (x ∷ xs) ys = let ih = kept-append clean xs ys in ground (arith, ih)

pub getlines-pieces : (s : Str) → (getlines s ≡ pieces s) ⊎ (getlines s ++ [] ∷ [] ≡ pieces s)
unfolding getlines pieces
getlines-pieces [] = inr refl
getlines-pieces (c ∷ s) = from (getlines s) (pieces s) (eqb c b'\n') (getlines-pieces s)
  where
    from :
        (lines rest : List Str) (feed : Bool)
        → (lines ≡ rest) ⊎ (lines ++ [] ∷ [] ≡ rest)
        → ((if feed then [] ∷ lines else onto_first c lines)
            ≡ (if feed then [] ∷ rest else onto_first c rest))
          ⊎ ((if feed then [] ∷ lines else onto_first c lines) ++ [] ∷ []
              ≡ (if feed then [] ∷ rest else onto_first c rest))
    from lines rest true (inl e) = inl (ap (λ t. [] ∷ t) e)
    from lines rest true (inr e) = inr (ap (λ t. [] ∷ t) e)
    from lines rest false (inl e) = inl (ap (onto_first c) e)
    from [] rest false (inr e) = inl (ap (onto_first c) e)
    from (l ∷ lines) rest false (inr e) = inr (ap (onto_first c) e)

-- An empty last line is none.
pub kept-getlines :
    (clean : Str → Str) (s : Str) → clean [] ≡ [] → kept clean (getlines s) ≡ kept clean (pieces s)
kept-getlines clean s nothing = elim (getlines-pieces s) [
  | inl e ↦ ap (kept clean) e
  | inr e ↦
      let last : kept clean ([] ∷ []) ≡ [] = rw nothing refl in
      sym (
        ap (kept clean) (sym e)
        ∙ kept-append clean (getlines s) ([] ∷ [])
        ∙ ap (λ t. kept clean (getlines s) ++ t) last
        ∙ append-nil (kept clean (getlines s)))
]

pieces_cons : (s : Str) → (line : Str) × (lines : List Str) × (pieces s ≡ line ∷ lines)
unfolding pieces
pieces_cons [] = ([], [], refl)
pieces_cons (c ∷ s) = let (line, lines, e) = pieces_cons s in from line lines e (eqb c b'\n')
  where
    from :
        (line : Str) (lines : List Str)
        → pieces s ≡ line ∷ lines
        → (feed : Bool)
        → (first : Str) × (rest : List Str) × ((if feed
              then [] ∷ pieces s
              else onto_first c (pieces s))
            ≡ first ∷ rest)
    from line lines e true = ([], pieces s, refl)
    from line lines e false = (c ∷ line, lines, ap (onto_first c) e)

onto_first-append :
    (c : ℕ) (s : Str) (more : List Str)
    → onto_first c (pieces s ++ more) ≡ onto_first c (pieces s) ++ more
onto_first-append c s more = let (line, lines, e) = pieces_cons s in rw e refl

-- A line feed ends the pieces in front of it.
pub pieces-append : (s t : Str) → pieces (s ++ b'\n' ∷ t) ≡ pieces s ++ pieces t
unfolding pieces
pieces-append [] t = refl
pieces-append (c ∷ s) t = elim (Bool-cases (eqb c b'\n')) [
  | inl feed ↦ rw feed (ap (λ u. [] ∷ u) (pieces-append s t))
  | inr other ↦ rw other (ap (onto_first c) (pieces-append s t) ∙ onto_first-append c s (pieces t))
]

-- A text of one line goes onto the first piece behind it.
pub pieces-IsOneLine :
    (s t line : Str) (lines : List Str)
    → IsOneLine s
    → pieces t ≡ line ∷ lines
    → pieces (s ++ t) ≡ (s ++ line) ∷ lines
unfolding pieces
pieces-IsOneLine [] t line lines one e = e
pieces-IsOneLine (c ∷ s) t line lines (other, one) e =
    rw other (ap (onto_first c) (pieces-IsOneLine s t line lines one e))

-- The lines kept of a text with prefixes, by what cleaning does to a line with the prefix.
module _ (clean after : Str → Str) (prefix : Str) (one : IsOneLine prefix)
    (same : (line : Str) → clean (prefix ++ line) ≡ after line) (nothing : clean [] ≡ [])
    (nothing' : after [] ≡ []) where
  kept-same :
      (line : Str) (xs ys : List Str)
      → kept clean xs ≡ kept after ys
      → kept clean ((prefix ++ line) ∷ xs) ≡ kept after (line ∷ ys)
  kept-same line xs ys e = rw (same line, e) refl

  prefixed :
      (s : Str)
      → (kept clean (pieces (prefix_lines prefix true s)) ≡ kept after (pieces s))
        × ((line : Str) × (xs ys : List Str) × (pieces (prefix_lines prefix false s) ≡ line ∷ xs)
            × (pieces s ≡ line ∷ ys)
            × (kept clean xs ≡ kept after ys))
  unfolding pieces prefix_lines
  prefixed [] = (rw (nothing, nothing') refl, ([], [], [], refl, refl, refl))
  prefixed (c ∷ s) =
      let (at_start, (line, xs, ys, e, e', k)) = prefixed s in
      elim (Bool-cases (eqb c b'\n')) [
        | inl feed ↦
            let head : pieces (prefix_lines prefix false (c ∷ s))
                ≡ [] ∷ pieces (prefix_lines prefix true s) =
              rw feed refl in
            let head' : pieces (c ∷ s) ≡ [] ∷ pieces s = rw feed refl in
            whole c s [] _ _ head head' at_start
        | inr other ↦
            let head : pieces (prefix_lines prefix false (c ∷ s)) ≡ (c ∷ line) ∷ xs =
              rw other (ap (onto_first c) e) in
            let head' : pieces (c ∷ s) ≡ (c ∷ line) ∷ ys = rw other (ap (onto_first c) e') in
            whole c s (c ∷ line) xs ys head head' k
      ]
    where
      whole :
          (c : ℕ) (s line : Str) (xs ys : List Str)
          → pieces (prefix_lines prefix false (c ∷ s)) ≡ line ∷ xs
          → pieces (c ∷ s) ≡ line ∷ ys
          → kept clean xs ≡ kept after ys
          → (kept clean (pieces (prefix_lines prefix true (c ∷ s))) ≡ kept after (pieces (c ∷ s)))
            × ((line : Str) × (xs ys : List Str) × (pieces (prefix_lines prefix false (c ∷ s))
                  ≡ line ∷ xs)
                × (pieces (c ∷ s) ≡ line ∷ ys)
                × (kept clean xs ≡ kept after ys))
      whole c s line xs ys head head' k = (
        ap (kept clean)
              (pieces-IsOneLine prefix (prefix_lines prefix false (c ∷ s)) line xs one head)
            ∙ (kept-same line xs ys k ∙ ap (kept after) (sym head')),
        (line, xs, ys, head, head', k),
      )

  pub kept-prefix_lines :
      (s : Str) → kept clean (pieces (prefix_lines prefix true s)) ≡ kept after (pieces s)
  kept-prefix_lines s = (prefixed s).0

pub pieces_one : (s : Str) → IsOneLine s → pieces s ≡ s ∷ []
unfolding pieces
pieces_one s one =
    ap pieces (sym (append-nil s))
    ∙ (pieces-IsOneLine s [] [] [] one refl ∙ ap (λ t. t ∷ []) (append-nil s))

-- The lines kept of a text that goes on behind a line feed.
pub kept-feed :
    (clean : Str → Str) (s t : Str)
    → kept clean (pieces (s ++ b'\n' ∷ t)) ≡ kept clean (pieces s) ++ kept clean (pieces t)
kept-feed clean s t = ap (kept clean) (pieces-append s t) ∙ kept-append clean (pieces s) (pieces t)
