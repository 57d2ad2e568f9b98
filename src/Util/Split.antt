-- ===== src/Util/Split.antt =====
-- What `string_split_n` returns.
use r4r.Base.{
  ℕ, zero, suc, Str, List, [], ◌∷◌, ◌++◌, Option, none, some, Bool, true, false, is_empty, length,
  drop, starts_with, eqb, concat, map, if◌then◌else◌, ◌≡◌, refl, sym, ap, ◌∙◌, ◌⊎◌, inl, inr, subst,
  arith, append_assoc, append-nil,
}
use r4r.Util.{find_delim, string_split_n}

-- The parts, each with the delimiter behind it.
abbrev pub ended : Str → List Str → Str
ended delim parts = concat (map (λ part. part ++ delim) parts)

starts_with-drop : (s delim : Str) → starts_with s delim ≡ true → s ≡ delim ++ drop (length delim) s
unfolding starts_with
starts_with-drop s [] h = refl
starts_with-drop [] (p ∷ ps) h = absurd (cc)
starts_with-drop (c ∷ s) (p ∷ ps) h =
    let same : c ≡ p = ground arith in let ih = starts_with-drop s ps (ground arith) in cc

find_delim-some :
    (delim s : Str) {front back : Str}
    → find_delim delim s ≡ some (front, back)
    → s ≡ front ++ (delim ++ back)
unfolding find_delim
find_delim-some [] [] {front = front} {back = back} h =
    let e1 : [] ≡ front = cc in let e2 : [] ≡ back = cc in rw (sym e1, sym e2) refl
find_delim-some (x ∷ delim) [] h = absurd (cc)
find_delim-some delim (c ∷ s) {front = front} {back = back} h =
    from (starts_with (c ∷ s) delim) (find_delim delim s) refl h
      (λ f b. find_delim-some delim s {front = f} {back = b}) refl
  where
    from :
        (here : Bool) (o : Option (Str × Str))
        → starts_with (c ∷ s) delim ≡ here
        → (if here
            then some ([], drop (length delim) (c ∷ s))
            else elim o as (λ _. Option (Str × Str)) [ none ↦ none | some r ↦ some (c ∷ r.0, r.1) ])
          ≡ some (front, back)
        → ((f b : Str) → find_delim delim s ≡ some (f, b) → s ≡ f ++ (delim ++ b))
        → find_delim delim s ≡ o
        → c ∷ s ≡ front ++ (delim ++ back)
    from true o at h ih found =
        let e1 : [] ≡ front = cc in
        let e2 : drop (length delim) (c ∷ s) ≡ back = cc in
        starts_with-drop (c ∷ s) delim at
        ∙ ap (λ b. delim ++ b) e2
        ∙ ap (λ f. f ++ (delim ++ back)) e1
    from false none at h ih found = absurd (cc)
    from false (some (f, b)) at h ih found =
        let e1 : c ∷ f ≡ front = cc in
        let e2 : b ≡ back = cc in
        ap (λ t. c ∷ t) (ih f b found)
        ∙ ap (λ z. c ∷ (f ++ (delim ++ z))) e2
        ∙ ap (λ z. z ++ (delim ++ back)) e1

-- The parts that `string_split_n` returns are as many as it was asked for, and the text is these
-- parts with the delimiter between them and, possibly, one more behind the last.
pub string_split_n-ended :
    (n : ℕ) (delim s : Str) {parts : List Str}
    → string_split_n n delim s ≡ some parts
    → (length parts ≡ n) × ((ended delim parts ≡ s ++ delim) ⊎ (ended delim parts ≡ s))
unfolding string_split_n
string_split_n-ended zero delim s {parts = parts} h = from (find_delim delim s) s h
  where
    from :
        (o : Option (Str × Str)) (s : Str)
        → (elim o as (λ _. Option (List Str)) [
          | none ↦ if is_empty s then some [] else none
          | some r ↦ none
        ])
          ≡ some parts
        → (length parts ≡ 0) × ((ended delim parts ≡ s ++ delim) ⊎ (ended delim parts ≡ s))
    from none [] h =
        let e : [] ≡ parts = cc in
        subst (λ ps. (length ps ≡ 0) × ((ended delim ps ≡ delim) ⊎ (ended delim ps ≡ []))) e
          (refl, inr refl)
    from none (c ∷ s) h = absurd (cc)
    from (some r) s h = absurd (cc)
string_split_n-ended (suc n) delim s {parts = parts} h =
    from (find_delim delim s) refl h (λ b ps. string_split_n-ended n delim b {parts = ps})
  where
    Ended : ℕ → List Str → Str → Type 0
    Ended k ps t = (length ps ≡ k) × ((ended delim ps ≡ t ++ delim) ⊎ (ended delim ps ≡ t))

    last :
        (b : Bool)
        → eqb n 0 ≡ b
        → (if b then some (s ∷ []) else none) ≡ some parts
        → Ended (suc n) parts s
    last true e h =
        let same : s ∷ [] ≡ parts = cc in
        let size : 1 ≡ suc n = ground arith in
        subst (λ ps. Ended (suc n) ps s) same (size, inl (append-nil (s ++ delim)))
    last false e h = absurd (cc)

    next :
        (front back : Str) (o : Option (List Str))
        → s ≡ front ++ (delim ++ back)
        → ((ps : List Str) → o ≡ some ps → Ended n ps back)
        → (elim o as (λ _. Option (List Str)) [ none ↦ none | some ps ↦ some (front ∷ ps) ])
          ≡ some parts
        → Ended (suc n) parts s
    next front back none split ih h = absurd (cc)
    next front back (some ps) split ih h =
        let same : front ∷ ps ≡ parts = cc in
        let (size, joined) = ih ps refl in
        let text : s ≡ (front ++ delim) ++ back = split ∙ sym (append_assoc front delim back) in
        subst (λ qs. Ended (suc n) qs s) same
          (
            ap suc size,
            elim joined [
              | inl e ↦ inl (
                  ap (λ t. (front ++ delim) ++ t) e
                  ∙ sym (append_assoc (front ++ delim) back delim)
                  ∙ ap (λ t. t ++ delim) (sym text))
              | inr e ↦ inr (ap (λ t. (front ++ delim) ++ t) e ∙ sym text)
            ],
          )

    from :
        (o : Option (Str × Str))
        → find_delim delim s ≡ o
        → (elim o as (λ _. Option (List Str)) [
          | none ↦ if eqb n 0 then some (s ∷ []) else none
          | some (front, back) ↦ elim (string_split_n n delim back) as (λ _. Option (List Str)) [
            | none ↦ none
            | some ps ↦ some (front ∷ ps)
          ]
        ])
          ≡ some parts
        → ((b : Str) (ps : List Str) → string_split_n n delim b ≡ some ps → Ended n ps b)
        → Ended (suc n) parts s
    from none found h ih = last (eqb n 0) refl h
    from (some (front, back)) found h ih =
        next front back (string_split_n n delim back) (find_delim-some delim s found)
          (λ ps. ih back ps) h
