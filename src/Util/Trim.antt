-- ===== src/Util/Trim.antt =====
-- What `string_trim` takes off.
use r4r.Base.{
  ℕ, Str, [], ◌∷◌, ◌++◌, true, false, All, All-append, reverse, reverse-append, reverse-reverse,
  reverse-cons, isspace, Bool-cases, inl, inr,
}
use r4r.Base.{◌≡◌, refl, sym, ap, ◌∙◌, subst}
use r4r.Util.{trim_start, string_trim}

abbrev pub IsBlank : Str → Type 0
IsBlank = All (λ c. isspace c ≡ true)

-- No white space at all.
abbrev pub IsSolid : Str → Type 0
IsSolid = All (λ c. isspace c ≡ false)

abbrev pub trim_end : Str → Str
trim_end s = reverse (trim_start (reverse s))

pub All-reverse {κ} : (P : ℕ → Type κ) (s : Str) → All P s → All P (reverse s)
All-reverse P [] h = tt
All-reverse P (c ∷ s) h =
    subst (All P) (sym (reverse-cons c s))
      (All-append P (reverse s) (c ∷ []) (All-reverse P s h.1) (h.0, tt))

pub trim_start-solid : (c : ℕ) (s : Str) → isspace c ≡ false → trim_start (c ∷ s) ≡ c ∷ s
unfolding trim_start
trim_start-solid c s solid = rw solid refl

pub trim_start-blank : (c : ℕ) (s : Str) → isspace c ≡ true → trim_start (c ∷ s) ≡ trim_start s
unfolding trim_start
trim_start-blank c s blank = rw blank refl

pub trim_start-IsSolid : (s : Str) → IsSolid s → trim_start s ≡ s
unfolding trim_start
trim_start-IsSolid [] h = refl
trim_start-IsSolid (c ∷ s) h = rw h.0 refl

trim_start_split : (s : Str) → (blank : Str) × IsBlank blank × (s ≡ blank ++ trim_start s)
unfolding trim_start
trim_start_split [] = ([], tt, refl)
trim_start_split (c ∷ s) = elim (Bool-cases (isspace c)) [
  | inl space ↦
      let (blank, all, e) = trim_start_split s in
      (c ∷ blank, (space, all), rw space (ap (λ t. c ∷ t) e))
  | inr solid ↦ ([], tt, rw solid refl)
]

-- What stands behind the trimmed text is white space.
pub trim_end_split : (s : Str) → (blank : Str) × IsBlank blank × (s ≡ trim_end s ++ blank)
trim_end_split s =
    let (blank, all, e) = trim_start_split (reverse s) in
    (
      reverse blank,
      All-reverse (λ c. isspace c ≡ true) blank all,
      sym (reverse-reverse s) ∙ ap reverse e ∙ reverse-append blank (trim_start (reverse s)),
    )

pub string_trim-IsSolid : (s : Str) → IsSolid s → string_trim s ≡ s
unfolding string_trim
string_trim-IsSolid s solid =
    ap trim_end (trim_start-IsSolid s solid)
    ∙ ap reverse (trim_start-IsSolid (reverse s) (All-reverse (λ c. isspace c ≡ false) s solid))
    ∙ reverse-reverse s
