-- ===== src/Path/Laws.antt =====
-- Absolute paths stay absolute, and sub-paths.
use r4r.Base.{[], ◌∷◌, true, Bool-cases}
use r4r.Base.{◌==◌, ==_refl, list_eq, nat_eq, ◌≡◌, inl, inr, arith}
use r4r.Path.{FilePath, slash, is_absolute, join, strip_trailing, with_trailing, lexically_normal}

pub is_absolute-lexically_normal :
    (p : FilePath) → is_absolute p ≡ true → is_absolute (lexically_normal p) ≡ true
unfolding is_absolute lexically_normal
is_absolute-lexically_normal [] h = h
is_absolute-lexically_normal (c ∷ p) h = rw h (==_refl slash)

pub is_absolute-join : (a b : FilePath) → is_absolute a ≡ true → is_absolute (join a b) ≡ true
unfolding is_absolute join strip_trailing with_trailing
is_absolute-join [] b h = absurd (cc)
is_absolute-join (c ∷ []) [] h = rw h h
is_absolute-join (c ∷ d ∷ a) [] h = h
is_absolute-join ([] ∷ []) (e ∷ b) h = absurd (ground arith)
is_absolute-join ((x ∷ w) ∷ []) (e ∷ b) h = elim (Bool-cases (e == slash)) [
  | inl abs ↦ rw abs abs
  | inr rel ↦ rw rel h
]
is_absolute-join (c ∷ d ∷ a) (e ∷ b) h = elim (Bool-cases (e == slash)) [
  | inl abs ↦ rw abs abs
  | inr rel ↦ rw rel h
]
