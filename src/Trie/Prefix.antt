-- ===== src/Trie/Prefix.antt =====
-- Prefixes of paths, with empty components and without.
use r4r.Base.{Str, [], ◌∷◌, true, is_empty, ==_refl, ==→≡, list_eq, nat_eq, arith}
use r4r.Base.{◌≡◌, refl, sym, ap, subst}
use r4r.Path.{FilePath}
use r4r.Trie.Find.{canonical, is_prefix}

pub is_prefix_refl : (p : FilePath) → is_prefix p p ≡ true
unfolding is_prefix
is_prefix_refl [] = refl
is_prefix_refl (a ∷ p) = rw (==_refl a) (is_prefix_refl p)

pub canonical_idem : (p : FilePath) → canonical (canonical p) ≡ canonical p
canonical_idem [] = refl
canonical_idem ([] ∷ p) = canonical_idem p
canonical_idem ((c ∷ w) ∷ p) = ap (λ t. (c ∷ w) ∷ t) (canonical_idem p)

pub is_prefix-canonical :
    (p q : FilePath) → is_prefix p q ≡ true → is_prefix (canonical p) (canonical q) ≡ true
unfolding is_prefix
is_prefix-canonical [] q h = refl
is_prefix-canonical (a ∷ p) [] h = absurd (cc)
is_prefix-canonical (a ∷ p) (b ∷ q) h =
    let same : b ≡ a = ==→≡ b a (ground arith) in
    let ih = is_prefix-canonical p q (ground arith) in
    subst (λ x. is_prefix (canonical (a ∷ p)) (canonical (x ∷ q)) ≡ true) (sym same) (below a ih)
  where
    below :
        (c : Str)
        → is_prefix (canonical p) (canonical q) ≡ true
        → is_prefix (canonical (c ∷ p)) (canonical (c ∷ q)) ≡ true
    below [] ih = ih
    below (x ∷ c) ih = rw (==_refl (x ∷ c)) ih

pub prefix_of :
    (path p : FilePath)
    → is_prefix p (canonical path) ≡ true
    → is_prefix (canonical p) (canonical path) ≡ true
prefix_of path p pre =
    subst (λ t. is_prefix (canonical p) t ≡ true) (canonical_idem path)
      (is_prefix-canonical p (canonical path) pre)

pub is_prefix_trans :
    (p q r : FilePath) → is_prefix p q ≡ true → is_prefix q r ≡ true → is_prefix p r ≡ true
unfolding is_prefix
is_prefix_trans [] q r h k = refl
is_prefix_trans (a ∷ p) [] r h k = absurd (cc)
is_prefix_trans (a ∷ p) (b ∷ q) [] h k = absurd (cc)
is_prefix_trans (a ∷ p) (b ∷ q) (c ∷ r) h k =
    let ih = is_prefix_trans p q r (ground arith) (ground arith) in
    let e = ==→≡ b a (ground arith) in let e' = ==→≡ c b (ground arith) in rw (e', e, ==_refl a) ih

pub is_prefix_antisym : (p q : FilePath) → is_prefix p q ≡ true → is_prefix q p ≡ true → p ≡ q
unfolding is_prefix
is_prefix_antisym [] [] h k = refl
is_prefix_antisym [] (b ∷ q) h k = absurd (cc)
is_prefix_antisym (a ∷ p) [] h k = absurd (cc)
is_prefix_antisym (a ∷ p) (b ∷ q) h k =
    let ih = is_prefix_antisym p q (ground arith) (ground arith) in
    let e = ==→≡ b a (ground arith) in cc

pub is_prefix-empty : (p q : FilePath) → is_empty q ≡ true → is_prefix p q ≡ true → p ≡ q
unfolding is_prefix
is_prefix-empty [] [] root h = refl
is_prefix-empty (a ∷ p) [] root h = absurd (cc)
is_prefix-empty p (b ∷ q) root h = absurd (cc)
