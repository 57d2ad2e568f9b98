-- ===== src/Resolvers/Erase.antt =====
-- `std::erase_if` with a state: what happens to each element.
use r4r.Base.{
  List, [], ◌∷◌, Bool, true, false, All, Result, ok, out_of_fuel, bind-eq-ok, bind-ne-out_of_fuel,
  ok-injective, if◌then◌else◌, ◌≢◌,
}
use r4r.Base.{◌≡◌, ◌⊎◌, inl, inr, sym, ap, ◌∙◌, subst}
use r4r.Resolvers.{erase_if}

module _ {ℓ κ} {A : Type ℓ} {S : Type κ} (test : A → S → Result (Bool × S)) where
  -- One element: its test, and the rest.
  pub erase_if-cons :
      (a : A) (more : List A) (s : S) {r : List A × S}
      → erase_if test (a ∷ more) s ≡ ok r
      → (b : Bool) × (s1 : S) × (kept : List A) × (test a s ≡ ok (b, s1))
        × (erase_if test more s1 ≡ ok (kept, r.1))
        × ((if b then kept else a ∷ kept) ≡ r.0)
  unfolding erase_if
  erase_if-cons a more s {r = r} done =
      let (t, tested, rest) = bind-eq-ok (test a s) _ done in
      let (q, erased, last) = bind-eq-ok (erase_if test more t.1) _ rest in
      let same = ok-injective last in
      (
        t.0,
        t.1,
        q.0,
        tested,
        erased ∙ ap (λ x. ok (q.0, x)) (ap (λ (x : List A × S). x.1) same),
        ap (λ (x : List A × S). x.0) same,
      )

  -- What every test keeps, the whole keeps.
  pub erase_if-Keeps {μ} :
      (Q : S → Type μ)
      → ((a : A) (s : S) (b : Bool) (s' : S) → test a s ≡ ok (b, s') → Q s → Q s')
      → (xs : List A) (s : S) {r : List A × S} → erase_if test xs s ≡ ok r
      → Q s
      → Q r.1
  unfolding erase_if
  erase_if-Keeps Q keeps [] s done held = subst (λ (x : List A × S). Q x.1) (ok-injective done) held
  erase_if-Keeps Q keeps (a ∷ more) s {r = r} done held =
      let (b, s1, kept, tested, erased, same) = erase_if-cons a more s done in
      erase_if-Keeps Q keeps more s1 {r = (kept, r.1)} erased (keeps a s b s1 tested held)

  -- The same, where the tests keep it for the elements of the list.
  pub erase_if-Keeps_on {μ ν} :
      (P : A → Type ν) (Q : S → Type μ)
      → ((a : A) (s : S) (b : Bool) (s' : S) → P a → test a s ≡ ok (b, s') → Q s → Q s')
      → (xs : List A) (s : S) {r : List A × S} → erase_if test xs s ≡ ok r
      → All P xs
      → Q s
      → Q r.1
  unfolding erase_if
  erase_if-Keeps_on P Q keeps [] s done all held =
      subst (λ (x : List A × S). Q x.1) (ok-injective done) held
  erase_if-Keeps_on P Q keeps (a ∷ more) s {r = r} done (p, all) held =
      let (b, s1, kept, tested, erased, same) = erase_if-cons a more s done in
      erase_if-Keeps_on P Q keeps more s1 {r = (kept, r.1)} erased all
        (keeps a s b s1 p tested held)

  -- Every element is taken away by its test, or stays.
  pub erase_if-accounts {μ ν} :
      (Done : A → S → Type μ) (P : A → Type ν)
      → ((a : A) (s s' : S) → test a s ≡ ok (true, s') → Done a s')
      → ((x a : A) (s : S) (b : Bool) (s' : S) → test a s ≡ ok (b, s') → Done x s → Done x s')
      → (xs : List A) (s : S) {r : List A × S} → erase_if test xs s ≡ ok r
      → All P r.0
      → All (λ a. Done a r.1 ⊎ P a) xs
  erase_if-accounts Done P taken grows [] s done stays = tt
  erase_if-accounts Done P taken grows (a ∷ more) s {r = r} done stays =
      let (b, s1, kept, tested, erased, same) = erase_if-cons a more s done in
      from b s1 kept tested erased same
        (λ h. erase_if-accounts Done P taken grows more s1 {r = (kept, r.1)} erased h)
    where
      from :
          (b : Bool) (s1 : S) (kept : List A)
          → test a s ≡ ok (b, s1)
          → erase_if test more s1 ≡ ok (kept, r.1)
          → (if b then kept else a ∷ kept) ≡ r.0
          → (All P kept → All (λ x. Done x r.1 ⊎ P x) more)
          → All (λ x. Done x r.1 ⊎ P x) (a ∷ more)
      from true s1 kept tested erased same ih = (
        inl (
            erase_if-Keeps (Done a) (λ x s b s' e d. grows a x s b s' e d) more s1 {r = (kept, r.1)}
              erased (taken a s s1 tested)),
        ih (subst (All P) (sym same) stays),
      )
      from false s1 kept tested erased same ih =
          let (here, later) = subst (All P) (sym same) stays in (inr here, ih later)

  -- If every test says so, nothing stays.
  pub erase_if_all :
      ((a : A) (s : S) (b : Bool) (s' : S) → test a s ≡ ok (b, s') → b ≡ true)
      → (xs : List A) (s : S) {r : List A × S} → erase_if test xs s ≡ ok r
      → r.0 ≡ []
  unfolding erase_if
  erase_if_all always [] s done = sym (ap (λ (x : List A × S). x.0) (ok-injective done))
  erase_if_all always (a ∷ more) s {r = r} done =
      let (b, s1, kept, tested, erased, same) = erase_if-cons a more s done in
      let none_ = erase_if_all always more s1 {r = (kept, r.1)} erased in
      sym same ∙ rw (always a s b s1 tested) none_

  -- Fuel is enough where it is for every test.
  pub erase_if-ends :
      (xs : List A) (s : S)
      → All (λ a. (u : S) → test a u ≢ out_of_fuel) xs
      → erase_if test xs s ≢ out_of_fuel
  unfolding erase_if
  erase_if-ends [] s ends = λ e. cc
  erase_if-ends (a ∷ more) s (here, later) = bind-ne-out_of_fuel (test a s) _ (here s) (λ r e.
      bind-ne-out_of_fuel (erase_if test more r.1) _ (erase_if-ends more r.1 later)
        (λ q e'. λ x. cc))

  pub erase_if-All {μ} :
      (P : A → Type μ) (xs : List A) (s : S) {r : List A × S}
      → erase_if test xs s ≡ ok r
      → All P xs
      → All P r.0
  unfolding erase_if
  erase_if-All P [] s done all = subst (λ (x : List A × S). All P x.0) (ok-injective done) all
  erase_if-All P (a ∷ more) s {r = r} done (p, all) =
      let (b, s1, kept, tested, erased, same) = erase_if-cons a more s done in
      let rest = erase_if-All P more s1 {r = (kept, r.1)} erased all in
      subst (All P) same (from b kept rest)
    where
      from : (b : Bool) (kept : List A) → All P kept → All P (if b then kept else a ∷ kept)
      from true kept rest = rest
      from false kept rest = (p, rest)
