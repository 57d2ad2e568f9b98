-- ===== src/Symlinks/Total.antt =====
-- `resolve_symlinks` ends where finitely many names can be reached.
use r4r.Base.{
  ℕ, Str, zero, suc, List, [], ◌∷◌, ◌++◌, Option, none, some, Bool, true, false, not, ◌+◌, ◌*◌, ◌≤◌,
  ◌<◌, contains, All, All-append, filter, length, length-append, if◌then◌else◌, list_eq, nat_eq,
  ==_refl, ==→≡, ◌==◌,
}
use r4r.Base.{
  Result, ok, throw, out_of_fuel, ◌>>=◌, ◌≡◌, ◌≢◌, refl, sym, ◌∙◌, subst, arith, Bool-cases, inl,
  inr,
}
use r4r.Base.Dict.{Dict}
use r4r.Path.{FilePath}
use r4r.System.{is_none, System, is_symlink}
use r4r.Symlinks.{first_name, singleton, read_target, link_target, resolve_names, resolve_symlinks}

-- The names that are not in the result yet.
abbrev remaining : List FilePath → List FilePath → ℕ
remaining universe result = length (filter (λ p. not (contains result p)) universe)

remaining_mono :
    (universe result : List FilePath) (p : FilePath)
    → remaining universe (p ∷ result) ≤ remaining universe result
remaining_mono [] result p = omega arith
remaining_mono (q ∷ universe) result p =
    let ih = remaining_mono universe result p in ground (arith, ih)

remaining_most : (universe : List FilePath) → remaining universe [] ≤ length universe
remaining_most [] = omega arith
remaining_most (q ∷ universe) = let ih = remaining_most universe in ground (arith, ih)

contains_self : (p : FilePath) (result : List FilePath) → contains (p ∷ result) p ≡ true
contains_self p result = let e = ==_refl p in ground (arith, e)

remaining-less :
    (universe result : List FilePath) (p : FilePath)
    → contains universe p ≡ true
    → contains result p ≡ false
    → remaining universe (p ∷ result) < remaining universe result
remaining-less [] result p there new = absurd (cc)
remaining-less (q ∷ universe) result p there new = elim (Bool-cases (q == p)) [
  | inl same ↦
      let e : q ≡ p = ==→≡ q p same in
      let mono = remaining_mono universe result p in
      let self : contains (p ∷ result) q ≡ true =
        subst (λ x. contains (p ∷ result) x ≡ true) (sym e) (contains_self p result) in
      let fresh : contains result q ≡ false = subst (λ x. contains result x ≡ false) (sym e) new in
      ground (arith, mono, self, fresh)
  | inr other ↦
      let later : contains universe p ≡ true = ground arith in
      let ih = remaining-less universe result p later new in ground (arith, ih)
]

data LinkTargets (r : Result (List FilePath)) : Type 0 where
  no_target : r ≡ ok [] → LinkTargets r
  one_target : (q : FilePath) → r ≡ ok (q ∷ []) → LinkTargets r
  unreadable : (message : Str) → r ≡ throw message → LinkTargets r

link_target-cases : (sys : System) (p : FilePath) → LinkTargets (link_target sys p)
unfolding link_target
link_target-cases sys p =
    from (is_none (sys.symlink_status p)) (is_symlink (sys.symlink_status p)) (sys.read_symlink p)
  where
    from :
        (unread link : Bool) (o : Option FilePath)
        → LinkTargets (
            if unread
            then throw (sys.filesystem_error p)
            else if link
            then read_target sys p o
            else ok [])
    from true link o = unreadable (sys.filesystem_error p) refl
    from false true none = unreadable (sys.filesystem_error p) refl
    from false true (some q) = one_target q refl
    from false false o = no_target refl

-- The names that a name leads to are in the universe.
abbrev pub ClosedNames : System → Dict FilePath FilePath → List FilePath → Type 0
ClosedNames sys symlinks universe =
    (p : FilePath)
    → contains universe p ≡ true
    → All (λ q. contains universe q ≡ true) (singleton (first_name sys p symlinks))
      × ((targets : List FilePath)
          → link_target sys p ≡ ok targets
          → All (λ q. contains universe q ≡ true) targets)

length-singleton : (o : Option FilePath) → length (singleton o) ≤ 1
length-singleton none = omega arith
length-singleton (some p) = omega arith

module _ (sys : System) (symlinks : Dict FilePath FilePath) (universe : List FilePath)
    (closed : ClosedNames sys symlinks universe) where
  resolve_names-ends :
      (fuel : ℕ) (wl result : List FilePath)
      → All (λ q. contains universe q ≡ true) wl
      → length wl + 3 * remaining universe result < fuel
      → resolve_names fuel sys symlinks wl result ≢ out_of_fuel
  unfolding resolve_names
  resolve_names-ends zero wl result inside enough = absurd (omega arith)
  resolve_names-ends (suc fuel) [] result inside enough = λ e. absurd (cc)
  resolve_names-ends (suc fuel) (p ∷ wl) result (here, inside) enough =
      from (contains result p) refl (link_target sys p) refl (link_target-cases sys p)
        (λ wl' result' a b. resolve_names-ends fuel wl' result' a b)
    where
      Later : Type 0
      Later =
          (wl' result' : List FilePath)
          → All (λ q. contains universe q ≡ true) wl'
          → length wl' + 3 * remaining universe result' < fuel
          → resolve_names fuel sys symlinks wl' result' ≢ out_of_fuel

      turn : Result (List FilePath) → Result (List FilePath)
      turn r = r >>= λ targets.
          resolve_names fuel sys symlinks (wl ++ (singleton (first_name sys p symlinks) ++ targets))
            (p ∷ result)

      goes_on :
          (targets : List FilePath)
          → contains result p ≡ false
          → length targets ≤ 1
          → All (λ q. contains universe q ≡ true) targets
          → Later
          → turn (ok targets) ≢ out_of_fuel
      goes_on targets new short inside' ih =
          let names = singleton (first_name sys p symlinks) in
          let less = remaining-less universe result p here new in
          let one = length-singleton (first_name sys p symlinks) in
          let l1 = length-append wl (names ++ targets) in
          let l2 = length-append names targets in
          ih (wl ++ (names ++ targets)) (p ∷ result)
            (All-append (λ q. contains universe q ≡ true) wl (names ++ targets) inside
              (All-append (λ q. contains universe q ≡ true) names targets (closed p here).0
                inside'))
            (omega arith)

      from :
          (seen : Bool)
          → contains result p ≡ seen
          → (r : Result (List FilePath)) → link_target sys p ≡ r
          → LinkTargets r
          → Later
          → (if seen then resolve_names fuel sys symlinks wl result else turn r) ≢ out_of_fuel
      from true eq r e c ih = ih wl result inside (omega arith)
      from false eq r e (no_target e') ih =
          subst (λ r. turn r ≢ out_of_fuel) (sym e') (goes_on [] eq (omega arith) tt ih)
      from false eq r e (one_target q e') ih =
          subst (λ r. turn r ≢ out_of_fuel) (sym e')
            (goes_on (q ∷ []) eq (omega arith) ((closed p here).1 (q ∷ []) (e ∙ e')) ih)
      from false eq r e (unreadable m e') ih =
          subst (λ r. turn r ≢ out_of_fuel) (sym e') (λ x. absurd (cc))

  -- resolve_symlinks does not run out of fuel when the fuel is at least two more than three times the
  -- length of a list of names, where the list holds the path and, with every name in it, the names that
  -- this one leads to: the first other name of its file, and its target as a symbolic link.
  pub resolve_symlinks-total :
      (path : FilePath) (fuel : ℕ)
      → contains universe path ≡ true
      → 3 * length universe + 2 ≤ fuel
      → resolve_symlinks fuel sys symlinks path ≢ out_of_fuel
  unfolding resolve_symlinks
  resolve_symlinks-total path fuel there enough =
      let most = remaining_most universe in
      resolve_names-ends fuel (path ∷ []) [] (there, tt) (omega arith)
