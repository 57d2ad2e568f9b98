-- ===== src/Symlinks/Reached.antt =====
-- The names that `resolve_symlinks` returns are reached from the path.
use r4r.Base.{
  ℕ, zero, suc, List, [], ◌∷◌, ◌++◌, Option, none, some, Bool, true, false, ◌&&◌, contains, All,
  All-append, if◌then◌else◌, list_eq, nat_eq,
}
use r4r.Base.{ok, throw, ◌>>=◌, bind-eq-ok, ok-injective, ◌≡◌, refl, ◌∙◌, subst}
use r4r.Base.Dict.{Dict}
use r4r.Path.{FilePath, is_sub_path, relative_below, join}
use r4r.System.{is_none, System, is_symlink, exists}
use r4r.Symlinks.{
  is_there, other_name, first_name, singleton, read_target, link_target, resolve_names,
  resolve_symlinks,
}

-- One step from a name to another one: another name of the same file, or the target of a link.
pub data Step (sys : System) (p q : FilePath) : Type 0 where
  same_file : exists sys q ≡ some true → sys.equivalent q p ≡ true → Step sys p q
  to_target : is_symlink (sys.symlink_status p) ≡ true → sys.read_symlink p ≡ some q → Step sys p q

pub data Reaches (sys : System) (p : FilePath) : FilePath → Type 0 where
  here : Reaches sys p p
  later : (q r : FilePath) → Reaches sys p q → Step sys q r → Reaches sys p r

module _ (sys : System) where
  other_name-Step : (p a b : FilePath) {q : FilePath} → other_name sys p a b ≡ some q → Step sys p q
  unfolding other_name
  other_name-Step p a b {q = q} found =
      from (is_sub_path p b) (exists sys (join a (relative_below p b)))
        (sys.equivalent (join a (relative_below p b)) p) refl refl found
    where
      from :
          (sub : Bool) (there : Option Bool) (same : Bool)
          → exists sys (join a (relative_below p b)) ≡ there
          → sys.equivalent (join a (relative_below p b)) p ≡ same
          → (if sub && (is_there there && same) then some (join a (relative_below p b)) else none)
            ≡ some q
          → Step sys p q
      from true (some true) true there same found =
          let e : join a (relative_below p b) ≡ q = cc in
          subst (Step sys p) e (same_file there same)
      from true (some true) false there same found = absurd (cc)
      from true (some false) b2 there same found = absurd (cc)
      from true none b2 there same found = absurd (cc)
      from false o b2 there same found = absurd (cc)

  first_name-Step :
      (p : FilePath) (symlinks : Dict FilePath FilePath) {q : FilePath}
      → first_name sys p symlinks ≡ some q
      → Step sys p q
  unfolding first_name
  first_name-Step p [] found = absurd (cc)
  first_name-Step p ((link, target) ∷ symlinks) {q = q} found =
      from (other_name sys p link target) (other_name sys p target link) refl refl found
        (λ e. first_name-Step p symlinks {q = q} e)
    where
      from :
          (o o' : Option FilePath)
          → other_name sys p link target ≡ o
          → other_name sys p target link ≡ o'
          → (elim o as (λ _. Option FilePath) [
            | some r ↦ some r
            | none ↦ elim o' as (λ _. Option FilePath) [
              | some r ↦ some r
              | none ↦ first_name sys p symlinks
            ]
          ])
            ≡ some q
          → (first_name sys p symlinks ≡ some q → Step sys p q)
          → Step sys p q
      from (some r) o' e e' found ih = other_name-Step p link target (e ∙ found)
      from none (some r) e e' found ih = other_name-Step p target link (e' ∙ found)
      from none none e e' found ih = ih found

  singleton-Step :
      (p : FilePath) (o : Option FilePath)
      → ((q : FilePath) → o ≡ some q → Step sys p q)
      → All (Step sys p) (singleton o)
  singleton-Step p none steps = tt
  singleton-Step p (some q) steps = (steps q refl, tt)

  link_target-Step :
      (p : FilePath) {targets : List FilePath}
      → link_target sys p ≡ ok targets
      → All (Step sys p) targets
  unfolding link_target
  link_target-Step p {targets = targets} found =
      from (is_none (sys.symlink_status p)) (is_symlink (sys.symlink_status p)) (sys.read_symlink p)
        refl refl found
    where
      from :
          (unread link : Bool) (o : Option FilePath)
          → is_symlink (sys.symlink_status p) ≡ link
          → sys.read_symlink p ≡ o
          → (if unread
              then throw (sys.filesystem_error p)
              else if link
              then read_target sys p o
              else ok [])
            ≡ ok targets
          → All (Step sys p) targets
      from true link o e e' found = absurd (cc)
      from false true none e e' found = absurd (cc)
      from false true (some t) e e' found =
          subst (All (Step sys p)) (ok-injective found) (to_target e e', tt)
      from false false o e e' found = subst (All (Step sys p)) (ok-injective found) tt

  steps-Reaches :
      (path p : FilePath) (qs : List FilePath)
      → Reaches sys path p
      → All (Step sys p) qs
      → All (Reaches sys path) qs
  steps-Reaches path p [] reached steps = tt
  steps-Reaches path p (q ∷ qs) reached (step, steps) =
      (later p q reached step, steps-Reaches path p qs reached steps)

  resolve_names-Reaches :
      (path : FilePath) (symlinks : Dict FilePath FilePath) (fuel : ℕ) (wl result : List FilePath)
      {names : List FilePath}
      → All (Reaches sys path) wl
      → All (Reaches sys path) result
      → resolve_names fuel sys symlinks wl result ≡ ok names
      → All (Reaches sys path) names
  unfolding resolve_names
  resolve_names-Reaches path symlinks zero wl result hw hr done = absurd (cc)
  resolve_names-Reaches path symlinks (suc fuel) [] result hw hr done =
      subst (All (Reaches sys path)) (ok-injective done) hr
  resolve_names-Reaches path symlinks (suc fuel) (p ∷ wl) result {names = names} (hp, hw) hr done =
      from (contains result p) done (λ wl' result' a b.
        resolve_names-Reaches path symlinks fuel wl' result' {names = names} a b)
    where
      from :
          (seen : Bool)
          → (if seen
              then resolve_names fuel sys symlinks wl result
              else link_target sys p >>= λ targets.
                  resolve_names fuel sys symlinks
                    (wl ++ (singleton (first_name sys p symlinks) ++ targets))
                    (p ∷ result))
            ≡ ok names
          → ((wl' result' : List FilePath)
              → All (Reaches sys path) wl'
              → All (Reaches sys path) result'
              → resolve_names fuel sys symlinks wl' result' ≡ ok names
              → All (Reaches sys path) names)
          → All (Reaches sys path) names
      from true done ih = ih wl result hw hr done
      from false done ih =
          let (targets, read, rest) =
            bind-eq-ok (link_target sys p)
              (λ targets.
                resolve_names fuel sys symlinks
                  (wl ++ (singleton (first_name sys p symlinks) ++ targets)) (p ∷ result))
              done in
          let names1 =
            singleton-Step p (first_name sys p symlinks) (λ q e. first_name-Step p symlinks e) in
          let steps =
            All-append (Step sys p) (singleton (first_name sys p symlinks)) targets names1
              (link_target-Step p read) in
          ih (wl ++ (singleton (first_name sys p symlinks) ++ targets)) (p ∷ result)
            (All-append (Reaches sys path) wl (singleton (first_name sys p symlinks) ++ targets) hw
              (steps-Reaches path p (singleton (first_name sys p symlinks) ++ targets) hp steps))
            (hp, hr) rest

  -- Every name that `resolve_symlinks` returns is reached from the path, by other names of the same
  -- file and by targets of symbolic links.
  pub resolve_symlinks-Reaches :
      (symlinks : Dict FilePath FilePath) (path : FilePath) (fuel : ℕ) {names : List FilePath}
      → resolve_symlinks fuel sys symlinks path ≡ ok names
      → All (Reaches sys path) names
  unfolding resolve_symlinks
  resolve_symlinks-Reaches symlinks path fuel done =
      resolve_names-Reaches path symlinks fuel (path ∷ []) [] (here, tt) tt done
