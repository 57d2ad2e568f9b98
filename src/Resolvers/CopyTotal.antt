-- ===== src/Resolvers/CopyTotal.antt =====
-- `CopyFileResolver::resolve` always ends.
use r4r.Base.{
  List, [], ◌∷◌, Option, none, some, Bool, true, false, contains, All, Result, ok, throw, fatal,
  out_of_fuel, bind-ne-out_of_fuel, if◌then◌else◌, list_eq, nat_eq,
}
use r4r.Base.{◌≢◌, arith}
use r4r.Base.Dict.{Dict}
use r4r.Path.{FilePath}
use r4r.System.{
  System, is_regular_file, is_symlink_or_throw, resolve_symlink, absolute_or_throw,
  check_accessibility, AccessStatus, accessible, does_not_exist, insufficient_permission,
}
use r4r.FileTracer.{FileInfo}
use r4r.Manifest.{FileStatus, ignore_no_longer_exist, ignore_not_accessible}
use r4r.Resolvers.{
  erase_if, Traced, result_files, should_consider, accessible_status, copy_status, copy_file,
  or_not_accessible, copy_link, copy_resolve,
}
use r4r.Resolvers.Erase.{erase_if-ends}

pub if_ends {ℓ} :
    {A : Type ℓ} (b : Bool) (r q : Result A)
    → r ≢ out_of_fuel
    → q ≢ out_of_fuel
    → (if b then r else q) ≢ out_of_fuel
if_ends true r q first second = first
if_ends false r q first second = second

module _ (sys : System) where
  pub is_regular_file_ends : (p : FilePath) → is_regular_file sys p ≢ out_of_fuel
  unfolding is_regular_file
  is_regular_file_ends p = ground arith

  is_symlink_or_throw_ends : (p : FilePath) → is_symlink_or_throw sys p ≢ out_of_fuel
  unfolding is_symlink_or_throw
  is_symlink_or_throw_ends p = ground arith

  resolve_symlink_ends : (p : FilePath) → resolve_symlink sys p ≢ out_of_fuel
  unfolding resolve_symlink absolute_or_throw
  resolve_symlink_ends p = ground arith

  should_consider_ends : (p : FilePath) → should_consider sys p ≢ out_of_fuel
  unfolding should_consider
  should_consider_ends p =
      bind-ne-out_of_fuel (is_regular_file sys p) _ (is_regular_file_ends p) (λ regular e.
        bind-ne-out_of_fuel (is_symlink_or_throw sys p) _ (is_symlink_or_throw_ends p) (λ link e'.
          bind-ne-out_of_fuel (if link then resolve_symlink sys p else ok none) _ (target link)
            (λ t e''. last regular t)))
    where
      target : (link : Bool) → (if link then resolve_symlink sys p else ok none) ≢ out_of_fuel
      target true = resolve_symlink_ends p
      target false = λ e. cc

      last :
          (regular : Bool) (t : Option FilePath)
          → (elim t as (λ _. Result Bool) [ none ↦ ok regular | some q ↦ is_regular_file sys q ])
            ≢ out_of_fuel
      last regular none = λ e. cc
      last regular (some q) = is_regular_file_ends q

  copy_status_ends : (f : FileInfo) → copy_status sys f ≢ out_of_fuel
  unfolding copy_status accessible_status
  copy_status_ends f = from (check_accessibility sys f.path)
    where
      ends : accessible_status sys f ≢ out_of_fuel
      ends =
          bind-ne-out_of_fuel (should_consider sys f.path) _ (should_consider_ends f.path)
            (λ b e. λ x. cc)

      caught : (r : Result FileStatus) → r ≢ out_of_fuel → or_not_accessible sys r ≢ out_of_fuel
      caught (throw message) h = λ e. cc
      caught (ok s) h = λ e. cc
      caught fatal h = λ e. cc
      caught out_of_fuel h = h

      from :
          (a : AccessStatus)
          → (elim a as (λ _. Result FileStatus) [
            | accessible ↦ or_not_accessible sys (accessible_status sys f)
            | does_not_exist ↦ ok ignore_no_longer_exist
            | insufficient_permission ↦ ok ignore_not_accessible
          ])
            ≢ out_of_fuel
      from accessible = caught (accessible_status sys f) ends
      from does_not_exist = λ e. cc
      from insufficient_permission = λ e. cc

  copy_file_ends :
      (results : List FilePath) (f : FileInfo) (d : Dict FilePath FileStatus)
      → copy_file sys results f d ≢ out_of_fuel
  unfolding copy_file
  copy_file_ends results f d =
      if_ends (contains results f.path) _ _ (λ e. cc)
        (bind-ne-out_of_fuel (copy_status sys f) _ (copy_status_ends f) (λ s e. λ x. cc))

  copy_link_ends :
      (entry : FilePath × FilePath) (s : List FilePath) → copy_link sys entry s ≢ out_of_fuel
  unfolding copy_link
  copy_link_ends (link, target) s = ground arith

  All-every {ℓ μ} : {A : Type ℓ} {P : A → Type μ} → ((a : A) → P a) → (xs : List A) → All P xs
  All-every h [] = tt
  All-every h (x ∷ xs) = (h x, All-every h xs)

  pub copy_resolve_ends : (t : Traced) → copy_resolve sys t ≢ out_of_fuel
  unfolding copy_resolve
  copy_resolve_ends t =
      bind-ne-out_of_fuel (erase_if (copy_file sys results) t.files t.manifest.copy_files) _
        (erase_if-ends (copy_file sys results) t.files t.manifest.copy_files
          (All-every (λ f. copy_file_ends results f) t.files))
        (λ r e.
          bind-ne-out_of_fuel (erase_if (copy_link sys) t.symlinks t.manifest.symlinks) _
            (erase_if-ends (copy_link sys) t.symlinks t.manifest.symlinks
              (All-every (λ l. copy_link_ends l) t.symlinks))
            (λ q e'. λ x. cc))
    where
      results : List FilePath
      results = result_files t.manifest.copy_files
