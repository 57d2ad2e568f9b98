-- ===== src/Symlinks/Tests.antt =====
-- A root with the link /lib to /usr/lib, and the two names of a file below.
use r4r.Base.{
  lit, List, [], ◌∷◌, none, some, Bool, true, false, ok, ◌≡◌, ◌≢◌, refl, sym, ◌∙◌, subst, ◌==◌,
  ==→≡, Bool-cases, inl, inr, list_eq, nat_eq, contains, All, arith, if◌then◌else◌, out_of_fuel,
  ◌||◌, ok-injective,
}
use r4r.Base.Dict.{Dict}
use r4r.Path.{
  FilePath, is_absolute, join, strip_trailing, with_trailing, is_sub_path, relative_below,
}
use r4r.System.{System, not_found, regular, exists, bytes}
use r4r.Symlinks.{other_name, first_name, singleton, link_target, resolve_names, resolve_symlinks}
use r4r.Symlinks.Reached.{Reaches, resolve_symlinks-Reaches}
use r4r.Symlinks.Total.{ClosedNames, resolve_symlinks-total}

abbrev lib_a : FilePath
lib_a = lit "/" ∷ lit "lib" ∷ lit "a" ∷ []

abbrev usr_lib_a : FilePath
usr_lib_a = lit "/" ∷ lit "usr" ∷ lit "lib" ∷ lit "a" ∷ []

abbrev two_names : List FilePath
two_names = lib_a ∷ usr_lib_a ∷ []

abbrev pub linked : System
linked = record {
  status = λ p. if contains two_names p then regular else not_found;
  symlink_status = λ p. if contains two_names p then regular else not_found;
  filesystem_error = λ p. lit "filesystem error";
  read_symlink = λ p. none;
  current_path = none;
  file_size = λ p. none;
  equivalent = λ p q. contains two_names p;
  page_size = 4096;
  process_vm_readv = λ pid a n. bytes [];
  strerror = λ n. lit "error";
  can_open = λ p. true;
}

abbrev links : Dict FilePath FilePath
links = (lit "/" ∷ lit "lib" ∷ [], lit "/" ∷ lit "usr" ∷ lit "lib" ∷ []) ∷ []

known_lib : contains two_names lib_a ≡ true
unfolding list_eq nat_eq
known_lib = refl

known_usr_lib : contains two_names usr_lib_a ≡ true
unfolding list_eq nat_eq
known_usr_lib = refl

first_name_lib : first_name linked lib_a links ≡ some usr_lib_a
unfolding first_name other_name exists is_sub_path join relative_below is_absolute strip_trailing
    with_trailing list_eq nat_eq
first_name_lib = refl

first_name_usr_lib : first_name linked usr_lib_a links ≡ some lib_a
unfolding first_name other_name exists is_sub_path join relative_below is_absolute strip_trailing
    with_trailing list_eq nat_eq
first_name_usr_lib = refl

link_target_lib : link_target linked lib_a ≡ ok []
unfolding link_target list_eq nat_eq
link_target_lib = refl

link_target_usr_lib : link_target linked usr_lib_a ≡ ok []
unfolding link_target list_eq nat_eq
link_target_usr_lib = refl

both_names : resolve_symlinks 8 linked links lib_a ≡ ok (usr_lib_a ∷ lib_a ∷ [])
unfolding resolve_symlinks resolve_names link_target first_name other_name exists is_sub_path join
    relative_below is_absolute strip_trailing with_trailing list_eq nat_eq
both_names = refl

closed_at :
    (p q r : FilePath)
    → q ≡ p
    → first_name linked q links ≡ some r
    → contains two_names r ≡ true
    → link_target linked q ≡ ok []
    → All (λ s. contains two_names s ≡ true) (singleton (first_name linked p links))
      × ((targets : List FilePath)
          → link_target linked p ≡ ok targets
          → All (λ s. contains two_names s ≡ true) targets)
closed_at p q r e name there target =
    subst
      (λ x.
        All (λ s. contains two_names s ≡ true) (singleton (first_name linked x links))
        × ((targets : List FilePath)
            → link_target linked x ≡ ok targets
            → All (λ s. contains two_names s ≡ true) targets))
      e
      (
        subst (λ o. All (λ s. contains two_names s ≡ true) (singleton o)) (sym name) (there, tt),
        λ targets read.
            subst (All (λ s. contains two_names s ≡ true)) (ok-injective (sym target ∙ read)) tt,
      )

second :
    (p : FilePath) → (lib_a == p) ≡ false → contains two_names p ≡ true → (usr_lib_a == p) ≡ true
second p other there = from (lib_a == p) (usr_lib_a == p) other there
  where
    from : (a b : Bool) → a ≡ false → (a || (b || false)) ≡ true → b ≡ true
    from true b other there = absurd (cc)
    from false true other there = refl
    from false false other there = there

two_names-ClosedNames : ClosedNames linked links two_names
two_names-ClosedNames p there = elim (Bool-cases (lib_a == p)) [
  | inl same ↦
      closed_at p lib_a usr_lib_a (==→≡ lib_a p same) first_name_lib known_usr_lib link_target_lib
  | inr other ↦
      let same : (usr_lib_a == p) ≡ true = second p other there in
      closed_at p usr_lib_a lib_a (==→≡ usr_lib_a p same) first_name_usr_lib known_lib
        link_target_usr_lib
]

resolve_symlinks-Reaches_example : All (Reaches linked lib_a) (usr_lib_a ∷ lib_a ∷ [])
resolve_symlinks-Reaches_example = resolve_symlinks-Reaches linked links lib_a 8 both_names

resolve_symlinks-total_example : resolve_symlinks 8 linked links lib_a ≢ out_of_fuel
resolve_symlinks-total_example =
    resolve_symlinks-total linked links two_names two_names-ClosedNames lib_a 8 known_lib
      (omega arith)
