-- ===== src/Symlinks.antt =====
-- src/util_fs.h: `SymlinkResolver`, which finds the other names of a path. Its map of the symbolic links
-- of the root directory is walked in the order of its entries.
pub mod Reached
pub mod Total
pub mod Tests
use r4r.Base.{
  ℕ, zero, suc, Str, lit, List, [], ◌∷◌, ◌++◌, Option, none, some, Bool, true, false, ◌&&◌,
  contains, if◌then◌else◌, list_eq, nat_eq,
}
use r4r.Base.{Result, ok, throw, out_of_fuel, ◌>>=◌}
use r4r.Base.Dict.{Dict}
use r4r.Path.{FilePath, is_sub_path, relative_below, join}
use r4r.System.{System, is_none, is_symlink, exists}

abbrev pub is_there : Option Bool → Bool
is_there none = false
is_there (some b) = b

-- `test`: the name of `p` behind `a` instead of `b`, when it leads to the same file.
unfoldable pub other_name : System → FilePath → FilePath → FilePath → Option FilePath
other_name sys p a b =
    let candidate = join a (relative_below p b) in
    if is_sub_path p b && (is_there (exists sys candidate) && sys.equivalent candidate p)
    then some candidate
    else none

-- The loop over the links, up to the first success.
unfoldable pub first_name : System → FilePath → Dict FilePath FilePath → Option FilePath
first_name sys p [] = none
first_name sys p ((link, target) ∷ symlinks) = elim (other_name sys p link target) [
  | some q ↦ some q
  | none ↦ elim (other_name sys p target link) [
    | some q ↦ some q
    | none ↦ first_name sys p symlinks
  ]
]

abbrev pub singleton : Option FilePath → List FilePath
singleton none = []
singleton (some p) = p ∷ []

-- What `fs::read_symlink` gives, which throws when it fails.
abbrev pub read_target : System → FilePath → Option FilePath → Result (List FilePath)
read_target sys p none = throw (sys.filesystem_error p)
read_target sys p (some target) = ok (target ∷ [])

-- The target of a symbolic link; `fs::is_symlink` throws when the status cannot be read.
unfoldable pub link_target : System → FilePath → Result (List FilePath)
link_target sys p =
    if is_none (sys.symlink_status p)
    then throw (sys.filesystem_error p)
    else if is_symlink (sys.symlink_status p)
    then read_target sys p (sys.read_symlink p)
    else ok []

-- The loop over the work list.
unfoldable pub resolve_names :
    ℕ → System → Dict FilePath FilePath → List FilePath → List FilePath → Result (List FilePath)
resolve_names zero sys symlinks wl result = out_of_fuel
resolve_names (suc fuel) sys symlinks [] result = ok result
resolve_names (suc fuel) sys symlinks (p ∷ wl) result =
    let skipped = resolve_names fuel sys symlinks wl result in
    let more = link_target sys p >>= λ targets.
    resolve_names fuel sys symlinks (wl ++ (singleton (first_name sys p symlinks) ++ targets))
      (p ∷ result) in
    if contains result p then skipped else more

unfoldable pub resolve_symlinks :
    ℕ → System → Dict FilePath FilePath → FilePath → Result (List FilePath)
resolve_symlinks fuel sys symlinks path = resolve_names fuel sys symlinks (path ∷ []) []
