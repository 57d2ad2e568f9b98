-- ===== src/Path.antt =====
-- std::filesystem::path as the sequence of its components, and the tests of src/util_fs.h on it. The
-- root directory "/" is the first component of an absolute path; a trailing slash is an empty last one.
pub mod Laws
use r4r.Base.{
  Str, lit, List, [], ◌∷◌, ◌++◌, Bool, true, false, ◌&&◌, ◌||◌, not, reverse, if◌then◌else◌, eqb,
  str_lt,
}
use r4r.Base.{is_empty, ◌==◌, list_eq, nat_eq}

abbrev pub FilePath : Type 0
FilePath = List Str

abbrev pub slash : Str
slash = lit "/"

-- The components behind the root, with the separators taken out. `word` is the component at hand.
unfoldable pub split_components : Str → Str → FilePath
split_components word [] = word ∷ []
split_components word (c ∷ s) =
    let longer = split_components (word ++ c ∷ []) s in
    let next = split_components [] s in
    let kept = if is_empty word then next else word ∷ next in if eqb c b'/' then kept else longer

-- A path from a string.
unfoldable pub parse_path : Str → FilePath
unfolding split_components
parse_path [] = []
parse_path (c ∷ s) =
    if eqb c b'/'
    then slash ∷ (if split_components [] s == [] ∷ [] then [] else split_components [] s)
    else split_components [] (c ∷ s)

unfoldable pub is_absolute : FilePath → Bool
is_absolute [] = false
is_absolute (c ∷ p) = c == slash

-- Without the empty component of a trailing slash.
unfoldable pub strip_trailing : FilePath → FilePath
strip_trailing [] = []
strip_trailing (c ∷ []) = if is_empty c then [] else c ∷ []
strip_trailing (c ∷ d ∷ p) = c ∷ strip_trailing (d ∷ p)

unfoldable pub with_trailing : FilePath → FilePath
with_trailing [] = []
with_trailing (c ∷ []) = if c == slash then c ∷ [] else c ∷ [] ∷ []
with_trailing (c ∷ d ∷ p) = c ∷ strip_trailing (d ∷ p) ++ [] ∷ []

abbrev drop_last : FilePath → FilePath
drop_last [] = []
drop_last (c ∷ []) = []
drop_last (c ∷ d ∷ p) = c ∷ drop_last (d ∷ p)

-- `parent_path`; the root is its own.
unfoldable pub parent_path : FilePath → FilePath
parent_path [] = []
parent_path (c ∷ []) = if c == slash then c ∷ [] else []
parent_path (c ∷ d ∷ p) = drop_last (c ∷ d ∷ p)

-- `a / b`
unfoldable pub join : FilePath → FilePath → FilePath
unfolding is_absolute strip_trailing with_trailing
join a [] = with_trailing a
join a (c ∷ b) = if is_absolute (c ∷ b) then c ∷ b else strip_trailing a ++ c ∷ b

abbrev dot : Str
dot = lit "."

abbrev dot_dot : Str
dot_dot = lit ".."

-- What `..` does to the kept components, the last first: at the root it is dropped, it takes a name
-- back, and it stays behind another `..`.
unfoldable pub go_up : Bool → FilePath → FilePath
go_up true [] = []
go_up false [] = dot_dot ∷ []
go_up rooted (b ∷ back) = if b == dot_dot then dot_dot ∷ b ∷ back else back

-- The components of the normal form, the last first, and whether it ends in a separator.
unfoldable pub normal_components : Bool → FilePath → Bool → FilePath → FilePath × Bool
unfolding go_up
normal_components rooted back slashed [] = (back, slashed)
normal_components rooted back slashed (c ∷ p) =
    if c == dot || is_empty c
    then normal_components rooted back true p
    else if c == dot_dot
    then normal_components rooted (go_up rooted back) true p
    else normal_components rooted (c ∷ back) false p

-- No separator stands behind `..` or at the end of nothing.
unfoldable pub close_normal : FilePath × Bool → FilePath
close_normal ([], slashed) = []
close_normal (b ∷ back, slashed) =
    if slashed && not (b == dot_dot) then reverse (b ∷ back) ++ [] ∷ [] else reverse (b ∷ back)

-- `lexically_normal`; the normal form of a relative path with nothing left is ".".
unfoldable pub lexically_normal : FilePath → FilePath
unfolding normal_components close_normal is_absolute
lexically_normal [] = []
lexically_normal (c ∷ p) =
    if c == slash
    then slash ∷ close_normal (normal_components true [] false p)
    else or_dot (close_normal (normal_components false [] false (c ∷ p)))
  where
    or_dot : FilePath → FilePath
    or_dot [] = dot ∷ []
    or_dot (d ∷ q) = d ∷ q

-- src/util_fs.h: the components of `base` are the first ones of `path`.
unfoldable pub is_sub_path : FilePath → FilePath → Bool
is_sub_path path [] = true
is_sub_path [] (b ∷ base) = false
is_sub_path (p ∷ path) (b ∷ base) = (p == b) && is_sub_path path base

-- `lexically_relative(base)` of a path below `base`; of `base` itself it is ".".
unfoldable pub relative_below : FilePath → FilePath → FilePath
relative_below [] base = dot ∷ []
relative_below (p ∷ path) [] = if is_empty p then dot ∷ [] else p ∷ path
relative_below (p ∷ path) (b ∷ base) = relative_below path base

abbrev join_components : FilePath → Str
join_components [] = []
join_components (c ∷ []) = c
join_components (c ∷ d ∷ p) = c ++ b'/' ∷ join_components (d ∷ p)

-- `string()`
unfoldable pub path_string : FilePath → Str
path_string [] = []
path_string (c ∷ p) = if c == slash then b'/' ∷ join_components p else join_components (c ∷ p)

abbrev components_lt : FilePath → FilePath → Bool
components_lt p [] = false
components_lt [] (d ∷ q) = true
components_lt (c ∷ p) (d ∷ q) = str_lt c d || (c == d && components_lt p q)

-- `<`; a relative path stands before an absolute one.
unfoldable pub path_lt : FilePath → FilePath → Bool
path_lt p q =
    if is_absolute p then is_absolute q && components_lt p q else is_absolute q || components_lt p q
