-- ===== src/System.antt =====
-- What the program asks the operating system, as a parameter: one value of `System` answers all calls
-- that are made while the system does not change. The functions of src/process.h on it.
pub mod Memory
pub mod Tests
use r4r.Base.{
  ℕ, Str, lit, List, [], ◌∷◌, ◌++◌, Option, none, some, Bool, true, false, not, eqb, ◌||◌,
}
use r4r.Base.{
  Result, ok, throw, ◌>>=◌, if◌then◌else◌, ◌==◌, list_eq, nat_eq, ℤ, to_string, nat_to_string,
}
use r4r.Path.{FilePath, is_absolute, join, parent_path, parse_path}

-- fs::file_type; `none_` is the status that a failed query leaves.
pub data FileType : Type 0 where
  none_ : FileType
  not_found : FileType
  regular : FileType
  directory : FileType
  symlink : FileType
  block : FileType
  character : FileType
  fifo : FileType
  socket : FileType
  unknown : FileType

-- The result of process_vm_readv(2): the bytes read, or errno.
pub data Read : Type 0 where
  bytes : Str → Read
  failed : ℕ → Read

pub record System : Type 0 where
  pub status : FilePath → FileType
  pub symlink_status : FilePath → FileType
  pub filesystem_error : FilePath → Str
  pub read_symlink : FilePath → Option FilePath
  pub current_path : Option FilePath
  pub file_size : FilePath → Option ℕ
  pub equivalent : FilePath → FilePath → Bool
  pub page_size : ℕ
  pub process_vm_readv : ℕ → ℕ → ℕ → Read
  pub strerror : ℕ → Str
  pub can_open : FilePath → Bool

abbrev pub is_regular : FileType → Bool
is_regular regular = true
is_regular other = false

abbrev pub is_directory : FileType → Bool
is_directory directory = true
is_directory other = false

abbrev pub is_symlink : FileType → Bool
is_symlink symlink = true
is_symlink other = false

-- `fs::exists(p, ec)`: nothing when `ec` is set.
unfoldable pub exists : System → FilePath → Option Bool
exists sys p = from (sys.status p)
  where
    from : FileType → Option Bool
    from none_ = none
    from not_found = some false
    from other = some true

abbrev pub is_none : FileType → Bool
is_none none_ = true
is_none other = false

-- `fs::is_regular_file(p)`, which throws where the status cannot be read.
unfoldable pub is_regular_file : System → FilePath → Result Bool
is_regular_file sys p =
    let status = sys.status p in
    if is_none status then throw (sys.filesystem_error p) else ok (is_regular status)

-- `fs::is_symlink(p)`, which throws where the status cannot be read.
unfoldable pub is_symlink_or_throw : System → FilePath → Result Bool
is_symlink_or_throw sys p =
    let status = sys.symlink_status p in
    if is_none status then throw (sys.filesystem_error p) else ok (is_symlink status)

-- `fs::absolute(p, ec)`: nothing when `ec` is set.
unfoldable pub absolute : System → FilePath → Option FilePath
absolute sys [] = none
absolute sys (c ∷ p) =
    if is_absolute (c ∷ p)
    then some (c ∷ p)
    else elim sys.current_path [ none ↦ none | some d ↦ some (join d (c ∷ p)) ]

-- `fs::absolute(p)`, which throws instead.
unfoldable pub absolute_or_throw : System → FilePath → Result FilePath
absolute_or_throw sys p = elim (absolute sys p) [
  | none ↦ throw (sys.filesystem_error p)
  | some a ↦ ok a
]

-- make_system_error: the message of a std::system_error
abbrev pub make_system_error : System → ℕ → Str → Str
make_system_error sys errno message = message ++ lit ": " ++ sys.strerror errno

-- `get_process_cwd`; a pid is not negative here.
unfoldable pub get_process_cwd : System → ℕ → Result (Option FilePath)
get_process_cwd sys pid =
    if eqb pid 0
    then throw (lit "Invalid PID.")
    else ok (sys.read_symlink (parse_path (lit "/proc/" ++ nat_to_string pid ++ lit "/cwd")))

unfoldable pub resolve_fd_filename : System → ℕ → ℤ → Option FilePath
resolve_fd_filename sys pid fd = sys.read_symlink (
    join (join (join (parse_path (lit "/proc")) (nat_to_string pid ∷ [])) (lit "fd" ∷ []))
      (to_string fd ∷ []))

-- src/util_fs.h: `resolve_symlink`; a relative target is meant from the directory of the link.
unfoldable pub resolve_symlink : System → FilePath → Result (Option FilePath)
resolve_symlink sys p = elim (sys.read_symlink p) [
  | none ↦ ok none
  | some target ↦
      if is_absolute target
      then ok (some target)
      else absolute_or_throw sys (join (parent_path p) target) >>= λ a. ok (some a)
]

pub data AccessStatus : Type 0 where
  accessible : AccessStatus
  does_not_exist : AccessStatus
  insufficient_permission : AccessStatus

-- src/util_fs.h: `check_accessibility`, by opening the directory or the file. An error of the file system counts as
-- missing permission.
unfoldable pub check_accessibility : System → FilePath → AccessStatus
check_accessibility sys p = elim (exists sys p) [
  | none ↦ insufficient_permission
  | some there ↦
      if not there
      then does_not_exist
      else if sys.can_open p
      then accessible
      else insufficient_permission
]
