-- ===== src/FileTracer.antt =====
-- src/file_tracer.h: the listener that turns the system calls of the traced processes into the files
-- and the symbolic links they used: its state, and what it records at the exit of a call.
pub mod Handlers
pub mod Trace
pub mod Effects
pub mod Steps
pub mod Pending
pub mod Keeps
pub mod Entries
pub mod Sees
pub mod Origin
pub mod Files
pub mod Commute
mod Tests
use r4r.Base.{ℕ, lit, [], ◌++◌, Option, none, some, Bool, true, false, eqb, ◌||◌, ◌&&◌}
use r4r.Base.{
  Result, ok, throw, ◌>>=◌, if◌then◌else◌, list_eq, nat_eq, ℤ, pos, negsuc, to_int, nat_to_string,
  ◌+◌, ◌%◌, ◌^◌,
}
use r4r.Base.Dict
use r4r.Base.Dict.{Dict}
use r4r.Path.{FilePath, is_absolute, join, parse_path, lexically_normal}
use r4r.System.{
  System, FileType, is_regular, is_directory, is_symlink, exists, is_regular_file, absolute,
  get_process_cwd, resolve_fd_filename,
}
use r4r.System.Memory.{read_string_from_process}

pub record FileInfo : Type 0 where
  pub path : FilePath
  pub size : Option ℕ
  pub existed_before : Bool

-- What an entry leaves for its exit.
pub data SyscallState : Type 0 where
  monostate : SyscallState
  file : FileInfo → SyscallState

pub record FileTracer : Type 0 where
  pub syscalls_count : ℕ
  pub state : Dict ℕ (ℕ × SyscallState)
  pub files : Dict FilePath FileInfo
  pub symlinks : Dict FilePath FilePath

abbrev pub empty_tracer : FileTracer
empty_tracer = record { syscalls_count = 0; state = []; files = []; symlinks = [] }

-- The arguments that the handlers read, `args[0]` and `args[1]`.
pub record SyscallArgs : Type 0 where
  pub arg0 : ℕ
  pub arg1 : ℕ

-- The calls with a handler.
pub data SyscallHandler : Type 0 where
  nr_open : SyscallHandler
  nr_readlink : SyscallHandler
  nr_openat : SyscallHandler
  nr_execve : SyscallHandler
  nr_readlinkat : SyscallHandler
  nr_newfstatat : SyscallHandler

-- `kHandlers_` with the numbers of x86_64.
unfoldable pub find_handler : ℕ → Option SyscallHandler
find_handler nr =
    if eqb nr 2
    then some nr_open
    else if eqb nr 89
    then some nr_readlink
    else if eqb nr 257
    then some nr_openat
    else if eqb nr 59
    then some nr_execve
    else if eqb nr 267
    then some nr_readlinkat
    else if eqb nr 262
    then some nr_newfstatat
    else none

abbrev pub path_max : ℕ
path_max = 4096

abbrev pub at_fdcwd : ℤ
at_fdcwd = negsuc 99

abbrev pub is_at_fdcwd : ℤ → Bool
is_at_fdcwd (pos n) = false
is_at_fdcwd (negsuc n) = eqb n 99

-- The path that `register_file` records; it is empty when it cannot be made absolute.
unfoldable pub registered_path : System → FilePath → FilePath
registered_path sys p =
    if is_absolute p then p else elim (absolute sys p) [ none ↦ [] | some a ↦ a ]

-- The size of a regular file that existed before.
unfoldable pub measure : System → FilePath → FileInfo → Result (Option ℕ)
measure sys path info =
    let measured : Option ℕ = elim (sys.file_size path) [ none ↦ info.size | some s ↦ some s ] in
    (if info.existed_before then is_regular_file sys path else ok false) >>= λ regular.
    ok (if regular then measured else info.size)

-- `files_.try_emplace`
abbrev pub add_file : FilePath → Option ℕ → FileInfo → FileTracer → FileTracer
add_file path size info t = record t {
  files =
      Dict.try_emplace path
        (record { path = path; size = size; existed_before = info.existed_before }) t.files;
}

unfoldable pub register_file : System → FileInfo → FileTracer → Result FileTracer
register_file sys info t =
    let path = registered_path sys info.path in
    measure sys path info >>= λ size. ok (add_file path size info t)

abbrev is_supported : FileType → Bool
is_supported type = is_regular type || is_directory type || is_symlink type

-- The part of an exit that `open` and `newfstatat` share: a file that is there and of a type that can
-- be recorded.
unfoldable pub is_recordable : System → FilePath → Bool
is_recordable sys p = elim (exists sys p) [
  | none ↦ false
  | some there ↦ there && is_supported (sys.status p)
]

-- The descriptor that the call returned leads to the file of its entry.
unfoldable pub is_opened_as : System → ℕ → ℤ → FilePath → Bool
is_opened_as sys pid fd entry_file = elim (resolve_fd_filename sys pid fd) [
  | none ↦ false
  | some exit_file ↦ sys.equivalent exit_file entry_file
]

unfoldable pub generic_open_exit :
    System → ℕ → ℤ → Bool → SyscallState → FileTracer → Result FileTracer
generic_open_exit sys pid ret_val true state t = ok t
generic_open_exit sys pid ret_val false monostate t = ok t
generic_open_exit sys pid (negsuc n) false (file info) t = ok t
generic_open_exit sys pid (pos n) false (file info) t =
    if is_recordable sys info.path && is_opened_as sys pid (to_int n) info.path
    then register_file sys info t
    else ok t

unfoldable pub syscall_newfstatat_exit :
    System → Bool → SyscallState → FileTracer → Result FileTracer
syscall_newfstatat_exit sys true state t = ok t
syscall_newfstatat_exit sys false monostate t = ok t
syscall_newfstatat_exit sys false (file info) t =
    if is_recordable sys info.path then register_file sys info t else ok t

unfoldable pub syscall_execve_exit : System → Bool → SyscallState → FileTracer → Result FileTracer
syscall_execve_exit sys true state t = ok t
syscall_execve_exit sys false monostate t = ok t
syscall_execve_exit sys false (file info) t =
    register_file sys (record info { existed_before = true }) t
