-- ===== src/FileTracer/Handlers.antt =====
-- src/file_tracer.h: the handlers of the system calls and the listener. The query of the
-- IgnoreFileMap is a parameter, asked of the system as it is at the call.
use r4r.Base.{ℕ, lit, ◌++◌, Option, none, some, Bool, true, false}
use r4r.Base.{
  Result, ok, throw, ◌>>=◌, if◌then◌else◌, list_eq, nat_eq, ℤ, to_int, nat_to_string, ◌+◌, ◌%◌, ◌^◌,
}
use r4r.Base.Dict
use r4r.Base.Dict.{Dict}
use r4r.Path.{FilePath, is_absolute, join, parse_path, lexically_normal}
use r4r.System.{System, exists, absolute, absolute_or_throw, get_process_cwd, resolve_fd_filename}
use r4r.System.Memory.{read_string_from_process}
use r4r.FileTracer.{
  SyscallState, monostate, file, FileTracer, SyscallArgs, SyscallHandler, nr_open, nr_readlink,
  nr_openat, nr_execve, nr_readlinkat, nr_newfstatat, find_handler, path_max, at_fdcwd, is_at_fdcwd,
  generic_open_exit, syscall_newfstatat_exit, syscall_execve_exit,
}

-- The state that the entry of an `open` leaves.
unfoldable pub open_state : System → Option FilePath → SyscallState
open_state sys none = monostate
open_state sys (some p) = elim (exists sys p) [
  | none ↦ monostate
  | some there ↦ file (record { path = p; size = none; existed_before = there })
]

abbrev pub readlink_state : Option FilePath → SyscallState
readlink_state none = monostate
readlink_state (some p) = file (record { path = p; size = none; existed_before = false })

-- `symlinks_.emplace`
abbrev pub add_link : FilePath → FilePath → FileTracer → FileTracer
add_link p target t = record t { symlinks = Dict.try_emplace p target t.symlinks }

-- The path behind the directory that was found for it.
unfoldable pub below_absolute : System → FilePath → Option FilePath → Result (Option FilePath)
below_absolute sys path none = ok none
below_absolute sys path (some d) = absolute_or_throw sys (join d path) >>= λ r. ok (some r)

unfoldable pub below_dir : System → FilePath → Option FilePath → Result (Option FilePath)
below_dir sys path none = ok none
below_dir sys path (some d) = below_absolute sys path (absolute sys d)

-- A relative path, behind the directory it is meant from.
unfoldable pub resolve_relative : System → ℕ → ℤ → FilePath → Result (Option FilePath)
resolve_relative sys pid dirfd path =
    (if is_at_fdcwd dirfd then get_process_cwd sys pid else ok (resolve_fd_filename sys pid dirfd))
    >>= below_dir sys path

module _ (ignore : System → FilePath → Result Bool) where
  -- What remains of a path once it is known: its normal form, unless that is ignored.
  unfoldable pub admit : System → FilePath → Result (Option FilePath)
  admit sys p = ignore sys (lexically_normal p) >>= λ ignored.
      ok (if ignored then none else some (lexically_normal p))

  unfoldable pub resolve_path_at : System → ℕ → ℤ → FilePath → Result (Option FilePath)
  resolve_path_at sys pid dirfd path =
      (if is_absolute path then ok (some path) else resolve_relative sys pid dirfd path)
      >>= λ result. elim result [ none ↦ ok none | some p ↦ admit sys p ]

  unfoldable pub generic_open_entry : System → ℕ → ℤ → FilePath → Result SyscallState
  generic_open_entry sys pid dirfd path =
      resolve_path_at sys pid dirfd path >>= λ result. ok (open_state sys result)

  -- `generic_readlink_entry`, and the end of `syscall_execve_entry`.
  unfoldable pub generic_readlink_entry : System → ℕ → ℤ → FilePath → Result SyscallState
  generic_readlink_entry sys pid dirfd path =
      resolve_path_at sys pid dirfd path >>= λ result. ok (readlink_state result)

  unfoldable pub generic_readlink_exit :
      System → Bool → SyscallState → FileTracer → Result FileTracer
  generic_readlink_exit sys true state t = ok t
  generic_readlink_exit sys false monostate t = ok t
  generic_readlink_exit sys false (file info) t = elim (sys.read_symlink info.path) [
    | none ↦ ok t
    | some target ↦
        ignore sys target >>= λ ignored. ok (if ignored then t else add_link info.path target t)
  ]

  -- The entry handlers: the string argument is read, then resolved.
  unfoldable pub syscall_entry : SyscallHandler → System → ℕ → SyscallArgs → Result SyscallState
  syscall_entry nr_open sys pid args =
      read_string_from_process sys pid args.arg0 path_max >>= λ path.
      generic_open_entry sys pid at_fdcwd (parse_path path)
  syscall_entry nr_readlink sys pid args =
      read_string_from_process sys pid args.arg0 path_max >>= λ path.
      generic_readlink_entry sys pid at_fdcwd (parse_path path)
  syscall_entry nr_openat sys pid args =
      read_string_from_process sys pid args.arg1 path_max >>= λ path.
      generic_open_entry sys pid (to_int args.arg0) (parse_path path)
  syscall_entry nr_execve sys pid args =
      read_string_from_process sys pid args.arg0 path_max >>= λ path.
      generic_readlink_entry sys pid at_fdcwd (parse_path path)
  syscall_entry nr_readlinkat sys pid args =
      read_string_from_process sys pid args.arg1 path_max >>= λ path.
      generic_readlink_entry sys pid (to_int args.arg0) (parse_path path)
  syscall_entry nr_newfstatat sys pid args =
      read_string_from_process sys pid args.arg1 path_max >>= λ path.
      generic_open_entry sys pid (to_int args.arg0) (parse_path path)

  unfoldable pub syscall_exit :
      SyscallHandler → System → ℕ → ℤ → Bool → SyscallState → FileTracer → Result FileTracer
  syscall_exit nr_open sys pid ret is_error state = generic_open_exit sys pid ret is_error state
  syscall_exit nr_openat sys pid ret is_error state = generic_open_exit sys pid ret is_error state
  syscall_exit nr_readlink sys pid ret is_error state = generic_readlink_exit sys is_error state
  syscall_exit nr_readlinkat sys pid ret is_error state = generic_readlink_exit sys is_error state
  syscall_exit nr_execve sys pid ret is_error state = syscall_execve_exit sys is_error state
  syscall_exit nr_newfstatat sys pid ret is_error state = syscall_newfstatat_exit sys is_error state

  unfoldable pub on_syscall_entry : System → ℕ → ℕ → SyscallArgs → FileTracer → Result FileTracer
  on_syscall_entry sys pid syscall args t =
      let counted = record t { syscalls_count = (t.syscalls_count + 1) % 2 ^ 64 } in
      elim (find_handler syscall) [
        | none ↦ ok counted
        | some handler ↦ syscall_entry handler sys pid args >>= λ state.
            if Dict.has pid t.state
            then throw (lit "There is already a syscall handler for pid: " ++ nat_to_string pid)
            else ok (record counted { state = Dict.try_emplace pid (syscall, state) t.state })
      ]

  unfoldable pub on_syscall_exit : System → ℕ → ℤ → Bool → FileTracer → Result FileTracer
  on_syscall_exit sys pid ret is_error t = elim (Dict.lookup pid t.state) [
    | none ↦ ok t
    | some (syscall, state) ↦
        let extracted = record t { state = Dict.erase pid t.state } in
        elim (find_handler syscall) [
          | none ↦ throw (lit "No exit handler for syscall: " ++ nat_to_string syscall)
          | some handler ↦ syscall_exit handler sys pid ret is_error state extracted
        ]
  ]
