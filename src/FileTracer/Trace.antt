-- ===== src/FileTracer/Trace.antt =====
-- The listener over a whole trace of events, and what the exits leave alone.
use r4r.Base.{ℕ, Bool, true, false, List, [], ◌∷◌, ℤ, pos, negsuc, arith}
use r4r.Base.{Result, ok, ◌>>=◌, list_eq, nat_eq, ◌≡◌, refl}
use r4r.Base.Dict.{Dict}
use r4r.Path.{FilePath}
use r4r.System.{System}
use r4r.FileTracer.{
  FileInfo, SyscallState, monostate, file, FileTracer, SyscallArgs, SyscallHandler, nr_open,
  nr_readlink, nr_openat, nr_execve, nr_readlinkat, nr_newfstatat, generic_open_exit,
  syscall_newfstatat_exit, syscall_execve_exit, register_file,
}
use r4r.FileTracer.Handlers.{syscall_exit, generic_readlink_exit, on_syscall_entry, on_syscall_exit}

-- The calls of the two methods of the listener, each with the system at that time.
pub data Event : Type 0 where
  entry : System → ℕ → ℕ → SyscallArgs → Event
  exit : System → ℕ → ℤ → Bool → Event

module _ (ignore : System → FilePath → Result Bool) where
  abbrev pub on_event : Event → FileTracer → Result FileTracer
  on_event (entry sys pid syscall args) = on_syscall_entry ignore sys pid syscall args
  on_event (exit sys pid ret is_error) = on_syscall_exit ignore sys pid ret is_error

  unfoldable pub run : List Event → FileTracer → Result FileTracer
  run [] t = ok t
  run (e ∷ es) t = on_event e t >>= run es

-- The same tracer with another count and other pending calls.
abbrev pub with_pending : ℕ → Dict ℕ (ℕ × SyscallState) → FileTracer → FileTracer
with_pending c s t = record t { syscalls_count = c; state = s }

-- A record's files do not depend on the count and the pending calls.
register_file-with_pending :
    (sys : System) (info : FileInfo) (c : ℕ) (s : Dict ℕ (ℕ × SyscallState)) (t : FileTracer)
    → register_file sys info (with_pending c s t)
      ≡ (register_file sys info t >>= λ u. ok (with_pending c s u))
unfolding register_file
register_file-with_pending sys info c s t = ground arith

generic_open_exit-with_pending :
    (sys : System) (pid : ℕ) (ret : ℤ) (err : Bool) (st : SyscallState) (c : ℕ)
    (s : Dict ℕ (ℕ × SyscallState)) (t : FileTracer)
    → generic_open_exit sys pid ret err st (with_pending c s t)
      ≡ (generic_open_exit sys pid ret err st t >>= λ u. ok (with_pending c s u))
unfolding generic_open_exit
generic_open_exit-with_pending sys pid ret true st c s t = refl
generic_open_exit-with_pending sys pid ret false monostate c s t = refl
generic_open_exit-with_pending sys pid (negsuc n) false (file info) c s t = refl
generic_open_exit-with_pending sys pid (pos n) false (file info) c s t =
    ground (arith, register_file-with_pending sys info c s t)

syscall_newfstatat_exit-with_pending :
    (sys : System) (err : Bool) (st : SyscallState) (c : ℕ) (s : Dict ℕ (ℕ × SyscallState))
    (t : FileTracer)
    → syscall_newfstatat_exit sys err st (with_pending c s t)
      ≡ (syscall_newfstatat_exit sys err st t >>= λ u. ok (with_pending c s u))
unfolding syscall_newfstatat_exit
syscall_newfstatat_exit-with_pending sys true st c s t = refl
syscall_newfstatat_exit-with_pending sys false monostate c s t = refl
syscall_newfstatat_exit-with_pending sys false (file info) c s t =
    ground (arith, register_file-with_pending sys info c s t)

syscall_execve_exit-with_pending :
    (sys : System) (err : Bool) (st : SyscallState) (c : ℕ) (s : Dict ℕ (ℕ × SyscallState))
    (t : FileTracer)
    → syscall_execve_exit sys err st (with_pending c s t)
      ≡ (syscall_execve_exit sys err st t >>= λ u. ok (with_pending c s u))
unfolding syscall_execve_exit
syscall_execve_exit-with_pending sys true st c s t = refl
syscall_execve_exit-with_pending sys false monostate c s t = refl
syscall_execve_exit-with_pending sys false (file info) c s t =
    register_file-with_pending sys (record info { existed_before = true }) c s t

module _ (ignore : System → FilePath → Result Bool) where
  generic_readlink_exit-with_pending :
      (sys : System) (err : Bool) (st : SyscallState) (c : ℕ) (s : Dict ℕ (ℕ × SyscallState))
      (t : FileTracer)
      → generic_readlink_exit ignore sys err st (with_pending c s t)
        ≡ (generic_readlink_exit ignore sys err st t >>= λ u. ok (with_pending c s u))
  unfolding generic_readlink_exit
  generic_readlink_exit-with_pending sys true st c s t = refl
  generic_readlink_exit-with_pending sys false monostate c s t = refl
  generic_readlink_exit-with_pending sys false (file info) c s t = ground arith

  -- What an exit handler does to the files and links does not depend on the count and the pending calls,
  -- which it leaves alone.
  pub syscall_exit-with_pending :
      (h : SyscallHandler) (sys : System) (pid : ℕ) (ret : ℤ) (err : Bool) (st : SyscallState)
      (c : ℕ) (s : Dict ℕ (ℕ × SyscallState)) (t : FileTracer)
      → syscall_exit ignore h sys pid ret err st (with_pending c s t)
        ≡ (syscall_exit ignore h sys pid ret err st t >>= λ u. ok (with_pending c s u))
  unfolding syscall_exit
  syscall_exit-with_pending nr_open sys pid ret = generic_open_exit-with_pending sys pid ret
  syscall_exit-with_pending nr_openat sys pid ret = generic_open_exit-with_pending sys pid ret
  syscall_exit-with_pending nr_readlink sys pid ret = generic_readlink_exit-with_pending sys
  syscall_exit-with_pending nr_readlinkat sys pid ret = generic_readlink_exit-with_pending sys
  syscall_exit-with_pending nr_execve sys pid ret = syscall_execve_exit-with_pending sys
  syscall_exit-with_pending nr_newfstatat sys pid ret = syscall_newfstatat_exit-with_pending sys
