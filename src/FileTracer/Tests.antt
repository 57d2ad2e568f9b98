-- ===== src/FileTracer/Tests.antt =====
-- A trace of two processes that open and execute /etc/passwd.
use r4r.Base.{
  ℕ, lit, List, [], ◌∷◌, none, some, Bool, true, false, ok, Result, ◌>>=◌, ◌≡◌, refl, list_eq,
  nat_eq, ◌↔◌, subst, pos,
}
use r4r.Base.Dict
use r4r.Path.{
  FilePath, is_absolute, parse_path, close_normal, go_up, join, lexically_normal, normal_components,
  split_components, strip_trailing, with_trailing, is_sub_path,
}
use r4r.System.{System}
use r4r.System.Tests.{sample, passwd, root}
use r4r.FileTracer.{FileInfo, FileTracer, SyscallArgs, file, empty_tracer}
use r4r.FileTracer.Handlers.{
  syscall_entry, generic_open_entry, resolve_path_at, admit, below_absolute, below_dir,
  generic_readlink_entry, generic_readlink_exit, open_state, resolve_relative, syscall_exit,
  on_syscall_entry, on_syscall_exit,
}
use r4r.FileTracer.{
  find_handler, generic_open_exit, is_opened_as, is_recordable, measure, register_file,
  registered_path, syscall_execve_exit, syscall_newfstatat_exit,
}
use r4r.System.Memory.{read_string_from_process, read_loop, after_read, got, until_nul, read_next}
use r4r.System.{
  absolute, absolute_or_throw, exists, get_process_cwd, is_regular_file, resolve_fd_filename,
}
use r4r.Base.{nat_to_string, to_int, to_string}
use r4r.FileTracer.Trace.{Event, entry, exit, run}
use r4r.FileTracer.Entries.{IsRooted}
use r4r.FileTracer.Origin.{SomeEntry}
use r4r.FileTracer.Files.{Saw, files-traced}
use r4r.FileTracer.Keeps.{Keeps, run-Keeps}
use r4r.FileTracer.Pending.{pending, open_call, Alternates, run-pending}
use r4r.FileTracer.Commute.{exit-entry_commute}

-- Everything below /proc is ignored.
abbrev ignore_proc : System → FilePath → Result Bool
ignore_proc sys p = ok (is_sub_path p (lit "/" ∷ lit "proc" ∷ []))

abbrev open_passwd : SyscallArgs
open_passwd = record { arg0 = 4294967196; arg1 = 4096 }

abbrev execute_passwd : SyscallArgs
execute_passwd = record { arg0 = 4096; arg1 = 0 }

abbrev trace : List Event
trace =
    entry sample 7 257 open_passwd
    ∷ entry sample 8 59 execute_passwd
    ∷ exit sample 8 (pos 0) false
    ∷ exit sample 7 (pos 3) false
    ∷ []

abbrev passwd_info : FileInfo
passwd_info = record { path = passwd; size = some 42; existed_before = true }

abbrev end : FileTracer
end = record { syscalls_count = 2; state = []; files = (passwd, passwd_info) ∷ []; symlinks = [] }

traced : run ignore_proc trace empty_tracer ≡ ok end
unfolding run syscall_entry generic_open_entry resolve_path_at admit below_absolute below_dir
    generic_readlink_entry generic_readlink_exit open_state resolve_relative syscall_exit
    on_syscall_entry on_syscall_exit find_handler generic_open_exit is_opened_as is_recordable
    measure register_file registered_path syscall_execve_exit syscall_newfstatat_exit
    read_string_from_process read_loop after_read got until_nul read_next is_absolute parse_path
    close_normal go_up join lexically_normal normal_components split_components strip_trailing
    with_trailing is_sub_path absolute absolute_or_throw exists get_process_cwd is_regular_file
    resolve_fd_filename nat_to_string to_int to_string list_eq nat_eq Dict.has Dict.erase
    Dict.lookup Dict.try_emplace
traced = refl

sample-IsRooted : IsRooted sample
unfolding is_absolute list_eq nat_eq
sample-IsRooted d e = let same : root ≡ d = cc in subst (λ q. is_absolute q ≡ true) same refl

files-traced_example :
    (passwd ≡ passwd) × (is_absolute passwd ≡ true) × SomeEntry (Saw ignore_proc passwd true) trace
unfolding Dict.lookup list_eq nat_eq
files-traced_example =
    files-traced ignore_proc trace (sample-IsRooted, (sample-IsRooted, tt)) traced passwd
      passwd_info refl

run-Keeps_example : Keeps empty_tracer end
run-Keeps_example = run-Keeps ignore_proc trace empty_tracer traced

run-pending_example :
    Alternates trace (λ pid. pending pid empty_tracer)
    × ((pid : ℕ) → pending pid end ≡ open_call pid trace (pending pid empty_tracer))
run-pending_example = run-pending ignore_proc trace empty_tracer traced

-- Process 7 has its call open while process 8 enters one.
abbrev opened : FileTracer
opened = record {
  syscalls_count = 1;
  state = (7, (257, file passwd_info)) ∷ [];
  files = [];
  symlinks = [];
}

abbrev closed_and_opened : FileTracer
closed_and_opened = record {
  syscalls_count = 2;
  state = (8, (59, file (record { path = passwd; size = none; existed_before = false }))) ∷ [];
  files = (passwd, passwd_info) ∷ [];
  symlinks = [];
}

exit-entry_commute_example :
    ((on_syscall_exit ignore_proc sample 7 (pos 3) false opened
        >>= on_syscall_entry ignore_proc sample 8 59 execute_passwd)
      ≡ ok closed_and_opened)
    ↔ ((on_syscall_entry ignore_proc sample 8 59 execute_passwd opened
          >>= on_syscall_exit ignore_proc sample 7 (pos 3) false)
        ≡ ok closed_and_opened)
unfolding nat_eq
exit-entry_commute_example =
    exit-entry_commute ignore_proc sample sample 7 8 59 (pos 3) false execute_passwd opened
      closed_and_opened refl
