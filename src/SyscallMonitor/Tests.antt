-- ===== src/SyscallMonitor/Tests.antt =====
-- The process 7, which opens /etc/passwd and exits.
use r4r.Base.{
  ℕ, zero, suc, ◌+◌, ◌≤◌, ◌<◌, List, [], ◌∷◌, Option, none, some, Bool, true, false, eqb, ok,
  Result, get_elem?, if◌then◌else◌, out_of_fuel, list_eq, nat_eq, pos, ◌*◌,
}
use r4r.Base.{◌≡◌, ◌≢◌, refl, arith}
use r4r.Base.Dict
use r4r.Path.{FilePath}
use r4r.System.{System}
use r4r.System.Tests.{sample}
use r4r.Process.{Waited, changed}
use r4r.FileTracer.{FileTracer, empty_tracer, find_handler}
use r4r.FileTracer.Handlers.{on_syscall_entry, on_syscall_exit}
use r4r.FileTracer.Trace
use r4r.FileTracer.Trace.{Event, run}
use r4r.SyscallMonitor.{
  wait_any, poll, get_event_msg, set_options, resume, get_syscall_info, Calls, Kernel, exit_code,
  at_entry, at_exit, process_tracer, monitor, handle_stop, handle_syscall, attach_child,
  trace_syscalls, set_ptrace_options, wait_for_signal, wait_for_initial_stop,
}
use r4r.SyscallMonitor.Rounds.{EndsWith, is_end}
use r4r.SyscallMonitor.Parked.{Served}
use r4r.SyscallMonitor.Resumes.{process_tracer-Served}
use r4r.SyscallMonitor.Asked.{asked, syscall_stops, AsksInTime}
use r4r.SyscallMonitor.Events.{events, process_tracer-run}
use r4r.SyscallMonitor.Ends.{StillRuns, process_tracer-EndsWith}
use r4r.SyscallMonitor.Total.{waits}
use r4r.SyscallMonitor.Returns.{polls, process_tracer-total}

-- A fork of the child 9, the entry and the exit of a write, and the end.
abbrev reports : List Waited
reports =
    changed 7 (65536 + 5 * 256 + 127)
    ∷ changed 9 (19 * 256 + 127)
    ∷ changed 7 (133 * 256 + 127)
    ∷ changed 7 (133 * 256 + 127)
    ∷ changed 9 0
    ∷ []

abbrev or_end : Option Waited → Waited
or_end none = changed 7 0
or_end (some w) = w

abbrev kernel : Kernel
kernel = record {
  waitpid = λ h. or_end (get_elem? reports (waits h));
  waitpid_nohang = λ pid h. changed pid (19 * 256 + 127);
  event_msg = λ pid h. some 9;
  options_error = λ pid h. none;
  resume_error = λ pid h. none;
  syscall_info = λ pid h.
      if eqb (waits h) 3
      then at_entry 1 (record { arg0 = 1; arg1 = 4096 })
      else at_exit (pos 5) false;
  elapsed = λ h. 5 * polls h;
  system = λ h. sample;
}

abbrev no_ignore : System → FilePath → Result Bool
no_ignore sys p = ok false

abbrev calls : Calls
calls =
    wait_any
    ∷ wait_any
    ∷ resume 7
    ∷ get_syscall_info 7
    ∷ wait_any
    ∷ resume 7
    ∷ get_syscall_info 7
    ∷ wait_any
    ∷ resume 9
    ∷ wait_any
    ∷ resume 7
    ∷ resume 9
    ∷ set_options 9
    ∷ get_event_msg 7
    ∷ wait_any
    ∷ resume 7
    ∷ set_options 7
    ∷ poll 7
    ∷ []

abbrev traced : FileTracer
traced = record { syscalls_count = 1; state = []; files = []; symlinks = [] }

monitored :
    process_tracer kernel (Trace.on_event no_ignore) 8 7 empty_tracer
    ≡ ok (exit_code 0, traced, calls)
unfolding process_tracer monitor handle_stop handle_syscall attach_child trace_syscalls
    set_ptrace_options wait_for_signal wait_for_initial_stop on_syscall_entry on_syscall_exit
    find_handler Dict.lookup Dict.has nat_eq
monitored = refl

process_tracer-Served_example : Served kernel calls
process_tracer-Served_example =
    process_tracer-Served kernel 7 (Trace.on_event no_ignore) 8 empty_tracer monitored

process_tracer-run_example :
    (run no_ignore (events kernel calls) empty_tracer ≡ ok traced)
    × (asked calls ≡ syscall_stops kernel calls)
    × AsksInTime kernel calls
process_tracer-run_example = process_tracer-run kernel no_ignore 8 7 empty_tracer monitored

process_tracer-EndsWith_example :
    (h : Calls) × (calls ≡ wait_any ∷ h)
    × EndsWith 7 (exit_code 0) (kernel.waitpid h)
    × StillRuns kernel 7 h
process_tracer-EndsWith_example =
    process_tracer-EndsWith kernel 7 (Trace.on_event no_ignore) 8 empty_tracer monitored

late : (h : Calls) → 6 ≤ polls h → 10 < 5 * polls h
late h enough = omega arith

ended : (n : ℕ) → 6 ≤ n → is_end 7 (or_end (get_elem? reports n)) ≡ true
ended (suc (suc (suc (suc (suc n))))) enough = refl
ended zero enough = absurd (omega arith)
ended (suc zero) enough = absurd (omega arith)
ended (suc (suc zero)) enough = absurd (omega arith)
ended (suc (suc (suc zero))) enough = absurd (omega arith)
ended (suc (suc (suc (suc zero)))) enough = absurd (omega arith)

process_tracer-total_example : process_tracer kernel {L = ℕ} (λ e n. ok (n + 1)) 8 7 0 ≢ out_of_fuel
process_tracer-total_example =
    process_tracer-total kernel 7 6 late (λ h enough. ended (waits h) enough) (λ e n. ok (n + 1)) 8
      0 (λ e m x. cc) (omega arith)
