-- ===== src/SyscallMonitor.antt =====
-- src/syscall_monitor.h: the loop that follows the traced processes, and `wait_for_signal` of
-- src/process.h with which it starts. The kernel's answers may depend on all the calls made so far,
-- so the monitor carries them along, the latest first; the threads that forward the output are left out.
pub mod Stops
pub mod Resumed
pub mod Rounds
pub mod InitialStop
pub mod Parked
pub mod Resumes
pub mod Asked
pub mod Events
pub mod Ends
pub mod Total
pub mod Returns
mod Tests
use r4r.Base.{
  ℕ, zero, suc, ◌+◌, ◌/◌, ◌%◌, Str, lit, List, [], ◌∷◌, ◌++◌, Option, none, some, Bool, true, false,
  not, ◌&&◌, ◌||◌, eqb, ltb, Result, ok, throw, out_of_fuel, ◌>>=◌, if◌then◌else◌, ℤ, nat_to_string,
}
use r4r.System.{System, make_system_error}
use r4r.Process.{
  Waited, wait_failed, not_yet, changed, wifexited, wexitstatus, wifsignaled, wtermsig, wifstopped,
  wstopsig, esrch, eintr, echild,
}
use r4r.FileTracer.{SyscallArgs}
use r4r.FileTracer.Trace.{Event, entry, exit}

-- The calls of the monitor: waitpid, with or without a process and WNOHANG, and ptrace.
pub data Call : Type 0 where
  wait_any : Call
  poll : ℕ → Call
  get_event_msg : ℕ → Call
  set_options : ℕ → Call
  resume : ℕ → Call
  get_syscall_info : ℕ → Call

abbrev pub Calls : Type 0
Calls = List Call

-- `ptrace_syscall_info`
pub data SyscallInfo : Type 0 where
  at_entry : ℕ → SyscallArgs → SyscallInfo
  at_exit : ℤ → Bool → SyscallInfo
  elsewhere : SyscallInfo

-- The answers, each to the calls before it: of waitpid, of ptrace, with errno for a failure, the
-- milliseconds since the start of the clock, and the system at that time.
pub record Kernel : Type 0 where
  pub waitpid : Calls → Waited
  pub waitpid_nohang : ℕ → Calls → Waited
  pub event_msg : ℕ → Calls → Option ℕ
  pub options_error : ℕ → Calls → Option ℕ
  pub resume_error : ℕ → Calls → Option ℕ
  pub syscall_info : ℕ → Calls → SyscallInfo
  pub elapsed : Calls → ℕ
  pub system : Calls → System

pub data WaitForSignalResult : Type 0 where
  success : WaitForSignalResult
  timeout : WaitForSignalResult
  exited : ℕ → WaitForSignalResult
  signalled : ℕ → WaitForSignalResult

-- `SyscallMonitor::Result`
pub data MonitorResult : Type 0 where
  exit_code : ℕ → MonitorResult
  killed_by : ℕ → MonitorResult
  failure : MonitorResult

abbrev pub sigstop : ℕ
sigstop = 19

-- SIGTRAP | 0x80
abbrev pub syscall_trap : ℕ
syscall_trap = 133

abbrev pub spawn_error_exit_code : ℕ
spawn_error_exit_code = 254

-- `event` is that of a fork, a vfork or a clone.
abbrev pub is_fork_event : ℕ → Bool
is_fork_event status = eqb (status / 65536) 1 || (eqb (status / 65536) 3 || eqb (status / 65536) 2)

-- The status of the process itself, in `wait_for_signal`.
abbrev pub signal_result : ℕ → ℕ → Option WaitForSignalResult
signal_result sig status =
    if wifstopped status && eqb (wstopsig status) sig
    then some success
    else if wifexited status
    then some (exited (wexitstatus status))
    else if wifsignaled status
    then some (signalled (wtermsig status))
    else none

abbrev pub polled_result : ℕ → ℕ → Waited → Option WaitForSignalResult
polled_result pid sig (changed wpid status) =
    if eqb wpid pid then signal_result sig status else none
polled_result pid sig other = none

abbrev pub initial_stop_message : WaitForSignalResult → Str
initial_stop_message success = lit "Failed to wait for initial stop: "
initial_stop_message timeout = lit "Failed to wait for initial stop: timeout"
initial_stop_message (exited n) =
    lit "Failed to wait for initial stop: child exited with " ++ nat_to_string n
initial_stop_message (signalled n) =
    lit "Failed to wait for initial stop: child signalled with " ++ nat_to_string n

abbrev pub resume_message : ℕ → Str
resume_message pid = lit "Failed to start tracing syscalls on pis: " ++ nat_to_string pid

abbrev pub options_message : ℕ → Str
options_message pid = lit "Failed to set ptrace options on pid: " ++ nat_to_string pid

-- The result for a tracee that exited.
abbrev pub exit_result : ℕ → MonitorResult
exit_result status =
    if eqb (wexitstatus status) spawn_error_exit_code
    then failure
    else exit_code (wexitstatus status)

module _ (k : Kernel) where
  -- The process may be gone already.
  abbrev pub unless_gone : Str → Option ℕ → Calls → Result Calls
  unless_gone message none h = ok h
  unless_gone message (some errno) h =
      if eqb errno esrch then ok h else throw (make_system_error (k.system h) errno message)

  unfoldable pub trace_syscalls : ℕ → Calls → Result Calls
  trace_syscalls pid h = unless_gone (resume_message pid) (k.resume_error pid h) (resume pid ∷ h)

  unfoldable pub set_ptrace_options : ℕ → Calls → Result Calls
  set_ptrace_options pid h =
      unless_gone (options_message pid) (k.options_error pid h) (set_options pid ∷ h)

  -- The start of `handle_stop`: a new child, with the number 0 if the kernel does not tell it.
  unfoldable pub attach_child : ℕ → Calls → Result Calls
  attach_child pid h = elim (k.event_msg pid h) [
    | none ↦ trace_syscalls 0 (get_event_msg pid ∷ h)
    | some child ↦ set_ptrace_options child (get_event_msg pid ∷ h) >>= trace_syscalls child
  ]

  -- The loop over waitpid with WNOHANG.
  unfoldable pub wait_for_signal : ℕ → ℕ → ℕ → ℕ → Calls → Result (WaitForSignalResult × Calls)
  wait_for_signal zero pid sig limit h = out_of_fuel
  wait_for_signal (suc fuel) pid sig limit h =
      let again = wait_for_signal fuel pid sig limit (poll pid ∷ h) in
      elim (k.waitpid_nohang pid h) as (λ _. Result (WaitForSignalResult × Calls)) [
        | wait_failed errno ↦
            throw (make_system_error (k.system (poll pid ∷ h)) errno (lit "waitpid"))
        | not_yet ↦
            if ltb limit (k.elapsed (poll pid ∷ h)) then ok (timeout, poll pid ∷ h) else again
        | changed wpid status ↦
            elim (polled_result pid sig (changed wpid status))
              as (λ _. Result (WaitForSignalResult × Calls)) [
                | some r ↦ ok (r, poll pid ∷ h)
                | none ↦
                    if ltb limit (k.elapsed (poll pid ∷ h))
                    then ok (timeout, poll pid ∷ h)
                    else again
              ]
      ]

  -- `wait_for_initial_stop`: ten milliseconds for the SIGSTOP that the tracee raises.
  unfoldable pub wait_for_initial_stop : ℕ → ℕ → Calls → Result Calls
  wait_for_initial_stop fuel tracee h = wait_for_signal fuel tracee sigstop 10 h >>= λ r.
      elim r.0 as (λ _. Result Calls) [
        | success ↦ ok r.1
        | other ↦ throw (initial_stop_message other)
      ]

  -- `L` is the state of the listener, which the two methods change.
  module _ {L : Type 0} (on_event : Event → L → Result L) where
    unfoldable pub handle_syscall : ℕ → L → Calls → Result (L × Calls)
    handle_syscall pid l h = elim (k.syscall_info pid h) [
      | at_entry nr args ↦
          on_event (entry (k.system (get_syscall_info pid ∷ h)) pid nr args) l >>= λ l'.
          ok (l', get_syscall_info pid ∷ h)
      | at_exit rval is_error ↦
          on_event (exit (k.system (get_syscall_info pid ∷ h)) pid rval is_error) l >>= λ l'.
          ok (l', get_syscall_info pid ∷ h)
      | elsewhere ↦ ok (l, get_syscall_info pid ∷ h)
    ]

    unfoldable pub handle_stop : ℕ → ℕ → L → Calls → Result (L × Calls)
    handle_stop pid status l h =
        (if is_fork_event status then attach_child pid h else ok h) >>= λ h1.
        (if eqb (wstopsig status) syscall_trap then handle_syscall pid l h1 else ok (l, h1))
        >>= λ r. trace_syscalls pid r.1 >>= λ h2. ok (r.0, h2)

    -- The loop of `monitor`; the fuel counts the calls of waitpid.
    unfoldable pub monitor : ℕ → ℕ → L → Calls → Result (MonitorResult × L × Calls)
    monitor zero tracee l h = out_of_fuel
    monitor (suc fuel) tracee l h =
        let again = monitor fuel tracee l (wait_any ∷ h) in
        elim (k.waitpid h) as (λ _. Result (MonitorResult × L × Calls)) [
          | wait_failed errno ↦
              if eqb errno echild
              then throw (
                  make_system_error (k.system (wait_any ∷ h)) errno
                    (lit "waitpid - no more childer to trace"))
              else if eqb errno eintr
              then again
              else throw (make_system_error (k.system (wait_any ∷ h)) errno (lit "waitpid"))
          | not_yet ↦ again
          | changed wpid status ↦
              let stopped =
                handle_stop wpid status l (wait_any ∷ h) >>= λ r. monitor fuel tracee r.0 r.1 in
              if wifexited status
              then (if eqb wpid tracee then ok (exit_result status, l, wait_any ∷ h) else again)
              else if wifsignaled status
              then (if eqb wpid tracee
                  then ok (killed_by (wtermsig status), l, wait_any ∷ h)
                  else again)
              else if wifstopped status
              then stopped
              else again
        ]

    -- `process_tracer`
    unfoldable pub process_tracer : ℕ → ℕ → L → Result (MonitorResult × L × Calls)
    process_tracer fuel tracee l =
        wait_for_initial_stop fuel tracee []
        >>= set_ptrace_options tracee
        >>= trace_syscalls tracee
        >>= monitor fuel tracee l
