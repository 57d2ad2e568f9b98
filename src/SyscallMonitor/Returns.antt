-- ===== src/SyscallMonitor/Returns.antt =====
-- The monitor comes to an end when the tracee does.
use r4r.Base.{
  ℕ, zero, suc, ◌+◌, ◌≤◌, ◌<◌, lit, [], ◌∷◌, Option, none, some, Bool, true, false, ltb, Result, ok,
  throw, bind-eq-ok, out_of_fuel, bind-ne-out_of_fuel, if◌then◌else◌, Bool-cases, inl, inr,
}
use r4r.Base.{◌≡◌, ◌≢◌, refl, sym, ap, ◌∙◌, arith}
use r4r.System.{make_system_error}
use r4r.Process.{Waited, wait_failed, not_yet, changed}
use r4r.FileTracer.Trace.{Event}
use r4r.SyscallMonitor.{
  poll, Calls, Kernel, WaitForSignalResult, success, timeout, exited, signalled, sigstop,
  initial_stop_message, polled_result, process_tracer, monitor, trace_syscalls, set_ptrace_options,
  wait_for_signal, wait_for_initial_stop,
}
use r4r.SyscallMonitor.Stops.{trace_syscalls-ok, set_ptrace_options-ok}
use r4r.SyscallMonitor.Rounds.{is_end}
use r4r.SyscallMonitor.InitialStop.{wait_for_initial_stop-Keeps}
use r4r.SyscallMonitor.Total.{waits, trace_syscalls-ends, set_ptrace_options-ends, monitor-ends}

abbrev pub polls : Calls → ℕ
polls [] = 0
polls (poll pid ∷ h) = suc (polls h)
polls (c ∷ h) = polls h

module _ (k : Kernel) (limit bound : ℕ)
    (passes : (h : Calls) → bound ≤ polls h → limit < k.elapsed h) where
  wait_for_signal-ends :
      (fuel pid sig : ℕ) (h : Calls)
      → bound < fuel + polls h
      → polls h ≤ bound
      → wait_for_signal k fuel pid sig limit h ≢ out_of_fuel
  unfolding wait_for_signal
  wait_for_signal-ends zero pid sig h enough few = absurd (omega arith)
  wait_for_signal-ends (suc fuel) pid sig h enough few =
      from (k.waitpid_nohang pid h)
        (λ h' enough' few'. wait_for_signal-ends fuel pid sig h' enough' few')
    where
      Later : Type 0
      Later =
          (h' : Calls)
          → bound < fuel + polls h'
          → polls h' ≤ bound
          → wait_for_signal k fuel pid sig limit h' ≢ out_of_fuel

      next : Bool → Result (WaitForSignalResult × Calls)
      next late =
          if late
          then ok (timeout, poll pid ∷ h)
          else wait_for_signal k fuel pid sig limit (poll pid ∷ h)

      on_time :
          (late : Bool)
          → ltb limit (k.elapsed (poll pid ∷ h)) ≡ late
          → Later
          → next late ≢ out_of_fuel
      on_time true e ih = λ x. cc
      on_time false e ih =
          let early : polls h + 1 < bound = elim (Bool-cases (ltb (polls h + 1) bound)) [
            | inl less ↦ ground arith
            | inr over ↦ absurd (let late = passes (poll pid ∷ h) (ground arith) in ground arith)
          ] in
          ih (poll pid ∷ h) (omega arith) (omega arith)

      on_result :
          (o : Option WaitForSignalResult)
          → Later
          → (elim o as (λ _. Result (WaitForSignalResult × Calls)) [
            | some q ↦ ok (q, poll pid ∷ h)
            | none ↦ next (ltb limit (k.elapsed (poll pid ∷ h)))
          ])
            ≢ out_of_fuel
      on_result (some q) ih = λ x. cc
      on_result none ih = on_time (ltb limit (k.elapsed (poll pid ∷ h))) refl ih

      from :
          (w : Waited)
          → Later
          → (elim w as (λ _. Result (WaitForSignalResult × Calls)) [
            | wait_failed errno ↦
                throw (make_system_error (k.system (poll pid ∷ h)) errno (lit "waitpid"))
            | not_yet ↦ next (ltb limit (k.elapsed (poll pid ∷ h)))
            | changed wpid status ↦
                elim (polled_result pid sig (changed wpid status))
                  as (λ _. Result (WaitForSignalResult × Calls)) [
                    | some q ↦ ok (q, poll pid ∷ h)
                    | none ↦ next (ltb limit (k.elapsed (poll pid ∷ h)))
                  ]
          ])
            ≢ out_of_fuel
      from (wait_failed errno) ih = λ x. cc
      from not_yet ih = on_time (ltb limit (k.elapsed (poll pid ∷ h))) refl ih
      from (changed wpid status) ih = on_result (polled_result pid sig (changed wpid status)) ih

module _ (k : Kernel) (tracee bound : ℕ) (passes : (h : Calls) → bound ≤ polls h → 10 < k.elapsed h)
    (reported : (h : Calls) → bound ≤ waits h → is_end tracee (k.waitpid h) ≡ true) where
  wait_for_initial_stop-ends :
      (fuel : ℕ) → bound < fuel → wait_for_initial_stop k fuel tracee [] ≢ out_of_fuel
  unfolding wait_for_initial_stop
  wait_for_initial_stop-ends fuel enough =
      bind-ne-out_of_fuel (wait_for_signal k fuel tracee sigstop 10 []) _
        (wait_for_signal-ends k 10 bound passes fuel tracee sigstop [] (omega arith) (omega arith))
        (λ r e. from r.0 r.1)
    where
      from :
          (s : WaitForSignalResult) (h' : Calls)
          → (elim s as (λ _. Result Calls) [
            | success ↦ ok h'
            | other ↦ throw (initial_stop_message other)
          ])
            ≢ out_of_fuel
      from success h' = λ x. cc
      from timeout h' = λ x. cc
      from (exited n) h' = λ x. cc
      from (signalled n) h' = λ x. cc

  -- With a clock that has passed ten milliseconds after some number of polls, and a kernel that reports the end of
  -- the tracee after that number of waits at the latest, the monitor does not run out of fuel, which exceeds that
  -- number, when the listener does not.
  pub process_tracer-total :
      {L : Type 0} (on_event : Event → L → Result L) (fuel : ℕ) (l : L)
      → ((e : Event) (m : L) → on_event e m ≢ out_of_fuel)
      → bound < fuel
      → process_tracer k on_event fuel tracee l ≢ out_of_fuel
  unfolding process_tracer
  process_tracer-total on_event fuel l told enough =
      bind-ne-out_of_fuel _ (monitor k on_event fuel tracee l)
        (bind-ne-out_of_fuel _ (trace_syscalls k tracee)
          (bind-ne-out_of_fuel (wait_for_initial_stop k fuel tracee [])
            (set_ptrace_options k tracee) (wait_for_initial_stop-ends fuel enough)
            (λ h e. set_ptrace_options-ends k tracee h))
          (λ h e. trace_syscalls-ends k tracee h))
        (λ h3 e.
          let (h2, set, traced) = bind-eq-ok _ (trace_syscalls k tracee) e in
          let (h1, first, options) =
            bind-eq-ok (wait_for_initial_stop k fuel tracee []) (set_ptrace_options k tracee) set in
          let start =
            wait_for_initial_stop-Keeps k (λ h. waits h ≡ 0) fuel tracee (λ h n. n) refl first in
          let no_waits : waits h3 ≡ 0 =
            sym (ap waits (trace_syscalls-ok k tracee h2 traced))
            ∙ sym (ap waits (set_ptrace_options-ok k tracee h1 options))
            ∙ start in
          monitor-ends k on_event told tracee bound reported fuel l h3 (omega arith) (omega arith))
