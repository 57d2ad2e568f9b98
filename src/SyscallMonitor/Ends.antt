-- ===== src/SyscallMonitor/Ends.antt =====
-- When the monitor returns: at the end of the tracee, which it does not miss.
use r4r.Base.{ℕ, [], ◌∷◌, Option, none, some, Bool, true, false, eqb, Result, ok, if◌then◌else◌}
use r4r.Base.{◌≡◌, ap, ◌∙◌, arith}
use r4r.Process.{Waited, changed, wifstopped, wstopsig}
use r4r.FileTracer.Trace.{Event}
use r4r.SyscallMonitor.{
  wait_any, set_options, resume, get_syscall_info, Calls, Kernel, MonitorResult, is_fork_event,
  syscall_trap, process_tracer,
}
use r4r.SyscallMonitor.Stops.{attach_calls, attached, inspected}
use r4r.SyscallMonitor.Rounds.{is_end, EndsWith, Invariant, monitor-Finished, process_tracer-ok}
use r4r.SyscallMonitor.InitialStop.{wait_for_initial_stop-Keeps}

module _ (k : Kernel) (tracee : ℕ) where
  -- No wait was answered with the end of the tracee.
  abbrev pub StillRuns : Calls → Type 0
  StillRuns [] = Unit
  StillRuns (wait_any ∷ h) = (is_end tracee (k.waitpid h) ≡ false) × StillRuns h
  StillRuns (c ∷ h) = StillRuns h

  StillRuns-attached :
      (pid status : ℕ) (h : Calls) → StillRuns h → StillRuns (attached k pid status h)
  StillRuns-attached pid status h runs = from (is_fork_event status) (k.event_msg pid h)
    where
      from : (b : Bool) (o : Option ℕ) → StillRuns (if b then attach_calls k pid o h else h)
      from true none = runs
      from true (some child) = runs
      from false o = runs

  StillRuns-inspected :
      (pid status : ℕ) (h : Calls) → StillRuns h → StillRuns (inspected k pid status h)
  StillRuns-inspected pid status h runs = from (eqb (wstopsig status) syscall_trap)
    where
      from : (b : Bool) → StillRuns (if b then get_syscall_info pid ∷ h else h)
      from true = runs
      from false = runs

  is_end_stop :
      (w : Waited) (pid status : ℕ)
      → w ≡ changed pid status
      → wifstopped status ≡ true
      → is_end tracee w ≡ false
  is_end_stop w pid status e st = ap (is_end tracee) e ∙ ground arith

  module _ {L : Type 0} (on_event : Event → L → Result L) where
    StillRuns-Invariant : Invariant k tracee on_event (λ l h. StillRuns h)
    StillRuns-Invariant = record {
      quiet = λ l h runs no_stop no_end. (no_end, runs);
      stop = λ l l' h pid status runs e st told resumed. StillRuns-inspected pid status _ (
          StillRuns-attached pid status (wait_any ∷ h)
            (is_end_stop (k.waitpid h) pid status e st, runs));
    }

    -- The result of a monitor that returns is that of the end of the tracee, which its last wait reported and no
    -- wait before.
    pub process_tracer-EndsWith :
        (fuel : ℕ) (l : L) {r : MonitorResult × L × Calls}
        → process_tracer k on_event fuel tracee l ≡ ok r
        → (h : Calls) × (r.2 ≡ wait_any ∷ h) × EndsWith tracee r.0 (k.waitpid h) × StillRuns h
    process_tracer-EndsWith fuel l done =
        let (h, first, _, rest) = process_tracer-ok k tracee on_event fuel l done in
        let runs = wait_for_initial_stop-Keeps k StillRuns fuel tracee (λ h r. r) tt first in
        let end =
          monitor-Finished k tracee on_event (λ l h. StillRuns h) StillRuns-Invariant fuel l
            (resume tracee ∷ set_options tracee ∷ h) runs rest in
        (end.before, end.last, end.ends, end.held)
