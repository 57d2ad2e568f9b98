-- ===== src/SyscallMonitor/Resumes.antt =====
-- No traced process is left behind in a stop.
use r4r.Base.{
  ℕ, List, [], ◌∷◌, Option, none, some, Bool, true, false, not, eqb, filter, All, Result, ok,
  if◌then◌else◌,
}
use r4r.Base.{◌≡◌, refl, sym, ap, ◌∙◌, subst, arith}
use r4r.Process.{Waited, wait_failed, not_yet, changed, wifstopped, wstopsig}
use r4r.FileTracer.Trace.{Event}
use r4r.SyscallMonitor.Stops.{attach_calls, attached, inspected}
use r4r.SyscallMonitor.Rounds.{
  is_stop, Invariant, monitor-Finished, EndsWith-no_stop, process_tracer-ok,
}
use r4r.SyscallMonitor.Resumed.{AllResumed}
use r4r.SyscallMonitor.Parked.{
  stopped_process, polled_process, new_child, parked_by, NeverStallsBy, always, Served,
  Served-always,
}
use r4r.SyscallMonitor.InitialStop.{wait_for_initial_stop-Keeps}
use r4r.SyscallMonitor.{
  process_tracer, wait_any, poll, set_options, resume, get_syscall_info, Calls, Kernel,
  MonitorResult, is_fork_event, syscall_trap,
}

module _ (k : Kernel) where
  -- Until the end, every call to resume is taken to count; that they all do is shown beside it.
  abbrev parked : Calls → List ℕ
  parked = parked_by k (always k)

  abbrev NeverStalls : Calls → Type 0
  NeverStalls = NeverStallsBy k (always k)

  abbrev AllAre : ℕ → List ℕ → Type 0
  AllAre pid = All (λ q. q ≡ pid)

  AllAre-filter : (pid : ℕ) (p : ℕ → Bool) (xs : List ℕ) → AllAre pid xs → AllAre pid (filter p xs)
  AllAre-filter pid p [] h = tt
  AllAre-filter pid p (x ∷ xs) (hx, h) = ground (arith, AllAre-filter pid p xs h)

  filter-AllAre : (pid : ℕ) (xs : List ℕ) → AllAre pid xs → filter (λ q. not (eqb q pid)) xs ≡ []
  filter-AllAre pid [] h = refl
  filter-AllAre pid (x ∷ xs) (hx, h) = ground (arith, filter-AllAre pid xs h)

  without :
      (pid child : ℕ) (xs : List ℕ)
      → AllAre pid xs
      → AllAre pid (filter (λ q. not (eqb q child)) (child ∷ xs))
  without pid child xs all =
      let rest = AllAre-filter pid (λ q. not (eqb q child)) xs all in ground (arith, rest)

  -- Only the stopped process is parked while its stop is handled, once its child is served.
  abbrev Only : ℕ → Calls → Type 0
  Only pid h = AllAre pid (parked h) × NeverStalls h

  attach_calls-Only :
      (pid : ℕ) (o : Option ℕ) (h : Calls)
      → k.event_msg pid h ≡ o
      → Only pid h
      → Only pid (attach_calls k pid o h)
  attach_calls-Only pid none h e (all, never) = (
    AllAre-filter pid _ (new_child (k.event_msg pid h) (parked h))
        (subst (λ o. AllAre pid (new_child o (parked h))) (sym e) all),
    never,
  )
  attach_calls-Only pid (some child) h e (all, never) = (
    subst (λ o. AllAre pid (filter (λ q. not (eqb q child)) (new_child o (parked h)))) (sym e)
        (without pid child (parked h) all),
    never,
  )

  attached-Only : (pid status : ℕ) (h : Calls) → Only pid h → Only pid (attached k pid status h)
  attached-Only pid status h only = from (is_fork_event status)
    where
      from : (b : Bool) → Only pid (if b then attach_calls k pid (k.event_msg pid h) h else h)
      from true = attach_calls-Only pid (k.event_msg pid h) h refl only
      from false = only

  inspected-Only : (pid status : ℕ) (h : Calls) → Only pid h → Only pid (inspected k pid status h)
  inspected-Only pid status h only = from (eqb (wstopsig status) syscall_trap)
    where
      from : (b : Bool) → Only pid (if b then get_syscall_info pid ∷ h else h)
      from true = only
      from false = only

  abbrev Idle : Calls → Type 0
  Idle h = (parked h ≡ []) × NeverStalls h × AllResumed k h

  poll-Only : (pid : ℕ) (h : Calls) → Only pid h → Only pid (poll pid ∷ h)
  poll-Only pid h (all, never) = (from (k.waitpid_nohang pid h), never)
    where
      from : (w : Waited) → AllAre pid (polled_process pid w (parked h))
      from not_yet = all
      from (wait_failed errno) = all
      from (changed wpid status) = stopped (wifstopped status)
        where
          stopped : (b : Bool) → AllAre pid (if b then pid ∷ parked h else parked h)
          stopped true = (refl, all)
          stopped false = all

  module _ (tracee : ℕ) {L : Type 0} (on_event : Event → L → Result L) where
    quiet_parked : (w : Waited) (xs : List ℕ) → is_stop w ≡ false → stopped_process w xs ≡ xs
    quiet_parked not_yet xs no_stop = refl
    quiet_parked (wait_failed errno) xs no_stop = refl
    quiet_parked (changed pid status) xs no_stop = rw no_stop refl

    at_stop :
        (pid status : ℕ) (h : Calls)
        → Idle h
        → k.waitpid h ≡ changed pid status
        → wifstopped status ≡ true
        → Only pid (wait_any ∷ h)
    at_stop pid status h (empty, never, _) e st =
        let one : stopped_process (k.waitpid h) (parked h) ≡ pid ∷ [] =
          ap (λ w. stopped_process w (parked h)) e ∙ rw (st, empty) refl in
        (subst (AllAre pid) (sym one) (refl, tt), (empty, never))

    Idle-Invariant : Invariant k tracee on_event (λ l h. Idle h)
    Idle-Invariant = record {
      quiet = λ l h (empty, never, all) no_stop no_end.
          (quiet_parked (k.waitpid h) (parked h) no_stop ∙ empty, (empty, never), all);
      stop = λ l l' h pid status idle e st told runs.
          let only =
            inspected-Only pid status _
              (attached-Only pid status (wait_any ∷ h) (at_stop pid status h idle e st)) in
          (filter-AllAre pid _ only.0, only.1, runs idle.2);
    }

    -- When the monitor of a tracee returns, no process is left that was reported to be in a stop, or to
    -- start in one as the child of a fork, and that was not resumed since by a call that succeeded or
    -- found the process gone; and so it was whenever the monitor waited.
    pub process_tracer-Served :
        (fuel : ℕ) (l : L) {r : MonitorResult × L × Calls}
        → process_tracer k on_event fuel tracee l ≡ ok r
        → Served k r.2
    process_tracer-Served fuel l {r = r} done =
        let (h, first, runs, rest) = process_tracer-ok k tracee on_event fuel l done in
        let only =
          wait_for_initial_stop-Keeps k (Only tracee) fuel tracee (λ h. poll-Only tracee h) (tt, tt)
            first in
        let all = wait_for_initial_stop-Keeps k (AllResumed k) fuel tracee (λ h a. a) tt first in
        let end =
          monitor-Finished k tracee on_event (λ l h. Idle h) Idle-Invariant fuel l
            (resume tracee ∷ set_options tracee ∷ h)
            (filter-AllAre tracee (parked h) only.0, only.1, runs all) rest in
        let (empty, never, all_resumed) = end.held in
        subst (Served k) (sym end.last) (
          Served-always k (wait_any ∷ end.before) all_resumed
            (quiet_parked (k.waitpid end.before) (parked end.before)
                (EndsWith-no_stop tracee r.0 (k.waitpid end.before) end.ends)
              ∙ empty)
            (empty, never))
