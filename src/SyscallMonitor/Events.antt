-- ===== src/SyscallMonitor/Events.antt =====
-- What the listener is told: every system call stop, in the order in which the kernel reports them.
use r4r.Base.{
  ℕ, List, [], ◌∷◌, ◌++◌, Option, none, some, Bool, true, false, eqb, append-nil, Result, ok, throw,
  fatal, out_of_fuel, ◌>>=◌, if◌then◌else◌,
}
use r4r.Base.{◌≡◌, refl, sym, ap, ◌∙◌, subst}
use r4r.Path.{FilePath}
use r4r.System.{System}
use r4r.Process.{wstopsig}
use r4r.FileTracer.{FileTracer}
use r4r.FileTracer.Trace.{Event, run}
use r4r.FileTracer.Trace
use r4r.SyscallMonitor.{
  wait_any, poll, get_event_msg, set_options, resume, get_syscall_info, Calls, Kernel,
  MonitorResult, is_fork_event, syscall_trap, process_tracer,
}
use r4r.SyscallMonitor.Stops.{attach_calls, attached, inspected, told, told_if, deliver}
use r4r.SyscallMonitor.Rounds.{EndsWith-no_stop, Invariant, monitor-Finished, process_tracer-ok}
use r4r.SyscallMonitor.Asked.{
  asked, syscall_stops, AsksInTime, AsksAll, AsksAll-quiet, AsksAll-Invariant,
}
use r4r.SyscallMonitor.InitialStop.{wait_for_initial_stop-Keeps}

module _ (k : Kernel) where
  -- The answers that describe the entry or the exit of a system call, the first one first.
  abbrev pub events : Calls → List Event
  events [] = []
  events (get_syscall_info pid ∷ h) = events h ++ told k pid h (k.syscall_info pid h)
  events (wait_any ∷ h) = events h
  events (poll pid ∷ h) = events h
  events (get_event_msg pid ∷ h) = events h
  events (set_options pid ∷ h) = events h
  events (resume pid ∷ h) = events h

  events-attach_calls :
      (pid : ℕ) (o : Option ℕ) (h : Calls) → events (attach_calls k pid o h) ≡ events h
  events-attach_calls pid none h = refl
  events-attach_calls pid (some child) h = refl

  events-attached : (pid status : ℕ) (h : Calls) → events (attached k pid status h) ≡ events h
  events-attached pid status h = from (is_fork_event status)
    where
      from :
          (b : Bool) → events (if b then attach_calls k pid (k.event_msg pid h) h else h) ≡ events h
      from true = events-attach_calls pid (k.event_msg pid h) h
      from false = refl

  module _ {L : Type 0} (on_event : Event → L → Result L) where
    events-inspected :
        (pid status : ℕ) (h : Calls)
        → events (inspected k pid status h)
          ≡ events h ++ told_if k on_event (eqb (wstopsig status) syscall_trap) pid h
    events-inspected pid status h = from (eqb (wstopsig status) syscall_trap)
      where
        from :
            (b : Bool)
            → events (if b then get_syscall_info pid ∷ h else h)
              ≡ events h ++ told_if k on_event b pid h
        from true = refl
        from false = sym (append-nil (events h))

    deliver-append :
        (es fs : List Event) (l : L)
        → deliver k on_event (es ++ fs) l ≡ (deliver k on_event es l >>= deliver k on_event fs)
    deliver-append [] fs l = refl
    deliver-append (e ∷ es) fs l = from (on_event e l) (deliver-append es fs)
      where
        from :
            (m : Result L)
            → ((l' : L)
                → deliver k on_event (es ++ fs) l'
                  ≡ (deliver k on_event es l' >>= deliver k on_event fs))
            → (m >>= deliver k on_event (es ++ fs))
              ≡ ((m >>= deliver k on_event es) >>= deliver k on_event fs)
        from (ok l') ih = ih l'
        from (throw message) ih = refl
        from fatal ih = refl
        from out_of_fuel ih = refl

    abbrev pub Told : L → L → Calls → Type 0
    Told l0 l h = deliver k on_event (events h) l0 ≡ ok l

    Told-Invariant : (tracee : ℕ) (l0 : L) → Invariant k tracee on_event (Told l0)
    Told-Invariant tracee l0 = record {
      quiet = λ l h told no_stop no_end. told;
      stop = λ l l' h pid status was e st told resumed.
          let h1 = attached k pid status (wait_any ∷ h) in
          let before = events-attached pid status (wait_any ∷ h) in
          ap (λ es. deliver k on_event es l0)
            (events-inspected pid status h1
              ∙ ap (λ es. es ++ told_if k on_event (eqb (wstopsig status) syscall_trap) pid h1)
                  before)
          ∙ deliver-append (events h)
              (told_if k on_event (eqb (wstopsig status) syscall_trap) pid h1) l0
          ∙ ap
              (λ m.
                m
                >>= deliver k on_event
                    (told_if k on_event (eqb (wstopsig status) syscall_trap) pid h1))
              was
          ∙ told;
    }

    pub process_tracer-Told :
        (fuel tracee : ℕ) (l0 : L) {r : MonitorResult × L × Calls}
        → process_tracer k on_event fuel tracee l0 ≡ ok r
        → Told l0 r.1 r.2
    process_tracer-Told fuel tracee l0 {r = r} done =
        let (h, first, _, rest) = process_tracer-ok k tracee on_event fuel l0 done in
        let none_ =
          wait_for_initial_stop-Keeps k (λ h. events h ≡ []) fuel tracee (λ h e. e) refl first in
        let end =
          monitor-Finished k tracee on_event (Told l0) (Told-Invariant tracee l0) fuel l0
            (resume tracee ∷ set_options tracee ∷ h) (ap (λ es. deliver k on_event es l0) none_)
            rest in
        subst (Told l0 r.1) (sym end.last) end.held

    -- Over a whole run the monitor asks about each stop at a system call, before it waits again.
    pub process_tracer-AsksAll :
        (fuel tracee : ℕ) (l0 : L) {r : MonitorResult × L × Calls}
        → process_tracer k on_event fuel tracee l0 ≡ ok r
        → AsksAll k r.2
    process_tracer-AsksAll fuel tracee l0 {r = r} done =
        let (h, first, _, rest) = process_tracer-ok k tracee on_event fuel l0 done in
        let none_ =
          wait_for_initial_stop-Keeps k (AsksAll k) fuel tracee (λ h e. e) (refl, tt) first in
        let end =
          monitor-Finished k tracee on_event (λ l h. AsksAll k h)
            (AsksAll-Invariant k tracee on_event) fuel l0 (resume tracee ∷ set_options tracee ∷ h)
            none_ rest in
        subst (AsksAll k) (sym end.last) (
          AsksAll-quiet k end.before (EndsWith-no_stop tracee r.0 (k.waitpid end.before) end.ends)
            end.held)

  run-deliver :
      (ignore : System → FilePath → Result Bool) (es : List Event) (t : FileTracer)
      → run ignore es t ≡ deliver k (Trace.on_event ignore) es t
  unfolding run
  run-deliver ignore [] t = refl
  run-deliver ignore (e ∷ es) t = from (Trace.on_event ignore e t) (run-deliver ignore es)
    where
      from :
          (m : Result FileTracer)
          → ((u : FileTracer) → run ignore es u ≡ deliver k (Trace.on_event ignore) es u)
          → (m >>= run ignore es) ≡ (m >>= deliver k (Trace.on_event ignore) es)
      from (ok u) ih = ih u
      from (throw message) ih = refl
      from fatal ih = refl
      from out_of_fuel ih = refl

  -- The file tracer as the listener: when the monitor returns, its state is that of a run over what the
  -- kernel answered when it was asked about a process, in order; and it was asked about exactly the
  -- processes that the waits had reported to be stopped at a system call, in that order, and about each
  -- one before the next wait.
  pub process_tracer-run :
      (ignore : System → FilePath → Result Bool) (fuel tracee : ℕ) (t : FileTracer)
      {r : MonitorResult × FileTracer × Calls}
      → process_tracer k (Trace.on_event ignore) fuel tracee t ≡ ok r
      → (run ignore (events r.2) t ≡ ok r.1) × (asked r.2 ≡ syscall_stops k r.2) × AsksInTime k r.2
  process_tracer-run ignore fuel tracee t {r = r} done =
      let (all, in_time) =
        process_tracer-AsksAll (Trace.on_event ignore) fuel tracee t {r = r} done in
      (
        run-deliver ignore (events r.2) t
            ∙ process_tracer-Told (Trace.on_event ignore) fuel tracee t done,
        all,
        in_time,
      )
