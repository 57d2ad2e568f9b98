-- ===== src/SyscallMonitor/Stops.antt =====
-- The calls that the handling of a stop makes.
use r4r.Base.{
  ℕ, Str, List, [], ◌∷◌, Option, none, some, Bool, true, false, eqb, Result, ok, throw, fatal,
  out_of_fuel, ◌>>=◌, bind-eq-ok, ok-injective, if◌then◌else◌,
}
use r4r.Base.{◌≡◌, ap, ◌∙◌, arith}
use r4r.Process.{wstopsig}
use r4r.FileTracer.Trace.{Event, entry, exit}
use r4r.SyscallMonitor.{
  get_event_msg, set_options, resume, get_syscall_info, Calls, SyscallInfo, at_entry, at_exit,
  elsewhere, Kernel, is_fork_event, syscall_trap, resume_message, options_message, unless_gone,
  trace_syscalls, set_ptrace_options, attach_child, handle_syscall, handle_stop,
}

module _ (k : Kernel) where
  unless_gone-ok :
      (message : Str) (o : Option ℕ) (h : Calls) {h' : Calls}
      → unless_gone k message o h ≡ ok h'
      → h ≡ h'
  unless_gone-ok message none h done = ok-injective done
  unless_gone-ok message (some errno) h done = ground arith

  pub trace_syscalls-ok :
      (pid : ℕ) (h : Calls) {h' : Calls} → trace_syscalls k pid h ≡ ok h' → resume pid ∷ h ≡ h'
  unfolding trace_syscalls
  trace_syscalls-ok pid h done =
      unless_gone-ok (resume_message pid) (k.resume_error pid h) (resume pid ∷ h) done

  pub set_ptrace_options-ok :
      (pid : ℕ) (h : Calls) {h' : Calls}
      → set_ptrace_options k pid h ≡ ok h'
      → set_options pid ∷ h ≡ h'
  unfolding set_ptrace_options
  set_ptrace_options-ok pid h done =
      unless_gone-ok (options_message pid) (k.options_error pid h) (set_options pid ∷ h) done

  -- The calls that `attach_child` makes.
  abbrev pub attach_calls : ℕ → Option ℕ → Calls → Calls
  attach_calls pid none h = resume 0 ∷ get_event_msg pid ∷ h
  attach_calls pid (some child) h = resume child ∷ set_options child ∷ get_event_msg pid ∷ h

  pub attach_child-ok :
      (pid : ℕ) (h : Calls) {h' : Calls}
      → attach_child k pid h ≡ ok h'
      → attach_calls pid (k.event_msg pid h) h ≡ h'
  unfolding attach_child
  attach_child-ok pid h {h' = h'} done = from (k.event_msg pid h) done
    where
      from :
          (o : Option ℕ)
          → (elim o as (λ _. Result Calls) [
            | none ↦ trace_syscalls k 0 (get_event_msg pid ∷ h)
            | some child ↦
                set_ptrace_options k child (get_event_msg pid ∷ h) >>= trace_syscalls k child
          ])
            ≡ ok h'
          → attach_calls pid o h ≡ h'
      from none done = trace_syscalls-ok 0 (get_event_msg pid ∷ h) done
      from (some child) done =
          let (h1, set, traced) =
            bind-eq-ok (set_ptrace_options k child (get_event_msg pid ∷ h)) (trace_syscalls k child)
              done in
          ap (λ t. resume child ∷ t) (set_ptrace_options-ok child (get_event_msg pid ∷ h) set)
          ∙ trace_syscalls-ok child h1 traced

  abbrev pub attached : ℕ → ℕ → Calls → Calls
  attached pid status h = if is_fork_event status then attach_calls pid (k.event_msg pid h) h else h

  abbrev pub inspected : ℕ → ℕ → Calls → Calls
  inspected pid status h =
      if eqb (wstopsig status) syscall_trap then get_syscall_info pid ∷ h else h

  -- What the kernel tells of a system call, as an event for the listener.
  abbrev pub told : ℕ → Calls → SyscallInfo → List Event
  told pid h (at_entry nr args) = entry (k.system (get_syscall_info pid ∷ h)) pid nr args ∷ []
  told pid h (at_exit rval is_error) =
      exit (k.system (get_syscall_info pid ∷ h)) pid rval is_error ∷ []
  told pid h elsewhere = []

  attached-ok :
      (pid status : ℕ) (h : Calls) {h1 : Calls}
      → (if is_fork_event status then attach_child k pid h else ok h) ≡ ok h1
      → attached pid status h ≡ h1
  attached-ok pid status h {h1 = h1} done = from (is_fork_event status) done
    where
      from :
          (b : Bool)
          → (if b then attach_child k pid h else ok h) ≡ ok h1
          → (if b then attach_calls pid (k.event_msg pid h) h else h) ≡ h1
      from true done = attach_child-ok pid h done
      from false done = ok-injective done

  module _ {L : Type 0} (on_event : Event → L → Result L) where
    abbrev pub deliver : List Event → L → Result L
    deliver [] l = ok l
    deliver (e ∷ es) l = on_event e l >>= deliver es

    notified :
        (m : Result L) (h : Calls) {r : L × Calls}
        → (m >>= λ l'. ok (l', h)) ≡ ok r
        → (h ≡ r.1) × ((m >>= λ l'. ok l') ≡ ok r.0)
    notified (ok l) h done = (cc, cc)
    notified (throw message) h done = absurd (cc)
    notified fatal h done = absurd (cc)
    notified out_of_fuel h done = absurd (cc)

    handle_syscall-ok :
        (pid : ℕ) (l : L) (h : Calls) {r : L × Calls}
        → handle_syscall k on_event pid l h ≡ ok r
        → (get_syscall_info pid ∷ h ≡ r.1)
          × (deliver (told pid h (k.syscall_info pid h)) l ≡ ok r.0)
    unfolding handle_syscall
    handle_syscall-ok pid l h {r = r} done = from (k.syscall_info pid h) done
      where
        from :
            (info : SyscallInfo)
            → (elim info as (λ _. Result (L × Calls)) [
              | at_entry nr args ↦
                  on_event (entry (k.system (get_syscall_info pid ∷ h)) pid nr args) l >>= λ l'.
                  ok (l', get_syscall_info pid ∷ h)
              | at_exit rval is_error ↦
                  on_event (exit (k.system (get_syscall_info pid ∷ h)) pid rval is_error) l
                  >>= λ l'. ok (l', get_syscall_info pid ∷ h)
              | elsewhere ↦ ok (l, get_syscall_info pid ∷ h)
            ])
              ≡ ok r
            → (get_syscall_info pid ∷ h ≡ r.1) × (deliver (told pid h info) l ≡ ok r.0)
        from (at_entry nr args) done = notified _ (get_syscall_info pid ∷ h) done
        from (at_exit rval is_error) done = notified _ (get_syscall_info pid ∷ h) done
        from elsewhere done = (cc, cc)

    -- The events of a stop.
    abbrev pub told_if : Bool → ℕ → Calls → List Event
    told_if trap pid h = if trap then told pid h (k.syscall_info pid h) else []

    pub inspected-ok :
        (pid status : ℕ) (l : L) (h : Calls) {r : L × Calls}
        → (if eqb (wstopsig status) syscall_trap
            then handle_syscall k on_event pid l h
            else ok (l, h))
          ≡ ok r
        → (inspected pid status h ≡ r.1)
          × (deliver (told_if (eqb (wstopsig status) syscall_trap) pid h) l ≡ ok r.0)
    inspected-ok pid status l h {r = r} done = from (eqb (wstopsig status) syscall_trap) done
      where
        from :
            (b : Bool)
            → (if b then handle_syscall k on_event pid l h else ok (l, h)) ≡ ok r
            → ((if b then get_syscall_info pid ∷ h else h) ≡ r.1)
              × (deliver (told_if b pid h) l ≡ ok r.0)
        from true done = handle_syscall-ok pid l h done
        from false done = (cc, cc)

    -- The calls of a stop that was handled, and what the listener was told.
    pub handle_stop-ok :
        (pid status : ℕ) (l : L) (h : Calls) {r : L × Calls}
        → handle_stop k on_event pid status l h ≡ ok r
        → (resume pid ∷ inspected pid status (attached pid status h) ≡ r.1)
          × (deliver (told_if (eqb (wstopsig status) syscall_trap) pid (attached pid status h)) l
              ≡ ok r.0)
    unfolding handle_stop
    handle_stop-ok pid status l h {r = r} done =
        let (h1, attach, rest) =
          bind-eq-ok (if is_fork_event status then attach_child k pid h else ok h) _ done in
        let (r1, inspect, rest1) =
          bind-eq-ok
            (if eqb (wstopsig status) syscall_trap
              then handle_syscall k on_event pid l h1
              else ok (l, h1))
            _ rest in
        let (h2, last, rest2) = bind-eq-ok (trace_syscalls k pid r1.1) _ rest1 in
        let a = attached-ok pid status h attach in
        let (i, d) = inspected-ok pid status l h1 inspect in
        let t = trace_syscalls-ok pid r1.1 last in
        let l' : r1.0 ≡ r.0 = cc in
        let h' : h2 ≡ r.1 = cc in
        (
          ap (λ x. resume pid ∷ inspected pid status x) a ∙ ap (λ x. resume pid ∷ x) i ∙ t ∙ h',
          ap (λ x. deliver (told_if (eqb (wstopsig status) syscall_trap) pid x) l) a ∙ d ∙ ap ok l',
        )
