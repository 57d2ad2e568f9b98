-- ===== src/SyscallMonitor/Resumed.antt =====
-- What is known of PTRACE_SYSCALL when the monitor goes on: it succeeded, or the process was gone.
use r4r.Base.{
  ℕ, Str, [], ◌∷◌, Option, none, some, Bool, true, false, eqb, Result, ok, ◌>>=◌, bind-eq-ok,
  ok-injective, if◌then◌else◌,
}
use r4r.Base.{◌≡◌, refl, subst, arith}
use r4r.Process.{wstopsig}
use r4r.FileTracer.Trace.{Event}
use r4r.SyscallMonitor.{
  wait_any, poll, get_event_msg, set_options, resume, get_syscall_info, Calls, Kernel,
  is_fork_event, syscall_trap, resume_message, unless_gone, trace_syscalls, set_ptrace_options,
  attach_child, handle_syscall, handle_stop,
}
use r4r.SyscallMonitor.Stops.{inspected-ok, trace_syscalls-ok, set_ptrace_options-ok}

-- The answer of the kernel to PTRACE_SYSCALL: no error, or ESRCH, where there is no such process.
abbrev goes_on : Option ℕ → Bool
goes_on none = true
goes_on (some errno) = eqb errno 3

module _ (k : Kernel) where
  -- The process is resumed, or gone.
  abbrev pub resumed : ℕ → Calls → Bool
  resumed pid h = goes_on (k.resume_error pid h)

  abbrev pub AllResumed : Calls → Type 0
  AllResumed [] = Unit
  AllResumed (resume pid ∷ h) = (resumed pid h ≡ true) × AllResumed h
  AllResumed (wait_any ∷ h) = AllResumed h
  AllResumed (poll pid ∷ h) = AllResumed h
  AllResumed (get_event_msg pid ∷ h) = AllResumed h
  AllResumed (set_options pid ∷ h) = AllResumed h
  AllResumed (get_syscall_info pid ∷ h) = AllResumed h

  unless_gone-goes_on :
      (message : Str) (o : Option ℕ) (h : Calls) {h' : Calls}
      → unless_gone k message o h ≡ ok h'
      → goes_on o ≡ true
  unless_gone-goes_on message none h done = refl
  unless_gone-goes_on message (some errno) h done = ground arith

  pub trace_syscalls-AllResumed :
      (pid : ℕ) (h : Calls) {h' : Calls}
      → trace_syscalls k pid h ≡ ok h'
      → AllResumed h
      → AllResumed h'
  unfolding trace_syscalls
  trace_syscalls-AllResumed pid h done all =
      subst AllResumed (trace_syscalls-ok k pid h done)
        (unless_gone-goes_on (resume_message pid) (k.resume_error pid h) (resume pid ∷ h) done, all)

  pub set_ptrace_options-AllResumed :
      (pid : ℕ) (h : Calls) {h' : Calls}
      → set_ptrace_options k pid h ≡ ok h'
      → AllResumed h
      → AllResumed h'
  set_ptrace_options-AllResumed pid h done all =
      subst AllResumed (set_ptrace_options-ok k pid h done) all

  attach_child-AllResumed :
      (pid : ℕ) (h : Calls) {h' : Calls}
      → attach_child k pid h ≡ ok h'
      → AllResumed h
      → AllResumed h'
  unfolding attach_child
  attach_child-AllResumed pid h {h' = h'} done all = from (k.event_msg pid h) done
    where
      from :
          (o : Option ℕ)
          → (elim o as (λ _. Result Calls) [
            | none ↦ trace_syscalls k 0 (get_event_msg pid ∷ h)
            | some child ↦
                set_ptrace_options k child (get_event_msg pid ∷ h) >>= trace_syscalls k child
          ])
            ≡ ok h'
          → AllResumed h'
      from none done = trace_syscalls-AllResumed 0 (get_event_msg pid ∷ h) done all
      from (some child) done =
          let (h1, set, traced) =
            bind-eq-ok (set_ptrace_options k child (get_event_msg pid ∷ h)) (trace_syscalls k child)
              done in
          trace_syscalls-AllResumed child h1 traced
            (set_ptrace_options-AllResumed child (get_event_msg pid ∷ h) set all)

  pub handle_stop-AllResumed :
      {L : Type 0} (on_event : Event → L → Result L) (pid status : ℕ) (l : L) (h : Calls)
      {r : L × Calls}
      → handle_stop k on_event pid status l h ≡ ok r
      → AllResumed h
      → AllResumed r.1
  unfolding handle_stop
  handle_stop-AllResumed {L = L} on_event pid status l h {r = r} done all =
      let (h1, attach, rest) =
        bind-eq-ok (if is_fork_event status then attach_child k pid h else ok h) _ done in
      let (r1, inspect, rest1) =
        bind-eq-ok
          (if eqb (wstopsig status) syscall_trap
            then handle_syscall k on_event pid l h1
            else ok (l, h1))
          _ rest in
      let (h2, last, rest2) = bind-eq-ok (trace_syscalls k pid r1.1) _ rest1 in
      let (i, _) = inspected-ok k on_event pid status l h1 inspect in
      let h' : h2 ≡ r.1 = cc in
      subst AllResumed h' (
        trace_syscalls-AllResumed pid r1.1 last (
          subst AllResumed i
            (seen (eqb (wstopsig status) syscall_trap) h1 (first (is_fork_event status) attach))))
    where
      first :
          (b : Bool) {h1 : Calls}
          → (if b then attach_child k pid h else ok h) ≡ ok h1
          → AllResumed h1
      first true done = attach_child-AllResumed pid h done all
      first false done = let e : h ≡ _ = ok-injective done in subst AllResumed e all

      seen :
          (b : Bool) (h1 : Calls)
          → AllResumed h1
          → AllResumed (if b then get_syscall_info pid ∷ h1 else h1)
      seen true h1 all = all
      seen false h1 all = all
