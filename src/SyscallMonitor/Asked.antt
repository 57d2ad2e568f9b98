-- ===== src/SyscallMonitor/Asked.antt =====
-- The stops at a system call, and the processes of which the monitor asks the kernel for one.
use r4r.Base.{
  ℕ, List, [], ◌∷◌, ◌++◌, ◌+◌, Option, none, some, Bool, true, false, ◌&&◌, eqb, append-nil, Result,
  if◌then◌else◌,
}
use r4r.Base.{◌≡◌, refl, sym, ap, ◌∙◌}
use r4r.Process.{Waited, wait_failed, not_yet, changed, wifstopped, wstopsig}
use r4r.FileTracer.Trace.{Event}
use r4r.SyscallMonitor.{
  wait_any, poll, get_event_msg, set_options, resume, get_syscall_info, Calls, Kernel,
  is_fork_event, syscall_trap,
}
use r4r.SyscallMonitor.Stops.{attach_calls, attached, inspected}
use r4r.SyscallMonitor.Rounds.{is_stop, Invariant}

-- With PTRACE_O_TRACESYSGOOD, the signal of a stop at a system call is SIGTRAP, 5, with the bit 0x80.
abbrev at_syscall : Waited → List ℕ
at_syscall (changed pid status) =
    if wifstopped status && eqb (wstopsig status) (5 + 128) then pid ∷ [] else []
at_syscall other = []

-- The processes that the monitor asked about, the first one first.
abbrev pub asked : Calls → List ℕ
asked [] = []
asked (get_syscall_info pid ∷ h) = asked h ++ pid ∷ []
asked (wait_any ∷ h) = asked h
asked (poll pid ∷ h) = asked h
asked (get_event_msg pid ∷ h) = asked h
asked (set_options pid ∷ h) = asked h
asked (resume pid ∷ h) = asked h

module _ (k : Kernel) where
  -- The processes that waits reported to have stopped at a system call, the first one first.
  abbrev pub syscall_stops : Calls → List ℕ
  syscall_stops [] = []
  syscall_stops (wait_any ∷ h) = syscall_stops h ++ at_syscall (k.waitpid h)
  syscall_stops (poll pid ∷ h) = syscall_stops h
  syscall_stops (get_event_msg pid ∷ h) = syscall_stops h
  syscall_stops (set_options pid ∷ h) = syscall_stops h
  syscall_stops (resume pid ∷ h) = syscall_stops h
  syscall_stops (get_syscall_info pid ∷ h) = syscall_stops h

  -- Whenever the monitor waited, it had asked about the stops that were reported, and nothing else.
  abbrev pub AsksInTime : Calls → Type 0
  AsksInTime [] = Unit
  AsksInTime (wait_any ∷ h) = (asked h ≡ syscall_stops h) × AsksInTime h
  AsksInTime (poll pid ∷ h) = AsksInTime h
  AsksInTime (get_event_msg pid ∷ h) = AsksInTime h
  AsksInTime (set_options pid ∷ h) = AsksInTime h
  AsksInTime (resume pid ∷ h) = AsksInTime h
  AsksInTime (get_syscall_info pid ∷ h) = AsksInTime h

  abbrev pub AsksAll : Calls → Type 0
  AsksAll h = (asked h ≡ syscall_stops h) × AsksInTime h

  at_syscall-quiet : (w : Waited) → is_stop w ≡ false → at_syscall w ≡ []
  at_syscall-quiet not_yet no_stop = refl
  at_syscall-quiet (wait_failed errno) no_stop = refl
  at_syscall-quiet (changed pid status) no_stop = rw no_stop refl

  pub AsksAll-quiet :
      (h : Calls) → is_stop (k.waitpid h) ≡ false → AsksAll h → AsksAll (wait_any ∷ h)
  AsksAll-quiet h no_stop (same, before) = (
    same
        ∙ (sym (append-nil (syscall_stops h))
            ∙ ap (λ t. syscall_stops h ++ t) (sym (at_syscall-quiet (k.waitpid h) no_stop))),
    (same, before),
  )

  -- In the handling of a stop of `pid`: what is still to be asked.
  abbrev Owes : List ℕ → Calls → Type 0
  Owes pids h = (asked h ++ pids ≡ syscall_stops h) × AsksInTime h

  attached-Owes :
      (pids : List ℕ) (pid status : ℕ) (h : Calls)
      → Owes pids h
      → Owes pids (attached k pid status h)
  attached-Owes pids pid status h owes = from (is_fork_event status) (k.event_msg pid h)
    where
      from : (b : Bool) (o : Option ℕ) → Owes pids (if b then attach_calls k pid o h else h)
      from true none = owes
      from true (some child) = owes
      from false o = owes

  inspected-AsksAll :
      (pid status : ℕ) (h : Calls)
      → Owes (if eqb (wstopsig status) (5 + 128) then pid ∷ [] else []) h
      → AsksAll (inspected k pid status h)
  inspected-AsksAll pid status h owes = from (eqb (wstopsig status) syscall_trap) owes
    where
      from :
          (b : Bool)
          → Owes (if b then pid ∷ [] else []) h
          → AsksAll (if b then get_syscall_info pid ∷ h else h)
      from true owes = owes
      from false (same, before) = (sym (append-nil (asked h)) ∙ same, before)

  AsksAll-stop :
      (h : Calls) (pid status : ℕ)
      → AsksAll h
      → k.waitpid h ≡ changed pid status
      → wifstopped status ≡ true
      → AsksAll (inspected k pid status (attached k pid status (wait_any ∷ h)))
  AsksAll-stop h pid status (same, before) e st =
      let due = if eqb (wstopsig status) (5 + 128) then pid ∷ [] else [] in
      let reported : at_syscall (k.waitpid h) ≡ due = ap at_syscall e ∙ rw st refl in
      inspected-AsksAll pid status _ (
        attached-Owes due pid status (wait_any ∷ h)
          (ap (λ t. t ++ due) same ∙ ap (λ t. syscall_stops h ++ t) (sym reported), (same, before)))

  pub AsksAll-Invariant :
      (tracee : ℕ) {L : Type 0} (on_event : Event → L → Result L)
      → Invariant k tracee on_event (λ l h. AsksAll h)
  AsksAll-Invariant tracee on_event = record {
    quiet = λ l h all no_stop no_end. AsksAll-quiet h no_stop all;
    stop = λ l l' h pid status all e st told resumed. AsksAll-stop h pid status all e st;
  }
