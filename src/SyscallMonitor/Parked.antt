-- ===== src/SyscallMonitor/Parked.antt =====
-- The traced processes that stand still, by the calls of the monitor and the answers to them.
use r4r.Base.{ℕ, List, [], ◌∷◌, Option, none, some, Bool, true, not, eqb, filter, if◌then◌else◌}
use r4r.Base.{◌≡◌, refl, ap, ◌∙◌}
use r4r.Process.{Waited, changed, wifstopped}
use r4r.SyscallMonitor.{
  wait_any, poll, get_event_msg, set_options, resume, get_syscall_info, Calls, Kernel,
}
use r4r.SyscallMonitor.Resumed.{resumed, AllResumed}

abbrev pub stopped_process : Waited → List ℕ → List ℕ
stopped_process (changed pid status) rest = if wifstopped status then pid ∷ rest else rest
stopped_process other rest = rest

-- Of waitpid on one process: the report is on that process.
abbrev pub polled_process : ℕ → Waited → List ℕ → List ℕ
polled_process pid (changed wpid status) rest = if wifstopped status then pid ∷ rest else rest
polled_process pid other rest = rest

abbrev pub new_child : Option ℕ → List ℕ → List ℕ
new_child none rest = rest
new_child (some child) rest = child ∷ rest

module _ (k : Kernel) (counts : ℕ → Calls → Bool) where
  -- The processes that were reported to be in a stop, or to start in one, and were not resumed since by
  -- a call that counts.
  abbrev pub parked_by : Calls → List ℕ
  parked_by [] = []
  parked_by (wait_any ∷ h) = stopped_process (k.waitpid h) (parked_by h)
  parked_by (poll pid ∷ h) = polled_process pid (k.waitpid_nohang pid h) (parked_by h)
  parked_by (get_event_msg pid ∷ h) = new_child (k.event_msg pid h) (parked_by h)
  parked_by (set_options pid ∷ h) = parked_by h
  parked_by (resume pid ∷ h) =
      if counts pid h then filter (λ q. not (eqb q pid)) (parked_by h) else parked_by h
  parked_by (get_syscall_info pid ∷ h) = parked_by h

  -- Whenever the monitor waited for an event, no process was parked.
  abbrev pub NeverStallsBy : Calls → Type 0
  NeverStallsBy [] = Unit
  NeverStallsBy (wait_any ∷ h) = (parked_by h ≡ []) × NeverStallsBy h
  NeverStallsBy (poll pid ∷ h) = NeverStallsBy h
  NeverStallsBy (get_event_msg pid ∷ h) = NeverStallsBy h
  NeverStallsBy (set_options pid ∷ h) = NeverStallsBy h
  NeverStallsBy (resume pid ∷ h) = NeverStallsBy h
  NeverStallsBy (get_syscall_info pid ∷ h) = NeverStallsBy h

module _ (k : Kernel) where
  -- A call to resume counts when the kernel answers that the process runs or is gone.
  abbrev pub Served : Calls → Type 0
  Served h = (parked_by k (resumed k) h ≡ []) × NeverStallsBy k (resumed k) h

  abbrev pub always : ℕ → Calls → Bool
  always pid h = true

  parked_by-always : (h : Calls) → AllResumed k h → parked_by k (resumed k) h ≡ parked_by k always h
  parked_by-always [] all = refl
  parked_by-always (wait_any ∷ h) all = ap (stopped_process (k.waitpid h)) (parked_by-always h all)
  parked_by-always (poll pid ∷ h) all =
      ap (polled_process pid (k.waitpid_nohang pid h)) (parked_by-always h all)
  parked_by-always (get_event_msg pid ∷ h) all =
      ap (new_child (k.event_msg pid h)) (parked_by-always h all)
  parked_by-always (set_options pid ∷ h) all = parked_by-always h all
  parked_by-always (resume pid ∷ h) (one, all) =
      ap
        (λ b.
          if b
          then filter (λ q. not (eqb q pid)) (parked_by k (resumed k) h)
          else parked_by k (resumed k) h)
        one
      ∙ ap (filter (λ q. not (eqb q pid))) (parked_by-always h all)
  parked_by-always (get_syscall_info pid ∷ h) all = parked_by-always h all

  NeverStallsBy-always :
      (h : Calls) → AllResumed k h → NeverStallsBy k always h → NeverStallsBy k (resumed k) h
  NeverStallsBy-always [] all never = tt
  NeverStallsBy-always (wait_any ∷ h) all (empty, never) =
      (parked_by-always h all ∙ empty, NeverStallsBy-always h all never)
  NeverStallsBy-always (poll pid ∷ h) all never = NeverStallsBy-always h all never
  NeverStallsBy-always (get_event_msg pid ∷ h) all never = NeverStallsBy-always h all never
  NeverStallsBy-always (set_options pid ∷ h) all never = NeverStallsBy-always h all never
  NeverStallsBy-always (resume pid ∷ h) (one, all) never = NeverStallsBy-always h all never
  NeverStallsBy-always (get_syscall_info pid ∷ h) all never = NeverStallsBy-always h all never

  -- Where every call to resume counts, it does not matter which do.
  pub Served-always :
      (h : Calls) → AllResumed k h → parked_by k always h ≡ [] → NeverStallsBy k always h → Served h
  Served-always h all empty never =
      (parked_by-always h all ∙ empty, NeverStallsBy-always h all never)
