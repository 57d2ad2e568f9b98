-- ===== src/SyscallMonitor/Total.antt =====
-- The loop of `monitor` ends when the end of the tracee is reported.
use r4r.Base.{
  ℕ, zero, suc, ◌+◌, ◌≤◌, ◌<◌, lit, [], ◌∷◌, Option, none, some, Bool, true, false, eqb, ltb,
  Result, ok, throw, out_of_fuel, ◌>>=◌, bind-ne-out_of_fuel, if◌then◌else◌, Bool-cases, inl, inr,
}
use r4r.Base.{Str, ◌≡◌, ◌≢◌, refl, sym, ap, ◌∙◌, arith}
use r4r.System.{make_system_error}
use r4r.Process.{
  Waited, wait_failed, not_yet, changed, wifexited, wifsignaled, wifstopped, wstopsig, wtermsig,
  eintr, echild,
}
use r4r.FileTracer.Trace.{Event, entry, exit}
use r4r.SyscallMonitor.{
  wait_any, get_event_msg, set_options, resume, get_syscall_info, Calls, Kernel, MonitorResult,
  killed_by, exit_result, SyscallInfo, at_entry, at_exit, elsewhere, is_fork_event, syscall_trap,
  monitor, handle_stop, handle_syscall, attach_child, trace_syscalls, set_ptrace_options,
  unless_gone, resume_message, options_message,
}
use r4r.SyscallMonitor.Stops.{attach_calls, attached, inspected, handle_stop-ok}
use r4r.SyscallMonitor.Rounds.{is_end, neither}

abbrev pub waits : Calls → ℕ
waits [] = 0
waits (wait_any ∷ h) = suc (waits h)
waits (c ∷ h) = waits h

module _ (k : Kernel) where
  unless_gone-ends :
      (message : Str) (o : Option ℕ) (h : Calls) → unless_gone k message o h ≢ out_of_fuel
  unless_gone-ends message none h = λ e. cc
  unless_gone-ends message (some errno) h = λ e. ground arith

  pub trace_syscalls-ends : (pid : ℕ) (h : Calls) → trace_syscalls k pid h ≢ out_of_fuel
  unfolding trace_syscalls
  trace_syscalls-ends pid h =
      unless_gone-ends (resume_message pid) (k.resume_error pid h) (resume pid ∷ h)

  pub set_ptrace_options-ends : (pid : ℕ) (h : Calls) → set_ptrace_options k pid h ≢ out_of_fuel
  unfolding set_ptrace_options
  set_ptrace_options-ends pid h =
      unless_gone-ends (options_message pid) (k.options_error pid h) (set_options pid ∷ h)

  attach_child-ends : (pid : ℕ) (h : Calls) → attach_child k pid h ≢ out_of_fuel
  unfolding attach_child
  attach_child-ends pid h = from (k.event_msg pid h)
    where
      from :
          (o : Option ℕ)
          → (elim o as (λ _. Result Calls) [
            | none ↦ trace_syscalls k 0 (get_event_msg pid ∷ h)
            | some child ↦
                set_ptrace_options k child (get_event_msg pid ∷ h) >>= trace_syscalls k child
          ])
            ≢ out_of_fuel
      from none = trace_syscalls-ends 0 (get_event_msg pid ∷ h)
      from (some child) =
          bind-ne-out_of_fuel (set_ptrace_options k child (get_event_msg pid ∷ h))
            (trace_syscalls k child) (set_ptrace_options-ends child (get_event_msg pid ∷ h))
            (λ h' e. trace_syscalls-ends child h')

  waits-attached : (pid status : ℕ) (h : Calls) → waits (attached k pid status h) ≡ waits h
  waits-attached pid status h = from (is_fork_event status) (k.event_msg pid h)
    where
      from : (b : Bool) (o : Option ℕ) → waits (if b then attach_calls k pid o h else h) ≡ waits h
      from true none = refl
      from true (some child) = refl
      from false o = refl

  waits-inspected : (pid status : ℕ) (h : Calls) → waits (inspected k pid status h) ≡ waits h
  waits-inspected pid status h = from (eqb (wstopsig status) syscall_trap)
    where
      from : (b : Bool) → waits (if b then get_syscall_info pid ∷ h else h) ≡ waits h
      from true = refl
      from false = refl

  module _ {L : Type 0} (on_event : Event → L → Result L)
      (told : (e : Event) (l : L) → on_event e l ≢ out_of_fuel) where
    handle_syscall-ends :
        (pid : ℕ) (l : L) (h : Calls) → handle_syscall k on_event pid l h ≢ out_of_fuel
    unfolding handle_syscall
    handle_syscall-ends pid l h = from (k.syscall_info pid h)
      where
        from :
            (info : SyscallInfo)
            → (elim info as (λ _. Result (L × Calls)) [
              | at_entry nr args ↦
                  on_event (entry (k.system (get_syscall_info pid ∷ h)) pid nr args) l >>= λ l'.
                  ok (l', get_syscall_info pid ∷ h)
              | at_exit rval is_error ↦
                  on_event (exit (k.system (get_syscall_info pid ∷ h)) pid rval is_error) l
                  >>= λ l'. ok (l', get_syscall_info pid ∷ h)
              | elsewhere ↦ ok (l, get_syscall_info pid ∷ h)
            ])
              ≢ out_of_fuel
        from (at_entry nr args) = bind-ne-out_of_fuel _ _ (told _ l) (λ l' e x. cc)
        from (at_exit rval is_error) = bind-ne-out_of_fuel _ _ (told _ l) (λ l' e x. cc)
        from elsewhere = λ x. cc

    handle_stop-ends :
        (pid status : ℕ) (l : L) (h : Calls) → handle_stop k on_event pid status l h ≢ out_of_fuel
    unfolding handle_stop
    handle_stop-ends pid status l h =
        bind-ne-out_of_fuel (if is_fork_event status then attach_child k pid h else ok h) _
          (attaching (is_fork_event status))
          (λ h1 e1.
            bind-ne-out_of_fuel
              (if eqb (wstopsig status) syscall_trap
                then handle_syscall k on_event pid l h1
                else ok (l, h1))
              _ (inspecting (eqb (wstopsig status) syscall_trap) h1)
              (λ r e2.
                bind-ne-out_of_fuel (trace_syscalls k pid r.1) _ (trace_syscalls-ends pid r.1)
                  (λ h2 e3 x. cc)))
      where
        attaching : (b : Bool) → (if b then attach_child k pid h else ok h) ≢ out_of_fuel
        attaching true = attach_child-ends pid h
        attaching false = λ x. cc

        inspecting :
            (b : Bool) (h1 : Calls)
            → (if b then handle_syscall k on_event pid l h1 else ok (l, h1)) ≢ out_of_fuel
        inspecting true h1 = handle_syscall-ends pid l h1
        inspecting false h1 = λ x. cc

    waits-handle_stop :
        (pid status : ℕ) (l : L) (h : Calls) (r : L × Calls)
        → handle_stop k on_event pid status l h ≡ ok r
        → waits r.1 ≡ waits h
    waits-handle_stop pid status l h r handled =
        sym (ap waits (handle_stop-ok k on_event pid status l h handled).0)
        ∙ waits-inspected pid status (attached k pid status h)
        ∙ waits-attached pid status h

    module _ (tracee bound : ℕ)
        (reported : (h : Calls) → bound ≤ waits h → is_end tracee (k.waitpid h) ≡ true) where
      more : (h : Calls) (w : Waited) → k.waitpid h ≡ w → is_end tracee w ≡ false → waits h < bound
      more h w e runs = elim (Bool-cases (ltb (waits h) bound)) [
        | inl less ↦ ground arith
        | inr enough ↦ absurd (
            let end : is_end tracee (k.waitpid h) ≡ true = reported h (ground arith) in
            let e' = ap (is_end tracee) e in cc)
      ]

      pub monitor-ends :
          (fuel : ℕ) (l : L) (h : Calls)
          → waits h ≤ bound
          → bound < fuel + waits h
          → monitor k on_event fuel tracee l h ≢ out_of_fuel
      unfolding monitor
      monitor-ends zero l h few enough = absurd (omega arith)
      monitor-ends (suc fuel) l h few enough =
          from (k.waitpid h) refl (λ l' h' few' enough'. monitor-ends fuel l' h' few' enough')
        where
          Ends : Result (MonitorResult × L × Calls) → Type 0
          Ends r = r ≢ out_of_fuel

          Later : Type 0
          Later =
              (l' : L) (h' : Calls)
              → waits h' ≤ bound
              → bound < fuel + waits h'
              → Ends (monitor k on_event fuel tracee l' h')

          again :
              (w : Waited)
              → k.waitpid h ≡ w
              → is_end tracee w ≡ false
              → Later
              → Ends (monitor k on_event fuel tracee l (wait_any ∷ h))
          again w e runs ih =
              let less = more h w e runs in ih l (wait_any ∷ h) (omega arith) (omega arith)

          stopped : ℕ → ℕ → Result (MonitorResult × L × Calls)
          stopped pid status = handle_stop k on_event pid status l (wait_any ∷ h) >>= λ q.
              monitor k on_event fuel tracee q.0 q.1

          on_status :
              (pid status : ℕ) (normal same signaled stop : Bool)
              → k.waitpid h ≡ changed pid status
              → wifexited status ≡ normal
              → eqb pid tracee ≡ same
              → wifsignaled status ≡ signaled
              → Later
              → Ends (
                  if normal
                  then (if same
                      then ok (exit_result status, l, wait_any ∷ h)
                      else monitor k on_event fuel tracee l (wait_any ∷ h))
                  else if signaled
                  then (if same
                      then ok (killed_by (wtermsig status), l, wait_any ∷ h)
                      else monitor k on_event fuel tracee l (wait_any ∷ h))
                  else if stop
                  then stopped pid status
                  else monitor k on_event fuel tracee l (wait_any ∷ h))
          on_status pid status true true signaled stop e ex sm sg ih = λ x. cc
          on_status pid status true false signaled stop e ex sm sg ih =
              again (changed pid status) e (rw sm refl) ih
          on_status pid status false true true stop e ex sm sg ih = λ x. cc
          on_status pid status false false true stop e ex sm sg ih =
              again (changed pid status) e (rw sm refl) ih
          on_status pid status false same false true e ex sm sg ih =
              bind-ne-out_of_fuel (handle_stop k on_event pid status l (wait_any ∷ h)) _
                (handle_stop-ends pid status l (wait_any ∷ h))
                (λ q handled.
                  let n = waits-handle_stop pid status l (wait_any ∷ h) q handled in
                  let less =
                    more h (changed pid status) e
                      (neither (eqb pid tracee) (wifexited status) (wifsignaled status) ex sg) in
                  ih q.0 q.1 (omega arith) (omega arith))
          on_status pid status false same false false e ex sm sg ih =
              again (changed pid status) e
                (neither (eqb pid tracee) (wifexited status) (wifsignaled status) ex sg) ih

          on_errno :
              (errno : ℕ) (gone twice : Bool)
              → k.waitpid h ≡ wait_failed errno
              → Later
              → Ends (
                  if gone
                  then throw (
                      make_system_error
                        (k.system (wait_any ∷ h))
                        errno
                        (lit "waitpid - no more childer to trace"))
                  else if twice
                  then monitor k on_event fuel tracee l (wait_any ∷ h)
                  else throw (make_system_error (k.system (wait_any ∷ h)) errno (lit "waitpid")))
          on_errno errno true twice e ih = λ x. cc
          on_errno errno false true e ih = again (wait_failed errno) e refl ih
          on_errno errno false false e ih = λ x. cc

          from :
              (w : Waited)
              → k.waitpid h ≡ w
              → Later
              → Ends (elim w as (λ _. Result (MonitorResult × L × Calls)) [
                | wait_failed errno ↦
                    if eqb errno echild
                    then throw (
                        make_system_error
                          (k.system (wait_any ∷ h))
                          errno
                          (lit "waitpid - no more childer to trace"))
                    else if eqb errno eintr
                    then monitor k on_event fuel tracee l (wait_any ∷ h)
                    else throw (make_system_error (k.system (wait_any ∷ h)) errno (lit "waitpid"))
                | not_yet ↦ monitor k on_event fuel tracee l (wait_any ∷ h)
                | changed pid status ↦
                    if wifexited status
                    then (if eqb pid tracee
                        then ok (exit_result status, l, wait_any ∷ h)
                        else monitor k on_event fuel tracee l (wait_any ∷ h))
                    else if wifsignaled status
                    then (if eqb pid tracee
                        then ok (killed_by (wtermsig status), l, wait_any ∷ h)
                        else monitor k on_event fuel tracee l (wait_any ∷ h))
                    else if wifstopped status
                    then stopped pid status
                    else monitor k on_event fuel tracee l (wait_any ∷ h)
              ])
          from not_yet e ih = again not_yet e refl ih
          from (wait_failed errno) e ih = on_errno errno (eqb errno echild) (eqb errno eintr) e ih
          from (changed pid status) e ih =
              on_status pid status (wifexited status) (eqb pid tracee) (wifsignaled status)
                (wifstopped status) e refl refl refl ih
