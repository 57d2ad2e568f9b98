-- ===== src/SyscallMonitor/Rounds.antt =====
-- The loop of `monitor`, round by round: a rule for what holds whenever it waits, and how it ends.
use r4r.Base.{
  ℕ, zero, suc, [], ◌∷◌, Bool, true, false, ◌&&◌, ◌||◌, eqb, Result, ok, throw, ◌>>=◌, bind-eq-ok,
  ok-injective, if◌then◌else◌, Bool-cases, inl, inr,
}
use r4r.Base.{◌≡◌, ◌≢◌, refl, sym, ap, ◌∙◌, subst, arith}
use r4r.Base.{lit}
use r4r.System.{make_system_error}
use r4r.Process.{
  Waited, wait_failed, not_yet, changed, wifexited, wexitstatus, wifsignaled, wtermsig, wifstopped,
  wstopsig, eintr, echild,
}
use r4r.FileTracer.Trace.{Event}
use r4r.SyscallMonitor.{
  wait_any, resume, set_options, trace_syscalls, set_ptrace_options, wait_for_initial_stop,
  process_tracer, Calls, Kernel, MonitorResult, exit_code, killed_by, failure, exit_result,
  spawn_error_exit_code, exit_result, syscall_trap, handle_stop, monitor,
}
use r4r.SyscallMonitor.Stops.{
  attached, inspected, deliver, told_if, handle_stop-ok, trace_syscalls-ok, set_ptrace_options-ok,
}
use r4r.SyscallMonitor.Resumed.{
  AllResumed, handle_stop-AllResumed, trace_syscalls-AllResumed, set_ptrace_options-AllResumed,
}

abbrev pub is_stop : Waited → Bool
is_stop (changed pid status) = wifstopped status
is_stop other = false

-- The report that the tracee itself has ended.
abbrev pub is_end : ℕ → Waited → Bool
is_end tracee (changed pid status) = eqb pid tracee && (wifexited status || wifsignaled status)
is_end tracee other = false

-- What the end of the tracee means: its exit code, but for the code that a failed start has, or the signal.
abbrev pub EndsWith : ℕ → MonitorResult → Waited → Type 0
EndsWith tracee (exit_code n) w =
    (status : ℕ) × (w ≡ changed tracee status)
    × (wifexited status ≡ true)
    × (wexitstatus status ≡ n)
    × (n ≢ spawn_error_exit_code)
EndsWith tracee (killed_by n) w =
    (status : ℕ) × (w ≡ changed tracee status) × (wifsignaled status ≡ true) × (wtermsig status ≡ n)
EndsWith tracee failure w =
    (status : ℕ) × (w ≡ changed tracee status)
    × (wifexited status ≡ true)
    × (wexitstatus status ≡ spawn_error_exit_code)

pub neither : (a b c : Bool) → b ≡ false → c ≡ false → (a && (b || c)) ≡ false
neither a b c no_b no_c = rw (no_b, no_c) (ground arith)

no_stop_exited : (status : ℕ) → wifexited status ≡ true → wifstopped status ≡ false
no_stop_exited status exited = ground arith

no_stop_signaled : (status : ℕ) → wifsignaled status ≡ true → wifstopped status ≡ false
no_stop_signaled status signaled = ground arith

exit_result-EndsWith :
    (tracee status wpid : ℕ) (w : Waited)
    → eqb wpid tracee ≡ true
    → w ≡ changed wpid status
    → wifexited status ≡ true
    → EndsWith tracee (exit_result status) w
exit_result-EndsWith tracee status wpid w same e exited =
    let p : wpid ≡ tracee = ground arith in
    from (eqb (wexitstatus status) spawn_error_exit_code) refl (e ∙ ap (λ x. changed x status) p)
  where
    from :
        (b : Bool)
        → eqb (wexitstatus status) spawn_error_exit_code ≡ b
        → w ≡ changed tracee status
        → EndsWith tracee (if b then failure else exit_code (wexitstatus status)) w
    from true c e = (status, e, exited, ground arith)
    from false c e = (status, e, exited, refl, λ x. ground arith)

-- The end of the tracee is no stop.
pub EndsWith-no_stop :
    (tracee : ℕ) (res : MonitorResult) (w : Waited) → EndsWith tracee res w → is_stop w ≡ false
EndsWith-no_stop tracee (exit_code n) w (status, e, exited, code, other) =
    ap is_stop e ∙ no_stop_exited status exited
EndsWith-no_stop tracee (killed_by n) w (status, e, signaled, rest) =
    ap is_stop e ∙ no_stop_signaled status signaled
EndsWith-no_stop tracee failure w (status, e, exited, rest) =
    ap is_stop e ∙ no_stop_exited status exited

module _ (k : Kernel) (tracee : ℕ) {L : Type 0} (on_event : Event → L → Result L) where
  -- What must be shown of a property to have it whenever the monitor waits.
  pub record Invariant (P : L → Calls → Type 0) : Type 0 where
    pub quiet :
        (l : L) (h : Calls)
        → P l h
        → is_stop (k.waitpid h) ≡ false
        → is_end tracee (k.waitpid h) ≡ false
        → P l (wait_any ∷ h)
    pub stop :
        (l l' : L) (h : Calls) (pid status : ℕ)
        → P l h
        → k.waitpid h ≡ changed pid status
        → wifstopped status ≡ true
        → deliver k on_event
            (told_if k on_event
              (eqb (wstopsig status) syscall_trap)
              pid
              (attached k pid status (wait_any ∷ h)))
            l
          ≡ ok l'
        → (AllResumed k h
            → AllResumed k
                (resume pid ∷ inspected k pid status (attached k pid status (wait_any ∷ h))))
        → P l' (resume pid ∷ inspected k pid status (attached k pid status (wait_any ∷ h)))

  -- The last call was a wait, and its answer the end of the tracee.
  pub record Finished (P : L → Calls → Type 0) (r : MonitorResult × L × Calls) : Type 0 where
    pub before : Calls
    pub last : r.2 ≡ wait_any ∷ before
    pub held : P r.1 before
    pub ends : EndsWith tracee r.0 (k.waitpid before)

  module _ (P : L → Calls → Type 0) (inv : Invariant P) where
    pub monitor-Finished :
        (fuel : ℕ) (l : L) (h : Calls) {r : MonitorResult × L × Calls}
        → P l h
        → monitor k on_event fuel tracee l h ≡ ok r
        → Finished P r
    unfolding monitor
    monitor-Finished zero l h held done = absurd (cc)
    monitor-Finished (suc fuel) l h {r = r} held done =
        from (k.waitpid h) refl done (λ l' h' held'. monitor-Finished fuel l' h' {r = r} held')
      where
        Later : Type 0
        Later =
            (l' : L) (h' : Calls)
            → P l' h'
            → monitor k on_event fuel tracee l' h' ≡ ok r
            → Finished P r

        again :
            is_stop (k.waitpid h) ≡ false
            → is_end tracee (k.waitpid h) ≡ false
            → monitor k on_event fuel tracee l (wait_any ∷ h) ≡ ok r
            → Later
            → Finished P r
        again no_stop no_end done ih = ih l (wait_any ∷ h) (inv.quiet l h held no_stop no_end) done

        stopped : ℕ → ℕ → Result (MonitorResult × L × Calls)
        stopped pid status = handle_stop k on_event pid status l (wait_any ∷ h) >>= λ q.
            monitor k on_event fuel tracee q.0 q.1

        ended :
            (res : MonitorResult)
            → EndsWith tracee res (k.waitpid h)
            → ok (res, l, wait_any ∷ h) ≡ ok r
            → Finished P r
        ended res e done =
            subst (Finished P) (ok-injective done)
              (record { before = h; last = refl; held = held; ends = e })

        on_status :
            (pid status : ℕ) (exited same signaled stop : Bool)
            → k.waitpid h ≡ changed pid status
            → wifexited status ≡ exited
            → eqb pid tracee ≡ same
            → wifsignaled status ≡ signaled
            → wifstopped status ≡ stop
            → (if exited
                then (if same
                    then ok (exit_result status, l, wait_any ∷ h)
                    else monitor k on_event fuel tracee l (wait_any ∷ h))
                else if signaled
                then (if same
                    then ok (killed_by (wtermsig status), l, wait_any ∷ h)
                    else monitor k on_event fuel tracee l (wait_any ∷ h))
                else if stop
                then stopped pid status
                else monitor k on_event fuel tracee l (wait_any ∷ h))
              ≡ ok r
            → Later
            → Finished P r
        on_status pid status true true signaled stop e ex sm sg st done ih =
            ended (exit_result status)
              (exit_result-EndsWith tracee status pid (k.waitpid h) sm e ex) done
        on_status pid status true false signaled stop e ex sm sg st done ih =
            again (ap is_stop e ∙ no_stop_exited status ex) (ap (is_end tracee) e ∙ rw sm refl) done
              ih
        on_status pid status false true true stop e ex sm sg st done ih =
            let p : pid ≡ tracee = ground arith in
            ended (killed_by (wtermsig status)) (status, e ∙ ap (λ x. changed x status) p, sg, refl)
              done
        on_status pid status false false true stop e ex sm sg st done ih =
            again (ap is_stop e ∙ no_stop_signaled status sg) (ap (is_end tracee) e ∙ rw sm refl)
              done ih
        on_status pid status false same false true e ex sm sg st done ih =
            let (q, handled, rest) =
              bind-eq-ok (handle_stop k on_event pid status l (wait_any ∷ h))
                (λ q. monitor k on_event fuel tracee q.0 q.1) done in
            let (calls, told) = handle_stop-ok k on_event pid status l (wait_any ∷ h) handled in
            let runs = handle_stop-AllResumed k on_event pid status l (wait_any ∷ h) handled in
            ih q.0 q.1
              (subst (P q.0) calls (
                inv.stop l q.0 h pid status held e st told
                  (λ all. subst (AllResumed k) (sym calls) (runs all))))
              rest
        on_status pid status false same false false e ex sm sg st done ih =
            again (ap is_stop e ∙ st)
              (ap (is_end tracee) e
                ∙ neither (eqb pid tracee) (wifexited status) (wifsignaled status) ex sg)
              done ih

        from :
            (w : Waited)
            → k.waitpid h ≡ w
            → (elim w as (λ _. Result (MonitorResult × L × Calls)) [
              | wait_failed errno ↦
                  if eqb errno echild
                  then throw (
                      make_system_error
                        (k.system (wait_any ∷ h))
                        errno
                        (lit "waitpid - no more childer to trace"))
                  else if eqb errno eintr
                  then monitor k on_event fuel tracee l (wait_any ∷ h)
                  else throw (make_system_error (k.system (wait_any ∷ h)) errno (lit "waitpid"))
              | not_yet ↦ monitor k on_event fuel tracee l (wait_any ∷ h)
              | changed pid status ↦
                  if wifexited status
                  then (if eqb pid tracee
                      then ok (exit_result status, l, wait_any ∷ h)
                      else monitor k on_event fuel tracee l (wait_any ∷ h))
                  else if wifsignaled status
                  then (if eqb pid tracee
                      then ok (killed_by (wtermsig status), l, wait_any ∷ h)
                      else monitor k on_event fuel tracee l (wait_any ∷ h))
                  else if wifstopped status
                  then stopped pid status
                  else monitor k on_event fuel tracee l (wait_any ∷ h)
            ])
              ≡ ok r
            → Later
            → Finished P r
        from not_yet e done ih = again (ap is_stop e) (ap (is_end tracee) e) done ih
        from (wait_failed errno) e done ih = elim (Bool-cases (eqb errno echild)) [
          | inl gone ↦ absurd (ground arith)
          | inr other ↦ elim (Bool-cases (eqb errno eintr)) [
            | inl twice ↦
                again (ap is_stop e) (ap (is_end tracee) e) (sym (rw (other, twice) refl) ∙ done) ih
            | inr fails ↦ absurd (ground arith)
          ]
        ]
        from (changed pid status) e done ih =
            on_status pid status (wifexited status) (eqb pid tracee) (wifsignaled status)
              (wifstopped status) e refl refl refl refl done ih

  -- The monitor's loop is entered once the tracee has stopped and was resumed.
  pub process_tracer-ok :
      (fuel : ℕ) (l : L) {r : MonitorResult × L × Calls}
      → process_tracer k on_event fuel tracee l ≡ ok r
      → (h : Calls) × (wait_for_initial_stop k fuel tracee [] ≡ ok h)
        × (AllResumed k h → AllResumed k (resume tracee ∷ set_options tracee ∷ h))
        × (monitor k on_event fuel tracee l (resume tracee ∷ set_options tracee ∷ h) ≡ ok r)
  unfolding process_tracer
  process_tracer-ok fuel l {r = r} done =
      let (h3, traced, rest) = bind-eq-ok _ (monitor k on_event fuel tracee l) done in
      let (h2, set, last) = bind-eq-ok _ (trace_syscalls k tracee) traced in
      let (h1, first, options) =
        bind-eq-ok (wait_for_initial_stop k fuel tracee []) (set_ptrace_options k tracee) set in
      let a = set_ptrace_options-ok k tracee h1 options in
      let b = trace_syscalls-ok k tracee h2 last in
      (
        h1,
        first,
        λ all. subst (AllResumed k) (sym (ap (λ t. resume tracee ∷ t) a ∙ b)) (
            trace_syscalls-AllResumed k tracee h2 last
              (set_ptrace_options-AllResumed k tracee h1 options all)),
        subst (λ h. monitor k on_event fuel tracee l h ≡ ok r)
            (sym (ap (λ t. resume tracee ∷ t) a ∙ b)) rest,
      )
