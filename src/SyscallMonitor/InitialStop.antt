-- ===== src/SyscallMonitor/InitialStop.antt =====
-- The wait for the initial stop of the tracee.
use r4r.Base.{
  ℕ, zero, suc, lit, [], ◌∷◌, Option, none, some, Bool, true, false, ltb, Result, ok, throw,
  bind-eq-ok, ok-injective, if◌then◌else◌,
}
use r4r.Base.{◌≡◌, refl, subst}
use r4r.System.{make_system_error}
use r4r.Process.{Waited, wait_failed, not_yet, changed}
use r4r.SyscallMonitor.{
  poll, Calls, Kernel, WaitForSignalResult, success, timeout, exited, signalled, sigstop,
  initial_stop_message, polled_result, wait_for_signal, wait_for_initial_stop,
}

module _ (k : Kernel) where
  -- What a poll keeps holds after the initial stop.
  wait_for_signal-Keeps :
      (Q : Calls → Type 0) (fuel pid sig limit : ℕ) (h : Calls) {r : WaitForSignalResult × Calls}
      → ((h' : Calls) → Q h' → Q (poll pid ∷ h'))
      → Q h
      → wait_for_signal k fuel pid sig limit h ≡ ok r
      → Q r.1
  unfolding wait_for_signal
  wait_for_signal-Keeps Q zero pid sig limit h keeps only done = absurd (cc)
  wait_for_signal-Keeps Q (suc fuel) pid sig limit h {r = r} keeps only done =
      from (k.waitpid_nohang pid h) refl done
        (λ h' only'. wait_for_signal-Keeps Q fuel pid sig limit h' {r = r} keeps only')
    where
      Later : Type 0
      Later = (h' : Calls) → Q h' → wait_for_signal k fuel pid sig limit h' ≡ ok r → Q r.1

      polled : Q (poll pid ∷ h)
      polled = keeps h only

      next : Bool → Result (WaitForSignalResult × Calls)
      next late =
          if late
          then ok (timeout, poll pid ∷ h)
          else wait_for_signal k fuel pid sig limit (poll pid ∷ h)

      on_time : (late : Bool) → next late ≡ ok r → Later → Q r.1
      on_time true done ih =
          subst (λ (q : WaitForSignalResult × Calls). Q q.1) (ok-injective done) polled
      on_time false done ih = ih (poll pid ∷ h) polled done

      on_result :
          (o : Option WaitForSignalResult)
          → (elim o as (λ _. Result (WaitForSignalResult × Calls)) [
            | some q ↦ ok (q, poll pid ∷ h)
            | none ↦ next (ltb limit (k.elapsed (poll pid ∷ h)))
          ])
            ≡ ok r
          → Later
          → Q r.1
      on_result (some q) done ih =
          subst (λ (q : WaitForSignalResult × Calls). Q q.1) (ok-injective done) polled
      on_result none done ih = on_time (ltb limit (k.elapsed (poll pid ∷ h))) done ih

      from :
          (w : Waited)
          → k.waitpid_nohang pid h ≡ w
          → (elim w as (λ _. Result (WaitForSignalResult × Calls)) [
            | wait_failed errno ↦
                throw (make_system_error (k.system (poll pid ∷ h)) errno (lit "waitpid"))
            | not_yet ↦ next (ltb limit (k.elapsed (poll pid ∷ h)))
            | changed wpid status ↦
                elim (polled_result pid sig (changed wpid status))
                  as (λ _. Result (WaitForSignalResult × Calls)) [
                    | some q ↦ ok (q, poll pid ∷ h)
                    | none ↦ next (ltb limit (k.elapsed (poll pid ∷ h)))
                  ]
          ])
            ≡ ok r
          → Later
          → Q r.1
      from (wait_failed errno) e done ih = absurd (cc)
      from not_yet e done ih = on_time (ltb limit (k.elapsed (poll pid ∷ h))) done ih
      from (changed wpid status) e done ih =
          on_result (polled_result pid sig (changed wpid status)) done ih

  pub wait_for_initial_stop-Keeps :
      (Q : Calls → Type 0) (fuel tracee : ℕ) {h : Calls}
      → ((h' : Calls) → Q h' → Q (poll tracee ∷ h'))
      → Q []
      → wait_for_initial_stop k fuel tracee [] ≡ ok h
      → Q h
  unfolding wait_for_initial_stop
  wait_for_initial_stop-Keeps Q fuel tracee {h = h} keeps only done =
      let (r, waited, rest) = bind-eq-ok (wait_for_signal k fuel tracee sigstop 10 []) _ done in
      from r.0 r.1 rest (wait_for_signal-Keeps Q fuel tracee sigstop 10 [] keeps only waited)
    where
      from :
          (s : WaitForSignalResult) (h' : Calls)
          → (elim s as (λ _. Result Calls) [
            | success ↦ ok h'
            | other ↦ throw (initial_stop_message other)
          ])
            ≡ ok h
          → Q h'
          → Q h
      from success h' done only = subst Q (ok-injective done) only
      from timeout h' done only = absurd (cc)
      from (exited n) h' done only = absurd (cc)
      from (signalled n) h' done only = absurd (cc)
