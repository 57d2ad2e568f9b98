-- ===== src/FileTracer/Pending.antt =====
-- Which calls are open: the listener's state against the trace of its events.
use r4r.Base.{ℕ, Option, none, some, Bool, List, [], ◌∷◌, ℤ, arith}
use r4r.Base.{
  Result, ok, bind-eq-ok, if◌then◌else◌, ◌==◌, ==→≡, list_eq, nat_eq, ◌≡◌, refl, sym, ap, ◌∙◌,
}
use r4r.Base.{Bool-cases, inl, inr, subst}
use r4r.Base.Dict
use r4r.Base.Dict.{Dict, lookup-erase, lookup-try_emplace}
use r4r.Path.{FilePath}
use r4r.System.{System}
use r4r.FileTracer.{SyscallState, FileTracer, SyscallArgs, SyscallHandler, find_handler}
use r4r.FileTracer.Handlers.{on_syscall_entry, on_syscall_exit}
use r4r.FileTracer.Steps.{entry-cases, exit-cases}
use r4r.FileTracer.Trace.{Event, entry, exit, on_event, run}

-- The number of the call that a process has open, after an event, when it had `o` open before.
unfoldable pub call_after : ℕ → Event → Option ℕ → Option ℕ
call_after pid (entry sys q nr args) o =
    if q == pid then elim (find_handler nr) [ none ↦ o | some h ↦ some nr ] else o
call_after pid (exit sys q ret err) o = if q == pid then none else o

unfoldable pub open_call : ℕ → List Event → Option ℕ → Option ℕ
unfolding call_after
open_call pid [] o = o
open_call pid (e ∷ es) o = open_call pid es (call_after pid e o)

abbrev to_call : Option (ℕ × SyscallState) → Option ℕ
to_call none = none
to_call (some (nr, st)) = some nr

-- The open call that the tracer's state has for the process.
abbrev pub pending : ℕ → FileTracer → Option ℕ
pending pid t = to_call (Dict.lookup pid t.state)

abbrev IsFresh : Event → (ℕ → Option ℕ) → Type 0
IsFresh (entry sys q nr args) o = (h : SyscallHandler) → find_handler nr ≡ some h → o q ≡ none
IsFresh (exit sys q ret err) o = Unit

-- No call with a handler is entered by a process that has one open.
abbrev pub Alternates : List Event → (ℕ → Option ℕ) → Type 0
Alternates [] o = Unit
Alternates (e ∷ es) o = IsFresh e o × Alternates es (λ pid. call_after pid e (o pid))

module _ (ignore : System → FilePath → Result Bool) where
  entry-pending :
      (sys : System) (q nr : ℕ) (args : SyscallArgs) (t : FileTracer) {t' : FileTracer}
      → on_syscall_entry ignore sys q nr args t ≡ ok t'
      → (pid : ℕ) → pending pid t' ≡ call_after pid (entry sys q nr args) (pending pid t)
  unfolding call_after
  entry-pending sys q nr args t done pid = elim (entry-cases ignore sys q nr args t done) [
    | inl (unhandled, after) ↦ ap (pending pid) after ∙ rw (call_after, unhandled) (ground arith)
    | inr e ↦
        ap (pending pid) e.after
        ∙ ap to_call (lookup-try_emplace pid q (nr, e.left) t.state)
        ∙ rw (call_after, e.handled) (ground (arith, e.idle))
  ]

  exit-pending :
      (sys : System) (q : ℕ) (ret : ℤ) (err : Bool) (t : FileTracer) {t' : FileTracer}
      → on_syscall_exit ignore sys q ret err t ≡ ok t'
      → (pid : ℕ) → pending pid t' ≡ call_after pid (exit sys q ret err) (pending pid t)
  unfolding call_after
  exit-pending sys q ret err t done pid = elim (exit-cases ignore sys q ret err t done) [
    | inl (idle, after) ↦ ap (pending pid) after ∙ elim (Bool-cases (q == pid)) [
      | inl same ↦
          rw same (ap to_call (ap (λ k. Dict.lookup k t.state) (sym (==→≡ q pid same)) ∙ idle))
      | inr differ ↦ rw differ refl
    ]
    | inr e ↦ ap (pending pid) e.after ∙ ap to_call (lookup-erase pid q t.state) ∙ ground arith
  ]

  entry-IsFresh :
      (sys : System) (q nr : ℕ) (args : SyscallArgs) (t : FileTracer) {t' : FileTracer}
      → on_syscall_entry ignore sys q nr args t ≡ ok t'
      → IsFresh (entry sys q nr args) (λ pid. pending pid t)
  entry-IsFresh sys q nr args t done h handled = elim (entry-cases ignore sys q nr args t done) [
    | inl (unhandled, after) ↦ cc
    | inr e ↦ ap to_call e.idle
  ]

  event-pending :
      (e : Event) (t : FileTracer) {t' : FileTracer}
      → on_event ignore e t ≡ ok t'
      → IsFresh e (λ pid. pending pid t)
        × ((pid : ℕ) → pending pid t' ≡ call_after pid e (pending pid t))
  event-pending (entry sys q nr args) t done =
      (entry-IsFresh sys q nr args t done, entry-pending sys q nr args t done)
  event-pending (exit sys q ret err) t done = (tt, exit-pending sys q ret err t done)

  -- After a trace that the listener accepts, the open call of every process is the one that the
  -- trace left open, and the trace has alternated: no handled call was entered inside another one of
  -- its process.
  pub run-pending :
      (es : List Event) (t : FileTracer) {t' : FileTracer}
      → run ignore es t ≡ ok t'
      → Alternates es (λ pid. pending pid t)
        × ((pid : ℕ) → pending pid t' ≡ open_call pid es (pending pid t))
  unfolding run open_call
  run-pending [] t done = (tt, λ pid. cc)
  run-pending (e ∷ es) t {t' = t'} done =
      let (u, first, rest) = bind-eq-ok _ _ done in
      let (fresh, step) = event-pending e t first in
      let (alt, end) = run-pending es u rest in
      (
        (fresh, subst (Alternates es) (λ i pid. step pid i) alt),
        λ pid. end pid ∙ ap (open_call pid es) (step pid),
      )
