-- ===== src/FileTracer/Commute.antt =====
-- Events of different processes: the order in which the monitor reports them.
use r4r.Base.{ℕ, none, some, Bool, false, ℤ, arith}
use r4r.Base.{
  Result, ok, ◌>>=◌, bind-eq-ok, ◌==◌, list_eq, nat_eq, ◌≡◌, refl, sym, ap, ◌∙◌, ◌↔◌, ◌⊎◌, inl, inr,
}
use r4r.Base.Dict
use r4r.Base.Dict.{Dict, lookup-try_emplace, lookup-erase, erase-try_emplace, has-none}
use r4r.Path.{FilePath}
use r4r.System.{System}
use r4r.FileTracer.{SyscallState, FileTracer, SyscallArgs, SyscallHandler, find_handler}
use r4r.FileTracer.Handlers.{syscall_entry, syscall_exit, on_syscall_entry, on_syscall_exit}
use r4r.FileTracer.Steps.{next_count, entry-cases, exit-cases, IsEntered, IsExited}
use r4r.FileTracer.Trace.{with_pending, syscall_exit-with_pending}

module _ (ignore : System → FilePath → Result Bool) where
  entry-unhandled :
      (sys : System) (pid nr : ℕ) (args : SyscallArgs) (t : FileTracer)
      → find_handler nr ≡ none
      → on_syscall_entry ignore sys pid nr args t ≡ ok (with_pending (next_count t) t.state t)
  unfolding on_syscall_entry
  entry-unhandled sys pid nr args t unhandled = rw (on_syscall_entry, unhandled) refl

  entry-entered :
      (sys : System) (pid nr : ℕ) (args : SyscallArgs) (t : FileTracer) {h : SyscallHandler}
      {st : SyscallState}
      → find_handler nr ≡ some h
      → syscall_entry ignore h sys pid args ≡ ok st
      → Dict.lookup pid t.state ≡ none
      → on_syscall_entry ignore sys pid nr args t
        ≡ ok (with_pending (next_count t) (Dict.try_emplace pid (nr, st) t.state) t)
  unfolding on_syscall_entry
  entry-entered sys pid nr args t handled ran idle =
      rw (on_syscall_entry, handled, ran, has-none pid t.state idle) refl

  exit-idle :
      (sys : System) (pid : ℕ) (ret : ℤ) (err : Bool) (t : FileTracer)
      → Dict.lookup pid t.state ≡ none
      → on_syscall_exit ignore sys pid ret err t ≡ ok t
  unfolding on_syscall_exit
  exit-idle sys pid ret err t idle = rw (on_syscall_exit, idle) refl

  -- An exit, from what its handler does to another tracer with the same files.
  exit-exited :
      (sys : System) (pid : ℕ) (ret : ℤ) (err : Bool) (t : FileTracer) (c : ℕ)
      (s : Dict ℕ (ℕ × SyscallState)) {nr : ℕ} {st : SyscallState} {h : SyscallHandler}
      {u : FileTracer}
      → Dict.lookup pid s ≡ some (nr, st)
      → find_handler nr ≡ some h
      → syscall_exit ignore h sys pid ret err st t ≡ ok u
      → on_syscall_exit ignore sys pid ret err (with_pending c s t)
        ≡ ok (with_pending c (Dict.erase pid s) u)
  unfolding on_syscall_exit
  exit-exited sys pid ret err t c s {st = st} {h = h} {u = u} found handled ran =
      rw (on_syscall_exit, found, handled)
        (syscall_exit-with_pending ignore h sys pid ret err st c (Dict.erase pid s) t
          ∙ ap (λ r. r >>= λ v. ok (with_pending c (Dict.erase pid s) v)) ran)

  -- The lookups of a process do not see the other one's events.
  lookup-other_emplaced :
      (a b : ℕ) (x : ℕ × SyscallState) (s : Dict ℕ (ℕ × SyscallState))
      → (a == b) ≡ false
      → Dict.lookup a (Dict.try_emplace b x s) ≡ Dict.lookup a s
  lookup-other_emplaced a b x s differ = lookup-try_emplace a b x s ∙ ground arith

  lookup-other_erased :
      (a b : ℕ) (s : Dict ℕ (ℕ × SyscallState))
      → (a == b) ≡ false
      → Dict.lookup b (Dict.erase a s) ≡ Dict.lookup b s
  lookup-other_erased a b s differ = lookup-erase b a s ∙ rw differ refl

  exit-then_entry :
      (sx se : System) (a b nr : ℕ) (ret : ℤ) (err : Bool) (args : SyscallArgs) (t : FileTracer)
      {t' : FileTracer}
      → (a == b) ≡ false
      → (on_syscall_exit ignore sx a ret err t >>= on_syscall_entry ignore se b nr args) ≡ ok t'
      → (on_syscall_entry ignore se b nr args t >>= on_syscall_exit ignore sx a ret err) ≡ ok t'
  exit-then_entry sx se a b nr ret err args t {t' = t'} differ done =
      let (u, first, second) =
        bind-eq-ok (on_syscall_exit ignore sx a ret err t) (on_syscall_entry ignore se b nr args)
          done in
      go u second (exit-cases ignore sx a ret err t first)
        (entry-cases ignore se b nr args u second)
    where
      swapped :
          {v : FileTracer}
          → on_syscall_entry ignore se b nr args t ≡ ok v
          → on_syscall_exit ignore sx a ret err v ≡ ok t'
          → (on_syscall_entry ignore se b nr args t >>= on_syscall_exit ignore sx a ret err) ≡ ok t'
      swapped e x = ap (λ r. r >>= on_syscall_exit ignore sx a ret err) e ∙ x

      go :
          (u : FileTracer)
          → on_syscall_entry ignore se b nr args u ≡ ok t'
          → ((Dict.lookup a t.state ≡ none) × (u ≡ t)) ⊎ IsExited ignore sx a ret err t u
          → ((find_handler nr ≡ none) × (t' ≡ with_pending (next_count u) u.state u))
            ⊎ IsEntered ignore se b nr args u t'
          → (on_syscall_entry ignore se b nr args t >>= on_syscall_exit ignore sx a ret err) ≡ ok t'
      go u second (inl (idle, same)) (inl (unhandled, after)) =
          swapped (ap (on_syscall_entry ignore se b nr args) (sym same) ∙ second) (
            exit-idle sx a ret err t' (
              ap (λ v. Dict.lookup a v.state)
                (after ∙ ap (λ v. with_pending (next_count v) v.state v) same)
              ∙ idle))
      go u second (inl (idle, same)) (inr e) =
          swapped (ap (on_syscall_entry ignore se b nr args) (sym same) ∙ second) (
            exit-idle sx a ret err t' (
              ap (λ v. Dict.lookup a v.state) e.after
              ∙ lookup-other_emplaced a b (nr, e.left) u.state differ
              ∙ ap (λ v. Dict.lookup a v.state) same
              ∙ idle))
      go u second (inr x) (inl (unhandled, after)) =
          swapped (entry-unhandled se b nr args t unhandled) (
            exit-exited sx a ret err t (next_count t) t.state x.pending x.handled x.ran
            ∙ ap ok (sym (after ∙ ap (λ v. with_pending (next_count v) v.state v) x.after)))
      go u second (inr x) (inr e) =
          let idle : Dict.lookup b t.state ≡ none =
            sym (ap (λ v. Dict.lookup b v.state) x.after ∙ lookup-other_erased a b t.state differ)
            ∙ e.idle in
          swapped (entry-entered se b nr args t e.handled e.ran idle) (
            exit-exited sx a ret err t (next_count t) (Dict.try_emplace b (nr, e.left) t.state)
              (lookup-other_emplaced a b (nr, e.left) t.state differ ∙ x.pending) x.handled x.ran
            ∙ ap ok (
                ap (λ s. with_pending (next_count t) s x.result)
                  (erase-try_emplace a b (nr, e.left) t.state differ)
                ∙ sym (
                    e.after
                    ∙ ap
                        (λ v.
                          with_pending (next_count v) (Dict.try_emplace b (nr, e.left) v.state) v)
                        x.after)))

  entry-then_exit :
      (sx se : System) (a b nr : ℕ) (ret : ℤ) (err : Bool) (args : SyscallArgs) (t : FileTracer)
      {t' : FileTracer}
      → (a == b) ≡ false
      → (on_syscall_entry ignore se b nr args t >>= on_syscall_exit ignore sx a ret err) ≡ ok t'
      → (on_syscall_exit ignore sx a ret err t >>= on_syscall_entry ignore se b nr args) ≡ ok t'
  entry-then_exit sx se a b nr ret err args t {t' = t'} differ done =
      let (u, first, second) =
        bind-eq-ok (on_syscall_entry ignore se b nr args t) (on_syscall_exit ignore sx a ret err)
          done in
      go u first (entry-cases ignore se b nr args t first) (exit-cases ignore sx a ret err u second)
    where
      swapped :
          {v : FileTracer}
          → on_syscall_exit ignore sx a ret err t ≡ ok v
          → on_syscall_entry ignore se b nr args v ≡ ok t'
          → (on_syscall_exit ignore sx a ret err t >>= on_syscall_entry ignore se b nr args) ≡ ok t'
      swapped x e = ap (λ r. r >>= on_syscall_entry ignore se b nr args) x ∙ e

      ran_before :
          (h : SyscallHandler) (st : SyscallState) (c : ℕ) (s : Dict ℕ (ℕ × SyscallState))
          {u r : FileTracer}
          → u ≡ with_pending c s t
          → syscall_exit ignore h sx a ret err st u ≡ ok r
          → (v : FileTracer) × (syscall_exit ignore h sx a ret err st t ≡ ok v)
            × (r ≡ with_pending c s v)
      ran_before h st c s same ran =
          let (v, before, rest) =
            bind-eq-ok (syscall_exit ignore h sx a ret err st t) (λ v. ok (with_pending c s v))
              (sym (syscall_exit-with_pending ignore h sx a ret err st c s t)
                ∙ ap (syscall_exit ignore h sx a ret err st) (sym same)
                ∙ ran) in
          (v, before, cc)

      go :
          (u : FileTracer)
          → on_syscall_entry ignore se b nr args t ≡ ok u
          → ((find_handler nr ≡ none) × (u ≡ with_pending (next_count t) t.state t))
            ⊎ IsEntered ignore se b nr args t u
          → ((Dict.lookup a u.state ≡ none) × (t' ≡ u)) ⊎ IsExited ignore sx a ret err u t'
          → (on_syscall_exit ignore sx a ret err t >>= on_syscall_entry ignore se b nr args) ≡ ok t'
      go u first (inl (unhandled, after)) (inl (idle, same)) =
          swapped (exit-idle sx a ret err t (sym (ap (λ v. Dict.lookup a v.state) after) ∙ idle))
            (first ∙ ap ok (sym same))
      go u first (inr e) (inl (idle, same)) =
          swapped
            (exit-idle sx a ret err t (
              sym (
                ap (λ v. Dict.lookup a v.state) e.after
                ∙ lookup-other_emplaced a b (nr, e.left) t.state differ)
              ∙ idle))
            (first ∙ ap ok (sym same))
      go u first (inl (unhandled, after)) (inr x) =
          let (v, before, result) =
            ran_before x.handler x.left (next_count t) t.state after x.ran in
          swapped
            (exit-exited sx a ret err t t.syscalls_count t.state
              (sym (ap (λ v. Dict.lookup a v.state) after) ∙ x.pending) x.handled before)
            (entry-unhandled se b nr args (with_pending t.syscalls_count (Dict.erase a t.state) v)
                unhandled
              ∙ ap ok (
                  sym (
                    x.after
                    ∙ ap (λ w. with_pending w.syscalls_count (Dict.erase a w.state) x.result) after
                    ∙ ap (with_pending (next_count t) (Dict.erase a t.state)) result)))
      go u first (inr e) (inr x) =
          let emplaced = Dict.try_emplace b (nr, e.left) t.state in
          let (v, before, result) =
            ran_before x.handler x.left (next_count t) emplaced e.after x.ran in
          let found : Dict.lookup a t.state ≡ some (x.nr, x.left) =
            sym (
              ap (λ v. Dict.lookup a v.state) e.after
              ∙ lookup-other_emplaced a b (nr, e.left) t.state differ)
            ∙ x.pending in
          swapped (exit-exited sx a ret err t t.syscalls_count t.state found x.handled before) (
            entry-entered se b nr args (with_pending t.syscalls_count (Dict.erase a t.state) v)
              e.handled e.ran (lookup-other_erased a b t.state differ ∙ e.idle)
            ∙ ap ok (
                ap (λ s. with_pending (next_count t) s v)
                  (sym (erase-try_emplace a b (nr, e.left) t.state differ))
                ∙ sym (
                    x.after
                    ∙ ap (λ w. with_pending w.syscalls_count (Dict.erase a w.state) x.result)
                        e.after
                    ∙ ap (with_pending (next_count t) (Dict.erase a emplaced)) result)))

  -- The exit of a call and the entry of a call of another process can be reported in either order:
  -- both orders return normally with the same tracer, or neither does.
  pub exit-entry_commute :
      (sx se : System) (a b nr : ℕ) (ret : ℤ) (err : Bool) (args : SyscallArgs) (t t' : FileTracer)
      → (a == b) ≡ false
      → ((on_syscall_exit ignore sx a ret err t >>= on_syscall_entry ignore se b nr args) ≡ ok t')
        ↔ ((on_syscall_entry ignore se b nr args t >>= on_syscall_exit ignore sx a ret err) ≡ ok t')
  exit-entry_commute sx se a b nr ret err args t t' differ = (
    exit-then_entry sx se a b nr ret err args t differ,
    entry-then_exit sx se a b nr ret err args t differ,
  )
