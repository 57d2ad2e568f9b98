-- ===== src/FileTracer/Steps.antt =====
-- The two methods of the listener, case by case, when they return normally.
use r4r.Base.{ℕ, none, some, Bool, ℤ, ◌+◌, ◌%◌, ◌^◌}
use r4r.Base.{Result, ok, throw, ◌>>=◌, bind-eq-ok, ◌≡◌, refl, sym, ◌∙◌, ◌⊎◌, nat_eq}
use r4r.Base.{Option-cases, inl, inr}
use r4r.Base.Dict
use r4r.Base.Dict.{Dict, has-none, has-some}
use r4r.Base.{if◌then◌else◌, lit, ◌++◌, nat_to_string}
use r4r.Path.{FilePath}
use r4r.System.{System}
use r4r.FileTracer.{SyscallState, FileTracer, SyscallArgs, SyscallHandler, find_handler}
use r4r.FileTracer.Handlers.{syscall_entry, syscall_exit, on_syscall_entry, on_syscall_exit}
use r4r.FileTracer.Trace.{with_pending, syscall_exit-with_pending}

abbrev pub next_count : FileTracer → ℕ
next_count t = (t.syscalls_count + 1) % 2 ^ 64

module _ (ignore : System → FilePath → Result Bool) where
  abbrev already : ℕ → Result FileTracer
  already pid = throw (lit "There is already a syscall handler for pid: " ++ nat_to_string pid)

  -- What follows the handler of an entry.
  abbrev left : ℕ → ℕ → FileTracer → SyscallState → Result FileTracer
  left pid nr t st =
      if Dict.has pid t.state
      then throw (lit "There is already a syscall handler for pid: " ++ nat_to_string pid)
      else ok (with_pending (next_count t) (Dict.try_emplace pid (nr, st) t.state) t)

  -- An entry that a handler took.
  pub record IsEntered (sys : System) (pid nr : ℕ) (args : SyscallArgs) (t t' : FileTracer)
      : Type 0 where
    pub handler : SyscallHandler
    pub left : SyscallState
    pub handled : find_handler nr ≡ some handler
    pub ran : syscall_entry ignore handler sys pid args ≡ ok left
    pub idle : Dict.lookup pid t.state ≡ none
    pub after : t' ≡ with_pending (next_count t) (Dict.try_emplace pid (nr, left) t.state) t

  pub entry-cases :
      (sys : System) (pid nr : ℕ) (args : SyscallArgs) (t : FileTracer) {t' : FileTracer}
      → on_syscall_entry ignore sys pid nr args t ≡ ok t'
      → ((find_handler nr ≡ none) × (t' ≡ with_pending (next_count t) t.state t))
        ⊎ IsEntered sys pid nr args t t'
  unfolding on_syscall_entry
  entry-cases sys pid nr args t {t' = t'} done = elim (Option-cases (find_handler nr)) [
    | inl unhandled ↦
        let same : on_syscall_entry ignore sys pid nr args t
            ≡ ok (with_pending (next_count t) t.state t) =
          rw (on_syscall_entry, unhandled) refl in
        inl (unhandled, cc)
    | inr (h, handled) ↦
        let same : on_syscall_entry ignore sys pid nr args t
            ≡ (syscall_entry ignore h sys pid args >>= left pid nr t) =
          rw (on_syscall_entry, handled) refl in
        let (st, ran, rest) = bind-eq-ok _ _ (sym same ∙ done) in inr (taken h st handled ran rest)
  ]
    where
      taken :
          (h : SyscallHandler) (st : SyscallState)
          → find_handler nr ≡ some h
          → syscall_entry ignore h sys pid args ≡ ok st
          → left pid nr t st ≡ ok t'
          → IsEntered sys pid nr args t t'
      taken h st handled ran rest = elim (Option-cases (Dict.lookup pid t.state)) [
        | inl idle ↦
            let stored : left pid nr t st
                ≡ ok (with_pending (next_count t) (Dict.try_emplace pid (nr, st) t.state) t) =
              rw (has-none pid t.state idle) refl in
            record { handler = h; left = st; handled = handled; ran = ran; idle = idle; after = cc }
        | inr (c, found) ↦
            let refused : left pid nr t st ≡ already pid = rw (has-some pid t.state found) refl in
            absurd (cc)
      ]

  abbrev no_exit : ℕ → Result FileTracer
  no_exit nr = throw (lit "No exit handler for syscall: " ++ nat_to_string nr)

  -- An exit of an open call.
  pub record IsExited (sys : System) (pid : ℕ) (ret : ℤ) (err : Bool) (t t' : FileTracer)
      : Type 0 where
    pub nr : ℕ
    pub left : SyscallState
    pub handler : SyscallHandler
    pub result : FileTracer
    pub pending : Dict.lookup pid t.state ≡ some (nr, left)
    pub handled : find_handler nr ≡ some handler
    pub ran : syscall_exit ignore handler sys pid ret err left t ≡ ok result
    pub after : t' ≡ with_pending t.syscalls_count (Dict.erase pid t.state) result

  pub exit-cases :
      (sys : System) (pid : ℕ) (ret : ℤ) (err : Bool) (t : FileTracer) {t' : FileTracer}
      → on_syscall_exit ignore sys pid ret err t ≡ ok t'
      → ((Dict.lookup pid t.state ≡ none) × (t' ≡ t)) ⊎ IsExited sys pid ret err t t'
  unfolding on_syscall_exit
  exit-cases sys pid ret err t done = elim (Option-cases (Dict.lookup pid t.state)) [
    | inl idle ↦
        let same : on_syscall_exit ignore sys pid ret err t ≡ ok t =
          rw (on_syscall_exit, idle) refl in
        inl (idle, cc)
    | inr ((nr, st), found) ↦ elim (Option-cases (find_handler nr)) [
      | inl unhandled ↦
          let same : on_syscall_exit ignore sys pid ret err t ≡ no_exit nr =
            rw (on_syscall_exit, found, unhandled) refl in
          absurd (cc)
      | inr (h, handled) ↦
          let same : on_syscall_exit ignore sys pid ret err t
              ≡ syscall_exit ignore h sys pid ret err st
                  (with_pending t.syscalls_count (Dict.erase pid t.state) t) =
            rw (on_syscall_exit, found, handled) refl in
          let framed =
            syscall_exit-with_pending ignore h sys pid ret err st t.syscalls_count
              (Dict.erase pid t.state) t in
          let (u, ran, rest) = bind-eq-ok _ _ (sym framed ∙ sym same ∙ done) in
          inr (record {
            nr = nr;
            left = st;
            handler = h;
            result = u;
            pending = found;
            handled = handled;
            ran = ran;
            after = cc;
          })
    ]
  ]
