-- ===== src/FileTracer/Origin.antt =====
-- Where the recorded files come from: the events of the trace that saw them.
use r4r.Base.{ℕ, Option, none, some, Bool, List, [], ◌∷◌, ℤ}
use r4r.Base.{
  Result, ok, bind-eq-ok, ◌==◌, list_eq, nat_eq, ◌≡◌, refl, sym, ap, ◌∙◌, ◌⊎◌, subst, inl, inr,
  Bool-cases,
}
use r4r.Base.Dict
use r4r.Base.Dict.{Dict, lookup-try_emplace, lookup-erase, try_emplace-cases}
use r4r.Path.{FilePath}
use r4r.System.{System}
use r4r.FileTracer.{
  FileInfo, SyscallState, file, FileTracer, SyscallArgs, SyscallHandler, find_handler,
  registered_path,
}
use r4r.FileTracer.Entries.{IsRooted}
use r4r.FileTracer.Sees.{Sees, syscall_entry-Sees}
use r4r.FileTracer.Effects.{
  Effect, unchanged, added, linked, IsAdded, Registers, syscall_exit-Effect,
}
use r4r.FileTracer.Steps.{entry-cases, exit-cases}
use r4r.FileTracer.Trace.{Event, entry, exit, on_event, run}

-- Some entry of the trace, by its system and the number of its call.
abbrev pub SomeEntry : (System → ℕ → Type 0) → List Event → Type 0
SomeEntry R [] = ⊥
SomeEntry R (entry sys pid nr args ∷ es) = R sys nr ⊎ SomeEntry R es
SomeEntry R (exit sys pid ret err ∷ es) = SomeEntry R es

-- The systems of all entries answer getcwd(3) as documented.
abbrev pub AllRooted : List Event → Type 0
AllRooted [] = Unit
AllRooted (entry sys pid nr args ∷ es) = IsRooted sys × AllRooted es
AllRooted (exit sys pid ret err ∷ es) = AllRooted es

-- `X` holds of what the open calls left, `Y` of the recorded files.
pub record IsTraced (X : ℕ → FileInfo → Type 0) (Y : FilePath → FileInfo → Type 0) (t : FileTracer)
    : Type 0 where
  pub left : (pid nr : ℕ) (i : FileInfo) → Dict.lookup pid t.state ≡ some (nr, file i) → X nr i
  pub recorded : (p : FilePath) (i : FileInfo) → Dict.lookup p t.files ≡ some i → Y p i

module _ (ignore : System → FilePath → Result Bool) (X : ℕ → FileInfo → Type 0)
    (Y : FilePath → FileInfo → Type 0) where
  -- Every entry of the trace gives `X`.
  abbrev pub Feeds : List Event → Type 0
  Feeds [] = Unit
  Feeds (entry sys pid nr args ∷ es) =
      ((h : SyscallHandler) (i : FileInfo)
        → find_handler nr ≡ some h
        → Sees ignore h sys i
        → X nr i)
      × Feeds es
  Feeds (exit sys pid ret err ∷ es) = Feeds es

  -- What is registered from an `X` is a `Y`.
  abbrev pub Promotes : Type 0
  Promotes =
      (nr : ℕ) (h : SyscallHandler) (sys : System) (s i : FileInfo) (size : Option ℕ)
      → find_handler nr ≡ some h
      → X nr s
      → Registers h s i
      → Y (registered_path sys i.path) (record {
        path = registered_path sys i.path;
        size = size;
        existed_before = i.existed_before;
      })

  entry-IsTraced :
      (sys : System) (pid nr : ℕ) (args : SyscallArgs) (t : FileTracer) {t' : FileTracer}
      → IsRooted sys
      → ((h : SyscallHandler) (i : FileInfo)
          → find_handler nr ≡ some h
          → Sees ignore h sys i
          → X nr i)
      → IsTraced X Y t
      → on_event ignore (entry sys pid nr args) t ≡ ok t'
      → IsTraced X Y t'
  entry-IsTraced sys pid nr args t rooted feeds inv done =
      elim (entry-cases ignore sys pid nr args t done) [
        | inl (unhandled, after) ↦
            subst (IsTraced X Y) (sym after) (record { left = inv.left; recorded = inv.recorded })
        | inr e ↦ subst (IsTraced X Y) (sym e.after) (record {
          left = λ q n i found. elim (try_emplace-cases q pid (nr, e.left) t.state found) [
            | inl old ↦ inv.left q n i old
            | inr (same, new) ↦
                let st : e.left ≡ file i = cc in
                let num : nr ≡ n = cc in
                subst (λ k. X k i) num
                  (feeds e.handler i e.handled
                    (syscall_entry-Sees ignore e.handler sys pid args rooted (e.ran ∙ ap ok st)))
          ];
          recorded = inv.recorded;
        })
      ]

  exit-IsTraced :
      (sys : System) (pid : ℕ) (ret : ℤ) (err : Bool) (t : FileTracer) {t' : FileTracer}
      → Promotes
      → IsTraced X Y t
      → on_event ignore (exit sys pid ret err) t ≡ ok t'
      → IsTraced X Y t'
  exit-IsTraced sys pid ret err t promotes inv done =
      elim (exit-cases ignore sys pid ret err t done) [
        | inl (idle, after) ↦ subst (IsTraced X Y) (sym after) inv
        | inr e ↦ subst (IsTraced X Y) (sym e.after) (record {
          left = λ q n i found. elim (Bool-cases (pid == q)) [
            | inl same ↦
                let gone : Dict.lookup q (Dict.erase pid t.state) ≡ none =
                  lookup-erase q pid t.state ∙ rw same refl in
                absurd (cc)
            | inr differ ↦
                inv.left q n i (sym (lookup-erase q pid t.state ∙ rw differ refl) ∙ found)
          ];
          recorded =
              effect e.nr e.handler e.left e.handled e.pending
                (syscall_exit-Effect ignore e.handler sys pid ret err e.left t e.ran);
        })
      ]
    where
      effect :
          (nr : ℕ) (h : SyscallHandler) (st : SyscallState) {u : FileTracer}
          → find_handler nr ≡ some h
          → Dict.lookup pid t.state ≡ some (nr, st)
          → Effect ignore sys h st t u
          → (p : FilePath) (i : FileInfo) → Dict.lookup p u.files ≡ some i
          → Y p i
      effect nr h st handled pending (unchanged same) p i found =
          inv.recorded p i (ap (λ v. Dict.lookup p v.files) (sym same) ∙ found)
      effect nr h st handled pending (linked q target asked after) p i found =
          inv.recorded p i (ap (λ v. Dict.lookup p v.files) (sym after) ∙ found)
      effect nr h st {u = u} handled pending (added a) p i found =
          let old : Dict.lookup p
                (Dict.try_emplace (registered_path sys a.info.path) (stored a) t.files)
              ≡ some i =
            sym (ap (λ v. Dict.lookup p v.files) a.after) ∙ found in
          elim (try_emplace-cases p (registered_path sys a.info.path) (stored a) t.files old) [
            | inl before ↦ inv.recorded p i before
            | inr (same, new) ↦
                subst (λ k. Y k i) same
                  (subst (Y (registered_path sys a.info.path)) new (
                    promotes nr h sys a.left a.info a.size handled
                      (inv.left pid nr a.left (pending ∙ ap (λ s. some (nr, s)) a.from)) a.same))
          ]
        where
          stored : IsAdded sys h st t u → FileInfo
          stored a = record {
            path = registered_path sys a.info.path;
            size = a.size;
            existed_before = a.info.existed_before;
          }

  pub run-IsTraced :
      (es : List Event) (t : FileTracer) {t' : FileTracer}
      → AllRooted es
      → Feeds es
      → Promotes
      → IsTraced X Y t
      → run ignore es t ≡ ok t'
      → IsTraced X Y t'
  unfolding run
  run-IsTraced [] t rooted feeds promotes inv done =
      let same : t ≡ _ = cc in subst (IsTraced X Y) same inv
  run-IsTraced (entry sys pid nr args ∷ es) t (rooted, rooted') (feeds, feeds') promotes inv done =
      let (u, first, rest) =
        bind-eq-ok (on_event ignore (entry sys pid nr args) t) (run ignore es) done in
      run-IsTraced es u rooted' feeds' promotes
        (entry-IsTraced sys pid nr args t rooted feeds inv first) rest
  run-IsTraced (exit sys pid ret err ∷ es) t rooted feeds promotes inv done =
      let (u, first, rest) =
        bind-eq-ok (on_event ignore (exit sys pid ret err) t) (run ignore es) done in
      run-IsTraced es u rooted feeds promotes (exit-IsTraced sys pid ret err t promotes inv first)
        rest
