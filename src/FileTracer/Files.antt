-- ===== src/FileTracer/Files.antt =====
-- The files that a whole trace records.
use r4r.Base.{ℕ, some, Bool, true, false, List, [], ◌∷◌}
use r4r.Base.{Result, ok, list_eq, nat_eq, ◌≡◌, refl, sym, ◌⊎◌, subst, inl, inr}
use r4r.Base.Dict
use r4r.Path.{FilePath, is_absolute}
use r4r.System.{System, exists}
use r4r.FileTracer.{
  FileInfo, FileTracer, SyscallHandler, nr_open, nr_readlink, nr_openat, nr_execve, nr_readlinkat,
  nr_newfstatat, find_handler, registered_path, empty_tracer,
}
use r4r.FileTracer.Sees.{Sees}
use r4r.FileTracer.Effects.{Registers}
use r4r.FileTracer.Origin.{SomeEntry, AllRooted, IsTraced, Feeds, Promotes, run-IsTraced}
use r4r.FileTracer.Trace.{Event, entry, exit, run}

SomeEntry-map :
    {R S : System → ℕ → Type 0} (es : List Event)
    → ((sys : System) (nr : ℕ) → R sys nr → S sys nr)
    → SomeEntry R es
    → SomeEntry S es
SomeEntry-map [] f r = absurd r
SomeEntry-map (entry sys pid nr args ∷ es) f (inl r) = inl (f sys nr r)
SomeEntry-map (entry sys pid nr args ∷ es) f (inr r) = inr (SomeEntry-map es f r)
SomeEntry-map (exit sys pid ret err ∷ es) f r = SomeEntry-map es f r

SomeEntry-any :
    {R : System → ℕ → Type 0} {P : Type 0} (es : List Event)
    → ((sys : System) (nr : ℕ) → R sys nr → P)
    → SomeEntry R es
    → P
SomeEntry-any [] f r = absurd r
SomeEntry-any (entry sys pid nr args ∷ es) f (inl r) = f sys nr r
SomeEntry-any (entry sys pid nr args ∷ es) f (inr r) = SomeEntry-any es f r
SomeEntry-any (exit sys pid ret err ∷ es) f r = SomeEntry-any es f r

module _ (ignore : System → FilePath → Result Bool) where
  -- The entry kept the path, and it was an execve or saw whether the file existed.
  abbrev pub Saw : FilePath → Bool → System → ℕ → Type 0
  Saw p b sys nr =
      (ignore sys p ≡ ok false)
      × (((find_handler nr ≡ some nr_execve) × (b ≡ true)) ⊎ (exists sys p ≡ some b))

  abbrev Left : List Event → ℕ → FileInfo → Type 0
  Left es nr i =
      SomeEntry
        (λ sys n.
          (n ≡ nr) × (h : SyscallHandler) × (find_handler nr ≡ some h) × Sees ignore h sys i)
        es

  abbrev Recorded : List Event → FilePath → FileInfo → Type 0
  Recorded es p i = (i.path ≡ p) × (is_absolute p ≡ true) × SomeEntry (Saw p i.existed_before) es

  Feeds-Left :
      (X : ℕ → FileInfo → Type 0) (Y : FilePath → FileInfo → Type 0) (es : List Event)
      → ((nr : ℕ) (i : FileInfo) → Left es nr i → X nr i)
      → Feeds ignore X Y es
  Feeds-Left X Y [] f = tt
  Feeds-Left X Y (entry sys pid nr args ∷ es) f = (
    λ h i handled sees. f nr i (inl (refl, h, handled, sees)),
    Feeds-Left X Y es (λ n i l. f n i (inr l)),
  )
  Feeds-Left X Y (exit sys pid ret err ∷ es) f = Feeds-Left X Y es f

  -- What one entry left becomes a record of the same path.
  Saw-Registers :
      (nr : ℕ) (h g : SyscallHandler) (sys : System) (s i : FileInfo)
      → find_handler nr ≡ some h
      → find_handler nr ≡ some g
      → Registers h s i
      → Sees ignore g sys s
      → (is_absolute i.path ≡ true) × Saw i.path i.existed_before sys nr
  Saw-Registers nr h g sys s i handled again same sees =
      go h handled same (let e : g ≡ h = cc in subst (λ k. Sees ignore k sys s) e sees)
    where
      go :
          (k : SyscallHandler)
          → find_handler nr ≡ some k
          → Registers k s i
          → Sees ignore k sys s
          → (is_absolute i.path ≡ true) × Saw i.path i.existed_before sys nr
      go nr_open handled same ((abs, kept), seen) = (cc, (cc, inr (cc)))
      go nr_openat handled same ((abs, kept), seen) = (cc, (cc, inr (cc)))
      go nr_newfstatat handled same ((abs, kept), seen) = (cc, (cc, inr (cc)))
      go nr_execve handled same ((abs, kept), seen) = (cc, (cc, inl (handled, cc)))
      go nr_readlink handled same sees = absurd same
      go nr_readlinkat handled same sees = absurd same

  Left-Recorded : (es : List Event) → Promotes ignore (Left es) (Recorded es)
  unfolding registered_path
  Left-Recorded es nr h sys s i size handled left same =
      let abs = SomeEntry-any es (λ at n l. (saw l).0) left in
      let seen = SomeEntry-map es (λ at n l. (saw l).1) left in
      let keeps : registered_path sys i.path ≡ i.path = rw (registered_path, abs) refl in
      subst
        (λ p. Recorded es p (record { path = p; size = size; existed_before = i.existed_before }))
        (sym keeps) (refl, abs, seen)
    where
      saw :
          {at : System} {n : ℕ}
          → (n ≡ nr) × (g : SyscallHandler) × (find_handler nr ≡ some g) × Sees ignore g at s
          → (is_absolute i.path ≡ true) × Saw i.path i.existed_before at n
      saw {at = at} (num, g, again, sees) =
          let (abs, r) = Saw-Registers nr h g at s i handled again same sees in
          (abs, subst (Saw i.path i.existed_before at) (sym num) r)

  -- Every file that a trace from the start records stands under its own absolute path, which some
  -- entry of the trace did not ignore; the record says that the file existed before only if this was an
  -- execve or the file was there at the entry, and that it did not only if it was not there.
  pub files-traced :
      (es : List Event) {t : FileTracer}
      → AllRooted es
      → run ignore es empty_tracer ≡ ok t
      → (p : FilePath) (i : FileInfo) → Dict.lookup p t.files ≡ some i
      → Recorded es p i
  unfolding Dict.lookup
  files-traced es rooted done =
      let start : IsTraced (Left es) (Recorded es) empty_tracer = record {
        left = λ pid nr i found. absurd (cc);
        recorded = λ p i found. absurd (cc);
      } in
      let end =
        run-IsTraced ignore (Left es) (Recorded es) es empty_tracer rooted
          (Feeds-Left (Left es) (Recorded es) es (λ nr i l. l)) (Left-Recorded es) start done in
      end.recorded
