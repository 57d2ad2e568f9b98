-- ===== src/FileTracer/Keeps.antt =====
-- What was recorded stays: the first record of a path wins.
use r4r.Base.{some, Bool, List, [], ◌∷◌, arith}
use r4r.Base.{Result, ok, bind-eq-ok, list_eq, nat_eq, ◌≡◌, ap, ◌∙◌, inl, inr}
use r4r.Base.Dict
use r4r.Base.Dict.{Dict, lookup-try_emplace}
use r4r.Path.{FilePath}
use r4r.System.{System}
use r4r.FileTracer.{FileInfo, SyscallState, FileTracer, SyscallHandler}
use r4r.FileTracer.Effects.{Effect, unchanged, added, linked, syscall_exit-Effect}
use r4r.FileTracer.Steps.{entry-cases, exit-cases}
use r4r.FileTracer.Trace.{Event, entry, exit, on_event, run}

-- The later tracer still has every file and every link of the earlier one.
pub record Keeps (t t' : FileTracer) : Type 0 where
  pub file :
      (p : FilePath) (i : FileInfo)
      → Dict.lookup p t.files ≡ some i
      → Dict.lookup p t'.files ≡ some i
  pub link :
      (p target : FilePath)
      → Dict.lookup p t.symlinks ≡ some target
      → Dict.lookup p t'.symlinks ≡ some target

pub Keeps-refl : {t t' : FileTracer} → t' ≡ t → Keeps t t'
Keeps-refl same = record { file = λ p i h. cc; link = λ p target h. cc }

Keeps-trans : {t u v : FileTracer} → Keeps t u → Keeps u v → Keeps t v
Keeps-trans a b = record {
  file = λ p i h. b.file p i (a.file p i h);
  link = λ p target h. b.link p target (a.link p target h);
}

-- A first value is kept.
try_emplace-keeps :
    {V : Type 0} (k j : FilePath) (v w : V) (d : Dict FilePath V)
    → Dict.lookup j d ≡ some w
    → Dict.lookup j (Dict.try_emplace k v d) ≡ some w
try_emplace-keeps k j v w d h = ground (arith, lookup-try_emplace j k v d)

module _ (ignore : System → FilePath → Result Bool) where
  Effect-Keeps :
      {sys : System} {h : SyscallHandler} {st : SyscallState} {t t' : FileTracer}
      → Effect ignore sys h st t t'
      → Keeps t t'
  Effect-Keeps (unchanged same) = Keeps-refl same
  Effect-Keeps {t = t} (added a) =
      let info = a.info in
      record {
        file =
            λ p i h. ap (λ u. Dict.lookup p u.files) a.after ∙ try_emplace-keeps _ p _ i t.files h;
        link = λ p target h. ap (λ u. Dict.lookup p u.symlinks) a.after ∙ h;
      }
  Effect-Keeps {t = t} (linked p q asked after) = record {
    file = λ j i h. ap (λ u. Dict.lookup j u.files) after ∙ h;
    link = λ j target h.
        ap (λ u. Dict.lookup j u.symlinks) after ∙ try_emplace-keeps p j q target t.symlinks h;
  }

  event-Keeps :
      (e : Event) (t : FileTracer) {t' : FileTracer} → on_event ignore e t ≡ ok t' → Keeps t t'
  event-Keeps (entry sys pid nr args) t done = elim (entry-cases ignore sys pid nr args t done) [
    | inl (unhandled, after) ↦
        Keeps-trans (record { file = λ p i h. h; link = λ p i h. h }) (Keeps-refl after)
    | inr e ↦ Keeps-trans (record { file = λ p i h. h; link = λ p i h. h }) (Keeps-refl e.after)
  ]
  event-Keeps (exit sys pid ret err) t done = elim (exit-cases ignore sys pid ret err t done) [
    | inl (idle, after) ↦ Keeps-refl after
    | inr e ↦
        Keeps-trans
          (Effect-Keeps (syscall_exit-Effect ignore e.handler sys pid ret err e.left t e.ran))
          (Keeps-trans (record { file = λ p i h. h; link = λ p i h. h }) (Keeps-refl e.after))
  ]

  -- Over any accepted trace, a recorded file keeps its first record and a link its first target.
  pub run-Keeps :
      (es : List Event) (t : FileTracer) {t' : FileTracer} → run ignore es t ≡ ok t' → Keeps t t'
  unfolding run
  run-Keeps [] t done = Keeps-refl (cc)
  run-Keeps (e ∷ es) t done =
      let (u, first, rest) = bind-eq-ok (on_event ignore e t) (run ignore es) done in
      Keeps-trans (event-Keeps e t first) (run-Keeps es u rest)
