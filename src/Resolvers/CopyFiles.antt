-- ===== src/Resolvers/CopyFiles.antt =====
-- The files that the copy resolver takes have a status in the manifest: the one they had, or one of their own.
use r4r.Base.{
  List, [], ◌∷◌, some, Bool, true, false, contains, All, All-map, ok, bind-eq-ok, ok-injective,
  ◌==◌, ==_refl, list_eq, nat_eq, Bool-cases, Option-cases,
}
use mathlib.Core.List.{Memᴰ}
use r4r.Base.{◌≡◌, ◌⊎◌, inl, inr, refl, sym, ap, ◌∙◌, subst, arith}
use r4r.Base.Dict
use r4r.Base.Dict.{Dict, lookup-try_emplace, try_emplace-cases}
use r4r.Path.{FilePath}
use r4r.System.{System}
use r4r.FileTracer.{FileInfo}
use r4r.Manifest.{
  FileStatus, copy, result, ignore_did_not_exist_before, ignore_no_longer_exist,
  ignore_not_accessible, ignore_directory,
}
use r4r.Resolvers.{erase_if, Traced, result_files, copy_status, copy_file, copy_link, copy_resolve}
use r4r.Resolvers.Erase.{erase_if-Keeps, erase_if-Keeps_on, erase_if-accounts, erase_if_all}

abbrev pub Listed : FilePath → Dict FilePath FileStatus → Type 0
Listed p copy_files = (s : FileStatus) × (Dict.lookup p copy_files ≡ some s)

lookup-try_emplace_kept :
    (j k : FilePath) (v w : FileStatus) (d : Dict FilePath FileStatus)
    → Dict.lookup j d ≡ some w
    → Dict.lookup j (Dict.try_emplace k v d) ≡ some w
lookup-try_emplace_kept j k v w d there = lookup-try_emplace j k v d ∙ rw there (ground arith)

Listed-try_emplace :
    (k : FilePath) (v : FileStatus) (d : Dict FilePath FileStatus)
    → Listed k (Dict.try_emplace k v d)
Listed-try_emplace k v d = elim (Option-cases (Dict.lookup k d)) [
  | inl absent ↦ (v, lookup-try_emplace k k v d ∙ rw (==_refl k, absent) refl)
  | inr (w, there) ↦ (w, lookup-try_emplace_kept k k v w d there)
]

result_files-other :
    (f : FilePath) (s : FileStatus) (d : Dict FilePath FileStatus) (p : FilePath)
    → (f == p) ≡ false
    → contains (result_files ((f, s) ∷ d)) p ≡ true
    → contains (result_files d) p ≡ true
unfolding result_files
result_files-other f result d p other h = sym (rw other refl) ∙ h
result_files-other f copy d p other h = h
result_files-other f ignore_did_not_exist_before d p other h = h
result_files-other f ignore_no_longer_exist d p other h = h
result_files-other f ignore_not_accessible d p other h = h
result_files-other f ignore_directory d p other h = h

result_files-Listed :
    (d : Dict FilePath FileStatus) (p : FilePath) → contains (result_files d) p ≡ true → Listed p d
unfolding result_files Dict.lookup
result_files-Listed [] p h = absurd (cc)
result_files-Listed ((f, s) ∷ d) p h = elim (Bool-cases (f == p)) [
  | inl same ↦ (s, rw same refl)
  | inr other ↦
      let (w, e) = result_files-Listed d p (result_files-other f s d p other h) in (w, rw other e)
]

All-Mem {ℓ} : {A : Type ℓ} (xs : List A) → All (λ a. Memᴰ a xs) xs
All-Mem [] = tt
All-Mem (x ∷ xs) = (Memᴰ.head refl, All-map _ _ xs (λ a h. Memᴰ.tail h) (All-Mem xs))

module _ (sys : System) where
  module _ (results : List FilePath) where
    -- A file is one of the results, or gets the status that `copy_status` finds unless it has one.
    copy_file-cases :
        (f : FileInfo) (d : Dict FilePath FileStatus) (b : Bool) (d' : Dict FilePath FileStatus)
        → copy_file sys results f d ≡ ok (b, d')
        → (b ≡ true)
          × (((contains results f.path ≡ true) × (d ≡ d'))
              ⊎ ((s : FileStatus) × (copy_status sys f ≡ ok s)
                  × (Dict.try_emplace f.path s d ≡ d')))
    unfolding copy_file
    copy_file-cases f d b d' done = elim (Bool-cases (contains results f.path)) [
      | inl taken ↦
          let e : ok (true, d) ≡ ok (b, d') = sym (rw taken refl) ∙ done in
          let same = ok-injective e in (sym (ap (λ x. x.0) same), inl (taken, ap (λ x. x.1) same))
      | inr fresh ↦
          let e = sym (rw fresh refl) ∙ done in
          let (s, found, rest) =
            bind-eq-ok (copy_status sys f) (λ s. ok (true, Dict.try_emplace f.path s d)) e in
          let same = ok-injective rest in
          (sym (ap (λ x. x.0) same), inr (s, found, ap (λ x. x.1) same))
    ]

    Done : FileInfo → Dict FilePath FileStatus → Type 0
    Done f d = Listed f.path d ⊎ (contains results f.path ≡ true)

    copy_file-kept :
        (f : FileInfo) (d : Dict FilePath FileStatus) (b : Bool) (d' : Dict FilePath FileStatus)
        (p : FilePath) (s : FileStatus)
        → copy_file sys results f d ≡ ok (b, d')
        → Dict.lookup p d ≡ some s
        → Dict.lookup p d' ≡ some s
    copy_file-kept f d b d' p s done there = elim (copy_file-cases f d b d' done).1 [
      | inl (taken, same) ↦ subst (λ x. Dict.lookup p x ≡ some s) same there
      | inr (w, found, same) ↦
          subst (λ x. Dict.lookup p x ≡ some s) same (lookup-try_emplace_kept p f.path w s d there)
    ]

    copy_file-taken :
        (f : FileInfo) (d d' : Dict FilePath FileStatus)
        → copy_file sys results f d ≡ ok (true, d')
        → Done f d'
    unfolding Done
    copy_file-taken f d d' done = elim (copy_file-cases f d true d' done).1 [
      | inl (taken, same) ↦ inr taken
      | inr (w, found, same) ↦ inl (subst (Listed f.path) same (Listed-try_emplace f.path w d))
    ]

    -- A status stood in the map before, or is found for one of the files.
    Found : List FileInfo → Dict FilePath FileStatus → FilePath → FileStatus → Type 0
    Found files before p s =
        (Dict.lookup p before ≡ some s)
        ⊎ ((f : FileInfo) × Memᴰ f files × (f.path ≡ p) × (copy_status sys f ≡ ok s))

    copy_file-Found :
        (files : List FileInfo) (before : Dict FilePath FileStatus) (f : FileInfo)
        (d : Dict FilePath FileStatus) (b : Bool) (d' : Dict FilePath FileStatus)
        → Memᴰ f files
        → copy_file sys results f d ≡ ok (b, d')
        → ((p : FilePath) (s : FileStatus) → Dict.lookup p d ≡ some s → Found files before p s)
        → (p : FilePath) (s : FileStatus) → Dict.lookup p d' ≡ some s
        → Found files before p s
    unfolding Found
    copy_file-Found files before f d b d' among done old p s there =
        elim (copy_file-cases f d b d' done).1 [
          | inl (taken, same) ↦ old p s (subst (λ x. Dict.lookup p x ≡ some s) (sym same) there)
          | inr (w, found, same) ↦
              elim (try_emplace-cases p f.path w d
                (subst (λ x. Dict.lookup p x ≡ some s) (sym same) there)) [
                  | inl stood ↦ old p s stood
                  | inr (at, is) ↦ inr (f, among, at, found ∙ ap ok is)
                ]
        ]

  -- What the copy resolver does to the files and the manifest.
  pub record Copied (t t' : Traced) : Type 0 where
    pub none_left : t'.files ≡ []
    pub listed : All (λ f. Listed f.path t'.manifest.copy_files) t.files
    pub kept :
        (p : FilePath) (s : FileStatus)
        → Dict.lookup p t.manifest.copy_files ≡ some s
        → Dict.lookup p t'.manifest.copy_files ≡ some s
    pub found :
        (p : FilePath) (s : FileStatus)
        → Dict.lookup p t'.manifest.copy_files ≡ some s
        → (Dict.lookup p t.manifest.copy_files ≡ some s)
          ⊎ ((f : FileInfo) × Memᴰ f t.files × (f.path ≡ p) × (copy_status sys f ≡ ok s))
    pub same_deb_packages : t'.manifest.deb_packages ≡ t.manifest.deb_packages
    pub same_r_packages : t'.manifest.r_packages ≡ t.manifest.r_packages

  -- When `copy_resolve` returns, no file is left, and each of its files has a status in the manifest. Statuses that
  -- stood are kept, and a new one is what `copy_status` finds for one of the files, of that path. The packages are as
  -- before.
  pub copy_resolve-Copied : (t : Traced) {t' : Traced} → copy_resolve sys t ≡ ok t' → Copied t t'
  unfolding copy_resolve Done Found
  copy_resolve-Copied t {t' = t'} done =
      let results = result_files t.manifest.copy_files in
      let (r, first, rest) =
        bind-eq-ok (erase_if (copy_file sys results) t.files t.manifest.copy_files) _ done in
      let (q, second, last) =
        bind-eq-ok (erase_if (copy_link sys) t.symlinks t.manifest.symlinks) _ rest in
      let nothing =
        erase_if_all (copy_file sys results) (λ f d b d' e. (copy_file-cases results f d b d' e).0)
          t.files t.manifest.copy_files first in
      let kept = λ (p : FilePath) (s : FileStatus).
        erase_if-Keeps (copy_file sys results) (λ d. Dict.lookup p d ≡ some s)
          (λ f d b d' e. copy_file-kept results f d b d' p s e) t.files t.manifest.copy_files
          first in
      subst (Copied t) (ok-injective last) (record {
        none_left = nothing;
        listed =
            All-map _ _ t.files
              (λ f taken. elim taken [
                | inr never ↦ elim never [ ]
                | inl (inl listed) ↦ listed
                | inl (inr result_) ↦
                    let (s, stands) = result_files-Listed t.manifest.copy_files f.path result_ in
                    (s, kept f.path s stands)
              ])
              (erase_if-accounts (copy_file sys results) (Done results) (λ f. ⊥)
                (λ f d d' e. copy_file-taken results f d d' e)
                (λ x f d b d' e old. elim old [
                  | inl (s, stands) ↦ inl (s, copy_file-kept results f d b d' x.path s e stands)
                  | inr result_ ↦ inr result_
                ])
                t.files t.manifest.copy_files first (rw nothing tt));
        kept = kept;
        found =
            erase_if-Keeps_on (copy_file sys results) (λ f. Memᴰ f t.files)
              (λ d.
                (p : FilePath) (s : FileStatus)
                → Dict.lookup p d ≡ some s
                → Found results t.files t.manifest.copy_files p s)
              (λ f d b d' among e.
                copy_file-Found results t.files t.manifest.copy_files f d b d' among e)
              t.files t.manifest.copy_files first (All-Mem t.files) (λ p s e. inl e);
        same_deb_packages = refl;
        same_r_packages = refl;
      })
