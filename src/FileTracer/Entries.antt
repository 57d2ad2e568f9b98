-- ===== src/FileTracer/Entries.antt =====
-- What an entry leaves for its exit: an absolute path that is not ignored, and whether it existed.
use r4r.Base.{ℕ, Option, none, some, Bool, true, false, [], ◌∷◌, ℤ}
use r4r.Base.{Result, ok, throw, bind-eq-ok, if◌then◌else◌, list_eq, nat_eq, ◌≡◌, refl, subst}
use r4r.Path.{FilePath, is_absolute, join, lexically_normal}
use r4r.Path.Laws.{is_absolute-join, is_absolute-lexically_normal}
use r4r.System.{System, absolute, absolute_or_throw, get_process_cwd, resolve_fd_filename}
use r4r.FileTracer.{is_at_fdcwd}
use r4r.FileTracer.Handlers.{admit, below_dir, below_absolute, resolve_relative, resolve_path_at}

-- getcwd(3) answers with an absolute path.
abbrev pub IsRooted : System → Type 0
IsRooted sys = (d : FilePath) → sys.current_path ≡ some d → is_absolute d ≡ true

absolute-is_absolute :
    (sys : System) (p : FilePath) {a : FilePath}
    → IsRooted sys
    → absolute sys p ≡ some a
    → is_absolute a ≡ true
unfolding absolute
absolute-is_absolute sys [] rooted done = absurd (cc)
absolute-is_absolute sys (c ∷ p) {a = a} rooted done =
    from (is_absolute (c ∷ p)) sys.current_path refl refl done
  where
    from :
        (b : Bool) (o : Option FilePath)
        → is_absolute (c ∷ p) ≡ b
        → sys.current_path ≡ o
        → (if b
            then some (c ∷ p)
            else elim o as (λ _. Option FilePath) [ none ↦ none | some d ↦ some (join d (c ∷ p)) ])
          ≡ some a
        → is_absolute a ≡ true
    from true o abs found done = let e : c ∷ p ≡ a = cc in subst (λ q. is_absolute q ≡ true) e abs
    from false none rel found done = absurd (cc)
    from false (some d) rel found done =
        let e : join d (c ∷ p) ≡ a = cc in
        subst (λ q. is_absolute q ≡ true) e (is_absolute-join d (c ∷ p) (rooted d found))

absolute_or_throw-is_absolute :
    (sys : System) (p : FilePath) {a : FilePath}
    → IsRooted sys
    → absolute_or_throw sys p ≡ ok a
    → is_absolute a ≡ true
unfolding absolute_or_throw
absolute_or_throw-is_absolute sys p {a = a} rooted done = from (absolute sys p) refl done
  where
    from :
        (o : Option FilePath)
        → absolute sys p ≡ o
        → (elim o as (λ _. Result FilePath) [
          | none ↦ throw (sys.filesystem_error p)
          | some b ↦ ok b
        ])
          ≡ ok a
        → is_absolute a ≡ true
    from none made done = absurd (cc)
    from (some b) made done = absolute-is_absolute sys p rooted (cc)

below_dir-is_absolute :
    (sys : System) (path : FilePath) (dir : Option FilePath) {r : FilePath}
    → IsRooted sys
    → below_dir sys path dir ≡ ok (some r)
    → is_absolute r ≡ true
unfolding below_dir below_absolute
below_dir-is_absolute sys path none rooted done = absurd (cc)
below_dir-is_absolute sys path (some d) {r = r} rooted done = from (absolute sys d) done
  where
    from : (o : Option FilePath) → below_absolute sys path o ≡ ok (some r) → is_absolute r ≡ true
    from none done = absurd (cc)
    from (some a) done =
        let (b, made, rest) =
          bind-eq-ok (absolute_or_throw sys (join a path)) (λ r. ok (some r)) done in
        let e : b ≡ r = cc in
        subst (λ q. is_absolute q ≡ true) e
          (absolute_or_throw-is_absolute sys (join a path) rooted made)

module _ (ignore : System → FilePath → Result Bool) where
  -- The path is absolute, and the query did not ignore it.
  abbrev pub IsAdmitted : System → FilePath → Type 0
  IsAdmitted sys p = (is_absolute p ≡ true) × (ignore sys p ≡ ok false)

  admit-IsAdmitted :
      (sys : System) (q : FilePath) {p : FilePath}
      → is_absolute q ≡ true
      → admit ignore sys q ≡ ok (some p)
      → IsAdmitted sys p
  unfolding admit
  admit-IsAdmitted sys q {p = p} abs done =
      let (ignored, asked, rest) =
        bind-eq-ok (ignore sys (lexically_normal q))
          (λ ignored. ok (if ignored then none else some (lexically_normal q))) done in
      kept ignored asked rest
    where
      kept :
          (b : Bool)
          → ignore sys (lexically_normal q) ≡ ok b
          → ok (if b then none else some (lexically_normal q)) ≡ ok (some p)
          → IsAdmitted sys p
      kept true asked rest = absurd (cc)
      kept false asked rest =
          let e : lexically_normal q ≡ p = cc in
          subst (IsAdmitted sys) e (is_absolute-lexically_normal q abs, asked)

  pub resolve_path_at-IsAdmitted :
      (sys : System) (pid : ℕ) (dirfd : ℤ) (path : FilePath) {p : FilePath}
      → IsRooted sys
      → resolve_path_at ignore sys pid dirfd path ≡ ok (some p)
      → IsAdmitted sys p
  unfolding resolve_path_at resolve_relative
  resolve_path_at-IsAdmitted sys pid dirfd path {p = p} rooted done =
      let (result, found, rest) =
        bind-eq-ok
          (if is_absolute path then ok (some path) else resolve_relative sys pid dirfd path)
          (λ result. elim result as (λ _. Result (Option FilePath)) [
            | none ↦ ok none
            | some q ↦ admit ignore sys q
          ])
          done in
      last result found rest
    where
      behind :
          (q : FilePath) (b : Bool)
          → is_absolute path ≡ b
          → (if b then ok (some path) else resolve_relative sys pid dirfd path) ≡ ok (some q)
          → is_absolute q ≡ true
      behind q true abs found = let e : path ≡ q = cc in subst (λ q. is_absolute q ≡ true) e abs
      behind q false rel found =
          let (dir, asked, rest) =
            bind-eq-ok
              (if is_at_fdcwd dirfd
                then get_process_cwd sys pid
                else ok (resolve_fd_filename sys pid dirfd))
              (below_dir sys path) found in
          below_dir-is_absolute sys path dir rooted rest

      last :
          (result : Option FilePath)
          → (if is_absolute path then ok (some path) else resolve_relative sys pid dirfd path)
            ≡ ok result
          → (elim result as (λ _. Result (Option FilePath)) [
            | none ↦ ok none
            | some q ↦ admit ignore sys q
          ])
            ≡ ok (some p)
          → IsAdmitted sys p
      last none found rest = absurd (cc)
      last (some q) found rest =
          admit-IsAdmitted sys q (behind q (is_absolute path) refl found) rest
