-- ===== src/Dockerfile/Copies.antt =====
-- Copying files keeps what is built, and all copied files lie in the context.
use r4r.Base.{
  Str, lit, List, [], ◌∷◌, ◌++◌, true, false, All, All-append, Bool-cases, ok, throw, ◌>>=◌,
  bind-eq-ok, ok-injective,
}
use r4r.Base.{◌≡◌, refl, sym, ◌∙◌, subst, inl, inr}
use r4r.Path.{FilePath, path_string, is_sub_path}
use r4r.Dockerfile.{DockerFileBuilder, string_join, quoted_path, copy_names, copy, run_script_once}
use r4r.Dockerfile.Logical.{is_logical, IsLogical, string_join-IsLogical}
use r4r.Dockerfile.Statements.{run_script, IsPlain}
use r4r.Dockerfile.Kept.{IsBuilt, add_command-IsBuilt, pair-IsLogical, run-IsBuilt}

module _ (relative : FilePath → FilePath → FilePath) where
  pub copy_names_outside :
      (src : FilePath) (srcs : List FilePath) (b : DockerFileBuilder)
      → is_sub_path src b.context_dir ≡ false
      → copy_names relative (src ∷ srcs) b
        ≡ throw (
            lit "Source path "
            ++ (quoted_path src
                ++ (lit " is not a subpath of context directory " ++ quoted_path b.context_dir)))
  unfolding copy_names
  copy_names_outside src srcs b outside = rw outside refl

  pub copy_names_inside :
      (src : FilePath) (srcs : List FilePath) (b : DockerFileBuilder)
      → is_sub_path src b.context_dir ≡ true
      → copy_names relative (src ∷ srcs) b ≡ (
          copy_names relative srcs (record b { copied_files = b.copied_files ++ src ∷ [] }) >>= λ r.
          ok (path_string (relative src b.context_dir) ∷ r.0, r.1))
  unfolding copy_names
  copy_names_inside src srcs b sub = rw sub refl

  copy_names-IsBuilt :
      (base : Str) (context : FilePath) (srcs : List FilePath) (b : DockerFileBuilder)
      {r : List Str × DockerFileBuilder}
      → copy_names relative srcs b ≡ ok r
      → All (λ src. IsLogical (path_string (relative src context))) srcs
      → IsBuilt base context b
      → All IsLogical r.0 × IsBuilt base context r.1
  unfolding copy_names
  copy_names-IsBuilt base context [] b {r = r} done plain built =
      subst (λ (x : List Str × DockerFileBuilder). All IsLogical x.0 × IsBuilt base context x.1)
        (ok-injective done) (tt, built)
  copy_names-IsBuilt base context (src ∷ srcs) b {r = r} done (h, plain) built =
      elim (Bool-cases (is_sub_path src b.context_dir)) [
        | inr outside ↦ let wrong = copy_names_outside src srcs b outside in absurd (cc)
        | inl sub ↦
            let (q, copied, last) =
              bind-eq-ok
                (copy_names relative srcs (record b { copied_files = b.copied_files ++ src ∷ [] }))
                (λ r. ok (path_string (relative src b.context_dir) ∷ r.0, r.1))
                (sym (copy_names_inside src srcs b sub) ∙ done) in
            let below : is_sub_path src context ≡ true =
              subst (λ c. is_sub_path src c ≡ true) built.same_context sub in
            let (names, built') =
              copy_names-IsBuilt base context srcs
                (record b { copied_files = b.copied_files ++ src ∷ [] }) {r = q} copied plain
                (record {
                  same_base = built.same_base;
                  same_context = built.same_context;
                  logical = built.logical;
                  inside =
                      All-append (λ p. is_sub_path p context ≡ true) b.copied_files (src ∷ [])
                        built.inside (below, tt);
                }) in
            let h' =
              subst (λ c. IsLogical (path_string (relative src c))) (sym built.same_context) h in
            subst
              (λ (x : List Str × DockerFileBuilder). All IsLogical x.0 × IsBuilt base context x.1)
              (ok-injective last) ((h', names), built')
      ]

  pub copy-IsBuilt :
      (base : Str) (context : FilePath) (srcs : List FilePath) (dest : Str) (b : DockerFileBuilder)
      {b' : DockerFileBuilder}
      → copy relative srcs dest b ≡ ok b'
      → All (λ src. IsLogical (path_string (relative src context))) srcs
      → IsLogical dest
      → IsBuilt base context b
      → IsBuilt base context b'
  unfolding copy is_logical
  copy-IsBuilt base context srcs dest b {b' = b'} done plain k built =
      let (r, copied, last) = bind-eq-ok (copy_names relative srcs b) _ done in
      let (names, built') = copy_names-IsBuilt base context srcs b {r = r} copied plain built in
      subst (IsBuilt base context) (ok-injective last) (
        add_command-IsBuilt base context r.1
          (lit "COPY " ++ (string_join (lit " ") r.0 ++ (lit " " ++ dest)))
          (pair-IsLogical (string_join (lit " ") r.0) (lit " ") dest
            (string_join-IsLogical (lit " ") r.0 (λ t. refl) names) (λ u. refl) k)
          built')

  pub run_script_once-IsBuilt :
      (base : Str) (context : FilePath) (path : FilePath) (b : DockerFileBuilder)
      {b' : DockerFileBuilder}
      → run_script_once relative path b ≡ ok b'
      → IsPlain relative context (run_script path)
      → IsBuilt base context b
      → IsBuilt base context b'
  unfolding run_script_once is_logical
  run_script_once-IsBuilt base context path b {b' = b'} done (h, k, q) built =
      let (c, copied, last) = bind-eq-ok (copy relative (path ∷ []) (path_string path) b) _ done in
      subst (IsBuilt base context) (ok-injective last) (
        run-IsBuilt base context c
          ((lit "bash " ++ quoted_path path) ∷ (lit "rm -f " ++ quoted_path path) ∷ []) (q, (q, tt))
          (copy-IsBuilt base context (path ∷ []) (path_string path) b {b' = c} copied (h, tt) k
            built))
