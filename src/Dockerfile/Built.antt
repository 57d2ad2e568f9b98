-- ===== src/Dockerfile/Built.antt =====
-- What every call of the builder keeps.
use r4r.Base.{Str, lit, List, [], ◌∷◌, false, All, ok, bind-eq-ok, ok-injective}
use r4r.Base.{◌≡◌, refl, subst}
use r4r.Path.{FilePath}
use r4r.Dockerfile.{
  DockerFileBuilder, string_join, cmd, cmd_args, env, env_settings, add, entrypoint, user, workdir,
  comment, nl,
}
use r4r.Dockerfile.Logical.{is_logical, is_logical-append, string_join-IsLogical}
use r4r.Dockerfile.Statements.{
  Statement, run_, run_script, cmd_, env_, add_, copy_, entrypoint_, user_, workdir_, comment_, nl_,
  apply, apply_all, IsPlain,
}
use r4r.Dockerfile.Kept.{
  IsBuilt, add_command-IsBuilt, pair-IsLogical, run-IsBuilt, cmd-IsLogical, env-IsLogical,
}
use r4r.Dockerfile.Copies.{copy-IsBuilt, run_script_once-IsBuilt}

module _ (relative : FilePath → FilePath → FilePath) where
  env-IsBuilt :
      (base : Str) (context : FilePath) (b : DockerFileBuilder) (envs : List (Str × Str))
      → IsPlain relative context (env_ envs)
      → IsBuilt base context b
      → IsBuilt base context (env envs b)
  unfolding env is_logical
  env-IsBuilt base context b [] plain built = built
  env-IsBuilt base context b (kv ∷ envs) plain built =
      add_command-IsBuilt base context b _
        (string_join-IsLogical (lit " \\\n  ") (env_settings (kv ∷ envs)) (λ t. refl)
          (env-IsLogical (kv ∷ envs) plain))
        built

  apply-IsBuilt :
      (base : Str) (context : FilePath) (s : Statement) (b : DockerFileBuilder)
      {b' : DockerFileBuilder}
      → apply relative s b ≡ ok b'
      → IsPlain relative context s
      → IsBuilt base context b
      → IsBuilt base context b'
  unfolding cmd add entrypoint user workdir comment nl is_logical
  apply-IsBuilt base context (run_ commands) b done plain built =
      subst (IsBuilt base context) (ok-injective done)
        (run-IsBuilt base context b commands plain built)
  apply-IsBuilt base context (run_script path) b {b' = b'} done plain built =
      run_script_once-IsBuilt relative base context path b {b' = b'} done plain built
  apply-IsBuilt base context (cmd_ commands) b done plain built =
      subst (IsBuilt base context) (ok-injective done) (
        add_command-IsBuilt base context b _
          (is_logical-append false (string_join (lit ", ") (cmd_args commands)) (lit "]") (
            string_join-IsLogical (lit ", ") (cmd_args commands) (λ t. refl)
              (cmd-IsLogical commands plain)))
          built)
  apply-IsBuilt base context (env_ envs) b done plain built =
      subst (IsBuilt base context) (ok-injective done) (env-IsBuilt base context b envs plain built)
  apply-IsBuilt base context (add_ src dest) b done (h, k) built =
      subst (IsBuilt base context) (ok-injective done) (
        add_command-IsBuilt base context b _ (pair-IsLogical src (lit " ") dest h (λ u. refl) k)
          built)
  apply-IsBuilt base context (copy_ srcs dest) b {b' = b'} done (h, k) built =
      copy-IsBuilt relative base context srcs dest b {b' = b'} done h k built
  apply-IsBuilt base context (entrypoint_ command) b done plain built =
      subst (IsBuilt base context) (ok-injective done)
        (add_command-IsBuilt base context b _ plain built)
  apply-IsBuilt base context (user_ name) b done plain built =
      subst (IsBuilt base context) (ok-injective done)
        (add_command-IsBuilt base context b _ plain built)
  apply-IsBuilt base context (workdir_ path) b done plain built =
      subst (IsBuilt base context) (ok-injective done)
        (add_command-IsBuilt base context b _ plain built)
  apply-IsBuilt base context (comment_ text) b done plain built =
      subst (IsBuilt base context) (ok-injective done)
        (add_command-IsBuilt base context b _ plain built)
  apply-IsBuilt base context nl_ b done plain built =
      subst (IsBuilt base context) (ok-injective done)
        (add_command-IsBuilt base context b [] refl built)

  pub apply_all-IsBuilt :
      (base : Str) (context : FilePath) (statements : List Statement) (b : DockerFileBuilder)
      {b' : DockerFileBuilder}
      → apply_all relative statements b ≡ ok b'
      → All (IsPlain relative context) statements
      → IsBuilt base context b
      → IsBuilt base context b'
  apply_all-IsBuilt base context [] b done plain built =
      subst (IsBuilt base context) (ok-injective done) built
  apply_all-IsBuilt base context (s ∷ statements) b {b' = b'} done (plain, rest) built =
      let (c, first, later) =
        bind-eq-ok (apply relative s b) (apply_all relative statements) done in
      apply_all-IsBuilt base context statements c {b' = b'} later rest
        (apply-IsBuilt base context s b {b' = c} first plain built)
