-- ===== src/Dockerfile/Statements.antt =====
-- Sequences of calls of the builder of a Dockerfile.
use r4r.Base.{Str, List, [], ◌∷◌, All, Result, ok, ◌>>=◌}
use r4r.Path.{FilePath, path_string}
use r4r.Dockerfile.{
  DockerFileBuilder, quoted_path, run, cmd, env, add, entrypoint, user, workdir, comment, nl, copy,
  run_script_once,
}
use r4r.Dockerfile.Logical.{IsLogical, IsOneLine}

-- A call of the builder.
pub data Statement : Type 0 where
  run_ : List Str → Statement
  run_script : FilePath → Statement
  cmd_ : List Str → Statement
  env_ : List (Str × Str) → Statement
  add_ : Str → Str → Statement
  copy_ : List FilePath → Str → Statement
  entrypoint_ : Str → Statement
  user_ : Str → Statement
  workdir_ : Str → Statement
  comment_ : Str → Statement
  nl_ : Statement

module _ (relative : FilePath → FilePath → FilePath) where
  abbrev pub apply : Statement → DockerFileBuilder → Result DockerFileBuilder
  apply (run_ commands) b = ok (run commands b)
  apply (run_script path) b = run_script_once relative path b
  apply (cmd_ commands) b = ok (cmd commands b)
  apply (env_ envs) b = ok (env envs b)
  apply (add_ src dest) b = ok (add src dest b)
  apply (copy_ srcs dest) b = copy relative srcs dest b
  apply (entrypoint_ command) b = ok (entrypoint command b)
  apply (user_ name) b = ok (user name b)
  apply (workdir_ path) b = ok (workdir path b)
  apply (comment_ text) b = ok (comment text b)
  apply nl_ b = ok (nl b)

  abbrev pub apply_all : List Statement → DockerFileBuilder → Result DockerFileBuilder
  apply_all [] b = ok b
  apply_all (s ∷ statements) b = apply s b >>= apply_all statements

  -- The texts of a statement are logical lines; values that the builder escapes need only be of one line.
  abbrev pub IsPlain : FilePath → Statement → Type 0
  IsPlain context (run_ commands) = All IsLogical commands
  IsPlain context (run_script path) =
      IsLogical (path_string (relative path context))
      × IsLogical (path_string path)
      × IsLogical (quoted_path path)
  IsPlain context (cmd_ commands) = All IsOneLine commands
  IsPlain context (env_ envs) = All (λ (kv : Str × Str). IsLogical kv.0 × IsOneLine kv.1) envs
  IsPlain context (add_ src dest) = IsLogical src × IsLogical dest
  IsPlain context (copy_ srcs dest) =
      All (λ src. IsLogical (path_string (relative src context))) srcs × IsLogical dest
  IsPlain context (entrypoint_ command) = IsLogical command
  IsPlain context (user_ name) = IsLogical name
  IsPlain context (workdir_ path) = IsLogical path
  IsPlain context (comment_ text) = IsLogical text
  IsPlain context nl_ = Unit
