-- ===== src/Dockerfile/Kept.antt =====
-- What the calls of the builder keep, and a new command.
use r4r.Base.{Str, lit, List, [], ◌∷◌, ◌++◌, true, false, All, All-append}
use r4r.Base.{◌≡◌, refl, ◌∙◌}
use r4r.Path.{FilePath, is_sub_path}
use r4r.Util.{escape_cmd_arg}
use r4r.Dockerfile.{
  DockerFileBuilder, string_join, add_command, run_separator, run, cmd_args, env_settings,
}
use r4r.Dockerfile.Logical.{
  is_logical, IsLogical, IsOneLine, is_logical-append, string_join-IsLogical,
  escape_cmd_arg-IsLogical,
}

-- All that a builder keeps: its commands are logical lines, and its files lie in the context.
pub record IsBuilt (base : Str) (context : FilePath) (b : DockerFileBuilder) : Type 0 where
  pub same_base : b.base_image ≡ base
  pub same_context : b.context_dir ≡ context
  pub logical : All IsLogical b.commands
  pub inside : All (λ p. is_sub_path p context ≡ true) b.copied_files

pub add_command-IsBuilt :
    (base : Str) (context : FilePath) (b : DockerFileBuilder) (command : Str)
    → IsLogical command
    → IsBuilt base context b
    → IsBuilt base context (add_command command b)
add_command-IsBuilt base context b command h built = record {
  same_base = built.same_base;
  same_context = built.same_context;
  logical = All-append IsLogical b.commands (command ∷ []) built.logical (h, tt);
  inside = built.inside;
}

pub pair-IsLogical :
    (s sep t : Str)
    → IsLogical s
    → ((u : Str) → is_logical false (sep ++ u) ≡ is_logical false u)
    → IsLogical t
    → IsLogical (s ++ (sep ++ t))
pair-IsLogical s sep t h through k = is_logical-append false s (sep ++ t) h ∙ (through t ∙ k)

pub run-IsBuilt :
    (base : Str) (context : FilePath) (b : DockerFileBuilder) (commands : List Str)
    → All IsLogical commands
    → IsBuilt base context b
    → IsBuilt base context (run commands b)
unfolding run is_logical
run-IsBuilt base context b commands plain built =
    add_command-IsBuilt base context b (lit "RUN " ++ string_join run_separator commands)
      (string_join-IsLogical run_separator commands (λ t. refl) plain) built

pub cmd-IsLogical :
    (commands : List Str) → All IsOneLine commands → All IsLogical (cmd_args commands)
cmd-IsLogical [] plain = tt
cmd-IsLogical (c ∷ commands) (one, plain) =
    (escape_cmd_arg-IsLogical c false true one, cmd-IsLogical commands plain)

pub env-IsLogical :
    (envs : List (Str × Str))
    → All (λ (kv : Str × Str). IsLogical kv.0 × IsOneLine kv.1) envs
    → All IsLogical (env_settings envs)
unfolding is_logical
env-IsLogical [] plain = tt
env-IsLogical ((k, v) ∷ envs) ((h, one), plain) = (
  pair-IsLogical k (lit "=") (escape_cmd_arg v true false) h (λ u. refl)
      (escape_cmd_arg-IsLogical v true false one),
  env-IsLogical envs plain,
)
