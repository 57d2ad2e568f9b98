-- ===== src/Dockerfile.antt =====
-- src/dockerfile.h: the builder of a Dockerfile. `fs::relative`, which asks the system, is a parameter.
pub mod Logical
pub mod Statements
pub mod Kept
pub mod Copies
pub mod Texts
pub mod Built
pub mod Instructions
mod Tests
use r4r.Base.{
  ℕ, Str, lit, List, [], ◌∷◌, ◌++◌, Bool, true, false, not, ◌||◌, is_empty, eqb, map, Result, ok,
  throw, ◌>>=◌, if◌then◌else◌,
}
use r4r.Path.{FilePath, path_string, is_sub_path}
use r4r.Util.{escape_cmd_arg}

pub record DockerFile : Type 0 where
  pub context_dir : FilePath
  pub dockerfile : Str
  pub copied_files : List FilePath

pub record DockerFileBuilder : Type 0 where
  pub base_image : Str
  pub context_dir : FilePath
  pub commands : List Str
  pub copied_files : List FilePath

abbrev pub new_builder : Str → FilePath → DockerFileBuilder
new_builder base_image context_dir = record {
  base_image = base_image;
  context_dir = context_dir;
  commands = [];
  copied_files = [];
}

-- src/util.h: `string_join`
unfoldable pub string_join : Str → List Str → Str
string_join sep [] = []
string_join sep (x ∷ []) = x
string_join sep (x ∷ y ∷ xs) = x ++ (sep ++ string_join sep (y ∷ xs))

-- `commands_.emplace_back`
abbrev pub add_command : Str → DockerFileBuilder → DockerFileBuilder
add_command command b = record b { commands = b.commands ++ command ∷ [] }

-- A path in a stream stands in double quotes, with a backslash before a quote and a backslash.
unfoldable pub quote_chars : Str → Str
quote_chars [] = []
quote_chars (c ∷ s) =
    if eqb c b'"' || eqb c b'\\' then b'\\' ∷ c ∷ quote_chars s else c ∷ quote_chars s

abbrev pub quoted_path : FilePath → Str
quoted_path p = b'"' ∷ (quote_chars (path_string p) ++ b'"' ∷ [])

abbrev pub run_separator : Str
run_separator = lit " && \\\n  "

unfoldable pub run : List Str → DockerFileBuilder → DockerFileBuilder
run commands = add_command (lit "RUN " ++ string_join run_separator commands)

abbrev pub cmd_args : List Str → List Str
cmd_args = map (λ c. escape_cmd_arg c false true)

unfoldable pub cmd : List Str → DockerFileBuilder → DockerFileBuilder
cmd commands = add_command (lit "CMD [" ++ (string_join (lit ", ") (cmd_args commands) ++ lit "]"))

abbrev pub env_settings : List (Str × Str) → List Str
env_settings = map (λ kv. kv.0 ++ (lit "=" ++ escape_cmd_arg kv.1 true false))

unfoldable pub env : List (Str × Str) → DockerFileBuilder → DockerFileBuilder
env [] b = b
env (kv ∷ envs) b =
    add_command (lit "ENV " ++ string_join (lit " \\\n  ") (env_settings (kv ∷ envs))) b

unfoldable pub add : Str → Str → DockerFileBuilder → DockerFileBuilder
add src dest = add_command (lit "ADD " ++ (src ++ (lit " " ++ dest)))

unfoldable pub entrypoint : Str → DockerFileBuilder → DockerFileBuilder
entrypoint command = add_command (lit "ENTRYPOINT " ++ command)

unfoldable pub user : Str → DockerFileBuilder → DockerFileBuilder
user name = add_command (lit "USER " ++ name)

unfoldable pub workdir : Str → DockerFileBuilder → DockerFileBuilder
workdir path = add_command (lit "WORKDIR " ++ path)

unfoldable pub comment : Str → DockerFileBuilder → DockerFileBuilder
comment text = add_command (lit "# " ++ text)

unfoldable pub nl : DockerFileBuilder → DockerFileBuilder
nl = add_command []

module _ (relative : FilePath → FilePath → FilePath) where
  -- The loop of `copy`: the names of the files, and the builder that has copied them.
  unfoldable pub copy_names :
      List FilePath → DockerFileBuilder → Result (List Str × DockerFileBuilder)
  copy_names [] b = ok ([], b)
  copy_names (src ∷ srcs) b =
      if not (is_sub_path src b.context_dir)
      then throw (
          lit "Source path "
          ++ (quoted_path src
              ++ (lit " is not a subpath of context directory " ++ quoted_path b.context_dir)))
      else (copy_names srcs (record b { copied_files = b.copied_files ++ src ∷ [] }) >>= λ r.
          ok (path_string (relative src b.context_dir) ∷ r.0, r.1))

  unfoldable pub copy : List FilePath → Str → DockerFileBuilder → Result DockerFileBuilder
  copy srcs dest b = copy_names srcs b >>= λ r.
      ok (add_command (lit "COPY " ++ (string_join (lit " ") r.0 ++ (lit " " ++ dest))) r.1)

  unfoldable pub run_script_once : FilePath → DockerFileBuilder → Result DockerFileBuilder
  run_script_once path b = copy (path ∷ []) (path_string path) b >>= λ c.
      ok (run ((lit "bash " ++ quoted_path path) ∷ (lit "rm -f " ++ quoted_path path) ∷ []) c)

unfoldable pub build_commands : List Str → Str
build_commands [] = []
build_commands (command ∷ commands) = command ++ (lit "\n\n" ++ build_commands commands)

unfoldable pub build : DockerFileBuilder → DockerFile
build b = record {
  context_dir = b.context_dir;
  dockerfile = lit "FROM " ++ (b.base_image ++ (lit "\n" ++ build_commands b.commands));
  copied_files = b.copied_files;
}
