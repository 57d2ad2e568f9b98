-- ===== src/Dockerfile/Texts.antt =====
-- The text that each call of the builder stands for, and that the calls add these texts in order.
use r4r.Base.{
  Str, lit, List, [], ◌∷◌, ◌++◌, true, false, map, concat, append-nil, append_assoc, Bool-cases, ok,
  bind-eq-ok, ok-injective,
}
use r4r.Base.{◌≡◌, refl, sym, ap, ◌∙◌, subst, inl, inr}
use mathlib.Core.Path.{ap₂}
use r4r.Path.{FilePath, path_string, is_sub_path}
use r4r.Util.{escape_cmd_arg}
use r4r.Dockerfile.{
  DockerFileBuilder, add_command, string_join, quoted_path, run, cmd, cmd_args, env, env_settings,
  add, entrypoint, user, workdir, comment, nl, copy_names, copy, run_script_once,
}
use r4r.Dockerfile.Statements.{
  Statement, run_, run_script, cmd_, env_, add_, copy_, entrypoint_, user_, workdir_, comment_, nl_,
  apply, apply_all,
}
use r4r.Dockerfile.Copies.{copy_names_inside, copy_names_outside}

-- The separator stands before every text but the first.
abbrev joined : Str → List Str → Str
joined sep [] = []
joined sep (x ∷ xs) = x ++ concat (map (λ y. sep ++ y) xs)

string_join-joined : (sep : Str) (xs : List Str) → string_join sep xs ≡ joined sep xs
unfolding string_join
string_join-joined sep [] = refl
string_join-joined sep (x ∷ []) = sym (append-nil x)
string_join-joined sep (x ∷ y ∷ xs) =
    ap (λ t. x ++ (sep ++ t)) (string_join-joined sep (y ∷ xs))
    ∙ ap (λ t. x ++ t) (sym (append_assoc sep y (concat (map (λ z. sep ++ z) xs))))

-- The files that a call names to be copied.
abbrev pub sources : Statement → List FilePath
sources (run_script path) = path ∷ []
sources (copy_ srcs dest) = srcs
sources _ = []

-- What a call turns `b` into, `b'`, when it adds the texts and the files.
pub record Adds (texts : List Str) (files : List FilePath) (b b' : DockerFileBuilder) : Type 0 where
  pub commands : b'.commands ≡ b.commands ++ texts
  pub copied : b'.copied_files ≡ b.copied_files ++ files
  pub context : b'.context_dir ≡ b.context_dir

Adds-command :
    (b : DockerFileBuilder) {text text' : Str}
    → text ≡ text'
    → Adds (text' ∷ []) [] b (add_command text b)
Adds-command b same = record {
  commands = ap (λ t. b.commands ++ t ∷ []) same;
  copied = sym (append-nil b.copied_files);
  context = refl;
}

Adds-nothing : (b : DockerFileBuilder) → Adds [] [] b b
Adds-nothing b = record {
  commands = sym (append-nil b.commands);
  copied = sym (append-nil b.copied_files);
  context = refl;
}

Adds-then :
    {ts ts' : List Str} {fs fs' : List FilePath} {b c d : DockerFileBuilder}
    → Adds ts fs b c
    → Adds ts' fs' c d
    → Adds (ts ++ ts') (fs ++ fs') b d
Adds-then {ts} {ts'} {fs} {fs'} {b} first later = record {
  commands = later.commands ∙ (ap (λ t. t ++ ts') first.commands ∙ append_assoc b.commands ts ts');
  copied = later.copied ∙ (ap (λ t. t ++ fs') first.copied ∙ append_assoc b.copied_files fs fs');
  context = later.context ∙ first.context;
}

Adds-last :
    {ts : List Str} {fs : List FilePath} {b c : DockerFileBuilder} {text text' : Str}
    → Adds ts fs b c
    → text ≡ text'
    → Adds (ts ++ text' ∷ []) fs b (add_command text c)
Adds-last {ts} {b = b} {c} adds same = record {
  commands = ap₂ (λ s t. s ++ t ∷ []) adds.commands same ∙ append_assoc b.commands ts _;
  copied = adds.copied;
  context = adds.context;
}

module _ (relative : FilePath → FilePath → FilePath) where
  -- The name of a file in the context.
  abbrev in_context : FilePath → FilePath → Str
  in_context context src = path_string (relative src context)

  abbrev script_commands : FilePath → List Str
  script_commands path = (lit "bash " ++ quoted_path path) ∷ (lit "rm -f " ++ quoted_path path) ∷ []

  abbrev script_text : FilePath → Str
  script_text path =
      lit "RUN bash " ++ (quoted_path path ++ (lit " && \\\n  rm -f " ++ quoted_path path))

  -- The commands that a call adds, written out.
  abbrev pub texts : FilePath → Statement → List Str
  texts context (run_ commands) = (lit "RUN " ++ joined (lit " && \\\n  ") commands) ∷ []
  texts context (run_script path) =
      (lit "COPY " ++ (in_context context path ++ (lit " " ++ path_string path)))
      ∷ script_text path
      ∷ []
  texts context (cmd_ commands) =
      (lit "CMD ["
        ++ (joined (lit ", ") (map (λ c. escape_cmd_arg c false true) commands) ++ lit "]"))
      ∷ []
  texts context (env_ []) = []
  texts context (env_ (kv ∷ envs)) =
      (lit "ENV "
        ++ joined (lit " \\\n  ") (
            map (λ (s : Str × Str). s.0 ++ (lit "=" ++ escape_cmd_arg s.1 true false)) (kv ∷ envs)))
      ∷ []
  texts context (add_ src dest) = (lit "ADD " ++ (src ++ (lit " " ++ dest))) ∷ []
  texts context (copy_ srcs dest) =
      (lit "COPY " ++ (joined (lit " ") (map (in_context context) srcs) ++ (lit " " ++ dest))) ∷ []
  texts context (entrypoint_ command) = (lit "ENTRYPOINT " ++ command) ∷ []
  texts context (user_ name) = (lit "USER " ++ name) ∷ []
  texts context (workdir_ path) = (lit "WORKDIR " ++ path) ∷ []
  texts context (comment_ text) = (lit "# " ++ text) ∷ []
  texts context nl_ = [] ∷ []

  copy_names-Adds :
      (srcs : List FilePath) (b : DockerFileBuilder) {r : List Str × DockerFileBuilder}
      → copy_names relative srcs b ≡ ok r
      → (r.0 ≡ map (in_context b.context_dir) srcs) × Adds [] srcs b r.1
  unfolding copy_names
  copy_names-Adds [] b {r = r} done =
      subst (λ (x : List Str × DockerFileBuilder). (x.0 ≡ []) × Adds [] [] b x.1)
        (ok-injective done) (refl, Adds-nothing b)
  copy_names-Adds (src ∷ srcs) b {r = r} done = elim (Bool-cases (is_sub_path src b.context_dir)) [
    | inr outside ↦ let wrong = copy_names_outside relative src srcs b outside in absurd (cc)
    | inl sub ↦
        let c : DockerFileBuilder = record b { copied_files = b.copied_files ++ src ∷ [] } in
        let (q, rest, last) =
          bind-eq-ok (copy_names relative srcs c)
            (λ r. ok (path_string (relative src b.context_dir) ∷ r.0, r.1))
            (sym (copy_names_inside relative src srcs b sub) ∙ done) in
        let (names, adds) = copy_names-Adds srcs c {r = q} rest in
        let one : Adds [] (src ∷ []) b c = record {
          commands = sym (append-nil b.commands);
          copied = refl;
          context = refl;
        } in
        subst
          (λ (x : List Str × DockerFileBuilder).
            (x.0 ≡ map (in_context b.context_dir) (src ∷ srcs)) × Adds [] (src ∷ srcs) b x.1)
          (ok-injective last) (ap (λ t. in_context b.context_dir src ∷ t) names, Adds-then one adds)
  ]

  copy-Adds :
      (srcs : List FilePath) (dest : Str) (b : DockerFileBuilder) {b' : DockerFileBuilder}
      → copy relative srcs dest b ≡ ok b'
      → Adds (texts b.context_dir (copy_ srcs dest)) srcs b b'
  unfolding copy
  copy-Adds srcs dest b {b' = b'} done =
      let (r, copied, last) = bind-eq-ok (copy_names relative srcs b) _ done in
      let (names, adds) = copy_names-Adds srcs b {r = r} copied in
      let same =
        ap (λ t. lit "COPY " ++ (t ++ (lit " " ++ dest)))
          (string_join-joined (lit " ") r.0 ∙ ap (joined (lit " ")) names) in
      subst (Adds _ srcs b) (ok-injective last) (Adds-last adds same)

  apply-Adds :
      (s : Statement) (b : DockerFileBuilder) {b' : DockerFileBuilder}
      → apply relative s b ≡ ok b'
      → Adds (texts b.context_dir s) (sources s) b b'
  unfolding run cmd env add entrypoint user workdir comment nl run_script_once string_join
  apply-Adds (run_ commands) b done =
      subst (Adds _ [] b) (ok-injective done) (
        Adds-command b (ap (λ t. lit "RUN " ++ t) (string_join-joined (lit " && \\\n  ") commands)))
  apply-Adds (run_script path) b done =
      let (c, copied, last) = bind-eq-ok (copy relative (path ∷ []) (path_string path) b) _ done in
      let one =
        ap (λ t. lit "COPY " ++ (t ++ (lit " " ++ path_string path)))
          (append-nil (in_context b.context_dir path)) in
      let adds = copy-Adds (path ∷ []) (path_string path) b {b' = c} copied in
      subst (Adds _ (path ∷ []) b) (ok-injective last) (
        subst
          (λ (t : Str).
            Adds (t ∷ script_text path ∷ []) (path ∷ []) b (run (script_commands path) c))
          one (Adds-last adds refl))
  apply-Adds (cmd_ commands) b done = subst (Adds _ [] b) (ok-injective done) (
      Adds-command b (
        ap (λ t. lit "CMD [" ++ (t ++ lit "]"))
          (string_join-joined (lit ", ") (cmd_args commands))))
  apply-Adds (env_ []) b done = subst (Adds [] [] b) (ok-injective done) (Adds-nothing b)
  apply-Adds (env_ (kv ∷ envs)) b done = subst (Adds _ [] b) (ok-injective done) (
      Adds-command b
        (ap (λ t. lit "ENV " ++ t) (string_join-joined (lit " \\\n  ") (env_settings (kv ∷ envs)))))
  apply-Adds (add_ src dest) b done = subst (Adds _ [] b) (ok-injective done) (Adds-command b refl)
  apply-Adds (copy_ srcs dest) b {b' = b'} done = copy-Adds srcs dest b {b' = b'} done
  apply-Adds (entrypoint_ command) b done =
      subst (Adds _ [] b) (ok-injective done) (Adds-command b refl)
  apply-Adds (user_ name) b done = subst (Adds _ [] b) (ok-injective done) (Adds-command b refl)
  apply-Adds (workdir_ path) b done = subst (Adds _ [] b) (ok-injective done) (Adds-command b refl)
  apply-Adds (comment_ text) b done = subst (Adds _ [] b) (ok-injective done) (Adds-command b refl)
  apply-Adds nl_ b done = subst (Adds _ [] b) (ok-injective done) (Adds-command b refl)

  pub apply_all-Adds :
      (statements : List Statement) (b : DockerFileBuilder) {b' : DockerFileBuilder}
      → apply_all relative statements b ≡ ok b'
      → Adds (concat (map (texts b.context_dir) statements)) (concat (map sources statements)) b b'
  apply_all-Adds [] b done = subst (Adds [] [] b) (ok-injective done) (Adds-nothing b)
  apply_all-Adds (s ∷ statements) b {b' = b'} done =
      let (c, first, later) =
        bind-eq-ok (apply relative s b) (apply_all relative statements) done in
      let one = apply-Adds s b {b' = c} first in
      Adds-then one (
        subst (λ d. Adds (concat (map (texts d) statements)) (concat (map sources statements)) c b')
          one.context (apply_all-Adds statements c {b' = b'} later))
