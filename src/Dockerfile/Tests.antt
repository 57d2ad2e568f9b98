-- ===== src/Dockerfile/Tests.antt =====
-- A file with a call of each kind.
use r4r.Base.{lit, List, [], ◌∷◌}
use r4r.Path.{FilePath}
use r4r.Dockerfile.{DockerFileBuilder}
use r4r.Dockerfile.Statements.{Statement, run_, run_script, cmd_, env_, comment_, nl_}

abbrev context : FilePath
context = lit "/" ∷ lit "o" ∷ []

abbrev script : FilePath
script = lit "/" ∷ lit "o" ∷ lit "s" ∷ []

abbrev calls : List Statement
calls =
    comment_ (lit "env")
    ∷ env_ ((lit "LANG", lit "C") ∷ (lit "P", lit "a b") ∷ [])
    ∷ nl_
    ∷ run_ (lit "a" ∷ lit "b" ∷ [])
    ∷ run_script script
    ∷ cmd_ (lit "R" ∷ lit "x" ∷ [])
    ∷ []

abbrev built : DockerFileBuilder
built = record {
  base_image = lit "ubuntu";
  context_dir = context;
  commands =
      lit "# env"
      ∷ lit "ENV LANG=C \\\n  P='a b'"
      ∷ []
      ∷ lit "RUN a && \\\n  b"
      ∷ lit "COPY s /o/s"
      ∷ lit "RUN bash \"/o/s\" && \\\n  rm -f \"/o/s\""
      ∷ lit "CMD [\"R\", \"x\"]"
      ∷ [];
  copied_files = script ∷ [];
}
