-- ===== src/FileTracer/Sees.antt =====
-- What an entry handler saw of the file that it left for the exit.
use r4r.Base.{ℕ, Option, none, some, Bool, false, ℤ, to_int}
use r4r.Base.{Result, ok, bind-eq-ok, list_eq, nat_eq, ◌≡◌, refl, subst}
use r4r.Path.{FilePath, parse_path}
use r4r.System.{System, exists}
use r4r.System.Memory.{read_string_from_process}
use r4r.FileTracer.{
  FileInfo, SyscallState, monostate, file, SyscallArgs, SyscallHandler, nr_open, nr_readlink,
  nr_openat, nr_execve, nr_readlinkat, nr_newfstatat, path_max, at_fdcwd,
}
use r4r.FileTracer.Handlers.{
  resolve_path_at, open_state, readlink_state, generic_open_entry, generic_readlink_entry,
  syscall_entry,
}
use r4r.FileTracer.Entries.{IsRooted, IsAdmitted, resolve_path_at-IsAdmitted}

module _ (ignore : System → FilePath → Result Bool) where
  -- What the entry saw of the file: for `open`, `openat` and `newfstatat`, whether it existed.
  abbrev pub Observed : SyscallHandler → System → FileInfo → Type 0
  Observed nr_open sys i = exists sys i.path ≡ some i.existed_before
  Observed nr_openat sys i = exists sys i.path ≡ some i.existed_before
  Observed nr_newfstatat sys i = exists sys i.path ≡ some i.existed_before
  Observed nr_execve sys i = i.existed_before ≡ false
  Observed nr_readlink sys i = i.existed_before ≡ false
  Observed nr_readlinkat sys i = i.existed_before ≡ false

  abbrev pub Sees : SyscallHandler → System → FileInfo → Type 0
  Sees h sys i = IsAdmitted ignore sys i.path × Observed h sys i

  open_entry-Sees :
      (sys : System) (pid : ℕ) (dirfd : ℤ) (path : FilePath) {i : FileInfo}
      → IsRooted sys
      → generic_open_entry ignore sys pid dirfd path ≡ ok (file i)
      → IsAdmitted ignore sys i.path × (exists sys i.path ≡ some i.existed_before)
  unfolding generic_open_entry open_state
  open_entry-Sees sys pid dirfd path {i = i} rooted done =
      let (result, found, rest) =
        bind-eq-ok (resolve_path_at ignore sys pid dirfd path) (λ r. ok (open_state sys r)) done in
      last result found rest
    where
      seen :
          (p : FilePath) (o : Option Bool)
          → IsAdmitted ignore sys p
          → exists sys p ≡ o
          → (elim o as (λ _. SyscallState) [
            | none ↦ monostate
            | some there ↦ file (record { path = p; size = none; existed_before = there })
          ])
            ≡ file i
          → IsAdmitted ignore sys i.path × (exists sys i.path ≡ some i.existed_before)
      seen p none adm asked e = absurd (cc)
      seen p (some b) adm asked e =
          let same : p ≡ i.path = cc in
          let there : b ≡ i.existed_before = cc in (subst (IsAdmitted ignore sys) same adm, cc)

      last :
          (r : Option FilePath)
          → resolve_path_at ignore sys pid dirfd path ≡ ok r
          → ok (open_state sys r) ≡ ok (file i)
          → IsAdmitted ignore sys i.path × (exists sys i.path ≡ some i.existed_before)
      last none found rest = absurd (cc)
      last (some p) found rest =
          let adm = resolve_path_at-IsAdmitted ignore sys pid dirfd path rooted found in
          seen p (exists sys p) adm refl (cc)

  readlink_entry-Sees :
      (sys : System) (pid : ℕ) (dirfd : ℤ) (path : FilePath) {i : FileInfo}
      → IsRooted sys
      → generic_readlink_entry ignore sys pid dirfd path ≡ ok (file i)
      → IsAdmitted ignore sys i.path × (i.existed_before ≡ false)
  unfolding generic_readlink_entry
  readlink_entry-Sees sys pid dirfd path {i = i} rooted done =
      let (result, found, rest) =
        bind-eq-ok (resolve_path_at ignore sys pid dirfd path) (λ r. ok (readlink_state r)) done in
      last result found rest
    where
      last :
          (r : Option FilePath)
          → resolve_path_at ignore sys pid dirfd path ≡ ok r
          → ok (readlink_state r) ≡ ok (file i)
          → IsAdmitted ignore sys i.path × (i.existed_before ≡ false)
      last none found rest = absurd (cc)
      last (some p) found rest =
          let same : p ≡ i.path = cc in
          (
            subst (IsAdmitted ignore sys) same
                (resolve_path_at-IsAdmitted ignore sys pid dirfd path rooted found),
            cc,
          )

  pub syscall_entry-Sees :
      (h : SyscallHandler) (sys : System) (pid : ℕ) (args : SyscallArgs) {i : FileInfo}
      → IsRooted sys
      → syscall_entry ignore h sys pid args ≡ ok (file i)
      → Sees h sys i
  unfolding syscall_entry
  syscall_entry-Sees nr_open sys pid args rooted done =
      let (path, read, rest) =
        bind-eq-ok (read_string_from_process sys pid args.arg0 path_max)
          (λ path. generic_open_entry ignore sys pid at_fdcwd (parse_path path)) done in
      open_entry-Sees sys pid at_fdcwd (parse_path path) rooted rest
  syscall_entry-Sees nr_openat sys pid args rooted done =
      let (path, read, rest) =
        bind-eq-ok (read_string_from_process sys pid args.arg1 path_max)
          (λ path. generic_open_entry ignore sys pid (to_int args.arg0) (parse_path path)) done in
      open_entry-Sees sys pid (to_int args.arg0) (parse_path path) rooted rest
  syscall_entry-Sees nr_newfstatat sys pid args rooted done =
      let (path, read, rest) =
        bind-eq-ok (read_string_from_process sys pid args.arg1 path_max)
          (λ path. generic_open_entry ignore sys pid (to_int args.arg0) (parse_path path)) done in
      open_entry-Sees sys pid (to_int args.arg0) (parse_path path) rooted rest
  syscall_entry-Sees nr_execve sys pid args rooted done =
      let (path, read, rest) =
        bind-eq-ok (read_string_from_process sys pid args.arg0 path_max)
          (λ path. generic_readlink_entry ignore sys pid at_fdcwd (parse_path path)) done in
      readlink_entry-Sees sys pid at_fdcwd (parse_path path) rooted rest
  syscall_entry-Sees nr_readlink sys pid args rooted done =
      let (path, read, rest) =
        bind-eq-ok (read_string_from_process sys pid args.arg0 path_max)
          (λ path. generic_readlink_entry ignore sys pid at_fdcwd (parse_path path)) done in
      readlink_entry-Sees sys pid at_fdcwd (parse_path path) rooted rest
  syscall_entry-Sees nr_readlinkat sys pid args rooted done =
      let (path, read, rest) =
        bind-eq-ok (read_string_from_process sys pid args.arg1 path_max)
          (λ path. generic_readlink_entry ignore sys pid (to_int args.arg0) (parse_path path))
          done in
      readlink_entry-Sees sys pid (to_int args.arg0) (parse_path path) rooted rest
