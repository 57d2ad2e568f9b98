-- ===== src/FileTracer/Effects.antt =====
-- What the exit of a call can do to the tracer: nothing, one file, or one link.
use r4r.Base.{ℕ, Option, none, some, Bool, true, false, ℤ, pos, negsuc}
use r4r.Base.{
  Result, ok, ◌>>=◌, bind-eq-ok, if◌then◌else◌, list_eq, nat_eq, ◌≡◌, refl, ◌⊎◌, inl, inr,
}
use r4r.Path.{FilePath}
use r4r.System.{System}
use r4r.FileTracer.{
  FileInfo, SyscallState, monostate, file, FileTracer, SyscallHandler, nr_open, nr_readlink,
  nr_openat, nr_execve, nr_readlinkat, nr_newfstatat, generic_open_exit, syscall_newfstatat_exit,
  syscall_execve_exit, register_file, registered_path, add_file, measure,
}
use r4r.FileTracer.Handlers.{syscall_exit, generic_readlink_exit, add_link}

-- The info that the exit handler hands to `register_file`.
abbrev pub Registers : SyscallHandler → FileInfo → FileInfo → Type 0
Registers nr_execve s i = i ≡ record s { existed_before = true }
Registers nr_readlink s i = ⊥
Registers nr_readlinkat s i = ⊥
Registers nr_open s i = i ≡ s
Registers nr_openat s i = i ≡ s
Registers nr_newfstatat s i = i ≡ s

-- A file was recorded at an exit.
pub record IsAdded (sys : System) (h : SyscallHandler) (st : SyscallState) (t t' : FileTracer)
    : Type 0 where
  pub left : FileInfo
  pub info : FileInfo
  pub size : Option ℕ
  pub from : st ≡ file left
  pub same : Registers h left info
  pub after : t' ≡ add_file (registered_path sys info.path) size info t

register_file-ok :
    (sys : System) (info : FileInfo) (t : FileTracer) {t' : FileTracer}
    → register_file sys info t ≡ ok t'
    → (size : Option ℕ) × (t' ≡ add_file (registered_path sys info.path) size info t)
unfolding register_file
register_file-ok sys info t done =
    let (size, measured, rest) =
      bind-eq-ok (measure sys (registered_path sys info.path) info)
        (λ size. ok (add_file (registered_path sys info.path) size info t)) done in
    (size, cc)

-- An optional record.
when-ok :
    (b : Bool) (sys : System) (info : FileInfo) (t : FileTracer) {t' : FileTracer}
    → (if b then register_file sys info t else ok t) ≡ ok t'
    → (t' ≡ t) ⊎ ((size : Option ℕ) × (t' ≡ add_file (registered_path sys info.path) size info t))
when-ok true sys info t done = inr (register_file-ok sys info t done)
when-ok false sys info t done = inl (cc)

-- What an exit handler that returned normally did.
pub data Effect (ignore : System → FilePath → Result Bool) (sys : System) (h : SyscallHandler)
    (st : SyscallState) (t t' : FileTracer) : Type 0 where
  unchanged : t' ≡ t → Effect ignore sys h st t t'
  added : IsAdded sys h st t t' → Effect ignore sys h st t t'
  linked :
      (p target : FilePath)
      → ignore sys target ≡ ok false
      → t' ≡ add_link p target t
      → Effect ignore sys h st t t'

module _ (ignore : System → FilePath → Result Bool) where
  added_when :
      (b : Bool) (sys : System) (h : SyscallHandler) (left info : FileInfo) (t : FileTracer)
      {t' : FileTracer}
      → Registers h left info
      → (if b then register_file sys info t else ok t) ≡ ok t'
      → Effect ignore sys h (file left) t t'
  added_when b sys h left info t same done = elim (when-ok b sys info t done) [
    | inl none_ ↦ unchanged none_
    | inr (size, after) ↦
        added (record {
          left = left;
          info = info;
          size = size;
          from = refl;
          same = same;
          after = after;
        })
  ]

  generic_open_exit-Effect :
      (sys : System) (h : SyscallHandler) (pid : ℕ) (ret : ℤ) (err : Bool) (st : SyscallState)
      (t : FileTracer) {t' : FileTracer}
      → ((i : FileInfo) → Registers h i i)
      → generic_open_exit sys pid ret err st t ≡ ok t'
      → Effect ignore sys h st t t'
  unfolding generic_open_exit
  generic_open_exit-Effect sys h pid ret true st t same done = unchanged (cc)
  generic_open_exit-Effect sys h pid ret false monostate t same done = unchanged (cc)
  generic_open_exit-Effect sys h pid (negsuc n) false (file info) t same done = unchanged (cc)
  generic_open_exit-Effect sys h pid (pos n) false (file info) t same done =
      added_when _ sys h info info t (same info) done

  generic_readlink_exit-Effect :
      (sys : System) (h : SyscallHandler) (err : Bool) (st : SyscallState) (t : FileTracer)
      {t' : FileTracer}
      → generic_readlink_exit ignore sys err st t ≡ ok t'
      → Effect ignore sys h st t t'
  unfolding generic_readlink_exit
  generic_readlink_exit-Effect sys h true st t done = unchanged (cc)
  generic_readlink_exit-Effect sys h false monostate t done = unchanged (cc)
  generic_readlink_exit-Effect sys h false (file info) t {t' = t'} done =
      read (sys.read_symlink info.path) done
    where
      finish :
          (target : FilePath) (ignored : Bool)
          → ignore sys target ≡ ok ignored
          → ok (if ignored then t else add_link info.path target t) ≡ ok t'
          → Effect ignore sys h (file info) t t'
      finish target true asked done = unchanged (cc)
      finish target false asked done = linked info.path target asked (cc)

      read :
          (o : Option FilePath)
          → (elim o as (λ _. Result FileTracer) [
            | none ↦ ok t
            | some target ↦ ignore sys target >>= λ ignored.
                ok (if ignored then t else add_link info.path target t)
          ])
            ≡ ok t'
          → Effect ignore sys h (file info) t t'
      read none done = unchanged (cc)
      read (some target) done =
          let (ignored, asked, rest) =
            bind-eq-ok (ignore sys target)
              (λ ignored. ok (if ignored then t else add_link info.path target t)) done in
          finish target ignored asked rest

  pub syscall_exit-Effect :
      (h : SyscallHandler) (sys : System) (pid : ℕ) (ret : ℤ) (err : Bool) (st : SyscallState)
      (t : FileTracer) {t' : FileTracer}
      → syscall_exit ignore h sys pid ret err st t ≡ ok t'
      → Effect ignore sys h st t t'
  unfolding syscall_exit syscall_execve_exit syscall_newfstatat_exit
  syscall_exit-Effect nr_open sys pid ret err st t done =
      generic_open_exit-Effect sys nr_open pid ret err st t (λ i. refl) done
  syscall_exit-Effect nr_openat sys pid ret err st t done =
      generic_open_exit-Effect sys nr_openat pid ret err st t (λ i. refl) done
  syscall_exit-Effect nr_readlink sys pid ret err st t done =
      generic_readlink_exit-Effect sys nr_readlink err st t done
  syscall_exit-Effect nr_readlinkat sys pid ret err st t done =
      generic_readlink_exit-Effect sys nr_readlinkat err st t done
  syscall_exit-Effect nr_execve sys pid ret true st t done = unchanged (cc)
  syscall_exit-Effect nr_execve sys pid ret false monostate t done = unchanged (cc)
  syscall_exit-Effect nr_execve sys pid ret false (file info) t done =
      added_when true sys nr_execve info (record info { existed_before = true }) t refl done
  syscall_exit-Effect nr_newfstatat sys pid ret true st t done = unchanged (cc)
  syscall_exit-Effect nr_newfstatat sys pid ret false monostate t done = unchanged (cc)
  syscall_exit-Effect nr_newfstatat sys pid ret false (file info) t done =
      added_when _ sys nr_newfstatat info info t refl done
