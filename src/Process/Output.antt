-- ===== src/Process/Output.antt =====
-- The exit code of a process, and the output read from its pipe.
use r4r.Base.{
  ℕ, ◌≤◌, Str, List, [], ◌∷◌, ◌++◌, true, false, All, eqb, is_empty, append_assoc, append-nil, ok,
}
use r4r.Base.{◌≡◌, ◌⊎◌, refl, ap, ◌∙◌, arith}
use r4r.System.{System, Read, bytes, failed}
use r4r.Process.{status_to_exit_code, read_all_from_fd, wifexited, wifsignaled, wexitstatus, eintr}

-- The code of a process that ended is at most 255 when it exited, and between 127 and 252 when a
-- signal ended it; it is 0 only for a process that exited with 0.
pub status_to_exit_code_bounds :
    (status : ℕ)
    → (wifexited status ≡ true) ⊎ (wifsignaled status ≡ true)
    → (status_to_exit_code status ≤ 255)
      × (wifsignaled status ≡ true
          → (127 ≤ status_to_exit_code status) × (status_to_exit_code status ≤ 252))
      × (status_to_exit_code status ≡ 0 → (wifexited status ≡ true) × (wexitstatus status ≡ 0))
unfolding status_to_exit_code
status_to_exit_code_bounds status ended =
    (ground arith, λ sig. (ground arith, ground arith), λ zero_. (ground arith, ground arith))

-- What was read before the end of the file or an error, interrupted calls aside.
abbrev pub read_before_end : List Read → Str
read_before_end [] = []
read_before_end (failed errno ∷ answers) = read_before_end answers
read_before_end (bytes [] ∷ answers) = []
read_before_end (bytes (c ∷ chunk) ∷ answers) = (c ∷ chunk) ++ read_before_end answers

-- An answer after which reading goes on.
abbrev pub IsProgress : Read → Type 0
IsProgress (bytes chunk) = is_empty chunk ≡ false
IsProgress (failed errno) = eqb errno eintr ≡ true

read_all_from_fd-append :
    (sys : System) (fd : ℕ) (answers later : List Read) (result : Str)
    → All IsProgress answers
    → read_all_from_fd sys fd (answers ++ bytes [] ∷ later) result
      ≡ ok (result ++ read_before_end answers)
unfolding read_all_from_fd
read_all_from_fd-append sys fd [] later result h = rw append-nil refl
read_all_from_fd-append sys fd (failed errno ∷ answers) later result (again, h) =
    rw again (read_all_from_fd-append sys fd answers later result h)
read_all_from_fd-append sys fd (bytes [] ∷ answers) later result (more, h) = absurd (cc)
read_all_from_fd-append sys fd (bytes (c ∷ chunk) ∷ answers) later result (more, h) =
    read_all_from_fd-append sys fd answers later (result ++ (c ∷ chunk)) h
    ∙ ap ok (append_assoc result (c ∷ chunk) (read_before_end answers))

-- A pipe that is read to its end gives all that was read before, in order; reads that a signal interrupted are
-- repeated.
pub read_all_from_fd-end :
    (sys : System) (fd : ℕ) (answers later : List Read)
    → All IsProgress answers
    → read_all_from_fd sys fd (answers ++ bytes [] ∷ later) [] ≡ ok (read_before_end answers)
read_all_from_fd-end sys fd answers later h = read_all_from_fd-append sys fd answers later [] h
