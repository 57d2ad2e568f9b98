-- ===== src/Process/Tests.antt =====
-- The end of a process by a signal, and a pipe that is read in two parts.
use r4r.Base.{◌≤◌, lit, List, [], ◌∷◌, ◌++◌, true, inr, ok}
use r4r.Base.{◌≡◌, refl}
use r4r.System.{Read, bytes, failed}
use r4r.System.Tests.{sample}
use r4r.Process.{status_to_exit_code, read_all_from_fd, wifexited, wifsignaled, wexitstatus}
use r4r.Process.Output.{read_before_end, status_to_exit_code_bounds, read_all_from_fd-end}

killed : status_to_exit_code 9 ≡ 135
unfolding status_to_exit_code
killed = refl

status_to_exit_code_bounds_example :
    (status_to_exit_code 9 ≤ 255)
    × (wifsignaled 9 ≡ true → (127 ≤ status_to_exit_code 9) × (status_to_exit_code 9 ≤ 252))
    × (status_to_exit_code 9 ≡ 0 → (wifexited 9 ≡ true) × (wexitstatus 9 ≡ 0))
status_to_exit_code_bounds_example = status_to_exit_code_bounds 9 (inr refl)

abbrev two_parts : List Read
two_parts = bytes (lit "ab") ∷ failed 4 ∷ bytes (lit "c") ∷ []

read_all_from_fd-end_example :
    read_all_from_fd sample 3 (two_parts ++ bytes [] ∷ []) [] ≡ ok (read_before_end two_parts)
read_all_from_fd-end_example = read_all_from_fd-end sample 3 two_parts [] (refl, (refl, (refl, tt)))
