-- ===== src/Process.antt =====
-- src/process.h: the status that waitpid(2) reports, the end of a child process and what is read from
-- its pipes. What the system answers is a parameter.
mod Output
mod Tests
use r4r.Base.{
  ℕ, zero, suc, ◌+◌, ◌/◌, ◌%◌, Str, lit, List, [], ◌∷◌, ◌++◌, Option, none, some, Bool, true, false,
  not, ◌&&◌, eqb, ltb, is_empty, Result, ok, throw, out_of_fuel, ◌>>=◌, if◌then◌else◌, ℤ, pos,
  nat_to_string,
}
use r4r.System.{System, Read, bytes, failed, make_system_error}

-- The macros of <sys/wait.h> on Linux, for a status that is not negative.
abbrev pub wtermsig : ℕ → ℕ
wtermsig status = status % 128

abbrev pub wifexited : ℕ → Bool
wifexited status = eqb (wtermsig status) 0

abbrev pub wexitstatus : ℕ → ℕ
wexitstatus status = status / 256 % 256

abbrev pub wifsignaled : ℕ → Bool
wifsignaled status = not (eqb (wtermsig status) 0) && not (eqb (wtermsig status) 127)

abbrev pub wifstopped : ℕ → Bool
wifstopped status = eqb (status % 256) 127

abbrev pub wstopsig : ℕ → ℕ
wstopsig status = status / 256 % 256

-- errno
abbrev pub esrch : ℕ
esrch = 3

abbrev pub eintr : ℕ
eintr = 4

abbrev pub echild : ℕ
echild = 10

unfoldable pub status_to_exit_code : ℕ → ℕ
status_to_exit_code status =
    if wifexited status
    then wexitstatus status
    else if wifsignaled status
    then 126 + wtermsig status
    else status

-- What a call of waitpid gives: an error with errno, nothing yet (with WNOHANG), or the status of a
-- process.
pub data Waited : Type 0 where
  wait_failed : ℕ → Waited
  not_yet : Waited
  changed : ℕ → ℕ → Waited

abbrev waitpid_message : ℕ → Str
waitpid_message pid = lit "waitpid failed for " ++ nat_to_string pid

-- `Child::wait`
unfoldable pub wait : System → ℕ → Waited → Result ℕ
wait sys pid (wait_failed errno) = throw (make_system_error sys errno (waitpid_message pid))
wait sys pid not_yet = ok (status_to_exit_code 0)
wait sys pid (changed wpid status) = ok (status_to_exit_code status)

-- `Child::try_wait`; errno is `errno` if no call failed.
unfoldable pub try_wait : System → ℕ → ℕ → Waited → Result (Option ℕ)
try_wait sys pid errno0 (wait_failed errno) =
    throw (make_system_error sys errno (waitpid_message pid))
try_wait sys pid errno0 not_yet = ok none
try_wait sys pid errno0 (changed wpid status) =
    if eqb wpid pid
    then ok (some (status_to_exit_code status))
    else throw (make_system_error sys errno0 (waitpid_message pid))

-- `Child::read_all_from_fd`: the answers of read(2), in order. An empty answer is the end of the file.
unfoldable pub read_all_from_fd : System → ℕ → List Read → Str → Result Str
read_all_from_fd sys fd [] result = out_of_fuel
read_all_from_fd sys fd (failed errno ∷ answers) result =
    let again = read_all_from_fd sys fd answers result in
    if eqb errno eintr
    then again
    else throw (make_system_error sys errno (lit "Failed to read from pipe: " ++ nat_to_string fd))
read_all_from_fd sys fd (bytes chunk ∷ answers) result =
    let more = read_all_from_fd sys fd answers (result ++ chunk) in
    if is_empty chunk then ok result else more
