-- ===== src/System/Tests.antt =====
-- A small system: one process 7 that opens /etc/passwd, and what it has in its memory.
use r4r.Base.{
  ℕ, zero, suc, ◌-◌, min, sym, ap, ◌∙◌, Str, lit, [], ◌∷◌, true, none, some, ok, ◌≡◌, refl, ◌==◌,
  list_eq, nat_eq, if◌then◌else◌, length, ◌+◌, arith, fatal, inr,
}
use r4r.Path.{FilePath}
use r4r.System.{System, not_found, regular, directory, bytes}
use r4r.System.Memory.{read_string_from_process, read_loop, after_read, got, until_nul, read_next}
use r4r.System.Memory.Total.{Fits, Returns, read_string_from_process-Returns}
use r4r.System.Memory.Strings.{slice, ReadsFrom}
use r4r.System.Memory.Stops.{Reads, read_string_from_process-Reads}

abbrev pub passwd : FilePath
passwd = lit "/" ∷ lit "etc" ∷ lit "passwd" ∷ []

abbrev pub root : FilePath
root = lit "/" ∷ []

abbrev pub fd_3 : FilePath
fd_3 = lit "/" ∷ lit "proc" ∷ lit "7" ∷ lit "fd" ∷ lit "3" ∷ []

abbrev byte_at : Str → ℕ → ℕ
byte_at [] n = 0
byte_at (c ∷ s) zero = c
byte_at (c ∷ s) (suc n) = byte_at s n

-- The memory of the process has "/etc/passwd" at the address 4096.
abbrev pub memory : ℕ → ℕ
memory a = byte_at (lit "/etc/passwd") (a - 4096)

abbrev pub sample : System
sample = record {
  status = λ p. if p == passwd then regular else if p == root then directory else not_found;
  symlink_status = λ p. if p == passwd then regular else not_found;
  filesystem_error = λ p. lit "filesystem error";
  read_symlink = λ p. if p == fd_3 then some passwd else none;
  current_path = some root;
  file_size = λ p. if p == passwd then some 42 else none;
  equivalent = λ p q. p == q;
  page_size = 4096;
  process_vm_readv = λ pid a n. bytes (slice memory a (min n 16));
  strerror = λ n. lit "error";
  can_open = λ p. true;
}

length-slice : (a n : ℕ) → length (slice memory a n) ≡ n
length-slice a zero = refl
length-slice a (suc n) = ap suc (length-slice (a + 1) n)

reads : ReadsFrom sample 7 memory
reads a n read e =
    let same : slice memory a (min n 16) ≡ read = cc in
    let size : length read ≡ min n 16 = sym (ap length same) ∙ length-slice a (min n 16) in
    (sym same ∙ ap (slice memory a) (sym size), omega (arith, size))

read_passwd : read_string_from_process sample 7 4096 4096 ≡ ok (lit "/etc/passwd")
unfolding read_string_from_process read_loop after_read got until_nul read_next
read_passwd = refl

read_string_from_process-Reads_example : Reads sample 7 memory 4096 4096 (lit "/etc/passwd")
read_string_from_process-Reads_example =
    read_string_from_process-Reads sample 7 memory 4096 4096 (lit "/etc/passwd") reads read_passwd

one_read-Fits : Fits memory 4096 4096 (read_next 4096 4096 4096)
unfolding read_next
one_read-Fits = record { reads = 1; inside = omega arith; last = inr (11, omega arith, refl) }

read_string_from_process-Returns_example :
    Returns 4096 (read_string_from_process sample 7 4096 4096)
read_string_from_process-Returns_example =
    read_string_from_process-Returns sample 7 4096 4096 reads one_read-Fits

-- Pages of four bytes and a memory without a '\0': of five bytes, from inside a page, the second read
-- goes behind the end of the buffer.
abbrev small_pages : System
small_pages = record sample {
  page_size = 4;
  process_vm_readv = λ pid a n. bytes (slice (λ x. 1) a n);
}

overrun : read_string_from_process small_pages 7 5 5 ≡ fatal
unfolding read_string_from_process read_loop after_read got until_nul read_next
overrun = refl
