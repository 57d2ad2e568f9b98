-- ===== src/System/Memory.antt =====
-- src/syscall_monitor.h: `read_string_from_process`, which reads a string out of the memory of the
-- traced process, page by page.
pub mod Strings
pub mod Stops
pub mod Total
use r4r.Base.{ℕ, zero, suc, Str, lit, [], ◌∷◌, ◌++◌, ◌+◌, ◌-◌, ◌%◌, ◌^◌, eqb, ltb}
use r4r.Base.{Option, none, some, length, Result, ok, throw, fatal, out_of_fuel, if◌then◌else◌}
use r4r.System.{System, Read, bytes, failed, make_system_error}

abbrev eperm : ℕ
eperm = 1

abbrev efault : ℕ
efault = 14

-- The bytes before the first '\0', if there is one.
unfoldable pub until_nul : Str → Option Str
until_nul [] = none
until_nul (c ∷ s) =
    if eqb c 0 then some [] else elim (until_nul s) [ none ↦ none | some t ↦ some (c ∷ t) ]

-- How much is read at once: a page, less what the address takes of it. `x & (page_size - 1)` is the
-- remainder by the page size, a power of two.
unfoldable pub read_next : ℕ → ℕ → ℕ → ℕ
read_next page_size remote_addr max_len =
    let next = if ltb page_size max_len then page_size else max_len in
    let page_offset = (remote_addr + next) % 2 ^ 64 % page_size in
    if ltb page_offset next then next - page_offset else next

-- What the loop does with the bytes of one read: it stops behind a '\0' or a short read.
unfoldable pub got : ℕ → (Str → Result Str) → Str → Str → Option Str → Result Str
got next again buffer read (some string) = ok (buffer ++ string)
got next again buffer read none =
    if eqb (length read) next then again (buffer ++ read) else ok (buffer ++ read)

-- The bytes of a read go behind those of the buffer. The source writes them without a test of the size
-- of the buffer, `new char[max_len]`: where they reach behind its end the behaviour is undefined, which
-- is `fatal` here.
unfoldable pub after_read : System → ℕ → ℕ → (Str → Result Str) → Str → Read → Result Str
after_read sys max_len next again buffer (bytes read) =
    let kept = got next again buffer read (until_nul read) in
    if ltb max_len (length buffer + length read) then fatal else kept
after_read sys max_len next again buffer (failed errno) =
    if eqb errno efault
    then ok buffer
    else throw (make_system_error sys errno (lit "process_vm_readv"))

-- The loop, with the bytes that are in the buffer.
unfoldable pub read_loop : ℕ → System → ℕ → ℕ → ℕ → Str → Result Str
read_loop zero sys pid remote_addr max_len buffer = out_of_fuel
read_loop (suc fuel) sys pid remote_addr max_len buffer =
    let next = read_next sys.page_size remote_addr max_len in
    let read = sys.process_vm_readv pid ((remote_addr + length buffer) % 2 ^ 64) next in
    let again = read_loop fuel sys pid remote_addr max_len in
    let rest = after_read sys max_len next again buffer read in
    if ltb (length buffer) max_len then rest else ok buffer

-- Every round that goes on reads at least one byte, so that `max_len` rounds and the last test are
-- enough.
unfoldable pub read_string_from_process : System → ℕ → ℕ → ℕ → Result Str
read_string_from_process sys pid remote_addr max_len =
    if eqb sys.page_size 0
    then throw (make_system_error sys 0 (lit "Failed to get page size"))
    else if eqb max_len 0
    then ok []
    else read_loop (max_len + 1) sys pid remote_addr max_len []
