-- ===== src/System/Memory/Stops.antt =====
-- Where a string that `read_string_from_process` returns ends.
use r4r.Base.{
  ℕ, zero, suc, Str, lit, [], ◌∷◌, ◌++◌, Bool, true, false, ◌+◌, ◌%◌, ◌^◌, ◌≤◌, ◌<◌, eqb, ltb,
  arith,
}
use r4r.Base.{Option, none, some, length, length-append, Result, ok, throw, fatal, if◌then◌else◌}
use r4r.Base.{◌≡◌, ◌⊎◌, inl, inr, refl, sym, subst}
use r4r.System.{System, Read, bytes, failed, make_system_error}
use r4r.System.Memory.{until_nul, got, after_read, read_next, read_loop, read_string_from_process}
use r4r.System.Memory.Strings.{
  slice, ReadsFrom, until_nul-some, IsString, read_string_from_process-IsString,
}

-- A read behind `n` bytes ended a string of `len` bytes: it gave less than `size`, or EFAULT.
abbrev CutsOff : ℕ → ℕ → ℕ → Read → Type 0
CutsOff size n len (bytes read) = (length read < size) × (n + length read ≡ len)
CutsOff size n len (failed errno) = (errno ≡ 14) × (n ≡ len)

nul_behind :
    (memory : ℕ → ℕ) (b : ℕ) (string rest : Str)
    → string ++ 0 ∷ rest ≡ slice memory b (length (string ++ 0 ∷ rest))
    → memory ((b + length string) % 2 ^ 64) ≡ 0
nul_behind memory b [] rest e =
    let first : 0 ≡ memory (b % 2 ^ 64) = cc in let same : b + 0 ≡ b = omega arith in rw same (cc)
nul_behind memory b (c ∷ string) rest e =
    let later : string ++ 0 ∷ rest ≡ slice memory (b + 1) (length (string ++ 0 ∷ rest)) = cc in
    let same : b + 1 + length string ≡ b + suc (length string) = omega arith in
    subst (λ x. memory (x % 2 ^ 64) ≡ 0) same (nul_behind memory (b + 1) string rest later)

module _ (sys : System) (pid : ℕ) (memory : ℕ → ℕ) (a max_len : ℕ) where
  abbrev size : ℕ
  size = read_next sys.page_size a max_len

  abbrev answer : ℕ → Read
  answer n = sys.process_vm_readv pid ((a + n) % 2 ^ 64) size

  -- The string ends at a '\0' of the memory, at the end of the buffer, or where a read was cut off.
  abbrev pub Ends : Str → Type 0
  Ends s =
      (memory ((a + length s) % 2 ^ 64) ≡ 0)
      ⊎ ((max_len ≤ length s) ⊎ ((n : ℕ) × CutsOff size n (length s) (answer n)))

  abbrev pub Reads : Str → Type 0
  Reads s = IsString memory a s × Ends s

  abbrev EndsLater : (Str → Result Str) → Type 0
  EndsLater again = (b s : Str) → again b ≡ ok s → Ends s

  got-Ends :
      (again : Str → Result Str) (buffer read : Str) (o : Option Str) {s : Str}
      → EndsLater again
      → answer (length buffer) ≡ bytes read
      → read ≡ slice memory ((a + length buffer) % 2 ^ 64) (length read)
      → length read ≤ size
      → until_nul read ≡ o
      → got size again buffer read o ≡ ok s
      → Ends s
  unfolding got
  got-Ends again buffer read (some string) {s = s} later e at few found done =
      let (rest, split, clean) = until_nul-some read found in
      let whole : string ++ 0 ∷ rest
          ≡ slice memory ((a + length buffer) % 2 ^ 64) (length (string ++ 0 ∷ rest)) =
        subst (λ r. r ≡ slice memory ((a + length buffer) % 2 ^ 64) (length r)) split at in
      let nul = nul_behind memory ((a + length buffer) % 2 ^ 64) string rest whole in
      let place : ((a + length buffer) % 2 ^ 64 + length string) % 2 ^ 64
          ≡ (a + length (buffer ++ string)) % 2 ^ 64 =
        omega (arith, length-append buffer string) in
      let same : buffer ++ string ≡ s = cc in
      subst Ends same (inl (subst (λ x. memory x ≡ 0) place nul))
  got-Ends again buffer read none {s = s} later e at few found done =
      last (eqb (length read) size) refl done
    where
      last :
          (b : Bool)
          → eqb (length read) size ≡ b
          → (if b then again (buffer ++ read) else ok (buffer ++ read)) ≡ ok s
          → Ends s
      last true full done = later (buffer ++ read) s done
      last false short done =
          let same : buffer ++ read ≡ s = cc in
          let cut : CutsOff size (length buffer) (length (buffer ++ read)) (bytes read) =
            (ground (arith, few), omega (arith, length-append buffer read)) in
          subst Ends same (
            inr (
              inr (
                length buffer,
                subst (CutsOff size (length buffer) (length (buffer ++ read))) (sym e) cut,
              )))

  after_read-Ends :
      (again : Str → Result Str) (buffer : Str) (r : Read) {s : Str}
      → ReadsFrom sys pid memory
      → EndsLater again
      → answer (length buffer) ≡ r
      → after_read sys max_len size again buffer r ≡ ok s
      → Ends s
  unfolding after_read
  after_read-Ends again buffer (bytes read) {s = s} copies later e done =
      kept (ltb max_len (length buffer + length read)) done
    where
      kept :
          (b : Bool)
          → (if b then fatal else got size again buffer read (until_nul read)) ≡ ok s
          → Ends s
      kept true done = absurd (cc)
      kept false done =
          let (at, few) = copies _ _ read e in
          got-Ends again buffer read (until_nul read) later e at few refl done
  after_read-Ends again buffer (failed errno) {s = s} copies later e done =
      last (eqb errno 14) refl done
    where
      last :
          (b : Bool)
          → eqb errno 14 ≡ b
          → (if b then ok buffer else throw (make_system_error sys errno (lit "process_vm_readv")))
            ≡ ok s
          → Ends s
      last true fault done =
          let same : buffer ≡ s = cc in
          let cut : CutsOff size (length buffer) (length buffer) (failed errno) =
            (ground arith, refl) in
          subst Ends same (
            inr (
              inr
                (length buffer, subst (CutsOff size (length buffer) (length buffer)) (sym e) cut)))
      last false other done = absurd (cc)

  read_loop-Ends :
      ReadsFrom sys pid memory → (fuel : ℕ) → EndsLater (read_loop fuel sys pid a max_len)
  unfolding read_loop
  read_loop-Ends copies zero buffer s done = absurd (cc)
  read_loop-Ends copies (suc fuel) buffer s done =
      stop (read_loop-Ends copies fuel) (ltb (length buffer) max_len) refl done
    where
      stop :
          EndsLater (read_loop fuel sys pid a max_len)
          → (b : Bool) → ltb (length buffer) max_len ≡ b
          → (if b
              then after_read sys max_len size
                  (read_loop fuel sys pid a max_len)
                  buffer
                  (answer (length buffer))
              else ok buffer)
            ≡ ok s
          → Ends s
      stop later false full done =
          let same : buffer ≡ s = cc in subst Ends same (inr (inl (ground arith)))
      stop later true more done =
          after_read-Ends (read_loop fuel sys pid a max_len) buffer _ copies later refl done

  -- A string that `read_string_from_process` returns is what stands in the memory of the process from
  -- the address on, without a '\0', and up to a '\0', the end of the buffer, or the place where a read
  -- gave less than it was asked for or EFAULT; a call that writes behind its buffer is fatal and returns
  -- none.
  pub read_string_from_process-Reads :
      (s : Str)
      → ReadsFrom sys pid memory
      → read_string_from_process sys pid a max_len ≡ ok s
      → Reads s
  unfolding read_string_from_process
  read_string_from_process-Reads s copies done = (
    read_string_from_process-IsString sys pid memory a max_len s copies done,
    from (eqb sys.page_size 0) (eqb max_len 0) refl done,
  )
    where
      from :
          (b c : Bool)
          → eqb max_len 0 ≡ c
          → (if b
              then throw (make_system_error sys 0 (lit "Failed to get page size"))
              else if c
              then ok []
              else read_loop (max_len + 1) sys pid a max_len [])
            ≡ ok s
          → Ends s
      from true c empty done = absurd (cc)
      from false true empty done =
          let same : [] ≡ s = cc in subst Ends same (inr (inl (ground arith)))
      from false false empty done = read_loop-Ends copies (max_len + 1) [] s done
