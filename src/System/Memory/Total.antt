-- ===== src/System/Memory/Total.antt =====
-- `read_string_from_process` comes to an end, and inside its buffer where whole reads fit it.
use r4r.Base.{
  ℕ, zero, suc, Str, lit, [], ◌∷◌, ◌++◌, Bool, true, false, ◌+◌, ◌-◌, ◌*◌, ◌%◌, ◌^◌, ◌≤◌, ◌<◌, eqb,
  ltb, arith,
}
use r4r.Base.{
  Option, none, some, length, length-append, contains, Result, ok, throw, fatal, out_of_fuel,
  if◌then◌else◌, nat_eq,
}
use r4r.Base.{◌≡◌, ◌⊎◌, inl, inr, refl, ap, ◌∙◌, subst}
use r4r.System.{System, Read, bytes, failed, make_system_error}
use r4r.System.Memory.{until_nul, got, after_read, read_next, read_loop, read_string_from_process}
use r4r.System.Memory.Strings.{
  slice, ReadsFrom, until_nul-some, until_nul-none, IsString, IsString-append,
}

positive : (next off : ℕ) → 1 ≤ next → 1 ≤ (if ltb off next then next - off else next)
positive next off h = ground arith

read_next_positive :
    (page_size a max_len : ℕ) → 1 ≤ page_size → 1 ≤ max_len → 1 ≤ read_next page_size a max_len
unfolding read_next
read_next_positive page_size a max_len hp hm =
    let next = if ltb page_size max_len then page_size else max_len in
    positive next ((a + next) % 2 ^ 64 % page_size) (ground arith)

-- Some number of reads of `next` bytes fits a buffer of `max_len` bytes, and fills it or takes in a
-- '\0' of the memory behind `a`.
pub record Fits (memory : ℕ → ℕ) (a max_len next : ℕ) : Type 0 where
  pub reads : ℕ
  pub inside : reads * next ≤ max_len
  pub last :
      (reads * next ≡ max_len) ⊎ ((j : ℕ) × (j < reads * next) × (memory ((a + j) % 2 ^ 64) ≡ 0))

-- A string that is not longer than the buffer, or an exception.
abbrev pub Returns : ℕ → Result Str → Type 0
Returns max_len (ok s) = length s ≤ max_len
Returns max_len (throw message) = Unit
Returns max_len fatal = ⊥
Returns max_len out_of_fuel = ⊥

-- Whole reads before a bound that is a whole number of reads leave room for one more.
one_more : (m q n : ℕ) → m * n < q * n → suc m * n ≤ q * n
one_more m zero n h = absurd (omega arith)
one_more zero (suc q) n h = omega arith
one_more (suc m) (suc q) n h = omega (arith, one_more m q n (omega arith))

no_nul_before :
    (memory : ℕ → ℕ) (a n j : ℕ)
    → contains (slice memory a n) 0 ≡ false
    → memory ((a + j) % 2 ^ 64) ≡ 0
    → n ≤ j
no_nul_before memory a zero j none_ nul = omega arith
no_nul_before memory a (suc n) zero none_ nul =
    let here : memory (a % 2 ^ 64) ≡ 0 = ap (λ x. memory (x % 2 ^ 64)) zeroed ∙ nul in ground arith
  where
    zeroed : a ≡ a + 0
    zeroed = omega arith
no_nul_before memory a (suc n) (suc j) none_ nul =
    let moved : memory ((a + 1 + j) % 2 ^ 64) ≡ 0 = ap (λ x. memory (x % 2 ^ 64)) shifted ∙ nul in
    omega (arith, no_nul_before memory (a + 1) n j (ground arith) moved)
  where
    shifted : a + 1 + j ≡ a + suc j
    shifted = omega arith

module _ (max_len next : ℕ) (buffer : Str) where
  got-Returns :
      (again : Str → Result Str) (read : Str) (o : Option Str)
      → until_nul read ≡ o
      → length buffer + length read ≤ max_len
      → (o ≡ none → length read ≡ next → Returns max_len (again (buffer ++ read)))
      → Returns max_len (got next again buffer read o)
  unfolding got
  got-Returns again read (some string) found room more =
      let (rest, split, _) = until_nul-some read found in
      let longer = ap length split ∙ length-append string (0 ∷ rest) in
      let both = length-append buffer string in omega arith
  got-Returns again read none found room more = last (eqb (length read) next) refl
    where
      last :
          (b : Bool)
          → eqb (length read) next ≡ b
          → Returns max_len (if b then again (buffer ++ read) else ok (buffer ++ read))
      last true full = more refl (ground arith)
      last false short = omega (arith, length-append buffer read)

  after_read-Returns :
      (sys : System) (again : Str → Result Str) (r : Read)
      → length buffer ≤ max_len
      → ((read : Str) → r ≡ bytes read → length buffer + length read ≤ max_len)
      → ((read : Str)
          → r ≡ bytes read
          → until_nul read ≡ none
          → length read ≡ next
          → Returns max_len (again (buffer ++ read)))
      → Returns max_len (after_read sys max_len next again buffer r)
  unfolding after_read
  after_read-Returns sys again (bytes read) held room more =
      kept (ltb max_len (length buffer + length read)) refl
    where
      kept :
          (b : Bool)
          → ltb max_len (length buffer + length read) ≡ b
          → Returns max_len (if b then fatal else got next again buffer read (until_nul read))
      kept true over = let fits = room read refl in ground arith
      kept false fits =
          got-Returns again read (until_nul read) refl (room read refl) (more read refl)
  after_read-Returns sys again (failed errno) held room more = last (eqb errno 14)
    where
      last :
          (b : Bool)
          → Returns max_len (
              if b then ok buffer else throw (make_system_error sys errno (lit "process_vm_readv")))
      last true = held
      last false = tt

module _ (sys : System) (pid a max_len : ℕ) {memory : ℕ → ℕ} (copies : ReadsFrom sys pid memory)
    (fits : Fits memory a max_len (read_next sys.page_size a max_len)) where
  abbrev size : ℕ
  size = read_next sys.page_size a max_len

  -- After `m` whole reads without a '\0' that leave room in the buffer, one more fits.
  room_for :
      (m : ℕ) (buffer : Str)
      → length buffer ≡ m * size
      → IsString memory a buffer
      → length buffer < max_len
      → suc m * size ≤ max_len
  room_for m buffer whole good room = elim fits.last [
    | inl filled ↦
        omega (arith, fits.inside, one_more m fits.reads size (omega (arith, whole, room, filled)))
    | inr (j, before, nul) ↦
        let (stands, clean) = good in
        let slice_clean : contains (slice memory a (length buffer)) 0 ≡ false =
          subst (λ t. contains t 0 ≡ false) stands clean in
        let behind = no_nul_before memory a (length buffer) j slice_clean nul in
        omega
          (arith, fits.inside, one_more m fits.reads size (omega (arith, whole, behind, before)))
  ]

  read_loop-Returns :
      (fuel m : ℕ) (buffer : Str)
      → 1 ≤ size
      → length buffer ≡ m * size
      → length buffer ≤ max_len
      → IsString memory a buffer
      → max_len < fuel + length buffer
      → Returns max_len (read_loop fuel sys pid a max_len buffer)
  unfolding read_loop
  read_loop-Returns zero m buffer pos whole held good enough = absurd (omega arith)
  read_loop-Returns (suc fuel) m buffer pos whole held good enough =
      stop (ltb (length buffer) max_len) refl (λ b. read_loop-Returns fuel (suc m) b pos)
    where
      stop :
          (b : Bool)
          → ltb (length buffer) max_len ≡ b
          → ((b : Str)
              → length b ≡ suc m * size
              → length b ≤ max_len
              → IsString memory a b
              → max_len < fuel + length b
              → Returns max_len (read_loop fuel sys pid a max_len b))
          → Returns max_len (
              if b
              then after_read sys max_len size
                  (read_loop fuel sys pid a max_len)
                  buffer
                  (sys.process_vm_readv pid ((a + length buffer) % 2 ^ 64) size)
              else ok buffer)
      stop false full ih = held
      stop true more ih =
          let room = room_for m buffer whole good (ground arith) in
          after_read-Returns max_len size buffer sys (read_loop fuel sys pid a max_len)
            (sys.process_vm_readv pid ((a + length buffer) % 2 ^ 64) size) held
            (λ read r. let (_, few) = copies _ _ read r in omega (arith, few, whole, room))
            (λ read r none_ full.
              let (stands, _) = copies _ _ read r in
              let longer = length-append buffer read in
              ih (buffer ++ read) (omega (arith, longer, full, whole))
                (omega (arith, longer, full, whole, room))
                (IsString-append memory a buffer read good stands (until_nul-none read none_))
                (omega (arith, longer, full, enough, pos)))

-- Where process_vm_readv copies from the memory, and whole reads fit the buffer, the reading of a
-- string comes to an end and stays inside the buffer: it returns a string that is not longer than the
-- buffer, or it throws.
pub read_string_from_process-Returns :
    (sys : System) (pid a max_len : ℕ) {memory : ℕ → ℕ}
    → ReadsFrom sys pid memory
    → Fits memory a max_len (read_next sys.page_size a max_len)
    → Returns max_len (read_string_from_process sys pid a max_len)
unfolding read_string_from_process
read_string_from_process-Returns sys pid a max_len copies fits =
    from (eqb sys.page_size 0) (eqb max_len 0) refl refl
  where
    from :
        (b c : Bool)
        → eqb sys.page_size 0 ≡ b
        → eqb max_len 0 ≡ c
        → Returns max_len (
            if b
            then throw (make_system_error sys 0 (lit "Failed to get page size"))
            else if c
            then ok []
            else read_loop (max_len + 1) sys pid a max_len [])
    from true c none_ empty = tt
    from false true some_ empty = omega arith
    from false false some_ filled =
        read_loop-Returns sys pid a max_len copies fits (max_len + 1) 0 []
          (read_next_positive sys.page_size a max_len (ground arith) (ground arith)) (omega arith)
          (omega arith) (refl, refl) (omega arith)
