-- ===== src/System/Memory/Strings.antt =====
-- What `read_string_from_process` returns, against the memory of the process.
use r4r.Base.{
  ℕ, zero, suc, Str, lit, [], ◌∷◌, ◌++◌, Bool, true, false, ◌+◌, ◌%◌, ◌^◌, ◌≤◌, eqb, ltb, arith,
}
use r4r.Base.{
  Option, none, some, length, length-append, contains, nat_eq, Result, ok, throw, fatal,
  if◌then◌else◌,
}
use r4r.Base.{◌≡◌, refl, sym, ap, ◌∙◌, subst}
use r4r.System.{System, Read, bytes, failed, make_system_error}
use r4r.System.Memory.{until_nul, got, after_read, read_next, read_loop, read_string_from_process}

-- `n` bytes of the memory; addresses have 64 bits.
abbrev pub slice : (ℕ → ℕ) → ℕ → ℕ → Str
slice memory a zero = []
slice memory a (suc n) = memory (a % 2 ^ 64) ∷ slice memory (a + 1) n

slice-wrap :
    (memory : ℕ → ℕ) (a b n : ℕ) → a % 2 ^ 64 ≡ b % 2 ^ 64 → slice memory a n ≡ slice memory b n
slice-wrap memory a b zero same = refl
slice-wrap memory a b (suc n) same =
    rw same (ap (λ s. memory (b % 2 ^ 64) ∷ s) (slice-wrap memory (a + 1) (b + 1) n (omega arith)))

slice-append :
    (memory : ℕ → ℕ) (a n k : ℕ)
    → slice memory a (n + k) ≡ slice memory a n ++ slice memory (a + n) k
slice-append memory a zero k =
    let left : 0 + k ≡ k = omega arith in
    ap (slice memory a) left ∙ slice-wrap memory a (a + 0) k (omega arith)
slice-append memory a (suc n) k =
    let left : suc n + k ≡ suc (n + k) = omega arith in
    ap (slice memory a) left
    ∙ ap (λ s. memory (a % 2 ^ 64) ∷ s)
        (slice-append memory (a + 1) n k
          ∙ ap (λ s. slice memory (a + 1) n ++ s)
              (slice-wrap memory (a + 1 + n) (a + suc n) k (omega arith)))

-- process_vm_readv(2) copies from the memory, and no more than it was asked for.
abbrev pub ReadsFrom : System → ℕ → (ℕ → ℕ) → Type 0
ReadsFrom sys pid memory =
    (a n : ℕ) (read : Str)
    → sys.process_vm_readv pid a n ≡ bytes read
    → (read ≡ slice memory a (length read)) × (length read ≤ n)

-- The bytes before the first '\0'.
abbrev pub Ends : Str → Str → Type 0
Ends read s = (rest : Str) × (read ≡ s ++ 0 ∷ rest) × (contains s 0 ≡ false)

pub until_nul-some : (read : Str) {s : Str} → until_nul read ≡ some s → Ends read s
unfolding until_nul
until_nul-some [] found = absurd (cc)
until_nul-some (c ∷ read) {s = s} found =
    from (λ t. until_nul-some read {s = t}) (eqb c 0) (until_nul read) refl refl found
  where
    from :
        ((t : Str) → until_nul read ≡ some t → Ends read t)
        → (b : Bool) (o : Option Str) → eqb c 0 ≡ b
        → until_nul read ≡ o
        → (if b
            then some []
            else elim o as (λ _. Option Str) [ none ↦ none | some t ↦ some (c ∷ t) ])
          ≡ some s
        → Ends (c ∷ read) s
    from ih true o nul rest e =
        let empty : [] ≡ s = cc in subst (Ends (c ∷ read)) empty (read, ground arith, refl)
    from ih false none other rest e = absurd (cc)
    from ih false (some t) other rest e =
        let same : c ∷ t ≡ s = cc in
        let (more, split, none_) = ih t rest in
        subst (Ends (c ∷ read)) same (more, ap (λ r. c ∷ r) split, ground arith)

pub until_nul-none : (read : Str) → until_nul read ≡ none → contains read 0 ≡ false
unfolding until_nul
until_nul-none [] found = refl
until_nul-none (c ∷ read) found =
    from (until_nul-none read) (eqb c 0) (until_nul read) refl refl found
  where
    from :
        (until_nul read ≡ none → contains read 0 ≡ false)
        → (b : Bool) (o : Option Str) → eqb c 0 ≡ b
        → until_nul read ≡ o
        → (if b
            then some []
            else elim o as (λ _. Option Str) [ none ↦ none | some t ↦ some (c ∷ t) ])
          ≡ none
        → contains (c ∷ read) 0 ≡ false
    from ih true o nul rest e = absurd (cc)
    from ih false none other rest e = ground (arith, ih rest)
    from ih false (some t) other rest e = absurd (cc)

contains-append :
    (s t : Str) → contains s 0 ≡ false → contains t 0 ≡ false → contains (s ++ t) 0 ≡ false
contains-append [] t hs ht = ht
contains-append (c ∷ s) t hs ht = ground (arith, contains-append s t (ground arith) ht)

slice-prefix :
    (memory : ℕ → ℕ) (a : ℕ) (s r : Str)
    → s ++ r ≡ slice memory a (length (s ++ r))
    → s ≡ slice memory a (length s)
slice-prefix memory a [] r h = refl
slice-prefix memory a (c ∷ s) r h =
    let first : c ≡ memory (a % 2 ^ 64) = cc in
    let rest : s ++ r ≡ slice memory (a + 1) (length (s ++ r)) = cc in
    let ih = slice-prefix memory (a + 1) s r rest in cc

-- The string is what stands in the memory from the address on, and has no '\0'.
abbrev pub IsString : (ℕ → ℕ) → ℕ → Str → Type 0
IsString memory a s = (s ≡ slice memory a (length s)) × (contains s 0 ≡ false)

pub IsString-append :
    (memory : ℕ → ℕ) (a : ℕ) (s t : Str)
    → IsString memory a s
    → t ≡ slice memory ((a + length s) % 2 ^ 64) (length t)
    → contains t 0 ≡ false
    → IsString memory a (s ++ t)
IsString-append memory a s t (hs, ns) ht nt =
    let e : t ≡ slice memory (a + length s) (length t) =
      ht ∙ slice-wrap memory ((a + length s) % 2 ^ 64) (a + length s) (length t) (omega arith) in
    let joined : slice memory a (length s + length t) ≡ s ++ t =
      slice-append memory a (length s) (length t)
      ∙ sym (ap (λ x. x ++ slice memory (a + length s) (length t)) hs)
      ∙ sym (ap (λ y. s ++ y) e) in
    (sym (ap (slice memory a) (length-append s t) ∙ joined), contains-append s t ns nt)

module _ (memory : ℕ → ℕ) (a : ℕ) where
  -- `again` yields only strings of the memory when it goes on from one.
  abbrev IsSound : (Str → Result Str) → Type 0
  IsSound again = (b s : Str) → IsString memory a b → again b ≡ ok s → IsString memory a s

  got-IsString :
      (next : ℕ) (again : Str → Result Str) (buffer read : Str) (o : Option Str) {s : Str}
      → IsSound again
      → IsString memory a buffer
      → read ≡ slice memory ((a + length buffer) % 2 ^ 64) (length read)
      → until_nul read ≡ o
      → got next again buffer read o ≡ ok s
      → IsString memory a s
  unfolding got
  got-IsString next again buffer read (some string) {s = s} sound good at found done =
      let (rest, split, clean) = until_nul-some read found in
      let whole : string ++ 0 ∷ rest
          ≡ slice memory ((a + length buffer) % 2 ^ 64) (length (string ++ 0 ∷ rest)) =
        subst (λ r. r ≡ slice memory ((a + length buffer) % 2 ^ 64) (length r)) split at in
      let e : buffer ++ string ≡ s = cc in
      subst (IsString memory a) e (
        IsString-append memory a buffer string good
          (slice-prefix memory ((a + length buffer) % 2 ^ 64) string (0 ∷ rest) whole) clean)
  got-IsString next again buffer read none {s = s} sound good at found done =
      last (eqb (length read) next) done
    where
      longer : IsString memory a (buffer ++ read)
      longer = IsString-append memory a buffer read good at (until_nul-none read found)

      last :
          (b : Bool)
          → (if b then again (buffer ++ read) else ok (buffer ++ read)) ≡ ok s
          → IsString memory a s
      last true done = sound (buffer ++ read) s longer done
      last false done = let e : buffer ++ read ≡ s = cc in subst (IsString memory a) e longer

  after_read-IsString :
      (sys : System) (max_len next : ℕ) (again : Str → Result Str) (buffer : Str) (r : Read)
      {s : Str}
      → IsSound again
      → IsString memory a buffer
      → ((read : Str)
          → r ≡ bytes read
          → read ≡ slice memory ((a + length buffer) % 2 ^ 64) (length read))
      → after_read sys max_len next again buffer r ≡ ok s
      → IsString memory a s
  unfolding after_read
  after_read-IsString sys max_len next again buffer (bytes read) {s = s} sound good at done =
      kept (ltb max_len (length buffer + length read)) done
    where
      kept :
          (b : Bool)
          → (if b then fatal else got next again buffer read (until_nul read)) ≡ ok s
          → IsString memory a s
      kept true done = absurd (cc)
      kept false done =
          got-IsString next again buffer read (until_nul read) sound good (at read refl) refl done
  after_read-IsString sys max_len next again buffer (failed errno) {s = s} sound good at done =
      last (eqb errno 14) done
    where
      last :
          (b : Bool)
          → (if b then ok buffer else throw (make_system_error sys errno (lit "process_vm_readv")))
            ≡ ok s
          → IsString memory a s
      last true done = let e : buffer ≡ s = cc in subst (IsString memory a) e good
      last false done = absurd (cc)

module _ (sys : System) (pid : ℕ) (memory : ℕ → ℕ) (a max_len : ℕ) where
  read_loop-IsString :
      ReadsFrom sys pid memory → (fuel : ℕ) → IsSound memory a (read_loop fuel sys pid a max_len)
  unfolding read_loop
  read_loop-IsString reads zero buffer s good done = absurd (cc)
  read_loop-IsString reads (suc fuel) buffer s good done =
      stop (read_loop-IsString reads fuel) (ltb (length buffer) max_len) done
    where
      stop :
          IsSound memory a (read_loop fuel sys pid a max_len)
          → (b : Bool)
          → (if b
              then after_read sys max_len
                  (read_next sys.page_size a max_len)
                  (read_loop fuel sys pid a max_len)
                  buffer
                  (sys.process_vm_readv pid
                    ((a + length buffer) % 2 ^ 64)
                    (read_next sys.page_size a max_len))
              else ok buffer)
            ≡ ok s
          → IsString memory a s
      stop later false done = let e : buffer ≡ s = cc in subst (IsString memory a) e good
      stop later true done =
          after_read-IsString memory a sys max_len (read_next sys.page_size a max_len)
            (read_loop fuel sys pid a max_len) buffer
            (sys.process_vm_readv pid ((a + length buffer) % 2 ^ 64)
              (read_next sys.page_size a max_len))
            later good (λ read r. (reads _ _ read r).0) done

  pub read_string_from_process-IsString :
      (s : Str)
      → ReadsFrom sys pid memory
      → read_string_from_process sys pid a max_len ≡ ok s
      → IsString memory a s
  unfolding read_string_from_process
  read_string_from_process-IsString s reads done = from (eqb sys.page_size 0) (eqb max_len 0) done
    where
      from :
          (b c : Bool)
          → (if b
              then throw (make_system_error sys 0 (lit "Failed to get page size"))
              else if c
              then ok []
              else read_loop (max_len + 1) sys pid a max_len [])
            ≡ ok s
          → IsString memory a s
      from true c done = absurd (cc)
      from false true done = let e : [] ≡ s = cc in subst (IsString memory a) e (refl, refl)
      from false false done = read_loop-IsString reads (max_len + 1) [] s (refl, refl) done
