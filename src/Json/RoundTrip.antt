-- ===== src/Json/RoundTrip.antt =====
-- What the printer writes, the parser reads back: strings and integers.
pub mod Plain
pub mod Texts
pub mod Turns
pub mod Loops
pub mod Values
pub mod Whole
use r4r.Base.{
  ℕ, zero, suc, Str, lit, List, [], ◌∷◌, ◌++◌, Option, none, some, Bool, true, false, ◌&&◌, ◌||◌,
  ◌+◌, ◌-◌, ◌*◌, ◌/◌, ◌%◌, ◌^◌, ◌≤◌, ◌<◌, eqb, ltb, leb, All, All-append, arith, append_assoc,
}
use r4r.Base.{
  Result, ok, throw, ◌>>=◌, if◌then◌else◌, list_eq, nat_eq, ℤ, pos, negsuc, nat_to_string, digits,
  to_string, isdigit, isspace, ◌≡◌, ◌≢◌, refl, sym, ap, ◌∙◌, Bool-cases, inl, inr, subst,
}
use r4r.Json.{Double, escape, escape_all, print_string, JsonValue, integer}
use r4r.Json.Parser.{
  parse_characters, parse_string, unescape, prepend, scan_number, decimal, from_digits, FromChars,
  converted, as_number, parse_number, current, next, error_at, skip_whitespace,
}

escape-read :
    (size c : ℕ) (t : Str)
    → parse_characters size false (escape c ++ t)
      ≡ (parse_characters size false t >>= λ r. ok (prepend c r))
unfolding escape parse_characters unescape
escape-read size c t = ground arith

pub parse_characters-escape_all :
    (size : ℕ) (s rest : Str)
    → parse_characters size false (escape_all s ++ b'"' ∷ rest) ≡ ok (s, rest)
unfolding escape_all
parse_characters-escape_all size [] rest = unfold parse_characters in refl
parse_characters-escape_all size (c ∷ s) rest =
    ap (parse_characters size false) (append_assoc (escape c) (escape_all s) (b'"' ∷ rest))
    ∙ escape-read size c (escape_all s ++ b'"' ∷ rest)
    ∙ ap (λ r. r >>= λ q. ok (prepend c q)) (parse_characters-escape_all size s rest)

decimal-append : (n c : ℕ) (s : Str) → decimal n (s ++ c ∷ []) ≡ decimal n s * 10 + (c - b'0')
unfolding decimal
decimal-append n c [] = refl
decimal-append n c (e ∷ s) = decimal-append (n * 10 + (e - b'0')) c s

-- The digits of a number: they give it back, they are digits, and there is one.
digits-decimal : (fuel n : ℕ) → n < fuel → decimal 0 (digits fuel n) ≡ n
unfolding digits decimal
digits-decimal zero n enough = absurd (omega arith)
digits-decimal (suc fuel) n enough = elim (Bool-cases (ltb n 10)) [
  | inl small ↦ rw small (ground arith)
  | inr large ↦
      let step : 10 ≤ n = ground arith in
      rw large (
        decimal-append 0 (b'0' + n % 10) (digits fuel (n / 10))
        ∙ ap (λ x. x * 10 + (b'0' + n % 10 - b'0')) (digits-decimal fuel (n / 10) (omega arith))
        ∙ omega arith)
]

abbrev IsDigit : ℕ → Type 0
IsDigit c = isdigit c ≡ true

digits-IsDigit : (fuel n : ℕ) → All IsDigit (digits fuel n)
unfolding digits
digits-IsDigit zero n = tt
digits-IsDigit (suc fuel) n = elim (Bool-cases (ltb n 10)) [
  | inl small ↦ rw small (unfold isdigit in ground arith, tt)
  | inr large ↦
      let last : isdigit (b'0' + n % 10) ≡ true = unfold isdigit in ground arith in
      rw large (
        All-append IsDigit (digits fuel (n / 10)) ((b'0' + n % 10) ∷ [])
          (digits-IsDigit fuel (n / 10)) (last, tt))
]

-- The rest does not go on with a number.
abbrev pub Stops : Str → Type 0
Stops rest = scan_number false rest ≡ ([], (false, rest))

scan_number-digits :
    (ds rest : Str)
    → All IsDigit ds
    → Stops rest
    → scan_number false (ds ++ rest) ≡ (ds, (false, rest))
unfolding scan_number
scan_number-digits [] rest good stops = stops
scan_number-digits (c ∷ ds) rest (digit, good) stops =
    rw digit (ap (λ r. (c ∷ r.0, r.1)) (scan_number-digits ds rest good stops))

append_nonempty : (s : Str) (c : ℕ) → (s ++ c ∷ []) ≢ []
append_nonempty [] c = λ e. absurd (cc)
append_nonempty (x ∷ s) c = λ e. absurd (cc)

digits_nonempty : (fuel n : ℕ) → 1 ≤ fuel → digits fuel n ≢ []
unfolding digits
digits_nonempty zero n some_ = absurd (omega arith)
digits_nonempty (suc fuel) n some_ = elim (Bool-cases (ltb n 10)) [
  | inl small ↦ rw small (λ e. absurd (cc))
  | inr large ↦ rw large (append_nonempty (digits fuel (n / 10)) (b'0' + n % 10))
]

-- A number's digits, with the first one apart.
record IsNumeral (n : ℕ) (ds : Str) : Type 0 where
  first : ℕ
  others : Str
  split : ds ≡ first ∷ others
  good : All IsDigit (first ∷ others)
  reads : decimal 0 (first ∷ others) ≡ n

nat_to_string-IsNumeral : (n : ℕ) → IsNumeral n (nat_to_string n)
unfolding nat_to_string
nat_to_string-IsNumeral n =
    from (digits (n + 1) n) (digits-IsDigit (n + 1) n) (digits-decimal (n + 1) n (omega arith))
      (digits_nonempty (n + 1) n (omega arith))
  where
    from : (ds : Str) → All IsDigit ds → decimal 0 ds ≡ n → ds ≢ [] → IsNumeral n ds
    from [] good reads some_ = absurd (some_ refl)
    from (c ∷ ds) good reads some_ = record {
      first = c;
      others = ds;
      split = refl;
      good = good;
      reads = reads;
    }

digit_not-sign : (c : ℕ) → IsDigit c → eqb c b'-' ≡ false
unfolding isdigit
digit_not-sign c digit = ground arith

-- The integers of `int`.
abbrev pub IsInt : ℤ → Type 0
IsInt (pos n) = n < 2 ^ 31
IsInt (negsuc n) = n < 2 ^ 31

module _ (d : Double) (size : ℕ) where
  parse_number-positive :
      (n c : ℕ) (ds rest : Str)
      → All IsDigit (c ∷ ds)
      → decimal 0 (c ∷ ds) ≡ n
      → n < 2 ^ 31
      → Stops rest
      → parse_number d size (c ∷ ds ++ rest) ≡ ok (integer (pos n), rest)
  unfolding parse_number as_number from_digits
  parse_number-positive n c ds rest good reads small stops =
      let sign : eqb c b'-' ≡ false = digit_not-sign c good.0 in
      let scanned = scan_number-digits (c ∷ ds) rest good stops in
      let fits : ltb n (2 ^ 31) ≡ true = ground arith in
      let exact : from_digits false (c ∷ ds) ≡ converted (pos n) =
        rw (from_digits, reads, fits) refl in
      let number : as_number d size (c ∷ ds ++ rest) false (c ∷ ds) false ≡ ok (integer (pos n)) =
        rw (as_number, exact) refl in
      rw (parse_number, sign) (rw scanned (rw number refl))

  parse_number-negative :
      (n c : ℕ) (ds rest : Str)
      → All IsDigit (c ∷ ds)
      → decimal 0 (c ∷ ds) ≡ suc n
      → n < 2 ^ 31
      → Stops rest
      → parse_number d size (b'-' ∷ c ∷ ds ++ rest) ≡ ok (integer (negsuc n), rest)
  unfolding parse_number as_number from_digits
  parse_number-negative n c ds rest good reads small stops =
      let scanned = scan_number-digits (c ∷ ds) rest good stops in
      let fits : leb (suc n) (2 ^ 31) ≡ true = ground arith in
      let exact : from_digits true (c ∷ ds) ≡ converted (negsuc n) =
        rw (from_digits, reads, fits) (ground arith) in
      let number : as_number d size (b'-' ∷ c ∷ ds ++ rest) true (c ∷ ds) false
          ≡ ok (integer (negsuc n)) =
        rw (as_number, exact) refl in
      rw (parse_number, scanned) (ap (λ r. r >>= λ v. ok (v, rest)) number)

  pub parse_number-to_string :
      (i : ℤ) (rest : Str)
      → IsInt i
      → Stops rest
      → parse_number d size (to_string i ++ rest) ≡ ok (integer i, rest)
  unfolding to_string
  parse_number-to_string (pos n) rest small stops =
      let w = nat_to_string-IsNumeral n in
      ap (λ s. parse_number d size (s ++ rest)) w.split
      ∙ parse_number-positive n w.first w.others rest w.good w.reads small stops
  parse_number-to_string (negsuc n) rest small stops =
      let w = nat_to_string-IsNumeral (n + 1) in
      ap (λ s. parse_number d size (b'-' ∷ s ++ rest)) w.split
      ∙ parse_number-negative n w.first w.others rest w.good (w.reads ∙ omega arith) small stops

-- A printed integer starts a value of an array.
pub to_string-IsStart :
    (i : ℤ) (rest : Str)
    → (skip_whitespace (to_string i ++ rest) ≡ to_string i ++ rest)
      × (eqb (current (to_string i ++ rest)) b']' ≡ false)
unfolding to_string skip_whitespace isspace
to_string-IsStart (negsuc n) rest = (refl, refl)
to_string-IsStart (pos n) rest =
    let w = nat_to_string-IsNumeral n in
    subst
      (λ s. (skip_whitespace (s ++ rest) ≡ s ++ rest) × (eqb (current (s ++ rest)) b']' ≡ false))
      (sym w.split) (digit_not-space w.first w.others rest w.good.0)
  where
    digit_not-space :
        (c : ℕ) (ds rest : Str)
        → IsDigit c
        → (skip_whitespace (c ∷ ds ++ rest) ≡ c ∷ ds ++ rest) × (eqb c b']' ≡ false)
    digit_not-space c ds rest digit =
        let space : isspace c ≡ false = unfold isdigit in unfold isspace in ground arith in
        (rw space refl, unfold isdigit in ground arith)

pub to_string_digit : (n : ℕ) (rest : Str) → isdigit (current (to_string (pos n) ++ rest)) ≡ true
unfolding to_string
to_string_digit n rest =
    let w = nat_to_string-IsNumeral n in
    subst (λ s. isdigit (current (s ++ rest)) ≡ true) (sym w.split) w.good.0
