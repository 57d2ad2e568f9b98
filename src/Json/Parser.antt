-- ===== src/Json/Parser.antt =====
-- src/json.h: `JsonParser`. Its state is the input behind `pos_`; `size` is the length of the whole.
use r4r.Base.{
  ℕ, zero, suc, Str, lit, [], ◌∷◌, ◌++◌, Option, none, some, Bool, true, false, ◌&&◌, ◌||◌, ◌+◌,
  ◌-◌, ◌*◌, ◌^◌, eqb, ltb, leb, length, drop,
}
use r4r.Base.{
  Result, ok, throw, out_of_fuel, ◌>>=◌, if◌then◌else◌, list_eq, nat_eq, ℤ, pos, negsuc,
  nat_to_string, isspace, isdigit, starts_with,
}
use r4r.Json.{
  Double, JsonValue, null, boolean, integer, double, string, array, object, JsonArray, no_elements,
  element, JsonObject, no_members, emplace,
}

abbrev pub current : Str → ℕ
current [] = 0
current (c ∷ s) = c

abbrev pub next : Str → Str
next [] = []
next (c ∷ s) = s

unfoldable pub skip_whitespace : Str → Str
skip_whitespace [] = []
skip_whitespace (c ∷ s) = let rest = skip_whitespace s in if isspace c then rest else c ∷ s

-- `JsonParseError` at the offset of the rest.
unfoldable pub error_at {ℓ} : {A : Type ℓ} → ℕ → Str → Str → Result A
error_at size message rest =
    throw (message ++ lit " at offset " ++ nat_to_string (size - length rest))

-- The character that an escape stands for.
unfoldable pub unescape : ℕ → Option ℕ
unescape c =
    if eqb c b'"'
    then some b'"'
    else if eqb c b'\\'
    then some b'\\'
    else if eqb c b'/'
    then some b'/'
    else if eqb c b'b'
    then some 8
    else if eqb c b'f'
    then some 12
    else if eqb c b'n'
    then some 10
    else if eqb c b'r'
    then some 13
    else if eqb c b't'
    then some 9
    else none

abbrev pub prepend : ℕ → Str × Str → Str × Str
prepend c (s, rest) = (c ∷ s, rest)

-- The loop of `parse_string`, behind the opening character; whether a backslash has been read.
unfoldable pub parse_characters : ℕ → Bool → Str → Result (Str × Str)
parse_characters size false [] = error_at size (lit "Unterminated string") []
parse_characters size true [] = error_at size (lit "Invalid escape character") []
parse_characters size false (c ∷ s) =
    let escaped = parse_characters size true s in
    let plain = parse_characters size false s >>= λ r. ok (prepend c r) in
    if eqb c b'"' then ok ([], s) else if eqb c b'\\' then escaped else plain
parse_characters size true (c ∷ s) =
    let rest = parse_characters size false s in
    elim (unescape c) [
      | none ↦ error_at size (lit "Invalid escape character") (c ∷ s)
      | some x ↦ rest >>= λ r. ok (prepend x r)
    ]

unfoldable pub parse_string : ℕ → Str → Result (Str × Str)
parse_string size s = parse_characters size false (next s)

unfoldable pub parse_boolean : ℕ → Str → Result (Bool × Str)
parse_boolean size s =
    if starts_with s (lit "true")
    then ok (true, drop 4 s)
    else if starts_with s (lit "false")
    then ok (false, drop 5 s)
    else error_at size (lit "Invalid boolean value") s

unfoldable pub parse_null : ℕ → Str → Result Str
parse_null size s =
    if starts_with s (lit "null") then ok (drop 4 s) else error_at size (lit "Invalid null value") s

-- The token of `parse_number` behind its sign, whether it is a double, and the rest. The exponent's
-- sign is taken with its letter: `sign` says that one may follow.
unfoldable pub scan_number : Bool → Str → Str × (Bool × Str)
scan_number sign [] = ([], (false, []))
scan_number sign (c ∷ s) =
    let digit = scan_number false s in
    let exponent = scan_number true s in
    if sign && (eqb c b'+' || eqb c b'-')
    then (c ∷ digit.0, (true, digit.1.1))
    else if isdigit c
    then (c ∷ digit.0, digit.1)
    else if eqb c b'.'
    then (c ∷ digit.0, (true, digit.1.1))
    else if eqb c b'e' || eqb c b'E'
    then (c ∷ exponent.0, (true, exponent.1.1))
    else ([], (false, c ∷ s))

-- std::from_chars for `int`, on a token of an optional sign and digits.
pub data FromChars : Type 0 where
  invalid_argument : FromChars
  result_out_of_range : FromChars
  converted : ℤ → FromChars

unfoldable pub decimal : ℕ → Str → ℕ
decimal n [] = n
decimal n (c ∷ s) = decimal (n * 10 + (c - b'0')) s

unfoldable pub from_digits : Bool → Str → FromChars
from_digits negative [] = invalid_argument
from_digits negative (c ∷ s) =
    let n = decimal 0 (c ∷ s) in
    if negative
    then (if leb n (2 ^ 31)
        then converted (if eqb n 0 then pos 0 else negsuc (n - 1))
        else result_out_of_range)
    else (if ltb n (2 ^ 31) then converted (pos n) else result_out_of_range)

module _ (d : Double) (size : ℕ) where
  -- The conversion of the token that `parse_number` has read from `start`.
  unfoldable pub as_double : Str → Str → Result (JsonValue d.carrier)
  as_double start token = elim (d.from_chars token) [
    | none ↦ error_at size (lit "Invalid number format") start
    | some x ↦ ok (double x)
  ]

  unfoldable pub as_number : Str → Bool → Str → Bool → Result (JsonValue d.carrier)
  as_number start negative token true = as_double start (if negative then b'-' ∷ token else token)
  as_number start negative token false = elim (from_digits negative token) [
    | invalid_argument ↦ error_at size (lit "Invalid number format") start
    | result_out_of_range ↦ as_double start (if negative then b'-' ∷ token else token)
    | converted i ↦ ok (integer i)
  ]

  unfoldable pub parse_number : Str → Result (JsonValue d.carrier × Str)
  parse_number s =
      let negative = eqb (current s) b'-' in
      let scanned = scan_number false (if negative then next s else s) in
      as_number s negative scanned.0 scanned.1.0 >>= λ v. ok (v, scanned.1.1)

  unfoldable pub unexpected : Str → Result (JsonValue d.carrier × Str)
  unexpected s = error_at size (lit "Unexpected character '" ++ current s ∷ lit "'") s

  -- Behind an element: a comma is skipped, and the loop goes on.
  unfoldable pub next_element :
      (Str → Result (JsonArray d.carrier × Str))
      → JsonValue d.carrier × Str
      → Result (JsonArray d.carrier × Str)
  next_element again (v, s0) =
      let s = skip_whitespace s0 in
      let rest = again (if eqb (current s) b',' then next s else s) in
      if eqb (current s) b',' || eqb (current s) b']'
      then (rest >>= λ r. ok (element v r.0, r.1))
      else error_at size (lit "Expected ',' or ']'") s

  -- Behind the value of a key.
  unfoldable pub next_member :
      (JsonObject d.carrier → Str → Result (JsonObject d.carrier × Str))
      → JsonObject d.carrier
      → Str
      → JsonValue d.carrier × Str
      → Result (JsonObject d.carrier × Str)
  next_member again obj key (v, s0) =
      let s = skip_whitespace s0 in
      let rest = again (emplace key v obj) (if eqb (current s) b',' then next s else s) in
      if eqb (current s) b',' || eqb (current s) b'}'
      then rest
      else error_at size (lit "Expected ',' or '}'") s

  -- Behind a key.
  unfoldable pub next_value :
      (Str → Result (JsonValue d.carrier × Str))
      → (JsonObject d.carrier → Str → Result (JsonObject d.carrier × Str))
      → JsonObject d.carrier
      → Str × Str
      → Result (JsonObject d.carrier × Str)
  next_value value again obj (key, s0) =
      let s = skip_whitespace s0 in
      let valued = value (next s) >>= next_member again obj key in
      if eqb (current s) b':' then valued else error_at size (lit "Expected ':'") s

  unfoldable mutual
    pub parse_value : ℕ → Str → Result (JsonValue d.carrier × Str)
    parse_value zero s = out_of_fuel
    parse_value (suc fuel) s0 =
        let s = skip_whitespace s0 in
        let c = current s in
        let members = parse_object fuel no_members (next s) >>= λ r. ok (object r.0, r.1) in
        let elements = parse_array fuel (next s) >>= λ r. ok (array r.0, r.1) in
        if eqb c b'{'
        then members
        else if eqb c b'['
        then elements
        else if eqb c b'"'
        then (parse_string size s >>= λ r. ok (string r.0, r.1))
        else if eqb c b't' || eqb c b'f'
        then (parse_boolean size s >>= λ r. ok (boolean r.0, r.1))
        else if eqb c b'n'
        then (parse_null size s >>= λ r. ok (null, r))
        else if eqb c b'-' || isdigit c
        then parse_number s
        else unexpected s

    -- The loop of `parse_array`.
    pub parse_array : ℕ → Str → Result (JsonArray d.carrier × Str)
    parse_array zero s = out_of_fuel
    parse_array (suc fuel) s0 =
        let s = skip_whitespace s0 in
        let more = parse_value fuel s >>= next_element (parse_array fuel) in
        if eqb (current s) b']' then ok (no_elements, next s) else more

    -- The loop of `parse_object`.
    pub parse_object : ℕ → JsonObject d.carrier → Str → Result (JsonObject d.carrier × Str)
    parse_object zero obj s = out_of_fuel
    parse_object (suc fuel) obj s0 =
        let s = skip_whitespace s0 in
        let more = parse_string size s >>= next_value (parse_value fuel) (parse_object fuel) obj in
        if eqb (current s) b'}' then ok (obj, next s) else more

-- `JsonParser::parse`; a value takes at most two calls for each of its characters.
unfoldable pub parse : (d : Double) → Str → Result (JsonValue d.carrier)
parse d input = parse_value d (length input) (2 * length input + 1) input >>= λ r. elim r.1 [
  | [] ↦ ok r.0
  | c ∷ s ↦ error_at (length input) (lit "Unexpected reminder after JSON value parsed: " ++ r.1) r.1
]
