-- ===== src/Json/RoundTrip/Values.antt =====
-- What the printer writes, the parser reads back: whole values.
use r4r.Base.{ℕ, zero, suc, Str, [], ◌∷◌, ◌++◌, Bool, true, false, ◌≤◌, eqb, append_assoc, arith}
use r4r.Base.{
  ok, ◌>>=◌, isspace, isdigit, starts_with, to_string, ℤ, pos, negsuc, list_eq, nat_eq, ◌≡◌, refl,
  ap, ◌∙◌,
}
use r4r.Json.{
  Double, JsonValue, null, boolean, integer, double, string, array, object, JsonArray, no_elements,
  element, JsonObject, no_members, member, print_value, escape_all,
}
use r4r.Json.Parser.{
  parse_characters, skip_whitespace, current, parse_string, parse_boolean, parse_null, parse_number,
  parse_value, parse_array, parse_object,
}
use r4r.Json.RoundTrip.{
  parse_characters-escape_all, parse_number-to_string, to_string-IsStart, to_string_digit,
}
use r4r.Json.RoundTrip.Texts.{elements_text, members_text, print_array_text, print_object_text}
use r4r.Json.RoundTrip.Turns.{parse_array-end, parse_object-end}
use r4r.Json.RoundTrip.Loops.{
  IsRead, AreRead, MembersAreRead, element-AreRead, member-MembersAreRead, nothing_before,
}
use r4r.Json.RoundTrip.Plain.{
  IsPlain, ArePlain, IsRising, weight, weight_elements, weight_members, extend-no_members,
}

module _ (d : Double) (size : ℕ) where
  -- A value that is no array and no object takes one call.
  null-IsRead : IsRead d size null
  unfolding parse_value skip_whitespace isspace isdigit parse_null starts_with print_value weight
  null-IsRead zero rest plain stops enough = absurd (omega arith)
  null-IsRead (suc fuel) rest plain stops enough = refl

  boolean-IsRead : (b : Bool) → IsRead d size (boolean b)
  unfolding parse_value skip_whitespace isspace isdigit parse_boolean starts_with print_value weight
  boolean-IsRead b zero rest plain stops enough = absurd (omega arith)
  boolean-IsRead true (suc fuel) rest plain stops enough = refl
  boolean-IsRead false (suc fuel) rest plain stops enough = refl

  string-IsRead : (s : Str) → IsRead d size (string s)
  unfolding parse_value skip_whitespace isspace isdigit parse_string print_value weight
  string-IsRead s zero rest plain stops enough = absurd (omega arith)
  string-IsRead s (suc fuel) rest plain stops enough =
      ap (λ r. r >>= λ q. ok (string q.0, q.1))
        (ap (parse_characters size false) (append_assoc (escape_all s) (b'"' ∷ []) rest)
          ∙ parse_characters-escape_all size s rest)

  array-IsRead : (vs : JsonArray d.carrier) → AreRead d size vs → IsRead d size (array vs)
  array-IsRead vs read zero rest plain stops enough =
      let e : suc (weight_elements vs) ≤ 0 = unfold weight in enough in absurd (omega arith)
  array-IsRead vs read (suc fuel) rest plain stops enough =
      let e : suc (weight_elements vs) ≤ suc fuel = unfold weight in enough in
      let p : ArePlain vs = unfold IsPlain in plain in
      ap (parse_value d size (suc fuel)) (print_array_text d vs rest)
      ∙ opened (elements_text d vs rest)
      ∙ ap (λ r. r >>= λ q. ok (array q.0, q.1)) (read fuel rest p (omega arith))
    where
      opened :
          (s : Str)
          → parse_value d size (suc fuel) (b'[' ∷ s)
            ≡ (parse_array d size fuel s >>= λ q. ok (array q.0, q.1))
      opened s = unfold parse_value in unfold skip_whitespace in unfold isspace in refl

  object-IsRead : (o : JsonObject d.carrier) → MembersAreRead d size o → IsRead d size (object o)
  object-IsRead o read zero rest plain stops enough =
      let e : suc (weight_members o) ≤ 0 = unfold weight in enough in absurd (omega arith)
  object-IsRead o read (suc fuel) rest plain stops enough =
      let e : suc (weight_members o) ≤ suc fuel = unfold weight in enough in
      let p : IsRising o = unfold IsPlain in plain in
      ap (parse_value d size (suc fuel)) (print_object_text d o rest)
      ∙ opened (members_text d o rest)
      ∙ ap (λ r. r >>= λ q. ok (object q.0, q.1))
          (read fuel no_members rest p (nothing_before d size o) (omega arith))
      ∙ ap (λ p. ok (object p, rest)) (extend-no_members o)
    where
      opened :
          (s : Str)
          → parse_value d size (suc fuel) (b'{' ∷ s)
            ≡ (parse_object d size fuel no_members s >>= λ q. ok (object q.0, q.1))
      opened s = unfold parse_value in unfold skip_whitespace in unfold isspace in refl

  digit_other : (c k : ℕ) → isdigit c ≡ true → isdigit k ≡ false → eqb c k ≡ false
  unfolding isdigit
  digit_other c k digit other = ground arith

  -- A digit opens a number.
  parse_value-digit :
      (fuel : ℕ) (s : Str)
      → skip_whitespace s ≡ s
      → isdigit (current s) ≡ true
      → parse_value d size (suc fuel) s ≡ parse_number d size s
  unfolding parse_value parse_number
  parse_value-digit fuel s kept digit =
      let other : (k : ℕ) → isdigit k ≡ false → eqb (current s) k ≡ false =
        λ k h. digit_other (current s) k digit h in
      rw
        (
          parse_value,
          kept,
          other b'{' (unfold isdigit in refl),
          other b'[' (unfold isdigit in refl),
          other b'"' (unfold isdigit in refl),
          other b't' (unfold isdigit in refl),
          other b'f' (unfold isdigit in refl),
          other b'n' (unfold isdigit in refl),
          other b'-' (unfold isdigit in refl),
          digit,
        )
        refl

  integer-IsRead : (i : ℤ) → IsRead d size (integer i)
  integer-IsRead i zero rest plain stops enough =
      let e : 1 ≤ 0 = unfold weight in enough in absurd (omega arith)
  integer-IsRead (pos n) (suc fuel) rest plain stops enough =
      let printed : print_value d (integer (pos n)) ≡ to_string (pos n) =
        unfold print_value in refl in
      let start = to_string-IsStart (pos n) rest in
      ap (λ s. parse_value d size (suc fuel) (s ++ rest)) printed
      ∙ parse_value-digit fuel (to_string (pos n) ++ rest) start.0 (to_string_digit n rest)
      ∙ parse_number-to_string d size (pos n) rest (unfold IsPlain in plain) stops
  integer-IsRead (negsuc n) (suc fuel) rest plain stops enough =
      let printed : print_value d (integer (negsuc n)) ≡ to_string (negsuc n) =
        unfold print_value in refl in
      ap (λ s. parse_value d size (suc fuel) (s ++ rest)) printed
      ∙ sign fuel
      ∙ parse_number-to_string d size (negsuc n) rest (unfold IsPlain in plain) stops
    where
      sign :
          (fuel : ℕ)
          → parse_value d size (suc fuel) (to_string (negsuc n) ++ rest)
            ≡ parse_number d size (to_string (negsuc n) ++ rest)
      sign fuel =
          unfold parse_value in
          unfold skip_whitespace in unfold isspace in unfold isdigit in unfold to_string in refl

  double-IsRead : (x : d.carrier) → IsRead d size (double x)
  double-IsRead x fuel rest plain stops enough = absurd (unfold IsPlain in plain)

  none-AreRead : AreRead d size no_elements
  none-AreRead zero rest plain enough =
      let e : 1 ≤ 0 = unfold weight in enough in absurd (omega arith)
  none-AreRead (suc fuel) rest plain enough = parse_array-end d size fuel rest

  no_members-MembersAreRead : MembersAreRead d size no_members
  no_members-MembersAreRead zero acc rest rising behind enough =
      let e : 1 ≤ 0 = unfold weight in enough in absurd (omega arith)
  no_members-MembersAreRead (suc fuel) acc rest rising behind enough =
      parse_object-end d size fuel acc rest

  mutual
    pub value-IsRead : (v : JsonValue d.carrier) → IsRead d size v
    value-IsRead null = null-IsRead
    value-IsRead (boolean b) = boolean-IsRead b
    value-IsRead (integer i) = integer-IsRead i
    value-IsRead (double x) = double-IsRead x
    value-IsRead (string s) = string-IsRead s
    value-IsRead (array vs) = array-IsRead vs (elements-AreRead vs)
    value-IsRead (object o) = object-IsRead o (members-MembersAreRead o)

    elements-AreRead : (vs : JsonArray d.carrier) → AreRead d size vs
    elements-AreRead no_elements = none-AreRead
    elements-AreRead (element v vs) =
        element-AreRead d size v vs (value-IsRead v) (elements-AreRead vs)

    members-MembersAreRead : (o : JsonObject d.carrier) → MembersAreRead d size o
    members-MembersAreRead no_members = no_members-MembersAreRead
    members-MembersAreRead (member k v o) =
        member-MembersAreRead d size k v o (value-IsRead v) (members-MembersAreRead o)
