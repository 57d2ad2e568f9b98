-- ===== src/Json/RoundTrip/Whole.antt =====
-- What the printer writes, the parser reads back: the whole text.
use r4r.Base.{
  suc, Str, [], ◌∷◌, ◌++◌, Bool, true, false, ◌+◌, ◌*◌, ◌≤◌, length, length-append, append-nil,
  arith,
}
use r4r.Base.{ok, to_string, ℤ, pos, negsuc, ◌≡◌, refl, sym, ap, ◌∙◌, isdigit}
use r4r.Json.{
  Double, JsonValue, null, boolean, integer, double, string, array, object, JsonArray, no_elements,
  element, JsonObject, no_members, member, print_value, print_elements, print_members, print_string,
  escape_all,
}
use r4r.Json.Parser.{parse_value, parse, scan_number, current}
use r4r.Json.RoundTrip.{to_string_digit}
use r4r.Json.RoundTrip.Plain.{
  IsPlain, ArePlain, IsRising, weight, weight_elements, weight_members, AreBehind,
}
use r4r.Json.RoundTrip.Texts.{print_elements-element, print_members-member}
use r4r.Json.RoundTrip.Values.{value-IsRead}

digit_not_empty : (s : Str) → isdigit (current (s ++ [])) ≡ true → 1 ≤ length s
unfolding isdigit
digit_not_empty [] h = absurd (cc)
digit_not_empty (c ∷ s) h = omega arith

to_string-length : (i : ℤ) → 1 ≤ length (to_string i)
to_string-length (pos n) = digit_not_empty (to_string (pos n)) (to_string_digit n [])
to_string-length (negsuc n) = unfold to_string in omega arith

module _ (d : Double) where
  -- What one element, or one member, adds to the text.
  element_length : (p q : Str) → length (b',' ∷ (p ++ q)) ≡ suc (length p + length q)
  element_length p q = ap suc (length-append p q)

  member_length :
      (k p q : Str)
      → length (b',' ∷ ((b'"' ∷ k) ++ b':' ∷ (p ++ q)))
        ≡ suc (suc (length k + suc (length p + length q)))
  member_length k p q =
      ap (λ n. suc (suc n))
        (length-append k (b':' ∷ (p ++ q)) ∙ ap (λ n. length k + suc n) (length-append p q))

  abbrev IsBounded : JsonValue d.carrier → Type 0
  IsBounded v = IsPlain v → weight v ≤ 2 * length (print_value d v)

  abbrev AreBounded : JsonArray d.carrier → Type 0
  AreBounded vs = ArePlain vs → weight_elements vs ≤ 2 * length (print_elements d vs) + 1

  abbrev MembersAreBounded : JsonObject d.carrier → Type 0
  MembersAreBounded o = IsRising o → weight_members o ≤ 2 * length (print_members d o) + 1

  element-bound :
      (v : JsonValue d.carrier) (vs : JsonArray d.carrier)
      → IsBounded v
      → AreBounded vs
      → AreBounded (element v vs)
  element-bound v vs bv bvs plain =
      let p : IsPlain v × ArePlain vs = unfold IsPlain in plain in
      let w : weight_elements (element v vs) ≡ suc (weight v + weight_elements vs) =
        unfold weight in refl in
      let l =
        ap length (print_elements-element d v vs)
        ∙ element_length (print_value d v) (print_elements d vs) in
      let b1 = bv p.0 in let b2 = bvs p.1 in omega (arith, w, l, b1, b2)

  member-bound :
      (k : Str) (v : JsonValue d.carrier) (o : JsonObject d.carrier)
      → IsBounded v
      → MembersAreBounded o
      → MembersAreBounded (member k v o)
  member-bound k v o bv bo rising =
      let p : IsPlain v × (AreBehind (member k v no_members) o × IsRising o) =
        unfold IsPlain in rising in
      let w : weight_members (member k v o) ≡ suc (weight v + weight_members o) =
        unfold weight in refl in
      let l =
        ap length (print_members-member d k v o)
        ∙ member_length (escape_all k ++ b'"' ∷ []) (print_value d v) (print_members d o) in
      let b1 = bv p.0 in let b2 = bo p.1.1 in omega (arith, w, l, b1, b2)

  array-bound : (vs : JsonArray d.carrier) → AreBounded vs → IsBounded (array vs)
  array-bound no_elements bvs plain =
      let w : weight {D = d.carrier} (array no_elements) ≡ 2 = unfold weight in refl in
      let l : length (print_value d (array no_elements)) ≡ 2 = unfold print_value in refl in
      omega (arith, w, l)
  array-bound (element v vs) bvs plain =
      let b = bvs (unfold IsPlain in plain) in
      let w : weight (array (element v vs)) ≡ suc (weight_elements (element v vs)) =
        unfold weight in refl in
      let l1 : length (print_value d (array (element v vs)))
          ≡ suc (length (print_value d v ++ (print_elements d vs ++ b']' ∷ []))) =
        unfold print_value in refl in
      let l2 = length-append (print_value d v) (print_elements d vs ++ b']' ∷ []) in
      let l3 = length-append (print_elements d vs) (b']' ∷ []) in
      let l4 =
        ap length (print_elements-element d v vs)
        ∙ element_length (print_value d v) (print_elements d vs) in
      omega (arith, b, w, l1, l2, l3, l4)

  object-bound : (o : JsonObject d.carrier) → MembersAreBounded o → IsBounded (object o)
  object-bound no_members bo plain =
      let w : weight {D = d.carrier} (object no_members) ≡ 2 = unfold weight in refl in
      let l : length (print_value d (object no_members)) ≡ 2 = unfold print_value in refl in
      omega (arith, w, l)
  object-bound (member k v o) bo plain =
      let b = bo (unfold IsPlain in plain) in
      let w : weight (object (member k v o)) ≡ suc (weight_members (member k v o)) =
        unfold weight in refl in
      let l1 : length (print_value d (object (member k v o)))
          ≡ suc (
              length
                (print_string k ++ b':' ∷ (print_value d v ++ (print_members d o ++ b'}' ∷ [])))) =
        unfold print_value in refl in
      let l2 =
        length-append (print_string k)
          (b':' ∷ (print_value d v ++ (print_members d o ++ b'}' ∷ []))) in
      let l3 = length-append (print_value d v) (print_members d o ++ b'}' ∷ []) in
      let l4 = length-append (print_members d o) (b'}' ∷ []) in
      let l5 =
        ap length (print_members-member d k v o)
        ∙ member_length (escape_all k ++ b'"' ∷ []) (print_value d v) (print_members d o) in
      omega (arith, b, w, l1, l2, l3, l4, l5)

  null-bound : IsBounded null
  unfolding weight print_value
  null-bound plain = omega arith

  boolean-bound : (b : Bool) → IsBounded (boolean b)
  unfolding weight print_value
  boolean-bound true plain = omega arith
  boolean-bound false plain = omega arith

  integer-bound : (i : ℤ) → IsBounded (integer i)
  unfolding weight print_value
  integer-bound i plain = omega (arith, to_string-length i)

  double-bound : (x : d.carrier) → IsBounded (double x)
  double-bound x plain = absurd (unfold IsPlain in plain)

  string-bound : (s : Str) → IsBounded (string s)
  unfolding weight print_value
  string-bound s plain = omega arith

  no_elements-bound : AreBounded no_elements
  unfolding weight
  no_elements-bound plain = omega arith

  no_members-bound : MembersAreBounded no_members
  unfolding weight
  no_members-bound rising = omega arith

  mutual
    value_bound : (v : JsonValue d.carrier) → IsBounded v
    value_bound null = null-bound
    value_bound (boolean b) = boolean-bound b
    value_bound (integer i) = integer-bound i
    value_bound (double x) = double-bound x
    value_bound (string s) = string-bound s
    value_bound (array vs) = array-bound vs (elements_bound vs)
    value_bound (object o) = object-bound o (members_bound o)

    elements_bound : (vs : JsonArray d.carrier) → AreBounded vs
    elements_bound no_elements = no_elements-bound
    elements_bound (element v vs) = element-bound v vs (value_bound v) (elements_bound vs)

    members_bound : (o : JsonObject d.carrier) → MembersAreBounded o
    members_bound no_members = no_members-bound
    members_bound (member k v o) = member-bound k v o (value_bound v) (members_bound o)

  -- A value without doubles, with integers of 32 bits and with rising keys is read back from what
  -- the printer writes for it.
  pub parse-print_value : (v : JsonValue d.carrier) → IsPlain v → parse d (print_value d v) ≡ ok v
  unfolding parse
  parse-print_value v plain =
      let text = print_value d v in
      let bound = value_bound v plain in
      let read : parse_value d (length text) (2 * length text + 1) text ≡ ok (v, []) =
        ap (parse_value d (length text) (2 * length text + 1)) (sym (append-nil text))
        ∙ value-IsRead d (length text) v (2 * length text + 1) [] plain (unfold scan_number in refl)
            (omega (arith, bound)) in
      rw (parse, read) refl
