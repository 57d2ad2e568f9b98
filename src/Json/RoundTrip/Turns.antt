-- ===== src/Json/RoundTrip/Turns.antt =====
-- What the printer writes, the parser reads back: the turns of the parser's loops.
use r4r.Base.{ℕ, suc, Str, ◌∷◌, ◌++◌, false, eqb}
use r4r.Base.{Result, ok, ◌>>=◌, isspace, list_eq, nat_eq, ◌≡◌, refl, ap, ◌∙◌}
use r4r.Json.{
  Double, JsonValue, JsonArray, no_elements, element, JsonObject, emplace, print_value, escape_all,
}
use r4r.Json.Parser.{
  skip_whitespace, current, parse_string, next_element, next_member, next_value, parse_value,
  parse_array, parse_object,
}
use r4r.Json.RoundTrip.{parse_characters-escape_all}
use r4r.Json.RoundTrip.Texts.{print_value-IsStart}
use r4r.Json.RoundTrip.Plain.{IsPlain}

module _ (d : Double) (size : ℕ) where
  -- One turn of the loop of an array, when its element is read.
  pub parse_array-element :
      (fuel : ℕ) (v : JsonValue d.carrier) (more : Str)
      → IsPlain v
      → parse_value d size fuel (print_value d v ++ more) ≡ ok (v, more)
      → parse_array d size (suc fuel) (print_value d v ++ more)
        ≡ next_element d size (parse_array d size fuel) (v, more)
  unfolding parse_array next_element
  parse_array-element fuel v more plain read =
      let (kept, other) = print_value-IsStart d v more plain in
      turn (print_value d v ++ more) kept other read
    where
      turn :
          (s : Str)
          → skip_whitespace s ≡ s
          → eqb (current s) b']' ≡ false
          → parse_value d size fuel s ≡ ok (v, more)
          → parse_array d size (suc fuel) s
            ≡ next_element d size (parse_array d size fuel) (v, more)
      turn s kept other read = rw (parse_array, kept, other, read) refl

  -- Behind an element.
  pub next_element-last :
      (again : Str → Result (JsonArray d.carrier × Str)) (v : JsonValue d.carrier) (rest : Str)
      → next_element d size again (v, b']' ∷ rest)
        ≡ (again (b']' ∷ rest) >>= λ r. ok (element v r.0, r.1))
  unfolding next_element skip_whitespace isspace
  next_element-last again v rest = refl

  pub next_element-comma :
      (again : Str → Result (JsonArray d.carrier × Str)) (v : JsonValue d.carrier) (rest : Str)
      → next_element d size again (v, b',' ∷ rest) ≡ (again rest >>= λ r. ok (element v r.0, r.1))
  unfolding next_element skip_whitespace isspace
  next_element-comma again v rest = refl

  pub parse_array-end :
      (fuel : ℕ) (rest : Str) → parse_array d size (suc fuel) (b']' ∷ rest) ≡ ok (no_elements, rest)
  unfolding parse_array skip_whitespace isspace
  parse_array-end fuel rest = refl

  pub parse_object-end :
      (fuel : ℕ) (acc : JsonObject d.carrier) (rest : Str)
      → parse_object d size (suc fuel) acc (b'}' ∷ rest) ≡ ok (acc, rest)
  unfolding parse_object skip_whitespace isspace
  parse_object-end fuel acc rest = refl

  -- One turn of the loop of an object.
  pub parse_object-member :
      (fuel : ℕ) (acc : JsonObject d.carrier) (k : Str) (text : Str)
      → parse_object d size (suc fuel) acc (b'"' ∷ (escape_all k ++ b'"' ∷ b':' ∷ text))
        ≡ (parse_value d size fuel text >>= next_member d size (parse_object d size fuel) acc k)
  parse_object-member fuel acc k text =
      let key : parse_string size (b'"' ∷ (escape_all k ++ b'"' ∷ b':' ∷ text))
          ≡ ok (k, b':' ∷ text) =
        unfold parse_string in parse_characters-escape_all size k (b':' ∷ text) in
      let loop : parse_object d size (suc fuel) acc (b'"' ∷ (escape_all k ++ b'"' ∷ b':' ∷ text))
          ≡ (parse_string size (b'"' ∷ (escape_all k ++ b'"' ∷ b':' ∷ text))
              >>= next_value d size (parse_value d size fuel) (parse_object d size fuel) acc) =
        unfold parse_object in unfold skip_whitespace in unfold isspace in refl in
      loop
      ∙ ap (λ r. r >>= next_value d size (parse_value d size fuel) (parse_object d size fuel) acc)
          key
      ∙ unfold next_value in unfold skip_whitespace in unfold isspace in refl

  pub next_member-last :
      (again : JsonObject d.carrier → Str → Result (JsonObject d.carrier × Str))
      (acc : JsonObject d.carrier) (k : Str) (v : JsonValue d.carrier) (rest : Str)
      → next_member d size again acc k (v, b'}' ∷ rest) ≡ again (emplace k v acc) (b'}' ∷ rest)
  unfolding next_member skip_whitespace isspace
  next_member-last again acc k v rest = refl

  pub next_member-comma :
      (again : JsonObject d.carrier → Str → Result (JsonObject d.carrier × Str))
      (acc : JsonObject d.carrier) (k : Str) (v : JsonValue d.carrier) (rest : Str)
      → next_member d size again acc k (v, b',' ∷ rest) ≡ again (emplace k v acc) rest
  unfolding next_member skip_whitespace isspace
  next_member-comma again acc k v rest = refl
