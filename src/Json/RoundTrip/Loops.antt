-- ===== src/Json/RoundTrip/Loops.antt =====
-- What the printer writes, the parser reads back: the loops of arrays and objects.
use r4r.Base.{ℕ, zero, suc, Str, ◌∷◌, ◌++◌, ◌+◌, ◌≤◌, arith}
use r4r.Base.{ok, ◌>>=◌, isdigit, list_eq, nat_eq, ◌≡◌, refl, sym, ap, ◌∙◌, subst}
use r4r.Json.{
  Double, JsonValue, JsonArray, no_elements, element, JsonObject, no_members, member, emplace,
  print_value,
}
use r4r.Json.Parser.{scan_number, next_element, next_member, parse_value, parse_array, parse_object}
use r4r.Json.RoundTrip.{Stops}
use r4r.Json.RoundTrip.Texts.{
  elements_text, elements_more, members_text, members_more, elements_more-element,
  members_more-member,
}
use r4r.Json.RoundTrip.Turns.{
  parse_array-element, next_element-last, next_element-comma, parse_object-member, next_member-last,
  next_member-comma,
}
use r4r.Json.RoundTrip.Plain.{
  IsPlain, ArePlain, IsRising, weight, weight_elements, weight_members, snoc, extend, AreBehind,
  emplace-snoc, AreBehind-snoc,
}

module _ (d : Double) (size : ℕ) where
  -- The value is read back from its text, whatever stops it.
  abbrev pub IsRead : JsonValue d.carrier → Type 0
  IsRead v =
      (fuel : ℕ) (rest : Str)
      → IsPlain v
      → Stops rest
      → weight v ≤ fuel
      → parse_value d size fuel (print_value d v ++ rest) ≡ ok (v, rest)

  abbrev pub AreRead : JsonArray d.carrier → Type 0
  AreRead vs =
      (fuel : ℕ) (rest : Str)
      → ArePlain vs
      → weight_elements vs ≤ fuel
      → parse_array d size fuel (elements_text d vs rest) ≡ ok (vs, rest)

  abbrev pub MembersAreRead : JsonObject d.carrier → Type 0
  MembersAreRead o =
      (fuel : ℕ) (acc : JsonObject d.carrier) (rest : Str)
      → IsRising o
      → AreBehind acc o
      → weight_members o ≤ fuel
      → parse_object d size fuel acc (members_text d o rest) ≡ ok (extend acc o, rest)

  comma-Stops : (s : Str) → Stops (b',' ∷ s)
  unfolding scan_number isdigit
  comma-Stops s = refl

  bracket-Stops : (s : Str) → Stops (b']' ∷ s)
  unfolding scan_number isdigit
  bracket-Stops s = refl

  brace-Stops : (s : Str) → Stops (b'}' ∷ s)
  unfolding scan_number isdigit
  brace-Stops s = refl

  elements_more-Stops : (vs : JsonArray d.carrier) (rest : Str) → Stops (elements_more d vs rest)
  elements_more-Stops no_elements rest = unfold print_value in bracket-Stops rest
  elements_more-Stops (element v vs) rest =
      subst Stops (sym (elements_more-element d v vs rest)) (comma-Stops _)

  members_more-Stops : (o : JsonObject d.carrier) (rest : Str) → Stops (members_more d o rest)
  members_more-Stops no_members rest = unfold print_value in brace-Stops rest
  members_more-Stops (member k v o) rest =
      subst Stops (sym (members_more-member d k v o rest)) (comma-Stops _)

  -- The loop of an array goes on behind an element.
  elements_go_on :
      (fuel : ℕ) (v : JsonValue d.carrier) (vs : JsonArray d.carrier) (rest : Str)
      → parse_array d size fuel (elements_text d vs rest) ≡ ok (vs, rest)
      → next_element d size (parse_array d size fuel) (v, elements_more d vs rest)
        ≡ ok (element v vs, rest)
  elements_go_on fuel v no_elements rest read =
      let more : elements_more d no_elements rest ≡ b']' ∷ rest = unfold print_value in refl in
      ap (λ s. next_element d size (parse_array d size fuel) (v, s)) more
      ∙ next_element-last d size (parse_array d size fuel) v rest
      ∙ ap (λ r. r >>= λ q. ok (element v q.0, q.1)) read
  elements_go_on fuel v (element w vs) rest read =
      ap (λ s. next_element d size (parse_array d size fuel) (v, s))
        (elements_more-element d w vs rest)
      ∙ next_element-comma d size (parse_array d size fuel) v (elements_text d (element w vs) rest)
      ∙ ap (λ r. r >>= λ q. ok (element v q.0, q.1)) read

  members_go_on :
      (fuel : ℕ) (acc : JsonObject d.carrier) (k : Str) (v : JsonValue d.carrier)
      (o result : JsonObject d.carrier) (rest : Str)
      → parse_object d size fuel (emplace k v acc) (members_text d o rest) ≡ ok (result, rest)
      → next_member d size (parse_object d size fuel) acc k (v, members_more d o rest)
        ≡ ok (result, rest)
  members_go_on fuel acc k v no_members result rest read =
      let more : members_more d no_members rest ≡ b'}' ∷ rest = unfold print_value in refl in
      ap (λ s. next_member d size (parse_object d size fuel) acc k (v, s)) more
      ∙ next_member-last d size (parse_object d size fuel) acc k v rest
      ∙ read
  members_go_on fuel acc k v (member j w o) result rest read =
      ap (λ s. next_member d size (parse_object d size fuel) acc k (v, s))
        (members_more-member d j w o rest)
      ∙ next_member-comma d size (parse_object d size fuel) acc k v
          (members_text d (member j w o) rest)
      ∙ read

  pub nothing_before : (o : JsonObject d.carrier) → AreBehind no_members o
  nothing_before no_members = tt
  nothing_before (member k v o) = (tt, nothing_before o)

  pub element-AreRead :
      (v : JsonValue d.carrier) (vs : JsonArray d.carrier)
      → IsRead v
      → AreRead vs
      → AreRead (element v vs)
  element-AreRead v vs read_v read_vs zero rest plain enough =
      let e : suc (weight v + weight_elements vs) ≤ 0 = unfold weight in enough in
      absurd (omega arith)
  element-AreRead v vs read_v read_vs (suc fuel) rest plain enough =
      let e : suc (weight v + weight_elements vs) ≤ suc fuel = unfold weight in enough in
      let p : IsPlain v × ArePlain vs = unfold IsPlain in plain in
      parse_array-element d size fuel v (elements_more d vs rest) p.0
        (read_v fuel (elements_more d vs rest) p.0 (elements_more-Stops vs rest) (omega arith))
      ∙ elements_go_on fuel v vs rest (read_vs fuel rest p.1 (omega arith))

  pub member-MembersAreRead :
      (k : Str) (v : JsonValue d.carrier) (o : JsonObject d.carrier)
      → IsRead v
      → MembersAreRead o
      → MembersAreRead (member k v o)
  member-MembersAreRead k v o read_v read_o zero acc rest rising behind enough =
      let e : suc (weight v + weight_members o) ≤ 0 = unfold weight in enough in
      absurd (omega arith)
  member-MembersAreRead k v o read_v read_o (suc fuel) acc rest rising behind enough =
      let e : suc (weight v + weight_members o) ≤ suc fuel = unfold weight in enough in
      let p : IsPlain v × (AreBehind (member k v no_members) o × IsRising o) =
        unfold IsPlain in rising in
      let later = AreBehind-snoc k v acc o behind.1 p.1.0 in
      let rest_read : parse_object d size fuel (emplace k v acc) (members_text d o rest)
          ≡ ok (extend (snoc acc k v) o, rest) =
        ap (λ a. parse_object d size fuel a (members_text d o rest)) (emplace-snoc k v acc behind.0)
        ∙ read_o fuel (snoc acc k v) rest p.1.1 later (omega arith) in
      parse_object-member d size fuel acc k (print_value d v ++ members_more d o rest)
      ∙ ap (λ r. r >>= next_member d size (parse_object d size fuel) acc k)
          (read_v fuel (members_more d o rest) p.0 (members_more-Stops o rest) (omega arith))
      ∙ members_go_on fuel acc k v o (extend (snoc acc k v) o) rest rest_read
