-- ===== src/Json/RoundTrip/Texts.antt =====
-- What the printer writes, the parser reads back: the texts that the parser meets.
use r4r.Base.{Str, [], ◌∷◌, ◌++◌, true, false, eqb, append_assoc}
use r4r.Base.{isspace, list_eq, nat_eq, ◌≡◌, refl, ap, ◌∙◌}
use r4r.Json.{
  Double, JsonValue, null, boolean, integer, double, string, array, object, JsonArray, no_elements,
  element, JsonObject, no_members, member, print_value, print_elements, print_members, print_string,
  escape_all,
}
use r4r.Json.Parser.{skip_whitespace, current}
use r4r.Json.RoundTrip.{to_string-IsStart}
use r4r.Json.RoundTrip.Plain.{IsPlain}

-- The text starts a value: it is not skipped, and does not close an array.
abbrev pub IsStart : Str → Type 0
IsStart s = (skip_whitespace s ≡ s) × (eqb (current s) b']' ≡ false)

module _ (d : Double) where
  pub print_value-IsStart :
      (v : JsonValue d.carrier) (rest : Str) → IsPlain v → IsStart (print_value d v ++ rest)
  unfolding print_value skip_whitespace IsPlain isspace
  print_value-IsStart null rest plain = (refl, refl)
  print_value-IsStart (boolean true) rest plain = (refl, refl)
  print_value-IsStart (boolean false) rest plain = (refl, refl)
  print_value-IsStart (integer i) rest plain = to_string-IsStart i rest
  print_value-IsStart (double x) rest plain = absurd plain
  print_value-IsStart (string s) rest plain = (refl, refl)
  print_value-IsStart (array no_elements) rest plain = (refl, refl)
  print_value-IsStart (array (element v vs)) rest plain = (refl, refl)
  print_value-IsStart (object no_members) rest plain = (refl, refl)
  print_value-IsStart (object (member k v o)) rest plain = (refl, refl)

  -- The text of an array behind its bracket or a comma, and behind an element.
  abbrev pub elements_text : JsonArray d.carrier → Str → Str
  elements_text no_elements rest = b']' ∷ rest
  elements_text (element v vs) rest = print_value d v ++ (print_elements d vs ++ b']' ∷ rest)

  abbrev pub elements_more : JsonArray d.carrier → Str → Str
  elements_more vs rest = print_elements d vs ++ b']' ∷ rest

  abbrev pub members_text : JsonObject d.carrier → Str → Str
  members_text no_members rest = b'}' ∷ rest
  members_text (member k v o) rest =
      b'"' ∷ (escape_all k ++ b'"' ∷ b':' ∷ (print_value d v ++ (print_members d o ++ b'}' ∷ rest)))

  abbrev pub members_more : JsonObject d.carrier → Str → Str
  members_more o rest = print_members d o ++ b'}' ∷ rest

  pub print_elements-element :
      (v : JsonValue d.carrier) (vs : JsonArray d.carrier)
      → print_elements d (element v vs) ≡ b',' ∷ (print_value d v ++ print_elements d vs)
  unfolding print_value
  print_elements-element v vs = refl

  pub print_members-member :
      (k : Str) (v : JsonValue d.carrier) (o : JsonObject d.carrier)
      → print_members d (member k v o)
        ≡ b',' ∷ (print_string k ++ b':' ∷ (print_value d v ++ print_members d o))
  unfolding print_value
  print_members-member k v o = refl

  pub elements_more-element :
      (v : JsonValue d.carrier) (vs : JsonArray d.carrier) (rest : Str)
      → elements_more (element v vs) rest ≡ b',' ∷ elements_text (element v vs) rest
  elements_more-element v vs rest =
      ap (λ s. s ++ b']' ∷ rest) (print_elements-element v vs)
      ∙ ap (λ s. b',' ∷ s) (append_assoc (print_value d v) (print_elements d vs) (b']' ∷ rest))

  -- A printed member, with what follows it.
  member_assoc :
      (k p o rest : Str)
      → ((b'"' ∷ (escape_all k ++ b'"' ∷ [])) ++ b':' ∷ (p ++ o)) ++ rest
        ≡ b'"' ∷ (escape_all k ++ b'"' ∷ b':' ∷ (p ++ (o ++ rest)))
  member_assoc k p o rest =
      ap (λ s. b'"' ∷ s)
        (ap (λ s. s ++ rest) (append_assoc (escape_all k) (b'"' ∷ []) (b':' ∷ (p ++ o)))
          ∙ append_assoc (escape_all k) (b'"' ∷ b':' ∷ (p ++ o)) rest
          ∙ ap (λ s. escape_all k ++ b'"' ∷ b':' ∷ s) (append_assoc p o rest))

  pub members_more-member :
      (k : Str) (v : JsonValue d.carrier) (o : JsonObject d.carrier) (rest : Str)
      → members_more (member k v o) rest ≡ b',' ∷ members_text (member k v o) rest
  members_more-member k v o rest =
      ap (λ s. s ++ b'}' ∷ rest) (print_members-member k v o)
      ∙ ap (λ s. b',' ∷ s) (member_assoc k (print_value d v) (print_members d o) (b'}' ∷ rest))

  pub print_array_text :
      (vs : JsonArray d.carrier) (rest : Str)
      → print_value d (array vs) ++ rest ≡ b'[' ∷ elements_text vs rest
  print_array_text no_elements rest = unfold print_value in refl
  print_array_text (element v vs) rest =
      let printed : print_value d (array (element v vs))
          ≡ b'[' ∷ (print_value d v ++ (print_elements d vs ++ b']' ∷ [])) =
        unfold print_value in refl in
      ap (λ s. s ++ rest) printed
      ∙ ap (λ s. b'[' ∷ s)
          (append_assoc (print_value d v) (print_elements d vs ++ b']' ∷ []) rest
            ∙ ap (λ s. print_value d v ++ s) (append_assoc (print_elements d vs) (b']' ∷ []) rest))

  pub print_object_text :
      (o : JsonObject d.carrier) (rest : Str)
      → print_value d (object o) ++ rest ≡ b'{' ∷ members_text o rest
  print_object_text no_members rest = unfold print_value in refl
  print_object_text (member k v o) rest =
      let printed : print_value d (object (member k v o))
          ≡ b'{'
            ∷ (print_string k ++ b':' ∷ (print_value d v ++ (print_members d o ++ b'}' ∷ []))) =
        unfold print_value in refl in
      ap (λ s. s ++ rest) printed
      ∙ ap (λ s. b'{' ∷ s)
          (member_assoc k (print_value d v) (print_members d o ++ b'}' ∷ []) rest
            ∙ ap (λ s. b'"' ∷ (escape_all k ++ b'"' ∷ b':' ∷ (print_value d v ++ s)))
                (append_assoc (print_members d o) (b'}' ∷ []) rest))
