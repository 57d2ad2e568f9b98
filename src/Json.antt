-- ===== src/Json.antt =====
-- src/json.h: JSON values, and their printer. `double` is a parameter: a type with what the standard
-- library prints and reads for it.
pub mod Parser
pub mod RoundTrip
mod Tests
use r4r.Base.{
  ℕ, Str, lit, [], ◌∷◌, ◌++◌, Option, Bool, true, false, ℤ, to_string, str_lt, if◌then◌else◌, ◌==◌,
  list_eq, nat_eq, eqb,
}

-- `double`, `os << d`, and std::from_chars where it succeeds on the whole text.
pub record Double : Type 1 where
  pub carrier : Type 0
  pub print : carrier → Str
  pub from_chars : Str → Option carrier

mutual
  pub data JsonValue (D : Type 0) : Type 0 where
    null : JsonValue D
    boolean : Bool → JsonValue D
    integer : ℤ → JsonValue D
    double : D → JsonValue D
    string : Str → JsonValue D
    array : JsonArray D → JsonValue D
    object : JsonObject D → JsonValue D

  pub data JsonArray (D : Type 0) : Type 0 where
    no_elements : JsonArray D
    element : JsonValue D → JsonArray D → JsonArray D

  -- A std::map: the keys rise.
  pub data JsonObject (D : Type 0) : Type 0 where
    no_members : JsonObject D
    member : Str → JsonValue D → JsonObject D → JsonObject D

-- `std::map::emplace`: the first value of a key stays.
unfoldable pub emplace : {D : Type 0} → Str → JsonValue D → JsonObject D → JsonObject D
emplace k v no_members = member k v no_members
emplace k v (member j w o) =
    let later = emplace k v o in
    if k == j
    then member j w o
    else if str_lt k j
    then member k v (member j w o)
    else member j w later

unfoldable pub escape : ℕ → Str
escape c =
    if eqb c b'"'
    then b'\\' ∷ b'"' ∷ []
    else if eqb c b'\\'
    then b'\\' ∷ b'\\' ∷ []
    else if eqb c 8
    then b'\\' ∷ b'b' ∷ []
    else if eqb c 12
    then b'\\' ∷ b'f' ∷ []
    else if eqb c 10
    then b'\\' ∷ b'n' ∷ []
    else if eqb c 13
    then b'\\' ∷ b'r' ∷ []
    else if eqb c 9
    then b'\\' ∷ b't' ∷ []
    else c ∷ []

unfoldable pub escape_all : Str → Str
escape_all [] = []
escape_all (c ∷ s) = escape c ++ escape_all s

abbrev pub print_string : Str → Str
print_string s = b'"' ∷ (escape_all s ++ b'"' ∷ [])

module _ (d : Double) where
  -- `JsonValuePrinter`; the elements and members behind the first have a comma before them.
  unfoldable mutual
    pub print_value : JsonValue d.carrier → Str
    print_value null = lit "null"
    print_value (boolean true) = lit "true"
    print_value (boolean false) = lit "false"
    print_value (integer i) = to_string i
    print_value (double x) = d.print x
    print_value (string s) = print_string s
    print_value (array no_elements) = lit "[]"
    print_value (array (element v vs)) = b'[' ∷ (print_value v ++ (print_elements vs ++ b']' ∷ []))
    print_value (object no_members) = lit "{}"
    print_value (object (member k v o)) =
        b'{' ∷ (print_string k ++ b':' ∷ (print_value v ++ (print_members o ++ b'}' ∷ [])))

    pub print_elements : JsonArray d.carrier → Str
    print_elements no_elements = []
    print_elements (element v vs) = b',' ∷ (print_value v ++ print_elements vs)

    pub print_members : JsonObject d.carrier → Str
    print_members no_members = []
    print_members (member k v o) =
        b',' ∷ (print_string k ++ b':' ∷ (print_value v ++ print_members o))
