-- ===== src/Json/RoundTrip/Plain.antt =====
-- The values that the round trip is about: no doubles, integers of 32 bits, keys that rise.
use r4r.Base.{ℕ, suc, Str, false, ◌+◌}
use r4r.Base.{◌==◌, list_eq, nat_eq, str_lt, ◌≡◌, refl, sym, ap, ◌∙◌}
use r4r.Json.{
  JsonValue, null, boolean, integer, double, string, array, object, JsonArray, no_elements, element,
  JsonObject, no_members, member, emplace,
}
use r4r.Json.RoundTrip.{IsInt}

module _ {D : Type 0} where
  abbrev pub snoc : JsonObject D → Str → JsonValue D → JsonObject D
  snoc no_members k v = member k v no_members
  snoc (member j w o) k v = member j w (snoc o k v)

  -- The key is behind all keys of the object, in the order of a std::map.
  abbrev pub IsBehind : Str → JsonObject D → Type 0
  IsBehind k no_members = Unit
  IsBehind k (member j w o) = ((k == j) ≡ false) × (str_lt k j ≡ false) × IsBehind k o

  abbrev pub AreBehind : JsonObject D → JsonObject D → Type 0
  AreBehind o no_members = Unit
  AreBehind o (member k v p) = IsBehind k o × AreBehind o p

  pub emplace-snoc :
      (k : Str) (v : JsonValue D) (o : JsonObject D) → IsBehind k o → emplace k v o ≡ snoc o k v
  unfolding emplace
  emplace-snoc k v no_members behind = refl
  emplace-snoc k v (member j w o) (other, later, behind) =
      rw (other, later) (ap (member j w) (emplace-snoc k v o behind))

  IsBehind-snoc :
      (j k : Str) (v : JsonValue D) (o : JsonObject D)
      → IsBehind j o
      → IsBehind j (member k v no_members)
      → IsBehind j (snoc o k v)
  IsBehind-snoc j k v no_members behind last = last
  IsBehind-snoc j k v (member i w o) (other, later, behind) last =
      (other, later, IsBehind-snoc j k v o behind last)

  pub AreBehind-snoc :
      (k : Str) (v : JsonValue D) (o p : JsonObject D)
      → AreBehind o p
      → AreBehind (member k v no_members) p
      → AreBehind (snoc o k v) p
  AreBehind-snoc k v o no_members behind last = tt
  AreBehind-snoc k v o (member j w p) (behind, behind') (last, last') =
      (IsBehind-snoc j k v o behind last, AreBehind-snoc k v o p behind' last')

  -- The members added one by one at the end.
  abbrev pub extend : JsonObject D → JsonObject D → JsonObject D
  extend acc no_members = acc
  extend acc (member k v o) = extend (snoc acc k v) o

  abbrev append : JsonObject D → JsonObject D → JsonObject D
  append no_members o = o
  append (member k v p) o = member k v (append p o)

  append-snoc :
      (p : JsonObject D) (k : Str) (v : JsonValue D) (o : JsonObject D)
      → append (snoc p k v) o ≡ append p (member k v o)
  append-snoc no_members k v o = refl
  append-snoc (member j w p) k v o = ap (member j w) (append-snoc p k v o)

  append-no_members : (p : JsonObject D) → append p no_members ≡ p
  append-no_members no_members = refl
  append-no_members (member k v p) = ap (member k v) (append-no_members p)

  extend-append : (p o : JsonObject D) → extend p o ≡ append p o
  extend-append p no_members = sym (append-no_members p)
  extend-append p (member k v o) = extend-append (snoc p k v) o ∙ append-snoc p k v o

  pub extend-no_members : (o : JsonObject D) → extend no_members o ≡ o
  extend-no_members o = extend-append no_members o

  unfoldable mutual
    pub IsPlain : JsonValue D → Type 0
    IsPlain null = Unit
    IsPlain (boolean b) = Unit
    IsPlain (integer i) = IsInt i
    IsPlain (double x) = ⊥
    IsPlain (string s) = Unit
    IsPlain (array vs) = ArePlain vs
    IsPlain (object o) = IsRising o

    pub ArePlain : JsonArray D → Type 0
    ArePlain no_elements = Unit
    ArePlain (element v vs) = IsPlain v × ArePlain vs

    pub IsRising : JsonObject D → Type 0
    IsRising no_members = Unit
    IsRising (member k v o) = IsPlain v × (AreBehind (member k v no_members) o × IsRising o)

  -- The calls of the parser that a value takes.
  unfoldable mutual
    pub weight : JsonValue D → ℕ
    weight null = 1
    weight (boolean b) = 1
    weight (integer i) = 1
    weight (double x) = 1
    weight (string s) = 1
    weight (array vs) = suc (weight_elements vs)
    weight (object o) = suc (weight_members o)

    pub weight_elements : JsonArray D → ℕ
    weight_elements no_elements = 1
    weight_elements (element v vs) = suc (weight v + weight_elements vs)

    pub weight_members : JsonObject D → ℕ
    weight_members no_members = 1
    weight_members (member k v o) = suc (weight v + weight_members o)
