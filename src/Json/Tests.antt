-- ===== src/Json/Tests.antt =====
-- Small JSON texts.
use r4r.Base.{
  lit, [], none, true, ok, throw, ◌≡◌, refl, pos, negsuc, isspace, isdigit, starts_with, list_eq,
  nat_eq, str_lt, arith, nat_to_string,
}
use r4r.Json.{
  Double, JsonValue, boolean, integer, string, array, object, no_elements, element, no_members,
  member, print_value,
}
use r4r.Json.Parser.{
  parse, parse_value, skip_whitespace, parse_number, as_number, scan_number, from_digits, decimal,
  parse_boolean, next_element, next_member, next_value, parse_string, parse_characters, error_at,
}
use r4r.Json.{emplace}
use r4r.Json.RoundTrip.Plain.{IsPlain}
use r4r.Json.RoundTrip.Whole.{parse-print_value}

-- No doubles.
abbrev no_doubles : Double
no_doubles = record { carrier = Unit; print = λ x. []; from_chars = λ s. none }

parse_array_text :
    parse no_doubles (lit "[1, -20,true]")
    ≡ ok (
        array (
          element
            (integer (pos 1))
            (element (integer (negsuc 19)) (element (boolean true) no_elements))))
unfolding parse parse_value skip_whitespace isspace isdigit parse_number as_number scan_number
    from_digits decimal parse_boolean starts_with next_element
parse_array_text = refl

-- A key need not begin with a quote, and a comma may stand before the closing brace.
loose_object :
    parse no_doubles (lit "{xa\":1,}") ≡ ok (object (member (lit "a") (integer (pos 1)) no_members))
unfolding parse parse_value skip_whitespace isspace isdigit parse_number as_number scan_number
    from_digits decimal next_member next_value parse_string parse_characters emplace
loose_object = refl

-- White space behind the value is refused.
trailing_space :
    parse no_doubles (lit "[] ")
    ≡ throw (lit "Unexpected reminder after JSON value parsed:   at offset 2")
unfolding parse parse_value skip_whitespace isspace isdigit error_at nat_to_string
trailing_space = refl

abbrev value : JsonValue Unit
value = object (
    member (lit "a") (array (element (integer (pos 1)) (element (integer (negsuc 19)) no_elements)))
      (member (lit "b") (string (lit "x\"y")) no_members))

value-IsPlain : IsPlain value
unfolding IsPlain list_eq nat_eq str_lt
value-IsPlain = ((omega arith, (omega arith, tt)), (((refl, refl, tt), tt), (tt, (tt, tt))))

parse-print_value_example : parse no_doubles (print_value no_doubles value) ≡ ok value
parse-print_value_example = parse-print_value no_doubles value value-IsPlain
