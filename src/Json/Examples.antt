-- ===== src/Json/Examples.antt =====
-- The codec of src/tools/json.rs at concrete texts. Floats are two values: 1.5 and 2.
use rtp_mux.Prelude.{
  ◌++◌, Option, ℕ, ◌≡◌, ◌≢◌, refl, Bool, true, false, none, some, List, [], ◌∷◌, ◌++◌, eqb, ok, err,
  if◌then◌else◌, arith,
}
use rtp_mux.Json.Types.{
  pos, negsuc, Json, Members, null, int, float, str, array, object, no_items, item, no_members,
  member, compare_keys,
}
use rtp_mux.Json.Strings.{
  expected_comma_or_end, out_of_fuel, invalid_code_point, trailing_content, string, expect,
}
use rtp_mux.Json.Parser.{Text, parse}
use rtp_mux.Json.Writer.{to_compact, to_string}
use rtp_mux.Json.Grammar.{TextLaws, IsWhole, whole, IsDecimal, decimal_text}
use rtp_mux.Json.Scan.{no_sign, minus, no_fraction, fraction, skip_whitespace, scan_number}
use rtp_mux.Json.Numbers.{is_ascii_digit, digits, parse_i64}
use rtp_mux.Json.Ends.{parse-ends}
use rtp_mux.Json.RoundTrip.{parse-to_string, IsWritable}

-- The two floats are told apart by the first digit.
abbrev parse_float : List ℕ → Option Bool
parse_float [] = none
parse_float (b ∷ bs) = if eqb b b'1' then some true else if eqb b b'2' then some false else none

abbrev one_and_a_half : List ℕ
one_and_a_half = b'1' ∷ b'.' ∷ b'5' ∷ []

abbrev shown : Bool → List ℕ
shown true = one_and_a_half
shown false = b'2' ∷ []

abbrev two_floats : Text Bool
two_floats = record {
  is_nan = λ x. false;
  is_infinite = λ x. false;
  is_positive = λ x. true;
  display = shown;
  parse_f64 = parse_float;
}

parse_float-append : (t rest : List ℕ) → IsWhole t → parse_float (t ++ rest) ≡ parse_float t
parse_float-append _ rest (whole _ [] no_sign a d) = absurd d
parse_float-append _ rest (whole _ (d ∷ ds) no_sign a h) = refl
parse_float-append _ rest (whole _ ds minus a d) = refl

shown-IsDecimal : (x : Bool) → IsDecimal (shown x)
unfolding is_ascii_digit
shown-IsDecimal true =
    decimal_text [] (b'1' ∷ []) (b'.' ∷ b'5' ∷ []) no_sign (refl, tt) refl
      (fraction (b'5' ∷ []) (refl, tt))
shown-IsDecimal false = decimal_text [] (b'2' ∷ []) [] no_sign (refl, tt) refl no_fraction

two_floats-parsed : (x : Bool) → two_floats.parse_f64 (two_floats.display x) ≡ some x
two_floats-parsed true = refl
two_floats-parsed false = refl

two_floats-TextLaws : TextLaws two_floats
two_floats-TextLaws = record {
  display-IsDecimal = λ x f. shown-IsDecimal x;
  parse_f64-display = λ x f. two_floats-parsed x;
  parse_f64-point_zero = λ t w. parse_float-append t (b'.' ∷ b'0' ∷ []) w;
}

-- {"a": [-12, 2.0, "\u0001\n\"é"], "b": {}}
abbrev sample : Json Bool
sample = object (
    member (b'a' ∷ [])
      (array (
        item (int (negsuc 11)) (item (float false) (item (str (1 ∷ 10 ∷ 34 ∷ 233 ∷ [])) no_items))))
      (member (b'b' ∷ []) (object no_members) no_members))

sample-IsWritable : IsWritable two_floats sample
unfolding IsWritable compare_keys
sample-IsWritable = (
  ((refl, tt), (tt, tt)),
  (
    (refl, tt),
    (
      (omega arith, ((refl, refl), ((refl, (refl, (refl, (refl, tt)))), tt))),
      ((refl, tt), ((tt, tt), tt)),
    ),
  ),
)

parse-to_string_example :
    (parse two_floats (to_compact two_floats sample) ≡ ok sample)
    × (parse two_floats (to_string two_floats sample) ≡ ok sample)
parse-to_string_example = parse-to_string two_floats sample two_floats-TextLaws sample-IsWritable

-- "\u0061"
abbrev escaped_a : List ℕ
escaped_a = b'"' ∷ b'\\' ∷ b'u' ∷ b'0' ∷ b'0' ∷ b'6' ∷ b'1' ∷ b'"' ∷ []

-- [ "\u0061",1e5]
abbrev spaced : List ℕ
spaced = b'[' ∷ b' ' ∷ (escaped_a ++ b',' ∷ b'1' ∷ b'e' ∷ b'5' ∷ b']' ∷ [])

abbrev spaced_value : Json Bool
spaced_value = array (item (str (b'a' ∷ [])) (item (float true) no_items))

-- "\ud800"
lone_surrogate :
    string (b'"' ∷ b'\\' ∷ b'u' ∷ b'd' ∷ b'8' ∷ b'0' ∷ b'0' ∷ b'"' ∷ []) ≡ err invalid_code_point
unfolding string
lone_surrogate = refl

-- null 1
two_values : parse two_floats (b'n' ∷ b'u' ∷ b'l' ∷ b'l' ∷ b' ' ∷ b'1' ∷ []) ≡ err trailing_content
unfolding parse skip_whitespace
two_values = refl

-- [1
truncated : parse two_floats (b'[' ∷ b'1' ∷ []) ≡ err expected_comma_or_end
unfolding parse skip_whitespace scan_number digits parse_i64 expect
truncated = refl

abbrev key_a : List ℕ
key_a = b'a' ∷ []

abbrev twice : Members Bool
twice = member key_a (int (pos 1)) (member key_a null no_members)

-- {"a":1,"\u0061":null}
abbrev twice_text : List ℕ
twice_text =
    b'{'
    ∷ b'"'
    ∷ b'a'
    ∷ b'"'
    ∷ b':'
    ∷ b'1'
    ∷ b','
    ∷ (escaped_a ++ b':' ∷ b'n' ∷ b'u' ∷ b'l' ∷ b'l' ∷ b'}' ∷ [])

-- an unterminated string
parse-ends_example : parse two_floats (b'[' ∷ b'"' ∷ b'x' ∷ []) ≢ err out_of_fuel
parse-ends_example = parse-ends two_floats (b'[' ∷ b'"' ∷ b'x' ∷ [])
