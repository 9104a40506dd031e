-- ===== src/Json/Parser.antt =====
-- The parser of src/tools/json.rs. Its state is the input that is left. `F` is f64, of which Text says
-- how a value is printed and parsed. What a call leaves of the input is not a structural part of it,
-- so each call of a value, and each round of a loop, costs a unit of fuel.
use rtp_mux.Prelude.{
  ℕ, zero, suc, ◌+◌, ◌*◌, Bool, true, false, Option, none, some, List, [], ◌∷◌, eqb, if◌then◌else◌,
  Result, ok, err, and_then, length, ◌||◌,
}
use rtp_mux.Json.Types.{
  Json, Items, Members, null, bool, int, float, str, array, object, no_items, no_members, push,
  insert,
}
use rtp_mux.Json.Numbers.{parse_i64, is_ascii_digit}
use rtp_mux.Json.Strings.{
  ParseError, unexpected, expected_word, expected_comma_or_end, invalid_number, trailing_content,
  out_of_fuel, expect, string,
}
use rtp_mux.Json.Scan.{skip_whitespace, scan_number, Scanned}

-- f64: its tests, its `Display`, and `parse::<f64>()`.
pub record Text (F : Type 0) : Type 0 where
  pub is_nan : F → Bool
  pub is_infinite : F → Bool
  pub is_positive : F → Bool
  pub display : F → List ℕ
  pub parse_f64 : List ℕ → Option F

-- The arm of `value` that a byte takes.
pub data Kind : Type 0 where
  opens_object opens_array quotes starts_true starts_false starts_null starts_number other : Kind

unfoldable pub kind_at : List ℕ → Kind
unfolding is_ascii_digit
kind_at [] = other
kind_at (b ∷ _) =
    if eqb b b'{'
    then opens_object
    else if eqb b b'['
    then opens_array
    else if eqb b b'"'
    then quotes
    else if eqb b b't'
    then starts_true
    else if eqb b b'f'
    then starts_false
    else if eqb b b'n'
    then starts_null
    else if eqb b b'-' || is_ascii_digit b
    then starts_number
    else other

abbrev pub word_true : List ℕ
word_true = b't' ∷ b'r' ∷ b'u' ∷ b'e' ∷ []

abbrev pub word_false : List ℕ
word_false = b'f' ∷ b'a' ∷ b'l' ∷ b's' ∷ b'e' ∷ []

abbrev pub word_null : List ℕ
word_null = b'n' ∷ b'u' ∷ b'l' ∷ b'l' ∷ []

unfoldable pub starts_with : List ℕ → List ℕ → Option (List ℕ)
starts_with [] bytes = some bytes
starts_with (w ∷ word) [] = none
starts_with (w ∷ word) (b ∷ bytes) =
    let rest = starts_with word bytes in if eqb w b then rest else none

-- What follows a byte, if the input starts with it.
unfoldable pub closed_by : ℕ → List ℕ → Option (List ℕ)
closed_by byte [] = none
closed_by byte (b ∷ rest) = if eqb b byte then some rest else none

-- A key and its colon.
unfoldable pub member_key : List ℕ → Result ParseError (List ℕ × List ℕ)
member_key bytes =
    and_then (string bytes)
      λ (key, rest). and_then (expect b':' (skip_whitespace rest)) λ left. ok (key, left)

abbrev pub Parsed : Type 0 → Type 0
Parsed F = Result ParseError (Json F × List ℕ)

module _ {F : Type 0} where
  unfoldable pub literal : List ℕ → Json F → List ℕ → Parsed F
  unfolding starts_with
  literal word v bytes = elim (starts_with word bytes) [
    | none ↦ err expected_word
    | some rest ↦ ok (v, rest)
  ]

  unfoldable pub str_value : Result ParseError (List ℕ × List ℕ) → Parsed F
  str_value r = and_then r λ (text, rest). ok (str text, rest)

  -- `object` and `array`, given their loops.
  unfoldable pub object_body : (List ℕ → Parsed F) → List ℕ → Parsed F
  unfolding closed_by
  object_body loop bytes = elim (closed_by b'}' bytes) [
    | some left ↦ ok (object no_members, left)
    | none ↦ loop bytes
  ]

  unfoldable pub object_start : (List ℕ → Parsed F) → List ℕ → Parsed F
  unfolding object_body
  object_start loop bytes =
      and_then (expect b'{' bytes) λ rest. object_body loop (skip_whitespace rest)

  unfoldable pub array_body : (List ℕ → Parsed F) → List ℕ → Parsed F
  unfolding closed_by
  array_body loop bytes = elim (closed_by b']' bytes) [
    | some left ↦ ok (array no_items, left)
    | none ↦ loop bytes
  ]

  unfoldable pub array_start : (List ℕ → Parsed F) → List ℕ → Parsed F
  unfolding array_body
  array_start loop bytes =
      and_then (expect b'[' bytes) λ rest. array_body loop (skip_whitespace rest)

  -- The end of a round: a comma and the next round, or the closing byte.
  unfoldable pub after_element : ℕ → (List ℕ → Parsed F) → Json F → List ℕ → Parsed F
  after_element close loop v [] = err expected_comma_or_end
  after_element close loop v (b ∷ rest) =
      if eqb b b','
      then loop rest
      else if eqb b close
      then ok (v, rest)
      else err expected_comma_or_end

  unfoldable pub finish : Json F → List ℕ → Result ParseError (Json F)
  finish v [] = ok v
  finish v (_ ∷ _) = err trailing_content

module _ {F : Type 0} (text_of : Text F) where
  unfoldable pub numeric : Scanned → Parsed F
  numeric s =
      if s.is_float
      then elim (text_of.parse_f64 s.text) [
        | none ↦ err invalid_number
        | some x ↦ ok (float x, s.rest)
      ]
      else elim (parse_i64 s.text) [ none ↦ err invalid_number | some z ↦ ok (int z, s.rest) ]

  unfoldable pub number : List ℕ → Parsed F
  unfolding numeric
  number bytes = numeric (scan_number bytes)

  -- The arms of `value`, given the loops of `object` and `array`.
  unfoldable pub value_arm : (List ℕ → Parsed F) → (List ℕ → Parsed F) → List ℕ → Kind → Parsed F
  unfolding literal number str_value object_start array_start
  value_arm members items bytes opens_object = object_start members bytes
  value_arm members items bytes opens_array = array_start items bytes
  value_arm members items bytes quotes = str_value (string bytes)
  value_arm members items bytes starts_true = literal word_true (bool true) bytes
  value_arm members items bytes starts_false = literal word_false (bool false) bytes
  value_arm members items bytes starts_null = literal word_null null bytes
  value_arm members items bytes starts_number = number bytes
  value_arm members items bytes other = err unexpected

  unfoldable pub value_of : (List ℕ → Parsed F) → (List ℕ → Parsed F) → List ℕ → Parsed F
  unfolding value_arm kind_at
  value_of members items bytes = value_arm members items bytes (kind_at bytes)

  unfoldable mutual
    unfolding value_of after_element member_key

    pub value : ℕ → List ℕ → Parsed F
    value zero bytes = err out_of_fuel
    value (suc fuel) bytes =
        value_of (members_loop fuel no_members) (items_loop fuel no_items) (skip_whitespace bytes)

    pub members_loop : ℕ → Members F → List ℕ → Parsed F
    members_loop zero map bytes = err out_of_fuel
    members_loop (suc fuel) map bytes = and_then (member_key (skip_whitespace bytes)) λ (key, rest).
        and_then (value fuel rest) λ (v, left).
          after_element b'}' (members_loop fuel (insert key v map)) (object (insert key v map))
            (skip_whitespace left)

    pub items_loop : ℕ → Items F → List ℕ → Parsed F
    items_loop zero items bytes = err out_of_fuel
    items_loop (suc fuel) items bytes = and_then (value fuel bytes) λ (v, left).
        after_element b']' (items_loop fuel (push items v)) (array (push items v))
          (skip_whitespace left)

  -- Every call and every round takes a byte at least, and a round makes one call.
  unfoldable pub parse : List ℕ → Result ParseError (Json F)
  unfolding value finish
  parse text =
      and_then (value (2 * length text + 1) text) λ (v, rest). finish v (skip_whitespace rest)
