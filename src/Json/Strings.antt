-- ===== src/Json/Strings.antt =====
-- Strings in src/tools/json.rs: `write_string`, and the reader of a string with its escapes.
pub mod Spelling
pub mod Escapes
use rtp_mux.Prelude.{
  ℕ, zero, suc, ◌+◌, ◌-◌, ◌*◌, ◌/◌, ◌%◌, ◌≡◌, ◌≢◌, ◌<◌, ◌≤◌, refl, sym, ap, ◌∙◌, Bool, true, false,
  ◌&&◌, ◌||◌, Option, none, some, List, [], ◌∷◌, ◌++◌, eqb, ltb, leb, if◌then◌else◌, length, take,
  arith, if-holds_by, if-holds, Result, ok, err, and_then, length-append,
}
use rtp_mux.Json.Utf8.{
  is_char, IsText, encode_utf8, from_utf8, utf8_width, IsCharacter, character,
  encode_utf8-IsCharacter,
}

-- The messages of a refused text, without the positions in them. `out_of_fuel` has no counterpart in
-- the code.
pub data ParseError : Type 0 where
  expected unexpected expected_word expected_comma_or_end : ParseError
  unterminated_string unterminated_escape unknown_escape invalid_utf8 : ParseError
  truncated_unicode_escape invalid_unicode_escape invalid_code_point : ParseError
  invalid_number trailing_content out_of_fuel : ParseError

hex_digit : ℕ → ℕ
hex_digit n = if ltb n 10 then b'0' + n else b'a' + n - 10

escape : ℕ → List ℕ
escape c = b'\\' ∷ c ∷ []

-- What `write_string` pushes for a character.
unfoldable pub write_char : ℕ → List ℕ
unfolding escape hex_digit
write_char c =
    if eqb c b'"'
    then escape b'"'
    else if eqb c b'\\'
    then escape b'\\'
    else if eqb c b'\n'
    then escape b'n'
    else if eqb c b'\r'
    then escape b'r'
    else if eqb c b'\t'
    then escape b't'
    else if eqb c 8
    then escape b'b'
    else if eqb c 12
    then escape b'f'
    else if ltb c 0x20
    then b'\\' ∷ b'u' ∷ b'0' ∷ b'0' ∷ hex_digit (c / 16) ∷ hex_digit (c % 16) ∷ []
    else encode_utf8 c

unfoldable pub write_chars : List ℕ → List ℕ
unfolding write_char
write_chars [] = b'"' ∷ []
write_chars (c ∷ cs) = write_char c ++ write_chars cs

unfoldable pub write_string : List ℕ → List ℕ
unfolding write_chars
write_string text = b'"' ∷ write_chars text

hex_value : ℕ → Option ℕ
hex_value b =
    if leb b'0' b && leb b b'9'
    then some (b - b'0')
    else if leb b'a' b && leb b b'f'
    then some (b - b'a' + 10)
    else if leb b'A' b && leb b b'F'
    then some (b - b'A' + 10)
    else none

hex_onto : ℕ → List ℕ → Option ℕ
unfolding hex_value
hex_onto n [] = some n
hex_onto n (b ∷ bs) = elim (hex_value b) [ none ↦ none | some d ↦ hex_onto (n * 16 + d) bs ]

-- `u32::from_str_radix(text, 16)` of four bytes, which may start with a plus sign.
unfoldable pub radix16 : (a b c d : ℕ) → Option ℕ
unfolding hex_onto
radix16 a b c d =
    if eqb a b'+' then hex_onto 0 (b ∷ c ∷ d ∷ []) else hex_onto 0 (a ∷ b ∷ c ∷ d ∷ [])

unfoldable pub char_from_u32 : Option ℕ → List ℕ → Result ParseError (ℕ × List ℕ)
char_from_u32 none rest = err invalid_unicode_escape
char_from_u32 (some code) rest = if is_char code then ok (code, rest) else err invalid_code_point

unfoldable pub unicode_escape : List ℕ → Result ParseError (ℕ × List ℕ)
unfolding radix16 char_from_u32
unicode_escape (a ∷ b ∷ c ∷ d ∷ rest) = char_from_u32 (radix16 a b c d) rest
unicode_escape _ = err truncated_unicode_escape

unfoldable pub read_escape : List ℕ → Result ParseError (ℕ × List ℕ)
unfolding unicode_escape
read_escape [] = err unterminated_escape
read_escape (e ∷ rest) =
    if eqb e b'"'
    then ok (b'"', rest)
    else if eqb e b'\\'
    then ok (b'\\', rest)
    else if eqb e b'/'
    then ok (b'/', rest)
    else if eqb e b'b'
    then ok (8, rest)
    else if eqb e b'f'
    then ok (12, rest)
    else if eqb e b'n'
    then ok (b'\n', rest)
    else if eqb e b'r'
    then ok (b'\r', rest)
    else if eqb e b't'
    then ok (b'\t', rest)
    else if eqb e b'u'
    then unicode_escape rest
    else err unknown_escape

unfoldable pub read_plain : Option ℕ → List ℕ → Result ParseError (ℕ × List ℕ)
read_plain none rest = err invalid_utf8
read_plain (some c) rest = ok (c, rest)

unfoldable pub drop : ℕ → List ℕ → List ℕ
drop zero xs = xs
drop (suc n) [] = []
drop (suc n) (x ∷ xs) = drop n xs

unfoldable pub read_char : ℕ → List ℕ → Result ParseError (ℕ × List ℕ)
unfolding read_escape read_plain drop
read_char b rest =
    if eqb b b'\\'
    then read_escape rest
    else read_plain (from_utf8 (take (utf8_width b) (b ∷ rest))) (drop (utf8_width b) (b ∷ rest))

-- The loop of `string`, behind the opening quote; each round takes a byte at least.
unfoldable pub string_loop : ℕ → List ℕ → List ℕ → Result ParseError (List ℕ × List ℕ)
unfolding read_char
string_loop zero out bytes = err out_of_fuel
string_loop (suc fuel) out [] = err unterminated_string
string_loop (suc fuel) out (b ∷ rest) =
    let more = and_then (read_char b rest) λ (c, left). string_loop fuel (out ++ c ∷ []) left in
    if eqb b b'"' then ok (out, rest) else more

unfoldable pub expect : ℕ → List ℕ → Result ParseError (List ℕ)
expect byte [] = err expected
expect byte (b ∷ rest) = if eqb b byte then ok rest else err expected

unfoldable pub string : List ℕ → Result ParseError (List ℕ × List ℕ)
unfolding string_loop expect
string bytes = and_then (expect b'"' bytes) λ rest. string_loop (suc (length rest)) [] rest
