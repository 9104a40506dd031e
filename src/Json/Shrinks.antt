-- ===== src/Json/Shrinks.antt =====
-- What the parts of the parser of src/tools/json.rs leave of their input: always less of it.
use rtp_mux.Prelude.{
  ℕ, suc, ◌+◌, ◌<◌, ◌≤◌, ◌≡◌, true, some, List, [], ◌∷◌, eqb, Result, ok, and_then, length, arith,
  Option-cases, Bool-cases, inl, inr,
}
use rtp_mux.Json.Types.{Json}
use rtp_mux.Json.Numbers.{digits, is_ascii_digit}
use rtp_mux.Json.Strings.{ParseError, expect, string}
use rtp_mux.Json.Scan.{
  skip_whitespace, scan_minus, scan_sign, scan_fraction, scan_exponent, scan_number,
}
use rtp_mux.Json.Parser.{
  kind_at, starts_number, starts_with, closed_by, literal, str_value, object_start, object_body,
  array_start, array_body, after_element, member_key, Parsed,
}
use rtp_mux.Json.Fuel.{
  Within, within, refused, Within-and_then, Within-if, length-skip_whitespace, string-Within,
}

length-digits : (bytes : List ℕ) → length (digits bytes).1 ≤ length bytes
unfolding digits
length-digits [] = omega arith
length-digits (b ∷ bs) = ground (arith, length-digits bs)

length-digits_positive :
    (b : ℕ) (bs : List ℕ) → is_ascii_digit b ≡ true → length (digits (b ∷ bs)).1 ≤ length bs
unfolding digits
length-digits_positive b bs h = ground (arith, h, length-digits bs)

length-scan_sign : (bytes : List ℕ) → length (scan_sign bytes).1 ≤ length bytes
unfolding scan_sign
length-scan_sign [] = omega arith
length-scan_sign (b ∷ bs) = ground arith

length-scan_fraction : (bytes : List ℕ) → length (scan_fraction bytes).1 ≤ length bytes
unfolding scan_fraction
length-scan_fraction [] = omega arith
length-scan_fraction (b ∷ bs) = ground (arith, length-digits bs)

length-scan_exponent : (bytes : List ℕ) → length (scan_exponent bytes).1 ≤ length bytes
unfolding scan_exponent
length-scan_exponent [] = omega arith
length-scan_exponent (b ∷ bs) = ground (arith, length-digits (scan_sign bs).1, length-scan_sign bs)

-- A sign or a digit is taken where a number starts.
length-scan_minus-digits :
    (b : ℕ) (bs : List ℕ)
    → kind_at (b ∷ bs) ≡ starts_number
    → length (digits (scan_minus (b ∷ bs)).1).1 ≤ length bs
unfolding scan_minus kind_at
length-scan_minus-digits b bs k = ground (arith, k, length-digits bs, length-digits_positive b bs)

pub length-scan_number :
    (b : ℕ) (bs : List ℕ)
    → kind_at (b ∷ bs) ≡ starts_number
    → length (scan_number (b ∷ bs)).rest ≤ length bs
unfolding scan_number
length-scan_number b bs k =
    let r1 = (digits (scan_minus (b ∷ bs)).1).1 in
    omega (
      arith,
      length-scan_minus-digits b bs k,
      length-scan_fraction r1,
      length-scan_exponent (scan_fraction r1).1,
    )

length-starts_with :
    (word bytes rest : List ℕ)
    → starts_with word bytes ≡ some rest
    → length word + length rest ≡ length bytes
unfolding starts_with
length-starts_with [] bytes rest e = ground (arith, e)
length-starts_with (w ∷ word) [] rest e = absurd (cc)
length-starts_with (w ∷ word) (b ∷ bytes) rest e =
    ground (arith, e, length-starts_with word bytes rest)

length-closed_by :
    (byte : ℕ) (bytes left : List ℕ)
    → closed_by byte bytes ≡ some left
    → suc (length left) ≡ length bytes
unfolding closed_by
length-closed_by byte [] left e = absurd (cc)
length-closed_by byte (b ∷ bs) left e = ground (arith, e)

module _ {F : Type 0} where
  pub literal-Within :
      (word bytes : List ℕ) (v : Json F)
      → 0 < length word
      → Within (length bytes) (literal word v bytes)
  unfolding literal
  literal-Within word bytes v h = elim (Option-cases (starts_with word bytes)) [
    | inl e ↦ rw (literal, e) (refused λ x. cc)
    | inr (rest, e) ↦ rw (literal, e) (within (omega (arith, length-starts_with word bytes rest e)))
  ]

  pub str_value-Within :
      (n : ℕ) (r : Result ParseError (List ℕ × List ℕ))
      → Within n r
      → Within n (str_value {F = F} r)
  unfolding str_value
  str_value-Within n r w = Within-and_then n n r _ w λ text rest l. within l

  object_body-Within :
      (loop : List ℕ → Parsed F) (n : ℕ) (bytes : List ℕ)
      → length bytes < n
      → Within n (loop bytes)
      → Within n (object_body loop bytes)
  unfolding object_body
  object_body-Within loop n bytes h w = elim (Option-cases (closed_by b'}' bytes)) [
    | inl e ↦ rw (object_body, e) w
    | inr (left, e) ↦
        rw (object_body, e) (within (omega (arith, length-closed_by b'}' bytes left e)))
  ]

  array_body-Within :
      (loop : List ℕ → Parsed F) (n : ℕ) (bytes : List ℕ)
      → length bytes < n
      → Within n (loop bytes)
      → Within n (array_body loop bytes)
  unfolding array_body
  array_body-Within loop n bytes h w = elim (Option-cases (closed_by b']' bytes)) [
    | inl e ↦ rw (array_body, e) w
    | inr (left, e) ↦
        rw (array_body, e) (within (omega (arith, length-closed_by b']' bytes left e)))
  ]

  -- A loop that stays within the bound of an input on what is left of it.
  abbrev pub Runs : (List ℕ → Parsed F) → List ℕ → Type 0
  Runs loop bytes = (left : List ℕ) → length left < length bytes → Within (length bytes) (loop left)

  expect-Within :
      (byte : ℕ) (body : List ℕ → Parsed F) (bytes : List ℕ)
      → Runs body bytes
      → Within (length bytes) (and_then (expect byte bytes) body)
  unfolding expect
  expect-Within byte body [] k = refused λ x. cc
  expect-Within byte body (b ∷ rest) k = elim (Bool-cases (eqb b byte)) [
    | inl e ↦ rw (expect, e) (k rest (omega arith))
    | inr e ↦ rw (expect, e) (refused λ x. cc)
  ]

  pub object_start-Within :
      (loop : List ℕ → Parsed F) (bytes : List ℕ)
      → Runs loop bytes
      → Within (length bytes) (object_start loop bytes)
  unfolding object_start
  object_start-Within loop bytes k = expect-Within b'{' _ bytes λ left h.
      let shorter : length (skip_whitespace left) < length bytes =
        omega (arith, length-skip_whitespace left) in
      object_body-Within loop (length bytes) (skip_whitespace left) shorter
        (k (skip_whitespace left) shorter)

  pub array_start-Within :
      (loop : List ℕ → Parsed F) (bytes : List ℕ)
      → Runs loop bytes
      → Within (length bytes) (array_start loop bytes)
  unfolding array_start
  array_start-Within loop bytes k = expect-Within b'[' _ bytes λ left h.
      let shorter : length (skip_whitespace left) < length bytes =
        omega (arith, length-skip_whitespace left) in
      array_body-Within loop (length bytes) (skip_whitespace left) shorter
        (k (skip_whitespace left) shorter)

  pub after_element-Within :
      (close n : ℕ) (loop : List ℕ → Parsed F) (v : Json F) (bytes : List ℕ)
      → length bytes < n
      → ((left : List ℕ) → length left < length bytes → Within n (loop left))
      → Within n (after_element close loop v bytes)
  unfolding after_element
  after_element-Within close n loop v [] h k = refused λ x. cc
  after_element-Within close n loop v (b ∷ rest) h k =
      Within-if n (eqb b b',') (k rest (omega arith))
        (Within-if n (eqb b close) (within (omega arith)) (refused λ x. cc))

colon-Within :
    (key : List ℕ) (n : ℕ) (bytes : List ℕ)
    → length bytes < n
    → Within n (and_then (expect b':' bytes) λ left. ok (key, left))
unfolding expect
colon-Within key n [] h = refused λ x. cc
colon-Within key n (b ∷ rest) h = elim (Bool-cases (eqb b b':')) [
  | inl e ↦ rw (expect, e) (within (omega arith))
  | inr e ↦ rw (expect, e) (refused λ x. cc)
]

pub member_key-Within : (bytes : List ℕ) → Within (length bytes) (member_key bytes)
unfolding member_key expect
member_key-Within bytes =
    Within-and_then (length bytes) (length bytes) (string bytes) _ (string-Within bytes)
      λ key rest h.
        colon-Within key (length bytes) (skip_whitespace rest)
          (omega (arith, length-skip_whitespace rest))
