-- ===== src/Json/Numbers.antt =====
-- Numbers in src/tools/json.rs: how an i64 is written and parsed, and the spans of digits that the
-- reader of a number takes.
use rtp_mux.Prelude.{
  ℕ, zero, suc, ◌+◌, ◌-◌, ◌*◌, ◌/◌, ◌%◌, ◌^◌, ◌≡◌, ◌<◌, ◌≤◌, refl, ap, ◌∙◌, Bool, true, false, ◌&&◌,
  Option, none, some, List, [], ◌∷◌, ◌++◌, eqb, ltb, leb, if◌then◌else◌, arith, if-holds_by,
  if-holds,
}
use native.Mathlib.Nat.{pow-succ'}
use rtp_mux.Json.Types.{ℤ, pos, negsuc}

unfoldable pub is_ascii_digit : ℕ → Bool
is_ascii_digit b = leb b'0' b && leb b b'9'

abbrev pub AllDigits : List ℕ → Type 0
AllDigits [] = Unit
AllDigits (b ∷ bs) = (is_ascii_digit b ≡ true) × AllDigits bs

-- The digits of a number in front of others, with room for as many as the fuel.
decimal_onto : ℕ → ℕ → List ℕ → List ℕ
decimal_onto zero n digits = digits
decimal_onto (suc room) n digits =
    let more = decimal_onto room (n / 10) ((b'0' + n % 10) ∷ digits) in
    if ltb n 10 then (b'0' + n % 10) ∷ digits else more

-- `{number}` of a magnitude; twenty digits are enough below 2 ^ 64.
pub decimal : ℕ → List ℕ
unfolding decimal_onto
decimal n = decimal_onto 20 n []

unfoldable pub display_int : ℤ → List ℕ
unfolding decimal
display_int (pos n) = decimal n
display_int (negsuc n) = b'-' ∷ decimal (suc n)

abbrev pub value_onto : ℕ → List ℕ → ℕ
value_onto n [] = n
value_onto n (d ∷ ds) = value_onto (n * 10 + (d - b'0')) ds

all_digits : List ℕ → Bool
unfolding is_ascii_digit
all_digits [] = true
all_digits (d ∷ ds) = is_ascii_digit d && all_digits ds

-- The magnitude that the digits of a `parse::<i64>` give, unless it is above the limit.
magnitude : ℕ → List ℕ → Option ℕ
unfolding all_digits
magnitude limit [] = none
magnitude limit (d ∷ ds) =
    if all_digits (d ∷ ds) && leb (value_onto 0 (d ∷ ds)) limit
    then some (value_onto 0 (d ∷ ds))
    else none

unfoldable pub negated : ℕ → ℤ
negated zero = pos 0
negated (suc n) = negsuc n

-- `text.parse::<i64>()`
unfoldable pub parse_i64 : List ℕ → Option ℤ
unfolding magnitude negated
parse_i64 [] = none
parse_i64 (b ∷ bs) =
    if eqb b b'-'
    then elim (magnitude (2 ^ 63) bs) [ none ↦ none | some n ↦ some (negated n) ]
    else if eqb b b'+'
    then elim (magnitude (2 ^ 63 - 1) bs) [ none ↦ none | some n ↦ some (pos n) ]
    else elim (magnitude (2 ^ 63 - 1) (b ∷ bs)) [ none ↦ none | some n ↦ some (pos n) ]

-- The values of an i64.
abbrev pub IsI64 : ℤ → Type 0
IsI64 (pos n) = n < 2 ^ 63
IsI64 (negsuc n) = n < 2 ^ 63

-- The digits that a text starts with, and what follows them.
unfoldable pub digits : List ℕ → List ℕ × List ℕ
unfolding is_ascii_digit
digits [] = ([], [])
digits (b ∷ bs) =
    let (ds, rest) = digits bs in if is_ascii_digit b then (b ∷ ds, rest) else ([], b ∷ bs)

-- Whether a number cannot go on with what follows.
abbrev pub stops : List ℕ → Bool
stops [] = true
stops (b ∷ bs) =
    if is_ascii_digit b
    then false
    else if eqb b b'.'
    then false
    else if eqb b b'e'
    then false
    else if eqb b b'E'
    then false
    else true

-- A text that starts with a digit.
abbrev pub StartsDigit : List ℕ → Type 0
StartsDigit [] = ⊥
StartsDigit (b ∷ bs) = is_ascii_digit b ≡ true

pub digits-append :
    (ds rest : List ℕ) → AllDigits ds → digits rest ≡ ([], rest) → digits (ds ++ rest) ≡ (ds, rest)
unfolding digits
digits-append [] rest h e = e
digits-append (d ∷ ds) rest h e = ground (arith, h.0, digits-append ds rest h.1 e)

digit-mod : (n : ℕ) → is_ascii_digit (b'0' + n % 10) ≡ true
unfolding is_ascii_digit
digit-mod n = ground arith

digit-small : (n : ℕ) → (b'0' + n % 10) - b'0' ≡ n % 10
digit-small n = omega arith

decimal_onto-value :
    (room n : ℕ) (ds : List ℕ)
    → n < 10 ^ room
    → value_onto 0 (decimal_onto room n ds) ≡ value_onto n ds
unfolding decimal_onto
decimal_onto-value zero n ds h = ap (λ m. value_onto m ds) (omega arith)
decimal_onto-value (suc room) n ds h =
    if-holds_by (λ l. value_onto 0 l ≡ value_onto n ds) (ltb n 10) _ _
      (λ small. ap (λ m. value_onto m ds) (ground (arith, small)))
      (λ big.
        decimal_onto-value room (n / 10) ((b'0' + n % 10) ∷ ds)
          (omega (arith, h, pow-succ' 10 room))
        ∙ ap (λ m. value_onto m ds) (omega arith))

decimal_onto-AllDigits :
    (room n : ℕ) (ds : List ℕ) → AllDigits ds → AllDigits (decimal_onto room n ds)
unfolding decimal_onto
decimal_onto-AllDigits zero n ds h = h
decimal_onto-AllDigits (suc room) n ds h =
    if-holds AllDigits (ltb n 10) _ _ (digit-mod n, h)
      (decimal_onto-AllDigits room (n / 10) ((b'0' + n % 10) ∷ ds) (digit-mod n, h))

decimal_onto-StartsDigit :
    (room n : ℕ) (ds : List ℕ) → StartsDigit ds → StartsDigit (decimal_onto room n ds)
unfolding decimal_onto
decimal_onto-StartsDigit zero n ds h = h
decimal_onto-StartsDigit (suc room) n ds h =
    if-holds StartsDigit (ltb n 10) _ _ (digit-mod n)
      (decimal_onto-StartsDigit room (n / 10) ((b'0' + n % 10) ∷ ds) (digit-mod n))

pub decimal-AllDigits : (n : ℕ) → AllDigits (decimal n)
unfolding decimal
decimal-AllDigits n = decimal_onto-AllDigits 20 n [] tt

pub decimal-StartsDigit : (n : ℕ) → StartsDigit (decimal n)
unfolding decimal
decimal-StartsDigit n =
    if-holds StartsDigit (ltb n 10) _ _ (digit-mod n)
      (decimal_onto-StartsDigit 19 (n / 10) ((b'0' + n % 10) ∷ []) (digit-mod n))

pub decimal-value : (n : ℕ) → n < 10 ^ 20 → value_onto 0 (decimal n) ≡ n
unfolding decimal
decimal-value n h = decimal_onto-value 20 n [] h

all_digits-AllDigits : (ds : List ℕ) → AllDigits ds → all_digits ds ≡ true
unfolding all_digits
all_digits-AllDigits [] h = refl
all_digits-AllDigits (d ∷ ds) h = ground (arith, h.0, all_digits-AllDigits ds h.1)

magnitude-digits :
    (limit n : ℕ) (ds : List ℕ)
    → AllDigits ds
    → StartsDigit ds
    → value_onto 0 ds ≡ n
    → n ≤ limit
    → magnitude limit ds ≡ some n
unfolding magnitude
magnitude-digits limit n [] h s e l = absurd s
magnitude-digits limit n (d ∷ ds) h s e l = ground (arith, all_digits-AllDigits (d ∷ ds) h, e, l)

parse_i64-digits :
    (ds : List ℕ)
    → StartsDigit ds
    → parse_i64 ds ≡ elim (magnitude (2 ^ 63 - 1) ds) [ none ↦ none | some n ↦ some (pos n) ]
unfolding parse_i64 is_ascii_digit
parse_i64-digits [] s = absurd s
parse_i64-digits (d ∷ ds) s = ground (arith, s)

-- What digits are parsed as, alone and behind a minus.
pub parse_i64-natural :
    (n : ℕ) (ds : List ℕ)
    → AllDigits ds
    → StartsDigit ds
    → value_onto 0 ds ≡ n
    → n < 2 ^ 63
    → parse_i64 ds ≡ some (pos n)
parse_i64-natural n ds a d e h =
    rw (parse_i64-digits ds d, magnitude-digits (2 ^ 63 - 1) n ds a d e (omega arith)) refl

pub parse_i64-minus :
    (n : ℕ) (ds : List ℕ)
    → AllDigits ds
    → StartsDigit ds
    → value_onto 0 ds ≡ n
    → n ≤ 2 ^ 63
    → parse_i64 (b'-' ∷ ds) ≡ some (negated n)
unfolding parse_i64
parse_i64-minus n ds a d e h = rw (parse_i64, magnitude-digits (2 ^ 63) n ds a d e h) refl

pub digits-stops : (rest : List ℕ) → stops rest ≡ true → digits rest ≡ ([], rest)
unfolding digits
digits-stops [] h = refl
digits-stops (b ∷ bs) h = ground (arith, h)
