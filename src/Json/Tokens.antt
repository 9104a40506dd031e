-- ===== src/Json/Tokens.antt =====
-- How the texts of src/tools/json.rs start and end, as its parser sees them.
use rtp_mux.Prelude.{
  ℕ, zero, suc, ◌+◌, ◌*◌, ◌<◌, ◌≤◌, ◌≡◌, refl, inl, sym, ap, subst, ◌∙◌, Bool, true, false, ◌||◌,
  not, Option, none, some, List, [], ◌∷◌, ◌++◌, eqb, ltb, if◌then◌else◌, Result, ok, err, and_then,
  length, length-append, arith, if-holds_by,
}
use mathlib.Core.List.{append-nil, append_assoc}
use rtp_mux.Json.Types.{ℤ, pos, negsuc}
use rtp_mux.Json.Numbers.{
  AllDigits, StartsDigit, IsI64, decimal-value, display_int, decimal-AllDigits, decimal-StartsDigit,
  is_ascii_digit,
}
use rtp_mux.Json.Scan.{
  IsSign, no_sign, minus, fraction, no_exponent, is_ascii_whitespace, StartsToken,
}
use rtp_mux.Json.Parser.{closed_by, kind_at, starts_number}
use rtp_mux.Json.Grammar.{
  IsWhole, whole, SpellsInt, natural, negative, negative_zero, IsFloating, floating,
}

pub length-append_bytes : (xs ys : List ℕ) → length (xs ++ ys) ≡ length xs + length ys
length-append_bytes = length-append

-- for `omega`, on texts
pub ruleset lengths = (arith, length-append_bytes)

-- A text that starts as a value does: with no blank and no closing bracket.
abbrev pub StartsValue : List ℕ → Type 0
StartsValue [] = ⊥
StartsValue (b ∷ bs) = (is_ascii_whitespace b ≡ false) × (eqb b b']' ≡ false) × (eqb b b'}' ≡ false)

pub StartsValue-StartsToken : (bytes : List ℕ) → StartsValue bytes → StartsToken bytes
StartsValue-StartsToken [] h = h
StartsValue-StartsToken (b ∷ bs) h = h.0

pub StartsValue-append : (xs ys : List ℕ) → StartsValue xs → StartsValue (xs ++ ys)
StartsValue-append [] ys h = absurd h
StartsValue-append (x ∷ xs) ys h = h

pub closed_by-append :
    (xs ys : List ℕ)
    → StartsValue xs
    → (closed_by b']' (xs ++ ys) ≡ none) × (closed_by b'}' (xs ++ ys) ≡ none)
unfolding closed_by
closed_by-append [] ys h = absurd h
closed_by-append (x ∷ xs) ys (t, a, o) = (rw a refl, rw o refl)

StartsDigit-StartsValue : (ds ys : List ℕ) → StartsDigit ds → StartsValue (ds ++ ys)
unfolding is_ascii_digit is_ascii_whitespace
StartsDigit-StartsValue [] ys h = absurd h
StartsDigit-StartsValue (d ∷ ds) ys h = ground (arith, h)

-- A number starts with an optional minus and a digit.
pub number-StartsValue :
    (sign ds rest : List ℕ) → IsSign sign → StartsDigit ds → StartsValue (sign ++ (ds ++ rest))
unfolding is_ascii_whitespace
number-StartsValue _ ds rest no_sign d = StartsDigit-StartsValue ds rest d
number-StartsValue _ ds rest minus d = (refl, refl, refl)

pub kind_at-digit : (ds ys : List ℕ) → StartsDigit ds → kind_at (ds ++ ys) ≡ starts_number
unfolding kind_at is_ascii_digit
kind_at-digit [] ys h = absurd h
kind_at-digit (d ∷ ds) ys h = ground (arith, h)

pub kind_at-number :
    (sign ds rest : List ℕ)
    → IsSign sign
    → StartsDigit ds
    → kind_at (sign ++ (ds ++ rest)) ≡ starts_number
unfolding kind_at
kind_at-number _ ds rest no_sign d = kind_at-digit ds rest d
kind_at-number _ ds rest minus d = refl

pub SpellsInt-IsWhole : (z : ℤ) (text : List ℕ) → SpellsInt z text → IsWhole text
SpellsInt-IsWhole _ _ (natural n ds a d e h) = whole [] ds no_sign a d
SpellsInt-IsWhole _ _ (negative n ds a d e h) = whole (b'-' ∷ []) ds minus a d
SpellsInt-IsWhole _ _ (negative_zero ds a d e) = whole (b'-' ∷ []) ds minus a d

pub IsWhole-StartsValue : (text : List ℕ) → IsWhole text → StartsValue text
IsWhole-StartsValue _ (whole sign ds s a d) =
    subst (λ l. StartsValue (sign ++ l)) (append-nil ds) (number-StartsValue sign ds [] s d)

pub IsWhole-kind_at : (text rest : List ℕ) → IsWhole text → kind_at (text ++ rest) ≡ starts_number
IsWhole-kind_at _ rest (whole sign ds s a d) =
    rw (append_assoc sign ds rest) (kind_at-number sign ds rest s d)

pub IsFloating-StartsValue : (text : List ℕ) → IsFloating text → StartsValue text
IsFloating-StartsValue _ (floating sign ds f e s a d fr ex p) =
    number-StartsValue sign ds (f ++ e) s d

pub IsFloating-kind_at :
    (text rest : List ℕ) → IsFloating text → kind_at (text ++ rest) ≡ starts_number
IsFloating-kind_at _ rest (floating sign ds f e s a d fr ex p) =
    rw (append_assoc sign (ds ++ (f ++ e)) rest, append_assoc ds (f ++ e) rest)
      (kind_at-number sign ds ((f ++ e) ++ rest) s d)

-- An i64 is written as a text of it.
pub display_int-SpellsInt : (z : ℤ) → IsI64 z → SpellsInt z (display_int z)
unfolding display_int
display_int-SpellsInt (pos n) h =
    natural n _ (decimal-AllDigits n) (decimal-StartsDigit n) (decimal-value n (omega arith)) h
display_int-SpellsInt (negsuc n) h =
    negative n _ (decimal-AllDigits (suc n)) (decimal-StartsDigit (suc n))
      (decimal-value (suc n) (omega arith)) h

-- A decimal number with a fraction.
pub data IsPointed : List ℕ → Type 0 where
  pointed :
      (sign ds f : List ℕ)
      → IsSign sign
      → AllDigits ds
      → StartsDigit ds
      → AllDigits f
      → IsPointed (sign ++ (ds ++ b'.' ∷ f))

pub IsPointed-IsFloating : (bytes : List ℕ) → IsPointed bytes → IsFloating bytes
IsPointed-IsFloating _ (pointed sign ds f s a d fr) =
    subst (λ l. IsFloating (sign ++ (ds ++ l))) (append-nil (b'.' ∷ f))
      (floating sign ds (b'.' ∷ f) [] s a d (fraction f fr) no_exponent (inl λ e. cc))
