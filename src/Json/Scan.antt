-- ===== src/Json/Scan.antt =====
-- The bytes that the reader of a number in src/tools/json.rs takes: a sign, digits, a fraction and an
-- exponent; and what the reader does of blanks.
use rtp_mux.Prelude.{
  ℕ, ◌≡◌, refl, Bool, true, false, ◌||◌, List, [], ◌∷◌, ◌++◌, eqb, if◌then◌else◌, not, arith, ◌⊎◌,
  inl, inr,
}
use mathlib.Core.List.{append_assoc}
use rtp_mux.Json.Numbers.{
  digits, stops, AllDigits, digits-append, digits-stops, StartsDigit, is_ascii_digit,
}

unfoldable pub is_ascii_whitespace : ℕ → Bool
is_ascii_whitespace b = eqb b 32 || (eqb b 9 || (eqb b 10 || (eqb b 12 || eqb b 13)))

unfoldable pub skip_whitespace : List ℕ → List ℕ
unfolding is_ascii_whitespace
skip_whitespace [] = []
skip_whitespace (b ∷ bs) =
    let rest = skip_whitespace bs in if is_ascii_whitespace b then rest else b ∷ bs

-- What a step took, and what it left.
unfoldable pub scan_minus : List ℕ → List ℕ × List ℕ
scan_minus [] = ([], [])
scan_minus (b ∷ bs) = if eqb b b'-' then (b ∷ [], bs) else ([], b ∷ bs)

unfoldable pub scan_sign : List ℕ → List ℕ × List ℕ
scan_sign [] = ([], [])
scan_sign (b ∷ bs) = if eqb b b'+' || eqb b b'-' then (b ∷ [], bs) else ([], b ∷ bs)

unfoldable pub scan_fraction : List ℕ → List ℕ × List ℕ
scan_fraction [] = ([], [])
scan_fraction (b ∷ bs) =
    let (ds, rest) = digits bs in if eqb b b'.' then (b ∷ ds, rest) else ([], b ∷ bs)

unfoldable pub scan_exponent : List ℕ → List ℕ × List ℕ
unfolding scan_sign
scan_exponent [] = ([], [])
scan_exponent (b ∷ bs) =
    let (sign, left) = scan_sign bs in
    let (ds, rest) = digits left in
    if eqb b b'e' || eqb b b'E' then (b ∷ sign ++ ds, rest) else ([], b ∷ bs)

pub record Scanned : Type 0 where
  pub text : List ℕ
  pub rest : List ℕ
  pub is_float : Bool

abbrev pub is_empty : List ℕ → Bool
is_empty [] = true
is_empty (_ ∷ _) = false

unfoldable pub scan_number : List ℕ → Scanned
unfolding scan_minus scan_fraction scan_exponent
scan_number bytes =
    let (minus, r0) = scan_minus bytes in
    let (whole, r1) = digits r0 in
    let (fraction, r2) = scan_fraction r1 in
    let (exponent, r3) = scan_exponent r2 in
    record {
      text = minus ++ (whole ++ (fraction ++ exponent));
      rest = r3;
      is_float = not (is_empty fraction) || not (is_empty exponent);
    }

-- Blanks as the grammar allows them between tokens.
abbrev pub IsBlank : List ℕ → Type 0
IsBlank [] = Unit
IsBlank (b ∷ bs) = (is_ascii_whitespace b ≡ true) × IsBlank bs

-- A text that starts with a token.
abbrev pub StartsToken : List ℕ → Type 0
StartsToken [] = ⊥
StartsToken (b ∷ bs) = is_ascii_whitespace b ≡ false

pub skip_whitespace-token :
    (blanks bytes rest : List ℕ)
    → IsBlank blanks
    → StartsToken bytes
    → skip_whitespace (blanks ++ (bytes ++ rest)) ≡ bytes ++ rest
unfolding skip_whitespace
skip_whitespace-token [] [] rest h t = absurd t
skip_whitespace-token [] (b ∷ bs) rest h t = rw t refl
skip_whitespace-token (b ∷ blanks) bytes rest h t =
    ground (arith, h.0, skip_whitespace-token blanks bytes rest h.1 t)

-- Whether the whole part and the fraction of a number cannot go on with what follows.
abbrev pub halts : List ℕ → Bool
halts [] = true
halts (b ∷ bs) = if is_ascii_digit b then false else if eqb b b'.' then false else true

digits-halts : (rest : List ℕ) → halts rest ≡ true → digits rest ≡ ([], rest)
unfolding digits
digits-halts [] h = refl
digits-halts (b ∷ bs) h = ground (arith, h)

scan_fraction-halts : (rest : List ℕ) → halts rest ≡ true → scan_fraction rest ≡ ([], rest)
unfolding scan_fraction
scan_fraction-halts [] h = refl
scan_fraction-halts (b ∷ bs) h = ground (arith, h)

scan_exponent-stops : (rest : List ℕ) → stops rest ≡ true → scan_exponent rest ≡ ([], rest)
unfolding scan_exponent
scan_exponent-stops [] h = refl
scan_exponent-stops (b ∷ bs) h = ground (arith, h)

-- A fraction as it is written: none, or a point and digits.
pub data IsFraction : List ℕ → Type 0 where
  no_fraction : IsFraction []
  fraction : (ds : List ℕ) → AllDigits ds → IsFraction (b'.' ∷ ds)

-- A sign as it is written.
pub data IsSign : List ℕ → Type 0 where
  no_sign : IsSign []
  minus : IsSign (b'-' ∷ [])

scan_minus-sign :
    (sign ds rest : List ℕ)
    → IsSign sign
    → StartsDigit ds
    → scan_minus (sign ++ (ds ++ rest)) ≡ (sign, ds ++ rest)
unfolding scan_minus is_ascii_digit
scan_minus-sign _ [] rest s h = absurd h
scan_minus-sign _ (d ∷ ds) rest no_sign h = ground (arith, h)
scan_minus-sign _ (d ∷ ds) rest minus h = refl

-- An exponent as it is written: none, or a letter, a sign and digits.
pub data IsExponent : List ℕ → Type 0 where
  no_exponent : IsExponent []
  exponent :
      (e : ℕ) (sign ds : List ℕ)
      → (e ≡ b'e') ⊎ (e ≡ b'E')
      → (sign ≡ []) ⊎ ((sign ≡ b'+' ∷ []) ⊎ (sign ≡ b'-' ∷ []))
      → AllDigits ds
      → StartsDigit ds
      → IsExponent (e ∷ (sign ++ ds))

exponent-halts : (e rest : List ℕ) → IsExponent e → stops rest ≡ true → halts (e ++ rest) ≡ true
unfolding is_ascii_digit
exponent-halts _ [] no_exponent h = refl
exponent-halts _ (b ∷ bs) no_exponent h = ground (arith, h)
exponent-halts _ rest (exponent e sign ds l s a d) h = ground (arith, l)

scan_sign-append :
    (sign ds rest : List ℕ)
    → (sign ≡ []) ⊎ ((sign ≡ b'+' ∷ []) ⊎ (sign ≡ b'-' ∷ []))
    → StartsDigit ds
    → scan_sign (sign ++ (ds ++ rest)) ≡ (sign, ds ++ rest)
unfolding scan_sign is_ascii_digit
scan_sign-append sign [] rest s d = absurd d
scan_sign-append sign (x ∷ ds) rest (inl e) d = rw e (ground (arith, d))
scan_sign-append sign (x ∷ ds) rest (inr (inl e)) d = rw e refl
scan_sign-append sign (x ∷ ds) rest (inr (inr e)) d = rw e refl

scan_exponent-append :
    (e rest : List ℕ) → IsExponent e → stops rest ≡ true → scan_exponent (e ++ rest) ≡ (e, rest)
unfolding scan_exponent
scan_exponent-append _ rest no_exponent h = scan_exponent-stops rest h
scan_exponent-append _ rest (exponent e sign ds l s a d) h =
    let letter : (eqb e b'e' || eqb e b'E') ≡ true = ground (arith, l) in
    rw
      (
        append_assoc sign ds rest,
        scan_exponent,
        scan_sign-append sign ds rest s d,
        digits-append ds rest a (digits-stops rest h),
        letter,
      )
      refl

fraction-digits :
    (f rest : List ℕ) → IsFraction f → halts rest ≡ true → digits (f ++ rest) ≡ ([], f ++ rest)
unfolding digits
fraction-digits _ rest no_fraction h = digits-halts rest h
fraction-digits _ rest (fraction ds a) h = refl

scan_fraction-append :
    (f rest : List ℕ) → IsFraction f → halts rest ≡ true → scan_fraction (f ++ rest) ≡ (f, rest)
unfolding scan_fraction
scan_fraction-append _ rest no_fraction h = scan_fraction-halts rest h
scan_fraction-append _ rest (fraction ds a) h =
    rw (scan_fraction, digits-append ds rest a (digits-halts rest h)) refl

-- A number is taken as a whole.
pub scan_number-append :
    (sign ds f e rest : List ℕ)
    → IsSign sign
    → AllDigits ds
    → StartsDigit ds
    → IsFraction f
    → IsExponent e
    → stops rest ≡ true
    → scan_number (sign ++ (ds ++ (f ++ (e ++ rest)))) ≡ record {
      text = sign ++ (ds ++ (f ++ e));
      rest = rest;
      is_float = not (is_empty f) || not (is_empty e);
    }
unfolding scan_number
scan_number-append sign ds f e rest s a d fr ex h =
    let halt = exponent-halts e rest ex h in
    rw
      (
        scan_number,
        scan_minus-sign sign ds (f ++ (e ++ rest)) s d,
        digits-append ds (f ++ (e ++ rest)) a (fraction-digits f (e ++ rest) fr halt),
        scan_fraction-append f (e ++ rest) fr halt,
        scan_exponent-append e rest ex h,
      )
      refl
