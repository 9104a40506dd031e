-- ===== src/Json/Decimals.antt =====
-- The numbers that src/tools/json.rs writes, and how its parser takes every spelling of a number.
use rtp_mux.Prelude.{
  ℕ, suc, not, ◌≢◌, ◌⊎◌, inl, inr, ◌≡◌, refl, ap, ◌∙◌, Bool, true, false, ◌||◌, some, List, [], ◌∷◌,
  ◌++◌, eqb, if◌then◌else◌, ok, arith,
}
use mathlib.Core.List.{append-nil, append_assoc}
use rtp_mux.Json.Types.{ℤ, int, float}
use rtp_mux.Json.Numbers.{
  AllDigits, is_ascii_digit, stops, parse_i64, negated, parse_i64-natural, parse_i64-minus,
}
use rtp_mux.Json.Scan.{
  IsSign, no_sign, minus, no_fraction, no_exponent, fraction, is_empty, scan_number,
  scan_number-append,
}
use rtp_mux.Json.Parser.{Text, number, numeric}
use rtp_mux.Json.Writer.{format_float, contains}
use rtp_mux.Json.Grammar.{
  IsDecimal, decimal_text, IsWhole, whole, SpellsInt, natural, negative, negative_zero, IsFloating,
  floating, IsFinite, TextLaws,
}
use rtp_mux.Json.Tokens.{IsPointed, pointed, SpellsInt-IsWhole}

scan_number-IsWhole :
    (bytes rest : List ℕ)
    → IsWhole bytes
    → stops rest ≡ true
    → scan_number (bytes ++ rest) ≡ record { text = bytes; rest = rest; is_float = false }
scan_number-IsWhole _ rest (whole sign ds s a d) h =
    rw
      (
        append_assoc sign ds rest,
        scan_number-append sign ds [] [] rest s a d no_fraction no_exponent h,
        append-nil ds,
      )
      refl

has_part : (f e : List ℕ) → (f ≢ []) ⊎ (e ≢ []) → (not (is_empty f) || not (is_empty e)) ≡ true
has_part [] [] (inl h) = absurd (h refl)
has_part [] [] (inr h) = absurd (h refl)
has_part [] (b ∷ e) h = refl
has_part (b ∷ f) e h = refl

scan_number-IsFloating :
    (bytes rest : List ℕ)
    → IsFloating bytes
    → stops rest ≡ true
    → scan_number (bytes ++ rest) ≡ record { text = bytes; rest = rest; is_float = true }
scan_number-IsFloating _ rest (floating sign ds f e s a d fr ex p) h =
    rw
      (
        append_assoc sign (ds ++ (f ++ e)) rest,
        append_assoc ds (f ++ e) rest,
        append_assoc f e rest,
        scan_number-append sign ds f e rest s a d fr ex h,
        has_part f e p,
      )
      refl

contains-append :
    (b : ℕ) (xs ys : List ℕ) → contains b (xs ++ ys) ≡ (contains b xs || contains b ys)
unfolding contains
contains-append b [] ys = refl
contains-append b (x ∷ xs) ys = ground (arith, contains-append b xs ys)

contains-digits :
    (b : ℕ) (ds : List ℕ) → is_ascii_digit b ≡ false → AllDigits ds → contains b ds ≡ false
unfolding contains is_ascii_digit
contains-digits b [] n h = refl
contains-digits b (d ∷ ds) n h = ground (arith, n, h.0, contains-digits b ds n h.1)

-- Whether `format_float` finds that a text needs no point.
abbrev has_point : List ℕ → Bool
has_point t = contains b'.' t || (contains b'e' t || contains b'E' t)

abbrev completed : List ℕ → List ℕ
completed t = if has_point t then t else t ++ b'.' ∷ b'0' ∷ []

contains-sign : (b : ℕ) (sign : List ℕ) → eqb b'-' b ≡ false → IsSign sign → contains b sign ≡ false
unfolding contains
contains-sign b _ n no_sign = refl
contains-sign b _ n minus = rw n refl

has_point-whole : (sign ds : List ℕ) → IsSign sign → AllDigits ds → has_point (sign ++ ds) ≡ false
unfolding is_ascii_digit
has_point-whole sign ds s a =
    rw
      (
        contains-append b'.' sign ds,
        contains-append b'e' sign ds,
        contains-append b'E' sign ds,
        contains-sign b'.' sign refl s,
        contains-sign b'e' sign refl s,
        contains-sign b'E' sign refl s,
        contains-digits b'.' ds refl a,
        contains-digits b'e' ds refl a,
        contains-digits b'E' ds refl a,
      )
      refl

contains-point : (xs ys : List ℕ) → contains b'.' (xs ++ b'.' ∷ ys) ≡ true
unfolding contains
contains-point [] ys = refl
contains-point (x ∷ xs) ys = ground (arith, contains-point xs ys)

completed-IsPointed : (t : List ℕ) → IsDecimal t → IsPointed (completed t)
unfolding is_ascii_digit
completed-IsPointed _ (decimal_text sign ds _ s a d no_fraction) =
    rw (append-nil ds, has_point-whole sign ds s a, append_assoc sign ds (b'.' ∷ b'0' ∷ []))
      (pointed sign ds (b'0' ∷ []) s a d (refl, tt))
completed-IsPointed _ (decimal_text sign ds _ s a d (fraction f fr)) =
    let found : contains b'.' (sign ++ (ds ++ b'.' ∷ f)) ≡ true =
      rw (contains-append b'.' sign (ds ++ b'.' ∷ f), contains-point ds f) (ground arith) in
    rw found (pointed sign ds f s a d fr)

module _ {F : Type 0} (text_of : Text F) where
  format_float-completed :
      (x : F) → IsFinite text_of x → format_float text_of x ≡ completed (text_of.display x)
  unfolding format_float
  format_float-completed x (n, i) = rw (format_float, n, i) refl

  -- A finite float is written as a number that has a point.
  pub format_float-IsPointed :
      TextLaws text_of → (x : F) → IsFinite text_of x → IsPointed (format_float text_of x)
  format_float-IsPointed laws x f =
      rw (format_float-completed x f)
        (completed-IsPointed (text_of.display x) (laws.display-IsDecimal x f))

  parse_f64-completed :
      TextLaws text_of
      → (t : List ℕ) → IsDecimal t
      → text_of.parse_f64 (completed t) ≡ text_of.parse_f64 t
  unfolding is_ascii_digit
  parse_f64-completed laws _ (decimal_text sign ds _ s a d no_fraction) =
      rw (append-nil ds, has_point-whole sign ds s a)
        (laws.parse_f64-point_zero (sign ++ ds) (whole sign ds s a d))
  parse_f64-completed laws _ (decimal_text sign ds _ s a d (fraction f fr)) =
      let found : contains b'.' (sign ++ (ds ++ b'.' ∷ f)) ≡ true =
        rw (contains-append b'.' sign (ds ++ b'.' ∷ f), contains-point ds f) (ground arith) in
      rw found refl

  -- A finite float is parsed back from the text that it is written as.
  pub parse_f64-format_float :
      TextLaws text_of
      → (x : F) → IsFinite text_of x
      → text_of.parse_f64 (format_float text_of x) ≡ some x
  parse_f64-format_float laws x f =
      ap text_of.parse_f64 (format_float-completed x f)
      ∙ (parse_f64-completed laws (text_of.display x) (laws.display-IsDecimal x f)
          ∙ laws.parse_f64-display x f)

  parse_i64-SpellsInt : (z : ℤ) (text : List ℕ) → SpellsInt z text → parse_i64 text ≡ some z
  unfolding negated
  parse_i64-SpellsInt _ _ (natural n ds a d e h) = parse_i64-natural n ds a d e h
  parse_i64-SpellsInt _ _ (negative n ds a d e h) =
      parse_i64-minus (suc n) ds a d e (omega (arith, h))
  parse_i64-SpellsInt _ _ (negative_zero ds a d e) = parse_i64-minus 0 ds a d e (omega arith)

  pub number-SpellsInt :
      (z : ℤ) (text rest : List ℕ)
      → SpellsInt z text
      → stops rest ≡ true
      → number text_of (text ++ rest) ≡ ok (int z, rest)
  unfolding number numeric
  number-SpellsInt z text rest i h =
      ap (numeric text_of) (scan_number-IsWhole text rest (SpellsInt-IsWhole z text i) h)
      ∙ rw (parse_i64-SpellsInt z text i) refl

  pub number-IsFloating :
      (x : F) (text rest : List ℕ)
      → IsFloating text
      → text_of.parse_f64 text ≡ some x
      → stops rest ≡ true
      → number text_of (text ++ rest) ≡ ok (float x, rest)
  unfolding number numeric
  number-IsFloating x text rest f e h =
      ap (numeric text_of) (scan_number-IsFloating text rest f h) ∙ rw e refl
