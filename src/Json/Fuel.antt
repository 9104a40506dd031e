-- ===== src/Json/Fuel.antt =====
-- The parser of src/tools/json.rs never runs out of the fuel that the model gives it.
use rtp_mux.Prelude.{
  ℕ, zero, suc, ◌<◌, ◌≤◌, ◌≢◌, Bool, true, false, Option, none, some, List, [], ◌∷◌, ◌++◌, eqb,
  if◌then◌else◌, Result, ok, err, and_then, length, take, arith, Option-cases, Bool-cases, inl, inr,
}
use rtp_mux.Json.Utf8.{is_char, utf8_width, utf8_width-positive, from_utf8}
use rtp_mux.Json.Strings.{
  ParseError, out_of_fuel, unicode_escape, char_from_u32, radix16, read_escape, read_plain, drop,
  read_char, string_loop, expect, string,
}
use rtp_mux.Json.Scan.{skip_whitespace}

-- A run that ended within its fuel; if it gave a value, it left less than the bound.
pub data Within {A : Type 0} (n : ℕ) : Result ParseError (A × List ℕ) → Type 0 where
  within : {a : A} {rest : List ℕ} → length rest < n → Within n (ok (a, rest))
  refused : {e : ParseError} → e ≢ out_of_fuel → Within n (err e)

module _ {A B : Type 0} where
  pub Within-and_then :
      (n m : ℕ) (r : Result ParseError (A × List ℕ))
      (f : A × List ℕ → Result ParseError (B × List ℕ))
      → Within n r
      → ((a : A) (rest : List ℕ) → length rest < n → Within m (f (a, rest)))
      → Within m (and_then r f)
  Within-and_then n m _ f (within {a} {rest} l) k = k a rest l
  Within-and_then n m _ f (refused ne) k = refused ne

pub Within-weaken :
    {A : Type 0} (n m : ℕ) (r : Result ParseError (A × List ℕ)) → n ≤ m → Within n r → Within m r
Within-weaken n m _ h (within l) = within (omega arith)
Within-weaken n m _ h (refused ne) = refused ne

pub Within-if :
    {A : Type 0} (n : ℕ) (b : Bool) {x y : Result ParseError (A × List ℕ)}
    → Within n x
    → Within n y
    → Within n (if b then x else y)
Within-if n true p q = p
Within-if n false p q = q

pub length-skip_whitespace : (bytes : List ℕ) → length (skip_whitespace bytes) ≤ length bytes
unfolding skip_whitespace
length-skip_whitespace [] = omega arith
length-skip_whitespace (b ∷ bs) = ground (arith, length-skip_whitespace bs)

length-drop : (n : ℕ) (bytes : List ℕ) → length (drop n bytes) ≤ length bytes
unfolding drop
length-drop zero bytes = omega arith
length-drop (suc n) [] = omega arith
length-drop (suc n) (b ∷ bs) = omega (arith, length-drop n bs)

length-drop_positive : (n b : ℕ) (bs : List ℕ) → 0 < n → length (drop n (b ∷ bs)) ≤ length bs
unfolding drop
length-drop_positive zero b bs h = absurd (omega arith)
length-drop_positive (suc n) b bs h = length-drop n bs

unicode_escape-Within : (bytes : List ℕ) → Within (suc (length bytes)) (unicode_escape bytes)
unfolding unicode_escape char_from_u32
unicode_escape-Within (a ∷ b ∷ c ∷ d ∷ rest) = elim (Option-cases (radix16 a b c d)) [
  | inl e ↦ rw (char_from_u32, e) (refused (λ x. cc))
  | inr (code, e) ↦
      rw (char_from_u32, e)
        (Within-if (suc (length (a ∷ b ∷ c ∷ d ∷ rest))) (is_char code) (within (omega arith))
          (refused λ x. cc))
]
unicode_escape-Within _ = refused λ x. cc

read_escape-Within : (bytes : List ℕ) → Within (suc (length bytes)) (read_escape bytes)
unfolding read_escape
read_escape-Within [] = refused λ x. cc
read_escape-Within (e ∷ rest) =
    let here : (c : ℕ) → Within {A = ℕ} (suc (suc (length rest))) (ok (c, rest)) =
      λ c. within (omega arith) in
    Within-if (suc (suc (length rest))) (eqb e b'"') (here _) (
      Within-if (suc (suc (length rest))) (eqb e b'\\') (here _) (
        Within-if (suc (suc (length rest))) (eqb e b'/') (here _) (
          Within-if (suc (suc (length rest))) (eqb e b'b') (here _) (
            Within-if (suc (suc (length rest))) (eqb e b'f') (here _) (
              Within-if (suc (suc (length rest))) (eqb e b'n') (here _) (
                Within-if (suc (suc (length rest))) (eqb e b'r') (here _) (
                  Within-if (suc (suc (length rest))) (eqb e b't') (here _) (
                    Within-if (suc (suc (length rest))) (eqb e b'u')
                      (Within-weaken (suc (length rest)) (suc (suc (length rest)))
                        (unicode_escape rest) (omega arith) (unicode_escape-Within rest))
                      (refused λ x. cc)))))))))

read_plain-Within :
    (o : Option ℕ) (n : ℕ) (rest : List ℕ) → length rest < n → Within n (read_plain o rest)
unfolding read_plain
read_plain-Within none n rest h = refused λ x. cc
read_plain-Within (some c) n rest h = within h

read_char-Within : (b : ℕ) (rest : List ℕ) → Within (suc (length rest)) (read_char b rest)
unfolding read_char
read_char-Within b rest = Within-if (suc (length rest)) (eqb b b'\\') (read_escape-Within rest) (
    read_plain-Within (from_utf8 (take (utf8_width b) (b ∷ rest))) (suc (length rest))
      (drop (utf8_width b) (b ∷ rest))
      (omega (arith, length-drop_positive (utf8_width b) b rest (utf8_width-positive b))))

string_loop-Within :
    (fuel : ℕ) (out bytes : List ℕ)
    → length bytes < fuel
    → Within (suc (length bytes)) (string_loop fuel out bytes)
unfolding string_loop
string_loop-Within zero out bytes h = absurd (omega arith)
string_loop-Within (suc fuel) out [] h = refused λ x. cc
string_loop-Within (suc fuel) out (b ∷ rest) h =
    Within-if (suc (suc (length rest))) (eqb b b'"') (within (omega arith)) (
      Within-and_then (suc (length rest)) (suc (suc (length rest))) (read_char b rest) _
        (read_char-Within b rest)
        λ c left l.
          Within-weaken (suc (length left)) (suc (suc (length rest)))
            (string_loop fuel (out ++ c ∷ []) left) (omega arith)
            (string_loop-Within fuel (out ++ c ∷ []) left (omega arith)))

-- A string leaves less than it was given.
pub string-Within : (bytes : List ℕ) → Within (length bytes) (string bytes)
unfolding string expect
string-Within [] = refused λ x. cc
string-Within (b ∷ rest) = elim (Bool-cases (eqb b b'"')) [
  | inl e ↦ rw (expect, e) (string_loop-Within (suc (length rest)) [] rest (omega arith))
  | inr e ↦ rw (expect, e) (refused λ x. cc)
]
