-- ===== src/Json/Utf8.antt =====
-- What src/tools/json.rs uses of UTF-8: `char::encode_utf8`, `str::from_utf8` on the bytes of one
-- character, and its own `utf8_width`. Characters are their code points.
use rtp_mux.Prelude.{
  ℕ, suc, ◌+◌, ◌-◌, ◌*◌, ◌/◌, ◌%◌, ◌≡◌, ◌<◌, ◌≤◌, refl, Bool, true, false, ◌&&◌, ◌||◌, Option, none,
  some, List, [], ◌∷◌, eqb, ltb, if◌then◌else◌, length, arith, if-holds_by,
}

-- The code points that are characters: all but the surrogates.
abbrev pub is_char : ℕ → Bool
is_char c = ltb c 0xD800 || (ltb 0xDFFF c && ltb c 0x110000)

abbrev pub IsText : List ℕ → Type 0
IsText [] = Unit
IsText (c ∷ cs) = (is_char c ≡ true) × IsText cs

unfoldable pub encode_utf8 : ℕ → List ℕ
encode_utf8 c =
    if ltb c 0x80
    then c ∷ []
    else if ltb c 0x800
    then (192 + c / 64) ∷ (128 + c % 64) ∷ []
    else if ltb c 0x10000
    then (224 + c / 4096) ∷ (128 + c / 64 % 64) ∷ (128 + c % 64) ∷ []
    else (240 + c / 262144) ∷ (128 + c / 4096 % 64) ∷ (128 + c / 64 % 64) ∷ (128 + c % 64) ∷ []

abbrev same : List ℕ → List ℕ → Bool
same [] [] = true
same (a ∷ xs) (b ∷ ys) = eqb a b && same xs ys
same _ _ = false

-- Bytes are a character if its encoding gives them back, which refuses overlong forms.
checked : ℕ → List ℕ → Option ℕ
checked c bytes = if is_char c && same (encode_utf8 c) bytes then some c else none

-- `str::from_utf8` on a slice that is as long as its first byte says.
pub from_utf8 : List ℕ → Option ℕ
unfolding checked
from_utf8 (a ∷ []) = checked a (a ∷ [])
from_utf8 (a ∷ b ∷ []) = checked ((a - 192) * 64 + (b - 128)) (a ∷ b ∷ [])
from_utf8 (a ∷ b ∷ c ∷ []) =
    checked ((a - 224) * 4096 + (b - 128) * 64 + (c - 128)) (a ∷ b ∷ c ∷ [])
from_utf8 (a ∷ b ∷ c ∷ d ∷ []) =
    checked ((a - 240) * 262144 + (b - 128) * 4096 + (c - 128) * 64 + (d - 128))
      (a ∷ b ∷ c ∷ d ∷ [])
from_utf8 _ = none

-- `byte >> 5 == 0b110` and `byte >> 4 == 0b1110`
pub utf8_width : ℕ → ℕ
utf8_width byte =
    if ltb byte 0x80
    then 1
    else if eqb (byte / 32) 6
    then 2
    else if eqb (byte / 16) 14
    then 3
    else 4

same_refl : (xs : List ℕ) → same xs xs ≡ true
same_refl [] = refl
same_refl (x ∷ xs) = ground (arith, same_refl xs)

checked_self :
    (c n : ℕ) (bytes : List ℕ)
    → is_char c ≡ true
    → n ≡ c
    → bytes ≡ encode_utf8 c
    → checked n bytes ≡ some c
unfolding checked
checked_self c n bytes h e b = rw (e, b) (ground (arith, h, same_refl (encode_utf8 c)))

-- What the reader of a string needs of an encoded character: it starts with a byte that says how
-- long it is, that byte is the character if it is ASCII and none of ASCII otherwise, and the slice
-- decodes to the character.
pub data IsCharacter (c : ℕ) : List ℕ → Type 0 where
  character :
      (b : ℕ) (bs : List ℕ)
      → utf8_width b ≡ suc (length bs)
      → from_utf8 (b ∷ bs) ≡ some c
      → (b < 0x80 → b ≡ c)
      → IsCharacter c (b ∷ bs)

one-IsCharacter : (c : ℕ) → is_char c ≡ true → ltb c 0x80 ≡ true → IsCharacter c (c ∷ [])
unfolding encode_utf8 utf8_width from_utf8
one-IsCharacter c h l =
    character c [] (ground (arith, l)) (checked_self c c (c ∷ []) h refl (ground (arith, l)))
      λ _. refl

two-IsCharacter :
    (c : ℕ)
    → is_char c ≡ true
    → 0x80 ≤ c
    → c < 0x800
    → IsCharacter c ((192 + c / 64) ∷ (128 + c % 64) ∷ [])
unfolding encode_utf8 utf8_width from_utf8
two-IsCharacter c h l u =
    character (192 + c / 64) ((128 + c % 64) ∷ []) (ground (arith, l, u))
      (checked_self c ((192 + c / 64 - 192) * 64 + (128 + c % 64 - 128))
        ((192 + c / 64) ∷ (128 + c % 64) ∷ []) h (omega arith) (ground (arith, l, u)))
      λ small. absurd (omega arith)

three-IsCharacter :
    (c : ℕ)
    → is_char c ≡ true
    → 0x800 ≤ c
    → c < 0x10000
    → IsCharacter c ((224 + c / 4096) ∷ (128 + c / 64 % 64) ∷ (128 + c % 64) ∷ [])
unfolding encode_utf8 utf8_width from_utf8
three-IsCharacter c h l u =
    character (224 + c / 4096) ((128 + c / 64 % 64) ∷ (128 + c % 64) ∷ []) (ground (arith, l, u))
      (checked_self c
        ((224 + c / 4096 - 224) * 4096 + (128 + c / 64 % 64 - 128) * 64 + (128 + c % 64 - 128))
        ((224 + c / 4096) ∷ (128 + c / 64 % 64) ∷ (128 + c % 64) ∷ []) h (omega arith)
        (ground (arith, l, u)))
      λ small. absurd (omega arith)

four-IsCharacter :
    (c : ℕ)
    → is_char c ≡ true
    → 0x10000 ≤ c
    → IsCharacter c
        ((240 + c / 262144) ∷ (128 + c / 4096 % 64) ∷ (128 + c / 64 % 64) ∷ (128 + c % 64) ∷ [])
unfolding encode_utf8 utf8_width from_utf8
four-IsCharacter c h l =
    character (240 + c / 262144) ((128 + c / 4096 % 64) ∷ (128 + c / 64 % 64) ∷ (128 + c % 64) ∷ [])
      (ground (arith, l))
      (checked_self c
        ((240 + c / 262144 - 240) * 262144
          + (128 + c / 4096 % 64 - 128) * 4096
          + (128 + c / 64 % 64 - 128) * 64
          + (128 + c % 64 - 128))
        ((240 + c / 262144) ∷ (128 + c / 4096 % 64) ∷ (128 + c / 64 % 64) ∷ (128 + c % 64) ∷ []) h
        (omega arith) (ground (arith, l)))
      λ small. absurd (omega arith)

pub encode_utf8-IsCharacter : (c : ℕ) → is_char c ≡ true → IsCharacter c (encode_utf8 c)
unfolding encode_utf8
encode_utf8-IsCharacter c h =
    if-holds_by (IsCharacter c) (ltb c 0x80) _ _ (one-IsCharacter c h) λ l.
      if-holds_by (IsCharacter c) (ltb c 0x800) _ _
        (λ u. two-IsCharacter c h (ground (arith, l)) (ground (arith, u)))
        λ l.
          if-holds_by (IsCharacter c) (ltb c 0x10000) _ _
            (λ u. three-IsCharacter c h (ground (arith, l)) (ground (arith, u)))
            λ l. four-IsCharacter c h (ground (arith, l))

pub utf8_width-positive : (b : ℕ) → 0 < utf8_width b
unfolding utf8_width
utf8_width-positive b = ground arith
