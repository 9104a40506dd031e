-- ===== src/Json/Strings/Escapes.antt =====
-- The strings of src/tools/json.rs: every spelling of a text is read as the text, and what is written
-- for a text is a spelling of it.
use rtp_mux.Prelude.{
  ℕ, zero, suc, ◌+◌, ◌-◌, ◌*◌, subst, ◌/◌, ◌%◌, ◌≡◌, ◌<◌, ◌≤◌, refl, sym, ap, ◌∙◌, true, false,
  some, List, [], ◌∷◌, ◌++◌, eqb, ltb, length, take, arith, if-holds_by, ok, length-append, eqb_iff,
}
use mathlib.Core.List.{append-nil, append_assoc}
use rtp_mux.Json.Utf8.{
  is_char, IsText, encode_utf8, IsCharacter, character, encode_utf8-IsCharacter,
}
use rtp_mux.Json.Strings.Spelling.{
  HexDigit, figure, lower, upper, Escapes, quote, backslash, slash, backspace, form_feed, newline,
  carriage_return, tab, unicode, SpellsChar, plain, escaped, Spells, closing, spelled, Quoted,
  quoted,
}
use rtp_mux.Json.Strings.{
  hex_digit, escape, write_char, write_chars, write_string, hex_value, hex_onto, radix16,
  char_from_u32, unicode_escape, read_escape, read_plain, drop, read_char, string_loop, expect,
  string,
}

-- Bytes that the loop of a string reads as a character.
pub data ReadsBack (c : ℕ) : List ℕ → Type 0 where
  reads_back :
      (b : ℕ) (bs : List ℕ)
      → eqb b b'"' ≡ false
      → ((rest : List ℕ) → read_char b (bs ++ rest) ≡ ok (c, rest))
      → ReadsBack c (b ∷ bs)

take-front : (xs rest : List ℕ) → take (length xs) (xs ++ rest) ≡ xs
take-front [] rest = refl
take-front (x ∷ xs) rest = ap (λ l. x ∷ l) (take-front xs rest)

drop-front : (xs rest : List ℕ) → drop (length xs) (xs ++ rest) ≡ rest
unfolding drop
drop-front [] rest = refl
drop-front (x ∷ xs) rest = drop-front xs rest

plain-ReadsBack :
    (c : ℕ) (bytes : List ℕ)
    → eqb c b'"' ≡ false
    → eqb c b'\\' ≡ false
    → IsCharacter c bytes
    → ReadsBack c bytes
unfolding read_char read_plain
plain-ReadsBack c _ q s (character b bs width decodes ascii) =
    reads_back b bs (ground (arith, q, ascii)) λ rest.
      let not_escape : eqb b b'\\' ≡ false = ground (arith, s, ascii) in
      rw (read_char, not_escape, width, take-front (b ∷ bs) rest, drop-front (b ∷ bs) rest, decodes)
        refl

hex_value-HexDigit : (b n : ℕ) → HexDigit b n → hex_value b ≡ some n
unfolding hex_value
hex_value-HexDigit _ _ (figure d h) = ground (arith, h)
hex_value-HexDigit _ _ (lower d h) = ground (arith, h)
hex_value-HexDigit _ _ (upper d h) = ground (arith, h)

HexDigit-unsigned : (b n : ℕ) → HexDigit b n → eqb b b'+' ≡ false
HexDigit-unsigned _ _ (figure d h) = ground (arith, h)
HexDigit-unsigned _ _ (lower d h) = ground (arith, h)
HexDigit-unsigned _ _ (upper d h) = ground (arith, h)

radix16-HexDigit :
    (i j k l a b c d : ℕ)
    → HexDigit i a
    → HexDigit j b
    → HexDigit k c
    → HexDigit l d
    → radix16 i j k l ≡ some (a * 4096 + b * 256 + c * 16 + d)
unfolding radix16 hex_onto
radix16-HexDigit i j k l a b c d ha hb hc hd =
    rw
      (
        radix16,
        HexDigit-unsigned i a ha,
        hex_onto,
        hex_value-HexDigit i a ha,
        hex_value-HexDigit j b hb,
        hex_value-HexDigit k c hc,
        hex_value-HexDigit l d hd,
      )
      (ap some (omega arith))

Escapes-read : (c : ℕ) (e rest : List ℕ) → Escapes c e → read_escape (e ++ rest) ≡ ok (c, rest)
unfolding read_escape unicode_escape char_from_u32
Escapes-read _ _ rest quote = refl
Escapes-read _ _ rest backslash = refl
Escapes-read _ _ rest slash = refl
Escapes-read _ _ rest backspace = refl
Escapes-read _ _ rest form_feed = refl
Escapes-read _ _ rest newline = refl
Escapes-read _ _ rest carriage_return = refl
Escapes-read _ _ rest tab = refl
Escapes-read _ _ rest (unicode {i} {j} {k} {l} a b c d ha hb hc hd h) =
    rw (radix16-HexDigit i j k l a b c d ha hb hc hd, h) refl

SpellsChar-ReadsBack : (c : ℕ) (bytes : List ℕ) → SpellsChar c bytes → ReadsBack c bytes
unfolding read_char
SpellsChar-ReadsBack _ _ (plain c h q s) =
    plain-ReadsBack c (encode_utf8 c) q s (encode_utf8-IsCharacter c h)
SpellsChar-ReadsBack _ _ (escaped {c} {e} h) =
    reads_back b'\\' e refl λ rest. Escapes-read c e rest h

ReadsBack-positive : (c : ℕ) (bytes : List ℕ) → ReadsBack c bytes → 0 < length bytes
ReadsBack-positive c _ (reads_back b bs q r) = omega arith

string_loop-ReadsBack :
    (c fuel : ℕ) (bytes out left : List ℕ)
    → ReadsBack c bytes
    → string_loop (suc fuel) out (bytes ++ left) ≡ string_loop fuel (out ++ c ∷ []) left
unfolding string_loop
string_loop-ReadsBack c fuel _ out left (reads_back b bs q r) = rw (string_loop, q, r left) refl

Spells-positive : (cs bytes : List ℕ) → Spells cs bytes → 0 < length bytes
Spells-positive _ _ closing = omega arith
Spells-positive _ _ (spelled {c} {cs} {bytes} {more} h hs) =
    omega (arith, length-append bytes more, Spells-positive cs more hs)

-- The bytes of a spelled text behind its opening quote.
string_loop-Spells :
    (cs bytes out rest : List ℕ) (fuel : ℕ)
    → Spells cs bytes
    → length bytes ≤ fuel
    → string_loop fuel out (bytes ++ rest) ≡ ok (out ++ cs, rest)
unfolding string_loop
string_loop-Spells cs bytes out rest zero t h = absurd (omega (arith, Spells-positive cs bytes t))
string_loop-Spells _ _ out rest (suc fuel) closing h = ap (λ l. ok (l, rest)) (sym (append-nil out))
string_loop-Spells _ _ out rest (suc fuel) (spelled {c} {cs} {bytes} {more} t ts) h =
    let reads = SpellsChar-ReadsBack c bytes t in
    rw (append_assoc bytes more rest) (
      string_loop-ReadsBack c fuel bytes out (more ++ rest) reads
      ∙ (string_loop-Spells cs more (out ++ c ∷ []) rest fuel ts
            (omega (arith, length-append bytes more, ReadsBack-positive c bytes reads))
          ∙ ap (λ l. ok (l, rest)) (append_assoc out (c ∷ []) cs)))

-- Every spelling of a text is read as that text, whatever follows it.
pub string-Quoted :
    (cs bytes rest : List ℕ) → Quoted cs bytes → string (bytes ++ rest) ≡ ok (cs, rest)
unfolding string expect
string-Quoted _ _ rest (quoted {cs} {bytes} t) =
    string_loop-Spells cs bytes [] rest (suc (length (bytes ++ rest))) t
      (omega (arith, length-append bytes rest))

hex_digit-HexDigit : (n : ℕ) → n < 16 → HexDigit (hex_digit n) n
unfolding hex_digit
hex_digit-HexDigit n h =
    if-holds_by (λ b. HexDigit b n) (ltb n 10) _ _ (λ small. figure n (ground (arith, small)))
      λ large.
        let value : 10 + (n - 10) ≡ n = ground (arith, large) in
        let byte : b'a' + (n - 10) ≡ b'a' + n - 10 = ground (arith, large) in
        let small : n - 10 < 6 = ground (arith, h, large) in
        subst (λ b. HexDigit b n) byte
          (subst (λ m. HexDigit (b'a' + (n - 10)) m) value (lower (n - 10) small))

control-SpellsChar :
    (c : ℕ)
    → c < 0x20
    → SpellsChar c (b'\\' ∷ b'u' ∷ b'0' ∷ b'0' ∷ hex_digit (c / 16) ∷ hex_digit (c % 16) ∷ [])
control-SpellsChar c h =
    let zero_digit = figure 0 (omega arith) in
    let code : 0 * 4096 + 0 * 256 + c / 16 * 16 + c % 16 ≡ c = omega arith in
    let char = subst (λ m. is_char m ≡ true) (sym code) (ground (arith, h)) in
    let e =
      unicode 0 0 (c / 16) (c % 16) zero_digit zero_digit
        (hex_digit-HexDigit (c / 16) (omega arith)) (hex_digit-HexDigit (c % 16) (omega arith))
        char in
    escaped (
      subst (λ m. Escapes m (b'u' ∷ b'0' ∷ b'0' ∷ hex_digit (c / 16) ∷ hex_digit (c % 16) ∷ []))
        code e)

escape-SpellsChar : (c b v : ℕ) → Escapes v (b ∷ []) → eqb c v ≡ true → SpellsChar c (escape b)
unfolding escape
escape-SpellsChar c b v h e = rw ((eqb_iff c v).0 e) (escaped h)

write_char-SpellsChar : (c : ℕ) → is_char c ≡ true → SpellsChar c (write_char c)
unfolding write_char
write_char-SpellsChar c h =
    if-holds_by (SpellsChar c) (eqb c b'"') _ _ (escape-SpellsChar c b'"' b'"' quote) λ q.
      if-holds_by (SpellsChar c) (eqb c b'\\') _ _ (escape-SpellsChar c b'\\' b'\\' backslash) λ s.
        if-holds_by (SpellsChar c) (eqb c b'\n') _ _ (escape-SpellsChar c b'n' b'\n' newline) λ _.
          if-holds_by (SpellsChar c) (eqb c b'\r') _ _
            (escape-SpellsChar c b'r' b'\r' carriage_return)
            λ _.
              if-holds_by (SpellsChar c) (eqb c b'\t') _ _ (escape-SpellsChar c b't' b'\t' tab) λ _.
                if-holds_by (SpellsChar c) (eqb c 8) _ _ (escape-SpellsChar c b'b' 8 backspace) λ _.
                  if-holds_by (SpellsChar c) (eqb c 12) _ _ (escape-SpellsChar c b'f' 12 form_feed)
                    λ _.
                      if-holds_by (SpellsChar c) (ltb c 0x20) _ _
                        (λ e. control-SpellsChar c (ground (arith, e))) λ _. plain c h q s

write_chars-Spells : (cs : List ℕ) → IsText cs → Spells cs (write_chars cs)
unfolding write_chars
write_chars-Spells [] t = closing
write_chars-Spells (c ∷ cs) t = spelled (write_char-SpellsChar c t.0) (write_chars-Spells cs t.1)

-- What is written for a text is a spelling of it.
pub write_string-Quoted : (cs : List ℕ) → IsText cs → Quoted cs (write_string cs)
unfolding write_string
write_string-Quoted cs t = quoted (write_chars-Spells cs t)
