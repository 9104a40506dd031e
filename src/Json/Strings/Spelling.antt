-- ===== src/Json/Strings/Spelling.antt =====
-- How JSON spells a text between quotes, independent of the reader and the writer in
-- src/tools/json.rs: a character stands for itself, in UTF-8, or is escaped.
use rtp_mux.Prelude.{ℕ, ◌+◌, ◌*◌, ◌<◌, ◌≡◌, true, false, List, [], ◌∷◌, ◌++◌, eqb}
use rtp_mux.Json.Utf8.{is_char, encode_utf8}

pub data HexDigit : ℕ → ℕ → Type 0 where
  figure : (d : ℕ) → d < 10 → HexDigit (b'0' + d) d
  lower : (d : ℕ) → d < 6 → HexDigit (b'a' + d) (10 + d)
  upper : (d : ℕ) → d < 6 → HexDigit (b'A' + d) (10 + d)

-- A character and what stands behind the backslash.
pub data Escapes : ℕ → List ℕ → Type 0 where
  quote : Escapes b'"' (b'"' ∷ [])
  backslash : Escapes b'\\' (b'\\' ∷ [])
  slash : Escapes b'/' (b'/' ∷ [])
  backspace : Escapes 8 (b'b' ∷ [])
  form_feed : Escapes 12 (b'f' ∷ [])
  newline : Escapes b'\n' (b'n' ∷ [])
  carriage_return : Escapes b'\r' (b'r' ∷ [])
  tab : Escapes b'\t' (b't' ∷ [])
  unicode :
      {i j k l : ℕ} (a b c d : ℕ)
      → HexDigit i a
      → HexDigit j b
      → HexDigit k c
      → HexDigit l d
      → is_char (a * 4096 + b * 256 + c * 16 + d) ≡ true
      → Escapes (a * 4096 + b * 256 + c * 16 + d) (b'u' ∷ i ∷ j ∷ k ∷ l ∷ [])

pub data SpellsChar : ℕ → List ℕ → Type 0 where
  plain :
      (c : ℕ)
      → is_char c ≡ true
      → eqb c b'"' ≡ false
      → eqb c b'\\' ≡ false
      → SpellsChar c (encode_utf8 c)
  escaped : {c : ℕ} {e : List ℕ} → Escapes c e → SpellsChar c (b'\\' ∷ e)

-- The characters of a text up to the closing quote.
pub data Spells : List ℕ → List ℕ → Type 0 where
  closing : Spells [] (b'"' ∷ [])
  spelled :
      {c : ℕ} {cs bytes more : List ℕ}
      → SpellsChar c bytes
      → Spells cs more
      → Spells (c ∷ cs) (bytes ++ more)

pub data Quoted : List ℕ → List ℕ → Type 0 where
  quoted : {cs bytes : List ℕ} → Spells cs bytes → Quoted cs (b'"' ∷ bytes)
