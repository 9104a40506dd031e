-- ===== src/Json/Grammar.antt =====
-- A grammar of the texts that the parser of src/tools/json.rs reads, with blanks wherever they may
-- stand and every spelling of a string, an integer and a float, independent of the parser and of the
-- writers. What a float is read as is what `parse::<f64>()` says of its text.
use rtp_mux.Prelude.{ℕ, suc, ◌<◌, ◌^◌, ◌≡◌, false, List, [], ◌∷◌, ◌++◌, some, true, ◌⊎◌, ◌≢◌}
use rtp_mux.Json.Types.{
  ℤ, pos, negsuc, Json, Items, Members, null, bool, int, float, str, array, object, no_items, item,
  no_members, member, insert_all,
}
use rtp_mux.Json.Numbers.{AllDigits, StartsDigit, value_onto}
use rtp_mux.Json.Scan.{IsSign, IsFraction, IsExponent, IsBlank}
use rtp_mux.Json.Strings.Spelling.{Quoted}
use rtp_mux.Json.Parser.{Text}

-- A decimal number: a sign, digits and a fraction.
pub data IsDecimal : List ℕ → Type 0 where
  decimal_text :
      (sign ds f : List ℕ)
      → IsSign sign
      → AllDigits ds
      → StartsDigit ds
      → IsFraction f
      → IsDecimal (sign ++ (ds ++ f))

-- A decimal number without a fraction.
pub data IsWhole : List ℕ → Type 0 where
  whole : (sign ds : List ℕ) → IsSign sign → AllDigits ds → StartsDigit ds → IsWhole (sign ++ ds)

-- The texts of an integer of 64 bits; leading zeros and a minus in front of zero may stand.
pub data SpellsInt : ℤ → List ℕ → Type 0 where
  natural :
      (n : ℕ) (ds : List ℕ)
      → AllDigits ds
      → StartsDigit ds
      → value_onto 0 ds ≡ n
      → n < 2 ^ 63
      → SpellsInt (pos n) ds
  negative :
      (n : ℕ) (ds : List ℕ)
      → AllDigits ds
      → StartsDigit ds
      → value_onto 0 ds ≡ suc n
      → n < 2 ^ 63
      → SpellsInt (negsuc n) (b'-' ∷ ds)
  negative_zero :
      (ds : List ℕ)
      → AllDigits ds
      → StartsDigit ds
      → value_onto 0 ds ≡ 0
      → SpellsInt (pos 0) (b'-' ∷ ds)

-- The texts of a float: a number with a fraction, an exponent, or both.
pub data IsFloating : List ℕ → Type 0 where
  floating :
      (sign ds f e : List ℕ)
      → IsSign sign
      → AllDigits ds
      → StartsDigit ds
      → IsFraction f
      → IsExponent e
      → (f ≢ []) ⊎ (e ≢ [])
      → IsFloating (sign ++ (ds ++ (f ++ e)))

module _ {F : Type 0} (text_of : Text F) where
  abbrev pub IsFinite : F → Type 0
  IsFinite x = (text_of.is_nan x ≡ false) × (text_of.is_infinite x ≡ false)

  -- What Rust documents of f64: a finite value is displayed as a decimal number without an exponent,
  -- its text is parsed as the value, and the fraction 0 does not change what a whole number is parsed
  -- as.
  pub record TextLaws : Type 0 where
    pub display-IsDecimal : (x : F) → IsFinite x → IsDecimal (text_of.display x)
    pub parse_f64-display : (x : F) → IsFinite x → text_of.parse_f64 (text_of.display x) ≡ some x
    pub parse_f64-point_zero :
        (t : List ℕ) → IsWhole t → text_of.parse_f64 (t ++ b'.' ∷ b'0' ∷ []) ≡ text_of.parse_f64 t

  mutual
    pub data Written : Json F → List ℕ → Type 0 where
      written_null : Written null (b'n' ∷ b'u' ∷ b'l' ∷ b'l' ∷ [])
      written_true : Written (bool true) (b't' ∷ b'r' ∷ b'u' ∷ b'e' ∷ [])
      written_false : Written (bool false) (b'f' ∷ b'a' ∷ b'l' ∷ b's' ∷ b'e' ∷ [])
      written_int : {z : ℤ} {text : List ℕ} → SpellsInt z text → Written (int z) text
      written_float :
          {x : F} {text : List ℕ}
          → IsFloating text
          → text_of.parse_f64 text ≡ some x
          → Written (float x) text
      written_str : {text bytes : List ℕ} → Quoted text bytes → Written (str text) bytes
      written_no_items :
          (b : List ℕ) → IsBlank b → Written (array no_items) (b'[' ∷ (b ++ b']' ∷ []))
      written_array :
          {xs : Items F} {bytes : List ℕ} (b : List ℕ)
          → IsBlank b
          → WrittenItems xs bytes
          → Written (array xs) (b'[' ∷ (b ++ bytes))
      written_no_members :
          (b : List ℕ) → IsBlank b → Written (object no_members) (b'{' ∷ (b ++ b'}' ∷ []))
      written_object :
          {ms : Members F} {bytes : List ℕ} (b : List ℕ)
          → IsBlank b
          → WrittenMembers ms bytes
          → Written (object (insert_all no_members ms)) (b'{' ∷ (b ++ bytes))

    -- Elements up to the closing bracket.
    pub data WrittenItems : Items F → List ℕ → Type 0 where
      last_item :
          {v : Json F} {bytes : List ℕ} (b : List ℕ)
          → Written v bytes
          → IsBlank b
          → WrittenItems (item v no_items) (bytes ++ (b ++ b']' ∷ []))
      next_item :
          {v : Json F} {xs : Items F} {bytes more : List ℕ} (b c : List ℕ)
          → Written v bytes
          → IsBlank b
          → IsBlank c
          → WrittenItems xs more
          → WrittenItems (item v xs) (bytes ++ (b ++ b',' ∷ (c ++ more)))

    pub data WrittenMembers : Members F → List ℕ → Type 0 where
      last_member :
          {v : Json F} {k key bytes : List ℕ} (a b c : List ℕ)
          → Quoted k key
          → IsBlank a
          → IsBlank b
          → Written v bytes
          → IsBlank c
          → WrittenMembers
              (member k v no_members)
              (key ++ (a ++ b':' ∷ (b ++ (bytes ++ (c ++ b'}' ∷ [])))))
      next_member :
          {v : Json F} {ms : Members F} {k key bytes more : List ℕ} (a b c d : List ℕ)
          → Quoted k key
          → IsBlank a
          → IsBlank b
          → Written v bytes
          → IsBlank c
          → IsBlank d
          → WrittenMembers ms more
          → WrittenMembers
              (member k v ms)
              (key ++ (a ++ b':' ∷ (b ++ (bytes ++ (c ++ b',' ∷ (d ++ more))))))
