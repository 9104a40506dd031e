-- ===== src/Json/RoundTrip.antt =====
-- What src/tools/json.rs writes, on one line or on several, it parses back.
use rtp_mux.Prelude.{
  ℕ, zero, suc, ◌+◌, ◌*◌, ◌≡◌, refl, subst, true, false, List, [], ◌∷◌, ◌++◌, ok, length,
}
use mathlib.Core.List.{append-nil}
use rtp_mux.Json.Types.{
  Json, Items, Members, null, bool, int, float, str, array, object, no_items, item, no_members,
  member,
}
use rtp_mux.Json.Utf8.{IsText}
use rtp_mux.Json.Numbers.{IsI64, stops}
use rtp_mux.Json.Scan.{IsBlank, is_ascii_whitespace, skip_whitespace}
use rtp_mux.Json.Strings.{write_string}
use rtp_mux.Json.Strings.Escapes.{write_string-Quoted}
use rtp_mux.Json.Decimals.{format_float-IsPointed, parse_f64-format_float}
use rtp_mux.Json.Parser.{Text, finish, parse}
use rtp_mux.Json.Writer.{
  write_compact, write_items, write_members, to_compact, write_value, item_lines, member_lines,
  to_string, format_float, blanks, comma_if, more_items, more_members,
}
use rtp_mux.Json.Grammar.{
  IsFinite, TextLaws, Written, WrittenItems, WrittenMembers, written_null, written_true,
  written_false, written_int, written_float, written_str, written_no_items, written_array,
  written_no_members, written_object, last_item, next_item, last_member, next_member,
}
use rtp_mux.Json.Tokens.{lengths, display_int-SpellsInt, IsPointed-IsFloating}
use rtp_mux.Json.Openings.{stops-blank, value-blank, Written-StartsValue}
use rtp_mux.Json.Reading.{value-Written}
use rtp_mux.Json.Ordered.{IsOrdered, insert_all-IsOrdered}

skip_whitespace-blank : (b : List ℕ) → IsBlank b → skip_whitespace b ≡ []
unfolding skip_whitespace
skip_whitespace-blank [] h = refl
skip_whitespace-blank (x ∷ b) h = rw (skip_whitespace, h.0) (skip_whitespace-blank b h.1)

blanks-IsBlank : (n : ℕ) → IsBlank (blanks n)
unfolding is_ascii_whitespace
blanks-IsBlank zero = tt
blanks-IsBlank (suc n) = (refl, blanks-IsBlank n)

module _ {F : Type 0} (text_of : Text F) where
  pub parse-Written :
      (v : Json F) (b bytes c : List ℕ)
      → Written text_of v bytes
      → IsBlank b
      → IsBlank c
      → parse text_of (b ++ (bytes ++ c)) ≡ ok v
  unfolding parse finish
  parse-Written v b bytes c w hb hc =
      let stop : stops c ≡ true =
        subst (λ l. stops l ≡ true) (append-nil c) (stops-blank c [] hc refl) in
      let fuel = 2 * length (b ++ (bytes ++ c)) + 1 in
      rw
        (
          parse,
          value-blank text_of fuel b bytes c hb (Written-StartsValue text_of v bytes w),
          value-Written text_of v bytes c fuel w stop (omega lengths),
          skip_whitespace-blank c hc,
        )
        refl

  -- The values that a Rust program can hold and that JSON has a text for: integers of 64 bits,
  -- finite floats, texts of characters, and maps whose keys ascend.
  unfoldable mutual
    pub IsWritable : Json F → Type 0
    IsWritable null = Unit
    IsWritable (bool b) = Unit
    IsWritable (int z) = IsI64 z
    IsWritable (float x) = IsFinite text_of x
    IsWritable (str text) = IsText text
    IsWritable (array xs) = AreWritable xs
    IsWritable (object ms) = IsOrdered ms × HasWritable ms

    pub AreWritable : Items F → Type 0
    AreWritable no_items = Unit
    AreWritable (item v xs) = IsWritable v × AreWritable xs

    pub HasWritable : Members F → Type 0
    HasWritable no_members = Unit
    HasWritable (member k v later) = IsText k × (IsWritable v × HasWritable later)

  format_float-Written :
      (x : F)
      → TextLaws text_of
      → IsFinite text_of x
      → Written text_of (float x) (format_float text_of x)
  format_float-Written x laws h =
      written_float
        (IsPointed-IsFloating (format_float text_of x) (format_float-IsPointed text_of laws x h))
        (parse_f64-format_float text_of laws x h)

  written_members :
      (ms : Members F) (b bytes : List ℕ)
      → IsOrdered ms
      → IsBlank b
      → WrittenMembers text_of ms bytes
      → Written text_of (object ms) (b'{' ∷ (b ++ bytes))
  written_members ms b bytes o h w =
      subst (λ m. Written text_of (object m) (b'{' ∷ (b ++ bytes))) (insert_all-IsOrdered ms o)
        (written_object b h w)

  module _ (laws : TextLaws text_of) where
    mutual
      unfolding write_compact IsWritable is_ascii_whitespace

      write_compact-Written :
          (v : Json F) → IsWritable v → Written text_of v (write_compact text_of v)
      write_compact-Written null h = written_null
      write_compact-Written (bool true) h = written_true
      write_compact-Written (bool false) h = written_false
      write_compact-Written (int z) h = written_int (display_int-SpellsInt z h)
      write_compact-Written (float x) h = format_float-Written x laws h
      write_compact-Written (str text) h = written_str (write_string-Quoted text h)
      write_compact-Written (array no_items) h = written_no_items [] tt
      write_compact-Written (array (item v xs)) h =
          written_array [] tt (write_items-Written v xs (write_compact-Written v h.0) h.1)
      write_compact-Written (object no_members) h = written_no_members [] tt
      write_compact-Written (object (member k v later)) h =
          written_members (member k v later) [] _ h.0 tt
            (write_members-Written k v later h.1.0 (write_compact-Written v h.1.1.0) h.1.1.1)

      write_items-Written :
          (v : Json F) (xs : Items F)
          → Written text_of v (write_compact text_of v)
          → AreWritable xs
          → WrittenItems text_of
              (item v xs)
              (write_compact text_of v ++ write_items text_of false xs)
      write_items-Written v no_items h hs = last_item [] h tt
      write_items-Written v (item w xs) h hs =
          next_item [] (b' ' ∷ []) h tt (refl, tt)
            (write_items-Written w xs (write_compact-Written w hs.0) hs.1)

      write_members-Written :
          (k : List ℕ) (v : Json F) (later : Members F)
          → IsText k
          → Written text_of v (write_compact text_of v)
          → HasWritable later
          → WrittenMembers text_of (member k v later) (
              write_string k
              ++ b':' ∷ b' ' ∷ (write_compact text_of v ++ write_members text_of false later))
      write_members-Written k v no_members t h hs =
          last_member [] (b' ' ∷ []) [] (write_string-Quoted k t) tt (refl, tt) h tt
      write_members-Written k v (member j w later) t h hs =
          next_member [] (b' ' ∷ []) [] (b' ' ∷ []) (write_string-Quoted k t) tt (refl, tt) h tt
            (refl, tt)
            (write_members-Written j w later hs.0 (write_compact-Written w hs.1.0) hs.1.1)

    mutual
      unfolding write_value IsWritable is_ascii_whitespace

      write_value-Written :
          (n : ℕ) (v : Json F) → IsWritable v → Written text_of v (write_value text_of n v)
      write_value-Written n null h = written_null
      write_value-Written n (bool true) h = written_true
      write_value-Written n (bool false) h = written_false
      write_value-Written n (int z) h = written_int (display_int-SpellsInt z h)
      write_value-Written n (float x) h = format_float-Written x laws h
      write_value-Written n (str text) h = written_str (write_string-Quoted text h)
      write_value-Written n (array no_items) h = written_no_items [] tt
      write_value-Written n (array (item v xs)) h =
          written_array (b'\n' ∷ blanks ((n + 1) * 2)) (refl, blanks-IsBlank ((n + 1) * 2))
            (item_lines-Written n v xs (write_value-Written (n + 1) v h.0) h.1)
      write_value-Written n (object no_members) h = written_no_members [] tt
      write_value-Written n (object (member k v later)) h =
          written_members (member k v later) (b'\n' ∷ blanks ((n + 1) * 2)) _ h.0
            (refl, blanks-IsBlank ((n + 1) * 2))
            (member_lines-Written n k v later h.1.0 (write_value-Written (n + 1) v h.1.1.0) h.1.1.1)

      item_lines-Written :
          (n : ℕ) (v : Json F) (xs : Items F)
          → Written text_of v (write_value text_of (n + 1) v)
          → AreWritable xs
          → WrittenItems text_of (item v xs) (
              write_value text_of (n + 1) v
              ++ (comma_if (more_items xs) ++ b'\n' ∷ item_lines text_of n xs))
      item_lines-Written n v no_items h hs =
          last_item (b'\n' ∷ blanks (n * 2)) h (refl, blanks-IsBlank (n * 2))
      item_lines-Written n v (item w xs) h hs =
          next_item [] (b'\n' ∷ blanks ((n + 1) * 2)) h tt (refl, blanks-IsBlank ((n + 1) * 2))
            (item_lines-Written n w xs (write_value-Written (n + 1) w hs.0) hs.1)

      member_lines-Written :
          (n : ℕ) (k : List ℕ) (v : Json F) (later : Members F)
          → IsText k
          → Written text_of v (write_value text_of (n + 1) v)
          → HasWritable later
          → WrittenMembers text_of (member k v later) (
              write_string k
              ++ b':'
                ∷ b' '
                ∷ (write_value text_of (n + 1) v
                    ++ (comma_if (more_members later) ++ b'\n' ∷ member_lines text_of n later)))
      member_lines-Written n k v no_members t h hs =
          last_member [] (b' ' ∷ []) (b'\n' ∷ blanks (n * 2)) (write_string-Quoted k t) tt
            (refl, tt) h (refl, blanks-IsBlank (n * 2))
      member_lines-Written n k v (member j w later) t h hs =
          next_member [] (b' ' ∷ []) [] (b'\n' ∷ blanks ((n + 1) * 2)) (write_string-Quoted k t) tt
            (refl, tt) h tt (refl, blanks-IsBlank ((n + 1) * 2))
            (member_lines-Written n j w later hs.0 (write_value-Written (n + 1) w hs.1.0) hs.1.1)

  -- A value is parsed back from its text on one line and from its text on several lines. Integers
  -- have 64 bits, floats are finite and displayed and parsed as Rust documents, texts are made of
  -- characters, and the keys of each object ascend.
  pub parse-to_string :
      (v : Json F)
      → TextLaws text_of
      → IsWritable v
      → (parse text_of (to_compact text_of v) ≡ ok v) × (parse text_of (to_string text_of v) ≡ ok v)
  unfolding to_compact to_string
  parse-to_string v laws h = (
    rw (append-nil (write_compact text_of v)) at
        (parse-Written v [] (write_compact text_of v) [] (write_compact-Written laws v h) tt tt),
    rw (append-nil (write_value text_of 0 v)) at
        (parse-Written v [] (write_value text_of 0 v) [] (write_value-Written laws 0 v h) tt tt),
  )
