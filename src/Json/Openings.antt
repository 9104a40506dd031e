-- ===== src/Json/Openings.antt =====
-- How a value, an array and an object of the grammar begin, as the parser of src/tools/json.rs sees
-- them.
use rtp_mux.Prelude.{
  ℕ, zero, suc, ◌≡◌, refl, sym, ap, ◌∙◌, true, false, List, [], ◌∷◌, ◌++◌, ok, arith,
}
use mathlib.Core.List.{append_assoc}
use rtp_mux.Json.Types.{Json, Items, Members, array, object, no_items, no_members}
use rtp_mux.Json.Numbers.{stops, is_ascii_digit}
use rtp_mux.Json.Scan.{IsBlank, is_ascii_whitespace, skip_whitespace, skip_whitespace-token}
use rtp_mux.Json.Strings.{expect}
use rtp_mux.Json.Strings.Spelling.{quoted}
use rtp_mux.Json.Parser.{
  Text, value_of, value_arm, object_body, array_body, kind_at, starts_number, closed_by,
  object_start, array_start, number, value, members_loop, items_loop,
}
use rtp_mux.Json.Grammar.{
  Written, WrittenItems, WrittenMembers, written_null, written_true, written_false, written_int,
  written_float, written_str, last_item, next_item, last_member, next_member,
}
use rtp_mux.Json.Tokens.{
  StartsValue, StartsValue-StartsToken, StartsValue-append, closed_by-append, SpellsInt-IsWhole,
  IsWhole-StartsValue, IsFloating-StartsValue,
}

pub stops-blank : (b rest : List ℕ) → IsBlank b → stops rest ≡ true → stops (b ++ rest) ≡ true
unfolding is_ascii_whitespace is_ascii_digit
stops-blank [] rest h s = s
stops-blank (x ∷ b) rest h s = ground (arith, h.0)

-- A byte that ends a blank.
pub skip_whitespace-byte :
    (b rest : List ℕ) (x : ℕ)
    → IsBlank b
    → is_ascii_whitespace x ≡ false
    → skip_whitespace (b ++ x ∷ rest) ≡ x ∷ rest
skip_whitespace-byte b rest x h t = skip_whitespace-token b (x ∷ []) rest h t

skip_whitespace-same :
    (b bytes rest : List ℕ)
    → IsBlank b
    → StartsValue bytes
    → skip_whitespace (b ++ (bytes ++ rest)) ≡ skip_whitespace (bytes ++ rest)
skip_whitespace-same b bytes rest h s =
    let t = StartsValue-StartsToken bytes s in
    skip_whitespace-token b bytes rest h t ∙ sym (skip_whitespace-token [] bytes rest tt t)

module _ {F : Type 0} (text_of : Text F) where
  pub Written-StartsValue :
      (v : Json F) (bytes : List ℕ) → Written text_of v bytes → StartsValue bytes
  unfolding is_ascii_whitespace
  Written-StartsValue _ _ written_null = (refl, refl, refl)
  Written-StartsValue _ _ written_true = (refl, refl, refl)
  Written-StartsValue _ _ written_false = (refl, refl, refl)
  Written-StartsValue _ _ (written_int {z} {text} i) =
      IsWhole-StartsValue text (SpellsInt-IsWhole z text i)
  Written-StartsValue _ _ (written_float {x} {text} f e) = IsFloating-StartsValue text f
  Written-StartsValue _ _ (written_str (quoted h)) = (refl, refl, refl)
  Written-StartsValue _ _ _ = (refl, refl, refl)

  pub WrittenItems-StartsValue :
      (xs : Items F) (bytes : List ℕ) → WrittenItems text_of xs bytes → StartsValue bytes
  WrittenItems-StartsValue _ _ (last_item {v} {bytes} b w h) =
      StartsValue-append bytes _ (Written-StartsValue v bytes w)
  WrittenItems-StartsValue _ _ (next_item {v} {xs} {bytes} b c w h h' ws) =
      StartsValue-append bytes _ (Written-StartsValue v bytes w)

  pub WrittenMembers-StartsValue :
      (ms : Members F) (bytes : List ℕ) → WrittenMembers text_of ms bytes → StartsValue bytes
  unfolding is_ascii_whitespace
  WrittenMembers-StartsValue _ _ (last_member a b c (quoted t) ha hb w hc) = (refl, refl, refl)
  WrittenMembers-StartsValue _ _ (next_member a b c d (quoted t) ha hb w hc hd ws) =
      (refl, refl, refl)

  -- Blanks in front of a token are passed over.
  pub value-blank :
      (fuel : ℕ) (b bytes rest : List ℕ)
      → IsBlank b
      → StartsValue bytes
      → value text_of fuel (b ++ (bytes ++ rest)) ≡ value text_of fuel (bytes ++ rest)
  unfolding value
  value-blank zero b bytes rest h s = refl
  value-blank (suc fuel) b bytes rest h s =
      let t = StartsValue-StartsToken bytes s in
      rw (value, skip_whitespace-token b bytes rest h t, skip_whitespace-token [] bytes rest tt t)
        refl

  pub items_loop-blank :
      (fuel : ℕ) (acc : Items F) (b bytes rest : List ℕ)
      → IsBlank b
      → StartsValue bytes
      → items_loop text_of fuel acc (b ++ (bytes ++ rest))
        ≡ items_loop text_of fuel acc (bytes ++ rest)
  unfolding value
  items_loop-blank zero acc b bytes rest h s = refl
  items_loop-blank (suc fuel) acc b bytes rest h s =
      rw (items_loop, value-blank fuel b bytes rest h s) refl

  pub members_loop-blank :
      (fuel : ℕ) (map : Members F) (b bytes rest : List ℕ)
      → IsBlank b
      → StartsValue bytes
      → members_loop text_of fuel map (b ++ (bytes ++ rest))
        ≡ members_loop text_of fuel map (bytes ++ rest)
  unfolding value
  members_loop-blank zero map b bytes rest h s = refl
  members_loop-blank (suc fuel) map b bytes rest h s =
      let t = StartsValue-StartsToken bytes s in
      rw
        (
          members_loop,
          skip_whitespace-token b bytes rest h t,
          skip_whitespace-token [] bytes rest tt t,
        )
        refl

  pub value-number :
      (fuel : ℕ) (bytes rest : List ℕ)
      → StartsValue bytes
      → kind_at (bytes ++ rest) ≡ starts_number
      → value text_of (suc fuel) (bytes ++ rest) ≡ number text_of (bytes ++ rest)
  unfolding value value_of value_arm
  value-number fuel bytes rest s k =
      ap
        (value_of text_of (members_loop text_of fuel no_members) (items_loop text_of fuel no_items))
        (skip_whitespace-token [] bytes rest tt (StartsValue-StartsToken bytes s))
      ∙ rw (value_of, k) refl

  pub array-open :
      (fuel : ℕ) (b bytes rest : List ℕ)
      → IsBlank b
      → StartsValue bytes
      → value text_of (suc fuel) (b'[' ∷ (b ++ bytes) ++ rest)
        ≡ items_loop text_of fuel no_items (bytes ++ rest)
  unfolding value value_of value_arm kind_at array_start array_body skip_whitespace
      is_ascii_whitespace expect
  array-open fuel b bytes rest h s =
      ap (array_body (items_loop text_of fuel no_items)) (
        ap skip_whitespace (append_assoc b bytes rest)
        ∙ skip_whitespace-token b bytes rest h (StartsValue-StartsToken bytes s))
      ∙ rw (array_body, (closed_by-append bytes rest s).0) refl

  pub object-open :
      (fuel : ℕ) (b bytes rest : List ℕ)
      → IsBlank b
      → StartsValue bytes
      → value text_of (suc fuel) (b'{' ∷ (b ++ bytes) ++ rest)
        ≡ members_loop text_of fuel no_members (bytes ++ rest)
  unfolding value value_of value_arm kind_at object_start object_body skip_whitespace
      is_ascii_whitespace expect
  object-open fuel b bytes rest h s =
      ap (object_body (members_loop text_of fuel no_members)) (
        ap skip_whitespace (append_assoc b bytes rest)
        ∙ skip_whitespace-token b bytes rest h (StartsValue-StartsToken bytes s))
      ∙ rw (object_body, (closed_by-append bytes rest s).1) refl

  pub array-empty :
      (fuel : ℕ) (b rest : List ℕ)
      → IsBlank b
      → value text_of (suc fuel) (b'[' ∷ (b ++ b']' ∷ []) ++ rest) ≡ ok (array no_items, rest)
  unfolding value value_of value_arm kind_at array_start array_body skip_whitespace
      is_ascii_whitespace expect closed_by
  array-empty fuel b rest h =
      rw (append_assoc b (b']' ∷ []) rest, array_start, skip_whitespace-byte b rest b']' h refl)
        refl

  pub object-empty :
      (fuel : ℕ) (b rest : List ℕ)
      → IsBlank b
      → value text_of (suc fuel) (b'{' ∷ (b ++ b'}' ∷ []) ++ rest) ≡ ok (object no_members, rest)
  unfolding value value_of value_arm kind_at object_start object_body skip_whitespace
      is_ascii_whitespace expect closed_by
  object-empty fuel b rest h =
      rw (append_assoc b (b'}' ∷ []) rest, object_start, skip_whitespace-byte b rest b'}' h refl)
        refl
