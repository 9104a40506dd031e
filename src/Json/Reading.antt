-- ===== src/Json/Reading.antt =====
-- The parser of src/tools/json.rs reads every text of the grammar.
use rtp_mux.Prelude.{
  ℕ, zero, suc, ◌*◌, ◌<◌, ◌≡◌, refl, ap, ◌∙◌, true, List, ◌∷◌, ◌++◌, ok, length, arith,
}
use mathlib.Core.List.{append_assoc}
use rtp_mux.Json.Types.{
  Json, Items, Members, str, array, object, no_items, no_members, push, append, append-push,
  push-append, insert, insert_all,
}
use rtp_mux.Json.Numbers.{stops}
use rtp_mux.Json.Scan.{is_ascii_whitespace, skip_whitespace}
use rtp_mux.Json.Strings.{string}
use rtp_mux.Json.Strings.Spelling.{Quoted, quoted}
use rtp_mux.Json.Strings.Escapes.{string-Quoted}
use rtp_mux.Json.Parser.{
  Text, value_of, value_arm, kind_at, starts_with, literal, str_value, value, members_loop,
  items_loop,
}
use rtp_mux.Json.Grammar.{
  Written, WrittenItems, WrittenMembers, written_null, written_true, written_false, written_int,
  written_float, written_str, written_no_items, written_array, written_no_members, written_object,
  last_item, next_item, last_member, next_member,
}
use rtp_mux.Json.Tokens.{
  lengths, SpellsInt-IsWhole, IsWhole-StartsValue, IsWhole-kind_at, IsFloating-StartsValue,
  IsFloating-kind_at,
}
use rtp_mux.Json.Decimals.{number-SpellsInt, number-IsFloating}
use rtp_mux.Json.Openings.{
  stops-blank, Written-StartsValue, WrittenItems-StartsValue, WrittenMembers-StartsValue,
  items_loop-blank, members_loop-blank, value-number, array-open, object-open, array-empty,
  object-empty,
}
use rtp_mux.Json.Rounds.{
  items_loop-last, items_loop-next, members_loop-last, members_loop-next, Quoted-skip,
}

module _ {F : Type 0} (text_of : Text F) where
  value_of-Quoted :
      (fuel : ℕ) (text bytes rest : List ℕ)
      → Quoted text bytes
      → value_of text_of
          (members_loop text_of fuel no_members)
          (items_loop text_of fuel no_items)
          (bytes ++ rest)
        ≡ str_value (string (bytes ++ rest))
  unfolding value_of value_arm kind_at
  value_of-Quoted fuel _ _ rest (quoted h) = refl

  value-string :
      (fuel : ℕ) (text bytes rest : List ℕ)
      → Quoted text bytes
      → value text_of (suc fuel) (bytes ++ rest) ≡ ok (str text, rest)
  unfolding value
  value-string fuel text bytes rest t =
      ap
        (value_of text_of (members_loop text_of fuel no_members) (items_loop text_of fuel no_items))
        (Quoted-skip text bytes rest t)
      ∙ (value_of-Quoted fuel text bytes rest t
          ∙ rw (str_value, string-Quoted text bytes rest t) refl)

  mutual
    unfolding value value_of value_arm kind_at literal starts_with skip_whitespace
        is_ascii_whitespace insert_all

    pub value-Written :
        (v : Json F) (bytes rest : List ℕ) (fuel : ℕ)
        → Written text_of v bytes
        → stops rest ≡ true
        → 2 * length bytes < fuel
        → value text_of fuel (bytes ++ rest) ≡ ok (v, rest)
    value-Written v bytes rest zero w s h = absurd (omega arith)
    value-Written _ _ rest (suc fuel) written_null s h = refl
    value-Written _ _ rest (suc fuel) written_true s h = refl
    value-Written _ _ rest (suc fuel) written_false s h = refl
    value-Written _ _ rest (suc fuel) (written_int {z} {text} i) s h =
        let w = SpellsInt-IsWhole z text i in
        value-number text_of fuel text rest (IsWhole-StartsValue text w)
          (IsWhole-kind_at text rest w)
        ∙ number-SpellsInt text_of z text rest i s
    value-Written _ _ rest (suc fuel) (written_float {x} {text} f e) s h =
        value-number text_of fuel text rest (IsFloating-StartsValue text f)
          (IsFloating-kind_at text rest f)
        ∙ number-IsFloating text_of x text rest f e s
    value-Written _ _ rest (suc fuel) (written_str {text} {bytes} t) s h =
        value-string fuel text bytes rest t
    value-Written _ _ rest (suc fuel) (written_no_items b hb) s h =
        array-empty text_of fuel b rest hb
    value-Written _ _ rest (suc fuel) (written_no_members b hb) s h =
        object-empty text_of fuel b rest hb
    value-Written _ _ rest (suc fuel) (written_array {xs} {bytes} b hb ws) s h =
        array-open text_of fuel b bytes rest hb (WrittenItems-StartsValue text_of xs bytes ws)
        ∙ items_loop-Written xs no_items bytes rest fuel ws (omega lengths)
    value-Written _ _ rest (suc fuel) (written_object {ms} {bytes} b hb ws) s h =
        object-open text_of fuel b bytes rest hb (WrittenMembers-StartsValue text_of ms bytes ws)
        ∙ members_loop-Written ms no_members bytes rest fuel ws (omega lengths)

    items_loop-Written :
        (xs acc : Items F) (bytes rest : List ℕ) (fuel : ℕ)
        → WrittenItems text_of xs bytes
        → suc (2 * length bytes) < fuel
        → items_loop text_of fuel acc (bytes ++ rest) ≡ ok (array (append acc xs), rest)
    items_loop-Written xs acc bytes rest zero w h = absurd (omega arith)
    items_loop-Written _ acc _ rest (suc fuel) (last_item {v} {bytes} b w hb) h =
        items_loop-last text_of fuel acc v bytes b rest hb (
          value-Written v bytes (b ++ b']' ∷ rest) fuel w (stops-blank b (b']' ∷ rest) hb refl)
            (omega lengths))
        ∙ ap (λ l. ok (array l, rest)) (push-append acc v)
    items_loop-Written _ acc _ rest (suc fuel) (next_item {v} {xs} {bytes} {more} b c w hb hc ws)
          h =
        rw
          (
            items_loop-next text_of fuel acc v bytes b (c ++ more) rest hb (
                value-Written v bytes (b ++ b',' ∷ ((c ++ more) ++ rest)) fuel w
                  (stops-blank b (b',' ∷ ((c ++ more) ++ rest)) hb refl) (omega lengths)),
            append_assoc c more rest,
            items_loop-blank text_of fuel (push acc v) c more rest hc
                (WrittenItems-StartsValue text_of xs more ws),
            items_loop-Written xs (push acc v) more rest fuel ws (omega lengths),
            append-push acc v xs,
          )
          refl

    members_loop-Written :
        (ms map : Members F) (bytes rest : List ℕ) (fuel : ℕ)
        → WrittenMembers text_of ms bytes
        → suc (2 * length bytes) < fuel
        → members_loop text_of fuel map (bytes ++ rest) ≡ ok (object (insert_all map ms), rest)
    members_loop-Written ms map bytes rest zero w h = absurd (omega arith)
    members_loop-Written _ map _ rest (suc fuel)
          (last_member {v} {k} {key} {bytes} a b c t ha hb w hc) h =
        members_loop-last text_of fuel map v k key a b bytes c rest t ha hb hc
          (Written-StartsValue text_of v bytes w)
          (value-Written v bytes (c ++ b'}' ∷ rest) fuel w (stops-blank c (b'}' ∷ rest) hc refl)
            (omega lengths))
    members_loop-Written _ map _ rest (suc fuel)
          (next_member {v} {ms} {k} {key} {bytes} {more} a b c d t ha hb w hc hd ws) h =
        rw
          (
            members_loop-next text_of fuel map v k key a b bytes c (d ++ more) rest t ha hb hc
                (Written-StartsValue text_of v bytes w)
                (value-Written v bytes (c ++ b',' ∷ ((d ++ more) ++ rest)) fuel w
                  (stops-blank c (b',' ∷ ((d ++ more) ++ rest)) hc refl) (omega lengths)),
            append_assoc d more rest,
            members_loop-blank text_of fuel (insert k v map) d more rest hd
                (WrittenMembers-StartsValue text_of ms more ws),
            members_loop-Written ms (insert k v map) more rest fuel ws (omega lengths),
          )
          refl
