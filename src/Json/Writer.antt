-- ===== src/Json/Writer.antt =====
-- The writers of src/tools/json.rs: one line, or lines that are indented by two blanks a level.
use rtp_mux.Prelude.{
  ℕ, zero, suc, ◌+◌, ◌*◌, Bool, true, false, ◌||◌, List, [], ◌∷◌, ◌++◌, eqb, if◌then◌else◌,
}
use rtp_mux.Json.Types.{
  Json, Items, Members, null, bool, int, float, str, array, object, no_items, item, no_members,
  member,
}
use rtp_mux.Json.Numbers.{display_int}
use rtp_mux.Json.Strings.{write_string}
use rtp_mux.Json.Parser.{Text, word_true, word_false, word_null}

unfoldable pub contains : ℕ → List ℕ → Bool
contains b [] = false
contains b (x ∷ xs) = eqb x b || contains b xs

abbrev pub blanks : ℕ → List ℕ
blanks zero = []
blanks (suc n) = b' ' ∷ blanks n

abbrev pub separator : Bool → List ℕ
separator first = if first then [] else b',' ∷ b' ' ∷ []

abbrev pub comma_if : Bool → List ℕ
comma_if more = if more then b',' ∷ [] else []

module _ {F : Type 0} where
  abbrev pub more_items : Items F → Bool
  more_items no_items = false
  more_items (item _ _) = true

  abbrev pub more_members : Members F → Bool
  more_members no_members = false
  more_members (member _ _ _) = true

module _ {F : Type 0} (text_of : Text F) where
  unfoldable pub format_float : F → List ℕ
  unfolding contains
  format_float x =
      if text_of.is_nan x
      then b'N' ∷ b'a' ∷ b'N' ∷ []
      else if text_of.is_infinite x
      then (if text_of.is_positive x
          then b'I' ∷ b'n' ∷ b'f' ∷ b'i' ∷ b'n' ∷ b'i' ∷ b't' ∷ b'y' ∷ []
          else b'-' ∷ b'I' ∷ b'n' ∷ b'f' ∷ b'i' ∷ b'n' ∷ b'i' ∷ b't' ∷ b'y' ∷ [])
      else if contains b'.' (text_of.display x)
          || (contains b'e' (text_of.display x) || contains b'E' (text_of.display x))
      then text_of.display x
      else text_of.display x ++ b'.' ∷ b'0' ∷ []

  unfoldable mutual
    unfolding format_float

    pub write_compact : Json F → List ℕ
    write_compact null = word_null
    write_compact (bool true) = word_true
    write_compact (bool false) = word_false
    write_compact (int z) = display_int z
    write_compact (float x) = format_float x
    write_compact (str text) = write_string text
    write_compact (array xs) = b'[' ∷ write_items true xs
    write_compact (object map) = b'{' ∷ write_members true map

    -- The loop over an array, and its end; the flag is `index == 0`.
    pub write_items : Bool → Items F → List ℕ
    write_items first no_items = b']' ∷ []
    write_items first (item v xs) = separator first ++ (write_compact v ++ write_items false xs)

    pub write_members : Bool → Members F → List ℕ
    write_members first no_members = b'}' ∷ []
    write_members first (member k v later) =
        separator first
        ++ (write_string k ++ b':' ∷ b' ' ∷ (write_compact v ++ write_members false later))

  unfoldable pub to_compact : Json F → List ℕ
  unfolding write_compact
  to_compact v = write_compact v

  -- The members in the order given.
  unfoldable pub object_compact : Members F → List ℕ
  unfolding write_compact
  object_compact members = b'{' ∷ write_members true members

  unfoldable mutual
    unfolding format_float

    pub write_value : ℕ → Json F → List ℕ
    write_value indent null = word_null
    write_value indent (bool true) = word_true
    write_value indent (bool false) = word_false
    write_value indent (int z) = display_int z
    write_value indent (float x) = format_float x
    write_value indent (str text) = write_string text
    write_value indent (array no_items) = b'[' ∷ b']' ∷ []
    write_value indent (array (item v xs)) = b'[' ∷ b'\n' ∷ item_lines indent (item v xs)
    write_value indent (object no_members) = b'{' ∷ b'}' ∷ []
    write_value indent (object (member k v later)) =
        b'{' ∷ b'\n' ∷ member_lines indent (member k v later)

    -- A line for each element, and the closing bracket.
    pub item_lines : ℕ → Items F → List ℕ
    item_lines indent no_items = blanks (indent * 2) ++ b']' ∷ []
    item_lines indent (item v xs) =
        blanks ((indent + 1) * 2)
        ++ (write_value (indent + 1) v
            ++ (comma_if (more_items xs) ++ b'\n' ∷ item_lines indent xs))

    pub member_lines : ℕ → Members F → List ℕ
    member_lines indent no_members = blanks (indent * 2) ++ b'}' ∷ []
    member_lines indent (member k v later) =
        blanks ((indent + 1) * 2)
        ++ (write_string k
            ++ b':'
              ∷ b' '
              ∷ (write_value (indent + 1) v
                  ++ (comma_if (more_members later) ++ b'\n' ∷ member_lines indent later)))

  unfoldable pub to_string : Json F → List ℕ
  unfolding write_value
  to_string v = write_value 0 v
