-- ===== src/Json/Lookup.antt =====
-- The members of the objects that src/tools/json.rs parses, by their keys.
use rtp_mux.Prelude.{ℕ, Option, some, List}
use rtp_mux.Json.Types.{Json, Members, no_members, member, equal, compare_keys}

module _ {F : Type 0} where
  -- The last value that a key has among the members, or else the one given.
  unfoldable pub last_value : Option (Json F) → List ℕ → Members F → Option (Json F)
  last_value found k no_members = found
  last_value found k (member j v later) =
      last_value (elim (compare_keys k j) [ equal ↦ some v | _ ↦ found ]) k later
