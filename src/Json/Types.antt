-- ===== src/Json/Types.antt =====
-- The values of src/tools/json.rs. An object is a BTreeMap: its members in the order of their keys,
-- which for strings is the order of their characters. `F` is f64.
use rtp_mux.Prelude.{ℕ, Bool, Option, none, some, List, [], ◌∷◌, ◌≡◌, refl, ap, ltb, if◌then◌else◌}

-- Integers over the native numbers; `negsuc n` is -(n + 1).
pub data ℤ : Type 0 where
  pos : ℕ → ℤ
  negsuc : ℕ → ℤ

mutual
  pub data Json (F : Type 0) : Type 0 where
    null : Json F
    bool : Bool → Json F
    int : ℤ → Json F
    float : F → Json F
    str : List ℕ → Json F
    array : Items F → Json F
    object : Members F → Json F

  pub data Items (F : Type 0) : Type 0 where
    no_items : Items F
    item : Json F → Items F → Items F

  pub data Members (F : Type 0) : Type 0 where
    no_members : Members F
    member : List ℕ → Json F → Members F → Members F

-- The order of keys.
pub data Order : Type 0 where
  before equal after : Order

unfoldable pub compare_keys : List ℕ → List ℕ → Order
compare_keys [] [] = equal
compare_keys [] (_ ∷ _) = before
compare_keys (_ ∷ _) [] = after
compare_keys (a ∷ xs) (b ∷ ys) =
    let rest = compare_keys xs ys in if ltb a b then before else if ltb b a then after else rest

module _ {F : Type 0} where
  -- `Vec::push`
  unfoldable pub push : Items F → Json F → Items F
  push no_items v = item v no_items
  push (item w xs) v = item w (push xs v)

  abbrev pub append : Items F → Items F → Items F
  append no_items ys = ys
  append (item v xs) ys = item v (append xs ys)

  pub append-push :
      (xs : Items F) (v : Json F) (ys : Items F) → append (push xs v) ys ≡ append xs (item v ys)
  unfolding push
  append-push no_items v ys = refl
  append-push (item w xs) v ys = ap (item w) (append-push xs v ys)

  pub push-append : (xs : Items F) (v : Json F) → push xs v ≡ append xs (item v no_items)
  unfolding push
  push-append no_items v = refl
  push-append (item w xs) v = ap (item w) (push-append xs v)

  unfoldable pub insert_at :
      Order → List ℕ → Json F → List ℕ → Json F → Members F → Members F → Members F
  insert_at before k v j w later inserted = member k v (member j w later)
  insert_at equal k v j w later inserted = member j v later
  insert_at after k v j w later inserted = member j w inserted

  -- `BTreeMap::insert`
  unfoldable pub insert : List ℕ → Json F → Members F → Members F
  unfolding insert_at
  insert k v no_members = member k v no_members
  insert k v (member j w later) = insert_at (compare_keys k j) k v j w later (insert k v later)

  -- What all the pairs of a list leave in a map, the first first.
  unfoldable pub insert_all : Members F → Members F → Members F
  unfolding insert
  insert_all map no_members = map
  insert_all map (member k v later) = insert_all (insert k v map) later

  -- `get` of a value; `as_object` and the lookup in the map.
  unfoldable pub lookup : List ℕ → Members F → Option (Json F)
  lookup k no_members = none
  lookup k (member j w later) =
      let rest = lookup k later in elim (compare_keys k j) [ equal ↦ some w | _ ↦ rest ]

  unfoldable pub get : Json F → List ℕ → Option (Json F)
  unfolding lookup
  get (object map) k = lookup k map
  get _ k = none
