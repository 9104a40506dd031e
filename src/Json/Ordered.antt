-- ===== src/Json/Ordered.antt =====
-- Objects of src/tools/json.rs whose keys ascend, as those of a BTreeMap do.
use rtp_mux.Prelude.{ℕ, ◌≡◌, refl, ap, ◌∙◌, List, [], ◌∷◌, arith}
use rtp_mux.Json.Types.{
  Json, Members, no_members, member, before, after, compare_keys, insert, insert_at, insert_all,
}

module _ {F : Type 0} where
  -- A key is before all those of a map.
  abbrev pub IsBefore : List ℕ → Members F → Type 0
  IsBefore k no_members = Unit
  IsBefore k (member j w later) = (compare_keys k j ≡ before) × IsBefore k later

  abbrev pub IsOrdered : Members F → Type 0
  IsOrdered no_members = Unit
  IsOrdered (member k v later) = IsBefore k later × IsOrdered later

  -- All the keys of a map are before a key.
  abbrev EndsBefore : Members F → List ℕ → Type 0
  EndsBefore no_members k = Unit
  EndsBefore (member j w later) k = (compare_keys j k ≡ before) × EndsBefore later k

  -- All the keys of a map are before all those of another.
  abbrev AllBefore : Members F → Members F → Type 0
  AllBefore map no_members = Unit
  AllBefore map (member k v later) = EndsBefore map k × AllBefore map later

  abbrev join : Members F → Members F → Members F
  join no_members ms = ms
  join (member k v later) ms = member k v (join later ms)

compare_keys-flip : (j k : List ℕ) → compare_keys j k ≡ before → compare_keys k j ≡ after
unfolding compare_keys
compare_keys-flip [] [] e = absurd (cc)
compare_keys-flip [] (b ∷ k) e = refl
compare_keys-flip (a ∷ j) [] e = absurd (cc)
compare_keys-flip (a ∷ j) (b ∷ k) e = ground (arith, e, compare_keys-flip j k)

module _ {F : Type 0} where
  insert-last :
      (k : List ℕ) (v : Json F) (map : Members F)
      → EndsBefore map k
      → insert k v map ≡ join map (member k v no_members)
  unfolding insert insert_at
  insert-last k v no_members h = refl
  insert-last k v (member j w later) h =
      rw (insert, compare_keys-flip j k h.0) (ap (member j w) (insert-last k v later h.1))

  EndsBefore-join :
      (map : Members F) (k j : List ℕ) (v : Json F)
      → EndsBefore map j
      → compare_keys k j ≡ before
      → EndsBefore (join map (member k v no_members)) j
  EndsBefore-join no_members k j v h e = (e, tt)
  EndsBefore-join (member i w later) k j v h e = (h.0, EndsBefore-join later k j v h.1 e)

  AllBefore-join :
      (map ms : Members F) (k : List ℕ) (v : Json F)
      → AllBefore map ms
      → IsBefore k ms
      → AllBefore (join map (member k v no_members)) ms
  AllBefore-join map no_members k v h b = tt
  AllBefore-join map (member j w later) k v h b =
      (EndsBefore-join map k j v h.0 b.0, AllBefore-join map later k v h.1 b.1)

  join_assoc :
      (map : Members F) (k : List ℕ) (v : Json F) (ms : Members F)
      → join (join map (member k v no_members)) ms ≡ join map (member k v ms)
  join_assoc no_members k v ms = refl
  join_assoc (member j w later) k v ms = ap (member j w) (join_assoc later k v ms)

  insert_all-join :
      (map ms : Members F) → AllBefore map ms → IsOrdered ms → insert_all map ms ≡ join map ms
  unfolding insert_all
  insert_all-join no_members no_members h o = refl
  insert_all-join (member j w later) no_members h o =
      ap (member j w) (insert_all-join later no_members tt tt)
  insert_all-join map (member k v later) h o = rw (insert-last k v map h.0) (
      insert_all-join (join map (member k v no_members)) later
        (AllBefore-join map later k v h.1 o.0) o.1
      ∙ join_assoc map k v later)

  AllBefore-nothing : (ms : Members F) → AllBefore no_members ms
  AllBefore-nothing no_members = tt
  AllBefore-nothing (member k v later) = (tt, AllBefore-nothing later)

  -- Members whose keys ascend are left as they are by a map that takes them one by one.
  pub insert_all-IsOrdered : (ms : Members F) → IsOrdered ms → insert_all no_members ms ≡ ms
  insert_all-IsOrdered ms o = insert_all-join no_members ms (AllBefore-nothing ms) o
