-- ===== src/CrossSession/Guards.antt =====
-- The guards that keep a session of src/connector/cross_session.rs counted as live: each OpenedStream
-- and each StreamRebind holds one.
use rtp_mux.Prelude.{
  ℕ, ◌+◌, ◌-◌, ◌^◌, ◌%◌, ◌≡◌, Bool, none, some, List, [], ◌∷◌, eqb, eqb_iff, if◌then◌else◌, Map,
  lookup, insert, remove, nat_eq, total, total_values, total_values-insert, total_values-remove,
  Unique, insert-Unique, remove-Unique, weight, arith, Option-cases, Bool-cases, inl, inr, if-holds,
}
use rtp_mux.CrossSession.{
  Store, guard, drop_guard, open_stream, track_on, move_guard, rebind_one, rebind_handle,
  rebind_upgraded, drain, new_handle, track_if_current, track_replaced, drop_stream, drop_upgraded,
  rebind_all, rebind_streams,
}

abbrev pub on : ℕ → ℕ → ℕ
on id s = if eqb s id then 1 else 0

-- The guards of a session: those of the OpenedStreams, each named by its session, and of the streams.
abbrev pub guards : ℕ → List ℕ → Map ℕ ℕ → ℕ
guards id opened streams = total (on id) opened + total_values (on id) streams

abbrev pub live : Store → ℕ → ℕ
live t id = (t.sessions id).live_streams

-- Every session's count of live streams is the number of its guards, modulo 2^64.
pub record IsGuarded (t : Store) (opened : List ℕ) : Type 0 where
  pub unique : Unique t.streams
  pub counted : (id : ℕ) → live t id ≡ guards id opened t.streams % 2 ^ 64

guard-live :
    (t : Store) (id j : ℕ)
    → live (guard t id) j ≡ (if eqb id j then (live t j + 1) % 2 ^ 64 else live t j)
unfolding guard
guard-live t id j = ground (arith, eqb_iff id j)

drop_guard-live :
    (t : Store) (id j : ℕ)
    → live (drop_guard t id) j ≡ (if eqb id j then (live t j + (2 ^ 64 - 1)) % 2 ^ 64 else live t j)
unfolding drop_guard
drop_guard-live t id j = ground (arith, eqb_iff id j)

open_stream-live :
    (t : Store) (id j : ℕ)
    → live (open_stream t id) j ≡ (if eqb id j then (live t j + 1) % 2 ^ 64 else live t j)
unfolding open_stream guard
open_stream-live t id j = ground (arith, eqb_iff id j)

track_on-live : (t : Store) (id h j : ℕ) → live (track_on t id h) j ≡ live t j
unfolding track_on
track_on-live t id h j = ground (arith, eqb_iff id j)

pub open_stream-IsGuarded :
    (t : Store) (opened : List ℕ) (id : ℕ)
    → IsGuarded t opened
    → IsGuarded (open_stream t id) (id ∷ opened)
unfolding open_stream guard
open_stream-IsGuarded t opened id v = record {
  unique = v.unique;
  counted = λ j. ground (arith, v.counted j, open_stream-live t id j);
}

pub drop_guard-IsGuarded :
    (t : Store) (opened : List ℕ) (id : ℕ)
    → IsGuarded t (id ∷ opened)
    → IsGuarded (drop_guard t id) opened
unfolding drop_guard
drop_guard-IsGuarded t opened id v = record {
  unique = v.unique;
  counted = λ j. ground (arith, v.counted j, drop_guard-live t id j);
}

pub track_on-IsGuarded :
    (t : Store) (opened : List ℕ) (id h : ℕ)
    → IsGuarded t opened
    → IsGuarded (track_on t id h) opened
unfolding track_on
track_on-IsGuarded t opened id h v = record {
  unique = v.unique;
  counted = λ j. rw (track_on-live t id h j) (v.counted j);
}

-- The guard of an OpenedStream becomes that of a new stream.
pub insert-IsGuarded :
    (t : Store) (opened : List ℕ) (id h : ℕ)
    → lookup h t.streams ≡ none
    → IsGuarded t (id ∷ opened)
    → IsGuarded (record t { streams = insert h id t.streams }) opened
insert-IsGuarded t opened id h e v = record {
  unique = insert-Unique h id t.streams v.unique;
  counted = λ j. ground (arith, v.counted j, total_values-insert (on j) h id t.streams e);
}

guard-IsGuarded :
    (t : Store) (opened : List ℕ) (id : ℕ)
    → IsGuarded t opened
    → IsGuarded (guard t id) (id ∷ opened)
unfolding guard
guard-IsGuarded t opened id v = record {
  unique = v.unique;
  counted = λ j. ground (arith, v.counted j, guard-live t id j);
}

total_values-replace :
    (w : ℕ → ℕ) (h old new : ℕ) (m : Map ℕ ℕ)
    → Unique m
    → lookup h m ≡ some old
    → total_values w (insert h new m) + w old ≡ w new + total_values w m
unfolding insert
total_values-replace w h old new m u e =
    let parts : weight w (some old) + total_values w (remove h m) ≡ total_values w m =
      rw e at (total_values-remove w h m u) in
    omega (arith, parts)

-- A guard that is held besides the streams changes places with the guard of a stream.
exchange-IsGuarded :
    (t : Store) (opened : List ℕ) (h old new : ℕ)
    → lookup h t.streams ≡ some old
    → IsGuarded t (new ∷ opened)
    → IsGuarded (record t { streams = insert h new t.streams }) (old ∷ opened)
exchange-IsGuarded t opened h old new e v = record {
  unique = insert-Unique h new t.streams v.unique;
  counted =
      λ j. omega (arith, v.counted j, total_values-replace (on j) h old new t.streams v.unique e);
}

move_guard-IsGuarded :
    (t : Store) (opened : List ℕ) (h old new : ℕ)
    → lookup h t.streams ≡ some old
    → IsGuarded t opened
    → IsGuarded (move_guard t h old new) opened
unfolding move_guard guard
move_guard-IsGuarded t opened h old new e v =
    drop_guard-IsGuarded (record (guard t new) { streams = insert h new t.streams }) opened old
      (exchange-IsGuarded (guard t new) opened h old new e (guard-IsGuarded t opened new v))

module _ (writing : ℕ → Bool) where
  pub rebind_one-IsGuarded :
      (t : Store) (opened : List ℕ) (h old new : ℕ)
      → lookup h t.streams ≡ some old
      → IsGuarded t opened
      → IsGuarded (rebind_one writing t h old new).0 opened
  unfolding rebind_one
  rebind_one-IsGuarded t opened h old new e v = elim (Bool-cases (writing h)) [
    | inl w ↦ rw w (
        track_on-IsGuarded (move_guard t h old new) opened new h
          (move_guard-IsGuarded t opened h old new e v))
    | inr w ↦ rw w v
  ]

  pub rebind_handle-IsGuarded :
      (t : Store) (opened : List ℕ) (h new : ℕ)
      → IsGuarded t opened
      → IsGuarded (rebind_handle writing t h new).0 opened
  unfolding rebind_handle rebind_upgraded
  rebind_handle-IsGuarded t opened h new v = elim (Option-cases (lookup h t.streams)) [
    | inl e ↦ rw (e, rebind_upgraded) v
    | inr (old, e) ↦ rw (e, rebind_upgraded) (rebind_one-IsGuarded t opened h old new e v)
  ]

  pub rebind_all-IsGuarded :
      (t : Store) (opened : List ℕ) (hs : List ℕ) (new moved : ℕ)
      → IsGuarded t opened
      → IsGuarded (rebind_all writing t hs new moved).0 opened
  unfolding rebind_all
  rebind_all-IsGuarded t opened [] new moved v = v
  rebind_all-IsGuarded t opened (h ∷ hs) new moved v =
      rebind_all-IsGuarded (rebind_handle writing t h new).0 opened hs new
        (if (rebind_handle writing t h new).1 then moved + 1 else moved)
        (rebind_handle-IsGuarded t opened h new v)

pub drain-IsGuarded :
    (t : Store) (opened : List ℕ) (old new : ℕ)
    → IsGuarded t opened
    → IsGuarded (drain t old new).0 opened
unfolding drain
drain-IsGuarded t opened old new v = record {
  unique = v.unique;
  counted = λ j. ground (arith, v.counted j, eqb_iff old j);
}

pub drop_stream-IsGuarded :
    (t : Store) (opened : List ℕ) (h : ℕ) → IsGuarded t opened → IsGuarded (drop_stream t h) opened
unfolding drop_stream drop_upgraded
drop_stream-IsGuarded t opened h v = elim (Option-cases (lookup h t.streams)) [
  | inl e ↦ rw (e, drop_upgraded) v
  | inr (id, e) ↦
      rw (e, drop_upgraded)
        (drop_guard-IsGuarded (record t { streams = remove h t.streams }) opened id
          (record {
            unique = remove-Unique h t.streams v.unique;
            counted = λ j.
                let parts : weight (on j) (some id) + total_values (on j) (remove h t.streams)
                    ≡ total_values (on j) t.streams =
                  rw e at (total_values-remove (on j) h t.streams v.unique) in
                omega (arith, v.counted j, parts);
          }))
]

module _ (alive writing : ℕ → Bool) where
  pub rebind_streams-IsGuarded :
      (t : Store) (opened : List ℕ) (old new : ℕ)
      → IsGuarded t opened
      → IsGuarded (rebind_streams alive writing t old new).0 opened
  unfolding rebind_streams
  rebind_streams-IsGuarded t opened old new v = elim (Bool-cases (alive new)) [
    | inl a ↦ rw a (
        rebind_all-IsGuarded writing (drain t old new).0 opened (drain t old new).1 new 0
          (drain-IsGuarded t opened old new v))
    | inr a ↦ rw a v
  ]

-- A new stream takes the guard of the OpenedStream that it is made of.
pub new_handle-IsGuarded :
    (t : Store) (opened : List ℕ) (h id : ℕ)
    → lookup h t.streams ≡ none
    → IsGuarded t (id ∷ opened)
    → IsGuarded (new_handle t h id) opened
unfolding new_handle
new_handle-IsGuarded t opened h id e v = insert-IsGuarded t opened id h e v

pub track_if_current-IsGuarded :
    (t : Store) (opened : List ℕ) (id h : ℕ)
    → IsGuarded t opened
    → IsGuarded (track_if_current t id h).0 opened
unfolding track_if_current
track_if_current-IsGuarded t opened id h v = elim (Option-cases (t.sessions id).successor) [
  | inl s ↦ rw (s, track_if_current) (track_on-IsGuarded t opened id h v)
  | inr (next, s) ↦ rw (s, track_if_current) v
]

pub track_replaced-IsGuarded :
    (writing : ℕ → Bool) (t : Store) (opened : List ℕ) (h id live : ℕ)
    → IsGuarded t opened
    → IsGuarded (track_replaced writing t h id live) opened
unfolding track_replaced
track_replaced-IsGuarded writing t opened h id live v =
    if-holds (λ u. IsGuarded u opened) (eqb live id) _ _ (track_on-IsGuarded t opened id h v)
      (rebind_handle-IsGuarded writing t opened h live v)
