-- ===== src/CrossSession.antt =====
-- src/connector/cross_session.rs: the sessions of the connector, the streams that are open on them,
-- and the move of streams to a newer session. Sessions and streams are numbers: an Arc's identity.
-- `alive` tells the sessions whose opener is alive, `writing` the streams whose writer still takes a
-- rebind; both may change between calls. A stream is in the store while its StreamRebind is.
pub mod Guards
pub mod System
pub mod Generations
mod Examples
use rtp_mux.Prelude.{
  ℕ, zero, suc, ◌+◌, ◌-◌, ◌^◌, ◌%◌, Bool, true, false, Option, none, some, List, [], ◌∷◌, ◌++◌, eqb,
  if◌then◌else◌, Map, lookup, insert, remove, keep_if, nat_eq,
}

abbrev pub max_successor_hops : ℕ
max_successor_hops = 8

pub record Session : Type 0 where
  pub opened_streams : ℕ
  pub live_streams : ℕ
  pub streams : List ℕ
  pub successor : Option ℕ

abbrev pub fresh_session : Session
fresh_session = record { opened_streams = 0; live_streams = 0; streams = []; successor = none }

-- Each stream has the session that its guard holds, which is the one it was rebound to last.
pub record Store : Type 0 where
  pub sessions : ℕ → Session
  pub streams : Map ℕ ℕ

abbrev pub set_session : Store → ℕ → Session → Store
set_session t id s = record t { sessions = λ j. if eqb id j then s else t.sessions j }

abbrev pub is_open : Map ℕ ℕ → ℕ → Bool
is_open streams h = elim (lookup h streams) [ none ↦ false | some _ ↦ true ]

-- `fetch_add` and `fetch_sub` of an AtomicU64 wrap around.
pub guard : Store → ℕ → Store
guard t id =
    let s = t.sessions id in
    set_session t id (record s { live_streams = (s.live_streams + 1) % 2 ^ 64 })

pub drop_guard : Store → ℕ → Store
drop_guard t id =
    let s = t.sessions id in
    set_session t id (record s { live_streams = (s.live_streams + (2 ^ 64 - 1)) % 2 ^ 64 })

-- The OpenedStream holds a guard of the session.
pub open_stream : Store → ℕ → Store
unfolding guard
open_stream t id =
    let s = t.sessions id in
    guard (set_session t id (record s { opened_streams = (s.opened_streams + 1) % 2 ^ 64 })) id

-- `Session::track` of a handle on a session, after the purge of the handles that are gone.
pub track_on : Store → ℕ → ℕ → Store
track_on t id h =
    let s = t.sessions id in
    set_session t id (record s { streams = keep_if (is_open t.streams) s.streams ++ h ∷ [] })

-- The stream `h`, whose guard holds `old`, takes a guard of `new`; then the old guard is dropped.
pub move_guard : Store → ℕ → ℕ → ℕ → Store
unfolding guard drop_guard
move_guard t h old new = drop_guard (record (guard t new) { streams = insert h new t.streams }) old

module _ (writing : ℕ → Bool) where
  pub rebind_one : Store → ℕ → ℕ → ℕ → Store × Bool
  unfolding move_guard track_on
  rebind_one t h old new =
      if writing h then (track_on (move_guard t h old new) new h, true) else (t, false)

  rebind_upgraded : Store → ℕ → Option ℕ → ℕ → Store × Bool
  unfolding rebind_one
  rebind_upgraded t h none new = (t, false)
  rebind_upgraded t h (some old) new = rebind_one t h old new

  -- One round of the loop of `rebind_streams`; a stream that is gone is passed over.
  pub rebind_handle : Store → ℕ → ℕ → Store × Bool
  unfolding rebind_upgraded
  rebind_handle t h new = rebind_upgraded t h (lookup h t.streams) new

  pub rebind_all : Store → List ℕ → ℕ → ℕ → Store × ℕ
  unfolding rebind_handle
  rebind_all t [] new moved = (t, moved)
  rebind_all t (h ∷ hs) new moved =
      let (t', done) = rebind_handle t h new in
      rebind_all t' hs new (if done then moved + 1 else moved)

-- What `rebind_streams` does under the lock of the old session's streams.
pub drain : Store → ℕ → ℕ → Store × List ℕ
drain t old new =
    let s = t.sessions old in
    (set_session t old (record s { streams = []; successor = some new }), s.streams)

pub walk : (ℕ → Bool) → Store → ℕ → ℕ → ℕ → ℕ
walk alive t zero newest_live cursor = newest_live
walk alive t (suc hops) newest_live cursor = elim (t.sessions cursor).successor [
  | none ↦ newest_live
  | some next ↦ walk alive t hops (if alive next then next else newest_live) next
]

pub latest_generation : (ℕ → Bool) → Store → ℕ → ℕ
unfolding walk
latest_generation alive t id = walk alive t max_successor_hops id id

module _ (alive writing : ℕ → Bool) where
  pub rebind_streams : Store → ℕ → ℕ → Store × ℕ
  unfolding drain rebind_all
  rebind_streams t old new =
      let (t', handles) = drain t old new in
      if alive new then rebind_all writing t' handles new 0 else (t, 0)

-- `StreamRebind::track` up to its first lock: the handle `h` takes over the guard of an OpenedStream.
pub new_handle : Store → ℕ → ℕ → Store
new_handle t h id = record t { streams = insert h id t.streams }

-- `Session::track_if_current`, under the lock of the session's streams.
pub track_if_current : Store → ℕ → ℕ → Store × Bool
unfolding track_on
track_if_current t id h = elim (t.sessions id).successor [
  | none ↦ (track_on t id h, true)
  | some _ ↦ (t, false)
]

-- The rest of `StreamRebind::track` on a session that has been replaced, with the session that
-- `latest_generation` gave.
pub track_replaced : (ℕ → Bool) → Store → ℕ → ℕ → ℕ → Store
unfolding rebind_handle track_on
track_replaced writing t h id live =
    if eqb live id then track_on t id h else (rebind_handle writing t h live).0

-- `StreamRebind::track` where nothing comes between its locks; System has its steps apart.
pub track : (alive writing : ℕ → Bool) → Store → ℕ → ℕ → Store
unfolding new_handle track_if_current track_replaced latest_generation
track alive writing t h id =
    let (t', current) = track_if_current (new_handle t h id) id h in
    if current then t' else track_replaced writing t' h id (latest_generation alive t' id)

drop_upgraded : Store → ℕ → Option ℕ → Store
unfolding drop_guard
drop_upgraded t h none = t
drop_upgraded t h (some id) = drop_guard (record t { streams = remove h t.streams }) id

-- The stream is dropped, and its guard with it.
pub drop_stream : Store → ℕ → Store
unfolding drop_upgraded
drop_stream t h = drop_upgraded t h (lookup h t.streams)
