-- ===== src/Connector/Dialing.antt =====
-- The dials of src/connector/mod.rs: how one starts, and what is done with its result.
pub mod Starting
pub mod Pruning
pub mod Ending
pub mod Answering
use rtp_mux.Prelude.{
  ℕ, zero, suc, ◌+◌, ◌≡◌, refl, Bool, true, false, not, ◌&&◌, ◌||◌, Option, none, some, List, [],
  ◌∷◌, ◌++◌, eqb, if◌then◌else◌, Outcome, returns, panics, Result, ok, err, Map, lookup, insert,
  remove, or_insert, update, is_in, keep_if, ◌==◌, nat_eq,
}
use rtp_mux.Shared.{SocketAddr, ErrorKind, addr_eq}
use rtp_mux.TupleStats.{PathScore}
use rtp_mux.CrossSession.{Store, set_session, fresh_session, open_stream, rebind_streams}
use rtp_mux.Explorer.{PathExplorer, new, set_active, pop_best}
use rtp_mux.Explorer.Score.{Floats}
use rtp_mux.Connector.Types.{
  Connector, World, Effect, StreamRequest, AddrGroup, RedialInFlight, ExplorerContext, DualLaneDial,
  ConnectedDualLaneBirth,
}

abbrev pub add_member : SocketAddr → (SocketAddr → Bool) → SocketAddr → Bool
add_member addr set a = if addr == a then true else set a

abbrev pub drop_member : SocketAddr → (SocketAddr → Bool) → SocketAddr → Bool
drop_member addr set a = if addr == a then false else set a

abbrev pub new_group : ℕ → AddrGroup
new_group token = record { token = token; router = none; sessions = [] }

abbrev is_empty : List ℕ → Bool
is_empty [] = true
is_empty (_ ∷ _) = false

abbrev pub live_sessions : World → AddrGroup → AddrGroup
live_sessions w g = record g { sessions = keep_if w.held g.sessions }

prune_groups : World → (SocketAddr → Bool) → Map SocketAddr AddrGroup → Map SocketAddr AddrGroup
unfolding keep_if
prune_groups w in_flight [] = []
prune_groups w in_flight ((addr, g) ∷ m) =
    let rest = prune_groups w in_flight m in
    let g' = live_sessions w g in
    if in_flight addr || not (is_empty g'.sessions) then (addr, g') ∷ rest else rest

keep_keys : {V : Type 0} → Map SocketAddr AddrGroup → Map SocketAddr V → Map SocketAddr V
keep_keys groups [] = []
keep_keys groups ((addr, e) ∷ m) =
    let rest = keep_keys groups m in if is_in addr groups then (addr, e) ∷ rest else rest

-- The accepter of a session goes to the router of its group.
abbrev route : ℕ → Option (List ℕ) → List ℕ
route session none = session ∷ []
route session (some accepters) = accepters ++ session ∷ []

-- The group of a session that is installed.
abbrev pub grown : World → ℕ → AddrGroup → AddrGroup
grown w session g = record g {
  router = some (route session g.router);
  sessions = keep_if w.held g.sessions ++ session ∷ [];
}

abbrev pub socket_of : {F C : Type 0} → Option (C × SocketAddr × PathScore F) → Option C
socket_of none = none
socket_of (some (io, local_addr, score)) = some io

-- A dial that ends is taken out of the pending ones.
pub remove_dial : {C : Type 0} → SocketAddr → List (DualLaneDial C) → List (DualLaneDial C)
remove_dial addr [] = []
remove_dial addr (d ∷ ds) = if d.addr == addr then ds else d ∷ remove_dial addr ds

pub answer_failed : {F : Type 0} → ErrorKind → List StreamRequest → List (Effect F)
answer_failed kind [] = []
answer_failed kind (q ∷ qs) = Effect.failed q.response kind ∷ answer_failed kind qs

pub answer_opened : {F : Type 0} → World → Store → ℕ → List StreamRequest → Store × List (Effect F)
answer_opened w t session [] = (t, [])
answer_opened w t session (q ∷ qs) =
    let skipped = answer_opened w t session qs in
    let (t', effects) = answer_opened w (open_stream t session) session qs in
    if w.closed q.response then skipped else (t', Effect.opened q.response q.lane session ∷ effects)

abbrev pub waiters_at : SocketAddr → Map SocketAddr (List StreamRequest) → List StreamRequest
waiters_at addr m = elim (lookup addr m) [ none ↦ [] | some waiters ↦ waiters ]

probe_path : {A : Type 0} → Option A → SocketAddr → Option (A × SocketAddr)
probe_path none local_addr = none
probe_path (some tap) local_addr = some (tap, local_addr)

unfoldable pub token_of : ℕ → Option AddrGroup → ℕ
token_of fresh none = fresh
token_of fresh (some g) = g.token

module _ {F C A : Type 0} where
  pub prune_dead_addresses : Connector F C A → World → Connector F C A
  unfolding prune_groups keep_keys
  prune_dead_addresses s w =
      let groups = prune_groups w s.in_flight_dials s.groups in
      record s { groups = groups; explorers = keep_keys groups s.explorers }

  add_session :
      Connector F C A → World → SocketAddr → ConnectedDualLaneBirth A → AddrGroup → Connector F C A
  add_session s w addr birth g = record s {
    store = set_session s.store birth.session fresh_session;
    groups =
        insert addr
          (record g {
            router = some (route birth.session g.router);
            sessions = keep_if w.held g.sessions ++ birth.session ∷ [];
          })
          s.groups;
  }

  pub install_session :
      Connector F C A → World → SocketAddr → ConnectedDualLaneBirth A → Outcome (Connector F C A)
  unfolding add_session
  install_session s w addr birth = elim (lookup addr s.groups) [
    | none ↦ panics
    | some g ↦ returns (add_session s w addr birth g)
  ]

  -- A redial moves the streams of the old session, which drains from now on.
  pub finish_redial :
      Connector F C A → World → SocketAddr → Option (RedialInFlight F) → ℕ → Connector F C A
  finish_redial s w addr none session = s
  finish_redial s w addr (some r) session = record s {
    store = (rebind_streams w.alive w.writing s.store r.old session).0;
    draining = insert addr r.old s.draining;
  }

  -- The waiters get their streams, and the session becomes the one of its address.
  pub publish_session : Connector F C A → World → SocketAddr → ℕ → Connector F C A × List (Effect F)
  unfolding answer_opened
  publish_session s w addr session =
      let (t, effects) = answer_opened w s.store session (waiters_at addr s.dial_waiters) in
      (
        record s {
          store = t;
          dial_waiters = remove addr s.dial_waiters;
          sessions = insert addr session s.sessions;
        },
        effects,
      )

  -- The explorer of the address probes the new session's path from now on.
  watch_session : Connector F C A → World → SocketAddr → ConnectedDualLaneBirth A → Connector F C A
  unfolding probe_path
  watch_session s w addr birth = record s {
    explorers =
        update addr
          (λ e. set_active e (probe_path birth.probe_tap birth.local_addr) w.now w.stagger)
          s.explorers;
  }

  -- `redialed_old` is the redial that the dial was started for.
  dial_connected :
      Connector F C A
      → World
      → SocketAddr
      → Option (RedialInFlight F)
      → ConnectedDualLaneBirth A
      → Outcome (Connector F C A × List (Effect F))
  unfolding watch_session install_session finish_redial publish_session
  dial_connected s w addr redialed_old birth =
      elim (install_session (watch_session s w addr birth) w addr birth) [
        | panics ↦ panics
        | returns installed ↦ returns (
            publish_session (finish_redial installed w addr redialed_old birth.session) w addr
              birth.session)
      ]

  dial_failed : Connector F C A → World → SocketAddr → ErrorKind → Connector F C A × List (Effect F)
  unfolding prune_dead_addresses answer_failed
  dial_failed s w addr kind = (
    prune_dead_addresses (record s { dial_waiters = remove addr s.dial_waiters }) w,
    answer_failed kind (waiters_at addr s.dial_waiters),
  )

  -- The dial is not pending any more.
  clear_dial : Connector F C A → SocketAddr → Connector F C A
  unfolding remove_dial
  clear_dial s addr = record s {
    pending_dials = remove_dial addr s.pending_dials;
    in_flight_dials = drop_member addr s.in_flight_dials;
    redials = remove addr s.redials;
  }

  pub dial_ended :
      Connector F C A
      → World
      → SocketAddr
      → Result ErrorKind (ConnectedDualLaneBirth A)
      → Outcome (Connector F C A × List (Effect F))
  unfolding dial_connected dial_failed clear_dial
  dial_ended s w addr (ok birth) =
      dial_connected (clear_dial s addr) w addr (lookup addr s.redials) birth
  dial_ended s w addr (err kind) = returns (dial_failed (clear_dial s addr) w addr kind)

module _ {F C A : Type 0} where
  -- The dial is pending; the token is the one of the address's group.
  unfoldable pub push_dial :
      Connector F C A
      → World
      → SocketAddr
      → Option ℕ
      → Option C
      → Map SocketAddr (PathExplorer F C A)
      → Connector F C A
  unfolding token_of
  push_dial s w addr key socket explorers = record s {
    groups = or_insert addr (new_group w.fresh_token) s.groups;
    explorers = explorers;
    in_flight_dials = add_member addr s.in_flight_dials;
    pending_dials =
        s.pending_dials
        ++ record {
          addr = addr;
          token = token_of w.fresh_token (lookup addr s.groups);
          socket = socket;
          obfuscation_key = key;
        }
          ∷ [];
  }

module _ {F C A : Type 0} (floats : Floats F) where
  unfoldable pub take_socket :
      SocketAddr
      → Map SocketAddr (PathExplorer F C A)
      → Outcome (Option C × Map SocketAddr (PathExplorer F C A))
  take_socket addr explorers = elim (lookup addr explorers) [
    | none ↦ returns (none, explorers)
    | some e ↦ elim (pop_best floats e) [
      | panics ↦ panics
      | returns (best, left) ↦ returns (socket_of best, insert addr left explorers)
    ]
  ]

  unfoldable pub with_explorer :
      Option ExplorerContext
      → ℕ
      → SocketAddr
      → Map SocketAddr (PathExplorer F C A)
      → Map SocketAddr (PathExplorer F C A)
  with_explorer none now addr explorers = explorers
  with_explorer (some ctx) now addr explorers = or_insert addr (new ctx.config now) explorers

  unfoldable pub start_dial :
      Option ExplorerContext
      → Connector F C A
      → World
      → SocketAddr
      → Option ℕ
      → Outcome (Connector F C A)
  unfolding take_socket with_explorer
  start_dial ctx s w addr key = elim (take_socket addr (with_explorer ctx w.now addr s.explorers)) [
    | panics ↦ panics
    | returns (socket, explorers) ↦ returns (push_dial s w addr key socket explorers)
  ]
