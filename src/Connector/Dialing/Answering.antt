-- ===== src/Connector/Dialing/Answering.antt =====
-- The answers of src/connector/mod.rs to the requests that wait for a dial: each request is counted
-- by its response channel.
use rtp_mux.Prelude.{
  ℕ, ◌≡◌, ◌+◌, refl, false, Option, none, some, List, [], ◌∷◌, inl, inr, eqb, if◌then◌else◌, lookup,
  remove, total, total_values, total_values-remove, arith, Map, Outcome, returns, panics, Result,
  ok, err, Option-cases, Bool-cases, Unique,
}
use rtp_mux.Shared.{SocketAddr, ErrorKind, addr_eq}
use rtp_mux.CrossSession.{Store, open_stream}
use rtp_mux.Connector.Types.{
  Connector, World, Effect, StreamRequest, ConnectedDualLaneBirth, RedialInFlight,
}
use rtp_mux.Connector.Dialing.{
  answer_failed, answer_opened, publish_session, finish_redial, install_session, add_session,
  dial_connected, dial_failed, dial_ended, clear_dial, watch_session, prune_dead_addresses,
  waiters_at,
}

abbrev pub asks : ℕ → StreamRequest → ℕ
asks r q = if eqb q.response r then 1 else 0

-- How often a response channel waits in the loop's map.
abbrev pub waits : ℕ → Map SocketAddr (List StreamRequest) → ℕ
waits r m = total_values (λ qs. total (asks r) qs) m

abbrev pub answers_to : {F : Type 0} → ℕ → Effect F → ℕ
answers_to r (Effect.opened i lane session) = if eqb i r then 1 else 0
answers_to r (Effect.failed i kind) = if eqb i r then 1 else 0
answers_to r (Effect.reported i report) = 0
answers_to r (Effect.killed id) = 0
answers_to r Effect.completed = 0

-- How often a response channel is answered.
abbrev pub answers : {F : Type 0} → ℕ → List (Effect F) → ℕ
answers r effects = total (answers_to r) effects

pub answers-answer_failed :
    (F : Type 0) (r : ℕ) (kind : ErrorKind) (qs : List StreamRequest)
    → answers r (answer_failed {F = F} kind qs) ≡ total (asks r) qs
unfolding answer_failed
answers-answer_failed F r kind [] = refl
answers-answer_failed F r kind (q ∷ qs) = ground (arith, answers-answer_failed F r kind qs)

answers-answer_opened :
    (F : Type 0) (r : ℕ) (w : World) (t : Store) (session : ℕ) (qs : List StreamRequest)
    → w.closed r ≡ false
    → answers r (answer_opened {F = F} w t session qs).1 ≡ total (asks r) qs
unfolding answer_opened
answers-answer_opened F r w t session [] wanted = refl
answers-answer_opened F r w t session (q ∷ qs) wanted = elim (Bool-cases (w.closed q.response)) [
  | inl h ↦ ground (arith, h, wanted, answers-answer_opened F r w t session qs wanted)
  | inr h ↦ ground (arith, h, answers-answer_opened F r w (open_stream t session) session qs wanted)
]

-- A handler that returns leaves or answers each of `n` requests of a response channel.
abbrev pub Keeps : {F C A : Type 0} → ℕ → ℕ → Outcome (Connector F C A × List (Effect F)) → Type 0
Keeps r n panics = Unit
Keeps r n (returns x) = waits r x.0.dial_waiters + answers r x.1 ≡ n

pub waits-remove :
    (r : ℕ) (addr : SocketAddr) (m : Map SocketAddr (List StreamRequest))
    → Unique m
    → waits r (remove addr m) + total (asks r) (waiters_at addr m) ≡ waits r m
waits-remove r addr m u = ground (arith, total_values-remove (λ qs. total (asks r) qs) addr m u)

module _ {F C A : Type 0} where
  publish_session-Keeps :
      (s : Connector F C A) (w : World) (addr : SocketAddr) (session r : ℕ)
      → w.closed r ≡ false
      → Unique s.dial_waiters
      → Keeps r (waits r s.dial_waiters) (returns (publish_session s w addr session))
  unfolding publish_session
  publish_session-Keeps s w addr session r wanted u = omega (
    arith,
    waits-remove r addr s.dial_waiters u,
    answers-answer_opened F r w s.store session (waiters_at addr s.dial_waiters) wanted,
  )

  redialed-Keeps :
      (s : Connector F C A) (w : World) (addr : SocketAddr) (o : Option (RedialInFlight F))
      (session r : ℕ)
      → w.closed r ≡ false
      → Unique s.dial_waiters
      → Keeps r
          (waits r s.dial_waiters)
          (returns (publish_session (finish_redial s w addr o session) w addr session))
  unfolding finish_redial
  redialed-Keeps s w addr none session r wanted u =
      publish_session-Keeps s w addr session r wanted u
  redialed-Keeps s w addr (some x) session r wanted u =
      publish_session-Keeps (finish_redial s w addr (some x) session) w addr session r wanted u

  dial_connected-Keeps :
      (s : Connector F C A) (w : World) (addr : SocketAddr) (o : Option (RedialInFlight F))
      (birth : ConnectedDualLaneBirth A) (r : ℕ)
      → w.closed r ≡ false
      → Unique s.dial_waiters
      → Keeps r (waits r s.dial_waiters) (dial_connected s w addr o birth)
  unfolding dial_connected install_session watch_session add_session
  dial_connected-Keeps s w addr o birth r wanted u = elim (Option-cases (lookup addr s.groups)) [
    | inl e ↦ rw (e, dial_connected, install_session) tt
    | inr (g, e) ↦
        rw (e, dial_connected, install_session)
          (redialed-Keeps (add_session (watch_session s w addr birth) w addr birth g) w addr o
            birth.session r wanted u)
  ]

  pub dial_ended-Keeps :
      (s : Connector F C A) (w : World) (addr : SocketAddr)
      (result : Result ErrorKind (ConnectedDualLaneBirth A)) (r : ℕ)
      → w.closed r ≡ false
      → Unique s.dial_waiters
      → Keeps r (waits r s.dial_waiters) (dial_ended s w addr result)
  unfolding dial_ended dial_failed clear_dial prune_dead_addresses
  dial_ended-Keeps s w addr (err kind) r wanted u = omega (
    arith,
    waits-remove r addr s.dial_waiters u,
    answers-answer_failed F r kind (waiters_at addr s.dial_waiters),
  )
  dial_ended-Keeps s w addr (ok birth) r wanted u =
      dial_connected-Keeps (clear_dial s addr) w addr (lookup addr s.redials) birth r wanted u
