-- ===== src/Connector/Commands/Upkeep.antt =====
-- What the commands of src/connector/mod.rs, a reset and the end of a session do to the maps of the loop
-- keeps those in order.
use rtp_mux.Prelude.{
  ℕ, ◌≡◌, ◌≤◌, refl, true, not, none, some, List, inl, inr, eqb, lookup, insert, remove, update,
  length, arith, returns, Option-cases, Bool-cases, lookup-insert, lookup-insert_self,
  insert-Unique, keep_if, length-keep_if-le,
}
use rtp_mux.Shared.{SocketAddr, addr_eq, beq_addr_iff, max_dial_waiters_per_addr}
use rtp_mux.Explorer.{set_active}
use rtp_mux.Connector.Types.{Connector, World, Effect, StreamRequest}
use rtp_mux.Connector.Dialing.{waiters_at}
use rtp_mux.Connector.Dialing.Pruning.{prune_dead_addresses-IsOrderly}
use rtp_mux.Connector.Commands.{Handled, live_dial_waiters, session_ended, reset}
use rtp_mux.Connector.Invariant.{IsOrderly}

-- A handler returns, and the maps are in order.
abbrev pub EndsOrderly : {F C A : Type 0} → Handled F C A → Type 0
EndsOrderly {F} {C} {A} o =
    (r : Connector F C A × List (Effect F)) × (o ≡ returns r) × IsOrderly r.0

-- The state with the live waiters of an address.
pub record Refreshed {F C A : Type 0} (s : Connector F C A) (addr : SocketAddr)
    (r : Connector F C A × ℕ) : Type 0 where
  pub sound : IsOrderly r.0
  pub counted : r.1 ≡ length (waiters_at addr r.0.dial_waiters)

few_kept :
    (w : World) (waiters : List StreamRequest)
    → length (keep_if (λ q. not (w.closed q.response)) waiters) ≤ length waiters
few_kept w waiters = length-keep_if-le (λ q. not (w.closed q.response)) waiters

module _ {F C A : Type 0} where
  pub with_waiters-IsOrderly :
      (s : Connector F C A) (addr : SocketAddr) (waiters : List StreamRequest)
      → length waiters ≤ max_dial_waiters_per_addr
      → s.in_flight_dials addr ≡ true
      → IsOrderly s
      → IsOrderly (record s { dial_waiters = insert addr waiters s.dial_waiters })
  with_waiters-IsOrderly s addr waiters few flying v = record {
    once = v.once;
    grouped = v.grouped;
    waiting = λ a h. ground (
      arith,
      v.waiting a h,
      h,
      flying,
      beq_addr_iff addr a,
      lookup-insert addr a waiters s.dial_waiters,
    );
    redialing = v.redialing;
    few_dials = v.few_dials;
    few_waiters =
        λ a. ground (arith, v.few_waiters a, few, lookup-insert addr a waiters s.dial_waiters);
    unique = insert-Unique addr waiters s.dial_waiters v.unique;
  }

  few_found :
      (s : Connector F C A) (addr : SocketAddr) (waiters : List StreamRequest)
      → IsOrderly s
      → lookup addr s.dial_waiters ≡ some waiters
      → length waiters ≤ max_dial_waiters_per_addr
  few_found s addr waiters v e = ground (arith, v.few_waiters addr, e)

  found-in_flight :
      (s : Connector F C A) (addr : SocketAddr) (waiters : List StreamRequest)
      → IsOrderly s
      → lookup addr s.dial_waiters ≡ some waiters
      → s.in_flight_dials addr ≡ true
  found-in_flight s addr waiters v e = ground (arith, v.waiting addr, e)

  pub live_dial_waiters-Refreshed :
      (s : Connector F C A) (w : World) (addr : SocketAddr)
      → IsOrderly s
      → Refreshed s addr (live_dial_waiters s w addr)
  unfolding live_dial_waiters
  live_dial_waiters-Refreshed s w addr v = elim (Option-cases (lookup addr s.dial_waiters)) [
    | inl e ↦ rw (e, live_dial_waiters) (record { sound = v; counted = ground (arith, e) })
    | inr (waiters, e) ↦
        let live = keep_if (λ q. not (w.closed q.response)) waiters in
        rw (e, live_dial_waiters)
          (record {
            sound =
                with_waiters-IsOrderly s addr live
                  (omega (arith, few_kept w waiters, few_found s addr waiters v e))
                  (found-in_flight s addr waiters v e) v;
            counted = ground (arith, lookup-insert_self addr live s.dial_waiters);
          })
  ]

  pub reset-IsOrderly : (s : Connector F C A) (w : World) → IsOrderly (reset s w).0
  unfolding reset lookup
  reset-IsOrderly s w = record {
    once = λ a. refl;
    grouped = λ a h. ground (arith, h);
    waiting = λ a h. refl;
    redialing = λ a h. refl;
    few_dials = omega arith;
    few_waiters = λ a. omega arith;
    unique = tt;
  }

  pub session_ended-IsOrderly :
      (s : Connector F C A) (w : World) (addr : SocketAddr) (id : ℕ)
      → IsOrderly s
      → IsOrderly (session_ended s w addr id)
  unfolding session_ended
  session_ended-IsOrderly s w addr id v = elim (Option-cases (lookup addr s.sessions)) [
    | inl e ↦ rw (e, session_ended) (prune_dead_addresses-IsOrderly s w v)
    | inr (current, e) ↦ elim (Bool-cases (eqb current id)) [
      | inr h ↦ rw (e, session_ended, h) (prune_dead_addresses-IsOrderly s w v)
      | inl h ↦
          let explorers = update addr (λ e. set_active e none w.now w.stagger) s.explorers in
          let t = record s { sessions = remove addr s.sessions; explorers = explorers } in
          rw (e, session_ended, h)
            (prune_dead_addresses-IsOrderly t w (record {
              once = v.once;
              grouped = v.grouped;
              waiting = v.waiting;
              redialing = v.redialing;
              few_dials = v.few_dials;
              few_waiters = v.few_waiters;
              unique = v.unique;
            }))
    ]
  ]
