-- ===== src/Connector/Dialing/Ending.antt =====
-- The end of a dial in src/connector/mod.rs: it does not panic, and the loop's maps stay in order.
use rtp_mux.Prelude.{
  ◌≡◌, ◌≤◌, ◌-◌, refl, true, Option, none, some, List, [], ◌∷◌, if◌then◌else◌, lookup, is_in,
  is_in-insert, is_in-lookup, remove, ◌==◌, length, arith, Map, returns, Result, ok, err,
  lookup-remove, remove-Unique,
}
use rtp_mux.Shared.{SocketAddr, ErrorKind, addr_eq, beq_addr_iff}
use rtp_mux.Connector.Types.{
  StreamRequest, Connector, World, Effect, AddrGroup, DualLaneDial, ConnectedDualLaneBirth,
  RedialInFlight,
}
use rtp_mux.Connector.Dialing.{
  dial_ended, remove_dial, drop_member, install_session, add_session, watch_session, clear_dial,
  dial_connected, dial_failed, grown, finish_redial, publish_session, waiters_at,
}
use rtp_mux.Connector.Dialing.Pruning.{prune_dead_addresses-IsOrderly}
use rtp_mux.Connector.Invariant.{IsOrderly, dials}

dials-remove_dial :
    {C : Type 0} (addr a : SocketAddr) (ds : List (DualLaneDial C))
    → dials a (remove_dial addr ds) ≡ (if addr == a then dials a ds - 1 else dials a ds)
unfolding remove_dial
dials-remove_dial addr a [] = ground arith
dials-remove_dial addr a (d ∷ ds) = ground (
  arith,
  beq_addr_iff addr a,
  beq_addr_iff d.addr a,
  beq_addr_iff d.addr addr,
  dials-remove_dial addr a ds,
)

length-remove_dial-le :
    {C : Type 0} (addr : SocketAddr) (ds : List (DualLaneDial C))
    → length (remove_dial addr ds) ≤ length ds
unfolding remove_dial
length-remove_dial-le addr [] = omega arith
length-remove_dial-le addr (d ∷ ds) = ground (arith, length-remove_dial-le addr ds)

-- The state once a dial has ended, as far as the dials, their groups and waiters go.
pub record Ended {F C A : Type 0} (s : Connector F C A) (addr : SocketAddr) (t : Connector F C A)
    : Type 0 where
  pub pending_dials : t.pending_dials ≡ remove_dial addr s.pending_dials
  pub in_flight_dials : t.in_flight_dials ≡ drop_member addr s.in_flight_dials
  pub groups : (a : SocketAddr) → is_in a s.groups ≡ true → is_in a t.groups ≡ true
  pub dial_waiters : t.dial_waiters ≡ remove addr s.dial_waiters
  pub redials : t.redials ≡ remove addr s.redials

few_waiters_left :
    (addr a : SocketAddr) (m : Map SocketAddr (List StreamRequest))
    → length (waiters_at a (remove addr m)) ≤ length (waiters_at a m)
few_waiters_left addr a m = ground (arith, lookup-remove addr a m)

module _ {F C A : Type 0} where
  Ended-IsOrderly :
      (s t : Connector F C A) (addr : SocketAddr) → IsOrderly s → Ended s addr t → IsOrderly t
  Ended-IsOrderly s t addr v u = record {
    once = λ a. ground (
      arith,
      v.once a,
      u.pending_dials,
      u.in_flight_dials,
      beq_addr_iff addr a,
      dials-remove_dial addr a s.pending_dials,
    );
    grouped = λ a h. ground (arith, v.grouped a, u.groups a, h, u.in_flight_dials);
    waiting = λ a h. ground (
      arith,
      v.waiting a,
      h,
      u.dial_waiters,
      u.in_flight_dials,
      lookup-remove addr a s.dial_waiters,
    );
    redialing = λ a h.
        ground
          (arith, v.redialing a, h, u.redials, u.in_flight_dials, lookup-remove addr a s.redials);
    few_dials =
        ground (arith, u.pending_dials, v.few_dials, length-remove_dial-le addr s.pending_dials);
    few_waiters = λ a.
        rw u.dial_waiters (omega (arith, v.few_waiters a, few_waiters_left addr a s.dial_waiters));
    unique = rw u.dial_waiters (remove-Unique addr s.dial_waiters v.unique);
  }

  -- Every step of a dial that connects keeps what is in flight and adds no waiter.
  connected :
      Connector F C A
      → World
      → SocketAddr
      → Option (RedialInFlight F)
      → ConnectedDualLaneBirth A
      → AddrGroup
      → Connector F C A × List (Effect F)
  connected s w addr o birth g =
      publish_session
        (finish_redial (add_session (watch_session s w addr birth) w addr birth g) w addr o
          birth.session)
        w addr birth.session

  dial_connected-connected :
      (s : Connector F C A) (w : World) (addr : SocketAddr) (o : Option (RedialInFlight F))
      (birth : ConnectedDualLaneBirth A) (g : AddrGroup)
      → lookup addr s.groups ≡ some g
      → dial_connected s w addr o birth ≡ returns (connected s w addr o birth g)
  unfolding connected dial_connected install_session watch_session
  dial_connected-connected s w addr o birth g e = rw (e, dial_connected, install_session) refl

  connected-Ended :
      (s : Connector F C A) (w : World) (addr : SocketAddr) (o : Option (RedialInFlight F))
      (birth : ConnectedDualLaneBirth A) (g : AddrGroup)
      → Ended s addr (connected (clear_dial s addr) w addr o birth g).0
  unfolding connected publish_session finish_redial add_session watch_session clear_dial
  connected-Ended s w addr none birth g = record {
    pending_dials = refl;
    in_flight_dials = refl;
    groups = λ a h. ground (arith, is_in-insert addr a (grown w birth.session g) s.groups, h);
    dial_waiters = refl;
    redials = refl;
  }
  connected-Ended s w addr (some r) birth g = record {
    pending_dials = refl;
    in_flight_dials = refl;
    groups = λ a h. ground (arith, is_in-insert addr a (grown w birth.session g) s.groups, h);
    dial_waiters = refl;
    redials = refl;
  }

  failed-IsOrderly :
      (s : Connector F C A) (w : World) (addr : SocketAddr) (kind : ErrorKind)
      → IsOrderly s
      → IsOrderly (dial_failed (clear_dial s addr) w addr kind).0
  unfolding dial_failed clear_dial
  failed-IsOrderly s w addr kind v =
      let cleared = record (clear_dial s addr) { dial_waiters = remove addr s.dial_waiters } in
      prune_dead_addresses-IsOrderly cleared w (
        Ended-IsOrderly s cleared addr v (record {
          pending_dials = refl;
          in_flight_dials = refl;
          groups = λ a i. i;
          dial_waiters = refl;
          redials = refl;
        }))

  -- The end of a dial in flight returns, and the maps stay in order.
  pub dial_ended-IsOrderly :
      (s : Connector F C A) (w : World) (addr : SocketAddr)
      (result : Result ErrorKind (ConnectedDualLaneBirth A))
      → IsOrderly s
      → s.in_flight_dials addr ≡ true
      → (r : Connector F C A × List (Effect F)) × (dial_ended s w addr result ≡ returns r)
        × IsOrderly r.0
  unfolding dial_ended dial_connected connected watch_session clear_dial
  dial_ended-IsOrderly s w addr (err kind) v h =
      (dial_failed (clear_dial s addr) w addr kind, refl, failed-IsOrderly s w addr kind v)
  dial_ended-IsOrderly s w addr (ok birth) v h =
      let (g, e) = is_in-lookup addr s.groups (v.grouped addr h) in
      let o = lookup addr s.redials in
      (
        connected (clear_dial s addr) w addr o birth g,
        dial_connected-connected (clear_dial s addr) w addr o birth g e,
        Ended-IsOrderly s (connected (clear_dial s addr) w addr o birth g).0 addr v
            (connected-Ended s w addr o birth g),
      )
