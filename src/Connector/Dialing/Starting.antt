-- ===== src/Connector/Dialing/Starting.antt =====
-- The start of a dial in src/connector/mod.rs: it does not panic, and the loop's maps stay in order.
use rtp_mux.Prelude.{
  ℕ, ◌≡◌, ◌≤◌, ◌<◌, refl, true, false, Option, none, [], ◌∷◌, ◌++◌, inl, inr, if◌then◌else◌, lookup,
  is_in, is_in-or_insert, insert, ◌==◌, length, arith, total-append, length-append, Map, returns,
  Option-cases, Unique,
}
use rtp_mux.Shared.{
  SocketAddr, addr_eq, max_concurrent_dual_dials, max_dial_waiters_per_addr, beq_addr_iff,
}
use rtp_mux.Explorer.{PathExplorer}
use rtp_mux.Explorer.Choice.{pop_best-returns}
use rtp_mux.Explorer.Score.{Floats, TotalOrder}
use rtp_mux.Connector.Types.{Connector, World, ExplorerContext, DualLaneDial}
use rtp_mux.Connector.Dialing.{
  start_dial, push_dial, take_socket, with_explorer, new_group, add_member, waiters_at, socket_of,
}
use rtp_mux.Connector.Invariant.{IsOrderly, dials, dial_to}

-- The state once a dial has started, but for the socket, the explorers and the token.
pub record Started {F C A : Type 0} (s : Connector F C A) (addr : SocketAddr) (t : Connector F C A)
    : Type 0 where
  pub dial : DualLaneDial C
  pub dial_addr : dial.addr ≡ addr
  pub pending_dials : t.pending_dials ≡ s.pending_dials ++ dial ∷ []
  pub in_flight_dials : t.in_flight_dials ≡ add_member addr s.in_flight_dials
  pub groups : (a : SocketAddr) → is_in a t.groups ≡ (if addr == a then true else is_in a s.groups)
  pub dial_waiters : t.dial_waiters ≡ s.dial_waiters
  pub redials : t.redials ≡ s.redials

module _ {F C A : Type 0} (floats : Floats F) (order : TotalOrder floats) where
  take_socket-returns :
      (addr : SocketAddr) (explorers : Map SocketAddr (PathExplorer F C A))
      → (r : Option C × Map SocketAddr (PathExplorer F C A)) × (take_socket floats addr explorers
          ≡ returns r)
  unfolding take_socket
  take_socket-returns addr explorers = elim (Option-cases (lookup addr explorers)) [
    | inl e ↦ ((none, explorers), rw (e, take_socket) refl)
    | inr (x, e) ↦
        let (r, p) = pop_best-returns floats order x in
        ((socket_of r.0, insert addr r.1 explorers), rw (e, take_socket, p) refl)
  ]

  pub start_dial-Started :
      (ctx : Option ExplorerContext) (s : Connector F C A) (w : World) (addr : SocketAddr)
      (key : Option ℕ)
      → (t : Connector F C A) × (start_dial floats ctx s w addr key ≡ returns t) × Started s addr t
  unfolding start_dial push_dial
  start_dial-Started ctx s w addr key =
      let (r, e) = take_socket-returns addr (with_explorer floats ctx w.now addr s.explorers) in
      (
        push_dial s w addr key r.0 r.1,
        rw (e, start_dial) refl,
        record {
          dial = _;
          dial_addr = refl;
          pending_dials = refl;
          in_flight_dials = refl;
          groups = λ a. is_in-or_insert addr a (new_group w.fresh_token) s.groups;
          dial_waiters = refl;
          redials = refl;
        },
      )

module _ {F C A : Type 0} where
  -- A dial that starts where none is in flight keeps the maps in order, where waiters and a redial of
  -- its address may stand already.
  pub Started-IsOrderly :
      (s t : Connector F C A) (addr : SocketAddr)
      → ((a : SocketAddr) → dials a s.pending_dials ≡ (if s.in_flight_dials a then 1 else 0))
      → ((a : SocketAddr) → s.in_flight_dials a ≡ true → is_in a s.groups ≡ true)
      → ((a : SocketAddr)
          → s.in_flight_dials a ≡ false
          → (addr == a) ≡ false
          → lookup a s.dial_waiters ≡ none)
      → ((a : SocketAddr)
          → s.in_flight_dials a ≡ false
          → (addr == a) ≡ false
          → lookup a s.redials ≡ none)
      → length s.pending_dials < max_concurrent_dual_dials
      → ((a : SocketAddr) → length (waiters_at a s.dial_waiters) ≤ max_dial_waiters_per_addr)
      → Unique s.dial_waiters
      → s.in_flight_dials addr ≡ false
      → Started s addr t
      → IsOrderly t
  Started-IsOrderly s t addr once grouped waiting redialing room few unique idle v = record {
    once = λ a. ground (
      arith,
      once a,
      v.pending_dials,
      v.in_flight_dials,
      v.dial_addr,
      idle,
      beq_addr_iff addr a,
      total-append (dial_to a) s.pending_dials (v.dial ∷ []),
    );
    grouped = λ a h. ground (arith, v.groups a, grouped a, h, v.in_flight_dials);
    waiting = λ a h. ground (arith, waiting a, h, v.dial_waiters, v.in_flight_dials);
    redialing = λ a h. ground (arith, redialing a, h, v.redials, v.in_flight_dials);
    few_dials = ground (arith, v.pending_dials, room, length-append s.pending_dials (v.dial ∷ []));
    few_waiters = λ a. rw v.dial_waiters (few a);
    unique = rw v.dial_waiters unique;
  }
