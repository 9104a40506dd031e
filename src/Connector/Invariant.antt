-- ===== src/Connector/Invariant.antt =====
-- What holds of the maps of src/connector/mod.rs between two events of the loop.
use rtp_mux.Prelude.{
  ℕ, ◌≡◌, ◌≤◌, true, false, none, List, if◌then◌else◌, lookup, is_in, ◌==◌, total, length, Unique,
}
use rtp_mux.Shared.{SocketAddr, addr_eq, max_concurrent_dual_dials, max_dial_waiters_per_addr}
use rtp_mux.Connector.Types.{Connector, DualLaneDial}
use rtp_mux.Connector.Dialing.{waiters_at}

abbrev pub dial_to : {C : Type 0} → SocketAddr → DualLaneDial C → ℕ
dial_to a d = if d.addr == a then 1 else 0

-- The pending dials of an address.
abbrev pub dials : {C : Type 0} → SocketAddr → List (DualLaneDial C) → ℕ
dials a ds = total (dial_to a) ds

-- An address in flight has just one dial and a group; only such an address has waiters or a redial;
-- dials and waiters keep to their bounds.
pub record IsOrderly {F C A : Type 0} (s : Connector F C A) : Type 0 where
  pub once : (a : SocketAddr) → dials a s.pending_dials ≡ (if s.in_flight_dials a then 1 else 0)
  pub grouped : (a : SocketAddr) → s.in_flight_dials a ≡ true → is_in a s.groups ≡ true
  pub waiting : (a : SocketAddr) → s.in_flight_dials a ≡ false → lookup a s.dial_waiters ≡ none
  pub redialing : (a : SocketAddr) → s.in_flight_dials a ≡ false → lookup a s.redials ≡ none
  pub few_dials : length s.pending_dials ≤ max_concurrent_dual_dials
  pub few_waiters :
      (a : SocketAddr) → length (waiters_at a s.dial_waiters) ≤ max_dial_waiters_per_addr
  pub unique : Unique s.dial_waiters
