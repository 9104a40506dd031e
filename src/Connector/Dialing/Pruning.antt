-- ===== src/Connector/Dialing/Pruning.antt =====
-- `prune_dead_addresses` of src/connector/cross_session.rs keeps the groups of the dials in flight.
use rtp_mux.Prelude.{◌≡◌, refl, Bool, true, [], ◌∷◌, is_in, is_in-cons, arith, Map}
use rtp_mux.Shared.{SocketAddr, addr_eq, beq_addr_iff}
use rtp_mux.Connector.Types.{Connector, World, AddrGroup}
use rtp_mux.Connector.Dialing.{prune_groups, prune_dead_addresses, live_sessions}
use rtp_mux.Connector.Invariant.{IsOrderly}

prune_groups-in_flight :
    (w : World) (in_flight : SocketAddr → Bool) (m : Map SocketAddr AddrGroup) (a : SocketAddr)
    → in_flight a ≡ true
    → is_in a m ≡ true
    → is_in a (prune_groups w in_flight m) ≡ true
unfolding prune_groups
prune_groups-in_flight w in_flight [] a h i = i
prune_groups-in_flight w in_flight ((k, g) ∷ m) a h i = ground (
  arith,
  h,
  i,
  beq_addr_iff k a,
  is_in-cons k a g m,
  is_in-cons k a (live_sessions w g) (prune_groups w in_flight m),
  prune_groups-in_flight w in_flight m a h,
)

pub prune_dead_addresses-IsOrderly :
    {F C A : Type 0} (s : Connector F C A) (w : World)
    → IsOrderly s
    → IsOrderly (prune_dead_addresses s w)
unfolding prune_dead_addresses
prune_dead_addresses-IsOrderly s w v = record {
  once = v.once;
  grouped = λ a h. prune_groups-in_flight w s.in_flight_dials s.groups a h (v.grouped a h);
  waiting = v.waiting;
  redialing = v.redialing;
  few_dials = v.few_dials;
  few_waiters = v.few_waiters;
  unique = v.unique;
}

pub prune_dead_addresses-dial_waiters :
    {F C A : Type 0} (s : Connector F C A) (w : World)
    → (prune_dead_addresses s w).dial_waiters ≡ s.dial_waiters
unfolding prune_dead_addresses
prune_dead_addresses-dial_waiters s w = refl
