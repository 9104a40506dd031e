-- ===== src/Admission.antt =====
-- src/admission.rs: the server's registry of lanes that wait for their partner, the permits that
-- bound it, and the pairing of two lanes by nonce. Nonces, group tokens and sessions are numbers.
pub mod Types
pub mod Permits
pub mod Balance
pub mod System
pub mod Pairing
pub mod Waiting
pub mod Expiry
mod Examples
use rtp_mux.Prelude.{
  ℕ, ◌+◌, ◌-◌, ◌^◌, ◌%◌, ◌≡◌, Bool, true, false, not, ◌&&◌, ◌||◌, Option, none, some, List, [], ◌∷◌,
  min, eqb, leb, nat_eq, if◌then◌else◌, Map, lookup, insert, remove, Result, ok, err, Outcome,
  returns, panics,
}
use rtp_mux.Shared.{
  SocketAddr, LaneClass, beq_class, beq_addr, max_pending_lanes, max_pending_lanes_per_peer,
  pairing_deadline,
}
pub use Types.*

unfoldable pub new : Registry
new = record { entries = []; admitted = 0; per_peer = []; notified = false }

abbrev pub or_zero : Option ℕ → ℕ
or_zero none = 0
or_zero (some n) = n

unfoldable pub try_admit : Registry → ℕ → Registry × Result Reason Permit
try_admit s peer =
    let count = or_zero (lookup peer s.per_peer) in
    if leb max_pending_lanes s.admitted
    then (s, err total_capacity)
    else if leb max_pending_lanes_per_peer count
    then (s, err per_peer_capacity)
    else (
      record s { admitted = s.admitted + 1; per_peer = insert peer (count + 1) s.per_peer },
      ok (record { peer = peer }),
    )

-- What the drop of a permit does to its peer's count.
pub release_peer : ℕ → Option ℕ → Map ℕ ℕ → Map ℕ ℕ
release_peer peer none m = m
release_peer peer (some count) m =
    if eqb (count - 1) 0 then remove peer m else insert peer (count - 1) m

unfoldable pub drop_permit : Registry → Permit → Registry
unfolding release_peer
drop_permit s p = record s {
  admitted = s.admitted - 1;
  per_peer = release_peer p.peer (lookup p.peer s.per_peer) s.per_peer;
}

-- A lane that meets the entry of its nonce. The checks come in the source's order.
pub meet :
    Registry → ℕ → PendingLaneEntry → LaneClass → SocketAddr → ℕ → Registry × PendingLaneAdmission
meet s nonce (building b) class peer group =
    if not (eqb b.peer.ip peer.ip)
    then (s, reject peer_mismatch)
    else if beq_class b.class class
    then (s, reject duplicate_class)
    else if not (eqb b.group group)
    then (s, reject group_mismatch)
    else (s, PendingLaneAdmission.wait b.generation b.expires_at)
meet s nonce (ready lane expires_at) class peer group =
    if not (eqb lane.peer.ip peer.ip)
    then (s, reject peer_mismatch)
    else if beq_class lane.class class
    then (s, reject duplicate_class)
    else if not (eqb lane.group group)
    then (s, reject group_mismatch)
    else (record s { entries = remove nonce s.entries; notified = true }, pair lane expires_at)

-- A lane that is first for its nonce takes its permit into the registry.
unfoldable pub reserve :
    Registry
    → ℕ
    → LaneClass
    → SocketAddr
    → SocketAddr
    → ℕ
    → ℕ
    → Option Permit
    → Outcome (Registry × PendingLaneAdmission × Option Permit)
reserve s nonce class peer local_addr group now none = panics
reserve s nonce class peer local_addr group now (some permit) =
    let entry : PendingLaneEntry = building (record {
      peer = peer;
      local_addr = local_addr;
      class = class;
      group = group;
      expires_at = now + pairing_deadline;
      generation = 0;
      permit = permit;
    }) in
    returns (record s { entries = insert nonce entry s.entries; notified = true }, reserved, none)

unfoldable pub register_admitted :
    Registry
    → ℕ
    → LaneClass
    → SocketAddr
    → SocketAddr
    → ℕ
    → ℕ
    → Option Permit
    → Outcome (Registry × PendingLaneAdmission × Option Permit)
unfolding meet reserve
register_admitted s nonce class peer local_addr group now permit = elim (lookup nonce s.entries) [
  | none ↦ reserve s nonce class peer local_addr group now permit
  | some entry ↦
      let (s', admission) = meet s nonce entry class peer group in returns (s', admission, permit)
]

-- The generation of a reservation wraps as a `u64`.
abbrev bump : ℕ → ℕ
bump generation = (generation + 1) % 2 ^ 64

-- The lane that a confirmed reservation becomes.
abbrev pub become_ready : Building → PreparedLane → PendingLane
become_ready b lane = record {
  class = lane.class;
  peer = lane.peer;
  local_addr = lane.local_addr;
  group = b.group;
  permit = b.permit;
  session = lane.session;
}

pub claim : Registry → ℕ → PreparedLane → PendingLaneEntry → Registry × Result PreparedLane ℕ
claim s nonce lane (ready other expires_at) = (
  record s { entries = insert nonce (ready other expires_at) (remove nonce s.entries) },
  err lane,
)
claim s nonce lane (building b) =
    if not (beq_addr b.peer lane.peer) || not (beq_class b.class lane.class)
    then (record s { entries = insert nonce (building b) (remove nonce s.entries) }, err lane)
    else (
      record s {
        entries = insert nonce (ready (become_ready b lane) b.expires_at) (remove nonce s.entries);
        notified = true;
      },
      ok (bump b.generation),
    )

-- Success carries the generation that the reservation's watchers see.
pub confirm_reservation : Registry → ℕ → PreparedLane → Registry × Result PreparedLane ℕ
unfolding claim
confirm_reservation s nonce lane = elim (lookup nonce s.entries) [
  | none ↦ (s, err lane)
  | some entry ↦ claim s nonce lane entry
]

-- A waiting lane that finds the entry of its nonce.
pub poll_entry :
    Registry → ℕ → PendingLaneEntry → LaneClass → SocketAddr → ℕ → ℕ → Registry × PairingPoll
poll_entry s nonce entry class peer expires_at now =
    if not (eqb (entry_peer entry).ip peer.ip)
    then (s, done (reservation_lost peer_mismatch))
    else if beq_class (entry_class entry) class
    then (s, done (reservation_lost duplicate_class))
    else elim entry [
      | ready lane _ ↦
          (record s { entries = remove nonce s.entries; notified = true }, done (paired lane))
      | building b ↦ if leb expires_at now then (s, done timeout) else (s, PairingPoll.wait)
    ]

pub pair_wait_step : Registry → ℕ → LaneClass → SocketAddr → ℕ → ℕ → Registry × PairingPoll
unfolding poll_entry
pair_wait_step s nonce class peer expires_at now = elim (lookup nonce s.entries) [
  | none ↦ (s, done (reservation_lost reservation_disappeared))
  | some entry ↦ poll_entry s nonce entry class peer expires_at now
]

pub reinsert_ready_lane : Registry → ℕ → PendingLane → ℕ → Registry × Result PendingLane (Unit {0})
reinsert_ready_lane s nonce lane expires_at = elim (lookup nonce s.entries) [
  | some _ ↦ (s, err lane)
  | none ↦ (
    record s { entries = insert nonce (ready lane expires_at) s.entries; notified = true },
    ok tt,
  )
]

-- The removed reservation's permit is dropped after the lock is released.
pub withdraw : Registry → ℕ → SocketAddr → LaneClass → PendingLaneEntry → Registry
unfolding drop_permit
withdraw s nonce peer class (ready lane expires_at) = s
withdraw s nonce peer class (building b) =
    if beq_addr b.peer peer && beq_class b.class class
    then drop_permit (record s { entries = remove nonce s.entries; notified = true }) b.permit
    else s

pub cancel_reservation : Registry → ℕ → SocketAddr → LaneClass → Registry
unfolding withdraw
cancel_reservation s nonce peer class = elim (lookup nonce s.entries) [
  | none ↦ s
  | some entry ↦ withdraw s nonce peer class entry
]

abbrev earliest : ℕ → Option ℕ → Option ℕ
earliest n none = some n
earliest n (some m) = some (min n m)

-- `values().map(expires_at).min()`
min_expiry : Map ℕ PendingLaneEntry → Option ℕ
min_expiry [] = none
min_expiry ((nonce, entry) ∷ m) = earliest (entry_expires_at entry) (min_expiry m)

pub next_expiry : Registry → Option ℕ
unfolding min_expiry
next_expiry s = min_expiry s.entries

abbrev to_expired : ℕ → PendingLaneEntry → ExpiredPendingLane
to_expired nonce (building b) =
    ExpiredPendingLane.building nonce b.peer b.local_addr b.class b.permit
to_expired nonce (ready lane expires_at) = ExpiredPendingLane.ready nonce lane

-- The nonces whose entries have run out.
expired_nonces : ℕ → Map ℕ PendingLaneEntry → List ℕ
expired_nonces now [] = []
expired_nonces now ((nonce, entry) ∷ m) =
    let rest = expired_nonces now m in
    if leb (entry_expires_at entry) now then nonce ∷ rest else rest

remove_expired : List ℕ → Map ℕ PendingLaneEntry → Map ℕ PendingLaneEntry × List ExpiredPendingLane
remove_expired [] m = (m, [])
remove_expired (nonce ∷ nonces) m = elim (lookup nonce m) [
  | none ↦ remove_expired nonces m
  | some entry ↦
      let (m', removed) = remove_expired nonces (remove nonce m) in
      (m', to_expired nonce entry ∷ removed)
]

pub expire : Registry → ℕ → Registry × List ExpiredPendingLane
unfolding expired_nonces remove_expired
expire s now =
    let (m, removed) = remove_expired (expired_nonces now s.entries) s.entries in
    (record s { entries = m }, removed)
