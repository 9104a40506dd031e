-- ===== src/Admission/Types.antt =====
-- The data of src/admission.rs: permits, lanes, the entries of the registry, and its results.
use rtp_mux.Prelude.{ℕ, Bool, Map}
use rtp_mux.Shared.{SocketAddr, LaneClass}

-- A permit names the peer address that it counts against. Who holds it, drops it once.
pub record Permit : Type 0 where
  pub peer : ℕ

-- An unpaired lane of the mux with the owner of its RTP session: `session` identifies both.
pub record PreparedLane : Type 0 where
  pub class : LaneClass
  pub peer : SocketAddr
  pub local_addr : SocketAddr
  pub session : ℕ

pub record PendingLane : Type 0 where
  pub class : LaneClass
  pub peer : SocketAddr
  pub local_addr : SocketAddr
  pub group : ℕ
  pub permit : Permit
  pub session : ℕ

-- The sender of a reservation's watch channel is its generation.
pub record Building : Type 0 where
  pub peer : SocketAddr
  pub local_addr : SocketAddr
  pub class : LaneClass
  pub group : ℕ
  pub expires_at : ℕ
  pub generation : ℕ
  pub permit : Permit

pub data PendingLaneEntry : Type 0 where
  building : Building → PendingLaneEntry
  ready : PendingLane → ℕ → PendingLaneEntry

abbrev pub entry_peer : PendingLaneEntry → SocketAddr
entry_peer (building b) = b.peer
entry_peer (ready lane expires_at) = lane.peer

abbrev pub entry_class : PendingLaneEntry → LaneClass
entry_class (building b) = b.class
entry_class (ready lane expires_at) = lane.class

abbrev pub entry_expires_at : PendingLaneEntry → ℕ
entry_expires_at (building b) = b.expires_at
entry_expires_at (ready lane expires_at) = expires_at

abbrev pub entry_group : PendingLaneEntry → ℕ
entry_group (building b) = b.group
entry_group (ready lane expires_at) = lane.group

-- `notified` is the permit that `notify_one` stores for the expiry worker.
pub record Registry : Type 0 where
  pub entries : Map ℕ PendingLaneEntry
  pub admitted : ℕ
  pub per_peer : Map ℕ ℕ
  pub notified : Bool

-- The messages of the source, one constructor for each.
pub data Reason : Type 0 where
  total_capacity per_peer_capacity : Reason
  peer_mismatch duplicate_class group_mismatch reservation_disappeared : Reason

pub data PendingLaneAdmission : Type 0 where
  reserved : PendingLaneAdmission
  wait : ℕ → ℕ → PendingLaneAdmission
  pair : PendingLane → ℕ → PendingLaneAdmission
  reject : Reason → PendingLaneAdmission

pub data PendingLaneWait : Type 0 where
  paired : PendingLane → PendingLaneWait
  timeout : PendingLaneWait
  reservation_lost : Reason → PendingLaneWait

pub data PairingPoll : Type 0 where
  done : PendingLaneWait → PairingPoll
  wait : PairingPoll

pub data ExpiredPendingLane : Type 0 where
  building : ℕ → SocketAddr → SocketAddr → LaneClass → Permit → ExpiredPendingLane
  ready : ℕ → PendingLane → ExpiredPendingLane
