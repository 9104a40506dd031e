-- ===== src/LaneAccept.antt =====
-- src/server.rs: the task that accepts a lane, from its hello to its pairing, and the addresses of a
-- pair. The task is cut at its awaits; each function is what it does from one await to the next.
-- The peer's hello and whether the birth heartbeat could be written are arguments. The output names
-- what leaves the task: the kill signals, the recorded rejections without their reason texts, and
-- the two lanes given to `pair_lanes`.
pub mod Permits
pub mod Sessions
pub mod Expiry
mod Examples
use rtp_mux.Prelude.{
  ℕ, Bool, true, false, not, Option, none, some, List, [], ◌∷◌, ◌++◌, if◌then◌else◌, Result, ok,
  err, Outcome, returns, panics,
}
use rtp_mux.Shared.{SocketAddr, LaneClass, interactive, bulk, beq_class}
use rtp_mux.LaneRejection.{
  LaneRejectionClass, hello_timeout, hello_parse, class_mismatch, admission, group_full,
  pairing_timeout, birth_heartbeat,
}
use rtp_mux.Admission.{
  Registry, Permit, PendingLane, PreparedLane, PendingLaneAdmission, reserved, wait, pair, reject,
  PendingLaneWait, paired, timeout, reservation_lost, drop_permit, register_admitted,
  confirm_reservation, cancel_reservation, reinsert_ready_lane,
}

pub record AdmittedLane : Type 0 where
  pub expected_class : LaneClass
  pub peer : SocketAddr
  pub local_addr : SocketAddr
  pub session : ℕ

-- What `read_lane_hello` gives under its deadline: a class, a nonce and a group.
pub data Hello : Type 0 where
  deadline_elapsed unreadable : Hello
  greeting : LaneClass → ℕ → ℕ → Hello

-- `write_birth_heartbeat_result`
pub data Heartbeat : Type 0 where
  written timed_out io_failed : Heartbeat

pub data Output : Type 0 where
  kill : Output
  rejected : LaneRejectionClass → SocketAddr → SocketAddr → LaneClass → Output
  pairs : PendingLane → PendingLane → ℕ → Output

-- Where the task is: ended, or before its heartbeat with what it must do after it.
pub data Next : Type 0 where
  stopped : Next
  confirms : ℕ → ℕ → Next
  waits : ℕ → ℕ → ℕ → ℕ → Next
  meets : ℕ → ℕ → PendingLane → ℕ → Next

pub record Stage : Type 0 where
  pub registry : Registry
  pub permit : Option Permit
  pub output : List Output
  pub next : Next

abbrev pub drop_held : Registry → Option Permit → Registry
drop_held s none = s
drop_held s (some p) = drop_permit s p

abbrev pub rejection : AdmittedLane → LaneRejectionClass → Output
rejection a class = rejected class a.peer a.local_addr a.expected_class

-- The task ends: its permit is dropped.
abbrev stop : Registry → Option Permit → List Output → Stage
stop s permit output = record {
  registry = drop_held s permit;
  permit = none;
  output = output;
  next = stopped;
}

-- `signal_rejected_lane` kills the lane before it records.
abbrev pub kill_and_reject : Registry → Option Permit → AdmittedLane → LaneRejectionClass → Stage
kill_and_reject s permit a class = stop s permit (kill ∷ rejection a class ∷ [])

-- `reject_birth_heartbeat` kills the lane only if its writer failed.
abbrev heartbeat_rejection : AdmittedLane → Heartbeat → List Output
heartbeat_rejection a written = []
heartbeat_rejection a timed_out = rejection a birth_heartbeat ∷ []
heartbeat_rejection a io_failed = kill ∷ rejection a birth_heartbeat ∷ []

pub after_admission : AdmittedLane → ℕ → ℕ → Registry → PendingLaneAdmission → Option Permit → Stage
after_admission a nonce group s reserved permit = record {
  registry = s;
  permit = permit;
  output = [];
  next = confirms nonce group;
}
after_admission a nonce group s (wait generation expires_at) permit = record {
  registry = s;
  permit = permit;
  output = [];
  next = waits nonce group generation expires_at;
}
after_admission a nonce group s (pair other expires_at) permit = record {
  registry = s;
  permit = permit;
  output = [];
  next = meets nonce group other expires_at;
}
after_admission a nonce group s (reject reason) permit = kill_and_reject s permit a admission

pub admitted_stage :
    AdmittedLane → ℕ → ℕ → Outcome (Registry × PendingLaneAdmission × Option Permit) → Outcome Stage
unfolding after_admission
admitted_stage a nonce group panics = panics
admitted_stage a nonce group (returns (s, admission', left)) =
    returns (after_admission a nonce group s admission' left)

pub admit : Registry → AdmittedLane → Permit → ℕ → ℕ → ℕ → Outcome Stage
unfolding admitted_stage
admit s a permit nonce group now =
    admitted_stage a nonce group
      (register_admitted s nonce a.expected_class a.peer a.local_addr group now (some permit))

-- `full` is `groups.is_full`. Past the check of the class, the hello's class is the listener's, and
-- the task goes on with that.
pub accept_hello : Registry → (ℕ → Bool) → AdmittedLane → Permit → Hello → ℕ → Outcome Stage
unfolding admit
accept_hello s full a permit deadline_elapsed now =
    returns (stop s (some permit) (rejection a hello_timeout ∷ []))
accept_hello s full a permit unreadable now =
    returns (kill_and_reject s (some permit) a hello_parse)
accept_hello s full a permit (greeting class nonce group) now =
    if not (beq_class class a.expected_class)
    then returns (kill_and_reject s (some permit) a class_mismatch)
    else if full group
    then returns (kill_and_reject s (some permit) a group_full)
    else admit s a permit nonce group now

abbrev pub prepared : AdmittedLane → PreparedLane
prepared a = record {
  class = a.expected_class;
  peer = a.peer;
  local_addr = a.local_addr;
  session = a.session;
}

-- `confirm_reservation_or_reject`: a lane that has lost its reservation is dropped and recorded.
pub confirmed : AdmittedLane → Registry × Result PreparedLane ℕ → Stage
confirmed a (s, ok generation) = stop s none []
confirmed a (s, err lane) =
    stop s none
      (rejected LaneRejectionClass.reservation_lost a.peer a.local_addr a.expected_class ∷ [])

-- After `Reserved`.
pub accept_reserved : Registry → AdmittedLane → ℕ → Heartbeat → Stage
unfolding confirmed
accept_reserved s a nonce written = confirmed a (confirm_reservation s nonce (prepared a))
accept_reserved s a nonce failure =
    stop (cancel_reservation s nonce a.peer a.expected_class) none (heartbeat_rejection a failure)

abbrev pub own_lane : AdmittedLane → ℕ → Permit → PendingLane
own_lane a group permit = record {
  class = a.expected_class;
  peer = a.peer;
  local_addr = a.local_addr;
  group = group;
  permit = permit;
  session = a.session;
}

-- The lane takes the task's permit, which must be there.
pub pair_with : Registry → AdmittedLane → ℕ → ℕ → PendingLane → Option Permit → Outcome Stage
pair_with s a nonce group other none = panics
pair_with s a nonce group other (some permit) = returns (record {
  registry = s;
  permit = none;
  output = pairs (own_lane a group permit) other nonce ∷ [];
  next = stopped;
})

-- After `Wait`: `none` if the heartbeat was written.
pub accept_wait : Registry → AdmittedLane → Heartbeat → Option Permit → Option Stage
accept_wait s a written permit = none
accept_wait s a failure permit = some (stop s permit (heartbeat_rejection a failure))

-- What `wait_for_pair` has given.
pub accept_waited :
    Registry → AdmittedLane → ℕ → ℕ → PendingLaneWait → Option Permit → Outcome Stage
unfolding pair_with
accept_waited s a nonce group (paired other) permit = pair_with s a nonce group other permit
accept_waited s a nonce group timeout permit = returns (kill_and_reject s permit a pairing_timeout)
accept_waited s a nonce group (reservation_lost reason) permit =
    returns (kill_and_reject s permit a LaneRejectionClass.reservation_lost)

-- `reinsert_ready_lane_or_reject`: the other lane, if it cannot be put back, is dropped with its
-- permit and recorded.
pub restored : Registry × Result PendingLane (Unit {0}) → Registry × List Output
restored (s, ok _) = (s, [])
restored (s, err lane) = (
  drop_permit s lane.permit,
  rejected LaneRejectionClass.reservation_lost lane.peer lane.local_addr lane.class ∷ [],
)

pub give_back : AdmittedLane → Registry × List Output → Heartbeat → Option Permit → Stage
give_back a (s, output) failure permit = stop s permit (output ++ heartbeat_rejection a failure)

-- After `Pair`.
pub accept_pair :
    Registry → AdmittedLane → ℕ → ℕ → PendingLane → ℕ → Heartbeat → Option Permit → Outcome Stage
unfolding pair_with restored give_back
accept_pair s a nonce group other expires_at written permit = pair_with s a nonce group other permit
accept_pair s a nonce group other expires_at failure permit =
    returns (give_back a (restored (reinsert_ready_lane s nonce other expires_at)) failure permit)

pub record DualLaneSocketAddrs : Type 0 where
  pub interactive_peer : SocketAddr
  pub interactive_local : SocketAddr
  pub bulk_peer : SocketAddr
  pub bulk_local : SocketAddr

-- Arguments: the class and the addresses of the one lane, then the addresses of the other.
pub classify_lane_addrs :
    LaneClass → SocketAddr → SocketAddr → SocketAddr → SocketAddr → DualLaneSocketAddrs
classify_lane_addrs interactive a_peer a_local b_peer b_local = record {
  interactive_peer = a_peer;
  interactive_local = a_local;
  bulk_peer = b_peer;
  bulk_local = b_local;
}
classify_lane_addrs bulk a_peer a_local b_peer b_local = record {
  interactive_peer = b_peer;
  interactive_local = b_local;
  bulk_peer = a_peer;
  bulk_local = a_local;
}
