-- ===== src/LaneAccept/Permits.antt =====
-- The permits of the task that accepts a lane in src/server.rs: it drops its permit once, or gives it
-- to the registry or to the pair.
use rtp_mux.Prelude.{
  ℕ, Bool, not, Option, none, some, List, [], ◌∷◌, ◌++◌, Result, ok, err, Outcome, returns, panics,
  if-holds,
}
use rtp_mux.Shared.{beq_class}
use rtp_mux.Admission.{
  Registry, Permit, PendingLane, PendingLaneAdmission, reserved, wait, pair, reject,
  PendingLaneWait, paired, timeout, reservation_lost, register_admitted, reinsert_ready_lane,
  confirm_reservation, PreparedLane, drop_permit,
}
use rtp_mux.Admission.Permits.{
  Accounts, admission_permits, left_permits, frame-Moves, register_admitted-Accounts,
  confirm_reservation-Moves, reinsert_ready_lane-Moves, unrestored_permits,
}
use rtp_mux.Admission.Balance.{IsBalanced, Moves-IsBalanced, drop_permit-IsBalanced}
use rtp_mux.Admission.System.{cancel_reservation-IsBalanced}
use rtp_mux.LaneAccept.{
  AdmittedLane, Hello, deadline_elapsed, unreadable, greeting, Heartbeat, written, timed_out,
  io_failed, Output, pairs, Next, meets, Stage, accept_hello, accept_reserved, accept_waited,
  accept_pair, admit, admitted_stage, after_admission, confirmed, restored, give_back, pair_with,
  prepared,
}

abbrev next_permits : Next → List Permit
next_permits (meets nonce group other expires_at) = other.permit ∷ []
next_permits _ = []

abbrev output_permits : List Output → List Permit
output_permits [] = []
output_permits (pairs a b nonce ∷ output) = b.permit ∷ a.permit ∷ output_permits output
output_permits (_ ∷ output) = output_permits output

-- The permits that the task holds or has given to a pair.
abbrev pub stage_permits : Stage → List Permit
stage_permits st = next_permits st.next ++ (left_permits st.permit ++ output_permits st.output)

-- The task goes on, and its permits and those of `held` are all that are live outside the registry.
abbrev pub Kept : List Permit → Outcome Stage → Type 0
Kept held (returns st) = IsBalanced st.registry (stage_permits st ++ held)
Kept held panics = ⊥

module _ (a : AdmittedLane) (held : List Permit) where
  after_admission-Kept :
      (nonce group : ℕ) (s : Registry) (adm : PendingLaneAdmission) (left : Option Permit)
      → IsBalanced s ((admission_permits adm ++ left_permits left) ++ held)
      → Kept held (returns (after_admission a nonce group s adm left))
  unfolding after_admission
  after_admission-Kept nonce group s reserved none v = v
  after_admission-Kept nonce group s reserved (some p) v = v
  after_admission-Kept nonce group s (wait g t) none v = v
  after_admission-Kept nonce group s (wait g t) (some p) v = v
  after_admission-Kept nonce group s (pair other t) none v = v
  after_admission-Kept nonce group s (pair other t) (some p) v = v
  after_admission-Kept nonce group s (reject reason) none v = v
  after_admission-Kept nonce group s (reject reason) (some p) v = drop_permit-IsBalanced s p held v

  admitted_stage-Kept :
      (nonce group : ℕ) (s : Registry) (p : Permit)
      (r : Outcome (Registry × PendingLaneAdmission × Option Permit))
      → Accounts s p r
      → IsBalanced s (p ∷ held)
      → Kept held (admitted_stage a nonce group r)
  unfolding admitted_stage
  admitted_stage-Kept nonce group s p (returns (s', adm, left)) m v =
      after_admission-Kept nonce group s' adm left (Moves-IsBalanced (frame-Moves held m) v)
  admitted_stage-Kept nonce group s p panics m v = absurd m

  -- Whatever the peer's hello, the first part of the task does not panic, and afterwards the counts
  -- of the registry are exact for the permits that the task and the others still hold.
  pub accept_hello-Kept :
      (s : Registry) (full : ℕ → Bool) (permit : Permit) (hello : Hello) (now : ℕ)
      → IsBalanced s (permit ∷ held)
      → Kept held (accept_hello s full a permit hello now)
  unfolding accept_hello admit
  accept_hello-Kept s full permit deadline_elapsed now v = drop_permit-IsBalanced s permit held v
  accept_hello-Kept s full permit unreadable now v = drop_permit-IsBalanced s permit held v
  accept_hello-Kept s full permit (greeting class nonce group) now v =
      if-holds (Kept held) (not (beq_class class a.expected_class)) _ _
        (drop_permit-IsBalanced s permit held v)
        (if-holds (Kept held) (full group) _ _ (drop_permit-IsBalanced s permit held v) (
          admitted_stage-Kept nonce group s permit
            (register_admitted s nonce a.expected_class a.peer a.local_addr group now (some permit))
            (register_admitted-Accounts s v.unique nonce a.expected_class a.peer a.local_addr group
              now permit)
            v))

  abbrev wait_permits : PendingLaneWait → List Permit
  wait_permits (paired lane) = lane.permit ∷ []
  wait_permits _ = []

  -- A task that has waited does not panic whatever the wait gives; it pairs its lane with its permit,
  -- or drops the permit.
  pub accept_waited-Kept :
      (s : Registry) (nonce group : ℕ) (result : PendingLaneWait) (permit : Permit)
      → IsBalanced s (wait_permits result ++ permit ∷ held)
      → Kept held (accept_waited s a nonce group result (some permit))
  unfolding accept_waited pair_with
  accept_waited-Kept s nonce group (paired lane) permit v = v
  accept_waited-Kept s nonce group timeout permit v = drop_permit-IsBalanced s permit held v
  accept_waited-Kept s nonce group (reservation_lost r) permit v =
      drop_permit-IsBalanced s permit held v

  give_back-Kept :
      (r : Registry × Result PendingLane (Unit {0})) (failure : Heartbeat) (permit : Permit)
      → IsBalanced r.0 (unrestored_permits r.1 ++ permit ∷ held)
      → Kept held (returns (give_back a (restored r) failure (some permit)))
  unfolding give_back restored
  give_back-Kept (s, ok t) written permit v = drop_permit-IsBalanced s permit held v
  give_back-Kept (s, ok t) timed_out permit v = drop_permit-IsBalanced s permit held v
  give_back-Kept (s, ok t) io_failed permit v = drop_permit-IsBalanced s permit held v
  give_back-Kept (s, err lane) written permit v =
      drop_permit-IsBalanced (drop_permit s lane.permit) permit held
        (drop_permit-IsBalanced s lane.permit (permit ∷ held) v)
  give_back-Kept (s, err lane) timed_out permit v =
      drop_permit-IsBalanced (drop_permit s lane.permit) permit held
        (drop_permit-IsBalanced s lane.permit (permit ∷ held) v)
  give_back-Kept (s, err lane) io_failed permit v =
      drop_permit-IsBalanced (drop_permit s lane.permit) permit held
        (drop_permit-IsBalanced s lane.permit (permit ∷ held) v)

  -- A task that was handed a ready lane does not panic: it pairs both, or, if its heartbeat fails,
  -- puts the other lane back or drops it, and drops its own permit.
  pub accept_pair-Kept :
      (s : Registry) (nonce group : ℕ) (other : PendingLane) (expires_at : ℕ)
      (heartbeat : Heartbeat) (permit : Permit)
      → IsBalanced s (other.permit ∷ permit ∷ held)
      → Kept held (accept_pair s a nonce group other expires_at heartbeat (some permit))
  unfolding accept_pair pair_with
  accept_pair-Kept s nonce group other t written permit v = v
  accept_pair-Kept s nonce group other t timed_out permit v =
      give_back-Kept (reinsert_ready_lane s nonce other t) timed_out permit (
        Moves-IsBalanced
          (frame-Moves (permit ∷ held) (reinsert_ready_lane-Moves s v.unique nonce other t)) v)
  accept_pair-Kept s nonce group other t io_failed permit v =
      give_back-Kept (reinsert_ready_lane s nonce other t) io_failed permit (
        Moves-IsBalanced
          (frame-Moves (permit ∷ held) (reinsert_ready_lane-Moves s v.unique nonce other t)) v)

  confirmed-Kept :
      (r : Registry × Result PreparedLane ℕ)
      → IsBalanced r.0 held
      → Kept held (returns (confirmed a r))
  unfolding confirmed
  confirmed-Kept (s, ok g) v = v
  confirmed-Kept (s, err lane) v = v

  -- A task whose permit the registry has taken confirms its reservation, or cancels it if the
  -- heartbeat fails: the counts stay exact either way.
  pub accept_reserved-Kept :
      (s : Registry) (nonce : ℕ) (heartbeat : Heartbeat)
      → IsBalanced s held
      → Kept held (returns (accept_reserved s a nonce heartbeat))
  unfolding accept_reserved
  accept_reserved-Kept s nonce written v =
      confirmed-Kept (confirm_reservation s nonce (prepared a)) (
        Moves-IsBalanced
          (frame-Moves held (confirm_reservation-Moves s v.unique nonce (prepared a))) v)
  accept_reserved-Kept s nonce timed_out v =
      cancel_reservation-IsBalanced s held nonce a.peer a.expected_class v
  accept_reserved-Kept s nonce io_failed v =
      cancel_reservation-IsBalanced s held nonce a.peer a.expected_class v
