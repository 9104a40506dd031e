-- ===== src/Admission/Examples.antt =====
-- The registry of src/admission.rs at concrete lanes.
use rtp_mux.Prelude.{
  ℕ, ◌≡◌, ◌≢◌, refl, true, false, none, some, [], ◌∷◌, lookup, nat_eq, Unique, ok, returns, insert,
  remove,
}
use rtp_mux.Shared.{SocketAddr, interactive, bulk}
use rtp_mux.Admission.{
  Permit, Registry, Building, PreparedLane, PendingLane, PendingLaneEntry, building, ready,
  PendingLaneAdmission, reserved, pair, PairingPoll, done, paired, new, try_admit, drop_permit,
  register_admitted, confirm_reservation, pair_wait_step, expire, next_expiry, entry_expires_at,
  meet, poll_entry, min_expiry,
}
use rtp_mux.Admission.System.{System, Step, Reach, start, IsSound, Reach-IsSound}
use rtp_mux.Admission.Pairing.{HandsOver, register_admitted-pair, register-wait-confirm-poll}
use rtp_mux.Admission.Waiting.{Wake, wait_for_pair, wait_for_pair-Explains, AmongMet, Explains}
use rtp_mux.Admission.Expiry.{expire-due}

abbrev addr : ℕ → SocketAddr
addr port = record { ip = 7; port = port }

abbrev permit : Permit
permit = record { peer = 7 }

abbrev built : PreparedLane
built = record { class = interactive; peer = addr 1; local_addr = addr 10; session = 100 }

abbrev lane : PendingLane
lane = record {
  class = interactive;
  peer = addr 1;
  local_addr = addr 10;
  group = 5;
  permit = permit;
  session = 100;
}

abbrev reservation : Building
reservation = record {
  peer = addr 1;
  local_addr = addr 10;
  class = interactive;
  group = 5;
  expires_at = 10000;
  generation = 0;
  permit = permit;
}

-- One lane stands ready for nonce 3.
abbrev one_ready : Registry
one_ready = record {
  entries = (3, ready lane 10000) ∷ [];
  admitted = 1;
  per_peer = (7, 1) ∷ [];
  notified = true;
}

abbrev one_reserved : Registry
one_reserved = record one_ready { entries = (3, building reservation) ∷ [] }

-- One lane is admitted, and its permit is held by its task.
abbrev one_admitted : System
one_admitted = record {
  registry = record new { admitted = 1; per_peer = (7, 1) ∷ [] };
  held = permit ∷ [];
}

Reach-one_admitted : Reach start one_admitted
unfolding try_admit new lookup insert
Reach-one_admitted = Reach.next Reach.here (Step.admits 7)

abbrev drained : System
drained = record { registry = drop_permit one_admitted.registry permit; held = [] }

Reach-drained_system : Reach start drained
Reach-drained_system = Reach.next Reach-one_admitted (Step.drops [] permit [] refl)

drained-empty : drained.registry.entries ≡ []
unfolding drop_permit new
drained-empty = refl

Reach-IsSound_example : IsSound one_admitted
Reach-IsSound_example = Reach-IsSound Reach-one_admitted

abbrev none_ready : Registry
none_ready = record one_ready { entries = [] }

pairs_now :
    register_admitted one_ready 3 bulk (addr 2) (addr 10) 5 200 (some permit)
    ≡ returns (none_ready, pair lane 10000, some permit)
unfolding register_admitted meet lookup remove
pairs_now = refl

register_admitted-pair_example :
    HandsOver one_ready 3 lane bulk (addr 2) none_ready
    × (lane.group ≡ 5)
    × (some permit ≡ some permit)
register_admitted-pair_example =
    register_admitted-pair one_ready none_ready 3 bulk (addr 2) (addr 10) 5 200 permit lane 10000
      (some permit) pairs_now

other_class : interactive ≢ bulk
other_class e = cc

free : lookup 3 none_ready.entries ≡ none
unfolding lookup
free = refl

register-wait-confirm-poll_example :
    (s₁ s₂ s₃ : Registry) × (other : PendingLane) × (register_admitted none_ready 3 interactive
        (addr 1)
        (addr 10)
        5
        100
        (some permit)
      ≡ returns (s₁, reserved, none))
    × (register_admitted s₁ 3 bulk (addr 2) (addr 11) 5 120 (some permit)
        ≡ returns (s₁, PendingLaneAdmission.wait 0 10100, some permit))
    × (pair_wait_step s₁ 3 bulk (addr 2) 10100 100 ≡ (s₁, PairingPoll.wait))
    × (confirm_reservation s₁ 3 built ≡ (s₂, ok 1))
    × (pair_wait_step s₂ 3 bulk (addr 2) 10100 140 ≡ (s₃, done (paired other)))
    × (other.session ≡ 100)
    × (other.permit ≡ permit)
register-wait-confirm-poll_example =
    register-wait-confirm-poll none_ready 3 built 5 100 permit free bulk (addr 2) (addr 11) 120 140
      permit other_class refl

abbrev timer : Wake
timer = record { elapsed = true; registry = one_reserved; now = 10000 }

abbrev notice : Wake
notice = record { elapsed = false; registry = one_ready; now = 150 }

waits_once :
    wait_for_pair 3 bulk (addr 2) 10000 one_reserved 100 (notice ∷ [])
    ≡ some (none_ready, paired lane)
unfolding wait_for_pair pair_wait_step poll_entry lookup remove
waits_once = refl

wait_for_pair-Explains_example :
    Explains 3 bulk
      (addr 2)
      10000
      (AmongMet 3 bulk (addr 2) 10000 one_reserved (notice ∷ []))
      none_ready
      (paired lane)
wait_for_pair-Explains_example =
    wait_for_pair-Explains 3 bulk (addr 2) 10000 one_reserved 100 (notice ∷ []) none_ready
      (paired lane) waits_once

one_ready-Unique : Unique one_ready.entries
unfolding lookup
one_ready-Unique = (refl, tt)

next_expiry-one_ready : next_expiry one_ready ≡ some 10000
unfolding next_expiry min_expiry
next_expiry-one_ready = refl

expire-due_example :
    (nonce : ℕ) × (entry : PendingLaneEntry) × (lookup nonce one_ready.entries ≡ some entry)
    × (entry_expires_at entry ≡ 10000)
    × (lookup nonce (expire one_ready 10000).0.entries ≡ none)
expire-due_example = expire-due one_ready 10000 one_ready-Unique next_expiry-one_ready
