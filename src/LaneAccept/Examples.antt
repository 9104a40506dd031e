-- ===== src/LaneAccept/Examples.antt =====
-- The accept task of src/server.rs at concrete lanes.
use rtp_mux.Prelude.{
  ℕ, ◌≡◌, ◌≢◌, refl, Bool, true, false, none, some, [], ◌∷◌, lookup, insert, remove, nat_eq,
  returns,
}
use rtp_mux.Shared.{interactive, bulk}
use rtp_mux.LaneRejection.{group_full}
use rtp_mux.Admission.{
  Registry, Permit, PendingLane, new, try_admit, Building, building, register_admitted, reserve,
}
use rtp_mux.Admission.Balance.{IsBalanced, new-IsBalanced, try_admit-IsBalanced}
use rtp_mux.LaneAccept.{
  AdmittedLane, greeting, written, pairs, stopped, confirms, meets, kill_and_reject, accept_hello,
  accept_reserved, accept_pair, own_lane, admit, admitted_stage, after_admission,
}
use rtp_mux.LaneAccept.Sessions.{accept_hello-pair}
use rtp_mux.LaneAccept.Permits.{Kept, accept_hello-Kept}

abbrev first : AdmittedLane
first = record {
  expected_class = interactive;
  peer = record { ip = 7; port = 1 };
  local_addr = record { ip = 1; port = 10 };
  session = 100;
}

abbrev second : AdmittedLane
second = record {
  expected_class = bulk;
  peer = record { ip = 7; port = 2 };
  local_addr = record { ip = 1; port = 11 };
  session = 101;
}

abbrev permit : Permit
permit = record { peer = 7 }

abbrev none_full : ℕ → Bool
none_full _ = false

abbrev all_full : ℕ → Bool
all_full _ = true

abbrev admitted : Registry
admitted = record new { admitted = 1; per_peer = (7, 1) ∷ [] }

admitted-IsBalanced : IsBalanced admitted (permit ∷ [])
unfolding try_admit new lookup insert
admitted-IsBalanced = try_admit-IsBalanced new [] 7 new-IsBalanced

free : lookup 3 new.entries ≡ none
unfolding new lookup
free = refl

other_class : interactive ≢ bulk
other_class e = cc

accept_hello-pair_example :
    (s₁ s₂ s₃ : Registry) × (other : PendingLane) × (accept_hello new none_full first permit
        (greeting interactive 3 5)
        100
      ≡ returns (record { registry = s₁; permit = none; output = []; next = confirms 3 5 }))
    × (accept_reserved s₁ first 3 written
        ≡ record { registry = s₂; permit = none; output = []; next = stopped })
    × (accept_hello s₂ none_full second permit (greeting bulk 3 5) 120
        ≡ returns (record {
          registry = s₃;
          permit = some permit;
          output = [];
          next = meets 3 5 other 10100;
        }))
    × (accept_pair s₃ second 3 5 other 10100 written (some permit)
        ≡ returns (record {
          registry = s₃;
          permit = none;
          output = pairs (own_lane second 5 permit) other 3 ∷ [];
          next = stopped;
        }))
    × (other.session ≡ 100)
    × (other.permit ≡ permit)
accept_hello-pair_example =
    accept_hello-pair new none_full first second permit permit 3 5 100 120 free refl other_class
      refl

refused :
    accept_hello new all_full first permit (greeting interactive 3 5) 100
    ≡ returns (kill_and_reject new (some permit) first group_full)
unfolding accept_hello
refused = refl

accept_hello-Kept_example :
    Kept [] (accept_hello admitted none_full first permit (greeting interactive 3 5) 100)
accept_hello-Kept_example =
    accept_hello-Kept first [] admitted none_full permit (greeting interactive 3 5) 100
      admitted-IsBalanced

abbrev other : PendingLane
other = own_lane first 5 permit

abbrev two_admitted : Registry
two_admitted = record new { admitted = 2; per_peer = (7, 2) ∷ [] }

two_admitted-IsBalanced : IsBalanced two_admitted (permit ∷ permit ∷ [])
unfolding try_admit new lookup insert remove
two_admitted-IsBalanced = try_admit-IsBalanced admitted (permit ∷ []) 7 admitted-IsBalanced

-- The first lane's reservation of nonce 3, until 10100.
abbrev reservation : Building
reservation = record {
  peer = first.peer;
  local_addr = first.local_addr;
  class = interactive;
  group = 5;
  expires_at = 10100;
  generation = 0;
  permit = permit;
}

abbrev one_reserved : Registry
one_reserved = record admitted { entries = (3, building reservation) ∷ []; notified = true }

one_reserved-IsBalanced : IsBalanced one_reserved []
unfolding new accept_hello admit admitted_stage after_admission register_admitted reserve lookup
    insert remove
one_reserved-IsBalanced =
    accept_hello-Kept first [] admitted none_full permit (greeting interactive 3 5) 100
      admitted-IsBalanced
