-- ===== src/LaneRejection/Examples.antt =====
-- The log of src/lane_rejection.rs over a concrete window.
use rtp_mux.Prelude.{◌+◌, ◌<◌, ◌≡◌, arith, some, List, [], ◌∷◌, ◌^◌}
use rtp_mux.Shared.{interactive}
use rtp_mux.LaneRejection.{RejectedLaneContext, capacity, hello_parse, empty}
use rtp_mux.LaneRejection.Windows.{
  Call, records, flushes, replay, recorded, reported, is_class, class_count, NonePanics,
  replay-empty-counts,
}

abbrev refused : RejectedLaneContext
refused = record {
  class = capacity;
  peer = record { ip = 7; port = 1 };
  local_addr = record { ip = 1; port = 10 };
  expected_class = some interactive;
  reason = "total capacity";
}

abbrev unparsed : RejectedLaneContext
unparsed = record refused { class = hello_parse; reason = "hello" }

abbrev calls : List Call
calls = records refused ∷ records unparsed ∷ flushes ∷ records refused ∷ []

few : recorded (λ _. 1) calls < 2 ^ 64
few = omega arith

replay-empty-counts_example :
    let (last, reports) = replay empty calls in
    NonePanics reports
    × (reported (λ r. r.total) reports + last.total ≡ recorded (λ _. 1) calls)
    × (reported (class_count capacity) reports + class_count capacity last
        ≡ recorded (is_class capacity) calls)
replay-empty-counts_example = replay-empty-counts calls capacity few
