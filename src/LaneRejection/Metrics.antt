-- ===== src/LaneRejection/Metrics.antt =====
-- The metrics of src/lane_rejection.rs.
use Prim.Native.String.{String}
use text.Mathlib.Text.{◌==◌ as str_eq}
use rtp_mux.Prelude.{◌≡◌, refl, sym, ap, ◌∙◌, List, [], ◌∷◌, if◌then◌else◌}
use rtp_mux.LaneRejection.{
  LaneRejectionClass, capacity, hello_timeout, hello_parse, class_mismatch, admission, group_full,
  pairing_timeout, birth_heartbeat, reservation_lost, metric_name,
}

abbrev all : List LaneRejectionClass
all =
    capacity ∷ hello_timeout ∷ hello_parse ∷ class_mismatch ∷ admission ∷ group_full
    ∷ pairing_timeout ∷ birth_heartbeat ∷ reservation_lost ∷ []

-- The class that a metric's name stands for.
abbrev named : String → List LaneRejectionClass → LaneRejectionClass
named name [] = capacity
named name (c ∷ cs) = if str_eq (metric_name c) name then c else named name cs

named-metric_name : (c : LaneRejectionClass) → named (metric_name c) all ≡ c
unfolding metric_name
named-metric_name capacity = refl
named-metric_name hello_timeout = refl
named-metric_name hello_parse = refl
named-metric_name class_mismatch = refl
named-metric_name admission = refl
named-metric_name group_full = refl
named-metric_name pairing_timeout = refl
named-metric_name birth_heartbeat = refl
named-metric_name reservation_lost = refl

-- No two classes count into the same metric.
pub metric_name-injective : (a b : LaneRejectionClass) → metric_name a ≡ metric_name b → a ≡ b
metric_name-injective a b e =
    sym (named-metric_name a) ∙ ap (λ (s : String). named s all) e ∙ named-metric_name b
