-- ===== src/LaneRejection.antt =====
-- src/lane_rejection.rs: the classes of rejected lanes and the log that sums them up by windows.
pub mod Metrics
pub mod Windows
mod Examples
use Prim.Native.String.{String}
use rtp_mux.Prelude.{
  ℕ, ◌+◌, ◌-◌, ◌^◌, ◌≡◌, ◌↔◌, Bool, true, false, Option, none, some, List, [], min, Keyed, eqb,
  nat_eq, if◌then◌else◌, Map, lookup, insert, arith, refl, sym, ap, ◌∙◌, eqb_iff,
}
use rtp_mux.Shared.{SocketAddr, LaneClass}

pub data LaneRejectionClass : Type 0 where
  capacity hello_timeout hello_parse class_mismatch admission : LaneRejectionClass
  group_full pairing_timeout birth_heartbeat reservation_lost : LaneRejectionClass

pub metric_name : LaneRejectionClass → String
metric_name capacity = "stream.rtp_mux.capacity_rejected"
metric_name hello_timeout = "stream.rtp_mux.hello_timeout"
metric_name hello_parse = "stream.rtp_mux.hello_parse_error"
metric_name class_mismatch = "stream.rtp_mux.class_mismatch"
metric_name admission = "stream.rtp_mux.admission_rejected"
metric_name group_full = "stream.rtp_mux.group_full"
metric_name pairing_timeout = "stream.rtp_mux.pairing_timeout"
metric_name birth_heartbeat = "stream.rtp_mux.birth_heartbeat_error"
metric_name reservation_lost = "stream.rtp_mux.reservation_lost"

-- The derived `Eq` of the classes, by their place in the declaration.
abbrev pub place : LaneRejectionClass → ℕ
place capacity = 0
place hello_timeout = 1
place hello_parse = 2
place class_mismatch = 3
place admission = 4
place group_full = 5
place pairing_timeout = 6
place birth_heartbeat = 7
place reservation_lost = 8

-- The class at a place.
abbrev class_at : ℕ → LaneRejectionClass
class_at n =
    if eqb n 0
    then capacity
    else if eqb n 1
    then hello_timeout
    else if eqb n 2
    then hello_parse
    else if eqb n 3
    then class_mismatch
    else if eqb n 4
    then admission
    else if eqb n 5
    then group_full
    else if eqb n 6
    then pairing_timeout
    else if eqb n 7
    then birth_heartbeat
    else reservation_lost

class_at-place : (c : LaneRejectionClass) → class_at (place c) ≡ c
class_at-place capacity = refl
class_at-place hello_timeout = refl
class_at-place hello_parse = refl
class_at-place class_mismatch = refl
class_at-place admission = refl
class_at-place group_full = refl
class_at-place pairing_timeout = refl
class_at-place birth_heartbeat = refl
class_at-place reservation_lost = refl

pub place-injective : (a b : LaneRejectionClass) → (eqb (place a) (place b) ≡ true) ↔ (a ≡ b)
place-injective a b = (
  λ h. sym (class_at-place a) ∙ ap class_at ((eqb_iff (place a) (place b)).0 h) ∙ class_at-place b,
  λ e. (eqb_iff (place a) (place b)).1 (ap place e),
)

instance abbrev pub class_eq : Keyed LaneRejectionClass
class_eq = record { same = λ a b. eqb (place a) (place b); decides = place-injective }

pub record RejectedLaneContext : Type 0 where
  pub class : LaneRejectionClass
  pub peer : SocketAddr
  pub local_addr : SocketAddr
  pub expected_class : Option LaneClass
  pub reason : String

-- The log's `Mutex` makes each call one step on this state.
pub record LaneRejectionSummary : Type 0 where
  pub total : ℕ
  pub by_class : Map LaneRejectionClass ℕ
  pub first : Option RejectedLaneContext
  pub last : Option RejectedLaneContext

abbrev pub empty : LaneRejectionSummary
empty = record { total = 0; by_class = []; first = none; last = none }

-- `u64::saturating_add(1)`
abbrev pub saturating_suc : ℕ → ℕ
saturating_suc n = min (n + 1) (2 ^ 64 - 1)

abbrev pub or_default : Option ℕ → ℕ
or_default none = 0
or_default (some n) = n

abbrev get_or_insert {ℓ} : {A : Type ℓ} → Option A → A → Option A
get_or_insert none a = some a
get_or_insert (some b) a = some b

-- The metric that the class counts into is incremented beside the summary.
pub record_rejection : LaneRejectionSummary → RejectedLaneContext → LaneRejectionSummary × String
unfolding metric_name
record_rejection s context = (
  record {
    total = saturating_suc s.total;
    by_class =
        insert context.class (saturating_suc (or_default (lookup context.class s.by_class)))
          s.by_class;
    first = get_or_insert s.first context;
    last = some context;
  },
  metric_name context.class,
)

pub data Flushed : Type 0 where
  quiet : Flushed
  warns : LaneRejectionSummary → RejectedLaneContext → RejectedLaneContext → Flushed
  panics : Flushed

-- The summary that is taken, with its two endpoints unwrapped.
report : LaneRejectionSummary → Option RejectedLaneContext → Option RejectedLaneContext → Flushed
report s (some a) (some b) = warns s a b
report s _ _ = panics

pub flush : LaneRejectionSummary → LaneRejectionSummary × Flushed
unfolding report
flush s = if eqb s.total 0 then (s, quiet) else (empty, report s s.first s.last)
