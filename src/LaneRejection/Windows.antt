-- ===== src/LaneRejection/Windows.antt =====
-- The windows of the log of src/lane_rejection.rs: what is recorded, and what the flushes report.
use rtp_mux.Prelude.{
  ℕ, ◌+◌, ◌^◌, ◌<◌, ◌≤◌, ◌≡◌, refl, some, List, [], ◌∷◌, eqb, if◌then◌else◌, lookup, lookup-insert,
  arith, ◌⊎◌, inl, inr, Bool-cases, ap,
}
use rtp_mux.LaneRejection.{
  LaneRejectionClass, place, class_eq, RejectedLaneContext, LaneRejectionSummary, empty, or_default,
  saturating_suc, record_rejection, flush, report, Flushed, quiet, warns, panics, place-injective,
}

-- A call on the log.
pub data Call : Type 0 where
  records : RejectedLaneContext → Call
  flushes : Call

abbrev after : LaneRejectionSummary → Call → LaneRejectionSummary
after s (records context) = (record_rejection s context).0
after s flushes = (flush s).0

-- The reports of the flushes, oldest first.
pub replay : LaneRejectionSummary → List Call → LaneRejectionSummary × List Flushed
replay s [] = (s, [])
replay s (records context ∷ calls) = replay (record_rejection s context).0 calls
replay s (flushes ∷ calls) =
    let (last, reports) = replay (flush s).0 calls in (last, (flush s).1 ∷ reports)

-- The recorded rejections of a class, or of all classes.
abbrev pub recorded : (LaneRejectionClass → ℕ) → List Call → ℕ
recorded w [] = 0
recorded w (records context ∷ calls) = w context.class + recorded w calls
recorded w (flushes ∷ calls) = recorded w calls

abbrev pub is_class : LaneRejectionClass → LaneRejectionClass → ℕ
is_class c d = if eqb (place d) (place c) then 1 else 0

abbrev pub class_count : LaneRejectionClass → LaneRejectionSummary → ℕ
class_count c s = or_default (lookup c s.by_class)

abbrev pub reported : (LaneRejectionSummary → ℕ) → List Flushed → ℕ
reported w [] = 0
reported w (quiet ∷ rs) = reported w rs
reported w (warns s a b ∷ rs) = w s + reported w rs
reported w (panics ∷ rs) = reported w rs

abbrev pub NonePanics : List Flushed → Type 0
NonePanics [] = Unit
NonePanics (quiet ∷ rs) = NonePanics rs
NonePanics (warns s a b ∷ rs) = NonePanics rs
NonePanics (panics ∷ rs) = ⊥

-- An empty window has no counts, and a window with rejections has both endpoints.
abbrev IsWindow : LaneRejectionSummary → Type 0
IsWindow s =
    (s ≡ empty)
    ⊎ ((a b : RejectedLaneContext) × (0 < s.total) × (s.first ≡ some a) × (s.last ≡ some b))

-- A class is counted no more often than all classes together.
abbrev IsCounted : LaneRejectionSummary → Type 0
IsCounted s = (c : LaneRejectionClass) → class_count c s ≤ s.total

record_rejection-IsWindow :
    (s : LaneRejectionSummary) (context : RejectedLaneContext)
    → IsWindow s
    → IsWindow (record_rejection s context).0
unfolding record_rejection
record_rejection-IsWindow s context (inl e) =
    inr (context, context, ground arith, ground arith, ground arith)
record_rejection-IsWindow s context (inr (a, b, h, f, l)) =
    inr (a, context, ground arith, ground arith, ground arith)

record_rejection-class_count :
    (s : LaneRejectionSummary) (context : RejectedLaneContext) (c : LaneRejectionClass)
    → s.total + 1 < 2 ^ 64
    → IsCounted s
    → class_count c (record_rejection s context).0 ≡ class_count c s + is_class c context.class
unfolding record_rejection
record_rejection-class_count s context c h k =
    rw (lookup-insert context.class c (saturating_suc (class_count context.class s)) s.by_class)
      (elim (Bool-cases (eqb (place context.class) (place c))) [
        | inl same ↦ rw (same, (place-injective context.class c).0 same) (ground (arith, k c))
        | inr differs ↦ rw differs (omega arith)
      ])

record_rejection-total :
    (s : LaneRejectionSummary) (context : RejectedLaneContext)
    → s.total + 1 < 2 ^ 64
    → (record_rejection s context).0.total ≡ s.total + 1
unfolding record_rejection
record_rejection-total s context h = omega arith

record_rejection-IsCounted :
    (s : LaneRejectionSummary) (context : RejectedLaneContext)
    → s.total + 1 < 2 ^ 64
    → IsCounted s
    → IsCounted (record_rejection s context).0
record_rejection-IsCounted s context h k c =
    ground
      (arith, k c, record_rejection-total s context h, record_rejection-class_count s context c h k)

flush-cases :
    (s : LaneRejectionSummary)
    → IsWindow s
    → ((s ≡ empty) × (flush s ≡ (empty, quiet)))
      ⊎ ((a b : RejectedLaneContext) × (flush s ≡ (empty, warns s a b)))
unfolding flush report
flush-cases s (inl e) = inl (e, rw e)
flush-cases s (inr (a, b, h, f, l)) = inr (a, b, ground arith)

-- What a replay reports and leaves, for a count of the summary that every record adds `w` to.
record Balances (s : LaneRejectionSummary) (calls : List Call) : Type 0 where
  quiet_only : NonePanics (replay s calls).1
  totals :
      reported (λ r. r.total) (replay s calls).1 + (replay s calls).0.total
      ≡ s.total + recorded (λ _. 1) calls
  classes :
      (c : LaneRejectionClass)
      → reported (class_count c) (replay s calls).1 + class_count c (replay s calls).0
        ≡ class_count c s + recorded (is_class c) calls

empty-IsCounted : IsCounted empty
unfolding lookup
empty-IsCounted c = omega arith

empty_count : (c : LaneRejectionClass) → class_count c empty ≡ 0
unfolding lookup
empty_count c = refl

replay-Balances :
    (s : LaneRejectionSummary) (calls : List Call)
    → s.total + recorded (λ _. 1) calls < 2 ^ 64
    → IsWindow s
    → IsCounted s
    → Balances s calls
unfolding replay
replay-Balances s [] h w k = record {
  quiet_only = tt;
  totals = omega arith;
  classes = λ c. omega arith;
}
replay-Balances s (records context ∷ calls) h w k =
    let r = record_rejection-total s context (omega arith) in
    let ih =
      replay-Balances (record_rejection s context).0 calls (omega (arith, r))
        (record_rejection-IsWindow s context w)
        (record_rejection-IsCounted s context (omega arith) k) in
    record {
      quiet_only = ih.quiet_only;
      totals = omega (arith, r, ih.totals);
      classes = λ c.
          omega (arith, ih.classes c, record_rejection-class_count s context c (omega arith) k);
    }
replay-Balances s (flushes ∷ calls) h w k = elim (flush-cases s w) [
  | inl (e, f) ↦
      let ih = replay-Balances empty calls (omega arith) (inl refl) empty-IsCounted in
      record {
        quiet_only = rw (f, replay) ih.quiet_only;
        totals =
            rw (f, replay) (omega (arith, ih.totals, ap (λ (t : LaneRejectionSummary). t.total) e));
        classes =
            λ c. rw (f, replay) (omega (arith, ih.classes c, ap (class_count c) e, empty_count c));
      }
  | inr (a, b, f) ↦
      let ih = replay-Balances empty calls (omega arith) (inl refl) empty-IsCounted in
      record {
        quiet_only = rw (f, replay) ih.quiet_only;
        totals = rw (f, replay) (omega (arith, ih.totals));
        classes = λ c. rw (f, replay) (omega (arith, ih.classes c, empty_count c));
      }
]

-- Over any calls on a fresh log with fewer than 2^64 rejections, no flush panics, and every rejection
-- is counted once: in the window of one report or in the window that is still open. That holds of
-- all rejections and of those of each class.
pub replay-empty-counts :
    (calls : List Call) (c : LaneRejectionClass)
    → recorded (λ _. 1) calls < 2 ^ 64
    → let (last, reports) = replay empty calls in
      NonePanics reports
      × (reported (λ r. r.total) reports + last.total ≡ recorded (λ _. 1) calls)
      × (reported (class_count c) reports + class_count c last ≡ recorded (is_class c) calls)
replay-empty-counts calls c h =
    let b = replay-Balances empty calls (omega arith) (inl refl) empty-IsCounted in
    (b.quiet_only, omega (arith, b.totals), omega (arith, b.classes c, empty_count c))
