-- ===== src/AcceptError/Streak.antt =====
-- Runs of failed accepts in src/accept_error.rs.
use Prim.Native.String.{String}
use rtp_mux.Prelude.{
  ℕ, ◌+◌, ◌^◌, ◌<◌, ◌≡◌, Bool, false, Option, none, some, List, [], ◌∷◌, leb, length, arith,
  if◌then◌else◌, refl,
}
use rtp_mux.AcceptError.{
  AcceptErrorBackoff, IoError, is_fatal, failed_dispatching, accepted, default,
}

-- A run of failed accepts at the given times: the state after it, and how many warnings it logged.
pub run : AcceptErrorBackoff → List (ℕ × IoError) → AcceptErrorBackoff × ℕ
run b [] = (b, 0)
run b ((now, error) ∷ es) =
    let (b', warns, _) = failed_dispatching b now error in
    let (last, warnings) = run b' es in (last, (if warns then 1 else 0) + warnings)

abbrev pub AllTransient : List (ℕ × IoError) → Type 0
AllTransient [] = Unit
AllTransient ((now, error) ∷ es) = (is_fatal error.kind ≡ false) × AllTransient es

abbrev pub first_message : List (ℕ × IoError) → Option String
first_message [] = none
first_message ((now, error) ∷ es) = some error.message

abbrev pub last_message : Option String → List (ℕ × IoError) → Option String
last_message m [] = m
last_message m ((now, error) ∷ es) = last_message (some error.message) es

abbrev pub first_time : List (ℕ × IoError) → Option ℕ
first_time [] = none
first_time ((now, error) ∷ es) = some now

abbrev or_else {ℓ} : {A : Type ℓ} → Option A → Option A → Option A
or_else none o = o
or_else (some a) o = some a

abbrev flag : Bool → ℕ
flag b = if b then 1 else 0

-- What a run adds to a state.
record Adds (b : AcceptErrorBackoff) (es : List (ℕ × IoError)) (c : AcceptErrorBackoff)
    (warnings : ℕ) : Type 0 where
  count : c.error_count ≡ b.error_count + length es
  first : c.first_error ≡ or_else b.first_error (first_message es)
  last : c.last_error ≡ last_message b.last_error es
  start : c.started_at ≡ or_else b.started_at (first_time es)
  logged : c.logged ≡ leb 3 c.error_count
  warned : flag b.logged + warnings ≡ flag c.logged

run-Adds :
    (b : AcceptErrorBackoff) (es : List (ℕ × IoError))
    → AllTransient es
    → b.error_count + length es < 2 ^ 64
    → b.logged ≡ leb 3 b.error_count
    → Adds b es (run b es).0 (run b es).1
unfolding run failed_dispatching
run-Adds b [] t h l = record {
  count = omega arith;
  first = ground arith;
  last = refl;
  start = ground arith;
  logged = l;
  warned = omega arith;
}
run-Adds b ((now, error) ∷ es) t h l =
    let b' = (failed_dispatching b now error).0 in
    let ih = run-Adds b' es t.1 (ground (arith, t.0)) (ground (arith, t.0)) in
    record {
      count = ground (arith, ih.count, t.0);
      first = ground (arith, ih.first, t.0);
      last = ground (arith, ih.last, t.0);
      start = ground (arith, ih.start, t.0);
      logged = ih.logged;
      warned = ground (arith, ih.warned, t.0);
    }

-- From a fresh state, a run of fewer than 2^64 transient errors counts every one, keeps the first
-- and the last message and the time of the first, and logs exactly one warning if there were three
-- or more errors, and none otherwise; the next success then reports a recovery exactly if a warning
-- was logged, and leaves a fresh state.
pub run-accepted :
    (es : List (ℕ × IoError))
    → AllTransient es
    → length es < 2 ^ 64
    → let (b, warnings) = run default es in
      (b.error_count ≡ length es)
      × (b.first_error ≡ first_message es)
      × (b.last_error ≡ last_message none es)
      × (b.started_at ≡ first_time es)
      × (warnings ≡ (if leb 3 (length es) then 1 else 0))
      × (accepted b ≡ (default, leb 3 (length es)))
unfolding accepted
run-accepted es t h =
    let a = run-Adds default es t (omega arith) refl in
    (
      omega (arith, a.count),
      a.first,
      a.last,
      a.start,
      ground (arith, a.warned, a.logged, a.count),
      ground (arith, a.logged, a.count),
    )
