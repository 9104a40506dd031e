-- ===== src/AcceptError/Examples.antt =====
-- The backoff of src/accept_error.rs over a concrete run of errors.
use rtp_mux.Prelude.{
  ℕ, ◌^◌, ◌<◌, ◌≡◌, refl, arith, none, List, [], ◌∷◌, length, leb, if◌then◌else◌, true,
}
use rtp_mux.Shared.{ErrorKind}
use rtp_mux.AcceptError.{AcceptErrorBackoff, IoError, is_fatal, default, accepted}
use rtp_mux.AcceptError.Streak.{
  run, AllTransient, first_message, last_message, first_time, run-accepted,
}

abbrev failure : IoError
failure = record { kind = ErrorKind.timed_out; message = "timed out" }

abbrev failures : List (ℕ × IoError)
failures = (10, failure) ∷ (11, failure) ∷ (13, failure) ∷ []

failures-AllTransient : AllTransient failures
unfolding is_fatal
failures-AllTransient = (refl, (refl, (refl, tt)))

few : length failures < 2 ^ 64
few = omega arith

run-accepted_example :
    let (b, warnings) = run default failures in
    (b.error_count ≡ length failures)
    × (b.first_error ≡ first_message failures)
    × (b.last_error ≡ last_message none failures)
    × (b.started_at ≡ first_time failures)
    × (warnings ≡ (if leb 3 (length failures) then 1 else 0))
    × (accepted b ≡ (default, leb 3 (length failures)))
run-accepted_example = run-accepted failures failures-AllTransient few

abbrev fifth : AcceptErrorBackoff
fifth = record default { error_count = 5; logged = true }
