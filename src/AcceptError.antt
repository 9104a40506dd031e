-- ===== src/AcceptError.antt =====
-- src/accept_error.rs: the backoff of a listener whose accepts fail. Times are milliseconds.
pub mod Streak
pub mod Delay
mod Examples
use Prim.Native.String.{String}
use rtp_mux.Prelude.{
  ℕ, ◌+◌, ◌-◌, ◌*◌, ◌^◌, ◌%◌, ◌≡◌, Bool, true, false, not, ◌&&◌, ◌||◌, Option, none, some, min, leb,
  ltb, if◌then◌else◌, Result, ok, err,
}
use rtp_mux.Shared.{ErrorKind}

abbrev pub warn_after_consecutive : ℕ
warn_after_consecutive = 3

abbrev pub retry_backoff_base : ℕ
retry_backoff_base = 1

abbrev pub retry_backoff_max : ℕ
retry_backoff_max = 100

-- `io::Error`: its kind and what `to_string` prints.
pub record IoError : Type 0 where
  pub kind : ErrorKind
  pub message : String

pub is_fatal : ErrorKind → Bool
is_fatal ErrorKind.invalid_input = true
is_fatal ErrorKind.invalid_data = true
is_fatal ErrorKind.permission_denied = true
is_fatal ErrorKind.addr_not_available = true
is_fatal ErrorKind.not_connected = true
is_fatal ErrorKind.unsupported = true
is_fatal _ = false

pub record AcceptErrorBackoff : Type 0 where
  pub error_count : ℕ
  pub first_error : Option String
  pub last_error : Option String
  pub started_at : Option ℕ
  pub logged : Bool

abbrev pub default : AcceptErrorBackoff
default = record {
  error_count = 0;
  first_error = none;
  last_error = none;
  started_at = none;
  logged = false;
}

abbrev get_or_insert {ℓ} : {A : Type ℓ} → Option A → A → Option A
get_or_insert none a = some a
get_or_insert (some b) a = some b

-- The state with the error counted in. The count wraps as a `u64`.
abbrev count_in : AcceptErrorBackoff → ℕ → IoError → AcceptErrorBackoff
count_in b now error = record b {
  error_count = (b.error_count + 1) % 2 ^ 64;
  first_error = get_or_insert b.first_error error.message;
  last_error = some error.message;
  started_at = get_or_insert b.started_at now;
}

-- The new state, whether a warning is logged, and what the caller gets.
pub failed_dispatching :
    AcceptErrorBackoff → ℕ → IoError → AcceptErrorBackoff × Bool × Result IoError (Unit {0})
unfolding is_fatal
failed_dispatching b now error =
    let fatal = is_fatal error.kind in
    let counted = count_in b now error in
    let warns = not b.logged && (fatal || leb warn_after_consecutive counted.error_count) in
    (
      (if warns then record counted { logged = true } else counted),
      warns,
      (if fatal then err error else ok tt),
    )

pub retry_delay : AcceptErrorBackoff → ℕ
retry_delay b =
    if ltb b.error_count warn_after_consecutive
    then 0
    else min (retry_backoff_base * 2 ^ min (b.error_count - warn_after_consecutive) 16)
        retry_backoff_max

-- A recovery resets the state; the result says whether it is logged.
pub accepted : AcceptErrorBackoff → AcceptErrorBackoff × Bool
accepted b = (default, b.logged)
