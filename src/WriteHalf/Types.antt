-- ===== src/WriteHalf/Types.antt =====
-- The data of src/migrating_write_half.rs: commands, controls, the caller's half, and what its
-- surroundings answer at a poll.
use Prim.Native.String.{String}
use rtp_mux.Prelude.{ℕ, ◌*◌, Bool, false, Option, none, List, Result}

abbrev pub write_max_chunk : ℕ
write_max_chunk = 64 * 1024

pub data ControlKind : Type 0 where
  flush shutdown : ControlKind

pub data WriteCommand : Type 0 where
  bytes : List ℕ → WriteCommand
  flush : WriteCommand
  shutdown : WriteCommand

pub data Failure : Type 0 where
  stream_shut_down write_channel_closed closed_during_shutdown writer_stopped : Failure
  background : String → Failure

abbrev pub IoResult : Type 0
IoResult = Result Failure (Unit {0})

pub data Poll (A : Type 0) : Type 0 where
  ready : Result Failure A → Poll A
  pending : Poll A

-- `closed` is set by `write_tx.close()`.
pub record WriteHalf : Type 0 where
  pub pending_control : Option ControlKind
  pub shutdown_started : Bool
  pub shutdown_complete : Bool
  pub shutdown_result : Option IoResult
  pub closed : Bool

abbrev pub fresh : WriteHalf
fresh = record {
  pending_control = none;
  shutdown_started = false;
  shutdown_complete = false;
  shutdown_result = none;
  closed = false;
}

-- What the receiver of the last control's reply polls to.
pub data Reply : Type 0 where
  waiting : Reply
  replied : Result String (Unit {0}) → Reply
  dropped : Reply

-- What `poll_reserve` answers.
pub data Reserve : Type 0 where
  reserved : Reserve
  channel_closed : Reserve
  no_capacity : Reserve

-- The background task: it runs, it has ended, or it has panicked.
pub data Task : Type 0 where
  running ended crashed : Task

pub record World : Type 0 where
  pub reply : Reply
  pub background_error : Option String
  pub reserve : Reserve
  pub accepts : Bool
  pub task : Task

pub record Polled (A : Type 0) : Type 0 where
  pub half : WriteHalf
  pub poll : Poll A
  pub sent : Option WriteCommand
