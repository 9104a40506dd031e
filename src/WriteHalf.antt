-- ===== src/WriteHalf.antt =====
-- src/migrating_write_half.rs, the side of the caller: what a poll of a write, a flush or a shutdown
-- does. What the channel, the reply, the background task and its error slot answer at a poll is the
-- poll's argument. Bytes are numbers; every error is a `BrokenPipe` with the message named here.
pub mod Types
pub mod Gather
pub mod Trace
pub mod Finish
pub mod Background
mod Examples
use Prim.Native.String.{String}
use rtp_mux.Prelude.{
  ℕ, ◌+◌, ◌-◌, ◌*◌, ◌^◌, Bool, true, false, ◌||◌, Option, none, some, List, [], ◌∷◌, ◌++◌, min, eqb,
  ltb, if◌then◌else◌, length, take, Result, ok, err, Outcome, returns, panics,
}
pub use Types.*

abbrev pub refuse : {A : Type 0} → WriteHalf → Failure → Outcome (Polled A)
refuse h f = returns (record { half = h; poll = ready (err f); sent = none })

abbrev pub wait : {A : Type 0} → WriteHalf → Outcome (Polled A)
wait h = returns (record { half = h; poll = pending; sent = none })

abbrev background_io_error : Option String → Failure → Failure
background_io_error none message = message
background_io_error (some error) message = background error

abbrev control_result : Reply → Option String → IoResult
control_result waiting error = ok tt
control_result (replied (ok _)) error = ok tt
control_result (replied (err e)) error = err (background e)
control_result dropped error = err (background_io_error error writer_stopped)

-- The reply of a control is in.
settle : WriteHalf → ControlKind → IoResult → WriteHalf × Poll (Option ControlKind)
settle h ControlKind.shutdown result = (
  record h { pending_control = none; closed = true; shutdown_result = some result },
  ready (ok (some ControlKind.shutdown)),
)
settle h ControlKind.flush (ok _) =
    (record h { pending_control = none }, ready (ok (some ControlKind.flush)))
settle h ControlKind.flush (err e) = (record h { pending_control = none }, ready (err e))

await_control :
    WriteHalf → ControlKind → Reply → Option String → WriteHalf × Poll (Option ControlKind)
unfolding settle
await_control h kind waiting error = (h, pending)
await_control h kind (replied r) error = settle h kind (control_result (replied r) error)
await_control h kind dropped error = settle h kind (control_result dropped error)

poll_control : WriteHalf → Option ControlKind → World → WriteHalf × Poll (Option ControlKind)
unfolding await_control
poll_control h none w = (h, ready (ok none))
poll_control h (some kind) w = await_control h kind w.reply w.background_error

-- Reaping the background task re-raises its panic.
pub poll_pending_control : WriteHalf → World → Outcome (WriteHalf × Poll (Option ControlKind))
unfolding poll_control
poll_pending_control h w = elim w.task [
  | crashed ↦ panics
  | _ ↦ returns (poll_control h h.pending_control w)
]

-- `fold(0, |total, buf| total.saturating_add(buf.len()))`
pub total_len : ℕ → List (List ℕ) → ℕ
total_len total [] = total
total_len total (buf ∷ bufs) = total_len (min (total + length buf) (2 ^ 64 - 1)) bufs

pub chunk_of : List (List ℕ) → ℕ
unfolding total_len
chunk_of bufs = min (total_len 0 bufs) write_max_chunk

-- The loop that copies the slices into the command, up to `chunk` bytes.
pub gather : ℕ → List ℕ → List (List ℕ) → List ℕ
gather chunk copied [] = copied
gather chunk copied (buf ∷ bufs) =
    let remaining = chunk - length copied in
    let rest = gather chunk (copied ++ take (min (length buf) remaining) buf) bufs in
    if eqb remaining 0 then copied else rest

enqueue : WriteHalf → World → List (List ℕ) → Outcome (Polled ℕ)
unfolding chunk_of gather
enqueue h w bufs =
    let chunk = chunk_of bufs in
    if ltb 0 chunk
    then returns (record {
      half = h;
      poll = ready (ok chunk);
      sent = if w.accepts then some (bytes (gather chunk [] bufs)) else none;
    })
    else returns (record { half = h; poll = ready (ok 0); sent = none })

write_reserved : WriteHalf → World → Reserve → List (List ℕ) → Outcome (Polled ℕ)
unfolding enqueue
write_reserved h w reserved bufs = enqueue h w bufs
write_reserved h w channel_closed bufs = refuse h write_channel_closed
write_reserved h w no_capacity bufs = wait h

write_checked : WriteHalf → World → Option String → List (List ℕ) → Outcome (Polled ℕ)
unfolding write_reserved
write_checked h w (some error) bufs = refuse h (background error)
write_checked h w none bufs = write_reserved h w w.reserve bufs

write_settled : WriteHalf → Poll (Option ControlKind) → World → List (List ℕ) → Outcome (Polled ℕ)
unfolding write_checked
write_settled h pending w bufs = wait h
write_settled h (ready (err e)) w bufs = refuse h e
write_settled h (ready (ok (some ControlKind.shutdown))) w bufs = refuse h stream_shut_down
write_settled h (ready (ok _)) w bufs =
    if h.shutdown_complete || h.shutdown_started
    then refuse h stream_shut_down
    else write_checked h w w.background_error bufs

unfoldable pub poll_write_vectored : WriteHalf → World → List (List ℕ) → Outcome (Polled ℕ)
unfolding poll_pending_control write_settled
poll_write_vectored h w bufs = elim (poll_pending_control h w) [
  | panics ↦ panics
  | returns (h', control) ↦ write_settled h' control w bufs
]

flush_reserved : WriteHalf → World → Reserve → Outcome (Polled (Unit {0}))
flush_reserved h w reserved = returns (record {
  half = record h { pending_control = some ControlKind.flush };
  poll = pending;
  sent = if w.accepts then some WriteCommand.flush else none;
})
flush_reserved h w channel_closed = refuse h write_channel_closed
flush_reserved h w no_capacity = wait h

flush_checked : WriteHalf → World → Option String → Outcome (Polled (Unit {0}))
unfolding flush_reserved
flush_checked h w (some error) = refuse h (background error)
flush_checked h w none = flush_reserved h w w.reserve

flush_settled : WriteHalf → Poll (Option ControlKind) → World → Outcome (Polled (Unit {0}))
unfolding flush_checked
flush_settled h pending w = wait h
flush_settled h (ready (err e)) w = refuse h e
flush_settled h (ready (ok (some ControlKind.shutdown))) w = refuse h stream_shut_down
flush_settled h (ready (ok (some ControlKind.flush))) w =
    returns (record { half = h; poll = ready (ok tt); sent = none })
flush_settled h (ready (ok none)) w =
    if h.shutdown_complete || h.shutdown_started
    then refuse h stream_shut_down
    else flush_checked h w w.background_error

pub poll_flush : WriteHalf → World → Outcome (Polled (Unit {0}))
unfolding poll_pending_control flush_settled
poll_flush h w = elim (poll_pending_control h w) [
  | panics ↦ panics
  | returns (h', control) ↦ flush_settled h' control w
]

-- The task has ended: the stored result is taken out; there must be one.
finish : WriteHalf → Option IoResult → Option WriteCommand → Outcome (Polled (Unit {0}))
finish h none sent = panics
finish h (some result) sent = returns (record {
  half = record h { shutdown_complete = true; shutdown_result = none };
  poll = ready result;
  sent = sent;
})

-- `sent` is what the poll has sent before its epilog.
poll_shutdown_epilog : WriteHalf → Task → Option WriteCommand → Outcome (Polled (Unit {0}))
unfolding finish
poll_shutdown_epilog h running sent = returns (record { half = h; poll = pending; sent = sent })
poll_shutdown_epilog h ended sent = finish h h.shutdown_result sent
poll_shutdown_epilog h crashed sent = panics

abbrev give_up : WriteHalf → Failure → WriteHalf
give_up h f = record h { closed = true; shutdown_result = some (err f) }

shutdown_settled :
    WriteHalf
    → Poll (Option ControlKind)
    → World
    → Option WriteCommand
    → Outcome (Polled (Unit {0}))
unfolding poll_shutdown_epilog
shutdown_settled h pending w sent = returns (record { half = h; poll = pending; sent = sent })
shutdown_settled h (ready (err e)) w sent = poll_shutdown_epilog (give_up h e) w.task sent
shutdown_settled h (ready (ok _)) w sent = poll_shutdown_epilog h w.task sent

await_shutdown : WriteHalf → World → Option WriteCommand → Outcome (Polled (Unit {0}))
unfolding poll_pending_control shutdown_settled
await_shutdown h w sent = elim (poll_pending_control h w) [
  | panics ↦ panics
  | returns (h', control) ↦ shutdown_settled h' control w sent
]

shutdown_reserved : WriteHalf → World → Reserve → Outcome (Polled (Unit {0}))
unfolding await_shutdown poll_shutdown_epilog
shutdown_reserved h w reserved =
    if w.accepts
    then await_shutdown
        (record h { shutdown_started = true; pending_control = some ControlKind.shutdown }) w
        (some WriteCommand.shutdown)
    else poll_shutdown_epilog (give_up h closed_during_shutdown) w.task none
shutdown_reserved h w channel_closed =
    poll_shutdown_epilog (give_up h closed_during_shutdown) w.task none
shutdown_reserved h w no_capacity = wait h

shutdown_checked : WriteHalf → World → Option String → Outcome (Polled (Unit {0}))
unfolding shutdown_reserved poll_shutdown_epilog
shutdown_checked h w (some error) = poll_shutdown_epilog (give_up h (background error)) w.task none
shutdown_checked h w none = shutdown_reserved h w w.reserve

pub poll_shutdown : WriteHalf → World → Outcome (Polled (Unit {0}))
unfolding shutdown_checked await_shutdown
poll_shutdown h w =
    if h.shutdown_complete
    then returns (record { half = h; poll = ready (ok tt); sent = none })
    else if h.shutdown_started
    then await_shutdown h w none
    else shutdown_checked h w w.background_error
