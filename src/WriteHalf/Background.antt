-- ===== src/WriteHalf/Background.antt =====
-- src/migrating_write_half.rs, the background task and the rebind slot. A turn is one round of the
-- task's loop; `Writer` has what the stream writer of the mux answers in it.
pub mod Order
pub mod Rebinds
pub mod Stream
use Prim.Native.String.{String}
use rtp_mux.Prelude.{
  ℕ, Bool, true, false, not, ◌&&◌, ◌||◌, Option, none, some, List, [], ◌∷◌, ◌++◌, ◌+◌, ◌-◌, eqb,
  ltb, if◌then◌else◌, Result, ok, err,
}
use rtp_mux.WriteHalf.Types.{WriteCommand}

-- What the task asks of the stream writer; an opener is a number.
pub data WriterCall : Type 0 where
  rebind_to : ℕ → WriterCall
  write_all : List ℕ → WriterCall
  flush : WriterCall
  finalize : WriterCall

pub data BackgroundReply : Type 0 where
  reply : Result String (Unit {0}) → BackgroundReply

-- `None` of the finalize is its timeout.
pub record Writer : Type 0 where
  pub rebound : Result String (Unit {0})
  pub written : Result String (Unit {0})
  pub flushed : Result String (Unit {0})
  pub finalized : Option (Result String (Unit {0}))

-- `wake` tells that a wake is in its channel, and `slot_held` that the write half keeps the slot.
-- `waking` is the number of calls of `rebind` that have stored their opener and not sent the wake yet.
-- `calls` and `replies` are what the task has done so far.
pub record Background : Type 0 where
  pub latest : Option ℕ
  pub wake : Bool
  pub waking : ℕ
  pub slot_held : Bool
  pub rebind_open : Bool
  pub queue : List WriteCommand
  pub senders_closed : Bool
  pub background_error : Option String
  pub ended : Bool
  pub calls : List WriterCall
  pub replies : List BackgroundReply

abbrev pub spawned : Background
spawned = record {
  latest = none;
  wake = false;
  waking = 0;
  slot_held = true;
  rebind_open = true;
  queue = [];
  senders_closed = false;
  background_error = none;
  ended = false;
  calls = [];
  replies = [];
}

-- The slot has a sender of the wake, and so has each call of `rebind` that has upgraded its own.
abbrev pub sender_alive : Background → Bool
sender_alive b = b.slot_held || ltb 0 b.waking

-- `RebindHandle::rebind` up to the end of its lock: where a sender is alive, the opener is stored.
unfoldable pub store_opener : Background → ℕ → Background × Bool
store_opener b opener =
    if sender_alive b
    then (record b { latest = some opener; waking = b.waking + 1 }, true)
    else (b, false)

-- The rest of one such call: a wake that is in the channel already will do.
unfoldable pub send_wake : Background → Background × Bool
send_wake b =
    if eqb b.waking 0
    then (b, false)
    else (record b { wake = if b.ended then b.wake else true; waking = b.waking - 1 }, not b.ended)

-- A command is sent, where the task is there to receive it.
unfoldable pub send : Background → WriteCommand → Background × Bool
send b command =
    if b.ended then (b, false) else (record b { queue = b.queue ++ command ∷ [] }, true)

-- `write_tx.close()`
pub close_sender : Background → Background
close_sender b = record b { senders_closed = true }

-- The write half is dropped, which aborts the task.
pub drop_half : Background → Background
drop_half b = record b { slot_held = false; senders_closed = true; ended = true }

-- After the loop.
leave_loop : Background → Background
leave_loop b = record b { ended = true; calls = b.calls ++ WriterCall.finalize ∷ [] }

unfoldable pub rebind_result : Background → Result String (Unit {0}) → Background
unfolding leave_loop
rebind_result b (ok _) = b
rebind_result b (err e) = leave_loop (record b { background_error = some e })

unfoldable pub take_latest : Background → Writer → Option ℕ → Background
unfolding rebind_result
take_latest b w none = b
take_latest b w (some opener) =
    rebind_result (record b { calls = b.calls ++ WriterCall.rebind_to opener ∷ [] }) w.rebound

-- A result is stored if it is an error, and answered.
answer : Background → Result String (Unit {0}) → Background
answer b (ok _) = record b { replies = b.replies ++ BackgroundReply.reply (ok tt) ∷ [] }
answer b (err e) = record b {
  background_error = some e;
  replies = b.replies ++ BackgroundReply.reply (err e) ∷ [];
}

unfoldable pub write_result : Background → Result String (Unit {0}) → Background
write_result b (ok _) = b
write_result b (err e) = record b { background_error = some e; ended = true }

failed : Result String (Unit {0}) → Bool
failed (ok _) = false
failed (err _) = true

-- The text is formatted with `{:?}`, which puts it in quotes.
abbrev timed : Option (Result String (Unit {0})) → Result String (Unit {0})
timed none = err "\"shutdown finalize timed out\""
timed (some result) = result

unfoldable pub run_command : Background → Writer → WriteCommand → Background
unfolding write_result answer failed
run_command b w (WriteCommand.bytes buf) =
    write_result (record b { calls = b.calls ++ WriterCall.write_all buf ∷ [] }) w.written
run_command b w WriteCommand.flush =
    record (answer (record b { calls = b.calls ++ WriterCall.flush ∷ [] }) w.flushed) {
      ended = failed w.flushed;
    }
run_command b w WriteCommand.shutdown =
    record (answer (record b { calls = b.calls ++ WriterCall.finalize ∷ [] }) (timed w.finalized)) {
      ended = true;
    }

unfoldable pub receive : Background → Writer → List WriteCommand → Background
unfolding run_command leave_loop
receive b w [] = if b.senders_closed then leave_loop b else b
receive b w (command ∷ queue) = run_command (record b { queue = queue }) w command

-- The wake is looked at first; a command is received only where there is no wake.
unfoldable pub turn : Background → Writer → Background
unfolding take_latest receive
turn b w =
    if b.ended
    then b
    else if b.rebind_open && b.wake
    then take_latest (record b { wake = false; latest = none }) w b.latest
    else if b.rebind_open && not (sender_alive b)
    then record b { rebind_open = false }
    else receive b w b.queue

abbrev pub bytes_of : WriteCommand → List ℕ
bytes_of (WriteCommand.bytes buf) = buf
bytes_of WriteCommand.flush = []
bytes_of WriteCommand.shutdown = []

-- The write half and the connector act between the turns of the task; a call of `rebind` is two acts.
pub data Act : Type 0 where
  stores : ℕ → Act
  wakes : Act
  sends : WriteCommand → Act
  turns : Writer → Act
  closes : Act
  drops : Act

unfoldable pub act : Background → Act → Background
act b (Act.stores opener) = (store_opener b opener).0
act b Act.wakes = (send_wake b).0
act b (Act.sends command) = (send b command).0
act b (Act.turns w) = turn b w
act b Act.closes = close_sender b
act b Act.drops = drop_half b

-- The bytes that an act adds to those that the channel takes.
pub taken : Background → Act → List ℕ
taken b (Act.stores opener) = []
taken b Act.wakes = []
taken b (Act.sends command) = if b.ended then [] else bytes_of command
taken b (Act.turns w) = []
taken b Act.closes = []
taken b Act.drops = []

unfoldable pub run : Background → List Act → Background × List ℕ
unfolding act taken
run b [] = (b, [])
run b (x ∷ xs) = let (b', rest) = run (act b x) xs in (b', taken b x ++ rest)
