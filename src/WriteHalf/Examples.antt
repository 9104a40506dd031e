-- ===== src/WriteHalf/Examples.antt =====
-- Polls of src/migrating_write_half.rs at concrete slices.
use rtp_mux.Prelude.{
  ◌++◌, ℕ, ◌≡◌, refl, true, false, none, some, List, [], ◌∷◌, min, length, concat, ok, returns,
  panics,
}
use rtp_mux.WriteHalf.{
  WriteHalf, World, WriteCommand, ControlKind, Polled, waiting, replied, reserved, running, ended,
  crashed, poll_write_vectored, poll_shutdown, fresh, bytes, ready, pending,
}
use rtp_mux.WriteHalf.Trace.{Run, payload, Run-payload}
use rtp_mux.WriteHalf.Background.{
  Act, Writer, act, run, spawned, turn, store_opener, send_wake, send, take_latest, rebind_result,
  receive, run_command, write_result,
}
use rtp_mux.WriteHalf.Background.Order.{handed, queued}
use rtp_mux.WriteHalf.Background.Rebinds.{rebind_calls, turn-rebinds}
use rtp_mux.WriteHalf.Background.Stream.{received, Run-handed}
use rtp_mux.WriteHalf.Finish.{Run-poll_shutdown-no_panic, poll_write_vectored-accepts}

abbrev slices : List (List ℕ)
slices = (1 ∷ 2 ∷ []) ∷ (3 ∷ []) ∷ []

abbrev quiet : World
quiet = record {
  reply = waiting;
  background_error = none;
  reserve = reserved;
  accepts = true;
  task = running;
}

abbrev finished : World
finished = record quiet { reply = replied (ok tt); task = ended }

abbrev written : Polled ℕ
written = record { half = fresh; poll = ready (ok 3); sent = some (bytes (1 ∷ 2 ∷ 3 ∷ [])) }

abbrev shutting : WriteHalf
shutting = record fresh { pending_control = some ControlKind.shutdown; shutdown_started = true }

abbrev shut : Polled (Unit {0})
shut = record { half = shutting; poll = pending; sent = some WriteCommand.shutdown }

abbrev complete : Polled (Unit {0})
complete = record {
  half = record shutting { pending_control = none; shutdown_complete = true; closed = true };
  poll = ready (ok tt);
  sent = none;
}

writes : poll_write_vectored fresh quiet slices ≡ returns written
unfolding poll_write_vectored
writes = refl

shuts : poll_shutdown fresh quiet ≡ returns shut
unfolding poll_shutdown
shuts = refl

completes : poll_shutdown shutting finished ≡ returns complete
unfolding poll_shutdown
completes = refl

Run-shutting : Run shutting (1 ∷ 2 ∷ 3 ∷ []) (bytes (1 ∷ 2 ∷ 3 ∷ []) ∷ WriteCommand.shutdown ∷ [])
Run-shutting =
    Run.shutdown quiet shut (Run.write quiet slices written Run.start refl writes) refl shuts

Run-payload_example : payload (bytes (1 ∷ 2 ∷ 3 ∷ []) ∷ WriteCommand.shutdown ∷ []) ≡ 1 ∷ 2 ∷ 3 ∷ []
Run-payload_example =
    Run-payload shutting (1 ∷ 2 ∷ 3 ∷ []) (bytes (1 ∷ 2 ∷ 3 ∷ []) ∷ WriteCommand.shutdown ∷ [])
      Run-shutting

not_crashed : ¬ (ended ≡ crashed)
not_crashed e = cc

Run-poll_shutdown-no_panic_example : ¬ (poll_shutdown shutting finished ≡ panics)
Run-poll_shutdown-no_panic_example =
    Run-poll_shutdown-no_panic shutting (1 ∷ 2 ∷ 3 ∷ [])
      (bytes (1 ∷ 2 ∷ 3 ∷ []) ∷ WriteCommand.shutdown ∷ []) finished Run-shutting not_crashed

abbrev length_of_slices : ℕ
length_of_slices = 3

poll_write_vectored-accepts_example :
    (length_of_slices ≡ min (length (concat slices)) 65536)
    × (fresh.shutdown_started ≡ false)
    × (fresh.shutdown_complete ≡ false)
    × (quiet.background_error ≡ none)
    × (quiet.reserve ≡ reserved)
poll_write_vectored-accepts_example =
    poll_write_vectored-accepts fresh quiet slices written 3 writes refl

abbrev writer : Writer
writer = record { rebound = ok tt; written = ok tt; flushed = ok tt; finalized = none }

abbrev acts : List Act
acts =
    Act.sends (bytes (1 ∷ 2 ∷ 3 ∷ []))
    ∷ Act.stores 5
    ∷ Act.wakes
    ∷ Act.turns writer
    ∷ Act.turns writer
    ∷ Act.sends WriteCommand.shutdown
    ∷ []

acts-received : received spawned acts ≡ bytes (1 ∷ 2 ∷ 3 ∷ []) ∷ WriteCommand.shutdown ∷ []
unfolding received act turn store_opener send_wake send take_latest rebind_result receive
    run_command write_result
acts-received = refl

Run-handed_example :
    handed (run spawned acts).0.calls ++ queued (run spawned acts).0.queue ≡ 1 ∷ 2 ∷ 3 ∷ []
Run-handed_example =
    Run-handed shutting (1 ∷ 2 ∷ 3 ∷ []) (bytes (1 ∷ 2 ∷ 3 ∷ []) ∷ WriteCommand.shutdown ∷ []) acts
      Run-shutting acts-received

abbrev rebinding : List Act
rebinding = Act.sends (bytes (1 ∷ [])) ∷ Act.stores 5 ∷ Act.wakes ∷ []

turn-rebinds_example :
    (turn (run spawned rebinding).0 writer).calls
    ≡ (run spawned rebinding).0.calls ++ rebind_calls 5 writer.rebound
unfolding run act store_opener send_wake send
turn-rebinds_example = turn-rebinds rebinding 5 writer refl refl refl
