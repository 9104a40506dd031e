-- ===== src/ClientStream/Examples.antt =====
-- A client stream of src/client_stream.rs at concrete polls.
use rtp_mux.Prelude.{◌≡◌, refl, true, none, some, List, [], ◌∷◌, ok}
use rtp_mux.Shared.{SocketAddr}
use rtp_mux.CrossSession.{Store, fresh_session}
use rtp_mux.WriteHalf
use rtp_mux.WriteHalf.{World, WriteCommand, Reply, Reserve, Task, ready}
use rtp_mux.WriteHalf.Trace.{payload}
use rtp_mux.ClientStream.{
  Answers, Oneshot, Injected, ReadPoll, Reason, pending_gene, ready_spliced, rounds,
  poll_reader_state, ClientStream, new_duplex, poll_write, poll_read, broken_pipe, pending,
}
use rtp_mux.ClientStream.Calls.{Polls, outcome, polls, rounds-outcome, polls-Polls}
use rtp_mux.ClientStream.Origin.{Used, HasOrigin, made, reads, writes_one, Used-HasOrigin}

abbrev answering : Oneshot → Oneshot → Answers
answering gene splice = record {
  gen0 = gene;
  inject = λ router id g. Injected.accepted 9;
  splice = λ rx. splice;
  read = λ reader. some (ok (65 ∷ []));
}

rounds-outcome_example :
    (rounds 4 (pending_gene 3 1) (answering (Oneshot.sent 7) (Oneshot.sent 8))
      ≡ some (outcome (pending_gene 3 1) (answering (Oneshot.sent 7) (Oneshot.sent 8))))
    × (poll_reader_state (pending_gene 3 1) (answering (Oneshot.sent 7) (Oneshot.sent 8))
        ≡ some (outcome (pending_gene 3 1) (answering (Oneshot.sent 7) (Oneshot.sent 8))))
rounds-outcome_example =
    rounds-outcome 1 (pending_gene 3 1) (answering (Oneshot.sent 7) (Oneshot.sent 8))

abbrev closing : List Answers
closing =
    answering Oneshot.waiting Oneshot.waiting
    ∷ answering (Oneshot.sent 7) Oneshot.waiting
    ∷ answering Oneshot.waiting Oneshot.closed
    ∷ answering (Oneshot.sent 7) (Oneshot.sent 8)
    ∷ []

-- the error stays although the last answers would have let a new reader through
polls-closing :
    polls (pending_gene 3 1) closing
    ≡ pending ∷ pending ∷ broken_pipe Reason.splice_closed ∷ broken_pipe Reason.splice_closed ∷ []
unfolding polls poll_reader_state
polls-closing = refl

polls-Polls_example : Polls closing (polls (pending_gene 3 1) closing)
polls-Polls_example = polls-Polls (pending_gene 3 1) closing

abbrev store : Store
store = record { sessions = λ id. fresh_session; streams = [] }

abbrev own : SocketAddr
own = record { ip = 1; port = 40 }

abbrev peer : SocketAddr
peer = record { ip = 2; port = 50 }

abbrev made_stream : ClientStream
made_stream = (new_duplex (λ id. true) (λ h. true) store 0 5 3 1 own peer).1

abbrev idle : World
idle = record {
  reply = Reply.waiting;
  background_error = none;
  reserve = Reserve.reserved;
  accepts = true;
  task = Task.running;
}

abbrev after_read : ClientStream
after_read = record made_stream { reader_state = ready_spliced 8 }

used :
    Used 3 1 after_read
      (answering (Oneshot.sent 7) (Oneshot.sent 8) ∷ [])
      (6 ∷ 5 ∷ [])
      (WriteCommand.bytes (6 ∷ 5 ∷ []) ∷ [])
unfolding poll_write poll_read new_duplex poll_reader_state WriteHalf.poll_write_vectored
used =
    writes_one idle (6 ∷ 5 ∷ []) after_read
      (record {
        half = after_read.write;
        poll = ready (ok 2);
        sent = some (WriteCommand.bytes (6 ∷ 5 ∷ []));
      })
      (reads (answering (Oneshot.sent 7) (Oneshot.sent 8)) after_read
        (ReadPoll.filled (ok (65 ∷ []))) (made {s = made_stream} refl refl) refl)
      refl refl

Used-HasOrigin_example :
    (payload (WriteCommand.bytes (6 ∷ 5 ∷ []) ∷ []) ≡ 6 ∷ 5 ∷ [])
    × HasOrigin 3 1 (answering (Oneshot.sent 7) (Oneshot.sent 8) ∷ []) after_read.reader_state
Used-HasOrigin_example =
    Used-HasOrigin 3 1 after_read (answering (Oneshot.sent 7) (Oneshot.sent 8) ∷ []) (6 ∷ 5 ∷ [])
      (WriteCommand.bytes (6 ∷ 5 ∷ []) ∷ []) used
