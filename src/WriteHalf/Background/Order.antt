-- ===== src/WriteHalf/Background/Order.antt =====
-- The order of what the background task of src/migrating_write_half.rs does.
use Prim.Native.String.{String}
use rtp_mux.Prelude.{
  Bool, eqb, if-holds, ℕ, ◌≡◌, refl, sym, ap, ◌∙◌, false, not, ◌&&◌, Option, none, some, List, [],
  ◌∷◌, ◌++◌, Result, ok, err, Bool-cases, inl, inr,
}
use mathlib.Core.List.{append-nil, append_assoc}
use rtp_mux.WriteHalf.Types.{WriteCommand}
use rtp_mux.WriteHalf.Background.{
  Act, act, taken, run, bytes_of, spawned, Background, Writer, WriterCall, store_opener, send_wake,
  sender_alive, send, turn, drop_half, close_sender, take_latest, receive, run_command,
  write_result, answer, rebind_result, leave_loop, timed,
}

-- The bytes that were handed to the stream writer, and those that still wait.
pub handed : List WriterCall → List ℕ
handed [] = []
handed (WriterCall.write_all buf ∷ calls) = buf ++ handed calls
handed (WriterCall.rebind_to opener ∷ calls) = handed calls
handed (WriterCall.flush ∷ calls) = handed calls
handed (WriterCall.finalize ∷ calls) = handed calls

pub queued : List WriteCommand → List ℕ
queued [] = []
queued (command ∷ commands) = bytes_of command ++ queued commands

-- The bytes that were taken, in the order in which they were.
abbrev in_order : Background → List ℕ
in_order b = handed b.calls ++ queued b.queue

handed-append : (xs ys : List WriterCall) → handed (xs ++ ys) ≡ handed xs ++ handed ys
unfolding handed
handed-append [] ys = refl
handed-append (WriterCall.write_all buf ∷ xs) ys =
    rw (handed-append xs ys) (sym (append_assoc buf (handed xs) (handed ys)))
handed-append (WriterCall.rebind_to opener ∷ xs) ys = handed-append xs ys
handed-append (WriterCall.flush ∷ xs) ys = handed-append xs ys
handed-append (WriterCall.finalize ∷ xs) ys = handed-append xs ys

queued-append : (xs ys : List WriteCommand) → queued (xs ++ ys) ≡ queued xs ++ queued ys
unfolding queued
queued-append [] ys = refl
queued-append (x ∷ xs) ys =
    rw (queued-append xs ys) (sym (append_assoc (bytes_of x) (queued xs) (queued ys)))

-- A call without bytes.
handed-silent :
    (xs : List WriterCall) (c : WriterCall)
    → handed (c ∷ []) ≡ []
    → handed (xs ++ c ∷ []) ≡ handed xs
handed-silent xs c h =
    handed-append xs (c ∷ []) ∙ (ap (λ l. handed xs ++ l) h ∙ append-nil (handed xs))

take_latest-in_order :
    (b : Background) (w : Writer) (o : Option ℕ) → in_order (take_latest b w o) ≡ in_order b
unfolding take_latest rebind_result leave_loop handed
take_latest-in_order b w none = refl
take_latest-in_order b w (some opener) =
    elim w.rebound
      as (λ r.
        in_order
          (rebind_result (record b { calls = b.calls ++ WriterCall.rebind_to opener ∷ [] }) r)
        ≡ in_order b) [
          | ok _ ↦ rw (handed-silent b.calls (WriterCall.rebind_to opener) refl) refl
          | err e ↦
              rw
                (
                  handed-silent (b.calls ++ WriterCall.rebind_to opener ∷ []) WriterCall.finalize
                      refl,
                  handed-silent b.calls (WriterCall.rebind_to opener) refl,
                )
                refl
        ]

write_result-in_order :
    (b : Background) (r : Result String (Unit {0})) → in_order (write_result b r) ≡ in_order b
unfolding write_result
write_result-in_order b (ok _) = refl
write_result-in_order b (err e) = refl

answer-in_order :
    (b : Background) (r : Result String (Unit {0})) → in_order (answer b r) ≡ in_order b
unfolding answer
answer-in_order b (ok _) = refl
answer-in_order b (err e) = refl

run_command-in_order :
    (b : Background) (w : Writer) (c : WriteCommand)
    → in_order (run_command b w c) ≡ handed b.calls ++ (bytes_of c ++ queued b.queue)
unfolding run_command handed
run_command-in_order b w (WriteCommand.bytes buf) =
    write_result-in_order (record b { calls = b.calls ++ WriterCall.write_all buf ∷ [] }) w.written
    ∙ rw
        (
          handed-append b.calls (WriterCall.write_all buf ∷ []),
          append-nil buf,
          append_assoc (handed b.calls) buf (queued b.queue),
        )
        refl
run_command-in_order b w WriteCommand.flush =
    answer-in_order (record b { calls = b.calls ++ WriterCall.flush ∷ [] }) w.flushed
    ∙ rw (handed-silent b.calls WriterCall.flush refl) refl
run_command-in_order b w WriteCommand.shutdown =
    answer-in_order (record b { calls = b.calls ++ WriterCall.finalize ∷ [] }) (timed w.finalized)
    ∙ rw (handed-silent b.calls WriterCall.finalize refl) refl

receive-in_order :
    (b : Background) (w : Writer) (queue : List WriteCommand)
    → b.queue ≡ queue
    → in_order (receive b w queue) ≡ in_order b
unfolding receive leave_loop queued handed
receive-in_order b w [] e = elim (Bool-cases b.senders_closed) [
  | inl h ↦ rw (h, receive, handed-silent b.calls WriterCall.finalize refl) refl
  | inr h ↦ rw (h, receive) refl
]
receive-in_order b w (c ∷ queue) e =
    run_command-in_order (record b { queue = queue }) w c ∙ rw e refl

turn-in_order : (b : Background) (w : Writer) → in_order (turn b w) ≡ in_order b
unfolding turn
turn-in_order b w =
    let P : Background → Type 0 = λ c. in_order c ≡ in_order b in
    if-holds P b.ended b _ refl (
      if-holds P (b.rebind_open && b.wake) _ _
        (take_latest-in_order (record b { wake = false; latest = none }) w b.latest)
        (if-holds P (b.rebind_open && not (sender_alive b)) _ _ refl
          (receive-in_order b w b.queue refl)))

act-in_order : (b : Background) (x : Act) → in_order (act b x) ≡ in_order b ++ taken b x
unfolding act taken store_opener send_wake send drop_half close_sender queued
act-in_order b (Act.stores opener) =
    if-holds (λ (r : Background × Bool). in_order r.0 ≡ in_order b ++ []) (sender_alive b) _
      (b, false) (sym (append-nil (in_order b))) (sym (append-nil (in_order b)))
act-in_order b Act.wakes =
    if-holds (λ (r : Background × Bool). in_order r.0 ≡ in_order b ++ []) (eqb b.waking 0)
      (b, false) _ (sym (append-nil (in_order b))) (sym (append-nil (in_order b)))
act-in_order b (Act.sends c) = elim (Bool-cases b.ended) [
  | inl h ↦ rw (h, send, append-nil (in_order b)) refl
  | inr h ↦
      rw (h, send, queued-append b.queue (c ∷ []), append-nil (bytes_of c))
        (sym (append_assoc (handed b.calls) (queued b.queue) (bytes_of c)))
]
act-in_order b (Act.turns w) = turn-in_order b w ∙ sym (append-nil (in_order b))
act-in_order b Act.closes = sym (append-nil (in_order b))
act-in_order b Act.drops = sym (append-nil (in_order b))

run-in_order : (b : Background) (xs : List Act) → in_order (run b xs).0 ≡ in_order b ++ (run b xs).1
unfolding run
run-in_order b [] = sym (append-nil (in_order b))
run-in_order b (x ∷ xs) =
    run-in_order (act b x) xs
    ∙ (ap (λ l. l ++ (run (act b x) xs).1) (act-in_order b x)
        ∙ append_assoc (in_order b) (taken b x) (run (act b x) xs).1)

-- Whatever the write half and the connector do between the turns of the task, and whatever the stream
-- writer answers: the bytes handed to the stream writer, followed by those that still wait in the
-- channel, are the bytes that the channel took, in that order; none is lost, doubled or swapped.
pub run-handed :
    (xs : List Act)
    → let (b, accepted) = run spawned xs in handed b.calls ++ queued b.queue ≡ accepted
unfolding handed queued
run-handed xs = run-in_order spawned xs
