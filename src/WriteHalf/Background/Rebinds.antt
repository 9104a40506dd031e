-- ===== src/WriteHalf/Background/Rebinds.antt =====
-- The rebinds of the background task of src/migrating_write_half.rs.
use Prim.Native.String.{String}
use rtp_mux.Prelude.{
  if-holds, if-holds_by, eqb, ℕ, ◌≡◌, refl, Bool, true, false, not, ◌&&◌, Option, none, some, List,
  [], ◌∷◌, ◌++◌, Result, ok, err, arith,
}
use mathlib.Core.List.{append_assoc}
use rtp_mux.WriteHalf.Types.{WriteCommand}
use rtp_mux.WriteHalf.Background.{
  Act, act, run, Background, spawned, Writer, WriterCall, store_opener, send_wake, sender_alive,
  send, turn, drop_half, close_sender, take_latest, receive, run_command, write_result, answer,
  rebind_result, leave_loop, failed, timed,
}

-- The task listens to wakes while the slot is held, and a wake is there for an opener in the slot,
-- or a call that has stored one is about to send it.
record IsAwake (b : Background) : Type 0 where
  listening : b.slot_held ≡ true → b.rebind_open ≡ true
  held : b.ended ≡ false → b.slot_held ≡ true
  woken : (o : ℕ) → b.latest ≡ some o → b.ended ≡ false → b.waking ≡ 0 → b.wake ≡ true

-- A task that has ended need not be awake.
ended-IsAwake :
    (b : Background) → (b.slot_held ≡ true → b.rebind_open ≡ true) → b.ended ≡ true → IsAwake b
ended-IsAwake b h e = record {
  listening = h;
  held = λ n. ground (arith, n, e);
  woken = λ o l n z. ground (arith, n, e);
}

-- A change of the other fields, where a task that had ended stays so.
later-IsAwake :
    (b c : Background)
    → (c.latest ≡ b.latest)
      × (c.wake ≡ b.wake)
      × (c.waking ≡ b.waking)
      × (c.slot_held ≡ b.slot_held)
      × (c.rebind_open ≡ b.rebind_open)
    → b.ended ≡ false
    → IsAwake b
    → IsAwake c
later-IsAwake b c (l, w, k, s, r) e v = record {
  listening = λ h. ground (arith, v.listening, h, s, r);
  held = λ h. ground (arith, v.held e, s);
  woken = λ o h n z. ground (arith, v.woken o, h, l, w, k, z, e);
}

take_latest-IsAwake :
    (b : Background) (w : Writer) (o : Option ℕ)
    → IsAwake b
    → b.latest ≡ none
    → b.ended ≡ false
    → IsAwake (take_latest b w o)
unfolding take_latest rebind_result leave_loop
take_latest-IsAwake b w none v e n = v
take_latest-IsAwake b w (some opener) v e n =
    elim w.rebound
      as (λ r.
        IsAwake
          (rebind_result (record b { calls = b.calls ++ WriterCall.rebind_to opener ∷ [] }) r)) [
            | ok _ ↦ later-IsAwake b _ (refl, refl, refl, refl, refl) n v
            | err x ↦ ended-IsAwake _ v.listening refl
          ]

run_command-IsAwake :
    (b : Background) (w : Writer) (c : WriteCommand)
    → IsAwake b
    → b.ended ≡ false
    → IsAwake (run_command b w c)
unfolding run_command write_result answer failed
run_command-IsAwake b w (WriteCommand.bytes buf) v e =
    elim w.written
      as (λ r.
        IsAwake (write_result (record b { calls = b.calls ++ WriterCall.write_all buf ∷ [] }) r)) [
          | ok _ ↦ later-IsAwake b _ (refl, refl, refl, refl, refl) e v
          | err x ↦ ended-IsAwake _ v.listening refl
        ]
run_command-IsAwake b w WriteCommand.flush v e =
    elim w.flushed
      as (λ r. IsAwake (record (answer (record b { calls = b.calls ++ WriterCall.flush ∷ [] }) r) {
        ended = failed r;
      })) [
        | ok _ ↦ later-IsAwake b _ (refl, refl, refl, refl, refl) e v
        | err x ↦ ended-IsAwake _ v.listening refl
      ]
run_command-IsAwake b w WriteCommand.shutdown v e =
    elim (timed w.finalized)
      as (λ r.
        IsAwake (record (answer (record b { calls = b.calls ++ WriterCall.finalize ∷ [] }) r) {
          ended = true;
        })) [ ok _ ↦ ended-IsAwake _ v.listening refl | err x ↦ ended-IsAwake _ v.listening refl ]

receive-IsAwake :
    (b : Background) (w : Writer) (queue : List WriteCommand)
    → IsAwake b
    → b.ended ≡ false
    → IsAwake (receive b w queue)
unfolding receive leave_loop
receive-IsAwake b w [] v e =
    if-holds IsAwake b.senders_closed _ b (ended-IsAwake (leave_loop b) v.listening refl) v
receive-IsAwake b w (c ∷ queue) v e =
    run_command-IsAwake (record b { queue = queue }) w c
      (later-IsAwake b _ (refl, refl, refl, refl, refl) e v) e

taken-IsAwake : (b : Background) → IsAwake b → IsAwake (record b { wake = false; latest = none })
taken-IsAwake b v = record {
  listening = v.listening;
  held = v.held;
  woken = λ o l n z. ground (arith, l);
}

turn-IsAwake : (b : Background) (w : Writer) → IsAwake b → IsAwake (turn b w)
unfolding turn
turn-IsAwake b w v =
    let taken = record b { wake = false; latest = none } in
    if-holds_by IsAwake b.ended b _ (λ e. v)
      (λ e.
        if-holds_by IsAwake (b.rebind_open && b.wake) _ _
          (λ h. take_latest-IsAwake taken w b.latest (taken-IsAwake b v) refl e)
          (λ h.
            if-holds_by IsAwake (b.rebind_open && not (sender_alive b)) _ _
              (λ i. ground (arith, v.held e, i)) (λ i. receive-IsAwake b w b.queue v e)))

act-IsAwake : (b : Background) (x : Act) → IsAwake b → IsAwake (act b x)
unfolding store_opener send_wake send drop_half close_sender act
act-IsAwake b (Act.stores opener) v =
    if-holds (λ (r : Background × Bool). IsAwake r.0) (sender_alive b) _ (b, false)
      (record {
        listening = v.listening;
        held = v.held;
        woken = λ o l n z. absurd (omega (arith, z));
      })
      v
act-IsAwake b Act.wakes v =
    if-holds (λ (r : Background × Bool). IsAwake r.0) (eqb b.waking 0) (b, false) _ v
      (record { listening = v.listening; held = v.held; woken = λ o l n z. ground (arith, n) })
act-IsAwake b (Act.sends c) v =
    if-holds_by (λ (r : Background × Bool). IsAwake r.0) b.ended (b, false) _ (λ h. v)
      (λ h. later-IsAwake b _ (refl, refl, refl, refl, refl) h v)
act-IsAwake b (Act.turns w) v = turn-IsAwake b w v
act-IsAwake b Act.closes v = record { listening = v.listening; held = v.held; woken = v.woken }
act-IsAwake b Act.drops v = ended-IsAwake (drop_half b) (λ h. ground (arith, h)) refl

run-IsAwake : (b : Background) (xs : List Act) → IsAwake b → IsAwake (run b xs).0
unfolding run
run-IsAwake b [] v = v
run-IsAwake b (x ∷ xs) v = run-IsAwake (act b x) xs (act-IsAwake b x v)

-- What a turn hands to the stream writer for an opener in the slot.
abbrev pub rebind_calls : ℕ → Result String (Unit {0}) → List WriterCall
rebind_calls opener (ok _) = WriterCall.rebind_to opener ∷ []
rebind_calls opener (err e) = WriterCall.rebind_to opener ∷ WriterCall.finalize ∷ []

spawned-IsAwake : IsAwake spawned
spawned-IsAwake = record {
  listening = λ h. refl;
  held = λ h. refl;
  woken = λ o l n z. ground (arith, l);
}

take_latest-calls :
    (b : Background) (w : Writer) (o : ℕ)
    → (take_latest b w (some o)).calls ≡ b.calls ++ rebind_calls o w.rebound
unfolding take_latest rebind_result leave_loop
take_latest-calls b w o =
    elim w.rebound
      as (λ r.
        (rebind_result (record b { calls = b.calls ++ WriterCall.rebind_to o ∷ [] }) r).calls
        ≡ b.calls ++ rebind_calls o r) [
          | ok _ ↦ refl
          | err x ↦ append_assoc b.calls (WriterCall.rebind_to o ∷ []) (WriterCall.finalize ∷ [])
        ]

found_latest :
    (b : Background) (w : Writer) (latest : Option ℕ) (o : ℕ)
    → latest ≡ some o
    → (take_latest b w latest).calls ≡ b.calls ++ rebind_calls o w.rebound
found_latest b w latest o e = rw e (take_latest-calls b w o)

woken_turn :
    (b : Background) (o : ℕ) (w : Writer)
    → IsAwake b
    → b.latest ≡ some o
    → b.ended ≡ false
    → b.waking ≡ 0
    → (turn b w).calls ≡ b.calls ++ rebind_calls o w.rebound
unfolding turn
woken_turn b o w v l n z =
    let P : Background → Type 0 = λ c. c.calls ≡ b.calls ++ rebind_calls o w.rebound in
    if-holds_by P b.ended b _ (λ e. ground (arith, e, n))
      (λ e.
        if-holds_by P (b.rebind_open && b.wake) _ _
          (λ h. found_latest (record b { wake = false; latest = none }) w b.latest o l)
          (λ h. ground (arith, h, v.woken o l n z, v.listening (v.held n))))

-- No rebind is lost: whatever happened since the task was spawned, in whatever order the two steps
-- of the calls of rebind came, while the task runs, an opener is in the slot and no call is between
-- storing its opener and sending the wake, the next turn rebinds the stream writer to that opener,
-- before it looks at any command that waits; if the rebind fails, the turn also finalizes the stream.
pub turn-rebinds :
    (xs : List Act) (o : ℕ) (w : Writer)
    → (run spawned xs).0.latest ≡ some o
    → (run spawned xs).0.ended ≡ false
    → (run spawned xs).0.waking ≡ 0
    → (turn (run spawned xs).0 w).calls ≡ (run spawned xs).0.calls ++ rebind_calls o w.rebound
turn-rebinds xs o w l n z =
    woken_turn (run spawned xs).0 o w (run-IsAwake spawned xs spawned-IsAwake) l n z
