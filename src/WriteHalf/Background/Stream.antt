-- ===== src/WriteHalf/Background/Stream.antt =====
-- Both sides of src/migrating_write_half.rs: the polls of the caller's half, and the turns of the
-- background task that receives what the half sends.
use rtp_mux.Prelude.{
  ℕ, ◌≡◌, refl, sym, ap, ◌∙◌, List, [], ◌∷◌, ◌++◌, if◌then◌else◌, Bool-cases, inl, inr,
}
use rtp_mux.WriteHalf.Types.{WriteHalf, WriteCommand}
use rtp_mux.WriteHalf.Background.{Background, Act, act, taken, run, spawned, bytes_of}
use rtp_mux.WriteHalf.Background.Order.{handed, queued, run-handed}
use rtp_mux.WriteHalf.Trace.{Run, payload, Run-payload}

abbrev received_by : Background → Act → List WriteCommand
received_by b (Act.stores opener) = []
received_by b Act.wakes = []
received_by b (Act.sends command) = if b.ended then [] else command ∷ []
received_by b (Act.turns w) = []
received_by b Act.closes = []
received_by b Act.drops = []

-- The commands that the channel takes.
unfoldable pub received : Background → List Act → List WriteCommand
received b [] = []
received b (x ∷ xs) = received_by b x ++ received (act b x) xs

payload-cons :
    (c : WriteCommand) (cs : List WriteCommand) → payload (c ∷ cs) ≡ bytes_of c ++ payload cs
payload-cons (WriteCommand.bytes buf) cs = refl
payload-cons WriteCommand.flush cs = refl
payload-cons WriteCommand.shutdown cs = refl

received_by-bytes :
    (b : Background) (x : Act) (cs : List WriteCommand)
    → payload (received_by b x ++ cs) ≡ taken b x ++ payload cs
unfolding taken
received_by-bytes b (Act.stores opener) cs = refl
received_by-bytes b Act.wakes cs = refl
received_by-bytes b (Act.sends c) cs = elim (Bool-cases b.ended) [
  | inl h ↦ rw h refl
  | inr h ↦ rw h (payload-cons c cs)
]
received_by-bytes b (Act.turns w) cs = refl
received_by-bytes b Act.closes cs = refl
received_by-bytes b Act.drops cs = refl

received-bytes : (b : Background) (xs : List Act) → payload (received b xs) ≡ (run b xs).1
unfolding received run
received-bytes b [] = refl
received-bytes b (x ∷ xs) =
    received_by-bytes b x (received (act b x) xs)
    ∙ ap (λ l. taken b x ++ l) (received-bytes (act b x) xs)

-- The contract of the stream: after any polls of a new half, and any turns, rebinds and failures of
-- the background task that receives just the commands that those polls sent, the bytes handed to the
-- stream writer and those that still wait are the bytes that the polls of writes accepted, in order.
pub Run-handed :
    (h : WriteHalf) (accepted : List ℕ) (sent : List WriteCommand) (xs : List Act)
    → Run h accepted sent
    → received spawned xs ≡ sent
    → handed (run spawned xs).0.calls ++ queued (run spawned xs).0.queue ≡ accepted
Run-handed h accepted sent xs r e =
    run-handed xs
    ∙ (sym (received-bytes spawned xs) ∙ (ap payload e ∙ Run-payload h accepted sent r))
