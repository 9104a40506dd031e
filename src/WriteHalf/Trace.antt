-- ===== src/WriteHalf/Trace.antt =====
-- Polls of src/migrating_write_half.rs one after the other: what was accepted, what was sent, and
-- when the shutdown is reported.
use rtp_mux.Prelude.{
  ℕ, Bool, true, false, ◌||◌, Option, none, some, List, [], ◌∷◌, ◌++◌, ◌≡◌, refl, inl, inr, take,
  concat, ok, returns, arith, ◌∙◌, Bool-cases,
}
use mathlib.Core.List.{append-nil, append_assoc}
use rtp_mux.WriteHalf.{
  WriteHalf, World, WriteCommand, Polled, Poll, poll_write_vectored, poll_flush, poll_shutdown,
  fresh, bytes, ready, chunk_of,
}
use rtp_mux.WriteHalf.Gather.{gather_lem}

abbrev pub is_shutdown : Option WriteCommand → Bool
is_shutdown (some WriteCommand.shutdown) = true
is_shutdown _ = false

-- The bytes that a poll of a write has accepted from its slices.
abbrev pub accepted : Poll ℕ → List (List ℕ) → List ℕ
accepted (ready (ok n)) bufs = take n (concat bufs)
accepted _ bufs = []

abbrev pub payload_of : Option WriteCommand → List ℕ
payload_of (some (bytes xs)) = xs
payload_of _ = []

abbrev pub commands : Option WriteCommand → List WriteCommand
commands none = []
commands (some c) = c ∷ []

-- The half after polls from a new one: the bytes accepted so far and the commands sent. The channel
-- takes what a reserved slot sends.
pub data Run : WriteHalf → List ℕ → List WriteCommand → Type 0 where
  start : Run fresh [] []
  write :
      {h : WriteHalf} {taken : List ℕ} {sent : List WriteCommand} (w : World) (bufs : List (List ℕ))
      (p : Polled ℕ)
      → Run h taken sent
      → w.accepts ≡ true
      → poll_write_vectored h w bufs ≡ returns p
      → Run p.half (taken ++ accepted p.poll bufs) (sent ++ commands p.sent)
  flush :
      {h : WriteHalf} {taken : List ℕ} {sent : List WriteCommand} (w : World)
      (p : Polled (Unit {0}))
      → Run h taken sent
      → w.accepts ≡ true
      → poll_flush h w ≡ returns p
      → Run p.half taken (sent ++ commands p.sent)
  shutdown :
      {h : WriteHalf} {taken : List ℕ} {sent : List WriteCommand} (w : World)
      (p : Polled (Unit {0}))
      → Run h taken sent
      → w.accepts ≡ true
      → poll_shutdown h w ≡ returns p
      → Run p.half taken (sent ++ commands p.sent)

-- Whether the shutdown is among the commands.
abbrev pub has_shutdown : List WriteCommand → Bool
has_shutdown [] = false
has_shutdown (WriteCommand.shutdown ∷ cs) = true
has_shutdown (_ ∷ cs) = has_shutdown cs

-- Nothing follows a shutdown.
abbrev pub ends_with_shutdown : List WriteCommand → Bool
ends_with_shutdown [] = true
ends_with_shutdown (WriteCommand.shutdown ∷ []) = true
ends_with_shutdown (WriteCommand.shutdown ∷ _ ∷ _) = false
ends_with_shutdown (_ ∷ cs) = ends_with_shutdown cs

abbrev pub payload : List WriteCommand → List ℕ
payload [] = []
payload (bytes xs ∷ cs) = xs ++ payload cs
payload (_ ∷ cs) = payload cs

write-started :
    (h : WriteHalf) (w : World) (bufs : List (List ℕ)) (p : Polled ℕ)
    → poll_write_vectored h w bufs ≡ returns p
    → (p.half.shutdown_started ≡ (h.shutdown_started || is_shutdown p.sent))
      × (h.shutdown_started ≡ true → p.sent ≡ none)
unfolding poll_write_vectored
write-started h w bufs p e = (ground (arith, e), λ s. ground (arith, e, s))

flush-started :
    (h : WriteHalf) (w : World) (p : Polled (Unit {0}))
    → poll_flush h w ≡ returns p
    → (p.half.shutdown_started ≡ (h.shutdown_started || is_shutdown p.sent))
      × (h.shutdown_started ≡ true → p.sent ≡ none)
unfolding poll_flush
flush-started h w p e = (ground (arith, e), λ s. ground (arith, e, s))

shutdown-started :
    (h : WriteHalf) (w : World) (p : Polled (Unit {0}))
    → poll_shutdown h w ≡ returns p
    → (p.half.shutdown_started ≡ (h.shutdown_started || is_shutdown p.sent))
      × (h.shutdown_started ≡ true → p.sent ≡ none)
unfolding poll_shutdown
shutdown-started h w p e = (ground (arith, e), λ s. ground (arith, e, s))

has_shutdown-append :
    (cs : List WriteCommand) (c : Option WriteCommand)
    → has_shutdown (cs ++ commands c) ≡ (has_shutdown cs || is_shutdown c)
has_shutdown-append [] c = ground arith
has_shutdown-append (WriteCommand.shutdown ∷ cs) c = refl
has_shutdown-append (WriteCommand.flush ∷ cs) c = has_shutdown-append cs c
has_shutdown-append (bytes x ∷ cs) c = has_shutdown-append cs c

ends_with_shutdown-append :
    (cs : List WriteCommand) (c : Option WriteCommand)
    → has_shutdown cs ≡ false
    → ends_with_shutdown (cs ++ commands c) ≡ true
ends_with_shutdown-append [] c h = ground arith
ends_with_shutdown-append (WriteCommand.shutdown ∷ cs) c h = ground (arith, h)
ends_with_shutdown-append (WriteCommand.flush ∷ cs) c h = ends_with_shutdown-append cs c h
ends_with_shutdown-append (bytes x ∷ cs) c h = ends_with_shutdown-append cs c h

payload-append :
    (cs : List WriteCommand) (c : Option WriteCommand)
    → payload (cs ++ commands c) ≡ payload cs ++ payload_of c
payload-append [] none = refl
payload-append [] (some WriteCommand.shutdown) = refl
payload-append [] (some WriteCommand.flush) = refl
payload-append [] (some (bytes x)) = append-nil x
payload-append (WriteCommand.shutdown ∷ cs) c = payload-append cs c
payload-append (WriteCommand.flush ∷ cs) c = payload-append cs c
payload-append (bytes x ∷ cs) c =
    rw (payload-append cs c, append_assoc x (payload cs) (payload_of c)) refl

write-payload :
    (h : WriteHalf) (w : World) (bufs : List (List ℕ)) (p : Polled ℕ)
    → w.accepts ≡ true
    → poll_write_vectored h w bufs ≡ returns p
    → payload_of p.sent ≡ accepted p.poll bufs
unfolding poll_write_vectored
write-payload h w bufs p a e = ground (arith, a, e, gather_lem (chunk_of bufs) [] bufs)

flush-payload :
    (h : WriteHalf) (w : World) (p : Polled (Unit {0}))
    → poll_flush h w ≡ returns p
    → payload_of p.sent ≡ []
unfolding poll_flush
flush-payload h w p e = ground (arith, e)

shutdown-payload :
    (h : WriteHalf) (w : World) (p : Polled (Unit {0}))
    → poll_shutdown h w ≡ returns p
    → payload_of p.sent ≡ []
unfolding poll_shutdown
shutdown-payload h w p e = ground (arith, e)

Ordered : WriteHalf → List WriteCommand → Type 0
Ordered h sent = (has_shutdown sent ≡ h.shutdown_started) × (ends_with_shutdown sent ≡ true)

Ordered-more :
    (h h' : WriteHalf) (sent : List WriteCommand) (c : Option WriteCommand)
    → Ordered h sent
    → (h'.shutdown_started ≡ (h.shutdown_started || is_shutdown c))
      × (h.shutdown_started ≡ true → c ≡ none)
    → Ordered h' (sent ++ commands c)
unfolding Ordered
Ordered-more h h' sent c (has, ends) (started, quiet) = (
  rw (has_shutdown-append sent c, has, started) refl,
  elim (Bool-cases h.shutdown_started) [
    | inl s ↦ rw (quiet s, append-nil sent) ends
    | inr s ↦ ends_with_shutdown-append sent c (has ∙ s)
  ],
)

Run-Ordered :
    (h : WriteHalf) (taken : List ℕ) (sent : List WriteCommand) → Run h taken sent → Ordered h sent
unfolding Ordered
Run-Ordered h taken sent start = (refl, refl)
Run-Ordered _ _ _ (write {h} {taken} {sent} w bufs p r a e) =
    Ordered-more h p.half sent p.sent (Run-Ordered h taken sent r) (write-started h w bufs p e)
Run-Ordered _ _ _ (flush {h} {taken} {sent} w p r a e) =
    Ordered-more h p.half sent p.sent (Run-Ordered h taken sent r) (flush-started h w p e)
Run-Ordered _ _ _ (shutdown {h} {taken} {sent} w p r a e) =
    Ordered-more h p.half sent p.sent (Run-Ordered h taken sent r) (shutdown-started h w p e)

-- After polls from a new half, nothing was sent after a shutdown, and a shutdown was sent exactly
-- when the half counts it as started.
pub Run-ends_with_shutdown :
    (h : WriteHalf) (taken : List ℕ) (sent : List WriteCommand)
    → Run h taken sent
    → (has_shutdown sent ≡ h.shutdown_started) × (ends_with_shutdown sent ≡ true)
unfolding Ordered
Run-ends_with_shutdown h taken sent r = Run-Ordered h taken sent r

-- After polls from a new half whose channel takes what a reserved slot sends, the bytes in the
-- commands sent, in order, are the bytes that the polls of writes accepted.
pub Run-payload :
    (h : WriteHalf) (taken : List ℕ) (sent : List WriteCommand)
    → Run h taken sent
    → payload sent ≡ taken
Run-payload h taken sent start = refl
Run-payload _ _ _ (write {h} {taken} {sent} w bufs p r a e) =
    rw (payload-append sent p.sent, Run-payload h taken sent r, write-payload h w bufs p a e) refl
Run-payload _ _ _ (flush {h} {taken} {sent} w p r a e) =
    rw (payload-append sent p.sent, flush-payload h w p e, append-nil (payload sent))
      (Run-payload h taken sent r)
Run-payload _ _ _ (shutdown {h} {taken} {sent} w p r a e) =
    rw (payload-append sent p.sent, shutdown-payload h w p e, append-nil (payload sent))
      (Run-payload h taken sent r)
