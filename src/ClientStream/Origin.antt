-- ===== src/ClientStream/Origin.antt =====
-- Which answers the reader of src/client_stream.rs rests on, and a client stream as a whole: its
-- polls of reads, writes, flushes and the shutdown in any order.
use rtp_mux.Prelude.{
  ℕ, ◌≡◌, refl, ◌⊎◌, inl, inr, some, List, [], ◌∷◌, ◌++◌, true, Outcome, panics, returns, arith,
  sym, ap, returns-injective, ◌∙◌,
}
use rtp_mux.WriteHalf
use rtp_mux.WriteHalf.{WriteHalf, World, WriteCommand, Polled, fresh}
use rtp_mux.WriteHalf.Trace.{
  Run, start, write, flush, shutdown, accepted, commands, payload, Run-payload,
}
use rtp_mux.ClientStream.{
  ReaderState, Answers, ReadPoll, Reason, Oneshot, Injected, pending_gene, pending_inject,
  injecting, receiving, ready_spliced, failed, ClientStream, poll_read, poll_write,
  poll_write_vectored, poll_flush, poll_shutdown, with_half,
}
use rtp_mux.ClientStream.Calls.{outcome, on_splice, on_inject, on_gene, rounds-outcome}

-- One of the answers so far, the newest first, satisfies a predicate.
abbrev pub Saw : (Answers → Type 0) → List Answers → Type 0
Saw P [] = ⊥
Saw P (a ∷ xs) = P a ⊎ Saw P xs

module _ (id router : ℕ) where
  abbrev pub SawGene : ℕ → List Answers → Type 0
  SawGene gene = Saw (λ a. a.gen0 ≡ Oneshot.sent gene)

  abbrev pub SawInjected : ℕ → Injected → List Answers → Type 0
  SawInjected gene i = Saw (λ a. a.inject router id gene ≡ i)

  abbrev pub SawSplice : ℕ → Oneshot → List Answers → Type 0
  SawSplice rx o = Saw (λ a. a.splice rx ≡ o)

  -- Where a state comes from, when the stream was made with this logical identifier and router.
  abbrev pub HasOrigin : List Answers → ReaderState → Type 0
  HasOrigin xs (pending_gene i r) = (i ≡ id) × (r ≡ router)
  HasOrigin xs (pending_inject (injecting i r gene)) = (i ≡ id) × (r ≡ router) × SawGene gene xs
  HasOrigin xs (pending_inject (receiving rx)) =
      (gene : ℕ) × SawGene gene xs × SawInjected gene (Injected.accepted rx) xs
  HasOrigin xs (ready_spliced reader) =
      (gene : ℕ) × (rx : ℕ) × SawGene gene xs
      × SawInjected gene (Injected.accepted rx) xs
      × SawSplice rx (Oneshot.sent reader) xs
  HasOrigin xs (failed Reason.gene_closed) = Saw (λ a. a.gen0 ≡ Oneshot.closed) xs
  HasOrigin xs (failed Reason.splice_closed) =
      (gene : ℕ) × SawGene gene xs
      × (SawInjected gene Injected.refused xs
          ⊎ ((rx : ℕ) × SawInjected gene (Injected.accepted rx) xs
              × SawSplice rx Oneshot.closed xs))

  splice-HasOrigin :
      (a : Answers) (xs : List Answers) (gene rx : ℕ)
      → SawGene gene (a ∷ xs)
      → SawInjected gene (Injected.accepted rx) (a ∷ xs)
      → (o : Oneshot) → a.splice rx ≡ o
      → HasOrigin (a ∷ xs) (on_splice a rx o).0
  splice-HasOrigin a xs gene rx g i Oneshot.waiting e = (gene, g, i)
  splice-HasOrigin a xs gene rx g i Oneshot.closed e = (gene, g, inr (rx, i, inl e))
  splice-HasOrigin a xs gene rx g i (Oneshot.sent reader) e = (gene, rx, g, i, inl e)

  inject-HasOrigin :
      (a : Answers) (xs : List Answers) (gene : ℕ)
      → SawGene gene (a ∷ xs)
      → (o : Injected) → a.inject router id gene ≡ o
      → HasOrigin (a ∷ xs) (on_inject a id router gene o).0
  inject-HasOrigin a xs gene g Injected.busy e = (refl, refl, g)
  inject-HasOrigin a xs gene g Injected.refused e = (gene, g, inl (inl e))
  inject-HasOrigin a xs gene g (Injected.accepted rx) e =
      splice-HasOrigin a xs gene rx g (inl e) (a.splice rx) refl

  gene-HasOrigin :
      (a : Answers) (xs : List Answers) (o : Oneshot)
      → a.gen0 ≡ o
      → HasOrigin (a ∷ xs) (on_gene a id router o).0
  gene-HasOrigin a xs Oneshot.waiting e = (refl, refl)
  gene-HasOrigin a xs Oneshot.closed e = inl e
  gene-HasOrigin a xs (Oneshot.sent gene) e =
      inject-HasOrigin a xs gene (inl e) (a.inject router id gene) refl

  outcome-HasOrigin :
      (a : Answers) (xs : List Answers) (s : ReaderState)
      → HasOrigin xs s
      → HasOrigin (a ∷ xs) (outcome s a).0
  unfolding outcome
  outcome-HasOrigin a xs (pending_gene i r) (e, e') = rw (e, e') (gene-HasOrigin a xs a.gen0 refl)
  outcome-HasOrigin a xs (pending_inject (injecting i r gene)) (e, e', g) =
      rw (e, e') (inject-HasOrigin a xs gene (inr g) (a.inject router id gene) refl)
  outcome-HasOrigin a xs (pending_inject (receiving rx)) (gene, g, i) =
      splice-HasOrigin a xs gene rx (inr g) (inr i) (a.splice rx) refl
  outcome-HasOrigin a xs (ready_spliced reader) (gene, rx, g, i, s) =
      (gene, rx, inr g, inr i, inr s)
  outcome-HasOrigin a xs (failed Reason.gene_closed) h = inr h
  outcome-HasOrigin a xs (failed Reason.splice_closed) (gene, g, inl i) = (gene, inr g, inl (inr i))
  outcome-HasOrigin a xs (failed Reason.splice_closed) (gene, g, inr (rx, i, s)) =
      (gene, inr g, inr (rx, inr i, inr s))

  -- A client stream after calls in any order since it was made: what its reader was answered, the
  -- newest first, the bytes that its writes accepted, and the commands that it sent. The channel
  -- takes what a reserved slot sends.
  pub data Used : ClientStream → List Answers → List ℕ → List WriteCommand → Type 0 where
    made :
        {s : ClientStream}
        → s.write ≡ fresh
        → s.reader_state ≡ pending_gene id router
        → Used s [] [] []
    reads :
        {s : ClientStream} {xs : List Answers} {taken : List ℕ} {sent : List WriteCommand}
        (a : Answers) (s' : ClientStream) (p : ReadPoll)
        → Used s xs taken sent
        → poll_read s a ≡ some (s', p)
        → Used s' (a ∷ xs) taken sent
    writes :
        {s : ClientStream} {xs : List Answers} {taken : List ℕ} {sent : List WriteCommand}
        (w : World) (bufs : List (List ℕ)) (s' : ClientStream) (p : Polled ℕ)
        → Used s xs taken sent
        → w.accepts ≡ true
        → poll_write_vectored s w bufs ≡ returns (s', p)
        → Used s' xs (taken ++ accepted p.poll bufs) (sent ++ commands p.sent)
    writes_one :
        {s : ClientStream} {xs : List Answers} {taken : List ℕ} {sent : List WriteCommand}
        (w : World) (buf : List ℕ) (s' : ClientStream) (p : Polled ℕ)
        → Used s xs taken sent
        → w.accepts ≡ true
        → poll_write s w buf ≡ returns (s', p)
        → Used s' xs (taken ++ accepted p.poll (buf ∷ [])) (sent ++ commands p.sent)
    flushes :
        {s : ClientStream} {xs : List Answers} {taken : List ℕ} {sent : List WriteCommand}
        (w : World) (s' : ClientStream) (p : Polled (Unit {0}))
        → Used s xs taken sent
        → w.accepts ≡ true
        → poll_flush s w ≡ returns (s', p)
        → Used s' xs taken (sent ++ commands p.sent)
    shuts :
        {s : ClientStream} {xs : List Answers} {taken : List ℕ} {sent : List WriteCommand}
        (w : World) (s' : ClientStream) (p : Polled (Unit {0}))
        → Used s xs taken sent
        → w.accepts ≡ true
        → poll_shutdown s w ≡ returns (s', p)
        → Used s' xs taken (sent ++ commands p.sent)

-- A call of the stream's write half that returns is a poll of that half, and leaves the reader alone.
with_half-returns :
    {A : Type 0} (s : ClientStream) (o : Outcome (Polled A)) (s' : ClientStream) (p : Polled A)
    → with_half s o ≡ returns (s', p)
    → (o ≡ returns p) × (s'.write ≡ p.half) × (s'.reader_state ≡ s.reader_state)
unfolding with_half
with_half-returns s o s' p e =
    elim o
        as (λ o.
          with_half s o ≡ returns (s', p)
          → (o ≡ returns p) × (s'.write ≡ p.half) × (s'.reader_state ≡ s.reader_state)) [
            | panics ↦ λ e. absurd (cc)
            | returns q ↦ λ e.
                let pair = returns-injective (record s { write = q.half }, q) (s', p) e in
                let moved = ap (λ r. r.0) pair in
                (
                  ap (λ r. returns r.1) pair,
                  sym (ap (λ t. t.write) moved) ∙ ap (λ r. r.1.half) pair,
                  sym (ap (λ t. t.reader_state) moved),
                )
          ]
      e

read-state :
    (s : ClientStream) (a : Answers) (s' : ClientStream) (p : ReadPoll)
    → poll_read s a ≡ some (s', p)
    → (s'.write ≡ s.write) × (s'.reader_state ≡ (outcome s.reader_state a).0)
unfolding poll_read
read-state s a s' p e = ground (arith, e, (rounds-outcome 0 s.reader_state a).1)

module _ (id router : ℕ) where
  Sound : ClientStream → List Answers → List ℕ → List WriteCommand → Type 0
  Sound s xs taken sent = Run s.write taken sent × HasOrigin id router xs s.reader_state

  -- A write half that moved on by a poll is still in a run, and the reader's origin stands.
  Sound-moved :
      (s s' : ClientStream) (half : WriteHalf) (xs : List Answers) (taken : List ℕ)
      (sent : List WriteCommand)
      → (s'.write ≡ half) × (s'.reader_state ≡ s.reader_state)
      → Run half taken sent
      → HasOrigin id router xs s.reader_state
      → Sound s' xs taken sent
  unfolding Sound
  Sound-moved s s' half xs taken sent (e, e') r o = (rw e r, rw e' o)

  Used-Sound :
      (s : ClientStream) (xs : List Answers) (taken : List ℕ) (sent : List WriteCommand)
      → Used id router s xs taken sent
      → Sound s xs taken sent
  unfolding Sound poll_write poll_write_vectored poll_flush poll_shutdown
  Used-Sound s _ _ _ (made e e') = (rw e start, rw e' (refl, refl))
  Used-Sound _ _ _ _ (reads {s} {xs} {taken} {sent} a s' p u e) =
      let (run, origin) = Used-Sound s xs taken sent u in
      let (w, r) = read-state s a s' p e in
      (rw w run, rw r (outcome-HasOrigin id router a xs s.reader_state origin))
  Used-Sound _ _ _ _ (writes {s} {xs} {taken} {sent} w bufs s' p u h e) =
      let (run, origin) = Used-Sound s xs taken sent u in
      let (o, m0, m1) = with_half-returns s (WriteHalf.poll_write_vectored s.write w bufs) s' p e in
      Sound-moved s s' p.half xs _ _ (m0, m1) (write w bufs p run h o) origin
  Used-Sound _ _ _ _ (writes_one {s} {xs} {taken} {sent} w buf s' p u h e) =
      let (run, origin) = Used-Sound s xs taken sent u in
      let (o, m0, m1) =
        with_half-returns s (WriteHalf.poll_write_vectored s.write w (buf ∷ [])) s' p e in
      Sound-moved s s' p.half xs _ _ (m0, m1) (write w (buf ∷ []) p run h o) origin
  Used-Sound _ _ _ _ (flushes {s} {xs} {taken} {sent} w s' p u h e) =
      let (run, origin) = Used-Sound s xs taken sent u in
      let (o, m0, m1) = with_half-returns s (WriteHalf.poll_flush s.write w) s' p e in
      Sound-moved s s' p.half xs _ _ (m0, m1) (flush w p run h o) origin
  Used-Sound _ _ _ _ (shuts {s} {xs} {taken} {sent} w s' p u h e) =
      let (run, origin) = Used-Sound s xs taken sent u in
      let (o, m0, m1) = with_half-returns s (WriteHalf.poll_shutdown s.write w) s' p e in
      Sound-moved s s' p.half xs _ _ (m0, m1) (shutdown w p run h o) origin

  -- After reads, writes, flushes and shutdowns of a client stream in any order since it was made, the
  -- bytes that it sent are those that its writes accepted, in order; and its reader stands on the
  -- answers that it was given: a spliced reader came through the receiver that the router gave for
  -- the stream's own logical identifier and its first reader, and an error names the answer that
  -- failed.
  pub Used-HasOrigin :
      (s : ClientStream) (xs : List Answers) (taken : List ℕ) (sent : List WriteCommand)
      → Used id router s xs taken sent
      → (payload sent ≡ taken) × HasOrigin id router xs s.reader_state
  unfolding Sound
  Used-HasOrigin s xs taken sent u =
      let (run, origin) = Used-Sound s xs taken sent u in
      (Run-payload s.write taken sent run, origin)
