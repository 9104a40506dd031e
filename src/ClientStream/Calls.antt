-- ===== src/ClientStream/Calls.antt =====
-- The polls of a reader in src/client_stream.rs, one after the other.
use rtp_mux.Prelude.{
  ℕ, suc, ◌≡◌, refl, ap, ◌∙◌, Option, none, some, List, [], ◌∷◌, map, Result, arith,
}
use Prim.Native.String.{String}
use rtp_mux.ClientStream.{
  ReaderState, Answers, ReadPoll, Reason, Oneshot, Injected, rounds, poll_reader_state,
  pending_gene, pending_inject, injecting, receiving, ready_spliced, failed, pending, filled,
  broken_pipe,
}

-- What a poll of the spliced reader gives.
abbrev pub reading : Option (Result String (List ℕ)) → ReadPoll
reading none = pending
reading (some result) = filled result

-- A poll in one go, without the loop.
abbrev pub on_reader : Answers → ℕ → ReaderState × ReadPoll
on_reader a reader = (ready_spliced reader, reading (a.read reader))

abbrev pub on_failure : Reason → ReaderState × ReadPoll
on_failure reason = (failed reason, broken_pipe reason)

abbrev pub on_splice : Answers → ℕ → Oneshot → ReaderState × ReadPoll
on_splice a rx Oneshot.waiting = (pending_inject (receiving rx), pending)
on_splice a rx Oneshot.closed = on_failure Reason.splice_closed
on_splice a rx (Oneshot.sent reader) = on_reader a reader

abbrev pub on_inject : Answers → (id router gene : ℕ) → Injected → ReaderState × ReadPoll
on_inject a id router gene Injected.busy = (pending_inject (injecting id router gene), pending)
on_inject a id router gene Injected.refused = on_failure Reason.splice_closed
on_inject a id router gene (Injected.accepted rx) = on_splice a rx (a.splice rx)

abbrev pub on_gene : Answers → (id router : ℕ) → Oneshot → ReaderState × ReadPoll
on_gene a id router Oneshot.waiting = (pending_gene id router, pending)
on_gene a id router Oneshot.closed = on_failure Reason.gene_closed
on_gene a id router (Oneshot.sent gene) = on_inject a id router gene (a.inject router id gene)

unfoldable pub outcome : ReaderState → Answers → ReaderState × ReadPoll
outcome (pending_gene id router) a = on_gene a id router a.gen0
outcome (pending_inject (injecting id router gene)) a =
    on_inject a id router gene (a.inject router id gene)
outcome (pending_inject (receiving rx)) a = on_splice a rx (a.splice rx)
outcome (ready_spliced reader) a = on_reader a reader
outcome (failed reason) a = on_failure reason

rounds-reader :
    (n : ℕ) (a : Answers) (reader : ℕ)
    → rounds (suc n) (ready_spliced reader) a ≡ some (on_reader a reader)
unfolding rounds
rounds-reader n a reader = ground arith

rounds-failure :
    (n : ℕ) (a : Answers) (reason : Reason)
    → rounds (suc n) (failed reason) a ≡ some (on_failure reason)
unfolding rounds
rounds-failure n a reason = refl

rounds-splice :
    (n : ℕ) (a : Answers) (rx : ℕ)
    → rounds (suc (suc n)) (pending_inject (receiving rx)) a ≡ some (on_splice a rx (a.splice rx))
unfolding rounds
rounds-splice n a rx = ground (arith, rounds-reader n a, rounds-failure n a)

rounds-inject :
    (n : ℕ) (a : Answers) (id router gene : ℕ)
    → rounds (suc (suc n)) (pending_inject (injecting id router gene)) a
      ≡ some (on_inject a id router gene (a.inject router id gene))
unfolding rounds
rounds-inject n a id router gene = ground (arith, rounds-reader n a, rounds-failure n a)

rounds-gene :
    (n : ℕ) (a : Answers) (id router : ℕ)
    → rounds (suc (suc (suc n))) (pending_gene id router) a ≡ some (on_gene a id router a.gen0)
unfolding rounds
rounds-gene n a id router = ground (arith, rounds-inject n a id router, rounds-failure (suc n) a)

-- However its surroundings answer, a poll of a reader returns within three rounds of its loop, with
-- the state and the answer that a description without the loop gives; more rounds change nothing.
pub rounds-outcome :
    (n : ℕ) (s : ReaderState) (a : Answers)
    → (rounds (suc (suc (suc n))) s a ≡ some (outcome s a))
      × (poll_reader_state s a ≡ some (outcome s a))
unfolding rounds poll_reader_state outcome
rounds-outcome n (pending_gene id router) a = (rounds-gene n a id router, rounds-gene 0 a id router)
rounds-outcome n (pending_inject (injecting id router gene)) a =
    (rounds-inject (suc n) a id router gene, rounds-inject 1 a id router gene)
rounds-outcome n (pending_inject (receiving rx)) a =
    (rounds-splice (suc n) a rx, rounds-splice 1 a rx)
rounds-outcome n (ready_spliced reader) a =
    (rounds-reader (suc (suc n)) a reader, rounds-reader 2 a reader)
rounds-outcome n (failed reason) a = (refl, refl)

-- The polls of a reader in a row.
unfoldable pub polls : ReaderState → List Answers → List ReadPoll
polls s [] = []
polls s (a ∷ xs) = elim (poll_reader_state s a) [ none ↦ [] | some (s', p) ↦ p ∷ polls s' xs ]

-- Polls in a row as a caller may rely on them: some that are pending; then either the polls of one
-- spliced reader, or one error for ever.
pub data Polls : List Answers → List ReadPoll → Type 0 where
  nothing : Polls [] []
  waits :
      (a : Answers) {xs : List Answers} {ps : List ReadPoll}
      → Polls xs ps
      → Polls (a ∷ xs) (pending ∷ ps)
  reads : (reader : ℕ) {xs : List Answers} → Polls xs (map (λ a. reading (a.read reader)) xs)
  fails : (reason : Reason) {xs : List Answers} → Polls xs (map (λ _. broken_pipe reason) xs)

polls-cons :
    (s : ReaderState) (a : Answers) (xs : List Answers)
    → polls s (a ∷ xs) ≡ (outcome s a).1 ∷ polls (outcome s a).0 xs
unfolding polls
polls-cons s a xs = rw (polls, (rounds-outcome 0 s a).1) refl

polls-reader :
    (reader : ℕ) (xs : List Answers)
    → polls (ready_spliced reader) xs ≡ map (λ a. reading (a.read reader)) xs
unfolding polls outcome
polls-reader reader [] = refl
polls-reader reader (a ∷ xs) =
    polls-cons (ready_spliced reader) a xs
    ∙ ap (λ l. reading (a.read reader) ∷ l) (polls-reader reader xs)

polls-failure :
    (reason : Reason) (xs : List Answers)
    → polls (failed reason) xs ≡ map (λ _. broken_pipe reason) xs
unfolding polls outcome
polls-failure reason [] = refl
polls-failure reason (a ∷ xs) =
    polls-cons (failed reason) a xs ∙ ap (λ l. broken_pipe reason ∷ l) (polls-failure reason xs)

data Agrees (a : Answers) : ReaderState × ReadPoll → Type 0 where
  waits : {s : ReaderState} → Agrees a (s, pending)
  reads : (reader : ℕ) → Agrees a (on_reader a reader)
  fails : (reason : Reason) → Agrees a (on_failure reason)

splice-Agrees : (a : Answers) (rx : ℕ) (o : Oneshot) → Agrees a (on_splice a rx o)
splice-Agrees a rx Oneshot.waiting = waits
splice-Agrees a rx Oneshot.closed = fails Reason.splice_closed
splice-Agrees a rx (Oneshot.sent reader) = reads reader

inject-Agrees :
    (a : Answers) (id router gene : ℕ) (o : Injected) → Agrees a (on_inject a id router gene o)
inject-Agrees a id router gene Injected.busy = waits
inject-Agrees a id router gene Injected.refused = fails Reason.splice_closed
inject-Agrees a id router gene (Injected.accepted rx) = splice-Agrees a rx (a.splice rx)

gene-Agrees : (a : Answers) (id router : ℕ) (o : Oneshot) → Agrees a (on_gene a id router o)
gene-Agrees a id router Oneshot.waiting = waits
gene-Agrees a id router Oneshot.closed = fails Reason.gene_closed
gene-Agrees a id router (Oneshot.sent gene) =
    inject-Agrees a id router gene (a.inject router id gene)

outcome-Agrees : (s : ReaderState) (a : Answers) → Agrees a (outcome s a)
unfolding outcome
outcome-Agrees (pending_gene id router) a = gene-Agrees a id router a.gen0
outcome-Agrees (pending_inject (injecting id router gene)) a =
    inject-Agrees a id router gene (a.inject router id gene)
outcome-Agrees (pending_inject (receiving rx)) a = splice-Agrees a rx (a.splice rx)
outcome-Agrees (ready_spliced reader) a = reads reader
outcome-Agrees (failed reason) a = fails reason

Agrees-Polls :
    (a : Answers) (xs : List Answers) (r : ReaderState × ReadPoll)
    → Agrees a r
    → Polls xs (polls r.0 xs)
    → Polls (a ∷ xs) (r.1 ∷ polls r.0 xs)
Agrees-Polls a xs _ waits h = waits a h
Agrees-Polls a xs _ (reads reader) h = rw (polls-reader reader xs) (reads reader)
Agrees-Polls a xs _ (fails reason) h = rw (polls-failure reason xs) (fails reason)

-- The polls of a reader, in whatever state it starts, are some that are pending, and then either all
-- of them polls of one spliced reader or all of them one and the same error: a failed reader keeps
-- the cause that it first gave.
pub polls-Polls : (s : ReaderState) (xs : List Answers) → Polls xs (polls s xs)
unfolding polls
polls-Polls s [] = nothing
polls-Polls s (a ∷ xs) =
    rw (polls-cons s a xs)
      (Agrees-Polls a xs (outcome s a) (outcome-Agrees s a) (polls-Polls (outcome s a).0 xs))
