-- ===== src/ClientStream.antt =====
-- src/client_stream.rs: a client stream, whose reader waits until the response router has spliced the
-- stream's first reader in, and whose writes go to the write half of WriteHalf. Readers, receivers
-- and router handles are numbers. What a oneshot, the router and the spliced reader answer at a poll
-- is the poll's argument.
pub mod Origin
pub mod Calls
mod Examples
use Prim.Native.String.{String}
use rtp_mux.Prelude.{
  ℕ, zero, suc, Bool, Option, none, some, List, Result, ok, err, Outcome, returns, panics, [], ◌∷◌,
}
use rtp_mux.Shared.{SocketAddr}
use rtp_mux.WriteHalf
use rtp_mux.WriteHalf.{World, Polled, fresh}
use rtp_mux.CrossSession.{Store, track}

pub data Reason : Type 0 where
  gene_closed splice_closed : Reason

-- The future of PendingInject: the call of `inject_response_gene`, then the receiver it gave.
pub data Injection : Type 0 where
  injecting : (logical_id router gene : ℕ) → Injection
  receiving : ℕ → Injection

pub data ReaderState : Type 0 where
  pending_gene : (logical_id router : ℕ) → ReaderState
  pending_inject : Injection → ReaderState
  ready_spliced : ℕ → ReaderState
  failed : Reason → ReaderState

-- What a `oneshot::Receiver` polls to.
pub data Oneshot : Type 0 where
  waiting closed : Oneshot
  sent : ℕ → Oneshot

-- What `inject_response_gene` polls to.
pub data Injected : Type 0 where
  busy refused : Injected
  accepted : ℕ → Injected

-- What a poll of a read gives: a read of the spliced reader that is ready, or the stream's own error.
pub data ReadPoll : Type 0 where
  pending : ReadPoll
  filled : Result String (List ℕ) → ReadPoll
  broken_pipe : Reason → ReadPoll

pub record Answers : Type 0 where
  pub gen0 : Oneshot
  pub inject : (router logical_id gene : ℕ) → Injected
  pub splice : ℕ → Oneshot
  pub read : ℕ → Option (Result String (List ℕ))

-- A round of the loop: it goes on in another state, or the poll returns.
pub data Round : Type 0 where
  again : ReaderState → Round
  done : ReaderState → ReadPoll → Round

after_gene : (logical_id router : ℕ) → Oneshot → Round
after_gene id router waiting = done (pending_gene id router) pending
after_gene id router closed = again (failed gene_closed)
after_gene id router (sent gene) = again (pending_inject (injecting id router gene))

after_splice : ℕ → Oneshot → Round
after_splice rx waiting = done (pending_inject (receiving rx)) pending
after_splice rx closed = again (failed splice_closed)
after_splice rx (sent reader) = again (ready_spliced reader)

after_inject : (logical_id router gene : ℕ) → Injected → Answers → Round
unfolding after_splice
after_inject id router gene busy a = done (pending_inject (injecting id router gene)) pending
after_inject id router gene refused a = again (failed splice_closed)
after_inject id router gene (accepted rx) a = after_splice rx (a.splice rx)

read_ready : ℕ → Option (Result String (List ℕ)) → Round
read_ready reader none = done (ready_spliced reader) pending
read_ready reader (some result) = done (ready_spliced reader) (filled result)

pub round : ReaderState → Answers → Round
unfolding after_gene after_inject after_splice read_ready
round (pending_gene id router) a = after_gene id router a.gen0
round (pending_inject (injecting id router gene)) a =
    after_inject id router gene (a.inject router id gene) a
round (pending_inject (receiving rx)) a = after_splice rx (a.splice rx)
round (ready_spliced reader) a = read_ready reader (a.read reader)
round (failed reason) a = done (failed reason) (broken_pipe reason)

-- The loop of `poll_reader_state`, on a number of rounds.
pub rounds : ℕ → ReaderState → Answers → Option (ReaderState × ReadPoll)
unfolding round
rounds zero s a = none
rounds (suc n) s a = elim (round s a) [ again s' ↦ rounds n s' a | done s' p ↦ some (s', p) ]

-- Three rounds are enough (Calls).
pub poll_reader_state : ReaderState → Answers → Option (ReaderState × ReadPoll)
unfolding rounds
poll_reader_state s a = rounds 3 s a

pub record ClientStream : Type 0 where
  pub write : WriteHalf.WriteHalf
  pub reader_state : ReaderState
  pub local_addr : SocketAddr
  pub peer_addr : SocketAddr
  pub handle : ℕ

-- The stream takes over the guard of an OpenedStream of `session`, under the handle `h`.
pub new_duplex :
    (alive writing : ℕ → Bool)
    → Store
    → (session h logical_id router : ℕ) → (local_addr peer_addr : SocketAddr) → Store × ClientStream
new_duplex alive writing t session h id router local_addr peer_addr = (
  track alive writing t session h,
  record {
    write = fresh;
    reader_state = pending_gene id router;
    local_addr = local_addr;
    peer_addr = peer_addr;
    handle = h;
  },
)

pub poll_read : ClientStream → Answers → Option (ClientStream × ReadPoll)
poll_read s a = elim (poll_reader_state s.reader_state a) [
  | none ↦ none
  | some (state, p) ↦ some (record s { reader_state = state }, p)
]

-- What a poll of the write half makes of the stream.
with_half : {A : Type 0} → ClientStream → Outcome (Polled A) → Outcome (ClientStream × Polled A)
with_half s panics = panics
with_half s (returns p) = returns (record s { write = p.half }, p)

pub poll_write : ClientStream → World → List ℕ → Outcome (ClientStream × Polled ℕ)
unfolding with_half
poll_write s w buf = with_half s (WriteHalf.poll_write_vectored s.write w (buf ∷ []))

pub poll_write_vectored : ClientStream → World → List (List ℕ) → Outcome (ClientStream × Polled ℕ)
unfolding with_half
poll_write_vectored s w bufs = with_half s (WriteHalf.poll_write_vectored s.write w bufs)

pub poll_flush : ClientStream → World → Outcome (ClientStream × Polled (Unit {0}))
unfolding with_half
poll_flush s w = with_half s (WriteHalf.poll_flush s.write w)

pub poll_shutdown : ClientStream → World → Outcome (ClientStream × Polled (Unit {0}))
unfolding with_half
poll_shutdown s w = with_half s (WriteHalf.poll_shutdown s.write w)
