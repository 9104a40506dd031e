-- ===== src/ByteCount.antt =====
-- src/byte_count.rs: the byte counters of a session and the counted halves. The inner reader and
-- writer are what they answer at a poll; the counters are shared, so each poll takes and gives them.
pub mod Totals
mod Examples
use rtp_mux.Prelude.{ℕ, ◌+◌, ◌-◌, ◌%◌, ◌^◌, Bool, true, false, Result, ok, err, if◌then◌else◌}

pub record SessionByteCounters : Type 0 where
  pub tx_bytes : ℕ
  pub rx_bytes : ℕ

abbrev pub new_counters : SessionByteCounters
new_counters = record { tx_bytes = 0; rx_bytes = 0 }

-- `CounterTarget.rx`
pub data Direction : Type 0 where
  rx tx : Direction

-- `fetch_add` of an AtomicU64 wraps around.
pub add : Direction → ℕ → SessionByteCounters → SessionByteCounters
add rx n c = record c { rx_bytes = (c.rx_bytes + n) % 2 ^ 64 }
add tx n c = record c { tx_bytes = (c.tx_bytes + n) % 2 ^ 64 }

pub data Poll (A : Type 0) : Type 0 where
  ready : Result ℕ A → Poll A
  pending : Poll A

-- `before` and `after` are the filled lengths of the buffer around the inner poll.
pub poll_read :
    ℕ → ℕ → Poll (Unit {0}) → SessionByteCounters → SessionByteCounters × Poll (Unit {0})
unfolding add
poll_read before after pending c = (c, pending)
poll_read before after (ready r) c = (add rx (after - before) c, ready r)

-- `poll_write`, and `poll_write_vectored`, which counts in the same way.
pub poll_write : Poll ℕ → SessionByteCounters → SessionByteCounters × Poll ℕ
unfolding add
poll_write (ready (ok written)) c = (add tx written c, ready (ok written))
poll_write polled c = (c, polled)

-- `poll_flush` and `poll_shutdown`.
pub poll_through : Poll (Unit {0}) → SessionByteCounters → SessionByteCounters × Poll (Unit {0})
poll_through polled c = (c, polled)
