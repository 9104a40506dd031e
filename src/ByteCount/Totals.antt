-- ===== src/ByteCount/Totals.antt =====
-- The totals that the counters of src/byte_count.rs show.
use rtp_mux.Prelude.{ℕ, ◌+◌, ◌-◌, ◌%◌, ◌^◌, ◌≡◌, List, [], ◌∷◌, total, arith, ok, err}
use rtp_mux.ByteCount.{
  SessionByteCounters, Poll, ready, pending, poll_read, poll_write, poll_through,
}

-- One poll of a counted half of the session, with what the inner half answers.
pub data Call : Type 0 where
  read : ℕ → ℕ → Poll (Unit {0}) → Call
  write : Poll ℕ → Call
  flush_or_shutdown : Poll (Unit {0}) → Call

pub step : Call → SessionByteCounters → SessionByteCounters
unfolding poll_read poll_write poll_through
step (read before after p) c = (poll_read before after p c).0
step (write p) c = (poll_write p c).0
step (flush_or_shutdown p) c = (poll_through p c).0

pub replay : List Call → SessionByteCounters → SessionByteCounters
unfolding step
replay [] c = c
replay (call ∷ calls) c = replay calls (step call c)

-- The bytes a call has moved in and out, told from what the inner half answered.
abbrev pub received : Call → ℕ
received (read before after (ready _)) = after - before
received _ = 0

abbrev pub transmitted : Call → ℕ
transmitted (write (ready (ok n))) = n
transmitted _ = 0

step_lem :
    (call : Call) (c : SessionByteCounters)
    → ((step call c).rx_bytes % 2 ^ 64 ≡ (c.rx_bytes + received call) % 2 ^ 64)
      × ((step call c).tx_bytes % 2 ^ 64 ≡ (c.tx_bytes + transmitted call) % 2 ^ 64)
unfolding step
step_lem (read before after pending) c = (omega arith, omega arith)
step_lem (read before after (ready r)) c = (omega arith, omega arith)
step_lem (write pending) c = (omega arith, omega arith)
step_lem (write (ready (ok n))) c = (omega arith, omega arith)
step_lem (write (ready (err e))) c = (omega arith, omega arith)
step_lem (flush_or_shutdown p) c = (omega arith, omega arith)

-- After any calls on the counted halves of a session, each counter is, modulo 2^64, what it was plus
-- all the bytes that the calls moved in its direction; failed reads count what they filled, failed
-- writes and pending polls count nothing.
pub replay-totals :
    (calls : List Call) (c : SessionByteCounters)
    → ((replay calls c).rx_bytes % 2 ^ 64 ≡ (c.rx_bytes + total received calls) % 2 ^ 64)
      × ((replay calls c).tx_bytes % 2 ^ 64 ≡ (c.tx_bytes + total transmitted calls) % 2 ^ 64)
unfolding replay
replay-totals [] c = (omega arith, omega arith)
replay-totals (call ∷ calls) c =
    let moved = step_lem call c in
    let rest = replay-totals calls (step call c) in
    (omega (arith, moved.0, rest.0), omega (arith, moved.1, rest.1))
