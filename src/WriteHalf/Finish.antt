-- ===== src/WriteHalf/Finish.antt =====
-- When a poll of src/migrating_write_half.rs finishes, and with what.
use rtp_mux.Prelude.{
  ℕ, Bool, true, false, Option, none, some, List, ◌≡◌, ◌⊎◌, ◌||◌, refl, min, length, concat, ok,
  returns, panics, arith, if◌then◌else◌,
}
use rtp_mux.WriteHalf.{
  WriteHalf, WriteCommand, World, ControlKind, Polled, poll_write_vectored, poll_flush,
  poll_shutdown, ready, crashed, ended, reserved, IoResult,
}
use rtp_mux.WriteHalf.Gather.{chunk_of_lem}
use rtp_mux.WriteHalf.Trace.{Run}

abbrev awaits_shutdown : Option ControlKind → Bool
awaits_shutdown (some ControlKind.shutdown) = true
awaits_shutdown _ = false

abbrev is_stored : {A : Type 0} → Option A → Bool
is_stored none = false
is_stored (some _) = true

-- While a shutdown is under way, its reply is awaited or its result is stored.
abbrev pub has_result : WriteHalf → Bool
has_result h =
    if h.shutdown_started
    then h.shutdown_complete || (awaits_shutdown h.pending_control || is_stored h.shutdown_result)
    else true

write-has_result :
    (h : WriteHalf) (w : World) (bufs : List (List ℕ)) (p : Polled ℕ)
    → poll_write_vectored h w bufs ≡ returns p
    → has_result h ≡ true
    → has_result p.half ≡ true
unfolding poll_write_vectored
write-has_result h w bufs p e r = ground (arith, e, r)

flush-has_result :
    (h : WriteHalf) (w : World) (p : Polled (Unit {0}))
    → poll_flush h w ≡ returns p
    → has_result h ≡ true
    → has_result p.half ≡ true
unfolding poll_flush
flush-has_result h w p e r = ground (arith, e, r)

shutdown-has_result :
    (h : WriteHalf) (w : World) (p : Polled (Unit {0}))
    → poll_shutdown h w ≡ returns p
    → has_result h ≡ true
    → has_result p.half ≡ true
unfolding poll_shutdown
shutdown-has_result h w p e r = ground (arith, e, r)

poll_shutdown-no_panic :
    (h : WriteHalf) (w : World)
    → has_result h ≡ true
    → ¬ (w.task ≡ crashed)
    → ¬ (poll_shutdown h w ≡ panics)
unfolding poll_shutdown
poll_shutdown-no_panic h w r alive e = ground (arith, r, alive, e)

Run-has_result :
    (h : WriteHalf) (taken : List ℕ) (sent : List WriteCommand)
    → Run h taken sent
    → has_result h ≡ true
Run-has_result h taken sent Run.start = refl
Run-has_result _ _ _ (Run.write {h} {taken} {sent} w bufs p r a e) =
    write-has_result h w bufs p e (Run-has_result h taken sent r)
Run-has_result _ _ _ (Run.flush {h} {taken} {sent} w p r a e) =
    flush-has_result h w p e (Run-has_result h taken sent r)
Run-has_result _ _ _ (Run.shutdown {h} {taken} {sent} w p r a e) =
    shutdown-has_result h w p e (Run-has_result h taken sent r)

-- After any polls from a new half, a poll of the shutdown does not panic as long as the background
-- task has not panicked.
pub Run-poll_shutdown-no_panic :
    (h : WriteHalf) (taken : List ℕ) (sent : List WriteCommand) (w : World)
    → Run h taken sent
    → ¬ (w.task ≡ crashed)
    → ¬ (poll_shutdown h w ≡ panics)
Run-poll_shutdown-no_panic h taken sent w r alive =
    poll_shutdown-no_panic h w (Run-has_result h taken sent r) alive

-- A poll of a shutdown that finishes either was finished before, or finds the background task ended;
-- the half is complete from then on.
pub poll_shutdown-finishes :
    (h : WriteHalf) (w : World) (p : Polled (Unit {0})) (r : IoResult)
    → poll_shutdown h w ≡ returns p
    → p.poll ≡ ready r
    → (p.half.shutdown_complete ≡ true) × ((h.shutdown_complete ≡ true) ⊎ (w.task ≡ ended))
unfolding poll_shutdown
poll_shutdown-finishes h w p r e f = ground (arith, e, f)

-- A write that is accepted takes the whole of its slices up to 64 KiB, on a half whose shutdown has
-- not started, with no error stored by the background task and a free slot of the channel.
pub poll_write_vectored-accepts :
    (h : WriteHalf) (w : World) (bufs : List (List ℕ)) (p : Polled ℕ) (n : ℕ)
    → poll_write_vectored h w bufs ≡ returns p
    → p.poll ≡ ready (ok n)
    → (n ≡ min (length (concat bufs)) 65536)
      × (p.half.shutdown_started ≡ false)
      × (p.half.shutdown_complete ≡ false)
      × (w.background_error ≡ none)
      × (w.reserve ≡ reserved)
unfolding poll_write_vectored
poll_write_vectored-accepts h w bufs p n e f = ground (arith, e, f, chunk_of_lem bufs)
