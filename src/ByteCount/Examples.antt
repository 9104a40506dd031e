-- ===== src/ByteCount/Examples.antt =====
-- The counters of src/byte_count.rs over concrete polls.
use rtp_mux.Prelude.{List, [], ◌∷◌, ok, err}
use rtp_mux.ByteCount.{ready, pending}
use rtp_mux.ByteCount.Totals.{Call, read, write}

abbrev calls : List Call
calls =
    read 3 10 (ready (ok tt)) ∷ write (ready (ok 5)) ∷ write pending ∷ read 0 4 (ready (err 1)) ∷ []
