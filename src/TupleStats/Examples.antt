-- ===== src/TupleStats/Examples.antt =====
-- The statistics of src/explorer/tuple_stats.rs at a concrete path, with losses counted in percent.
use rtp_mux.Prelude.{
  ℕ, ◌+◌, ◌*◌, ◌/◌, ◌≤◌, ◌≡◌, ◌≢◌, ◌↔◌, arith, true, false, not, ◌&&◌, none, some, [], leb, eqb,
  returns, panics,
}
use rtp_mux.TupleStats.{TupleStats, Averages, new, score, tick}
use rtp_mux.TupleStats.Samples.{Ticked, Ticked-score}

abbrev percent : Averages ℕ
percent = record {
  zero_loss = 0;
  full_loss = 100;
  mean_loss = λ prev sample. (prev * 7 + sample * 3) / 10;
  mean_rtt = λ prev sample. (prev * 7 + sample * 3) / 10;
}

abbrev second : ℕ
second = 1000000000

-- A probe with nonce 77 is out since 3 s.
abbrev probing : TupleStats ℕ
probing = record {
  rtt = some 40000000;
  loss = some 0;
  samples = 4;
  consecutive_losses = 0;
  outstanding = some (77, 3 * second);
  next_probe_at = 3 * second;
}

abbrev steady : ℕ → ℕ
steady mean = mean

Ticked-score_example :
    (score percent (tick percent (new second 0) [] true 77 steady (2 * second) second 0).0 ≢ panics)
    × ((score percent (tick percent (new second 0) [] true 77 steady (2 * second) second 0).0
          ≡ returns none)
        ↔ ((leb 3 (tick percent (new second 0) [] true 77 steady (2 * second) second 0).0.samples
              && not (
                  leb 3
                    (tick percent
                      (new second 0)
                      []
                      true
                      77
                      steady
                      (2 * second)
                      second
                      0).0.consecutive_losses))
            ≡ false))
Ticked-score_example =
    Ticked-score percent (tick percent (new second 0) [] true 77 steady (2 * second) second 0).0 (
      Ticked.ticked (new second 0) [] true 77 steady (2 * second) second 0
        (Ticked.started second 0))

stale_echo : (n at : ℕ) → probing.outstanding ≡ some (n, at) → eqb 76 n ≡ false
stale_echo n at e = ground (arith, e)

mean_is_long : 4 ≤ second
mean_is_long = omega arith
