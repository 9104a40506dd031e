-- ===== src/Explorer/Examples.antt =====
-- A PathExplorer of src/explorer/mod.rs over three candidates, with natural numbers for floats: a
-- loss is in percent, and a cost is the round trip per percent delivered.
use rtp_mux.Prelude.{ℕ, none, some, [], ◌∷◌}
use rtp_mux.TupleStats.{TupleStats}
use rtp_mux.Explorer.{PathExplorer, Candidate, pop_best, evict_worst, reoptimize_verdict}
use rtp_mux.Explorer.Percent.{percent, percent-TotalOrder}
use rtp_mux.Explorer.Choice.{Pops, pop_best-cheapest}
use rtp_mux.Explorer.Rotation.{Evicts, evict_worst-Evicts}
use rtp_mux.Explorer.Verdict.{Agrees, reoptimize_verdict-Agrees}

abbrev stats : ℕ → ℕ → ℕ → TupleStats ℕ
stats rtt loss losses = record {
  rtt = some rtt;
  loss = some loss;
  samples = 5;
  consecutive_losses = losses;
  outstanding = none;
  next_probe_at = 100;
}

abbrev candidate : ℕ → TupleStats ℕ → Candidate ℕ ℕ
candidate n s = record { io = n; local_addr = record { ip = 1; port = n }; stats = s }

-- The second candidate is dead, the third is the best.
abbrev explorer : PathExplorer ℕ ℕ ℕ
explorer = record {
  config = record { candidates = 3; probe_mean_interval = 10; rotation_period = 120 };
  candidates =
      candidate 1 (stats 80 10 0) ∷ candidate 2 (stats 10 90 4) ∷ candidate 3 (stats 40 0 0) ∷ [];
  active = some (candidate 9 (stats 90 5 0));
  next_rotation_at = 120;
  refill_after = 0;
  epoch = 0;
}

pop_best-cheapest_example : Pops percent explorer (pop_best percent explorer)
pop_best-cheapest_example = pop_best-cheapest percent percent-TotalOrder explorer

evict_worst-Evicts_example : Evicts percent explorer (evict_worst percent explorer)
evict_worst-Evicts_example = evict_worst-Evicts percent percent-TotalOrder explorer

reoptimize_verdict-Agrees_example :
    Agrees percent explorer (reoptimize_verdict percent explorer) (pop_best percent explorer)
reoptimize_verdict-Agrees_example = reoptimize_verdict-Agrees percent percent-TotalOrder explorer
