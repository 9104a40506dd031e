-- ===== src/Explorer/Percent.antt =====
-- Natural numbers for the floats of src/explorer/path_score.rs in tests: a loss is in percent, and a
-- cost is the round trip per percent delivered.
use rtp_mux.Prelude.{ℕ, ◌+◌, ◌-◌, ◌*◌, ◌/◌, max, leb, arith}
use rtp_mux.Explorer.Score.{Floats, TotalOrder}

abbrev pub percent : Floats ℕ
percent = record {
  averages = record {
    zero_loss = 0;
    full_loss = 100;
    mean_loss = λ a b. (a * 7 + b * 3) / 10;
    mean_rtt = λ a b. (a * 7 + b * 3) / 10;
  };
  as_secs = λ t. t * 100;
  plus = λ a b. a + b;
  minus = λ a b. a - b;
  times = λ a b. a * b / 100;
  divided = λ a b. a / b;
  larger = max;
  at_most = leb;
  total_le = leb;
  one = 100;
  infinity = 1000000000;
  min_delivery = 5;
  reopt_rtt_margin = 25;
  reopt_loss_margin = 10;
  reopt_loss_tolerance = 2;
}

pub percent-TotalOrder : TotalOrder percent
percent-TotalOrder = record {
  total = λ a b. ground arith;
  transitive = λ a b c p q. ground (arith, p, q);
}
