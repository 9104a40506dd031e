-- ===== src/TupleStats.antt =====
-- src/explorer/tuple_stats.rs: the statistics of one probed path. Durations and instants are
-- nanoseconds. The f64 arithmetic of the two averages is the parameter `Averages`; the nonces, the
-- stagger and the raw exponential interval that `rand` and `ln` give are arguments.
pub mod Samples
pub mod Probing
mod Examples
use rtp_mux.Prelude.{
  ℕ, ◌+◌, ◌-◌, ◌*◌, ◌/◌, ◌^◌, Bool, true, false, not, ◌&&◌, ◌||◌, Option, none, some, List, [], ◌∷◌,
  min, max, eqb, leb, if◌then◌else◌, Outcome, returns, panics, ◌%◌,
}
use rtp_mux.Shared.{SocketAddr}

abbrev pub probe_timeout : ℕ
probe_timeout = 1500 * 1000000

abbrev pub probe_poll_tick : ℕ
probe_poll_tick = 5 * 1000000

abbrev pub dead_consecutive_losses : ℕ
dead_consecutive_losses = 3

abbrev dead_cadence_factor : ℕ
dead_cadence_factor = 3

abbrev pub min_samples : ℕ
min_samples = 3

-- 0.0 and 1.0, and the weighted means by EWMA_ALPHA of f64 and of Duration: old value, new sample.
pub record Averages (F : Type 0) : Type 0 where
  pub zero_loss : F
  pub full_loss : F
  pub mean_loss : F → F → F
  pub mean_rtt : ℕ → ℕ → ℕ

pub record TupleStats (F : Type 0) : Type 0 where
  pub rtt : Option ℕ
  pub loss : Option F
  pub samples : ℕ
  pub consecutive_losses : ℕ
  pub outstanding : Option (ℕ × ℕ)
  pub next_probe_at : ℕ

pub record PathScore (F : Type 0) : Type 0 where
  pub rtt : ℕ
  pub loss : F

pub record TupleReport (F : Type 0) : Type 0 where
  pub local_addr : SocketAddr
  pub rtt : Option ℕ
  pub loss : Option F
  pub alive : Bool

-- What a probe carries.
pub record ProbeEcho : Type 0 where
  pub nonce : ℕ
  pub timestamp_micros : ℕ

abbrev is_measured : Option ℕ → Bool
is_measured none = false
is_measured (some _) = true

-- `u32::saturating_add(1)`
abbrev pub saturating_suc : ℕ → ℕ
saturating_suc n = min (n + 1) (2 ^ 32 - 1)

-- The clamp of the raw interval around the mean.
pub poisson_interval : ℕ → ℕ → ℕ
poisson_interval raw mean = min (max raw (mean / 4)) (mean * 4)

module _ {F : Type 0} where
  pub new : ℕ → ℕ → TupleStats F
  new now stagger = record {
    rtt = none;
    loss = none;
    samples = 0;
    consecutive_losses = 0;
    outstanding = none;
    next_probe_at = now + stagger;
  }

  abbrev pub dead : TupleStats F → Bool
  dead s = leb dead_consecutive_losses s.consecutive_losses

  pub alive : TupleStats F → Bool
  alive s = leb min_samples s.samples && is_measured s.rtt && not (dead s)

  -- The time of the next call of `tick`.
  pub next_wakeup : TupleStats F → ℕ → ℕ
  next_wakeup s now = elim s.outstanding [ some _ ↦ now + probe_poll_tick | none ↦ s.next_probe_at ]

  pub report : TupleStats F → SocketAddr → TupleReport F
  unfolding alive
  report s local_addr = record {
    local_addr = local_addr;
    rtt = s.rtt;
    loss = s.loss;
    alive = alive s;
  }

module _ {F : Type 0} (averages : Averages F) where
  abbrev loss_or_zero : Option F → F
  loss_or_zero none = averages.zero_loss
  loss_or_zero (some l) = l

  score_measured : TupleStats F → Option ℕ → Outcome (Option (PathScore F))
  score_measured s none = panics
  score_measured s (some rtt) = returns (some (record { rtt = rtt; loss = loss_or_zero s.loss }))

  pub score : TupleStats F → Outcome (Option (PathScore F))
  unfolding score_measured alive
  score s = if alive s then score_measured s s.rtt else returns none

  abbrev loss_after : Option F → F → F
  loss_after none sample = sample
  loss_after (some prev) sample = averages.mean_loss prev sample

  abbrev rtt_after : Option ℕ → ℕ → ℕ
  rtt_after none sample = sample
  rtt_after (some prev) sample = averages.mean_rtt prev sample

  -- `self.record(rtt)`: `none` is a lost probe.
  pub record_sample : TupleStats F → Option ℕ → TupleStats F
  record_sample s none = record s {
    samples = saturating_suc s.samples;
    loss = some (loss_after s.loss averages.full_loss);
    consecutive_losses = saturating_suc s.consecutive_losses;
  }
  record_sample s (some sample) = record s {
    samples = saturating_suc s.samples;
    loss = some (loss_after s.loss averages.zero_loss);
    consecutive_losses = 0;
    rtt = some (rtt_after s.rtt sample);
  }

  pub receive_echo : TupleStats F → Option (ℕ × ℕ) → ℕ → ℕ → TupleStats F
  unfolding record_sample
  receive_echo s none now nonce = s
  receive_echo s (some (expected, sent_at)) now nonce =
      if eqb nonce expected
      then record_sample (record s { outstanding = none }) (some (now - sent_at))
      else s

  -- The loop over `try_recv_echo`, by the nonces of the echoes that are in.
  pub receive_all : TupleStats F → ℕ → List ℕ → TupleStats F
  unfolding receive_echo
  receive_all s now [] = s
  receive_all s now (nonce ∷ nonces) =
      receive_all (receive_echo s s.outstanding now nonce) now nonces

  pub time_out : TupleStats F → Option (ℕ × ℕ) → ℕ → TupleStats F
  unfolding record_sample
  time_out s none now = s
  time_out s (some (nonce, sent_at)) now =
      if leb probe_timeout (now - sent_at)
      then record_sample (record s { outstanding = none }) none
      else s

  pub after_send : TupleStats F → Bool → ℕ → ℕ → TupleStats F
  unfolding record_sample
  after_send s true nonce now = record s { outstanding = some (nonce, now) }
  after_send s false nonce now = record_sample s none

  abbrev cadence : TupleStats F → ℕ → ℕ
  cadence s mean = if dead s then mean * dead_cadence_factor else mean

  -- A probe is due: it is sent, or its send fails, and the next one is scheduled.
  pub probe : TupleStats F → Bool → ℕ → (ℕ → ℕ) → ℕ → ℕ → TupleStats F
  unfolding after_send poisson_interval
  probe s sends nonce raw now mean =
      let after = after_send s sends nonce now in
      let interval = cadence after mean in
      record after { next_probe_at = now + poisson_interval (raw interval) interval }

  pub send_if_due :
      TupleStats F
      → Option (ℕ × ℕ)
      → Bool
      → ℕ
      → (ℕ → ℕ)
      → ℕ
      → ℕ
      → ℕ
      → TupleStats F × Option ProbeEcho
  unfolding probe
  send_if_due s (some _) sends nonce raw now mean epoch = (s, none)
  send_if_due s none sends nonce raw now mean epoch =
      if leb s.next_probe_at now
      then (
        probe s sends nonce raw now mean,
        some (record { nonce = nonce; timestamp_micros = (now - epoch) / 1000 % 2 ^ 64 }),
      )
      else (s, none)

  -- Arguments: the echoes' nonces, whether a send succeeds, the new nonce, the raw interval for a
  -- mean, and `now`, `mean` and `epoch` of the source. The result has the probe handed to the send.
  pub tick :
      TupleStats F → List ℕ → Bool → ℕ → (ℕ → ℕ) → ℕ → ℕ → ℕ → TupleStats F × Option ProbeEcho
  unfolding receive_all time_out send_if_due
  tick s echoes sends nonce raw now mean epoch =
      let received = receive_all s now echoes in
      let waited = time_out received received.outstanding now in
      send_if_due waited waited.outstanding sends nonce raw now mean epoch
