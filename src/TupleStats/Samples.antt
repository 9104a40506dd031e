-- ===== src/TupleStats/Samples.antt =====
-- What the statistics of src/explorer/tuple_stats.rs say of each other, at any time.
use rtp_mux.Prelude.{
  ℕ, ◌-◌, ◌≤◌, ◌≡◌, ◌≢◌, refl, Bool, true, false, not, ◌&&◌, Option, none, some, List, [], ◌∷◌,
  arith, leb, inl, inr, panics, returns, Option-cases, if-holds, eqb, Bool-cases, ◌↔◌,
}
use rtp_mux.TupleStats.{
  TupleStats, Averages, record_sample, receive_all, time_out, send_if_due, tick, new, score, alive,
  score_measured, loss_or_zero, PathScore, receive_echo, probe, after_send, probe_timeout,
}

-- Every sample is a loss until a round trip is measured; losses in a row are samples.
pub IsSound : {F : Type 0} → TupleStats F → Type 0
IsSound s = (s.consecutive_losses ≤ s.samples) × (s.rtt ≡ none → s.consecutive_losses ≡ s.samples)

new-IsSound : (F : Type 0) (now stagger : ℕ) → IsSound (new {F = F} now stagger)
unfolding IsSound new
new-IsSound F now stagger = (omega arith, λ h. refl)

module _ {F : Type 0} (averages : Averages F) where
  record_sample-IsSound :
      (s : TupleStats F) (sample : Option ℕ) → IsSound s → IsSound (record_sample averages s sample)
  unfolding IsSound record_sample
  record_sample-IsSound s none (losses, unmeasured) =
      (omega (arith, losses), λ h. ground (arith, losses, unmeasured h))
  record_sample-IsSound s (some x) (losses, unmeasured) =
      (omega (arith, losses), λ h. ground (arith, h))

  receive_echo-IsSound :
      (s : TupleStats F) (o : Option (ℕ × ℕ)) (now nonce : ℕ)
      → IsSound s
      → IsSound (receive_echo averages s o now nonce)
  unfolding receive_echo IsSound
  receive_echo-IsSound s none now nonce sound = sound
  receive_echo-IsSound s (some (expected, sent_at)) now nonce sound =
      if-holds IsSound (eqb nonce expected)
        (record_sample averages (record s { outstanding = none }) (some (now - sent_at))) s
        (record_sample-IsSound (record s { outstanding = none }) (some (now - sent_at)) sound) sound

  receive_all-IsSound :
      (s : TupleStats F) (now : ℕ) (nonces : List ℕ)
      → IsSound s
      → IsSound (receive_all averages s now nonces)
  unfolding receive_all
  receive_all-IsSound s now [] sound = sound
  receive_all-IsSound s now (nonce ∷ nonces) sound =
      receive_all-IsSound (receive_echo averages s s.outstanding now nonce) now nonces
        (receive_echo-IsSound s s.outstanding now nonce sound)

  time_out-IsSound :
      (s : TupleStats F) (o : Option (ℕ × ℕ)) (now : ℕ)
      → IsSound s
      → IsSound (time_out averages s o now)
  unfolding time_out IsSound
  time_out-IsSound s none now sound = sound
  time_out-IsSound s (some (nonce, sent_at)) now sound =
      if-holds IsSound (leb probe_timeout (now - sent_at))
        (record_sample averages (record s { outstanding = none }) none) s
        (record_sample-IsSound (record s { outstanding = none }) none sound) sound

  after_send-IsSound :
      (s : TupleStats F) (sends : Bool) (nonce now : ℕ)
      → IsSound s
      → IsSound (after_send averages s sends nonce now)
  unfolding after_send IsSound
  after_send-IsSound s true nonce now sound = sound
  after_send-IsSound s false nonce now sound = record_sample-IsSound s none sound

  module _ (sends : Bool) (nonce : ℕ) (raw : ℕ → ℕ) (now mean epoch : ℕ) where
    probe-IsSound :
        (s : TupleStats F) → IsSound s → IsSound (probe averages s sends nonce raw now mean)
    unfolding probe IsSound
    probe-IsSound s sound = after_send-IsSound s sends nonce now sound

    send_if_due-IsSound :
        (s : TupleStats F) (o : Option (ℕ × ℕ))
        → IsSound s
        → IsSound (send_if_due averages s o sends nonce raw now mean epoch).0
    unfolding send_if_due
    send_if_due-IsSound s (some _) sound = sound
    send_if_due-IsSound s none sound = elim (Bool-cases (leb s.next_probe_at now)) [
      | inl due ↦ rw due (probe-IsSound s sound)
      | inr early ↦ rw early sound
    ]

    tick-IsSound :
        (s : TupleStats F) (echoes : List ℕ)
        → IsSound s
        → IsSound (tick averages s echoes sends nonce raw now mean epoch).0
    unfolding tick
    tick-IsSound s echoes sound =
        let received = receive_all averages s now echoes in
        let waited = time_out averages received received.outstanding now in
        send_if_due-IsSound waited waited.outstanding (
          time_out-IsSound received received.outstanding now
            (receive_all-IsSound s now echoes sound))

-- Ticks from new statistics.
pub data Ticked {F : Type 0} (averages : Averages F) : TupleStats F → Type 0 where
  started : (now stagger : ℕ) → Ticked averages (new now stagger)
  ticked :
      (s : TupleStats F) (echoes : List ℕ) (sends : Bool) (nonce : ℕ) (raw : ℕ → ℕ)
      (now mean epoch : ℕ)
      → Ticked averages s
      → Ticked averages (tick averages s echoes sends nonce raw now mean epoch).0

Ticked-IsSound :
    {F : Type 0} (averages : Averages F) (s : TupleStats F) → Ticked averages s → IsSound s
Ticked-IsSound {F} averages _ (started now stagger) = new-IsSound F now stagger
Ticked-IsSound averages _ (ticked s echoes sends nonce raw now mean epoch t) =
    tick-IsSound averages sends nonce raw now mean epoch s echoes (Ticked-IsSound averages s t)

-- After any ticks of new statistics, the score does not panic, and the path has a score exactly
-- when it has at least three samples and fewer than three losses in a row: the round trip is then
-- measured.
pub Ticked-score :
    {F : Type 0} (averages : Averages F) (s : TupleStats F)
    → Ticked averages s
    → (score averages s ≢ panics)
      × ((score averages s ≡ returns none)
          ↔ ((leb 3 s.samples && not (leb 3 s.consecutive_losses)) ≡ false))
unfolding score alive IsSound
Ticked-score averages s t =
    let sound = Ticked-IsSound averages s t in
    elim (Option-cases s.rtt) [
      | inl e ↦
          let equal = sound.1 e in (λ h. ground (arith, e, equal, h), ground (arith, e, equal))
      | inr (x, e) ↦ (λ h. ground (arith, e, h), ground (arith, e))
    ]

-- `score` returns.
pub score-returns :
    {F : Type 0} (averages : Averages F) (s : TupleStats F)
    → (o : Option (PathScore F)) × (score averages s ≡ returns o)
unfolding score score_measured alive
score-returns averages s = elim (Option-cases s.rtt) [
  | inl e ↦ (none, ground (arith, e))
  | inr (rtt, e) ↦ elim (Bool-cases (alive s)) [
    | inl h ↦
        (some (record { rtt = rtt; loss = loss_or_zero averages s.loss }), ground (arith, e, h))
    | inr h ↦ (none, ground (arith, e, h))
  ]
]
