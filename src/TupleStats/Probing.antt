-- ===== src/TupleStats/Probing.antt =====
-- The probes of src/explorer/tuple_stats.rs: which echoes count, and when the next tick is due.
use rtp_mux.Prelude.{
  ℕ, ◌*◌, ◌≤◌, ◌<◌, ◌≡◌, refl, Bool, false, Option, none, some, List, [], ◌∷◌, arith, leb, eqb, inl,
  inr, Option-cases, Bool-cases,
}
use rtp_mux.TupleStats.{
  TupleStats, Averages, receive_all, receive_echo, time_out, send_if_due, tick, next_wakeup,
  poisson_interval, probe, after_send, dead,
}

-- None of the echoes answers the outstanding probe.
abbrev pub Stale : {F : Type 0} → TupleStats F → List ℕ → Type 0
Stale s [] = Unit
Stale s (nonce ∷ nonces) =
    ((n at : ℕ) → s.outstanding ≡ some (n, at) → eqb nonce n ≡ false) × Stale s nonces

module _ {F : Type 0} (averages : Averages F) where
  receive_echo-stale :
      (s : TupleStats F) (o : Option (ℕ × ℕ)) (now nonce : ℕ)
      → ((n at : ℕ) → o ≡ some (n, at) → eqb nonce n ≡ false)
      → receive_echo averages s o now nonce ≡ s
  unfolding receive_echo
  receive_echo-stale s none now nonce stale = refl
  receive_echo-stale s (some (n, at)) now nonce stale = rw (stale n at refl) refl

  receive_all-Stale :
      (s : TupleStats F) (now : ℕ) (nonces : List ℕ)
      → Stale s nonces
      → receive_all averages s now nonces ≡ s
  unfolding receive_all receive_echo
  receive_all-Stale s now [] stale = refl
  receive_all-Stale s now (nonce ∷ nonces) (first, rest) =
      rw (receive_echo-stale s s.outstanding now nonce first) (receive_all-Stale s now nonces rest)

  module _ (sends : Bool) (nonce : ℕ) (raw : ℕ → ℕ) (now mean epoch : ℕ) where
    -- Echoes that do not answer the outstanding probe do not change what a tick does.
    pub tick-Stale :
        (s : TupleStats F) (echoes : List ℕ)
        → Stale s echoes
        → tick averages s echoes sends nonce raw now mean epoch
          ≡ tick averages s [] sends nonce raw now mean epoch
    unfolding tick receive_all
    tick-Stale s echoes stale = rw (receive_all-Stale s now echoes stale) refl

    poisson_interval-positive : (r m : ℕ) → 4 ≤ m → 0 < poisson_interval r m
    unfolding poisson_interval
    poisson_interval-positive r m h = omega (arith, h)

    after_probe-next_wakeup :
        (s : TupleStats F)
        → 4 ≤ mean
        → now < (probe averages s sends nonce raw now mean).next_probe_at
    unfolding probe
    after_probe-next_wakeup s h = elim (Bool-cases (dead (after_send averages s sends nonce now))) [
      | inl e ↦
          rw e (
            omega (arith, poisson_interval-positive (raw (mean * 3)) (mean * 3) (omega (arith, h))))
      | inr e ↦ rw e (omega (arith, poisson_interval-positive (raw mean) mean h))
    ]

    wakes_later : (s : TupleStats F) → now < s.next_probe_at → now < next_wakeup s now
    unfolding next_wakeup
    wakes_later s h = elim (Option-cases s.outstanding) [
      | inl e ↦ ground (arith, h, e)
      | inr (x, e) ↦ ground (arith, e)
    ]

    send_if_due-next_wakeup :
        (s : TupleStats F) (o : Option (ℕ × ℕ))
        → s.outstanding ≡ o
        → 4 ≤ mean
        → now < next_wakeup (send_if_due averages s o sends nonce raw now mean epoch).0 now
    unfolding send_if_due next_wakeup
    send_if_due-next_wakeup s (some x) e h = ground (arith, e)
    send_if_due-next_wakeup s none e h = elim (Bool-cases (leb s.next_probe_at now)) [
      | inl due ↦
          rw due
            (wakes_later (probe averages s sends nonce raw now mean) (after_probe-next_wakeup s h))
      | inr early ↦ rw early (wakes_later s (ground (arith, early)))
    ]

    -- For a mean interval of at least 4 ns, the wakeup after a tick lies in the future: the loop
    -- over the paths never spins.
    pub tick-next_wakeup :
        (s : TupleStats F) (echoes : List ℕ)
        → 4 ≤ mean
        → now < next_wakeup (tick averages s echoes sends nonce raw now mean epoch).0 now
    unfolding tick
    tick-next_wakeup s echoes h =
        let received = receive_all averages s now echoes in
        let waited = time_out averages received received.outstanding now in
        send_if_due-next_wakeup waited waited.outstanding refl h
