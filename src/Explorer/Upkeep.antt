-- ===== src/Explorer/Upkeep.antt =====
-- A tick of PathExplorer of src/explorer/mod.rs always ends.
use rtp_mux.Prelude.{
  ℕ, ◌≡◌, refl, Option, List, ◌+◌, ◌-◌, ◌<◌, leb, arith, Outcome, returns, Bool-cases, inl, inr,
  false, length-append, ◌∷◌, [],
}
use rtp_mux.Shared.{SocketAddr}
use rtp_mux.TupleStats.{ProbeEcho}
use rtp_mux.Explorer.{
  PathExplorer, Probe, tick, tick_all, add_candidate, deficit, wants_refill, defer_refill,
}
use rtp_mux.Explorer.Score.{Floats, TotalOrder}
use rtp_mux.Explorer.Rotation.{Evicts, evict_worst-Evicts}

module _ {F C A : Type 0} where
  pub add_candidate-deficit :
      (e : PathExplorer F C A) (io : C) (local_addr : SocketAddr) (now stagger : ℕ)
      → deficit (add_candidate e io local_addr now stagger) ≡ deficit e - 1
  unfolding deficit add_candidate
  add_candidate-deficit e io local_addr now stagger =
      omega (arith, length-append e.candidates (_ ∷ []))

  pub full-wants_refill :
      (e : PathExplorer F C A) (now : ℕ) → deficit e ≡ 0 → wants_refill e now ≡ false
  unfolding wants_refill
  full-wants_refill e now h = ground (arith, h)

  pub deferred-wants_refill :
      (e : PathExplorer F C A) (now until : ℕ)
      → now < until
      → wants_refill (defer_refill e until) now ≡ false
  unfolding wants_refill defer_refill
  deferred-wants_refill e now until h = ground (arith, h)

module _ {F C A : Type 0} (floats : Floats F) (order : TotalOrder floats) where
  Evicts-returns :
      {e : PathExplorer F C A} {o : Outcome (PathExplorer F C A)}
      → Evicts floats e o
      → (r : PathExplorer F C A) × (o ≡ returns r)
  Evicts-returns (Evicts.wanting h) = (_, refl)
  Evicts-returns (Evicts.unmeasured v) = (_, refl)
  Evicts-returns (Evicts.evicts i a rest v d p) = (_, refl)

  pub tick-returns :
      (e : PathExplorer F C A) (now : ℕ) (probes : ℕ → Probe) (active_probe : Probe)
      → (r : PathExplorer F C A × List (Option ProbeEcho)) × (tick floats e now probes active_probe
          ≡ returns r)
  unfolding tick
  tick-returns e now probes active_probe =
      let ticked = tick_all floats e now probes active_probe in
      let rotated = record ticked.0 { next_rotation_at = now + e.config.rotation_period } in
      let (left, h) = Evicts-returns (evict_worst-Evicts floats order rotated) in
      elim (Bool-cases (leb e.next_rotation_at now)) [
        | inl i ↦ ((left, ticked.1), rw (i, tick, h) refl)
        | inr i ↦ (ticked, rw (i, tick) refl)
      ]
