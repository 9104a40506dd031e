-- ===== src/Explorer/Verdict.antt =====
-- PathExplorer::reoptimize_verdict of src/explorer/mod.rs and the candidate that a migration dials.
use rtp_mux.Prelude.{◌≡◌, refl, Option, none, some, Outcome, returns, Option-cases, inl, inr}
use rtp_mux.Shared.{SocketAddr}
use rtp_mux.TupleStats.{PathScore}
use rtp_mux.Explorer.{
  PathExplorer, Candidate, measured, live_cost, best_score, pop_best, popped, score_at,
  reoptimize_verdict, active_score, compare_paths,
}
use rtp_mux.Explorer.Score.{Floats, TotalOrder, MigrationRule, MigrationVerdict, beats_by_margin}
use rtp_mux.Explorer.Selection.{Selected, Chosen-swap_remove, Chosen-element_at}
use rtp_mux.Explorer.Choice.{
  AtMost, pop_best-returns, best_index-Selected, live_cost-measured, measured_lem,
}

module _ {F A : Type 0} (floats : Floats F) where
  active_score-returns :
      (o : Option (Candidate F A))
      → (s : Option (PathScore F)) × (active_score floats o ≡ returns s)
  unfolding active_score
  active_score-returns none = (none, refl)
  active_score-returns (some c) = (measured floats c.stats, measured_lem floats c.stats)

module _ {F C A : Type 0} (floats : Floats F) where
  -- What the verdict may say beside what a dial would be given.
  pub data Agrees (e : PathExplorer F C A)
      : Outcome (MigrationVerdict F)
        → Outcome (Option (C × SocketAddr × PathScore F) × PathExplorer F C A)
        → Type 0 where
    unmeasured :
        (r : Option (C × SocketAddr × PathScore F) × PathExplorer F C A)
        → active_score floats e.active ≡ returns none
        → Agrees e (returns MigrationVerdict.active_unmeasured) (returns r)
    alone :
        (active : PathScore F)
        → active_score floats e.active ≡ returns (some active)
        → Agrees e (returns (MigrationVerdict.no_live_candidate active)) (returns (none, e))
    migrates :
        (active best : PathScore F) (rule : MigrationRule) (io : C) (local_addr : SocketAddr)
        (left : PathExplorer F C A)
        → active_score floats e.active ≡ returns (some active)
        → beats_by_margin floats best active ≡ some rule
        → Agrees e
            (returns (MigrationVerdict.migrate rule active best))
            (returns (some (io, local_addr, best), left))
    stays :
        (active best : PathScore F) (io : C) (local_addr : SocketAddr) (left : PathExplorer F C A)
        → active_score floats e.active ≡ returns (some active)
        → beats_by_margin floats best active ≡ none
        → Agrees e
            (returns (MigrationVerdict.within_margin active best))
            (returns (some (io, local_addr, best), left))

  compared :
      (e : PathExplorer F C A) (active best : PathScore F) (io : C) (local_addr : SocketAddr)
      (left : PathExplorer F C A)
      → active_score floats e.active ≡ returns (some active)
      → Agrees e
          (returns (compare_paths floats active (some best)))
          (returns (some (io, local_addr, best), left))
  unfolding compare_paths
  compared e active best io local_addr left h =
      elim (Option-cases (beats_by_margin floats best active)) [
        | inl b ↦ rw (b, compare_paths) (Agrees.stays active best io local_addr left h b)
        | inr (rule, b) ↦
            rw (b, compare_paths) (Agrees.migrates active best rule io local_addr left h b)
      ]

  module _ (order : TotalOrder floats) where
    measured-Agrees :
        (e : PathExplorer F C A) (active : PathScore F)
        → active_score floats e.active ≡ returns (some active)
        → Agrees e (reoptimize_verdict floats e) (pop_best floats e)
    unfolding reoptimize_verdict pop_best best_score
    measured-Agrees e active h = elim (best_index-Selected floats order e) [
      | Selected.nothing n v ↦
          rw (h, reoptimize_verdict, best_score, pop_best, n, compare_paths) (Agrees.alone active h)
      | Selected.chosen i a n v ↦
          let (s, m, c) = live_cost-measured floats v.element a v.costs in
          let (rest, r, p) = Chosen-swap_remove (live_cost floats) (AtMost floats) v in
          rw
            (
              h,
              reoptimize_verdict,
              best_score,
              pop_best,
              n,
              r,
              popped,
              Chosen-element_at (live_cost floats) (AtMost floats) v,
              score_at,
              measured_lem floats v.element.stats,
              m,
            )
            (compared e active s v.element.io v.element.local_addr (record e { candidates = rest })
              h)
    ]

    agreed :
        (e : PathExplorer F C A) (s : Option (PathScore F))
        → active_score floats e.active ≡ returns s
        → Agrees e (reoptimize_verdict floats e) (pop_best floats e)
    unfolding reoptimize_verdict
    agreed e none h =
        let (r, p) = pop_best-returns floats order e in
        rw (h, reoptimize_verdict, p) (Agrees.unmeasured r h)
    agreed e (some active) h = measured-Agrees e active h

    -- Where `total_cmp` is a total order, reoptimize_verdict and pop_best both return, and they agree:
    -- where the current path has a score, the verdict compares it to the score of the candidate that
    -- pop_best takes, and says migrate exactly where that candidate beats the path by a margin.
    pub reoptimize_verdict-Agrees :
        (e : PathExplorer F C A) → Agrees e (reoptimize_verdict floats e) (pop_best floats e)
    reoptimize_verdict-Agrees e = let (s, h) = active_score-returns floats e.active in agreed e s h

    Agrees-returns :
        {e : PathExplorer F C A} {v : Outcome (MigrationVerdict F)}
        {p : Outcome (Option (C × SocketAddr × PathScore F) × PathExplorer F C A)}
        → Agrees e v p
        → (r : MigrationVerdict F) × (v ≡ returns r)
    Agrees-returns (Agrees.unmeasured p h) = (_, refl)
    Agrees-returns (Agrees.alone active h) = (_, refl)
    Agrees-returns (Agrees.migrates active best rule io local_addr left h b) = (_, refl)
    Agrees-returns (Agrees.stays active best io local_addr left h b) = (_, refl)

    pub reoptimize_verdict-returns :
        (e : PathExplorer F C A)
        → (r : MigrationVerdict F) × (reoptimize_verdict floats e ≡ returns r)
    reoptimize_verdict-returns e = Agrees-returns (reoptimize_verdict-Agrees e)
