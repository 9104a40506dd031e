-- ===== src/Explorer/Rotation.antt =====
-- The rotation of the candidates by PathExplorer::tick of src/explorer/mod.rs.
use rtp_mux.Prelude.{
  ℕ, ◌≡◌, true, false, not, Option, none, some, if◌then◌else◌, leb, List, ◌++◌, Outcome, returns,
  Bool-cases, inl, inr, arith, ltb, ◌<◌,
}
use mathlib.Core.List.{Perm}
use rtp_mux.Explorer.{
  PathExplorer, Candidate, measured, live_cost, eviction_cost, deficit, evict_worst, evict_at,
}
use rtp_mux.Explorer.Score.{Floats, TotalOrder, cost}
use rtp_mux.Explorer.Selection.{
  All, Chosen, Selected, select, select-Selected, Chosen-swap_remove, numbered,
}
use rtp_mux.Explorer.Choice.{reflexive, not_le}

abbrev pub AtLeast : {F : Type 0} → Floats F → F → F → Type 0
AtLeast floats a b = floats.total_le b a ≡ true

module _ {F : Type 0} (floats : Floats F) (order : TotalOrder floats) where
  not_greater : (a b : F) → not (floats.total_le a b) ≡ true → AtLeast floats a b
  not_greater a b h = not_le floats order a b (ground (arith, h))

  greater_than : (a b : F) → not (floats.total_le a b) ≡ false → AtLeast floats b a
  greater_than a b h = ground (arith, h)

-- What a candidate is worth in a rotation: a path that lost three echoes in a row is worst of all,
-- one without a measurement is not ranked.
abbrev pub worth : {F C : Type 0} → Floats F → Candidate F C → Option F
worth floats c =
    if leb 3 c.stats.consecutive_losses
    then some floats.infinity
    else elim (measured floats c.stats) [ none ↦ none | some s ↦ some (cost floats s) ]

module _ {F C A : Type 0} (floats : Floats F) where
  -- What a rotation may leave: all candidates, while the explorer wants more of them or none has a
  -- cost, and else all but one of greatest cost, where a dead path costs the infinity.
  pub data Evicts (e : PathExplorer F C A) : Outcome (PathExplorer F C A) → Type 0 where
    wanting : 0 < deficit e → Evicts e (returns e)
    unmeasured : All (λ c. worth floats c ≡ none) e.candidates → Evicts e (returns e)
    evicts :
        (i : ℕ) (a : F) (rest : List (Candidate F C))
        (v : Chosen (worth floats) (AtLeast floats) 0 e.candidates i a)
        → deficit e ≡ 0
        → Perm rest (v.before ++ v.after)
        → Evicts e (returns (record e { candidates = rest }))

  module _ (order : TotalOrder floats) where
    dearest_index :
        (e : PathExplorer F C A)
        → Selected
            (worth floats)
            (AtLeast floats)
            0
            e.candidates
            (select (λ a b. not (floats.total_le a b)) (numbered (worth floats) 0 e.candidates))
    dearest_index e =
        select-Selected (worth floats) (AtLeast floats) (λ a b. not (floats.total_le a b))
          (not_greater floats order) (greater_than floats order) (reflexive floats order)
          (λ a b c p q. order.transitive c b a q p) 0 e.candidates

    -- Where `total_cmp` is a total order, evict_worst always returns. It changes nothing while the
    -- explorer wants more candidates. Else it takes out just one of greatest worth, where a candidate
    -- with three losses in a row is worth infinity and any other the cost of its measured score; when
    -- no candidate has a worth, it changes nothing.
    pub evict_worst-Evicts : (e : PathExplorer F C A) → Evicts e (evict_worst floats e)
    unfolding evict_worst evict_at eviction_cost live_cost
    evict_worst-Evicts e = elim (Bool-cases (ltb 0 (deficit e))) [
      | inl d ↦ rw (d, evict_worst) (Evicts.wanting (ground (arith, d)))
      | inr d ↦ elim (dearest_index e) [
        | Selected.nothing h v ↦ rw (d, evict_worst, h) (Evicts.unmeasured v)
        | Selected.chosen i a h v ↦
            let (rest, r, p) = Chosen-swap_remove (worth floats) (AtLeast floats) v in
            rw (d, evict_worst, h, evict_at, r) (Evicts.evicts i a rest v (ground (arith, d)) p)
      ]
    ]
