-- ===== src/Explorer/Choice.antt =====
-- The candidate that PathExplorer::pop_best of src/explorer/mod.rs gives to a dial.
use rtp_mux.Prelude.{
  ℕ, ◌≡◌, refl, sym, ◌∙◌, true, false, Option, none, some, List, ◌++◌, Outcome, returns,
  Option-cases, inl, inr,
}
use mathlib.Core.List.{Perm}
use mathlib.Core.Option.{some-injective, none-ne-some}
use rtp_mux.Shared.{SocketAddr}
use rtp_mux.TupleStats.{TupleStats, PathScore, score}
use rtp_mux.TupleStats.Samples.{score-returns}
use rtp_mux.Explorer.{PathExplorer, Candidate, measured, live_cost, best_index, pop_best, popped}
use rtp_mux.Explorer.Score.{Floats, TotalOrder, cost}
use rtp_mux.Explorer.Selection.{All, Chosen, Selected, select-Selected, Chosen-swap_remove}

module _ {F : Type 0} (floats : Floats F) (order : TotalOrder floats) where
  pub reflexive : (a : F) → floats.total_le a a ≡ true
  reflexive a = elim (order.total a a) [ inl h ↦ h | inr h ↦ h ]

  pub not_le : (a b : F) → floats.total_le a b ≡ false → floats.total_le b a ≡ true
  not_le a b h = elim (order.total a b) [ inl e ↦ absurd (cc) | inr e ↦ e ]

module _ {F : Type 0} (floats : Floats F) where
  pub measured_lem : (s : TupleStats F) → score floats.averages s ≡ returns (measured floats s)
  unfolding measured
  measured_lem s = let (o, e) = score-returns floats.averages s in rw (e, measured) refl

  abbrev pub AtMost : F → F → Type 0
  AtMost a b = floats.total_le a b ≡ true

module _ {F C : Type 0} (floats : Floats F) where
  unmeasured : (c : Candidate F C) → measured floats c.stats ≡ none → live_cost floats c ≡ none
  unfolding live_cost
  unmeasured c e = rw (e, live_cost) refl

  costs :
      (c : Candidate F C) (s : PathScore F)
      → measured floats c.stats ≡ some s
      → live_cost floats c ≡ some (cost floats s)
  unfolding live_cost
  costs c s e = rw (e, live_cost) refl

  pub live_cost-measured :
      (c : Candidate F C) (a : F)
      → live_cost floats c ≡ some a
      → (s : PathScore F) × (measured floats c.stats ≡ some s) × (a ≡ cost floats s)
  live_cost-measured c a h = elim (Option-cases (measured floats c.stats)) [
    | inl e ↦ absurd (none-ne-some a (sym (unmeasured c e) ∙ h))
    | inr (s, e) ↦ (s, e, some-injective a (cost floats s) (sym h ∙ costs c s e))
  ]

module _ {F C A : Type 0} (floats : Floats F) where
  -- What a dial may be given: nothing if no candidate has a score, and else a candidate of least
  -- cost, which is taken out. The order of the others is left open.
  pub data Pops (e : PathExplorer F C A)
      : Outcome (Option (C × SocketAddr × PathScore F) × PathExplorer F C A) → Type 0 where
    nothing : All (λ c. live_cost floats c ≡ none) e.candidates → Pops e (returns (none, e))
    cheapest :
        (i : ℕ) (a : F) (s : PathScore F) (rest : List (Candidate F C))
        (v : Chosen (live_cost floats) (AtMost floats) 0 e.candidates i a)
        → a ≡ cost floats s
        → measured floats v.element.stats ≡ some s
        → Perm rest (v.before ++ v.after)
        → Pops e
            (returns (some (v.element.io, v.element.local_addr, s), record e { candidates = rest }))

  module _ (order : TotalOrder floats) where
    pub best_index-Selected :
        (e : PathExplorer F C A)
        → Selected (live_cost floats) (AtMost floats) 0 e.candidates (best_index floats e)
    unfolding best_index
    best_index-Selected e =
        select-Selected (live_cost floats) (AtMost floats) floats.total_le (λ a b h. h)
          (not_le floats order) (reflexive floats order) order.transitive 0 e.candidates

    -- Where `total_cmp` is a total order, pop_best always returns: nothing if no candidate is alive,
    -- and else the socket, address and score of a live candidate of least cost, leaving all others.
    pub pop_best-cheapest : (e : PathExplorer F C A) → Pops e (pop_best floats e)
    unfolding pop_best popped
    pop_best-cheapest e = elim (best_index-Selected e) [
      | Selected.nothing h v ↦ rw (h, pop_best) (Pops.nothing v)
      | Selected.chosen i a h v ↦
          let (s, m, c) = live_cost-measured floats v.element a v.costs in
          let (rest, r, p) = Chosen-swap_remove (live_cost floats) (AtMost floats) v in
          rw (h, pop_best, r, popped, measured_lem floats v.element.stats, m)
            (Pops.cheapest i a s rest v c m p)
    ]

    Pops-returns :
        {e : PathExplorer F C A}
        {o : Outcome (Option (C × SocketAddr × PathScore F) × PathExplorer F C A)}
        → Pops e o
        → (r : Option (C × SocketAddr × PathScore F) × PathExplorer F C A) × (o ≡ returns r)
    Pops-returns (Pops.nothing v) = (_, refl)
    Pops-returns (Pops.cheapest i a s rest v c m p) = (_, refl)

    pub pop_best-returns :
        (e : PathExplorer F C A)
        → (r : Option (C × SocketAddr × PathScore F) × PathExplorer F C A) × (pop_best floats e
            ≡ returns r)
    pop_best-returns e = Pops-returns (pop_best-cheapest e)
