-- ===== src/Connector/Waking/Refilled.antt =====
-- What a wake-up of the explorers in src/connector/mod.rs leaves.
use rtp_mux.Prelude.{
  ℕ, zero, suc, ◌+◌, ◌≡◌, refl, Bool, false, Option, none, some, [], ◌∷◌, Map, lookup,
  if◌then◌else◌, if-holds_by, returns, Result, Result-cases, inl, inr, arith, ◌||◌, ◌∙◌,
}
use rtp_mux.Shared.{SocketAddr, ErrorKind, addr_eq}
use rtp_mux.Explorer.{PathExplorer, wants_refill, deficit, add_candidate}
use rtp_mux.Explorer.Upkeep.{
  add_candidate-deficit, full-wants_refill, deferred-wants_refill, tick-returns,
}
use rtp_mux.Explorer.Score.{Floats, TotalOrder}
use rtp_mux.Connector.Commands.{flatten}
use rtp_mux.Connector.Types.{Connector, ExplorerContext, World}
use rtp_mux.Connector.Waking.{
  Surroundings, refill_round, refill_candidates, refill_all, tick_explorers, and_others, refilled,
  or_else, explorers_woke, any_wants_refill, retry_after,
}

either_false : (a b : Bool) → a ≡ false → b ≡ false → (a || b) ≡ false
either_false a b h i = ground (arith, h, i)

module _ {F C A : Type 0} where
  refill_round-wants_refill :
      (w : World) (bind : ℕ → Result ErrorKind (C × SocketAddr)) (missing : ℕ)
      (e : PathExplorer F C A)
      → deficit e ≡ missing
      → wants_refill (refill_round w bind missing e) w.now ≡ false
  unfolding refill_round
  refill_round-wants_refill w bind zero e h = full-wants_refill e w.now h
  refill_round-wants_refill w bind (suc missing) e h = elim (Result-cases (bind (suc missing))) [
    | inl (r, b) ↦
        rw (b, refill_round)
          (refill_round-wants_refill w bind missing (add_candidate e r.0 r.1 w.now w.stagger)
            (add_candidate-deficit e r.0 r.1 w.now w.stagger ∙ omega (arith, h)))
    | inr (k, b) ↦
        rw (b, refill_round) (deferred-wants_refill e w.now (w.now + retry_after) (omega arith))
  ]

  topped_up-wants_refill :
      (w : World) (bind : ℕ → Result ErrorKind (C × SocketAddr)) (e : PathExplorer F C A)
      → wants_refill (if wants_refill e w.now then refill_candidates w bind e else e) w.now ≡ false
  unfolding refill_candidates
  topped_up-wants_refill w bind e =
      if-holds_by (λ (x : PathExplorer F C A). wants_refill x w.now ≡ false) (wants_refill e w.now)
        (refill_round w bind (deficit e) e) e
        (λ h. refill_round-wants_refill w bind (deficit e) e refl) (λ h. h)

  refill_all-wants_refill :
      (w : World) (ctx : ExplorerContext) (around : Surroundings C)
      (keys : Map SocketAddr (Option ℕ)) (m : Map SocketAddr (PathExplorer F C A))
      → any_wants_refill (refill_all w ctx around keys m) w.now ≡ false
  unfolding refill_all any_wants_refill
  refill_all-wants_refill w ctx around keys [] = refl
  refill_all-wants_refill w ctx around keys ((addr, e) ∷ m) =
      let bind = around.bind_new addr (or_else (flatten (lookup addr keys)) ctx.obfuscation_key) in
      either_false _ _ (topped_up-wants_refill w bind e)
        (refill_all-wants_refill w ctx around keys m)

module _ {F C A : Type 0} (floats : Floats F) (order : TotalOrder floats) where
  tick_explorers-returns :
      (w : World) (around : Surroundings C) (m : Map SocketAddr (PathExplorer F C A))
      → (r : Map SocketAddr (PathExplorer F C A)) × (tick_explorers floats w around m ≡ returns r)
  unfolding tick_explorers and_others
  tick_explorers-returns w around [] = ([], refl)
  tick_explorers-returns w around ((addr, e) ∷ m) =
      let (r, h) =
        tick-returns floats order e w.now (around.probes addr) (around.active_probe addr) in
      let (rest, i) = tick_explorers-returns w around m in
      ((addr, r.0) ∷ rest, rw (h, tick_explorers, i) refl)

  -- Where `total_cmp` is a total order and the connector has an explorer context, a wake-up of the
  -- explorers always ends, changes nothing but the explorers, and leaves none that wants a refill at
  -- that time: each has all its candidates, or put its next refill off.
  pub explorers_woke-wants_refill :
      (ctx : ExplorerContext) (s : Connector F C A) (w : World) (around : Surroundings C)
      → (ticked : Map SocketAddr (PathExplorer F C A)) × (explorers_woke floats
            (some ctx)
            s
            w
            around
          ≡ returns (record s { explorers = ticked }))
        × (any_wants_refill ticked w.now ≡ false)
  unfolding explorers_woke refilled
  explorers_woke-wants_refill ctx s w around =
      let (ticked, h) = tick_explorers-returns w around s.explorers in
      (
        refill_all w ctx around s.addr_keys ticked,
        rw (h, explorers_woke) refl,
        refill_all-wants_refill w ctx around s.addr_keys ticked,
      )

  pub explorers_woke-returns :
      (ctx : Option ExplorerContext) (s : Connector F C A) (w : World) (around : Surroundings C)
      → (ticked : Map SocketAddr (PathExplorer F C A)) × (explorers_woke floats ctx s w around
          ≡ returns (record s { explorers = ticked }))
  unfolding explorers_woke refilled
  explorers_woke-returns (some ctx) s w around =
      let (ticked, h, _) = explorers_woke-wants_refill ctx s w around in (ticked, h)
  explorers_woke-returns none s w around =
      let (ticked, h) = tick_explorers-returns w around s.explorers in
      (ticked, rw (h, explorers_woke) refl)
