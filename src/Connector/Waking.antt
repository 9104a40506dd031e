-- ===== src/Connector/Waking.antt =====
-- The wake-ups of the explorers in run_connector of src/connector/mod.rs, and refill_candidates. What
-- the candidates' channels hold and what a bind answers are arguments; instants are nanoseconds.
pub mod Refilled
use rtp_mux.Prelude.{
  ℕ, zero, suc, ◌+◌, ◌*◌, Bool, true, false, ◌||◌, Option, none, some, List, [], ◌∷◌, min, Map,
  lookup, if◌then◌else◌, Outcome, returns, panics, Result, ok, err,
}
use rtp_mux.Shared.{SocketAddr, ErrorKind, addr_eq}
use rtp_mux.Explorer.{
  PathExplorer, Probe, tick, wants_refill, next_wakeup, deficit, add_candidate, defer_refill,
}
use rtp_mux.Explorer.Score.{Floats}
use rtp_mux.Connector.Types.{Connector, ExplorerContext, World}
use rtp_mux.Connector.Commands.{flatten}

-- The probes of an address's explorer, those of its active path, and what SocketCandidate::bind_new
-- answers for a key while so many candidates are missing.
pub record Surroundings (C : Type 0) : Type 0 where
  pub probes : SocketAddr → ℕ → Probe
  pub active_probe : SocketAddr → Probe
  pub bind_new : SocketAddr → Option ℕ → ℕ → Result ErrorKind (C × SocketAddr)

abbrev pub or_else : Option ℕ → Option ℕ → Option ℕ
or_else none other = other
or_else (some k) other = some k

abbrev pub retry_after : ℕ
retry_after = 5 * 1000000000

abbrev earlier_of : Option ℕ → ℕ → ℕ
earlier_of none t = t
earlier_of (some u) t = min u t

module _ {F C A : Type 0} where
  pub any_wants_refill : Map SocketAddr (PathExplorer F C A) → ℕ → Bool
  any_wants_refill [] now = false
  any_wants_refill ((addr, e) ∷ m) now = wants_refill e now || any_wants_refill m now

  min_wakeup : Map SocketAddr (PathExplorer F C A) → ℕ → Option ℕ
  min_wakeup [] now = none
  min_wakeup ((addr, e) ∷ m) now = some (earlier_of (min_wakeup m now) (next_wakeup e now))

  pub explorer_wakeup : Map SocketAddr (PathExplorer F C A) → ℕ → Option ℕ
  unfolding any_wants_refill min_wakeup
  explorer_wakeup m now = if any_wants_refill m now then some now else min_wakeup m now

  -- The loop runs while candidates are missing: each round adds one, or ends it.
  refill_round :
      World → (ℕ → Result ErrorKind (C × SocketAddr)) → ℕ → PathExplorer F C A → PathExplorer F C A
  refill_round w bind zero e = e
  refill_round w bind (suc missing) e = elim (bind (suc missing)) [
    | ok (io, local_addr) ↦
        refill_round w bind missing (add_candidate e io local_addr w.now w.stagger)
    | err _ ↦ defer_refill e (w.now + retry_after)
  ]

  pub refill_candidates :
      World → (ℕ → Result ErrorKind (C × SocketAddr)) → PathExplorer F C A → PathExplorer F C A
  unfolding refill_round
  refill_candidates w bind e = refill_round w bind (deficit e) e

  refill_all :
      World
      → ExplorerContext
      → Surroundings C
      → Map SocketAddr (Option ℕ)
      → Map SocketAddr (PathExplorer F C A)
      → Map SocketAddr (PathExplorer F C A)
  unfolding refill_candidates
  refill_all w ctx around keys [] = []
  refill_all w ctx around keys ((addr, e) ∷ m) =
      let key = or_else (flatten (lookup addr keys)) ctx.obfuscation_key in
      let refilled = refill_candidates w (around.bind_new addr key) e in
      (addr, if wants_refill e w.now then refilled else e) ∷ refill_all w ctx around keys m

module _ {F C A : Type 0} (floats : Floats F) where
  and_others :
      SocketAddr
      → PathExplorer F C A
      → Outcome (Map SocketAddr (PathExplorer F C A))
      → Outcome (Map SocketAddr (PathExplorer F C A))
  and_others addr e panics = panics
  and_others addr e (returns m) = returns ((addr, e) ∷ m)

  tick_explorers :
      World
      → Surroundings C
      → Map SocketAddr (PathExplorer F C A)
      → Outcome (Map SocketAddr (PathExplorer F C A))
  unfolding and_others
  tick_explorers w around [] = returns []
  tick_explorers w around ((addr, e) ∷ m) =
      let others = tick_explorers w around m in
      elim (tick floats e w.now (around.probes addr) (around.active_probe addr)) [
        | panics ↦ panics
        | returns (ticked, sent) ↦ and_others addr ticked others
      ]

  refilled :
      Option ExplorerContext
      → Connector F C A
      → World
      → Surroundings C
      → Map SocketAddr (PathExplorer F C A)
      → Connector F C A
  unfolding refill_all
  refilled none s w around ticked = record s { explorers = ticked }
  refilled (some ctx) s w around ticked = record s {
    explorers = refill_all w ctx around s.addr_keys ticked;
  }

  -- The wake-up that `explorer_wakeup` set.
  pub explorers_woke :
      Option ExplorerContext → Connector F C A → World → Surroundings C → Outcome (Connector F C A)
  unfolding tick_explorers refilled
  explorers_woke ctx s w around = elim (tick_explorers w around s.explorers) [
    | panics ↦ panics
    | returns ticked ↦ returns (refilled ctx s w around ticked)
  ]
