-- ===== src/Explorer.antt =====
-- src/explorer/mod.rs, PathExplorer: the candidate sockets that probe paths to one address, and the
-- path of the current session. `C` and `A` name a candidate's and the session's probe channel.
pub mod Score
pub mod Selection
pub mod Choice
pub mod Rotation
pub mod Verdict
pub mod Upkeep
pub mod Percent
mod Examples
use rtp_mux.Prelude.{
  ℕ, zero, suc, ◌+◌, ◌-◌, Bool, true, false, not, ◌&&◌, Option, none, some, List, [], ◌∷◌, ltb, leb,
  min, if◌then◌else◌, length, map, ◌++◌, Outcome, returns, panics,
}
use rtp_mux.Shared.{SocketAddr}
use rtp_mux.TupleStats as Stats
use rtp_mux.TupleStats.{TupleStats, PathScore, TupleReport, ProbeEcho, Averages, score, dead}
use rtp_mux.Explorer.Selection.{swap_remove, element_at, numbered, select}
use rtp_mux.Explorer.Score.{Floats, MigrationVerdict, cost, beats_by_margin}

pub record ExplorerConfig : Type 0 where
  pub candidates : ℕ
  pub probe_mean_interval : ℕ
  pub rotation_period : ℕ

pub record Candidate (F C : Type 0) : Type 0 where
  pub io : C
  pub local_addr : SocketAddr
  pub stats : TupleStats F

pub record PathExplorer (F C A : Type 0) : Type 0 where
  pub config : ExplorerConfig
  pub candidates : List (Candidate F C)
  pub active : Option (Candidate F A)
  pub next_rotation_at : ℕ
  pub refill_after : ℕ
  pub epoch : ℕ

pub record ExplorerReport (F : Type 0) : Type 0 where
  pub candidates : List (TupleReport F)
  pub active : Option (TupleReport F)

-- What a tick finds at one channel: the nonces of the echoes, whether a send succeeds, the new nonce
-- and the raw interval.
pub record Probe : Type 0 where
  pub echoes : List ℕ
  pub sends : Bool
  pub nonce : ℕ
  pub raw : ℕ → ℕ

abbrev earlier : Option ℕ → ℕ → ℕ
earlier none t = t
earlier (some u) t = min u t

module _ {F C : Type 0} where
  started : ℕ → ℕ → Option (C × SocketAddr) → Option (Candidate F C)
  started now stagger none = none
  started now stagger (some (io, local_addr)) =
      some (record { io = io; local_addr = local_addr; stats = Stats.new now stagger })

  candidates_wakeup : List (Candidate F C) → ℕ → Option ℕ
  candidates_wakeup [] now = none
  candidates_wakeup (c ∷ cs) now =
      some (earlier (candidates_wakeup cs now) (Stats.next_wakeup c.stats now))

  active_wakeup : Option (Candidate F C) → ℕ → Option ℕ
  active_wakeup none now = none
  active_wakeup (some c) now = some (Stats.next_wakeup c.stats now)

  reported : Option (Candidate F C) → Option (TupleReport F)
  reported none = none
  reported (some c) = some (Stats.report c.stats c.local_addr)

module _ {F C A : Type 0} where
  pub new : ExplorerConfig → ℕ → PathExplorer F C A
  new config now = record {
    config = config;
    candidates = [];
    active = none;
    next_rotation_at = now + config.rotation_period;
    refill_after = now;
    epoch = now;
  }

  -- `saturating_sub`
  pub deficit : PathExplorer F C A → ℕ
  deficit e = e.config.candidates - length e.candidates

  pub wants_refill : PathExplorer F C A → ℕ → Bool
  unfolding deficit
  wants_refill e now = ltb 0 (deficit e) && leb e.refill_after now

  pub defer_refill : PathExplorer F C A → ℕ → PathExplorer F C A
  defer_refill e until = record e { refill_after = until }

  -- `stagger` is the random delay of the first probe.
  pub add_candidate : PathExplorer F C A → C → SocketAddr → ℕ → ℕ → PathExplorer F C A
  add_candidate e io local_addr now stagger = record e {
    candidates =
        e.candidates
        ++ record { io = io; local_addr = local_addr; stats = Stats.new now stagger } ∷ [];
  }

  pub set_active : PathExplorer F C A → Option (A × SocketAddr) → ℕ → ℕ → PathExplorer F C A
  unfolding started
  set_active e active now stagger = record e { active = started now stagger active }

  pub next_wakeup : PathExplorer F C A → ℕ → ℕ
  unfolding candidates_wakeup active_wakeup deficit
  next_wakeup e now = earlier (candidates_wakeup e.candidates now) (
      earlier (active_wakeup e.active now)
        (earlier (if ltb 0 (deficit e) then some e.refill_after else none) e.next_rotation_at))

  pub report : PathExplorer F C A → ExplorerReport F
  unfolding reported
  report e = record {
    candidates = map (λ c. Stats.report c.stats c.local_addr) e.candidates;
    active = reported e.active;
  }

module _ {F : Type 0} (floats : Floats F) where
  -- The score, where `score` returns one.
  pub measured : TupleStats F → Option (PathScore F)
  measured s = elim (score floats.averages s) [ returns o ↦ o | panics ↦ none ]

  pub live_cost : {C : Type 0} → Candidate F C → Option F
  unfolding measured
  live_cost c = elim (measured c.stats) [ none ↦ none | some s ↦ some (cost floats s) ]

  pub eviction_cost : {C : Type 0} → Candidate F C → Option F
  unfolding live_cost
  eviction_cost c = if dead c.stats then some floats.infinity else live_cost c

  compare_paths : PathScore F → Option (PathScore F) → MigrationVerdict F
  compare_paths active none = MigrationVerdict.no_live_candidate active
  compare_paths active (some best) = elim (beats_by_margin floats best active) [
    | some rule ↦ MigrationVerdict.migrate rule active best
    | none ↦ MigrationVerdict.within_margin active best
  ]

module _ {F C : Type 0} (floats : Floats F) where
  tick_channel : ExplorerConfig → ℕ → ℕ → Candidate F C → Probe → Candidate F C × Option ProbeEcho
  tick_channel config epoch now c p =
      let (stats, sent) =
        Stats.tick floats.averages c.stats p.echoes p.sends p.nonce p.raw now
          config.probe_mean_interval epoch in
      (record c { stats = stats }, sent)

  -- The probes by the candidates' positions; the result has the probe that each one sends.
  tick_candidates :
      ExplorerConfig
      → ℕ
      → ℕ
      → ℕ
      → (ℕ → Probe)
      → List (Candidate F C)
      → List (Candidate F C × Option ProbeEcho)
  unfolding tick_channel
  tick_candidates config epoch now i probes [] = []
  tick_candidates config epoch now i probes (c ∷ cs) =
      tick_channel config epoch now c (probes i)
      ∷ tick_candidates config epoch now (i + 1) probes cs

  tick_active :
      ExplorerConfig
      → ℕ
      → ℕ
      → Option (Candidate F C)
      → Probe
      → Option (Candidate F C × Option ProbeEcho)
  unfolding tick_channel
  tick_active config epoch now none p = none
  tick_active config epoch now (some c) p = some (tick_channel config epoch now c p)

  score_at : Option (Candidate F C) → Outcome (Option (PathScore F))
  score_at none = panics
  score_at (some c) = score floats.averages c.stats

  pub active_score : Option (Candidate F C) → Outcome (Option (PathScore F))
  active_score none = returns none
  active_score (some c) = score floats.averages c.stats

module _ {F C A : Type 0} (floats : Floats F) where
  evict_at : PathExplorer F C A → Option ℕ → Outcome (PathExplorer F C A)
  evict_at e none = returns e
  evict_at e (some i) = elim (swap_remove i e.candidates) [
    | none ↦ panics
    | some (c, rest) ↦ returns (record e { candidates = rest })
  ]

  -- `max_by` takes the last of the largest.
  pub evict_worst : PathExplorer F C A → Outcome (PathExplorer F C A)
  unfolding deficit evict_at eviction_cost
  evict_worst e =
      if ltb 0 (deficit e)
      then returns e
      else evict_at e (
          select (λ a b. not (floats.total_le a b))
            (numbered (eviction_cost floats) 0 e.candidates))

  -- Every channel is ticked.
  pub tick_all :
      PathExplorer F C A → ℕ → (ℕ → Probe) → Probe → PathExplorer F C A × List (Option ProbeEcho)
  unfolding tick_candidates tick_active
  tick_all e now probes active_probe =
      let ticked = tick_candidates floats e.config e.epoch now 0 probes e.candidates in
      let active = tick_active floats e.config e.epoch now e.active active_probe in
      (
        record e {
          candidates = map (λ t. t.0) ticked;
          active = elim active [ none ↦ none | some t ↦ some t.0 ];
        },
        map (λ t. t.1) ticked ++ elim active [ none ↦ [] | some t ↦ t.1 ∷ [] ],
      )

  pub tick :
      PathExplorer F C A
      → ℕ
      → (ℕ → Probe)
      → Probe
      → Outcome (PathExplorer F C A × List (Option ProbeEcho))
  unfolding tick_all evict_worst
  tick e now probes active_probe =
      let (ticked, sent) = tick_all e now probes active_probe in
      let rotated = record ticked { next_rotation_at = now + e.config.rotation_period } in
      if leb e.next_rotation_at now
      then elim (evict_worst rotated) [ returns left ↦ returns (left, sent) | panics ↦ panics ]
      else returns (ticked, sent)

  -- `min_by` takes the first of the smallest.
  pub best_index : PathExplorer F C A → Option ℕ
  unfolding live_cost
  best_index e = select floats.total_le (numbered (live_cost floats) 0 e.candidates)

  pub best_score : PathExplorer F C A → Outcome (Option (PathScore F))
  unfolding best_index score_at
  best_score e = elim (best_index e) [
    | none ↦ returns none
    | some i ↦ score_at floats (element_at i e.candidates)
  ]

  -- `None` of the score is the `expect`.
  popped :
      PathExplorer F C A
      → Option (Candidate F C × List (Candidate F C))
      → Outcome (Option (C × SocketAddr × PathScore F) × PathExplorer F C A)
  popped e none = panics
  popped e (some (c, rest)) = elim (score floats.averages c.stats) [
    | panics ↦ panics
    | returns none ↦ panics
    | returns (some s) ↦ returns (some (c.io, c.local_addr, s), record e { candidates = rest })
  ]

  pub pop_best :
      PathExplorer F C A → Outcome (Option (C × SocketAddr × PathScore F) × PathExplorer F C A)
  unfolding best_index popped
  pop_best e = elim (best_index e) [
    | none ↦ returns (none, e)
    | some i ↦ popped e (swap_remove i e.candidates)
  ]

  pub reoptimize_verdict : PathExplorer F C A → Outcome (MigrationVerdict F)
  unfolding compare_paths active_score best_score
  reoptimize_verdict e = elim (active_score floats e.active) [
    | panics ↦ panics
    | returns none ↦ returns MigrationVerdict.active_unmeasured
    | returns (some active) ↦ elim (best_score e) [
      | panics ↦ panics
      | returns best ↦ returns (compare_paths floats active best)
    ]
  ]
