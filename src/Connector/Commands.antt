-- ===== src/Connector/Commands.antt =====
-- The commands of src/connector/mod.rs, the end of a session, and the calls of the client.
pub mod Upkeep
pub mod Soundness
pub mod Conservation
use rtp_mux.Prelude.{
  ℕ, zero, suc, ◌+◌, ◌≡◌, refl, Bool, true, false, not, ◌&&◌, ◌||◌, Option, none, some, List, [],
  ◌∷◌, ◌++◌, eqb, leb, if◌then◌else◌, Outcome, returns, panics, Result, ok, err, Map, lookup,
  insert, remove, update, keep_if, length, map, nat_eq,
}
use rtp_mux.Shared.{
  SocketAddr, ErrorKind, LaneClass, addr_eq, max_concurrent_dual_dials, max_dial_waiters_per_addr,
}
use rtp_mux.CrossSession.{open_stream}
use rtp_mux.Explorer.{PathExplorer, ExplorerReport, set_active, report, reoptimize_verdict}
use rtp_mux.Explorer.Score.{Floats, MigrationVerdict, wants_migration}
use rtp_mux.Connector.Types.{
  Connector, World, Effect, StreamRequest, RedialInFlight, ExplorerContext, ConnectorCommand,
  RedialTrigger, ConnectedDualLaneBirth,
}
use rtp_mux.Connector.Dialing.{
  start_dial, prune_dead_addresses, waiters_at, answer_failed, dial_ended,
}

abbrev if_test : (ℕ → Bool) → Option ℕ → Option ℕ
if_test test none = none
if_test test (some id) = if test id then some id else none

abbrev pub flatten : {V : Type 0} → Option (Option V) → Option V
flatten none = none
flatten (some o) = o

killed_values : {F : Type 0} → Map SocketAddr ℕ → List (Effect F)
killed_values [] = []
killed_values ((addr, id) ∷ m) = Effect.killed id ∷ killed_values m

-- The draining sessions that still exist are killed.
killed_held : {F : Type 0} → (ℕ → Bool) → Map SocketAddr ℕ → List (Effect F)
killed_held held [] = []
killed_held held ((addr, id) ∷ m) =
    let rest = killed_held held m in if held id then Effect.killed id ∷ rest else rest

pub aborted : {F : Type 0} → Map SocketAddr (List StreamRequest) → List (Effect F)
aborted [] = []
aborted ((addr, waiters) ∷ m) = answer_failed ErrorKind.connection_aborted waiters ++ aborted m

abbrev pub Handled : Type 0 → Type 0 → Type 0 → Type 0
Handled F C A = Outcome (Connector F C A × List (Effect F))

unfoldable pub dialing : {F C A : Type 0} → Outcome (Connector F C A) → Handled F C A
dialing panics = panics
dialing (returns s) = returns (s, [])

module _ {F C A : Type 0} where
  unfoldable pub live_session : Connector F C A → World → SocketAddr → Option ℕ
  live_session s w addr = if_test w.alive (lookup addr s.sessions)

  -- The draining session of an address, while someone holds it.
  pub drainer : Connector F C A → World → SocketAddr → Option ℕ
  drainer s w addr = if_test w.held (lookup addr s.draining)

  -- `RtpMuxConnector::connect_with_lane_and_key` opens a stream, or sends a command.
  pub connect_with_lane_and_key :
      Connector F C A
      → World
      → SocketAddr
      → LaneClass
      → Option ℕ
      → ℕ
      → Result ConnectorCommand (Connector F C A × Effect F)
  unfolding live_session
  connect_with_lane_and_key s w addr lane key response = elim (live_session s w addr) [
    | some id ↦ ok (record s { store = open_stream s.store id }, Effect.opened response lane id)
    | none ↦ err (ConnectorCommand.connect addr lane key response)
  ]

  pub request_redial :
      Connector F C A → World → SocketAddr → RedialTrigger → Option ConnectorCommand
  unfolding drainer
  request_redial s w addr trigger = elim (drainer s w addr) [
    | some _ ↦ none
    | none ↦ some (ConnectorCommand.redial addr trigger)
  ]

  unfoldable pub live_dial_waiters : Connector F C A → World → SocketAddr → Connector F C A × ℕ
  live_dial_waiters s w addr = elim (lookup addr s.dial_waiters) [
    | none ↦ (s, 0)
    | some waiters ↦
        let live = keep_if (λ q. not (w.closed q.response)) waiters in
        (record s { dial_waiters = insert addr live s.dial_waiters }, length live)
  ]

  unfoldable pub queue_request : Connector F C A → SocketAddr → StreamRequest → Connector F C A
  queue_request s addr request = record s {
    dial_waiters = insert addr (waiters_at addr s.dial_waiters ++ request ∷ []) s.dial_waiters;
  }

  pub session_ended : Connector F C A → World → SocketAddr → ℕ → Connector F C A
  session_ended s w addr id = elim (lookup addr s.sessions) [
    | none ↦ prune_dead_addresses s w
    | some current ↦
        if eqb current id
        then prune_dead_addresses
            (record s {
              sessions = remove addr s.sessions;
              explorers = update addr (λ e. set_active e none w.now w.stagger) s.explorers;
            })
            w
        else prune_dead_addresses s w
  ]

  pub reset : Connector F C A → World → Connector F C A × List (Effect F)
  unfolding killed_values killed_held aborted
  reset s w = (
    record s {
      sessions = [];
      draining = [];
      dial_waiters = [];
      in_flight_dials = λ _. false;
      pending_dials = [];
      redials = [];
      groups = [];
      explorers = [];
    },
    killed_values s.sessions
        ++ (killed_held w.held s.draining ++ (aborted s.dial_waiters ++ Effect.completed ∷ [])),
  )

  pub explorer_report : Connector F C A → SocketAddr → ExplorerReport F
  explorer_report s addr = elim (lookup addr s.explorers) [
    | none ↦ record { candidates = []; active = none }
    | some e ↦ report e
  ]

module _ {F C A : Type 0} (floats : Floats F) (ctx : Option ExplorerContext) where
  -- The request waits for the dial of its address, which is started where there is none.
  unfoldable pub enqueue :
      Connector F C A → World → SocketAddr → Option ℕ → StreamRequest → Handled F C A
  unfolding queue_request dialing
  enqueue s w addr key request =
      let queued = queue_request s addr request in
      if s.in_flight_dials addr
      then returns (queued, [])
      else dialing (
          start_dial floats ctx (record queued { addr_keys = insert addr key s.addr_keys }) w addr
            key)

  unfoldable pub admit :
      Connector F C A × ℕ → World → SocketAddr → Option ℕ → StreamRequest → Handled F C A
  unfolding enqueue
  admit (s, live) w addr key request =
      if leb max_dial_waiters_per_addr live
      then returns (s, Effect.failed request.response ErrorKind.would_block ∷ [])
      else if not (s.in_flight_dials addr) && leb max_concurrent_dual_dials (length s.pending_dials)
      then returns (s, Effect.failed request.response ErrorKind.would_block ∷ [])
      else enqueue s w addr key request

  unfoldable pub handle_connect :
      Connector F C A → World → SocketAddr → LaneClass → Option ℕ → ℕ → Handled F C A
  unfolding admit live_dial_waiters live_session
  handle_connect s w addr lane key response = elim (live_session s w addr) [
    | some id ↦
        if w.closed response
        then returns (s, [])
        else returns
            (record s { store = open_stream s.store id }, Effect.opened response lane id ∷ [])
    | none ↦
        admit (live_dial_waiters s w addr) w addr key (record { lane = lane; response = response })
  ]

  pub verdict_at : Option (PathExplorer F C A) → Outcome (MigrationVerdict F)
  verdict_at none = returns MigrationVerdict.active_unmeasured
  verdict_at (some e) = reoptimize_verdict floats e

  -- The current session of the address is dialed anew; `none` is no such session.
  redial_session :
      Connector F C A
      → World
      → SocketAddr
      → RedialTrigger
      → Option (MigrationVerdict F)
      → Option ℕ
      → Handled F C A
  unfolding dialing
  redial_session s w addr trigger verdict none = returns (s, [])
  redial_session s w addr trigger verdict (some old) = dialing (
      start_dial floats ctx
        (record s {
          redials =
              insert addr (record { old = old; trigger = trigger; verdict = verdict }) s.redials;
        })
        w addr (flatten (lookup addr s.addr_keys)))

  triggered : Connector F C A → World → SocketAddr → RedialTrigger → Handled F C A
  unfolding redial_session verdict_at
  triggered s w addr RedialTrigger.forced =
      redial_session s w addr RedialTrigger.forced none (lookup addr s.sessions)
  triggered s w addr RedialTrigger.better_path = elim (verdict_at (lookup addr s.explorers)) [
    | panics ↦ panics
    | returns verdict ↦
        if wants_migration verdict
        then redial_session s w addr RedialTrigger.better_path (some verdict)
            (lookup addr s.sessions)
        else returns (s, [])
  ]

  pub handle_redial : Connector F C A → World → SocketAddr → RedialTrigger → Handled F C A
  unfolding triggered drainer
  handle_redial s w addr trigger = elim (drainer s w addr) [
    | some _ ↦ returns (s, [])
    | none ↦
        if s.in_flight_dials addr
        then returns (s, [])
        else if leb max_concurrent_dual_dials (length s.pending_dials)
        then returns (s, [])
        else triggered s w addr trigger
  ]

  unfoldable pub handle_command : Connector F C A → World → ConnectorCommand → Handled F C A
  unfolding handle_connect handle_redial reset explorer_report
  handle_command s w (ConnectorCommand.connect addr lane key response) =
      handle_connect s w addr lane key response
  handle_command s w (ConnectorCommand.redial addr trigger) = handle_redial s w addr trigger
  handle_command s w (ConnectorCommand.explorer_report addr response) =
      returns (s, Effect.reported response (explorer_report s addr) ∷ [])
  handle_command s w ConnectorCommand.reset = returns (reset s w)
