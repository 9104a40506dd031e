-- ===== src/Connector/Commands/Conservation.antt =====
-- The commands of src/connector/mod.rs lose no request and answer none twice.
use rtp_mux.Prelude.{
  update, ℕ, ◌≡◌, ◌+◌, refl, sym, Bool, false, not, ◌&&◌, Option, none, some, List, [], ◌∷◌, ◌++◌,
  inl, inr, eqb, leb, if◌then◌else◌, lookup, remove, insert, total, arith, Map, returns,
  Option-cases, Bool-cases, Unique, total-append, keep_if, length,
}
use native.Mathlib.Nat.{add-zero}
use rtp_mux.Shared.{
  SocketAddr, ErrorKind, LaneClass, addr_eq, max_concurrent_dual_dials, max_dial_waiters_per_addr,
}
use rtp_mux.Explorer.{set_active}
use rtp_mux.Explorer.Score.{Floats, TotalOrder, MigrationVerdict, wants_migration}
use rtp_mux.Connector.Types.{
  RedialInFlight, Connector, World, Effect, StreamRequest, ExplorerContext, ConnectorCommand,
  RedialTrigger,
}
use rtp_mux.Connector.Dialing.{start_dial, waiters_at, answer_failed}
use rtp_mux.Connector.Dialing.Pruning.{prune_dead_addresses-dial_waiters}
use rtp_mux.Connector.Dialing.Starting.{start_dial-Started}
use rtp_mux.Connector.Dialing.Answering.{
  asks, waits, answers, answers_to, Keeps, answers-answer_failed, waits-remove,
}
use rtp_mux.Connector.Invariant.{IsOrderly}
use rtp_mux.Connector.Commands.Soundness.{verdict_at-returns}
use rtp_mux.Connector.Commands.Upkeep.{live_dial_waiters-Refreshed}
use rtp_mux.Connector.Commands.{
  session_ended, dialing, live_dial_waiters, queue_request, enqueue, admit, handle_connect,
  handle_redial, handle_command, reset, redial_session, triggered, live_session, drainer, aborted,
  killed_values, killed_held, flatten,
}

asks-keep_if :
    (r : ℕ) (w : World) (qs : List StreamRequest)
    → w.closed r ≡ false
    → total (asks r) (keep_if (λ q. not (w.closed q.response)) qs) ≡ total (asks r) qs
unfolding keep_if
asks-keep_if r w [] wanted = refl
asks-keep_if r w (q ∷ qs) wanted = elim (Bool-cases (w.closed q.response)) [
  | inl h ↦ ground (arith, h, wanted, asks-keep_if r w qs wanted)
  | inr h ↦ ground (arith, h, asks-keep_if r w qs wanted)
]

answers-aborted :
    (F : Type 0) (r : ℕ) (m : Map SocketAddr (List StreamRequest))
    → answers r (aborted {F = F} m) ≡ waits r m
unfolding aborted
answers-aborted F r [] = refl
answers-aborted F r ((addr, qs) ∷ m) = omega (
  arith,
  answers-aborted F r m,
  answers-answer_failed F r ErrorKind.connection_aborted qs,
  total-append (answers_to r) (answer_failed {F = F} ErrorKind.connection_aborted qs) (aborted m),
)

answers-killed_values :
    (F : Type 0) (r : ℕ) (m : Map SocketAddr ℕ) → answers r (killed_values {F = F} m) ≡ 0
unfolding killed_values
answers-killed_values F r [] = refl
answers-killed_values F r ((addr, id) ∷ m) = omega (arith, answers-killed_values F r m)

answers-killed_held :
    (F : Type 0) (r : ℕ) (held : ℕ → Bool) (m : Map SocketAddr ℕ)
    → answers r (killed_held {F = F} held m) ≡ 0
unfolding killed_held
answers-killed_held F r held [] = refl
answers-killed_held F r held ((addr, id) ∷ m) = ground (arith, answers-killed_held F r held m)

-- How often a command asks for a stream on a response channel.
abbrev pub asked : ℕ → ConnectorCommand → ℕ
asked r (ConnectorCommand.connect addr lane key response) = if eqb response r then 1 else 0
asked r (ConnectorCommand.redial addr trigger) = 0
asked r (ConnectorCommand.explorer_report addr response) = 0
asked r ConnectorCommand.reset = 0

waits-insert :
    (r : ℕ) (addr : SocketAddr) (qs : List StreamRequest) (m : Map SocketAddr (List StreamRequest))
    → Unique m
    → waits r (insert addr qs m) + total (asks r) (waiters_at addr m)
      ≡ waits r m + total (asks r) qs
unfolding insert
waits-insert r addr qs m u = omega (arith, waits-remove r addr m u)

module _ {F C A : Type 0} where
  reset-Keeps :
      (s : Connector F C A) (w : World) (r : ℕ)
      → Keeps r (waits r s.dial_waiters) (returns (reset s w))
  unfolding reset
  reset-Keeps s w r = omega (
    arith,
    answers-aborted F r s.dial_waiters,
    answers-killed_values F r s.sessions,
    answers-killed_held F r w.held s.draining,
    total-append (answers_to r) (killed_values {F = F} s.sessions)
        (killed_held w.held s.draining ++ (aborted s.dial_waiters ++ Effect.completed ∷ [])),
    total-append (answers_to r) (killed_held {F = F} w.held s.draining)
        (aborted s.dial_waiters ++ Effect.completed ∷ []),
    total-append (answers_to r) (aborted {F = F} s.dial_waiters) (Effect.completed ∷ []),
  )

  live_dial_waiters-waits :
      (s : Connector F C A) (w : World) (addr : SocketAddr) (r : ℕ)
      → w.closed r ≡ false
      → Unique s.dial_waiters
      → waits r (live_dial_waiters s w addr).0.dial_waiters ≡ waits r s.dial_waiters
  unfolding live_dial_waiters
  live_dial_waiters-waits s w addr r wanted u = elim (Option-cases (lookup addr s.dial_waiters)) [
    | inl e ↦ rw (e, live_dial_waiters) refl
    | inr (qs, e) ↦
        let live = keep_if (λ q. not (w.closed q.response)) qs in
        rw (e, live_dial_waiters)
          (ground (arith, e, waits-insert r addr live s.dial_waiters u, asks-keep_if r w qs wanted))
  ]

  queue_request-waits :
      (s : Connector F C A) (addr : SocketAddr) (q : StreamRequest) (r : ℕ)
      → Unique s.dial_waiters
      → waits r (queue_request s addr q).dial_waiters ≡ waits r s.dial_waiters + asks r q
  unfolding queue_request
  queue_request-waits s addr q r u = omega (
    arith,
    waits-insert r addr (waiters_at addr s.dial_waiters ++ q ∷ []) s.dial_waiters u,
    total-append (asks r) (waiters_at addr s.dial_waiters) (q ∷ []),
  )

  pub session_ended-dial_waiters :
      (s : Connector F C A) (w : World) (addr : SocketAddr) (id : ℕ)
      → (session_ended s w addr id).dial_waiters ≡ s.dial_waiters
  unfolding session_ended
  session_ended-dial_waiters s w addr id = elim (Option-cases (lookup addr s.sessions)) [
    | inl e ↦ rw (e, session_ended) (prune_dead_addresses-dial_waiters s w)
    | inr (current, e) ↦ elim (Bool-cases (eqb current id)) [
      | inr h ↦ rw (e, session_ended, h) (prune_dead_addresses-dial_waiters s w)
      | inl h ↦
          let explorers = update addr (λ e. set_active e none w.now w.stagger) s.explorers in
          rw (e, session_ended, h)
            (prune_dead_addresses-dial_waiters
              (record s { sessions = remove addr s.sessions; explorers = explorers }) w)
    ]
  ]

module _ {F C A : Type 0} (floats : Floats F) (order : TotalOrder floats)
    (ctx : Option ExplorerContext) where
  dialing-Keeps :
      (s : Connector F C A) (w : World) (addr : SocketAddr) (key : Option ℕ) (r : ℕ)
      → Keeps r (waits r s.dial_waiters) (dialing (start_dial floats ctx s w addr key))
  unfolding dialing
  dialing-Keeps s w addr key r =
      let (t, e, v) = start_dial-Started floats order ctx s w addr key in
      rw (e, dialing) (ground (arith, v.dial_waiters))

  enqueue-Keeps :
      (s : Connector F C A) (w : World) (addr : SocketAddr) (key : Option ℕ) (q : StreamRequest)
      (r : ℕ)
      → Unique s.dial_waiters
      → Keeps r (waits r s.dial_waiters + asks r q) (enqueue floats ctx s w addr key q)
  unfolding enqueue
  enqueue-Keeps s w addr key q r u =
      let queued = queue_request s addr q in
      elim (Bool-cases (s.in_flight_dials addr)) [
        | inl h ↦ rw (h, enqueue) (omega (arith, queue_request-waits s addr q r u))
        | inr h ↦
            rw (h, enqueue, sym (queue_request-waits s addr q r u))
              (dialing-Keeps (record queued { addr_keys = insert addr key s.addr_keys }) w addr key
                r)
      ]

  admit-Keeps :
      (x : Connector F C A × ℕ) (w : World) (addr : SocketAddr) (key : Option ℕ) (q : StreamRequest)
      (r : ℕ)
      → Unique x.0.dial_waiters
      → Keeps r (waits r x.0.dial_waiters + asks r q) (admit floats ctx x w addr key q)
  unfolding admit
  admit-Keeps (t, live) w addr key q r u = elim (Bool-cases (leb max_dial_waiters_per_addr live)) [
    | inl h ↦ rw (h, admit) (omega arith)
    | inr h ↦
        elim (Bool-cases (
          not (t.in_flight_dials addr) && leb max_concurrent_dual_dials (length t.pending_dials))) [
            | inl i ↦ rw (h, admit, i) (omega arith)
            | inr i ↦ rw (h, admit, i) (enqueue-Keeps t w addr key q r u)
          ]
  ]

  handle_connect-Keeps :
      (s : Connector F C A) (w : World) (addr : SocketAddr) (lane : LaneClass) (key : Option ℕ)
      (response r : ℕ)
      → w.closed r ≡ false
      → IsOrderly s
      → Keeps r
          (waits r s.dial_waiters + asked r (ConnectorCommand.connect addr lane key response))
          (handle_connect floats ctx s w addr lane key response)
  unfolding handle_connect
  handle_connect-Keeps s w addr lane key response r wanted v =
      elim (Option-cases (live_session s w addr)) [
        | inl e ↦
            rw (e, handle_connect, sym (live_dial_waiters-waits s w addr r wanted v.unique))
              (admit-Keeps (live_dial_waiters s w addr) w addr key
                (record { lane = lane; response = response }) r
                (live_dial_waiters-Refreshed s w addr v).sound.unique)
        | inr (id, e) ↦ elim (Bool-cases (w.closed response)) [
          | inl h ↦ rw (e, handle_connect, h) (ground (arith, h, wanted))
          | inr h ↦ rw (e, handle_connect, h) (omega arith)
        ]
      ]

  redial_session-Keeps :
      (s : Connector F C A) (w : World) (addr : SocketAddr) (trigger : RedialTrigger)
      (verdict : Option (MigrationVerdict F)) (old : Option ℕ) (r : ℕ)
      → Keeps r (waits r s.dial_waiters) (redial_session floats ctx s w addr trigger verdict old)
  unfolding redial_session
  redial_session-Keeps s w addr trigger verdict none r = omega arith
  redial_session-Keeps s w addr trigger verdict (some old) r =
      let x : RedialInFlight F = record { old = old; trigger = trigger; verdict = verdict } in
      dialing-Keeps (record s { redials = insert addr x s.redials }) w addr
        (flatten (lookup addr s.addr_keys)) r

  triggered-Keeps :
      (s : Connector F C A) (w : World) (addr : SocketAddr) (trigger : RedialTrigger) (r : ℕ)
      → Keeps r (waits r s.dial_waiters) (triggered floats ctx s w addr trigger)
  unfolding triggered
  triggered-Keeps s w addr RedialTrigger.forced r =
      redial_session-Keeps s w addr RedialTrigger.forced none (lookup addr s.sessions) r
  triggered-Keeps s w addr RedialTrigger.better_path r =
      let (verdict, e) = verdict_at-returns floats order ctx (lookup addr s.explorers) in
      elim (Bool-cases (wants_migration verdict)) [
        | inl h ↦
            rw (e, triggered, h)
              (redial_session-Keeps s w addr RedialTrigger.better_path (some verdict)
                (lookup addr s.sessions) r)
        | inr h ↦ rw (e, triggered, h) (omega arith)
      ]

  handle_redial-Keeps :
      (s : Connector F C A) (w : World) (addr : SocketAddr) (trigger : RedialTrigger) (r : ℕ)
      → Keeps r (waits r s.dial_waiters) (handle_redial floats ctx s w addr trigger)
  unfolding handle_redial
  handle_redial-Keeps s w addr trigger r = elim (Option-cases (drainer s w addr)) [
    | inr (d, e) ↦ rw (e, handle_redial) (omega arith)
    | inl e ↦ elim (Bool-cases (s.in_flight_dials addr)) [
      | inl h ↦ rw (e, handle_redial, h) (omega arith)
      | inr h ↦ elim (Bool-cases (leb max_concurrent_dual_dials (length s.pending_dials))) [
        | inl i ↦ rw (e, handle_redial, h, i) (omega arith)
        | inr i ↦ rw (e, handle_redial, h, i) (triggered-Keeps s w addr trigger r)
      ]
    ]
  ]

  pub handle_command-Keeps :
      (s : Connector F C A) (w : World) (command : ConnectorCommand) (r : ℕ)
      → w.closed r ≡ false
      → IsOrderly s
      → Keeps r (waits r s.dial_waiters + asked r command) (handle_command floats ctx s w command)
  unfolding handle_command
  handle_command-Keeps s w (ConnectorCommand.connect addr lane key response) r wanted v =
      handle_connect-Keeps s w addr lane key response r wanted v
  handle_command-Keeps s w (ConnectorCommand.redial addr trigger) r wanted v =
      rw (add-zero (waits r s.dial_waiters)) (handle_redial-Keeps s w addr trigger r)
  handle_command-Keeps s w (ConnectorCommand.explorer_report addr response) r wanted v = omega arith
  handle_command-Keeps s w ConnectorCommand.reset r wanted v = omega (arith, reset-Keeps s w r)
