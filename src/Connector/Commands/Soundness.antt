-- ===== src/Connector/Commands/Soundness.antt =====
-- The commands of src/connector/mod.rs do not panic and keep the loop's maps in order.
use rtp_mux.Prelude.{
  ℕ, ◌≡◌, ◌≤◌, ◌<◌, refl, false, not, ◌&&◌, Option, none, some, [], ◌∷◌, ◌++◌, inl, inr, leb,
  lookup, insert, length, arith, returns, Option-cases, Bool-cases, lookup-insert, insert-Unique,
  length-append,
}
use rtp_mux.Shared.{
  SocketAddr, ErrorKind, LaneClass, addr_eq, max_concurrent_dual_dials, max_dial_waiters_per_addr,
}
use rtp_mux.CrossSession.{open_stream}
use rtp_mux.Explorer.{PathExplorer}
use rtp_mux.Explorer.Score.{Floats, TotalOrder, MigrationVerdict, wants_migration}
use rtp_mux.Explorer.Verdict.{reoptimize_verdict-returns}
use rtp_mux.Connector.Types.{
  Connector, World, Effect, StreamRequest, RedialInFlight, ExplorerContext, ConnectorCommand,
  RedialTrigger,
}
use rtp_mux.Connector.Dialing.{start_dial, waiters_at}
use rtp_mux.Connector.Dialing.Starting.{Started, start_dial-Started, Started-IsOrderly}
use rtp_mux.Connector.Commands.{
  flatten, dialing, live_dial_waiters, queue_request, enqueue, admit, handle_connect, handle_redial,
  handle_command, reset, redial_session, triggered, verdict_at, live_session, drainer,
}
use rtp_mux.Connector.Invariant.{IsOrderly}
use rtp_mux.Connector.Commands.Upkeep.{
  EndsOrderly, Refreshed, with_waiters-IsOrderly, live_dial_waiters-Refreshed, reset-IsOrderly,
}

module _ {F C A : Type 0} (floats : Floats F) (order : TotalOrder floats)
    (ctx : Option ExplorerContext) where
  dialing-EndsOrderly :
      (s : Connector F C A) (w : World) (addr : SocketAddr) (key : Option ℕ)
      → ((t : Connector F C A) → Started s addr t → IsOrderly t)
      → EndsOrderly (dialing (start_dial floats ctx s w addr key))
  unfolding dialing
  dialing-EndsOrderly s w addr key v =
      let (t, e, u) = start_dial-Started floats order ctx s w addr key in
      ((t, []), rw (e, dialing) refl, v t u)

  enqueue-EndsOrderly :
      (s : Connector F C A) (w : World) (addr : SocketAddr) (key : Option ℕ) (q : StreamRequest)
      → IsOrderly s
      → length (waiters_at addr s.dial_waiters) < max_dial_waiters_per_addr
      → (s.in_flight_dials addr ≡ false → length s.pending_dials < max_concurrent_dual_dials)
      → EndsOrderly (enqueue floats ctx s w addr key q)
  unfolding enqueue queue_request
  enqueue-EndsOrderly s w addr key q v few room =
      let waiters = waiters_at addr s.dial_waiters ++ q ∷ [] in
      let few' : length waiters ≤ max_dial_waiters_per_addr =
        omega (arith, few, length-append (waiters_at addr s.dial_waiters) (q ∷ [])) in
      elim (Bool-cases (s.in_flight_dials addr)) [
        | inl h ↦ (
          (queue_request s addr q, []),
          rw (h, enqueue) refl,
          with_waiters-IsOrderly s addr waiters few' h v,
        )
        | inr h ↦
            rw (h, enqueue)
              (dialing-EndsOrderly
                (record (queue_request s addr q) { addr_keys = insert addr key s.addr_keys }) w addr
                key
                (λ t u.
                  Started-IsOrderly
                    (record (queue_request s addr q) { addr_keys = insert addr key s.addr_keys }) t
                    addr v.once v.grouped
                    (λ a i n.
                      ground (arith, v.waiting a i, n, lookup-insert addr a waiters s.dial_waiters))
                    (λ a i n. v.redialing a i) (room h)
                    (λ a.
                      ground
                        (arith, v.few_waiters a, few', lookup-insert addr a waiters s.dial_waiters))
                    (insert-Unique addr waiters s.dial_waiters v.unique) h u))
      ]

  admit-EndsOrderly :
      (r : Connector F C A × ℕ) (s : Connector F C A) (w : World) (addr : SocketAddr)
      (key : Option ℕ) (q : StreamRequest)
      → Refreshed s addr r
      → EndsOrderly (admit floats ctx r w addr key q)
  unfolding admit
  admit-EndsOrderly (t, live) s w addr key q v =
      elim (Bool-cases (leb max_dial_waiters_per_addr live)) [
        | inl h ↦
            ((t, Effect.failed q.response ErrorKind.would_block ∷ []), rw (h, admit) refl, v.sound)
        | inr h ↦
            elim (Bool-cases (
              not (t.in_flight_dials addr)
              && leb max_concurrent_dual_dials (length t.pending_dials))) [
                | inl i ↦ (
                  (t, Effect.failed q.response ErrorKind.would_block ∷ []),
                  rw (h, admit, i) refl,
                  v.sound,
                )
                | inr i ↦
                    rw (h, admit, i)
                      (enqueue-EndsOrderly t w addr key q v.sound (ground (arith, h, v.counted))
                        (λ j. ground (arith, i, j)))
              ]
      ]

  handle_connect-EndsOrderly :
      (s : Connector F C A) (w : World) (addr : SocketAddr) (lane : LaneClass) (key : Option ℕ)
      (response : ℕ)
      → IsOrderly s
      → EndsOrderly (handle_connect floats ctx s w addr lane key response)
  unfolding handle_connect
  handle_connect-EndsOrderly s w addr lane key response v =
      elim (Option-cases (live_session s w addr)) [
        | inl e ↦
            rw (e, handle_connect)
              (admit-EndsOrderly (live_dial_waiters s w addr) s w addr key
                (record { lane = lane; response = response })
                (live_dial_waiters-Refreshed s w addr v))
        | inr (id, e) ↦ elim (Bool-cases (w.closed response)) [
          | inl h ↦ ((s, []), rw (e, handle_connect, h) refl, v)
          | inr h ↦ (
            (record s { store = open_stream s.store id }, Effect.opened response lane id ∷ []),
            rw (e, handle_connect, h) refl,
            record {
              once = v.once;
              grouped = v.grouped;
              waiting = v.waiting;
              redialing = v.redialing;
              few_dials = v.few_dials;
              few_waiters = v.few_waiters;
              unique = v.unique;
            },
          )
        ]
      ]

  redial_session-EndsOrderly :
      (s : Connector F C A) (w : World) (addr : SocketAddr) (trigger : RedialTrigger)
      (verdict : Option (MigrationVerdict F)) (old : Option ℕ)
      → IsOrderly s
      → s.in_flight_dials addr ≡ false
      → length s.pending_dials < max_concurrent_dual_dials
      → EndsOrderly (redial_session floats ctx s w addr trigger verdict old)
  unfolding redial_session
  redial_session-EndsOrderly s w addr trigger verdict none v idle room = ((s, []), refl, v)
  redial_session-EndsOrderly s w addr trigger verdict (some old) v idle room =
      let r : RedialInFlight F = record { old = old; trigger = trigger; verdict = verdict } in
      let t = record s { redials = insert addr r s.redials } in
      dialing-EndsOrderly t w addr (flatten (lookup addr s.addr_keys)) (λ u started.
        Started-IsOrderly t u addr v.once v.grouped (λ a i n. v.waiting a i)
          (λ a i n. ground (arith, v.redialing a i, n, lookup-insert addr a r s.redials)) room
          v.few_waiters v.unique idle started)

  pub verdict_at-returns :
      (o : Option (PathExplorer F C A))
      → (r : MigrationVerdict F) × (verdict_at floats ctx o ≡ returns r)
  unfolding verdict_at
  verdict_at-returns none = (MigrationVerdict.active_unmeasured, refl)
  verdict_at-returns (some e) = reoptimize_verdict-returns floats order e

  triggered-EndsOrderly :
      (s : Connector F C A) (w : World) (addr : SocketAddr) (trigger : RedialTrigger)
      → IsOrderly s
      → s.in_flight_dials addr ≡ false
      → length s.pending_dials < max_concurrent_dual_dials
      → EndsOrderly (triggered floats ctx s w addr trigger)
  unfolding triggered
  triggered-EndsOrderly s w addr RedialTrigger.forced v idle room =
      redial_session-EndsOrderly s w addr RedialTrigger.forced none (lookup addr s.sessions) v idle
        room
  triggered-EndsOrderly s w addr RedialTrigger.better_path v idle room =
      let (verdict, e) = verdict_at-returns (lookup addr s.explorers) in
      elim (Bool-cases (wants_migration verdict)) [
        | inl h ↦
            rw (e, triggered, h)
              (redial_session-EndsOrderly s w addr RedialTrigger.better_path (some verdict)
                (lookup addr s.sessions) v idle room)
        | inr h ↦ ((s, []), rw (e, triggered, h) refl, v)
      ]

  handle_redial-EndsOrderly :
      (s : Connector F C A) (w : World) (addr : SocketAddr) (trigger : RedialTrigger)
      → IsOrderly s
      → EndsOrderly (handle_redial floats ctx s w addr trigger)
  unfolding handle_redial
  handle_redial-EndsOrderly s w addr trigger v = elim (Option-cases (drainer s w addr)) [
    | inr (d, e) ↦ ((s, []), rw (e, handle_redial) refl, v)
    | inl e ↦ elim (Bool-cases (s.in_flight_dials addr)) [
      | inl h ↦ ((s, []), rw (e, handle_redial, h) refl, v)
      | inr h ↦ elim (Bool-cases (leb max_concurrent_dual_dials (length s.pending_dials))) [
        | inl i ↦ ((s, []), rw (e, handle_redial, h, i) refl, v)
        | inr i ↦
            rw (e, handle_redial, h, i)
              (triggered-EndsOrderly s w addr trigger v h (ground (arith, i)))
      ]
    ]
  ]

  pub handle_command-EndsOrderly :
      (s : Connector F C A) (w : World) (command : ConnectorCommand)
      → IsOrderly s
      → EndsOrderly (handle_command floats ctx s w command)
  unfolding handle_command
  handle_command-EndsOrderly s w (ConnectorCommand.connect addr lane key response) v =
      handle_connect-EndsOrderly s w addr lane key response v
  handle_command-EndsOrderly s w (ConnectorCommand.redial addr trigger) v =
      handle_redial-EndsOrderly s w addr trigger v
  handle_command-EndsOrderly s w (ConnectorCommand.explorer_report addr response) v =
      ((s, _), refl, v)
  handle_command-EndsOrderly s w ConnectorCommand.reset v = (reset s w, refl, reset-IsOrderly s w)
