-- ===== src/Connector/System.antt =====
-- The loop of src/connector/mod.rs over any sequence of events: a pending dial ends, the task of a
-- session or of a router is joined, the explorers wake, or a command comes in. What the loop finds around it may change before every event.
use rtp_mux.Prelude.{
  returns-injective, ℕ, ◌≡◌, ◌<◌, ◌+◌, refl, sym, ◌∙◌, subst, Bool, true, false, Option, List, [],
  returns, panics, inl, inr, Bool-cases, Result, arith, lookup,
}
use native.Mathlib.Nat.{add-zero}
use rtp_mux.Shared.{SocketAddr, ErrorKind, addr_eq}
use rtp_mux.TaskScope.{Joined, completed, cancelled, panicked}
use rtp_mux.CrossSession.{fresh_session}
use rtp_mux.Explorer.Score.{Floats, TotalOrder}
use rtp_mux.Connector.Types.{
  Connector, World, Effect, ExplorerContext, ConnectorCommand, ConnectedDualLaneBirth,
}
use rtp_mux.Connector.Invariant.{IsOrderly, dials}
use rtp_mux.Connector.Dialing.{dial_ended}
use rtp_mux.Connector.Dialing.Ending.{dial_ended-IsOrderly}
use rtp_mux.Connector.Dialing.Answering.{waits, answers, Keeps, dial_ended-Keeps}
use rtp_mux.Connector.Waking.{Surroundings, explorers_woke}
use rtp_mux.Connector.Waking.Refilled.{explorers_woke-returns}
use rtp_mux.Connector.Commands.{dialing, Handled, handle_command, session_ended}
use rtp_mux.Connector.Commands.Soundness.{handle_command-EndsOrderly}
use rtp_mux.Connector.Commands.Upkeep.{EndsOrderly, session_ended-IsOrderly}
use rtp_mux.Connector.Commands.Conservation.{
  session_ended-dial_waiters, asked, handle_command-Keeps,
}

pub data Event (C A : Type 0) : Type 0 where
  dial : SocketAddr → Result ErrorKind (ConnectedDualLaneBirth A) → Event C A
  session : Joined (SocketAddr × ℕ) → Event C A
  router : Joined (Unit {0}) → Event C A
  wake : Surroundings C → Event C A
  command : ConnectorCommand → Event C A

unfoldable pub start : {F C A : Type 0} → Connector F C A
start = record {
  store = record { sessions = λ _. fresh_session; streams = [] };
  sessions = [];
  draining = [];
  pending_dials = [];
  in_flight_dials = λ _. false;
  dial_waiters = [];
  groups = [];
  redials = [];
  explorers = [];
  addr_keys = [];
}

-- A dial that ends is one of the pending ones.
abbrev pub IsPossible : {F C A : Type 0} → Connector F C A → Event C A → Type 0
IsPossible s (Event.dial addr result) = 0 < dials addr s.pending_dials
IsPossible s (Event.session task) = Unit
IsPossible s (Event.router task) = Unit
IsPossible s (Event.wake around) = Unit
IsPossible s (Event.command c) = Unit

-- How often an event asks for a stream on a response channel.
abbrev pub requests : {C A : Type 0} → ℕ → Event C A → ℕ
requests r (Event.dial addr result) = 0
requests r (Event.session task) = 0
requests r (Event.router task) = 0
requests r (Event.wake around) = 0
requests r (Event.command c) = asked r c

-- Whether an event joins a task that did not complete.
abbrev pub joins_failed : {C A : Type 0} → Event C A → Bool
joins_failed (Event.session (completed _)) = false
joins_failed (Event.session _) = true
joins_failed (Event.router (completed _)) = false
joins_failed (Event.router _) = true
joins_failed _ = false

-- The arm of `supervisors.join_next`, which unwraps what the task of the session is joined as.
unfoldable pub session_joined :
    {F C A : Type 0} → Connector F C A → World → Joined (SocketAddr × ℕ) → Handled F C A
session_joined s w (completed (addr, id)) = returns (session_ended s w addr id, [])
session_joined s w _ = panics

-- The arm of `router_driver.join_next`.
unfoldable pub router_joined :
    {F C A : Type 0} → Connector F C A → Joined (Unit {0}) → Handled F C A
router_joined s (completed _) = returns (s, [])
router_joined s _ = panics

module _ {F C A : Type 0} (floats : Floats F) (ctx : Option ExplorerContext) where
  unfoldable pub handle : Connector F C A → World → Event C A → Handled F C A
  handle s w (Event.dial addr result) = dial_ended s w addr result
  handle s w (Event.session task) = session_joined s w task
  handle s w (Event.router task) = router_joined s task
  handle s w (Event.wake around) = dialing (explorers_woke floats ctx s w around)
  handle s w (Event.command c) = handle_command floats ctx s w c

  pub data Reach : Connector F C A → Type 0 where
    here : Reach start
    next :
        {s : Connector F C A} (w : World) (event : Event C A)
        (r : Connector F C A × List (Effect F))
        → Reach s
        → IsPossible s event
        → handle s w event ≡ returns r
        → Reach r.0

start-IsOrderly : (F C A : Type 0) → IsOrderly (start {F = F} {C = C} {A = A})
unfolding start lookup
start-IsOrderly F C A = record {
  once = λ a. refl;
  grouped = λ a h. ground (arith, h);
  waiting = λ a h. refl;
  redialing = λ a h. refl;
  few_dials = omega arith;
  few_waiters = λ a. omega arith;
  unique = tt;
}

-- How the loop takes an event: it panics on a task that failed, and on nothing else.
abbrev pub IsTaken : {F C A : Type 0} → Bool → Handled F C A → Type 0
IsTaken true o = o ≡ panics
IsTaken {F} {C} {A} false o = (r : Connector F C A × List (Effect F)) × (o ≡ returns r)

module _ {F C A : Type 0} (floats : Floats F) (ctx : Option ExplorerContext) where
  failed-panics :
      (s : Connector F C A) (w : World) (event : Event C A)
      → joins_failed event ≡ true
      → handle floats ctx s w event ≡ panics
  unfolding handle session_joined router_joined
  failed-panics s w (Event.session (completed _)) h = absurd (cc)
  failed-panics s w (Event.session cancelled) h = refl
  failed-panics s w (Event.session panicked) h = refl
  failed-panics s w (Event.router (completed _)) h = absurd (cc)
  failed-panics s w (Event.router cancelled) h = refl
  failed-panics s w (Event.router panicked) h = refl
  failed-panics s w (Event.dial addr result) h = absurd (cc)
  failed-panics s w (Event.wake around) h = absurd (cc)
  failed-panics s w (Event.command c) h = absurd (cc)

  returns-whole :
      (s : Connector F C A) (w : World) (event : Event C A) (r : Connector F C A × List (Effect F))
      → handle floats ctx s w event ≡ returns r
      → joins_failed event ≡ false
  returns-whole s w event r e = elim (Bool-cases (joins_failed event)) [
    | inl f ↦ absurd (ground (arith, failed-panics s w event f, e))
    | inr f ↦ f
  ]

module _ {F C A : Type 0} (floats : Floats F) (order : TotalOrder floats)
    (ctx : Option ExplorerContext) where
  handle-EndsOrderly :
      (s : Connector F C A) (w : World) (event : Event C A)
      → IsOrderly s
      → IsPossible s event
      → joins_failed event ≡ false
      → EndsOrderly (handle floats ctx s w event)
  unfolding handle dialing session_joined router_joined
  handle-EndsOrderly s w (Event.dial addr result) v p f =
      dial_ended-IsOrderly s w addr result v (ground (arith, v.once addr, p))
  handle-EndsOrderly s w (Event.session (completed (addr, id))) v p f =
      ((session_ended s w addr id, []), refl, session_ended-IsOrderly s w addr id v)
  handle-EndsOrderly s w (Event.session cancelled) v p f = absurd (cc)
  handle-EndsOrderly s w (Event.session panicked) v p f = absurd (cc)
  handle-EndsOrderly s w (Event.router (completed _)) v p f = ((s, []), refl, v)
  handle-EndsOrderly s w (Event.router cancelled) v p f = absurd (cc)
  handle-EndsOrderly s w (Event.router panicked) v p f = absurd (cc)
  handle-EndsOrderly s w (Event.wake around) v p f =
      let (ticked, h) = explorers_woke-returns floats order ctx s w around in
      (
        (record s { explorers = ticked }, []),
        rw (h, dialing) refl,
        record {
          once = v.once;
          grouped = v.grouped;
          waiting = v.waiting;
          redialing = v.redialing;
          few_dials = v.few_dials;
          few_waiters = v.few_waiters;
          unique = v.unique;
        },
      )
  handle-EndsOrderly s w (Event.command c) v p f =
      handle_command-EndsOrderly floats order ctx s w c v

  -- Where `total_cmp` is a total order, at any time of a run of the loop an address in flight has just
  -- one pending dial and a group, waiters and redials stand only at such addresses, at most 32 dials
  -- are pending, and at most 256 requests wait for an address.
  pub Reach-IsOrderly : {s : Connector F C A} → Reach floats ctx s → IsOrderly s
  Reach-IsOrderly Reach.here = start-IsOrderly F C A
  Reach-IsOrderly (Reach.next w event r reach p e) =
      let whole = returns-whole floats ctx _ w event r e in
      let (x, h, v) = handle-EndsOrderly _ w event (Reach-IsOrderly reach) p whole in
      subst (λ y. IsOrderly y.0) (returns-injective x r (sym h ∙ e)) v

  handle-Keeps :
      (s : Connector F C A) (w : World) (event : Event C A) (r : ℕ)
      → w.closed r ≡ false
      → IsOrderly s
      → Keeps r (waits r s.dial_waiters + requests r event) (handle floats ctx s w event)
  unfolding handle dialing session_joined router_joined
  handle-Keeps s w (Event.dial addr result) r wanted v =
      rw (add-zero (waits r s.dial_waiters)) (dial_ended-Keeps s w addr result r wanted v.unique)
  handle-Keeps s w (Event.session (completed (addr, id))) r wanted v =
      rw (session_ended-dial_waiters s w addr id) refl
  handle-Keeps s w (Event.session cancelled) r wanted v = tt
  handle-Keeps s w (Event.session panicked) r wanted v = tt
  handle-Keeps s w (Event.router (completed _)) r wanted v = refl
  handle-Keeps s w (Event.router cancelled) r wanted v = tt
  handle-Keeps s w (Event.router panicked) r wanted v = tt
  handle-Keeps s w (Event.wake around) r wanted v =
      let (ticked, h) = explorers_woke-returns floats order ctx s w around in rw (h, dialing) refl
  handle-Keeps s w (Event.command c) r wanted v =
      handle_command-Keeps floats order ctx s w c r wanted v

  -- Where `total_cmp` is a total order, no request is lost and none is answered twice: at any time
  -- of a run, for a response channel that is not closed, the times that it waits after an event and
  -- those that the event answers it are, together, the times that it waited before and that the
  -- event asks for it.
  pub Reach-handle-Keeps :
      (s t : Connector F C A) (w : World) (event : Event C A) (effects : List (Effect F)) (r : ℕ)
      → Reach floats ctx s
      → handle floats ctx s w event ≡ returns (t, effects)
      → w.closed r ≡ false
      → waits r t.dial_waiters + answers r effects ≡ waits r s.dial_waiters + requests r event
  Reach-handle-Keeps s t w event effects r reach e wanted =
      subst (Keeps r (waits r s.dial_waiters + requests r event)) e
        (handle-Keeps s w event r wanted (Reach-IsOrderly reach))
