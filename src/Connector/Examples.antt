-- ===== src/Connector/Examples.antt =====
-- A run of the loop of src/connector/mod.rs: a request starts a dial, and the dial ends.
use rtp_mux.Prelude.{
  Map, ℕ, ◌≡◌, ◌+◌, refl, true, false, Option, none, some, [], ◌∷◌, returns, Result, ok, err,
  lookup, insert, remove, or_insert, eqb, if◌then◌else◌,
}
use rtp_mux.Shared.{SocketAddr, LaneClass, ErrorKind, addr_eq}
use rtp_mux.Explorer.Percent.{percent, percent-TotalOrder}
use rtp_mux.Explorer.{PathExplorer, new}
use rtp_mux.Connector.Waking.{Surroundings, explorers_woke, any_wants_refill}
use rtp_mux.Connector.Waking.Refilled.{explorers_woke-wants_refill}
use rtp_mux.Connector.Types.{ExplorerContext, Connector, World, ConnectorCommand}
use rtp_mux.Connector.Dialing.{
  start_dial, push_dial, take_socket, with_explorer, token_of, new_group, add_member,
}
use rtp_mux.Connector.Commands.{
  handle_command, handle_connect, admit, enqueue, queue_request, live_dial_waiters, live_session,
  dialing,
}
use rtp_mux.Connector.Invariant.{IsOrderly}
use rtp_mux.Connector.Dialing.Answering.{waits, answers}
use rtp_mux.Connector.System.{
  Event, start, requests, handle, Reach, Reach-IsOrderly, Reach-handle-Keeps,
}

abbrev world : World
world = record {
  alive = λ _. true;
  held = λ _. true;
  writing = λ _. true;
  closed = λ r. eqb r 9;
  now = 5;
  fresh_token = 77;
  stagger = 1;
}

abbrev server : SocketAddr
server = record { ip = 1; port = 443 }

abbrev request : Event ℕ ℕ
request = Event.command (ConnectorCommand.connect server LaneClass.bulk (some 6) 20)

abbrev dialed : Connector ℕ ℕ ℕ
dialed = record (start {F = ℕ} {C = ℕ} {A = ℕ}) {
  dial_waiters = (server, record { lane = LaneClass.bulk; response = 20 } ∷ []) ∷ [];
  addr_keys = (server, some 6) ∷ [];
  groups = (server, new_group 77) ∷ [];
  in_flight_dials = add_member server (λ _. false);
  pending_dials =
      record { addr = server; token = 77; socket = none; obfuscation_key = some 6 } ∷ [];
}

request_handled : handle percent none start world request ≡ returns (dialed, [])
unfolding handle start handle_command handle_connect admit enqueue queue_request live_dial_waiters
    live_session dialing start_dial push_dial take_socket with_explorer token_of lookup insert
    remove or_insert
request_handled = refl

reached : Reach percent none dialed
reached = Reach.next world request (dialed, []) Reach.here tt request_handled

abbrev answer : Event ℕ ℕ
answer =
    Event.dial server
      (ok (record { session = 3; local_addr = record { ip = 2; port = 9000 }; probe_tap = some 8 }))

Reach-IsOrderly_example : IsOrderly dialed
Reach-IsOrderly_example = Reach-IsOrderly percent percent-TotalOrder none reached

Reach-handle-Keeps_example :
    waits 20 dialed.dial_waiters + answers {F = ℕ} 20 []
    ≡ waits 20 (start {F = ℕ} {C = ℕ} {A = ℕ}).dial_waiters + requests 20 request
Reach-handle-Keeps_example =
    Reach-handle-Keeps percent percent-TotalOrder none start dialed world request [] 20 Reach.here
      request_handled refl

-- The first attempt fails, and the second succeeds.
abbrev once : ℕ → Option ℕ → Result ErrorKind ℕ
once attempt socket = if eqb attempt 2 then ok 3 else err ErrorKind.timed_out

abbrev context : ExplorerContext
context = record {
  config = record { candidates = 2; probe_mean_interval = 10; rotation_period = 120 };
  obfuscation_key = none;
}

-- One candidate is bound, and the next bind fails.
abbrev around : Surroundings ℕ
around = record {
  probes = λ _ _. record { echoes = []; sends = true; nonce = 4; raw = λ mean. mean };
  active_probe = λ _. record { echoes = []; sends = true; nonce = 5; raw = λ mean. mean };
  bind_new = λ addr key missing.
      if eqb missing 2 then ok (30, record { ip = 2; port = 700 }) else err ErrorKind.addr_in_use;
}

abbrev exploring : Connector ℕ ℕ ℕ
exploring = record dialed { explorers = (server, new context.config 3) ∷ [] }

explorers_woke-wants_refill_example :
    (ticked : Map SocketAddr (PathExplorer ℕ ℕ ℕ)) × (explorers_woke percent
        (some context)
        exploring
        world
        around
      ≡ returns (record exploring { explorers = ticked }))
    × (any_wants_refill ticked world.now ≡ false)
explorers_woke-wants_refill_example =
    explorers_woke-wants_refill percent percent-TotalOrder context exploring world around
