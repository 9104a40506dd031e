-- ===== src/Group/Drivers.antt =====
-- src/group.rs: the scope of the group drivers. A driver is a JoinSet of a router's tasks; here it is
-- a number. The drain of a driver is a task of the scope: what its `select!` takes, in order, is an
-- argument. `signalled` is the value of the shutdown channel; `reaped` has no counterpart in the code,
-- it logs the drivers whose drain was joined, the newest first, with its turns.
pub mod Drain
pub mod Accounts
pub mod Shutdown
use rtp_mux.Prelude.{
  ℕ, Bool, true, false, not, ◌&&◌, Option, none, some, List, [], ◌∷◌, ◌++◌, eqb, ltb, length,
  if◌then◌else◌, Result, ok, err, Outcome, returns, panics,
}
use rtp_mux.TaskScope.{Joined, completed, cancelled, panicked, abort_and_reap}
use rtp_mux.Group.{DriverQueue, room, full, closed, GroupJoinError, try_reserve}

-- One turn of a drain: a task of the driver was joined, none is left, or the scope shuts down and
-- the list is what joining the rest yields after the abort.
pub data Select : Type 0 where
  joined : Joined (Unit {0}) → Select
  joined_none : Select
  shut_down : List (Joined (Unit {0})) → Select

-- What the drain task is joined as; its own `unwrap` panics on a task that did not complete.
abort_driver : List (Joined (Unit {0})) → Joined (Unit {0})
abort_driver rest = elim (abort_and_reap rest) [ returns _ ↦ completed tt | panics ↦ panicked ]

-- The loop of the task that `submit_driver_into` spawns; without an end it still runs. The arm of
-- the shutdown is ready once that is signalled.
pub drain : Bool → List Select → Option (Joined (Unit {0}))
unfolding abort_driver
drain signalled [] = none
drain signalled (joined (completed _) ∷ turns) = drain signalled turns
drain signalled (joined _ ∷ turns) = some panicked
drain signalled (joined_none ∷ turns) = some (completed tt)
drain true (shut_down rest ∷ turns) = some (abort_driver rest)
drain false (shut_down rest ∷ turns) = none

pub record Scope : Type 0 where
  pub bound : ℕ
  pub queue : List ℕ
  pub open_to_all : Bool
  pub drivers : List ℕ
  pub signalled : Bool
  pub reaped : List (ℕ × List Select)

unfoldable pub group_driver_scope : ℕ → Scope
group_driver_scope bound = record {
  bound = bound;
  queue = [];
  open_to_all = true;
  drivers = [];
  signalled = false;
  reaped = [];
}

-- The state of the channel that a submitter finds.
abbrev pub queue_state : Scope → DriverQueue
queue_state s =
    if s.open_to_all then (if ltb (length s.queue) s.bound then room else full) else closed

-- `try_reserve` and the send of its permit.
unfoldable pub submit : Scope → ℕ → Scope × Result GroupJoinError (Unit {0})
submit s driver = elim (try_reserve (queue_state s)) [
  | ok _ ↦ (record s { queue = s.queue ++ driver ∷ [] }, ok tt)
  | err e ↦ (s, err e)
]

pub submit_driver_into : List ℕ → ℕ → List ℕ
submit_driver_into drivers driver = drivers ++ driver ∷ []

pub submit_driver : Scope → ℕ → Scope
unfolding submit_driver_into
submit_driver s driver = record s { drivers = submit_driver_into s.drivers driver }

-- The arm of `serve` that receives a submission; it is not ready on an empty channel.
unfoldable pub adopt : Scope → Scope
unfolding submit_driver
adopt s = elim s.queue [ [] ↦ s | driver ∷ rest ↦ submit_driver (record s { queue = rest }) driver ]

-- The drain of `driver` is joined: the first of its name in the list.
pub joined_out : ℕ → List ℕ → List ℕ
joined_out driver [] = []
joined_out driver (d ∷ ds) =
    let rest = joined_out driver ds in if eqb driver d then ds else d ∷ rest

abbrev pub is_running : ℕ → List ℕ → Bool
is_running driver [] = false
is_running driver (d ∷ ds) = if eqb driver d then true else is_running driver ds

-- The drain of a running driver has ended as said, or not yet; its result is unwrapped.
pub finish_drain : Scope → ℕ → List Select → Option (Joined (Unit {0})) → Outcome Scope
unfolding joined_out
finish_drain s driver turns none = returns s
finish_drain s driver turns (some (completed _)) =
    returns
      (record s { drivers = joined_out driver s.drivers; reaped = (driver, turns) ∷ s.reaped })
finish_drain s driver turns (some _) = panics

-- The drain of `driver` has taken the given turns; it is reaped if that ended it.
pub reap_driver_from : Scope → ℕ → List Select → Outcome Scope
unfolding finish_drain drain
reap_driver_from s driver turns =
    if is_running driver s.drivers
    then finish_drain s driver turns (drain s.signalled turns)
    else returns s

pub reap_driver : Scope → ℕ → List Select → Outcome Scope
unfolding reap_driver_from
reap_driver s driver turns = reap_driver_from s driver turns

-- The loop of `shutdown` that adopts what is queued.
pub adopt_all : List ℕ → List ℕ → List ℕ
unfolding submit_driver_into
adopt_all drivers [] = drivers
adopt_all drivers (d ∷ queue) = adopt_all (submit_driver_into drivers d) queue

pub close_and_adopt : Scope → Scope
unfolding adopt_all
close_and_adopt s = record s {
  open_to_all = false;
  queue = [];
  drivers = adopt_all s.drivers s.queue;
  signalled = true;
}

-- The loop of `shutdown` that reaps, given which drain is joined next and its turns.
pub reap_all : Scope → List (ℕ × List Select) → Outcome Scope
unfolding reap_driver
reap_all s [] = returns s
reap_all s ((driver, turns) ∷ ends) = elim (reap_driver s driver turns) [
  | panics ↦ panics
  | returns s' ↦ reap_all s' ends
]

-- Of a scope that drivers are left in, the call has not returned yet.
unfoldable pub shutdown : Scope → List (ℕ × List Select) → Outcome Scope
unfolding close_and_adopt reap_all
shutdown s ends = reap_all (close_and_adopt s) ends
