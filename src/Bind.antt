-- ===== src/Bind.antt =====
-- src/server.rs, bind_adjacent_pair: the interactive listener and the bulk listener on the port
-- after it. `Sockets` is the operating system: what the two binds of each attempt answer, where a
-- bind that succeeds answers the listener's local address.
pub mod Adjacency
mod Examples
use rtp_mux.Prelude.{
  ℕ, zero, suc, ◌+◌, Bool, true, false, ◌&&◌, Option, none, some, if◌then◌else◌, Result, ok, err,
  Outcome, returns, panics,
}
use rtp_mux.Shared.{SocketAddr, ErrorKind, bulk_lane_addr}

abbrev pub ephemeral_pair_attempts : ℕ
ephemeral_pair_attempts = 64

-- Attempt, address asked for.
abbrev pub Sockets : Type 0
Sockets = ℕ → SocketAddr → Result ErrorKind SocketAddr

-- The interactive and the bulk listener, by their local addresses.
abbrev pub Pair : Type 0
Pair = Result ErrorKind (SocketAddr × SocketAddr)

abbrev is_addr_in_use : ErrorKind → Bool
is_addr_in_use ErrorKind.addr_in_use = true
is_addr_in_use _ = false

-- After the loop, a collision must have been kept.
exhausted : Option ErrorKind → Outcome Pair
exhausted none = panics
exhausted (some error) = returns (err error)

-- An attempt ends the loop with a result, or leaves the collision that the next attempt follows.
attempt_bulk : Sockets → ℕ → Bool → SocketAddr → SocketAddr → Result ErrorKind Pair
attempt_bulk sockets n ephemeral interactive bulk = elim (sockets n bulk) [
  | ok listener ↦ ok (ok (interactive, listener))
  | err error ↦ if ephemeral && is_addr_in_use error then err error else ok (err error)
]

attempt_listener : Sockets → ℕ → Bool → SocketAddr → Result ErrorKind Pair
unfolding attempt_bulk
attempt_listener sockets n ephemeral interactive = elim (bulk_lane_addr interactive) [
  | ok bulk ↦ attempt_bulk sockets n ephemeral interactive bulk
  | err error ↦ if ephemeral then err error else ok (err error)
]

pub attempt : Sockets → Sockets → ℕ → Bool → SocketAddr → Result ErrorKind Pair
unfolding attempt_listener
attempt first second n ephemeral candidate = elim (first n candidate) [
  | ok interactive ↦ attempt_listener second n ephemeral interactive
  | err error ↦ ok (err error)
]

-- `n` attempts are left; `first` answers the interactive binds and `second` the bulk binds.
pub try_pairs :
    Sockets → Sockets → SocketAddr → Bool → ℕ → SocketAddr → Option ErrorKind → Outcome Pair
unfolding exhausted attempt
try_pairs first second requested ephemeral zero candidate last_collision = exhausted last_collision
try_pairs first second requested ephemeral (suc n) candidate last_collision =
    elim (attempt first second n ephemeral candidate) [
      | ok result ↦ returns result
      | err error ↦
          try_pairs first second requested ephemeral n (record requested { port = 0 }) (some error)
    ]

pub bind_adjacent_pair : Sockets → Sockets → SocketAddr → Bool → Outcome Pair
unfolding try_pairs
bind_adjacent_pair first second requested ephemeral =
    try_pairs first second requested ephemeral (if ephemeral then ephemeral_pair_attempts else 1)
      requested none
