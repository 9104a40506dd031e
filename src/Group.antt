-- ===== src/Group.antt =====
-- src/group.rs: the groups of sessions that share one splice router on the server. A group is named
-- by its token: while a member holds it, its entry is neither removed nor replaced. Each member holds
-- one strong reference, so a weak reference upgrades exactly while there are members. Openers and
-- writers are numbers; what is alive at a call is an argument of it.
pub mod Joining
pub mod Soundness
pub mod Members
pub mod Drivers
mod Examples
use rtp_mux.Prelude.{
  ℕ, ◌+◌, ◌-◌, ◌*◌, ◌^◌, ◌%◌, max, ◌≡◌, Bool, true, false, not, Option, none, some, List, [], ◌∷◌,
  ◌++◌, map, eqb, leb, ltb, if◌then◌else◌, nat_eq, Map, lookup, insert, retain, keep_if, length,
  Result, ok, err, Outcome, returns, panics,
}

pub data GroupJoinError : Type 0 where
  group_full driver_queue_full driver_scope_closed : GroupJoinError

-- What `try_reserve` finds on the bounded submission channel.
pub data DriverQueue : Type 0 where
  room full closed : DriverQueue

pub try_reserve : DriverQueue → Result GroupJoinError (Unit {0})
try_reserve room = ok tt
try_reserve full = err driver_queue_full
try_reserve closed = err driver_scope_closed

pub record SessionPair : Type 0 where
  pub members : ℕ
  pub next_seq : ℕ
  pub newest_seq : ℕ
  pub newest_opener : Option ℕ
  pub writers : List ℕ
  pub next_purge : ℕ

abbrev pub Groups : Type 0
Groups = Map ℕ SessionPair

pub record PairMember : Type 0 where
  pub token : ℕ
  pub seq : ℕ

abbrev pub fresh_pair : SessionPair
fresh_pair = record {
  members = 0;
  next_seq = 0;
  newest_seq = 0;
  newest_opener = none;
  writers = [];
  next_purge = 64;
}

-- `strong_count() > 0`
abbrev pub is_held : SessionPair → Bool
is_held pair = ltb 0 pair.members

abbrev pub upgrade : Option SessionPair → Option SessionPair
upgrade none = none
upgrade (some pair) = if is_held pair then some pair else none

abbrev at_capacity : Option SessionPair → Bool
at_capacity none = false
at_capacity (some pair) = leb 2 pair.members

pub is_full : Groups → ℕ → Bool
is_full groups token = at_capacity (upgrade (lookup token groups))

-- The outcome of a join: the groups, its result, the writers rebound with their new opener, and
-- whether a router's driver was submitted.
pub record Joined : Type 0 where
  pub groups : Groups
  pub result : Result GroupJoinError PairMember
  pub rebinds : List (ℕ × ℕ)
  pub submitted : Bool

-- The joiner is the newest member; the live writers of the group move to its opener if that lives.
pub joined_pair : (ℕ → Bool) → SessionPair → ℕ → SessionPair
joined_pair writer_alive pair opener = record pair {
  members = pair.members + 1;
  next_seq = (pair.next_seq + 1) % 2 ^ 64;
  newest_seq = (pair.next_seq + 1) % 2 ^ 64;
  newest_opener = some opener;
  writers = keep_if writer_alive pair.writers;
}

abbrev pub rebind_all : (ℕ → Bool) → List ℕ → ℕ → List (ℕ × ℕ)
rebind_all opener_alive writers opener =
    if opener_alive opener then map (λ w. (w, opener)) writers else []

abbrev alive_only : (ℕ → Bool) → Option ℕ → Option ℕ
alive_only opener_alive none = none
alive_only opener_alive (some opener) = if opener_alive opener then some opener else none

abbrev rebind_to : ℕ → Option ℕ → List (ℕ × ℕ)
rebind_to writer none = []
rebind_to writer (some opener) = (writer, opener) ∷ []

-- Purge the dead writers once the list has reached its mark, and set the next mark.
pub purge : (ℕ → Bool) → SessionPair → SessionPair
purge writer_alive pair =
    let live = keep_if writer_alive pair.writers in
    if leb pair.next_purge (length pair.writers)
    then record pair { writers = live; next_purge = max (length live * 2) 64 }
    else pair

module _ (opener_alive writer_alive : ℕ → Bool) where
  pub enter : Groups → ℕ → SessionPair → ℕ → Bool → Joined
  unfolding joined_pair
  enter groups token pair opener submitted =
      let pair' = joined_pair writer_alive pair opener in
      if leb 2 pair.members
      then record { groups = groups; result = err group_full; rebinds = []; submitted = submitted }
      else record {
        groups = insert token pair' groups;
        result = ok (record { token = token; seq = pair'.newest_seq });
        rebinds = rebind_all opener_alive pair'.writers opener;
        submitted = submitted;
      }

  pub found_group : Groups → ℕ → ℕ → Result GroupJoinError (Unit {0}) → Joined
  unfolding enter
  found_group groups token opener (ok _) =
      enter (insert token fresh_pair groups) token fresh_pair opener true
  found_group groups token opener (err e) = record {
    groups = groups;
    result = err e;
    rebinds = [];
    submitted = false;
  }

  pub join : Groups → ℕ → ℕ → DriverQueue → Joined
  unfolding enter found_group try_reserve
  join groups token opener queue =
      let live = retain is_held groups in
      elim (upgrade (lookup token live)) [
        | some pair ↦ enter live token pair opener false
        | none ↦ found_group live token opener (try_reserve queue)
      ]

  pub register_in : SessionPair → ℕ → ℕ → SessionPair × List (ℕ × ℕ)
  unfolding purge
  register_in pair seq writer =
      let purged = purge writer_alive pair in
      (
        record purged { writers = purged.writers ++ writer ∷ [] },
        (if eqb pair.newest_seq seq
            then []
            else rebind_to writer (alive_only opener_alive pair.newest_opener)),
      )

  -- A member without its group cannot be, so that case is a panic.
  pub register_writer : Groups → PairMember → ℕ → Outcome (Groups × List (ℕ × ℕ))
  unfolding register_in
  register_writer groups member writer = elim (lookup member.token groups) [
    | none ↦ panics
    | some pair ↦
        let (pair', rebinds) = register_in pair member.seq writer in
        returns (insert member.token pair' groups, rebinds)
  ]

-- The drop of a member: `members -= 1`, which panics at 0.
pub leave_pair : Groups → ℕ → SessionPair → Outcome Groups
leave_pair groups token pair =
    if eqb pair.members 0
    then panics
    else returns (insert token (record pair { members = pair.members - 1 }) groups)

pub drop_member : Groups → PairMember → Outcome Groups
unfolding leave_pair
drop_member groups member = elim (lookup member.token groups) [
  | none ↦ panics
  | some pair ↦ leave_pair groups member.token pair
]
