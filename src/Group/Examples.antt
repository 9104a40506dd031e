-- ===== src/Group/Examples.antt =====
-- The groups of src/group.rs at concrete sessions.
use rtp_mux.Prelude.{
  ℕ, ◌+◌, ◌<◌, ◌≡◌, refl, Bool, true, false, some, List, [], ◌∷◌, lookup, nat_eq, Unique, insert,
  retain, keep_if, map, ok, err, returns, panics, arith,
}
use rtp_mux.Group.{
  Groups, SessionPair, PairMember, room, group_full, join, try_reserve, register_writer,
  drop_member, enter, found_group, joined_pair,
}
use rtp_mux.Group.Members.{
  System, Step, Reach, start, IsSoundSystem, Reach-IsSoundSystem, Reach-held-returns,
}
use rtp_mux.Group.Joining.{join-member}
use rtp_mux.Group.{driver_scope_closed}
use rtp_mux.TaskScope.{Joined, abort_and_reap}
use rtp_mux.Group.Drivers.{
  Scope, Select, joined, joined_none, shut_down, group_driver_scope, submit, adopt, shutdown,
}
use rtp_mux.Group.Drivers.Drain.{aborted, more, ended}
use rtp_mux.Group.Drivers.Accounts.{count, names, AllQuiet, Served, starts, submits, adopts}
use rtp_mux.Group.Drivers.Shutdown.{shutdown-reaps_all, shutdown-returns}

abbrev all_alive : ℕ → Bool
all_alive _ = true

abbrev first_member : PairMember
first_member = record { token = 5; seq = 1 }

-- A session with opener 40 has founded group 5.
abbrev founded_pair : SessionPair
founded_pair = record {
  members = 1;
  next_seq = 1;
  newest_seq = 1;
  newest_opener = some 40;
  writers = [];
  next_purge = 64;
}

abbrev second_member : PairMember
second_member = record { token = 5; seq = 2 }

abbrev filled : Groups
filled = (5, record founded_pair { members = 2; next_seq = 2; newest_seq = 2 }) ∷ []

abbrev founded : System
founded = record { groups = (5, founded_pair) ∷ []; held = first_member ∷ [] }

Reach-founded : Reach start founded
unfolding join enter found_group try_reserve joined_pair lookup insert retain keep_if
Reach-founded = Reach.next Reach.here (Step.joins all_alive all_alive 5 40 room)

Reach-IsSoundSystem_example : IsSoundSystem founded
Reach-IsSoundSystem_example = Reach-IsSoundSystem Reach-founded

Reach-held-returns_example :
    ((groups' : Groups) × (drop_member founded.groups first_member ≡ returns groups'))
    × ((r : Groups × List (ℕ × ℕ)) × (register_writer all_alive all_alive founded.groups
            first_member 9
          ≡ returns r))
Reach-held-returns_example =
    Reach-held-returns [] first_member [] all_alive all_alive 9 Reach-founded refl

abbrev writing : Groups
writing = (5, record founded_pair { writers = 9 ∷ [] }) ∷ []

writing-Unique : Unique writing
unfolding lookup
writing-Unique = (refl, tt)

second_joins :
    (join all_alive all_alive writing 5 41 room).result ≡ ok (record { token = 5; seq = 2 })
unfolding join enter found_group try_reserve joined_pair lookup insert retain keep_if
second_joins = refl

join-member_example :
    let o = join all_alive all_alive writing 5 41 room in
    (pair : SessionPair) × (lookup 5 o.groups ≡ some pair)
    × (second_member.token ≡ 5)
    × (second_member.seq ≡ pair.newest_seq)
    × (pair.members ≡ founded_pair.members + 1)
    × (pair.members < 3)
    × (pair.newest_opener ≡ some 41)
    × (pair.writers ≡ keep_if all_alive (9 ∷ []))
    × (all_alive 41 ≡ true → o.rebinds ≡ map (λ w. (w, 41)) pair.writers)
    × (all_alive 41 ≡ false → o.rebinds ≡ [])
unfolding lookup
join-member_example =
    join-member writing writing-Unique all_alive all_alive 5 41 room second_member second_joins

third_refused : (join all_alive all_alive filled 5 42 room).result ≡ err group_full
unfolding join enter found_group try_reserve joined_pair lookup insert retain keep_if
third_refused = refl

filled-Unique : Unique filled
unfolding lookup
filled-Unique = (refl, tt)

-- A scope with room for two: driver 5 runs, driver 6 is queued.
abbrev busy_scope : Scope
busy_scope = record {
  bound = 2;
  queue = 6 ∷ [];
  open_to_all = true;
  drivers = 5 ∷ [];
  signalled = false;
  reaped = [];
}

busy_scope-Served : Served busy_scope (6 ∷ 5 ∷ [])
unfolding group_driver_scope submit adopt try_reserve
busy_scope-Served = submits 6 (adopts (submits 5 (starts 2) refl)) refl

-- the drain of 6 is aborted, that of 5 sees its last task end
abbrev last_ends : List (ℕ × List Select)
last_ends =
    (6, shut_down (Joined.cancelled ∷ []) ∷ [])
    ∷ (5, joined (Joined.completed tt) ∷ joined_none ∷ [])
    ∷ []

last_ends-AllQuiet : AllQuiet last_ends
last_ends-AllQuiet = (aborted (Joined.cancelled ∷ []) [] refl, (more (ended []), tt))

abbrev closed_scope : Scope
closed_scope = record {
  bound = 2;
  queue = [];
  open_to_all = false;
  drivers = [];
  signalled = true;
  reaped =
      (5, joined (Joined.completed tt) ∷ joined_none ∷ [])
      ∷ (6, shut_down (Joined.cancelled ∷ []) ∷ [])
      ∷ [];
}

shutdown-busy_scope : shutdown busy_scope last_ends ≡ returns closed_scope
unfolding shutdown abort_and_reap
shutdown-busy_scope = refl

-- a driver whose task panicked
shutdown-panics : shutdown busy_scope ((6, joined Joined.panicked ∷ []) ∷ []) ≡ panics
unfolding shutdown abort_and_reap
shutdown-panics = refl

shutdown-reaps_all_example :
    ((d : ℕ) → count d (6 ∷ 5 ∷ []) ≡ count d (names closed_scope.reaped))
    × AllQuiet closed_scope.reaped
    × ((d : ℕ) → submit closed_scope d ≡ (closed_scope, err driver_scope_closed))
shutdown-reaps_all_example =
    shutdown-reaps_all busy_scope (6 ∷ 5 ∷ []) last_ends closed_scope busy_scope-Served
      shutdown-busy_scope refl

shutdown-returns_example :
    (s' : Scope) × (shutdown busy_scope last_ends ≡ returns s')
    × (s'.drivers ≡ [])
    × (s'.queue ≡ [])
    × ((d : ℕ)
        → count d (names s'.reaped)
          ≡ count d (names busy_scope.reaped)
            + (count d busy_scope.drivers + count d busy_scope.queue))
shutdown-returns_example =
    shutdown-returns busy_scope last_ends (λ d. ground arith) last_ends-AllQuiet
