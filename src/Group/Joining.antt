-- ===== src/Group/Joining.antt =====
-- What `SessionPairRegistry::join` of src/group.rs does on every branch.
use rtp_mux.Prelude.{
  ℕ, ◌+◌, ◌^◌, ◌%◌, ◌<◌, ◌≡◌, ◌≢◌, ◌↔◌, refl, Bool, true, false, Option, none, some, [], map, inl,
  inr, ◌⊎◌, eqb_iff, nat_eq, arith, lookup, insert, retain, lookup-insert, lookup-insert_self,
  lookup-retain, Unique, keep_if, Option-cases, ok, err, retain-Unique, insert-Unique,
}
use rtp_mux.Group.{
  Groups, SessionPair, PairMember, Joined, GroupJoinError, group_full, DriverQueue, try_reserve,
  fresh_pair, is_held, upgrade, is_full, joined_pair, rebind_all, enter, found_group, join,
}

-- The live group that the joiner enters, or a fresh one.
abbrev pub entered : Option SessionPair → SessionPair
entered none = fresh_pair
entered (some pair) = pair

module _ (groups : Groups) (u : Unique groups) where
  upgrade-retain :
      (token : ℕ) → upgrade (lookup token (retain is_held groups)) ≡ upgrade (lookup token groups)
  upgrade-retain token = ground (arith, lookup-retain is_held token groups u)

  module _ (opener_alive writer_alive : ℕ → Bool) (token opener : ℕ) (queue : DriverQueue) where
    abbrev outcome : Joined
    outcome = join opener_alive writer_alive groups token opener queue

    -- A join is refused as `GroupFull` exactly if `is_full` says so before.
    pub join-full : (outcome.result ≡ err group_full) ↔ (is_full groups token ≡ true)
    unfolding join is_full enter found_group try_reserve
    join-full = elim (Option-cases (upgrade (lookup token groups))) [
      | inl e ↦ (λ h. ground (arith, e, upgrade-retain token), λ h. ground (arith, e))
      | inr (pair, e) ↦ (
        λ h. ground (arith, e, upgrade-retain token),
        λ h. ground (arith, e, upgrade-retain token),
      )
    ]

    abbrev before : SessionPair
    before = entered (upgrade (lookup token groups))

    pub join-entered :
        (m : PairMember)
        → outcome.result ≡ ok m
        → (m ≡ record { token = token; seq = (before.next_seq + 1) % 2 ^ 64 })
          × (lookup token outcome.groups ≡ some (joined_pair writer_alive before opener))
          × (before.members < 2)
          × (outcome.rebinds ≡ rebind_all opener_alive (keep_if writer_alive before.writers) opener)
    unfolding join enter found_group joined_pair try_reserve
    join-entered m h = elim (Option-cases (upgrade (lookup token groups))) [
      | inl e ↦ ground (
        arith,
        e,
        upgrade-retain token,
        lookup-insert_self token (joined_pair writer_alive fresh_pair opener)
            (insert token fresh_pair (retain is_held groups)),
      )
      | inr (pair, e) ↦ ground (
        arith,
        e,
        upgrade-retain token,
        lookup-insert_self token (joined_pair writer_alive pair opener) (retain is_held groups),
      )
    ]

    -- A join that succeeds makes the caller one more member, of at most two, and the newest one: the
    -- group's newest opener is the joiner's, and every writer of the group that lives, and no other,
    -- is rebound to it if the opener lives; if it does not, no writer is rebound.
    pub join-member :
        (m : PairMember)
        → outcome.result ≡ ok m
        → (pair : SessionPair) × (lookup token outcome.groups ≡ some pair)
          × (m.token ≡ token)
          × (m.seq ≡ pair.newest_seq)
          × (pair.members ≡ before.members + 1)
          × (pair.members < 3)
          × (pair.newest_opener ≡ some opener)
          × (pair.writers ≡ keep_if writer_alive before.writers)
          × (opener_alive opener ≡ true → outcome.rebinds ≡ map (λ w. (w, opener)) pair.writers)
          × (opener_alive opener ≡ false → outcome.rebinds ≡ [])
    unfolding joined_pair
    join-member m h =
        let (e, l, b, r) = join-entered m h in
        (
          joined_pair writer_alive before opener,
          l,
          ground (arith, e),
          ground (arith, e),
          refl,
          omega arith,
          refl,
          refl,
          (λ a. ground (arith, r, a)),
          (λ a. ground (arith, r, a)),
        )

    -- Whatever a join does, no other live group is touched.
    pub join-others :
        (t : ℕ) → t ≢ token → upgrade (lookup t outcome.groups) ≡ upgrade (lookup t groups)
    unfolding join enter found_group try_reserve
    join-others t d = elim (Option-cases (upgrade (lookup token groups))) [
      | inl e ↦ ground (
        arith,
        e,
        upgrade-retain token,
        upgrade-retain t,
        eqb_iff token t,
        lookup-insert token t fresh_pair (retain is_held groups),
        lookup-insert token t (joined_pair writer_alive fresh_pair opener)
            (insert token fresh_pair (retain is_held groups)),
      )
      | inr (pair, e) ↦ ground (
        arith,
        e,
        upgrade-retain token,
        upgrade-retain t,
        eqb_iff token t,
        lookup-insert token t (joined_pair writer_alive pair opener) (retain is_held groups),
      )
    ]

    -- A refused join leaves every live group as it was, rebinds no writer and submits no driver, and
    -- it is refused for a full group, or, if no live group has the token, for what the submission
    -- queue says.
    pub join-refused :
        (reason : GroupJoinError) (t : ℕ)
        → outcome.result ≡ err reason
        → (upgrade (lookup t outcome.groups) ≡ upgrade (lookup t groups))
          × (outcome.rebinds ≡ [])
          × (outcome.submitted ≡ false)
          × ((reason ≡ group_full)
              ⊎ ((upgrade (lookup token groups) ≡ none) × (try_reserve queue ≡ err reason)))
    unfolding join enter found_group try_reserve
    join-refused reason t h = elim (Option-cases (upgrade (lookup token groups))) [
      | inl e ↦ ground (arith, e, upgrade-retain token, upgrade-retain t)
      | inr (pair, e) ↦ ground (arith, e, upgrade-retain token, upgrade-retain t)
    ]

  pub join-Unique :
      (opener_alive writer_alive : ℕ → Bool) (token opener : ℕ) (queue : DriverQueue)
      → Unique (join opener_alive writer_alive groups token opener queue).groups
  unfolding join enter found_group try_reserve
  join-Unique opener_alive writer_alive token opener queue =
      let k = retain-Unique is_held groups u in
      elim (Option-cases (upgrade (lookup token groups))) [
        | inl e ↦ ground (
          arith,
          e,
          upgrade-retain token,
          k,
          insert-Unique token fresh_pair (retain is_held groups) k,
          insert-Unique token (joined_pair writer_alive fresh_pair opener)
              (insert token fresh_pair (retain is_held groups))
              (insert-Unique token fresh_pair (retain is_held groups) k),
        )
        | inr (pair, e) ↦ ground (
          arith,
          e,
          upgrade-retain token,
          k,
          insert-Unique token (joined_pair writer_alive pair opener) (retain is_held groups) k,
        )
      ]

  module _ (opener_alive writer_alive : ℕ → Bool) (token opener : ℕ) (queue : DriverQueue) where
    pub lookup-join_others :
        (t : ℕ)
        → t ≢ token
        → lookup t (join opener_alive writer_alive groups token opener queue).groups
          ≡ upgrade (lookup t groups)
    unfolding join enter found_group try_reserve
    lookup-join_others t d = elim (Option-cases (upgrade (lookup token groups))) [
      | inl e ↦ ground (
        arith,
        e,
        upgrade-retain token,
        lookup-retain is_held t groups u,
        eqb_iff token t,
        lookup-insert token t fresh_pair (retain is_held groups),
        lookup-insert token t (joined_pair writer_alive fresh_pair opener)
            (insert token fresh_pair (retain is_held groups)),
      )
      | inr (pair, e) ↦ ground (
        arith,
        e,
        upgrade-retain token,
        lookup-retain is_held t groups u,
        eqb_iff token t,
        lookup-insert token t (joined_pair writer_alive pair opener) (retain is_held groups),
      )
    ]

    pub lookup-join_refused :
        (reason : GroupJoinError) (t : ℕ)
        → (join opener_alive writer_alive groups token opener queue).result ≡ err reason
        → lookup t (join opener_alive writer_alive groups token opener queue).groups
          ≡ upgrade (lookup t groups)
    unfolding join enter found_group try_reserve
    lookup-join_refused reason t h = elim (Option-cases (upgrade (lookup token groups))) [
      | inl e ↦ ground (arith, e, upgrade-retain token, lookup-retain is_held t groups u)
      | inr (pair, e) ↦ ground (arith, e, upgrade-retain token, lookup-retain is_held t groups u)
    ]
