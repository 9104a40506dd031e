-- ===== src/Group/Soundness.antt =====
-- The counts of the groups of src/group.rs against the members that are held, at each operation.
use rtp_mux.Prelude.{
  ℕ, ◌<◌, ◌≤◌, ◌≡◌, refl, subst, Bool, Option, none, some, List, [], ◌∷◌, ◌++◌, inl, inr, eqb,
  eqb_iff, if◌then◌else◌, nat_eq, arith, lookup, insert, lookup-insert, insert-Unique, Unique,
  keep_if, length, length-append, length-keep_if-le, total, total-append, Option-cases, Bool-cases,
  Result, ok, err, returns, ◌-◌,
}
use rtp_mux.Group.{
  Groups, SessionPair, PairMember, Joined, GroupJoinError, DriverQueue, upgrade, joined_pair, join,
  purge, register_in, register_writer, leave_pair, drop_member,
}
use rtp_mux.Group.Joining.{
  join-entered, join-Unique, lookup-join_others, lookup-join_refused, entered,
}

abbrev pub members_at : Option SessionPair → ℕ
members_at none = 0
members_at (some pair) = pair.members

-- 1 for a member of the group.
abbrev pub of_group : ℕ → PairMember → ℕ
of_group token m = if eqb m.token token then 1 else 0

-- At most two members, and a list of writers within the mark at which it is purged.
abbrev pub WellFormed : Option SessionPair → Type 0
WellFormed none = Unit
WellFormed (some pair) =
    (pair.members ≤ 2)
    × (pair.newest_seq ≡ pair.next_seq)
    × (length pair.writers ≤ pair.next_purge)
    × (64 ≤ pair.next_purge)

pub record IsSound (groups : Groups) (held : List PairMember) : Type 0 where
  pub unique : Unique groups
  pub counted : (token : ℕ) → members_at (lookup token groups) ≡ total (of_group token) held
  pub formed : (token : ℕ) → WellFormed (lookup token groups)

upgrade-members_at : (o : Option SessionPair) → members_at (upgrade o) ≡ members_at o
upgrade-members_at none = refl
upgrade-members_at (some pair) = ground arith

upgrade-WellFormed : (o : Option SessionPair) → WellFormed o → WellFormed (upgrade o)
upgrade-WellFormed none w = tt
upgrade-WellFormed (some pair) w = ground arith

entered-WellFormed : (o : Option SessionPair) → WellFormed o → WellFormed (some (entered o))
entered-WellFormed none w = omega arith
entered-WellFormed (some pair) w = w

abbrev pub granted : Result GroupJoinError PairMember → List PairMember
granted (ok m) = m ∷ []
granted (err reason) = []

entered-members : (o : Option SessionPair) → (entered (upgrade o)).members ≡ members_at o
entered-members none = refl
entered-members (some pair) = ground arith

joined_pair-WellFormed :
    (writer_alive : ℕ → Bool) (pair : SessionPair) (opener : ℕ)
    → WellFormed (some pair)
    → pair.members < 2
    → WellFormed (some (joined_pair writer_alive pair opener))
unfolding joined_pair
joined_pair-WellFormed writer_alive pair opener w b =
    omega (arith, length-keep_if-le writer_alive pair.writers)

module _ (groups : Groups) (held : List PairMember) (v : IsSound groups held)
    (opener_alive writer_alive : ℕ → Bool) (token opener : ℕ) (queue : DriverQueue) where
  abbrev outcome : Joined
  outcome = join opener_alive writer_alive groups token opener queue

  join-refused-IsSound :
      (reason : GroupJoinError) → outcome.result ≡ err reason → IsSound outcome.groups held
  join-refused-IsSound reason h = record {
    unique = join-Unique groups v.unique opener_alive writer_alive token opener queue;
    counted = λ t.
        rw
          (lookup-join_refused groups v.unique opener_alive writer_alive token opener queue reason t
            h)
          (ground (arith, v.counted t, upgrade-members_at (lookup t groups)));
    formed = λ t.
        rw
          (lookup-join_refused groups v.unique opener_alive writer_alive token opener queue reason t
            h)
          (upgrade-WellFormed (lookup t groups) (v.formed t));
  }

  module _ (m : PairMember) (h : outcome.result ≡ ok m) where
    counted_token : members_at (lookup token outcome.groups) ≡ total (of_group token) (m ∷ held)
    unfolding joined_pair
    counted_token =
        let (e, l, b, r) =
          join-entered groups v.unique opener_alive writer_alive token opener queue m h in
        rw l (
          ground
            (arith, e, entered-members (lookup token groups), v.counted token, eqb_iff token token))

    formed_token : WellFormed (lookup token outcome.groups)
    formed_token =
        let (e, l, b, r) =
          join-entered groups v.unique opener_alive writer_alive token opener queue m h in
        let old = upgrade (lookup token groups) in
        rw l (
          joined_pair-WellFormed writer_alive (entered old) opener
            (entered-WellFormed old (upgrade-WellFormed (lookup token groups) (v.formed token))) b)

    join-member-IsSound : IsSound outcome.groups (m ∷ held)
    join-member-IsSound =
        let (e, l, b, r) =
          join-entered groups v.unique opener_alive writer_alive token opener queue m h in
        let others =
          lookup-join_others groups v.unique opener_alive writer_alive token opener queue in
        record {
          unique = join-Unique groups v.unique opener_alive writer_alive token opener queue;
          counted = λ t. elim (Bool-cases (eqb token t)) [
            | inl same ↦
                subst (λ t. members_at (lookup t outcome.groups) ≡ total (of_group t) (m ∷ held))
                  ((eqb_iff token t).0 same) counted_token
            | inr differs ↦
                rw (others t (ground (arith, eqb_iff token t)))
                  (ground (arith, e, differs, v.counted t, upgrade-members_at (lookup t groups)))
          ];
          formed = λ t. elim (Bool-cases (eqb token t)) [
            | inl same ↦
                subst (λ t. WellFormed (lookup t outcome.groups)) ((eqb_iff token t).0 same)
                  formed_token
            | inr differs ↦
                rw (others t (ground (arith, eqb_iff token t)))
                  (upgrade-WellFormed (lookup t groups) (v.formed t))
          ];
        }

  pub joins-IsSound : IsSound outcome.groups (granted outcome.result ++ held)
  joins-IsSound = by_result outcome.result refl
    where
      by_result :
          (r : Result GroupJoinError PairMember)
          → outcome.result ≡ r
          → IsSound outcome.groups (granted r ++ held)
      by_result (ok m) h = join-member-IsSound m h
      by_result (err reason) h = join-refused-IsSound reason h

pub focus :
    (groups : Groups) (before : List PairMember) (m : PairMember) (after : List PairMember)
    → IsSound groups (before ++ m ∷ after)
    → IsSound groups (m ∷ before ++ after)
focus groups before m after v = record {
  unique = v.unique;
  counted = λ t. omega (
    arith,
    v.counted t,
    total-append (of_group t) before (m ∷ after),
    total-append (of_group t) before after,
  );
  formed = v.formed;
}

pub unfocus :
    (groups : Groups) (before : List PairMember) (m : PairMember) (after : List PairMember)
    → IsSound groups (m ∷ before ++ after)
    → IsSound groups (before ++ m ∷ after)
unfocus groups before m after v = record {
  unique = v.unique;
  counted = λ t. omega (
    arith,
    v.counted t,
    total-append (of_group t) before (m ∷ after),
    total-append (of_group t) before after,
  );
  formed = v.formed;
}

-- The group of a member is there, with at least this member.
present :
    (groups : Groups) (m : PairMember) (held : List PairMember)
    → IsSound groups (m ∷ held)
    → (pair : SessionPair) × (lookup m.token groups ≡ some pair) × (0 < pair.members)
present groups m held v = elim (Option-cases (lookup m.token groups)) [
  | inl e ↦ absurd (ground (arith, e, v.counted m.token, eqb_iff m.token m.token))
  | inr (pair, e) ↦ (pair, e, ground (arith, e, v.counted m.token, eqb_iff m.token m.token))
]

pub drop_member-returns :
    (groups : Groups) (m : PairMember) (held : List PairMember)
    → IsSound groups (m ∷ held)
    → (groups' : Groups) × (drop_member groups m ≡ returns groups') × IsSound groups' held
unfolding drop_member leave_pair
drop_member-returns groups m held v =
    let (pair, e, p) = present groups m held v in
    let left : SessionPair = record pair { members = pair.members - 1 } in
    (
      insert m.token left groups,
      ground (arith, e),
      record {
        unique = insert-Unique m.token left groups v.unique;
        counted = λ t.
            ground (arith, e, v.counted t, eqb_iff m.token t, lookup-insert m.token t left groups);
        formed = λ t. ground (
          arith,
          e,
          v.formed t,
          v.formed m.token,
          eqb_iff m.token t,
          lookup-insert m.token t left groups,
        );
      },
    )

register_in-WellFormed :
    (opener_alive writer_alive : ℕ → Bool) (pair : SessionPair) (seq writer : ℕ)
    → WellFormed (some pair)
    → WellFormed (some (register_in opener_alive writer_alive pair seq writer).0)
      × ((register_in opener_alive writer_alive pair seq writer).0.members ≡ pair.members)
unfolding register_in purge
register_in-WellFormed opener_alive writer_alive pair seq writer w = ground (
  arith,
  length-keep_if-le writer_alive pair.writers,
  length-append pair.writers (writer ∷ []),
  length-append (keep_if writer_alive pair.writers) (writer ∷ []),
)

pub register_writer-returns :
    (opener_alive writer_alive : ℕ → Bool) (groups : Groups) (m : PairMember) (writer : ℕ)
    (held : List PairMember)
    → IsSound groups (m ∷ held)
    → (groups' : Groups) × (rebinds : List (ℕ × ℕ)) × (register_writer opener_alive writer_alive
          groups m writer
        ≡ returns (groups', rebinds))
      × IsSound groups' (m ∷ held)
unfolding register_writer
register_writer-returns opener_alive writer_alive groups m writer held v =
    let (pair, e, p) = present groups m held v in
    let r = register_in opener_alive writer_alive pair m.seq writer in
    let k =
      register_in-WellFormed opener_alive writer_alive pair m.seq writer
        (rw e at (v.formed m.token)) in
    (
      insert m.token r.0 groups,
      r.1,
      ground (arith, e),
      record {
        unique = insert-Unique m.token r.0 groups v.unique;
        counted = λ t.
            ground
              (arith, e, k.1, v.counted t, eqb_iff m.token t, lookup-insert m.token t r.0 groups);
        formed = λ t.
            ground
              (arith, e, k.0, v.formed t, eqb_iff m.token t, lookup-insert m.token t r.0 groups);
      },
    )
