-- ===== src/Admission/Permits.antt =====
-- Where the permits of src/admission.rs are: in the entries of the registry, or held by the tasks
-- that accept lanes. Every operation moves them, and none is lost or made up.
use rtp_mux.Prelude.{
  ℕ, ◌+◌, ◌≡◌, Bool, true, refl, Option, none, some, List, [], ◌∷◌, ◌++◌, total-append, inl, inr,
  ap, nat_eq, arith, total, lookup, remove, insert, Unique, insert-Unique, remove-Unique,
  total_values, total_values-insert, total_values-remove, lookup-remove_self, Option-cases, Result,
  ok, err, Outcome, returns, panics, Map,
}
use rtp_mux.Shared.{SocketAddr, LaneClass}
use rtp_mux.Admission.{
  Permit, PendingLane, PreparedLane, PendingLaneEntry, building, ready, Registry,
  PendingLaneAdmission, pair, PairingPoll, done, paired, ExpiredPendingLane, register_admitted,
  become_ready, claim, poll_entry, meet, confirm_reservation, pair_wait_step, reinsert_ready_lane,
  expire, remove_expired, expired_nonces,
}

abbrev pub entry_permit : PendingLaneEntry → Permit
entry_permit (building b) = b.permit
entry_permit (ready lane expires_at) = lane.permit

-- The permits that a result hands to its caller.
abbrev pub admission_permits : PendingLaneAdmission → List Permit
admission_permits (pair lane expires_at) = lane.permit ∷ []
admission_permits _ = []

abbrev pub poll_permits : PairingPoll → List Permit
poll_permits (done (paired lane)) = lane.permit ∷ []
poll_permits _ = []

abbrev pub expired_permits : List ExpiredPendingLane → List Permit
expired_permits [] = []
expired_permits (ExpiredPendingLane.building nonce peer local_addr class p ∷ es) =
    p ∷ expired_permits es
expired_permits (ExpiredPendingLane.ready nonce lane ∷ es) = lane.permit ∷ expired_permits es

abbrev pub left_permits : Option Permit → List Permit
left_permits none = []
left_permits (some p) = p ∷ []

abbrev pub unrestored_permits : Result PendingLane (Unit {0}) → List Permit
unrestored_permits (ok _) = []
unrestored_permits (err lane) = lane.permit ∷ []

-- The weight of the permits inside the registry.
abbrev pub weigh : (Permit → ℕ) → Map ℕ PendingLaneEntry → ℕ
weigh w = total_values (λ e. w (entry_permit e))

-- An operation that neither admits nor drops: it takes permits from its caller and gives permits
-- back, and the registry keeps the rest.
pub record Moves (s : Registry) (taken : List Permit) (s' : Registry) (given : List Permit)
    : Type 0 where
  pub admitted : s'.admitted ≡ s.admitted
  pub per_peer : s'.per_peer ≡ s.per_peer
  pub unique : Unique s'.entries
  pub weighed :
      (w : Permit → ℕ) → total w given + weigh w s'.entries ≡ total w taken + weigh w s.entries

pub frame-Moves :
    {s s' : Registry} {taken given : List Permit} (rest : List Permit)
    → Moves s taken s' given
    → Moves s (taken ++ rest) s' (given ++ rest)
frame-Moves {taken} {given} rest m = record {
  admitted = m.admitted;
  per_peer = m.per_peer;
  unique = m.unique;
  weighed = λ w. omega (arith, m.weighed w, total-append w taken rest, total-append w given rest);
}

-- A registration returns, and accounts for the permit that it was given.
abbrev pub Accounts :
    Registry → Permit → Outcome (Registry × PendingLaneAdmission × Option Permit) → Type 0
Accounts s p (returns (s', adm, left)) =
    Moves s (p ∷ []) s' (admission_permits adm ++ left_permits left)
Accounts s p panics = ⊥

module _ (s : Registry) (u : Unique s.entries) where
  stay-Moves : (ps : List Permit) → Moves s ps s ps
  stay-Moves ps = record { admitted = refl; per_peer = refl; unique = u; weighed = λ w. refl }

  pub removal-Moves :
      (nonce : ℕ) (entry : PendingLaneEntry) (b : Bool)
      → lookup nonce s.entries ≡ some entry
      → Moves s []
          (record s { entries = remove nonce s.entries; notified = b })
          (entry_permit entry ∷ [])
  removal-Moves nonce entry b e = record {
    admitted = refl;
    per_peer = refl;
    unique = remove-Unique nonce s.entries u;
    weighed =
        λ w. ground (arith, e, total_values-remove (λ e. w (entry_permit e)) nonce s.entries u);
  }

  insertion-Moves :
      (nonce : ℕ) (entry : PendingLaneEntry) (b : Bool)
      → lookup nonce s.entries ≡ none
      → Moves s
          (entry_permit entry ∷ [])
          (record s { entries = insert nonce entry s.entries; notified = b })
          []
  insertion-Moves nonce entry b e = record {
    admitted = refl;
    per_peer = refl;
    unique = insert-Unique nonce entry s.entries u;
    weighed =
        λ w. omega (arith, total_values-insert (λ e. w (entry_permit e)) nonce entry s.entries e);
  }

  replacement-Moves :
      (nonce : ℕ) (old new : PendingLaneEntry) (b : Bool)
      → lookup nonce s.entries ≡ some old
      → entry_permit new ≡ entry_permit old
      → Moves s []
          (record s { entries = insert nonce new (remove nonce s.entries); notified = b })
          []
  replacement-Moves nonce old new b e same = record {
    admitted = refl;
    per_peer = refl;
    unique = insert-Unique nonce new (remove nonce s.entries) (remove-Unique nonce s.entries u);
    weighed = λ w. ground (
      arith,
      e,
      ap w same,
      total_values-remove (λ e. w (entry_permit e)) nonce s.entries u,
      total_values-insert (λ e. w (entry_permit e)) nonce new (remove nonce s.entries)
          (lookup-remove_self nonce s.entries),
    );
  }

  meet-Moves :
      (nonce : ℕ) (entry : PendingLaneEntry) (class : LaneClass) (peer : SocketAddr) (group : ℕ)
      → lookup nonce s.entries ≡ some entry
      → let (s', adm) = meet s nonce entry class peer group in Moves s [] s' (admission_permits adm)
  unfolding meet
  meet-Moves nonce (ready lane t) class peer group e =
      ground (arith, stay-Moves [], removal-Moves nonce (ready lane t) true e)
  meet-Moves nonce (building b) class peer group e = ground (arith, stay-Moves [])

  pub register_admitted-Accounts :
      (nonce : ℕ) (class : LaneClass) (peer local_addr : SocketAddr) (group now : ℕ) (p : Permit)
      → Accounts s p (register_admitted s nonce class peer local_addr group now (some p))
  unfolding register_admitted
  register_admitted-Accounts nonce class peer local_addr group now p =
      elim (Option-cases (lookup nonce s.entries)) [
        | inl e ↦ rw (e, register_admitted) (insertion-Moves nonce _ true e)
        | inr (entry, e) ↦
            rw (e, register_admitted)
              (frame-Moves (p ∷ []) (meet-Moves nonce entry class peer group e))
      ]

  claim-Moves :
      (nonce : ℕ) (lane : PreparedLane) (entry : PendingLaneEntry)
      → lookup nonce s.entries ≡ some entry
      → Moves s [] (claim s nonce lane entry).0 []
  unfolding claim
  claim-Moves nonce lane (ready other t) e = replacement-Moves nonce _ _ _ e refl
  claim-Moves nonce lane (building b) e = ground (
    arith,
    replacement-Moves nonce (building b) (building b) s.notified e refl,
    replacement-Moves nonce (building b) (ready (become_ready b lane) b.expires_at) true e refl,
  )

  pub confirm_reservation-Moves :
      (nonce : ℕ) (lane : PreparedLane) → Moves s [] (confirm_reservation s nonce lane).0 []
  unfolding confirm_reservation
  confirm_reservation-Moves nonce lane = elim (Option-cases (lookup nonce s.entries)) [
    | inl e ↦ rw (e, confirm_reservation) (stay-Moves [])
    | inr (entry, e) ↦ rw (e, confirm_reservation) (claim-Moves nonce lane entry e)
  ]

  poll_entry-Moves :
      (nonce : ℕ) (entry : PendingLaneEntry) (class : LaneClass) (peer : SocketAddr)
      (expires_at now : ℕ)
      → lookup nonce s.entries ≡ some entry
      → let (s', poll) = poll_entry s nonce entry class peer expires_at now in
        Moves s [] s' (poll_permits poll)
  unfolding poll_entry
  poll_entry-Moves nonce (ready lane t) class peer expires_at now e =
      ground (arith, stay-Moves [], removal-Moves nonce (ready lane t) true e)
  poll_entry-Moves nonce (building b) class peer expires_at now e = ground (arith, stay-Moves [])

  pub pair_wait_step-Moves :
      (nonce : ℕ) (class : LaneClass) (peer : SocketAddr) (expires_at now : ℕ)
      → let (s', poll) = pair_wait_step s nonce class peer expires_at now in
        Moves s [] s' (poll_permits poll)
  unfolding pair_wait_step
  pair_wait_step-Moves nonce class peer expires_at now =
      elim (Option-cases (lookup nonce s.entries)) [
        | inl e ↦ rw (e, pair_wait_step) (stay-Moves [])
        | inr (entry, e) ↦
            rw (e, pair_wait_step) (poll_entry-Moves nonce entry class peer expires_at now e)
      ]

  pub reinsert_ready_lane-Moves :
      (nonce : ℕ) (lane : PendingLane) (expires_at : ℕ)
      → let (s', result) = reinsert_ready_lane s nonce lane expires_at in
        Moves s (lane.permit ∷ []) s' (unrestored_permits result)
  unfolding reinsert_ready_lane
  reinsert_ready_lane-Moves nonce lane expires_at = elim (Option-cases (lookup nonce s.entries)) [
    | inl e ↦ rw (e, reinsert_ready_lane) (insertion-Moves nonce (ready lane expires_at) true e)
    | inr (entry, e) ↦ rw (e, reinsert_ready_lane) (stay-Moves (lane.permit ∷ []))
  ]

remove_expired-weigh :
    (w : Permit → ℕ) (nonces : List ℕ) (m : Map ℕ PendingLaneEntry)
    → Unique m
    → let (m', removed) = remove_expired nonces m in
      Unique m' × (total w (expired_permits removed) + weigh w m' ≡ weigh w m)
unfolding remove_expired
remove_expired-weigh w [] m u = (u, omega arith)
remove_expired-weigh w (nonce ∷ nonces) m u = elim (Option-cases (lookup nonce m)) [
  | inl gone ↦ rw (gone, remove_expired) (remove_expired-weigh w nonces m u)
  | inr (building b, e) ↦ ground (
    arith,
    e,
    remove_expired-weigh w nonces (remove nonce m) (remove-Unique nonce m u),
    total_values-remove (λ e. w (entry_permit e)) nonce m u,
  )
  | inr (ready lane t, e) ↦ ground (
    arith,
    e,
    remove_expired-weigh w nonces (remove nonce m) (remove-Unique nonce m u),
    total_values-remove (λ e. w (entry_permit e)) nonce m u,
  )
]

pub expire-Moves :
    (s : Registry) (now : ℕ)
    → Unique s.entries
    → let (s', removed) = expire s now in Moves s [] s' (expired_permits removed)
unfolding expire
expire-Moves s now u = record {
  admitted = refl;
  per_peer = refl;
  unique = (remove_expired-weigh (λ _. 0) (expired_nonces now s.entries) s.entries u).0;
  weighed =
      λ w. omega (arith, (remove_expired-weigh w (expired_nonces now s.entries) s.entries u).1);
}
