-- ===== src/Admission/Pairing.antt =====
-- Whom src/admission.rs pairs: lanes of one nonce, one peer address and one group, of different
-- classes, and each lane once.
use rtp_mux.Prelude.{
  ℕ, ◌+◌, ◌≡◌, ◌≢◌, refl, true, false, Option, none, some, inl, inr, eqb, eqb_iff, nat_eq, arith,
  lookup, insert, remove, lookup-remove, lookup-remove_self, lookup-insert_self, Option-cases, ok,
  returns,
}
use rtp_mux.Shared.{
  SocketAddr, LaneClass, beq_class, beq_addr_iff, beq_class_ne, ne-beq_class, beq_class_refl,
  pairing_deadline,
}
use rtp_mux.Admission.{
  Permit, PendingLane, PreparedLane, Building, PendingLaneEntry, building, ready, Registry,
  PendingLaneAdmission, reserved, pair, PairingPoll, done, paired, become_ready, meet, claim,
  poll_entry, register_admitted, confirm_reservation, pair_wait_step,
}

-- The partner handed out is the lane that stood ready for the nonce, and nobody gets it again.
pub record HandsOver (s : Registry) (nonce : ℕ) (lane : PendingLane) (class : LaneClass)
    (peer : SocketAddr) (s' : Registry) : Type 0 where
  pub stood : (t : ℕ) × (lookup nonce s.entries ≡ some (ready lane t))
  pub other_class : lane.class ≢ class
  pub same_ip : lane.peer.ip ≡ peer.ip
  pub taken : lookup nonce s'.entries ≡ none
  pub others : (j : ℕ) → j ≢ nonce → lookup j s'.entries ≡ lookup j s.entries

hand_over :
    (s : Registry) (nonce : ℕ) (lane : PendingLane) (t : ℕ) (class : LaneClass) (peer : SocketAddr)
    → lookup nonce s.entries ≡ some (ready lane t)
    → eqb lane.peer.ip peer.ip ≡ true
    → beq_class lane.class class ≡ false
    → HandsOver s nonce lane class peer
        (record s { entries = remove nonce s.entries; notified = true })
hand_over s nonce lane t class peer e i c = record {
  stood = (t, e);
  other_class = beq_class_ne lane.class class c;
  same_ip = ground arith;
  taken = lookup-remove_self nonce s.entries;
  others = λ j d. ground (arith, lookup-remove nonce j s.entries, eqb_iff nonce j);
}

meet-pair :
    (s : Registry) (nonce : ℕ) (entry : PendingLaneEntry) (class : LaneClass) (peer : SocketAddr)
    (group : ℕ) (s' : Registry) (lane : PendingLane) (t : ℕ)
    → lookup nonce s.entries ≡ some entry
    → meet s nonce entry class peer group ≡ (s', pair lane t)
    → HandsOver s nonce lane class peer s' × (lane.group ≡ group)
unfolding meet
meet-pair s nonce (building b) class peer group s' lane t e h = ground arith
meet-pair s nonce (ready other t') class peer group s' lane t e h =
    ground (arith, hand_over s nonce other t' class peer e, eqb_iff other.group group)

-- A registration that pairs gets the lane that stood ready for its nonce, which is of the other
-- class, from the same IP address and of the same group; the entry is gone, every other entry is
-- as before, and the caller keeps its permit.
pub register_admitted-pair :
    (s s' : Registry) (nonce : ℕ) (class : LaneClass) (peer local_addr : SocketAddr) (group now : ℕ)
    (p : Permit) (lane : PendingLane) (t : ℕ) (left : Option Permit)
    → register_admitted s nonce class peer local_addr group now (some p)
      ≡ returns (s', pair lane t, left)
    → HandsOver s nonce lane class peer s' × (lane.group ≡ group) × (left ≡ some p)
unfolding register_admitted
register_admitted-pair s s' nonce class peer local_addr group now p lane t left h =
    elim (Option-cases (lookup nonce s.entries)) [
      | inl e ↦ ground (arith, e)
      | inr (entry, e) ↦ ground (arith, e, meet-pair s nonce entry class peer group s' lane t e)
    ]

pub poll_entry-paired :
    (s : Registry) (nonce : ℕ) (entry : PendingLaneEntry) (class : LaneClass) (peer : SocketAddr)
    (expires_at now : ℕ) (s' : Registry) (lane : PendingLane)
    → lookup nonce s.entries ≡ some entry
    → poll_entry s nonce entry class peer expires_at now ≡ (s', done (paired lane))
    → HandsOver s nonce lane class peer s'
unfolding poll_entry
poll_entry-paired s nonce (building b) class peer expires_at now s' lane e h = ground arith
poll_entry-paired s nonce (ready other t) class peer expires_at now s' lane e h =
    ground (arith, hand_over s nonce other t class peer e)

-- A waiting lane that pairs gets the lane that stood ready for its nonce, of the other class and
-- from the same IP address, under the same conditions.
pub pair_wait_step-paired :
    (s s' : Registry) (nonce : ℕ) (class : LaneClass) (peer : SocketAddr) (expires_at now : ℕ)
    (lane : PendingLane)
    → pair_wait_step s nonce class peer expires_at now ≡ (s', done (paired lane))
    → HandsOver s nonce lane class peer s'
unfolding pair_wait_step
pair_wait_step-paired s s' nonce class peer expires_at now lane h =
    elim (Option-cases (lookup nonce s.entries)) [
      | inl e ↦ ground (arith, e)
      | inr (entry, e) ↦
          ground (arith, e, poll_entry-paired s nonce entry class peer expires_at now s' lane e)
    ]

-- The first lane of a nonce, from its reservation to the lane that is built for it.
module _ (s : Registry) (nonce : ℕ) (lane : PreparedLane) (group now : ℕ) (p : Permit)
    (free : lookup nonce s.entries ≡ none) where
  abbrev reservation : Building
  reservation = record {
    peer = lane.peer;
    local_addr = lane.local_addr;
    class = lane.class;
    group = group;
    expires_at = now + pairing_deadline;
    generation = 0;
    permit = p;
  }

  abbrev after_reserve : Registry
  after_reserve = record s {
    entries = insert nonce (building reservation) s.entries;
    notified = true;
  }

  abbrev after_confirm : Registry
  after_confirm = record s {
    entries =
        insert nonce (ready (become_ready reservation lane) (now + pairing_deadline))
          (remove nonce after_reserve.entries);
    notified = true;
  }

  register_admitted-first :
      register_admitted s nonce lane.class lane.peer lane.local_addr group now (some p)
      ≡ returns (after_reserve, reserved, none)
  unfolding register_admitted
  register_admitted-first = ground (arith, free)

  claim-first : claim after_reserve nonce lane (building reservation) ≡ (after_confirm, ok 1)
  unfolding claim
  claim-first = ground (arith, beq_addr_iff lane.peer lane.peer, beq_class_refl lane.class)

  confirm_reservation-first : confirm_reservation after_reserve nonce lane ≡ (after_confirm, ok 1)
  unfolding confirm_reservation
  confirm_reservation-first =
      ground (arith, claim-first, lookup-insert_self nonce (building reservation) s.entries)

  abbrev first : PendingLane
  first = become_ready reservation lane

  stands : lookup nonce after_confirm.entries ≡ some (ready first (now + pairing_deadline))
  stands =
      lookup-insert_self nonce (ready first (now + pairing_deadline))
        (remove nonce after_reserve.entries)

  -- The first lane reserves its nonce and becomes ready; then a lane of the other class from the
  -- same IP address and group is paired with it, with the first lane's own session and permit.
  pub register-confirm-register :
      (class : LaneClass) (peer local_addr : SocketAddr) (later : ℕ) (q : Permit)
      → lane.class ≢ class
      → lane.peer.ip ≡ peer.ip
      → (s₁ s₂ s₃ : Registry) × (other : PendingLane) × (register_admitted s nonce lane.class
            lane.peer lane.local_addr group now
            (some p)
          ≡ returns (s₁, reserved, none))
        × (confirm_reservation s₁ nonce lane ≡ (s₂, ok 1))
        × (register_admitted s₂ nonce class peer local_addr group later (some q)
            ≡ returns (s₃, pair other (now + pairing_deadline), some q))
        × (other.session ≡ lane.session)
        × (other.permit ≡ p)
  unfolding register_admitted meet
  register-confirm-register class peer local_addr later q c i = (
    after_reserve,
    after_confirm,
    record after_confirm { entries = remove nonce after_confirm.entries },
    first,
    register_admitted-first,
    confirm_reservation-first,
    ground (
      arith,
      stands,
      eqb_iff lane.peer.ip peer.ip,
      eqb_iff group group,
      ne-beq_class lane.class class c,
    ),
    refl,
    refl,
  )

  -- The second lane may also come before the first is ready: it is told to wait until the first
  -- lane's deadline, and its next poll after the first lane is ready pairs the two.
  pub register-wait-confirm-poll :
      (class : LaneClass) (peer local_addr : SocketAddr) (later polled : ℕ) (q : Permit)
      → lane.class ≢ class
      → lane.peer.ip ≡ peer.ip
      → (s₁ s₂ s₃ : Registry) × (other : PendingLane) × (register_admitted s nonce lane.class
            lane.peer lane.local_addr group now
            (some p)
          ≡ returns (s₁, reserved, none))
        × (register_admitted s₁ nonce class peer local_addr group later (some q)
            ≡ returns (s₁, PendingLaneAdmission.wait 0 (now + pairing_deadline), some q))
        × (pair_wait_step s₁ nonce class peer (now + pairing_deadline) now ≡ (s₁, PairingPoll.wait))
        × (confirm_reservation s₁ nonce lane ≡ (s₂, ok 1))
        × (pair_wait_step s₂ nonce class peer (now + pairing_deadline) polled
            ≡ (s₃, done (paired other)))
        × (other.session ≡ lane.session)
        × (other.permit ≡ p)
  unfolding register_admitted meet pair_wait_step poll_entry
  register-wait-confirm-poll class peer local_addr later polled q c i =
      let reserved_first = lookup-insert_self nonce (building reservation) s.entries in
      (
        after_reserve,
        after_confirm,
        record after_confirm { entries = remove nonce after_confirm.entries },
        first,
        register_admitted-first,
        ground (
          arith,
          reserved_first,
          eqb_iff lane.peer.ip peer.ip,
          eqb_iff group group,
          ne-beq_class lane.class class c,
        ),
        ground
            (arith, reserved_first, eqb_iff lane.peer.ip peer.ip, ne-beq_class lane.class class c),
        confirm_reservation-first,
        ground (arith, stands, eqb_iff lane.peer.ip peer.ip, ne-beq_class lane.class class c),
        refl,
        refl,
      )
