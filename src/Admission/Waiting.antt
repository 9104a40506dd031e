-- ===== src/Admission/Waiting.antt =====
-- `wait_for_pair` of src/admission.rs: the loop of a lane whose partner is still being built. What
-- other tasks do to the registry between two polls is free.
use rtp_mux.Prelude.{
  ℕ, ◌≡◌, ◌≢◌, refl, sym, subst, Bool, true, false, ◌||◌, Option, none, some, List, [], ◌∷◌, ◌⊎◌,
  inl, inr, eqb_iff, if◌then◌else◌, nat_eq, arith, lookup, Option-cases, Bool-cases,
}
use mathlib.Core.Option.{some-injective}
use rtp_mux.Shared.{SocketAddr, LaneClass, beq_class_ne}
use rtp_mux.Admission.{
  PendingLaneEntry, building, ready, Building, Registry, PendingLaneWait, paired, timeout,
  reservation_lost, PairingPoll, done, pair_wait_step, poll_entry, entry_peer, entry_class,
}
use rtp_mux.Admission.Pairing.{HandsOver, poll_entry-paired}

-- One wake of the loop: `timeout_at` elapsed or the watch channel spoke, and the registry and the
-- time that the woken task finds.
pub record Wake : Type 0 where
  pub elapsed : Bool
  pub registry : Registry
  pub now : ℕ

abbrev after_poll :
    Registry × PairingPoll
    → Option (Registry × PendingLaneWait)
    → Option (Registry × PendingLaneWait)
after_poll (s, done r) rest = some (s, r)
after_poll (s, PairingPoll.wait) rest = rest

-- The poll after the deadline: a partner that is still being built is a timeout.
abbrev last_poll : Registry × PairingPoll → Registry × PendingLaneWait
last_poll (s, done r) = (s, r)
last_poll (s, PairingPoll.wait) = (s, timeout)

returned :
    (p : Registry × PairingPoll) (rest : Option (Registry × PendingLaneWait))
    → (r : Registry × PendingLaneWait) × (rest ≡ some r)
    → (r : Registry × PendingLaneWait) × (after_poll p rest ≡ some r)
returned (s, done r) rest e = ((s, r), refl)
returned (s, PairingPoll.wait) rest e = e

module _ (nonce : ℕ) (class : LaneClass) (peer : SocketAddr) (expires_at : ℕ) where
  abbrev poll : Registry → ℕ → Registry × PairingPoll
  poll s now = pair_wait_step s nonce class peer expires_at now

  -- `none` means that the loop still waits after the listed wakes.
  unfoldable pub wait_for_pair : Registry → ℕ → List Wake → Option (Registry × PendingLaneWait)
  wait_for_pair s now [] = after_poll (poll s now) none
  wait_for_pair s now (w ∷ ws) =
      let rest = wait_for_pair w.registry w.now ws in
      after_poll (poll s now) (if w.elapsed then some (last_poll (poll w.registry w.now)) else rest)

  abbrev pub any_elapsed : List Wake → Bool
  any_elapsed [] = false
  any_elapsed (w ∷ ws) = w.elapsed || any_elapsed ws

  -- The wait ends: once the timer has woken the loop, it has returned.
  pub wait_for_pair-returns :
      (s : Registry) (now : ℕ) (ws : List Wake)
      → any_elapsed ws ≡ true
      → (r : Registry × PendingLaneWait) × (wait_for_pair s now ws ≡ some r)
  unfolding wait_for_pair
  wait_for_pair-returns s now [] h = cc
  wait_for_pair-returns s now (w ∷ ws) h = elim (Bool-cases w.elapsed) [
    | inl fired ↦
        rw fired (returned (poll s now) (some (last_poll (poll w.registry w.now))) (_, refl))
    | inr spoke ↦ rw spoke (
        returned (poll s now) (wait_for_pair w.registry w.now ws)
          (wait_for_pair-returns w.registry w.now ws (ground arith)))
  ]

  -- Why no partner was found under the nonce.
  abbrev Unfit : Option PendingLaneEntry → Type 0
  Unfit none = Unit
  Unfit (some entry) = ((entry_peer entry).ip ≢ peer.ip) ⊎ (entry_class entry ≡ class)

  -- What a result says of the registry that the last poll left, where `Met` tells the registries
  -- that the polls met.
  abbrev pub Explains : (Registry → Type 0) → Registry → PendingLaneWait → Type 0
  Explains Met s' (paired lane) = (s : Registry) × Met s × HandsOver s nonce lane class peer s'
  Explains Met s' timeout =
      (b : Building) × (lookup nonce s'.entries ≡ some (building b))
      × (b.class ≢ class)
      × (b.peer.ip ≡ peer.ip)
  Explains Met s' (reservation_lost reason) = Unfit (lookup nonce s'.entries)

  unfit :
      (entry : PendingLaneEntry) (s' : Registry)
      → lookup nonce s'.entries ≡ some entry
      → ((entry_peer entry).ip ≢ peer.ip) ⊎ (entry_class entry ≡ class)
      → Unfit (lookup nonce s'.entries)
  unfit entry s' e h = rw e h

  polled_entry-Explains :
      (s : Registry) (entry : PendingLaneEntry) (now : ℕ) (s' : Registry) (q : PairingPoll)
      → lookup nonce s.entries ≡ some entry
      → poll_entry s nonce entry class peer expires_at now ≡ (s', q)
      → Explains (λ x. x ≡ s) s' (last_poll (s', q)).1
  unfolding poll_entry
  polled_entry-Explains s (building b) now s' (done (paired lane)) e h = ground arith
  polled_entry-Explains s (building b) now s' (done timeout) e h = (
    b,
    ground (arith, e),
    ground (arith, beq_class_ne b.class class),
    ground (arith, eqb_iff b.peer.ip peer.ip),
  )
  polled_entry-Explains s (building b) now s' PairingPoll.wait e h = (
    b,
    ground (arith, e),
    ground (arith, beq_class_ne b.class class),
    ground (arith, eqb_iff b.peer.ip peer.ip),
  )
  polled_entry-Explains s (building b) now s' (done (reservation_lost reason)) e h =
      unfit (building b) s' (ground (arith, e))
        (ground (arith, eqb_iff b.peer.ip peer.ip, beq_class_ne b.class class))
  polled_entry-Explains s (ready lane t) now s' (done (paired other)) e h =
      (s, refl, poll_entry-paired s nonce (ready lane t) class peer expires_at now s' other e h)
  polled_entry-Explains s (ready lane t) now s' (done (reservation_lost reason)) e h =
      unfit (ready lane t) s' (ground (arith, e))
        (ground (arith, eqb_iff lane.peer.ip peer.ip, beq_class_ne lane.class class))
  polled_entry-Explains s (ready lane t) now s' (done timeout) e h = ground arith
  polled_entry-Explains s (ready lane t) now s' PairingPoll.wait e h = ground arith

  polled-Explains :
      (s : Registry) (now : ℕ) (s' : Registry) (q : PairingPoll)
      → poll s now ≡ (s', q)
      → Explains (λ x. x ≡ s) s' (last_poll (s', q)).1
  unfolding pair_wait_step
  polled-Explains s now s' q h = elim (Option-cases (lookup nonce s.entries)) [
    | inl e ↦
        subst (λ (x : Registry × PairingPoll). Explains (λ x. x ≡ s) x.0 (last_poll x).1)
          (rw (e, pair_wait_step) at h) (rw e tt)
    | inr (entry, e) ↦ polled_entry-Explains s entry now s' q e (rw (e, pair_wait_step) at h)
  ]

  -- The registries that a wait may meet: the one it starts on and those of its wakes.
  abbrev pub AmongMet : Registry → List Wake → Registry → Type 0
  AmongMet s [] x = x ≡ s
  AmongMet s (w ∷ ws) x = (x ≡ s) ⊎ AmongMet w.registry ws x

  AmongMet-start : (s : Registry) (ws : List Wake) (x : Registry) → x ≡ s → AmongMet s ws x
  AmongMet-start s [] x e = e
  AmongMet-start s (w ∷ ws) x e = inl e

  Explains-wider :
      (P Q : Registry → Type 0)
      → ((x : Registry) → P x → Q x)
      → (s' : Registry) (r : PendingLaneWait) → Explains P s' r
      → Explains Q s' r
  Explains-wider P Q f s' (paired lane) (s, p, h) = (s, f s p, h)
  Explains-wider P Q f s' timeout h = h
  Explains-wider P Q f s' (reservation_lost reason) h = h

  -- Where each poll meets a registry of `P`.
  module _ (P : Registry → Type 0) where
    after_poll-Explains :
        (p : Registry × PairingPoll) (rest : Option (Registry × PendingLaneWait)) (s' : Registry)
        (r : PendingLaneWait)
        → ((s' : Registry) (q : PairingPoll) → p ≡ (s', q) → Explains P s' (last_poll (s', q)).1)
        → (rest ≡ some (s', r) → Explains P s' r)
        → after_poll p rest ≡ some (s', r)
        → Explains P s' r
    after_poll-Explains (s, done q) rest s' r polled later h =
        subst (λ (x : Registry × PendingLaneWait). Explains P x.0 x.1) (some-injective _ _ h)
          (polled s (done q) refl)
    after_poll-Explains (s, PairingPoll.wait) rest s' r polled later h = later h

    last_poll-Explains :
        (p : Registry × PairingPoll) (s' : Registry) (r : PendingLaneWait)
        → ((s' : Registry) (q : PairingPoll) → p ≡ (s', q) → Explains P s' (last_poll (s', q)).1)
        → last_poll p ≡ (s', r)
        → Explains P s' r
    last_poll-Explains (s, q) s' r polled h =
        subst (λ (x : Registry × PendingLaneWait). Explains P x.0 x.1) h (lasts q (polled s q refl))
      where
        lasts :
            (q : PairingPoll)
            → Explains P s (last_poll (s, q)).1
            → Explains P (last_poll (s, q)).0 (last_poll (s, q)).1
        lasts (done r) x = x
        lasts PairingPoll.wait x = x

    -- A poll of a registry of `P`.
    met-Explains :
        (s : Registry) (now : ℕ)
        → P s
        → (s' : Registry) (q : PairingPoll) → poll s now ≡ (s', q)
        → Explains P s' (last_poll (s', q)).1
    met-Explains s now m s' q h =
        Explains-wider (λ x. x ≡ s) P (λ x e. subst P (sym e) m) s' (last_poll (s', q)).1
          (polled-Explains s now s' q h)

  -- A wait that returns a lane took one that stood ready for the nonce, of the other class and from
  -- the same IP address, out of a registry that it met: the one at its start or one of those at its
  -- wakes. It times out only while a fitting partner is still being built, and it gives the
  -- reservation up only when the nonce has no fitting entry.
  pub wait_for_pair-Explains :
      (s : Registry) (now : ℕ) (ws : List Wake) (s' : Registry) (r : PendingLaneWait)
      → wait_for_pair s now ws ≡ some (s', r)
      → Explains (AmongMet s ws) s' r
  unfolding wait_for_pair
  wait_for_pair-Explains s now [] s' r h =
      after_poll-Explains (AmongMet s []) (poll s now) none s' r
        (met-Explains (AmongMet s []) s now refl) (λ e. cc) h
  wait_for_pair-Explains s now (w ∷ ws) s' r h =
      let met = AmongMet s (w ∷ ws) in
      let first = met-Explains met s now (inl refl) in
      let woken : met w.registry = inr (AmongMet-start w.registry ws w.registry refl) in
      elim (Bool-cases w.elapsed) [
        | inl fired ↦
            after_poll-Explains met (poll s now) _ s' r first
              (λ e.
                last_poll-Explains met (poll w.registry w.now) s' r
                  (met-Explains met w.registry w.now woken) (some-injective _ _ e))
              (rw fired at h)
        | inr spoke ↦
            after_poll-Explains met (poll s now) _ s' r first
              (λ e.
                Explains-wider (AmongMet w.registry ws) met (λ x m. inr m) s' r
                  (wait_for_pair-Explains w.registry w.now ws s' r e))
              (rw spoke at h)
      ]
