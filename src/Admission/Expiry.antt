-- ===== src/Admission/Expiry.antt =====
-- Expiry, cancellation and restoration of entries in src/admission.rs.
use rtp_mux.Prelude.{
  ℕ, ◌<◌, ◌≡◌, ◌≢◌, refl, true, false, Option, none, some, List, [], ◌∷◌, inl, inr, eqb, eqb_iff,
  leb, if◌then◌else◌, nat_eq, arith, Map, lookup, remove, insert, lookup-remove, lookup-insert_self,
  Unique, Option-cases, Bool-cases, ok, returns, Bool, ◌||◌, ◌&&◌, ◌∙◌, beq_refl,
}
use rtp_mux.Shared.{SocketAddr, LaneClass, beq_class, beq_addr, ne-beq_class}
use rtp_mux.Admission.{
  Permit, PendingLane, PendingLaneEntry, building, ready, Registry, entry_expires_at, pair,
  expired_nonces, remove_expired, expire, min_expiry, next_expiry, cancel_reservation, withdraw,
  drop_permit, reinsert_ready_lane, register_admitted, meet,
}

abbrev pub keep_fresh : ℕ → Option PendingLaneEntry → Option PendingLaneEntry
keep_fresh now none = none
keep_fresh now (some entry) = if leb (entry_expires_at entry) now then none else some entry

-- Some nonce of the list is `j`.
abbrev among : ℕ → List ℕ → Bool
among j [] = false
among j (i ∷ is) = eqb i j || among j is

remove_expired-lookup :
    (j : ℕ) (nonces : List ℕ) (m : Map ℕ PendingLaneEntry)
    → lookup j (remove_expired nonces m).0 ≡ (if among j nonces then none else lookup j m)
unfolding remove_expired
remove_expired-lookup j [] m = refl
remove_expired-lookup j (i ∷ is) m = elim (Option-cases (lookup i m)) [
  | inl e ↦ rw (e, remove_expired) (ground (arith, e, eqb_iff i j, remove_expired-lookup j is m))
  | inr (entry, e) ↦
      rw (e, remove_expired)
        (ground (arith, eqb_iff i j, lookup-remove i j m, remove_expired-lookup j is (remove i m)))
]

among-absent :
    (now j : ℕ) (m : Map ℕ PendingLaneEntry)
    → lookup j m ≡ none
    → among j (expired_nonces now m) ≡ false
unfolding expired_nonces lookup
among-absent now j [] h = refl
among-absent now j ((i, entry) ∷ m) h = ground (arith, eqb_iff i j, among-absent now j m)

among-expired_nonces :
    (now j : ℕ) (m : Map ℕ PendingLaneEntry)
    → Unique m
    → (if among j (expired_nonces now m) then none else lookup j m) ≡ keep_fresh now (lookup j m)
unfolding expired_nonces lookup
among-expired_nonces now j [] u = refl
among-expired_nonces now j ((i, entry) ∷ m) u =
    ground (arith, eqb_iff i j, among-absent now j m, among-expired_nonces now j m u.1)

-- `expire` removes the entries whose deadline has come, whatever their state, and keeps all others.
pub lookup-expire :
    (s : Registry) (now j : ℕ)
    → Unique s.entries
    → lookup j (expire s now).0.entries ≡ keep_fresh now (lookup j s.entries)
unfolding expire
lookup-expire s now j u =
    remove_expired-lookup j (expired_nonces now s.entries) s.entries
    ∙ among-expired_nonces now j s.entries u

abbrev Before : ℕ → Option ℕ → Type 0
Before now none = Unit
Before now (some t) = now < t

expired_nonces-early :
    (now : ℕ) (m : Map ℕ PendingLaneEntry) → Before now (min_expiry m) → expired_nonces now m ≡ []
unfolding expired_nonces min_expiry
expired_nonces-early now [] h = refl
expired_nonces-early now ((i, entry) ∷ m) h = elim (Option-cases (min_expiry m)) [
  | inl e ↦ ground (arith, e, expired_nonces-early now m (rw e tt))
  | inr (t, e) ↦ ground (arith, e, expired_nonces-early now m (rw e (ground (arith, e))))
]

-- Before the time that `next_expiry` gives, nothing expires.
pub expire-early : (s : Registry) (now : ℕ) → Before now (next_expiry s) → expire s now ≡ (s, [])
unfolding expire next_expiry remove_expired
expire-early s now h = ground (arith, expired_nonces-early now s.entries h)

-- The entry that is first to run out.
min_expiry-due :
    (t : ℕ) (m : Map ℕ PendingLaneEntry)
    → Unique m
    → min_expiry m ≡ some t
    → (nonce : ℕ) × (entry : PendingLaneEntry) × (lookup nonce m ≡ some entry)
      × (entry_expires_at entry ≡ t)
unfolding min_expiry lookup
min_expiry-due t [] u h = cc
min_expiry-due t ((i, entry) ∷ m) u h = elim (Bool-cases (eqb (entry_expires_at entry) t)) [
  | inl first ↦ (i, entry, rw (beq_refl i), ground arith)
  | inr later ↦
      let (nonce, other, e, f) =
        min_expiry-due t m u.1 (ground (arith, Option-cases (min_expiry m))) in
      (nonce, other, ground (arith, e, u.0, eqb_iff i nonce), f)
]

-- At the time that `next_expiry` gives, `expire` removes an entry, so the expiry worker that sleeps
-- until then makes progress.
pub expire-due :
    (s : Registry) (t : ℕ)
    → Unique s.entries
    → next_expiry s ≡ some t
    → (nonce : ℕ) × (entry : PendingLaneEntry) × (lookup nonce s.entries ≡ some entry)
      × (entry_expires_at entry ≡ t)
      × (lookup nonce (expire s t).0.entries ≡ none)
unfolding next_expiry
expire-due s t u h =
    let (nonce, entry, e, f) = min_expiry-due t s.entries u h in
    (nonce, entry, e, f, ground (arith, e, f, lookup-expire s t nonce u))

abbrev pub cancelled : SocketAddr → LaneClass → Option PendingLaneEntry → Option PendingLaneEntry
cancelled peer class none = none
cancelled peer class (some (ready lane t)) = some (ready lane t)
cancelled peer class (some (building b)) =
    if beq_addr b.peer peer && beq_class b.class class then none else some (building b)

-- `cancel_reservation` removes the entry of the nonce exactly if it is a reservation of this very
-- peer address and class; a lane that is ready and every other nonce are left as they were.
pub lookup-cancel_reservation :
    (s : Registry) (nonce j : ℕ) (peer : SocketAddr) (class : LaneClass)
    → lookup j (cancel_reservation s nonce peer class).entries
      ≡ (if eqb nonce j then cancelled peer class (lookup j s.entries) else lookup j s.entries)
unfolding cancel_reservation withdraw drop_permit
lookup-cancel_reservation s nonce j peer class = elim (Option-cases (lookup nonce s.entries)) [
  | inl e ↦ ground (arith, e, eqb_iff nonce j)
  | inr (building b, e) ↦ ground (arith, e, eqb_iff nonce j, lookup-remove nonce j s.entries)
  | inr (ready lane t, e) ↦ ground (arith, e, eqb_iff nonce j)
]

-- A ready lane that is put back under a free nonce is the lane that the next fitting registration
-- is paired with, with its old deadline.
pub reinsert-register :
    (s : Registry) (nonce : ℕ) (lane : PendingLane) (t : ℕ) (class : LaneClass)
    (peer local_addr : SocketAddr) (now : ℕ) (q : Permit)
    → lookup nonce s.entries ≡ none
    → lane.class ≢ class
    → lane.peer.ip ≡ peer.ip
    → (s₁ s₂ : Registry) × (reinsert_ready_lane s nonce lane t ≡ (s₁, ok tt))
      × (register_admitted s₁ nonce class peer local_addr lane.group now (some q)
          ≡ returns (s₂, pair lane t, some q))
unfolding reinsert_ready_lane register_admitted meet
reinsert-register s nonce lane t class peer local_addr now q free c i =
    let s₁ : Registry = record s {
      entries = insert nonce (ready lane t) s.entries;
      notified = true;
    } in
    (
      s₁,
      record s₁ { entries = remove nonce s₁.entries },
      ground (arith, free),
      ground (
        arith,
        lookup-insert_self nonce (ready lane t) s.entries,
        eqb_iff lane.peer.ip peer.ip,
        eqb_iff lane.group lane.group,
        ne-beq_class lane.class class c,
      ),
    )
