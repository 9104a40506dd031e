-- ===== src/Admission/System.antt =====
-- The accept tasks over the shared registry of src/admission.rs: any task may act next, and the
-- permits move with Rust's ownership. A permit leaves its holder by a call or by its drop.
use rtp_mux.Prelude.{
  ℕ, ◌≡◌, subst, true, Option, none, some, List, [], ◌∷◌, ◌++◌, inl, inr, nat_eq, arith, lookup,
  Option-cases, Outcome, returns,
}
use rtp_mux.Shared.{SocketAddr, LaneClass}
use rtp_mux.Admission.{
  Permit, PendingLane, PreparedLane, Registry, PendingLaneAdmission, new, try_admit, drop_permit,
  register_admitted, confirm_reservation, pair_wait_step, reinsert_ready_lane, cancel_reservation,
  withdraw, PendingLaneEntry, building, ready, expire,
}
use rtp_mux.Admission.Permits.{
  admission_permits, poll_permits, expired_permits, left_permits, unrestored_permits, Moves,
  frame-Moves, Accounts, register_admitted-Accounts, confirm_reservation-Moves,
  pair_wait_step-Moves, reinsert_ready_lane-Moves, expire-Moves, removal-Moves,
}
use rtp_mux.Admission.Balance.{
  IsBalanced, Moves-IsBalanced, focus-IsBalanced, try_admit-IsBalanced, drop_permit-IsBalanced,
  admitted_permits, new-IsBalanced,
}

pub record System : Type 0 where
  pub registry : Registry
  pub held : List Permit

-- A call on the registry by some task. `before` and `after` are the other permits that are held.
pub data Step (t : System) : System → Type 0 where
  admits :
      (peer : ℕ)
      → Step t (record {
        registry = (try_admit t.registry peer).0;
        held = admitted_permits (try_admit t.registry peer).1 ++ t.held;
      })
  registers :
      (nonce : ℕ) (class : LaneClass) (peer local_addr : SocketAddr) (group now : ℕ)
      (before : List Permit) (p : Permit) (after : List Permit) (s' : Registry)
      (adm : PendingLaneAdmission) (left : Option Permit)
      → t.held ≡ before ++ p ∷ after
      → register_admitted t.registry nonce class peer local_addr group now (some p)
        ≡ returns (s', adm, left)
      → Step t (record {
        registry = s';
        held = (admission_permits adm ++ left_permits left) ++ (before ++ after);
      })
  confirms :
      (nonce : ℕ) (lane : PreparedLane)
      → Step t (record { registry = (confirm_reservation t.registry nonce lane).0; held = t.held })
  polls :
      (nonce : ℕ) (class : LaneClass) (peer : SocketAddr) (expires_at now : ℕ)
      → Step t (record {
        registry = (pair_wait_step t.registry nonce class peer expires_at now).0;
        held = poll_permits (pair_wait_step t.registry nonce class peer expires_at now).1 ++ t.held;
      })
  reinserts :
      (nonce : ℕ) (lane : PendingLane) (expires_at : ℕ) (before after : List Permit)
      → t.held ≡ before ++ lane.permit ∷ after
      → Step t (record {
        registry = (reinsert_ready_lane t.registry nonce lane expires_at).0;
        held =
            unrestored_permits (reinsert_ready_lane t.registry nonce lane expires_at).1
            ++ (before ++ after);
      })
  cancels :
      (nonce : ℕ) (peer : SocketAddr) (class : LaneClass)
      → Step t (record { registry = cancel_reservation t.registry nonce peer class; held = t.held })
  expires :
      (now : ℕ)
      → Step t (record {
        registry = (expire t.registry now).0;
        held = expired_permits (expire t.registry now).1 ++ t.held;
      })
  drops :
      (before : List Permit) (p : Permit) (after : List Permit)
      → t.held ≡ before ++ p ∷ after
      → Step t (record { registry = drop_permit t.registry p; held = before ++ after })

pub data Reach (t : System) : System → Type 0 where
  here : Reach t t
  next : {u v : System} → Reach t u → Step u v → Reach t v

abbrev pub start : System
start = record { registry = new; held = [] }

abbrev pub IsSound : System → Type 0
IsSound t = IsBalanced t.registry t.held

-- A call frees the permit at its place, and the rest stays held.
framed :
    {s s' : Registry} {held given : List Permit} (before : List Permit) (p : Permit)
    (after : List Permit)
    → Moves s (p ∷ []) s' given
    → held ≡ before ++ p ∷ after
    → IsBalanced s held
    → IsBalanced s' (given ++ (before ++ after))
framed {s} before p after m e v =
    Moves-IsBalanced (frame-Moves (before ++ after) m)
      (focus-IsBalanced s before p after (rw e at v))

withdraw-IsBalanced :
    (s : Registry) (held : List Permit) (nonce : ℕ) (peer : SocketAddr) (class : LaneClass)
    (entry : PendingLaneEntry)
    → lookup nonce s.entries ≡ some entry
    → IsBalanced s held
    → IsBalanced (withdraw s nonce peer class entry) held
unfolding withdraw
withdraw-IsBalanced s held nonce peer class (ready lane t) e v = v
withdraw-IsBalanced s held nonce peer class (building b) e v =
    let removed =
      Moves-IsBalanced (frame-Moves held (removal-Moves s v.unique nonce (building b) true e)) v in
    let dropped = drop_permit-IsBalanced _ b.permit held removed in ground (arith, v, dropped)

pub cancel_reservation-IsBalanced :
    (s : Registry) (held : List Permit) (nonce : ℕ) (peer : SocketAddr) (class : LaneClass)
    → IsBalanced s held
    → IsBalanced (cancel_reservation s nonce peer class) held
unfolding cancel_reservation
cancel_reservation-IsBalanced s held nonce peer class v =
    elim (Option-cases (lookup nonce s.entries)) [
      | inl e ↦ rw (e, cancel_reservation) v
      | inr (entry, e) ↦
          rw (e, cancel_reservation) (withdraw-IsBalanced s held nonce peer class entry e v)
    ]

accounted :
    {s : Registry} {p : Permit} {o : Outcome (Registry × PendingLaneAdmission × Option Permit)}
    {s' : Registry} {adm : PendingLaneAdmission} {left : Option Permit}
    → o ≡ returns (s', adm, left)
    → Accounts s p o
    → Moves s (p ∷ []) s' (admission_permits adm ++ left_permits left)
accounted {s} {p} e a = subst (Accounts s p) e a

-- Every call of every task keeps the counts exact.
pub Step-IsSound : {t u : System} → Step t u → IsSound t → IsSound u
Step-IsSound {t} (admits peer) v = try_admit-IsBalanced t.registry t.held peer v
Step-IsSound {t} (registers nonce class peer local_addr group now before p after s' adm left e r)
      v =
    framed before p after
      (accounted r
        (register_admitted-Accounts t.registry v.unique nonce class peer local_addr group now p))
      e v
Step-IsSound {t} (confirms nonce lane) v =
    Moves-IsBalanced (frame-Moves t.held (confirm_reservation-Moves t.registry v.unique nonce lane))
      v
Step-IsSound {t} (polls nonce class peer expires_at now) v =
    Moves-IsBalanced
      (frame-Moves t.held
        (pair_wait_step-Moves t.registry v.unique nonce class peer expires_at now))
      v
Step-IsSound {t} (reinserts nonce lane expires_at before after e) v =
    framed before lane.permit after
      (reinsert_ready_lane-Moves t.registry v.unique nonce lane expires_at) e v
Step-IsSound {t} (cancels nonce peer class) v =
    cancel_reservation-IsBalanced t.registry t.held nonce peer class v
Step-IsSound {t} (expires now) v =
    Moves-IsBalanced (frame-Moves t.held (expire-Moves t.registry now v.unique)) v
Step-IsSound {t} (drops before p after e) v =
    drop_permit-IsBalanced t.registry p (before ++ after)
      (focus-IsBalanced t.registry before p after (rw e at v))

-- From the empty registry, over any interleaving of calls, `admitted` is the number of live permits
-- and at most 1024, and each peer's count is the number of its live permits and at most 32.
pub Reach-IsSound : {t : System} → Reach start t → IsSound t
Reach-IsSound here = new-IsBalanced
Reach-IsSound (next r st) = Step-IsSound st (Reach-IsSound r)

-- Once every permit is dropped and no entry is left, the registry admits again: its counts are 0.
pub Reach-drained :
    {t : System}
    → Reach start t
    → t.held ≡ []
    → t.registry.entries ≡ []
    → (t.registry.admitted ≡ 0) × ((ip : ℕ) → lookup ip t.registry.per_peer ≡ none)
Reach-drained {t} r h e =
    let v = Reach-IsSound r in
    (ground (arith, v.counted), λ ip. ground (arith, v.counted_peer ip, v.no_zero ip))
