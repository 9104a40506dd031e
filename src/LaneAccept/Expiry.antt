-- ===== src/LaneAccept/Expiry.antt =====
-- src/server.rs, run_pending_lane_expiry: what the worker does when its sleep ends. The worker owns
-- the expired lanes, so that their permits are dropped with them.
use rtp_mux.Prelude.{ℕ, ◌≡◌, List, [], ◌∷◌, ◌++◌, lookup, nat_eq, map, refl}
use rtp_mux.LaneRejection.{pairing_timeout}
use rtp_mux.Admission.{Registry, Permit, ExpiredPendingLane, drop_permit, expire}
use rtp_mux.Admission.Permits.{expired_permits, frame-Moves, expire-Moves}
use rtp_mux.Admission.Balance.{IsBalanced, Moves-IsBalanced, drop_permit-IsBalanced}
use rtp_mux.Admission.Expiry.{lookup-expire, keep_fresh}
use rtp_mux.LaneAccept.{Output, rejected}

expiry_record : ExpiredPendingLane → Output
expiry_record (ExpiredPendingLane.building nonce peer local_addr class permit) =
    rejected pairing_timeout peer local_addr class
expiry_record (ExpiredPendingLane.ready nonce lane) =
    rejected pairing_timeout lane.peer lane.local_addr lane.class

expired_permit : ExpiredPendingLane → Permit
expired_permit (ExpiredPendingLane.building nonce peer local_addr class permit) = permit
expired_permit (ExpiredPendingLane.ready nonce lane) = lane.permit

drop_expired : Registry → List ExpiredPendingLane → Registry
unfolding expired_permit
drop_expired s [] = s
drop_expired s (e ∷ es) = drop_expired (drop_permit s (expired_permit e)) es

pub expire_and_record : Registry → ℕ → Registry × List Output
unfolding expiry_record drop_expired
expire_and_record s now =
    let (s', removed) = expire s now in (drop_expired s' removed, map expiry_record removed)

drop_expired-IsBalanced :
    (s : Registry) (held : List Permit) (es : List ExpiredPendingLane)
    → IsBalanced s (expired_permits es ++ held)
    → IsBalanced (drop_expired s es) held
unfolding drop_expired expired_permit
drop_expired-IsBalanced s held [] v = v
drop_expired-IsBalanced s held (ExpiredPendingLane.building nonce peer local_addr class p ∷ es) v =
    drop_expired-IsBalanced (drop_permit s p) held es
      (drop_permit-IsBalanced s p (expired_permits es ++ held) v)
drop_expired-IsBalanced s held (ExpiredPendingLane.ready nonce lane ∷ es) v =
    drop_expired-IsBalanced (drop_permit s lane.permit) held es
      (drop_permit-IsBalanced s lane.permit (expired_permits es ++ held) v)

drop_expired-entries :
    (s : Registry) (es : List ExpiredPendingLane) → (drop_expired s es).entries ≡ s.entries
unfolding drop_expired drop_permit
drop_expired-entries s [] = refl
drop_expired-entries s (e ∷ es) = drop_expired-entries (drop_permit s (expired_permit e)) es

-- A round of the expiry worker drops the permits of exactly the lanes that it removes: the counts
-- stay exact for the permits held elsewhere, and an entry stays exactly if its deadline is to come.
pub expire_and_record-IsBalanced :
    (s : Registry) (held : List Permit) (now : ℕ)
    → IsBalanced s held
    → IsBalanced (expire_and_record s now).0 held
      × ((nonce : ℕ)
          → lookup nonce (expire_and_record s now).0.entries
            ≡ keep_fresh now (lookup nonce s.entries))
unfolding expire_and_record
expire_and_record-IsBalanced s held now v = (
  drop_expired-IsBalanced (expire s now).0 held (expire s now).1
      (Moves-IsBalanced (frame-Moves held (expire-Moves s now v.unique)) v),
  λ nonce.
      rw (drop_expired-entries (expire s now).0 (expire s now).1)
        (lookup-expire s now nonce v.unique),
)
