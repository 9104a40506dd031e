-- ===== src/LaneAccept/Sessions.antt =====
-- How the tasks of two lanes in src/server.rs make a session, and what a refused lane sees.
use rtp_mux.Prelude.{
  ℕ, ◌+◌, ◌≡◌, ◌≢◌, ◌⊎◌, Bool, false, Option, none, some, List, [], ◌∷◌, refl, Outcome, returns,
  panics, arith, lookup, inl, inr, nat_eq, if-holds, not, subst,
}
use rtp_mux.Shared.{
  SocketAddr, LaneClass, interactive, bulk, beq_class_refl, pairing_deadline, beq_class,
}
use rtp_mux.LaneRejection.{
  LaneRejectionClass, admission, hello_timeout, hello_parse, class_mismatch, group_full,
}
use rtp_mux.Admission.{
  Registry, Permit, PendingLane, PendingLaneAdmission, reserved, wait, pair, reject,
  register_admitted,
}
use rtp_mux.Admission.Pairing.{register-confirm-register}
use rtp_mux.LaneAccept.{
  AdmittedLane, Hello, greeting, written, Output, kill, pairs, rejection, stopped, confirms, meets,
  Stage, accept_hello, accept_reserved, accept_pair, own_lane, prepared, classify_lane_addrs, admit,
  admitted_stage, after_admission, deadline_elapsed, unreadable,
}

-- The first lane's hello reserves its nonce and its heartbeat makes it ready; the hello of a lane of
-- the other class from the same IP address and group, to a group that is not full, is then handed
-- the first lane, and with its heartbeat written it is paired with that lane's session and permit.
pub accept_hello-pair :
    (s : Registry) (full : ℕ → Bool) (a b : AdmittedLane) (p q : Permit) (nonce group now later : ℕ)
    → lookup nonce s.entries ≡ none
    → full group ≡ false
    → a.expected_class ≢ b.expected_class
    → a.peer.ip ≡ b.peer.ip
    → (s₁ s₂ s₃ : Registry) × (other : PendingLane) × (accept_hello s full a p
          (greeting a.expected_class nonce group)
          now
        ≡ returns
            (record { registry = s₁; permit = none; output = []; next = confirms nonce group }))
      × (accept_reserved s₁ a nonce written
          ≡ record { registry = s₂; permit = none; output = []; next = stopped })
      × (accept_hello s₂ full b q (greeting b.expected_class nonce group) later
          ≡ returns (record {
            registry = s₃;
            permit = some q;
            output = [];
            next = meets nonce group other (now + pairing_deadline);
          }))
      × (accept_pair s₃ b nonce group other (now + pairing_deadline) written (some q)
          ≡ returns (record {
            registry = s₃;
            permit = none;
            output = pairs (own_lane b group q) other nonce ∷ [];
            next = stopped;
          }))
      × (other.session ≡ a.session)
      × (other.permit ≡ p)
unfolding accept_hello accept_reserved accept_pair admit
accept_hello-pair s full a b p q nonce group now later free room c i =
    let r =
      register-confirm-register s nonce (prepared a) group now p free b.expected_class b.peer
        b.local_addr later q c i in
    (
      r.0,
      r.1,
      r.2,
      r.3,
      rw (beq_class_refl a.expected_class, room, r.4) refl,
      rw r.5 refl,
      rw (beq_class_refl b.expected_class, room, r.6) refl,
      refl,
      r.7,
      r.8,
    )

-- The addresses of a pair of lanes of different classes do not depend on which lane comes first.
pub classify_lane_addrs-swap :
    (a b : LaneClass) (a_peer a_local b_peer b_local : SocketAddr)
    → a ≢ b
    → classify_lane_addrs a a_peer a_local b_peer b_local
      ≡ classify_lane_addrs b b_peer b_local a_peer a_local
unfolding classify_lane_addrs
classify_lane_addrs-swap interactive bulk ap al bp bl h = refl
classify_lane_addrs-swap bulk interactive ap al bp bl h = refl
classify_lane_addrs-swap interactive interactive ap al bp bl h = absurd (h refl)
classify_lane_addrs-swap bulk bulk ap al bp bl h = absurd (h refl)

abbrev Recorded : AdmittedLane → List Output → Type 0
Recorded a output =
    (c : LaneRejectionClass) × ((output ≡ rejection a c ∷ [])
      ⊎ (output ≡ kill ∷ rejection a c ∷ []))

abbrev StoppedRecorded : AdmittedLane → Outcome Stage → Type 0
StoppedRecorded a (returns st) = st.next ≡ stopped → Recorded a st.output
StoppedRecorded a panics = Unit

admitted_stage-recorded :
    (a : AdmittedLane) (nonce group : ℕ)
    (r : Outcome (Registry × PendingLaneAdmission × Option Permit))
    → StoppedRecorded a (admitted_stage a nonce group r)
unfolding admitted_stage after_admission
admitted_stage-recorded a nonce group panics = tt
admitted_stage-recorded a nonce group (returns (s, reserved, left)) =
    λ h. absurd (ground (arith, h))
admitted_stage-recorded a nonce group (returns (s, wait g t, left)) =
    λ h. absurd (ground (arith, h))
admitted_stage-recorded a nonce group (returns (s, pair o t, left)) =
    λ h. absurd (ground (arith, h))
admitted_stage-recorded a nonce group (returns (s, reject r, left)) = λ h. (admission, inr refl)

accept_hello-recorded :
    (s : Registry) (full : ℕ → Bool) (a : AdmittedLane) (p : Permit) (hello : Hello) (now : ℕ)
    → StoppedRecorded a (accept_hello s full a p hello now)
unfolding accept_hello admit
accept_hello-recorded s full a p deadline_elapsed now = λ h. (hello_timeout, inl refl)
accept_hello-recorded s full a p unreadable now = λ h. (hello_parse, inr refl)
accept_hello-recorded s full a p (greeting class nonce group) now =
    if-holds (StoppedRecorded a) (not (beq_class class a.expected_class)) _ _
      (λ h. (class_mismatch, inr refl))
      (if-holds (StoppedRecorded a) (full group) _ _ (λ h. (group_full, inr refl))
        (admitted_stage-recorded a nonce group
          (register_admitted s nonce a.expected_class a.peer a.local_addr group now (some p))))

-- When the task ends at its hello, the lane's rejection has been recorded once, alone or after the
-- kill signal.
pub accept_hello-stopped :
    (s : Registry) (full : ℕ → Bool) (a : AdmittedLane) (p : Permit) (hello : Hello) (now : ℕ)
    (st : Stage)
    → accept_hello s full a p hello now ≡ returns st
    → st.next ≡ stopped
    → (c : LaneRejectionClass) × ((st.output ≡ rejection a c ∷ [])
        ⊎ (st.output ≡ kill ∷ rejection a c ∷ []))
accept_hello-stopped s full a p hello now st e h =
    subst (StoppedRecorded a) e (accept_hello-recorded s full a p hello now) h
