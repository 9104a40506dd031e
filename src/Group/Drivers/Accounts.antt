-- ===== src/Group/Drivers/Accounts.antt =====
-- The driver scope of src/group.rs over its life: where each submitted driver is.
use rtp_mux.Prelude.{
  ℕ, ◌+◌, ◌≡◌, refl, true, Option, none, some, List, [], ◌∷◌, ◌++◌, eqb, if◌then◌else◌, ◌⊎◌, total,
  total-append, ok, returns, arith, inl, inr, Bool-cases, eqb_iff,
}
use rtp_mux.TaskScope.{Joined, completed, cancelled, panicked}
use rtp_mux.Group.Drivers.{
  Scope, Select, drain, group_driver_scope, submit, submit_driver_into, submit_driver, adopt,
  joined_out, is_running, finish_drain, reap_driver_from, reap_driver, adopt_all,
}
use rtp_mux.Group.Drivers.Drain.{IsQuiet, drain-IsQuiet}

-- How often a driver is in a list.
abbrev pub count : ℕ → List ℕ → ℕ
count d xs = total (λ e. if eqb d e then 1 else 0) xs

abbrev pub names : List (ℕ × List Select) → List ℕ
names [] = []
names ((d, turns) ∷ r) = d ∷ names r

-- The drains that were reaped all ended without a failed task.
abbrev pub AllQuiet : List (ℕ × List Select) → Type 0
AllQuiet [] = Unit
AllQuiet ((d, turns) ∷ r) = IsQuiet turns × AllQuiet r

-- A scope in the server, with the drivers it accepted, the newest first.
pub data Served : Scope → List ℕ → Type 0 where
  starts : (bound : ℕ) → Served (group_driver_scope bound) []
  submits :
      {s : Scope} {ds : List ℕ} (d : ℕ)
      → Served s ds
      → (submit s d).1 ≡ ok tt
      → Served (submit s d).0 (d ∷ ds)
  adopts : {s : Scope} {ds : List ℕ} → Served s ds → Served (adopt s) ds
  reaps :
      {s : Scope} {ds : List ℕ} (d : ℕ) (turns : List Select) (s' : Scope)
      → Served s ds
      → reap_driver s d turns ≡ returns s'
      → Served s' ds

-- Each accepted driver is queued, running or reaped, and no other is.
pub record IsAccounted (s : Scope) (ds : List ℕ) : Type 0 where
  pub places :
      (d : ℕ) → count d ds ≡ count d (names s.reaped) + (count d s.drivers + count d s.queue)
  pub quiet : AllQuiet s.reaped

pub count-joined_out :
    (e d : ℕ) (ds : List ℕ)
    → is_running d ds ≡ true
    → count e ds ≡ count e (joined_out d ds) + (if eqb e d then 1 else 0)
unfolding joined_out
count-joined_out e d [] h = absurd (cc)
count-joined_out e d (x ∷ ds) h =
    ground (arith, h, eqb_iff d x, eqb_iff e d, eqb_iff e x, count-joined_out e d ds)

pub count-adopt_all :
    (e : ℕ) (drivers queue : List ℕ)
    → count e (adopt_all drivers queue) ≡ count e drivers + count e queue
unfolding adopt_all submit_driver_into
count-adopt_all e drivers [] = omega arith
count-adopt_all e drivers (d ∷ queue) = ground (
  arith,
  count-adopt_all e (drivers ++ d ∷ []) queue,
  total-append (λ x. if eqb e x then 1 else 0) drivers (d ∷ []),
)

abbrev pub without : Scope → ℕ → List Select → Scope
without s d turns = record s { drivers = joined_out d s.drivers; reaped = (d, turns) ∷ s.reaped }

finish_drain-returns :
    (s : Scope) (d : ℕ) (turns : List Select) (end_of : Option (Joined (Unit {0}))) (s' : Scope)
    → drain s.signalled turns ≡ end_of
    → finish_drain s d turns end_of ≡ returns s'
    → (s' ≡ s) ⊎ ((s' ≡ without s d turns) × IsQuiet turns)
unfolding finish_drain
finish_drain-returns s d turns none s' n e = inl (ground (arith, e))
finish_drain-returns s d turns (some (completed tt)) s' n e =
    inr (ground (arith, e), drain-IsQuiet s.signalled turns n)
finish_drain-returns s d turns (some cancelled) s' n e = absurd (cc)
finish_drain-returns s d turns (some panicked) s' n e = absurd (cc)

-- A reap that returns takes the driver out, and the drain was quiet, or it leaves the scope as it is.
pub reap-returns :
    (s : Scope) (d : ℕ) (turns : List Select) (s' : Scope)
    → reap_driver s d turns ≡ returns s'
    → (s' ≡ s) ⊎ ((s' ≡ without s d turns) × (is_running d s.drivers ≡ true) × IsQuiet turns)
unfolding reap_driver reap_driver_from
reap-returns s d turns s' e = elim (Bool-cases (is_running d s.drivers)) [
  | inr h ↦ inl (ground (arith, h, e))
  | inl h ↦ elim (finish_drain-returns s d turns (drain s.signalled turns) s' refl (rw h at e)) [
    | inl same ↦ inl same
    | inr (out, quiet) ↦ inr (out, h, quiet)
  ]
]

pub taken_out :
    (s : Scope) (ds : List ℕ) (d : ℕ) (turns : List Select)
    → IsAccounted s ds
    → is_running d s.drivers ≡ true
    → IsQuiet turns
    → IsAccounted (without s d turns) ds
taken_out s ds d turns a h q = record {
  places = λ e. omega (arith, a.places e, count-joined_out e d s.drivers h);
  quiet = (q, a.quiet);
}

submit-queue :
    (s : Scope) (d : ℕ)
    → (submit s d).1 ≡ ok tt
    → (submit s d).0 ≡ record s { queue = s.queue ++ d ∷ [] }
unfolding submit
submit-queue s d h = ground (arith, h)

adopt-places :
    (s : Scope) (e : ℕ)
    → count e (adopt s).drivers + count e (adopt s).queue ≡ count e s.drivers + count e s.queue
unfolding adopt submit_driver submit_driver_into
adopt-places s e =
    elim s.queue
      as (λ q.
        count e (adopt (record s { queue = q })).drivers
          + count e (adopt (record s { queue = q })).queue
        ≡ count e s.drivers + count e q) [
          | [] ↦ refl
          | d ∷ q ↦ omega (arith, total-append (λ x. if eqb e x then 1 else 0) s.drivers (d ∷ []))
        ]

adopt-reaped : (s : Scope) → (adopt s).reaped ≡ s.reaped
unfolding adopt submit_driver
adopt-reaped s = elim s.queue as (λ q. (adopt (record s { queue = q })).reaped ≡ s.reaped) [
  | [] ↦ refl
  | d ∷ q ↦ refl
]

-- In any life of a driver scope, each driver that it accepted is queued, running or reaped, exactly
-- as often as it was submitted, and the drains reaped so far had no failed task.
pub Served-IsAccounted : (s : Scope) (ds : List ℕ) → Served s ds → IsAccounted s ds
unfolding group_driver_scope
Served-IsAccounted _ _ (starts bound) = record { places = λ d. refl; quiet = tt }
Served-IsAccounted _ _ (submits {s} {ds} d v h) =
    let a = Served-IsAccounted s ds v in
    rw (submit-queue s d h) record {
      places = λ e.
          omega (arith, a.places e, total-append (λ x. if eqb e x then 1 else 0) s.queue (d ∷ []));
      quiet = a.quiet;
    }
Served-IsAccounted _ _ (adopts {s} {ds} v) =
    let a = Served-IsAccounted s ds v in
    record {
      places = λ e. rw (adopt-reaped s) (omega (arith, a.places e, adopt-places s e));
      quiet = rw (adopt-reaped s) a.quiet;
    }
Served-IsAccounted _ _ (reaps {s} {ds} d turns s' v e) =
    let a = Served-IsAccounted s ds v in
    elim (reap-returns s d turns s' e) [
      | inl same ↦ rw same a
      | inr (out, h, quiet) ↦ rw out (taken_out s ds d turns a h quiet)
    ]
