-- ===== src/Group/Drivers/Shutdown.antt =====
-- The shutdown of the driver scope of src/group.rs: what it reaps, and when it returns.
use rtp_mux.Prelude.{
  ℕ, ◌+◌, ◌≡◌, refl, ◌<◌, true, false, List, [], ◌∷◌, err, returns, arith, inl, inr, eqb_iff, sym,
  returns-injective, Outcome-cases,
}
use rtp_mux.Group.{driver_scope_closed, try_reserve}
use rtp_mux.Group.Drivers.{
  Scope, Select, submit, is_running, finish_drain, reap_driver_from, reap_driver, close_and_adopt,
  reap_all, shutdown,
}
use rtp_mux.Group.Drivers.Drain.{IsQuiet, IsQuiet-drain}
use rtp_mux.Group.Drivers.Accounts.{
  count, names, AllQuiet, Served, IsAccounted, count-joined_out, count-adopt_all, reap-returns,
  without, taken_out, Served-IsAccounted,
}

reap_all-IsAccounted :
    (s : Scope) (ds : List ℕ) (ends : List (ℕ × List Select)) (s' : Scope)
    → IsAccounted s ds
    → reap_all s ends ≡ returns s'
    → IsAccounted s' ds × (s'.open_to_all ≡ s.open_to_all) × (s'.queue ≡ s.queue)
unfolding reap_all
reap_all-IsAccounted s ds [] s' a e =
    let same = returns-injective s s' e in rw (sym same) (a, refl, refl)
reap_all-IsAccounted s ds ((d, turns) ∷ ends) s' a e =
    elim (Outcome-cases (reap_driver s d turns)) [
      | inl p ↦ absurd (ground (arith, p, e))
      | inr (t, p) ↦
          let rest = rw (reap_all, p) at e in
          elim (reap-returns s d turns t p) [
            | inl same ↦ reap_all-IsAccounted s ds ends s' a (rw same at rest)
            | inr (out, h, quiet) ↦
                reap_all-IsAccounted (without s d turns) ds ends s'
                  (taken_out s ds d turns a h quiet) (rw out at rest)
          ]
    ]

close-IsAccounted :
    (s : Scope) (ds : List ℕ) → IsAccounted s ds → IsAccounted (close_and_adopt s) ds
unfolding close_and_adopt
close-IsAccounted s ds a = record {
  places = λ d. omega (arith, a.places d, count-adopt_all d s.drivers s.queue);
  quiet = a.quiet;
}

submit-closed :
    (s : Scope) (d : ℕ) → s.open_to_all ≡ false → submit s d ≡ (s, err driver_scope_closed)
unfolding submit try_reserve
submit-closed s d h = ground (arith, h)

-- A shutdown that has returned, in any life of the scope: the drains that the scope has joined since
-- it was made are those of the drivers ever accepted, each exactly as often as it was submitted; not
-- one of them had a failed task; and every later submission is refused because the scope is closed.
pub shutdown-reaps_all :
    (s : Scope) (ds : List ℕ) (ends : List (ℕ × List Select)) (s' : Scope)
    → Served s ds
    → shutdown s ends ≡ returns s'
    → s'.drivers ≡ []
    → ((d : ℕ) → count d ds ≡ count d (names s'.reaped))
      × AllQuiet s'.reaped
      × ((d : ℕ) → submit s' d ≡ (s', err driver_scope_closed))
unfolding shutdown close_and_adopt
shutdown-reaps_all s ds ends s' v e none_left =
    let a = close-IsAccounted s ds (Served-IsAccounted s ds v) in
    let (a', o, q) = reap_all-IsAccounted (close_and_adopt s) ds ends s' a e in
    (λ d. (ground (arith, a'.places d, none_left, q)), a'.quiet, λ d. submit-closed s' d o)

count-is_running : (d : ℕ) (ds : List ℕ) → 0 < count d ds → is_running d ds ≡ true
count-is_running d [] h = absurd (omega arith)
count-is_running d (e ∷ ds) h = ground (arith, eqb_iff d e, count-is_running d ds)

count_none : (ds : List ℕ) → ((d : ℕ) → count d ds ≡ 0) → ds ≡ []
count_none [] h = refl
count_none (e ∷ ds) h = absurd (ground (arith, h e, eqb_iff e e))

reap-quiet :
    (s : Scope) (d : ℕ) (turns : List Select)
    → s.signalled ≡ true
    → is_running d s.drivers ≡ true
    → IsQuiet turns
    → reap_driver s d turns ≡ returns (without s d turns)
unfolding reap_driver reap_driver_from finish_drain
reap-quiet s d turns on h q = rw (h, on, IsQuiet-drain turns q) refl

reap_all-returns :
    (s : Scope) (ends : List (ℕ × List Select))
    → s.signalled ≡ true
    → ((d : ℕ) → count d (names ends) ≡ count d s.drivers)
    → AllQuiet ends
    → (s' : Scope) × (reap_all s ends ≡ returns s')
      × (s'.drivers ≡ [])
      × (s'.queue ≡ s.queue)
      × ((d : ℕ) → count d (names s'.reaped) ≡ count d (names s.reaped) + count d (names ends))
unfolding reap_all
reap_all-returns s [] on h q =
    (s, refl, count_none s.drivers λ d. sym (h d), refl, λ d. omega arith)
reap_all-returns s ((d, turns) ∷ ends) on h (q, qs) =
    let runs = count-is_running d s.drivers (ground (arith, h d, eqb_iff d d)) in
    let (s', e, none_left, same, log) =
      reap_all-returns (without s d turns) ends on
        (λ e. omega (arith, h e, count-joined_out e d s.drivers runs)) qs in
    (
      s',
      rw (reap_all, reap-quiet s d turns on runs q) e,
      none_left,
      same,
      λ e. omega (arith, log e),
    )

-- When the ends name each driver that runs or is queued once, and each end is that of a drain
-- without a failed task, be it because none of its tasks is left or because the shutdown is
-- signalled to it, then a shutdown returns; no driver runs or is queued any more, and each was joined.
pub shutdown-returns :
    (s : Scope) (ends : List (ℕ × List Select))
    → ((d : ℕ) → count d (names ends) ≡ count d s.drivers + count d s.queue)
    → AllQuiet ends
    → (s' : Scope) × (shutdown s ends ≡ returns s')
      × (s'.drivers ≡ [])
      × (s'.queue ≡ [])
      × ((d : ℕ)
          → count d (names s'.reaped)
            ≡ count d (names s.reaped) + (count d s.drivers + count d s.queue))
unfolding shutdown close_and_adopt
shutdown-returns s ends h q =
    let (s', e, none_left, queue, log) =
      reap_all-returns (close_and_adopt s) ends refl
        (λ d. omega (arith, h d, count-adopt_all d s.drivers s.queue)) q in
    (s', e, none_left, queue, λ d. omega (arith, log d, h d))
