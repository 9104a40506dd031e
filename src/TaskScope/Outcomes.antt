-- ===== src/TaskScope/Outcomes.antt =====
-- Which result src/task_scope.rs selects, and which panics it hides.
use rtp_mux.Prelude.{
  Option, none, some, List, [], ◌∷◌, ◌≡◌, refl, Bool, true, false, returns, panics, if◌then◌else◌,
  if-holds_by, Outcome,
}
use mathlib.Core.Option.{map}
use rtp_mux.TaskScope.{
  Joined, completed, cancelled, panicked, reap, finish_with_first, abort_and_reap,
}

module _ {A : Type 0} where
  abbrev pub any_panicked : List (Joined A) → Bool
  any_panicked [] = false
  any_panicked (panicked ∷ rest) = true
  any_panicked (_ ∷ rest) = any_panicked rest

  -- The first completed value of a list.
  abbrev pub first_completed : List (Joined A) → Option A
  first_completed [] = none
  first_completed (completed a ∷ rest) = some a
  first_completed (_ ∷ rest) = first_completed rest

  abbrev pub selected_or : Option A → List (Joined A) → Option A
  selected_or (some a) tasks = some a
  selected_or none tasks = first_completed tasks

  pub reap_lem :
      (tasks : List (Joined A)) (outcome : Option A)
      → reap tasks outcome
        ≡ (if any_panicked tasks then panics else returns (selected_or outcome tasks))
  unfolding reap
  reap_lem [] none = refl
  reap_lem [] (some a) = refl
  reap_lem (cancelled ∷ rest) none = reap_lem rest none
  reap_lem (cancelled ∷ rest) (some a) = reap_lem rest (some a)
  reap_lem (panicked ∷ rest) outcome = refl
  reap_lem (completed b ∷ rest) none = reap_lem rest (some b)
  reap_lem (completed b ∷ rest) (some a) = reap_lem rest (some a)

-- Finishing a scope whose selected task, if any, has completed panics exactly when a sibling has
-- panicked; otherwise it gives the selected value, and without one the first value that completed.
pub finish_with_first_lem :
    {A : Type 0} (tasks : List (Joined A)) (selected : Option A)
    → finish_with_first tasks (map completed selected)
      ≡ (if any_panicked tasks then panics else returns (selected_or selected tasks))
unfolding finish_with_first
finish_with_first_lem tasks none = reap_lem tasks none
finish_with_first_lem tasks (some a) = reap_lem tasks (some a)

-- Reaping an aborted scope panics exactly when one of its tasks has.
pub abort_and_reap_lem :
    {A : Type 0} (tasks : List (Joined A))
    → abort_and_reap tasks ≡ (if any_panicked tasks then panics else returns tt)
unfolding abort_and_reap
abort_and_reap_lem {A = A} tasks =
    rw (abort_and_reap, finish_with_first_lem tasks none)
      (if-holds_by
        (λ (o : Outcome (Option A)).
          elim o [ panics ↦ panics | returns _ ↦ returns tt ]
          ≡ (if any_panicked tasks then panics else returns tt))
        (any_panicked tasks) _ _ (λ h. rw h refl) (λ h. rw h refl))
