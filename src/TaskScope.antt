-- ===== src/TaskScope.antt =====
-- src/task_scope.rs: aborting and reaping the tasks of a scope. The list is what `join_next` yields
-- after the abort, in that order.
pub mod Outcomes
mod Examples
use rtp_mux.Prelude.{ℕ, Option, none, some, List, [], ◌∷◌, Outcome, returns, panics}

-- `Result<T, JoinError>` of a task.
pub data Joined (A : Type 0) : Type 0 where
  completed : A → Joined A
  cancelled panicked : Joined A

abbrev first_of : {A : Type 0} → Option A → A → Option A
first_of (some a) completed_value = some a
first_of none completed_value = some completed_value

pub reap : {A : Type 0} → List (Joined A) → Option A → Outcome (Option A)
reap [] outcome = returns outcome
reap (cancelled ∷ rest) outcome = reap rest outcome
reap (panicked ∷ rest) outcome = panics
reap (completed a ∷ rest) outcome = reap rest (first_of outcome a)

-- `first` is unwrapped, so that a cancelled selected task panics too.
pub finish_with_first : {A : Type 0} → List (Joined A) → Option (Joined A) → Outcome (Option A)
unfolding reap
finish_with_first tasks none = reap tasks none
finish_with_first tasks (some (completed a)) = reap tasks (some a)
finish_with_first tasks (some _) = panics

unfoldable pub abort_and_reap : {A : Type 0} → List (Joined A) → Outcome (Unit {0})
unfolding finish_with_first
abort_and_reap tasks = elim (finish_with_first tasks none) [
  | returns _ ↦ returns tt
  | panics ↦ panics
]
