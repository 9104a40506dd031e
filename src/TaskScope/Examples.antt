-- ===== src/TaskScope/Examples.antt =====
-- The reap of src/task_scope.rs at a concrete scope.
use rtp_mux.Prelude.{ℕ, ◌≡◌, none, List, [], ◌∷◌, returns, panics, if◌then◌else◌}
use mathlib.Core.Option.{map}
use rtp_mux.TaskScope.{Joined, completed, cancelled, finish_with_first}
use rtp_mux.TaskScope.Outcomes.{any_panicked, selected_or, finish_with_first_lem}

abbrev siblings : List (Joined ℕ)
siblings = cancelled ∷ completed 4 ∷ completed 5 ∷ []

finish_with_first_lem_example :
    finish_with_first siblings (map completed none)
    ≡ (if any_panicked siblings then panics else returns (selected_or none siblings))
finish_with_first_lem_example = finish_with_first_lem siblings none
