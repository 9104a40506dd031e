-- ===== src/Group/Drivers/Drain.antt =====
-- How the drain of a driver in src/group.rs ends.
use rtp_mux.Prelude.{Bool, true, some, List, [], ◌∷◌, ◌≡◌, refl, false, arith}
use rtp_mux.TaskScope.{Joined, completed, cancelled, panicked}
use rtp_mux.TaskScope.Outcomes.{any_panicked, abort_and_reap_lem}
use rtp_mux.Group.Drivers.{Select, joined, joined_none, shut_down, drain}

-- The turns of a drain of which no task failed: each task joined before the end had completed, and
-- none of those aborted by a shutdown had panicked.
pub data IsQuiet : List Select → Type 0 where
  ended : (turns : List Select) → IsQuiet (joined_none ∷ turns)
  more : {turns : List Select} → IsQuiet turns → IsQuiet (joined (completed tt) ∷ turns)
  aborted :
      (rest : List (Joined (Unit {0}))) (turns : List Select)
      → any_panicked rest ≡ false
      → IsQuiet (shut_down rest ∷ turns)

pub drain-IsQuiet :
    (signalled : Bool) (turns : List Select)
    → drain signalled turns ≡ some (completed tt)
    → IsQuiet turns
unfolding drain
drain-IsQuiet s [] e = absurd (cc)
drain-IsQuiet s (joined (completed _) ∷ turns) e = more (drain-IsQuiet s turns e)
drain-IsQuiet s (joined cancelled ∷ turns) e = absurd (cc)
drain-IsQuiet s (joined panicked ∷ turns) e = absurd (cc)
drain-IsQuiet s (joined_none ∷ turns) e = ended turns
drain-IsQuiet true (shut_down rest ∷ turns) e =
    aborted rest turns (ground (arith, e, abort_and_reap_lem rest))
drain-IsQuiet false (shut_down rest ∷ turns) e = absurd (cc)

-- Once the shutdown is signalled, such turns end the drain.
pub IsQuiet-drain : (turns : List Select) → IsQuiet turns → drain true turns ≡ some (completed tt)
unfolding drain
IsQuiet-drain _ (ended turns) = refl
IsQuiet-drain _ (more {turns} q) = IsQuiet-drain turns q
IsQuiet-drain _ (aborted rest turns e) = ground (arith, e, abort_and_reap_lem rest)
