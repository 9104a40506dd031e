-- ===== src/CrossSession/Examples.antt =====
-- The store of src/connector/cross_session.rs over a redial: a new stream of the session 1 is
-- tracked while the session 2 replaces it.
use rtp_mux.Prelude.{ℕ, ◌≡◌, refl, Bool, [], ◌∷◌, eqb, not, keep_if, lookup, nat_eq, map, ◌++◌}
use rtp_mux.CrossSession.{open_stream, new_handle, track_if_current, drain, latest_generation}
use rtp_mux.CrossSession.Guards.{IsGuarded}
use rtp_mux.CrossSession.Generations.{generations, last_or, latest_generation_lem}
use rtp_mux.CrossSession.System.{System, Step, Reach, start, Reach-IsGuarded}

abbrev writing : ℕ → Bool
writing h = not (eqb h 9)

abbrev alive : ℕ → Bool
alive id = not (eqb id 3)

abbrev opened_once : System
opened_once = record (start writing) {
  store = open_stream (start writing).store 1;
  opened = 1 ∷ [];
}

-- The stream 7 is being tracked.
abbrev handled : System
handled = record opened_once {
  store = new_handle opened_once.store 7 1;
  opened = [];
  checking = (7, 1) ∷ [];
}

-- A redial replaces the session before the stream is in its list.
abbrev redialed : System
redialed = record handled {
  store = (drain handled.store 1 2).0;
  moving = map (λ h. (h, 2)) (drain handled.store 1 2).1 ++ handled.moving;
}

abbrev refused : System
refused = record redialed {
  store = (track_if_current redialed.store 1 7).0;
  checking = [];
  replaced = (7, 1) ∷ [];
}

reached : Reach (start writing) refused
unfolding lookup open_stream new_handle track_if_current drain
reached =
    Reach.next
      (Reach.next
        (Reach.next (Reach.next Reach.here (Step.opens 1)) (Step.tracks [] 1 [] 7 refl refl))
        (Step.drains 1 2))
      (Step.checks [] 7 1 [] refl)

Reach-IsGuarded_example : IsGuarded refused.store refused.opened
Reach-IsGuarded_example = Reach-IsGuarded writing reached

latest_generation_lem_example :
    latest_generation alive redialed.store 1
    ≡ last_or 1 (keep_if alive (generations redialed.store 8 1))
latest_generation_lem_example = latest_generation_lem alive redialed.store 1
