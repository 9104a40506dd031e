-- ===== src/CrossSession/System.antt =====
-- The client tasks and the connector over the store of src/connector/cross_session.rs: any of them
-- may act next. `rebind_streams` drains under one lock and moves the streams one by one afterwards.
use rtp_mux.Prelude.{
  if◌then◌else◌, ℕ, ◌≡◌, refl, Bool, not, ◌&&◌, none, List, [], ◌∷◌, ◌++◌, eqb, lookup, nat_eq, map,
  arith, total-append,
}
use rtp_mux.CrossSession.{
  Store, fresh_session, open_stream, drop_guard, new_handle, track_if_current, track_replaced,
  latest_generation, drop_stream, drain, rebind_handle,
}
use rtp_mux.CrossSession.Guards.{
  IsGuarded, on, open_stream-IsGuarded, drop_guard-IsGuarded, new_handle-IsGuarded,
  track_if_current-IsGuarded, track_replaced-IsGuarded, drop_stream-IsGuarded, drain-IsGuarded,
  rebind_handle-IsGuarded,
}

-- `opened` has the session of each OpenedStream. `checking`, `replaced` and `chosen` have the calls of
-- StreamRebind::track, each with its handle and session: before track_if_current, after that found a
-- successor, and after latest_generation gave a session, which stands last. `moving` the streams that are drained and not yet
-- moved, and `writing` the streams whose writer takes a rebind.
pub record System : Type 0 where
  pub store : Store
  pub opened : List ℕ
  pub checking : List (ℕ × ℕ)
  pub replaced : List (ℕ × ℕ)
  pub chosen : List (ℕ × ℕ × ℕ)
  pub moving : List (ℕ × ℕ)
  pub writing : ℕ → Bool

pub data Step (t : System) : System → Type 0 where
  opens : (id : ℕ) → Step t (record t { store = open_stream t.store id; opened = id ∷ t.opened })
  abandons :
      (before : List ℕ) (id : ℕ) (after : List ℕ)
      → t.opened ≡ before ++ id ∷ after
      → Step t (record t { store = drop_guard t.store id; opened = before ++ after })
  tracks :
      (before : List ℕ) (id : ℕ) (after : List ℕ) (h : ℕ)
      → t.opened ≡ before ++ id ∷ after
      → lookup h t.store.streams ≡ none
      → Step t (record t {
        store = new_handle t.store h id;
        opened = before ++ after;
        checking = (h, id) ∷ t.checking;
      })
  checks :
      (before : List (ℕ × ℕ)) (h id : ℕ) (after : List (ℕ × ℕ))
      → t.checking ≡ before ++ (h, id) ∷ after
      → Step t (record t {
        store = (track_if_current t.store id h).0;
        checking = before ++ after;
        replaced = if (track_if_current t.store id h).1 then t.replaced else (h, id) ∷ t.replaced;
      })
  chooses :
      (alive : ℕ → Bool) (before : List (ℕ × ℕ)) (h id : ℕ) (after : List (ℕ × ℕ))
      → t.replaced ≡ before ++ (h, id) ∷ after
      → Step t (record t {
        replaced = before ++ after;
        chosen = (h, id, latest_generation alive t.store id) ∷ t.chosen;
      })
  settles :
      (before : List (ℕ × ℕ × ℕ)) (h id live : ℕ) (after : List (ℕ × ℕ × ℕ))
      → t.chosen ≡ before ++ (h, id, live) ∷ after
      → Step t (record t {
        store = track_replaced t.writing t.store h id live;
        chosen = before ++ after;
      })
  drops : (h : ℕ) → Step t (record t { store = drop_stream t.store h })
  drains :
      (old new : ℕ)
      → Step t (record t {
        store = (drain t.store old new).0;
        moving = map (λ h. (h, new)) (drain t.store old new).1 ++ t.moving;
      })
  moves :
      (before : List (ℕ × ℕ)) (h new : ℕ) (after : List (ℕ × ℕ))
      → t.moving ≡ before ++ (h, new) ∷ after
      → Step t
          (record t { store = (rebind_handle t.writing t.store h new).0; moving = before ++ after })
  stops : (h : ℕ) → Step t (record t { writing = λ k. not (eqb h k) && t.writing k })

pub data Reach (t : System) : System → Type 0 where
  here : Reach t t
  next : {u v : System} → Reach t u → Step u v → Reach t v

-- No session has streams.
abbrev pub start : (ℕ → Bool) → System
start writing = record {
  store = record { sessions = λ _. fresh_session; streams = [] };
  opened = [];
  checking = [];
  replaced = [];
  chosen = [];
  moving = [];
  writing = writing;
}

focus :
    (t : Store) (before : List ℕ) (id : ℕ) (after : List ℕ)
    → IsGuarded t (before ++ id ∷ after)
    → IsGuarded t (id ∷ before ++ after)
focus t before id after v = record {
  unique = v.unique;
  counted = λ j. omega (
    arith,
    v.counted j,
    total-append (on j) before (id ∷ after),
    total-append (on j) before after,
  );
}

Step-IsGuarded : {t u : System} → Step t u → IsGuarded t.store t.opened → IsGuarded u.store u.opened
Step-IsGuarded {t} (opens id) v = open_stream-IsGuarded t.store t.opened id v
Step-IsGuarded {t} (abandons before id after e) v =
    drop_guard-IsGuarded t.store (before ++ after) id (focus t.store before id after (rw e at v))
Step-IsGuarded {t} (tracks before id after h e l) v =
    new_handle-IsGuarded t.store (before ++ after) h id l
      (focus t.store before id after (rw e at v))
Step-IsGuarded {t} (checks before h id after e) v =
    track_if_current-IsGuarded t.store t.opened id h v
Step-IsGuarded {t} (chooses alive before h id after e) v = v
Step-IsGuarded {t} (settles before h id live after e) v =
    track_replaced-IsGuarded t.writing t.store t.opened h id live v
Step-IsGuarded {t} (drops h) v = drop_stream-IsGuarded t.store t.opened h v
Step-IsGuarded {t} (drains old new) v = drain-IsGuarded t.store t.opened old new v
Step-IsGuarded {t} (moves before h new after e) v =
    rebind_handle-IsGuarded t.writing t.store t.opened h new v
Step-IsGuarded (stops h) v = v

-- Over any interleaving of the client tasks and the connector from a store without streams, each
-- session counts exactly the OpenedStreams and the streams on it, modulo 2^64.
pub Reach-IsGuarded :
    (writing : ℕ → Bool) {t : System} → Reach (start writing) t → IsGuarded t.store t.opened
Reach-IsGuarded writing here = record { unique = tt; counted = λ id. refl }
Reach-IsGuarded writing (next r st) = Step-IsGuarded st (Reach-IsGuarded writing r)
