-- ===== src/CrossSession/Generations.antt =====
-- The walk over the successors of a session in src/connector/cross_session.rs.
use rtp_mux.Prelude.{
  ℕ, zero, suc, ◌≡◌, refl, Bool, none, some, List, [], ◌∷◌, arith, keep_if, Option-cases,
  Bool-cases, inl, inr, nat_eq,
}
use rtp_mux.CrossSession.{Store, walk, latest_generation}

-- The sessions that replaced a session, one after the other, up to a number of hops.
pub generations : Store → ℕ → ℕ → List ℕ
generations t zero id = []
generations t (suc hops) id = elim (t.sessions id).successor [
  | none ↦ []
  | some next ↦ next ∷ generations t hops next
]

abbrev pub last_or : ℕ → List ℕ → ℕ
last_or id [] = id
last_or id (x ∷ xs) = last_or x xs

walk_lem :
    (alive : ℕ → Bool) (t : Store) (hops newest cursor : ℕ)
    → walk alive t hops newest cursor ≡ last_or newest (keep_if alive (generations t hops cursor))
unfolding walk generations keep_if
walk_lem alive t zero newest cursor = refl
walk_lem alive t (suc hops) newest cursor = elim (Option-cases (t.sessions cursor).successor) [
  | inl e ↦ rw (e, walk, generations) refl
  | inr (next, e) ↦ elim (Bool-cases (alive next)) [
    | inl a ↦ ground (arith, e, a, walk_lem alive t hops next next)
    | inr a ↦ ground (arith, e, a, walk_lem alive t hops newest next)
  ]
]

-- The latest generation of a session is the last live one of its first eight successors, and the
-- session itself if none of them lives.
pub latest_generation_lem :
    (alive : ℕ → Bool) (t : Store) (id : ℕ)
    → latest_generation alive t id ≡ last_or id (keep_if alive (generations t 8 id))
unfolding latest_generation
latest_generation_lem alive t id = walk_lem alive t 8 id id
