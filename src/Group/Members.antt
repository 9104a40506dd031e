-- ===== src/Group/Members.antt =====
-- The members of the groups of src/group.rs over any interleaving of joins, drops and registrations.
use rtp_mux.Prelude.{
  returns-injective, ℕ, ◌≡◌, ◌≢◌, refl, subst, Bool, Option, none, some, List, [], ◌∷◌, ◌++◌, ◌⊎◌,
  leb, if◌then◌else◌, nat_eq, arith, lookup, insert, lookup-insert_self, keep_if, length, returns,
  sym, ap, ◌∙◌,
}
use rtp_mux.Group.{
  Groups, SessionPair, PairMember, DriverQueue, join, purge, register_in, register_writer,
  drop_member,
}
use rtp_mux.Group.Soundness.{
  IsSound, granted, joins-IsSound, focus, unfocus, drop_member-returns, register_writer-returns,
}

-- The groups that the server's sessions share, and the members that they hold.
pub record System : Type 0 where
  pub groups : Groups
  pub held : List PairMember

-- The openers and writers that are alive may change at every step.
pub data Step (t : System) : System → Type 0 where
  joins :
      (opener_alive writer_alive : ℕ → Bool) (token opener : ℕ) (queue : DriverQueue)
      → Step t (record {
        groups = (join opener_alive writer_alive t.groups token opener queue).groups;
        held =
            granted (join opener_alive writer_alive t.groups token opener queue).result ++ t.held;
      })
  drops :
      (before : List PairMember) (m : PairMember) (after : List PairMember) (groups' : Groups)
      → t.held ≡ before ++ m ∷ after
      → drop_member t.groups m ≡ returns groups'
      → Step t (record { groups = groups'; held = before ++ after })
  registers :
      (opener_alive writer_alive : ℕ → Bool) (before : List PairMember) (m : PairMember)
      (after : List PairMember) (writer : ℕ) (groups' : Groups) (rebinds : List (ℕ × ℕ))
      → t.held ≡ before ++ m ∷ after
      → register_writer opener_alive writer_alive t.groups m writer ≡ returns (groups', rebinds)
      → Step t (record { groups = groups'; held = t.held })

pub data Reach (t : System) : System → Type 0 where
  here : Reach t t
  next : {u v : System} → Reach t u → Step u v → Reach t v

abbrev pub start : System
start = record { groups = []; held = [] }

abbrev pub IsSoundSystem : System → Type 0
IsSoundSystem t = IsSound t.groups t.held

Step-IsSound : {t u : System} → Step t u → IsSoundSystem t → IsSoundSystem u
Step-IsSound {t} (joins opener_alive writer_alive token opener queue) v =
    joins-IsSound t.groups t.held v opener_alive writer_alive token opener queue
Step-IsSound {t} (drops before m after groups' e r) v =
    let (g, h, w) =
      drop_member-returns t.groups m (before ++ after)
        (focus t.groups before m after (rw e at v)) in
    subst (λ g. IsSound g (before ++ after)) (returns-injective g groups' (sym h ∙ r)) w
Step-IsSound {t} (registers opener_alive writer_alive before m after writer groups' rebinds e r) v =
    let (g, rs, h, w) =
      register_writer-returns opener_alive writer_alive t.groups m writer (before ++ after)
        (focus t.groups before m after (rw e at v)) in
    rw e (
      unfocus groups' before m after (
        subst (λ x. IsSound x (m ∷ before ++ after))
          (ap (λ (x : Groups × List (ℕ × ℕ)). x.0)
            (returns-injective (g, rs) (groups', rebinds) (sym h ∙ r)))
          w))

start-IsSound : IsSoundSystem start
unfolding lookup
start-IsSound = record { unique = tt; counted = λ t. refl; formed = λ t. tt }

-- Over any interleaving of joins, drops and registrations from the empty registry, a group counts
-- exactly its members, it has at most two, and its list of writers is within its purge mark.
pub Reach-IsSoundSystem : {t : System} → Reach start t → IsSoundSystem t
Reach-IsSoundSystem here = start-IsSound
Reach-IsSoundSystem (next r st) = Step-IsSound st (Reach-IsSoundSystem r)

-- A member that is held can always be dropped and can always register a writer: its group is there,
-- and the count that the drop lowers is not 0.
pub Reach-held-returns :
    {t : System} (before : List PairMember) (m : PairMember) (after : List PairMember)
    (opener_alive writer_alive : ℕ → Bool) (writer : ℕ)
    → Reach start t
    → t.held ≡ before ++ m ∷ after
    → ((groups' : Groups) × (drop_member t.groups m ≡ returns groups'))
      × ((r : Groups × List (ℕ × ℕ)) × (register_writer opener_alive writer_alive t.groups m writer
            ≡ returns r))
Reach-held-returns {t} before m after opener_alive writer_alive writer r e =
    let v = focus t.groups before m after (rw e at (Reach-IsSoundSystem r)) in
    let d = drop_member-returns t.groups m (before ++ after) v in
    let (g, rs, h, w) =
      register_writer-returns opener_alive writer_alive t.groups m writer (before ++ after) v in
    ((d.0, d.1), ((g, rs), h))

-- The writer with the newest opener, if there is one and it lives.
abbrev pub latest : (ℕ → Bool) → ℕ → Option ℕ → List (ℕ × ℕ)
latest opener_alive writer none = []
latest opener_alive writer (some opener) = if opener_alive opener then (writer, opener) ∷ [] else []

-- A writer that is registered on the newest member is not rebound; on an older member it is rebound
-- to the newest opener if that lives. Either way the writer is in the group's list afterwards.
pub register_writer-rebinds :
    (opener_alive writer_alive : ℕ → Bool) (groups : Groups) (m : PairMember) (writer : ℕ)
    (pair : SessionPair)
    → lookup m.token groups ≡ some pair
    → (groups' : Groups) × (rebinds : List (ℕ × ℕ)) × (pair' : SessionPair) × (register_writer
          opener_alive writer_alive groups m writer
        ≡ returns (groups', rebinds))
      × (lookup m.token groups' ≡ some pair')
      × (pair'.writers
          ≡ (if leb pair.next_purge (length pair.writers)
              then keep_if writer_alive pair.writers
              else pair.writers)
            ++ writer ∷ [])
      × ((m.seq ≡ pair.newest_seq) × (rebinds ≡ [])
          ⊎ ((m.seq ≢ pair.newest_seq) × (rebinds ≡ latest opener_alive writer pair.newest_opener)))
unfolding register_writer register_in purge
register_writer-rebinds opener_alive writer_alive groups m writer pair e =
    let r = register_in opener_alive writer_alive pair m.seq writer in
    (
      insert m.token r.0 groups,
      r.1,
      r.0,
      ground (arith, e),
      lookup-insert_self m.token r.0 groups,
      ground arith,
      ground (arith),
    )
