-- ===== src/Admission/Balance.antt =====
-- The counts of src/admission.rs against the permits that exist: `admitted` and `per_peer` count
-- every live permit once, over any interleaving of the operations.
use rtp_mux.Prelude.{
  ℕ, ◌+◌, ◌-◌, ◌≤◌, ◌<◌, ◌≡◌, ◌≢◌, refl, some, List, [], ◌∷◌, ◌++◌, inl, inr, eqb, eqb_iff,
  if◌then◌else◌, nat_eq, arith, total, total-append, Map, lookup, insert, lookup-insert,
  lookup-remove, Unique, Option-cases, Result, ok, err,
}
use rtp_mux.Admission.{Permit, Registry, Reason, new, try_admit, drop_permit, release_peer, or_zero}
use rtp_mux.Admission.Permits.{weigh, Moves}

-- 1 for a permit of the peer.
abbrev pub of_peer : ℕ → Permit → ℕ
of_peer ip p = if eqb p.peer ip then 1 else 0

-- The weight of all live permits: those that the tasks hold and those in the registry.
abbrev pub census : Registry → List Permit → (Permit → ℕ) → ℕ
census s held w = total w held + weigh w s.entries

-- The counts are exact and within their limits, and no peer is kept with a count of zero.
pub record IsBalanced (s : Registry) (held : List Permit) : Type 0 where
  pub unique : Unique s.entries
  pub counted : s.admitted ≡ census s held (λ _. 1)
  pub bounded : s.admitted ≤ 1024
  pub counted_peer : (ip : ℕ) → or_zero (lookup ip s.per_peer) ≡ census s held (of_peer ip)
  pub bounded_peer : (ip : ℕ) → or_zero (lookup ip s.per_peer) ≤ 32
  pub no_zero : (ip : ℕ) → lookup ip s.per_peer ≢ some 0

pub new-IsBalanced : IsBalanced new []
unfolding new lookup
new-IsBalanced = record {
  unique = tt;
  counted = refl;
  bounded = omega arith;
  counted_peer = λ ip. refl;
  bounded_peer = λ ip. omega arith;
  no_zero = λ ip e. cc;
}

-- What moves permits about keeps the balance.
pub Moves-IsBalanced :
    {s s' : Registry} {taken given : List Permit}
    → Moves s taken s' given
    → IsBalanced s taken
    → IsBalanced s' given
Moves-IsBalanced m v = record {
  unique = m.unique;
  counted = omega (arith, m.admitted, m.weighed (λ _. 1), v.counted);
  bounded = omega (arith, m.admitted, v.bounded);
  counted_peer = λ ip. ground (arith, m.per_peer, m.weighed (of_peer ip), v.counted_peer ip);
  bounded_peer = λ ip. rw m.per_peer (v.bounded_peer ip);
  no_zero = λ ip. rw m.per_peer (v.no_zero ip);
}

-- Only the totals of the held permits matter, so their order does not.
pub focus-IsBalanced :
    (s : Registry) (before : List Permit) (p : Permit) (after : List Permit)
    → IsBalanced s (before ++ p ∷ after)
    → IsBalanced s (p ∷ before ++ after)
focus-IsBalanced s before p after v = record {
  unique = v.unique;
  counted = omega (
    arith,
    v.counted,
    total-append (λ (_ : Permit). 1) before (p ∷ after),
    total-append (λ (_ : Permit). 1) before after,
  );
  bounded = v.bounded;
  counted_peer = λ ip. omega (
    arith,
    v.counted_peer ip,
    total-append (of_peer ip) before (p ∷ after),
    total-append (of_peer ip) before after,
  );
  bounded_peer = v.bounded_peer;
  no_zero = v.no_zero;
}

abbrev pub admitted_permits : Result Reason Permit → List Permit
admitted_permits (ok p) = p ∷ []
admitted_permits (err e) = []

module _ (s : Registry) (held : List Permit) (peer : ℕ) (v : IsBalanced s held) where
  admitted-IsBalanced :
      s.admitted < 1024
      → or_zero (lookup peer s.per_peer) < 32
      → IsBalanced
          (record s {
            admitted = s.admitted + 1;
            per_peer = insert peer (or_zero (lookup peer s.per_peer) + 1) s.per_peer;
          })
          (record { peer = peer } ∷ held)
  admitted-IsBalanced room room_peer = record {
    unique = v.unique;
    counted = omega (arith, v.counted);
    bounded = omega arith;
    counted_peer = λ ip. ground (
      arith,
      v.counted_peer ip,
      eqb_iff peer ip,
      lookup-insert peer ip (or_zero (lookup peer s.per_peer) + 1) s.per_peer,
    );
    bounded_peer = λ ip. ground (
      arith,
      v.bounded_peer ip,
      lookup-insert peer ip (or_zero (lookup peer s.per_peer) + 1) s.per_peer,
    );
    no_zero = λ ip. ground (
      arith,
      v.no_zero ip,
      lookup-insert peer ip (or_zero (lookup peer s.per_peer) + 1) s.per_peer,
    );
  }

-- An admission within both limits adds one permit, and a refusal changes nothing.
pub try_admit-IsBalanced :
    (s : Registry) (held : List Permit) (peer : ℕ)
    → IsBalanced s held
    → let (s', result) = try_admit s peer in IsBalanced s' (admitted_permits result ++ held)
unfolding try_admit
try_admit-IsBalanced s held peer v = ground (arith, v, admitted-IsBalanced s held peer v)

release_peer-lookup :
    (peer ip : ℕ) (m : Map ℕ ℕ)
    → or_zero (lookup ip (release_peer peer (lookup peer m) m))
      ≡ (if eqb peer ip then or_zero (lookup ip m) - 1 else or_zero (lookup ip m))
unfolding release_peer
release_peer-lookup peer ip m = elim (Option-cases (lookup peer m)) [
  | inl e ↦ ground (arith, e, eqb_iff peer ip)
  | inr (n, e) ↦
      ground (arith, e, eqb_iff peer ip, lookup-insert peer ip (n - 1) m, lookup-remove peer ip m)
]

release_peer-no_zero :
    (peer ip : ℕ) (m : Map ℕ ℕ)
    → lookup ip m ≢ some 0
    → lookup ip (release_peer peer (lookup peer m) m) ≢ some 0
unfolding release_peer
release_peer-no_zero peer ip m h = elim (Option-cases (lookup peer m)) [
  | inl e ↦ ground (arith, e, eqb_iff peer ip)
  | inr (n, e) ↦
      ground (arith, e, eqb_iff peer ip, lookup-insert peer ip (n - 1) m, lookup-remove peer ip m)
]

-- Dropping a held permit takes it off both counts.
pub drop_permit-IsBalanced :
    (s : Registry) (p : Permit) (held : List Permit)
    → IsBalanced s (p ∷ held)
    → IsBalanced (drop_permit s p) held
unfolding drop_permit
drop_permit-IsBalanced s p held v = record {
  unique = v.unique;
  counted = omega (arith, v.counted);
  bounded = omega (arith, v.bounded);
  counted_peer = λ ip. ground (arith, v.counted_peer ip, release_peer-lookup p.peer ip s.per_peer);
  bounded_peer = λ ip. ground (arith, v.bounded_peer ip, release_peer-lookup p.peer ip s.per_peer);
  no_zero = λ ip. release_peer-no_zero p.peer ip s.per_peer (v.no_zero ip);
}
