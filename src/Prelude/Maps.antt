-- ===== src/Prelude/Maps.antt =====
-- `HashMap<K, V>` as an association list; the order of its entries has no meaning.
use Prim.Native.Nat.{ℕ, ◌+◌}
use mathlib.Core.Path.{◌≡◌, refl}
use mathlib.Core.Bool.{Bool, true, false}
use mathlib.Core.List.{List, [], ◌∷◌}
use mathlib.Core.Option.{Option, none, some}
use native.Mathlib.Omega.{arith}
use mathlib.Core.Logic.{inl, inr}
use rtp_mux.Prelude.Tests.{Option-cases, Keyed, ◌==◌, if◌then◌else◌}

abbrev pub Map {ℓ κ} : Type ℓ → Type κ → Type (ℓ ⊔ κ)
Map K V = List (K × V)

abbrev pub weight {κ} : {V : Type κ} → (V → ℕ) → Option V → ℕ
weight w none = 0
weight w (some v) = w v

abbrev pub kept {κ} : {V : Type κ} → (V → Bool) → Option V → Option V
kept keep none = none
kept keep (some v) = if keep v then some v else none

pub beq_refl {ℓ} : {K : Type ℓ} ⦃e : Keyed K⦄ (k : K) → (k == k) ≡ true
beq_refl ⦃e⦄ k = (e.decides k k).1 refl

module _ {ℓ κ} {K : Type ℓ} {V : Type κ} ⦃e : Keyed K⦄ where
  unfoldable pub lookup : K → Map K V → Option V
  lookup k [] = none
  lookup k ((j, v) ∷ m) = if j == k then some v else lookup k m

  unfoldable pub remove : K → Map K V → Map K V
  remove k [] = []
  remove k ((j, v) ∷ m) = if j == k then remove k m else (j, v) ∷ remove k m

  unfoldable pub insert : K → V → Map K V → Map K V
  unfolding remove
  insert k v m = (k, v) ∷ remove k m

  pub lookup-remove :
      (k j : K) (m : Map K V) → lookup j (remove k m) ≡ (if k == j then none else lookup j m)
  unfolding lookup remove
  lookup-remove k j [] = ground arith
  lookup-remove k j ((i, v) ∷ m) =
      ground (arith, e.decides k j, e.decides i k, e.decides i j, lookup-remove k j m)

  pub lookup-insert :
      (k j : K) (v : V) (m : Map K V)
      → lookup j (insert k v m) ≡ (if k == j then some v else lookup j m)
  unfolding lookup insert
  lookup-insert k j v m = ground (arith, lookup-remove k j m)

  pub lookup-insert_self : (k : K) (v : V) (m : Map K V) → lookup k (insert k v m) ≡ some v
  lookup-insert_self k v m = rw (lookup-insert k k v m, beq_refl k)

  pub lookup-remove_self : (k : K) (m : Map K V) → lookup k (remove k m) ≡ none
  lookup-remove_self k m = rw (lookup-remove k k m, beq_refl k)

  -- No key stands twice.
  abbrev pub Unique : Map K V → Type κ
  Unique [] = Unit
  Unique ((k, v) ∷ m) = (lookup k m ≡ none) × Unique m

  pub remove-Unique : (k : K) (m : Map K V) → Unique m → Unique (remove k m)
  unfolding remove
  remove-Unique k [] u = tt
  remove-Unique k ((j, v) ∷ m) u = ground (arith, remove-Unique k m u.1, lookup-remove k j m)

  pub insert-Unique : (k : K) (v : V) (m : Map K V) → Unique m → Unique (insert k v m)
  unfolding insert
  insert-Unique k v m u = (lookup-remove_self k m, remove-Unique k m u)

  pub remove-absent : (k : K) (m : Map K V) → lookup k m ≡ none → remove k m ≡ m
  unfolding lookup remove
  remove-absent k [] h = refl
  remove-absent k ((j, v) ∷ m) h = ground (arith, remove-absent k m)

  -- The sum of a weight over the values.
  abbrev pub total_values : (V → ℕ) → Map K V → ℕ
  total_values w [] = 0
  total_values w ((k, v) ∷ m) = w v + total_values w m

  pub total_values-remove :
      (w : V → ℕ) (k : K) (m : Map K V)
      → Unique m
      → weight w (lookup k m) + total_values w (remove k m) ≡ total_values w m
  unfolding lookup remove
  total_values-remove w k [] u = refl
  total_values-remove w k ((j, v) ∷ m) u =
      ground (arith, e.decides j k, remove-absent k m, total_values-remove w k m u.1)

  pub total_values-insert :
      (w : V → ℕ) (k : K) (v : V) (m : Map K V)
      → lookup k m ≡ none
      → total_values w (insert k v m) ≡ w v + total_values w m
  unfolding insert
  total_values-insert w k v m h = rw (remove-absent k m h)

  -- `HashMap::retain` by a test of the values.
  unfoldable pub retain : (V → Bool) → Map K V → Map K V
  retain keep [] = []
  retain keep ((k, v) ∷ m) = let rest = retain keep m in if keep v then (k, v) ∷ rest else rest

  pub lookup-retain :
      (keep : V → Bool) (k : K) (m : Map K V)
      → Unique m
      → lookup k (retain keep m) ≡ kept keep (lookup k m)
  unfolding lookup retain
  lookup-retain keep k [] u = refl
  lookup-retain keep k ((j, v) ∷ m) u = ground (arith, e.decides j k, lookup-retain keep k m u.1)

  pub retain-Unique : (keep : V → Bool) (m : Map K V) → Unique m → Unique (retain keep m)
  unfolding retain
  retain-Unique keep [] u = tt
  retain-Unique keep ((j, v) ∷ m) u =
      ground (arith, lookup-retain keep j m u.1, retain-Unique keep m u.1)

  -- `entry(k).or_insert(v)`
  unfoldable pub or_insert : K → V → Map K V → Map K V
  unfolding insert lookup
  or_insert k v m = elim (lookup k m) [ none ↦ insert k v m | some _ ↦ m ]

  pub is_in : K → Map K V → Bool
  unfolding lookup
  is_in k m = elim (lookup k m) [ none ↦ false | some _ ↦ true ]

  -- `get_mut`, and the change of what it gives.
  pub update : K → (V → V) → Map K V → Map K V
  unfolding lookup insert
  update k f m = elim (lookup k m) [ none ↦ m | some v ↦ insert k (f v) m ]

  pub is_in-or_insert :
      (k j : K) (v : V) (m : Map K V)
      → is_in j (or_insert k v m) ≡ (if k == j then true else is_in j m)
  unfolding is_in or_insert
  is_in-or_insert k j v m = ground (arith, e.decides k j, lookup-insert k j v m)

  pub is_in-insert :
      (k j : K) (v : V) (m : Map K V)
      → is_in j (insert k v m) ≡ (if k == j then true else is_in j m)
  unfolding is_in
  is_in-insert k j v m = ground (arith, e.decides k j, lookup-insert k j v m)

  pub is_in-cons :
      (k j : K) (v : V) (m : Map K V) → is_in j ((k, v) ∷ m) ≡ (if k == j then true else is_in j m)
  unfolding is_in lookup
  is_in-cons k j v m = ground arith

  pub is_in-lookup : (k : K) (m : Map K V) → is_in k m ≡ true → (v : V) × (lookup k m ≡ some v)
  unfolding is_in
  is_in-lookup k m h = elim (Option-cases (lookup k m)) [
    | inl e ↦ absurd (ground (arith, e, h))
    | inr (v, e) ↦ (v, e)
  ]
