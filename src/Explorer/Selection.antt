-- ===== src/Explorer/Selection.antt =====
-- What src/explorer/mod.rs takes from the standard library to choose a candidate: `swap_remove`,
-- indexing, `enumerate`, `filter_map`, `min_by` and `max_by`.
use rtp_mux.Prelude.{
  ℕ, zero, suc, ◌+◌, Bool, true, false, Option, none, some, List, [], ◌∷◌, ◌++◌, if◌then◌else◌,
  length, ◌≡◌, refl, arith, Bool-cases, Option-cases, inl, inr, ◌∙◌, ap, sym, subst,
}
use mathlib.Core.Option.{some-injective}
use mathlib.Core.List.{Perm}
use mathlib.Core.List.Perm

-- `Vec::swap_remove` puts the last element in the place of the removed one.
put_second : {A : Type 0} → A → List A → List A
put_second x [] = x ∷ []
put_second x (z ∷ zs) = z ∷ x ∷ zs

last_to_front : {A : Type 0} → List A → List A
unfolding put_second
last_to_front [] = []
last_to_front (x ∷ xs) = put_second x (last_to_front xs)

unfoldable pub swap_remove : {A : Type 0} → ℕ → List A → Option (A × List A)
unfolding last_to_front
swap_remove i [] = none
swap_remove zero (x ∷ xs) = some (x, last_to_front xs)
swap_remove (suc i) (x ∷ xs) = elim (swap_remove i xs) [
  | none ↦ none
  | some (y, rest) ↦ some (y, x ∷ rest)
]

unfoldable pub element_at : {A : Type 0} → ℕ → List A → Option A
element_at i [] = none
element_at zero (x ∷ xs) = some x
element_at (suc i) (x ∷ xs) = element_at i xs

-- `enumerate` and `filter_map`: the elements that have a cost, with their index.
pub numbered : {A F : Type 0} → (A → Option F) → ℕ → List A → List (ℕ × F)
numbered f i [] = []
numbered f i (c ∷ cs) =
    let rest = numbered f (i + 1) cs in elim (f c) [ none ↦ rest | some a ↦ (i, a) ∷ rest ]

-- The fold of `min_by` and `max_by`: `keep a b` where the earlier `a` stays.
pub select_from : {F : Type 0} → (F → F → Bool) → ℕ → F → List (ℕ × F) → ℕ × F
select_from keep i a [] = (i, a)
select_from keep i a ((j, b) ∷ rest) =
    let kept = select_from keep i a rest in
    let replaced = select_from keep j b rest in if keep a b then kept else replaced

pub select : {F : Type 0} → (F → F → Bool) → List (ℕ × F) → Option ℕ
unfolding select_from
select keep [] = none
select keep ((i, a) ∷ rest) = some (select_from keep i a rest).0

abbrev pub All : {A : Type 0} → (A → Type 0) → List A → Type 0
All P [] = Unit
All P (x ∷ xs) = P x × All P xs

put_second-Perm :
    {A : Type 0} (x : A) (ys xs : List A) → Perm ys xs → Perm (put_second x ys) (x ∷ xs)
unfolding put_second
put_second-Perm x [] xs p = Perm.cons x p
put_second-Perm x (z ∷ zs) xs p = Perm.trans (Perm.swap x z zs) (Perm.cons x p)

last_to_front-Perm : {A : Type 0} (xs : List A) → Perm (last_to_front xs) xs
unfolding last_to_front
last_to_front-Perm [] = Perm.nil
last_to_front-Perm (x ∷ xs) = put_second-Perm x (last_to_front xs) xs (last_to_front-Perm xs)

pub swap_remove-append :
    {A : Type 0} (before : List A) (c : A) (after : List A)
    → (rest : List A) × (swap_remove (length before) (before ++ c ∷ after) ≡ some (c, rest))
      × Perm rest (before ++ after)
unfolding swap_remove
swap_remove-append [] c after = (last_to_front after, refl, last_to_front-Perm after)
swap_remove-append (x ∷ xs) c after =
    let (rest, e, p) = swap_remove-append xs c after in (x ∷ rest, rw e refl, Perm.cons x p)

pub element_at-append :
    {A : Type 0} (before : List A) (c : A) (after : List A)
    → element_at (length before) (before ++ c ∷ after) ≡ some c
unfolding element_at
element_at-append [] c after = refl
element_at-append (x ∷ xs) c after = element_at-append xs c after

module _ {A F : Type 0} (f : A → Option F) (R : F → F → Type 0) where
  -- No cost in a list is better than `a`.
  abbrev pub NoneBetter : F → List A → Type 0
  NoneBetter a xs = All (λ x. (b : F) → f x ≡ some b → R a b) xs

  -- The element at an index of a list, and its cost.
  pub record Chosen (k : ℕ) (xs : List A) (i : ℕ) (a : F) : Type 0 where
    pub before : List A
    pub element : A
    pub after : List A
    pub splits : xs ≡ before ++ element ∷ after
    pub place : i ≡ k + length before
    pub costs : f element ≡ some a
    pub none_better : NoneBetter a xs

  pub Chosen-swap_remove :
      {xs : List A} {i : ℕ} {a : F} (v : Chosen 0 xs i a)
      → (rest : List A) × (swap_remove i xs ≡ some (v.element, rest))
        × Perm rest (v.before ++ v.after)
  Chosen-swap_remove {xs} {i} v =
      let (rest, e, p) = swap_remove-append v.before v.element v.after in
      (
        rest,
        ap (λ ys. swap_remove i ys) v.splits
            ∙ (ap (λ j. swap_remove j (v.before ++ v.element ∷ v.after)) (v.place ∙ omega arith)
                ∙ e),
        p,
      )

  pub Chosen-element_at :
      {xs : List A} {i : ℕ} {a : F} (v : Chosen 0 xs i a) → element_at i xs ≡ some v.element
  Chosen-element_at {xs} {i} v =
      ap (λ ys. element_at i ys) v.splits
      ∙ (ap (λ j. element_at j (v.before ++ v.element ∷ v.after)) (v.place ∙ omega arith)
          ∙ element_at-append v.before v.element v.after)

  -- No element has a cost, or the chosen one has a cost that none is better than.
  pub data Selected (k : ℕ) (xs : List A) (r : Option ℕ) : Type 0 where
    nothing : r ≡ none → All (λ x. f x ≡ none) xs → Selected k xs r
    chosen : (i : ℕ) (a : F) → r ≡ some i → Chosen k xs i a → Selected k xs r

  module _ (keep : F → F → Bool) (keeps : (a b : F) → keep a b ≡ true → R a b)
      (replaces : (a b : F) → keep a b ≡ false → R b a) (reflexive : (a : F) → R a a)
      (transitive : (a b c : F) → R a b → R b c → R a c) where
    data Scan (k : ℕ) (xs : List A) (i : ℕ) (a : F) (r : ℕ × F) : Type 0 where
      stays : r ≡ (i, a) → NoneBetter a xs → Scan k xs i a r
      found : (j : ℕ) (b : F) → r ≡ (j, b) → R b a → Chosen k xs j b → Scan k xs i a r

    later :
        (k : ℕ) (x : A) (xs : List A) (j : ℕ) (b : F)
        → ((c : F) → f x ≡ some c → R b c)
        → Chosen (k + 1) xs j b
        → Chosen k (x ∷ xs) j b
    later k x xs j b h v = record {
      before = x ∷ v.before;
      element = v.element;
      after = v.after;
      splits = ap (λ ys. x ∷ ys) v.splits;
      place = omega (arith, v.place);
      costs = v.costs;
      none_better = (h, v.none_better);
    }

    same_cost : (x : A) (a b c : F) → f x ≡ some b → f x ≡ some c → R a b → R a c
    same_cost x a b c e h r = subst (R a) (some-injective b c (sym e ∙ h)) r

    absent :
        (k : ℕ) (x : A) (xs : List A) (i : ℕ) (a : F) (r : ℕ × F)
        → f x ≡ none
        → Scan (k + 1) xs i a r
        → Scan k (x ∷ xs) i a r
    absent k x xs i a r e (Scan.stays h v) = Scan.stays h ((λ c w. absurd (cc)), v)
    absent k x xs i a r e (Scan.found j b h w v) =
        Scan.found j b h w (later k x xs j b (λ c w. absurd (cc)) v)

    kept :
        (k : ℕ) (x : A) (xs : List A) (i : ℕ) (a b : F) (r : ℕ × F)
        → f x ≡ some b
        → R a b
        → Scan (k + 1) xs i a r
        → Scan k (x ∷ xs) i a r
    kept k x xs i a b r e le (Scan.stays h v) = Scan.stays h ((λ c w. same_cost x a b c e w le), v)
    kept k x xs i a b r e le (Scan.found j b' h w v) =
        Scan.found j b' h w
          (later k x xs j b' (λ c u. same_cost x b' b c e u (transitive b' a b w le)) v)

    at_head :
        (k : ℕ) (x : A) (xs : List A) (b : F)
        → f x ≡ some b
        → NoneBetter b xs
        → Chosen k (x ∷ xs) k b
    at_head k x xs b e v = record {
      before = [];
      element = x;
      after = xs;
      splits = refl;
      place = omega arith;
      costs = e;
      none_better = ((λ c w. same_cost x b b c e w (reflexive b)), v);
    }

    moved :
        (k : ℕ) (x : A) (xs : List A) (i : ℕ) (a b : F) (r : ℕ × F)
        → f x ≡ some b
        → R b a
        → Scan (k + 1) xs k b r
        → Scan k (x ∷ xs) i a r
    moved k x xs i a b r e le (Scan.stays h v) = Scan.found k b h le (at_head k x xs b e v)
    moved k x xs i a b r e le (Scan.found j b' h w v) =
        Scan.found j b' h (transitive b' b a w le)
          (later k x xs j b' (λ c u. same_cost x b' b c e u w) v)

    numbered-none :
        (k : ℕ) (x : A) (xs : List A) → f x ≡ none → numbered f k (x ∷ xs) ≡ numbered f (k + 1) xs
    unfolding numbered
    numbered-none k x xs e = rw (e, numbered) refl

    numbered-some :
        (k : ℕ) (x : A) (xs : List A) (b : F)
        → f x ≡ some b
        → numbered f k (x ∷ xs) ≡ (k, b) ∷ numbered f (k + 1) xs
    unfolding numbered
    numbered-some k x xs b e = rw (e, numbered) refl

    scan_nil : (k i : ℕ) (a : F) → Scan k [] i a (select_from keep i a (numbered f k []))
    unfolding select_from numbered
    scan_nil k i a = Scan.stays refl tt

    scan :
        (k : ℕ) (xs : List A) (i : ℕ) (a : F)
        → Scan k xs i a (select_from keep i a (numbered f k xs))
    unfolding select_from
    scan k [] i a = scan_nil k i a
    scan k (x ∷ xs) i a = elim (Option-cases (f x)) [
      | inl e ↦ rw (numbered-none k x xs e) (absent k x xs i a _ e (scan (k + 1) xs i a))
      | inr (b, e) ↦ elim (Bool-cases (keep a b)) [
        | inl h ↦
            rw (numbered-some k x xs b e, select_from, h)
              (kept k x xs i a b _ e (keeps a b h) (scan (k + 1) xs i a))
        | inr h ↦
            rw (numbered-some k x xs b e, select_from, h)
              (moved k x xs i a b _ e (replaces a b h) (scan (k + 1) xs k b))
      ]
    ]

    skip :
        (k : ℕ) (x : A) (xs : List A) (r : Option ℕ)
        → f x ≡ none
        → Selected (k + 1) xs r
        → Selected k (x ∷ xs) r
    skip k x xs r e (Selected.nothing h v) = Selected.nothing h (e, v)
    skip k x xs r e (Selected.chosen i a h v) =
        Selected.chosen i a h (later k x xs i a (λ c w. absurd (cc)) v)

    first :
        (k : ℕ) (x : A) (xs : List A) (b : F) (r : ℕ × F)
        → f x ≡ some b
        → Scan (k + 1) xs k b r
        → Selected k (x ∷ xs) (some r.0)
    first k x xs b r e v = elim v [
      | Scan.stays h w ↦ Selected.chosen k b (rw h refl) (at_head k x xs b e w)
      | Scan.found j b' h w u ↦
          Selected.chosen j b' (rw h refl) (later k x xs j b' (λ c u'. same_cost x b' b c e u' w) u)
    ]

    pub select-Selected : (k : ℕ) (xs : List A) → Selected k xs (select keep (numbered f k xs))
    unfolding select numbered
    select-Selected k [] = Selected.nothing refl tt
    select-Selected k (x ∷ xs) = elim (Option-cases (f x)) [
      | inl e ↦ rw (numbered-none k x xs e) (skip k x xs _ e (select-Selected (k + 1) xs))
      | inr (b, e) ↦
          rw (numbered-some k x xs b e, select) (first k x xs b _ e (scan (k + 1) xs k b))
    ]
