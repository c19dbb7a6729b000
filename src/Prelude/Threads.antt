-- ===== src/Prelude/Threads.antt =====
-- The positions of a program's threads are a list with an entry for each thread. An invariant
-- counts the threads at certain positions by a weighted sum.
use Prim.Native.Nat.{ℕ, zero, suc, ◌+◌, ◌≤◌, ◌<◌}
use mathlib.Core.Path.{◌≡◌, refl, ap, sym, subst, ◌∙◌}
use mathlib.Core.Logic.{◌≢◌}
use mathlib.Core.Option.{some}
use mathlib.Core.List.{List, [], ◌∷◌, ◌++◌, map}
use native.Mathlib.Omega.{arith}
use native.Mathlib.Decide.{ℕ_discrete}
use network_communications.Prelude.Lists.{
  get_elem?, set, replicate, get_elem?-set_self, get_elem?-set_ne, lt_of_get_elem?,
}

module _ {ℓ} {A : Type ℓ} (weight : A → ℕ) where
  unfoldable pub sum_by : List A → ℕ
  sum_by [] = 0
  sum_by (x ∷ xs) = weight x + sum_by xs

  -- One thread moves from `p` to `q`.
  pub sum_by-set :
      (xs : List A) (i : ℕ) (p q : A)
      → get_elem? xs i ≡ some p
      → sum_by (set xs i q) + weight p ≡ sum_by xs + weight q
  unfolding sum_by
  sum_by-set [] i p q e = ground arith
  sum_by-set (x ∷ xs) zero p q e = ground arith
  sum_by-set (x ∷ xs) (suc i) p q e = omega (arith, sum_by-set xs i p q e)

  -- A thread's own weight is part of the sum.
  pub le-sum_by : (xs : List A) (i : ℕ) (p : A) → get_elem? xs i ≡ some p → weight p ≤ sum_by xs
  unfolding sum_by
  le-sum_by [] i p e = ground arith
  le-sum_by (x ∷ xs) zero p e = ground arith
  le-sum_by (x ∷ xs) (suc i) p e = omega (arith, le-sum_by xs i p e)

  -- Two threads with a weight are one thread, if the sum is at most 1.
  pub sum_by_unique :
      (xs : List A) (i j : ℕ) (p q : A)
      → get_elem? xs i ≡ some p
      → get_elem? xs j ≡ some q
      → 0 < weight p
      → 0 < weight q
      → sum_by xs ≤ 1
      → i ≡ j
  unfolding sum_by
  sum_by_unique [] i j p q e f hp hq h = ground arith
  sum_by_unique (x ∷ xs) zero zero p q e f hp hq h = refl
  sum_by_unique (x ∷ xs) zero (suc j) p q e f hp hq h = ground (arith, le-sum_by xs j q f)
  sum_by_unique (x ∷ xs) (suc i) zero p q e f hp hq h = ground (arith, le-sum_by xs i p e)
  sum_by_unique (x ∷ xs) (suc i) (suc j) p q e f hp hq h =
      ap suc (sum_by_unique xs i j p q e f hp hq (omega arith))

  pub sum_by-replicate : (n : ℕ) (a : A) → weight a ≡ 0 → sum_by (replicate n a) ≡ 0
  unfolding sum_by
  sum_by-replicate zero a h = refl
  sum_by-replicate (suc n) a h = omega (arith, sum_by-replicate n a h)

  pub sum_by-append : (xs ys : List A) → sum_by (xs ++ ys) ≡ sum_by xs + sum_by ys
  unfolding sum_by
  sum_by-append [] ys = omega arith
  sum_by-append (x ∷ xs) ys = omega (arith, sum_by-append xs ys)

  -- Where the sum is not 0 there is a thread with a weight.
  pub sum_by-find :
      (xs : List A) → 0 < sum_by xs → (i : ℕ) × (p : A) × (get_elem? xs i ≡ some p) × (0 < weight p)
  unfolding sum_by
  sum_by-find [] h = absurd (omega arith)
  sum_by-find (x ∷ xs) h = elim (ℕ_discrete (weight x) 0) [
    | no here ↦ (0, x, refl, omega arith)
    | yes elsewhere ↦ let (i, q, e, w) = sum_by-find xs (omega arith) in (suc i, q, e, w)
  ]

module _ {ℓ} {A : Type ℓ} (f g : A → ℕ) (le : (a : A) → f a ≤ g a) where
  pub sum_by_le : (xs : List A) → sum_by f xs ≤ sum_by g xs
  unfolding sum_by
  sum_by_le [] = omega arith
  sum_by_le (x ∷ xs) = omega (arith, le x, sum_by_le xs)

-- Where the sum is at most 1, a thread with a weight is the only one.
pub others_zero {ℓ} :
    {A : Type ℓ} (weight : A → ℕ) (xs : List A) (i j : ℕ) (p q : A)
    → get_elem? xs i ≡ some p
    → get_elem? xs j ≡ some q
    → i ≢ j
    → weight p ≡ 1
    → sum_by weight xs ≤ 1
    → weight q ≡ 0
others_zero weight xs i j p q e f ne one h = elim (ℕ_discrete (weight q) 0) [
  | yes zero_there ↦ zero_there
  | no there ↦ absurd (ne (sum_by_unique weight xs i j p q e f (omega arith) (omega arith) h))
]

-- What holds of every thread after thread `i` has moved: of that one, and of the others still.
pub set-each {ℓ ℓ'} :
    {A : Type ℓ} (K : A → Type ℓ') (xs : List A) (i : ℕ) (p q : A)
    → get_elem? xs i ≡ some p
    → K q
    → ((j : ℕ) (r : A) → i ≢ j → get_elem? xs j ≡ some r → K r)
    → (j : ℕ) (r : A) → get_elem? (set xs i q) j ≡ some r
    → K r
set-each K xs i p q e own others j r f = elim (ℕ_discrete i j) [
  | yes same ↦
      let hit : get_elem? (set xs i q) i ≡ some q =
        get_elem?-set_self xs i q (lt_of_get_elem? xs i e) in
      let found : get_elem? (set xs i q) i ≡ some r =
        subst (λ k. get_elem? (set xs i q) k ≡ some r) (sym same) f in
      let is : q ≡ r = cc in subst K is own
  | no other ↦ others j r other (sym (get_elem?-set_ne xs i j q other) ∙ f)
]

pub each-append {ℓ ℓ'} :
    {A : Type ℓ} (K : A → Type ℓ') (xs ys : List A)
    → ((j : ℕ) (r : A) → get_elem? xs j ≡ some r → K r)
    → ((j : ℕ) (r : A) → get_elem? ys j ≡ some r → K r)
    → (j : ℕ) (r : A) → get_elem? (xs ++ ys) j ≡ some r
    → K r
each-append K [] ys h k j r e = k j r e
each-append K (x ∷ xs) ys h k zero r e = h zero r e
each-append K (x ∷ xs) ys h k (suc j) r e = each-append K xs ys (λ i. h (suc i)) k j r e

pub each-replicate {ℓ ℓ'} :
    {A : Type ℓ} (K : A → Type ℓ') (n : ℕ) (a : A)
    → K a
    → (j : ℕ) (r : A) → get_elem? (replicate n a) j ≡ some r
    → K r
each-replicate K zero a h j r e = absurd (grind arith)
each-replicate K (suc n) a h zero r e = let is : a ≡ r = cc in subst K is h
each-replicate K (suc n) a h (suc j) r e = each-replicate K n a h j r e

-- All threads change at once, and none changes its weight.
pub sum_by-map {ℓ} :
    {A : Type ℓ} (weight : A → ℕ) (f : A → A)
    → ((a : A) → weight (f a) ≡ weight a)
    → (xs : List A) → sum_by weight (map f xs) ≡ sum_by weight xs
unfolding sum_by
sum_by-map weight f same [] = refl
sum_by-map weight f same (x ∷ xs) = omega (arith, same x, sum_by-map weight f same xs)

pub each-map {ℓ ℓ'} :
    {A : Type ℓ} (K : A → Type ℓ') (f : A → A)
    → ((a : A) → K a → K (f a))
    → (xs : List A) → ((j : ℕ) (r : A) → get_elem? xs j ≡ some r → K r)
    → (j : ℕ) (r : A) → get_elem? (map f xs) j ≡ some r
    → K r
each-map K f keep [] h j r e = absurd (grind arith)
each-map K f keep (x ∷ xs) h zero r e = let is : f x ≡ r = cc in subst K is (keep x (h zero x refl))
each-map K f keep (x ∷ xs) h (suc j) r e = each-map K f keep xs (λ i. h (suc i)) j r e

-- What the rounds of a loop have given, in order.
abbrev pub rounds {ℓ} : {A : Type ℓ} → (ℕ → A) → ℕ → List A
rounds g zero = []
rounds g (suc n) = rounds g n ++ g n ∷ []

-- A weight of 1 for round `k`, and of 0 for the others.
module _ {ℓ} {A : Type ℓ} (weight : A → ℕ) (g : ℕ → A) (k : ℕ) (own : weight (g k) ≡ 1)
    (other : (j : ℕ) → j ≢ k → weight (g j) ≡ 0) where
  sum_by-earlier : (n : ℕ) → n ≤ k → sum_by weight (rounds g n) ≡ 0
  unfolding sum_by
  sum_by-earlier zero le = refl
  sum_by-earlier (suc n) le = omega (
    arith,
    sum_by-append weight (rounds g n) (g n ∷ []),
    other n (omega arith),
    sum_by-earlier n (omega arith),
  )

  pub sum_by-rounds : (n : ℕ) → k < n → sum_by weight (rounds g n) ≡ 1
  unfolding sum_by
  sum_by-rounds zero lt = absurd (omega arith)
  sum_by-rounds (suc n) lt =
      let split = sum_by-append weight (rounds g n) (g n ∷ []) in
      elim (ℕ_discrete n k) [
        | yes same ↦
            let here : weight (g n) ≡ 1 = ap (λ j. weight (g j)) same ∙ own in
            omega (arith, split, here, sum_by-earlier n (omega arith))
        | no before ↦ omega (arith, split, other n before, sum_by-rounds n (omega arith))
      ]
