-- ===== src/Counter/Total.antt =====
-- The program of Thread/counter.c loses no count, and ends.
pub mod Runs
use network_communications.Prelude.{
  ℕ, zero, suc, ◌+◌, ◌-◌, ◌*◌, ◌≤◌, ◌<◌, Bool, true, false, not, List, [], ◌∷◌, some, get_elem?,
  set, ltb, if◌then◌else◌, ◌≡◌, ◌≢◌, ◌⊎◌, inl, inr, refl, sym, ap, subst, ◌∙◌, arith, sum_by,
  sum_by-set, sum_by-find, others_zero, set-each, le-sum_by, ℕ_discrete, get_elem?-set_self,
  get_elem?-set_ne, lt_of_get_elem?, Bool-cases, lt_of_ltb, le_of_ltb,
}
use network_communications.Counter.{
  rounds, Pc, test, lock, load, store, unlock, returned, System, init, enabled, move, advance,
  Reach, here, next,
}

-- With the mutex held.
abbrev pub inside : Pc → ℕ
inside (load i) = 1
inside (store i cur) = 1
inside (unlock i) = 1
inside _ = 0

-- How often a thread has still to add 1.
abbrev pub to_add : Pc → ℕ
to_add (test i) = rounds - i
to_add (lock i) = rounds - i
to_add (load i) = rounds - i
to_add (store i cur) = rounds - i
to_add (unlock i) = rounds - (i + 1)
to_add returned = 0

-- How many steps a thread has still to take.
abbrev pub to_go : Pc → ℕ
to_go (test i) = 5 * (rounds - i) + 1
to_go (lock i) = 5 * (rounds - i)
to_go (load i) = 5 * (rounds - i) - 1
to_go (store i cur) = 5 * (rounds - i) - 2
to_go (unlock i) = 5 * (rounds - i) - 3
to_go returned = 0

-- What a thread knows where it stands: its `i` is in range, and `cur` is not out of date.
abbrev pub Knows : ℕ → Pc → Type 0
Knows number (test i) = i ≤ rounds
Knows number (lock i) = i < rounds
Knows number (load i) = i < rounds
Knows number (store i cur) = (i < rounds) × (cur ≡ number + 1)
Knows number (unlock i) = i < rounds
Knows number returned = Unit

abbrev pub bit : Bool → ℕ
bit true = 1
bit false = 0

pub record Inv (n : ℕ) (s : System) : Type 0 where
  pub held : bit s.locked ≡ sum_by inside s.threads
  pub total : s.number + sum_by to_add s.threads ≡ 100
  pub steps : n + sum_by to_go s.threads ≡ 502
  pub knows : (k : ℕ) (pc : Pc) → get_elem? s.threads k ≡ some pc → Knows s.number pc

pub bit_le : (b : Bool) → bit b ≤ 1
bit_le b = ground arith

not_locked : (b : Bool) → not b ≡ true → bit b ≡ 0
not_locked b h = ground arith

-- Only a thread with the mutex depends on the number.
Knows-other : (a b : ℕ) (pc : Pc) → inside pc ≡ 0 → Knows a pc → Knows b pc
Knows-other a b (test i) out h = h
Knows-other a b (lock i) out h = h
Knows-other a b (load i) out h = h
Knows-other a b (store i cur) out h = absurd (omega arith)
Knows-other a b (unlock i) out h = h
Knows-other a b returned out h = h

module _ {n : ℕ} {s : System} (inv : Inv n s) (k : ℕ) (pc pc' : Pc)
    (e : get_elem? s.threads k ≡ some pc) (t : System) (moved : t.threads ≡ set s.threads k pc')
    (lock_step : bit t.locked + inside pc ≡ bit s.locked + inside pc')
    (add_step : t.number + to_add pc' ≡ s.number + to_add pc) (go_step : to_go pc ≡ to_go pc' + 1)
    (own : Knows t.number pc') (alone : (t.number ≡ s.number) ⊎ (inside pc ≡ 1)) where
  changed : (f : Pc → ℕ) → sum_by f t.threads + f pc ≡ sum_by f s.threads + f pc'
  changed f = rw moved (sum_by-set f s.threads k pc pc' e)

  other-Knows : (j : ℕ) (q : Pc) → k ≢ j → get_elem? s.threads j ≡ some q → Knows t.number q
  other-Knows j q ne f = elim alone [
    | inl same ↦ subst (λ a. Knows a q) (sym same) (inv.knows j q f)
    | inr holds ↦
        Knows-other s.number t.number q
          (others_zero inside s.threads k j pc q e f ne holds
            (omega (arith, inv.held, bit_le s.locked)))
          (inv.knows j q f)
  ]

  moved-Inv : Inv (n + 1) t
  moved-Inv = record {
    held = omega (arith, inv.held, changed inside, lock_step);
    total = omega (arith, inv.total, changed to_add, add_step);
    steps = omega (arith, inv.steps, changed to_go, go_step);
    knows = λ j q f.
        set-each (Knows t.number) s.threads k pc pc' e own other-Knows j q
          (ap (λ ts. get_elem? ts j) (sym moved) ∙ f);
  }

module _ {n : ℕ} {s : System} (inv : Inv n s) (k : ℕ) where
  locked_by : {pc : Pc} → get_elem? s.threads k ≡ some pc → inside pc ≡ 1 → bit s.locked ≡ 1
  locked_by {pc} e h = omega (arith, inv.held, bit_le s.locked, le-sum_by inside s.threads k pc e)

  test-Inv :
      (i : ℕ) (b : Bool)
      → get_elem? s.threads k ≡ some (test i)
      → ltb i rounds ≡ b
      → Inv (n + 1) (move s k (if b then lock i else returned))
  test-Inv i true e h =
      let lt = lt_of_ltb i rounds h in
      moved-Inv inv k (test i) (lock i) e _ refl refl refl refl lt (inl refl)
  test-Inv i false e h =
      let le = le_of_ltb i rounds h in
      let top : i ≤ rounds = inv.knows k (test i) e in
      moved-Inv inv k (test i) returned e _ refl refl (omega arith) (omega arith) tt (inl refl)

  pub advance-Inv :
      (pc : Pc)
      → get_elem? s.threads k ≡ some pc
      → enabled s pc ≡ true
      → Inv (n + 1) (advance s k pc)
  unfolding advance enabled
  advance-Inv (test i) e h = test-Inv i (ltb i rounds) e refl
  advance-Inv (lock i) e h =
      let free = not_locked s.locked h in
      let lt : i < rounds = inv.knows k (lock i) e in
      moved-Inv inv k (lock i) (load i) e _ refl (omega arith) refl (omega arith) lt (inl refl)
  advance-Inv (load i) e h =
      let lt : i < rounds = inv.knows k (load i) e in
      moved-Inv inv k (load i) (store i (s.number + 1)) e _ refl refl refl (omega arith) (lt, refl)
        (inl refl)
  advance-Inv (store i cur) e h =
      let (lt, fresh) = inv.knows k (store i cur) e in
      moved-Inv inv k (store i cur) (unlock i) e _ refl refl (omega arith) (omega arith) lt
        (inr refl)
  advance-Inv (unlock i) e h =
      let lt : i < rounds = inv.knows k (unlock i) e in
      moved-Inv inv k (unlock i) (test (i + 1)) e _ refl (omega (arith, locked_by e refl)) refl
        (omega arith) (omega arith) (inl refl)
  advance-Inv returned e h = grind arith
