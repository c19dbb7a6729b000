-- ===== src/RwLock/Total.antt =====
-- What holds of the program of Thread/read_write_lock.c at every moment.
pub mod Runs
use network_communications.Prelude.{
  ℕ, ◌+◌, ◌-◌, ◌*◌, ◌≤◌, ◌<◌, Bool, true, false, not, ◌&&◌, ◌==◌, some, get_elem?, set, ltb,
  if◌then◌else◌, ◌≡◌, ◌≢◌, ◌⊎◌, inl, inr, refl, sym, ap, subst, ◌∙◌, arith, sum_by, sum_by-set,
  others_zero, set-each, le-sum_by, lt_of_ltb, le_of_ltb,
}
use network_communications.RwLock.{
  rounds, Pc, w_test, w_lock, w_load, w_store, w_unlock, w_returned, r_lock, r_read, r_unlock,
  System, enabled, move, advance,
}

-- With the lock held for writing.
abbrev pub writes : Pc → ℕ
writes (w_load i) = 1
writes (w_store i cur) = 1
writes (w_unlock i) = 1
writes _ = 0

-- With the lock held for reading.
abbrev pub reads : Pc → ℕ
reads r_read = 1
reads (r_unlock seen) = 1
reads _ = 0

-- How often a thread has still to add 1.
abbrev pub to_add : Pc → ℕ
to_add (w_test i) = rounds - i
to_add (w_lock i) = rounds - i
to_add (w_load i) = rounds - i
to_add (w_store i cur) = rounds - i
to_add (w_unlock i) = rounds - (i + 1)
to_add _ = 0

-- What a thread knows where it stands: its `i` is in range, and what it has read under the lock is
-- not out of date.
abbrev pub Knows : ℕ → Pc → Type 0
Knows number (w_test i) = i ≤ rounds
Knows number (w_lock i) = i < rounds
Knows number (w_load i) = i < rounds
Knows number (w_store i cur) = (i < rounds) × (cur ≡ number + 1)
Knows number (w_unlock i) = i < rounds
Knows number (r_unlock seen) = seen ≡ number
Knows number _ = Unit

abbrev pub bit : Bool → ℕ
bit true = 1
bit false = 0

pub record Inv (s : System) : Type 0 where
  pub writers : bit s.writing ≡ sum_by writes s.threads
  pub readers : s.reading ≡ sum_by reads s.threads
  pub apart : bit s.writing ≡ 1 → s.reading ≡ 0
  pub total : s.number + sum_by to_add s.threads ≡ 3 * rounds
  pub knows : (k : ℕ) (pc : Pc) → get_elem? s.threads k ≡ some pc → Knows s.number pc

pub bit_le : (b : Bool) → bit b ≤ 1
bit_le b = ground arith

not_writing : (b : Bool) → not b ≡ true → bit b ≡ 0
not_writing b h = ground arith

unlocked : (b : Bool) (n : ℕ) → (not b && n == 0) ≡ true → (bit b ≡ 0) × (n ≡ 0)
unlocked b n h = ground arith

-- Only a thread with the lock depends on the number.
Knows-other : (a b : ℕ) (pc : Pc) → writes pc ≡ 0 → reads pc ≡ 0 → Knows a pc → Knows b pc
Knows-other a b (w_test i) w r h = h
Knows-other a b (w_lock i) w r h = h
Knows-other a b (w_load i) w r h = h
Knows-other a b (w_store i cur) w r h = absurd (omega arith)
Knows-other a b (w_unlock i) w r h = h
Knows-other a b w_returned w r h = h
Knows-other a b r_lock w r h = h
Knows-other a b r_read w r h = h
Knows-other a b (r_unlock seen) w r h = absurd (omega arith)

module _ {s : System} (inv : Inv s) (k : ℕ) (pc pc' : Pc) (e : get_elem? s.threads k ≡ some pc)
    (t : System) (moved : t.threads ≡ set s.threads k pc')
    (write_step : bit t.writing + writes pc ≡ bit s.writing + writes pc')
    (read_step : t.reading + reads pc ≡ s.reading + reads pc')
    (apart_step : bit t.writing ≡ 1 → t.reading ≡ 0)
    (add_step : t.number + to_add pc' ≡ s.number + to_add pc) (own : Knows t.number pc')
    (alone : (t.number ≡ s.number) ⊎ (writes pc ≡ 1)) where
  changed : (f : Pc → ℕ) → sum_by f t.threads + f pc ≡ sum_by f s.threads + f pc'
  changed f = rw moved (sum_by-set f s.threads k pc pc' e)

  other-Knows : (j : ℕ) (q : Pc) → k ≢ j → get_elem? s.threads j ≡ some q → Knows t.number q
  other-Knows j q ne f = elim alone [
    | inl same ↦ subst (λ a. Knows a q) (sym same) (inv.knows j q f)
    | inr holds ↦
        let one : sum_by writes s.threads ≤ 1 = omega (arith, inv.writers, bit_le s.writing) in
        let busy : bit s.writing ≡ 1 =
          omega (arith, inv.writers, bit_le s.writing, le-sum_by writes s.threads k pc e) in
        Knows-other s.number t.number q (others_zero writes s.threads k j pc q e f ne holds one)
          (omega (arith, inv.readers, inv.apart busy, le-sum_by reads s.threads j q f))
          (inv.knows j q f)
  ]

  moved-Inv : Inv t
  moved-Inv = record {
    writers = omega (arith, inv.writers, changed writes, write_step);
    readers = omega (arith, inv.readers, changed reads, read_step);
    apart = apart_step;
    total = omega (arith, inv.total, changed to_add, add_step);
    knows = λ j q f.
        set-each (Knows t.number) s.threads k pc pc' e own other-Knows j q
          (ap (λ ts. get_elem? ts j) (sym moved) ∙ f);
  }

module _ {s : System} (inv : Inv s) (k : ℕ) where
  written_by : {pc : Pc} → get_elem? s.threads k ≡ some pc → writes pc ≡ 1 → bit s.writing ≡ 1
  written_by {pc} e h =
      omega (arith, inv.writers, bit_le s.writing, le-sum_by writes s.threads k pc e)

  read_by : {pc : Pc} → get_elem? s.threads k ≡ some pc → reads pc ≡ 1 → 1 ≤ s.reading
  read_by {pc} e h = omega (arith, inv.readers, le-sum_by reads s.threads k pc e)

  test-Inv :
      (i : ℕ) (b : Bool)
      → get_elem? s.threads k ≡ some (w_test i)
      → ltb i rounds ≡ b
      → Inv (move s k (if b then w_lock i else w_returned))
  test-Inv i true e h =
      let lt = lt_of_ltb i rounds h in
      moved-Inv inv k (w_test i) (w_lock i) e _ refl refl refl inv.apart refl lt (inl refl)
  test-Inv i false e h =
      let le = le_of_ltb i rounds h in
      let top : i ≤ rounds = inv.knows k (w_test i) e in
      moved-Inv inv k (w_test i) w_returned e _ refl refl refl inv.apart (omega arith) tt (inl refl)

  pub advance-Inv :
      (pc : Pc) → get_elem? s.threads k ≡ some pc → enabled s pc ≡ true → Inv (advance s k pc)
  unfolding advance enabled
  advance-Inv (w_test i) e h = test-Inv i (ltb i rounds) e refl
  advance-Inv (w_lock i) e h =
      let (free, none) = unlocked s.writing s.reading h in
      let lt : i < rounds = inv.knows k (w_lock i) e in
      moved-Inv inv k (w_lock i) (w_load i) e _ refl (omega arith) refl (λ o. none) refl lt
        (inl refl)
  advance-Inv (w_load i) e h =
      let lt : i < rounds = inv.knows k (w_load i) e in
      moved-Inv inv k (w_load i) (w_store i (s.number + 1)) e _ refl refl refl inv.apart refl
        (lt, refl) (inl refl)
  advance-Inv (w_store i cur) e h =
      let (lt, fresh) = inv.knows k (w_store i cur) e in
      moved-Inv inv k (w_store i cur) (w_unlock i) e _ refl refl refl inv.apart (omega arith) lt
        (inr refl)
  advance-Inv (w_unlock i) e h =
      let lt : i < rounds = inv.knows k (w_unlock i) e in
      moved-Inv inv k (w_unlock i) (w_test (i + 1)) e _ refl (omega (arith, written_by e refl)) refl
        (λ o. absurd (omega arith)) refl (omega arith) (inl refl)
  advance-Inv w_returned e h = grind arith
  advance-Inv r_lock e h =
      let free = not_writing s.writing h in
      moved-Inv inv k r_lock r_read e _ refl refl (omega arith) (λ o. absurd (omega arith)) refl tt
        (inl refl)
  advance-Inv r_read e h =
      moved-Inv inv k r_read (r_unlock s.number) e _ refl refl refl inv.apart refl refl (inl refl)
  advance-Inv (r_unlock seen) e h =
      moved-Inv inv k (r_unlock seen) r_lock e _ refl refl (omega (arith, read_by e refl))
        (λ o. omega (arith, inv.apart o)) refl tt (inl refl)
