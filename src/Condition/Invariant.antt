-- ===== src/Condition/Invariant.antt =====
-- What holds of the program of Thread/pthread_cond.c at every moment.
pub mod Steps
use network_communications.Prelude.{
  ℕ, ◌+◌, ◌≤◌, ◌<◌, ◌%◌, Bool, true, false, not, List, [], ◌∷◌, ◌++◌, some, get_elem?, set, map,
  length, ◌≡◌, ◌≢◌, ◌⊎◌, inl, inr, refl, sym, ap, subst, ◌∙◌, arith, sum_by, sum_by-set,
  sum_by-append, sum_by-map, others_zero, set-each, each-map, le-sum_by,
}
use network_communications.Condition.{
  Pc, p_lock, p_link, p_store, p_unlock, p_signal, c_lock, c_test, c_asleep, c_woken, c_load,
  c_take, c_unlock, faulted, System, enabled, move, wake, test_head, advance,
}

-- With the mutex held.
abbrev pub inside : Pc → ℕ
inside p_link = 1
inside (p_store n tail) = 1
inside p_unlock = 1
inside c_test = 1
inside c_load = 1
inside (c_take node) = 1
inside c_unlock = 1
inside faulted = 1
inside _ = 0

abbrev pub asleep : Pc → ℕ
asleep c_asleep = 1
asleep _ = 0

-- On the way from a new node to the broadcast.
abbrev pub pending : Pc → ℕ
pending p_unlock = 1
pending p_signal = 1
pending _ = 0

-- What a thread has read from `head` is still there, and a consumer behind its test has a node.
abbrev pub Knows : List ℕ → Pc → Type 0
Knows head (p_store n tail) = tail ≡ head
Knows head c_load = 0 < length head
Knows head (c_take node) = (node ≡ head) × (0 < length head)
Knows head faulted = ⊥
Knows head _ = Unit

-- Nobody sleeps while there is a node, unless a broadcast is to come.
abbrev pub Awake : System → Type 0
Awake s = (s.head ≡ []) ⊎ (sum_by asleep s.threads ≡ 0) ⊎ (0 < sum_by pending s.threads)

abbrev pub bit : Bool → ℕ
bit true = 1
bit false = 0

pub record Inv (s : System) : Type 0 where
  pub lock : bit s.locked ≡ sum_by inside s.threads
  pub awake : Awake s
  pub knows : (k : ℕ) (pc : Pc) → get_elem? s.threads k ≡ some pc → Knows s.head pc
  pub numbers : (f : ℕ → ℕ) → sum_by f s.produced ≡ sum_by f s.consumed + sum_by f s.head

pub bit_le : (b : Bool) → bit b ≤ 1
bit_le b = ground arith

pub not_locked : (b : Bool) → not b ≡ true → bit b ≡ 0
not_locked b h = ground arith

Knows-other : (a b : List ℕ) (pc : Pc) → inside pc ≡ 0 → Knows a pc → Knows b pc
Knows-other a b p_lock out h = tt
Knows-other a b p_link out h = tt
Knows-other a b (p_store n tail) out h = absurd (omega arith)
Knows-other a b p_unlock out h = tt
Knows-other a b p_signal out h = tt
Knows-other a b c_lock out h = tt
Knows-other a b c_test out h = tt
Knows-other a b c_asleep out h = tt
Knows-other a b c_woken out h = tt
Knows-other a b c_load out h = absurd (omega arith)
Knows-other a b (c_take node) out h = absurd (omega arith)
Knows-other a b c_unlock out h = tt
Knows-other a b faulted out h = h

Knows-wake : (head : List ℕ) (pc : Pc) → Knows head pc → Knows head (wake pc)
Knows-wake head p_lock h = h
Knows-wake head p_link h = h
Knows-wake head (p_store n tail) h = h
Knows-wake head p_unlock h = h
Knows-wake head p_signal h = h
Knows-wake head c_lock h = h
Knows-wake head c_test h = h
Knows-wake head c_asleep h = tt
Knows-wake head c_woken h = h
Knows-wake head c_load h = h
Knows-wake head (c_take node) h = h
Knows-wake head c_unlock h = h
Knows-wake head faulted h = h

wake-inside : (pc : Pc) → inside (wake pc) ≡ inside pc
wake-inside pc = ground arith

wake-asleep : (pc : Pc) → asleep (wake pc) ≡ 0
wake-asleep pc = ground arith

all_awake : (ps : List Pc) → sum_by asleep (map wake ps) ≡ 0
unfolding sum_by
all_awake [] = refl
all_awake (p ∷ ps) = omega (arith, wake-asleep p, all_awake ps)

module _ {s : System} (inv : Inv s) (k : ℕ) (pc pc' : Pc) (e : get_elem? s.threads k ≡ some pc)
    (t : System) (moved : t.threads ≡ set s.threads k pc')
    (lock_step : bit t.locked + inside pc ≡ bit s.locked + inside pc') (own : Knows t.head pc')
    (alone : (t.head ≡ s.head) ⊎ (inside pc ≡ 1)) where
  pub changed : (f : Pc → ℕ) → sum_by f t.threads + f pc ≡ sum_by f s.threads + f pc'
  changed f = rw moved (sum_by-set f s.threads k pc pc' e)

  other-Knows : (j : ℕ) (q : Pc) → k ≢ j → get_elem? s.threads j ≡ some q → Knows t.head q
  other-Knows j q ne f = elim alone [
    | inl same ↦ subst (λ a. Knows a q) (sym same) (inv.knows j q f)
    | inr holds ↦
        Knows-other s.head t.head q
          (others_zero inside s.threads k j pc q e f ne holds
            (omega (arith, inv.lock, bit_le s.locked)))
          (inv.knows j q f)
  ]

  moved-Knows : (j : ℕ) (q : Pc) → get_elem? t.threads j ≡ some q → Knows t.head q
  moved-Knows j q f =
      set-each (Knows t.head) s.threads k pc pc' e own other-Knows j q
        (ap (λ ts. get_elem? ts j) (sym moved) ∙ f)

  pub moved-Inv :
      Awake t → ((f : ℕ → ℕ) → sum_by f t.produced ≡ sum_by f t.consumed + sum_by f t.head) → Inv t
  moved-Inv awake numbers = record {
    lock = omega (arith, inv.lock, changed inside, lock_step);
    awake = awake;
    knows = moved-Knows;
    numbers = numbers;
  }

  -- A step that leaves the list alone, and puts nobody to sleep.
  pub quiet-Inv :
      t.head ≡ s.head
      → t.produced ≡ s.produced
      → t.consumed ≡ s.consumed
      → asleep pc' ≤ asleep pc
      → pending pc ≤ pending pc'
      → Inv t
  quiet-Inv head made used a p =
      moved-Inv
        (elim inv.awake [
          | inl empty ↦ inl (head ∙ empty)
          | inr (inl none) ↦ inr (inl (omega (arith, none, changed asleep)))
          | inr (inr some_pending) ↦ inr (inr (omega (arith, some_pending, changed pending)))
        ])
        (λ f.
          omega (arith, ap (sum_by f) head, ap (sum_by f) made, ap (sum_by f) used, inv.numbers f))

  -- The step, and then a broadcast: it wakes all.
  pub broadcast-Inv :
      ((f : ℕ → ℕ) → sum_by f t.produced ≡ sum_by f t.consumed + sum_by f t.head)
      → Inv (record t { threads = map wake t.threads })
  broadcast-Inv numbers = record {
    lock =
        omega (
          arith,
          inv.lock,
          changed inside,
          lock_step,
          sum_by-map inside wake wake-inside t.threads,
        );
    awake = inr (inl (all_awake t.threads));
    knows = each-map (Knows t.head) wake (Knows-wake t.head) t.threads moved-Knows;
    numbers = numbers;
  }
