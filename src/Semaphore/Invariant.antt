-- ===== src/Semaphore/Invariant.antt =====
-- What holds of the program of Thread/semaphore.c at every moment.
pub mod Steps
use network_communications.Prelude.{
  ℕ, ◌+◌, ◌≤◌, Bool, true, false, not, ◌%◌, List, [], ◌∷◌, some, ◌≡◌, ◌≢◌, ◌⊎◌, inl, inr, refl, sym,
  ap, subst, ◌∙◌, arith, length, get_elem?, set, sum_by, sum_by-set, sum_by-append, others_zero,
  set-each, le-sum_by, lt_of_ltb,
}
use network_communications.Semaphore.{
  Pc, p_wait, p_lock, p_link, p_store, p_unlock, p_post, c_wait, c_lock, c_load, c_take, c_unlock,
  c_post, faulted, System, enabled, advance,
}

-- With the mutex held.
abbrev pub inside : Pc → ℕ
inside p_link = 1
inside (p_store n tail) = 1
inside p_unlock = 1
inside c_load = 1
inside (c_take node) = 1
inside c_unlock = 1
inside faulted = 1
inside _ = 0

-- Between the `sem_wait` and the `sem_post` of its round.
abbrev pub claim : Pc → ℕ
claim p_wait = 0
claim c_wait = 0
claim _ = 1

-- With a node that is in the list and that `csem` does not count.
abbrev pub stocked : Pc → ℕ
stocked p_unlock = 1
stocked p_post = 1
stocked c_lock = 1
stocked c_load = 1
stocked (c_take node) = 1
stocked _ = 0

abbrev pub producer : Pc → ℕ
producer p_wait = 1
producer p_lock = 1
producer p_link = 1
producer (p_store n tail) = 1
producer p_unlock = 1
producer p_post = 1
producer _ = 0

abbrev pub consumer : Pc → ℕ
consumer c_wait = 1
consumer c_lock = 1
consumer c_load = 1
consumer (c_take node) = 1
consumer c_unlock = 1
consumer c_post = 1
consumer _ = 0

-- What a thread has read from `head` is still there.
abbrev pub Current : List ℕ → Pc → Type 0
Current head (p_store n tail) = tail ≡ head
Current head (c_take node) = node ≡ head
Current head faulted = ⊥
Current head _ = Unit

abbrev pub bit : Bool → ℕ
bit true = 1
bit false = 0

pub record Inv (s : System) : Type 0 where
  pub lock : bit s.locked ≡ sum_by inside s.threads
  pub permits : s.psem + s.csem + sum_by claim s.threads ≡ 5
  pub nodes : length s.head ≡ s.csem + sum_by stocked s.threads
  pub producers : sum_by producer s.threads ≡ 5
  pub consumers : sum_by consumer s.threads ≡ 5
  pub current : (i : ℕ) (pc : Pc) → get_elem? s.threads i ≡ some pc → Current s.head pc
  pub numbers : (f : ℕ → ℕ) → sum_by f s.produced ≡ sum_by f s.consumed + sum_by f s.head

pub bit_le : (b : Bool) → bit b ≤ 1
bit_le true = omega arith
bit_le false = omega arith

pub outside-Current : (h : List ℕ) (pc : Pc) → inside pc ≡ 0 → Current h pc
outside-Current h p_wait e = tt
outside-Current h p_lock e = tt
outside-Current h p_link e = tt
outside-Current h (p_store n tail) e = absurd (omega arith)
outside-Current h p_unlock e = tt
outside-Current h p_post e = tt
outside-Current h c_wait e = tt
outside-Current h c_lock e = tt
outside-Current h c_load e = tt
outside-Current h (c_take node) e = absurd (omega arith)
outside-Current h c_unlock e = tt
outside-Current h c_post e = tt
outside-Current h faulted e = absurd (omega arith)

-- What a step from `pc` to `pc'` has to answer for.
pub record Local (s : System) (pc pc' : Pc) (t : System) : Type 0 where
  pub lock_step : bit t.locked + inside pc ≡ bit s.locked + inside pc'
  pub permits_step : t.psem + t.csem + claim pc' ≡ s.psem + s.csem + claim pc
  pub nodes_step : length t.head + s.csem + stocked pc ≡ length s.head + t.csem + stocked pc'
  pub same_producer : producer pc ≡ producer pc'
  pub same_consumer : consumer pc ≡ consumer pc'
  pub own : Current t.head pc'
  pub others : (t.head ≡ s.head) ⊎ (inside pc ≡ 1)
  pub numbers_step :
      (f : ℕ → ℕ)
      → sum_by f t.produced + sum_by f s.consumed + sum_by f s.head
        ≡ sum_by f s.produced + sum_by f t.consumed + sum_by f t.head

module _ {s : System} (inv : Inv s) (i : ℕ) (pc pc' : Pc) (e : get_elem? s.threads i ≡ some pc)
    (t : System) (moved : t.threads ≡ set s.threads i pc') (l : Local s pc pc' t) where
  changed : (f : Pc → ℕ) → sum_by f t.threads + f pc ≡ sum_by f s.threads + f pc'
  changed f = rw moved (sum_by-set f s.threads i pc pc' e)

  -- A thread that is not the one that moves.
  other-Current : (j : ℕ) (q : Pc) → i ≢ j → get_elem? s.threads j ≡ some q → Current t.head q
  other-Current j q ne f = elim l.others [
    | inl same ↦ subst (λ h. Current h q) (sym same) (inv.current j q f)
    | inr holds ↦ outside-Current t.head q (
        others_zero inside s.threads i j pc q e f ne holds
          (omega (arith, inv.lock, bit_le s.locked)))
  ]

  pub Local-Inv : Inv t
  Local-Inv = record {
    lock = omega (arith, inv.lock, changed inside, l.lock_step);
    permits = omega (arith, inv.permits, changed claim, l.permits_step);
    nodes = omega (arith, inv.nodes, changed stocked, l.nodes_step);
    producers = omega (arith, inv.producers, changed producer, l.same_producer);
    consumers = omega (arith, inv.consumers, changed consumer, l.same_consumer);
    current = λ j q f.
        set-each (Current t.head) s.threads i pc pc' e l.own other-Current j q
          (ap (λ ts. get_elem? ts j) (sym moved) ∙ f);
    numbers = λ f. omega (arith, inv.numbers f, l.numbers_step f);
  }
