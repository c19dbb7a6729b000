-- ===== src/Semaphore/Safety.antt =====
-- What Thread/semaphore.c promises, from its start on.
use network_communications.Prelude.{
  ℕ, ◌+◌, ◌≤◌, ◌<◌, true, false, List, [], some, ◌≡◌, ◌≢◌, inl, inr, refl, arith, length, get_elem?,
  sum_by, sum_by_unique, sum_by_le, sum_by-find, le-sum_by, subst, ap, ℕ_discrete, Bool-cases,
}
use network_communications.Semaphore.{Pc, faulted, System, init, enabled, runs, Reach, here, next}
use network_communications.Semaphore.Invariant.Steps.{advance-Inv}
use network_communications.Semaphore.Invariant.{
  Inv, inside, claim, stocked, outside-Current, producer, consumer, Current, bit, bit_le,
}

init-Inv : Inv init
unfolding init sum_by
init-Inv = record {
  lock = refl;
  permits = refl;
  nodes = refl;
  producers = refl;
  consumers = refl;
  current = λ i pc e. started i pc e;
  numbers = λ f. refl;
}
  where
    started : (i : ℕ) (pc : Pc) → get_elem? init.threads i ≡ some pc → Current [] pc
    started i pc e = outside-Current [] pc (omega (arith, le-sum_by inside init.threads i pc e))

Reach-Inv : {s : System} → Reach init s → Inv s
Reach-Inv here = init-Inv
Reach-Inv (next r (runs i x pc e h)) = advance-Inv (Reach-Inv r) i x pc e h

-- Two threads are never between the lock and the unlock at once.
pub mutual_exclusion :
    {s : System}
    → Reach init s
    → (i j : ℕ) (p q : Pc) → get_elem? s.threads i ≡ some p
    → get_elem? s.threads j ≡ some q
    → 0 < inside p
    → 0 < inside q
    → i ≡ j
mutual_exclusion {s} r i j p q e f hp hq =
    let inv = Reach-Inv r in
    sum_by_unique inside s.threads i j p q e f hp hq (omega (arith, inv.lock, bit_le s.locked))

stocked_le : (pc : Pc) → stocked pc ≤ claim pc
stocked_le pc = ground arith

Current-ok : (h : List ℕ) (pc : Pc) → Current h pc → pc ≢ faulted
Current-ok h pc c is = subst (Current h) is c

-- In every state: the list has at most five nodes, what a thread has read from `head` is still there
-- when it uses it, and no consumer has read through NULL.
pub five_nodes :
    {s : System}
    → Reach init s
    → (i : ℕ) (pc : Pc) → get_elem? s.threads i ≡ some pc
    → (length s.head ≤ 5) × Current s.head pc × (pc ≢ faulted)
five_nodes {s} r i pc e =
    let inv = Reach-Inv r in
    (
      omega (arith, inv.nodes, inv.permits, sum_by_le stocked claim stocked_le s.threads),
      inv.current i pc e,
      Current-ok s.head pc (inv.current i pc e),
    )

-- In every state the numbers ever stored in the list are, however numbers are weighed, those taken
-- out and those in it together: none is lost and none is taken twice.
pub none_lost :
    {s : System}
    → Reach init s
    → (f : ℕ → ℕ) → sum_by f s.produced ≡ sum_by f s.consumed + sum_by f s.head
none_lost r f = (Reach-Inv r).numbers f

-- Which threads can go on: any of them while the mutex is free and both semaphores are up.
free_inside : (s : System) (pc : Pc) → Current s.head pc → 0 < inside pc → enabled s pc ≡ true
unfolding enabled
free_inside s pc c h = ground arith

free_claim :
    (s : System) (pc : Pc)
    → Current s.head pc
    → s.locked ≡ false
    → 0 < claim pc
    → enabled s pc ≡ true
unfolding enabled
free_claim s pc c open_lock h = ground arith

free_producer :
    (s : System) (pc : Pc) → s.locked ≡ false → 0 < s.psem → 0 < producer pc → enabled s pc ≡ true
unfolding enabled
free_producer s pc open_lock room h = ground arith

free_consumer :
    (s : System) (pc : Pc) → s.locked ≡ false → 0 < s.csem → 0 < consumer pc → enabled s pc ≡ true
unfolding enabled
free_consumer s pc open_lock stock h = ground arith

-- In every state some thread is not blocked.
pub no_deadlock :
    {s : System}
    → Reach init s
    → (i : ℕ) × (pc : Pc) × (get_elem? s.threads i ≡ some pc) × (enabled s pc ≡ true)
no_deadlock {s} r =
    let inv = Reach-Inv r in
    elim (Bool-cases s.locked) [
      | inl locked ↦
          let (i, pc, e, h) =
            sum_by-find inside s.threads (omega (arith, inv.lock, ap bit locked)) in
          (i, pc, e, free_inside s pc (inv.current i pc e) h)
      | inr open_lock ↦ elim (ℕ_discrete s.psem 0) [
        | no room ↦
            let (i, pc, e, h) = sum_by-find producer s.threads (omega (arith, inv.producers)) in
            (i, pc, e, free_producer s pc open_lock (omega arith) h)
        | yes none_left ↦ elim (ℕ_discrete s.csem 0) [
          | no stock ↦
              let (i, pc, e, h) = sum_by-find consumer s.threads (omega (arith, inv.consumers)) in
              (i, pc, e, free_consumer s pc open_lock (omega arith) h)
          | yes empty ↦
              let (i, pc, e, h) = sum_by-find claim s.threads (omega (arith, inv.permits)) in
              (i, pc, e, free_claim s pc (inv.current i pc e) open_lock h)
        ]
      ]
    ]
