-- ===== src/Semaphore/Tests.antt =====
-- The program of Thread/semaphore.c at work: one producer stores the number 7.
use network_communications.Prelude.{ℕ, ◌≤◌, true, [], some, ◌≡◌, ◌≢◌, refl, length, get_elem?}
use network_communications.Semaphore.{
  Pc, p_wait, p_lock, p_link, p_store, faulted, System, init, enabled, advance, runs, Reach, here,
  next,
}
use network_communications.Semaphore.Invariant.{Current}
use network_communications.Semaphore.Safety.{five_nodes, no_deadlock}

-- The producer holds the mutex and has filled its node.
abbrev filled : System
filled = advance (advance (advance init 0 7 p_wait) 0 7 p_lock) 0 1007 p_link

abbrev stored : System
stored = advance filled 0 7 (p_store 7 [])

filled-Reach : Reach init filled
unfolding init advance enabled
filled-Reach =
    next (next (next here (runs 0 7 p_wait refl refl)) (runs 0 7 p_lock refl refl))
      (runs 0 1007 p_link refl refl)

stored-Reach : Reach init stored
unfolding init advance enabled
stored-Reach = next filled-Reach (runs 0 7 (p_store 7 []) refl refl)

five_nodes_example :
    (length filled.head ≤ 5) × Current filled.head (p_store 7 []) × (p_store 7 [] ≢ faulted)
unfolding init advance
five_nodes_example = five_nodes filled-Reach 0 (p_store 7 []) refl

no_deadlock_example :
    (i : ℕ) × (pc : Pc) × (get_elem? stored.threads i ≡ some pc) × (enabled stored pc ≡ true)
no_deadlock_example = no_deadlock stored-Reach
