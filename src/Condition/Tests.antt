-- ===== src/Condition/Tests.antt =====
-- The first steps of Thread/pthread_cond.c: a consumer falls asleep, and a producer takes the lock.
use network_communications.Prelude.{ℕ, ◌<◌, true, [], some, get_elem?, ◌≡◌, ◌⊎◌, refl}
use network_communications.Condition.{
  Pc, p_lock, p_link, p_store, c_lock, c_test, System, init, enabled, advance, test_head, Reach,
  here, next,
}
use network_communications.Condition.Invariant.{pending}
use network_communications.Condition.Safety.{no_lost_wakeup}

abbrev sleeping : System
sleeping = advance (advance init 5 0 c_lock) 5 0 c_test

abbrev filled : System
filled = advance (advance sleeping 0 0 p_lock) 0 1007 p_link

abbrev stored : System
stored = advance filled 0 0 (p_store 7 [])

filled-Reach : Reach init filled
unfolding init advance enabled test_head
filled-Reach =
    next 0 1007 p_link
      (next 0 0 p_lock (next 5 0 c_test (next 5 0 c_lock here refl refl) refl refl) refl refl) refl
      refl

stored-Reach : Reach init stored
unfolding init advance enabled test_head
stored-Reach = next 0 0 (p_store 7 []) filled-Reach refl refl

no_lost_wakeup_example :
    (stored.head ≡ [])
    ⊎ ((j : ℕ) × (pc : Pc) × (get_elem? stored.threads j ≡ some pc)
        × (0 < pending pc)
        × (enabled stored pc ≡ true))
unfolding init advance test_head
no_lost_wakeup_example = no_lost_wakeup stored-Reach 5 refl
