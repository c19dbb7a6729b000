-- ===== src/Counter/Tests.antt =====
-- The first steps of Thread/counter.c.
use network_communications.Prelude.{ℕ, ◌*◌, ◌≤◌, true, some, get_elem?, ◌≡◌, ◌⊎◌, refl}
use network_communications.Counter.{
  rounds, Pc, test, lock, System, init, enabled, advance, Reach, here, next,
}
use network_communications.Counter.Total.Runs.{ends_at_hundred}

abbrev begun : System
begun = advance (advance init 0 (test 0)) 0 (lock 0)

begun-Reach : Reach init 2 begun
unfolding init advance enabled
begun-Reach = next 0 (lock 0) (next 0 (test 0) here refl refl) refl refl

ends_at_hundred_example :
    (2 ≤ 502)
    × (((k : ℕ) × (pc : Pc) × (get_elem? begun.threads k ≡ some pc) × (enabled begun pc ≡ true))
        ⊎ (begun.number ≡ 2 * rounds))
ends_at_hundred_example = ends_at_hundred begun-Reach
