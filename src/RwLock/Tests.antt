-- ===== src/RwLock/Tests.antt =====
-- The first steps of Thread/read_write_lock.c: a writer has taken the lock and read the number.
use network_communications.Prelude.{ℕ, ◌≡◌, ◌⊎◌, refl}
use network_communications.RwLock.{
  w_test, w_lock, w_load, w_store, r_lock, System, init, enabled, advance, Reach, here, next,
}
use network_communications.RwLock.Total.{writes, reads}
use network_communications.RwLock.Total.Runs.{writers_alone}

abbrev begun : System
begun = advance (advance (advance init 0 (w_test 0)) 0 (w_lock 0)) 0 (w_load 0)

begun-Reach : Reach init begun
unfolding init advance enabled
begun-Reach =
    next 0 (w_load 0) (next 0 (w_lock 0) (next 0 (w_test 0) here refl refl) refl refl) refl refl

writers_alone_example : (reads r_lock ≡ 0) × ((◌≡◌ {A = ℕ} 0 3) ⊎ (writes r_lock ≡ 0))
unfolding init advance
writers_alone_example = writers_alone begun-Reach 0 3 (w_store 0 1) r_lock refl refl refl
