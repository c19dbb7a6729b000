-- ===== src/CppPool/Tests.antt =====
-- The pool of Thread/ThreadPool/threadPoolC++ with one worker, which takes a task.
use network_communications.Prelude.{
  ℕ, suc, ◌+◌, ◌≤◌, true, false, [], ◌∷◌, ◌++◌, some, ◌≡◌, ◌≢◌, refl, arith, get_elem?, sum_by,
}
use network_communications.CppPool.{
  added, locking, testing, deciding, taking, running, faulted, Worker, m_ended, System, thread_pool,
  get_busy_num, get_alive_num, nothing_to_do, take_task, advance, enabled, manage, can_manage,
  works, manages, offers, adds, shuts, frees, Reach, here, next,
}
use network_communications.CppPool.Invariant.{busy, alive, holding}
use network_communications.CppPool.Safety.{every_task, counters_true}

abbrev ids : ℕ → ℕ
ids n = suc n

abbrev made : System
made = thread_pool ids 1 3

-- The worker runs task 7.
abbrev at_work : System
at_work = record made {
  workers = record { tid = 1; pc = running 7 } ∷ [];
  callers = added ∷ [];
  busy_num = 1;
  pushed = 7 ∷ [];
  taken = 7 ∷ [];
}

at_work-Reach : Reach made at_work
unfolding thread_pool enabled advance take_task nothing_to_do
at_work-Reach =
    next
      (next
        (next
          (next (next (next here (offers 7 refl refl)) (adds 0 7 refl refl))
            (works 0 (record { tid = 1; pc = locking }) refl refl refl))
          (works 0 (record { tid = 1; pc = testing }) refl refl refl))
        (works 0 (record { tid = 1; pc = deciding }) refl refl refl))
      (works 0 (record { tid = 1; pc = taking }) refl refl refl)

every_task_example :
    (at_work.pushed ≡ at_work.taken ++ at_work.task_q)
    × ((f : ℕ → ℕ)
        → sum_by f at_work.taken ≡ sum_by f at_work.executed + sum_by (holding f) at_work.workers)
    × ((i : ℕ) (w : Worker) → get_elem? at_work.workers i ≡ some w → w.pc ≢ faulted)
every_task_example = every_task ids 1 3 (omega arith) at_work-Reach

counters_true_example :
    (get_busy_num at_work ≡ sum_by busy at_work.workers)
    × (at_work.min_num ≤ get_alive_num at_work)
    × (get_alive_num at_work ≤ at_work.max_num)
    × (at_work.shutdown ≡ false → get_alive_num at_work ≡ sum_by alive at_work.workers)
counters_true_example = counters_true ids 1 3 (omega arith) at_work-Reach

-- The destructor waits for the manager only: it frees the pool while the worker runs its task.
freed_at_work : Reach made (record at_work { shutdown = true; manager = m_ended; freed = true })
unfolding thread_pool enabled advance manage can_manage
freed_at_work =
    next (next (next at_work-Reach shuts) (manages ids (λ k e. cc) refl refl)) (frees refl refl)
