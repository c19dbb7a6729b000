-- ===== src/ThreadPool/Tests.antt =====
-- The thread pool of Thread/ThreadPool/threadPool.c at work: two slots, one worker, one task.
use network_communications.Prelude.{
  ℕ, suc, ◌+◌, ◌≤◌, true, false, List, [], ◌∷◌, ◌++◌, some, ◌≡◌, ◌⊎◌, refl, arith, get_elem?,
  sum_by,
}
use network_communications.Run.{done, overrun}
use network_communications.ThreadPool.{
  Task, Pool, busy_threads, alive_threads, first_ids, new_pool, create, add, enter,
}
use network_communications.ThreadPool.Queue.{Represents, empty-Represents, Adds, add-Adds}
use network_communications.ThreadPool.Slots.{used, is_id}
use network_communications.ThreadPool.System.{
  System, running, init, works, calls, offers, Reach, here, next, freed, idle, checking, work,
  offer, start, adding, holding,
}
use network_communications.ThreadPool.Invariant.{busy, active, present, held, owns}
use network_communications.ThreadPool.Safety.{
  counters_exact, slots_exact, first_in_first_out, no_task_lost, destroy_under_worker,
}

abbrev blank : Task
blank = record { function = 0; arg = 0 }

abbrev job : Task
job = record { function = 1; arg = 42 }

abbrev tid : ℕ → ℕ
tid i = suc i

abbrev small : Pool
small = new_pool (blank ∷ blank ∷ []) tid 1 2

abbrev begun : System
begun = init small (first_ids 1 tid)

small_made : create true true true (blank ∷ blank ∷ []) tid 1 2 ≡ done (some small)
unfolding create new_pool
small_made = refl

-- A failure to allocate the slots frees a pointer that was never set.
create_ids_fail : create true false true [] tid 1 2 ≡ overrun
unfolding create
create_ids_fail = refl

small-Represents : Represents small []
unfolding new_pool
small-Represents = empty-Represents small refl (omega arith) refl refl refl

-- One task is queued, and the worker runs it.
abbrev at_work : System
at_work =
    work (work (offer (record begun { callers = adding job ∷ [] }) 0 job) 0 1 start) 0 1
      (holding job)

at_work-Reach : Reach begun at_work
unfolding init work offer add enter new_pool
at_work-Reach =
    next
      (next (next (next here (calls job (λ e. cc))) (offers 0 job (λ e. cc) refl))
        (works 0 1 start (λ e. cc) refl))
      (works 0 1 (holding job) (λ e. cc) refl)

add-Adds_example : Adds small [] job (add small job)
add-Adds_example = add-Adds small [] job small-Represents

counters_exact_example :
    (busy_threads at_work.pool ≡ sum_by busy at_work.workers)
    × (at_work.pool.min_num ≤ at_work.pool.live_num)
    × (at_work.pool.live_num ≤ at_work.pool.max_num)
    × ((at_work.pool.shutdown ≡ true)
        ⊎ (alive_threads at_work.pool ≡ sum_by active at_work.workers))
counters_exact_example =
    counters_exact true true true (blank ∷ blank ∷ []) tid 1 2 small small_made (omega arith)
      (λ i. omega arith) at_work-Reach

slots_exact_example :
    (sum_by used at_work.pool.thread_ids ≡ sum_by present at_work.workers)
    × (sum_by (is_id 1) at_work.pool.thread_ids ≡ sum_by (owns 1) at_work.workers)
    × (sum_by present at_work.workers ≤ at_work.pool.max_num)
slots_exact_example =
    slots_exact true true true (blank ∷ blank ∷ []) tid 1 2 small small_made (omega arith)
      (λ i. omega arith) at_work-Reach 1 (omega arith)

first_in_first_out_example :
    (q : List Task) × Represents at_work.pool q × (at_work.added ≡ at_work.taken ++ q)
first_in_first_out_example =
    first_in_first_out true true true (blank ∷ blank ∷ []) tid 1 2 small small_made (omega arith)
      (λ i. omega arith) at_work-Reach

no_task_lost_example :
    (q : List Task) × Represents at_work.pool q
    × (sum_by (λ t. t.arg) at_work.added
        ≡ sum_by (λ t. t.arg) at_work.executed
          + sum_by (held (λ t. t.arg)) at_work.workers
          + sum_by (λ t. t.arg) q)
no_task_lost_example =
    no_task_lost true true true (blank ∷ blank ∷ []) tid 1 2 small small_made (omega arith)
      (λ i. omega arith) at_work-Reach (λ t. t.arg)

-- The pool is freed while the worker runs its task.
destroy_under_worker_example :
    (u : System) × Reach (record at_work { destroyer = idle; manager = checking }) u
    × (u.destroyer ≡ freed)
    × (get_elem? u.workers 0 ≡ some (record { tid = 1; pc = running job }))
unfolding init work offer add enter new_pool
destroy_under_worker_example =
    destroy_under_worker at_work 0 (record { tid = 1; pc = running job }) refl
