-- ===== src/PoolDemo/Tests.antt =====
-- Thread/ThreadPool/main.c, while its first task runs.
use network_communications.Prelude.{
  ℕ, suc, ◌+◌, List, some, ◌≡◌, refl, arith, length, replicate, sum_by,
}
use network_communications.Run.{done}
use network_communications.ThreadPool.{Task, Pool, queued, first_ids, new_pool, create, add, enter}
use network_communications.ThreadPool.Queue.{Represents}
use network_communications.ThreadPool.System.{System, init, work, start, holding, offer}
use network_communications.ThreadPool.Invariant.{held}
use network_communications.PoolDemo.{
  numbered, calling, Demo, demo_pool, main_step, works, goes_on, Reach, here, next,
}
use network_communications.PoolDemo.Once.{is_number, never_waits, each_task_once}

abbrev memory : List Task
memory = replicate 100 (record { function = 0; arg = 0 })

memory-length : length memory ≡ 100
memory-length = refl

abbrev fresh_ids : ℕ → ℕ
fresh_ids i = suc i

abbrev pool : Pool
pool = new_pool memory fresh_ids 3 10

pool_made : demo_pool memory fresh_ids ≡ done (some pool)
unfolding create
pool_made = refl

abbrev begun : System
begun = init pool (first_ids 3 fresh_ids)

-- `main` has queued the first task, and the first worker runs it.
abbrev at_work : Demo
at_work =
    let d = main_step begun (calling 0) in
    record d { system = work (work d.system 0 1 start) 0 1 (holding (numbered 0)) }

at_work-Reach : Reach begun at_work
unfolding init work offer add enter new_pool main_step
at_work-Reach =
    next (next (next here (goes_on (λ e. cc))) (works 0 1 start (λ e. cc) refl))
      (works 0 1 (holding (numbered 0)) (λ e. cc) refl)

at_work-main : at_work.main ≡ calling 1
unfolding init add new_pool main_step
at_work-main = refl

never_waits_example : (add at_work.system.pool (numbered 1)).0 ≡ queued
never_waits_example =
    never_waits memory fresh_ids pool pool_made memory-length (λ i. omega arith) at_work-Reach 1
      at_work-main

each_task_once_example :
    (q : List Task) × Represents at_work.system.pool q
    × (sum_by (is_number 0) at_work.system.executed
          + sum_by (held (is_number 0)) at_work.system.workers
          + sum_by (is_number 0) q
        ≡ 1)
unfolding init add new_pool main_step
each_task_once_example =
    each_task_once memory fresh_ids pool pool_made memory-length (λ i. omega arith) at_work-Reach 0
      (omega arith)
