-- ===== src/CppDemo/Tests.antt =====
-- Thread/ThreadPool/threadPoolC++/test.cpp, when its first task is queued.
use network_communications.Prelude.{ℕ, suc, ◌+◌, ◌≡◌, refl, arith, sum_by}
use network_communications.CppPool.{thread_pool}
use network_communications.CppPool.Invariant.{holding}
use network_communications.CppDemo.{
  Demo, demo_pool, calling, push, main_step, goes_on, Reach, here, next,
}
use network_communications.CppDemo.Once.{is_number, each_number_once}

abbrev ids : ℕ → ℕ
ids n = suc n

-- The calls of `addTask` of round 0, up to the test of round 1.
abbrev queued_one : Demo
queued_one = main_step (push (demo_pool ids) 100) (calling 1)

queued_one-Reach : Reach ids queued_one
unfolding thread_pool main_step push
queued_one-Reach = next (next (next here (goes_on refl)) (goes_on refl)) (goes_on refl)

each_number_once_example :
    sum_by (is_number 0) queued_one.system.executed
      + sum_by (holding (is_number 0)) queued_one.system.workers
      + sum_by (is_number 0) queued_one.system.task_q
    ≡ 1
unfolding thread_pool main_step push
each_number_once_example = each_number_once ids queued_one-Reach 0 (omega arith)
