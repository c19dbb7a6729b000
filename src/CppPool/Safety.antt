-- ===== src/CppPool/Safety.antt =====
-- What the pool of Thread/ThreadPool/threadPoolC++ promises.
use network_communications.Prelude.{
  ℕ, zero, suc, ◌+◌, ◌≤◌, false, [], ◌++◌, some, ◌≡◌, ◌≢◌, refl, subst, ap, arith, length,
  get_elem?, sum_by,
}
use network_communications.ThreadPool.{first_ids}
use network_communications.CppPool.{
  faulted, Worker, System, thread_pool, get_busy_num, get_alive_num, Reach, here, next,
}
use network_communications.CppPool.Invariant.{Inv, inside, busy, alive, holding, Knows}
use network_communications.CppPool.Invariant.Others.{
  Step-Inv, newcomers_none, newcomers_alive, newcomers_know,
}

length-first_ids : (n : ℕ) (ids : ℕ → ℕ) → length (first_ids n ids) ≡ n
length-first_ids zero ids = refl
length-first_ids (suc n) ids = ap suc (length-first_ids n (λ i. ids (suc i)))

pub thread_pool-Inv : (ids : ℕ → ℕ) (min max : ℕ) → min ≤ max → Inv (thread_pool ids min max)
unfolding thread_pool sum_by
thread_pool-Inv ids min max h = record {
  lock = omega (arith, newcomers_none inside (λ t. refl) (first_ids min ids));
  busy_count = omega (arith, newcomers_none busy (λ t. refl) (first_ids min ids));
  live_count = λ up. omega (arith, newcomers_alive (first_ids min ids), length-first_ids min ids);
  least = omega arith;
  most = h;
  order = refl;
  tasks = λ f. omega (arith, newcomers_none (holding f) (λ t. refl) (first_ids min ids));
  known = newcomers_know [] false (first_ids min ids);
}

Reach-Inv : {s t : System} → Inv s → Reach s t → Inv t
Reach-Inv inv here = inv
Reach-Inv inv (next {t = t} {u = u} r step) = Step-Inv t u step (Reach-Inv inv r)

-- For a pool that was made with min <= max, however its threads take turns: the tasks that addTask has
-- pushed are those taken and then those in the queue, in order; those taken are, by any weight, those
-- executed and those that workers hold; and no worker takes from an empty queue, which would make it
-- call through NULL.
pub every_task :
    (ids : ℕ → ℕ) (min max : ℕ) {s : System}
    → min ≤ max
    → Reach (thread_pool ids min max) s
    → (s.pushed ≡ s.taken ++ s.task_q)
      × ((f : ℕ → ℕ) → sum_by f s.taken ≡ sum_by f s.executed + sum_by (holding f) s.workers)
      × ((i : ℕ) (w : Worker) → get_elem? s.workers i ≡ some w → w.pc ≢ faulted)
every_task ids min max {s} h r =
    let inv = Reach-Inv (thread_pool-Inv ids min max h) r in
    (inv.order, inv.tasks, (λ i w e f. subst (Knows s.task_q s.shutdown) f (inv.known i w e)))

-- For a pool that was made with min <= max, however its threads take turns: getBusyNum is the number of
-- workers between taking a task and the end of its round, and getAliveNum lies between `minNum` and
-- `maxNum`; until the pool is shut down it is the number of workers that have not been told to end.
pub counters_true :
    (ids : ℕ → ℕ) (min max : ℕ) {s : System}
    → min ≤ max
    → Reach (thread_pool ids min max) s
    → (get_busy_num s ≡ sum_by busy s.workers)
      × (s.min_num ≤ get_alive_num s)
      × (get_alive_num s ≤ s.max_num)
      × (s.shutdown ≡ false → get_alive_num s ≡ sum_by alive s.workers)
unfolding get_busy_num get_alive_num
counters_true ids min max h r =
    let inv = Reach-Inv (thread_pool-Inv ids min max h) r in
    (inv.busy_count, inv.least, inv.most, inv.live_count)
