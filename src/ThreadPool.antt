-- ===== src/ThreadPool.antt =====
-- Thread/ThreadPool/threadPool.c (the same file as socket/multi_thread/threadPool.c): the pool's
-- fields, and what each stretch of code under `mutexPool` or `mutexBusy` does to them.
-- An `int` that counts is a natural number, whose subtraction stops at 0.
pub mod Queue
pub mod System
pub mod Slots
pub mod Invariant
pub mod Safety
pub mod Limits
pub mod Kept
mod Tests
use network_communications.Prelude.{
  ℕ, zero, suc, ◌+◌, ◌-◌, ◌*◌, ◌%◌, Bool, true, false, ◌&&◌, not, List, [], ◌∷◌, ◌++◌, Option, none,
  some, length, get_elem?, set, replicate, ltb, ◌==◌, if◌then◌else◌,
}
use network_communications.Run.{Run, done, overrun}

-- `struct Task`: the function and the argument, by name.
pub record Task : Type 0 where
  pub function : ℕ
  pub arg : ℕ

-- `struct ThreadPool`, less the mutexes and condition variables. In `thread_ids` 0 is a free slot.
pub record Pool : Type 0 where
  pub task_q : List Task
  pub queue_capacity : ℕ
  pub queue_size : ℕ
  pub queue_front : ℕ
  pub queue_rear : ℕ
  pub thread_ids : List ℕ
  pub min_num : ℕ
  pub max_num : ℕ
  pub busy_num : ℕ
  pub live_num : ℕ
  pub exit_num : ℕ
  -- `shutdown` is not 0
  pub shutdown : Bool

-- How many threads the manager creates or ends in a round.
abbrev pub number : ℕ
number = 2

-- The first `n` identifiers that `pthread_create` gives out.
abbrev pub first_ids : ℕ → (ℕ → ℕ) → List ℕ
first_ids zero ids = []
first_ids (suc n) ids = ids 0 ∷ first_ids n (λ i. ids (suc i))

-- The pool that `threadPoolCreate` sets up, in `raw`, the memory of `queueSize` tasks.
unfoldable pub new_pool : List Task → (ℕ → ℕ) → ℕ → ℕ → Pool
new_pool raw ids min max = record {
  task_q = raw;
  queue_capacity = length raw;
  queue_size = 0;
  queue_front = 0;
  queue_rear = 0;
  thread_ids = first_ids min ids ++ replicate (max - min) 0;
  min_num = min;
  max_num = max;
  busy_num = 0;
  live_num = min;
  exit_num = 0;
  shutdown = false;
}

-- `threadPoolCreate`. The three tests say whether each allocation or initialisation succeeds, and
-- `ids` is what `pthread_create` stores. `none` is NULL. On the two later failures the code reads the
-- field `taskQ`, which is not set yet, and frees what it finds. With min > max it stores behind the
-- end of `threadIDs`. The code does not test the memory for `taskQ`; the model takes it that there is
-- some, which is `raw`.
unfoldable pub create : Bool → Bool → Bool → List Task → (ℕ → ℕ) → ℕ → ℕ → Run (Option Pool)
unfolding new_pool
create pool_ok ids_ok init_ok raw ids min max =
    if not pool_ok
    then done none
    else if not (ids_ok && init_ok)
    then overrun
    else if ltb max min
    then overrun
    else done (some (new_pool raw ids min max))

-- What `threadPoolAdd` does with the lock held: the caller has to wait for room, or the pool is shut
-- down, or the task is queued.
pub data Added : Type 0 where
  full refused queued : Added

-- `taskQ[queueRear] = ...`, and the end of the queue moves on.
unfoldable pub push_task : Pool → Task → Pool
push_task p t = record p {
  task_q = set p.task_q p.queue_rear t;
  queue_rear = (p.queue_rear + 1) % p.queue_capacity;
  queue_size = p.queue_size + 1;
}

-- From the lock, or from a return of `pthread_cond_wait`, to the next wait or to the unlock.
unfoldable pub add : Pool → Task → Added × Pool
unfolding push_task
add p t =
    if p.queue_size == p.queue_capacity && not p.shutdown
    then (full, p)
    else if p.shutdown
    then (refused, p)
    else (queued, push_task p t)

unfoldable pub busy_threads : Pool → ℕ
busy_threads p = p.busy_num

unfoldable pub alive_threads : Pool → ℕ
alive_threads p = p.live_num

-- What a worker does with the lock held: it waits, it has to exit, or it has got a task. `stray` is a
-- read outside of `taskQ`.
pub data Turn : Type 0 where
  wait : Turn
  exit : Turn
  got : Task → Turn
  stray : Turn

unfoldable pub pop_task : Pool → Pool
pop_task p = record p {
  queue_front = (p.queue_front + 1) % p.queue_capacity;
  queue_size = p.queue_size - 1;
}

pub take_task : Pool → Turn × Pool
unfolding pop_task
take_task p = elim (get_elem? p.task_q p.queue_front) [
  | none ↦ (stray, p)
  | some t ↦ (got t, pop_task p)
]

-- `worker`, from the lock to the wait or to the unlock.
unfoldable pub enter : Pool → Turn × Pool
unfolding take_task
enter p =
    if p.queue_size == 0 && not p.shutdown
    then (wait, p)
    else if p.shutdown
    then (exit, p)
    else take_task p

-- `worker`, from a return of `pthread_cond_wait` to the next wait or to the unlock.
unfoldable pub wake : Pool → Turn × Pool
wake p =
    if ltb 0 p.exit_num
    then if ltb p.min_num p.live_num
      then (exit, record p { exit_num = p.exit_num - 1; live_num = p.live_num - 1 })
      else enter (record p { exit_num = p.exit_num - 1 })
    else enter p

unfoldable pub begin_work : Pool → Pool
begin_work p = record p { busy_num = p.busy_num + 1 }

unfoldable pub end_work : Pool → Pool
end_work p = record p { busy_num = p.busy_num - 1 }

-- `threadExit`: the first slot with the caller's identifier is free again.
pub clear_id : List ℕ → ℕ → List ℕ
clear_id [] tid = []
clear_id (x ∷ ids) tid = if x == tid then 0 ∷ ids else x ∷ clear_id ids tid

unfoldable pub thread_exit : Pool → ℕ → Pool
unfolding clear_id
thread_exit p tid = record p { thread_ids = clear_id p.thread_ids tid }

-- The loop of `manager` that creates threads, over the slots that are left: the slots afterwards
-- and the identifiers of the new threads. `counter` threads are created already, `live` is
-- `liveNum`, and `fresh` what the next calls of `pthread_create` give.
pub grow_ids : ℕ → ℕ → ℕ → (ℕ → ℕ) → List ℕ → List ℕ × List ℕ
grow_ids max counter live fresh [] = ([], [])
grow_ids max counter live fresh (x ∷ ids) =
    if ltb counter number && ltb live max
    then (elim (x == 0) [
      | true ↦
          let (ids', new) = grow_ids max (counter + 1) (live + 1) (λ i. fresh (suc i)) ids in
          (fresh 0 ∷ ids', fresh 0 ∷ new)
      | false ↦ let (ids', new) = grow_ids max counter live fresh ids in (x ∷ ids', new)
    ])
    else (x ∷ ids, [])

-- `manager`: the pool after that loop, and the new threads.
unfoldable pub grow : Pool → (ℕ → ℕ) → Pool × List ℕ
unfolding grow_ids
grow p fresh =
    let (ids, new) = grow_ids p.max_num 0 p.live_num fresh p.thread_ids in
    (record p { thread_ids = ids; live_num = p.live_num + length new }, new)

-- `manager`: whether threads are to be created, from what it has read.
pub wants_more : Pool → ℕ → ℕ → Bool
wants_more p queue_size live_num = ltb live_num queue_size && ltb live_num p.max_num

-- `manager`: whether threads are to end.
pub wants_fewer : Pool → ℕ → ℕ → Bool
wants_fewer p live_num busy_num = ltb (busy_num * 2) live_num && ltb p.min_num live_num

unfoldable pub shrink : Pool → Pool
shrink p = record p { exit_num = number }

-- The first store of `threadPoolDestroy`.
unfoldable pub shut : Pool → Pool
shut p = record p { shutdown = true }
