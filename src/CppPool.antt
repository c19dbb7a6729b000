-- ===== src/CppPool.antt =====
-- Thread/ThreadPool/threadPoolC++: ThreadPool.cpp, a pool of threads over the queue of TaskQueue.cpp,
-- which has no bound and a mutex of its own. A task is a number. Each access to what threads share
-- without `mutexPool` is a step, as is each stretch of code with that mutex in which the queue is not
-- looked at twice. Output is left out, and signals are too: a wait may end at any time. After the
-- pool has been freed there are no steps.
pub mod Invariant
pub mod Safety
mod Tests
use network_communications.Prelude.{
  ℕ, zero, suc, ◌+◌, ◌-◌, ◌*◌, Bool, true, false, not, ◌&&◌, List, [], ◌∷◌, ◌++◌, Option, none,
  some, get_elem?, set, length, map, replicate, ltb, ◌==◌, if◌then◌else◌, ◌≡◌, ◌≢◌,
}
use network_communications.ThreadPool.{number, first_ids, clear_id, grow_ids}

-- Where a worker stands.
pub data Pc : Type 0 where
  locking : Pc  -- before the lock at the start of a round
  testing : Pc  -- with the mutex, before the test of the inner loop
  waiting : Pc  -- with the mutex, before the wait
  sleeping : Pc  -- in the wait
  deciding : Pc  -- with the mutex, behind the inner loop
  taking : Pc  -- with the mutex, before takeTask
  running : ℕ → Pc  -- before the call of the task's function
  finishing : Pc  -- before the last lock of a round
  leaving : Pc  -- before threadExit
  gone : Pc
  faulted : Pc  -- after a call through NULL

pub record Worker : Type 0 where
  pub tid : ℕ
  pub pc : Pc

-- Where the manager stands, with what it has read.
pub data Manager : Type 0 where
  m_test m_read : Manager
  m_more : ℕ → ℕ → ℕ → Manager
  m_grow m_fewer : ℕ → ℕ → Manager
  m_shrink m_ended : Manager

-- A caller of addTask, between the test of `shutdown` and the push, and behind the push.
pub data Caller : Type 0 where
  tested : ℕ → Caller
  added : Caller

pub record System : Type 0 where
  pub task_q : List ℕ
  pub thread_ids : List ℕ
  pub min_num : ℕ
  pub max_num : ℕ
  pub busy_num : ℕ
  pub live_num : ℕ
  pub exit_num : ℕ
  pub locked : Bool
  pub shutdown : Bool
  pub workers : List Worker
  pub manager : Manager
  pub callers : List Caller
  pub freed : Bool
  -- For the statements: the tasks pushed so far, those taken, and those executed.
  pub pushed : List ℕ
  pub taken : List ℕ
  pub executed : List ℕ

-- TaskQueue::taskNumber, without its mutex
abbrev pub task_number : List ℕ → ℕ
task_number q = length q

-- TaskQueue::addTask of a task
abbrev pub add_task : List ℕ → ℕ → List ℕ
add_task q t = q ++ t ∷ []

-- TaskQueue::takeTask: `none` is a task without a function.
abbrev pub take_first : List ℕ → Option ℕ × List ℕ
take_first [] = (none, [])
take_first (t ∷ rest) = (some t, rest)

abbrev pub newcomer : ℕ → Worker
newcomer tid = record { tid = tid; pc = locking }

-- The constructor, where the mutex and the condition can be made, with min <= max; `ids` is what
-- pthread_create stores.
unfoldable pub thread_pool : (ℕ → ℕ) → ℕ → ℕ → System
thread_pool ids min max = record {
  task_q = [];
  thread_ids = first_ids min ids ++ replicate (max - min) 0;
  min_num = min;
  max_num = max;
  busy_num = 0;
  live_num = min;
  exit_num = 0;
  locked = false;
  shutdown = false;
  workers = map newcomer (first_ids min ids);
  manager = m_test;
  callers = [];
  freed = false;
  pushed = [];
  taken = [];
  executed = [];
}

-- getBusyNum and getAliveNum
pub get_busy_num : System → ℕ
get_busy_num s = s.busy_num

pub get_alive_num : System → ℕ
get_alive_num s = s.live_num

-- Whether a worker is not blocked.
unfoldable pub enabled : System → Pc → Bool
enabled s locking = not s.locked
enabled s sleeping = not s.locked
enabled s finishing = not s.locked
enabled s gone = false
enabled s faulted = false
enabled s _ = true

abbrev pub move : System → ℕ → ℕ → Pc → System
move s i tid pc = record s { workers = set s.workers i (record { tid = tid; pc = pc }) }

-- Behind the wait, with the mutex: whether the worker is to end.
unfoldable pub woken : System → ℕ → ℕ → System
woken s i tid =
    if ltb 0 s.exit_num
    then (if ltb s.min_num s.live_num
        then record (move s i tid leaving) { exit_num = s.exit_num - 1; live_num = s.live_num - 1 }
        else record (move s i tid testing) { exit_num = s.exit_num - 1; locked = true })
    else record (move s i tid testing) { locked = true }

-- takeTask, and one more busy thread. From an empty queue it is a task without a function.
unfoldable pub take_task : System → ℕ → ℕ → System
take_task s i tid =
    let (task, rest) = take_first s.task_q in
    let t : System = record s { task_q = rest; busy_num = s.busy_num + 1; locked = false } in
    elim task [
      | none ↦ move t i tid faulted
      | some task ↦ record (move t i tid (running task)) { taken = s.taken ++ task ∷ [] }
    ]

-- `taskNumber() == 0 && !shutdown`
pub nothing_to_do : System → Bool
nothing_to_do s = task_number s.task_q == 0 && not s.shutdown

-- The next step of worker `i`.
unfoldable pub advance : System → ℕ → ℕ → Pc → System
unfolding woken take_task
advance s i tid locking = record (move s i tid testing) { locked = true }
advance s i tid testing = if nothing_to_do s then move s i tid waiting else move s i tid deciding
advance s i tid waiting = record (move s i tid sleeping) { locked = false }
advance s i tid sleeping = woken s i tid
advance s i tid deciding =
    if s.shutdown then record (move s i tid leaving) { locked = false } else move s i tid taking
advance s i tid taking = take_task s i tid
advance s i tid (running t) = record (move s i tid finishing) { executed = s.executed ++ t ∷ [] }
advance s i tid finishing = record (move s i tid locking) { busy_num = s.busy_num - 1 }
advance s i tid leaving = record (move s i tid gone) { thread_ids = clear_id s.thread_ids tid }
advance s i tid gone = s
advance s i tid faulted = s

-- The next step of the manager; `fresh` is what pthread_create stores, which is never 0.
unfoldable pub manage : (ℕ → ℕ) → System → Manager → System
manage fresh s m_test = record s { manager = if s.shutdown then m_ended else m_read }
manage fresh s m_read = record s { manager = m_more (task_number s.task_q) s.live_num s.busy_num }
manage fresh s (m_more queue_size live busy) = record s {
  manager =
      if ltb live queue_size && ltb live s.max_num then m_grow live busy else m_fewer live busy;
}
manage fresh s (m_grow live busy) =
    let (ids, new) = grow_ids s.max_num 0 s.live_num fresh s.thread_ids in
    record s {
      thread_ids = ids;
      live_num = s.live_num + length new;
      workers = s.workers ++ map newcomer new;
      manager = m_fewer live busy;
    }
manage fresh s (m_fewer live busy) = record s {
  manager = if ltb (busy * 2) live && ltb s.min_num live then m_shrink else m_test;
}
manage fresh s m_shrink = record s { exit_num = number; manager = m_test }
manage fresh s m_ended = s

-- Whether the manager is not blocked.
unfoldable pub can_manage : System → Manager → Bool
can_manage s m_read = not s.locked
can_manage s (m_grow live busy) = not s.locked
can_manage s m_shrink = not s.locked
can_manage s _ = true

pub data Step (s : System) : System → Type 0 where
  works :
      (i : ℕ) (w : Worker)
      → s.freed ≡ false
      → get_elem? s.workers i ≡ some w
      → enabled s w.pc ≡ true
      → Step s (advance s i w.tid w.pc)
  manages :
      (fresh : ℕ → ℕ)
      → ((k : ℕ) → fresh k ≢ 0)
      → s.freed ≡ false
      → can_manage s s.manager ≡ true
      → Step s (manage fresh s s.manager)
  -- addTask
  offers :
      (t : ℕ)
      → s.freed ≡ false
      → s.shutdown ≡ false
      → Step s (record s { callers = s.callers ++ tested t ∷ [] })
  adds :
      (i t : ℕ)
      → s.freed ≡ false
      → get_elem? s.callers i ≡ some (tested t)
      → Step s (record s {
        callers = set s.callers i added;
        task_q = add_task s.task_q t;
        pushed = s.pushed ++ t ∷ [];
      })
  -- the destructor, its first store, and behind pthread_join
  shuts : Step s (record s { shutdown = true })
  frees : s.shutdown ≡ true → s.manager ≡ m_ended → Step s (record s { freed = true })

pub data Reach (s : System) : System → Type 0 where
  here : Reach s s
  next : {t u : System} → Reach s t → Step t u → Reach s u
