-- ===== src/ThreadPool/System.antt =====
-- The threads of Thread/ThreadPool/threadPool.c together: workers, the manager, callers of
-- `threadPoolAdd` and the caller of `threadPoolDestroy`, in any order.
-- A stretch of code between a lock and its unlock, or a wait, is one step; the accesses to the pool
-- without a lock (`shutdown`, the slot that `threadExit` clears) are steps of their own. A wait may end
-- at any time, as POSIX allows, so signals need no step. `sleep` is left out.
use network_communications.Prelude.{
  ℕ, List, [], ◌∷◌, ◌++◌, map, some, get_elem?, set, if◌then◌else◌, ◌≡◌, ◌≢◌,
}
use network_communications.ThreadPool.{
  Task, Pool, Added, full, refused, queued, Turn, wait, exit, got, stray, add, enter, wake,
  begin_work, end_work, thread_exit, grow, wants_more, wants_fewer, shrink, shut, busy_threads,
}

-- Where a worker stands.
pub data WorkerPc : Type 0 where
  start : WorkerPc  -- before the lock at the head of its loop
  waiting : WorkerPc  -- in `pthread_cond_wait`
  holding : Task → WorkerPc  -- a task is taken, and not yet counted as busy
  running : Task → WorkerPc  -- before the task's function returns
  ran : WorkerPc  -- before `busyNum--`
  exiting : WorkerPc  -- in `threadExit`
  gone : WorkerPc
  faulted : WorkerPc  -- after a read outside of `taskQ`

pub record Worker : Type 0 where
  pub tid : ℕ
  pub pc : WorkerPc

-- A new thread.
abbrev pub newcomer : ℕ → Worker
newcomer tid = record { tid = tid; pc = start }

-- A call of `threadPoolAdd`.
pub data CallerPc : Type 0 where
  adding : Task → CallerPc  -- before the lock, or in a wait
  returned : CallerPc

pub data ManagerPc : Type 0 where
  checking : ManagerPc  -- the test of `while (!shutdown)`
  asleep : ManagerPc
  sampled : ℕ → ℕ → ManagerPc  -- queueSize and liveNum are read
  measured : ℕ → ℕ → ℕ → ManagerPc  -- and busyNum
  grown : ℕ → ℕ → ManagerPc  -- before the second test, with liveNum and busyNum
  stopped : ManagerPc

pub data DestroyPc : Type 0 where
  idle : DestroyPc  -- before the call
  joining : DestroyPc  -- in `pthread_join(managerID)`
  signalling : DestroyPc
  freed : DestroyPc  -- the pool's memory is freed

pub record System : Type 0 where
  pub pool : Pool
  pub workers : List Worker
  pub callers : List CallerPc
  pub manager : ManagerPc
  pub destroyer : DestroyPc
  -- For the statements: the tasks queued so far, taken so far, and run to their end so far, each in
  -- order. No code reads these.
  pub added : List Task
  pub taken : List Task
  pub executed : List Task

-- `threadPoolCreate` has just returned the pool, with a thread for each identifier.
unfoldable pub init : Pool → List ℕ → System
init p tids = record {
  pool = p;
  workers = map newcomer tids;
  callers = [];
  manager = checking;
  destroyer = idle;
  added = [];
  taken = [];
  executed = [];
}

abbrev pub move : System → ℕ → ℕ → WorkerPc → System
move s i tid pc = record s { workers = set s.workers i (record { tid = tid; pc = pc }) }

-- The worker has let the lock go.
unfoldable pub settle : System → ℕ → ℕ → Turn × Pool → System
settle s i tid (wait, p) = record (move s i tid waiting) { pool = p }
settle s i tid (exit, p) = record (move s i tid exiting) { pool = p }
settle s i tid (got t, p) = record (move s i tid (holding t)) {
  pool = p;
  taken = s.taken ++ t ∷ [];
}
settle s i tid (stray, p) = record (move s i tid faulted) { pool = p }

-- The next step of worker `i`.
unfoldable pub work : System → ℕ → ℕ → WorkerPc → System
unfolding settle
work s i tid start = settle s i tid (enter s.pool)
work s i tid waiting = settle s i tid (wake s.pool)
work s i tid (holding t) = record (move s i tid (running t)) { pool = begin_work s.pool }
work s i tid (running t) = record (move s i tid ran) { executed = s.executed ++ t ∷ [] }
work s i tid ran = record (move s i tid start) { pool = end_work s.pool }
work s i tid exiting = record (move s i tid gone) { pool = thread_exit s.pool tid }
work s i tid gone = s
work s i tid faulted = s

unfoldable pub offered : System → ℕ → Task → Added × Pool → System
offered s j t (full, p) = record s { pool = p }
offered s j t (refused, p) = record s { pool = p; callers = set s.callers j returned }
offered s j t (queued, p) = record s {
  pool = p;
  callers = set s.callers j returned;
  added = s.added ++ t ∷ [];
}

-- The next step of the call `j` of `threadPoolAdd`.
unfoldable pub offer : System → ℕ → Task → System
unfolding offered
offer s j t = offered s j t (add s.pool t)

unfoldable pub spawn : System → Pool × List ℕ → System
spawn s (p, new) = record s { pool = p; workers = s.workers ++ map newcomer new }

-- The next step of the manager, where `fresh` are the identifiers that `pthread_create` would give.
unfoldable pub manage : System → (ℕ → ℕ) → ManagerPc → System
unfolding spawn
manage s fresh checking = record s { manager = if s.pool.shutdown then stopped else asleep }
manage s fresh asleep = record s { manager = sampled s.pool.queue_size s.pool.live_num }
manage s fresh (sampled q l) = record s { manager = measured q l (busy_threads s.pool) }
manage s fresh (measured q l b) =
    if wants_more s.pool q l
    then record (spawn s (grow s.pool fresh)) { manager = grown l b }
    else record s { manager = grown l b }
manage s fresh (grown l b) = record s {
  pool = if wants_fewer s.pool l b then shrink s.pool else s.pool;
  manager = checking;
}
manage s fresh stopped = s

-- The next step of `threadPoolDestroy`; the join returns once the manager has stopped.
unfoldable pub destroy : System → DestroyPc → ManagerPc → System
destroy s idle m = record s { pool = shut s.pool; destroyer = joining }
destroy s joining stopped = record s { destroyer = signalling }
destroy s joining m = s
destroy s signalling m = record s { destroyer = freed }
destroy s freed m = s

-- One step of some thread. Once the pool is freed there is none: what a thread does then with the
-- pool has no meaning.
pub data Step (s : System) : System → Type 0 where
  works :
      (i tid : ℕ) (pc : WorkerPc)
      → s.destroyer ≢ freed
      → get_elem? s.workers i ≡ some (record { tid = tid; pc = pc })
      → Step s (work s i tid pc)
  calls :
      (t : Task) → s.destroyer ≢ freed → Step s (record s { callers = s.callers ++ adding t ∷ [] })
  offers :
      (j : ℕ) (t : Task)
      → s.destroyer ≢ freed
      → get_elem? s.callers j ≡ some (adding t)
      → Step s (offer s j t)
  manages :
      (fresh : ℕ → ℕ)
      → s.destroyer ≢ freed
      → ((i : ℕ) → fresh i ≢ 0)
      → Step s (manage s fresh s.manager)
  destroys : s.destroyer ≢ freed → Step s (destroy s s.destroyer s.manager)

pub data Reach (s : System) : System → Type 0 where
  here : Reach s s
  next : {t u : System} → Reach s t → Step t u → Reach s u
