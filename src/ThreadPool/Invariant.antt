-- ===== src/ThreadPool/Invariant.antt =====
-- What holds of the pool of Thread/ThreadPool/threadPool.c and its threads at every moment: the
-- counters count, the slots belong to the threads, and the queue holds the tasks not yet taken.
pub mod Settle
pub mod Moves
pub mod Workers
pub mod Others
pub mod Managers
use network_communications.Prelude.{
  ℕ, ◌+◌, ◌*◌, ◌≤◌, Bool, true, false, List, ◌++◌, some, ◌≡◌, ◌≢◌, length, get_elem?, sum_by,
}
use network_communications.ThreadPool.{Task, Pool}
use network_communications.ThreadPool.Queue.{Represents}
use network_communications.ThreadPool.Slots.{used, is_id}
use network_communications.ThreadPool.System.{
  System, Worker, WorkerPc, start, waiting, holding, running, ran, exiting, gone, faulted,
}

-- Between `busyNum++` and `busyNum--`.
abbrev pub busy_at : WorkerPc → ℕ
busy_at (running t) = 1
busy_at ran = 1
busy_at _ = 0

-- Neither ended nor about to end.
abbrev pub active_at : WorkerPc → ℕ
active_at exiting = 0
active_at gone = 0
active_at _ = 1

-- With a slot of its own.
abbrev pub present_at : WorkerPc → ℕ
present_at gone = 0
present_at _ = 1

-- Of the tasks that a worker has taken and not finished, what `f` says of them.
abbrev pub held_at : (Task → ℕ) → WorkerPc → ℕ
held_at f (holding t) = f t
held_at f (running t) = f t
held_at f _ = 0

abbrev pub busy : Worker → ℕ
busy w = busy_at w.pc

abbrev pub active : Worker → ℕ
active w = active_at w.pc

abbrev pub present : Worker → ℕ
present w = present_at w.pc

abbrev pub held : (Task → ℕ) → Worker → ℕ
held f w = held_at f w.pc

abbrev pub owns : ℕ → Worker → ℕ
owns t w = present_at w.pc * is_id t w.tid

-- No thread has the identifier 0.
abbrev pub AllNamed : List Worker → Type 0
AllNamed ws = (i : ℕ) (w : Worker) → get_elem? ws i ≡ some w → w.tid ≢ 0

pub record Inv (s : System) : Type 0 where
  pub queue : List Task
  pub represents : Represents s.pool queue
  pub history : s.added ≡ s.taken ++ queue
  pub busy_count : s.pool.busy_num ≡ sum_by busy s.workers
  pub min_live : s.pool.min_num ≤ s.pool.live_num
  pub live_max : s.pool.live_num ≤ s.pool.max_num
  pub active_le : sum_by active s.workers ≤ s.pool.live_num
  pub active_count : s.pool.shutdown ≡ false → sum_by active s.workers ≡ s.pool.live_num
  pub slots : length s.pool.thread_ids ≡ s.pool.max_num
  pub slot_count : sum_by used s.pool.thread_ids ≡ sum_by present s.workers
  pub owned : (t : ℕ) → t ≢ 0 → sum_by (is_id t) s.pool.thread_ids ≡ sum_by (owns t) s.workers
  pub named : AllNamed s.workers
  pub finished : (f : Task → ℕ) → sum_by f s.taken ≡ sum_by f s.executed + sum_by (held f) s.workers
