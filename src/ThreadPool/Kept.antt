-- ===== src/ThreadPool/Kept.antt =====
-- What the workers and the manager of Thread/ThreadPool/threadPool.c leave as it is.
use network_communications.Prelude.{ℕ, ◌-◌, ◌≡◌, refl, arith}
use network_communications.ThreadPool.{
  Task, add, push_task, shut, Pool, Turn, wait, exit, got, stray, enter, take_task, wake,
  begin_work, end_work, thread_exit, grow, shrink, pop_task,
}
use network_communications.ThreadPool.System.{
  destroy, DestroyPc, idle, joining, signalling, freed, System, settle, work, manage, WorkerPc,
  start, waiting, holding, running, ran, exiting, gone, faulted, ManagerPc, checking, asleep,
  sampled, measured, grown, stopped,
}

abbrev pub Keeps : System → System → Type 0
Keeps s u =
    (u.pool.queue_capacity ≡ s.pool.queue_capacity)
    × (u.pool.shutdown ≡ s.pool.shutdown)
    × (u.added ≡ s.added)
    × (u.destroyer ≡ s.destroyer)

abbrev pub KeepsPool : Pool → Pool → Type 0
KeepsPool p p' = (p'.queue_capacity ≡ p.queue_capacity) × (p'.shutdown ≡ p.shutdown)

-- The workers and the manager.
settle-Keeps :
    (s : System) (i tid : ℕ) (r : Turn × Pool) → KeepsPool s.pool r.1 → Keeps s (settle s i tid r)
unfolding settle
settle-Keeps s i tid (wait, p) h = (h.0, h.1, refl, refl)
settle-Keeps s i tid (exit, p) h = (h.0, h.1, refl, refl)
settle-Keeps s i tid (got t, p) h = (h.0, h.1, refl, refl)
settle-Keeps s i tid (stray, p) h = (h.0, h.1, refl, refl)

enter-Keeps : (p : Pool) → KeepsPool p (enter p).1
unfolding enter take_task pop_task
enter-Keeps p = ground arith

wake-Keeps : (p : Pool) → KeepsPool p (wake p).1
unfolding wake
wake-Keeps p = ground (arith, enter-Keeps p, enter-Keeps (record p { exit_num = p.exit_num - 1 }))

pub work-Keeps : (s : System) (i tid : ℕ) (pc : WorkerPc) → Keeps s (work s i tid pc)
unfolding work begin_work end_work thread_exit
work-Keeps s i tid start = settle-Keeps s i tid (enter s.pool) (enter-Keeps s.pool)
work-Keeps s i tid waiting = settle-Keeps s i tid (wake s.pool) (wake-Keeps s.pool)
work-Keeps s i tid (holding t) = (refl, refl, refl, refl)
work-Keeps s i tid (running t) = (refl, refl, refl, refl)
work-Keeps s i tid ran = (refl, refl, refl, refl)
work-Keeps s i tid exiting = (refl, refl, refl, refl)
work-Keeps s i tid gone = (refl, refl, refl, refl)
work-Keeps s i tid faulted = (refl, refl, refl, refl)

pub manage-Keeps : (s : System) (fresh : ℕ → ℕ) (m : ManagerPc) → Keeps s (manage s fresh m)
unfolding manage grow shrink
manage-Keeps s fresh checking = (refl, refl, refl, refl)
manage-Keeps s fresh asleep = (refl, refl, refl, refl)
manage-Keeps s fresh (sampled q l) = (refl, refl, refl, refl)
manage-Keeps s fresh (measured q l b) = ground arith
manage-Keeps s fresh (grown l b) = ground arith
manage-Keeps s fresh stopped = (refl, refl, refl, refl)

pub add-Keeps : (p : Pool) (t : Task) → KeepsPool p (add p t).1
unfolding add push_task
add-Keeps p t = ground arith

-- `threadPoolDestroy` leaves the queue as it is too.
pub destroy-keeps :
    (s : System) (d : DestroyPc) (m : ManagerPc)
    → ((destroy s d m).pool.queue_capacity ≡ s.pool.queue_capacity)
      × ((destroy s d m).added ≡ s.added)
unfolding destroy shut
destroy-keeps s idle m = (refl, refl)
destroy-keeps s joining stopped = (refl, refl)
destroy-keeps s joining checking = (refl, refl)
destroy-keeps s joining asleep = (refl, refl)
destroy-keeps s joining (sampled q l) = (refl, refl)
destroy-keeps s joining (measured q l b) = (refl, refl)
destroy-keeps s joining (grown l b) = (refl, refl)
destroy-keeps s signalling m = (refl, refl)
destroy-keeps s freed m = (refl, refl)
