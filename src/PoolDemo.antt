-- ===== src/PoolDemo.antt =====
-- Thread/ThreadPool/main.c: `main` gives a hundred tasks to a pool of three to ten threads, with room
-- for a hundred, and destroys the pool. `sleep` is left out, so `main` may go on at any time.
pub mod Once
mod Tests
use network_communications.Prelude.{
  ℕ, zero, suc, ◌+◌, true, List, [], ◌∷◌, ◌++◌, Option, some, get_elem?, ltb, if◌then◌else◌, ◌≡◌,
  ◌≢◌,
}
use network_communications.Run.{Run}
use network_communications.ThreadPool.{Task, Pool, Added, full, refused, queued, add, create}
use network_communications.ThreadPool.System.{
  WorkerPc, System, work, offer, ManagerPc, manage, DestroyPc, idle, joining, signalling, freed,
  destroy,
}
use network_communications.ThreadPool.System

-- The name of `taskFunc`.
abbrev task_func : ℕ
task_func = 1

-- The task of round `i`: `arg` is the number at the address that `malloc` has given.
abbrev pub numbered : ℕ → Task
numbered i = record { function = task_func; arg = i + 100 }

-- Where `main` stands: before `threadPoolAdd` in round `i` of its loop, or in its wait; in `sleep`; in
-- `threadPoolDestroy`; at its end.
pub data MainPc : Type 0 where
  calling : ℕ → MainPc
  sleeping destroying ended : MainPc

pub record Demo : Type 0 where
  pub system : System
  pub main : MainPc

-- `threadPoolCreate(3,10,100)`; `raw` is the memory for 100 tasks.
abbrev pub demo_pool : List Task → (ℕ → ℕ) → Run (Option Pool)
demo_pool raw ids = create true true true raw ids 3 10

-- The loop's test after round `i`.
abbrev pub after : ℕ → MainPc
after i = if ltb (suc i) 100 then calling (suc i) else sleeping

abbrev pub on_added : ℕ → Added → MainPc
on_added i full = calling i
on_added i refused = after i
on_added i queued = after i

abbrev pub on_destroyed : DestroyPc → MainPc
on_destroyed idle = destroying
on_destroyed joining = destroying
on_destroyed signalling = destroying
on_destroyed freed = ended

-- The next step of `main`, which alone calls `threadPoolAdd`: its place is `MainPc`, and `callers` has
-- no entry.
unfoldable pub main_step : System → MainPc → Demo
main_step s (calling i) = record {
  system = offer s 0 (numbered i);
  main = on_added i (add s.pool (numbered i)).0;
}
main_step s sleeping = record { system = s; main = destroying }
main_step s destroying =
    let u = destroy s s.destroyer s.manager in
    record { system = u; main = on_destroyed u.destroyer }
main_step s ended = record { system = s; main = ended }

-- A step of a worker, of the manager or of `main`. Once the pool is freed there is none.
pub data Step (d : Demo) : Demo → Type 0 where
  works :
      (i tid : ℕ) (pc : WorkerPc)
      → d.system.destroyer ≢ freed
      → get_elem? d.system.workers i ≡ some (record { tid = tid; pc = pc })
      → Step d (record d { system = work d.system i tid pc })
  manages :
      (fresh : ℕ → ℕ)
      → d.system.destroyer ≢ freed
      → ((i : ℕ) → fresh i ≢ 0)
      → Step d (record d { system = manage d.system fresh d.system.manager })
  goes_on : d.system.destroyer ≢ freed → Step d (main_step d.system d.main)

-- From the return of `threadPoolCreate`, with the pool's first state `s`.
pub data Reach (s : System) : Demo → Type 0 where
  here : Reach s (record { system = s; main = calling 0 })
  next : {d e : Demo} → Reach s d → Step d e → Reach s e
