-- ===== src/CppDemo.antt =====
-- Thread/ThreadPool/threadPoolC++/test.cpp: `main` gives a hundred tasks to a pool of three to ten
-- threads, whose destructor runs at the end of `main`. `sleep` is left out, so `main` may go on at any
-- time.
pub mod Once
mod Tests
use network_communications.Prelude.{
  ℕ, suc, ◌+◌, Bool, true, false, [], ◌∷◌, ◌++◌, some, get_elem?, ltb, if◌then◌else◌, ◌≡◌, ◌≢◌,
}
use network_communications.CppPool.{
  System, Worker, enabled, advance, Manager, m_test, m_read, m_more, m_grow, m_fewer, m_shrink,
  m_ended, can_manage, manage, thread_pool, add_task,
}

-- The task of round `i`, named by the number that `num` points to.
abbrev pub numbered : ℕ → ℕ
numbered i = i + 100

-- Where `main` stands: in `addTask` in round `i`, before its test and before its push; in `sleep`; in
-- the destructor, before `pthread_join` returns; at its end.
pub data MainPc : Type 0 where
  calling pushing : ℕ → MainPc
  sleeping joining ended : MainPc

pub record Demo : Type 0 where
  pub system : System
  pub main : MainPc

-- `pool(3, 10)`
abbrev pub demo_pool : (ℕ → ℕ) → System
demo_pool ids = thread_pool ids 3 10

-- The loop's test after round `i`.
abbrev pub after : ℕ → MainPc
after i = if ltb (suc i) 100 then calling (suc i) else sleeping

-- The push of `addTask`, with `task` as its argument.
unfoldable pub push : System → ℕ → System
push s task = record s { task_q = add_task s.task_q task; pushed = s.pushed ++ task ∷ [] }

-- The destructor's first store.
unfoldable pub shut : System → System
shut s = record s { shutdown = true }

-- `pthread_join` returns once the manager has ended, and the queue and `threadIDs` are freed.
unfoldable pub join : System → Manager → Demo
join s m_ended = record { system = record s { freed = true }; main = ended }
join s m = record { system = s; main = joining }

-- The next step of `main`.
unfoldable pub main_step : System → MainPc → Demo
main_step s (calling i) = record { system = s; main = if s.shutdown then after i else pushing i }
main_step s (pushing i) = record { system = push s (numbered i); main = after i }
main_step s sleeping = record { system = shut s; main = joining }
main_step s joining = join s s.manager
main_step s ended = record { system = s; main = ended }

-- A step of a worker, of the manager or of `main`. Once the pool is freed there is none.
pub data Step (d : Demo) : Demo → Type 0 where
  works :
      (i : ℕ) (w : Worker)
      → d.system.freed ≡ false
      → get_elem? d.system.workers i ≡ some w
      → enabled d.system w.pc ≡ true
      → Step d (record d { system = advance d.system i w.tid w.pc })
  manages :
      (fresh : ℕ → ℕ)
      → ((k : ℕ) → fresh k ≢ 0)
      → d.system.freed ≡ false
      → can_manage d.system d.system.manager ≡ true
      → Step d (record d { system = manage fresh d.system d.system.manager })
  goes_on : d.system.freed ≡ false → Step d (main_step d.system d.main)

-- From the return of the constructor.
pub data Reach (ids : ℕ → ℕ) : Demo → Type 0 where
  here : Reach ids (record { system = demo_pool ids; main = calling 0 })
  next : {d e : Demo} → Reach ids d → Step d e → Reach ids e
