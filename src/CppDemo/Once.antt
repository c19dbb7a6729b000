-- ===== src/CppDemo/Once.antt =====
-- What becomes of the hundred tasks of Thread/ThreadPool/threadPoolC++/test.cpp.
use network_communications.Prelude.{
  ℕ, suc, ◌+◌, ◌<◌, false, List, [], ◌∷◌, ◌++◌, ◌≡◌, refl, sym, ap, subst, ◌∙◌, arith, sum_by,
  sum_by-append, rounds, sum_by-rounds, ◌==◌, if◌then◌else◌,
}
use network_communications.CppPool.{
  System, Pc, locking, testing, waiting, sleeping, deciding, taking, running, finishing, leaving,
  gone, faulted, woken, take_task, advance, Manager, m_test, m_read, m_more, m_grow, m_fewer,
  m_shrink, m_ended, manage,
}
use network_communications.CppPool
use network_communications.CppPool.Invariant.{Inv, holding}
use network_communications.CppPool.Invariant.Steps.{advance-Inv}
use network_communications.CppPool.Invariant.Others.{manage-Inv, push-Inv, shut-Inv, freed-Inv}
use network_communications.CppPool.Safety.{thread_pool-Inv}
use network_communications.CppDemo.{
  numbered, MainPc, calling, pushing, joining, ended, Demo, demo_pool, after, push, shut, join,
  main_step, Step, works, manages, goes_on, Reach, here, next,
}
use network_communications.CppDemo

-- What the threads of the pool leave as it is.
abbrev Keeps : System → System → Type 0
Keeps s u = (u.shutdown ≡ s.shutdown) × (u.pushed ≡ s.pushed)

advance-Keeps : (s : System) (i tid : ℕ) (pc : Pc) → Keeps s (advance s i tid pc)
unfolding advance woken take_task
advance-Keeps s i tid locking = (refl, refl)
advance-Keeps s i tid testing = ground arith
advance-Keeps s i tid waiting = (refl, refl)
advance-Keeps s i tid sleeping = ground arith
advance-Keeps s i tid deciding = ground arith
advance-Keeps s i tid taking = ground arith
advance-Keeps s i tid (running t) = (refl, refl)
advance-Keeps s i tid finishing = (refl, refl)
advance-Keeps s i tid leaving = (refl, refl)
advance-Keeps s i tid gone = (refl, refl)
advance-Keeps s i tid faulted = (refl, refl)

manage-Keeps : (fresh : ℕ → ℕ) (s : System) (m : Manager) → Keeps s (manage fresh s m)
unfolding manage
manage-Keeps fresh s m_test = (refl, refl)
manage-Keeps fresh s m_read = (refl, refl)
manage-Keeps fresh s (m_more q live busy) = (refl, refl)
manage-Keeps fresh s (m_grow live busy) = (refl, refl)
manage-Keeps fresh s (m_fewer live busy) = (refl, refl)
manage-Keeps fresh s m_shrink = (refl, refl)
manage-Keeps fresh s m_ended = (refl, refl)

-- The tasks of the first `n` rounds.
abbrev pub numbers : ℕ → List ℕ
numbers = rounds numbered

-- How many rounds are behind `main`.
abbrev pub passed : MainPc → ℕ
passed (calling i) = i
passed (pushing i) = i
passed _ = 100

abbrev Placed : System → MainPc → Type 0
Placed s (calling i) = (i < 100) × (s.shutdown ≡ false)
Placed s (pushing i) = (i < 100) × (s.shutdown ≡ false)
Placed s CppDemo.sleeping = s.shutdown ≡ false
Placed s joining = Unit
Placed s ended = Unit

record DemoInv (d : Demo) : Type 0 where
  pub sound : Inv d.system
  pub history : d.system.pushed ≡ numbers (passed d.main)
  pub placed : Placed d.system d.main

keep-Placed : (s u : System) (m : MainPc) → u.shutdown ≡ s.shutdown → Placed s m → Placed u m
keep-Placed s u (calling i) k (lt, o) = (lt, k ∙ o)
keep-Placed s u (pushing i) k (lt, o) = (lt, k ∙ o)
keep-Placed s u CppDemo.sleeping k o = k ∙ o
keep-Placed s u joining k h = h
keep-Placed s u ended k h = h

background :
    (d : Demo) (u : System)
    → DemoInv d
    → Keeps d.system u
    → Inv u
    → DemoInv (record d { system = u })
background d u inv k sound = record {
  sound = sound;
  history = k.1 ∙ inv.history;
  placed = keep-Placed d.system u d.main k.0 inv.placed;
}

passed-after : (i : ℕ) → i < 100 → passed (after i) ≡ suc i
passed-after i lt = ground arith

after-Placed : (s : System) (i : ℕ) → i < 100 → s.shutdown ≡ false → Placed s (after i)
after-Placed s i lt o = ground arith

join-Demo : (s : System) (m : Manager) → Inv s → s.pushed ≡ numbers 100 → DemoInv (join s m)
unfolding join
join-Demo s m_ended sound h = record { sound = freed-Inv s sound; history = h; placed = tt }
join-Demo s m_test sound h = record { sound = sound; history = h; placed = tt }
join-Demo s m_read sound h = record { sound = sound; history = h; placed = tt }
join-Demo s (m_more q l b) sound h = record { sound = sound; history = h; placed = tt }
join-Demo s (m_grow l b) sound h = record { sound = sound; history = h; placed = tt }
join-Demo s (m_fewer l b) sound h = record { sound = sound; history = h; placed = tt }
join-Demo s m_shrink sound h = record { sound = sound; history = h; placed = tt }

main_step-Demo :
    (s : System) (m : MainPc) → DemoInv (record { system = s; main = m }) → DemoInv (main_step s m)
unfolding main_step push shut
main_step-Demo s (calling i) inv =
    subst (λ b. DemoInv (record { system = s; main = if b then after i else pushing i }))
      (sym inv.placed.1) (record { sound = inv.sound; history = inv.history; placed = inv.placed })
main_step-Demo s (pushing i) inv =
    let (lt, o) = inv.placed in
    record {
      sound = push-Inv s s.callers (numbered i) inv.sound;
      history = ap (λ ts. ts ++ numbered i ∷ []) inv.history ∙ ap numbers (sym (passed-after i lt));
      placed = after-Placed (push s (numbered i)) i lt o;
    }
main_step-Demo s CppDemo.sleeping inv = record {
  sound = shut-Inv s inv.sound;
  history = inv.history;
  placed = tt;
}
main_step-Demo s joining inv = join-Demo s s.manager inv.sound inv.history
main_step-Demo s ended inv = inv

Step-Demo : {d e : Demo} → DemoInv d → Step d e → DemoInv e
Step-Demo {d} inv (works i w a found up) =
    background d (advance d.system i w.tid w.pc) inv (advance-Keeps d.system i w.tid w.pc)
      (advance-Inv inv.sound i w.tid w.pc found up)
Step-Demo {d} inv (manages fresh nz a up) =
    background d (manage fresh d.system d.system.manager) inv
      (manage-Keeps fresh d.system d.system.manager)
      (manage-Inv fresh d.system d.system.manager nz inv.sound)
Step-Demo {d} inv (goes_on a) = main_step-Demo d.system d.main inv

Reach-Demo : {ids : ℕ → ℕ} {d : Demo} → Reach ids d → DemoInv d
unfolding CppPool.thread_pool
Reach-Demo {ids} here = record {
  sound = thread_pool-Inv ids 3 10 (omega arith);
  history = refl;
  placed = (omega arith, refl);
}
Reach-Demo (next r st) = Step-Demo (Reach-Demo r) st

-- Whether a task is that of round `k`.
abbrev pub is_number : ℕ → ℕ → ℕ
is_number k t = if t == numbered k then 1 else 0

once : (k n : ℕ) → k < n → sum_by (is_number k) (numbers n) ≡ 1
once k n lt = sum_by-rounds (is_number k) numbered k (ground arith) (λ j ne. ground arith) n lt

-- In every state of the program, once round `k` of the loop is over: exactly one of the tasks that
-- have been executed, those that workers hold and those in the queue is the task of round `k`.
pub each_number_once :
    (ids : ℕ → ℕ) {d : Demo}
    → Reach ids d
    → (k : ℕ) → k < passed d.main
    → sum_by (is_number k) d.system.executed
        + sum_by (holding (is_number k)) d.system.workers
        + sum_by (is_number k) d.system.task_q
      ≡ 1
each_number_once ids {d} r k lt =
    let inv = Reach-Demo r in
    let s = inv.sound in
    omega (
      arith,
      s.tasks (is_number k),
      sum_by-append (is_number k) d.system.taken d.system.task_q,
      ap (sum_by (is_number k)) (sym s.order ∙ inv.history),
      once k (passed d.main) lt,
    )
