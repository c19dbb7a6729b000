-- ===== src/PoolDemo/Once.antt =====
-- What becomes of the hundred tasks of Thread/ThreadPool/main.c.
use network_communications.Prelude.{
  ℕ, zero, suc, ◌+◌, ◌<◌, true, false, List, [], ◌∷◌, ◌++◌, some, ◌≡◌, ◌≢◌, refl, sym, ap, subst,
  ◌∙◌, arith, length, length-append, sum_by, sum_by-append, rounds, sum_by-rounds, ◌==◌,
  if◌then◌else◌,
}
use network_communications.Run.{done}
use network_communications.ThreadPool.{
  Task, Pool, Added, full, refused, queued, add, first_ids, new_pool,
}
use network_communications.ThreadPool.Queue.{Represents, Adds, add-Adds}
use network_communications.ThreadPool.System.{
  System, init, settle, work, offered, offer, manage, destroy, WorkerPc, start, waiting, holding,
  running, ran, exiting, gone, faulted, ManagerPc, checking, asleep, sampled, measured, grown,
  stopped, DestroyPc, idle, joining, signalling, freed,
}
use network_communications.ThreadPool.System
use network_communications.ThreadPool.Invariant.{Inv, held}
use network_communications.ThreadPool.Invariant.Workers.{work-Inv}
use network_communications.ThreadPool.Invariant.Others.{offer-Inv, destroy-Inv}
use network_communications.ThreadPool.Invariant.Managers.{manage-Inv}
use network_communications.ThreadPool.Safety.{create-new_pool, Created-Inv}
use network_communications.ThreadPool.Kept.{
  Keeps, KeepsPool, add-Keeps, destroy-keeps, work-Keeps, manage-Keeps,
}
use network_communications.PoolDemo.{
  numbered, MainPc, calling, sleeping, destroying, ended, Demo, demo_pool, after, on_added,
  on_destroyed, main_step, Step, works, manages, goes_on, Reach, here, next,
}

-- The tasks of the first `n` rounds.
abbrev numbers : ℕ → List Task
numbers = rounds numbered

-- How many rounds are behind `main`.
abbrev pub passed : MainPc → ℕ
passed (calling i) = i
passed sleeping = 100
passed destroying = 100
passed ended = 100

abbrev pub is_number : ℕ → Task → ℕ
is_number k t = if t.arg == k + 100 then 1 else 0

length-numbers : (n : ℕ) → length (numbers n) ≡ n
length-numbers zero = refl
length-numbers (suc n) =
    omega (arith, length-append (numbers n) (numbered n ∷ []), length-numbers n)

once : (k n : ℕ) → k < n → sum_by (is_number k) (numbers n) ≡ 1
once k n lt = sum_by-rounds (is_number k) numbered k (ground arith) (λ j ne. ground arith) n lt

-- The pool is open, and `main` has not called `threadPoolDestroy`.
abbrev Open : System → Type 0
Open s = (s.pool.shutdown ≡ false) × (s.destroyer ≡ idle)

abbrev Placed : System → MainPc → Type 0
Placed s (calling i) = (i < 100) × Open s
Placed s sleeping = Open s
Placed s destroying = Unit
Placed s ended = Unit

record DemoInv (d : Demo) : Type 0 where
  pub sound : Inv d.system
  pub capacity : d.system.pool.queue_capacity ≡ 100
  pub history : d.system.added ≡ numbers (passed d.main)
  pub placed : Placed d.system d.main

keep-Placed : (s u : System) (m : MainPc) → Keeps s u → Placed s m → Placed u m
keep-Placed s u (calling i) (a, b, c, d) (lt, (o, z)) = (lt, (b ∙ o, d ∙ z))
keep-Placed s u sleeping (a, b, c, d) (o, z) = (b ∙ o, d ∙ z)
keep-Placed s u destroying k h = h
keep-Placed s u ended k h = h

background :
    (d : Demo) (u : System)
    → DemoInv d
    → Keeps d.system u
    → Inv u
    → DemoInv (record d { system = u })
background d u inv k sound = record {
  sound = sound;
  capacity = k.0 ∙ inv.capacity;
  history = k.2 ∙ inv.history;
  placed = keep-Placed d.system u d.main k inv.placed;
}

-- In round `i` there is room, and the pool is open.
call_queues :
    (s : System) (i : ℕ) (r : Added × Pool)
    → DemoInv (record { system = s; main = calling i })
    → (q : List Task) → s.added ≡ s.taken ++ q
    → Adds s.pool q (numbered i) r
    → r.0 ≡ queued
call_queues s i (full, p) inv q h a = absurd (
    omega (
      arith,
      a.1,
      inv.capacity,
      ap length (sym h ∙ inv.history),
      length-numbers i,
      length-append s.taken q,
      inv.placed.0,
    ))
call_queues s i (refused, p) inv q h a = absurd (ground (arith, a.1, inv.placed))
call_queues s i (queued, p) inv q h a = refl

passed-after : (i : ℕ) → i < 100 → passed (after i) ≡ suc i
passed-after i lt = ground arith

after-Placed : (s : System) (i : ℕ) → i < 100 → Open s → Placed s (after i)
after-Placed s i lt o = ground arith

offered-Demo :
    (s : System) (i : ℕ) (r : Added × Pool)
    → DemoInv (record { system = s; main = calling i })
    → r.0 ≡ queued
    → KeepsPool s.pool r.1
    → Inv (offered s 0 (numbered i) r)
    → DemoInv (record { system = offered s 0 (numbered i) r; main = on_added i r.0 })
unfolding offered
offered-Demo s i (full, p) inv e k sound = absurd (ground (arith, e))
offered-Demo s i (refused, p) inv e k sound = absurd (ground (arith, e))
offered-Demo s i (queued, p) inv e k sound =
    let (lt, (o, z)) = inv.placed in
    record {
      sound = sound;
      capacity = k.0 ∙ inv.capacity;
      history = ap (λ ts. ts ++ numbered i ∷ []) inv.history ∙ ap numbers (sym (passed-after i lt));
      placed = after-Placed (offered s 0 (numbered i) (queued, p)) i lt (k.1 ∙ o, z);
    }

on_destroyed-Demo :
    (u : System) (d : DestroyPc)
    → Inv u
    → u.pool.queue_capacity ≡ 100
    → u.added ≡ numbers 100
    → DemoInv (record { system = u; main = on_destroyed d })
on_destroyed-Demo u idle sound c h = record {
  sound = sound;
  capacity = c;
  history = h;
  placed = tt;
}
on_destroyed-Demo u joining sound c h = record {
  sound = sound;
  capacity = c;
  history = h;
  placed = tt;
}
on_destroyed-Demo u signalling sound c h = record {
  sound = sound;
  capacity = c;
  history = h;
  placed = tt;
}
on_destroyed-Demo u freed sound c h = record {
  sound = sound;
  capacity = c;
  history = h;
  placed = tt;
}

main_step-Demo :
    (s : System) (m : MainPc) → DemoInv (record { system = s; main = m }) → DemoInv (main_step s m)
unfolding main_step offer
main_step-Demo s (calling i) inv =
    offered-Demo s i (add s.pool (numbered i)) inv
      (call_queues s i _ inv inv.sound.queue inv.sound.history
        (add-Adds s.pool inv.sound.queue (numbered i) inv.sound.represents))
      (add-Keeps s.pool (numbered i)) (offer-Inv inv.sound 0 (numbered i))
main_step-Demo s sleeping inv = record {
  sound = inv.sound;
  capacity = inv.capacity;
  history = inv.history;
  placed = tt;
}
main_step-Demo s destroying inv =
    let (c, h) = destroy-keeps s s.destroyer s.manager in
    on_destroyed-Demo _ _ (destroy-Inv inv.sound s.destroyer s.manager) (c ∙ inv.capacity)
      (h ∙ inv.history)
main_step-Demo s ended inv = inv

Step-Demo : {d e : Demo} → DemoInv d → Step d e → DemoInv e
Step-Demo {d} inv (works i tid pc a found) =
    background d (work d.system i tid pc) inv (work-Keeps d.system i tid pc)
      (work-Inv inv.sound i tid pc found)
Step-Demo {d} inv (manages fresh a nz) =
    background d (manage d.system fresh d.system.manager) inv
      (manage-Keeps d.system fresh d.system.manager)
      (manage-Inv inv.sound fresh d.system.manager nz)
Step-Demo {d} inv (goes_on a) = main_step-Demo d.system d.main inv

module _ (raw : List Task) (ids : ℕ → ℕ) (p : Pool) (made : demo_pool raw ids ≡ done (some p))
    (hundred : length raw ≡ 100) (nz : (i : ℕ) → ids i ≢ 0) where
  Reach-Demo : {d : Demo} → Reach (init p (first_ids 3 ids)) d → DemoInv d
  unfolding init new_pool
  Reach-Demo here =
      let (same, le) = create-new_pool true true true raw ids 3 10 p made in
      record {
        sound = Created-Inv true true true raw ids 3 10 p made (omega arith) nz System.here;
        capacity = ap (λ (q : Pool). q.queue_capacity) same ∙ hundred;
        history = refl;
        placed = (omega arith, (ap (λ (q : Pool). q.shutdown) same, refl));
      }
  Reach-Demo (next r st) = Step-Demo (Reach-Demo r) st

  -- In every state of the program, for a pool that `main` has made with the memory of a hundred tasks
  -- and threads whose identifiers are not 0: in round `i` of its loop `threadPoolAdd` queues the
  -- task at once. It neither waits for room nor is refused.
  pub never_waits :
      {d : Demo}
      → Reach (init p (first_ids 3 ids)) d
      → (i : ℕ) → d.main ≡ calling i
      → (add d.system.pool (numbered i)).0 ≡ queued
  never_waits {d} r i at =
      let inv = subst (λ m. DemoInv (record { system = d.system; main = m })) at (Reach-Demo r) in
      let s = inv.sound in
      call_queues d.system i (add d.system.pool (numbered i)) inv s.queue s.history
        (add-Adds d.system.pool s.queue (numbered i) s.represents)

  -- In every state of the program, for a pool that `main` has made with the memory of a hundred tasks
  -- and threads whose identifiers are not 0: the pool stands for a queue, and of the tasks that have
  -- been run to their end, those that workers hold or run and those of the queue exactly one is
  -- the task of round `k`, once that round is over.
  pub each_task_once :
      {d : Demo}
      → Reach (init p (first_ids 3 ids)) d
      → (k : ℕ) → k < passed d.main
      → (q : List Task) × Represents d.system.pool q
        × (sum_by (is_number k) d.system.executed
              + sum_by (held (is_number k)) d.system.workers
              + sum_by (is_number k) q
            ≡ 1)
  each_task_once {d} r k lt =
      let inv = Reach-Demo r in
      let s = inv.sound in
      (
        s.queue,
        s.represents,
        omega (
          arith,
          s.finished (is_number k),
          sum_by-append (is_number k) d.system.taken s.queue,
          ap (sum_by (is_number k)) (sym s.history ∙ inv.history),
          once k (passed d.main) lt,
        ),
      )
