-- ===== src/ThreadPool/Safety.antt =====
-- What holds of the pool of Thread/ThreadPool/threadPool.c in every state that its threads reach.
use network_communications.Prelude.{
  ℕ, zero, suc, ◌+◌, ◌-◌, ◌≤◌, ◌<◌, Bool, true, List, [], ◌∷◌, ◌++◌, some, ◌≡◌, ◌≢◌, ◌⊎◌, inl, inr,
  refl, sym, ap, subst, arith, length, get_elem?, replicate, length-replicate, length-append,
  sum_by, sum_by-append, sum_by-replicate, Bool-cases, min,
}
use network_communications.Run.{done}
use network_communications.ThreadPool.{
  Task, Pool, first_ids, new_pool, create, shut, busy_threads, alive_threads,
}
use network_communications.ThreadPool.Queue.{Represents, empty-Represents}
use network_communications.ThreadPool.Slots.{used, free, is_id}
use network_communications.ThreadPool.System.{
  System, Worker, init, Step, works, calls, offers, manages, destroys, Reach, here, next, idle,
  checking, freed, manage, destroy,
}
use network_communications.ThreadPool.Invariant.{Inv, busy, active, present, held, owns}
use network_communications.ThreadPool.Invariant.Workers.{work-Inv}
use network_communications.ThreadPool.Invariant.Others.{offer-Inv, destroy-Inv, still-Inv}
use network_communications.ThreadPool.Invariant.Managers.{
  manage-Inv, sum_by-newcomer, owns-newcomer, named-newcomer,
}

pub create-new_pool :
    (a b c : Bool) (raw : List Task) (ids : ℕ → ℕ) (min max : ℕ) (p : Pool)
    → create a b c raw ids min max ≡ done (some p)
    → (p ≡ new_pool raw ids min max) × (min ≤ max)
unfolding create
create-new_pool a b c raw ids min max p e = ground arith

pub create-max :
    (a b c : Bool) (raw : List Task) (ids : ℕ → ℕ) (min max : ℕ) (p : Pool)
    → create a b c raw ids min max ≡ done (some p)
    → p.max_num ≡ max
unfolding new_pool
create-max a b c raw ids min max p e =
    ap (λ (q : Pool). q.max_num) (create-new_pool a b c raw ids min max p e).0

length-first_ids : (n : ℕ) (ids : ℕ → ℕ) → length (first_ids n ids) ≡ n
length-first_ids zero ids = refl
length-first_ids (suc n) ids = ap suc (length-first_ids n (λ i. ids (suc i)))

free-first_ids : (n : ℕ) (ids : ℕ → ℕ) → ((i : ℕ) → ids i ≢ 0) → sum_by free (first_ids n ids) ≡ 0
unfolding sum_by
free-first_ids zero ids nz = refl
free-first_ids (suc n) ids nz =
    ground (arith, nz 0, free-first_ids n (λ i. ids (suc i)) (λ i. nz (suc i)))

used-add-free : (xs : List ℕ) → sum_by used xs + sum_by free xs ≡ length xs
unfolding sum_by
used-add-free [] = refl
used-add-free (x ∷ xs) = ground (arith, used-add-free xs)

is_id-zero : (t : ℕ) → t ≢ 0 → is_id t 0 ≡ 0
is_id-zero t h = ground arith

init-Inv :
    (raw : List Task) (ids : ℕ → ℕ) (min max : ℕ)
    → 0 < length raw
    → min ≤ max
    → ((i : ℕ) → ids i ≢ 0)
    → Inv (init (new_pool raw ids min max) (first_ids min ids))
unfolding init new_pool
init-Inv raw ids min max room le nz = record {
  queue = [];
  represents = empty-Represents (new_pool raw ids min max) refl room refl refl refl;
  history = refl;
  busy_count = omega (arith, sum_by-newcomer busy 0 (λ t. refl) tids);
  min_live = omega arith;
  live_max = le;
  active_le = omega (arith, sum_by-newcomer active 1 (λ t. refl) tids, length-first_ids min ids);
  active_count =
      λ o. omega (arith, sum_by-newcomer active 1 (λ t. refl) tids, length-first_ids min ids);
  slots = omega (
    arith,
    length-append tids holes,
    length-first_ids min ids,
    length-replicate {A = ℕ} (max - min) 0,
  );
  slot_count = omega (
    arith,
    sum_by-append used tids holes,
    sum_by-replicate used (max - min) 0 refl,
    used-add-free tids,
    free-first_ids min ids nz,
    sum_by-newcomer present 1 (λ t. refl) tids,
  );
  owned = λ t h. omega (
    arith,
    sum_by-append (is_id t) tids holes,
    sum_by-replicate (is_id t) (max - min) 0 (is_id-zero t h),
    owns-newcomer t tids,
  );
  named = named-newcomer tids (free-first_ids min ids nz);
  finished = λ f. omega (arith, sum_by-newcomer (held f) 0 (λ t. refl) tids);
}
  where
    tids : List ℕ
    tids = first_ids min ids

    holes : List ℕ
    holes = replicate (max - min) 0

Step-Inv : {s u : System} → Inv s → Step s u → Inv u
Step-Inv inv (works i tid pc open_pool e) = work-Inv inv i tid pc e
Step-Inv {s} inv (calls t open_pool) = still-Inv inv _ s.manager s.destroyer
Step-Inv inv (offers j t open_pool e) = offer-Inv inv j t
Step-Inv {s} inv (manages fresh open_pool nz) = manage-Inv inv fresh s.manager nz
Step-Inv {s} inv (destroys open_pool) = destroy-Inv inv s.destroyer s.manager

pub Reach-Inv : {s u : System} → Inv s → Reach s u → Inv u
Reach-Inv inv here = inv
Reach-Inv inv (next r st) = Step-Inv (Reach-Inv inv r) st

-- The system that starts when `threadPoolCreate` has returned the pool `p`, with a thread for each of
-- the first `min` identifiers.
module _ (a b c : Bool) (raw : List Task) (ids : ℕ → ℕ) (min max : ℕ) (p : Pool)
    (made : create a b c raw ids min max ≡ done (some p)) (room : 0 < length raw)
    (nz : (i : ℕ) → ids i ≢ 0) where
  pub Created-Inv : {s : System} → Reach (init p (first_ids min ids)) s → Inv s
  Created-Inv r =
      let (same, le) = create-new_pool a b c raw ids min max p made in
      Reach-Inv
        (subst (λ x. Inv (init x (first_ids min ids))) (sym same)
          (init-Inv raw ids min max room le nz))
        r

  -- For a pool that `threadPoolCreate` has returned, with room for a task and threads whose
  -- identifiers are not 0, in every state: what `threadPoolBusyNum` returns is the number of
  -- workers between the increment and the decrement of `busyNum`; minNum ≤ liveNum ≤ maxNum; and
  -- until the pool is shut down what `threadPoolAliveNum` returns is the number of workers that
  -- have not left their loop.
  pub counters_exact :
      {s : System}
      → Reach (init p (first_ids min ids)) s
      → (busy_threads s.pool ≡ sum_by busy s.workers)
        × (s.pool.min_num ≤ s.pool.live_num)
        × (s.pool.live_num ≤ s.pool.max_num)
        × ((s.pool.shutdown ≡ true) ⊎ (alive_threads s.pool ≡ sum_by active s.workers))
  unfolding busy_threads alive_threads
  counters_exact {s} r =
      let inv = Created-Inv r in
      (
        inv.busy_count,
        inv.min_live,
        inv.live_max,
        elim (Bool-cases s.pool.shutdown) [
          | inl shut_down ↦ inl shut_down
          | inr open_pool ↦ inr (sym (inv.active_count open_pool))
        ],
      )

  -- For a pool that `threadPoolCreate` has returned, with room for a task and threads whose
  -- identifiers are not 0, in every state: as many slots are in use as there are workers that have
  -- not ended, an identifier that is not 0 stands in as many slots as there are such workers with
  -- it, and at most `maxNum` workers have not ended.
  pub slots_exact :
      {s : System}
      → Reach (init p (first_ids min ids)) s
      → (t : ℕ) → t ≢ 0
      → (sum_by used s.pool.thread_ids ≡ sum_by present s.workers)
        × (sum_by (is_id t) s.pool.thread_ids ≡ sum_by (owns t) s.workers)
        × (sum_by present s.workers ≤ s.pool.max_num)
  slots_exact {s} r t h =
      let inv = Created-Inv r in
      (
        inv.slot_count,
        inv.owned t h,
        omega (arith, inv.slot_count, inv.slots, used-add-free s.pool.thread_ids),
      )

  -- For a pool that `threadPoolCreate` has returned, with room for a task and threads whose
  -- identifiers are not 0, in every state: the pool stands for a queue of tasks, and the tasks
  -- ever queued are, in this order, those ever taken by workers and those of the queue: first in,
  -- first out.
  pub first_in_first_out :
      {s : System}
      → Reach (init p (first_ids min ids)) s
      → (q : List Task) × Represents s.pool q × (s.added ≡ s.taken ++ q)
  first_in_first_out r = let inv = Created-Inv r in (inv.queue, inv.represents, inv.history)

  -- For a pool that `threadPoolCreate` has returned, with room for a task and threads whose
  -- identifiers are not 0, in every state: the pool stands for a queue, and however tasks are
  -- weighed, those ever queued weigh as much as those run to their end, those that workers hold or
  -- run, and those of the queue together. So no task is lost and none is run twice.
  pub no_task_lost :
      {s : System}
      → Reach (init p (first_ids min ids)) s
      → (f : Task → ℕ)
      → (q : List Task) × Represents s.pool q
        × (sum_by f s.added ≡ sum_by f s.executed + sum_by (held f) s.workers + sum_by f q)
  no_task_lost {s} r f =
      let inv = Created-Inv r in
      (
        inv.queue,
        inv.represents,
        omega (arith, ap (sum_by f) inv.history, sum_by-append f s.taken inv.queue, inv.finished f),
      )

-- `threadPoolDestroy` does not wait for the workers: while a worker stands anywhere, at a task too,
-- and the manager at its test, the call can run to the end and free the pool under it.
pub destroy_under_worker :
    (s : System) (i : ℕ) (w : Worker)
    → get_elem? s.workers i ≡ some w
    → (u : System) × Reach (record s { destroyer = idle; manager = checking }) u
      × (u.destroyer ≡ freed)
      × (get_elem? u.workers i ≡ some w)
unfolding manage destroy shut
destroy_under_worker s i w e = (
  _,
  next
      (next (next (next here (destroys (λ f. cc))) (manages (λ i. 1) (λ f. cc) (λ i f. cc)))
        (destroys (λ f. cc)))
      (destroys (λ f. cc)),
  refl,
  e,
)
