-- ===== src/ThreadPool/Queue.antt =====
-- The task queue of Thread/ThreadPool/threadPool.c: an array, used round and round, is a queue.
use network_communications.Prelude.{
  ℕ, suc, ◌+◌, ◌-◌, ◌%◌, ◌≤◌, ◌<◌, Bool, true, false, List, [], ◌∷◌, ◌++◌, some, ◌≡◌, ◌≢◌, eq_of_==,
  ne_of_==, ◌==◌, if◌then◌else◌, ◌&&◌, not, refl, ap, sym, ◌∙◌, arith, length, get_elem?, set,
  length-set, length-append, get_elem?-set_self, get_elem?-set_ne, dec_lt,
}
use native.Mathlib.Nat.{mod-add-mod, mod-eq_of_lt, mod-eq-sub-mod}
use network_communications.ThreadPool.{
  Task, Pool, Added, full, refused, queued, Turn, wait, exit, got, stray, add, push_task, pop_task,
  enter, take_task,
}

-- From index `h` on, round the array at `n`, stand the tasks `q`.
abbrev pub Holds : List Task → ℕ → ℕ → List Task → Type 0
Holds arr n h [] = Unit
Holds arr n h (t ∷ q) = (get_elem? arr h ≡ some t) × Holds arr n ((h + 1) % n) q

-- The fields of the pool stand for the tasks `q`, the next one first.
pub record Represents (p : Pool) (q : List Task) : Type 0 where
  pub storage : length p.task_q ≡ p.queue_capacity
  pub positive : 0 < p.queue_capacity
  pub front_in : p.queue_front < p.queue_capacity
  pub count : length q ≡ p.queue_size
  pub room : p.queue_size ≤ p.queue_capacity
  pub rear : p.queue_rear ≡ (p.queue_front + p.queue_size) % p.queue_capacity
  pub holds : Holds p.task_q p.queue_capacity p.queue_front q

-- Some steps round the array, fewer than it has entries, end at another place.
step_elsewhere : (n h d : ℕ) → h < n → 0 < d → d < n → (h + d) % n ≢ h
step_elsewhere n h d lt pos small = elim (dec_lt (h + d) n) [
  | yes p ↦ omega (arith, mod-eq_of_lt p)
  | no p ↦ omega (
    arith,
    mod-eq-sub-mod {n = h + d} {m = n} (omega arith),
    mod-eq_of_lt {n = h + d - n} {m = n} (omega arith),
  )
]

-- A store behind the tasks adds one at their end.
Holds-set :
    (arr : List Task) (n h i : ℕ) (q : List Task) (t : Task)
    → length arr ≡ n
    → h < n
    → length q < n
    → i ≡ (h + length q) % n
    → Holds arr n h q
    → Holds (set arr i t) n h (q ++ t ∷ [])
Holds-set arr n h i [] t len lt small e hs =
    let here : i ≡ h = e ∙ ap (λ k. k % n) (omega arith) ∙ mod-eq_of_lt lt in
    (rw here (get_elem?-set_self arr h t (omega arith)), tt)
Holds-set arr n h i (x ∷ q) t len lt small e hs = (
  get_elem?-set_ne arr i h t
        (λ same. step_elsewhere n h (suc (length q)) lt (omega arith) small (sym e ∙ same))
      ∙ hs.0,
  Holds-set arr n ((h + 1) % n) i q t len (omega arith) (omega arith) (e ∙ shift) hs.1,
)
  where
    shift : (h + suc (length q)) % n ≡ ((h + 1) % n + length q) % n
    shift = rw mod-add-mod (ap (λ k. k % n) (omega arith))

-- What a pool stands for hangs on the fields of its queue alone.
pub Represents-other :
    (p : Pool) (q : List Task) (ids : List ℕ) (busy live exits : ℕ) (shut : Bool)
    → Represents p q
    → Represents
        (record p {
          thread_ids = ids;
          busy_num = busy;
          live_num = live;
          exit_num = exits;
          shutdown = shut;
        })
        q
Represents-other p q ids busy live exits shut r = record {
  storage = r.storage;
  positive = r.positive;
  front_in = r.front_in;
  count = r.count;
  room = r.room;
  rear = r.rear;
  holds = r.holds;
}

-- A new pool stands for no task.
pub empty-Represents :
    (p : Pool)
    → length p.task_q ≡ p.queue_capacity
    → 0 < p.queue_capacity
    → p.queue_front ≡ 0
    → p.queue_rear ≡ 0
    → p.queue_size ≡ 0
    → Represents p []
empty-Represents p s c f r z = record {
  storage = s;
  positive = c;
  front_in = omega arith;
  count = omega arith;
  room = omega arith;
  rear = rw (f, z, r) (sym (mod-eq_of_lt c));
  holds = tt;
}

push_task-Represents :
    (p : Pool) (q : List Task) (t : Task)
    → Represents p q
    → p.queue_size ≢ p.queue_capacity
    → Represents (push_task p t) (q ++ t ∷ [])
unfolding push_task
push_task-Represents p q t r ne = record {
  storage = length-set p.task_q p.queue_rear t ∙ r.storage;
  positive = r.positive;
  front_in = r.front_in;
  count = omega (arith, length-append q (t ∷ []), r.count);
  room = omega (arith, r.room);
  rear = rw (r.rear, mod-add-mod) (ap (λ k. k % p.queue_capacity) (omega arith));
  holds =
      Holds-set p.task_q p.queue_capacity p.queue_front p.queue_rear q t r.storage r.front_in
        (omega (arith, r.count, r.room))
        (r.rear ∙ ap (λ k. (p.queue_front + k) % p.queue_capacity) (sym r.count)) r.holds;
}

pop_task-Represents :
    (p : Pool) (t : Task) (q : List Task) → Represents p (t ∷ q) → Represents (pop_task p) q
unfolding pop_task
pop_task-Represents p t q r = record {
  storage = r.storage;
  positive = r.positive;
  front_in = omega (arith, r.positive);
  count = omega (arith, r.count);
  room = omega (arith, r.room);
  rear = r.rear ∙ rw mod-add-mod (ap (λ k. k % p.queue_capacity) (omega (arith, r.count)));
  holds = r.holds.1;
}

-- What `threadPoolAdd` may do with the lock held, on a pool that stands for `q`.
abbrev pub Adds : Pool → List Task → Task → Added × Pool → Type 0
Adds p q t (full, p') = (p' ≡ p) × (length q ≡ p.queue_capacity) × (p.shutdown ≡ false)
Adds p q t (refused, p') = (p' ≡ p) × (p.shutdown ≡ true)
Adds p q t (queued, p') =
    Represents p' (q ++ t ∷ []) × (length q < p.queue_capacity) × (p.shutdown ≡ false)

-- What a worker may do with the lock held, on a pool that stands for `q`.
abbrev pub Turns : Pool → List Task → Turn × Pool → Type 0
Turns p q (wait, p') = (p' ≡ p) × (q ≡ []) × (p.shutdown ≡ false)
Turns p q (exit, p') = (p' ≡ p) × (p.shutdown ≡ true)
Turns p q (got t, p') =
    (rest : List Task) × (q ≡ t ∷ rest) × Represents p' rest × (p.shutdown ≡ false)
Turns p q (stray, p') = ⊥

Adds-tests :
    (p : Pool) (q : List Task) (t : Task) (b s : Bool)
    → Represents p q
    → (p.queue_size == p.queue_capacity) ≡ b
    → p.shutdown ≡ s
    → Adds p q t
        (if b && not s then (full, p) else if s then (refused, p) else (queued, push_task p t))
Adds-tests p q t true false r e f =
    (refl, omega (arith, r.count, eq_of_== p.queue_size p.queue_capacity e), f)
Adds-tests p q t true true r e f = (refl, f)
Adds-tests p q t false true r e f = (refl, f)
Adds-tests p q t false false r e f =
    let ne : p.queue_size ≢ p.queue_capacity = ne_of_== p.queue_size p.queue_capacity e in
    (push_task-Represents p q t r ne, omega (arith, r.count, r.room), f)

-- `threadPoolAdd`, on a pool that stands for `q`: the caller waits exactly where the queue is full
-- and the pool open, is refused exactly where the pool is shut down, and otherwise the pool stands
-- for `q` with the task at its end. The first two leave the pool as it was.
pub add-Adds : (p : Pool) (q : List Task) (t : Task) → Represents p q → Adds p q t (add p t)
unfolding add
add-Adds p q t r = Adds-tests p q t _ _ r refl refl

Turns-tests :
    (p : Pool) (q : List Task) (b s : Bool)
    → Represents p q
    → (p.queue_size == 0) ≡ b
    → p.shutdown ≡ s
    → Turns p q (if b && not s then (wait, p) else if s then (exit, p) else take_task p)
unfolding take_task
Turns-tests p [] true false r e f = (refl, refl, f)
Turns-tests p (t ∷ q) true false r e f = absurd (omega (arith, r.count, eq_of_== p.queue_size 0 e))
Turns-tests p q true true r e f = (refl, f)
Turns-tests p q false true r e f = (refl, f)
Turns-tests p [] false false r e f = absurd (ne_of_== p.queue_size 0 e (sym r.count))
Turns-tests p (t ∷ q) false false r e f =
    rw (r.holds.0, take_task) (q, refl, pop_task-Represents p t q r, f)

-- `worker`, on a pool that stands for `q`: it waits exactly where there is no task and the pool is
-- open, exits exactly where the pool is shut down, and otherwise gets the oldest task, and the pool
-- stands for the others. It never reads outside of the array. Waiting and exiting leave the pool as
-- it was.
pub enter-Turns : (p : Pool) (q : List Task) → Represents p q → Turns p q (enter p)
unfolding enter
enter-Turns p q r = Turns-tests p q _ _ r refl refl

-- `threadPoolAdd` leaves all else of the pool alone.
pub add-keeps :
    (p : Pool) (t : Task)
    → let p' = (add p t).1 in
      (p'.busy_num ≡ p.busy_num)
      × (p'.live_num ≡ p.live_num)
      × (p'.min_num ≡ p.min_num)
      × (p'.max_num ≡ p.max_num)
      × (p'.thread_ids ≡ p.thread_ids)
      × (p'.shutdown ≡ p.shutdown)
unfolding add
add-keeps p t = ground arith
