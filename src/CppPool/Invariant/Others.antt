-- ===== src/CppPool/Invariant/Others.antt =====
-- The manager of Thread/ThreadPool/threadPoolC++, callers of addTask and the destructor keep the
-- invariant.
use network_communications.Prelude.{
  ℕ, zero, suc, Bool, true, false, List, [], ◌∷◌, ◌++◌, some, ◌≡◌, ◌≢◌, inl, inr, refl, ap, subst,
  ◌∙◌, arith, length, map, get_elem?, set, sum_by, sum_by-append, append_assoc, each-append,
  length-append,
}
use network_communications.ThreadPool.{number, grow_ids}
use network_communications.ThreadPool.Slots.{Grows, grow_ids-Grows}
use network_communications.CppPool.{
  Pc, locking, testing, waiting, sleeping, deciding, taking, running, finishing, leaving, gone,
  faulted, Worker, newcomer, Caller, added, System, Manager, m_test, m_read, m_more, m_grow,
  m_fewer, m_shrink, m_ended, manage, Step, works, manages, offers, adds, shuts, frees,
}
use network_communications.CppPool.Invariant.{Inv, inside, busy, alive, holding, Knows}
use network_communications.CppPool.Invariant.Steps.{advance-Inv}

-- New threads stand before their first lock.
pub newcomers_none :
    (f : Worker → ℕ)
    → ((t : ℕ) → f (newcomer t) ≡ 0)
    → (ids : List ℕ) → sum_by f (map newcomer ids) ≡ 0
unfolding sum_by
newcomers_none f h [] = refl
newcomers_none f h (t ∷ ids) = omega (arith, h t, newcomers_none f h ids)

pub newcomers_alive : (ids : List ℕ) → sum_by alive (map newcomer ids) ≡ length ids
unfolding sum_by
newcomers_alive [] = refl
newcomers_alive (t ∷ ids) = omega (arith, newcomers_alive ids)

pub newcomers_know :
    (q : List ℕ) (b : Bool) (ids : List ℕ) (j : ℕ) (w : Worker)
    → get_elem? (map newcomer ids) j ≡ some w
    → Knows q b w.pc
newcomers_know q b [] j w e = absurd (grind arith)
newcomers_know q b (t ∷ ids) zero w e =
    let is : newcomer t ≡ w = cc in subst (λ x. Knows q b x.pc) is tt
newcomers_know q b (t ∷ ids) (suc j) w e = newcomers_know q b ids j w e

grow-Inv :
    (fresh : ℕ → ℕ) (s : System) (live busy : ℕ)
    → ((k : ℕ) → fresh k ≢ 0)
    → Inv s
    → Inv (manage fresh s (m_grow live busy))
unfolding manage
grow-Inv fresh s live busy_then nz inv =
    let new = (grow_ids s.max_num 0 s.live_num fresh s.thread_ids).1 in
    let g : Grows s.max_num 0 s.live_num s.thread_ids
        (grow_ids s.max_num 0 s.live_num fresh s.thread_ids).0 new =
      grow_ids-Grows s.max_num 0 s.live_num fresh s.thread_ids nz in
    let none_of = λ (f : Worker → ℕ) (h : (t : ℕ) → f (newcomer t) ≡ 0). newcomers_none f h new in
    record {
      lock = omega (
        arith,
        inv.lock,
        sum_by-append inside s.workers (map newcomer new),
        newcomers_none inside (λ t. refl) new,
      );
      busy_count = omega (
        arith,
        inv.busy_count,
        sum_by-append busy s.workers (map newcomer new),
        newcomers_none busy (λ t. refl) new,
      );
      live_count = λ h. omega (
        arith,
        inv.live_count h,
        sum_by-append alive s.workers (map newcomer new),
        newcomers_alive new,
      );
      least = omega (arith, inv.least);
      most = omega (arith, inv.most, g.as_many);
      order = inv.order;
      tasks = λ f. omega (
        arith,
        inv.tasks f,
        sum_by-append (holding f) s.workers (map newcomer new),
        newcomers_none (holding f) (λ t. refl) new,
      );
      known =
          each-append (λ w. Knows s.task_q s.shutdown w.pc) s.workers (map newcomer new) inv.known
            (newcomers_know s.task_q s.shutdown new);
    }

-- A step that changes nothing the invariant is about.
same-Inv : (s : System) (m : Manager) (n : ℕ) → Inv s → Inv (record s { manager = m; exit_num = n })
same-Inv s m n inv = record {
  lock = inv.lock;
  busy_count = inv.busy_count;
  live_count = inv.live_count;
  least = inv.least;
  most = inv.most;
  order = inv.order;
  tasks = inv.tasks;
  known = inv.known;
}

pub manage-Inv :
    (fresh : ℕ → ℕ) (s : System) (m : Manager)
    → ((k : ℕ) → fresh k ≢ 0)
    → Inv s
    → Inv (manage fresh s m)
unfolding manage
manage-Inv fresh s m_test nz inv = same-Inv s _ s.exit_num inv
manage-Inv fresh s m_read nz inv = same-Inv s _ s.exit_num inv
manage-Inv fresh s (m_more queue_size live busy) nz inv = same-Inv s _ s.exit_num inv
manage-Inv fresh s (m_grow live busy) nz inv = grow-Inv fresh s live busy nz inv
manage-Inv fresh s (m_fewer live busy) nz inv = same-Inv s _ s.exit_num inv
manage-Inv fresh s m_shrink nz inv = same-Inv s m_test number inv
manage-Inv fresh s m_ended nz inv = inv

-- More tasks in the queue, and a pool that shuts down, leave what a worker knows.
Knows-more : (q : List ℕ) (t : ℕ) (b : Bool) (pc : Pc) → Knows q b pc → Knows (q ++ t ∷ []) b pc
Knows-more q t b locking h = tt
Knows-more q t b testing h = tt
Knows-more q t b waiting h = tt
Knows-more q t b sleeping h = tt
Knows-more q t b deciding (inl h) = inl (omega (arith, h, length-append q (t ∷ [])))
Knows-more q t b deciding (inr h) = inr h
Knows-more q t b taking h = omega (arith, h, length-append q (t ∷ []))
Knows-more q t b (running u) h = tt
Knows-more q t b finishing h = tt
Knows-more q t b leaving h = tt
Knows-more q t b gone h = tt
Knows-more q t b faulted h = h

Knows-shut : (q : List ℕ) (b : Bool) (pc : Pc) → Knows q b pc → Knows q true pc
Knows-shut q b locking h = tt
Knows-shut q b testing h = tt
Knows-shut q b waiting h = tt
Knows-shut q b sleeping h = tt
Knows-shut q b deciding h = inr refl
Knows-shut q b taking h = h
Knows-shut q b (running u) h = tt
Knows-shut q b finishing h = tt
Knows-shut q b leaving h = tt
Knows-shut q b gone h = tt
Knows-shut q b faulted h = h

pub push-Inv :
    (s : System) (callers : List Caller) (task : ℕ)
    → Inv s
    → Inv (record s {
      callers = callers;
      task_q = s.task_q ++ task ∷ [];
      pushed = s.pushed ++ task ∷ [];
    })
push-Inv s callers task inv = record {
  lock = inv.lock;
  busy_count = inv.busy_count;
  live_count = inv.live_count;
  least = inv.least;
  most = inv.most;
  order = ap (λ xs. xs ++ task ∷ []) inv.order ∙ append_assoc s.taken s.task_q (task ∷ []);
  tasks = inv.tasks;
  known = λ j w f. Knows-more s.task_q task s.shutdown w.pc (inv.known j w f);
}

pub shut-Inv : (s : System) → Inv s → Inv (record s { shutdown = true })
shut-Inv s inv = record {
  lock = inv.lock;
  busy_count = inv.busy_count;
  live_count = λ h. absurd (let f : true ≡ false = h in cc);
  least = inv.least;
  most = inv.most;
  order = inv.order;
  tasks = inv.tasks;
  known = λ j w f. Knows-shut s.task_q s.shutdown w.pc (inv.known j w f);
}

pub freed-Inv : (s : System) → Inv s → Inv (record s { freed = true })
freed-Inv s inv = record {
  lock = inv.lock;
  busy_count = inv.busy_count;
  live_count = inv.live_count;
  least = inv.least;
  most = inv.most;
  order = inv.order;
  tasks = inv.tasks;
  known = inv.known;
}

pub Step-Inv : (s t : System) → Step s t → Inv s → Inv t
Step-Inv s t (works i w up e h) inv = advance-Inv inv i w.tid w.pc e h
Step-Inv s t (manages fresh nz up h) inv = manage-Inv fresh s s.manager nz inv
Step-Inv s t (offers task up running_on) inv = record {
  lock = inv.lock;
  busy_count = inv.busy_count;
  live_count = inv.live_count;
  least = inv.least;
  most = inv.most;
  order = inv.order;
  tasks = inv.tasks;
  known = inv.known;
}
Step-Inv s t (adds i task up e) inv = push-Inv s (set s.callers i added) task inv
Step-Inv s t shuts inv = shut-Inv s inv
Step-Inv s t (frees down ended) inv = freed-Inv s inv
