-- ===== src/ThreadPool/Invariant/Moves.antt =====
-- When a worker moves on, the invariant of the thread pool is kept; the case of a worker that lets the
-- lock go.
use network_communications.Prelude.{
  ℕ, ◌+◌, ◌*◌, ◌≤◌, true, false, List, [], ◌∷◌, ◌++◌, some, ◌≡◌, ◌≢◌, inl, inr, sym, ap, subst, ◌∙◌,
  arith, length, get_elem?, sum_by, sum_by-set, sum_by-append, append_assoc, ℕ_discrete,
  get_elem?-set_self, get_elem?-set_ne, lt_of_get_elem?,
}
use network_communications.ThreadPool.{Task, Pool, Turn, wait, exit, got, stray}
use network_communications.ThreadPool.Queue.{Represents}
use network_communications.ThreadPool.Slots.{used, is_id}
use network_communications.ThreadPool.System.{
  System, Worker, WorkerPc, waiting, holding, exiting, move, settle,
}
use network_communications.ThreadPool.Invariant.{
  Inv, AllNamed, busy_at, active_at, present_at, held_at, busy, active, present, held, owns,
}
use network_communications.ThreadPool.Invariant.Settle.{Same, Settled}

-- A worker that goes from `pc` to `pc'` and leaves the pool `p'`: what the step has to answer for.
pub record Local (s : System) (tid : ℕ) (pc pc' : WorkerPc) (p' : Pool)
    (taken' executed' : List Task) : Type 0 where
  pub queue : List Task
  pub represents : Represents p' queue
  pub history : s.added ≡ taken' ++ queue
  pub busy_step : p'.busy_num + busy_at pc ≡ s.pool.busy_num + busy_at pc'
  pub min_live : p'.min_num ≤ p'.live_num
  pub live_max : p'.live_num ≤ p'.max_num
  pub active_le : s.pool.live_num + active_at pc' ≤ p'.live_num + active_at pc
  pub active_step :
      p'.shutdown ≡ false
      → (s.pool.shutdown ≡ false) × (p'.live_num + active_at pc ≡ s.pool.live_num + active_at pc')
  pub slots : length p'.thread_ids ≡ p'.max_num
  pub slot_step :
      sum_by used p'.thread_ids + present_at pc ≡ sum_by used s.pool.thread_ids + present_at pc'
  pub owned_step :
      (t : ℕ)
      → t ≢ 0
      → sum_by (is_id t) p'.thread_ids + present_at pc * is_id t tid
        ≡ sum_by (is_id t) s.pool.thread_ids + present_at pc' * is_id t tid
  pub finished_step :
      (f : Task → ℕ)
      → sum_by f taken' + sum_by f s.executed + held_at f pc
        ≡ sum_by f s.taken + sum_by f executed' + held_at f pc'

true≢false : true ≢ false
true≢false e = cc

module _ {s : System} (inv : Inv s) (i tid : ℕ) (pc pc' : WorkerPc)
    (e : get_elem? s.workers i ≡ some (record { tid = tid; pc = pc })) where
  changed :
      (weight : Worker → ℕ)
      → sum_by weight (move s i tid pc').workers + weight (record { tid = tid; pc = pc })
        ≡ sum_by weight s.workers + weight (record { tid = tid; pc = pc' })
  changed weight = sum_by-set weight s.workers i _ _ e

  named-move : AllNamed (move s i tid pc').workers
  named-move j w f = elim (ℕ_discrete i j) [
    | yes same ↦
        let hit : get_elem? (move s i tid pc').workers i ≡ some (record { tid = tid; pc = pc' }) =
          get_elem?-set_self s.workers i _ (lt_of_get_elem? s.workers i e) in
        let found : get_elem? (move s i tid pc').workers i ≡ some w =
          subst (λ k. get_elem? (move s i tid pc').workers k ≡ some w) (sym same) f in
        let tids : w.tid ≡ tid = ground arith in λ z. inv.named i _ e (sym tids ∙ z)
    | no other ↦ inv.named j w (sym (get_elem?-set_ne s.workers i j _ other) ∙ f)
  ]

  pub Local-Inv :
      (p' : Pool) (taken' executed' : List Task)
      → Local s tid pc pc' p' taken' executed'
      → Inv (record (move s i tid pc') { pool = p'; taken = taken'; executed = executed' })
  Local-Inv p' taken' executed' l = record {
    queue = l.queue;
    represents = l.represents;
    history = l.history;
    busy_count = omega (arith, l.busy_step, inv.busy_count, changed busy);
    min_live = l.min_live;
    live_max = l.live_max;
    active_le = omega (arith, l.active_le, inv.active_le, changed active);
    active_count = λ o.
        omega (arith, (l.active_step o).1, inv.active_count (l.active_step o).0, changed active);
    slots = l.slots;
    slot_count = omega (arith, l.slot_step, inv.slot_count, changed present);
    owned = λ t nz. omega (arith, l.owned_step t nz, inv.owned t nz, changed (owns t));
    named = named-move;
    finished = λ f. omega (arith, l.finished_step f, inv.finished f, changed (held f));
  }

-- The parts of `Local` that a step with the lock held has in common, from a position where the
-- worker is neither busy nor leaving and holds no task.
abbrev Idle : WorkerPc → Type 0
Idle pc =
    (busy_at pc ≡ 0)
    × (active_at pc ≡ 1)
    × (present_at pc ≡ 1)
    × ((f : Task → ℕ) → held_at f pc ≡ 0)

-- The slots stay as they are, and the worker keeps its own.
owned_alike :
    (p p' : Pool) (tid : ℕ) (pc : WorkerPc)
    → Same p p'
    → Idle pc
    → (t : ℕ)
    → sum_by (is_id t) p'.thread_ids + present_at pc * is_id t tid
      ≡ sum_by (is_id t) p.thread_ids + 1 * is_id t tid
owned_alike p p' tid pc same idle t =
    omega (arith, ap (sum_by (is_id t)) same.3, ap (λ k. k * is_id t tid) idle.2)

pub settle-Inv :
    {s : System} (inv : Inv s) (i tid : ℕ) (pc : WorkerPc)
    → get_elem? s.workers i ≡ some (record { tid = tid; pc = pc })
    → Idle pc
    → (r : Turn × Pool) → Settled s.pool inv.queue r
    → Inv (settle s i tid r)
unfolding settle
settle-Inv {s} inv i tid pc e idle (wait, p') (rep, same, live) =
    Local-Inv inv i tid pc waiting e p' s.taken s.executed (record {
      queue = inv.queue;
      represents = rep;
      history = inv.history;
      busy_step = omega (arith, same, idle);
      min_live = omega (arith, same, live, inv.min_live);
      live_max = omega (arith, same, live, inv.live_max);
      active_le = omega (arith, live, idle);
      active_step = λ o. (sym same.4 ∙ o, omega (arith, live, idle));
      slots = ap length same.3 ∙ inv.slots ∙ sym same.2;
      slot_step = omega (arith, ap (sum_by used) same.3, idle);
      owned_step = λ t nz. owned_alike s.pool p' tid pc same idle t;
      finished_step = λ f. omega (arith, idle.3 f);
    })
settle-Inv {s} inv i tid pc e idle (exit, p') (rep, same, live) =
    Local-Inv inv i tid pc exiting e p' s.taken s.executed (record {
      queue = inv.queue;
      represents = rep;
      history = inv.history;
      busy_step = omega (arith, same, idle);
      min_live = elim live [
        | inl kept ↦ omega (arith, same, kept, inv.min_live)
        | inr less ↦ omega (arith, same, less)
      ];
      live_max = omega (arith, same, live, inv.live_max);
      active_le = omega (arith, live, idle);
      active_step = λ o. (
        sym same.4 ∙ o,
        elim live [
          | inl kept ↦ absurd (true≢false (sym kept.1 ∙ sym same.4 ∙ o))
          | inr less ↦ omega (arith, less, idle)
        ],
      );
      slots = ap length same.3 ∙ inv.slots ∙ sym same.2;
      slot_step = omega (arith, ap (sum_by used) same.3, idle);
      owned_step = λ t nz. owned_alike s.pool p' tid pc same idle t;
      finished_step = λ f. omega (arith, idle.3 f);
    })
settle-Inv {s} inv i tid pc e idle (got t, p') (rest, eq, rep, same, live) =
    Local-Inv inv i tid pc (holding t) e p' (s.taken ++ t ∷ []) s.executed (record {
      queue = rest;
      represents = rep;
      history =
          inv.history ∙ ap (λ xs. s.taken ++ xs) eq ∙ sym (append_assoc s.taken (t ∷ []) rest);
      busy_step = omega (arith, same, idle);
      min_live = omega (arith, same, live, inv.min_live);
      live_max = omega (arith, same, live, inv.live_max);
      active_le = omega (arith, live, idle);
      active_step = λ o. (sym same.4 ∙ o, omega (arith, live, idle));
      slots = ap length same.3 ∙ inv.slots ∙ sym same.2;
      slot_step = omega (arith, ap (sum_by used) same.3, idle);
      owned_step = λ u nz. owned_alike s.pool p' tid pc same idle u;
      finished_step =
          λ f. unfold sum_by in omega (arith, idle.3 f, sum_by-append f s.taken (t ∷ []));
    })
settle-Inv {s} inv i tid pc e idle (stray, p') bad = absurd bad
