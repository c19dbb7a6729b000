-- ===== src/ThreadPool/Invariant/Managers.antt =====
-- The steps of the manager keep the invariant of the thread pool.
use network_communications.Prelude.{
  ℕ, zero, suc, ◌+◌, ◌*◌, List, [], ◌∷◌, ◌++◌, ◌≡◌, ◌≢◌, inl, inr, refl, ◌∙◌, arith, length, map,
  sum_by, sum_by-append, Bool-cases,
}
use network_communications.ThreadPool.{Task, Pool, number, grow, shrink, wants_more, wants_fewer}
use network_communications.ThreadPool.Queue.{Represents, Represents-other}
use network_communications.ThreadPool.Slots.{free, is_id, Grows, grow-Grows}
use network_communications.ThreadPool.System.{
  System, Worker, newcomer, ManagerPc, checking, asleep, sampled, measured, grown, stopped, spawn,
  manage,
}
use network_communications.ThreadPool.Invariant.{Inv, AllNamed, busy, active, present, held, owns}
use network_communications.ThreadPool.Invariant.Others.{Quiet, Quiet-Inv, still-Inv}

-- New threads, all at their start.
pub sum_by-newcomer :
    (weight : Worker → ℕ) (k : ℕ)
    → ((t : ℕ) → weight (newcomer t) ≡ k)
    → (new : List ℕ) → sum_by weight (map newcomer new) ≡ k * length new
unfolding sum_by
sum_by-newcomer weight k h [] = omega arith
sum_by-newcomer weight k h (t ∷ new) = omega (arith, h t, sum_by-newcomer weight k h new)

pub owns-newcomer :
    (t : ℕ) (new : List ℕ) → sum_by (owns t) (map newcomer new) ≡ sum_by (is_id t) new
unfolding sum_by
owns-newcomer t [] = refl
owns-newcomer t (x ∷ new) = omega (arith, owns-newcomer t new)

pub named-newcomer : (new : List ℕ) → sum_by free new ≡ 0 → AllNamed (map newcomer new)
unfolding sum_by
named-newcomer [] h i w e = cc
named-newcomer (x ∷ new) h zero w e = ground arith
named-newcomer (x ∷ new) h (suc i) w e = named-newcomer new (omega arith) i w e

named-append : (xs ys : List Worker) → AllNamed xs → AllNamed ys → AllNamed (xs ++ ys)
named-append [] ys hx hy i w e = hy i w e
named-append (x ∷ xs) ys hx hy zero w e = hx 0 w e
named-append (x ∷ xs) ys hx hy (suc i) w e = named-append xs ys (λ j v f. hx (suc j) v f) hy i w e

spawn-Inv :
    {s : System} (inv : Inv s) (fresh : ℕ → ℕ) (m : ManagerPc)
    → ((i : ℕ) → fresh i ≢ 0)
    → Inv (record (spawn s (grow s.pool fresh)) { manager = m })
unfolding spawn grow
spawn-Inv {s} inv fresh m nz = record {
  queue = inv.queue;
  represents =
      Represents-other s.pool inv.queue (grow s.pool fresh).0.thread_ids s.pool.busy_num
        (s.pool.live_num + length new) s.pool.exit_num s.pool.shutdown inv.represents;
  history = inv.history;
  busy_count = omega (
    arith,
    inv.busy_count,
    sum_by-append busy s.workers (map newcomer new),
    sum_by-newcomer busy 0 (λ t. refl) new,
  );
  min_live = omega (arith, inv.min_live);
  live_max = omega (arith, inv.live_max, g.as_many);
  active_le = omega (
    arith,
    inv.active_le,
    sum_by-append active s.workers (map newcomer new),
    sum_by-newcomer active 1 (λ t. refl) new,
  );
  active_count = λ o. omega (
    arith,
    inv.active_count o,
    sum_by-append active s.workers (map newcomer new),
    sum_by-newcomer active 1 (λ t. refl) new,
  );
  slots = g.same_length ∙ inv.slots;
  slot_count = omega (
    arith,
    g.filled,
    inv.slot_count,
    sum_by-append present s.workers (map newcomer new),
    sum_by-newcomer present 1 (λ t. refl) new,
  );
  owned = λ t h. omega (
    arith,
    g.owners t h,
    inv.owned t h,
    sum_by-append (owns t) s.workers (map newcomer new),
    owns-newcomer t new,
  );
  named = named-append s.workers (map newcomer new) inv.named (named-newcomer new g.no_zero);
  finished = λ f. omega (
    arith,
    inv.finished f,
    sum_by-append (held f) s.workers (map newcomer new),
    sum_by-newcomer (held f) 0 (λ t. refl) new,
  );
}
  where
    new : List ℕ
    new = (grow s.pool fresh).1

    g :
        Grows s.pool.max_num 0 s.pool.live_num s.pool.thread_ids
          (grow s.pool fresh).0.thread_ids
          new
    g = (grow-Grows s.pool fresh nz).0

shrink-Quiet : (p : Pool) (q : List Task) → Represents p q → Quiet p (shrink p) q
unfolding shrink
shrink-Quiet p q r = record {
  represents = Represents-other p q p.thread_ids p.busy_num p.live_num number p.shutdown r;
  busy_num = refl;
  live_num = refl;
  min_num = refl;
  max_num = refl;
  thread_ids = refl;
  not_opened = λ o. o;
}

pub manage-Inv :
    {s : System} (inv : Inv s) (fresh : ℕ → ℕ) (m : ManagerPc)
    → ((i : ℕ) → fresh i ≢ 0)
    → Inv (manage s fresh m)
unfolding manage
manage-Inv {s} inv fresh checking nz = still-Inv inv s.callers _ s.destroyer
manage-Inv {s} inv fresh asleep nz = still-Inv inv s.callers _ s.destroyer
manage-Inv {s} inv fresh (sampled q l) nz = still-Inv inv s.callers _ s.destroyer
manage-Inv {s} inv fresh (measured q l b) nz = elim (Bool-cases (wants_more s.pool q l)) [
  | inl more ↦ rw more (spawn-Inv inv fresh (grown l b) nz)
  | inr enough ↦ rw enough (still-Inv inv s.callers (grown l b) s.destroyer)
]
manage-Inv {s} inv fresh (grown l b) nz = elim (Bool-cases (wants_fewer s.pool l b)) [
  | inl fewer ↦ rw fewer (
      Quiet-Inv inv (shrink s.pool) inv.queue s.added s.callers checking s.destroyer inv.history
        (shrink-Quiet s.pool inv.queue inv.represents))
  | inr enough ↦ rw enough (still-Inv inv s.callers checking s.destroyer)
]
manage-Inv {s} inv fresh stopped nz = inv
