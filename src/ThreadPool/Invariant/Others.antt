-- ===== src/ThreadPool/Invariant/Others.antt =====
-- The steps of the callers of `threadPoolAdd` and of `threadPoolDestroy` keep the
-- invariant of the thread pool.
use network_communications.Prelude.{
  ℕ, true, false, List, [], ◌∷◌, ◌++◌, ◌≡◌, refl, sym, ap, subst, ◌∙◌, arith, length, set, sum_by,
  append_assoc,
}
use network_communications.ThreadPool.{Task, Pool, Added, full, refused, queued, add, shut}
use network_communications.ThreadPool.Queue.{
  Represents, Represents-other, Adds, add-Adds, add-keeps,
}
use network_communications.ThreadPool.Slots.{used, is_id}
use network_communications.ThreadPool.System.{
  System, CallerPc, ManagerPc, checking, asleep, sampled, measured, grown, stopped, DestroyPc, idle,
  joining, signalling, freed, offered, offer, destroy,
}
use network_communications.ThreadPool.Invariant.{Inv}

-- A step that changes neither the workers nor what the pool counts and holds.
pub record Quiet (p p' : Pool) (q : List Task) : Type 0 where
  pub represents : Represents p' q
  pub busy_num : p'.busy_num ≡ p.busy_num
  pub live_num : p'.live_num ≡ p.live_num
  pub min_num : p'.min_num ≡ p.min_num
  pub max_num : p'.max_num ≡ p.max_num
  pub thread_ids : p'.thread_ids ≡ p.thread_ids
  pub not_opened : p'.shutdown ≡ false → p.shutdown ≡ false

pub Quiet-Inv :
    {s : System} (inv : Inv s) (p' : Pool) (q added : List Task) (callers : List CallerPc)
    (m : ManagerPc) (d : DestroyPc)
    → added ≡ s.taken ++ q
    → Quiet s.pool p' q
    → Inv (record s { pool = p'; added = added; callers = callers; manager = m; destroyer = d })
Quiet-Inv {s} inv p' q added callers m d h k = record {
  queue = q;
  represents = k.represents;
  history = h;
  busy_count = k.busy_num ∙ inv.busy_count;
  min_live = omega (arith, k.min_num, k.live_num, inv.min_live);
  live_max = omega (arith, k.max_num, k.live_num, inv.live_max);
  active_le = omega (arith, k.live_num, inv.active_le);
  active_count = λ o. inv.active_count (k.not_opened o) ∙ sym k.live_num;
  slots = ap length k.thread_ids ∙ inv.slots ∙ sym k.max_num;
  slot_count = ap (sum_by used) k.thread_ids ∙ inv.slot_count;
  owned = λ t nz. ap (sum_by (is_id t)) k.thread_ids ∙ inv.owned t nz;
  named = inv.named;
  finished = inv.finished;
}

Quiet-refl : {p : Pool} {q : List Task} → Represents p q → Quiet p p q
Quiet-refl r = record {
  represents = r;
  busy_num = refl;
  live_num = refl;
  min_num = refl;
  max_num = refl;
  thread_ids = refl;
  not_opened = λ o. o;
}

-- The same, where only positions change.
pub still-Inv :
    {s : System} (inv : Inv s) (callers : List CallerPc) (m : ManagerPc) (d : DestroyPc)
    → Inv (record s { callers = callers; manager = m; destroyer = d })
still-Inv {s} inv callers m d =
    Quiet-Inv inv s.pool inv.queue s.added callers m d inv.history (Quiet-refl inv.represents)

pub destroy-Inv : {s : System} (inv : Inv s) (d : DestroyPc) (m : ManagerPc) → Inv (destroy s d m)
unfolding destroy shut
destroy-Inv {s} inv idle m =
    Quiet-Inv inv (shut s.pool) inv.queue s.added s.callers s.manager joining inv.history (record {
      represents =
          Represents-other s.pool inv.queue s.pool.thread_ids s.pool.busy_num s.pool.live_num
            s.pool.exit_num true inv.represents;
      busy_num = refl;
      live_num = refl;
      min_num = refl;
      max_num = refl;
      thread_ids = refl;
      not_opened = λ o. cc;
    })
destroy-Inv {s} inv joining stopped = still-Inv inv s.callers s.manager signalling
destroy-Inv {s} inv joining checking = inv
destroy-Inv {s} inv joining asleep = inv
destroy-Inv {s} inv joining (sampled _ _) = inv
destroy-Inv {s} inv joining (measured _ _ _) = inv
destroy-Inv {s} inv joining (grown _ _) = inv
destroy-Inv {s} inv signalling m = still-Inv inv s.callers s.manager freed
destroy-Inv {s} inv freed m = inv

-- What `add` leaves alone.
abbrev Kept : Pool → Pool → Type 0
Kept p p' =
    (p'.busy_num ≡ p.busy_num)
    × (p'.live_num ≡ p.live_num)
    × (p'.min_num ≡ p.min_num)
    × (p'.max_num ≡ p.max_num)
    × (p'.thread_ids ≡ p.thread_ids)
    × (p'.shutdown ≡ p.shutdown)

Kept-Quiet : {p p' : Pool} {q : List Task} → Represents p' q → Kept p p' → Quiet p p' q
Kept-Quiet r k = record {
  represents = r;
  busy_num = k.0;
  live_num = k.1;
  min_num = k.2;
  max_num = k.3;
  thread_ids = k.4;
  not_opened = λ o. sym k.5 ∙ o;
}

offered-Inv :
    {s : System} (inv : Inv s) (j : ℕ) (t : Task) (r : Added × Pool)
    → Adds s.pool inv.queue t r
    → Kept s.pool r.1
    → Inv (offered s j t r)
unfolding offered
offered-Inv {s} inv j t (full, p') a k =
    Quiet-Inv inv p' inv.queue s.added s.callers s.manager s.destroyer inv.history
      (Kept-Quiet (subst (λ x. Represents x inv.queue) (sym a.0) inv.represents) k)
offered-Inv {s} inv j t (refused, p') a k =
    Quiet-Inv inv p' inv.queue s.added (set s.callers j CallerPc.returned) s.manager s.destroyer
      inv.history (Kept-Quiet (subst (λ x. Represents x inv.queue) (sym a.0) inv.represents) k)
offered-Inv {s} inv j t (queued, p') a k =
    Quiet-Inv inv p' (inv.queue ++ t ∷ []) (s.added ++ t ∷ []) (set s.callers j CallerPc.returned)
      s.manager s.destroyer
      (ap (λ xs. xs ++ t ∷ []) inv.history ∙ append_assoc s.taken inv.queue (t ∷ []))
      (Kept-Quiet a.0 k)

pub offer-Inv : {s : System} (inv : Inv s) (j : ℕ) (t : Task) → Inv (offer s j t)
unfolding offer
offer-Inv {s} inv j t =
    offered-Inv inv j t (add s.pool t) (add-Adds s.pool inv.queue t inv.represents)
      (add-keeps s.pool t)
