-- ===== src/CppPool/Invariant.antt =====
-- What holds of the pool of Thread/ThreadPool/threadPoolC++ at every moment.
pub mod Steps
pub mod Others
use network_communications.Prelude.{
  ℕ, zero, suc, ◌+◌, ◌-◌, ◌≤◌, ◌<◌, Bool, true, false, not, List, [], ◌∷◌, ◌++◌, some, ◌≡◌, ◌≢◌,
  ◌⊎◌, inl, inr, refl, sym, ap, subst, ◌∙◌, arith, length, get_elem?, set, sum_by, sum_by-set,
  others_zero, set-each,
}
use network_communications.CppPool.{
  Pc, locking, testing, waiting, sleeping, deciding, taking, running, finishing, leaving, gone,
  faulted, Worker, System,
}

-- With the mutex held.
abbrev pub inside_pc : Pc → ℕ
inside_pc testing = 1
inside_pc waiting = 1
inside_pc deciding = 1
inside_pc taking = 1
inside_pc _ = 0

-- What `busyNum` counts.
abbrev pub busy_pc : Pc → ℕ
busy_pc (running t) = 1
busy_pc finishing = 1
busy_pc faulted = 1
busy_pc _ = 0

-- What `liveNum` counts.
abbrev pub alive_pc : Pc → ℕ
alive_pc leaving = 0
alive_pc gone = 0
alive_pc _ = 1

-- The task that a worker holds.
abbrev pub holding_pc : (ℕ → ℕ) → Pc → ℕ
holding_pc f (running t) = f t
holding_pc f _ = 0

abbrev pub inside : Worker → ℕ
inside w = inside_pc w.pc

abbrev pub busy : Worker → ℕ
busy w = busy_pc w.pc

abbrev pub alive : Worker → ℕ
alive w = alive_pc w.pc

abbrev pub holding : (ℕ → ℕ) → Worker → ℕ
holding f w = holding_pc f w.pc

-- What a worker knows of the queue and of `shutdown`.
abbrev pub Knows : List ℕ → Bool → Pc → Type 0
Knows q shutdown deciding = (0 < length q) ⊎ (shutdown ≡ true)
Knows q shutdown taking = 0 < length q
Knows q shutdown faulted = ⊥
Knows q shutdown _ = Unit

abbrev pub bit : Bool → ℕ
bit true = 1
bit false = 0

pub record Inv (s : System) : Type 0 where
  pub lock : bit s.locked ≡ sum_by inside s.workers
  pub busy_count : s.busy_num ≡ sum_by busy s.workers
  pub live_count : s.shutdown ≡ false → s.live_num ≡ sum_by alive s.workers
  pub least : s.min_num ≤ s.live_num
  pub most : s.live_num ≤ s.max_num
  pub order : s.pushed ≡ s.taken ++ s.task_q
  pub tasks : (f : ℕ → ℕ) → sum_by f s.taken ≡ sum_by f s.executed + sum_by (holding f) s.workers
  pub known : (i : ℕ) (w : Worker) → get_elem? s.workers i ≡ some w → Knows s.task_q s.shutdown w.pc

-- Outside the mutex a worker knows nothing that could change.
pub outside-Knows :
    (q q' : List ℕ) (b b' : Bool) (pc : Pc) → inside_pc pc ≡ 0 → Knows q b pc → Knows q' b' pc
outside-Knows q q' b b' locking e h = tt
outside-Knows q q' b b' testing e h = tt
outside-Knows q q' b b' waiting e h = tt
outside-Knows q q' b b' sleeping e h = tt
outside-Knows q q' b b' deciding e h = absurd (omega arith)
outside-Knows q q' b b' taking e h = absurd (omega arith)
outside-Knows q q' b b' (running t) e h = tt
outside-Knows q q' b b' finishing e h = tt
outside-Knows q q' b b' leaving e h = tt
outside-Knows q q' b b' gone e h = tt
outside-Knows q q' b b' faulted e h = h

pub bit_le : (b : Bool) → bit b ≤ 1
bit_le true = omega arith
bit_le false = omega arith

-- What a step of a worker from `pc` to `pc'` has to answer for.
pub record Local (s : System) (pc pc' : Pc) (t : System) : Type 0 where
  pub lock_step : bit t.locked + inside_pc pc ≡ bit s.locked + inside_pc pc'
  pub busy_step : t.busy_num + busy_pc pc ≡ s.busy_num + busy_pc pc'
  pub live_step : s.shutdown ≡ false → t.live_num + alive_pc pc ≡ s.live_num + alive_pc pc'
  pub least_step : t.min_num ≤ t.live_num
  pub most_step : t.live_num ≤ t.max_num
  pub order_step : t.pushed ≡ t.taken ++ t.task_q
  pub tasks_step :
      (f : ℕ → ℕ)
      → sum_by f t.taken + sum_by f s.executed + holding_pc f pc
        ≡ sum_by f s.taken + sum_by f t.executed + holding_pc f pc'
  pub same_shutdown : t.shutdown ≡ s.shutdown
  pub own : Knows t.task_q t.shutdown pc'
  pub others : (t.task_q ≡ s.task_q) ⊎ (inside_pc pc ≡ 1)

module _ {s : System} (inv : Inv s) (i : ℕ) (w w' : Worker) (e : get_elem? s.workers i ≡ some w)
    (t : System) (moved : t.workers ≡ set s.workers i w') (l : Local s w.pc w'.pc t) where
  changed : (f : Worker → ℕ) → sum_by f t.workers + f w ≡ sum_by f s.workers + f w'
  changed f = rw moved (sum_by-set f s.workers i w w' e)

  other-Knows :
      (j : ℕ) (v : Worker) → i ≢ j → get_elem? s.workers j ≡ some v → Knows t.task_q t.shutdown v.pc
  other-Knows j v ne f = elim l.others [
    | inl same ↦
        subst (λ q. Knows q t.shutdown v.pc) (sym same)
          (subst (λ b. Knows s.task_q b v.pc) (sym l.same_shutdown) (inv.known j v f))
    | inr holds ↦
        outside-Knows s.task_q t.task_q s.shutdown t.shutdown v.pc
          (others_zero inside s.workers i j w v e f ne holds
            (omega (arith, inv.lock, bit_le s.locked)))
          (inv.known j v f)
  ]

  pub Local-Inv : Inv t
  Local-Inv = record {
    lock = omega (arith, inv.lock, changed inside, l.lock_step);
    busy_count = omega (arith, inv.busy_count, changed busy, l.busy_step);
    live_count = λ h.
        let up = sym l.same_shutdown ∙ h in
        omega (arith, inv.live_count up, changed alive, l.live_step up);
    least = l.least_step;
    most = l.most_step;
    order = l.order_step;
    tasks = λ f. omega (arith, inv.tasks f, changed (holding f), l.tasks_step f);
    known = λ j v f.
        set-each (λ x. Knows t.task_q t.shutdown x.pc) s.workers i w w' e l.own other-Knows j v
          (ap (λ ts. get_elem? ts j) (sym moved) ∙ f);
  }
