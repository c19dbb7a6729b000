-- ===== src/CppPool/Invariant/Steps.antt =====
-- Each step of Thread/ThreadPool/threadPoolC++ keeps the invariant.
use network_communications.Prelude.{
  ℕ, ◌+◌, ◌<◌, Bool, true, false, not, List, [], ◌∷◌, ◌++◌, some, ◌≡◌, ◌⊎◌, inl, inr, refl, sym, ap,
  ◌∙◌, arith, length, get_elem?, set, ltb, sum_by, sum_by-append, le-sum_by, Bool-cases,
  append_assoc, lt_of_ltb,
}
use network_communications.CppPool.{
  Pc, locking, testing, waiting, sleeping, deciding, taking, running, finishing, leaving, gone,
  faulted, Worker, System, enabled, woken, take_first, take_task, nothing_to_do, advance,
}
use network_communications.CppPool.Invariant.{
  Inv, inside, inside_pc, busy, busy_pc, alive_pc, holding_pc, Knows, bit, bit_le, Local-Inv,
}

not_locked : (b : Bool) → not b ≡ true → bit b ≡ 0
not_locked b h = ground arith

module _ {s : System} (inv : Inv s) (i tid : ℕ) where
  at : Pc → Worker
  at pc = record { tid = tid; pc = pc }

  -- A step that leaves the tasks and the number of live threads.
  quiet-Inv :
      (pc pc' : Pc) (t : System)
      → get_elem? s.workers i ≡ some (record { tid = tid; pc = pc })
      → t.workers ≡ set s.workers i (record { tid = tid; pc = pc' })
      → t.task_q ≡ s.task_q
      → t.shutdown ≡ s.shutdown
      → (t.pushed ≡ s.pushed) × (t.taken ≡ s.taken) × (t.executed ≡ s.executed)
      → (t.min_num ≡ s.min_num) × (t.max_num ≡ s.max_num) × (t.live_num ≡ s.live_num)
      → bit t.locked + inside_pc pc ≡ bit s.locked + inside_pc pc'
      → t.busy_num + busy_pc pc ≡ s.busy_num + busy_pc pc'
      → (s.shutdown ≡ false → alive_pc pc ≡ alive_pc pc')
      → ((f : ℕ → ℕ) → holding_pc f pc ≡ holding_pc f pc')
      → Knows t.task_q t.shutdown pc'
      → Inv t
  quiet-Inv pc pc' t e moved queue shut (pushed, taken, executed) (low, high, live) lock busy_same
        alive_same held own =
      Local-Inv inv i (record { tid = tid; pc = pc }) (record { tid = tid; pc = pc' }) e t moved
        (record {
          lock_step = lock;
          busy_step = busy_same;
          live_step = λ h. omega (arith, live, alive_same h);
          least_step = omega (arith, inv.least, low, live);
          most_step = omega (arith, inv.most, high, live);
          order_step = pushed ∙ inv.order ∙ simp (taken, queue);
          tasks_step = λ f. omega (arith, ap (sum_by f) taken, ap (sum_by f) executed, held f);
          same_shutdown = shut;
          own = own;
          others = inl queue;
        })

  -- A worker with the mutex finds it locked.
  held : {w : Worker} → get_elem? s.workers i ≡ some w → inside w ≡ 1 → 1 ≡ bit s.locked
  held {w} e h = omega (arith, inv.lock, bit_le s.locked, le-sum_by inside s.workers i w e)

  something : nothing_to_do s ≡ false → (0 < length s.task_q) ⊎ (s.shutdown ≡ true)
  unfolding nothing_to_do
  something h = ground arith

  take_task-Inv :
      (t : ℕ) (rest : List ℕ)
      → get_elem? s.workers i ≡ some (record { tid = tid; pc = taking })
      → s.task_q ≡ t ∷ rest
      → Inv (take_task s i tid)
  unfolding take_task sum_by
  take_task-Inv t rest e queue =
      rw (queue, take_task)
        (Local-Inv inv i (record { tid = tid; pc = taking }) (record { tid = tid; pc = running t })
          e _ refl
          (record {
            lock_step = omega (arith, held e refl);
            busy_step = omega arith;
            live_step = λ h. refl;
            least_step = inv.least;
            most_step = inv.most;
            order_step =
                inv.order
                ∙ ap (λ q. s.taken ++ q) queue
                ∙ sym (append_assoc s.taken (t ∷ []) rest)
                ∙ ap (λ q. (s.taken ++ t ∷ []) ++ (take_first q).1) (sym queue);
            tasks_step = λ f. omega (arith, sum_by-append f s.taken (t ∷ []));
            same_shutdown = refl;
            own = tt;
            others = inr refl;
          }))

  woken-Inv :
      get_elem? s.workers i ≡ some (record { tid = tid; pc = sleeping })
      → bit s.locked ≡ 0
      → Inv (woken s i tid)
  unfolding woken
  woken-Inv e open_lock = elim (Bool-cases (ltb 0 s.exit_num)) [
    | inl some_end ↦ elim (Bool-cases (ltb s.min_num s.live_num)) [
      | inl more ↦
          rw (some_end, woken, more)
            (Local-Inv inv i (record { tid = tid; pc = sleeping })
              (record { tid = tid; pc = leaving }) e _ refl
              (record {
                lock_step = refl;
                busy_step = refl;
                live_step = λ h. omega (arith, lt_of_ltb s.min_num s.live_num more);
                least_step = omega (arith, lt_of_ltb s.min_num s.live_num more);
                most_step = omega (arith, inv.most);
                order_step = inv.order;
                tasks_step = λ f. refl;
                same_shutdown = refl;
                own = tt;
                others = inl refl;
              }))
      | inr enough ↦
          rw (some_end, woken, enough)
            (quiet-Inv sleeping testing _ e refl refl refl (refl, refl, refl) (refl, refl, refl)
              (omega (arith, open_lock)) refl (λ h. refl) (λ f. refl) tt)
    ]
    | inr none_ends ↦
        rw (none_ends, woken)
          (quiet-Inv sleeping testing _ e refl refl refl (refl, refl, refl) (refl, refl, refl)
            (omega (arith, open_lock)) refl (λ h. refl) (λ f. refl) tt)
  ]

  first_of : (q : List ℕ) → 0 < length q → (t : ℕ) × (rest : List ℕ) × (q ≡ t ∷ rest)
  first_of [] h = absurd (omega arith)
  first_of (t ∷ rest) h = (t, rest, refl)

  still : (0 < length s.task_q) ⊎ (s.shutdown ≡ true) → s.shutdown ≡ false → 0 < length s.task_q
  still (inl some_task) up = some_task
  still (inr down) up = absurd (let f = sym down ∙ up in cc)

  run-Inv :
      (t : ℕ)
      → get_elem? s.workers i ≡ some (record { tid = tid; pc = running t })
      → Inv (advance s i tid (running t))
  unfolding advance sum_by
  run-Inv t e =
      Local-Inv inv i (record { tid = tid; pc = running t }) (record { tid = tid; pc = finishing })
        e _ refl
        (record {
          lock_step = refl;
          busy_step = refl;
          live_step = λ h. refl;
          least_step = inv.least;
          most_step = inv.most;
          order_step = inv.order;
          tasks_step = λ f. omega (arith, sum_by-append f s.executed (t ∷ []));
          same_shutdown = refl;
          own = tt;
          others = inl refl;
        })

  pub advance-Inv :
      (pc : Pc)
      → get_elem? s.workers i ≡ some (record { tid = tid; pc = pc })
      → enabled s pc ≡ true
      → Inv (advance s i tid pc)
  unfolding advance enabled
  advance-Inv locking e h =
      let open_lock = not_locked s.locked h in
      quiet-Inv locking testing _ e refl refl refl (refl, refl, refl) (refl, refl, refl)
        (omega (arith, open_lock)) refl (λ g. refl) (λ f. refl) tt
  advance-Inv testing e h = elim (Bool-cases (nothing_to_do s)) [
    | inl idle ↦
        rw (idle, advance)
          (quiet-Inv testing waiting _ e refl refl refl (refl, refl, refl) (refl, refl, refl) refl
            refl (λ g. refl) (λ f. refl) tt)
    | inr work ↦
        rw (work, advance)
          (quiet-Inv testing deciding _ e refl refl refl (refl, refl, refl) (refl, refl, refl) refl
            refl (λ g. refl) (λ f. refl) (something work))
  ]
  advance-Inv waiting e h =
      quiet-Inv waiting sleeping _ e refl refl refl (refl, refl, refl) (refl, refl, refl)
        (omega (arith, held e refl)) refl (λ g. refl) (λ f. refl) tt
  advance-Inv sleeping e h = woken-Inv e (not_locked s.locked h)
  advance-Inv deciding e h = elim (Bool-cases s.shutdown) [
    | inl down ↦
        rw (down, advance)
          (quiet-Inv deciding leaving _ e refl refl (sym down) (refl, refl, refl) (refl, refl, refl)
            (omega (arith, held e refl)) refl (λ g. absurd (let f = sym down ∙ g in cc)) (λ f. refl)
            tt)
    | inr up ↦
        rw (up, advance)
          (quiet-Inv deciding taking _ e refl refl (sym up) (refl, refl, refl) (refl, refl, refl)
            refl refl (λ g. refl) (λ f. refl)
            (still (inv.known i (record { tid = tid; pc = deciding }) e) up))
  ]
  advance-Inv taking e h =
      let (t, rest, queue) =
        first_of s.task_q (inv.known i (record { tid = tid; pc = taking }) e) in
      take_task-Inv t rest e queue
  advance-Inv (running t) e h = run-Inv t e
  advance-Inv finishing e h =
      quiet-Inv finishing locking _ e refl refl refl (refl, refl, refl) (refl, refl, refl) refl
        (omega (
          arith,
          inv.busy_count,
          le-sum_by busy s.workers i (record { tid = tid; pc = finishing }) e,
        ))
        (λ g. refl) (λ f. refl) tt
  advance-Inv leaving e h =
      quiet-Inv leaving gone _ e refl refl refl (refl, refl, refl) (refl, refl, refl) refl refl
        (λ g. refl) (λ f. refl) tt
  advance-Inv gone e h = inv
  advance-Inv faulted e h = inv
