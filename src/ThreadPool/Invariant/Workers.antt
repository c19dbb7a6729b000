-- ===== src/ThreadPool/Invariant/Workers.antt =====
-- A step of one worker keeps the invariant of the thread pool.
use network_communications.Prelude.{
  ℕ, ◌+◌, ◌-◌, ◌≤◌, [], ◌∷◌, ◌++◌, some, ◌≡◌, ◌≢◌, refl, ◌∙◌, arith, get_elem?, sum_by, le-sum_by,
  sum_by-append, ℕ_discrete,
}
use network_communications.ThreadPool.{
  Task, enter, wake, begin_work, end_work, thread_exit, clear_id,
}
use network_communications.ThreadPool.Queue.{Represents-other}
use network_communications.ThreadPool.Slots.{is_id, Clears, clear_id-Clears}
use network_communications.ThreadPool.System.{
  System, WorkerPc, start, waiting, holding, running, ran, exiting, gone, faulted, work,
}
use network_communications.ThreadPool.Invariant.{Inv, busy, owns}
use network_communications.ThreadPool.Invariant.Settle.{enter-Settled, wake-Settled}
use network_communications.ThreadPool.Invariant.Moves.{Local-Inv, settle-Inv}

begin-Inv :
    {s : System} (inv : Inv s) (i tid : ℕ) (t : Task)
    → get_elem? s.workers i ≡ some (record { tid = tid; pc = holding t })
    → Inv (work s i tid (holding t))
unfolding work begin_work
begin-Inv {s} inv i tid t e =
    Local-Inv inv i tid (holding t) (running t) e (begin_work s.pool) s.taken s.executed (record {
      queue = inv.queue;
      represents =
          Represents-other s.pool inv.queue s.pool.thread_ids (s.pool.busy_num + 1) s.pool.live_num
            s.pool.exit_num s.pool.shutdown inv.represents;
      history = inv.history;
      busy_step = omega arith;
      min_live = inv.min_live;
      live_max = inv.live_max;
      active_le = omega arith;
      active_step = λ o. (o, refl);
      slots = inv.slots;
      slot_step = refl;
      owned_step = λ u nz. refl;
      finished_step = λ f. refl;
    })

run-Inv :
    {s : System} (inv : Inv s) (i tid : ℕ) (t : Task)
    → get_elem? s.workers i ≡ some (record { tid = tid; pc = running t })
    → Inv (work s i tid (running t))
unfolding work sum_by
run-Inv {s} inv i tid t e =
    Local-Inv inv i tid (running t) ran e s.pool s.taken (s.executed ++ t ∷ []) (record {
      queue = inv.queue;
      represents = inv.represents;
      history = inv.history;
      busy_step = refl;
      min_live = inv.min_live;
      live_max = inv.live_max;
      active_le = omega arith;
      active_step = λ o. (o, refl);
      slots = inv.slots;
      slot_step = refl;
      owned_step = λ u nz. refl;
      finished_step = λ f. omega (arith, sum_by-append f s.executed (t ∷ []));
    })

end-Inv :
    {s : System} (inv : Inv s) (i tid : ℕ)
    → get_elem? s.workers i ≡ some (record { tid = tid; pc = ran })
    → Inv (work s i tid ran)
unfolding work end_work
end-Inv {s} inv i tid e =
    Local-Inv inv i tid ran start e (end_work s.pool) s.taken s.executed (record {
      queue = inv.queue;
      represents =
          Represents-other s.pool inv.queue s.pool.thread_ids (s.pool.busy_num - 1) s.pool.live_num
            s.pool.exit_num s.pool.shutdown inv.represents;
      history = inv.history;
      busy_step = omega (arith, inv.busy_count, le-sum_by busy s.workers i _ e);
      min_live = inv.min_live;
      live_max = inv.live_max;
      active_le = omega arith;
      active_step = λ o. (o, refl);
      slots = inv.slots;
      slot_step = refl;
      owned_step = λ u nz. refl;
      finished_step = λ f. refl;
    })

is_id_self : (t : ℕ) → is_id t t ≡ 1
is_id_self t = ground arith

is_id_ne : (t x : ℕ) → t ≢ x → is_id t x ≡ 0
is_id_ne t x h = ground arith

exit-Inv :
    {s : System} (inv : Inv s) (i tid : ℕ)
    → get_elem? s.workers i ≡ some (record { tid = tid; pc = exiting })
    → Inv (work s i tid exiting)
unfolding work thread_exit
exit-Inv {s} inv i tid e =
    Local-Inv inv i tid exiting gone e (thread_exit s.pool tid) s.taken s.executed (record {
      queue = inv.queue;
      represents =
          Represents-other s.pool inv.queue (clear_id s.pool.thread_ids tid) s.pool.busy_num
            s.pool.live_num s.pool.exit_num s.pool.shutdown inv.represents;
      history = inv.history;
      busy_step = refl;
      min_live = inv.min_live;
      live_max = inv.live_max;
      active_le = omega arith;
      active_step = λ o. (o, refl);
      slots = clears.same_length ∙ inv.slots;
      slot_step = omega (arith, clears.one_less);
      owned_step = λ t nz. elim (ℕ_discrete t tid) [
        | yes same ↦ rw same (omega (arith, clears.own, is_id_self tid))
        | no other ↦ omega (arith, clears.others t nz other, is_id_ne t tid other)
      ];
      finished_step = λ f. refl;
    })
  where
    named : tid ≢ 0
    named = inv.named i _ e

    owner : 1 ≤ sum_by (owns tid) s.workers
    owner = omega (arith, le-sum_by (owns tid) s.workers i _ e, is_id_self tid)

    clears : Clears tid s.pool.thread_ids (clear_id s.pool.thread_ids tid)
    clears = clear_id-Clears tid s.pool.thread_ids named (omega (arith, inv.owned tid named, owner))

-- A step of a worker keeps the invariant.
pub work-Inv :
    {s : System} (inv : Inv s) (i tid : ℕ) (pc : WorkerPc)
    → get_elem? s.workers i ≡ some (record { tid = tid; pc = pc })
    → Inv (work s i tid pc)
unfolding work
work-Inv {s} inv i tid start e =
    settle-Inv inv i tid start e (refl, refl, refl, λ f. refl) (enter s.pool)
      (enter-Settled s.pool inv.queue inv.represents)
work-Inv {s} inv i tid waiting e =
    settle-Inv inv i tid waiting e (refl, refl, refl, λ f. refl) (wake s.pool)
      (wake-Settled s.pool inv.queue inv.represents)
work-Inv inv i tid (holding t) e = begin-Inv inv i tid t e
work-Inv inv i tid (running t) e = run-Inv inv i tid t e
work-Inv inv i tid ran e = end-Inv inv i tid e
work-Inv inv i tid exiting e = exit-Inv inv i tid e
work-Inv inv i tid gone e = inv
work-Inv inv i tid faulted e = inv
