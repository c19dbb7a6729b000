-- ===== src/ThreadPool/Limits.antt =====
-- `maxNum` of a pool of Thread/ThreadPool/threadPool.c stays what it was.
use network_communications.Prelude.{ℕ, ◌-◌, ◌≡◌, refl, ◌∙◌, arith}
use network_communications.ThreadPool.{
  Task, Pool, Added, full, refused, queued, add, Turn, wait, exit, got, stray, enter, wake,
  begin_work, end_work, thread_exit, grow, shrink, shut,
}
use network_communications.ThreadPool.System.{
  WorkerPc, start, waiting, holding, running, ran, exiting, gone, faulted, System, settle, work,
  offered, offer, ManagerPc, checking, asleep, sampled, measured, grown, stopped, manage, DestroyPc,
  idle, joining, signalling, freed, destroy, works, calls, offers, manages, destroys, Reach, here,
  next,
}
use network_communications.ThreadPool.Invariant.Settle.{enter-Same}

settle-max :
    (s : System) (i tid : ℕ) (r : Turn × Pool)
    → r.1.max_num ≡ s.pool.max_num
    → (settle s i tid r).pool.max_num ≡ s.pool.max_num
unfolding settle
settle-max s i tid (wait, p) h = h
settle-max s i tid (exit, p) h = h
settle-max s i tid (got t, p) h = h
settle-max s i tid (stray, p) h = h

enter-max : (p : Pool) → (enter p).1.max_num ≡ p.max_num
enter-max p = (enter-Same p).0.2

wake-max : (p : Pool) → (wake p).1.max_num ≡ p.max_num
unfolding wake
wake-max p = ground (arith, enter-max p, enter-max (record p { exit_num = p.exit_num - 1 }))

work-max :
    (s : System) (i tid : ℕ) (pc : WorkerPc) → (work s i tid pc).pool.max_num ≡ s.pool.max_num
unfolding work begin_work end_work thread_exit
work-max s i tid start = settle-max s i tid (enter s.pool) (enter-max s.pool)
work-max s i tid waiting = settle-max s i tid (wake s.pool) (wake-max s.pool)
work-max s i tid (holding t) = refl
work-max s i tid (running t) = refl
work-max s i tid ran = refl
work-max s i tid exiting = refl
work-max s i tid gone = refl
work-max s i tid faulted = refl

offered-max :
    (s : System) (j : ℕ) (t : Task) (r : Added × Pool)
    → r.1.max_num ≡ s.pool.max_num
    → (offered s j t r).pool.max_num ≡ s.pool.max_num
unfolding offered
offered-max s j t (full, p) h = h
offered-max s j t (refused, p) h = h
offered-max s j t (queued, p) h = h

add-max : (p : Pool) (t : Task) → (add p t).1.max_num ≡ p.max_num
unfolding add
add-max p t = ground arith

manage-max :
    (s : System) (fresh : ℕ → ℕ) (m : ManagerPc) → (manage s fresh m).pool.max_num ≡ s.pool.max_num
unfolding manage grow shrink
manage-max s fresh checking = refl
manage-max s fresh asleep = refl
manage-max s fresh (sampled q l) = refl
manage-max s fresh (measured q l b) = ground arith
manage-max s fresh (grown l b) = ground arith
manage-max s fresh stopped = refl

destroy-max :
    (s : System) (d : DestroyPc) (m : ManagerPc) → (destroy s d m).pool.max_num ≡ s.pool.max_num
unfolding destroy shut
destroy-max s idle m = refl
destroy-max s joining stopped = refl
destroy-max s joining checking = refl
destroy-max s joining asleep = refl
destroy-max s joining (sampled q l) = refl
destroy-max s joining (measured q l b) = refl
destroy-max s joining (grown l b) = refl
destroy-max s signalling m = refl
destroy-max s freed m = refl

-- No step changes `maxNum`.
pub Reach-max : {s t : System} → Reach s t → t.pool.max_num ≡ s.pool.max_num
unfolding offer
Reach-max here = refl
Reach-max (next {t = u} r (works i tid pc a e)) = work-max u i tid pc ∙ Reach-max r
Reach-max (next r (calls t a)) = Reach-max r
Reach-max (next {t = u} r (offers j t a e)) =
    offered-max u j t (add u.pool t) (add-max u.pool t) ∙ Reach-max r
Reach-max (next {t = u} r (manages fresh a f)) = manage-max u fresh u.manager ∙ Reach-max r
Reach-max (next {t = u} r (destroys a)) = destroy-max u u.destroyer u.manager ∙ Reach-max r
