-- ===== src/ThreadPool/Invariant/Settle.antt =====
-- A worker that lets `mutexPool` go: what it leaves of the pool, whatever it does next.
use network_communications.Prelude.{
  ℕ, ◌+◌, ◌-◌, ◌≤◌, ◌<◌, ltb, Bool, true, false, List, ◌∷◌, ◌≡◌, ◌⊎◌, inl, inr, refl, sym, subst,
  arith, if◌then◌else◌, lt_of_ltb,
}
use network_communications.ThreadPool.{
  Task, Pool, Turn, wait, exit, got, stray, enter, take_task, wake,
}
use network_communications.ThreadPool.Queue.{Represents, Turns, enter-Turns, Represents-other}

-- What a worker never changes with the lock held.
abbrev pub Same : Pool → Pool → Type 0
Same p p' =
    (p'.busy_num ≡ p.busy_num)
    × (p'.min_num ≡ p.min_num)
    × (p'.max_num ≡ p.max_num)
    × (p'.thread_ids ≡ p.thread_ids)
    × (p'.shutdown ≡ p.shutdown)

-- A pool that stands for `q`, before and after.
abbrev pub Settled : Pool → List Task → Turn × Pool → Type 0
Settled p q (wait, p') = Represents p' q × Same p p' × (p'.live_num ≡ p.live_num)
Settled p q (exit, p') =
    Represents p' q
    × Same p p'
    × (((p'.live_num ≡ p.live_num) × (p.shutdown ≡ true))
        ⊎ ((p'.live_num + 1 ≡ p.live_num) × (p.min_num ≤ p'.live_num)))
Settled p q (got t, p') =
    (rest : List Task) × (q ≡ t ∷ rest)
    × Represents p' rest
    × Same p p'
    × (p'.live_num ≡ p.live_num)
Settled p q (stray, p') = ⊥

pub enter-Same : (p : Pool) → Same p (enter p).1 × ((enter p).1.live_num ≡ p.live_num)
unfolding enter take_task
enter-Same p = ground arith

Turns-Settled :
    (p : Pool) (q : List Task) (r : Turn × Pool)
    → Represents p q
    → Same p r.1 × (r.1.live_num ≡ p.live_num)
    → Turns p q r
    → Settled p q r
Turns-Settled p q (wait, p') rep s t = (subst (λ x. Represents x q) (sym t.0) rep, s.0, s.1)
Turns-Settled p q (exit, p') rep s t =
    (subst (λ x. Represents x q) (sym t.0) rep, s.0, inl (s.1, t.1))
Turns-Settled p q (got x, p') rep s t = (t.0, t.1, t.2, s.0, s.1)
Turns-Settled p q (stray, p') rep s t = t

pub enter-Settled : (p : Pool) (q : List Task) → Represents p q → Settled p q (enter p)
enter-Settled p q rep = Turns-Settled p q (enter p) rep (enter-Same p) (enter-Turns p q rep)

-- `exitNum` plays no part in what the pool stands for.
abbrev lower : Pool → Pool
lower p = record p { exit_num = p.exit_num - 1 }

lower-Settled : (p : Pool) (q : List Task) (r : Turn × Pool) → Settled (lower p) q r → Settled p q r
lower-Settled p q (wait, p') s = s
lower-Settled p q (exit, p') s = s
lower-Settled p q (got x, p') s = s
lower-Settled p q (stray, p') s = s

lower-Represents :
    (p : Pool) (q : List Task) (live : ℕ)
    → Represents p q
    → Represents (record p { exit_num = p.exit_num - 1; live_num = live }) q
lower-Represents p q live r =
    Represents-other p q p.thread_ids p.busy_num live (p.exit_num - 1) p.shutdown r

Settled-tests :
    (p : Pool) (q : List Task) (a b : Bool)
    → Represents p q
    → ltb p.min_num p.live_num ≡ b
    → Settled p q (
        if a
        then if b
          then (exit, record p { exit_num = p.exit_num - 1; live_num = p.live_num - 1 })
          else enter (lower p)
        else enter p)
Settled-tests p q true true r e =
    let more : p.min_num < p.live_num = lt_of_ltb p.min_num p.live_num e in
    (
      lower-Represents p q (p.live_num - 1) r,
      (refl, refl, refl, refl, refl),
      inr (omega arith, omega arith),
    )
Settled-tests p q true false r e =
    lower-Settled p q (enter (lower p))
      (enter-Settled (lower p) q (lower-Represents p q p.live_num r))
Settled-tests p q false b r e = enter-Settled p q r

pub wake-Settled : (p : Pool) (q : List Task) → Represents p q → Settled p q (wake p)
unfolding wake
wake-Settled p q r = Settled-tests p q _ _ r refl
