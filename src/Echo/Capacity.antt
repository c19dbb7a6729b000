-- ===== src/Echo/Capacity.antt =====
-- How many clients socket/multi_thread/server.c serves at once, in the pool that its `main` makes with
-- `threadPoolCreate(3,8,100)`. The task `acceptConn` runs in the pool too, as long as `accept`
-- succeeds.
use network_communications.Prelude.{
  ℕ, ◌+◌, ◌≤◌, ◌<◌, true, List, [], ◌∷◌, Option, some, get_elem?, length, ◌==◌, if◌then◌else◌, ◌≡◌,
  ◌≢◌, ◌∙◌, arith, sum_by, le-sum_by,
}
use network_communications.Run.{Run, done}
use network_communications.ThreadPool.{Task, Pool, first_ids, create}
use network_communications.ThreadPool.System.{
  WorkerPc, start, waiting, holding, running, ran, exiting, gone, faulted, Worker, System, init,
  Reach,
}
use network_communications.ThreadPool.Invariant.{present, present_at}
use network_communications.ThreadPool.Limits.{Reach-max}
use network_communications.ThreadPool.Safety.{slots_exact, create-max}

-- The names of the functions of the two tasks.
abbrev pub accept_conn : ℕ
accept_conn = 1

-- `threadPoolCreate(3,8,100)`; `raw` is the memory for 100 tasks.
abbrev pub server_pool : List Task → (ℕ → ℕ) → Run (Option Pool)
server_pool raw ids = create true true true raw ids 3 8

-- Whether a worker runs `acceptConn`, and whether it has or runs another task, which is `working`.
abbrev pub accepts_at : WorkerPc → ℕ
accepts_at (running t) = if t.function == accept_conn then 1 else 0
accepts_at _ = 0

abbrev pub serves_at : WorkerPc → ℕ
serves_at (holding t) = if t.function == accept_conn then 0 else 1
serves_at (running t) = if t.function == accept_conn then 0 else 1
serves_at _ = 0

abbrev pub accepts : Worker → ℕ
accepts w = accepts_at w.pc

abbrev pub serves : Worker → ℕ
serves w = serves_at w.pc

one_task : (pc : WorkerPc) → serves_at pc + accepts_at pc ≤ present_at pc
one_task start = omega arith
one_task waiting = omega arith
one_task (holding t) = ground arith
one_task (running t) = ground arith
one_task ran = omega arith
one_task exiting = omega arith
one_task gone = omega arith
one_task faulted = omega arith

both_present : (ws : List Worker) → sum_by serves ws + sum_by accepts ws ≤ sum_by present ws
unfolding sum_by
both_present [] = omega arith
both_present (w ∷ ws) = omega (arith, one_task w.pc, both_present ws)

-- In every state of the pool that `main` has made with room for tasks and threads whose identifiers
-- are not 0, while a worker runs `acceptConn`: at most seven workers have clients.
pub seven_clients :
    (raw : List Task) (ids : ℕ → ℕ) (p : Pool)
    → server_pool raw ids ≡ done (some p)
    → 0 < length raw
    → ((i : ℕ) → ids i ≢ 0)
    → {s : System} → Reach (init p (first_ids 3 ids)) s
    → (k : ℕ) (w : Worker) → get_elem? s.workers k ≡ some w
    → accepts w ≡ 1
    → sum_by serves s.workers ≤ 7
unfolding init
seven_clients raw ids p made room nz {s} r k w e a =
    let eight : s.pool.max_num ≡ 8 = Reach-max r ∙ create-max true true true raw ids 3 8 p made in
    omega (
      arith,
      eight,
      le-sum_by accepts s.workers k w e,
      both_present s.workers,
      (slots_exact true true true raw ids 3 8 p made room nz r 1 (omega arith)).2,
    )
