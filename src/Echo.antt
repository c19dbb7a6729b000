-- ===== src/Echo.antt =====
-- The servers that send back what they receive: socket/server.c, and socket/multi_thread/server.c,
-- whose tasks run in the thread pool. Output is left out. What `%s` prints of `buffer` is not defined
-- where no received byte is 0, since no '\0' is stored behind what `recv` gives.
pub mod Reply
pub mod Capacity
mod Tests
use network_communications.Prelude.{
  ℕ, zero, suc, ◌+◌, ℤ, pos, minus_one, is_minus_one, List, [], ◌∷◌, Option, none, some, Bool, true,
  false, if◌then◌else◌,
}
use network_communications.Run.{Run, done, unfinished, ◌>>=◌}
use network_communications.Net.{Net}
use network_communications.Socket.{Called}

-- sizeof(buffer)
abbrev pub buffer_size : ℕ
buffer_size = 1024

-- The task `acceptConn` when it ends: the descriptors of the clients for which it has called
-- `threadPoolAdd` with the task `working`, in order.
pub record Accepted (World : Type 0) : Type 0 where
  pub tasks : List ℤ
  pub world : World

module _ (net : Net) where
  open net use {World, socket, bind, listen, accept, recv, send, close}

  -- `while(1)`: until `recv` gives nothing or fails. What `send` returns is not looked at. The rounds
  -- are an argument, since the peer may go on.
  unfoldable pub echo_loop : ℕ → World → ℤ → Run World
  echo_loop zero w cfd = unfinished
  echo_loop (suc fuel) w cfd =
      let got = recv w cfd buffer_size in
      elim got.0 [
        | none ↦ done got.1
        | some [] ↦ done got.1
        | some (b ∷ bs) ↦ echo_loop fuel (send got.1 cfd (b ∷ bs)).1 cfd
      ]

  -- `main` of socket/server.c once a client is accepted.
  unfoldable pub serve_client : ℕ → World → ℤ → ℤ → Run (Called World)
  serve_client fuel w fd cfd = echo_loop fuel w cfd >>= λ v.
      done (record { ret = pos 0; world = (close (close v fd).1 cfd).1 })

  -- `main` of socket/server.c. The descriptors that an early return leaves open stay open.
  unfoldable pub echo_main : ℕ → World → Run (Called World)
  unfolding serve_client
  echo_main fuel w =
      let (fd, w1) = socket w in
      if is_minus_one fd
      then done (record { ret = minus_one; world = w1 })
      else (let (ret, w2) = bind w1 fd 5555 in
          if is_minus_one ret
          then done (record { ret = minus_one; world = w2 })
          else (let (ret2, w3) = listen w2 fd 5 in
              if is_minus_one ret2
              then done (record { ret = minus_one; world = w3 })
              else (let (cfd, addr, w4) = accept w3 fd in
                  if is_minus_one cfd
                  then done (record { ret = minus_one; world = w4 })
                  else serve_client fuel w4 fd cfd)))

  -- The task `working` of socket/multi_thread/server.c.
  unfoldable pub working : ℕ → World → ℤ → Run World
  working fuel w fd = echo_loop fuel w fd >>= λ v. done (close v fd).1

  -- The task `acceptConn`: until `accept` fails.
  unfoldable pub accept_tasks : ℕ → World → ℤ → Run (Accepted World)
  accept_tasks zero w fd = unfinished
  accept_tasks (suc fuel) w fd =
      let (cfd, addr, w1) = accept w fd in
      elim (is_minus_one cfd) [
        | true ↦ done (record { tasks = []; world = (close w1 fd).1 })
        | false ↦
            (accept_tasks fuel w1 fd >>= λ rest.
            done (record { tasks = cfd ∷ rest.tasks; world = rest.world }))
      ]

  -- `main` of socket/multi_thread/server.c: none where it returns -1, and else the descriptor for which
  -- it has added the task `acceptConn` to a pool of 3 to 8 threads with room for 100 tasks.
  unfoldable pub pool_main : World → Option ℤ × World
  pool_main w =
      let (fd, w1) = socket w in
      if is_minus_one fd
      then (none, w1)
      else (let (ret, w2) = bind w1 fd 5555 in
          if is_minus_one ret
          then (none, w2)
          else (let (ret2, w3) = listen w2 fd 5 in
              if is_minus_one ret2 then (none, w3) else (some fd, w3)))
