-- ===== src/Echo/Tests.antt =====
-- The servers of socket/ with a client that sends three bytes, in pieces of two.
use network_communications.Prelude.{
  ℕ, suc, ◌≤◌, pos, [], ◌∷◌, some, get_elem?, ◌≡◌, refl, arith, sum_by,
}
use network_communications.Run.{Returns, done}
use network_communications.ThreadPool.{Task, Pool, create, new_pool, first_ids, add, enter}
use network_communications.ThreadPool.System.{
  System, init, work, offer, adding, start, holding, running, Reach, here, next, calls, offers,
  works,
}
use network_communications.Echo.Capacity.{accept_conn, server_pool, serves, seven_clients}
use network_communications.Net.Pipe.{
  Pipe, whole_pipe, whole_laws, whole-Duplex, whole-NoErrors, whole-TakesWhole, arriving,
}
use network_communications.Echo.{buffer_size, echo_main, working}
use network_communications.Echo.Reply.{working-Echoed, echo_main-Echoed}

abbrev client : Pipe
client = arriving 1 (b'a' ∷ b'b' ∷ b'c' ∷ [])

working-Echoed_example :
    Returns (λ v. v.outgoing ≡ b'a' ∷ b'b' ∷ b'c' ∷ []) (working whole_pipe 4 client (pos 4))
working-Echoed_example =
    working-Echoed whole_pipe whole_laws whole-Duplex whole-NoErrors (whole-TakesWhole buffer_size)
      4 client (pos 4) (omega arith)

echo_main-Echoed_example :
    Returns
      (λ r. (r.ret ≡ pos 0) × (r.world.outgoing ≡ b'a' ∷ b'b' ∷ b'c' ∷ []))
      (echo_main whole_pipe 4 client)
echo_main-Echoed_example =
    echo_main-Echoed whole_pipe whole_laws whole-Duplex whole-NoErrors
      (whole-TakesWhole buffer_size) 4 client client client client client (pos 3) (pos 0) (pos 0)
      (pos 4) 0 refl refl refl refl refl refl refl refl (omega arith)

-- The first worker runs `acceptConn`.
abbrev blank : Task
blank = record { function = 0; arg = 0 }

abbrev accepting : Task
accepting = record { function = accept_conn; arg = 0 }

abbrev fresh_ids : ℕ → ℕ
fresh_ids i = suc i

abbrev server : Pool
server = new_pool (blank ∷ blank ∷ []) fresh_ids 3 8

server_made : server_pool (blank ∷ blank ∷ []) fresh_ids ≡ done (some server)
unfolding create
server_made = refl

abbrev begun : System
begun = init server (first_ids 3 fresh_ids)

abbrev at_work : System
at_work =
    work (work (offer (record begun { callers = adding accepting ∷ [] }) 0 accepting) 0 1 start) 0 1
      (holding accepting)

at_work-Reach : Reach begun at_work
unfolding init work offer add enter new_pool
at_work-Reach =
    next
      (next (next (next here (calls accepting (λ e. cc))) (offers 0 accepting (λ e. cc) refl))
        (works 0 1 start (λ e. cc) refl))
      (works 0 1 (holding accepting) (λ e. cc) refl)

first_accepts : get_elem? at_work.workers 0 ≡ some (record { tid = 1; pc = running accepting })
unfolding init work offer add enter new_pool
first_accepts = refl

seven_clients_example : sum_by serves at_work.workers ≤ 7
seven_clients_example =
    seven_clients (blank ∷ blank ∷ []) fresh_ids server server_made (omega arith) (λ i. omega arith)
      at_work-Reach 0 (record { tid = 1; pc = running accepting }) first_accepts refl
