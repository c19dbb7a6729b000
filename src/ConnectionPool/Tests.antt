-- ===== src/ConnectionPool/Tests.antt =====
-- The pool of ConnectionPool/ConnectionPool.cpp with two connections, one of them held by a client.
use network_communications.Prelude.{
  ℕ, ◌+◌, ◌<◌, ◌≤◌, pos, true, List, [], ◌∷◌, ◌≡◌, refl, arith, length,
}
use network_communications.ConnectionPool.{
  Config, Conn, Pool, connection_pool, add_connections, add_connection, get_connection, produce,
  wants_no_more, recycle, recycle_queue, overdue, get_alive_time, to_size, gets, produces, Reach,
  here, next,
}
use network_communications.ConnectionPool.Recycle.{Recycled}
use network_communications.ConnectionPool.Order.{front_idle_longest, recycle-Recycled}
use network_communications.ConnectionPool.Account.{places, each_once}
use network_communications.ConnectionPool.Size.{produce_times, producer_needed, queue_runaway}

abbrev config : Config
config = record { min_size = pos 2; max_size = pos 4; max_idle_time = pos 5000 }

-- To connect takes a millisecond.
abbrev delays : ℕ → ℕ
delays n = 1000000

abbrev conn : ℕ → ℕ → Conn
conn k at = record { id = k; alive_time = at }

-- The first connection is held, and the producer has made another and waits.
abbrev served : Pool
served = record {
  connection_q = conn 1 2000000 ∷ conn 2 3000000 ∷ [];
  asleep = true;
  now = 3000000;
  made = 3;
  lent = conn 0 1000000 ∷ [];
  deleted = [];
}

served-Reach : Reach config delays served
unfolding connection_pool add_connections add_connection get_connection produce wants_no_more
served-Reach = next (next (next here (gets refl)) (produces 1000000 refl)) (produces 0 refl)

front_idle_longest_example :
    get_alive_time 3000000 (conn 2 3000000) ≤ get_alive_time 3000000 (conn 1 2000000)
front_idle_longest_example =
    front_idle_longest served-Reach (conn 1 2000000) (conn 2 3000000 ∷ []) refl 1 (conn 2 3000000)
      refl

recycle-Recycled_example :
    (gone : List Conn) × ((recycle config delays served).deleted ≡ gone)
    × Recycled config served.connection_q
        (recycle config delays served).connection_q
        gone
        (recycle config delays served).now
recycle-Recycled_example = recycle-Recycled served-Reach delays

each_once_example : (0 < 3 → places 0 served ≡ 1) × (3 ≤ 0 → places 0 served ≡ 0)
each_once_example = each_once served-Reach 0

producer_needed_example : to_size config.min_size ≤ length served.connection_q
producer_needed_example = producer_needed served-Reach refl

queue_runaway_example :
    (p : Pool) × Reach config delays p
    × (100 ≤ length p.connection_q)
    × ((times : ℕ → ℕ) (m : ℕ)
        → length (produce_times config times m p).connection_q ≡ length p.connection_q + m)
queue_runaway_example = queue_runaway config delays 100 (omega arith)

-- After six seconds the recycler deletes the oldest of three, and keeps two.
recycled :
    (recycle config
      (λ n. 0)
      (record served {
        connection_q = conn 0 0 ∷ conn 1 0 ∷ conn 2 0 ∷ [];
        now = 6000000000;
      })).connection_q
    ≡ conn 1 0 ∷ conn 2 0 ∷ []
unfolding recycle recycle_queue overdue get_alive_time
recycled = refl
