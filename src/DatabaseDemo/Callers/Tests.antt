-- ===== src/DatabaseDemo/Callers/Tests.antt =====
-- `test2` of ConnectionPool/main.cpp with one round for each thread and a pool of one connection.
use network_communications.Prelude.{
  ℕ, suc, pos, List, [], ◌∷◌, ◌++◌, some, get_elem?, set, ◌≡◌, refl, sum_by,
}
use network_communications.ConnectionPool.{
  Config, Conn, connection_pool, add_connections, add_connection, get_connection, give_back,
  take_out,
}
use network_communications.DatabaseDemo.Callers.{
  Caller, asking, holding, giving, System, test2, obtains, inserts, returns, Reach, here, next,
}
use network_communications.DatabaseDemo.Callers.Once.{AllOver, weigh, inserted_once}

abbrev one : Config
one = record { min_size = pos 1; max_size = pos 5; max_idle_time = pos 1000 }

abbrev at_once : ℕ → ℕ
at_once k = 0

abbrev first_conn : Conn
first_conn = record { id = 0; alive_time = 0 }

abbrev start : System
start = test2 1 one at_once

-- Thread `k` makes its round.
abbrev round : ℕ → ℕ → System → System
round k i s = record s {
  callers =
      set (set (set s.callers k (holding i 0 first_conn)) k (giving i 0 first_conn)) k
        (asking (suc i) 0);
  requested = s.requested ++ i ∷ [];
}

round-Reach :
    (k i : ℕ) (callers : List Caller) (requested : List ℕ)
    → let s : System = record { pool = start.pool; callers = callers; requested = requested } in
      get_elem? callers k ≡ some (asking i 1)
      → get_elem? (set callers k (holding i 0 first_conn)) k ≡ some (holding i 0 first_conn)
      → get_elem? (set (set callers k (holding i 0 first_conn)) k (giving i 0 first_conn)) k
        ≡ some (giving i 0 first_conn)
      → Reach 1 one at_once s
      → Reach 1 one at_once (round k i s)
unfolding test2 connection_pool add_connections add_connection get_connection give_back take_out
round-Reach k i callers requested e f g r =
    next (next (next r (obtains k i 0 first_conn [] e refl refl)) (inserts k i 0 first_conn f))
      (returns k i 0 0 first_conn [] g refl refl)

-- The threads in another order than that of their creation.
abbrev finished : System
finished = round 0 0 (round 3 3 (round 1 1 (round 4 4 (round 2 2 start))))

finished-Reach : Reach 1 one at_once finished
unfolding test2
finished-Reach = round-Reach 0 0 _ _ refl refl refl (
    round-Reach 3 3 _ _ refl refl refl (
      round-Reach 1 1 _ _ refl refl refl
        (round-Reach 4 4 _ _ refl refl refl (round-Reach 2 2 _ _ refl refl refl here))))

all_over : AllOver finished.callers
unfolding test2
all_over = (tt, (tt, (tt, (tt, (tt, tt)))))

inserted_once_example :
    (finished.pool.lent ≡ [])
    × ((weight : ℕ → ℕ) → sum_by weight finished.requested ≡ weigh weight 0 5)
inserted_once_example = inserted_once finished-Reach all_over
