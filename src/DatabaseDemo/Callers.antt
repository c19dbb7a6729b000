-- ===== src/DatabaseDemo/Callers.antt =====
-- The threads of `test2` in ConnectionPool/main.cpp, which run `op2`, with the threads of the pool. What
-- becomes of a statement at the database is left out.
pub mod Once
mod Tests
use network_communications.Prelude.{
  ℕ, zero, suc, ◌+◌, ◌*◌, ◌≤◌, List, [], ◌∷◌, ◌++◌, some, get_elem?, set, length, ◌≡◌, refl, sym,
  ap, ◌∙◌, arith, inl, inr, sum_by, sum_by-set, sum_by-append, sum_by_le,
}
use network_communications.ConnectionPool.{
  Config, Conn, Pool, connection_pool, get_connection, give_back, take_out, passes, gets, gives,
  produces, wakes, recycles,
}
use network_communications.ConnectionPool

-- Where a thread stands in `op2`, with `i` and the rounds of its loop that are left behind this one:
-- before `getConnection`, which it does not call where no round is left; before `update`; before
-- `conn` is given back.
pub data Caller : Type 0 where
  asking : ℕ → ℕ → Caller
  holding giving : ℕ → ℕ → Conn → Caller

pub record System : Type 0 where
  pub pool : Pool
  pub callers : List Caller
  -- For the statements: the numbers with which `update` has been called. The code does not look at its
  -- result, and the database may refuse.
  pub requested : List ℕ

-- `test2`, when the pool has been made and the threads `t1` to `t5` have been started. Each makes `n`
-- rounds, which is 1000 in the source.
unfoldable pub test2 : ℕ → Config → (ℕ → ℕ) → System
test2 n c delays = record {
  pool = connection_pool c delays;
  callers =
      asking 0 n
      ∷ asking n n
      ∷ asking (n + n) n
      ∷ asking (n + n + n) n
      ∷ asking (n + n + n + n) n
      ∷ [];
  requested = [];
}

abbrev pub move : System → ℕ → Caller → System
move s k caller = record s { callers = set s.callers k caller }

-- A step of the pool that is none of a caller.
abbrev pub Background : {c : Config} {p q : Pool} → ConnectionPool.Step c p q → Type 0
Background (passes delay) = Unit
Background (gets e) = ⊥
Background (gives i e) = ⊥
Background (produces delay e) = Unit
Background wakes = Unit
Background (recycles delays) = Unit

pub data Step (c : Config) (s : System) : System → Type 0 where
  others :
      {q : Pool} (st : ConnectionPool.Step c s.pool q)
      → Background st
      → Step c s (record s { pool = q })
  -- `getConnection` returns the first connection of the queue.
  obtains :
      {q : Pool} (k i n : ℕ) (conn : Conn) (rest : List Conn)
      → get_elem? s.callers k ≡ some (asking i (suc n))
      → s.pool.connection_q ≡ conn ∷ rest
      → get_connection s.pool ≡ some q
      → Step c s (record (move s k (holding i n conn)) { pool = q })
  inserts :
      (k i n : ℕ) (conn : Conn)
      → get_elem? s.callers k ≡ some (holding i n conn)
      → Step c s (record (move s k (giving i n conn)) { requested = s.requested ++ i ∷ [] })
  -- The end of the block, where `conn` is found among those that are held.
  returns :
      {q : Pool} (k i n j : ℕ) (conn : Conn) (rest : List Conn)
      → get_elem? s.callers k ≡ some (giving i n conn)
      → take_out j s.pool.lent ≡ some (conn, rest)
      → give_back j s.pool ≡ some q
      → Step c s (record (move s k (asking (suc i) n)) { pool = q })

pub data Reach (n : ℕ) (c : Config) (delays : ℕ → ℕ) : System → Type 0 where
  here : Reach n c delays (test2 n c delays)
  next : {s t : System} → Reach n c delays s → Step c s t → Reach n c delays t
