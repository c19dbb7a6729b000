-- ===== src/ConnectionPool.antt =====
-- ConnectionPool/ConnectionPool.cpp: a pool of connections to a database, with a thread that adds
-- connections and one that deletes those idle for long. What is done under `m_mutexQ` without waiting
-- is one step. The time is in nanoseconds. The program of the database, and the result of `connect`,
-- which the code does not look at, are left out.
pub mod Cases
pub mod Aged
pub mod Recycle
pub mod Order
pub mod Account
pub mod Size
mod Tests
use network_communications.Prelude.{
  ℕ, zero, suc, ◌+◌, ◌-◌, ◌/◌, ◌^◌, ℤ, pos, negsuc, Bool, true, false, not, ◌&&◌, List, [], ◌∷◌,
  ◌++◌, Option, none, some, ltb, if◌then◌else◌, length, ◌≡◌,
}

-- What `parseJsonFile` reads; `timeout` only says how long a wait lasts.
pub record Config : Type 0 where
  pub min_size : ℤ
  pub max_size : ℤ
  pub max_idle_time : ℤ

-- A `MysqlConn`: which one it is, and `m_alivetime`.
pub record Conn : Type 0 where
  pub id : ℕ
  pub alive_time : ℕ

pub record Pool : Type 0 where
  pub connection_q : List Conn
  -- whether the producer waits in `m_cond.wait`
  pub asleep : Bool
  pub now : ℕ
  -- For the statements: how many connections have been made, which are held by callers of
  -- `getConnection`, and which have been deleted.
  pub made : ℕ
  pub lent : List Conn
  pub deleted : List Conn

-- An `int` that is compared with a `size_t`.
abbrev pub to_size : ℤ → ℕ
to_size (pos n) = n
to_size (negsuc n) = 2 ^ 64 - suc n

-- `MysqlConn::getAliveTime`, in milliseconds
unfoldable pub get_alive_time : ℕ → Conn → ℕ
get_alive_time now conn = (now - conn.alive_time) / 1000000

-- `n >= limit`
abbrev pub reaches : ℕ → ℤ → Bool
reaches n (pos limit) = not (ltb n limit)
reaches n (negsuc limit) = true

-- `conn->getAliveTime() >= m_maxIdleTime`
unfoldable pub overdue : Config → ℕ → Conn → Bool
unfolding get_alive_time
overdue c now conn = reaches (get_alive_time now conn) c.max_idle_time

-- `refreshAliveTime` at the time `now`, and the push.
abbrev pub push : Pool → Conn → Pool
push p conn = record p { connection_q = p.connection_q ++ record conn { alive_time = p.now } ∷ [] }

-- `addConnection`; to connect takes the time `delay`.
unfoldable pub add_connection : ℕ → Pool → Pool
add_connection delay p =
    push (record p { now = p.now + delay; made = suc p.made })
      (record { id = p.made; alive_time = 0 })

-- The loop of the constructor, with `n` rounds left.
unfoldable pub add_connections : (ℕ → ℕ) → ℕ → Pool → Pool
add_connections delays zero p = p
add_connections delays (suc n) p = add_connections delays n (add_connection (delays n) p)

abbrev pub no_connections : Pool
no_connections = record {
  connection_q = [];
  asleep = false;
  now = 0;
  made = 0;
  lent = [];
  deleted = [];
}

-- `for (int i = 0; i < m_minSize; ++i)`
abbrev pub rounds : ℤ → ℕ
rounds (pos n) = n
rounds (negsuc n) = 0

-- The constructor, after a file that can be read.
unfoldable pub connection_pool : Config → (ℕ → ℕ) → Pool
connection_pool c delays = add_connections delays (rounds c.min_size) no_connections

-- `getConnection` where it does not wait, `notify_all` included.
unfoldable pub get_connection : Pool → Option Pool
get_connection p = elim p.connection_q [
  | [] ↦ none
  | conn ∷ rest ↦ some (record p { connection_q = rest; lent = conn ∷ p.lent; asleep = false })
]

-- Element `i`, and the others.
unfoldable pub take_out : ℕ → List Conn → Option (Conn × List Conn)
take_out i [] = none
take_out zero (conn ∷ rest) = some (conn, rest)
take_out (suc i) (conn ∷ rest) = elim (take_out i rest) [
  | none ↦ none
  | some found ↦ some (found.0, conn ∷ found.1)
]

-- The last owner of the `i`-th held connection is gone: the deleter that `getConnection` has given.
unfoldable pub give_back : ℕ → Pool → Option Pool
unfolding take_out
give_back i p = elim (take_out i p.lent) [
  | none ↦ none
  | some found ↦ some (push (record p { lent = found.1 }) found.0)
]

-- The condition of the inner loop of `produceConnection`.
unfoldable pub wants_no_more : Config → Pool → Bool
wants_no_more c p =
    not (ltb (length p.connection_q) (to_size c.min_size))
    && not (ltb (to_size c.max_size) (length p.connection_q))

-- The producer with the lock, up to where it waits or gives the lock up.
unfoldable pub produce : Config → ℕ → Pool → Pool
unfolding wants_no_more add_connection
produce c delay p = if wants_no_more c p then record p { asleep = true } else add_connection delay p

-- The inner loop of `recycleConnection`: what it leaves in the queue, what it deletes, and the time
-- then. Before each call of getAliveTime some time passes.
unfoldable pub recycle_queue : Config → (ℕ → ℕ) → ℕ → List Conn → List Conn × List Conn × ℕ
unfolding overdue
recycle_queue c delays now [] = ([], [], now)
recycle_queue c delays now (conn ∷ rest) =
    let size = suc (length rest) in
    let later = now + delays size in
    let below = recycle_queue c delays later rest in
    if ltb (to_size c.min_size) size && ltb size (to_size c.max_size)
    then (if overdue c later conn
        then (below.0, conn ∷ below.1, below.2)
        else (conn ∷ rest, [], later))
    else (conn ∷ rest, [], now)

-- The recycler with the lock.
unfoldable pub recycle : Config → (ℕ → ℕ) → Pool → Pool
unfolding recycle_queue
recycle c delays p =
    let (kept, gone, later) = recycle_queue c delays p.now p.connection_q in
    record p { connection_q = kept; deleted = p.deleted ++ gone; now = later }

-- The loop of the destructor.
unfoldable pub delete_all : List Conn → List Conn → List Conn
delete_all [] deleted = deleted
delete_all (conn ∷ rest) deleted = delete_all rest (deleted ++ conn ∷ [])

-- The destructor.
unfoldable pub destroy : Pool → Pool
unfolding delete_all
destroy p = record p { connection_q = []; deleted = delete_all p.connection_q p.deleted }

pub data Step (c : Config) (p : Pool) : Pool → Type 0 where
  passes : (delay : ℕ) → Step c p (record p { now = p.now + delay })
  gets : {q : Pool} → get_connection p ≡ some q → Step c p q
  gives : {q : Pool} (i : ℕ) → give_back i p ≡ some q → Step c p q
  produces : (delay : ℕ) → p.asleep ≡ false → Step c p (produce c delay p)
  wakes : Step c p (record p { asleep = false })
  recycles : (delays : ℕ → ℕ) → Step c p (recycle c delays p)

pub data Reach (c : Config) (delays : ℕ → ℕ) : Pool → Type 0 where
  here : Reach c delays (connection_pool c delays)
  next : {p q : Pool} → Reach c delays p → Step c p q → Reach c delays q
