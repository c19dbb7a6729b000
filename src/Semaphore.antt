-- ===== src/Semaphore.antt =====
-- Thread/semaphore.c: producers and consumers of a linked list, with two semaphores and a mutex.
-- `sleep`, `rand` and output: a random number is an argument, the others are left out.
pub mod Invariant
pub mod Safety
mod Tests
use network_communications.Prelude.{
  ℕ, ◌+◌, ◌-◌, ◌%◌, Bool, true, false, not, List, [], ◌∷◌, ◌++◌, some, get_elem?, set, replicate,
  ltb, ◌≡◌,
}

-- Where a thread stands. `p_` is for producers and `c_` for consumers.
pub data Pc : Type 0 where
  p_wait : Pc  -- before sem_wait(&psem)
  p_lock : Pc  -- before the lock
  p_link : Pc  -- before the node is filled
  p_store : ℕ → List ℕ → Pc  -- before `head = pnew`, with the node's number and `next`
  p_unlock : Pc
  p_post : Pc  -- before sem_post(&csem)
  c_wait : Pc  -- before sem_wait(&csem)
  c_lock : Pc  -- before the lock
  c_load : Pc  -- before `pnode = head`
  c_take : List ℕ → Pc  -- before `head = pnode->next`, with `pnode`
  c_unlock : Pc
  c_post : Pc  -- before sem_post(&psem)
  faulted : Pc  -- after a read through NULL

-- A pointer to a node is the list of the numbers from this node on: a node that is linked is not
-- written again.
pub record System : Type 0 where
  pub psem : ℕ
  pub csem : ℕ
  pub locked : Bool
  pub head : List ℕ
  pub threads : List Pc
  -- For the statements: the numbers stored in the list so far, and those taken out so far.
  pub produced : List ℕ
  pub consumed : List ℕ

-- `main`: the semaphores, and five threads of either kind.
unfoldable pub init : System
init = record {
  psem = 5;
  csem = 0;
  locked = false;
  head = [];
  threads = replicate 5 p_wait ++ replicate 5 c_wait;
  produced = [];
  consumed = [];
}

-- Whether a thread is not blocked.
unfoldable pub enabled : System → Pc → Bool
enabled s p_wait = ltb 0 s.psem
enabled s p_lock = not s.locked
enabled s c_wait = ltb 0 s.csem
enabled s c_lock = not s.locked
enabled s faulted = false
enabled s _ = true

abbrev pub move : System → ℕ → Pc → System
move s i pc = record s { threads = set s.threads i pc }

-- The next step of thread `i`; `r` is what rand() would return.
unfoldable pub advance : System → ℕ → ℕ → Pc → System
advance s i r p_wait = record (move s i p_lock) { psem = s.psem - 1 }
advance s i r p_lock = record (move s i p_link) { locked = true }
advance s i r p_link = move s i (p_store (r % 1000) s.head)
advance s i r (p_store n tail) = record (move s i p_unlock) {
  head = n ∷ tail;
  produced = s.produced ++ n ∷ [];
}
advance s i r p_unlock = record (move s i p_post) { locked = false }
advance s i r p_post = record (move s i p_wait) { csem = s.csem + 1 }
advance s i r c_wait = record (move s i c_lock) { csem = s.csem - 1 }
advance s i r c_lock = record (move s i c_load) { locked = true }
advance s i r c_load = move s i (c_take s.head)
advance s i r (c_take []) = move s i faulted
advance s i r (c_take (n ∷ tail)) = record (move s i c_unlock) {
  head = tail;
  consumed = s.consumed ++ n ∷ [];
}
advance s i r c_unlock = record (move s i c_post) { locked = false }
advance s i r c_post = record (move s i c_wait) { psem = s.psem + 1 }
advance s i r faulted = s

pub data Step (s : System) : System → Type 0 where
  runs :
      (i r : ℕ) (pc : Pc)
      → get_elem? s.threads i ≡ some pc
      → enabled s pc ≡ true
      → Step s (advance s i r pc)

pub data Reach (s : System) : System → Type 0 where
  here : Reach s s
  next : {t u : System} → Reach s t → Step t u → Reach s u
