-- ===== src/Condition.antt =====
-- Thread/pthread_cond.c: producers and consumers of a linked list, with a mutex and a condition
-- variable. `sleep` and output are left out, and a random number is an argument.
pub mod Invariant
pub mod Safety
mod Tests
use network_communications.Prelude.{
  ℕ, ◌%◌, Bool, true, false, not, List, [], ◌∷◌, ◌++◌, some, get_elem?, set, replicate, map, ◌≡◌,
}

-- Where a thread stands. `p_` is for producers and `c_` for consumers.
pub data Pc : Type 0 where
  p_lock : Pc  -- before the lock
  p_link : Pc  -- before the node is filled
  p_store : ℕ → List ℕ → Pc  -- before `head = pnew`, with the node's number and `next`
  p_unlock : Pc
  p_signal : Pc  -- before the broadcast
  c_lock : Pc  -- before the lock
  c_test : Pc  -- before `head==NULL`
  c_asleep : Pc  -- in `pthread_cond_wait`, and not woken
  c_woken : Pc  -- in `pthread_cond_wait`, before the lock is taken again
  c_load : Pc  -- before `pnode = head`
  c_take : List ℕ → Pc  -- before `head = pnode->next`, with `pnode`
  c_unlock : Pc
  faulted : Pc  -- after a read through NULL

-- A pointer to a node is the list of the numbers from this node on: a node that is linked is not
-- written again.
pub record System : Type 0 where
  pub locked : Bool
  pub head : List ℕ
  pub threads : List Pc
  -- For the statements: the numbers stored in the list so far, and those taken out so far.
  pub produced : List ℕ
  pub consumed : List ℕ

-- `main`, once all threads are created.
unfoldable pub init : System
init = record {
  locked = false;
  head = [];
  threads = replicate 5 p_lock ++ replicate 5 c_lock;
  produced = [];
  consumed = [];
}

-- Whether a thread can go on. A wait may end without a broadcast.
unfoldable pub enabled : System → Pc → Bool
enabled s p_lock = not s.locked
enabled s c_lock = not s.locked
enabled s c_woken = not s.locked
enabled s faulted = false
enabled s _ = true

abbrev pub move : System → ℕ → Pc → System
move s k pc = record s { threads = set s.threads k pc }

-- What a broadcast does to a thread.
abbrev pub wake : Pc → Pc
wake c_asleep = c_woken
wake pc = pc

-- The consumer's test: without a node it gives the mutex up and waits.
pub test_head : System → ℕ → List ℕ → System
test_head s k [] = record (move s k c_asleep) { locked = false }
test_head s k (n ∷ tail) = move s k c_load

-- The next step of thread `k`; `r` is what rand() would return.
unfoldable pub advance : System → ℕ → ℕ → Pc → System
unfolding test_head
advance s k r p_lock = record (move s k p_link) { locked = true }
advance s k r p_link = move s k (p_store (r % 1000) s.head)
advance s k r (p_store n tail) = record (move s k p_unlock) {
  head = n ∷ tail;
  produced = s.produced ++ n ∷ [];
}
advance s k r p_unlock = record (move s k p_signal) { locked = false }
advance s k r p_signal = record s { threads = map wake (set s.threads k p_lock) }
advance s k r c_lock = record (move s k c_test) { locked = true }
advance s k r c_test = test_head s k s.head
advance s k r c_asleep = move s k c_woken
advance s k r c_woken = record (move s k c_test) { locked = true }
advance s k r c_load = move s k (c_take s.head)
advance s k r (c_take []) = move s k faulted
advance s k r (c_take (n ∷ tail)) = record (move s k c_unlock) {
  head = tail;
  consumed = s.consumed ++ n ∷ [];
}
advance s k r c_unlock = record (move s k c_lock) { locked = false }
advance s k r faulted = s

pub data Reach (s : System) : System → Type 0 where
  here : Reach s s
  next :
      {t : System} (k r : ℕ) (pc : Pc)
      → Reach s t
      → get_elem? t.threads k ≡ some pc
      → enabled t pc ≡ true
      → Reach s (advance t k r pc)
