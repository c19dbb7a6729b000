-- ===== src/RwLock.antt =====
-- Thread/read_write_lock.c: three threads that count to 50 each in a number that they share, and five
-- that read it, under a read-write lock. `sleep` is left out; what is printed is kept where it counts.
pub mod Total
mod Tests
use network_communications.Prelude.{
  ℕ, ◌+◌, ◌-◌, Bool, true, false, not, ◌&&◌, List, ◌++◌, some, get_elem?, set, replicate, ltb, ◌==◌,
  if◌then◌else◌, ◌≡◌,
}

-- `MAX`
abbrev pub rounds : ℕ
rounds = 50

-- Where a thread stands. `w_` is for `writeNum`, with its `i`, and `r_` for `readNum`.
pub data Pc : Type 0 where
  w_test : ℕ → Pc  -- before `i<MAX`
  w_lock : ℕ → Pc  -- before the lock for writing
  w_load : ℕ → Pc  -- before `cur = number`
  w_store : ℕ → ℕ → Pc  -- before `number = cur`, with `cur`
  w_unlock : ℕ → Pc
  w_returned : Pc
  r_lock : Pc  -- before the lock for reading
  r_read : Pc  -- before `number` is read
  r_unlock : ℕ → Pc  -- with what was read

-- The lock is held for writing, or for reading by so many.
pub record System : Type 0 where
  pub writing : Bool
  pub reading : ℕ
  pub number : ℕ
  pub threads : List Pc

-- `main`, once all threads are created.
unfoldable pub init : System
init = record {
  writing = false;
  reading = 0;
  number = 0;
  threads = replicate 3 (w_test 0) ++ replicate 5 r_lock;
}

-- Whether a thread can go on. (A lock may also make readers wait for a waiting writer: then there are
-- fewer runs.)
unfoldable pub enabled : System → Pc → Bool
enabled s (w_lock i) = not s.writing && s.reading == 0
enabled s w_returned = false
enabled s r_lock = not s.writing
enabled s _ = true

abbrev pub move : System → ℕ → Pc → System
move s k pc = record s { threads = set s.threads k pc }

-- The next step of thread `k`.
unfoldable pub advance : System → ℕ → Pc → System
advance s k (w_test i) = move s k (if ltb i rounds then w_lock i else w_returned)
advance s k (w_lock i) = record (move s k (w_load i)) { writing = true }
advance s k (w_load i) = move s k (w_store i (s.number + 1))
advance s k (w_store i cur) = record (move s k (w_unlock i)) { number = cur }
advance s k (w_unlock i) = record (move s k (w_test (i + 1))) { writing = false }
advance s k w_returned = s
advance s k r_lock = record (move s k r_read) { reading = s.reading + 1 }
advance s k r_read = move s k (r_unlock s.number)
advance s k (r_unlock seen) = record (move s k r_lock) { reading = s.reading - 1 }

pub data Reach (s : System) : System → Type 0 where
  here : Reach s s
  next :
      {t : System} (k : ℕ) (pc : Pc)
      → Reach s t
      → get_elem? t.threads k ≡ some pc
      → enabled t pc ≡ true
      → Reach s (advance t k pc)
