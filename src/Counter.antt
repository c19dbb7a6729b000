-- ===== src/Counter.antt =====
-- Thread/counter.c: two threads that count to 50 each in a number that they share, under a mutex.
-- `funcA_num` and `funcB_num` differ in a `usleep`, which is left out, as output is.
pub mod Total
mod Tests
use network_communications.Prelude.{
  ℕ, ◌+◌, Bool, true, false, not, List, [], ◌∷◌, some, get_elem?, set, ltb, if◌then◌else◌, ◌≡◌,
}

-- `MAX`
abbrev pub rounds : ℕ
rounds = 50

-- Where a thread stands, with its `i`.
pub data Pc : Type 0 where
  test : ℕ → Pc  -- before `i < MAX`
  lock : ℕ → Pc  -- before the lock
  load : ℕ → Pc  -- before `cur = number`
  store : ℕ → ℕ → Pc  -- before `number = cur`, with `cur`
  unlock : ℕ → Pc
  returned : Pc

pub record System : Type 0 where
  pub locked : Bool
  pub number : ℕ
  pub threads : List Pc

-- `main`, once both threads are created.
unfoldable pub init : System
init = record { locked = false; number = 0; threads = test 0 ∷ test 0 ∷ [] }

-- Whether a thread can go on.
unfoldable pub enabled : System → Pc → Bool
enabled s (lock i) = not s.locked
enabled s returned = false
enabled s _ = true

abbrev pub move : System → ℕ → Pc → System
move s k pc = record s { threads = set s.threads k pc }

-- The next step of thread `k`.
unfoldable pub advance : System → ℕ → Pc → System
advance s k (test i) = move s k (if ltb i rounds then lock i else returned)
advance s k (lock i) = record (move s k (load i)) { locked = true }
advance s k (load i) = move s k (store i (s.number + 1))
advance s k (store i cur) = record (move s k (unlock i)) { number = cur }
advance s k (unlock i) = record (move s k (test (i + 1))) { locked = false }
advance s k returned = s

-- `n` steps lead from `s` to the second state.
pub data Reach (s : System) : ℕ → System → Type 0 where
  here : Reach s 0 s
  next :
      {n : ℕ} {t : System} (k : ℕ) (pc : Pc)
      → Reach s n t
      → get_elem? t.threads k ≡ some pc
      → enabled t pc ≡ true
      → Reach s (n + 1) (advance t k pc)
