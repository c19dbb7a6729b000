-- ===== src/ThreadServer.antt =====
-- IO_mulit_way/thread_server.c: a server over `select` with a thread for each event. `main` and the
-- threads share the descriptor set and `maxfd`; what they do with the mutex held is one step. Output
-- is left out. The connections and what `select` and `recv` find are the kernel's part of a step.
pub mod Listening
mod Tests
use network_communications.Prelude.{
  ℕ, zero, suc, ◌+◌, ℤ, pos, Bool, true, false, not, ◌&&◌, ◌||◌, List, [], ◌∷◌, ◌++◌, Option, none,
  some, get_elem?, set, length, ◌≤◌, ltb, ◌==◌, if◌then◌else◌, ◌≡◌,
}
use network_communications.Run.{done, unfinished, overrun}
use network_communications.SelectServer.{FdSet, fd_insert, fd_remove, higher, reply}

-- Where a thread stands.
pub data Task : Type 0 where
  -- `acceptConn`, before `accept`, and before FD_SET with the new descriptor
  accepting : Task
  watching : ℕ → Task
  -- `communication`, before `recv`, before `send`, before FD_CLR, and before `close`
  receiving : ℕ → Task
  replying : ℕ → List ℕ → Task
  leaving closing : ℕ → Task
  ended : Task
  -- after an access outside an object
  faulted : Task

-- Where `main` stands: before it copies the set, before `select` with the copy, and before the test of
-- its loop for a descriptor, with what `select` has left.
pub data Main : Type 0 where
  copying : Main
  selecting : FdSet → Main
  visiting : FdSet → ℕ → Main

pub record System : Type 0 where
  pub rdset : FdSet
  pub maxfd : ℕ
  pub main : Main
  pub tasks : List Task
  -- The kernel's part: which connection a descriptor stands for, and whether its peer has closed.
  pub table : ℕ → Option ℕ
  pub hung_up : ℕ → Bool
  pub accepted : ℕ
  -- For the statements: what has been sent.
  pub sent : List (ℕ × List ℕ)

-- `main` before its loop, with the listening socket `lfd`.
unfoldable pub init : ℕ → System
init lfd = record {
  rdset = λ k. k == lfd;
  maxfd = lfd;
  main = copying;
  tasks = [];
  table = λ k. none;
  hung_up = λ id. false;
  accepted = 0;
  sent = [];
}

-- The next step of `main`; `ready` is for `select`, which leaves nothing else in its set.
unfoldable pub main_step : ℕ → FdSet → System → System
main_step lfd ready s = elim s.main [
  | copying ↦ record s { main = selecting s.rdset }
  | selecting rdtemp ↦ record s {
    main = visiting (λ k. rdtemp k && ready k) 0;
    tasks = if rdtemp lfd && ready lfd then s.tasks ++ accepting ∷ [] else s.tasks;
  }
  | visiting rdtemp i ↦
      if ltb i (s.maxfd + 1)
      then record s {
        main = visiting rdtemp (suc i);
        tasks = if not (i == lfd) && rdtemp i then s.tasks ++ receiving i ∷ [] else s.tasks;
      }
      else record s { main = copying }
]

abbrev pub move : System → ℕ → Task → System
move s i task = record s { tasks = set s.tasks i task }

-- `accept` has given `fd`.
unfoldable pub accept_conn : System → ℕ → ℕ → System
accept_conn s i fd = record (move s i (watching fd)) {
  table = λ k. if k == fd then some s.accepted else s.table k;
  accepted = suc s.accepted;
}

-- FD_SET and `maxfd`.
unfoldable pub watch : System → ℕ → ℕ → System
watch s i fd = elim (fd_insert s.rdset (pos fd)) [
  | done rdset ↦ record (move s i ended) { rdset = rdset; maxfd = higher (pos fd) s.maxfd }
  | unfinished ↦ move s i faulted
  | overrun ↦ move s i faulted
]

-- The loop with `toupper`, `strlen` and `send`.
unfoldable pub answer : System → ℕ → ℕ → List ℕ → System
answer s i fd chunk = elim (reply chunk) [
  | none ↦ move s i faulted
  | some bytes ↦ record (move s i ended) { sent = s.sent ++ (fd, bytes) ∷ [] }
]

-- FD_CLR
unfoldable pub clear : System → ℕ → ℕ → System
clear s i fd = record (move s i (closing fd)) { rdset = fd_remove s.rdset fd }

-- `close`
unfoldable pub close : System → ℕ → ℕ → System
close s i fd = record (move s i ended) { table = λ k. if k == fd then none else s.table k }

pub data Step (lfd : ℕ) (s : System) : System → Type 0 where
  mains : (ready : FdSet) → Step lfd s (main_step lfd ready s)
  accepts :
      (i fd : ℕ)
      → get_elem? s.tasks i ≡ some accepting
      → (fd == lfd) ≡ false
      → s.table fd ≡ none
      → Step lfd s (accept_conn s i fd)
  -- FD_SET with -1
  accept_fails : (i : ℕ) → get_elem? s.tasks i ≡ some accepting → Step lfd s (move s i faulted)
  watches : (i fd : ℕ) → get_elem? s.tasks i ≡ some (watching fd) → Step lfd s (watch s i fd)
  receives :
      (i fd id b : ℕ) (bs : List ℕ)
      → get_elem? s.tasks i ≡ some (receiving fd)
      → s.table fd ≡ some id
      → length (b ∷ bs) ≤ 10
      → Step lfd s (move s i (replying fd (b ∷ bs)))
  finds_end :
      (i fd id : ℕ)
      → get_elem? s.tasks i ≡ some (receiving fd)
      → s.table fd ≡ some id
      → s.hung_up id ≡ true
      → Step lfd s (move s i (leaving fd))
  receive_fails :
      (i fd : ℕ) → get_elem? s.tasks i ≡ some (receiving fd) → Step lfd s (move s i ended)
  answers :
      (i fd : ℕ) (chunk : List ℕ)
      → get_elem? s.tasks i ≡ some (replying fd chunk)
      → Step lfd s (answer s i fd chunk)
  clears : (i fd : ℕ) → get_elem? s.tasks i ≡ some (leaving fd) → Step lfd s (clear s i fd)
  closes : (i fd : ℕ) → get_elem? s.tasks i ≡ some (closing fd) → Step lfd s (close s i fd)
  hangs_up : (id : ℕ) → Step lfd s (record s { hung_up = λ k. (k == id) || s.hung_up k })

pub data Reach (lfd : ℕ) : System → Type 0 where
  here : Reach lfd (init lfd)
  next : {s t : System} → Reach lfd s → Step lfd s t → Reach lfd t
