-- ===== src/ThreadEpoll/System.antt =====
-- The threads of IO_mulit_way/thread_epoll_server.c, step by step: `main` in its loop, and the threads
-- that it creates, which share nothing but the descriptors. Each call that can change what another
-- thread finds is a step. The connections, and what `epoll_wait` and `recv` find, are the kernel's part
-- of a step.
pub mod Calls
pub mod Kept
pub mod Moves
pub mod Pieces
pub mod Crossed
use network_communications.Prelude.{
  ℕ, suc, ◌≤◌, ℤ, pos, Bool, true, false, not, ◌&&◌, ◌||◌, List, [], ◌∷◌, ◌++◌, Option, none, some,
  map, get_elem?, set, length, ltb, ◌==◌, if◌then◌else◌, ◌≡◌,
}
use network_communications.CText.{upper_loop}
use network_communications.ThreadEpoll.{temp_size, until_nul}

-- Where a thread stands, with its `curfd` and the text in `temp`.
pub data Task : Type 0 where
  -- `acceptConn`, before `accept`, and before `epoll_ctl`
  accepting : Task
  adding : ℕ → Task
  -- `communication`, before `recv`, before the `send` of a piece, before that of `temp`, before
  -- `epoll_ctl`, and before `close`
  receiving : ℕ → List ℕ → Task
  sending : ℕ → List ℕ → List ℕ → Task
  finishing : ℕ → List ℕ → Task
  deleting closing : ℕ → Task
  ended : Task
  -- after a write behind the end of `temp`, with the piece that did not fit
  faulted : ℕ → List ℕ → Task

-- A call of `recv` that has given bytes: in which thread, on which descriptor, and from which client.
pub record Receipt : Type 0 where
  pub thread : ℕ
  pub fd : ℕ
  pub client : Option ℕ
  pub bytes : List ℕ

-- A call of `send`: in which thread, on which descriptor, for which client, none where there is no
-- connection, with which bytes, and how many of them it has taken, none where it fails.
pub record Sent : Type 0 where
  pub thread : ℕ
  pub fd : ℕ
  pub client : Option ℕ
  pub bytes : List ℕ
  pub result : Option ℕ

pub record System : Type 0 where
  pub tasks : List Task
  -- The kernel's part: which client a descriptor stands for, which descriptors are in the epoll set,
  -- which clients have closed, and how many have been accepted.
  pub table : ℕ → Option ℕ
  pub watched : ℕ → Bool
  pub hung_up : ℕ → Bool
  pub accepted : ℕ
  -- For the statements: the calls of `recv` that have given bytes, those of `send` for a piece, and
  -- those for `temp`, each in order; and which threads have got EAGAIN, and on which descriptor.
  pub received : List Receipt
  pub sent : List Sent
  pub told : List Sent
  pub emptied : List (ℕ × ℕ)

-- `main` before its loop, with the listening socket `lfd`.
unfoldable pub init : ℕ → System
init lfd = record {
  tasks = [];
  table = λ k. none;
  watched = λ k. k == lfd;
  hung_up = λ id. false;
  accepted = 0;
  received = [];
  sent = [];
  told = [];
  emptied = [];
}

-- The thread that `main` creates for an event on `curfd`.
unfoldable pub start_thread : ℕ → ℕ → Task
start_thread lfd curfd = if curfd == lfd then accepting else receiving curfd []

abbrev pub move : System → ℕ → Task → System
move s i task = record s { tasks = set s.tasks i task }

-- A round of the loop of `main`.
unfoldable pub spawn : ℕ → List ℕ → System → System
unfolding start_thread
spawn lfd evs s = record s { tasks = s.tasks ++ map (start_thread lfd) evs }

-- `accept` has given `fd`; then `fcntl`.
unfoldable pub accept_conn : System → ℕ → ℕ → System
accept_conn s i fd = record (move s i (adding fd)) {
  table = λ k. if k == fd then some s.accepted else s.table k;
  accepted = suc s.accepted;
}

-- `epoll_ctl` with EPOLL_CTL_ADD
unfoldable pub add : System → ℕ → ℕ → System
add s i fd = record (move s i ended) { watched = λ k. k == fd || s.watched k }

abbrev pub capitals : List ℕ → List ℕ
capitals piece = upper_loop (length piece) 0 piece

-- `recv` has given `piece`: the loop with `toupper`, and `strncat`.
unfoldable pub keep : ℕ → List ℕ → List ℕ → Task
unfolding upper_loop until_nul
keep fd temp piece =
    let temp' = temp ++ until_nul (capitals piece) in
    if ltb (length temp') temp_size
    then sending fd (capitals piece) temp'
    else faulted fd (capitals piece)

unfoldable pub receive : System → ℕ → ℕ → List ℕ → List ℕ → System
unfolding keep
receive s i fd temp piece = record (move s i (keep fd temp piece)) {
  received = s.received ++ record { thread = i; fd = fd; client = s.table fd; bytes = piece } ∷ [];
}

-- `recv` has given EAGAIN.
unfoldable pub find_nothing : System → ℕ → ℕ → List ℕ → System
find_nothing s i fd temp = record (move s i (finishing fd temp)) {
  emptied = s.emptied ++ (i, fd) ∷ [];
}

-- `send(curfd, buf, len, 0)`, whose result `r` the code does not look at.
unfoldable pub send_piece : System → ℕ → ℕ → List ℕ → List ℕ → Option ℕ → System
send_piece s i fd buf temp r = record (move s i (receiving fd temp)) {
  sent =
      s.sent ++ record { thread = i; fd = fd; client = s.table fd; bytes = buf; result = r } ∷ [];
}

-- `send(curfd, temp, strlen(temp)+1, 0)`, with its result `r`
unfoldable pub tell : System → ℕ → ℕ → List ℕ → Option ℕ → System
tell s i fd temp r = record (move s i ended) {
  told =
      s.told
      ++ record { thread = i; fd = fd; client = s.table fd; bytes = temp ++ 0 ∷ []; result = r }
        ∷ [];
}

-- `epoll_ctl` with EPOLL_CTL_DEL
unfoldable pub delete : System → ℕ → ℕ → System
delete s i fd = record (move s i (closing fd)) { watched = λ k. not (k == fd) && s.watched k }

unfoldable pub close : System → ℕ → ℕ → System
close s i fd = record (move s i ended) { table = λ k. if k == fd then none else s.table k }

-- `epoll_wait` gives descriptors in the set only.
abbrev pub AllWatched : System → List ℕ → Type 0
AllWatched s [] = Unit
AllWatched s (k ∷ evs) = (s.watched k ≡ true) × AllWatched s evs

-- A descriptor that does not block: `send` may fail, or take a part.
abbrev pub Takes : Option ℕ → List ℕ → Type 0
Takes none buf = Unit
Takes (some n) buf = n ≤ length buf

pub data Step (lfd : ℕ) (s : System) : System → Type 0 where
  waits : (evs : List ℕ) → AllWatched s evs → Step lfd s (spawn lfd evs s)
  accepts :
      (i fd : ℕ)
      → get_elem? s.tasks i ≡ some accepting
      → (fd == lfd) ≡ false
      → s.table fd ≡ none
      → Step lfd s (accept_conn s i fd)
  -- `accept` gives -1, and then the other calls fail too.
  accept_fails : (i : ℕ) → get_elem? s.tasks i ≡ some accepting → Step lfd s (move s i ended)
  adds : (i fd : ℕ) → get_elem? s.tasks i ≡ some (adding fd) → Step lfd s (add s i fd)
  receives :
      (i fd id b : ℕ) (bs temp : List ℕ)
      → get_elem? s.tasks i ≡ some (receiving fd temp)
      → s.table fd ≡ some id
      → length (b ∷ bs) ≤ 5
      → Step lfd s (receive s i fd temp (b ∷ bs))
  finds_end :
      (i fd id : ℕ) (temp : List ℕ)
      → get_elem? s.tasks i ≡ some (receiving fd temp)
      → s.table fd ≡ some id
      → s.hung_up id ≡ true
      → Step lfd s (move s i (deleting fd))
  -- EAGAIN
  empties :
      (i fd : ℕ) (temp : List ℕ)
      → get_elem? s.tasks i ≡ some (receiving fd temp)
      → Step lfd s (find_nothing s i fd temp)
  receive_fails :
      (i fd : ℕ) (temp : List ℕ)
      → get_elem? s.tasks i ≡ some (receiving fd temp)
      → Step lfd s (move s i ended)
  sends :
      (i fd : ℕ) (buf temp : List ℕ) (r : Option ℕ)
      → get_elem? s.tasks i ≡ some (sending fd buf temp)
      → Takes r buf
      → Step lfd s (send_piece s i fd buf temp r)
  tells :
      (i fd : ℕ) (temp : List ℕ) (r : Option ℕ)
      → get_elem? s.tasks i ≡ some (finishing fd temp)
      → Takes r (temp ++ 0 ∷ [])
      → Step lfd s (tell s i fd temp r)
  deletes : (i fd : ℕ) → get_elem? s.tasks i ≡ some (deleting fd) → Step lfd s (delete s i fd)
  closes : (i fd : ℕ) → get_elem? s.tasks i ≡ some (closing fd) → Step lfd s (close s i fd)
  hangs_up : (id : ℕ) → Step lfd s (record s { hung_up = λ k. (k == id) || s.hung_up k })

pub data Reach (lfd : ℕ) : System → Type 0 where
  here : Reach lfd (init lfd)
  next : {s t : System} → Reach lfd s → Step lfd s t → Reach lfd t
