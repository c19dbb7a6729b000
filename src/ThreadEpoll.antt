-- ===== src/ThreadEpoll.antt =====
-- IO_mulit_way/thread_epoll_server.c: a server over edge-triggered epoll with a thread for each event.
-- Its `main` up to the loop is that of epoll_server.c. Output is left out, as is the result of each
-- call that the code does not look at. The order in which threads run is left open.
pub mod Chunk
pub mod Talk
pub mod Overflow
pub mod System
mod Tests
use network_communications.Prelude.{
  ℕ, zero, suc, ◌+◌, ℤ, List, [], ◌∷◌, ◌++◌, length, map, ltb, ◌==◌, if◌then◌else◌,
}
use network_communications.Run.{Run, done, unfinished, overrun, Loop}
use network_communications.Net.{Net}
use network_communications.Net.Events.{Events, bytes, again, failed}
use network_communications.CText.{upper_loop}
use network_communications.Socket.{int_ne}
use network_communications.EpollServer

-- sizeof(temp)
abbrev pub temp_size : ℕ
temp_size = 1024

-- The bytes up to the first '\0', which is all that `strncat` appends.
unfoldable pub until_nul : List ℕ → List ℕ
until_nul [] = []
until_nul (b ∷ bs) = if b == 0 then [] else b ∷ until_nul bs

-- The thread that `main` creates for an event, with its descriptor.
pub data Job : Type 0 where
  accepts talks : ℤ → Job

-- The loop of `main` over the events of a round: the threads, in the order of their creation.
unfoldable pub jobs : ℤ → List ℤ → List Job
jobs lfd [] = []
jobs lfd (curfd ∷ evs) = (if int_ne curfd lfd then talks curfd else accepts curfd) ∷ jobs lfd evs

module _ (net : Net) (events : Events net) where
  open net use {World, accept, send, close}
  open events use {recv_now, set_nonblock, epoll_add, epoll_del, epoll_wait}

  -- `main` up to its loop: `lfd`, `epfd` and the world.
  unfoldable pub start : World → Loop (ℤ × ℤ × World)
  start w = EpollServer.start net events w

  -- A round of the loop of `main`: the threads that it creates, and the world.
  unfoldable pub spawn_round : World → ℤ → ℤ → List Job × World
  unfolding jobs
  spawn_round w epfd lfd = let (evs, w1) = epoll_wait w epfd in (jobs lfd evs, w1)

  -- The thread `acceptConn`.
  unfoldable pub accept_conn : World → ℤ → ℤ → World
  accept_conn w epfd fd =
      let (cfd, addr, w1) = accept w fd in (epoll_add (set_nonblock w1 cfd) epfd cfd).1

  -- The loop of the thread `communication`; `temp` is the text in its buffer, and the rounds are an
  -- argument. `strncat` writes the '\0' too, so the text has to be shorter than the buffer.
  unfoldable pub communicate : ℕ → World → ℤ → ℤ → List ℕ → Run World
  unfolding upper_loop until_nul
  communicate zero w epfd curfd temp = unfinished
  communicate (suc fuel) w epfd curfd temp =
      let got = recv_now w curfd 5 in
      elim got.0 [
        | bytes [] ↦ done (close (epoll_del got.1 epfd curfd) curfd).1
        | bytes (b ∷ bs) ↦
            let buf = upper_loop (length (b ∷ bs)) 0 (b ∷ bs) in
            let temp' = temp ++ until_nul buf in
            let rest = communicate fuel (send got.1 curfd buf).1 epfd curfd temp' in
            if ltb (length temp') temp_size then rest else overrun
        | again ↦ done (send got.1 curfd (temp ++ 0 ∷ [])).1
        | failed ↦ done got.1
      ]

  unfoldable pub communication : ℕ → World → ℤ → ℤ → Run World
  unfolding communicate
  communication fuel w epfd curfd = communicate fuel w epfd curfd []
