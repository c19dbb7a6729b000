-- ===== src/Net/Events.antt =====
-- Calls on sockets that do not block, and epoll, for the servers IO_mulit_way/epoll_server.c and
-- thread_epoll_server.c.
use network_communications.Prelude.{ℕ, ◌≤◌, ◌<◌, ℤ, List, [], ◌∷◌, ◌++◌, ◌≡◌, ◌≢◌, length}
use network_communications.Net.{Net}
use network_communications.Net.Stream.{Stream}

-- What recv(fd, buf, count, 0) gives: bytes, none of them at the end of the stream; or -1, with errno
-- EAGAIN or another.
pub data Recvd : Type 0 where
  bytes : List ℕ → Recvd
  again : Recvd
  failed : Recvd

pub record Events (net : Net) : Type 0 where
  pub recv_now : net.World → ℤ → ℕ → Recvd × net.World
  -- fcntl with F_GETFL, and with F_SETFL and O_NONBLOCK
  pub set_nonblock : net.World → ℤ → net.World
  pub epoll_create : net.World → ℤ × net.World
  -- epoll_ctl(epfd, EPOLL_CTL_ADD, fd, &ev) with EPOLLIN | EPOLLET
  pub epoll_add : net.World → ℤ → ℤ → ℤ × net.World
  -- epoll_ctl(epfd, EPOLL_CTL_DEL, fd, NULL)
  pub epoll_del : net.World → ℤ → ℤ → net.World
  -- epoll_wait(epfd, evs, 1024, -1): the descriptors of the events, none where it fails
  pub epoll_wait : net.World → ℤ → List ℤ × net.World

-- What a call of `recv_now` does to the stream.
abbrev pub Gives : List ℕ → ℕ → Recvd → List ℕ → Type 0
Gives before k (bytes []) after = (before ≡ []) × (after ≡ [])
Gives before k (bytes (b ∷ bs)) after = (before ≡ (b ∷ bs) ++ after) × (length (b ∷ bs) ≤ k)
Gives before k again after = after ≡ before
Gives before k failed after = after ≡ before

-- After which results nothing has arrived that is not read.
abbrev pub Emptied : Recvd → List ℕ → Type 0
Emptied (bytes []) arrived = arrived ≡ []
Emptied (bytes (b ∷ bs)) arrived = Unit
Emptied again arrived = arrived ≡ []
Emptied failed arrived = Unit

pub record NowLaws (net : Net) (events : Events net) (laws : Stream net) : Type 0 where
  -- the part of `inbox` that has arrived
  pub arrived : net.World → ℤ → List ℕ
  pub now_law :
      (w : net.World) (fd : ℤ) (k : ℕ)
      → 0 < k
      → Gives
          (laws.inbox w fd)
          k
          (events.recv_now w fd k).0
          (laws.inbox (events.recv_now w fd k).1 fd)
  pub now_empties :
      (w : net.World) (fd : ℤ) (k : ℕ)
      → 0 < k
      → Emptied (events.recv_now w fd k).0 (arrived (events.recv_now w fd k).1 fd)
  pub now_outbox :
      (w : net.World) (fd : ℤ) (k : ℕ)
      → laws.outbox (events.recv_now w fd k).1 fd ≡ laws.outbox w fd

-- The client is fast: while there are bytes to come, a `recv` gets some.
abbrev pub Eager : (net : Net) → Events net → Stream net → Type 0
Eager net events laws =
    (w : net.World) (fd : ℤ)
    → laws.inbox w fd ≢ []
    → ((events.recv_now w fd 5).0 ≢ again) × ((events.recv_now w fd 5).0 ≢ failed)
