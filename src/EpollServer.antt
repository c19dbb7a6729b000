-- ===== src/EpollServer.antt =====
-- IO_mulit_way/epoll_server.c: a server that echoes to many clients, over edge-triggered epoll. Output
-- is left out, as is the result of each call that the code does not look at. `exit` is the end of the
-- program with that result.
pub mod Drain
pub mod Apart
pub mod Round
mod Tests
use network_communications.Prelude.{
  ℕ, zero, suc, ℤ, pos, is_minus_one, Bool, true, false, List, [], ◌∷◌, if◌then◌else◌,
}
use network_communications.Run.{Run, done, unfinished, Loop, goes_on, ends, and_then}
use network_communications.Net.{Net}
use network_communications.Net.Events.{Events, bytes, again, failed}
use network_communications.Socket.{int_ne}

module _ (net : Net) (events : Events net) where
  open net use {World, socket, bind, listen, accept, send, close}
  open events use {recv_now, set_nonblock, epoll_create, epoll_add, epoll_del, epoll_wait}

  -- `main` up to its loop: `lfd`, `epfd` and the world.
  unfoldable pub start : World → Loop (ℤ × ℤ × World)
  start w =
      let (lfd, w1) = socket w in
      if is_minus_one lfd
      then ends (pos 1) (lfd, lfd, w1)
      else (let (ret, w2) = bind w1 lfd 5555 in
          if is_minus_one ret
          then ends (pos 1) (lfd, lfd, w2)
          else (let (ret2, w3) = listen w2 lfd 12 in
              if is_minus_one ret2
              then ends (pos 1) (lfd, lfd, w3)
              else (let (epfd, w4) = epoll_create w3 in
                  if is_minus_one epfd
                  then ends (pos 0) (lfd, epfd, w4)
                  else (let (ret3, w5) = epoll_add w4 epfd lfd in
                      if is_minus_one ret3
                      then ends (pos 0) (lfd, epfd, w5)
                      else goes_on (lfd, epfd, w5)))))

  -- The inner `while (1)`: a client's bytes, five at a time. The rounds are an argument.
  unfoldable pub drain : ℕ → World → ℤ → ℤ → Run (Loop World)
  drain zero w epfd curfd = unfinished
  drain (suc fuel) w epfd curfd =
      let got = recv_now w curfd 5 in
      elim got.0 [
        | bytes [] ↦ done (goes_on (close (epoll_del got.1 epfd curfd) curfd).1)
        | bytes (b ∷ bs) ↦ drain fuel (send got.1 curfd (b ∷ bs)).1 epfd curfd
        | again ↦ done (goes_on got.1)
        | failed ↦ done (ends (pos 0) got.1)
      ]

  -- The listening socket is ready: one client.
  pub accept_client : World → ℤ → ℤ → Loop World
  accept_client w epfd lfd =
      let (cfd, addr, w1) = accept w lfd in
      let (ret, w2) = epoll_add (set_nonblock w1 cfd) epfd cfd in
      if is_minus_one ret then ends (pos 0) w2 else goes_on w2

  -- The loop over the events.
  unfoldable pub handle_all : ℕ → ℤ → ℤ → List ℤ → World → Run (Loop World)
  unfolding drain accept_client
  handle_all fuel epfd lfd [] w = done (goes_on w)
  handle_all fuel epfd lfd (curfd ∷ evs) w =
      and_then
        (if int_ne curfd lfd then drain fuel w epfd curfd else done (accept_client w epfd lfd))
        (λ v. handle_all fuel epfd lfd evs v)

  -- The first rounds of the outer loop.
  unfoldable pub epoll_rounds : ℕ → ℕ → ℤ → ℤ → World → Run (Loop World)
  epoll_rounds fuel zero epfd lfd w = done (goes_on w)
  epoll_rounds fuel (suc n) epfd lfd w =
      let (evs, w1) = epoll_wait w epfd in
      and_then (handle_all fuel epfd lfd evs w1) (λ v. epoll_rounds fuel n epfd lfd v)
