-- ===== src/ThreadEpoll/Overflow.antt =====
-- The buffer `temp` of IO_mulit_way/thread_epoll_server.c, which has room for 1023 bytes.
use network_communications.Prelude.{
  ℕ, zero, suc, ◌+◌, ◌<◌, ◌≤◌, ℤ, List, [], ◌∷◌, ◌++◌, map, length, ltb, ◌≡◌, ◌≢◌, ap, subst, inl,
  inr, arith, Bool-cases,
}
use network_communications.Run.{overrun}
use network_communications.Net.{Net}
use network_communications.Net.Stream.{Stream, Duplex}
use network_communications.Net.Events.{Events, Gives, NowLaws, Eager}
use network_communications.CText.{to_upper}
use network_communications.CText.Upper.{NoNul}
use network_communications.EpollServer.Drain.{Recvd-cases}
use network_communications.ThreadEpoll.{temp_size, communicate, communication}
use network_communications.ThreadEpoll.Chunk.{shouted, upper_loop-whole, said-Round}

module _ (net : Net) (events : Events net) (laws : Stream net) (now : NowLaws net events laws) where
  open net use {World, send}
  open events use {recv_now}
  open laws use {inbox}
  open now use {now_law}

  module _ (apart : Duplex net laws) (eager : Eager net events laws) where
    communicate-overrun :
        (fuel : ℕ) (w : World) (epfd fd : ℤ) (temp : List ℕ)
        → NoNul (inbox w fd)
        → length temp < temp_size
        → temp_size ≤ length temp + length (inbox w fd)
        → length (inbox w fd) < fuel
        → communicate net events fuel w epfd fd temp ≡ overrun
    unfolding communicate
    communicate-overrun zero w epfd fd temp clean below much h = absurd (omega arith)
    communicate-overrun (suc fuel) w epfd fd temp clean below much h =
        let w1 : World = (recv_now w fd 5).1 in
        let law : Gives (inbox w fd) 5 (recv_now w fd 5).0 (inbox w1 fd) =
          now_law w fd 5 (omega arith) in
        let some_left : inbox w fd ≢ [] = λ e. absurd (omega (arith, ap length e)) in
        let (not_again, not_failed) = eager w fd some_left in
        elim (Recvd-cases (recv_now w fd 5).0) [
          | inl e ↦ absurd (not_again e)
          | inr (inl e) ↦ absurd (not_failed e)
          | inr (inr (inl e)) ↦
              let (before, after) = subst (λ o. Gives (inbox w fd) 5 o (inbox w1 fd)) e law in
              absurd (some_left before)
          | inr (inr (inr (b, bs, e))) ↦
              let (came, room) = subst (λ o. Gives (inbox w fd) 5 o (inbox w1 fd)) e law in
              let chunk : List ℕ = b ∷ bs in
              let up = map to_upper chunk in
              let w2 : World = (send w1 fd up).1 in
              let r = said-Round net events laws apart w fd temp chunk clean came in
              rw (e, communicate, shouted chunk r.clean_chunk, upper_loop-whole chunk)
                (elim (Bool-cases (ltb (length (temp ++ up)) temp_size)) [
                  | inl fits ↦
                      let rest =
                        communicate-overrun fuel w2 epfd fd (temp ++ up) r.clean_left
                          (ground (arith, fits)) (omega (arith, r.long, r.total))
                          (omega (arith, r.total)) in
                      rw fits rest
                  | inr full ↦ rw full
                ])
        ]

    -- For a stream of 1024 bytes or more, none of them 0, that come as fast as the thread reads, given
    -- more rounds than bytes: `strncat` writes behind the end of `temp`.
    pub communication-overrun :
        (fuel : ℕ) (w : World) (epfd fd : ℤ)
        → NoNul (inbox w fd)
        → temp_size ≤ length (inbox w fd)
        → length (inbox w fd) < fuel
        → communication net events fuel w epfd fd ≡ overrun
    unfolding communication
    communication-overrun fuel w epfd fd clean much enough =
        communicate-overrun fuel w epfd fd [] clean (omega arith) (omega (arith, much)) enough
