-- ===== src/EpollServer/Apart.antt =====
-- The loop of IO_mulit_way/epoll_server.c over a client leaves the connections of others alone.
use network_communications.Prelude.{
  ℕ, zero, suc, ◌<◌, ℤ, List, ◌∷◌, ◌≡◌, ◌≢◌, ap, subst, ◌∙◌, inl, inr, arith, length, length-append,
}
use network_communications.Run.{Loop, goes_on, ends, Stays, Returns, Returns-map}
use network_communications.Net.{Net}
use network_communications.Net.Stream.{Stream, Duplex, TakesWhole}
use network_communications.Net.Events.{Events, Gives, NowLaws}
use network_communications.EpollServer.{drain}
use network_communications.EpollServer.Drain.{Recvd-cases}

module _ (net : Net) (events : Events net) (laws : Stream net) where
  open net use {World, send, close}
  open events use {recv_now, epoll_del}
  open laws use {inbox, outbox}

  -- Nothing has happened to the connection of `fd` since `w`.
  abbrev pub Same : ℤ → World → World → Type 0
  Same fd w v = (inbox v fd ≡ inbox w fd) × (outbox v fd ≡ outbox w fd)

  -- What the code relies on: a call does nothing to other connections, and `epoll_ctl` to none.
  pub record Separate : Type 0 where
    pub recv_other :
        (w : World) (fd other : ℤ) (k : ℕ) → other ≢ fd → Same other w (recv_now w fd k).1
    pub send_other :
        (w : World) (fd other : ℤ) (buf : List ℕ) → other ≢ fd → Same other w (send w fd buf).1
    pub close_other : (w : World) (fd other : ℤ) → other ≢ fd → Same other w (close w fd).1
    pub del_other : (w : World) (epfd fd other : ℤ) → Same other w (epoll_del w epfd fd)

  pub Same-trans : (fd : ℤ) (w v u : World) → Same fd w v → Same fd v u → Same fd w u
  Same-trans fd w v u (a, b) (c, d) = (c ∙ a, d ∙ b)

  module _ (now : NowLaws net events laws) (apart : Duplex net laws) (whole : TakesWhole net 5)
      (separate : Separate) where
    open now use {arrived, now_law}

    pub drain-Same :
        (fuel : ℕ) (w : World) (epfd fd other : ℤ)
        → other ≢ fd
        → length (inbox w fd) < fuel
        → Returns (Stays (Same other w)) (drain net events fuel w epfd fd)
    unfolding drain
    drain-Same zero w epfd fd other ne h = absurd (omega arith)
    drain-Same (suc fuel) w epfd fd other ne h =
        let w1 : World = (recv_now w fd 5).1 in
        let law : Gives (inbox w fd) 5 (recv_now w fd 5).0 (inbox w1 fd) =
          now_law w fd 5 (omega arith) in
        let s1 : Same other w w1 = separate.recv_other w fd other 5 ne in
        elim (Recvd-cases (recv_now w fd 5).0) [
          | inl e ↦ rw (e, drain) s1
          | inr (inl e) ↦ rw (e, drain) s1
          | inr (inr (inl e)) ↦
              let gone = epoll_del w1 epfd fd in
              let s2 = Same-trans other w w1 gone s1 (separate.del_other w1 epfd fd other) in
              rw (e, drain)
                (Same-trans other w gone (close gone fd).1 s2
                  (separate.close_other gone fd other ne))
          | inr (inr (inr (b, bs, e))) ↦
              let (came, room) = subst (λ o. Gives (inbox w fd) 5 o (inbox w1 fd)) e law in
              let w2 : World = (send w1 fd (b ∷ bs)).1 in
              let s2 = Same-trans other w w1 w2 s1 (separate.send_other w1 fd other (b ∷ bs) ne) in
              let fewer : length (inbox w2 fd) < fuel = omega (
                arith,
                ap length (apart.send_inbox w1 fd (b ∷ bs)),
                ap length came,
                length-append (b ∷ bs) (inbox w1 fd),
              ) in
              rw (e, drain)
                (Returns-map (drain net events fuel w2 epfd fd) (Stays-after other w w2 s2)
                  (drain-Same fuel w2 epfd fd other ne fewer))
        ]
      where
        Stays-after :
            (other : ℤ) (w v : World)
            → Same other w v
            → (x : Loop World) → Stays (Same other v) x
            → Stays (Same other w) x
        Stays-after other w v s (goes_on u) t = Same-trans other w v u s t
        Stays-after other w v s (ends ret u) t = Same-trans other w v u s t
