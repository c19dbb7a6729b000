-- ===== src/EpollServer/Round.antt =====
-- A round of the outer loop of IO_mulit_way/epoll_server.c, with the events of several clients.
use network_communications.Prelude.{
  ℕ, ◌<◌, ℤ, pos, true, List, [], ◌∷◌, ◌++◌, ◌≡◌, ◌≢◌, refl, sym, ap, subst, ◌∙◌, inl, inr, ◌⊎◌,
  arith, length,
}
use network_communications.Run.{
  done, Loop, goes_on, ends, Stays, and_then, Returns, Returns-map, Returns-done,
}
use network_communications.Net.{Net}
use network_communications.Net.Stream.{Stream, Duplex, TakesWhole}
use network_communications.Net.Events.{Events, NowLaws}
use network_communications.Socket.{int_ne}
use network_communications.EpollServer.{drain, handle_all}
use network_communications.EpollServer.Drain.{Finished, Failed, Drained, drain-Drained}
use network_communications.EpollServer.Apart.{Same, Separate, Same-trans, drain-Same}

module _ (net : Net) (events : Events net) (laws : Stream net) where
  open net use {World, send, close}
  open events use {recv_now, epoll_del}
  open laws use {inbox, outbox}

  module _ (now : NowLaws net events laws) (apart : Duplex net laws) (whole : TakesWhole net 5)
      (separate : Separate net events laws) where
    open now use {arrived, now_law}

    -- Since `w`, and up to `v`, the loop over the client has run once on the connection of `fd`, from
    -- `begin` to `after`, and gone to its end; all that it has read, up to a moment when nothing that
    -- had arrived was unread, has been sent back.
    pub record Served (epfd fd : ℤ) (w v : World) : Type 0 where
      pub begin : World
      pub after : World
      pub untouched : Same net events laws fd w begin
      pub finished : Finished net events laws now epfd fd begin after
      pub left_so : Same net events laws fd after v
      pub sent_back : outbox v fd ≡ outbox w fd ++ finished.echoed.got

    -- The loop over the client has begun with its connection as it was at `w`, and `recv` has failed.
    pub record Broken (fd : ℤ) (w v : World) : Type 0 where
      pub begin : World
      pub untouched : Same net events laws fd w begin
      pub failure : Failed net events laws now fd begin v

    finished_outbox :
        (epfd fd : ℤ) (w v : World) (h : Finished net events laws now epfd fd w v)
        → outbox v fd ≡ outbox w fd ++ h.echoed.got
    finished_outbox epfd fd w v h = elim h.how [
      | inl (gave, same) ↦ ap (λ u. outbox u fd) same ∙ h.echoed.sent
      | inr (gave, end, same) ↦
          let last = (recv_now h.last fd 5).1 in
          ap (λ u. outbox u fd) same
          ∙ laws.close_law (epoll_del last epfd fd) fd
          ∙ (separate.del_other last epfd fd fd).1
          ∙ h.echoed.sent
    ]

    Finished-Served :
        (epfd fd : ℤ) (w v : World) → Finished net events laws now epfd fd w v → Served epfd fd w v
    Finished-Served epfd fd w v h = record {
      begin = w;
      after = v;
      untouched = (refl, refl);
      finished = h;
      left_so = (refl, refl);
      sent_back = finished_outbox epfd fd w v h;
    }

    -- What happens to other connections, before or after, does not matter.
    Served-before :
        (epfd fd : ℤ) (w v u : World)
        → Same net events laws fd w v
        → Served epfd fd v u
        → Served epfd fd w u
    Served-before epfd fd w v u s h = record {
      begin = h.begin;
      after = h.after;
      untouched = Same-trans net events laws fd w v h.begin s h.untouched;
      finished = h.finished;
      left_so = h.left_so;
      sent_back = h.sent_back ∙ ap (λ xs. xs ++ h.finished.echoed.got) s.1;
    }

    Served-after :
        (epfd fd : ℤ) (w v u : World)
        → Served epfd fd w v
        → Same net events laws fd v u
        → Served epfd fd w u
    Served-after epfd fd w v u h s = record {
      begin = h.begin;
      after = h.after;
      untouched = h.untouched;
      finished = h.finished;
      left_so = Same-trans net events laws fd h.after v u h.left_so s;
      sent_back = s.1 ∙ h.sent_back;
    }

    Broken-before :
        (fd : ℤ) (w v u : World) → Same net events laws fd w v → Broken fd v u → Broken fd w u
    Broken-before fd w v u s h = record {
      begin = h.begin;
      untouched = Same-trans net events laws fd w v h.begin s h.untouched;
      failure = h.failure;
    }

    abbrev pub Each : (ℤ → Type 0) → List ℤ → Type 0
    Each P [] = Unit
    Each P (fd ∷ fds) = P fd × Each P fds

    Each-map :
        (P Q : ℤ → Type 0) → ((fd : ℤ) → P fd → Q fd) → (fds : List ℤ) → Each P fds → Each Q fds
    Each-map P Q f [] h = tt
    Each-map P Q f (fd ∷ fds) (p, h) = (f fd p, Each-map P Q f fds h)

    -- Both hold of each.
    Each-both :
        (P Q : ℤ → Type 0) (fds : List ℤ) → Each P fds → Each Q fds → Each (λ fd. P fd × Q fd) fds
    Each-both P Q [] h k = tt
    Each-both P Q (fd ∷ fds) (p, h) (q, k) = ((p, q), Each-both P Q fds h k)

    -- The events of different clients, none of the listening socket.
    abbrev pub Clients : ℤ → List ℤ → Type 0
    Clients lfd [] = Unit
    Clients lfd (fd ∷ fds) =
        (int_ne fd lfd ≡ true) × Each (λ other. other ≢ fd) fds × Clients lfd fds

    -- After the events `fds`: their connections are served, and nothing has happened to others.
    abbrev pub Handled : ℤ → List ℤ → World → World → Type 0
    Handled epfd fds w v =
        Each (λ fd. Served epfd fd w v) fds
        × ((other : ℤ) → Each (λ fd. other ≢ fd) fds → Same net events laws other w v)

    -- One of the events, whose `recv` has failed; those before it are served, and nothing has happened
    -- to those behind it.
    abbrev pub StoppedAt : ℤ → List ℤ → World → World → Type 0
    StoppedAt epfd [] w v = ⊥
    StoppedAt epfd (fd ∷ fds) w v =
        (Broken fd w v × Each (λ other. Same net events laws other w v) fds)
        ⊎ (Served epfd fd w v × StoppedAt epfd fds w v)

    -- The loop over the events has gone to its end; or the program ends with 0 at one of them.
    abbrev pub Ends : ℤ → List ℤ → World → Loop World → Type 0
    Ends epfd fds w (goes_on v) = Handled epfd fds w v
    Ends epfd fds w (ends ret v) =
        (ret ≡ pos 0)
        × StoppedAt epfd fds w v
        × ((other : ℤ) → Each (λ fd. other ≢ fd) fds → Same net events laws other w v)

    StoppedAt-before :
        (epfd fd : ℤ) (fds : List ℤ) (w v u : World)
        → Each (λ other. other ≢ fd) fds
        → ((other : ℤ) → other ≢ fd → Same net events laws other w v)
        → StoppedAt epfd fds v u
        → StoppedAt epfd fds w u
    StoppedAt-before epfd fd [] w v u distinct same h = h
    StoppedAt-before epfd fd (o ∷ fds) w v u (ne, distinct) same (inl (broken, still)) = inl (
      Broken-before o w v u (same o ne) broken,
      Each-map (λ k. (k ≢ fd) × Same net events laws k v u) (λ k. Same net events laws k w u)
          (λ k h. Same-trans net events laws k w v u (same k h.0) h.1) fds
          (Each-both (λ k. k ≢ fd) (λ k. Same net events laws k v u) fds distinct still),
    )
    StoppedAt-before epfd fd (o ∷ fds) w v u (ne, distinct) same (inr (served, later)) = inr (
      Served-before epfd o w v u (same o ne) served,
      StoppedAt-before epfd fd fds w v u distinct same later,
    )

    -- After one event `fd`, the rest.
    Ends-cons :
        (epfd fd : ℤ) (fds : List ℤ) (w v : World) (x : Loop World)
        → Each (λ other. other ≢ fd) fds
        → Served epfd fd w v
        → ((other : ℤ) → other ≢ fd → Same net events laws other w v)
        → Ends epfd fds v x
        → Ends epfd (fd ∷ fds) w x
    Ends-cons epfd fd fds w v (goes_on u) distinct here same (served, rest) = (
      (
        Served-after epfd fd w v u here
            (rest fd (Each-map (λ o. o ≢ fd) (λ o. fd ≢ o) (λ o ne e. ne (sym e)) fds distinct)),
        Each-map (λ o. (o ≢ fd) × Served epfd o v u) (λ o. Served epfd o w u)
            (λ o h. Served-before epfd o w v u (same o h.0) h.1) fds
            (Each-both (λ o. o ≢ fd) (λ o. Served epfd o v u) fds distinct served),
      ),
      (λ other apart_from.
          Same-trans net events laws other w v u (same other apart_from.0)
            (rest other apart_from.1)),
    )
    Ends-cons epfd fd fds w v (ends ret u) distinct here same (code, stopped, rest) = (
      code,
      inr (
        Served-after epfd fd w v u here
            (rest fd (Each-map (λ o. o ≢ fd) (λ o. fd ≢ o) (λ o ne e. ne (sym e)) fds distinct)),
        StoppedAt-before epfd fd fds w v u distinct same stopped,
      ),
      (λ other apart_from.
          Same-trans net events laws other w v u (same other apart_from.0)
            (rest other apart_from.1)),
    )

    -- For the events of different clients, none of them the listening socket, with more rounds for each
    -- than bytes are still to come, where a call does nothing to other connections and a `send` of at
    -- most five bytes takes them all: the loop over the events ends, and nothing has happened to other
    -- connections. Each of these clients has been served: what its loop has read, up to EAGAIN or the
    -- end of the stream, has been sent back in order, and at the end of the stream the connection has
    -- been closed. Or a `recv` has failed otherwise, and the program has ended there with 0: the
    -- clients before that one are served, what was read of it was sent back, and nothing has happened
    -- to those behind it.
    pub handle_all-Handled :
        (fuel : ℕ) (epfd lfd : ℤ) (fds : List ℤ) (w : World)
        → Clients lfd fds
        → Each (λ fd. length (inbox w fd) < fuel) fds
        → Returns (Ends epfd fds w) (handle_all net events fuel epfd lfd fds w)
    unfolding handle_all
    handle_all-Handled fuel epfd lfd [] w c h = (tt, (λ other n. (refl, refl)))
    handle_all-Handled fuel epfd lfd (fd ∷ fds) w (ne, distinct, c) (enough, h) =
        let (x, e, d) =
          Returns-done (Drained net events laws now epfd fd w) (drain net events fuel w epfd fd)
            (drain-Drained net events laws now apart whole fuel w epfd fd enough) in
        let same : (other : ℤ) → other ≢ fd → Stays (Same net events laws other w) x = λ other off.
          subst (Returns (Stays (Same net events laws other w))) e
            (drain-Same net events laws now apart whole separate fuel w epfd fd other off enough) in
        rw (ne, e) (rest x d same (λ v k. handle_all-Handled fuel epfd lfd fds v c k))
      where
        rest :
            (x : Loop World)
            → Drained net events laws now epfd fd w x
            → ((other : ℤ) → other ≢ fd → Stays (Same net events laws other w) x)
            → ((v : World)
                → Each (λ o. length (inbox v o) < fuel) fds
                → Returns (Ends epfd fds v) (handle_all net events fuel epfd lfd fds v))
            → Returns
                (Ends epfd (fd ∷ fds) w)
                (and_then (done x) (λ v. handle_all net events fuel epfd lfd fds v))
        rest (ends ret v) (code, failure) same others = (
          code,
          inl (
            record { begin = w; untouched = (refl, refl); failure = failure },
            Each-map (λ o. o ≢ fd) (λ o. Same net events laws o w v) same fds distinct,
          ),
          (λ other apart_from. same other apart_from.0),
        )
        rest (goes_on v) finished same others =
            let still : Each (λ o. length (inbox v o) < fuel) fds =
              Each-map (λ o. (o ≢ fd) × (length (inbox w o) < fuel))
                (λ o. length (inbox v o) < fuel)
                (λ o k. omega (arith, k.1, ap length (same o k.0).0)) fds
                (Each-both (λ o. o ≢ fd) (λ o. length (inbox w o) < fuel) fds distinct h) in
            Returns-map (handle_all net events fuel epfd lfd fds v)
              (λ y.
                Ends-cons epfd fd fds w v y distinct (Finished-Served epfd fd w v finished) same)
              (others v still)
