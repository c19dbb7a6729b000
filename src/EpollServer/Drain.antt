-- ===== src/EpollServer/Drain.antt =====
-- The server of IO_mulit_way/epoll_server.c reads until nothing is left, as an edge-triggered event
-- demands, and echoes all of it.
use network_communications.Prelude.{
  ℕ, zero, suc, ◌<◌, ◌≤◌, ℤ, pos, List, [], ◌∷◌, ◌++◌, ◌≡◌, ◌⊎◌, refl, sym, ap, subst, ◌∙◌, inl,
  inr, arith, length, length-append, append_assoc, append-nil,
}
use network_communications.Run.{Loop, goes_on, ends, Returns, Returns-map}
use network_communications.Net.{Net}
use network_communications.Net.Stream.{Stream, Duplex, TakesWhole, send_whole}
use network_communications.Net.Events.{Events, Recvd, bytes, again, failed, Gives, Emptied, NowLaws}
use network_communications.EpollServer.{drain}

pub Recvd-cases :
    (o : Recvd)
    → (o ≡ again) ⊎ (o ≡ failed) ⊎ (o ≡ bytes []) ⊎ ((b : ℕ) × (bs : List ℕ) × (o ≡ bytes (b ∷ bs)))
Recvd-cases again = inl refl
Recvd-cases failed = inr (inl refl)
Recvd-cases (bytes []) = inr (inr (inl refl))
Recvd-cases (bytes (b ∷ bs)) = inr (inr (inr (b, bs, refl)))

module _ (net : Net) (events : Events net) (laws : Stream net) (now : NowLaws net events laws) where
  open net use {World, send, close}
  open events use {recv_now, epoll_del}
  open laws use {inbox, outbox}
  open now use {arrived, now_law, now_empties, now_outbox}

  -- `last` is the world after the last `recv`: what was read since `w` has been sent, in order.
  pub record Echoed (fd : ℤ) (w last : World) : Type 0 where
    pub got : List ℕ
    pub taken : inbox w fd ≡ got ++ inbox last fd
    pub sent : outbox last fd ≡ outbox w fd ++ got

  -- The loop has gone to its end, by the last `recv`, in the world `last`: that gave EAGAIN; or no
  -- byte, at the end of the stream, and the connection is closed. Nothing that has arrived is unread.
  pub record Finished (epfd fd : ℤ) (w v : World) : Type 0 where
    pub last : World
    pub echoed : Echoed fd w (recv_now last fd 5).1
    pub quiet : arrived (recv_now last fd 5).1 fd ≡ []
    pub how :
        (((recv_now last fd 5).0 ≡ again) × (v ≡ (recv_now last fd 5).1))
        ⊎ (((recv_now last fd 5).0 ≡ bytes [])
            × (inbox last fd ≡ [])
            × (v ≡ (close (epoll_del (recv_now last fd 5).1 epfd fd) fd).1))

  -- The last `recv` has failed, with another error than EAGAIN.
  pub record Failed (fd : ℤ) (w v : World) : Type 0 where
    pub last : World
    pub echoed : Echoed fd w v
    pub gave : (recv_now last fd 5).0 ≡ failed
    pub at_once : v ≡ (recv_now last fd 5).1

  -- The loop has gone to its end; or the program ends with 0, since `recv` has failed.
  abbrev pub Drained : ℤ → ℤ → World → Loop World → Type 0
  Drained epfd fd w (goes_on v) = Finished epfd fd w v
  Drained epfd fd w (ends ret v) = (ret ≡ pos 0) × Failed fd w v

  module _ (apart : Duplex net laws) (whole : TakesWhole net 5) where
    nothing :
        (fd : ℤ) (w : World)
        → inbox (recv_now w fd 5).1 fd ≡ inbox w fd
        → Echoed fd w (recv_now w fd 5).1
    nothing fd w same = record {
      got = [];
      taken = sym same;
      sent = now_outbox w fd 5 ∙ sym (append-nil (outbox w fd));
    }

    -- A round that has echoed `chunk`, and then the rest.
    Echoed-after :
        (fd : ℤ) (w last : World) (chunk : List ℕ)
        → inbox w fd ≡ chunk ++ inbox (recv_now w fd 5).1 fd
        → length chunk ≤ 5
        → Echoed fd (send (recv_now w fd 5).1 fd chunk).1 last
        → Echoed fd w last
    Echoed-after fd w last chunk came room h = record {
      got = chunk ++ h.got;
      taken =
          came
          ∙ ap (λ xs. chunk ++ xs) (sym (apart.send_inbox (recv_now w fd 5).1 fd chunk) ∙ h.taken)
          ∙ sym (append_assoc chunk h.got (inbox last fd));
      sent =
          h.sent
          ∙ ap (λ xs. xs ++ h.got)
              (send_whole net laws 5 whole (recv_now w fd 5).1 fd chunk room
                ∙ ap (λ xs. xs ++ chunk) (now_outbox w fd 5))
          ∙ append_assoc (outbox w fd) chunk h.got;
    }

    Drained-after :
        (epfd fd : ℤ) (w : World) (chunk : List ℕ) (x : Loop World)
        → inbox w fd ≡ chunk ++ inbox (recv_now w fd 5).1 fd
        → length chunk ≤ 5
        → Drained epfd fd (send (recv_now w fd 5).1 fd chunk).1 x
        → Drained epfd fd w x
    Drained-after epfd fd w chunk (goes_on v) came room h = record {
      last = h.last;
      echoed = Echoed-after fd w (recv_now h.last fd 5).1 chunk came room h.echoed;
      quiet = h.quiet;
      how = h.how;
    }
    Drained-after epfd fd w chunk (ends ret v) came room (code, h) = (
      code,
      record {
        last = h.last;
        echoed = Echoed-after fd w v chunk came room h.echoed;
        gave = h.gave;
        at_once = h.at_once;
      },
    )

    -- Given more rounds than the bytes that are still to come, and where a `send` of at most five bytes
    -- takes them all: the loop over a client ends. What it has read has been sent back, in order. It
    -- ends at EAGAIN, or, with the connection closed, at the end of the stream, and nothing that has
    -- arrived is unread; or `recv` has failed otherwise, and then the program ends with 0.
    pub drain-Drained :
        (fuel : ℕ) (w : World) (epfd fd : ℤ)
        → length (inbox w fd) < fuel
        → Returns (Drained epfd fd w) (drain net events fuel w epfd fd)
    unfolding drain
    drain-Drained zero w epfd fd h = absurd (omega arith)
    drain-Drained (suc fuel) w epfd fd h =
        let w1 : World = (recv_now w fd 5).1 in
        let law : Gives (inbox w fd) 5 (recv_now w fd 5).0 (inbox w1 fd) =
          now_law w fd 5 (omega arith) in
        let empties : Emptied (recv_now w fd 5).0 (arrived w1 fd) =
          now_empties w fd 5 (omega arith) in
        elim (Recvd-cases (recv_now w fd 5).0) [
          | inl e ↦
              let same = subst (λ o. Gives (inbox w fd) 5 o (inbox w1 fd)) e law in
              let quiet = subst (λ o. Emptied o (arrived w1 fd)) e empties in
              rw (e, drain)
                (record {
                  last = w;
                  echoed = nothing fd w same;
                  quiet = quiet;
                  how = inl (e, refl);
                })
          | inr (inl e) ↦
              let same = subst (λ o. Gives (inbox w fd) 5 o (inbox w1 fd)) e law in
              rw (e, drain)
                (refl, record { last = w; echoed = nothing fd w same; gave = e; at_once = refl })
          | inr (inr (inl e)) ↦
              let (before, after) = subst (λ o. Gives (inbox w fd) 5 o (inbox w1 fd)) e law in
              let quiet = subst (λ o. Emptied o (arrived w1 fd)) e empties in
              rw (e, drain)
                (record {
                  last = w;
                  echoed = nothing fd w (after ∙ sym before);
                  quiet = quiet;
                  how = inr (e, before, refl);
                })
          | inr (inr (inr (b, bs, e))) ↦
              let (came, room) = subst (λ o. Gives (inbox w fd) 5 o (inbox w1 fd)) e law in
              let left = apart.send_inbox w1 fd (b ∷ bs) in
              let fewer : length (inbox (send w1 fd (b ∷ bs)).1 fd) < fuel =
                omega
                  (arith, ap length left, ap length came, length-append (b ∷ bs) (inbox w1 fd)) in
              rw (e, drain)
                (Returns-map (drain net events fuel (send w1 fd (b ∷ bs)).1 epfd fd)
                  (λ x. Drained-after epfd fd w (b ∷ bs) x came room)
                  (drain-Drained fuel (send w1 fd (b ∷ bs)).1 epfd fd fewer))
        ]
