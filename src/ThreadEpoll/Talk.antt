-- ===== src/ThreadEpoll/Talk.antt =====
-- What the threads of IO_mulit_way/thread_epoll_server.c send to a client.
use network_communications.Prelude.{
  ℕ, zero, suc, ◌+◌, ◌<◌, ◌≤◌, ℤ, List, [], ◌∷◌, ◌++◌, map, length, ltb, true, ◌≡◌, refl, sym, ap,
  subst, ◌∙◌, inl, inr, arith, length-append, append_assoc, append-nil,
}
use network_communications.Run.{Returns, Returns-map}
use network_communications.Net.{Net}
use network_communications.Net.Stream.{Stream, Duplex, TakesWhole, send_whole}
use network_communications.Net.Events.{Events, bytes, again, failed, Gives, Emptied, NowLaws}
use network_communications.CText.{to_upper}
use network_communications.CText.Upper.{NoNul}
use network_communications.EpollServer.Drain.{Recvd-cases}
use network_communications.ThreadEpoll.Chunk.{
  shouted, upper_loop-whole, length-map_upper, map-append_upper, said-Round,
}
use network_communications.ThreadEpoll.{temp_size, communicate, communication}

module _ (net : Net) (events : Events net) (laws : Stream net) (now : NowLaws net events laws) where
  open net use {World, send, close}
  open events use {recv_now, epoll_del}
  open laws use {inbox, outbox}
  open now use {arrived, now_law, now_empties, now_outbox}

  -- How the thread has ended, by what its last `recv` gave, in the world `last`. Where that was EAGAIN,
  -- nothing that has arrived is unread, and the text in `temp` is sent after all the rest, with a '\0';
  -- at the end of the stream the connection is closed; after another error there is nothing more.
  pub data Ending (epfd fd : ℤ) (w last v : World) (temp got : List ℕ) : Type 0 where
    quiet :
        (recv_now last fd 5).0 ≡ again
        → arrived (recv_now last fd 5).1 fd ≡ []
        → v ≡ (send (recv_now last fd 5).1 fd (temp ++ (map to_upper got ++ 0 ∷ []))).1
        → outbox v fd ≡ outbox w fd ++ (map to_upper got ++ (temp ++ (map to_upper got ++ 0 ∷ [])))
        → Ending epfd fd w last v temp got
    closed :
        (recv_now last fd 5).0 ≡ bytes []
        → inbox last fd ≡ []
        → v ≡ (close (epoll_del (recv_now last fd 5).1 epfd fd) fd).1
        → outbox v fd ≡ outbox w fd ++ map to_upper got
        → Ending epfd fd w last v temp got
    broken :
        (recv_now last fd 5).0 ≡ failed
        → v ≡ (recv_now last fd 5).1
        → outbox v fd ≡ outbox w fd ++ map to_upper got
        → Ending epfd fd w last v temp got

  -- `got` was read since `w`, when `temp` held this text, and has been sent in capitals.
  pub record Told (epfd fd : ℤ) (w : World) (temp : List ℕ) (v : World) : Type 0 where
    pub got : List ℕ
    pub last : World
    pub taken : inbox w fd ≡ got ++ inbox last fd
    pub told : outbox last fd ≡ outbox w fd ++ map to_upper got
    pub ending : Ending epfd fd w last v temp got

  module _ (apart : Duplex net laws) (whole : TakesWhole net temp_size)
      (del_outbox : (w : World) (epfd fd : ℤ) → outbox (epoll_del w epfd fd) fd ≡ outbox w fd) where
    sent_chunk :
        (fd : ℤ) (w : World) (chunk : List ℕ)
        → length chunk ≤ temp_size
        → outbox (send (recv_now w fd 5).1 fd (map to_upper chunk)).1 fd
          ≡ outbox w fd ++ map to_upper chunk
    sent_chunk fd w chunk room =
        send_whole net laws temp_size whole (recv_now w fd 5).1 fd (map to_upper chunk)
          (omega (arith, length-map_upper chunk))
        ∙ ap (λ xs. xs ++ map to_upper chunk) (now_outbox w fd 5)

    -- A round that has sent `chunk` in capitals, and then the rest.
    Ending-after :
        (epfd fd : ℤ) (w last v : World) (temp chunk got : List ℕ)
        → length chunk ≤ temp_size
        → Ending epfd fd
            (send (recv_now w fd 5).1 fd (map to_upper chunk)).1
            last
            v
            (temp ++ map to_upper chunk)
            got
        → Ending epfd fd w last v temp (chunk ++ got)
    Ending-after epfd fd w last v temp chunk got room (quiet gave empty did out) =
        quiet gave empty
          (did
            ∙ ap (λ xs. (send (recv_now last fd 5).1 fd xs).1)
                (simp (map-append_upper chunk got, append_assoc)))
          (out ∙ simp (sent_chunk fd w chunk room, map-append_upper chunk got, append_assoc))
    Ending-after epfd fd w last v temp chunk got room (closed gave over did out) =
        closed gave over did
          (out ∙ simp (sent_chunk fd w chunk room, map-append_upper chunk got, append_assoc))
    Ending-after epfd fd w last v temp chunk got room (broken gave did out) =
        broken gave did
          (out ∙ simp (sent_chunk fd w chunk room, map-append_upper chunk got, append_assoc))

    Told-after :
        (epfd fd : ℤ) (w v : World) (temp chunk : List ℕ)
        → inbox w fd ≡ chunk ++ inbox (recv_now w fd 5).1 fd
        → length chunk ≤ temp_size
        → Told epfd fd
            (send (recv_now w fd 5).1 fd (map to_upper chunk)).1
            (temp ++ map to_upper chunk)
            v
        → Told epfd fd w temp v
    Told-after epfd fd w v temp chunk came room h = record {
      got = chunk ++ h.got;
      last = h.last;
      taken =
          came
          ∙ ap (λ xs. chunk ++ xs)
              (sym (apart.send_inbox (recv_now w fd 5).1 fd (map to_upper chunk)) ∙ h.taken)
          ∙ sym (append_assoc chunk h.got (inbox h.last fd));
      told = h.told ∙ simp (sent_chunk fd w chunk room, map-append_upper chunk h.got, append_assoc);
      ending = Ending-after epfd fd w h.last v temp chunk h.got room h.ending;
    }

    -- A round that reads nothing.
    untold :
        (epfd fd : ℤ) (w v : World) (temp : List ℕ)
        → Ending epfd fd w w v temp []
        → Told epfd fd w temp v
    untold epfd fd w v temp how = record {
      got = [];
      last = w;
      taken = refl;
      told = sym (append-nil (outbox w fd));
      ending = how;
    }

    told_all :
        (fd : ℤ) (w : World) (temp : List ℕ)
        → length temp < temp_size
        → outbox (send (recv_now w fd 5).1 fd (temp ++ 0 ∷ [])).1 fd
          ≡ outbox w fd ++ (temp ++ 0 ∷ [])
    told_all fd w temp room =
        send_whole net laws temp_size whole (recv_now w fd 5).1 fd (temp ++ 0 ∷ [])
          (omega (arith, length-append temp (0 ∷ [])))
        ∙ ap (λ xs. xs ++ (temp ++ 0 ∷ [])) (now_outbox w fd 5)

    closed_outbox :
        (w : World) (epfd fd : ℤ)
        → outbox (close (epoll_del (recv_now w fd 5).1 epfd fd) fd).1 fd ≡ outbox w fd ++ []
    closed_outbox w epfd fd =
        apart.close_outbox (epoll_del (recv_now w fd 5).1 epfd fd) fd fd
        ∙ del_outbox (recv_now w fd 5).1 epfd fd
        ∙ now_outbox w fd 5
        ∙ sym (append-nil (outbox w fd))

    communicate-Told :
        (fuel : ℕ) (w : World) (epfd fd : ℤ) (temp : List ℕ)
        → NoNul (inbox w fd)
        → length temp + length (inbox w fd) < temp_size
        → length (inbox w fd) < fuel
        → Returns (Told epfd fd w temp) (communicate net events fuel w epfd fd temp)
    unfolding communicate
    communicate-Told zero w epfd fd temp clean small h = absurd (omega arith)
    communicate-Told (suc fuel) w epfd fd temp clean small h =
        let w1 : World = (recv_now w fd 5).1 in
        let law : Gives (inbox w fd) 5 (recv_now w fd 5).0 (inbox w1 fd) =
          now_law w fd 5 (omega arith) in
        let empties : Emptied (recv_now w fd 5).0 (arrived w1 fd) =
          now_empties w fd 5 (omega arith) in
        elim (Recvd-cases (recv_now w fd 5).0) [
          | inl e ↦
              let quiet_now = subst (λ o. Emptied o (arrived w1 fd)) e empties in
              rw (e, communicate)
                (untold epfd fd w (send w1 fd (temp ++ 0 ∷ [])).1 temp
                  (quiet e quiet_now refl (told_all fd w temp (omega arith))))
          | inr (inl e) ↦
              rw (e, communicate)
                (untold epfd fd w w1 temp
                  (broken e refl (now_outbox w fd 5 ∙ sym (append-nil (outbox w fd)))))
          | inr (inr (inl e)) ↦
              let (before, after) = subst (λ o. Gives (inbox w fd) 5 o (inbox w1 fd)) e law in
              rw (e, communicate)
                (untold epfd fd w (close (epoll_del w1 epfd fd) fd).1 temp
                  (closed e before refl (closed_outbox w epfd fd)))
          | inr (inr (inr (b, bs, e))) ↦
              let (came, room) = subst (λ o. Gives (inbox w fd) 5 o (inbox w1 fd)) e law in
              let chunk : List ℕ = b ∷ bs in
              let up = map to_upper chunk in
              let w2 : World = (send w1 fd up).1 in
              let r = said-Round net events laws apart w fd temp chunk clean came in
              let small2 : length (temp ++ up) + length (inbox w2 fd) < temp_size =
                omega (arith, r.long, r.total) in
              let rest =
                communicate-Told fuel w2 epfd fd (temp ++ up) r.clean_left small2
                  (omega (arith, r.total)) in
              let fits : ltb (length (temp ++ up)) temp_size ≡ true = ground (arith, small2) in
              rw (e, communicate, shouted chunk r.clean_chunk, upper_loop-whole chunk, fits)
                (Returns-map (communicate net events fuel w2 epfd fd (temp ++ up))
                  (λ v. Told-after epfd fd w v temp chunk came (omega (arith, room))) rest)
        ]

    -- For a stream of fewer than 1024 bytes, none of them 0, with more rounds than bytes, and where
    -- `send` takes up to 1024 bytes whole and `epoll_ctl` leaves what was sent: the thread ends, and
    -- has sent what it read in capitals, in order. Where its last `recv` gave EAGAIN, nothing that has
    -- arrived is unread, and it has then sent all of that text a second time, with a '\0' behind it.
    -- Where it found the end of the stream, all was read, and the thread has taken the descriptor out
    -- of the set and closed it; after another error it has done nothing more.
    pub communication-Told :
        (fuel : ℕ) (w : World) (epfd fd : ℤ)
        → NoNul (inbox w fd)
        → length (inbox w fd) < temp_size
        → length (inbox w fd) < fuel
        → Returns (Told epfd fd w []) (communication net events fuel w epfd fd)
    unfolding communication
    communication-Told fuel w epfd fd clean small enough =
        communicate-Told fuel w epfd fd [] clean (omega (arith, small)) enough
