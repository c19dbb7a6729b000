-- ===== src/SelectServer/Tests.antt =====
-- The server of IO_mulit_way/select_server.c where every client is number 4 and leaves at once.
use network_communications.Prelude.{
  ℤ, pos, negsuc, false, ◌||◌, [], ◌∷◌, none, some, ◌==◌, ◌≡◌, refl, arith, length,
}
use network_communications.Run.{Returns, Stays}
use network_communications.Net.{Net}
use network_communications.CText.{to_upper}
use network_communications.SelectServer.{
  Select, Selecting, FdSet, fd_remove, reply, start, watch_first, fd_insert, select_rounds,
}
use network_communications.SelectServer.Reply.{reply-upper}
use network_communications.SelectServer.Watched.{
  Sockets, ShortMessages, Watched, select_rounds-Watched,
}

abbrev closed_at : FdSet → ℤ → FdSet
closed_at w (pos n) = fd_remove w n
closed_at w (negsuc n) = w

-- The state is the set of open sockets.
abbrev leaving : Net
leaving = record {
  World = FdSet;
  socket = λ w. (pos 3, λ k. k == 3);
  bind = λ w fd port. (pos 0, w);
  listen = λ w fd backlog. (pos 0, w);
  accept = λ w fd. (pos 4, 0, λ k. k == 4 || w k);
  connect = λ w fd ip port. (pos 0, w);
  recv = λ w fd n. (some [], w);
  send = λ w fd bs. (some (length bs), w);
  close = λ w fd. (pos 0, closed_at w fd);
}

-- Every socket that is watched is ready.
abbrev all_ready : Select leaving
all_ready = record { select = λ w n set. (set, w) }

abbrev leaving_sockets : Sockets leaving all_ready
leaving_sockets = record {
  is_open = λ w. w;
  accepts = λ w fd. (4, refl, omega arith, λ k. refl);
  closes = λ w i k. refl;
  recv_keeps = λ w fd n k. refl;
  send_keeps = λ w fd bs k. refl;
  select_keeps = λ w n set k. refl;
}

leaving-ShortMessages : ShortMessages leaving
leaving-ShortMessages w fd bs e = ground arith

abbrev begun : Selecting FdSet
begun = record { rdset = λ k. k == 3 || false; maxfd = 3; world = λ k. k == 3 }

select_rounds-Watched_example :
    Returns
      (Stays (Watched leaving all_ready leaving_sockets 3))
      (select_rounds leaving all_ready 2 begun 3)
unfolding start watch_first fd_insert
select_rounds-Watched_example =
    select_rounds-Watched leaving all_ready leaving_sockets leaving-ShortMessages 2 (λ k. false) 3
      begun refl (λ k. refl)

reply-upper_example : reply (b'o' ∷ b'K' ∷ []) ≡ some (b'O' ∷ b'K' ∷ 0 ∷ [])
unfolding to_upper
reply-upper_example = reply-upper (b'o' ∷ b'K' ∷ []) (omega arith) (omega arith)

-- Ten bytes fill the buffer, and `strlen` reads on behind it.
full_buffer : reply (1 ∷ 2 ∷ 3 ∷ 4 ∷ 5 ∷ 6 ∷ 7 ∷ 8 ∷ 9 ∷ 10 ∷ []) ≡ none
unfolding reply to_upper
full_buffer = refl
