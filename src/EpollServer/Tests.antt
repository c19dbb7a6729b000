-- ===== src/EpollServer/Tests.antt =====
-- The server of IO_mulit_way/epoll_server.c with a client that sends seven bytes, in pieces of three.
use network_communications.Prelude.{ℤ, pos, [], ◌∷◌, ◌≡◌, ◌≢◌, refl, ap, arith}
use network_communications.Run.{done, goes_on, Returns}
use network_communications.Net.Pipe.{
  Pipe, whole_pipe, whole_laws, whole-Duplex, whole-TakesWhole, whole_events, whole_now, arriving,
}
use network_communications.Net.Pipes.{
  put, put_other, pipes, pipes_events, pipes_laws, pipes_now, pipes-Duplex, pipes-TakesWhole,
}
use network_communications.EpollServer.Apart.{Separate}
use network_communications.EpollServer.Round.{Ends, handle_all-Handled}
use network_communications.EpollServer.{drain, epoll_rounds, handle_all}
use network_communications.EpollServer.Drain.{Drained, drain-Drained}

abbrev client : Pipe
client = arriving 2 (1 ∷ 2 ∷ 3 ∷ 4 ∷ 5 ∷ 6 ∷ 7 ∷ [])

drain-Drained_example :
    Returns
      (Drained whole_pipe whole_events whole_laws whole_now (pos 5) (pos 4) client)
      (drain whole_pipe whole_events 8 client (pos 5) (pos 4))
drain-Drained_example =
    drain-Drained whole_pipe whole_events whole_laws whole_now whole-Duplex (whole-TakesWhole 5) 8
      client (pos 5) (pos 4) (omega arith)

-- One event of the client: a round of the server echoes everything.
server_echoes :
    epoll_rounds whole_pipe whole_events 8 1 (pos 5) (pos 3) client
    ≡ done (goes_on (record client { incoming = []; outgoing = 1 ∷ 2 ∷ 3 ∷ 4 ∷ 5 ∷ 6 ∷ 7 ∷ [] }))
unfolding epoll_rounds handle_all drain
server_echoes = refl

-- Two clients, on the descriptors 4 and 6.
abbrev two_clients : ℤ → Pipe
two_clients = put (put (λ fd. arriving 0 []) (pos 4) client) (pos 6) (arriving 1 (8 ∷ 9 ∷ []))

separate : Separate pipes pipes_events pipes_laws
separate = record {
  recv_other = λ w fd other k ne.
      let same = put_other w fd other (whole_events.recv_now (w fd) fd k).1 ne in
      (ap (λ p. p.incoming) same, ap (λ p. p.outgoing) same);
  send_other = λ w fd other buf ne.
      let same = put_other w fd other (whole_pipe.send (w fd) fd buf).1 ne in
      (ap (λ p. p.incoming) same, ap (λ p. p.outgoing) same);
  close_other = λ w fd other ne. (refl, refl);
  del_other = λ w epfd fd other. (refl, refl);
}

six_is_not_four : pos 6 ≢ pos 4
six_is_not_four e = cc

handle_all-Handled_example :
    Returns
      (Ends pipes pipes_events pipes_laws pipes_now pipes-Duplex
        (pipes-TakesWhole 5)
        separate
        (pos 5)
        (pos 4 ∷ pos 6 ∷ [])
        two_clients)
      (handle_all pipes pipes_events 8 (pos 5) (pos 3) (pos 4 ∷ pos 6 ∷ []) two_clients)
handle_all-Handled_example =
    handle_all-Handled pipes pipes_events pipes_laws pipes_now pipes-Duplex (pipes-TakesWhole 5)
      separate 8 (pos 5) (pos 3) (pos 4 ∷ pos 6 ∷ []) two_clients
      (refl, (six_is_not_four, tt), (refl, tt, tt)) (omega arith, (omega arith, tt))
