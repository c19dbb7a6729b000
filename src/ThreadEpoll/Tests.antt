-- ===== src/ThreadEpoll/Tests.antt =====
-- The threads of IO_mulit_way/thread_epoll_server.c with small and large clients.
use network_communications.Prelude.{
  ℕ, zero, suc, pos, [], ◌∷◌, ◌≡◌, refl, arith, replicate, some, map, List, get_elem?, ◌++◌,
}
use network_communications.Run.{done, overrun, Returns}
use network_communications.Net.Pipe.{
  Pipe, whole_pipe, whole_laws, whole-Duplex, whole-TakesWhole, whole_events, whole_now,
  whole-Eager, arriving,
}
use network_communications.CText.{to_upper, upper_loop}
use network_communications.CText.Upper.{NoNul}
use network_communications.ThreadEpoll.System.{
  System, Reach, next, capitals, find_nothing, ended, empties, tells, tell, init, spawn,
  accept_conn, add, close, delete, send_piece,
}
use network_communications.ThreadEpoll.System.Calls.{
  capital_text, Tells, in_capitals, heard_by, given, sent_by, told_by, emptied_by,
}
use network_communications.ThreadEpoll.System.Pieces.{pieces_once}
use network_communications.ThreadEpoll.System.Crossed.{temp, sent_on, sent_on-Reach, crossed}
use network_communications.ThreadEpoll.{until_nul, communicate, communication, temp_size}
use network_communications.ThreadEpoll.Talk.{Told, communication-Told}
use network_communications.ThreadEpoll.Overflow.{communication-overrun}

-- "hello!!" in pieces of three
abbrev client : Pipe
client = arriving 2 (104 ∷ 101 ∷ 108 ∷ 108 ∷ 111 ∷ 33 ∷ 33 ∷ [])

communication-Told_example :
    Returns
      (Told whole_pipe whole_events whole_laws whole_now (pos 5) (pos 4) client [])
      (communication whole_pipe whole_events 8 client (pos 5) (pos 4))
communication-Told_example =
    communication-Told whole_pipe whole_events whole_laws whole_now whole-Duplex
      (whole-TakesWhole temp_size) (λ w epfd fd. refl) 8 client (pos 5) (pos 4)
      (cc, (cc, (cc, (cc, (cc, (cc, (cc, tt))))))) (omega arith) (omega arith)

-- "hi" comes back as "HIHI".
hi_twice :
    communication whole_pipe whole_events 3 (arriving 2 (104 ∷ 105 ∷ [])) (pos 5) (pos 4)
    ≡ done (record (arriving 2 []) { outgoing = 72 ∷ 73 ∷ 72 ∷ 73 ∷ 0 ∷ [] })
unfolding communication communicate to_upper
hi_twice = refl

NoNul-replicate : (n : ℕ) → NoNul (replicate n 65)
NoNul-replicate zero = tt
NoNul-replicate (suc n) = (cc, NoNul-replicate n)

communication-overrun_example :
    communication whole_pipe whole_events 1025 (arriving 2 (replicate temp_size 65)) (pos 5) (pos 4)
    ≡ overrun
communication-overrun_example =
    communication-overrun whole_pipe whole_events whole_laws whole_now whole-Duplex whole-Eager 1025
      (arriving 2 (replicate temp_size 65)) (pos 5) (pos 4) (NoNul-replicate temp_size)
      (omega arith) (omega arith)

crossed_example :
    (s : System) × Reach 3 s
    × (s.received ≡ record { thread = 1; fd = 5; client = some 0; bytes = b'a' ∷ b'b' ∷ [] } ∷ [])
    × (s.sent
        ≡ record {
          thread = 1;
          fd = 5;
          client = some 1;
          bytes = capitals (b'a' ∷ b'b' ∷ []);
          result = some 2;
        }
          ∷ [])
crossed_example = crossed b'a' (b'b' ∷ []) (omega arith)

-- After that the thread finds nothing more, and sends the text in `temp` again.
abbrev kept_text : List ℕ
kept_text = temp b'a' (b'b' ∷ []) (omega arith)

abbrev told_on : System
told_on =
    tell (find_nothing (sent_on b'a' (b'b' ∷ []) (omega arith)) 1 5 kept_text) 1 5 kept_text
      (some 3)

told_on-Reach : Reach 3 told_on
unfolding init spawn accept_conn add close delete send_piece until_nul upper_loop to_upper
    find_nothing
told_on-Reach =
    next (next (sent_on-Reach b'a' (b'b' ∷ []) (omega arith)) (empties 1 5 kept_text refl))
      (tells 1 5 kept_text (some 3) refl (omega arith))

told_on-ended : get_elem? told_on.tasks 1 ≡ some ended
unfolding init spawn accept_conn add close delete send_piece tell find_nothing
told_on-ended = refl

pieces_once_example :
    (map in_capitals (heard_by told_on 1) ≡ map given (sent_by told_on 1) ++ [])
    × Tells ended (emptied_by told_on 1) (told_by told_on 1) (capital_text (heard_by told_on 1))
pieces_once_example = pieces_once told_on-Reach 1 ended told_on-ended
