-- ===== src/Socket/Tests.antt =====
-- The messages of SocketPackage/socket.c over a connection that delivers in pieces.
use network_communications.Prelude.{ℕ, pos, List, [], ◌∷◌, some, ◌≡◌, refl, arith}
use network_communications.Run.{done, overrun, Returns}
use network_communications.Net.Pipe.{Pipe, pipe, pipe_laws, pipe-NoErrors, pipe-Progress, arriving}
use network_communications.Wire.{htonl_bytes, ntohl_bytes, to_int, frame}
use network_communications.Socket.{
  readn, recv_msg, send_msg, header_len, recv_body, fits_int, terminate, readn_loop, writen,
  writen_loop, send_block,
}
use network_communications.Socket.Receive.{Reads, readn-Reads}
use network_communications.Socket.Parse.{parse, recv_msg-parse}
use network_communications.Socket.Send.{Writes, writen-Writes}
use network_communications.Socket.Message.{Delivers}
use network_communications.Socket.Frame.{recv_msg-send_msg}
use network_communications.Socket.Failure.{
  Truncated, recv_msg-Truncated, recv_msg-overrun, recv_msg-end,
}

abbrev text : List ℕ
text = b'h' ∷ b'e' ∷ b'l' ∷ b'l' ∷ b'o' ∷ []

-- The text as a message, two bytes at a time, and one byte of the next.
abbrev framed : Pipe
framed = arriving 1 (0 ∷ 0 ∷ 0 ∷ 5 ∷ b'h' ∷ b'e' ∷ b'l' ∷ b'l' ∷ b'o' ∷ 7 ∷ [])

recv_msg_runs :
    recv_msg pipe framed (pos 4)
    ≡ done (record { ret = pos 5; msg = some text; world = arriving 1 (7 ∷ []) })
unfolding recv_msg recv_body header_len fits_int terminate readn readn_loop to_int ntohl_bytes
recv_msg_runs = refl

readn-Reads_example :
    Returns
      (Reads pipe pipe_laws (pos 4) 3 [] (1 ∷ 2 ∷ []))
      (readn pipe (arriving 0 (1 ∷ 2 ∷ [])) (pos 4) (pos 3))
readn-Reads_example = readn-Reads pipe pipe_laws (arriving 0 (1 ∷ 2 ∷ [])) (pos 4) 3

writen-Writes_example :
    Returns
      (Writes pipe pipe_laws (pos 4) 5 5 text [])
      (writen pipe 6 (arriving 1 []) (pos 4) text 5)
writen-Writes_example =
    writen-Writes pipe pipe_laws pipe-Progress 6 (arriving 1 []) (pos 4) text 5 (omega arith)
      (omega arith)

recv_msg-send_msg_example :
    Returns (Delivers pipe pipe_laws (pos 4) text (7 ∷ [])) (recv_msg pipe framed (pos 4))
unfolding htonl_bytes send_msg send_block writen writen_loop
recv_msg-send_msg_example =
    recv_msg-send_msg pipe pipe pipe_laws pipe_laws pipe-Progress pipe-NoErrors 10 (arriving 2 []) 4
      text (omega arith) (omega arith) (omega arith)
      (record { ret = pos 9; world = record (arriving 2 []) { outgoing = frame text } })
      (frame text) refl (λ e. cc) refl framed (pos 4) (7 ∷ []) refl

recv_msg-parse_example :
    Returns (Delivers pipe pipe_laws (pos 4) text (7 ∷ [])) (recv_msg pipe framed (pos 4))
unfolding parse
recv_msg-parse_example = recv_msg-parse pipe pipe_laws pipe-NoErrors framed (pos 4) (omega arith)

recv_msg-Truncated_example :
    Returns
      (Truncated pipe pipe_laws (pos 4))
      (recv_msg pipe (arriving 1 (0 ∷ 0 ∷ 0 ∷ 5 ∷ 1 ∷ [])) (pos 4))
unfolding htonl_bytes
recv_msg-Truncated_example =
    recv_msg-Truncated pipe pipe_laws pipe-NoErrors (arriving 1 (0 ∷ 0 ∷ 0 ∷ 5 ∷ 1 ∷ [])) (pos 4) 5
      (1 ∷ []) (omega arith) (omega arith) refl

-- Four bytes of 0xff announce a length of -1.
recv_msg-overrun_example :
    recv_msg pipe (arriving 3 (0xff ∷ 0xff ∷ 0xff ∷ 0xff ∷ [])) (pos 4) ≡ overrun
unfolding htonl_bytes
recv_msg-overrun_example =
    recv_msg-overrun pipe pipe_laws pipe-NoErrors (arriving 3 (0xff ∷ 0xff ∷ 0xff ∷ 0xff ∷ []))
      (pos 4) 0xffff_ffff [] (omega arith) (omega arith) refl

recv_msg-end_example :
    Returns
      (λ r. (r.ret ≡ pos 0) × (r.msg ≡ some []) × (r.world.incoming ≡ []))
      (recv_msg pipe (arriving 3 []) (pos 4))
recv_msg-end_example = recv_msg-end pipe pipe_laws pipe-NoErrors (arriving 3 []) (pos 4) refl
