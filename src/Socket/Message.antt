-- ===== src/Socket/Message.antt =====
-- Messages of SocketPackage/socket.c: what `sendMsg` puts on the stream, and what `recvMsg` makes
-- of a stream.
use network_communications.Prelude.{
  ℕ, ◌^◌, ◌<◌, ℤ, pos, List, ◌++◌, some, ◌≡◌, ap, true, arith, length,
}
use network_communications.Run.{Returns, Returns->>=}
use network_communications.Net.{Net}
use network_communications.Net.Stream.{Stream, NoErrors}
use network_communications.Wire.{htonl_bytes, to_int, frame, ntohl-htonl, to_int-htonl}
use network_communications.Socket.{
  Received, int_max, readn, header_len, fits_int, terminate, recv_body, recv_msg,
}
use network_communications.Socket.Receive.{Got, readn-Got}

pub header_len-htonl : (u : ℕ) → u < 2 ^ 32 → header_len (htonl_bytes u) ≡ to_int u
unfolding header_len htonl_bytes
header_len-htonl u h = ap to_int (unfold htonl_bytes in ntohl-htonl u h)

pub header_len-length : (n : ℕ) → n < int_max → header_len (htonl_bytes n) ≡ pos n
unfolding header_len htonl_bytes
header_len-length n h = unfold htonl_bytes in to_int-htonl n (omega arith)

pub fits_int-lt : (n : ℕ) → n < int_max → fits_int (pos n) ≡ true
unfolding fits_int
fits_int-lt n h = ground arith

module _ (net : Net) (laws : Stream net) where
  open net use {World, recv}
  open laws use {inbox}

  -- The message was delivered, and `rest` is left of the stream.
  pub record Delivers (cfd : ℤ) (msg rest : List ℕ) (r : Received World) : Type 0 where
    pub ret_length : r.ret ≡ pos (length msg)
    pub whole : r.msg ≡ some msg
    pub left : inbox r.world cfd ≡ rest

  pub recv_body-Delivers :
      NoErrors net
      → (w : World) (cfd : ℤ) (msg rest : List ℕ) → inbox w cfd ≡ msg ++ rest
      → Returns (Delivers cfd msg rest) (recv_body net w cfd (pos (length msg)))
  unfolding recv_body terminate
  recv_body-Delivers go w cfd msg rest e =
      Returns->>= (Got net laws cfd msg rest) _ (readn net w cfd (pos (length msg))) _
        (readn-Got net laws go w cfd msg rest e) λ r g. ground (arith, g)

  -- Where no call fails, and the stream begins with a message shorter than the largest `int`:
  -- `recvMsg` returns its length and sets `*msg` to exactly its bytes, and the rest of the stream
  -- stays unread, however the bytes arrive in pieces.
  pub recv_msg-Delivers :
      NoErrors net
      → (w : World) (cfd : ℤ) (msg rest : List ℕ) → length msg < int_max
      → inbox w cfd ≡ frame msg ++ rest
      → Returns (Delivers cfd msg rest) (recv_msg net w cfd)
  unfolding recv_msg htonl_bytes
  recv_msg-Delivers go w cfd msg rest h e =
      Returns->>= (Got net laws cfd (htonl_bytes (length msg)) (msg ++ rest)) _
        (readn net w cfd (pos 4)) _
        (readn-Got net laws go w cfd (htonl_bytes (length msg)) (msg ++ rest) e)
        λ r g.
          rw (g.all, header_len-length (length msg) h, fits_int-lt (length msg) h)
            (recv_body-Delivers go r.world cfd msg rest g.left)
