-- ===== src/Socket/Failure.antt =====
-- `recvMsg` of SocketPackage/socket.c on streams that hold no whole message.
use network_communications.Prelude.{
  ℕ, ◌^◌, ◌≤◌, ◌<◌, ℤ, pos, minus_one, List, [], ◌++◌, none, some, ◌≡◌, refl, ap, true, ◌∙◌, arith,
  length, if◌then◌else◌,
}
use network_communications.Run.{overrun, >>=-done, Returns, Returns->>=, Returns-done}
use network_communications.Net.{Net}
use network_communications.Net.Stream.{Stream, NoErrors}
use network_communications.Wire.{htonl_bytes, ntohl_bytes, to_int}
use network_communications.Socket.{
  Received, int_max, int_ne, readn, header_len, fits_int, terminate, recv_body, recv_msg,
}
use network_communications.Socket.Receive.{Got, Short, readn-Got, readn-Short}
use network_communications.Socket.Message.{header_len-htonl, header_len-length, fits_int-lt}

-- The header of a length that is no `int`, or the largest: the store of '\0' is out of bounds, or the
-- size of the allocation overflows.
pub overrun_body :
    (net : Net) (w : net.World) (cfd : ℤ) (u : ℕ)
    → int_max ≤ u
    → u < 2 ^ 32
    → (if fits_int (to_int u) then recv_body net w cfd (to_int u) else overrun) ≡ overrun
unfolding fits_int recv_body to_int readn terminate
overrun_body net w cfd u h lt = ground arith

int_ne-lt : (a n : ℕ) → a < n → int_ne (pos a) (pos n) ≡ true
int_ne-lt a n h = ground arith

module _ (net : Net) (laws : Stream net) where
  open net use {World, close}
  open laws use {inbox}

  -- A header that says 2 ^ 31 - 1 or more takes `recvMsg` outside its buffer, where `recv` does
  -- not fail.
  pub recv_msg-overrun :
      NoErrors net
      → (w : World) (cfd : ℤ) (u : ℕ) (rest : List ℕ) → int_max ≤ u
      → u < 2 ^ 32
      → inbox w cfd ≡ htonl_bytes u ++ rest
      → recv_msg net w cfd ≡ overrun
  unfolding recv_msg htonl_bytes
  recv_msg-overrun go w cfd u rest h lt e =
      let (r, ret, got) =
        Returns-done (Got net laws cfd (htonl_bytes u) rest) (readn net w cfd (pos 4))
          (readn-Got net laws go w cfd (htonl_bytes u) rest e) in
      >>=-done (readn net w cfd (pos 4)) _ r ret
      ∙ (rw (got.all, header_len-htonl u lt) (overrun_body net r.world cfd u h lt))

  -- The payload stops short of the announced length.
  pub record Truncated (cfd : ℤ) (r : Received World) : Type 0 where
    pub ret_minus_one : r.ret ≡ minus_one
    pub nothing : r.msg ≡ none
    -- the world before the descriptor is closed
    pub open_world : World
    pub exhausted : inbox open_world cfd ≡ []
    pub closed : r.world ≡ (close open_world cfd).1

  pub recv_body-Truncated :
      NoErrors net
      → (w : World) (cfd : ℤ) (n : ℕ) → length (inbox w cfd) < n
      → Returns (Truncated cfd) (recv_body net w cfd (pos n))
  unfolding recv_body
  recv_body-Truncated go w cfd n h =
      Returns->>= (Short net laws cfd n (inbox w cfd)) _ (readn net w cfd (pos n)) _
        (readn-Short net laws go w cfd n h)
        λ r s.
          rw (s.ret_length, int_ne-lt (length (inbox w cfd)) n h)
            (record {
              ret_minus_one = refl;
              nothing = refl;
              open_world = r.world;
              exhausted = s.over;
              closed = refl;
            })

  -- The header announces `n` bytes, fewer than the largest `int`, the stream ends before, and
  -- `recv` does not fail: `recvMsg` returns -1, leaves `*msg` unset, and closes the descriptor,
  -- with everything read.
  pub recv_msg-Truncated :
      NoErrors net
      → (w : World) (cfd : ℤ) (n : ℕ) (part : List ℕ) → length part < n
      → n < int_max
      → inbox w cfd ≡ htonl_bytes n ++ part
      → Returns (Truncated cfd) (recv_msg net w cfd)
  unfolding recv_msg htonl_bytes
  recv_msg-Truncated go w cfd n part h lt e =
      Returns->>= (Got net laws cfd (htonl_bytes n) part) _ (readn net w cfd (pos 4)) _
        (readn-Got net laws go w cfd (htonl_bytes n) part e)
        λ r g.
          rw (g.all, header_len-length n lt, fits_int-lt n lt)
            (recv_body-Truncated go r.world cfd n (omega (arith, ap length g.left)))

  -- At the end of the stream, where `recv` does not fail, `recvMsg` returns 0 and sets `*msg` to
  -- the empty text, as it does for an empty message, and reads nothing.
  pub recv_msg-end :
      NoErrors net
      → (w : World) (cfd : ℤ) → inbox w cfd ≡ []
      → Returns
          (λ r. (r.ret ≡ pos 0) × (r.msg ≡ some []) × (inbox r.world cfd ≡ []))
          (recv_msg net w cfd)
  unfolding recv_msg recv_body header_len fits_int terminate readn to_int ntohl_bytes
  recv_msg-end go w cfd e =
      Returns->>= (Short net laws cfd 4 (inbox w cfd)) _ (readn net w cfd (pos 4)) _
        (readn-Short net laws go w cfd 4 (omega (arith, ap length e)))
        λ r s. rw (s.all ∙ e) (refl, refl, s.over)
