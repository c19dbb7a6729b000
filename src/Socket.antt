-- ===== src/Socket.antt =====
-- SocketPackage/socket.c: the wrapped socket calls, and messages with a four byte length in front.
-- Output by printf and perror is left out. `malloc` is taken to succeed.
pub mod Receive
pub mod Send
pub mod Message
pub mod Frame
pub mod Failure
pub mod Parse
pub mod Setup
mod Tests
use network_communications.Prelude.{
  ℕ, zero, suc, ◌+◌, ◌-◌, ◌^◌, ℤ, pos, negsuc, minus_one, is_minus_one, is_negative,
  is_not_positive, Bool, true, false, ◌||◌, List, [], ◌∷◌, ◌++◌, Option, none, some, length, take,
  drop, replicate, ltb, ◌==◌, if◌then◌else◌,
}
use network_communications.Run.{Run, done, unfinished, overrun, ◌>>=◌}
use network_communications.Net.{Net}
use network_communications.Wire.{htonl_bytes, ntohl_bytes, to_int}

-- The largest `int`.
abbrev pub int_max : ℕ
int_max = 2 ^ 31 - 1

-- `a != b`
abbrev pub int_ne : ℤ → ℤ → Bool
int_ne (pos a) (pos b) = if a == b then false else true
int_ne (negsuc a) (negsuc b) = if a == b then false else true
int_ne a b = true

-- A call of `readn`: what it returns, the bytes that it has stored from `buf` on.
pub record Read (World : Type 0) : Type 0 where
  pub ret : ℤ
  pub stored : List ℕ
  pub world : World

-- A call of `recvMsg`: what it returns, and `*msg` if it is set, less the closing '\0'.
pub record Received (World : Type 0) : Type 0 where
  pub ret : ℤ
  pub msg : Option (List ℕ)
  pub world : World

-- A call that returns an `int`.
pub record Called (World : Type 0) : Type 0 where
  pub ret : ℤ
  pub world : World

-- `int len = 0`, its memory overwritten from the front by what `readn` stores, then `ntohl`.
pub header_len : List ℕ → ℤ
header_len stored = to_int (ntohl_bytes (stored ++ replicate (4 - length stored) 0))

-- `buf[len] = '\0'`, where `buf` has len + 1 bytes.
terminate : {World : Type 0} → ℤ → Read World → Run (Received World)
terminate (pos len) r = done (record { ret = r.ret; msg = some r.stored; world = r.world })
terminate (negsuc n) r = overrun

-- `len + 1` overflows at the largest `int`.
pub fits_int : ℤ → Bool
fits_int (pos len) = ltb len int_max
fits_int (negsuc n) = true

module _ (net : Net) where
  open net use {World, socket, bind, listen, accept, connect, recv, send, close}

  unfoldable pub create_socket : World → Called World
  create_socket w =
      let (fd, w1) = socket w in
      if is_minus_one fd
      then record { ret = minus_one; world = w1 }
      else record { ret = fd; world = w1 }

  unfoldable pub set_listen : World → ℤ → ℕ → Called World
  set_listen w lfd port =
      let (ret, w1) = bind w lfd port in
      if is_minus_one ret
      then record { ret = minus_one; world = w1 }
      else (let (ret2, w2) = listen w1 lfd 5 in
          if is_minus_one ret2
          then record { ret = minus_one; world = w2 }
          else record { ret = ret2; world = w2 })

  -- The second part is what is stored in `*addr`, the initial `addr` where it is NULL or accept fails.
  unfoldable pub accept_conn : World → ℤ → Option ℕ → Called World × Option ℕ
  accept_conn w lfd addr =
      let (cfd, peer, w1) = accept w lfd in
      if is_minus_one cfd
      then (record { ret = minus_one; world = w1 }, addr)
      else (record { ret = cfd; world = w1 }, elim addr [ none ↦ none | some old ↦ some peer ])

  -- `while (count > 0)`: `pt` is what has been stored, `size` what was asked for.
  readn_loop : ℕ → World → ℤ → ℕ → ℕ → List ℕ → Run (Read World)
  readn_loop zero w fd size count pt = unfinished
  readn_loop (suc fuel) w fd size zero pt = done (record { ret = pos size; stored = pt; world = w })
  readn_loop (suc fuel) w fd size (suc left) pt =
      let count = suc left in
      elim (recv w fd count).0 [
        | none ↦ done (record { ret = minus_one; stored = pt; world = (recv w fd count).1 })
        | some [] ↦
            done (record { ret = pos (size - count); stored = pt; world = (recv w fd count).1 })
        | some (b ∷ bs) ↦
            readn_loop fuel (recv w fd count).1 fd size (count - length (b ∷ bs)) (pt ++ (b ∷ bs))
      ]

  -- A round stores a byte at least, so `size + 1` rounds are enough.
  unfoldable pub readn : World → ℤ → ℤ → Run (Read World)
  unfolding readn_loop
  readn w fd (pos size) = readn_loop (suc size) w fd size size []
  readn w fd (negsuc n) = done (record { ret = negsuc n; stored = []; world = w })

  -- The rest of `recvMsg` once `len` is known.
  pub recv_body : World → ℤ → ℤ → Run (Received World)
  unfolding terminate
  recv_body w cfd len = readn w cfd len >>= λ r.
      if int_ne r.ret len
      then done (record { ret = minus_one; msg = none; world = (close r.world cfd).1 })
      else terminate len r

  unfoldable pub recv_msg : World → ℤ → Run (Received World)
  unfolding recv_body fits_int
  recv_msg w cfd = readn w cfd (pos 4) >>= λ header.
      let len = header_len header.stored in
      if fits_int len then recv_body header.world cfd len else overrun

  -- `while (count > 0)`: `buf` is what is not yet sent. A `send` of no byte repeats the round.
  writen_loop : ℕ → World → ℤ → ℕ → ℕ → List ℕ → Run (Called World)
  writen_loop zero w fd size count buf = unfinished
  writen_loop (suc fuel) w fd size zero buf = done (record { ret = pos size; world = w })
  writen_loop (suc fuel) w fd size (suc left) buf =
      let sent = send w fd (take (suc left) buf) in
      elim sent.0 [
        | none ↦ done (record { ret = minus_one; world = sent.1 })
        | some zero ↦ writen_loop fuel sent.1 fd size (suc left) buf
        | some (suc len) ↦ writen_loop fuel sent.1 fd size (left - len) (drop (suc len) buf)
      ]

  -- The number of rounds is an argument, since nothing bounds how often `send` takes no byte.
  unfoldable pub writen : ℕ → World → ℤ → List ℕ → ℕ → Run (Called World)
  unfolding writen_loop
  writen fuel w fd msg size = writen_loop fuel w fd size size msg

  -- After the guards: the header and the payload in one block, and `close` on failure.
  send_block : ℕ → World → ℤ → List ℕ → ℕ → Run (Called World)
  send_block fuel w cfd msg len =
      if ltb (length msg) len || ltb int_max (len + 4)
      then overrun
      else (writen fuel w cfd (htonl_bytes len ++ take len msg) (len + 4) >>= λ r.
          if is_minus_one r.ret then done (record r { world = (close r.world cfd).1 }) else done r)

  -- `msg` is `none` for NULL.
  unfoldable pub send_msg : ℕ → World → ℤ → Option (List ℕ) → ℤ → Run (Called World)
  unfolding send_block
  send_msg fuel w cfd none len = done (record { ret = minus_one; world = w })
  send_msg fuel w cfd (some msg) (negsuc n) = done (record { ret = minus_one; world = w })
  send_msg fuel w cfd (some msg) (pos len) =
      if is_negative cfd || is_not_positive (pos len)
      then done (record { ret = minus_one; world = w })
      else send_block fuel w cfd msg len

  unfoldable pub connect_to_host : World → ℤ → ℕ → ℕ → Called World
  connect_to_host w fd ip port =
      let (ret, w1) = connect w fd ip port in
      if is_minus_one ret
      then record { ret = minus_one; world = w1 }
      else record { ret = ret; world = w1 }

  unfoldable pub close_socket : World → ℤ → Called World
  close_socket w fd = let (ret, w1) = close w fd in record { ret = ret; world = w1 }
