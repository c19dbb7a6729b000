-- ===== src/Clients.antt =====
-- The programs that send texts to a server and print its answers: socket/client.c, with the same text
-- in socket/multi_thread/client.c, and poll_client.c, select_client.c, epoll_client.c and
-- thread_client.c of IO_mulit_way/. `read` and `write` on a socket are `recv` and `send` without
-- flags. What is printed of an answer is kept; sleeping and all other output are left out. The loops go
-- on as long as the server does, so their rounds are an argument.
pub mod Texts
pub mod Chat
pub mod Greets
pub mod Lines
mod Tests
use network_communications.Prelude.{
  ℕ, zero, suc, ◌-◌, ℤ, pos, minus_one, is_minus_one, ◌&&◌, List, [], ◌∷◌, ◌++◌, Option, none, some,
  length, drop, replicate, ltb, if◌then◌else◌,
}
use network_communications.Run.{
  Run, done, unfinished, overrun, ◌>>=◌, Loop, goes_on, ends, and_then,
}
use network_communications.CText.{text, printed, decimal, fgets}
use network_communications.Net.{Net}
use network_communications.Socket.{int_max}

-- sizeof(buffer), sizeof(recvBuf)
abbrev pub buffer_size : ℕ
buffer_size = 1024

-- What has been printed of the answers, the typed input that is left, and the world.
pub record Talk (World : Type 0) : Type 0 where
  pub shown : List (List ℕ)
  pub typed : List ℕ
  pub world : World

-- A buffer of `buffer_size` bytes that begins with `bs`, and is 0 behind.
abbrev pub zero_filled : List ℕ → List ℕ
zero_filled bs = bs ++ replicate (buffer_size - length bs) 0

-- "你好，hello world，" in UTF-8
abbrev pub ni_hao : List ℕ
ni_hao =
    0xE4 ∷ 0xBD ∷ 0xA0 ∷ 0xE5 ∷ 0xA5 ∷ 0xBD ∷ 0xEF ∷ 0xBC ∷ 0x8C ∷ b'h' ∷ b'e' ∷ b'l' ∷ b'l' ∷ b'o'
    ∷ b' ' ∷ b'w' ∷ b'o' ∷ b'r' ∷ b'l' ∷ b'd' ∷ 0xEF ∷ 0xBC ∷ 0x8C ∷ []

-- `sprintf` in socket/client.c
unfoldable pub greeting : ℕ → List ℕ
unfolding decimal
greeting number = ni_hao ++ (decimal number ++ b'.' ∷ b'.' ∷ b'.' ∷ b'\n' ∷ [])

-- `sprintf` in thread_client.c
unfoldable pub hello : ℕ → List ℕ
unfolding decimal
hello num =
    b'h'
    ∷ b'e'
    ∷ b'l'
    ∷ b'l'
    ∷ b'o'
    ∷ b','
    ∷ b' '
    ∷ b'w'
    ∷ b'o'
    ∷ b'r'
    ∷ b'l'
    ∷ b'd'
    ∷ b','
    ∷ b' '
    ∷ (decimal num ++ b'\n' ∷ b'.' ∷ b'.' ∷ b'.' ∷ [])

-- The bytes that go into a buffer, with a '\0': they have to fit, and `number++` must not overflow.
unfoldable pub counted : ℕ → List ℕ → Run (List ℕ)
counted number bytes =
    let msg = bytes ++ 0 ∷ [] in
    if ltb number int_max && ltb (length bytes) buffer_size then done msg else overrun

-- What `printf` prints of a buffer with `%s`.
unfoldable pub show : List ℕ → Run (List ℕ)
unfolding printed
show buf = elim (printed buf) [ none ↦ overrun | some bytes ↦ done bytes ]

-- The buffer behind `read`, which changes nothing where it gives -1.
unfoldable pub store : Option (List ℕ) → List ℕ → List ℕ
store none buf = buf
store (some bs) buf = bs ++ drop (length bs) buf

module _ (net : Net) where
  open net use {World, socket, connect, recv, send, close}

  -- The loop of socket/client.c.
  unfoldable pub greet_loop : ℕ → Talk World → ℤ → ℕ → Run (Talk World)
  unfolding counted show
  greet_loop zero s fd number = unfinished
  greet_loop (suc fuel) s fd number = counted number (greeting number) >>= λ msg.
      let got = recv (send s.world fd msg).1 fd buffer_size in
      elim got.0 [
        | none ↦ done (record s { world = got.1 })
        | some [] ↦ done (record s { world = got.1 })
        | some (b ∷ bs) ↦
            (show (zero_filled (b ∷ bs)) >>= λ bytes.
            greet_loop fuel (record s { shown = s.shown ++ bytes ∷ []; world = got.1 }) fd
              (suc number))
      ]

  -- `write(fd, recvBuf, strlen(recvBuf)+1)` and `read` into the buffer: what `read` gives.
  unfoldable pub write_read : Talk World → ℤ → List ℕ → Run (Option (List ℕ) × World)
  write_read s fd buf = elim (text buf) [
    | none ↦ overrun
    | some msg ↦ done (recv (send s.world fd msg).1 fd buffer_size)
  ]

  -- A line that is typed, and the answer to it, in poll_client.c and select_client.c. At the end of the
  -- input `fgets` leaves `recvBuf` as it is, which is not set.
  unfoldable pub type_round : Talk World → ℤ → Run (Talk World)
  unfolding show store write_read
  type_round s fd =
      let (line, rest) = fgets 1023 s.typed in
      elim line [
        | [] ↦ overrun
        | c ∷ cs ↦
            (write_read s fd ((c ∷ cs) ++ 0 ∷ []) >>= λ (got, w1).
            show (store got ((c ∷ cs) ++ 0 ∷ [])) >>= λ bytes.
            done (record s { shown = s.shown ++ bytes ∷ []; typed = rest; world = w1 }))
      ]

  -- The loop of poll_client.c and select_client.c never ends by itself: the first rounds.
  unfoldable pub type_rounds : ℕ → Talk World → ℤ → Run (Talk World)
  type_rounds zero s fd = done s
  type_rounds (suc n) s fd = type_round s fd >>= λ t. type_rounds n t fd

  -- A round of epoll_client.c or thread_client.c, behind `fgets` or `sprintf`.
  unfoldable pub checked_round : Talk World → ℤ → List ℕ → Run (Loop (Talk World))
  unfolding show store write_read
  checked_round s fd buf = write_read s fd buf >>= λ (got, w1). elim got [
    | none ↦ done (ends minus_one (record s { world = w1 }))
    | some bs ↦
        (show (store (some bs) buf) >>= λ bytes.
        done (goes_on (record s { shown = s.shown ++ bytes ∷ []; world = w1 })))
  ]

  -- The first rounds of epoll_client.c.
  unfoldable pub epoll_rounds : ℕ → Talk World → ℤ → Run (Loop (Talk World))
  unfolding checked_round
  epoll_rounds zero s fd = done (goes_on s)
  epoll_rounds (suc n) s fd =
      let (line, rest) = fgets 1023 s.typed in
      and_then (checked_round (record s { typed = rest }) fd (zero_filled line))
        (λ t. epoll_rounds n t fd)

  -- The first rounds of thread_client.c.
  unfoldable pub hello_rounds : ℕ → Talk World → ℤ → ℕ → Run (Loop (Talk World))
  unfolding checked_round counted
  hello_rounds zero s fd num = done (goes_on s)
  hello_rounds (suc n) s fd num = counted num (hello num) >>= λ msg.
      and_then (checked_round s fd (zero_filled (hello num))) (λ t. hello_rounds n t fd (suc num))

  -- `socket` and `connect` at the start of each program; `failed` is what it ends with where one of
  -- them gives -1, and `ip` the address in the text.
  unfoldable pub connected :
      ℤ → ℕ → ℕ → Talk World → (ℤ → Talk World → Run (Loop (Talk World))) → Run (Loop (Talk World))
  connected failed ip port s rest =
      let (fd, w1) = socket s.world in
      if is_minus_one fd
      then done (ends failed (record s { world = w1 }))
      else (let (ret, w2) = connect w1 fd ip port in
          if is_minus_one ret
          then done (ends failed (record s { world = w2 }))
          else rest fd (record s { world = w2 }))

  -- `main` of socket/client.c.
  unfoldable pub greet_main : ℕ → ℕ → Talk World → Run (Loop (Talk World))
  unfolding greet_loop connected
  greet_main fuel ip s = connected minus_one ip 5555 s λ fd t.
      (greet_loop fuel t fd 0 >>= λ u.
      done (ends (pos 0) (record u { world = (close u.world fd).1 })))

  -- `main` of poll_client.c, in its first rounds; `exit(0)` where it cannot connect.
  unfoldable pub poll_main : ℕ → ℕ → Talk World → Run (Loop (Talk World))
  unfolding type_rounds connected
  poll_main n ip s =
      connected (pos 0) ip 9999 s λ fd t. (type_rounds n t fd >>= λ u. done (goes_on u))

  -- `main` of select_client.c, in its first rounds.
  unfoldable pub select_main : ℕ → ℕ → Talk World → Run (Loop (Talk World))
  unfolding type_rounds connected
  select_main n ip s =
      connected minus_one ip 5555 s λ fd t. (type_rounds n t fd >>= λ u. done (goes_on u))

  -- `main` of epoll_client.c, in its first rounds.
  unfoldable pub epoll_main : ℕ → ℕ → Talk World → Run (Loop (Talk World))
  unfolding epoll_rounds connected
  epoll_main n ip s = connected minus_one ip 5555 s λ fd t. epoll_rounds n t fd

  -- `main` of thread_client.c, in its first rounds.
  unfoldable pub thread_main : ℕ → ℕ → Talk World → Run (Loop (Talk World))
  unfolding hello_rounds connected
  thread_main n ip s = connected minus_one ip 5555 s λ fd t. hello_rounds n t fd 0
