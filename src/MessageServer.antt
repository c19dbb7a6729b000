-- ===== src/MessageServer.antt =====
-- SocketPackage/server.c and SocketPackage/client.c, over the messages of
-- SocketPackage/socket.c. Sleeps and output are left out; what is printed is kept as a list.
pub mod Conversation
pub mod Table
mod Tests
use network_communications.Prelude.{
  ℕ, zero, suc, ◌+◌, ℤ, pos, minus_one, is_minus_one, is_not_positive, Bool, true, false, List, [],
  ◌∷◌, ◌++◌, Option, none, some, length, set, replicate, if◌then◌else◌,
}
use network_communications.Run.{Run, done, unfinished, overrun, ◌>>=◌}
use network_communications.Net.{Net}
use network_communications.Socket.{
  Called, Received, create_socket, connect_to_host, close_socket, recv_msg, send_msg, accept_conn,
}

-- `sizeof(infos) / sizeof(infos[0])`
abbrev pub max_infos : ℕ
max_infos = 250

-- The field `fd` of each entry of `infos`; -1 is a free entry. (`addr` is only printed.)
abbrev pub Infos : Type 0
Infos = List ℤ

-- The loop of `main` that initialises the table.
abbrev pub no_infos : Infos
no_infos = replicate max_infos minus_one

-- What a `working` thread has received when it ends.
pub record Session (World : Type 0) : Type 0 where
  pub messages : List (List ℕ)
  pub world : World

pub record Served (World : Type 0) : Type 0 where
  pub infos : Infos
  pub world : World

-- The first free entry.
unfoldable pub find_free : Infos → Option ℕ
find_free [] = none
find_free (fd ∷ infos) =
    if is_minus_one fd
    then some 0
    else elim (find_free infos) [ none ↦ none | some i ↦ some (suc i) ]

-- `*msg` where `recvMsg` has set it.
abbrev text_of : Option (List ℕ) → List ℕ
text_of none = []
text_of (some msg) = msg

module _ (net : Net) where
  open net use {World}

  -- `working`: messages until `recvMsg` returns 0 or less. The rounds are an argument, since a peer
  -- may go on sending.
  unfoldable pub working : ℕ → World → ℤ → Run (Session World)
  working zero w fd = unfinished
  working (suc fuel) w fd = recv_msg net w fd >>= λ r. elim (is_not_positive r.ret) [
    | true ↦ done (record { messages = []; world = r.world })
    | false ↦
        (working fuel r.world fd >>= λ rest.
        done (record { messages = text_of r.msg ∷ rest.messages; world = rest.world }))
  ]

  -- A round of the loop of `main`: the table and the world once the new thread is started. Without a
  -- free entry `pinfo` is used uninitialised.
  unfoldable pub serve_round : Served World → ℤ → Run (Served World)
  unfolding find_free
  serve_round s fd = elim (find_free s.infos) [
    | none ↦ overrun
    | some i ↦
        let (called, addr) = accept_conn net s.world fd (some 0) in
        done (record { infos = set s.infos i called.ret; world = called.world })
  ]

  -- The first rounds of `main`.
  unfoldable pub serve : ℕ → Served World → ℤ → Run (Served World)
  serve zero s fd = done s
  serve (suc n) s fd = serve_round s fd >>= λ t. serve n t fd

  -- The loop of client.c, over the blocks that `read` gives it: each is sent as a message, whatever
  -- becomes of it.
  unfoldable pub send_blocks : ℕ → World → ℤ → List (List ℕ) → Run World
  send_blocks fuel w fd [] = done w
  send_blocks fuel w fd (block ∷ blocks) =
      send_msg net fuel w fd (some block) (pos (length block)) >>= λ r.
      send_blocks fuel r.world fd blocks

  -- `main` of client.c, which reads `blocks` from its file; `ip` is 192.168.1.106.
  unfoldable pub client_main : ℕ → World → ℕ → List (List ℕ) → Run (Called World)
  client_main fuel w ip blocks =
      let made = create_socket net w in
      if is_minus_one made.ret
      then done (record { ret = minus_one; world = made.world })
      else (let connected = connect_to_host net made.world made.ret ip 5555 in
          if is_minus_one connected.ret
          then done (record { ret = minus_one; world = connected.world })
          else (send_blocks fuel connected.world made.ret blocks >>= λ v.
              done (record { ret = pos 0; world = (close_socket net v made.ret).world })))
