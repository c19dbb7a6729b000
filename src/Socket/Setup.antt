-- ===== src/Socket/Setup.antt =====
-- The wrapped calls of SocketPackage/socket.c that open, connect and close sockets.
use network_communications.Prelude.{
  ℕ, ℤ, minus_one, is_minus_one, Option, ◌≡◌, arith, if◌then◌else◌,
}
use network_communications.Net.{Net}
use network_communications.Socket.{
  create_socket, set_listen, accept_conn, connect_to_host, close_socket,
}

module _ (net : Net) where
  open net use {World, socket, bind, listen, accept, connect, close}

  -- Each wrapper returns what its system call returns, -1 included. `setListen` listens, with a
  -- backlog of 5, exactly where `bind` has not returned -1, and returns the last result.
  pub wrappers_pass_on :
      (w : World) (fd : ℤ) (port ip : ℕ) (addr : Option ℕ)
      → ((create_socket net w).ret ≡ (socket w).0)
        × ((set_listen net w fd port).ret ≡ (
            if is_minus_one (bind w fd port).0
            then minus_one
            else (listen (bind w fd port).1 fd 5).0))
        × ((accept_conn net w fd addr).0.ret ≡ (accept w fd).0)
        × ((connect_to_host net w fd ip port).ret ≡ (connect w fd ip port).0)
        × ((close_socket net w fd).ret ≡ (close w fd).0)
  unfolding create_socket set_listen accept_conn connect_to_host close_socket
  wrappers_pass_on w fd port ip addr = ground arith
