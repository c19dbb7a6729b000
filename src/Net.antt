-- ===== src/Net.antt =====
-- The socket calls of the operating system, which the programs under SocketPackage/ and socket/
-- are written over. The kernel and the peer are not part of the repository: they are the
-- parameter `Net`, and what the code relies on are the laws of `Net.Stream`.
pub mod Stream
pub mod Events
pub mod Pipe
pub mod Pipes
use network_communications.Prelude.{ℕ, ℤ, List, Option}

-- `World` is what the calls read and change: descriptors, connections, the peers' bytes.
-- Descriptors, ports and results are the `int`s of the calls. A byte is a number.
pub record Net : Type 1 where
  pub World : Type 0
  -- socket(AF_INET, SOCK_STREAM, 0)
  pub socket : World → ℤ × World
  -- bind(fd, INADDR_ANY:port)
  pub bind : World → ℤ → ℕ → ℤ × World
  -- listen(fd, backlog)
  pub listen : World → ℤ → ℕ → ℤ × World
  -- accept(fd, &addr, &len): the new descriptor, and what is stored in `addr`
  pub accept : World → ℤ → ℤ × ℕ × World
  -- connect(fd, ip:port), the text `ip` as inet_pton reads it
  pub connect : World → ℤ → ℕ → ℕ → ℤ × World
  -- recv(fd, buf, count, 0): the bytes stored in `buf`, none of them at the end of the stream;
  -- `none` is the result -1
  pub recv : World → ℤ → ℕ → Option (List ℕ) × World
  -- send(fd, buf, length(buf), 0): how many bytes were taken; `none` is the result -1
  pub send : World → ℤ → List ℕ → Option ℕ × World
  pub close : World → ℤ → ℤ × World
