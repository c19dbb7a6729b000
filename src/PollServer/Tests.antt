-- ===== src/PollServer/Tests.antt =====
-- The server of IO_mulit_way/poll_server.c where `poll` says nothing of negative descriptors.
use network_communications.Prelude.{is_negative, not, some, map}
use network_communications.Net.Pipe.{pipe}
use network_communications.PollServer.{Poll}
use network_communications.PollServer.Deaf.{Deaf}

-- Every descriptor that is not negative is ready.
abbrev all_ready : Poll pipe
all_ready = record {
  poll = λ p fds. (some (map (λ fd. not (is_negative fd)) fds), p);
  read = pipe.recv;
  write = λ p fd buf. (pipe.send p fd buf).1;
}
