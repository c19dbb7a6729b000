-- ===== src/PollServer.antt =====
-- IO_mulit_way/poll_server.c: a server that is to echo to many clients, over `poll`. Output is left
-- out, as is the result of each call that the code does not look at.
pub mod Deaf
mod Tests
use network_communications.Prelude.{
  ℕ, zero, suc, ◌+◌, ℤ, pos, minus_one, is_minus_one, Bool, true, false, List, [], ◌∷◌, Option,
  none, some, map, take, set, get_elem?, ltb, ◌==◌, if◌then◌else◌,
}
use network_communications.Run.{Run, done, overrun, ◌>>=◌}
use network_communications.CText.{text}
use network_communications.Net.{Net}

-- The other system calls of this server.
pub record Poll (net : Net) : Type 0 where
  -- poll(fds, n, -1) of n entries with these descriptors: whether POLLIN is in the `revents` of each;
  -- `none` is the result -1
  pub poll : net.World → List ℤ → Option (List Bool) × net.World
  -- read(fd, buf, count), as `recv` in `Net`
  pub read : net.World → ℤ → ℕ → Option (List ℕ) × net.World
  -- write(fd, buf, length(buf))
  pub write : net.World → ℤ → List ℕ → net.World

-- `struct pollfd`; `ready` is whether POLLIN is in `revents`.
pub record Entry : Type 0 where
  pub fd : ℤ
  pub ready : Bool

pub record Server (World : Type 0) : Type 0 where
  pub fds : List Entry
  pub maxfd : ℕ
  pub world : World

-- The loop goes on, or the program has ended with this result.
pub data Next (World : Type 0) : Type 0 where
  again : Server World → Next World
  stopped : ℤ → World → Next World

-- What `poll` stores.
pub mark : List Bool → List Entry → List Entry
mark [] es = es
mark (b ∷ bs) [] = []
mark (b ∷ bs) (e ∷ es) = record e { ready = b } ∷ mark bs es

-- `fds[0].revents & POLLIN`
abbrev pub first_ready : List Entry → Bool
first_ready [] = false
first_ready (e ∷ es) = e.ready

-- The index at which the search for a free entry ends.
pub free_slot : List Entry → ℕ
free_slot [] = 0
free_slot (e ∷ es) = let rest = free_slot es in if is_minus_one e.fd then 0 else suc rest

abbrev pub set_fd : List Entry → ℕ → ℤ → List Entry
set_fd es i cfd = elim (get_elem? es i) [ none ↦ es | some e ↦ set es i (record e { fd = cfd }) ]

module _ (net : Net) (calls : Poll net) where
  open net use {World, socket, bind, listen, accept, close}
  open calls use {poll, read, write}

  -- `main` up to its loop; `raw` is what `revents` holds before it is set.
  unfoldable pub start : World → List Bool → ℤ × Server World
  start w raw =
      let (lfd, w1) = socket w in
      let (ret, w2) = bind w1 lfd 5555 in
      let (ret2, w3) = listen w2 lfd 12 in
      (
        lfd,
        record { fds = map (λ b. record { fd = minus_one; ready = b }) raw; maxfd = 0; world = w3 },
      )

  pub accept_client : Server World → ℤ → Server World
  unfolding free_slot
  accept_client s lfd =
      let (cfd, addr, w1) = accept s.world lfd in
      let i = free_slot s.fds in
      record { fds = set_fd s.fds i cfd; maxfd = if ltb s.maxfd i then i else s.maxfd; world = w1 }

  -- A client with something to read, or that has closed.
  pub talk : Server World → ℕ → ℤ → Run (Next World)
  unfolding text
  talk s i cfd =
      let got = read s.world cfd 128 in
      elim got.0 [
        | none ↦ done (stopped (pos 0) got.1)
        | some [] ↦
            done (again (record s { fds = set_fd s.fds i minus_one; world = (close got.1 cfd).1 }))
        | some (b ∷ bs) ↦ elim (text (b ∷ bs)) [
          | none ↦ overrun
          | some bytes ↦ done (again (record s { world = write got.1 cfd bytes }))
        ]
      ]

  -- The body of the inner loop.
  pub visit : Server World → ℕ → Run (Next World)
  unfolding talk
  visit s i = elim (get_elem? s.fds i) [
    | none ↦ overrun
    | some e ↦ if e.ready then talk s i e.fd else done (again s)
  ]

  -- The inner loop, with `n` rounds left.
  unfoldable pub visit_all : ℕ → ℕ → Server World → Run (Next World)
  unfolding visit
  visit_all zero i s = done (again s)
  visit_all (suc n) i s = visit s i >>= λ x. elim x [
    | again t ↦ visit_all n (i + 1) t
    | stopped ret w ↦ done (stopped ret w)
  ]

  -- A round of the outer loop.
  unfoldable pub poll_round : Server World → ℤ → Run (Next World)
  unfolding mark accept_client
  poll_round s lfd =
      let polled = poll s.world (map (λ e. e.fd) (take (s.maxfd + 1) s.fds)) in
      elim polled.0 [
        | none ↦ done (stopped minus_one polled.1)
        | some bits ↦
            let t : Server World = record s { fds = mark bits s.fds; world = polled.1 } in
            let u : Server World = if first_ready t.fds then accept_client t lfd else t in
            visit_all u.maxfd 1 u
      ]

  -- The first rounds.
  unfoldable pub poll_rounds : ℕ → Server World → ℤ → Run (Next World)
  poll_rounds zero s lfd = done (again s)
  poll_rounds (suc n) s lfd = poll_round s lfd >>= λ x. elim x [
    | again t ↦ poll_rounds n t lfd
    | stopped ret w ↦ done (stopped ret w)
  ]
