-- ===== src/SelectServer.antt =====
-- IO_mulit_way/select_server.c: a server that sends back what it receives in capitals, to many
-- clients, over `select`. Output is left out, as is the result of each call that the code does not
-- look at.
pub mod Reply
pub mod Watched
mod Tests
use network_communications.Prelude.{
  ℕ, zero, suc, ◌+◌, ◌-◌, ℤ, pos, negsuc, minus_one, Bool, true, false, not, ◌&&◌, ◌||◌, List, [],
  ◌∷◌, ◌++◌, Option, none, some, length, replicate, ltb, ◌==◌, if◌then◌else◌,
}
use network_communications.Run.{Run, done, overrun, ◌>>=◌, Loop, goes_on, ends, and_then}
use network_communications.CText.{text, upper_loop}
use network_communications.Net.{Net}

-- `fd_set`: which descriptors are in the set.
abbrev pub FdSet : Type 0
FdSet = ℕ → Bool

-- select(nfds, &set, NULL, NULL, NULL): what it leaves in `set`.
pub record Select (net : Net) : Type 0 where
  pub select : net.World → ℕ → FdSet → FdSet × net.World

-- The variables of `main` in its loop.
pub record Selecting (World : Type 0) : Type 0 where
  pub rdset : FdSet
  pub maxfd : ℕ
  pub world : World

-- `FD_SET(fd, &set)`; it writes outside of the set where `fd` is negative or not below FD_SETSIZE.
unfoldable pub fd_insert : FdSet → ℤ → Run FdSet
fd_insert set (pos n) = if ltb n 1024 then done (λ k. k == n || set k) else overrun
fd_insert set (negsuc n) = overrun

-- `FD_CLR(fd, &set)`
abbrev pub fd_remove : FdSet → ℕ → FdSet
fd_remove set n = λ k. not (k == n) && set k

-- `cfd > maxfd ? cfd : maxfd`
abbrev pub higher : ℤ → ℕ → ℕ
higher (pos n) maxfd = if ltb maxfd n then n else maxfd
higher (negsuc n) maxfd = maxfd

-- `char buf[10] = {0}`, `chunk` received into it, the loop with `toupper`, and what is sent then.
unfoldable pub reply : List ℕ → Option (List ℕ)
unfolding text upper_loop
reply chunk = text (upper_loop (length chunk) 0 (chunk ++ replicate (10 - length chunk) 0))

-- `maxfd = lfd`, and the set with the listening socket.
pub watch_first : {World : Type 0} → ℤ → World → Run (ℤ × Selecting World)
unfolding fd_insert
watch_first lfd w = fd_insert (λ k. false) lfd >>= λ set.
    done (lfd, record { rdset = set; maxfd = higher lfd 0; world = w })

module _ (net : Net) (calls : Select net) where
  open net use {World, socket, bind, listen, accept, recv, send, close}
  open calls use {select}

  -- `main` up to its loop: `lfd`, and the variables.
  unfoldable pub start : World → Run (ℤ × Selecting World)
  unfolding watch_first
  start w =
      let (lfd, w1) = socket w in
      let (ret, w2) = bind w1 lfd 5555 in let (ret2, w3) = listen w2 lfd 12 in watch_first lfd w3

  -- The listening socket is ready.
  pub accept_client : Selecting World → ℕ → Run (Selecting World)
  unfolding fd_insert
  accept_client s lfd =
      let (cfd, addr, w1) = accept s.world (pos lfd) in
      fd_insert s.rdset cfd >>= λ set.
      done (record { rdset = set; maxfd = higher cfd s.maxfd; world = w1 })

  -- Client `i` is ready.
  pub talk : Selecting World → ℕ → Run (Loop (Selecting World))
  unfolding reply
  talk s i =
      let got = recv s.world (pos i) 10 in
      elim got.0 [
        | none ↦ done (goes_on (record s { world = got.1 }))
        | some [] ↦
            done
              (goes_on (record s { rdset = fd_remove s.rdset i; world = (close got.1 (pos i)).1 }))
        | some (b ∷ bs) ↦ elim (reply (b ∷ bs)) [
          | none ↦ overrun
          | some bytes ↦
              let sent = send got.1 (pos i) bytes in
              elim sent.0 [
                | none ↦ done (ends minus_one (record s { world = sent.1 }))
                | some n ↦ done (goes_on (record s { world = sent.1 }))
              ]
        ]
      ]

  -- The inner loop from `i` on, with `n` rounds left; `rdtemp` is what `select` has left.
  unfoldable pub visit_all : ℕ → ℕ → ℕ → FdSet → Selecting World → Run (Loop (Selecting World))
  unfolding talk
  visit_all zero i lfd rdtemp s = done (goes_on s)
  visit_all (suc n) i lfd rdtemp s =
      and_then (if not (i == lfd) && rdtemp i then talk s i else done (goes_on s))
        (λ t. visit_all n (suc i) lfd rdtemp t)

  -- A round of the outer loop.
  unfoldable pub select_round : Selecting World → ℕ → Run (Loop (Selecting World))
  unfolding accept_client
  select_round s lfd =
      let (rdtemp, w1) = select s.world (s.maxfd + 1) s.rdset in
      let t : Selecting World = record s { world = w1 } in
      (if rdtemp lfd then accept_client t lfd else done t) >>= λ u.
      visit_all (u.maxfd + 1) 0 lfd rdtemp u

  -- The first rounds.
  unfoldable pub select_rounds : ℕ → Selecting World → ℕ → Run (Loop (Selecting World))
  select_rounds zero s lfd = done (goes_on s)
  select_rounds (suc n) s lfd = and_then (select_round s lfd) (λ t. select_rounds n t lfd)
