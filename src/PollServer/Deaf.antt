-- ===== src/PollServer/Deaf.antt =====
-- IO_mulit_way/poll_server.c never puts its listening socket into `fds`.
use network_communications.Prelude.{
  ℕ, zero, suc, ◌≤◌, ℤ, minus_one, is_negative, Bool, true, false, List, [], ◌∷◌, some, ◌≡◌,
}
use network_communications.Net.{Net}
use network_communications.PollServer.{Poll, Entry, Server, Next, again, stopped}

-- What the manual says of `poll`: it fills in each entry, and an entry with a negative descriptor is
-- ignored, its `revents` set to 0.
abbrev pub IgnoresNegative : (net : Net) → Poll net → Type 0
IgnoresNegative net calls =
    (w : net.World) (fd : ℤ) (bits : List Bool)
    → is_negative fd ≡ true
    → (calls.poll w (fd ∷ [])).0 ≡ some bits
    → bits ≡ false ∷ []

module _ (net : Net) (calls : Poll net) where
  open net use {World}
  open calls use {poll}

  -- The world after `n` calls of `poll` on one entry without a descriptor, and nothing else.
  unfoldable pub polls : ℕ → World → World
  polls zero w = w
  polls (suc n) w = polls n (poll w (minus_one ∷ [])).1

  -- Only the first entry of the table is looked at, and it has no descriptor.
  abbrev unheard : World → Bool → List Entry → Server World
  unheard w ready rest = record {
    fds = record { fd = minus_one; ready = ready } ∷ rest;
    maxfd = 0;
    world = w;
  }

  -- After `n` rounds: the loop goes on and has done nothing but these calls of `poll`, or a call of
  -- `poll` has failed before.
  abbrev pub Deaf : ℕ → World → Next World → Type 0
  Deaf n w (again t) = (t.world ≡ polls n w) × (t.maxfd ≡ 0)
  Deaf n w (stopped ret v) = (ret ≡ minus_one) × ((m : ℕ) × (m ≤ n) × (v ≡ polls m w))

  -- What a round leaves.
  abbrev After : World → List Entry → Next World → Type 0
  After w rest (again t) = t ≡ unheard (poll w (minus_one ∷ [])).1 false rest
  After w rest (stopped ret v) = (ret ≡ minus_one) × (v ≡ (poll w (minus_one ∷ [])).1)
