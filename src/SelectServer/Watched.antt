-- ===== src/SelectServer/Watched.antt =====
-- The server of IO_mulit_way/select_server.c watches exactly its open sockets.
use network_communications.Prelude.{
  ℕ, zero, suc, ◌+◌, ◌<◌, ◌≤◌, ℤ, pos, negsuc, Bool, true, false, not, ◌&&◌, ◌||◌, List, ◌∷◌, some,
  length, ltb, ◌==◌, ◌≡◌, ◌≢◌, ◌⊎◌, refl, sym, ap, ◌∙◌, inl, inr, arith, Bool-cases, Option-cases,
  if◌then◌else◌,
}
use network_communications.Run.{Run, goes_on, Stays, Returns, Returns->>=, Returns-and_then, done}
use network_communications.Net.{Net}
use network_communications.Socket.Receive.{Received-cases}
use network_communications.SelectServer.{
  Select, Selecting, FdSet, watch_first, fd_insert, higher, start, accept_client, talk, visit_all,
  select_round, select_rounds,
}
use network_communications.SelectServer.Reply.{reply_found}

-- What the calls do to the set of the program's open sockets, and that `accept` never fails and a new
-- socket has room in an `fd_set`.
pub record Sockets (net : Net) (calls : Select net) : Type 0 where
  pub is_open : net.World → ℕ → Bool
  pub accepts :
      (w : net.World) (fd : ℤ)
      → (c : ℕ) × ((net.accept w fd).0 ≡ pos c)
        × (c < 1024)
        × ((k : ℕ) → is_open (net.accept w fd).2 k ≡ (k == c || is_open w k))
  pub closes :
      (w : net.World) (i k : ℕ) → is_open (net.close w (pos i)).1 k ≡ (not (k == i) && is_open w k)
  pub recv_keeps : (w : net.World) (fd : ℤ) (n k : ℕ) → is_open (net.recv w fd n).1 k ≡ is_open w k
  pub send_keeps :
      (w : net.World) (fd : ℤ) (bs : List ℕ) (k : ℕ) → is_open (net.send w fd bs).1 k ≡ is_open w k
  pub select_keeps :
      (w : net.World) (n : ℕ) (set : FdSet) (k : ℕ)
      → is_open (calls.select w n set).1 k ≡ is_open w k

-- No client's message fills the buffer.
abbrev pub ShortMessages : Net → Type 0
ShortMessages net =
    (w : net.World) (fd : ℤ) (bs : List ℕ) → (net.recv w fd 10).0 ≡ some bs → length bs < 10

other_fd : (i lfd : ℕ) (b : Bool) → (not (i == lfd) && b) ≡ true → i ≢ lfd
other_fd i lfd b h e = ground arith

-- The set and `maxfd` with a descriptor more.
higher_bounds : (c maxfd : ℕ) → (c ≤ higher (pos c) maxfd) × (maxfd ≤ higher (pos c) maxfd)
higher_bounds c maxfd = ground arith

or_cases : (k c : ℕ) (b : Bool) → (k == c || b) ≡ true → (k ≡ c) ⊎ (b ≡ true)
or_cases k c true h = inr refl
or_cases k c false h = inl (ground arith)

higher_zero : (n : ℕ) → higher (pos n) 0 ≡ n
higher_zero n = ground arith

-- What `main` starts its loop with.
started :
    {World : Type 0} (fd : ℤ) (v : World) (lfd : ℕ) (s : Selecting World)
    → watch_first fd v ≡ done (pos lfd, s)
    → ((k : ℕ) → s.rdset k ≡ (k == lfd || false)) × (s.maxfd ≡ lfd)
unfolding watch_first fd_insert
started {World = World} (pos n) v lfd s e = elim (Bool-cases (ltb n 1024)) [
  | inl fits ↦
      let made : ◌≡◌ {A = Run (ℤ × Selecting World)}
          (done
            (pos n, record { rdset = λ k. k == n || false; maxfd = higher (pos n) 0; world = v }))
          (done (pos lfd, s)) =
        rw fits at e in
      let same : n ≡ lfd = cc in
      let vars : record { rdset = λ k. k == n || false; maxfd = higher (pos n) 0; world = v } ≡ s =
        cc in
      (
        λ k. sym (ap (λ t. t.rdset k) vars) ∙ ap (λ m. k == m || false) same,
        sym (ap (λ t. t.maxfd) vars) ∙ higher_zero n ∙ same,
      )
  | inr too_high ↦ absurd (ground arith)
]
started {World = World} (negsuc n) v lfd s e = absurd (ground arith)

is_self : (k lfd : ℕ) → (k == lfd || false) ≡ (k == lfd)
is_self k lfd = ground arith

self_listed : (lfd : ℕ) → (lfd == lfd || false) ≡ true
self_listed lfd = ground arith

listed_self : (k lfd : ℕ) → (k == lfd || false) ≡ true → k ≡ lfd
listed_self k lfd h = ground arith

module _ (net : Net) (calls : Select net) (sockets : Sockets net calls) where
  open net use {World, socket, bind, listen, accept, recv, send, close}
  open sockets use {is_open}

  -- The set holds the open sockets, all of them are below `maxfd + 1`, and the listening socket is one.
  pub record Watched (lfd : ℕ) (s : Selecting World) : Type 0 where
    pub same : (k : ℕ) → s.rdset k ≡ is_open s.world k
    pub below : (k : ℕ) → s.rdset k ≡ true → k ≤ s.maxfd
    pub listening : s.rdset lfd ≡ true

  -- A call that leaves the sockets alone.
  keeps-Watched :
      {lfd : ℕ} {s : Selecting World} (w : World)
      → Watched lfd s
      → ((k : ℕ) → is_open w k ≡ is_open s.world k)
      → Watched lfd (record s { world = w })
  keeps-Watched w h keep = record {
    same = λ k. h.same k ∙ sym (keep k);
    below = h.below;
    listening = h.listening;
  }

  module _ (short : ShortMessages net) where
    talk-Watched :
        (lfd i : ℕ) (s : Selecting World)
        → i ≢ lfd
        → Watched lfd s
        → Returns (Stays (Watched lfd)) (talk net calls s i)
    unfolding talk
    talk-Watched lfd i s ne h = elim (Received-cases (recv s.world (pos i) 10).0) [
      | inl e ↦ rw (e, talk) (keeps-Watched w1 h keep)
      | inr (inl e) ↦
          rw (e, talk)
            (record {
              same = λ k.
                  ap (λ b. not (k == i) && b) (h.same k ∙ sym (keep k))
                  ∙ sym (sockets.closes w1 i k);
              below = λ k on. h.below k (ground arith);
              listening = ground arith;
            })
      | inr (inr (b, bs, e)) ↦
          let (bytes, found) = reply_found (b ∷ bs) (short s.world (pos i) (b ∷ bs) e) in
          let keep2 : (k : ℕ) → is_open (send w1 (pos i) bytes).1 k ≡ is_open s.world k =
            λ k. sockets.send_keeps w1 (pos i) bytes k ∙ keep k in
          elim (Option-cases (send w1 (pos i) bytes).0) [
            | inl no_send ↦
                rw (e, talk, found, no_send) (keeps-Watched (send w1 (pos i) bytes).1 h keep2)
            | inr (n, ok) ↦
                rw (e, talk, found, ok) (keeps-Watched (send w1 (pos i) bytes).1 h keep2)
          ]
    ]
      where
        w1 : World
        w1 = (recv s.world (pos i) 10).1

        keep : (k : ℕ) → is_open w1 k ≡ is_open s.world k
        keep k = sockets.recv_keeps s.world (pos i) 10 k

    visit-Watched :
        (lfd i : ℕ) (b : Bool) (s : Selecting World)
        → Watched lfd s
        → Returns
            (Stays (Watched lfd))
            (if not (i == lfd) && b then talk net calls s i else done (goes_on s))
    visit-Watched lfd i b s h = elim (Bool-cases (not (i == lfd) && b)) [
      | inl e ↦ rw e (talk-Watched lfd i s (other_fd i lfd b e) h)
      | inr e ↦ rw e h
    ]

    visit_all-Watched :
        (n i lfd : ℕ) (rdtemp : FdSet) (s : Selecting World)
        → Watched lfd s
        → Returns (Stays (Watched lfd)) (visit_all net calls n i lfd rdtemp s)
    unfolding visit_all
    visit_all-Watched zero i lfd rdtemp s h = h
    visit_all-Watched (suc n) i lfd rdtemp s h =
        Returns-and_then (Watched lfd) _ _ (visit-Watched lfd i (rdtemp i) s h)
          (λ t ht. visit_all-Watched n (suc i) lfd rdtemp t ht)

    accept_client-Watched :
        (lfd : ℕ) (s : Selecting World)
        → Watched lfd s
        → Returns (Watched lfd) (accept_client net calls s lfd)
    unfolding accept_client fd_insert
    accept_client-Watched lfd s h =
        let (c, e, lt, opens) = sockets.accepts s.world (pos lfd) in
        let fits : ltb c 1024 ≡ true = ground arith in
        rw (e, fits)
          (record {
            same = λ k. ap (λ b. k == c || b) (h.same k) ∙ sym (opens k);
            below = λ k on. elim (or_cases k c (s.rdset k) on) [
              | inl is ↦ omega (arith, higher_bounds c s.maxfd)
              | inr before ↦ omega (arith, h.below k before, higher_bounds c s.maxfd)
            ];
            listening = ground arith;
          })

    round-Watched :
        (s : Selecting World) (lfd : ℕ)
        → Watched lfd s
        → Returns (Stays (Watched lfd)) (select_round net calls s lfd)
    unfolding select_round
    round-Watched s lfd h =
        Returns->>= (Watched lfd) _ _ _
          (maybe_accept (selected.0 lfd) (record s { world = selected.1 })
            (keeps-Watched selected.1 h (sockets.select_keeps s.world (s.maxfd + 1) s.rdset)))
          (λ u hu. visit_all-Watched (u.maxfd + 1) 0 lfd selected.0 u hu)
      where
        selected : FdSet × World
        selected = calls.select s.world (s.maxfd + 1) s.rdset

        maybe_accept :
            (b : Bool) (t : Selecting World)
            → Watched lfd t
            → Returns (Watched lfd) (if b then accept_client net calls t lfd else done t)
        maybe_accept true t ht = accept_client-Watched lfd t ht
        maybe_accept false t ht = ht

    rounds-Watched :
        (n : ℕ) (s : Selecting World) (lfd : ℕ)
        → Watched lfd s
        → Returns (Stays (Watched lfd)) (select_rounds net calls n s lfd)
    unfolding select_rounds
    rounds-Watched zero s lfd h = h
    rounds-Watched (suc n) s lfd h =
        Returns-and_then (Watched lfd) _ _ (round-Watched s lfd h)
          (λ t ht. rounds-Watched n t lfd ht)

    -- From a start that succeeds, with the listening socket as the only one open, and where `accept`
    -- never fails, every new socket has room in an `fd_set`, and no client's message fills the buffer:
    -- any number of rounds
    -- return, and at their end, or where the program has ended before, the set that `select` is given
    -- holds exactly the open sockets, the listening one among them, and none of them is above `maxfd`.
    pub select_rounds-Watched :
        (n : ℕ) (w : World) (lfd : ℕ) (s : Selecting World)
        → start net calls w ≡ done (pos lfd, s)
        → ((k : ℕ) → is_open s.world k ≡ (k == lfd))
        → Returns (Stays (Watched lfd)) (select_rounds net calls n s lfd)
    unfolding start
    select_rounds-Watched n w lfd s e only =
        let (rdset, top) = started (socket w).0 _ lfd s e in
        rounds-Watched n s lfd (record {
          same = λ k. rdset k ∙ is_self k lfd ∙ sym (only k);
          below = λ k on. omega (arith, top, listed_self k lfd (sym (rdset k) ∙ on));
          listening = rdset lfd ∙ self_listed lfd;
        })
