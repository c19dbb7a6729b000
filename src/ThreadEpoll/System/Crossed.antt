-- ===== src/ThreadEpoll/System/Crossed.antt =====
-- A run of IO_mulit_way/thread_epoll_server.c in which a client gets what another has sent.
use network_communications.Prelude.{
  ℕ, ◌≤◌, List, [], ◌∷◌, some, length, ltb, ◌==◌, ◌||◌, ◌≡◌, refl, ap, subst, ◌∙◌, arith, inl, inr,
  Bool-cases,
}
use network_communications.ThreadEpoll.{temp_size, until_nul}
use network_communications.ThreadEpoll.Chunk.{upper_loop-whole, length-map_upper}
use network_communications.ThreadEpoll.System.{
  sending, deleting, System, init, move, spawn, accept_conn, capitals, keep, receive, send_piece,
  waits, accepts, adds, receives, finds_end, sends, deletes, closes, hangs_up, Reach, here, next,
  add, delete, close,
}

length-until_nul : (xs : List ℕ) → length (until_nul xs) ≤ length xs
unfolding until_nul
length-until_nul [] = omega arith
length-until_nul (x ∷ xs) = ground (arith, length-until_nul xs)

length-capitals : (xs : List ℕ) → length (capitals xs) ≡ length xs
length-capitals xs = ap length (upper_loop-whole xs) ∙ length-map_upper xs

-- A first piece fits in `temp`.
keep_first :
    (fd : ℕ) (piece : List ℕ)
    → length piece ≤ 5
    → keep fd [] piece ≡ sending fd (capitals piece) (until_nul (capitals piece))
unfolding keep
keep_first fd piece h = elim (Bool-cases (ltb (length (until_nul (capitals piece))) temp_size)) [
  | inl e ↦ rw (e, keep) refl
  | inr e ↦ absurd (ground (arith, length-until_nul (capitals piece), length-capitals piece))
]

module _ (b : ℕ) (bs : List ℕ) (short : length (b ∷ bs) ≤ 5) where
  abbrev piece : List ℕ
  piece = b ∷ bs

  abbrev pub temp : List ℕ
  temp = until_nul (capitals piece)

  -- The first client has been accepted, and `main` has started a thread for it.
  abbrev first_client : System
  first_client = spawn 3 (5 ∷ []) (add (accept_conn (spawn 3 (3 ∷ []) (init 3)) 0 5) 0 5)

  first_client-Reach : Reach 3 first_client
  unfolding init spawn accept_conn add
  first_client-Reach =
      next
        (next (next (next here (waits (3 ∷ []) (refl, tt))) (accepts 0 5 refl refl refl))
          (adds 0 5 refl))
        (waits (5 ∷ []) (refl, tt))

  -- The thread has received the piece.
  abbrev piece_held : System
  piece_held = record (move first_client 1 (sending 5 (capitals piece) temp)) {
    received = record { thread = 1; fd = 5; client = some 0; bytes = piece } ∷ [];
  }

  piece_held-Reach : Reach 3 piece_held
  unfolding init spawn accept_conn add receive
  piece_held-Reach =
      let r : Reach 3 (receive first_client 1 5 [] piece) =
        next first_client-Reach (receives 1 5 0 b bs [] refl refl short) in
      let same : receive first_client 1 5 [] piece ≡ piece_held =
        ap
          (λ task. record (move first_client 1 task) {
            received = record { thread = 1; fd = 5; client = some 0; bytes = piece } ∷ [];
          })
          (keep_first 5 piece short) in
      subst (Reach 3) same r

  -- The client closes, and a second thread, which `main` has started for that, closes the descriptor
  -- before the first has sent the piece.
  abbrev end_seen : System
  end_seen =
      spawn 3 (5 ∷ []) (record piece_held { hung_up = λ k. (k == 0) || piece_held.hung_up k })

  abbrev closed : System
  closed = close (delete (move end_seen 2 (deleting 5)) 2 5) 2 5

  closed-Reach : Reach 3 closed
  unfolding init spawn accept_conn add close delete
  closed-Reach =
      next
        (next
          (next (next (next piece_held-Reach (hangs_up 0)) (waits (5 ∷ []) (refl, tt)))
            (finds_end 2 5 0 [] refl refl refl))
          (deletes 2 5 refl))
        (closes 2 5 refl)

  -- The next client gets the descriptor, and the first thread sends.
  abbrev pub sent_on : System
  sent_on =
      send_piece (accept_conn (spawn 3 (3 ∷ []) closed) 3 5) 1 5 (capitals piece) temp
        (some (length piece))

  pub sent_on-Reach : Reach 3 sent_on
  unfolding init spawn accept_conn add close delete
  sent_on-Reach =
      next (next (next closed-Reach (waits (3 ∷ []) (refl, tt))) (accepts 3 5 refl refl refl)) (
        sends 1 5 (capitals piece) temp (some (length piece)) refl
          (omega (arith, length-capitals piece)))

  -- With 3 for the listening socket: for any piece of at most five bytes, the program can reach a
  -- state in which all that has been received is this piece, from the first client, and all that has
  -- been sent are its capitals, to the second client, and `send` has taken them whole.
  pub crossed :
      (s : System) × Reach 3 s
      × (s.received ≡ record { thread = 1; fd = 5; client = some 0; bytes = piece } ∷ [])
      × (s.sent
          ≡ record {
            thread = 1;
            fd = 5;
            client = some 1;
            bytes = capitals piece;
            result = some (length piece);
          }
            ∷ [])
  unfolding init spawn accept_conn add close delete send_piece
  crossed = (sent_on, sent_on-Reach, refl, refl)
