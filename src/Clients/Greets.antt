-- ===== src/Clients/Greets.antt =====
-- socket/client.c over a stream that gives it back parts of what it sends.
use network_communications.Prelude.{
  ℕ, zero, suc, ◌+◌, ◌≤◌, ◌<◌, ℤ, pos, is_minus_one, false, List, [], ◌∷◌, ◌++◌, Option, ◌≡◌, refl,
  sym, ap, subst, ◌∙◌, inl, inr, arith, length, length-append, append_assoc,
}
use network_communications.Run.{ends, Returns, Returns->>=}
use network_communications.Net.{Net}
use network_communications.Net.Stream.{Stream, Receives, Duplex, TakesWhole, send_whole}
use network_communications.Socket.{int_max}
use network_communications.Socket.Receive.{Received-cases}
use network_communications.Clients.{buffer_size, greeting, Talk, greet_loop, greet_main, connected}
use network_communications.Clients.Texts.{counted_fits, length-greeting}
use network_communications.Clients.Chat.Gaps.{greetings, piece-shown}

module _ (net : Net) (laws : Stream net) (apart : Duplex net laws)
    (whole : TakesWhole net buffer_size) where
  open net use {World, socket, connect, recv, send}
  open laws use {inbox, outbox, recv_law}

  -- As many greetings have been sent as answers printed, and one more, the last, which has none.
  abbrev pub Asked : ℤ → Talk World → Type 0
  Asked fd t = outbox t.world fd ≡ greetings (suc (length t.shown))

  -- `front` is what has come before, and `m` greetings are more than what will come.
  greet_loop-Asked :
      (fuel : ℕ) (s : Talk World) (fd : ℤ) (n m : ℕ) (front rest : List ℕ)
      → length s.shown ≡ n
      → length (inbox s.world fd) < fuel
      → n + length (inbox s.world fd) < int_max
      → front ++ (inbox s.world fd ++ rest) ≡ greetings m
      → outbox s.world fd ≡ greetings n
      → Returns (Asked fd) (greet_loop net fuel s fd n)
  unfolding greet_loop greetings
  greet_loop-Asked zero s fd n m front rest count h fits came out = absurd (omega arith)
  greet_loop-Asked (suc fuel) s fd n m front rest count h fits came out =
      let msg : List ℕ = greeting n ++ 0 ∷ [] in
      let short : length (greeting n) ≤ 37 = length-greeting n in
      let w1 : World = (send s.world fd msg).1 in
      let r : Option (List ℕ) = (recv w1 fd buffer_size).0 in
      let w2 : World = (recv w1 fd buffer_size).1 in
      let law : Receives (inbox w1 fd) buffer_size r (inbox w2 fd) =
        recv_law w1 fd buffer_size (omega arith) in
      let kept : inbox w1 fd ≡ inbox s.world fd = apart.send_inbox s.world fd msg in
      let sent : outbox w2 fd ≡ greetings (suc n) =
        apart.recv_outbox w1 fd buffer_size
        ∙ send_whole net laws buffer_size whole s.world fd msg
            (omega (arith, short, length-append (greeting n) (0 ∷ [])))
        ∙ ap (λ t. t ++ msg) out in
      let last : outbox w2 fd ≡ greetings (suc (length s.shown)) =
        sent ∙ ap (λ k. greetings (suc k)) (sym count) in
      rw (counted_fits n (greeting n) (omega arith) (omega arith), greet_loop)
        (elim (Received-cases r) [
          | inl e ↦ rw (e, greet_loop) last
          | inr (inl e) ↦ rw (e, greet_loop) last
          | inr (inr (b, bs, e)) ↦
              let (next, room) =
                subst (λ o. Receives (inbox w1 fd) buffer_size o (inbox w2 fd)) e law in
              let all : inbox s.world fd ≡ (b ∷ bs) ++ inbox w2 fd = sym kept ∙ next in
              let piece : front ++ ((b ∷ bs) ++ (inbox w2 fd ++ rest)) ≡ greetings m =
                ap (λ t. front ++ t) (sym (append_assoc (b ∷ bs) (inbox w2 fd) rest))
                ∙ ap (λ t. front ++ (t ++ rest)) (sym all)
                ∙ came in
              let (bytes, shows) = piece-shown m front (b ∷ bs) (inbox w2 fd ++ rest) piece in
              let longer = append_assoc front (b ∷ bs) (inbox w2 fd ++ rest) in
              let less : length (inbox s.world fd) ≡ suc (length bs) + length (inbox w2 fd) =
                ap length all ∙ length-append (b ∷ bs) (inbox w2 fd) in
              rw (e, greet_loop)
                (rw (shows, greet_loop)
                  (greet_loop-Asked fuel (record s { shown = s.shown ++ bytes ∷ []; world = w2 }) fd
                    (suc n) m (front ++ (b ∷ bs)) rest
                    (length-append s.shown (bytes ∷ []) ∙ omega (arith, count))
                    (omega (arith, less)) (omega (arith, less)) (longer ∙ piece) sent))
        ])

  -- `main` of socket/client.c, where `socket` gives a descriptor that is not -1, `connect` succeeds,
  -- nothing has been sent or printed yet, `send` takes up to 1024 bytes whole, and what will come is
  -- part of a stream of greetings, with fewer bytes than the rounds and the largest `int`: it returns
  -- 0, and has sent its greetings in order, one more than it has printed answers.
  pub greet_main-Asked :
      (fuel ip : ℕ) (s : Talk World) (w1 w2 : World) (fd ret : ℤ) (m : ℕ) (front rest : List ℕ)
      → socket s.world ≡ (fd, w1)
      → is_minus_one fd ≡ false
      → connect w1 fd ip 5555 ≡ (ret, w2)
      → is_minus_one ret ≡ false
      → s.shown ≡ []
      → outbox w2 fd ≡ []
      → length (inbox w2 fd) < fuel
      → length (inbox w2 fd) < int_max
      → front ++ (inbox w2 fd ++ rest) ≡ greetings m
      → Returns
          (λ r. (t : Talk World) × (r ≡ ends (pos 0) t) × Asked fd t)
          (greet_main net fuel ip s)
  unfolding greet_main connected greetings
  greet_main-Asked fuel ip s w1 w2 fd ret m front rest a a' b b' none_shown new h fits came =
      rw (a, a', b, b', greet_main, connected)
        (Returns->>= (Asked fd) _ (greet_loop net fuel (record s { world = w2 }) fd 0) _
          (greet_loop-Asked fuel (record s { world = w2 }) fd 0 m front rest (ap length none_shown)
            h (omega arith) came new)
          λ t asked. (_, refl, laws.close_law t.world fd ∙ asked))
