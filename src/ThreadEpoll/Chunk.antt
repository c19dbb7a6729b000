-- ===== src/ThreadEpoll/Chunk.antt =====
-- A round of the thread that talks to a client in IO_mulit_way/thread_epoll_server.c.
use network_communications.Prelude.{
  ℕ, suc, ◌+◌, ℤ, List, [], ◌∷◌, ◌++◌, map, length, ◌≡◌, refl, sym, ap, subst, ◌∙◌, arith,
  length-append, append-nil,
}
use network_communications.Net.{Net}
use network_communications.Net.Stream.{Stream, Duplex}
use network_communications.Net.Events.{Events}
use network_communications.CText.{to_upper, upper_loop}
use network_communications.CText.Upper.{upper_loop-map, NoNul, map-NoNul}
use network_communications.ThreadEpoll.{until_nul}

-- The loop over a whole buffer.
pub upper_loop-whole : (xs : List ℕ) → upper_loop (length xs) 0 xs ≡ map to_upper xs
upper_loop-whole xs =
    ap (upper_loop (length xs) 0) (sym (append-nil xs))
    ∙ upper_loop-map xs []
    ∙ append-nil (map to_upper xs)

pub until_nul-NoNul : (xs : List ℕ) → NoNul xs → until_nul xs ≡ xs
unfolding until_nul
until_nul-NoNul [] h = refl
until_nul-NoNul (x ∷ xs) h = ground (arith, until_nul-NoNul xs h.1)

pub NoNul-append : (xs ys : List ℕ) → NoNul (xs ++ ys) → NoNul xs × NoNul ys
NoNul-append [] ys h = (tt, h)
NoNul-append (x ∷ xs) ys (ne, h) = let (a, b) = NoNul-append xs ys h in ((ne, a), b)

pub length-map_upper : (xs : List ℕ) → length (map to_upper xs) ≡ length xs
length-map_upper [] = refl
length-map_upper (x ∷ xs) = ap suc (length-map_upper xs)

pub map-append_upper :
    (xs ys : List ℕ) → map to_upper (xs ++ ys) ≡ map to_upper xs ++ map to_upper ys
map-append_upper [] ys = refl
map-append_upper (x ∷ xs) ys = ap (◌∷◌ (to_upper x)) (map-append_upper xs ys)

-- What the loop does with a chunk without '\0'.
pub shouted :
    (chunk : List ℕ)
    → NoNul chunk
    → until_nul (upper_loop (length chunk) 0 chunk) ≡ map to_upper chunk
shouted chunk h =
    ap until_nul (upper_loop-whole chunk) ∙ until_nul-NoNul (map to_upper chunk) (map-NoNul chunk h)

module _ (net : Net) (events : Events net) (laws : Stream net) (apart : Duplex net laws) where
  open net use {World, send}
  open events use {recv_now}
  open laws use {inbox}

  -- The world after a round that reads `chunk` and sends it in capitals.
  abbrev pub said : World → ℤ → List ℕ → World
  said w fd chunk = (send (recv_now w fd 5).1 fd (map to_upper chunk)).1

  -- What is left of the stream then, and how long `temp` is.
  pub record Round (w : World) (fd : ℤ) (temp chunk : List ℕ) : Type 0 where
    pub clean_chunk : NoNul chunk
    pub clean_left : NoNul (inbox (said w fd chunk) fd)
    pub total : length (inbox w fd) ≡ length chunk + length (inbox (said w fd chunk) fd)
    pub long : length (temp ++ map to_upper chunk) ≡ length temp + length chunk

  pub said-Round :
      (w : World) (fd : ℤ) (temp chunk : List ℕ)
      → NoNul (inbox w fd)
      → inbox w fd ≡ chunk ++ inbox (recv_now w fd 5).1 fd
      → Round w fd temp chunk
  said-Round w fd temp chunk clean came =
      let rest = inbox (recv_now w fd 5).1 fd in
      let (front, back) = NoNul-append chunk rest (subst NoNul came clean) in
      let left = apart.send_inbox (recv_now w fd 5).1 fd (map to_upper chunk) in
      record {
        clean_chunk = front;
        clean_left = subst NoNul (sym left) back;
        total = omega (arith, ap length came, length-append chunk rest, ap length left);
        long = omega (arith, length-append temp (map to_upper chunk), length-map_upper chunk);
      }
