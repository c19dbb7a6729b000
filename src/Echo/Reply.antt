-- ===== src/Echo/Reply.antt =====
-- What the servers of socket/ send back.
use network_communications.Prelude.{
  ℕ, zero, suc, ◌<◌, ℤ, pos, is_minus_one, false, List, [], ◌∷◌, ◌++◌, Option, ◌≡◌, refl, sym, ap,
  subst, ◌∙◌, inl, inr, arith, length, length-append, append_assoc, append-nil,
}
use network_communications.Run.{Returns, Returns-map, Returns->>=}
use network_communications.Net.{Net}
use network_communications.Net.Stream.{Stream, Receives, NoErrors, Duplex, TakesWhole, send_whole}
use network_communications.Socket.Receive.{Received-cases}
use network_communications.Echo.{buffer_size, echo_loop, serve_client, echo_main, working}

module _ (net : Net) (laws : Stream net) (apart : Duplex net laws) (go : NoErrors net)
    (whole : TakesWhole net buffer_size) where
  open net use {World, socket, bind, listen, accept, recv, send}
  open laws use {inbox, outbox, recv_law, send_law}

  -- All that was to come has come, and all of it has gone back.
  abbrev pub Echoed : ℤ → World → World → Type 0
  Echoed fd w v = (inbox v fd ≡ []) × (outbox v fd ≡ outbox w fd ++ inbox w fd)

  echo_loop-Echoed :
      (fuel : ℕ) (w : World) (fd : ℤ)
      → length (inbox w fd) < fuel
      → Returns (Echoed fd w) (echo_loop net fuel w fd)
  unfolding echo_loop
  echo_loop-Echoed zero w fd h = absurd (omega arith)
  echo_loop-Echoed (suc fuel) w fd h = elim (Received-cases r) [
    | inl e ↦ absurd (go w fd buffer_size (omega arith) e)
    | inr (inl e) ↦
        let (nothing, rest) =
          subst (λ o. Receives (inbox w fd) buffer_size o (inbox w1 fd)) e law in
        rw (e, echo_loop)
          (
            rest,
            apart.recv_outbox w fd buffer_size
                ∙ sym (append-nil (outbox w fd))
                ∙ ap (◌++◌ (outbox w fd)) (sym nothing),
          )
    | inr (inr (b, bs, e)) ↦
        let (came, room) = subst (λ o. Receives (inbox w fd) buffer_size o (inbox w1 fd)) e law in
        let w2 : World = (send w1 fd (b ∷ bs)).1 in
        let left : inbox w2 fd ≡ inbox w1 fd = apart.send_inbox w1 fd (b ∷ bs) in
        let fewer : length (inbox w2 fd) < fuel =
          omega (arith, ap length left, ap length came, length-append (b ∷ bs) (inbox w1 fd)) in
        rw (e, echo_loop)
          (Returns-map (echo_loop net fuel w2 fd)
            (λ v d. (
              d.0,
              d.1
                  ∙ ap (λ xs. outbox w2 fd ++ xs) left
                  ∙ ap (λ xs. xs ++ inbox w1 fd)
                      (send_whole net laws buffer_size whole w1 fd (b ∷ bs) room
                        ∙ ap (λ xs. xs ++ (b ∷ bs)) (apart.recv_outbox w fd buffer_size))
                  ∙ append_assoc (outbox w fd) (b ∷ bs) (inbox w1 fd)
                  ∙ ap (λ xs. outbox w fd ++ xs) (sym came),
            ))
            (echo_loop-Echoed fuel w2 fd fewer))
  ]
    where
      r : Option (List ℕ)
      r = (recv w fd buffer_size).0

      w1 : World
      w1 = (recv w fd buffer_size).1

      law : Receives (inbox w fd) buffer_size r (inbox w1 fd)
      law = recv_law w fd buffer_size (omega arith)

  -- The task `working` of socket/multi_thread/server.c, where `recv` does not fail, a `send` of at
  -- most 1024 bytes takes them all, and the rounds are more than the bytes that come: it ends, and
  -- the peer has been sent exactly the bytes that came from it, in order.
  pub working-Echoed :
      (fuel : ℕ) (w : World) (fd : ℤ)
      → length (inbox w fd) < fuel
      → Returns (λ v. outbox v fd ≡ outbox w fd ++ inbox w fd) (working net fuel w fd)
  unfolding working
  working-Echoed fuel w fd h =
      Returns->>= (Echoed fd w) _ (echo_loop net fuel w fd) _ (echo_loop-Echoed fuel w fd h)
        λ v d. laws.close_law v fd ∙ d.1

  -- The program socket/server.c, where the four calls that set it up succeed, `recv` does not
  -- fail, a `send` of at most 1024 bytes takes them all, and the rounds are more than the bytes
  -- that come: it returns 0, and has sent its client exactly the bytes that came from it.
  pub echo_main-Echoed :
      (fuel : ℕ) (w w1 w2 w3 w4 : World) (fd ret ret2 cfd : ℤ) (addr : ℕ)
      → socket w ≡ (fd, w1)
      → is_minus_one fd ≡ false
      → bind w1 fd 5555 ≡ (ret, w2)
      → is_minus_one ret ≡ false
      → listen w2 fd 5 ≡ (ret2, w3)
      → is_minus_one ret2 ≡ false
      → accept w3 fd ≡ (cfd, addr, w4)
      → is_minus_one cfd ≡ false
      → length (inbox w4 cfd) < fuel
      → Returns
          (λ r. (r.ret ≡ pos 0) × (outbox r.world cfd ≡ outbox w4 cfd ++ inbox w4 cfd))
          (echo_main net fuel w)
  unfolding echo_main serve_client
  echo_main-Echoed fuel w w1 w2 w3 w4 fd ret ret2 cfd addr a a' b b' c c' d d' h =
      rw (a, a', b, b', c, c', d, d')
        (Returns->>= (Echoed cfd w4) _ (echo_loop net fuel w4 cfd) _
          (echo_loop-Echoed fuel w4 cfd h)
          λ v e. (refl, laws.close_law (net.close v fd).1 cfd ∙ apart.close_outbox v fd cfd ∙ e.1))
