-- ===== src/Socket/Frame.antt =====
-- `sendMsg` of SocketPackage/socket.c, and `recvMsg` at the other end.
use network_communications.Prelude.{
  ℕ, ◌+◌, ◌≤◌, ◌<◌, ℤ, pos, minus_one, List, [], ◌∷◌, ◌++◌, some, ◌≡◌, refl, sym, ap, subst, ◌∙◌,
  arith, length, length-append, take, take-length, append_cancel, ◌≢◌, false, is_minus_one,
  if◌then◌else◌, ltb, ◌||◌,
}
use network_communications.Run.{done, Returns, Returns->>=}
use network_communications.Net.{Net}
use network_communications.Net.Stream.{Stream, NoErrors, Progress, NoSendErrors}
use network_communications.Wire.{htonl_bytes, frame, length-htonl}
use network_communications.Socket.{Called, int_max, writen, send_block, recv_msg, send_msg}
use network_communications.Socket.Send.{
  Writes, Outcome, complete, failed, writen-Writes, writen-whole,
}
use network_communications.Socket.Message.{Delivers, recv_msg-Delivers}

length-frame : (msg : List ℕ) → length (frame msg) ≡ length msg + 4
length-frame msg =
    omega (arith, length-append (htonl_bytes (length msg)) msg, length-htonl (length msg))

in_range : (n : ℕ) → n + 4 ≤ int_max → (ltb n n || ltb int_max (n + 4)) ≡ false
in_range n h = ground arith

module _ (net : Net) (laws : Stream net) where
  open net use {World, close}
  open laws use {outbox, close_law}

  -- The block is on its way whole; or a proper prefix of it is, and the result is -1.
  pub record Posts (cfd : ℤ) (msg : List ℕ) (before : List ℕ) (r : Called World) : Type 0 where
    pub sent : ℕ
    pub handed : outbox r.world cfd ≡ before ++ take sent (frame msg)
    pub verdict : Outcome (length msg + 4) (length msg + 4) sent r.ret

  Writes-Posts :
      (cfd : ℤ) (msg before : List ℕ) (r : Called World)
      → Writes net laws cfd (length msg + 4) (length msg + 4) (frame msg) before r
      → Returns
          (Posts cfd msg before)
          (if is_minus_one r.ret then done (record r { world = (close r.world cfd).1 }) else done r)
  Writes-Posts cfd msg before r h = elim h.verdict [
    | complete a b ↦ rw a (record { sent = h.sent; handed = h.handed; verdict = complete refl b })
    | failed a b ↦ rw a (record {
      sent = h.sent;
      handed = close_law r.world cfd ∙ h.handed;
      verdict = failed refl b;
    })
  ]

  send_block-Posts :
      Progress net
      → (fuel : ℕ) (w : World) (cfd : ℤ) (msg : List ℕ) → length msg + 4 < fuel
      → length msg + 4 ≤ int_max
      → Returns (Posts cfd msg (outbox w cfd)) (send_block net fuel w cfd msg (length msg))
  unfolding send_block
  send_block-Posts go fuel w cfd msg h fits =
      rw (in_range (length msg) fits, take-length msg)
        (Returns->>=
          (Writes net laws cfd (length msg + 4) (length msg + 4) (frame msg) (outbox w cfd)) _
          (writen net fuel w cfd (frame msg) (length msg + 4)) _
          (writen-Writes net laws go fuel w cfd (frame msg) (length msg + 4) h
            (omega (arith, length-frame msg)))
          (Writes-Posts cfd msg (outbox w cfd)))

  -- `sendMsg` of a message that is not empty, whose length plus 4 is an `int`, on a descriptor that
  -- is not negative, where `send` makes progress: it returns after as many rounds as the block has
  -- bytes, and one. The peer's stream has got the length in four bytes and then the message, and
  -- the result is the length plus 4; or it has got fewer bytes of these, and the result is -1.
  pub send_msg-Posts :
      Progress net
      → (fuel : ℕ) (w : World) (n : ℕ) (msg : List ℕ) → length msg + 4 < fuel
      → 0 < length msg
      → length msg + 4 ≤ int_max
      → Returns
          (Posts (pos n) msg (outbox w (pos n)))
          (send_msg net fuel w (pos n) (some msg) (pos (length msg)))
  unfolding send_msg
  send_msg-Posts go fuel w n [] h p fits = absurd (omega arith)
  send_msg-Posts go fuel w n (x ∷ xs) h p fits = send_block-Posts go fuel w (pos n) (x ∷ xs) h fits

  -- Where the result is not -1, what has been handed over is the whole block.
  Posts-frame :
      (cfd : ℤ) (msg before sent : List ℕ) (r : Called World)
      → Posts cfd msg before r
      → r.ret ≢ minus_one
      → outbox r.world cfd ≡ before ++ sent
      → sent ≡ frame msg
  Posts-frame cfd msg before sent r h ne e = elim h.verdict [
    | complete a b ↦
        append_cancel before (sym e ∙ h.handed)
        ∙ ap (λ k. take k (frame msg)) (omega (arith, b, length-frame msg))
        ∙ take-length (frame msg)
    | failed a b ↦ absurd (ne a)
  ]

  -- Where no `send` fails, `sendMsg` hands the whole block over.
  pub send_msg-whole :
      Progress net
      → NoSendErrors net
      → (fuel : ℕ) (w : World) (n : ℕ) (msg : List ℕ) → length msg + 4 < fuel
      → 0 < length msg
      → length msg + 4 ≤ int_max
      → Returns
          (λ r. outbox r.world (pos n) ≡ outbox w (pos n) ++ frame msg)
          (send_msg net fuel w (pos n) (some msg) (pos (length msg)))
  unfolding send_msg send_block
  send_msg-whole go ok fuel w n [] h p fits = absurd (omega arith)
  send_msg-whole go ok fuel w n (x ∷ xs) h p fits =
      rw (in_range (length (x ∷ xs)) fits, take-length (x ∷ xs))
        (Returns->>= _ _ (writen net fuel w (pos n) (frame (x ∷ xs)) (length (x ∷ xs) + 4)) _
          (writen-whole net laws go ok fuel w (pos n) (frame (x ∷ xs)) (length (x ∷ xs) + 4) h
            (omega (arith, length-frame (x ∷ xs))))
          λ r d. elim d.0.verdict [
            | complete a b ↦ rw a (
                d.0.handed
                ∙ ap (λ ys. outbox w (pos n) ++ ys)
                    (ap (λ k. take k (frame (x ∷ xs))) (omega (arith, b, length-frame (x ∷ xs)))
                      ∙ take-length (frame (x ∷ xs))))
            | failed a b ↦ absurd (d.1 a)
          ])

-- What one end sends, the other receives. Two processes, each with its own system calls. One calls
-- `sendMsg`, with more rounds than the block has bytes, on a descriptor that is not negative, with
-- a message that is not empty and whose length plus 4 is an `int`, and where `send` makes
-- progress; it returns something else than -1. Where the bytes that it has handed over are the
-- next in the stream of the other, and `recv` does not fail there, `recvMsg` returns the message's
-- length and the message, and leaves the rest of the stream.
pub recv_msg-send_msg :
    (A B : Net) (at : Stream A) (bt : Stream B)
    → Progress A
    → NoErrors B
    → (fuel : ℕ) (w : A.World) (n : ℕ) (msg : List ℕ) → length msg + 4 < fuel
    → 0 < length msg
    → length msg + 4 ≤ int_max
    → (r : Called A.World) (sent : List ℕ)
    → send_msg A fuel w (pos n) (some msg) (pos (length msg)) ≡ done r
    → r.ret ≢ minus_one
    → at.outbox r.world (pos n) ≡ at.outbox w (pos n) ++ sent
    → (v : B.World) (cfd : ℤ) (rest : List ℕ) → bt.inbox v cfd ≡ sent ++ rest
    → Returns (Delivers B bt cfd msg rest) (recv_msg B v cfd)
recv_msg-send_msg A B at bt go ok fuel w n msg h p fits r sent posted ne handed v cfd rest e =
    recv_msg-Delivers B bt ok v cfd msg rest (omega arith) (e ∙ ap (λ xs. xs ++ rest) same)
  where
    posts : Posts A at (pos n) msg (at.outbox w (pos n)) r
    posts =
        subst (Returns (Posts A at (pos n) msg (at.outbox w (pos n)))) posted
          (send_msg-Posts A at go fuel w n msg h p fits)

    same : sent ≡ frame msg
    same = Posts-frame A at (pos n) msg (at.outbox w (pos n)) sent r posts ne handed
