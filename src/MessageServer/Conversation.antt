-- ===== src/MessageServer/Conversation.antt =====
-- A whole conversation: what client.c sends block by block, a `working` thread of server.c
-- receives message by message.
use network_communications.Prelude.{
  ℕ, zero, suc, ◌+◌, ◌≤◌, ◌<◌, ℤ, pos, is_not_positive, List, [], ◌∷◌, ◌++◌, some, ◌≡◌, refl, false,
  sym, ap, ◌∙◌, arith, length, append-nil, append_assoc, append_cancel, subst,
}
use network_communications.Run.{done, Returns, Returns->>=, Returns-map}
use network_communications.Net.{Net}
use network_communications.Net.Stream.{Stream, NoErrors, NoSendErrors, Progress}
use network_communications.Wire.{frame}
use network_communications.Socket.{
  int_max, create_socket, connect_to_host, close_socket, recv_msg, send_msg,
}
use network_communications.Socket.Message.{recv_msg-Delivers}
use network_communications.Socket.Failure.{recv_msg-end}
use network_communications.Socket.Frame.{send_msg-whole}
use network_communications.MessageServer.{working, send_blocks, client_main}

abbrev pub frames : List (List ℕ) → List ℕ
frames [] = []
frames (m ∷ ms) = frame m ++ frames ms

-- Messages that are not empty and that `sendMsg` can frame in an `int`.
abbrev pub Fit : List (List ℕ) → Type 0
Fit [] = Unit
Fit (m ∷ ms) = (0 < length m) × (length m + 4 ≤ int_max) × Fit ms

-- Longer than any of them, with the header.
abbrev pub Below : ℕ → List (List ℕ) → Type 0
Below fuel [] = Unit
Below fuel (m ∷ ms) = (length m + 4 < fuel) × Below fuel ms

positive : (n : ℕ) → 0 < n → is_not_positive (pos n) ≡ false
positive zero h = absurd (omega arith)
positive (suc n) h = refl

module _ (net : Net) (laws : Stream net) where
  open net use {World}
  open laws use {inbox, outbox}

  -- A `working` thread, where no `recv` fails, on a stream that holds the messages `ms`, none of them empty and each of a
  -- length that plus 4 is an `int`, and then ends: given more rounds than there are
  -- messages it ends, and it has received exactly `ms`, in order.
  pub working-frames :
      NoErrors net
      → (fuel : ℕ) (w : World) (fd : ℤ) (ms : List (List ℕ)) → length ms < fuel
      → Fit ms
      → inbox w fd ≡ frames ms
      → Returns (λ r. (r.messages ≡ ms) × (inbox r.world fd ≡ [])) (working net fuel w fd)
  unfolding working
  working-frames go zero w fd ms h fit e = absurd (omega arith)
  working-frames go (suc fuel) w fd [] h fit e =
      Returns->>= _ _ (recv_msg net w fd) _ (recv_msg-end net laws go w fd e)
        λ r d. rw d.0 (refl, d.2)
  working-frames go (suc fuel) w fd (m ∷ ms) h fit e =
      Returns->>= _ _ (recv_msg net w fd) _
        (recv_msg-Delivers net laws go w fd m (frames ms) (omega arith) e)
        λ r d.
          rw (d.ret_length, positive (length m) fit.0, d.whole)
            (Returns->>= _ _ (working net fuel r.world fd) _
              (working-frames go fuel r.world fd ms (omega arith) fit.2 d.left)
              λ s rest. (ap (λ xs. m ∷ xs) rest.0, rest.1))

  -- The loop of client.c, on a descriptor that is not negative, where no `send` fails and `send`
  -- makes progress, with blocks of which none is empty and each has a length that plus 4 is an
  -- `int`, and more rounds for each than its message has bytes: it ends, and what it has handed
  -- over is the messages, in order.
  pub send_blocks-frames :
      Progress net
      → NoSendErrors net
      → (fuel : ℕ) (w : World) (n : ℕ) (ms : List (List ℕ)) → Fit ms
      → Below fuel ms
      → Returns
          (λ v. outbox v (pos n) ≡ outbox w (pos n) ++ frames ms)
          (send_blocks net fuel w (pos n) ms)
  unfolding send_blocks
  send_blocks-frames go ok fuel w n [] fit below = sym (append-nil (outbox w (pos n)))
  send_blocks-frames go ok fuel w n (m ∷ ms) fit below =
      Returns->>= _ _ (send_msg net fuel w (pos n) (some m) (pos (length m))) _
        (send_msg-whole net laws go ok fuel w n m below.0 fit.0 fit.1)
        λ r d.
          Returns-map (send_blocks net fuel r.world (pos n) ms)
            (λ v f.
              f
              ∙ ap (λ ys. ys ++ frames ms) d
              ∙ append_assoc (outbox w (pos n)) (frame m) (frames ms))
            (send_blocks-frames go ok fuel r.world n ms fit.2 below.1)

  -- `main` of client.c, where `socket` gives a descriptor that is not negative, `connect` succeeds and
  -- nothing has been sent on it yet, no `send` fails and `send` makes progress; with blocks of which
  -- none is empty and each has a length that plus 4 is an `int`, and more rounds for each than its
  -- message has bytes: it returns 0, and has handed over its blocks as messages, in order.
  pub client_main-Posts :
      Progress net
      → NoSendErrors net
      → (fuel : ℕ) (w w1 w2 : World) (n ip m : ℕ) (ms : List (List ℕ)) → Fit ms
      → Below fuel ms
      → net.socket w ≡ (pos n, w1)
      → net.connect w1 (pos n) ip 5555 ≡ (pos m, w2)
      → outbox w2 (pos n) ≡ []
      → Returns
          (λ r. (r.ret ≡ pos 0) × (outbox r.world (pos n) ≡ frames ms))
          (client_main net fuel w ip ms)
  unfolding client_main create_socket connect_to_host close_socket
  client_main-Posts go ok fuel w w1 w2 n ip m ms fit below made connected fresh =
      rw (made, client_main, create_socket, connected, connect_to_host)
        (Returns->>= _ _ (send_blocks net fuel w2 (pos n) ms) _
          (send_blocks-frames go ok fuel w2 n ms fit below)
          λ v f. (refl, laws.close_law v (pos n) ∙ f ∙ ap (λ xs. xs ++ frames ms) fresh))

-- The two programs together. The loop of client.c has sent the blocks `ms`, none of them empty and
-- each of a length that plus 4 is an `int`, with more rounds for each than its block has bytes,
-- and has ended; the stream of the server holds what was handed over and then ends. Where no call
-- fails and `send` makes progress, the `working` thread of server.c, given more rounds than there
-- are messages, ends, and has received exactly the blocks, in order.
pub blocks_arrive :
    (A B : Net) (at : Stream A) (bt : Stream B)
    → Progress A
    → NoSendErrors A
    → NoErrors B
    → (fuel : ℕ) (w v : A.World) (n : ℕ) (ms : List (List ℕ)) (sent : List ℕ) → Fit ms
    → Below fuel ms
    → send_blocks A fuel w (pos n) ms ≡ done v
    → at.outbox v (pos n) ≡ at.outbox w (pos n) ++ sent
    → (rounds : ℕ) (u : B.World) (cfd : ℤ) → length ms < rounds
    → bt.inbox u cfd ≡ sent
    → Returns (λ r. (r.messages ≡ ms) × (bt.inbox r.world cfd ≡ [])) (working B rounds u cfd)
blocks_arrive A B at bt go ok good fuel w v n ms sent fit below end handed rounds u cfd h e =
    working-frames B bt good rounds u cfd ms h fit
      (e ∙ append_cancel (at.outbox w (pos n)) (sym handed ∙ all))
  where
    all : at.outbox v (pos n) ≡ at.outbox w (pos n) ++ frames ms
    all =
        subst (Returns (λ x. at.outbox x (pos n) ≡ at.outbox w (pos n) ++ frames ms)) end
          (send_blocks-frames A at go ok fuel w n ms fit below)
