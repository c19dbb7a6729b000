-- ===== src/Socket/Send.antt =====
-- `writen` of SocketPackage/socket.c: what has been handed over for the peer when it returns.
use network_communications.Prelude.{
  ℕ, zero, suc, ◌+◌, ◌-◌, ◌≤◌, ◌<◌, ℤ, pos, minus_one, ◌⊎◌, inl, inr, List, [], ◌∷◌, ◌++◌, Option,
  none, some, ◌≡◌, refl, sym, ap, subst, ◌∙◌, arith, length, take, drop, append_assoc, append-nil,
  take-take, take-append-take, ◌≢◌, length-drop, length-take,
}
use network_communications.Run.{Returns, Returns-map, Returns-and}
use network_communications.Net.{Net}
use network_communications.Net.Stream.{Stream, Sends, Progress, NoSendErrors}
use network_communications.Socket.{Called, writen_loop, writen}

Sent-cases : (o : Option ℕ) → (o ≡ none) ⊎ (o ≡ some 0) ⊎ ((n : ℕ) × (o ≡ some (suc n)))
Sent-cases none = inl refl
Sent-cases (some zero) = inr (inl refl)
Sent-cases (some (suc n)) = inr (inr (n, refl))

-- Of `count` bytes, `sent` have been handed over at the return: all, or fewer and -1.
pub data Outcome (size count sent : ℕ) (ret : ℤ) : Type 0 where
  complete : ret ≡ pos size → sent ≡ count → Outcome size count sent ret
  failed : ret ≡ minus_one → sent < count → Outcome size count sent ret

module _ (net : Net) (laws : Stream net) where
  open net use {World, send}
  open laws use {outbox, send_law}

  pub record Writes (fd : ℤ) (size count : ℕ) (buf before : List ℕ) (r : Called World)
      : Type 0 where
    pub sent : ℕ
    pub handed : outbox r.world fd ≡ before ++ take sent buf
    pub verdict : Outcome size count sent r.ret

  -- A round that hands over `n` bytes, and then the rest of the loop.
  Writes-after :
      (fd : ℤ) (size count n : ℕ) (buf before after : List ℕ) (r : Called World)
      → after ≡ before ++ take n buf
      → n ≤ count
      → Writes fd size (count - n) (drop n buf) after r
      → Writes fd size count buf before r
  Writes-after fd size count n buf before after r e le h = record {
    sent = n + h.sent;
    handed =
        h.handed
        ∙ ap (λ xs. xs ++ take h.sent (drop n buf)) e
        ∙ append_assoc before (take n buf) (take h.sent (drop n buf))
        ∙ ap (λ xs. before ++ xs) (take-append-take n h.sent (n + h.sent) buf refl);
    verdict = elim h.verdict [
      | complete a b ↦ complete a (omega arith)
      | failed a b ↦ failed a (omega arith)
    ];
  }

  -- A round per byte and one more are enough, where `send` makes progress.
  writen_loop-Writes :
      Progress net
      → (fuel : ℕ) (w : World) (fd : ℤ) (size count : ℕ) (buf : List ℕ) → count < fuel
      → count ≤ length buf
      → Returns (Writes fd size count buf (outbox w fd)) (writen_loop net fuel w fd size count buf)
  unfolding writen_loop
  writen_loop-Writes go zero w fd size count buf h n = absurd (omega arith)
  writen_loop-Writes go (suc fuel) w fd size zero buf h n = record {
    sent = 0;
    handed = sym (append-nil (outbox w fd));
    verdict = complete refl refl;
  }
  writen_loop-Writes go (suc fuel) w fd size (suc left) [] h n = absurd (omega arith)
  writen_loop-Writes go (suc fuel) w fd size (suc left) (x ∷ xs) h n = elim (Sent-cases r) [
    | inl e ↦
        rw (e, writen_loop)
          (record {
            sent = 0;
            handed = subst (λ o. Sends before buf o after) e law ∙ sym (append-nil before);
            verdict = failed refl (omega arith);
          })
    | inr (inl e) ↦ absurd (go w fd x (take left xs) e)
    | inr (inr (k, e)) ↦
        let (handed, room) = subst (λ o. Sends before buf o after) e law in
        let le : suc k ≤ suc left = omega (arith, length-take (suc left) (x ∷ xs)) in
        rw (e, writen_loop)
          (Returns-map (writen_loop net fuel w' fd size (left - k) (drop (suc k) (x ∷ xs)))
            (λ out p.
              Writes-after fd size (suc left) (suc k) (x ∷ xs) before after out
                (handed ∙ ap (λ ys. before ++ ys) (take-take (suc k) (suc left) (x ∷ xs) le)) le
                (subst (λ m. Writes fd size m (drop (suc k) (x ∷ xs)) after out) (omega arith) p))
            (writen_loop-Writes go fuel w' fd size (left - k) (drop (suc k) (x ∷ xs)) (omega arith)
              (omega (arith, length-drop (suc k) (x ∷ xs)))))
  ]
    where
      buf : List ℕ
      buf = take (suc left) (x ∷ xs)

      r : Option ℕ
      r = (send w fd buf).0

      w' : World
      w' = (send w fd buf).1

      before : List ℕ
      before = outbox w fd

      after : List ℕ
      after = outbox w' fd

      law : Sends before buf r after
      law = send_law w fd buf

  -- `writen(fd, msg, size)`, of a buffer that has `size` bytes or more, where `send` makes
  -- progress: given more rounds than `size` it returns, and then the stream to the peer has got
  -- exactly the first `size` bytes of the buffer (the result is `size`), or fewer of them (the
  -- result is -1).
  pub writen-Writes :
      Progress net
      → (fuel : ℕ) (w : World) (fd : ℤ) (msg : List ℕ) (size : ℕ) → size < fuel
      → size ≤ length msg
      → Returns (Writes fd size size msg (outbox w fd)) (writen net fuel w fd msg size)
  unfolding writen
  writen-Writes go fuel w fd msg size h n = writen_loop-Writes go fuel w fd size size msg h n

  writen_loop-NoSendErrors :
      Progress net
      → NoSendErrors net
      → (fuel : ℕ) (w : World) (fd : ℤ) (size count : ℕ) (buf : List ℕ) → count < fuel
      → count ≤ length buf
      → Returns (λ r. r.ret ≢ minus_one) (writen_loop net fuel w fd size count buf)
  unfolding writen_loop
  writen_loop-NoSendErrors go ok zero w fd size count buf h n = absurd (omega arith)
  writen_loop-NoSendErrors go ok (suc fuel) w fd size zero buf h n = λ e. cc
  writen_loop-NoSendErrors go ok (suc fuel) w fd size (suc left) [] h n = absurd (omega arith)
  writen_loop-NoSendErrors go ok (suc fuel) w fd size (suc left) (x ∷ xs) h n =
      elim (Sent-cases (send w fd (take (suc left) (x ∷ xs))).0) [
        | inl e ↦ absurd (ok w fd x (take left xs) e)
        | inr (inl e) ↦ absurd (go w fd x (take left xs) e)
        | inr (inr (k, e)) ↦
            rw (e, writen_loop)
              (writen_loop-NoSendErrors go ok fuel (send w fd (take (suc left) (x ∷ xs))).1 fd size
                (left - k) (drop (suc k) (x ∷ xs)) (omega arith)
                (omega (arith, length-drop (suc k) (x ∷ xs))))
      ]

  -- Where no `send` fails either, all is handed over.
  pub writen-whole :
      Progress net
      → NoSendErrors net
      → (fuel : ℕ) (w : World) (fd : ℤ) (msg : List ℕ) (size : ℕ) → size < fuel
      → size ≤ length msg
      → Returns
          (λ r. Writes fd size size msg (outbox w fd) r × (r.ret ≢ minus_one))
          (writen net fuel w fd msg size)
  unfolding writen
  writen-whole go ok fuel w fd msg size h n =
      Returns-and _ _ (writen net fuel w fd msg size) (writen-Writes go fuel w fd msg size h n)
        (writen_loop-NoSendErrors go ok fuel w fd size size msg h n)
