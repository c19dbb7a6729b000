-- ===== src/Socket/Receive.antt =====
-- `readn` of SocketPackage/socket.c: it returns, and says how much of the stream it has taken.
use network_communications.Prelude.{
  ℕ, zero, suc, ◌+◌, ◌-◌, ◌<◌, ℤ, pos, minus_one, ◌⊎◌, inl, inr, List, [], ◌∷◌, ◌++◌, Option, none,
  some, ◌≡◌, refl, sym, ap, subst, ◌∙◌, arith, length, length-append, append_assoc, append-nil,
  append_inj, ◌≢◌,
}
use network_communications.Run.{Returns, Returns-map, Returns-and}
use network_communications.Net.{Net}
use network_communications.Net.Stream.{Stream, Receives, NoErrors}
use network_communications.Socket.{Read, readn_loop, readn}

pub Received-cases :
    (o : Option (List ℕ))
    → (o ≡ none) ⊎ (o ≡ some []) ⊎ ((b : ℕ) × (bs : List ℕ) × (o ≡ some (b ∷ bs)))
Received-cases none = inl refl
Received-cases (some []) = inr (inl refl)
Received-cases (some (b ∷ bs)) = inr (inr (b, bs, refl))

module _ (net : Net) (laws : Stream net) where
  open net use {World, recv}
  open laws use {inbox, recv_law}

  -- A call of `recv` for `k` bytes that has given `o`, and left the world `after`.
  abbrev pub Called : ℤ → ℕ → Option (List ℕ) → World → Type 0
  Called fd k o after = (v : World) × (recv v fd k ≡ (o, after))

  -- What a call that was to read `size` bytes has done, if `stored` bytes lie in the buffer at its
  -- return and `after` is the world then: it has them all; or, for those that were missing, `recv`
  -- has given no byte, and the stream has ended; or `recv` has failed.
  pub data Verdict (fd : ℤ) (size : ℕ) (ret : ℤ) (stored : List ℕ) (after : World) : Type 0 where
    complete : ret ≡ pos size → length stored ≡ size → Verdict fd size ret stored after
    ended :
        ret ≡ pos (length stored)
        → length stored < size
        → inbox after fd ≡ []
        → Called fd (size - length stored) (some []) after
        → Verdict fd size ret stored after
    failed :
        ret ≡ minus_one
        → length stored < size
        → Called fd (size - length stored) none after
        → Verdict fd size ret stored after

  -- The last call, for the `count` bytes that are missing behind `pt`.
  last_call :
      (w : World) (fd : ℤ) (size count : ℕ) (pt : List ℕ) (o : Option (List ℕ))
      → length pt + count ≡ size
      → (recv w fd count).0 ≡ o
      → Called fd (size - length pt) o (recv w fd count).1
  last_call w fd size count pt o n e =
      let missing : count ≡ size - length pt = omega arith in
      (w, ap (recv w fd) (sym missing) ∙ ap (λ x. (x, (recv w fd count).1)) e)

  -- `before` is the stream at the call, less what lies in the buffer already.
  pub record Reads (fd : ℤ) (size : ℕ) (pt before : List ℕ) (r : Read World) : Type 0 where
    pub got : List ℕ
    pub stored : r.stored ≡ pt ++ got
    pub taken : before ≡ got ++ inbox r.world fd
    pub verdict : Verdict fd size r.ret r.stored r.world

  -- A round that takes `bs`, and then the rest of the loop.
  Reads-after :
      (fd : ℤ) (size : ℕ) (pt before bs after : List ℕ) (r : Read World)
      → before ≡ bs ++ after
      → Reads fd size (pt ++ bs) after r
      → Reads fd size pt before r
  Reads-after fd size pt before bs after r e h = record {
    got = bs ++ h.got;
    stored = h.stored ∙ append_assoc pt bs h.got;
    taken = e ∙ ap (λ xs. bs ++ xs) h.taken ∙ sym (append_assoc bs h.got _);
    verdict = h.verdict;
  }

  -- A round per missing byte and one more are enough.
  readn_loop-Reads :
      (fuel : ℕ) (w : World) (fd : ℤ) (size count : ℕ) (pt : List ℕ)
      → count < fuel
      → length pt + count ≡ size
      → Returns (Reads fd size pt (inbox w fd)) (readn_loop net fuel w fd size count pt)
  unfolding readn_loop
  readn_loop-Reads zero w fd size count pt h n = absurd (omega arith)
  readn_loop-Reads (suc fuel) w fd size zero pt h n = record {
    got = [];
    stored = sym (append-nil pt);
    taken = refl;
    verdict = complete refl (omega arith);
  }
  readn_loop-Reads (suc fuel) w fd size (suc left) pt h n = elim (Received-cases r) [
    | inl e ↦
        rw (e, readn_loop)
          (record {
            got = [];
            stored = sym (append-nil pt);
            taken = sym (subst (λ o. Receives before (suc left) o after) e law);
            verdict = failed refl (omega arith) (last_call w fd size (suc left) pt none n e);
          })
    | inr (inl e) ↦
        let (nothing, rest) = subst (λ o. Receives before (suc left) o after) e law in
        rw (e, readn_loop)
          (record {
            got = [];
            stored = sym (append-nil pt);
            taken = nothing ∙ sym rest;
            verdict =
                ended (ap pos (omega arith)) (omega arith) rest
                  (last_call w fd size (suc left) pt (some []) n e);
          })
    | inr (inr (b, bs, e)) ↦
        let (taken, room) = subst (λ o. Receives before (suc left) o after) e law in
        rw (e, readn_loop)
          (Returns-map
            (readn_loop net fuel w' fd size (suc left - length (b ∷ bs)) (pt ++ (b ∷ bs)))
            (λ out. Reads-after fd size pt before (b ∷ bs) after out taken)
            (readn_loop-Reads fuel w' fd size (suc left - length (b ∷ bs)) (pt ++ (b ∷ bs))
              (omega arith) (omega (arith, length-append pt (b ∷ bs)))))
  ]
    where
      r : Option (List ℕ)
      r = (recv w fd (suc left)).0

      w' : World
      w' = (recv w fd (suc left)).1

      before : List ℕ
      before = inbox w fd

      after : List ℕ
      after = inbox w' fd

      law : Receives before (suc left) r after
      law = recv_law w fd (suc left) (omega arith)

  -- `readn(fd, buf, size)` returns, the bytes in the buffer are the next ones of the stream, in
  -- order, and the result tells apart: all `size` bytes were read (the result is `size`); the last
  -- `recv`, for those missing, gave 0, the stream having ended (the result is how many were read);
  -- or the last `recv`, for those missing, failed (the result is -1).
  pub readn-Reads :
      (w : World) (fd : ℤ) (size : ℕ)
      → Returns (Reads fd size [] (inbox w fd)) (readn net w fd (pos size))
  unfolding readn
  readn-Reads w fd size = readn_loop-Reads (suc size) w fd size size [] (omega arith) (omega arith)

  readn_loop-NoErrors :
      NoErrors net
      → (fuel : ℕ) (w : World) (fd : ℤ) (size count : ℕ) (pt : List ℕ) → count < fuel
      → Returns (λ r. r.ret ≢ minus_one) (readn_loop net fuel w fd size count pt)
  unfolding readn_loop
  readn_loop-NoErrors go zero w fd size count pt h = absurd (omega arith)
  readn_loop-NoErrors go (suc fuel) w fd size zero pt h = λ e. cc
  readn_loop-NoErrors go (suc fuel) w fd size (suc left) pt h =
      elim (Received-cases (recv w fd (suc left)).0) [
        | inl e ↦ absurd (go w fd (suc left) (omega arith) e)
        | inr (inl e) ↦ rw (e, readn_loop) (λ f. cc)
        | inr (inr (b, bs, e)) ↦
            rw (e, readn_loop)
              (readn_loop-NoErrors go fuel (recv w fd (suc left)).1 fd size
                (suc left - length (b ∷ bs)) (pt ++ (b ∷ bs)) (omega arith))
      ]

  -- All of `xs` was read, and `rest` is left.
  pub record Got (fd : ℤ) (xs rest : List ℕ) (r : Read World) : Type 0 where
    pub ret_size : r.ret ≡ pos (length xs)
    pub all : r.stored ≡ xs
    pub left : inbox r.world fd ≡ rest

  Reads-Got :
      (fd : ℤ) (xs rest before : List ℕ) (r : Read World)
      → before ≡ xs ++ rest
      → Reads fd (length xs) [] before r × (r.ret ≢ minus_one)
      → Got fd xs rest r
  Reads-Got fd xs rest before r e (h, ne) = elim h.verdict [
    | complete ret full ↦
        let (same, left) =
          append_inj h.got xs (sym h.taken ∙ e) (ap length (sym h.stored) ∙ full) in
        record { ret_size = ret; all = h.stored ∙ same; left = left }
    | ended ret short over call ↦ absurd (
        omega (
          arith,
          ap length (sym h.taken ∙ e),
          ap length over,
          ap length h.stored,
          length-append xs rest,
          length-append h.got (inbox r.world fd),
        ))
    | failed ret short call ↦ absurd (ne ret)
  ]

  -- Where no call fails and the stream begins with `xs`, asking for as many bytes gets these.
  pub readn-Got :
      NoErrors net
      → (w : World) (fd : ℤ) (xs rest : List ℕ) → inbox w fd ≡ xs ++ rest
      → Returns (Got fd xs rest) (readn net w fd (pos (length xs)))
  unfolding readn
  readn-Got go w fd xs rest e =
      Returns-map (readn net w fd (pos (length xs))) (λ r. Reads-Got fd xs rest (inbox w fd) r e)
        (Returns-and _ _ (readn net w fd (pos (length xs))) (readn-Reads w fd (length xs))
          (readn_loop-NoErrors go (suc (length xs)) w fd (length xs) (length xs) [] (omega arith)))

  -- The stream has ended: `xs` was all of it, and it is less than was asked for.
  pub record Short (fd : ℤ) (size : ℕ) (xs : List ℕ) (r : Read World) : Type 0 where
    pub ret_length : r.ret ≡ pos (length xs)
    pub all : r.stored ≡ xs
    pub below : length xs < size
    pub over : inbox r.world fd ≡ []

  Reads-Short :
      (fd : ℤ) (size : ℕ) (xs : List ℕ) (r : Read World)
      → length xs < size
      → Reads fd size [] xs r × (r.ret ≢ minus_one)
      → Short fd size xs r
  Reads-Short fd size xs r h (reads, ne) = elim reads.verdict [
    | complete ret full ↦ absurd (
        omega (
          arith,
          ap length reads.stored,
          ap length reads.taken,
          length-append reads.got (inbox r.world fd),
        ))
    | ended ret short over call ↦
        let same : xs ≡ r.stored =
          reads.taken ∙ ap (λ ys. reads.got ++ ys) over ∙ append-nil reads.got ∙ sym reads.stored in
        record {
          ret_length = ret ∙ ap (λ ys. pos (length ys)) (sym same);
          all = sym same;
          below = h;
          over = over;
        }
    | failed ret short call ↦ absurd (ne ret)
  ]

  -- Where no call fails and the stream ends too early, the call returns what there was.
  pub readn-Short :
      NoErrors net
      → (w : World) (fd : ℤ) (size : ℕ) → length (inbox w fd) < size
      → Returns (Short fd size (inbox w fd)) (readn net w fd (pos size))
  unfolding readn
  readn-Short go w fd size h =
      Returns-map (readn net w fd (pos size)) (λ r. Reads-Short fd size (inbox w fd) r h)
        (Returns-and _ _ (readn net w fd (pos size)) (readn-Reads w fd size)
          (readn_loop-NoErrors go (suc size) w fd size size [] (omega arith)))
