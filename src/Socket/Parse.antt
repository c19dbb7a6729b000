-- ===== src/Socket/Parse.antt =====
-- `recvMsg` of SocketPackage/socket.c on any stream, against a function of the bytes of the stream.
use network_communications.Prelude.{
  ℕ, zero, suc, ◌+◌, ◌*◌, ◌^◌, ◌≤◌, ◌<◌, ℤ, pos, List, [], ◌∷◌, ◌≡◌, refl, sym, ap, subst, ◌∙◌,
  arith, length, length-take, take, drop, take-append-drop, get_or, ltb, true, false, dec_lt,
  if◌then◌else◌,
}
use network_communications.Run.{Run, overrun, >>=-done, Returns, Returns-map, Returns-done}
use network_communications.Net.{Net}
use network_communications.Net.Stream.{Stream, NoErrors}
use network_communications.Wire.{ntohl_bytes, to_int}
use network_communications.Socket.{
  Received, int_max, readn, header_len, fits_int, recv_body, recv_msg,
}
use network_communications.Socket.Receive.{readn-Got, readn-Short}
use network_communications.Socket.Message.{Delivers, fits_int-lt, recv_body-Delivers}
use network_communications.Socket.Failure.{Truncated, recv_body-Truncated, overrun_body}

abbrev pub AllBytes : List ℕ → Type 0
AllBytes [] = Unit
AllBytes (x ∷ xs) = (x < 256) × AllBytes xs

-- What a stream holds up to its end: a length that is no `int` or the largest; fewer bytes than the
-- length says; or a message and what follows it.
pub data Parsed : Type 0 where
  overlong short : Parsed
  whole : List ℕ → List ℕ → Parsed

-- The length in the first four bytes, the most significant first. A missing byte is 0.
abbrev pub announced : List ℕ → ℕ
announced bs = ((get_or bs 0 0 * 256 + get_or bs 1 0) * 256 + get_or bs 2 0) * 256 + get_or bs 3 0

abbrev pub body_of : ℕ → List ℕ → Parsed
body_of u bs = if ltb (length bs) u then short else whole (take u bs) (drop u bs)

unfoldable pub parse : List ℕ → Parsed
parse bs = if ltb (announced bs) int_max then body_of (announced bs) (drop 4 bs) else overlong

header_len-take : (bs : List ℕ) → header_len (take 4 bs) ≡ to_int (announced bs)
unfolding header_len ntohl_bytes
header_len-take [] = refl
header_len-take (a ∷ []) = ap to_int (omega arith)
header_len-take (a ∷ b ∷ []) = ap to_int (omega arith)
header_len-take (a ∷ b ∷ c ∷ []) = ap to_int (omega arith)
header_len-take (a ∷ b ∷ c ∷ d ∷ bs) = ap to_int (omega arith)

announced_lt : (bs : List ℕ) → AllBytes bs → announced bs < 2 ^ 32
announced_lt [] h = omega arith
announced_lt (a ∷ []) h = omega arith
announced_lt (a ∷ b ∷ []) h = omega arith
announced_lt (a ∷ b ∷ c ∷ []) h = omega arith
announced_lt (a ∷ b ∷ c ∷ d ∷ bs) h = omega arith

to_int-lt : (u : ℕ) → u < int_max → to_int u ≡ pos u
unfolding to_int
to_int-lt u h = ground arith

ltb-true : (a b : ℕ) → a < b → ltb a b ≡ true
ltb-true a b h = ground arith

ltb-false : (a b : ℕ) → b ≤ a → ltb a b ≡ false
ltb-false a b h = ground arith

take_short : (n : ℕ) (xs : List ℕ) → length xs < n → (take n xs ≡ xs) × (drop n xs ≡ [])
take_short zero xs h = absurd (omega arith)
take_short (suc n) [] h = (refl, refl)
take_short (suc n) (x ∷ xs) h =
    let (t, d) = take_short n xs (omega arith) in (ap (λ ys. x ∷ ys) t, d)

module _ (net : Net) (laws : Stream net) where
  open net use {World}
  open laws use {inbox}

  -- `recvMsg` does what the stream calls for.
  abbrev pub Agrees : ℤ → Parsed → Run (Received World) → Type 0
  Agrees cfd overlong m = m ≡ overrun
  Agrees cfd short m = Returns (Truncated net laws cfd) m
  Agrees cfd (whole msg rest) m = Returns (Delivers net laws cfd msg rest) m

  -- `readn` takes the first bytes that there are.
  readn_first :
      NoErrors net
      → (w : World) (cfd : ℤ) (n : ℕ)
      → Returns
          (λ r. (r.stored ≡ take n (inbox w cfd)) × (inbox r.world cfd ≡ drop n (inbox w cfd)))
          (readn net w cfd (pos n))
  readn_first go w cfd n = elim (dec_lt (length (inbox w cfd)) n) [
    | yes few ↦
        let (t, d) = take_short n (inbox w cfd) few in
        Returns-map (readn net w cfd (pos n)) (λ r s. (s.all ∙ sym t, s.over ∙ sym d))
          (readn-Short net laws go w cfd n few)
    | no enough ↦
        let size : length (take n (inbox w cfd)) ≡ n = omega (arith, length-take n (inbox w cfd)) in
        subst
          (λ k.
            Returns
              (λ r. (r.stored ≡ take n (inbox w cfd)) × (inbox r.world cfd ≡ drop n (inbox w cfd)))
              (readn net w cfd (pos k)))
          size
          (Returns-map (readn net w cfd (pos (length (take n (inbox w cfd)))))
            (λ r g. (g.all, g.left))
            (readn-Got net laws go w cfd (take n (inbox w cfd)) (drop n (inbox w cfd))
              (sym (take-append-drop n (inbox w cfd)))))
  ]

  recv_body-body_of :
      NoErrors net
      → (w : World) (cfd : ℤ) (u : ℕ)
      → Agrees cfd (body_of u (inbox w cfd)) (recv_body net w cfd (pos u))
  recv_body-body_of go w cfd u = elim (dec_lt (length (inbox w cfd)) u) [
    | yes few ↦
        rw (ltb-true (length (inbox w cfd)) u few) (recv_body-Truncated net laws go w cfd u few)
    | no enough ↦
        let size : length (take u (inbox w cfd)) ≡ u = omega (arith, length-take u (inbox w cfd)) in
        rw (ltb-false (length (inbox w cfd)) u (omega arith)) (
          subst
            (λ k.
              Returns (Delivers net laws cfd (take u (inbox w cfd)) (drop u (inbox w cfd)))
                (recv_body net w cfd (pos k)))
            size
            (recv_body-Delivers net laws go w cfd (take u (inbox w cfd)) (drop u (inbox w cfd))
              (sym (take-append-drop u (inbox w cfd)))))
  ]

  -- The rest of `recvMsg`, from the number in the header on.
  rest-Agrees :
      NoErrors net
      → (w : World) (cfd : ℤ) (u : ℕ) → u < 2 ^ 32
      → Agrees cfd
          (if ltb u int_max then body_of u (inbox w cfd) else overlong)
          (if fits_int (to_int u) then recv_body net w cfd (to_int u) else overrun)
  rest-Agrees go w cfd u h = elim (dec_lt u int_max) [
    | yes small ↦
        rw (ltb-true u int_max small, to_int-lt u small, fits_int-lt u small)
          (recv_body-body_of go w cfd u)
    | no large ↦ rw (ltb-false u int_max (omega arith)) (overrun_body net w cfd u (omega arith) h)
  ]

  -- Where `recv` does not fail, and all that the peer sends up to its close is bytes: `recvMsg` does
  -- what `parse` makes of it, however it arrives in pieces. Where the length is 2 ^ 31 - 1 or more
  -- it leaves its buffer or overflows; where the stream ends early it returns -1 and closes the
  -- descriptor, with everything read; and otherwise it returns the message, with its length, and
  -- leaves what follows. A header that is cut off counts as if it ended in bytes of 0.
  pub recv_msg-parse :
      NoErrors net
      → (w : World) (cfd : ℤ) → AllBytes (inbox w cfd)
      → Agrees cfd (parse (inbox w cfd)) (recv_msg net w cfd)
  unfolding recv_msg parse
  recv_msg-parse go w cfd plain =
      let bs = inbox w cfd in
      let (r, ret, (stored, left)) =
        Returns-done (λ r. (r.stored ≡ take 4 bs) × (inbox r.world cfd ≡ drop 4 bs))
          (readn net w cfd (pos 4)) (readn_first go w cfd 4) in
      let len : header_len r.stored ≡ to_int (announced bs) =
        ap header_len stored ∙ header_len-take bs in
      subst (Agrees cfd (parse bs)) (sym (>>=-done (readn net w cfd (pos 4)) _ r ret)) (
        rw len (
          subst
            (λ xs.
              Agrees cfd
                (if ltb (announced bs) int_max then body_of (announced bs) xs else overlong)
                (if fits_int (to_int (announced bs))
                  then recv_body net r.world cfd (to_int (announced bs))
                  else overrun))
            left (rest-Agrees go r.world cfd (announced bs) (announced_lt bs plain))))
