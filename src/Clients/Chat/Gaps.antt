-- ===== src/Clients/Chat/Gaps.antt =====
-- How far apart the '\0' are in what socket/client.c sends: a piece that fills its buffer holds one.
use network_communications.Prelude.{
  ℕ, zero, suc, ◌-◌, ◌≤◌, ◌<◌, List, [], ◌∷◌, ◌++◌, length, replicate, ◌≡◌, refl, sym, ap, subst,
  ◌∙◌, inl, inr, arith, append_assoc, append-nil, Option-cases,
}
use network_communications.Run.{done}
use network_communications.CText.{printed}
use network_communications.CText.Upper.{NoNul}
use network_communications.CText.Printed.{printed_fails, NoNul-front, NoNul-back}
use network_communications.Clients.{greeting, show, zero_filled, buffer_size}
use network_communications.Clients.Texts.{greeting-NoNul, length-greeting}

-- What the first `n` greetings are on the stream.
unfoldable pub greetings : ℕ → List ℕ
greetings zero = []
greetings (suc n) = greetings n ++ (greeting n ++ 0 ∷ [])

-- At most `room` bytes come before the first 0, or the end, and at most 37 between two of them.
Gaps : ℕ → List ℕ → Type 0
Gaps room [] = Unit
Gaps room (zero ∷ xs) = Gaps 37 xs
Gaps room (suc x ∷ xs) = (0 < room) × Gaps (room - 1) xs

Gaps-le : (r k : ℕ) (xs : List ℕ) → r ≤ k → Gaps r xs → Gaps k xs
unfolding Gaps
Gaps-le r k [] h g = tt
Gaps-le r k (zero ∷ xs) h g = g
Gaps-le r k (suc x ∷ xs) h g = (omega arith, Gaps-le (r - 1) (k - 1) xs (omega arith) g.1)

Gaps-text :
    (room : ℕ) (xs ys : List ℕ)
    → NoNul xs
    → length xs ≤ room
    → Gaps 37 ys
    → Gaps room (xs ++ 0 ∷ ys)
unfolding Gaps
Gaps-text room [] ys h k g = g
Gaps-text room (zero ∷ xs) ys h k g = absurd (h.0 refl)
Gaps-text room (suc x ∷ xs) ys h k g = (omega arith, Gaps-text (room - 1) xs ys h.1 (omega arith) g)

-- Behind the first `n` greetings.
Gaps-greetings : (n : ℕ) (ys : List ℕ) → Gaps 37 ys → Gaps 37 (greetings n ++ ys)
unfolding greetings
Gaps-greetings zero ys g = g
Gaps-greetings (suc n) ys g =
    subst (Gaps 37)
      (ap (λ t. greetings n ++ t) (sym (append_assoc (greeting n) (0 ∷ []) ys))
        ∙ sym (append_assoc (greetings n) (greeting n ++ 0 ∷ []) ys))
      (Gaps-greetings n (greeting n ++ 0 ∷ ys)
        (Gaps-text 37 (greeting n) ys (greeting-NoNul n) (length-greeting n) g))

Gaps-behind : (room : ℕ) (front ys : List ℕ) → room ≤ 37 → Gaps room (front ++ ys) → Gaps 37 ys
unfolding Gaps
Gaps-behind room [] ys h g = Gaps-le room 37 ys h g
Gaps-behind room (zero ∷ xs) ys h g = Gaps-behind 37 xs ys (omega arith) g
Gaps-behind room (suc x ∷ xs) ys h g = Gaps-behind (room - 1) xs ys (omega arith) g.1

length-gap : (room : ℕ) (xs ys : List ℕ) → Gaps room (xs ++ ys) → NoNul xs → length xs ≤ room
unfolding Gaps
length-gap room [] ys g h = omega arith
length-gap room (zero ∷ xs) ys g h = absurd (h.0 refl)
length-gap room (suc x ∷ xs) ys g h = omega (arith, length-gap (room - 1) xs ys g.1 h.1)

NoNul-replicate : (n : ℕ) → NoNul (replicate n 0) → n ≡ 0
NoNul-replicate zero h = refl
NoNul-replicate (suc n) h = absurd (h.0 refl)

-- A piece of the stream has a text in the buffer of the client.
pub piece-shown :
    (n : ℕ) (front piece rest : List ℕ)
    → front ++ (piece ++ rest) ≡ greetings n
    → (bytes : List ℕ) × (show (zero_filled piece) ≡ done bytes)
unfolding show Gaps
piece-shown n front piece rest e = elim (Option-cases (printed (zero_filled piece))) [
  | inl none_there ↦
      let whole : NoNul (zero_filled piece) = printed_fails (zero_filled piece) none_there in
      let fill : List ℕ = replicate (buffer_size - length piece) 0 in
      let full : buffer_size - length piece ≡ 0 =
        NoNul-replicate (buffer_size - length piece) (NoNul-back piece fill whole) in
      let all : Gaps 37 (front ++ (piece ++ rest)) =
        subst (Gaps 37) (append-nil (greetings n) ∙ sym e) (Gaps-greetings n [] tt) in
      let short : length piece ≤ 37 =
        length-gap 37 piece rest (Gaps-behind 37 front (piece ++ rest) (omega arith) all)
          (NoNul-front piece fill whole) in
      absurd (omega arith)
  | inr (bytes, f) ↦ (bytes, rw (show, f))
]
