-- ===== src/Clients/Chat/Order.antt =====
-- What holds of socket/client.c and socket/server.c together, however their steps follow each other.
use network_communications.Prelude.{
  ℕ, suc, ◌≤◌, ◌<◌, List, [], ◌∷◌, ◌++◌, ltb, ◌≡◌, ◌≢◌, refl, sym, ap, subst, ◌∙◌, inl, inr, arith,
  append_assoc, Bool-cases, lt_of_ltb, le_of_ltb,
}
use network_communications.Run.{done, overrun}
use network_communications.Socket.{int_max}
use network_communications.Clients.{greeting, counted, show, zero_filled}
use network_communications.Clients.Texts.{counted_fits, length-greeting}
use network_communications.Clients.Chat.{
  Pc, asking, hearing, lost, System, init, ask, hear, Step, asks, takes, echoes, hears, Reach, here,
  next,
}
use network_communications.Clients.Chat.Gaps.{greetings, piece-shown}

-- How many greetings the client has sent.
abbrev pub asked : Pc → ℕ
asked (asking n) = n
asked (hearing n) = suc n
asked (lost n) = n

-- The bytes on their way, those first that arrive first.
abbrev pub flight : System → List ℕ
flight s = s.down ++ (s.echoing ++ s.up)

-- `number` is an `int`, and where the client is lost it is the largest.
abbrev Fits : Pc → Type 0
Fits (asking n) = n ≤ int_max
Fits (hearing n) = n < int_max
Fits (lost n) = n ≡ int_max

-- Where the client waits for an answer something is on its way.
abbrev Due : Pc → List ℕ → Type 0
Due (asking n) xs = Unit
Due (hearing n) xs = xs ≢ []
Due (lost n) xs = Unit

record Inv (s : System) : Type 0 where
  order : s.heard ++ flight s ≡ greetings (asked s.client)
  fits : Fits s.client
  due : Due s.client (flight s)

too_many : (n : ℕ) (bytes : List ℕ) → int_max ≤ n → counted n bytes ≡ overrun
unfolding counted
too_many n bytes h = ground arith

-- What the three kinds of calls do in the states that come up.
pub ask_sends :
    (s : System) (n : ℕ)
    → n < int_max
    → ask s n ≡ record s { client = hearing n; up = s.up ++ (greeting n ++ 0 ∷ []) }
unfolding ask
ask_sends s n h = rw (counted_fits n (greeting n) h (omega (arith, length-greeting n)), ask) refl

pub ask_overflows : (s : System) (n : ℕ) → int_max ≤ n → ask s n ≡ record s { client = lost n }
unfolding ask
ask_overflows s n h = rw (too_many n (greeting n) h, ask) refl

pub hear_shows :
    (s : System) (n : ℕ) (piece rest bytes : List ℕ)
    → show (zero_filled piece) ≡ done bytes
    → hear s n piece rest ≡ record s {
      client = asking (suc n);
      down = rest;
      heard = s.heard ++ piece;
      shown = s.shown ++ bytes ∷ [];
    }
unfolding hear
hear_shows s n piece rest bytes e = rw (e, hear) refl

pub cons-tail-ne : (xs ys : List ℕ) (y : ℕ) → xs ++ y ∷ ys ≢ []
cons-tail-ne [] ys y e = cc
cons-tail-ne (x ∷ xs) ys y e = cc

-- A text at the end, with its '\0'.
text_last :
    (xs ys zs text : List ℕ)
    → xs ++ (ys ++ (zs ++ (text ++ 0 ∷ []))) ≡ (xs ++ (ys ++ zs)) ++ (text ++ 0 ∷ [])
text_last xs ys zs text = simp append_assoc

ask-Inv : (s : System) (n : ℕ) → s.client ≡ asking n → Inv s → Inv (ask s n)
unfolding greetings
ask-Inv s n at inv = elim (Bool-cases (ltb n int_max)) [
  | inl below ↦
      let msg : List ℕ = greeting n ++ 0 ∷ [] in
      let longer = text_last s.down s.echoing s.up (greeting n) in
      rw (ask_sends s n (lt_of_ltb n int_max below)) (record {
        order =
            ap (λ t. s.heard ++ t) longer
            ∙ sym (append_assoc s.heard (flight s) msg)
            ∙ ap (λ t. t ++ msg) (inv.order ∙ ap (λ p. greetings (asked p)) at);
        fits = lt_of_ltb n int_max below;
        due = λ e.
            cons-tail-ne (flight s ++ greeting n) [] 0
              (append_assoc (flight s) (greeting n) (0 ∷ []) ∙ sym longer ∙ e);
      })
  | inr above ↦
      let most : n ≤ int_max = subst Fits at inv.fits in
      let big : int_max ≤ n = le_of_ltb n int_max above in
      rw (ask_overflows s n big) (record {
        order = inv.order ∙ ap (λ p. greetings (asked p)) at;
        fits = omega arith;
        due = tt;
      })
]

hear-Inv :
    (s : System) (n b : ℕ) (bs rest : List ℕ)
    → s.client ≡ hearing n
    → s.down ≡ (b ∷ bs) ++ rest
    → Inv s
    → Inv (hear s n (b ∷ bs) rest)
hear-Inv s n b bs rest at came inv =
    let behind : List ℕ = rest ++ (s.echoing ++ s.up) in
    let same : s.heard ++ ((b ∷ bs) ++ behind) ≡ greetings (suc n) =
      ap (λ t. s.heard ++ t) (sym (append_assoc (b ∷ bs) rest (s.echoing ++ s.up)))
      ∙ ap (λ d. s.heard ++ (d ++ (s.echoing ++ s.up))) (sym came)
      ∙ inv.order
      ∙ ap (λ p. greetings (asked p)) at in
    let (bytes, e) = piece-shown (suc n) s.heard (b ∷ bs) behind same in
    let small : n < int_max = subst Fits at inv.fits in
    rw (hear_shows s n (b ∷ bs) rest bytes e)
      (record { order = append_assoc s.heard (b ∷ bs) behind ∙ same; fits = omega arith; due = tt })

Step-Inv : {s t : System} → Step s t → Inv s → Inv t
Step-Inv {s} (asks n at) inv = ask-Inv s n at inv
Step-Inv {s} (takes b bs rest idle came room) inv =
    let same : s.down ++ ((b ∷ bs) ++ rest) ≡ flight s =
      (λ i. s.down ++ sym came i) ∙ (λ i. s.down ++ (sym idle i ++ s.up)) in
    record {
      order = ap (λ t. s.heard ++ t) same ∙ inv.order;
      fits = inv.fits;
      due = subst (Due s.client) (sym same) inv.due;
    }
Step-Inv {s} (echoes b bs held) inv =
    let same : (s.down ++ (b ∷ bs)) ++ s.up ≡ flight s =
      append_assoc s.down (b ∷ bs) s.up ∙ (λ i. s.down ++ (sym held i ++ s.up)) in
    record {
      order = ap (λ t. s.heard ++ t) same ∙ inv.order;
      fits = inv.fits;
      due = subst (Due s.client) (sym same) inv.due;
    }
Step-Inv {s} (hears n b bs rest at came room) inv = hear-Inv s n b bs rest at came inv

Reach-Inv : {s : System} → Reach s → Inv s
unfolding init greetings
Reach-Inv here = record { order = refl; fits = omega arith; due = tt }
Reach-Inv (next r st) = Step-Inv st (Reach-Inv r)

-- In every state that the two programs can reach: the bytes that the client has received and those on
-- their way are, in this order, the greetings that it has sent, each with its '\0'; and the client
-- is lost only where its `number` is the largest `int`.
pub answers_in_order :
    (s : System)
    → Reach s
    → (s.heard ++ flight s ≡ greetings (asked s.client))
      × ((n : ℕ) → s.client ≡ lost n → n ≡ int_max)
answers_in_order s r = let inv = Reach-Inv r in (inv.order, λ n at. subst Fits at inv.fits)

-- Where something is on its way, the client or the server can take it.
someone :
    (s : System) (n : ℕ)
    → s.client ≡ hearing n
    → (down echoing up : List ℕ) → s.down ≡ down
    → s.echoing ≡ echoing
    → s.up ≡ up
    → flight s ≢ []
    → (t : System) × Step s t
someone s n at (b ∷ bs) echoing up d e u some_left =
    (hear s n (b ∷ []) bs, hears n b [] bs at d (omega arith))
someone s n at [] (b ∷ bs) up d e u some_left = (_, echoes b bs e)
someone s n at [] [] (b ∷ bs) d e u some_left = (_, takes b [] bs e u (omega arith))
someone s n at [] [] [] d e u some_left = absurd (some_left ((λ i. d i ++ (e i ++ u i))))

can_go_on :
    (s : System) (client : Pc)
    → s.client ≡ client
    → Inv s
    → ((n : ℕ) → s.client ≢ lost n)
    → (t : System) × Step s t
can_go_on s (asking n) at inv fine = (ask s n, asks n at)
can_go_on s (hearing n) at inv fine =
    someone s n at s.down s.echoing s.up refl refl refl (subst (λ p. Due p (flight s)) at inv.due)
can_go_on s (lost n) at inv fine = absurd (fine n at)

-- In every state that the two programs can reach, unless the client is lost: one of them can go on.
pub never_stuck : (s : System) → Reach s → ((n : ℕ) → s.client ≢ lost n) → (t : System) × Step s t
never_stuck s r fine = can_go_on s s.client refl (Reach-Inv r) fine
