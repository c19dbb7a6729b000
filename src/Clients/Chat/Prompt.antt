-- ===== src/Clients/Chat/Prompt.antt =====
-- socket/client.c and socket/server.c where each `recv` takes all that is on its way.
use network_communications.Prelude.{
  ℕ, zero, suc, List, [], ◌∷◌, ◌++◌, ltb, ◌≡◌, ◌⊎◌, refl, sym, ap, subst, ◌∙◌, inl, inr, append-nil,
  Bool-cases, lt_of_ltb, le_of_ltb,
}
use network_communications.Run.{done}
use network_communications.Socket.{int_max}
use network_communications.Clients.{greeting, show, zero_filled}
use network_communications.Clients.Texts.{greeting_shown}
use network_communications.Clients.Chat.{
  Pc, asking, hearing, lost, System, init, ask, hear, Step, asks, takes, echoes, hears,
}
use network_communications.Clients.Chat.Order.{ask_sends, ask_overflows, hear_shows}

-- Nothing is left for a later `recv`.
abbrev pub TakesAll : {s t : System} → Step s t → Type 0
TakesAll (asks n at) = Unit
TakesAll (takes b bs rest idle came room) = rest ≡ []
TakesAll (echoes b bs held) = Unit
TakesAll (hears n b bs rest at came room) = rest ≡ []

pub data Prompt : System → Type 0 where
  here : Prompt init
  next : {s t : System} → Prompt s → (st : Step s t) → TakesAll st → Prompt t

-- The first `n` greetings.
unfoldable pub texts : ℕ → List (List ℕ)
texts zero = []
texts (suc n) = texts n ++ greeting n ∷ []

-- How many answers the client has got.
abbrev pub answered : Pc → ℕ
answered (asking n) = n
answered (hearing n) = n
answered (lost n) = n

abbrev message : ℕ → List ℕ
message n = greeting n ++ 0 ∷ []

-- A message is in one place only, and none is where the client is about to send the next.
abbrev OnePlace : Pc → List ℕ → List ℕ → List ℕ → Type 0
OnePlace (asking n) d e u = (d ≡ []) × (e ≡ []) × (u ≡ [])
OnePlace (hearing n) d e u =
    ((d ≡ []) × (e ≡ []) × (u ≡ message n))
    ⊎ ((d ≡ []) × (e ≡ message n) × (u ≡ []))
    ⊎ ((d ≡ message n) × (e ≡ []) × (u ≡ []))
OnePlace (lost n) d e u = Unit

record Inv (s : System) : Type 0 where
  place : OnePlace s.client s.down s.echoing s.up
  got : s.shown ≡ texts (answered s.client)

takes-OnePlace :
    (p : Pc) (d e u : List ℕ) (b : ℕ) (bs : List ℕ)
    → OnePlace p d e u
    → e ≡ []
    → u ≡ b ∷ bs
    → OnePlace p d (b ∷ bs) []
takes-OnePlace (asking n) d e u b bs h idle came = cc
takes-OnePlace (hearing n) d e u b bs (inl h) idle came = inr (inl (h.0, sym came ∙ h.2, refl))
takes-OnePlace (hearing n) d e u b bs (inr (inl h)) idle came = cc
takes-OnePlace (hearing n) d e u b bs (inr (inr h)) idle came = cc
takes-OnePlace (lost n) d e u b bs h idle came = tt

echoes-OnePlace :
    (p : Pc) (d e u : List ℕ) (b : ℕ) (bs : List ℕ)
    → OnePlace p d e u
    → e ≡ b ∷ bs
    → OnePlace p (d ++ (b ∷ bs)) [] u
echoes-OnePlace (asking n) d e u b bs h held = cc
echoes-OnePlace (hearing n) d e u b bs (inl h) held = cc
echoes-OnePlace (hearing n) d e u b bs (inr (inl h)) held =
    inr (inr (ap (λ t. t ++ (b ∷ bs)) h.0 ∙ sym held ∙ h.1, refl, h.2))
echoes-OnePlace (hearing n) d e u b bs (inr (inr h)) held = cc
echoes-OnePlace (lost n) d e u b bs h held = tt

-- What arrives is the whole message.
arrived :
    (n : ℕ) (d e u : List ℕ) (b : ℕ) (bs : List ℕ)
    → OnePlace (hearing n) d e u
    → d ≡ b ∷ bs
    → (b ∷ bs ≡ message n) × (e ≡ []) × (u ≡ [])
arrived n d e u b bs (inl h) came = cc
arrived n d e u b bs (inr (inl h)) came = cc
arrived n d e u b bs (inr (inr h)) came = (sym came ∙ h.0, h.1, h.2)

ask-Inv : (s : System) (n : ℕ) → s.client ≡ asking n → Inv s → Inv (ask s n)
ask-Inv s n at inv =
    let empty : OnePlace (asking n) s.down s.echoing s.up =
      subst (λ p. OnePlace p s.down s.echoing s.up) at inv.place in
    let got : s.shown ≡ texts n = inv.got ∙ ap (λ p. texts (answered p)) at in
    elim (Bool-cases (ltb n int_max)) [
      | inl below ↦
          rw (ask_sends s n (lt_of_ltb n int_max below))
            (record { place = inl (empty.0, empty.1, ap (λ t. t ++ message n) empty.2); got = got })
      | inr above ↦
          rw (ask_overflows s n (le_of_ltb n int_max above)) (record { place = tt; got = got })
    ]

hear-Inv :
    (s : System) (n b : ℕ) (bs rest : List ℕ)
    → s.client ≡ hearing n
    → s.down ≡ (b ∷ bs) ++ rest
    → rest ≡ []
    → Inv s
    → Inv (hear s n (b ∷ bs) rest)
unfolding texts
hear-Inv s n b bs rest at came all inv =
    let held : OnePlace (hearing n) s.down s.echoing s.up =
      subst (λ p. OnePlace p s.down s.echoing s.up) at inv.place in
    let got : s.shown ≡ texts n = inv.got ∙ ap (λ p. texts (answered p)) at in
    let whole : s.down ≡ b ∷ bs = came ∙ ap (λ r. (b ∷ bs) ++ r) all ∙ append-nil (b ∷ bs) in
    let (msg, idle, sent) = arrived n s.down s.echoing s.up b bs held whole in
    let shows : show (zero_filled (b ∷ bs)) ≡ done (greeting n) =
      ap (λ t. show (zero_filled t)) msg ∙ greeting_shown n in
    rw (hear_shows s n (b ∷ bs) rest (greeting n) shows)
      (record { place = (all, idle, sent); got = ap (λ t. t ++ greeting n ∷ []) got })

Step-Inv : {s t : System} (st : Step s t) → TakesAll st → Inv s → Inv t
Step-Inv {s} (asks n at) all inv = ask-Inv s n at inv
Step-Inv {s} (takes b bs rest idle came room) all inv =
    let whole : s.up ≡ b ∷ bs = came ∙ ap (λ r. (b ∷ bs) ++ r) all ∙ append-nil (b ∷ bs) in
    record {
      place =
          subst (OnePlace s.client s.down (b ∷ bs)) (sym all)
            (takes-OnePlace s.client s.down s.echoing s.up b bs inv.place idle whole);
      got = inv.got;
    }
Step-Inv {s} (echoes b bs held) all inv = record {
  place = echoes-OnePlace s.client s.down s.echoing s.up b bs inv.place held;
  got = inv.got;
}
Step-Inv {s} (hears n b bs rest at came room) all inv = hear-Inv s n b bs rest at came all inv

Prompt-Inv : {s : System} → Prompt s → Inv s
unfolding init texts
Prompt-Inv here = record { place = (refl, refl, refl); got = refl }
Prompt-Inv (next r st all) = Step-Inv st all (Prompt-Inv r)

-- In every state that the two programs can reach with calls of `recv` that take all that is on its
-- way: the client has printed its greetings, one for each answer, in order.
pub prompt_answers : (s : System) → Prompt s → s.shown ≡ texts (answered s.client)
prompt_answers s r = (Prompt-Inv r).got
