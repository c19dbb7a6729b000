-- ===== src/Run.antt =====
-- What becomes of a call of the modelled C code.
use network_communications.Prelude.{ℤ, ◌≡◌, refl, arith}

-- `unfinished`: a loop has used up the rounds that the model gives it. `overrun`: the code reads or
-- writes outside an object, or an `int` overflows.
pub data Run (A : Type 0) : Type 0 where
  done : A → Run A
  unfinished : Run A
  overrun : Run A

infixl 5 ◌>>=◌
abbrev pub ◌>>=◌ : {A B : Type 0} → Run A → (A → Run B) → Run B
done a >>= f = f a
unfinished >>= f = unfinished
overrun >>= f = overrun

-- The first part has returned: go on with the second.
pub >>=-done : {A B : Type 0} (m : Run A) (f : A → Run B) (a : A) → m ≡ done a → (m >>= f) ≡ f a
>>=-done m f a e = ground arith

-- The call returns, and `P` holds of what it returns.
abbrev pub Returns : {A : Type 0} → (A → Type 0) → Run A → Type 0
Returns P (done a) = P a
Returns P unfinished = ⊥
Returns P overrun = ⊥

pub Returns-map :
    {A : Type 0} {P Q : A → Type 0} (m : Run A) → ((a : A) → P a → Q a) → Returns P m → Returns Q m
Returns-map (done a) f h = f a h
Returns-map unfinished f h = h
Returns-map overrun f h = h

-- The rule for two calls in sequence.
pub Returns->>= :
    {A B : Type 0} (P : A → Type 0) (Q : B → Type 0) (m : Run A) (f : A → Run B)
    → Returns P m
    → ((a : A) → P a → Returns Q (f a))
    → Returns Q (m >>= f)
Returns->>= P Q (done a) f h k = k a h
Returns->>= P Q unfinished f h k = h
Returns->>= P Q overrun f h k = h

pub Returns-and :
    {A : Type 0} (P Q : A → Type 0) (m : Run A)
    → Returns P m
    → Returns Q m
    → Returns (λ a. P a × Q a) m
Returns-and P Q (done a) p q = (p, q)
Returns-and P Q unfinished p q = p
Returns-and P Q overrun p q = p

pub Returns-done :
    {A : Type 0} (P : A → Type 0) (m : Run A) → Returns P m → (a : A) × (m ≡ done a) × P a
Returns-done P (done a) h = (a, refl, h)
Returns-done P unfinished h = absurd h
Returns-done P overrun h = absurd h

-- A round of a loop: it goes on, or the function returns.
pub data Loop (S : Type 0) : Type 0 where
  goes_on : S → Loop S
  ends : ℤ → S → Loop S

-- The rest of the loop, where it goes on.
abbrev pub and_then : {S : Type 0} → Run (Loop S) → (S → Run (Loop S)) → Run (Loop S)
and_then m f = m >>= λ x. elim x [ goes_on s ↦ f s | ends ret s ↦ done (ends ret s) ]

-- Wherever the loop stands, `P` holds of its state.
abbrev pub Stays : {S : Type 0} → (S → Type 0) → Loop S → Type 0
Stays P (goes_on s) = P s
Stays P (ends ret s) = P s

pub Returns-and_then :
    {S : Type 0} (P : S → Type 0) (m : Run (Loop S)) (f : S → Run (Loop S))
    → Returns (Stays P) m
    → ((s : S) → P s → Returns (Stays P) (f s))
    → Returns (Stays P) (and_then m f)
Returns-and_then P (done (goes_on s)) f h k = k s h
Returns-and_then P (done (ends ret s)) f h k = h
Returns-and_then P unfinished f h k = h
Returns-and_then P overrun f h k = h
