-- ===== src/CText/Printed.antt =====
-- What `%s` and `%d` print.
use network_communications.Prelude.{
  ℕ, zero, suc, ◌+◌, ◌/◌, ◌%◌, ◌≤◌, List, [], ◌∷◌, ◌++◌, none, some, length, ltb, ◌==◌, ◌≡◌, refl,
  arith, inl, inr, Bool-cases, ne_of_==,
}
use network_communications.CText.{printed, digits, decimal}
use network_communications.CText.Upper.{NoNul}

pub NoNul-append : (xs ys : List ℕ) → NoNul xs → NoNul ys → NoNul (xs ++ ys)
NoNul-append [] ys h k = k
NoNul-append (x ∷ xs) ys h k = (h.0, NoNul-append xs ys h.1 k)

pub NoNul-front : (xs ys : List ℕ) → NoNul (xs ++ ys) → NoNul xs
NoNul-front [] ys h = tt
NoNul-front (x ∷ xs) ys h = (h.0, NoNul-front xs ys h.1)

pub NoNul-back : (xs ys : List ℕ) → NoNul (xs ++ ys) → NoNul ys
NoNul-back [] ys h = h
NoNul-back (x ∷ xs) ys h = NoNul-back xs ys h.1

pub printed-append : (xs ys : List ℕ) → NoNul xs → printed (xs ++ 0 ∷ ys) ≡ some xs
unfolding printed
printed-append [] ys h = refl
printed-append (x ∷ xs) ys h = ground (arith, printed-append xs ys h.1)

-- A buffer has a text, unless no byte of it is 0.
pub printed_fails : (xs : List ℕ) → printed xs ≡ none → NoNul xs
unfolding printed
printed_fails [] h = tt
printed_fails (x ∷ xs) h = elim (Bool-cases (x == 0)) [
  | inl e ↦ absurd (ground arith)
  | inr e ↦ (ne_of_== x 0 e, printed_fails xs (ground arith))
]

digits-NoNul : (k n : ℕ) (out : List ℕ) → NoNul out → NoNul (digits k n out)
unfolding digits
digits-NoNul zero n out h = h
digits-NoNul (suc k) n out h = elim (Bool-cases (ltb n 10)) [
  | inl e ↦ rw e ((λ z. omega arith), h)
  | inr e ↦ rw e (digits-NoNul k (n / 10) ((b'0' + n % 10) ∷ out) ((λ z. omega arith), h))
]

length-digits : (k n : ℕ) (out : List ℕ) → length (digits k n out) ≤ k + length out
unfolding digits
length-digits zero n out = omega arith
length-digits (suc k) n out = ground (arith, length-digits k (n / 10) ((b'0' + n % 10) ∷ out))

pub decimal-NoNul : (n : ℕ) → NoNul (decimal n)
unfolding decimal
decimal-NoNul n = digits-NoNul 10 n [] tt

pub length-decimal : (n : ℕ) → length (decimal n) ≤ 10
unfolding decimal
length-decimal n = length-digits 10 n []
