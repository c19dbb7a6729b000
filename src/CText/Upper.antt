-- ===== src/CText/Upper.antt =====
-- The loop that turns a buffer into capitals, and the text behind it.
use network_communications.Prelude.{
  ℕ, suc, List, [], ◌∷◌, ◌++◌, some, map, length, get_or, set, ◌==◌, ◌≡◌, ◌≢◌, refl, sym, ap, ◌∙◌,
  arith, append_assoc, inl, inr, Bool-cases,
}
use network_communications.CText.{text, to_upper, upper_loop}

set_at_end :
    (front back : List ℕ) (x y : ℕ) → set (front ++ x ∷ back) (length front) y ≡ front ++ y ∷ back
set_at_end [] back x y = refl
set_at_end (z ∷ front) back x y = ap (◌∷◌ z) (set_at_end front back x y)

get_or_at_end : (front back : List ℕ) (x d : ℕ) → get_or (front ++ x ∷ back) (length front) d ≡ x
get_or_at_end [] back x d = refl
get_or_at_end (z ∷ front) back x d = get_or_at_end front back x d

length-snoc : (front : List ℕ) (x : ℕ) → length (front ++ x ∷ []) ≡ suc (length front)
length-snoc [] x = refl
length-snoc (z ∷ front) x = ap suc (length-snoc front x)

-- The loop over the part `xs` of the buffer, behind `front`.
upper_loop-append :
    (front xs back : List ℕ)
    → upper_loop (length xs) (length front) (front ++ (xs ++ back))
      ≡ front ++ (map to_upper xs ++ back)
unfolding upper_loop
upper_loop-append front [] back = refl
upper_loop-append front (x ∷ xs) back =
    let here = get_or_at_end front (xs ++ back) x 0 in
    let now = set_at_end front (xs ++ back) x (to_upper x) in
    let snoc = append_assoc front (to_upper x ∷ []) (xs ++ back) in
    let rest = upper_loop-append (front ++ to_upper x ∷ []) xs back in
    let long = length-snoc front (to_upper x) in
    let buf : List ℕ = front ++ x ∷ (xs ++ back) in
    let stored : set buf (length front) (to_upper (get_or buf (length front) 0))
        ≡ (front ++ to_upper x ∷ []) ++ (xs ++ back) =
      ap (λ v. set buf (length front) (to_upper v)) here ∙ now ∙ sym snoc in
    ap (upper_loop (length xs) (suc (length front))) stored
    ∙ ap (λ i. upper_loop (length xs) i ((front ++ to_upper x ∷ []) ++ (xs ++ back))) (sym long)
    ∙ rest
    ∙ append_assoc front (to_upper x ∷ []) (map to_upper xs ++ back)

-- The loop over the first `length xs` bytes of a buffer, byte by byte and in place, does what `map`
-- does to them, and leaves what lies behind.
pub upper_loop-map :
    (xs back : List ℕ) → upper_loop (length xs) 0 (xs ++ back) ≡ map to_upper xs ++ back
upper_loop-map xs back = upper_loop-append [] xs back

-- A buffer with a '\0' in it has a text.
pub text_found : (xs ys : List ℕ) → (bytes : List ℕ) × (text (xs ++ 0 ∷ ys) ≡ some bytes)
unfolding text
text_found [] ys = (0 ∷ [], refl)
text_found (x ∷ xs) ys =
    let (bytes, e) = text_found xs ys in
    elim (Bool-cases (x == 0)) [
      | inl zero_here ↦ (0 ∷ [], rw zero_here)
      | inr other ↦ (x ∷ bytes, rw (other, e))
    ]

-- No byte is 0.
abbrev pub NoNul : List ℕ → Type 0
NoNul [] = Unit
NoNul (x ∷ xs) = (x ≢ 0) × NoNul xs

pub text-append : (xs ys : List ℕ) → NoNul xs → text (xs ++ 0 ∷ ys) ≡ some (xs ++ 0 ∷ [])
unfolding text
text-append [] ys h = refl
text-append (x ∷ xs) ys h = ground (arith, text-append xs ys h.1)

pub map-NoNul : (xs : List ℕ) → NoNul xs → NoNul (map to_upper xs)
unfolding to_upper
map-NoNul [] h = tt
map-NoNul (x ∷ xs) h = ((λ e. h.0 (ground arith)), map-NoNul xs h.1)
