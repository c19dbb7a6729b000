-- ===== src/CText.antt =====
-- The texts in buffers that the servers of IO_mulit_way/ send: what `strlen` counts, and `toupper`,
-- which in the C locale changes a to z only.
pub mod Upper
pub mod Printed
use network_communications.Prelude.{
  ℕ, zero, suc, ◌+◌, ◌-◌, ◌/◌, ◌%◌, ◌&&◌, List, [], ◌∷◌, Option, none, some, get_or, set, ltb, ◌==◌,
  if◌then◌else◌,
}

-- The bytes that `strlen(buf)+1` counts, if there is a '\0' among them.
unfoldable pub text : List ℕ → Option (List ℕ)
text [] = none
text (b ∷ bs) =
    let rest = text bs in
    if b == 0 then some (0 ∷ []) else elim rest [ none ↦ none | some bs' ↦ some (b ∷ bs') ]

unfoldable pub to_upper : ℕ → ℕ
to_upper c = if ltb 96 c && ltb c 123 then c - 32 else c

-- `for (int i = 0; i < len; i++) buf[i] = toupper(buf[i]);` with `n` rounds left.
unfoldable pub upper_loop : ℕ → ℕ → List ℕ → List ℕ
upper_loop zero i buf = buf
upper_loop (suc n) i buf = upper_loop n (suc i) (set buf i (to_upper (get_or buf i 0)))

-- What `%s` prints of a buffer: the bytes before the first '\0', if there is one.
unfoldable pub printed : List ℕ → Option (List ℕ)
printed [] = none
printed (b ∷ bs) =
    let rest = printed bs in
    if b == 0 then some [] else elim rest [ none ↦ none | some bs' ↦ some (b ∷ bs') ]

-- The last `k` digits of `n` or fewer, before `out`.
digits : ℕ → ℕ → List ℕ → List ℕ
digits zero n out = out
digits (suc k) n out =
    let out' = (b'0' + n % 10) ∷ out in
    let rest = digits k (n / 10) out' in if ltb n 10 then out' else rest

-- What `%d` prints of an `int` that is not negative, so it has at most ten digits.
unfoldable pub decimal : ℕ → List ℕ
unfolding digits
decimal n = digits 10 n []

-- `fgets` with room for `n` bytes and a '\0': the bytes that it stores, up to the end of the line,
-- none of them at the end of the input; and the rest of the input.
unfoldable pub fgets : ℕ → List ℕ → List ℕ × List ℕ
fgets zero input = ([], input)
fgets (suc n) [] = ([], [])
fgets (suc n) (c ∷ cs) =
    let (line, rest) = fgets n cs in if c == b'\n' then (c ∷ [], cs) else (c ∷ line, rest)
