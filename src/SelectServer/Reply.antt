-- ===== src/SelectServer/Reply.antt =====
-- What the server of IO_mulit_way/select_server.c answers.
use network_communications.Prelude.{
  ℕ, suc, ◌-◌, ◌<◌, List, [], ◌∷◌, ◌++◌, none, some, map, length, replicate, ◌≡◌, refl, ap, ◌∙◌,
  arith, append-nil, append_assoc,
}
use mathlib.Core.List.{map-append}
use network_communications.CText.{text, to_upper}
use network_communications.CText.Upper.{upper_loop-map, text_found, text-append, NoNul, map-NoNul}
use network_communications.SelectServer.{reply}

zeros : (n : ℕ) → n < 10 → replicate {A = ℕ} (10 - n) 0 ≡ 0 ∷ replicate (9 - n) 0
zeros n h = let e : 10 - n ≡ suc (9 - n) = omega arith in ap (λ k. replicate {A = ℕ} k 0) e

spread :
    (chunk : List ℕ)
    → length chunk < 10
    → reply chunk ≡ text (map to_upper chunk ++ 0 ∷ replicate (9 - length chunk) 0)
unfolding reply
spread chunk h = ap text (
    upper_loop-map chunk (replicate (10 - length chunk) 0)
    ∙ ap (λ z. map to_upper chunk ++ z) (zeros (length chunk) h))

-- Fewer than ten bytes always have an answer.
pub reply_found :
    (chunk : List ℕ) → length chunk < 10 → (bytes : List ℕ) × (reply chunk ≡ some bytes)
reply_found chunk h =
    let (bytes, e) = text_found (map to_upper chunk) (replicate (9 - length chunk) 0) in
    (bytes, spread chunk h ∙ e)

-- The loop that changes the buffer byte by byte, and the `strlen` behind it, come to this: the answer
-- to fewer than ten bytes, none of them 0, is their capitals and a '\0'.
pub reply-upper :
    (chunk : List ℕ)
    → length chunk < 10
    → NoNul chunk
    → reply chunk ≡ some (map to_upper chunk ++ 0 ∷ [])
reply-upper chunk h nz =
    spread chunk h
    ∙ text-append (map to_upper chunk) (replicate (9 - length chunk) 0) (map-NoNul chunk nz)

-- A text with its '\0' that fits in the buffer is answered in capitals.
pub reply_line :
    (line : List ℕ)
    → length line < 10
    → NoNul line
    → reply (line ++ 0 ∷ []) ≡ some (map to_upper line ++ 0 ∷ [])
unfolding reply to_upper
reply_line line h nz =
    let room : ℕ = 10 - length (line ++ 0 ∷ []) in
    ap text (upper_loop-map (line ++ 0 ∷ []) (replicate room 0))
    ∙ ap (λ z. text (z ++ replicate room 0)) (map-append to_upper line (0 ∷ []))
    ∙ ap text (append_assoc (map to_upper line) (0 ∷ []) (replicate room 0))
    ∙ text-append (map to_upper line) (replicate room 0) (map-NoNul line nz)

text_fails : (xs : List ℕ) → NoNul xs → text xs ≡ none
unfolding text
text_fails [] h = refl
text_fails (x ∷ xs) h = ground (arith, text_fails xs h.1)

-- Where ten bytes fill the buffer, and none is 0, there is no answer.
reply_fails : (chunk : List ℕ) → length chunk ≡ 10 → NoNul chunk → reply chunk ≡ none
unfolding reply
reply_fails chunk h nz =
    ap text (upper_loop-map chunk (replicate (10 - length chunk) 0))
    ∙ ap (λ k. text (map to_upper chunk ++ replicate (10 - k) 0)) h
    ∙ ap text (append-nil (map to_upper chunk))
    ∙ text_fails (map to_upper chunk) (map-NoNul chunk nz)
