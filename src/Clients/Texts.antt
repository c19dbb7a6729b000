-- ===== src/Clients/Texts.antt =====
-- The texts that the clients send: they have no '\0' inside, and fit in their buffers.
use network_communications.Prelude.{
  ℕ, ◌-◌, ◌<◌, ◌≤◌, List, [], ◌∷◌, ◌++◌, some, length, length-append, replicate, ◌≡◌, refl, ap, ◌∙◌,
  arith, append_assoc,
}
use network_communications.Run.{done}
use network_communications.CText.{printed, decimal}
use network_communications.CText.Upper.{NoNul}
use network_communications.CText.Printed.{
  NoNul-append, printed-append, decimal-NoNul, length-decimal,
}
use network_communications.Socket.{int_max}
use network_communications.Clients.{ni_hao, greeting, counted, show, zero_filled, buffer_size}

ni_hao-NoNul : NoNul ni_hao
ni_hao-NoNul = omega arith

pub greeting-NoNul : (n : ℕ) → NoNul (greeting n)
unfolding greeting
greeting-NoNul n =
    NoNul-append ni_hao _ ni_hao-NoNul (NoNul-append (decimal n) _ (decimal-NoNul n) (omega arith))

pub length-greeting : (n : ℕ) → length (greeting n) ≤ 37
unfolding greeting
length-greeting n =
    omega (arith, length-decimal n, length-append (decimal n) (b'.' ∷ b'.' ∷ b'.' ∷ b'\n' ∷ []))

pub counted_fits :
    (n : ℕ) (bytes : List ℕ)
    → n < int_max
    → length bytes < buffer_size
    → counted n bytes ≡ done (bytes ++ 0 ∷ [])
unfolding counted
counted_fits n bytes h k = ground arith

-- A greeting that has come back is printed as it was.
pub greeting_shown : (n : ℕ) → show (zero_filled (greeting n ++ 0 ∷ [])) ≡ done (greeting n)
unfolding show
greeting_shown n =
    let fill : List ℕ = replicate (buffer_size - length (greeting n ++ 0 ∷ [])) 0 in
    let there : printed (zero_filled (greeting n ++ 0 ∷ [])) ≡ some (greeting n) =
      ap printed (append_assoc (greeting n) (0 ∷ []) fill)
      ∙ printed-append (greeting n) fill (greeting-NoNul n) in
    rw (show, there) refl
