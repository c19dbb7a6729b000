-- ===== src/Clients/Chat.antt =====
-- socket/client.c and socket/server.c together, on a connection that does not fail. A byte that one of
-- them sends is on its way until a `recv` of the other takes it, with any number of those that come
-- next. Each call of `send` or `recv` is a step, and the steps of the two follow each other in any
-- order.
pub mod Gaps
pub mod Order
pub mod Prompt
use network_communications.Prelude.{ℕ, zero, suc, ◌≤◌, List, [], ◌∷◌, ◌++◌, length, ◌≡◌}
use network_communications.Run.{done, unfinished, overrun}
use network_communications.Clients.{greeting, counted, show, zero_filled, buffer_size}
use network_communications.Echo

-- Where the client stands, with its `number`: before `send`, before `recv` with `number` not yet
-- counted up, or after an access outside an object or an overflow.
pub data Pc : Type 0 where
  asking hearing lost : ℕ → Pc

pub record System : Type 0 where
  pub client : Pc
  -- what the server has received and not yet sent back
  pub echoing : List ℕ
  -- the bytes on their way to the server, and to the client
  pub up : List ℕ
  pub down : List ℕ
  -- For the statements: the bytes that the client has received, and what it has printed.
  pub heard : List ℕ
  pub shown : List (List ℕ)

unfoldable pub init : System
init = record { client = asking 0; echoing = []; up = []; down = []; heard = []; shown = [] }

-- `sprintf` and `send` of the client.
unfoldable pub ask : System → ℕ → System
ask s number = elim (counted number (greeting number)) [
  | done msg ↦ record s { client = hearing number; up = s.up ++ msg }
  | unfinished ↦ record s { client = lost number }
  | overrun ↦ record s { client = lost number }
]

-- `recv` of the client gives `piece`, which is printed.
unfoldable pub hear : System → ℕ → List ℕ → List ℕ → System
hear s number piece rest = elim (show (zero_filled piece)) [
  | done bytes ↦ record s {
    client = asking (suc number);
    down = rest;
    heard = s.heard ++ piece;
    shown = s.shown ++ bytes ∷ [];
  }
  | unfinished ↦ record s { client = lost number }
  | overrun ↦ record s { client = lost number }
]

pub data Step (s : System) : System → Type 0 where
  asks : (number : ℕ) → s.client ≡ asking number → Step s (ask s number)
  -- `recv` of the server
  takes :
      (b : ℕ) (bs rest : List ℕ)
      → s.echoing ≡ []
      → s.up ≡ (b ∷ bs) ++ rest
      → length (b ∷ bs) ≤ Echo.buffer_size
      → Step s (record s { up = rest; echoing = b ∷ bs })
  -- `send` of the server
  echoes :
      (b : ℕ) (bs : List ℕ)
      → s.echoing ≡ b ∷ bs
      → Step s (record s { down = s.down ++ (b ∷ bs); echoing = [] })
  hears :
      (number b : ℕ) (bs rest : List ℕ)
      → s.client ≡ hearing number
      → s.down ≡ (b ∷ bs) ++ rest
      → length (b ∷ bs) ≤ buffer_size
      → Step s (hear s number (b ∷ bs) rest)

pub data Reach : System → Type 0 where
  here : Reach init
  next : {s t : System} → Reach s → Step s t → Reach t
