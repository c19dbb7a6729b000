-- ===== src/Clients/Tests.antt =====
-- The clients on concrete input.
use network_communications.Prelude.{
  ℕ, pos, List, [], ◌∷◌, ◌++◌, some, map, drop, ◌≡◌, ◌≢◌, refl, ◌<◌, arith, length,
}
use network_communications.Run.{done, goes_on, Returns, ends}
use network_communications.Net.Pipe.{
  Pipe, whole_pipe, whole_laws, whole-Duplex, whole-TakesWhole, arriving,
}
use network_communications.CText.{decimal, fgets, to_upper}
use network_communications.Socket.{int_max}
use network_communications.SelectServer.{reply}
use network_communications.Clients.{
  Talk, greeting, counted, show, zero_filled, buffer_size, greet_main, type_round, checked_round,
}
use network_communications.Clients.Chat.{
  System, Step, init, ask, hear, Reach, here, next, asks, takes, echoes, hears, lost,
}
use network_communications.Clients.Chat.Gaps.{greetings}
use network_communications.Clients.Chat.Order.{flight, asked, answers_in_order, never_stuck}
use network_communications.Clients.Chat.Prompt.{Prompt, texts, answered, prompt_answers}
use network_communications.Clients.Greets.{Asked, greet_main-Asked}
use network_communications.Clients.Lines.{line_shown, own_text_shown}

decimal_test :
    decimal 2147483647 ≡ b'2' ∷ b'1' ∷ b'4' ∷ b'7' ∷ b'4' ∷ b'8' ∷ b'3' ∷ b'6' ∷ b'4' ∷ b'7' ∷ []
unfolding decimal
decimal_test = refl

fgets_test :
    (fgets 1023 (b'a' ∷ b'\n' ∷ b'b' ∷ []) ≡ (b'a' ∷ b'\n' ∷ [], b'b' ∷ []))
    × (fgets 1 (b'a' ∷ b'b' ∷ []) ≡ (b'a' ∷ [], b'b' ∷ []))
    × (fgets 1023 [] ≡ ([], []))
unfolding fgets
fgets_test = (refl, refl, refl)

-- The client has sent its first greeting.
abbrev asked_once : System
asked_once = ask init 0

asked_once-Reach : Reach asked_once
unfolding init
asked_once-Reach = next here (asks 0 refl)

-- The server has received two bytes of it and sent them back, and the client has read these.
abbrev echoed_half : System
echoed_half = record asked_once { up = drop 2 asked_once.up; down = 0xE4 ∷ 0xBD ∷ [] }

abbrev heard_half : System
heard_half = hear echoed_half 0 (0xE4 ∷ 0xBD ∷ []) []

echoed_half-Reach : Reach echoed_half
unfolding init ask counted greeting
echoed_half-Reach =
    next
      (next asked_once-Reach
        (takes 0xE4 (0xBD ∷ []) (drop 2 asked_once.up) refl refl (omega arith)))
      (echoes 0xE4 (0xBD ∷ []) refl)

heard_half-Reach : Reach heard_half
unfolding init ask counted greeting
heard_half-Reach = next echoed_half-Reach (hears 0 0xE4 (0xBD ∷ []) [] refl refl (omega arith))

-- It prints two bytes of a character, and goes on with its second greeting.
heard_half_shows : heard_half.shown ≡ (0xE4 ∷ 0xBD ∷ []) ∷ []
unfolding init ask hear counted greeting show
heard_half_shows = refl

answers_in_order_example :
    (heard_half.heard ++ flight heard_half ≡ greetings (asked heard_half.client))
    × ((n : ℕ) → heard_half.client ≡ lost n → n ≡ int_max)
answers_in_order_example = answers_in_order heard_half heard_half-Reach

echoed_half_fine : (n : ℕ) → echoed_half.client ≢ lost n
unfolding init ask counted greeting
echoed_half_fine n e = ground arith

never_stuck_example : (t : System) × Step echoed_half t
never_stuck_example = never_stuck echoed_half echoed_half-Reach echoed_half_fine

-- The same with whole messages.
abbrev taken_whole : System
taken_whole = record asked_once { up = []; echoing = asked_once.up }

abbrev echoed_whole : System
echoed_whole = record taken_whole { down = taken_whole.echoing; echoing = [] }

abbrev heard_whole : System
heard_whole = hear echoed_whole 0 echoed_whole.down []

heard_whole-Prompt : Prompt heard_whole
unfolding init ask counted greeting
heard_whole-Prompt =
    Prompt.next
      (Prompt.next
        (Prompt.next (Prompt.next Prompt.here (asks 0 refl) tt)
          (takes 0xE4 (drop 1 asked_once.up) [] refl refl (omega arith)) refl)
        (echoes 0xE4 (drop 1 asked_once.up) refl) tt)
      (hears 0 0xE4 (drop 1 asked_once.up) [] refl refl (omega arith)) refl

prompt_answers_example : heard_whole.shown ≡ texts (answered heard_whole.client)
prompt_answers_example = prompt_answers heard_whole heard_whole-Prompt

-- One answer comes back to socket/client.c, and then the server closes.
abbrev echoing_once : Pipe
echoing_once = arriving 100 (greeting 0 ++ 0 ∷ [])

abbrev starting : Pipe → List ℕ → Talk Pipe
starting p typed = record { shown = []; typed = typed; world = p }

one_greeting : echoing_once.incoming ++ [] ≡ greetings 1
unfolding greetings greeting
one_greeting = refl

short_enough : length echoing_once.incoming < 50
unfolding greeting
short_enough = omega arith

greet_main-Asked_example :
    Returns
      (λ r.
        (t : Talk Pipe) × (r ≡ ends (pos 0) t)
        × Asked whole_pipe whole_laws whole-Duplex (whole-TakesWhole buffer_size) (pos 3) t)
      (greet_main whole_pipe 50 0 (starting echoing_once []))
greet_main-Asked_example =
    greet_main-Asked whole_pipe whole_laws whole-Duplex (whole-TakesWhole buffer_size) 50 0
      (starting echoing_once []) echoing_once echoing_once (pos 3) (pos 0) 1 [] [] refl refl refl
      refl refl refl short_enough (omega (arith, short_enough)) one_greeting

-- "hi" is typed, and its answer comes.
abbrev hi : List ℕ
hi = b'h' ∷ b'i' ∷ b'\n' ∷ []

abbrev hi_answer : List ℕ
hi_answer = b'H' ∷ b'I' ∷ b'\n' ∷ 0 ∷ []

abbrev behind_hi : Pipe
behind_hi = record (arriving 9 []) { outgoing = hi ++ 0 ∷ [] }

hi_read : fgets 1023 hi ≡ (hi, [])
unfolding fgets
hi_read = refl

hi_replied : reply (hi ++ 0 ∷ []) ≡ some hi_answer
unfolding reply to_upper
hi_replied = refl

line_shown_example :
    type_round whole_pipe (starting (arriving 9 hi_answer) hi) (pos 3)
    ≡ done (record { shown = map to_upper hi ∷ []; typed = []; world = behind_hi })
line_shown_example =
    line_shown whole_pipe (starting (arriving 9 hi_answer) hi) (pos 3) b'h' (b'i' ∷ b'\n' ∷ []) []
      hi_answer behind_hi hi_read (omega arith) (omega arith) hi_replied refl

-- The server has closed.
own_text_shown_example :
    checked_round whole_pipe (starting (arriving 9 []) []) (pos 3) (zero_filled hi)
    ≡ done (goes_on (record { shown = hi ∷ []; typed = []; world = behind_hi }))
own_text_shown_example =
    own_text_shown whole_pipe (starting (arriving 9 []) []) (pos 3) hi 0 behind_hi (omega arith)
      (omega arith) refl
