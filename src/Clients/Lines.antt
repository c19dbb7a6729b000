-- ===== src/Clients/Lines.antt =====
-- The clients of IO_mulit_way/ and the servers there that answer in capitals, or as they are.
use network_communications.Prelude.{
  ℕ, suc, ◌<◌, ◌-◌, ℤ, List, [], ◌∷◌, ◌++◌, some, map, length, take, drop, take-over, Option,
  replicate, ◌≡◌, refl, sym, ap, ◌∙◌, arith, append_assoc,
}
use network_communications.Run.{done, goes_on}
use network_communications.Net.{Net}
use network_communications.CText.{to_upper, fgets}
use network_communications.CText.Upper.{NoNul, text-append, map-NoNul}
use network_communications.CText.Printed.{printed-append}
use network_communications.SelectServer.{reply}
use network_communications.SelectServer.Reply.{reply_line}
use network_communications.Clients.{
  Talk, show, store, zero_filled, buffer_size, type_round, checked_round, write_read,
}

show-text : (xs ys : List ℕ) → NoNul xs → show (xs ++ 0 ∷ ys) ≡ done xs
unfolding show
show-text xs ys h = rw (printed-append xs ys h, show) refl

module _ (net : Net) where
  open net use {World, recv, send}

  -- A line of at most nine bytes, none of them 0, that is typed into select_client.c, where `read`
  -- gives what select_server.c sends for it: the client prints the line in capitals.
  pub line_shown :
      (s : Talk World) (fd : ℤ) (c : ℕ) (cs rest bytes : List ℕ) (w2 : World)
      → fgets 1023 s.typed ≡ (c ∷ cs, rest)
      → NoNul (c ∷ cs)
      → length (c ∷ cs) < 10
      → reply ((c ∷ cs) ++ 0 ∷ []) ≡ some bytes
      → recv (send s.world fd ((c ∷ cs) ++ 0 ∷ [])).1 fd buffer_size ≡ (some bytes, w2)
      → type_round net s fd
        ≡ done (record { shown = s.shown ++ map to_upper (c ∷ cs) ∷ []; typed = rest; world = w2 })
  unfolding type_round write_read store
  line_shown s fd c cs rest bytes w2 typed plain short answer came =
      let line : List ℕ = c ∷ cs in
      let buf : List ℕ = line ++ 0 ∷ [] in
      let capitals : bytes ≡ map to_upper line ++ 0 ∷ [] =
        cc (sym answer ∙ reply_line line short plain) in
      let shows : show (bytes ++ drop (length bytes) buf) ≡ done (map to_upper line) =
        ap (λ t. show (t ++ drop (length bytes) buf)) capitals
        ∙ ap show (append_assoc (map to_upper line) (0 ∷ []) (drop (length bytes) buf))
        ∙ show-text (map to_upper line) (drop (length bytes) buf) (map-NoNul line plain) in
      rw (typed, type_round)
        (rw (text-append line [] plain, write_read)
          (rw (came, store)
            (rw shows (
              ap
                (λ (r : List ℕ × List ℕ).
                  done
                    (record { shown = s.shown ++ map to_upper line ∷ []; typed = r.1; world = w2 }))
                typed))))

  -- A program that has read a line, or printed one into its buffer, writes it, and `read` gives the
  -- first bytes of that text, or none at all since the server has closed: epoll_client.c and
  -- thread_client.c print the whole text all the same, since it is still in the buffer.
  pub own_text_shown :
      (s : Talk World) (fd : ℤ) (line : List ℕ) (k : ℕ) (w2 : World)
      → NoNul line
      → length line < buffer_size
      → recv (send s.world fd (line ++ 0 ∷ [])).1 fd buffer_size
        ≡ (some (take k (line ++ 0 ∷ [])), w2)
      → checked_round net s fd (zero_filled line)
        ≡ done (goes_on (record s { shown = s.shown ++ line ∷ []; world = w2 }))
  unfolding checked_round write_read store
  own_text_shown s fd line k w2 plain fits came =
      let msg : List ℕ = line ++ 0 ∷ [] in
      let left : List ℕ = replicate (1023 - length line) 0 in
      let there : zero_filled line ≡ line ++ 0 ∷ left =
        let e : buffer_size - length line ≡ suc (1023 - length line) = omega arith in
        ap (λ n. line ++ replicate n 0) e in
      let over : store (some (take k msg)) (zero_filled line) ≡ line ++ 0 ∷ left =
        ap (λ buf. store (some (take k msg)) buf) (there ∙ sym (append_assoc line (0 ∷ []) left))
        ∙ take-over k msg left
        ∙ append_assoc line (0 ∷ []) left in
      let shows : show (store (some (take k msg)) (zero_filled line)) ≡ done line =
        ap show over ∙ show-text line left plain in
      let writes : write_read net s fd (zero_filled line)
          ≡ done (recv (send s.world fd msg).1 fd buffer_size) =
        rw (there, text-append line left plain, write_read) refl in
      rw (writes, checked_round)
        (rw (came, checked_round)
          (rw (shows, checked_round)
            (ap
              (λ (p : Option (List ℕ) × World).
                done (goes_on (record s { shown = s.shown ++ line ∷ []; world = p.1 })))
              came)))
