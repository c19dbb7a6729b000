-- ===== src/ThreadEpoll/System/Pieces.antt =====
-- What becomes of the pieces that the threads of IO_mulit_way/thread_epoll_server.c receive.
use network_communications.Prelude.{
  ℕ, List, [], ◌∷◌, ◌++◌, some, map, get_elem?, length, ◌≡◌, refl, sym, ap, ◌∙◌, arith,
}
use network_communications.ThreadEpoll.System.{
  Sent, Task, accepting, adding, receiving, deleting, closing, ended, System, init, accept_conn,
  Step, waits, accepts, accept_fails, adds, receives, finds_end, empties, receive_fails, sends,
  tells, deletes, closes, hangs_up, Reach, here, next, add, delete, close,
}
use network_communications.ThreadEpoll.System.Calls.{
  calls_of, heard_by, sent_by, told_by, emptied_by, whole_text, in_capitals, given, capital_text,
  pending, Tells,
}
use network_communications.ThreadEpoll.System.Kept.{Inv, Kept-Still, plain-Inv}
use network_communications.ThreadEpoll.System.Moves.{
  receive-Inv, find_nothing-Inv, send_piece-Inv, tell-Inv, spawn-Inv,
}

-- A thread that ends without an EAGAIN.
still_silent :
    (emptied : List (ℕ × ℕ)) (told : List Sent) (xs : List ℕ)
    → (emptied ≡ []) × (told ≡ [])
    → Tells ended emptied told xs
still_silent emptied told xs (m, o) =
    (ap (map given) o ∙ ap (map (whole_text xs)) (sym m), omega (arith, ap length m))

Step-Inv : {lfd : ℕ} {s t : System} → Step lfd s t → Inv s → Inv t
unfolding accept_conn add delete close
Step-Inv {lfd} {s} (waits evs h) inv = spawn-Inv s lfd evs inv
Step-Inv {lfd} {s} (accepts i fd e f g) inv =
    plain-Inv s _ i accepting (adding fd) inv e refl (λ j. (refl, refl, refl, refl)) refl
      (λ xs h. tt) (λ m o xs h. h)
Step-Inv {lfd} {s} (accept_fails i e) inv =
    plain-Inv s _ i accepting ended inv e refl (λ j. (refl, refl, refl, refl)) refl (λ xs h. tt)
      (λ m o xs h. still_silent m o xs h)
Step-Inv {lfd} {s} (adds i fd e) inv =
    plain-Inv s _ i (adding fd) ended inv e refl (λ j. (refl, refl, refl, refl)) refl (λ xs h. tt)
      (λ m o xs h. still_silent m o xs h)
Step-Inv {lfd} {s} (receives i fd id c bs temp e f g) inv = receive-Inv s i fd temp (c ∷ bs) inv e
Step-Inv {lfd} {s} (finds_end i fd id temp e f g) inv =
    plain-Inv s _ i (receiving fd temp) (deleting fd) inv e refl (λ j. (refl, refl, refl, refl))
      refl (λ xs h. tt) (λ m o xs h. h)
Step-Inv {lfd} {s} (empties i fd temp e) inv = find_nothing-Inv s i fd temp inv e
Step-Inv {lfd} {s} (receive_fails i fd temp e) inv =
    plain-Inv s _ i (receiving fd temp) ended inv e refl (λ j. (refl, refl, refl, refl)) refl
      (λ xs h. tt) (λ m o xs h. still_silent m o xs h)
Step-Inv {lfd} {s} (sends i fd buf temp r e k) inv = send_piece-Inv s i fd buf temp r inv e
Step-Inv {lfd} {s} (tells i fd temp r e k) inv = tell-Inv s i fd temp r inv e
Step-Inv {lfd} {s} (deletes i fd e) inv =
    plain-Inv s _ i (deleting fd) (closing fd) inv e refl (λ j. (refl, refl, refl, refl)) refl
      (λ xs h. tt) (λ m o xs h. h)
Step-Inv {lfd} {s} (closes i fd e) inv =
    plain-Inv s _ i (closing fd) ended inv e refl (λ j. (refl, refl, refl, refl)) refl (λ xs h. tt)
      (λ m o xs h. still_silent m o xs h)
Step-Inv {lfd} {s} (hangs_up id) inv = record {
  each = λ j r e. Kept-Still s _ j r (refl, refl, refl, refl) (inv.each j r e);
  none_yet = inv.none_yet;
}

Reach-Inv : {lfd : ℕ} {s : System} → Reach lfd s → Inv s
unfolding init calls_of
Reach-Inv here = record {
  each = λ j r e. absurd (grind arith);
  none_yet = λ j le. (refl, refl, refl, refl);
}
Reach-Inv (next r st) = Step-Inv st (Reach-Inv r)

-- In every state that the program can reach, however its threads take turns, and for each thread: the
-- pieces that it has received, in capitals and in order, are those that it has given to `send`, each
-- once and on the same descriptor, and then the one that it is about to send or for which `temp` had no
-- room. And up to its end it has sent nothing of `temp`; when it has ended, and its last `recv` had given
-- EAGAIN, it has given to `send` once, on the descriptor of that, the pieces in capitals, each up
-- to its first 0, and a 0 behind them, and otherwise nothing. What `send` takes of all this is up
-- to the kernel.
pub pieces_once :
    {lfd : ℕ} {s : System}
    → Reach lfd s
    → (i : ℕ) (task : Task) → get_elem? s.tasks i ≡ some task
    → (map in_capitals (heard_by s i) ≡ map given (sent_by s i) ++ pending task)
      × Tells task (emptied_by s i) (told_by s i) (capital_text (heard_by s i))
pieces_once r i task e = let k = (Reach-Inv r).each i task e in (k.pieces, k.speaks)
