-- ===== src/Net/Pipe.antt =====
-- A network that meets the laws: one connection, whose bytes arrive and are taken in pieces of a
-- fixed size. The tests run the code over it.
use network_communications.Prelude.{
  ℕ, zero, suc, ◌≤◌, ◌<◌, min, ℤ, pos, List, [], ◌∷◌, ◌++◌, Option, some, ◌≢◌, refl, sym, ap, arith,
  length, take, drop, length-take, take-append-drop, take-length,
}
use network_communications.Net.{Net}
use network_communications.Net.Events.{
  Events, Recvd, bytes, again, failed, Gives, Emptied, NowLaws, Eager,
}
use network_communications.Net.Stream.{
  Stream, Receives, NoErrors, Progress, NoSendErrors, Duplex, TakesWhole,
}

pub record Pipe : Type 0 where
  pub incoming : List ℕ
  pub outgoing : List ℕ
  -- a call moves `piece + 1` bytes at most
  pub piece : ℕ
  pub closed : List ℤ

abbrev pieces : ℕ → List ℕ → ℕ → List ℕ × List ℕ
pieces piece [] k = ([], [])
pieces piece (x ∷ xs) zero = ([], x ∷ xs)
pieces piece (x ∷ xs) (suc k) = (x ∷ take (min k piece) xs, drop (min k piece) xs)

abbrev pipe_recv : Pipe → ℤ → ℕ → Option (List ℕ) × Pipe
pipe_recv p fd k =
    let (bs, rest) = pieces p.piece p.incoming k in (some bs, record p { incoming = rest })

abbrev pipe_send : Pipe → ℤ → List ℕ → Option ℕ × Pipe
pipe_send p fd buf =
    let n = min (length buf) (suc p.piece) in
    (some n, record p { outgoing = p.outgoing ++ take n buf })

abbrev pub pipe : Net
pipe = record {
  World = Pipe;
  socket = λ p. (pos 3, p);
  bind = λ p fd port. (pos 0, p);
  listen = λ p fd backlog. (pos 0, p);
  accept = λ p fd. (pos 4, 0, p);
  connect = λ p fd ip port. (pos 0, p);
  recv = pipe_recv;
  send = pipe_send;
  close = λ p fd. (pos 0, record p { closed = fd ∷ p.closed });
}

pub pieces-Receives :
    (piece : ℕ) (xs : List ℕ) (k : ℕ)
    → 1 ≤ k
    → Receives xs k (some (pieces piece xs k).0) (pieces piece xs k).1
pieces-Receives piece [] k h = (refl, refl)
pieces-Receives piece (x ∷ xs) zero h = absurd (omega arith)
pieces-Receives piece (x ∷ xs) (suc k) h = (
  ap (◌∷◌ x) (sym (take-append-drop (min k piece) xs)),
  omega (arith, length-take (min k piece) xs),
)

abbrev pub pipe_laws : Stream pipe
pipe_laws = record {
  inbox = λ p fd. p.incoming;
  outbox = λ p fd. p.outgoing;
  recv_law = λ p fd k h. pieces-Receives p.piece p.incoming k h;
  send_law = λ p fd buf. (refl, omega arith);
  close_law = λ p fd. refl;
}

pub pipe-NoErrors : NoErrors pipe
pipe-NoErrors p fd k h e = cc

pub pipe-Progress : Progress pipe
pipe-Progress p fd b bs e = ground arith

-- A connection on which `xs` arrives in pieces of `n + 1` bytes.
abbrev pub arriving : ℕ → List ℕ → Pipe
arriving n xs = record { incoming = xs; outgoing = []; piece = n; closed = [] }

pub pipe-NoSendErrors : NoSendErrors pipe
pipe-NoSendErrors p fd b bs e = cc

-- The same where a `send` takes everything.
abbrev pub whole_pipe : Net
whole_pipe = record pipe {
  World = Pipe;
  send = λ p fd buf. (some (length buf), record p { outgoing = p.outgoing ++ buf });
}

abbrev pub whole_laws : Stream whole_pipe
whole_laws = record {
  inbox = λ p fd. p.incoming;
  outbox = λ p fd. p.outgoing;
  recv_law = λ p fd k h. pieces-Receives p.piece p.incoming k h;
  send_law = λ p fd buf. (ap (◌++◌ p.outgoing) (sym (take-length buf)), omega arith);
  close_law = λ p fd. refl;
}

abbrev pub whole-Duplex : Duplex whole_pipe whole_laws
whole-Duplex = record {
  recv_outbox = λ p fd k. refl;
  send_inbox = λ p fd buf. refl;
  close_outbox = λ p fd other. refl;
}

pub whole-NoErrors : NoErrors whole_pipe
whole-NoErrors p fd k h e = cc

pub whole-TakesWhole : (k : ℕ) → TakesWhole whole_pipe k
whole-TakesWhole k p fd buf h = refl

-- Without a byte to read, `recv` says EAGAIN.
abbrev recv_some : List ℕ × List ℕ → Recvd
recv_some ([], rest) = again
recv_some (b ∷ bs, rest) = bytes (b ∷ bs)

abbrev pub whole_events : Events whole_pipe
whole_events = record {
  recv_now = λ p fd k. (
    recv_some (pieces p.piece p.incoming k),
    record p { incoming = (pieces p.piece p.incoming k).1 },
  );
  set_nonblock = λ p fd. p;
  epoll_create = λ p. (pos 5, p);
  epoll_add = λ p epfd fd. (pos 0, p);
  epoll_del = λ p epfd fd. p;
  epoll_wait = λ p epfd. (pos 4 ∷ [], p);
}

pub pieces-Gives :
    (piece : ℕ) (xs : List ℕ) (k : ℕ)
    → 0 < k
    → Gives xs k (recv_some (pieces piece xs k)) (pieces piece xs k).1
pieces-Gives piece [] k h = refl
pieces-Gives piece (x ∷ xs) zero h = absurd (omega arith)
pieces-Gives piece (x ∷ xs) (suc k) h = pieces-Receives piece (x ∷ xs) (suc k) h

pub pieces-Emptied :
    (piece : ℕ) (xs : List ℕ) (k : ℕ)
    → 0 < k
    → Emptied (recv_some (pieces piece xs k)) (pieces piece xs k).1
pieces-Emptied piece [] k h = refl
pieces-Emptied piece (x ∷ xs) zero h = absurd (omega arith)
pieces-Emptied piece (x ∷ xs) (suc k) h = tt

abbrev pub whole_now : NowLaws whole_pipe whole_events whole_laws
whole_now = record {
  arrived = λ p fd. p.incoming;
  now_law = λ p fd k h. pieces-Gives p.piece p.incoming k h;
  now_empties = λ p fd k h. pieces-Emptied p.piece p.incoming k h;
  now_outbox = λ p fd k. refl;
}

pieces_come :
    (piece : ℕ) (xs : List ℕ)
    → xs ≢ []
    → (recv_some (pieces piece xs 5) ≢ again) × (recv_some (pieces piece xs 5) ≢ failed)
pieces_come piece [] h = absurd (h refl)
pieces_come piece (x ∷ xs) h = (λ e. cc, λ e. cc)

pub whole-Eager : Eager whole_pipe whole_events whole_laws
whole-Eager p fd some_left = pieces_come p.piece p.incoming some_left
