-- ===== src/Net/Pipes.antt =====
-- A network of several connections, one for each descriptor, each like the one of Net/Pipe on which a
-- `send` takes everything.
use network_communications.Prelude.{
  ℕ, ◌<◌, ◌==◌, ℤ, pos, negsuc, true, false, List, [], ◌∷◌, ◌≡◌, ◌≢◌, refl, sym, ap, subst, arith,
  Bool-cases, eq_of_==, inl, inr, if◌then◌else◌,
}
use network_communications.Socket.{int_ne}
use network_communications.Net.{Net}
use network_communications.Net.Stream.{Stream, Receives, Sends, Duplex, TakesWhole}
use network_communications.Net.Events.{Events, Gives, Emptied, NowLaws}
use network_communications.Net.Pipe.{Pipe, whole_pipe, whole_laws, whole_events, whole_now}

-- The connections with `p` for `fd`.
abbrev pub put : (ℤ → Pipe) → ℤ → Pipe → ℤ → Pipe
put w fd p k = if int_ne k fd then w k else p

int_same : (fd : ℤ) → int_ne fd fd ≡ false
int_same (pos n) = ground arith
int_same (negsuc n) = ground arith

int_differs : (k fd : ℤ) → k ≢ fd → int_ne k fd ≡ true
int_differs (pos a) (pos b) h = elim (Bool-cases (a == b)) [
  | inl e ↦ absurd (h (ap pos (eq_of_== a b e)))
  | inr e ↦ rw e refl
]
int_differs (pos a) (negsuc b) h = refl
int_differs (negsuc a) (pos b) h = refl
int_differs (negsuc a) (negsuc b) h = elim (Bool-cases (a == b)) [
  | inl e ↦ absurd (h (ap negsuc (eq_of_== a b e)))
  | inr e ↦ rw e refl
]

pub put_self : (w : ℤ → Pipe) (fd : ℤ) (p : Pipe) → put w fd p fd ≡ p
put_self w fd p = rw (int_same fd) refl

pub put_other : (w : ℤ → Pipe) (fd k : ℤ) (p : Pipe) → k ≢ fd → put w fd p k ≡ w k
put_other w fd k p h = rw (int_differs k fd h) refl

abbrev pub pipes : Net
pipes = record {
  World = ℤ → Pipe;
  socket = λ w. (pos 3, w);
  bind = λ w fd port. (pos 0, w);
  listen = λ w fd backlog. (pos 0, w);
  accept = λ w fd. (pos 4, 0, w);
  connect = λ w fd ip port. (pos 0, w);
  recv = λ w fd k. let (got, p) = whole_pipe.recv (w fd) fd k in (got, put w fd p);
  send = λ w fd buf. let (n, p) = whole_pipe.send (w fd) fd buf in (n, put w fd p);
  close = λ w fd. (pos 0, w);
}

abbrev pub pipes_events : Events pipes
pipes_events = record {
  recv_now = λ w fd k. let (got, p) = whole_events.recv_now (w fd) fd k in (got, put w fd p);
  set_nonblock = λ w fd. w;
  epoll_create = λ w. (pos 5, w);
  epoll_add = λ w epfd fd. (pos 0, w);
  epoll_del = λ w epfd fd. w;
  epoll_wait = λ w epfd. (pos 4 ∷ pos 6 ∷ [], w);
}

pub pipes-recv :
    (w : ℤ → Pipe) (fd : ℤ) (k : ℕ)
    → 0 < k
    → Receives (w fd).incoming k (pipes.recv w fd k).0 ((pipes.recv w fd k).1 fd).incoming
pipes-recv w fd k h =
    let p = (whole_pipe.recv (w fd) fd k).1 in
    subst (λ q. Receives (w fd).incoming k (whole_pipe.recv (w fd) fd k).0 q.incoming)
      (sym (put_self w fd p)) (whole_laws.recv_law (w fd) fd k h)

pub pipes-send :
    (w : ℤ → Pipe) (fd : ℤ) (buf : List ℕ)
    → Sends (w fd).outgoing buf (pipes.send w fd buf).0 ((pipes.send w fd buf).1 fd).outgoing
pipes-send w fd buf =
    let p = (whole_pipe.send (w fd) fd buf).1 in
    subst (λ q. Sends (w fd).outgoing buf (whole_pipe.send (w fd) fd buf).0 q.outgoing)
      (sym (put_self w fd p)) (whole_laws.send_law (w fd) fd buf)

pub pipes-now :
    (w : ℤ → Pipe) (fd : ℤ) (k : ℕ)
    → 0 < k
    → Gives
        (w fd).incoming
        k
        (pipes_events.recv_now w fd k).0
        ((pipes_events.recv_now w fd k).1 fd).incoming
pipes-now w fd k h =
    let p = (whole_events.recv_now (w fd) fd k).1 in
    subst (λ q. Gives (w fd).incoming k (whole_events.recv_now (w fd) fd k).0 q.incoming)
      (sym (put_self w fd p)) (whole_now.now_law (w fd) fd k h)

pub pipes-empties :
    (w : ℤ → Pipe) (fd : ℤ) (k : ℕ)
    → 0 < k
    → Emptied (pipes_events.recv_now w fd k).0 ((pipes_events.recv_now w fd k).1 fd).incoming
pipes-empties w fd k h =
    let p = (whole_events.recv_now (w fd) fd k).1 in
    subst (λ q. Emptied (whole_events.recv_now (w fd) fd k).0 q.incoming) (sym (put_self w fd p))
      (whole_now.now_empties (w fd) fd k h)

abbrev pub pipes_laws : Stream pipes
pipes_laws = record {
  inbox = λ w fd. (w fd).incoming;
  outbox = λ w fd. (w fd).outgoing;
  recv_law = pipes-recv;
  send_law = pipes-send;
  close_law = λ w fd. refl;
}

abbrev pub pipes_now : NowLaws pipes pipes_events pipes_laws
pipes_now = record {
  arrived = λ w fd. (w fd).incoming;
  now_law = pipes-now;
  now_empties = pipes-empties;
  now_outbox = λ w fd k. ap (λ q. q.outgoing) (put_self w fd (whole_events.recv_now (w fd) fd k).1);
}

abbrev pub pipes-Duplex : Duplex pipes pipes_laws
pipes-Duplex = record {
  recv_outbox = λ w fd k. ap (λ q. q.outgoing) (put_self w fd (whole_pipe.recv (w fd) fd k).1);
  send_inbox = λ w fd buf. ap (λ q. q.incoming) (put_self w fd (whole_pipe.send (w fd) fd buf).1);
  close_outbox = λ w fd other. refl;
}

pub pipes-TakesWhole : (k : ℕ) → TakesWhole pipes k
pipes-TakesWhole k w fd buf h = refl
