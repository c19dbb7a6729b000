-- ===== src/ThreadServer/Listening.antt =====
-- The descriptor set of IO_mulit_way/thread_server.c, however its threads take turns.
use network_communications.Prelude.{
  ℕ, zero, suc, ◌+◌, ◌≤◌, pos, Bool, true, false, not, ◌&&◌, ◌||◌, List, [], ◌∷◌, ◌++◌, some,
  get_elem?, ltb, ◌==◌, if◌then◌else◌, ◌≡◌, ◌≢◌, ◌⊎◌, inl, inr, refl, subst, arith, Bool-cases,
  Option-cases, set-each, each-append, ne_of_==,
}
use network_communications.SelectServer.{FdSet, fd_insert, higher, reply}
use network_communications.ThreadServer.{
  Task, accepting, watching, receiving, replying, leaving, closing, ended, faulted, Main, copying,
  selecting, visiting, System, init, main_step, move, accept_conn, watch, answer, clear, close,
  Step, mains, accepts, accept_fails, watches, receives, finds_end, receive_fails, answers, clears,
  closes, hangs_up, Reach, here, next,
}

-- The thread does nothing to the listening socket but to accept on it.
abbrev Off : ℕ → Task → Type 0
Off lfd (watching fd) = (fd == lfd) ≡ false
Off lfd (receiving fd) = (fd == lfd) ≡ false
Off lfd (replying fd chunk) = (fd == lfd) ≡ false
Off lfd (leaving fd) = (fd == lfd) ≡ false
Off lfd (closing fd) = (fd == lfd) ≡ false
Off lfd _ = Unit

abbrev Tasks : ℕ → System → Type 0
Tasks lfd s = (i : ℕ) (task : Task) → get_elem? s.tasks i ≡ some task → Off lfd task

record Inv (lfd : ℕ) (s : System) : Type 0 where
  pub listening : s.rdset lfd ≡ true
  pub below : (k : ℕ) → s.rdset k ≡ true → k ≤ s.maxfd
  pub apart : Tasks lfd s

or_right : (a b : Bool) → b ≡ true → (a || b) ≡ true
or_right true b h = refl
or_right false b h = h

and_right : (a b : Bool) → (a && b) ≡ true → b ≡ true
and_right true b h = h
and_right false b h = absurd (let f : false ≡ true = h in cc)

not_lfd : (a b : Bool) → (not a && b) ≡ true → a ≡ false
not_lfd true b h = absurd (let f : false ≡ true = h in cc)
not_lfd false b h = refl

higher_over :
    (k fd m : ℕ) (b : Bool) → (b ≡ true → k ≤ m) → (k == fd || b) ≡ true → k ≤ higher (pos fd) m
higher_over k fd m true h f = let l = h refl in ground arith
higher_over k fd m false h f = ground arith

kept : (k fd : ℕ) (b : Bool) → (fd == k) ≡ false → b ≡ true → (not (k == fd) && b) ≡ true
kept k fd b h f = ground arith

moved :
    (lfd : ℕ) (s : System) (i : ℕ) (p q : Task)
    → get_elem? s.tasks i ≡ some p
    → Off lfd q
    → Tasks lfd s
    → Tasks lfd (move s i q)
moved lfd s i p q e own h j r f = set-each (Off lfd) s.tasks i p q e own (λ k t ne g. h k t g) j r f

one_more :
    (lfd : ℕ) (s : System) (task : Task) (here : Bool)
    → (here ≡ true → Off lfd task)
    → Tasks lfd s
    → Tasks lfd (record s { tasks = if here then s.tasks ++ task ∷ [] else s.tasks })
one_more lfd s task true own h = each-append (Off lfd) s.tasks (task ∷ []) h only
  where
    only : (j : ℕ) (r : Task) → get_elem? (task ∷ []) j ≡ some r → Off lfd r
    only zero r e = let is : task ≡ r = cc in subst (Off lfd) is (own refl)
    only (suc j) r e = absurd (grind arith)
one_more lfd s task false own h = h

Main-cases :
    (m : Main)
    → (m ≡ copying)
      ⊎ ((rdtemp : FdSet) × (m ≡ selecting rdtemp))
      ⊎ ((rdtemp : FdSet) × (i : ℕ) × (m ≡ visiting rdtemp i))
Main-cases copying = inl refl
Main-cases (selecting rdtemp) = inr (inl (rdtemp, refl))
Main-cases (visiting rdtemp i) = inr (inr (rdtemp, i, refl))

main_step-Inv : (lfd : ℕ) (ready : FdSet) (s : System) → Inv lfd s → Inv lfd (main_step lfd ready s)
unfolding main_step
main_step-Inv lfd ready s h = elim (Main-cases s.main) [
  | inl e ↦ rw (e, main_step) (record { listening = h.listening; below = h.below; apart = h.apart })
  | inr (inl (rdtemp, e)) ↦
      rw (e, main_step)
        (record {
          listening = h.listening;
          below = h.below;
          apart = one_more lfd s accepting (rdtemp lfd && ready lfd) (λ f. tt) h.apart;
        })
  | inr (inr (rdtemp, i, e)) ↦ elim (Bool-cases (ltb i (s.maxfd + 1))) [
    | inl more ↦
        rw (e, main_step, more)
          (record {
            listening = h.listening;
            below = h.below;
            apart =
                one_more lfd s (receiving i) (not (i == lfd) && rdtemp i)
                  (not_lfd (i == lfd) (rdtemp i)) h.apart;
          })
    | inr no_more ↦
        rw (e, main_step, no_more)
          (record { listening = h.listening; below = h.below; apart = h.apart })
  ]
]

watch-Inv :
    (lfd : ℕ) (s : System) (i fd : ℕ)
    → get_elem? s.tasks i ≡ some (watching fd)
    → Inv lfd s
    → Inv lfd (watch s i fd)
unfolding watch fd_insert
watch-Inv lfd s i fd e h = elim (Bool-cases (ltb fd 1024)) [
  | inl fits ↦
      rw (fits, watch, fd_insert)
        (record {
          listening = or_right (lfd == fd) (s.rdset lfd) h.listening;
          below = λ k f. higher_over k fd s.maxfd (s.rdset k) (h.below k) f;
          apart = moved lfd s i (watching fd) ended e tt h.apart;
        })
  | inr high ↦
      rw (high, watch, fd_insert)
        (record {
          listening = h.listening;
          below = h.below;
          apart = moved lfd s i (watching fd) faulted e tt h.apart;
        })
]

answer-Inv :
    (lfd : ℕ) (s : System) (i fd : ℕ) (chunk : List ℕ)
    → get_elem? s.tasks i ≡ some (replying fd chunk)
    → Inv lfd s
    → Inv lfd (answer s i fd chunk)
unfolding answer
answer-Inv lfd s i fd chunk e h = elim (Option-cases (reply chunk)) [
  | inl missing ↦
      rw (missing, answer)
        (record {
          listening = h.listening;
          below = h.below;
          apart = moved lfd s i (replying fd chunk) faulted e tt h.apart;
        })
  | inr (bytes, f) ↦
      rw (f, answer)
        (record {
          listening = h.listening;
          below = h.below;
          apart = moved lfd s i (replying fd chunk) ended e tt h.apart;
        })
]

-- A step that leaves the set.
Inv-moved :
    (lfd : ℕ) (s : System) (i : ℕ) (p q : Task)
    → get_elem? s.tasks i ≡ some p
    → Off lfd q
    → Inv lfd s
    → Inv lfd (move s i q)
Inv-moved lfd s i p q e own h = record {
  listening = h.listening;
  below = h.below;
  apart = moved lfd s i p q e own h.apart;
}

Step-Inv : (lfd : ℕ) (s t : System) → Step lfd s t → Inv lfd s → Inv lfd t
unfolding accept_conn clear close
Step-Inv lfd s t (mains ready) h = main_step-Inv lfd ready s h
Step-Inv lfd s t (accepts i fd e ne free) h = record {
  listening = h.listening;
  below = h.below;
  apart = moved lfd s i accepting (watching fd) e ne h.apart;
}
Step-Inv lfd s t (accept_fails i e) h = Inv-moved lfd s i accepting faulted e tt h
Step-Inv lfd s t (watches i fd e) h = watch-Inv lfd s i fd e h
Step-Inv lfd s t (receives i fd id b bs e f room) h =
    Inv-moved lfd s i (receiving fd) (replying fd (b ∷ bs)) e (h.apart i (receiving fd) e) h
Step-Inv lfd s t (finds_end i fd id e f g) h =
    Inv-moved lfd s i (receiving fd) (leaving fd) e (h.apart i (receiving fd) e) h
Step-Inv lfd s t (receive_fails i fd e) h = Inv-moved lfd s i (receiving fd) ended e tt h
Step-Inv lfd s t (answers i fd chunk e) h = answer-Inv lfd s i fd chunk e h
Step-Inv lfd s t (clears i fd e) h = record {
  listening = kept lfd fd (s.rdset lfd) (h.apart i (leaving fd) e) h.listening;
  below = λ k f. h.below k (and_right (not (k == fd)) (s.rdset k) f);
  apart = moved lfd s i (leaving fd) (closing fd) e (h.apart i (leaving fd) e) h.apart;
}
Step-Inv lfd s t (closes i fd e) h = record {
  listening = h.listening;
  below = h.below;
  apart = moved lfd s i (closing fd) ended e tt h.apart;
}
Step-Inv lfd s t (hangs_up id) h = record {
  listening = h.listening;
  below = h.below;
  apart = h.apart;
}

init-Inv : (lfd : ℕ) → Inv lfd (init lfd)
unfolding init
init-Inv lfd = record {
  listening = ground arith;
  below = λ k f. ground arith;
  apart = λ i task e. absurd (grind arith);
}

Reach-Inv : (lfd : ℕ) (s : System) → Reach lfd s → Inv lfd s
Reach-Inv lfd s here = init-Inv lfd
Reach-Inv lfd t (next {s = s} r step) = Step-Inv lfd s t step (Reach-Inv lfd s r)

-- In every state that the program can reach, however its threads take turns: the listening socket is
-- in the set, no descriptor in the set is above `maxfd`, and no thread is about to take the listening
-- socket out of the set or to close it.
pub stays_listening :
    {lfd : ℕ} {s : System}
    → Reach lfd s
    → (s.rdset lfd ≡ true)
      × ((k : ℕ) → s.rdset k ≡ true → k ≤ s.maxfd)
      × ((i fd : ℕ)
          → (get_elem? s.tasks i ≡ some (leaving fd)) ⊎ (get_elem? s.tasks i ≡ some (closing fd))
          → fd ≢ lfd)
stays_listening {lfd} {s} r =
    let h = Reach-Inv lfd s r in
    (
      h.listening,
      h.below,
      (λ i fd e. elim e [
        | inl leaves ↦ ne_of_== fd lfd (h.apart i (leaving fd) leaves)
        | inr shuts ↦ ne_of_== fd lfd (h.apart i (closing fd) shuts)
      ]),
    )
