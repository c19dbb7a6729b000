-- ===== src/ThreadEpoll/System/Moves.antt =====
-- The steps of a thread of IO_mulit_way/thread_epoll_server.c that call `recv` or `send`, and its start.
use network_communications.Prelude.{
  ℕ, zero, suc, ◌≤◌, List, [], ◌∷◌, ◌++◌, Option, some, map, get_elem?, length, ltb, ◌==◌, ◌≡◌,
  refl, sym, ap, subst, ◌∙◌, arith, ◌⊎◌, inl, inr, Bool-cases, length-append, append-nil,
}
use mathlib.Core.List.{map-append}
use network_communications.ThreadEpoll.{temp_size, until_nul}
use network_communications.ThreadEpoll.Chunk.{upper_loop-whole}
use network_communications.ThreadEpoll.System.{
  Task, accepting, receiving, sending, finishing, ended, faulted, Receipt, Sent, System,
  start_thread, spawn, capitals, keep, receive, find_nothing, send_piece, tell,
}
use network_communications.ThreadEpoll.System.Calls.{
  calls_of-own, calls_of-other, heard_by, sent_by, told_by, emptied_by, whole_text, in_capitals,
  given, capital_text, capital_text-one,
}
use network_communications.ThreadEpoll.System.Kept.{Kept, Silent, Inv, Kept-Still, step-Inv}

-- `strncat` has room, or it has not.
keep-cases :
    (fd : ℕ) (temp piece : List ℕ)
    → (keep fd temp piece ≡ sending fd (capitals piece) (temp ++ until_nul (capitals piece)))
      ⊎ (keep fd temp piece ≡ faulted fd (capitals piece))
unfolding keep
keep-cases fd temp piece =
    elim (Bool-cases (ltb (length (temp ++ until_nul (capitals piece))) temp_size)) [
      | inl e ↦ rw (e, keep) (inl refl)
      | inr e ↦ rw (e, keep) (inr refl)
    ]

pub receive-Inv :
    (s : System) (i fd : ℕ) (temp piece : List ℕ)
    → Inv s
    → get_elem? s.tasks i ≡ some (receiving fd temp)
    → Inv (receive s i fd temp piece)
unfolding receive
receive-Inv s i fd temp piece inv e =
    step-Inv s (receive s i fd temp piece) i (receiving fd temp) (keep fd temp piece) inv e refl
      (elim (keep-cases fd temp piece) [
        | inl f ↦
            subst (Kept t i) (sym f) (record { pieces = more; holds = longer; speaks = k.speaks })
        | inr f ↦ subst (Kept t i) (sym f) (record { pieces = more; holds = tt; speaks = k.speaks })
      ])
      (λ j ne. (calls_of-other (λ (x : Receipt). x.thread) j s.received m ne, refl, refl, refl))
  where
    t : System
    t = receive s i fd temp piece

    m : Receipt
    m = record { thread = i; fd = fd; client = s.table fd; bytes = piece }

    k : Kept s i (receiving fd temp)
    k = inv.each i (receiving fd temp) e

    heard : heard_by t i ≡ heard_by s i ++ m ∷ []
    heard = calls_of-own (λ (x : Receipt). x.thread) s.received m

    more : map in_capitals (heard_by t i) ≡ map given (sent_by t i) ++ (fd, capitals piece) ∷ []
    more =
        ap (map in_capitals) heard
        ∙ map-append in_capitals (heard_by s i) (m ∷ [])
        ∙ ap (λ xs. xs ++ in_capitals m ∷ []) (k.pieces ∙ append-nil (map given (sent_by s i)))
        ∙ ap (λ ys. map given (sent_by s i) ++ (fd, ys) ∷ []) (sym (upper_loop-whole piece))

    longer : temp ++ until_nul (capitals piece) ≡ capital_text (heard_by t i)
    longer =
        ap (λ xs. xs ++ until_nul (capitals piece)) k.holds
        ∙ ap (λ ys. capital_text (heard_by s i) ++ until_nul ys) (upper_loop-whole piece)
        ∙ sym (capital_text-one (heard_by s i) m)
        ∙ ap capital_text (sym heard)

pub send_piece-Inv :
    (s : System) (i fd : ℕ) (buf temp : List ℕ) (r : Option ℕ)
    → Inv s
    → get_elem? s.tasks i ≡ some (sending fd buf temp)
    → Inv (send_piece s i fd buf temp r)
unfolding send_piece
send_piece-Inv s i fd buf temp r inv e =
    let k = inv.each i (sending fd buf temp) e in
    let m : Sent = record { thread = i; fd = fd; client = s.table fd; bytes = buf; result = r } in
    let gave : sent_by (send_piece s i fd buf temp r) i ≡ sent_by s i ++ m ∷ [] =
      calls_of-own (λ (x : Sent). x.thread) s.sent m in
    step-Inv s (send_piece s i fd buf temp r) i (sending fd buf temp) (receiving fd temp) inv e refl
      (record {
        pieces =
            k.pieces
            ∙ sym (map-append given (sent_by s i) (m ∷ []))
            ∙ ap (map given) (sym gave)
            ∙ sym (append-nil (map given (sent_by (send_piece s i fd buf temp r) i)));
        holds = k.holds;
        speaks = k.speaks;
      })
      (λ j ne. (refl, calls_of-other (λ (x : Sent). x.thread) j s.sent m ne, refl, refl))

one_told :
    (emptied : List (ℕ × ℕ)) (fd : ℕ) (temp xs : List ℕ) (m : Sent) (told : List Sent)
    → given m ≡ (fd, temp ++ 0 ∷ [])
    → map (λ (k : ℕ × ℕ). k.1) emptied ≡ fd ∷ []
    → told ≡ m ∷ []
    → temp ≡ xs
    → (map given told ≡ map (whole_text xs) emptied) × (length emptied ≤ 1)
one_told [] fd temp xs m told g e f h = absurd (omega (arith, ap length e))
one_told (k ∷ []) fd temp xs m told g e f h =
    let same : k.1 ≡ fd = ground arith in
    (
      ap (map given) f
          ∙ ap (λ x. x ∷ [])
              (g ∙ ap (λ ys. (fd, ys ++ 0 ∷ [])) h ∙ ap (λ n. (n, xs ++ 0 ∷ [])) (sym same)),
      omega arith,
    )
one_told (k ∷ l ∷ ks) fd temp xs m told g e f h = absurd (omega (arith, ap length e))

pub find_nothing-Inv :
    (s : System) (i fd : ℕ) (temp : List ℕ)
    → Inv s
    → get_elem? s.tasks i ≡ some (receiving fd temp)
    → Inv (find_nothing s i fd temp)
unfolding find_nothing
find_nothing-Inv s i fd temp inv e =
    let k = inv.each i (receiving fd temp) e in
    let found : emptied_by (find_nothing s i fd temp) i ≡ (i, fd) ∷ [] =
      calls_of-own (λ (x : ℕ × ℕ). x.0) s.emptied (i, fd)
      ∙ ap (λ ms. ms ++ (i, fd) ∷ []) k.speaks.0 in
    step-Inv s (find_nothing s i fd temp) i (receiving fd temp) (finishing fd temp) inv e refl
      (record {
        pieces = k.pieces;
        holds = k.holds;
        speaks = (ap (map (λ (x : ℕ × ℕ). x.1)) found, k.speaks.1);
      })
      (λ j ne. (refl, refl, refl, calls_of-other (λ (x : ℕ × ℕ). x.0) j s.emptied (i, fd) ne))

pub tell-Inv :
    (s : System) (i fd : ℕ) (temp : List ℕ) (r : Option ℕ)
    → Inv s
    → get_elem? s.tasks i ≡ some (finishing fd temp)
    → Inv (tell s i fd temp r)
unfolding tell
tell-Inv s i fd temp r inv e =
    let k = inv.each i (finishing fd temp) e in
    let m : Sent = record {
      thread = i;
      fd = fd;
      client = s.table fd;
      bytes = temp ++ 0 ∷ [];
      result = r;
    } in
    let said : told_by (tell s i fd temp r) i ≡ m ∷ [] =
      calls_of-own (λ (x : Sent). x.thread) s.told m ∙ ap (λ ms. ms ++ m ∷ []) k.speaks.1 in
    step-Inv s (tell s i fd temp r) i (finishing fd temp) ended inv e refl
      (record {
        pieces = k.pieces;
        holds = tt;
        speaks =
            one_told (emptied_by s i) fd temp (capital_text (heard_by s i)) m
              (told_by (tell s i fd temp r) i) refl k.speaks.0 said k.holds;
      })
      (λ j ne. (refl, refl, calls_of-other (λ (x : Sent). x.thread) j s.told m ne, refl))

get_elem?-append :
    {A : Type 0} (xs ys : List A) (j : ℕ) (r : A)
    → get_elem? (xs ++ ys) j ≡ some r
    → (get_elem? xs j ≡ some r) ⊎ ((length xs ≤ j) × ((k : ℕ) × (get_elem? ys k ≡ some r)))
get_elem?-append [] ys j r e = inr (omega arith, (j, e))
get_elem?-append (x ∷ xs) ys zero r e = inl e
get_elem?-append (x ∷ xs) ys (suc j) r e = elim (get_elem?-append xs ys j r e) [
  | inl f ↦ inl f
  | inr (le, f) ↦ inr (omega arith, f)
]

-- A new thread stands at its first call.
start_thread-cases :
    (lfd : ℕ) (evs : List ℕ) (k : ℕ) (r : Task)
    → get_elem? (map (start_thread lfd) evs) k ≡ some r
    → (r ≡ accepting) ⊎ ((fd : ℕ) × (r ≡ receiving fd []))
unfolding start_thread
start_thread-cases lfd [] k r e = absurd (grind arith)
start_thread-cases lfd (c ∷ evs) zero r e =
    let is : start_thread lfd c ≡ r = cc in
    elim (Bool-cases (c == lfd)) [
      | inl f ↦ inl (sym is ∙ rw (f, start_thread) refl)
      | inr f ↦ inr (c, sym is ∙ rw (f, start_thread) refl)
    ]
start_thread-cases lfd (c ∷ evs) (suc k) r e = start_thread-cases lfd evs k r e

new-Kept :
    (s : System) (j : ℕ) (r : Task)
    → Silent s j
    → (r ≡ accepting) ⊎ ((fd : ℕ) × (r ≡ receiving fd []))
    → Kept s j r
unfolding capital_text
new-Kept s j r (h, g, o, m) (inl e) = subst (Kept s j) (sym e) (record {
  pieces = ap (map in_capitals) h ∙ ap (λ ms. map given ms ++ []) (sym g);
  holds = tt;
  speaks = (m, o);
})
new-Kept s j r (h, g, o, m) (inr (fd, e)) = subst (Kept s j) (sym e) (record {
  pieces = ap (map in_capitals) h ∙ ap (λ ms. map given ms ++ []) (sym g);
  holds = ap capital_text (sym h);
  speaks = (m, o);
})

pub spawn-Inv : (s : System) (lfd : ℕ) (evs : List ℕ) → Inv s → Inv (spawn lfd evs s)
unfolding spawn
spawn-Inv s lfd evs inv =
    let new : List Task = map (start_thread lfd) evs in
    let t = spawn lfd evs s in
    record {
      each = λ j r e. elim (get_elem?-append s.tasks new j r e) [
        | inl f ↦ Kept-Still s t j r (refl, refl, refl, refl) (inv.each j r f)
        | inr (le, (k, f)) ↦ new-Kept t j r (inv.none_yet j le) (start_thread-cases lfd evs k r f)
      ];
      none_yet = λ j le. inv.none_yet j (omega (arith, length-append s.tasks new));
    }
