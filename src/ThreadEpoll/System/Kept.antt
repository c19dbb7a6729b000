-- ===== src/ThreadEpoll/System/Kept.antt =====
-- What a thread of IO_mulit_way/thread_epoll_server.c has done with the pieces that it has received, kept
-- by each of its steps.
use network_communications.Prelude.{
  ℕ, ◌≤◌, List, [], ◌++◌, some, map, get_elem?, set, length, length-set, ◌≡◌, ◌≢◌, sym, ap, subst,
  ◌∙◌, arith, lt_of_get_elem?, get_elem?-set_self, get_elem?-set_ne, ℕ_discrete,
}
use network_communications.ThreadEpoll.System.{Task, Sent, System}
use network_communications.ThreadEpoll.System.Calls.{
  heard_by, sent_by, told_by, emptied_by, in_capitals, given, capital_text, pending, Holds, Tells,
}

pub record Kept (s : System) (i : ℕ) (task : Task) : Type 0 where
  pub pieces : map in_capitals (heard_by s i) ≡ map given (sent_by s i) ++ pending task
  pub holds : Holds task (capital_text (heard_by s i))
  pub speaks : Tells task (emptied_by s i) (told_by s i) (capital_text (heard_by s i))

-- Nothing of what thread `i` did has changed.
abbrev pub Still : ℕ → System → System → Type 0
Still i s t =
    (heard_by t i ≡ heard_by s i)
    × (sent_by t i ≡ sent_by s i)
    × (told_by t i ≡ told_by s i)
    × (emptied_by t i ≡ emptied_by s i)

abbrev pub Silent : System → ℕ → Type 0
Silent s i = (heard_by s i ≡ []) × (sent_by s i ≡ []) × (told_by s i ≡ []) × (emptied_by s i ≡ [])

pub record Inv (s : System) : Type 0 where
  pub each : (i : ℕ) (task : Task) → get_elem? s.tasks i ≡ some task → Kept s i task
  pub none_yet : (i : ℕ) → length s.tasks ≤ i → Silent s i

pub Kept-Still : (s t : System) (i : ℕ) (task : Task) → Still i s t → Kept s i task → Kept t i task
Kept-Still s t i task (h, g, o, m) k = record {
  pieces = rw (h, g) k.pieces;
  holds = rw h k.holds;
  speaks = rw (h, o, m) k.speaks;
}

-- Thread `i` makes a step, and the others have done what they had done.
pub step-Inv :
    (s t : System) (i : ℕ) (p q : Task)
    → Inv s
    → get_elem? s.tasks i ≡ some p
    → t.tasks ≡ set s.tasks i q
    → Kept t i q
    → ((j : ℕ) → j ≢ i → Still j s t)
    → Inv t
step-Inv s t i p q inv e moved own others = record {
  each = λ j r f.
      let g : get_elem? (set s.tasks i q) j ≡ some r = ap (λ ts. get_elem? ts j) (sym moved) ∙ f in
      elim (ℕ_discrete j i) [
        | yes same ↦
            let hit : get_elem? (set s.tasks i q) i ≡ some q =
              get_elem?-set_self s.tasks i q (lt_of_get_elem? s.tasks i e) in
            let found : get_elem? (set s.tasks i q) i ≡ some r =
              subst (λ k. get_elem? (set s.tasks i q) k ≡ some r) same g in
            let is : q ≡ r = cc in subst (λ k. Kept t k r) (sym same) (subst (Kept t i) is own)
        | no other ↦
            Kept-Still s t j r (others j other)
              (inv.each j r (sym (get_elem?-set_ne s.tasks i j q (λ k. other (sym k))) ∙ g))
      ];
  none_yet = λ j le.
      let long : length t.tasks ≡ length s.tasks = ap length moved ∙ length-set s.tasks i q in
      let off : j ≢ i = λ k. absurd (omega (arith, k, lt_of_get_elem? s.tasks i e)) in
      let (h, g, o, m) = others j off in
      let (h0, g0, o0, m0) = inv.none_yet j (omega arith) in (h ∙ h0, g ∙ g0, o ∙ o0, m ∙ m0);
}

-- A step of thread `i` that calls neither `recv` with success nor `send`.
pub plain-Inv :
    (s t : System) (i : ℕ) (p q : Task)
    → Inv s
    → get_elem? s.tasks i ≡ some p
    → t.tasks ≡ set s.tasks i q
    → ((j : ℕ) → Still j s t)
    → pending q ≡ pending p
    → ((xs : List ℕ) → Holds p xs → Holds q xs)
    → ((emptied : List (ℕ × ℕ)) (told : List Sent) (xs : List ℕ)
        → Tells p emptied told xs
        → Tells q emptied told xs)
    → Inv t
plain-Inv s t i p q inv e moved still same holds speaks =
    let k = inv.each i p e in
    step-Inv s t i p q inv e moved
      (Kept-Still s t i q (still i) (record {
        pieces = k.pieces ∙ ap (λ ms. map given (sent_by s i) ++ ms) (sym same);
        holds = holds (capital_text (heard_by s i)) k.holds;
        speaks = speaks (emptied_by s i) (told_by s i) (capital_text (heard_by s i)) k.speaks;
      }))
      (λ j ne. still j)
