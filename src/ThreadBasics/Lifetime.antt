-- ===== src/ThreadBasics/Lifetime.antt =====
-- When the thread of Thread/pthread.c uses the variable of `main`.
use network_communications.Prelude.{
  ℕ, zero, suc, ◌+◌, ◌-◌, ◌≤◌, ◌<◌, List, [], ◌∷◌, none, some, Option, true, false, ltb, ◌==◌,
  if◌then◌else◌, ◌≡◌, ◌≢◌, refl, sym, ap, subst, ◌∙◌, arith, inl, inr, Bool-cases,
}
use network_communications.ThreadBasics.{
  Person, Worker, looping, setting_age, naming, setting_id, leaving, behind, left, returned,
  faulted, Main, detaching, exiting, exited, System, init, write, work, main_step, works, mains,
  Reach, here, next, work_times,
}

-- "tom" with its '\0', and what was in the array behind.
abbrev pub IsTom : List ℕ → Type 0
IsTom name = (rest : List ℕ) × (name ≡ b't' ∷ b'o' ∷ b'm' ∷ 0 ∷ rest)

abbrev pub AllWritten : Person → Type 0
AllWritten p = (p.age ≡ 12) × IsTom p.name × (p.id ≡ 100)

-- What the thread has written, where it stands and `p` is there.
abbrev Written : Worker → Person → Type 0
Written (looping i) p = i ≤ 3
Written setting_age p = Unit
Written naming p = p.age ≡ 12
Written setting_id p = (p.age ≡ 12) × IsTom p.name
Written leaving p = AllWritten p
Written behind p = ⊥
Written left p = AllWritten p
Written returned p = ⊥
Written faulted p = ⊥

-- The same without `p`: the thread does not come behind its loop.
abbrev Lost : Worker → Type 0
Lost (looping i) = i ≤ 3
Lost behind = ⊥
Lost returned = ⊥
Lost w = Unit

abbrev Fine : Worker → Option Person → Main → Type 0
Fine w (some p) m = Written w p × (m ≢ exited)
Fine w none m = Lost w × (m ≡ exited)

Written-Lost : (w : Worker) (p : Person) → Written w p → Lost w
Written-Lost (looping i) p h = h
Written-Lost setting_age p h = tt
Written-Lost naming p h = tt
Written-Lost setting_id p h = tt
Written-Lost leaving p h = tt
Written-Lost behind p h = h
Written-Lost left p h = tt
Written-Lost returned p h = h
Written-Lost faulted p h = tt

loop-Written :
    (i : ℕ) (p : Person)
    → i ≤ 3
    → Written (if ltb i 5 then (if i == 3 then setting_age else looping (suc i)) else behind) p
loop-Written i p h = elim (Bool-cases (ltb i 5)) [
  | inl e ↦ elim (Bool-cases (i == 3)) [ inl f ↦ rw (e, f) tt | inr f ↦ rw (e, f) (ground arith) ]
  | inr e ↦ absurd (ground arith)
]

-- The thread's step, where `p` is there and where it is not.
work-Fine :
    (w : Worker) (o : Option Person) (m : Main)
    → Fine w o m
    → let t = work (record { person = o; worker = w; main = m }) w in Fine t.worker t.person t.main
unfolding work write
work-Fine (looping i) (some p) m h = (loop-Written i p h.0, h.1)
work-Fine (looping i) none m h =
    (Written-Lost _ (record { id = 0; name = []; age = 0 }) (loop-Written i _ h.0), h.1)
work-Fine setting_age (some p) m h = (refl, h.1)
work-Fine naming (some p) m h = ((h.0, (_, refl)), h.1)
work-Fine setting_id (some p) m h = ((h.0.0, h.0.1, refl), h.1)
work-Fine leaving (some p) m h = h
work-Fine behind (some p) m h = absurd h.0
work-Fine left (some p) m h = h
work-Fine returned (some p) m h = absurd h.0
work-Fine faulted (some p) m h = absurd h.0
work-Fine setting_age none m h = (tt, h.1)
work-Fine naming none m h = (tt, h.1)
work-Fine setting_id none m h = (tt, h.1)
work-Fine leaving none m h = (tt, h.1)
work-Fine behind none m h = absurd h.0
work-Fine left none m h = (tt, h.1)
work-Fine returned none m h = absurd h.0
work-Fine faulted none m h = (tt, h.1)

main_step-Fine :
    (w : Worker) (o : Option Person) (m : Main)
    → Fine w o m
    → let t = main_step (record { person = o; worker = w; main = m }) m in
      Fine t.worker t.person t.main
unfolding main_step
main_step-Fine w (some p) detaching h = (h.0, (λ e. cc))
main_step-Fine w (some p) exiting h = (Written-Lost w p h.0, refl)
main_step-Fine w (some p) exited h = absurd (h.1 refl)
main_step-Fine w none detaching h = absurd (ground (arith, h.1))
main_step-Fine w none exiting h = absurd (ground (arith, h.1))
main_step-Fine w none exited h = h

Reach-Fine : {p : Person} {s : System} → Reach p s → Fine s.worker s.person s.main
unfolding init
Reach-Fine here = (omega arith, (λ e. ground arith))
Reach-Fine (next {s = s} r works) = work-Fine s.worker s.person s.main (Reach-Fine r)
Reach-Fine (next {s = s} r mains) = main_step-Fine s.worker s.person s.main (Reach-Fine r)

Fine-gone :
    (w : Worker) (o : Option Person) (m : Main) → Fine w o m → m ≡ exited → (o ≡ none) × Lost w
Fine-gone w (some p) m h e = absurd (h.1 e)
Fine-gone w none m h e = (refl, h.0)

Fine-there :
    (w : Worker) (o : Option Person) (m : Main) (p : Person)
    → Fine w o m
    → o ≡ some p
    → (Written w p) × (m ≢ exited)
Fine-there w (some q) m p h e = let same : q ≡ p = cc in (subst (Written w) same h.0, h.1)
Fine-there w none m p h e = absurd (ground (arith, e))

-- In every state in which `p` is still there and the thread has ended: it has written all three fields,
-- and `main` has not ended.
pub all_written :
    {start p : Person} {s : System}
    → Reach start s
    → s.person ≡ some p
    → s.worker ≡ left
    → AllWritten p × (s.main ≢ exited)
all_written {p = p} {s = s} r there e =
    let (written, alive) = Fine-there s.worker s.person s.main p (Reach-Fine r) there in
    (subst (λ w. Written w p) e written, alive)

goes_on :
    (s : System) (i : ℕ)
    → i < 3
    → s.worker ≡ looping i
    → work s s.worker ≡ record s { worker = looping (suc i) }
unfolding work
goes_on s i h at =
    let test : ltb i 5 ≡ true = ground arith in
    let other : (i == 3) ≡ false = ground arith in ap (work s) at ∙ rw (test, other, work) refl

writes_next :
    (s : System) → s.worker ≡ looping 3 → work s s.worker ≡ record s { worker = setting_age }
unfolding work
writes_next s at = ap (work s) at

faults :
    (s : System)
    → s.person ≡ none
    → (work (record s { worker = setting_age }) setting_age).worker ≡ faulted
unfolding work write
faults s gone = rw (gone, write) refl

to_fault :
    (k i : ℕ) (s : System)
    → i + k ≡ 3
    → s.worker ≡ looping i
    → s.person ≡ none
    → (work_times (suc (suc k)) s).worker ≡ faulted
unfolding work_times
to_fault zero i s e at gone =
    let last : i ≡ 3 = omega arith in
    ap (λ (t : System). (work t t.worker).worker) (writes_next s (at ∙ ap looping last))
    ∙ faults s gone
to_fault (suc k) i s e at gone =
    ap (λ t. (work_times (suc (suc k)) t).worker) (goes_on s i (omega arith) at)
    ∙ to_fault k (suc i) (record s { worker = looping (suc i) }) (omega arith) refl gone

-- In every state in which `main` has ended and the thread is still in its loop: by itself it accesses
-- `p` within `5 - i` steps, and `p` is not there any more.
pub late_worker_faults :
    {start : Person} {s : System}
    → Reach start s
    → s.main ≡ exited
    → (i : ℕ) → s.worker ≡ looping i
    → (work_times (5 - i) s).worker ≡ faulted
late_worker_faults {s = s} r over i at =
    let (gone, lost) = Fine-gone s.worker s.person s.main (Reach-Fine r) over in
    let low : i ≤ 3 = subst Lost at lost in
    let steps : suc (suc (3 - i)) ≡ 5 - i = omega arith in
    ap (λ n. (work_times n s).worker) (sym steps) ∙ to_fault (3 - i) i s (omega arith) at gone
