-- ===== src/ThreadBasics.antt =====
-- Thread/pthread.c: a thread that writes to a variable of `main`, and a `main` that does not wait for
-- it. Each access of the variable is a step. Output is left out, and so are the identifiers of threads.
pub mod Lifetime
mod Tests
use network_communications.Prelude.{
  ℕ, zero, suc, List, ◌∷◌, Option, none, some, drop, ltb, ◌==◌, if◌then◌else◌,
}

pub record Person : Type 0 where
  pub id : ℕ
  pub name : List ℕ
  pub age : ℕ

-- Where `working` stands: before the test of its loop with `i`; before each of the three writes;
-- before `pthread_exit(p)`; behind the loop; ended, by the one or the other; and after an access to
-- `p` when there is no `p` any more.
pub data Worker : Type 0 where
  looping : ℕ → Worker
  setting_age naming setting_id leaving behind left returned faulted : Worker

-- Where `main` stands: before `pthread_detach`, before `pthread_exit`, and behind it.
pub data Main : Type 0 where
  detaching exiting exited : Main

pub record System : Type 0 where
  -- The variable `p` of `main`, as long as `main` has not ended.
  pub person : Option Person
  pub worker : Worker
  pub main : Main

-- The thread has been created; `p` is what lies in the variable then.
unfoldable pub init : Person → System
init p = record { person = some p; worker = looping 0; main = detaching }

-- `strcpy(p->name, "tom")`
abbrev pub named_tom : List ℕ → List ℕ
named_tom name = b't' ∷ b'o' ∷ b'm' ∷ 0 ∷ drop 4 name

-- The write of `f` through `p`, and then `next`.
unfoldable pub write : System → (Person → Person) → Worker → System
write s f next = elim s.person [
  | none ↦ record s { worker = faulted }
  | some p ↦ record s { person = some (f p); worker = next }
]

-- The next step of `working`.
unfoldable pub work : System → Worker → System
unfolding write
work s (looping i) = record s {
  worker = if ltb i 5 then (if i == 3 then setting_age else looping (suc i)) else behind;
}
work s setting_age = write s (λ p. record p { age = 12 }) naming
work s naming = write s (λ p. record p { name = named_tom p.name }) setting_id
work s setting_id = write s (λ p. record p { id = 100 }) leaving
work s leaving = record s { worker = left }
work s behind = record s { worker = returned }
work s left = s
work s returned = s
work s faulted = s

-- The next step of `main`.
unfoldable pub main_step : System → Main → System
main_step s detaching = record s { main = exiting }
main_step s exiting = record s { main = exited; person = none }
main_step s exited = s

pub data Step (s : System) : System → Type 0 where
  works : Step s (work s s.worker)
  mains : Step s (main_step s s.main)

pub data Reach (p : Person) : System → Type 0 where
  here : Reach p (init p)
  next : {s t : System} → Reach p s → Step s t → Reach p t

-- The thread alone makes `n` steps.
unfoldable pub work_times : ℕ → System → System
unfolding work
work_times zero s = s
work_times (suc n) s = work_times n (work s s.worker)
