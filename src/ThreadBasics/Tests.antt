-- ===== src/ThreadBasics/Tests.antt =====
-- Runs of Thread/pthread.c.
use network_communications.Prelude.{ℕ, zero, suc, [], ◌∷◌, some, ◌≡◌, ◌≢◌, refl}
use network_communications.ThreadBasics.{
  Person, looping, left, faulted, exited, System, init, write, work, main_step, works, mains, Reach,
  here, next, work_times,
}
use network_communications.ThreadBasics.Lifetime.{AllWritten, all_written, late_worker_faults}

abbrev blank : Person
blank = record { id = 0; name = []; age = 0 }

work_times-Reach : (n : ℕ) (s : System) → Reach blank s → Reach blank (work_times n s)
unfolding work_times
work_times-Reach zero s r = r
work_times-Reach (suc n) s r = work_times-Reach n (work s s.worker) (next r works)

-- The thread is faster than `main`.
abbrev fast : System
fast = work_times 8 (init blank)

fast-Reach : Reach blank fast
fast-Reach = work_times-Reach 8 (init blank) here

abbrev tom : Person
tom = record { id = 100; name = b't' ∷ b'o' ∷ b'm' ∷ 0 ∷ []; age = 12 }

fast_person : fast.person ≡ some tom
unfolding work_times write init
fast_person = refl

fast_left : fast.worker ≡ left
unfolding work_times write init
fast_left = refl

all_written_example : AllWritten tom × (fast.main ≢ exited)
all_written_example = all_written fast-Reach fast_person fast_left

-- `main` ends when the thread has made a round of its loop.
abbrev late : System
late =
    main_step (main_step (work_times 1 (init blank)) (work_times 1 (init blank)).main)
      (main_step (work_times 1 (init blank)) (work_times 1 (init blank)).main).main

late-Reach : Reach blank late
late-Reach = next (next (work_times-Reach 1 (init blank) here) mains) mains

late_exited : late.main ≡ exited
unfolding work_times write init main_step
late_exited = refl

late_looping : late.worker ≡ looping 1
unfolding work_times write init main_step
late_looping = refl

late_worker_faults_example : (work_times 4 late).worker ≡ faulted
late_worker_faults_example = late_worker_faults late-Reach late_exited 1 late_looping
