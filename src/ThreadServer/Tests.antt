-- ===== src/ThreadServer/Tests.antt =====
-- The server of IO_mulit_way/thread_server.c with 3 for its listening socket, and a client on 4.
use network_communications.Prelude.{
  zero, suc, ◌||◌, ℕ, ◌≤◌, true, false, none, some, get_elem?, ◌==◌, ◌≡◌, ◌≢◌, ◌⊎◌, refl,
}
use network_communications.SelectServer.{fd_insert}
use network_communications.ThreadServer.{
  leaving, closing, System, init, main_step, move, hangs_up, finds_end, clears, closes, accept_conn,
  watch, clear, close, mains, accepts, watches, Reach, here, next,
}
use network_communications.ThreadServer.Listening.{stays_listening}

-- A connection has been asked for, and the thread has accepted it.
abbrev asked : System
asked = main_step 3 (λ k. true) (main_step 3 (λ k. true) (init 3))

abbrev served : System
served = watch (accept_conn asked 0 4) 0 4

served-Reach : Reach 3 served
unfolding init main_step accept_conn
served-Reach =
    next
      (next (next (next here (mains (λ k. true))) (mains (λ k. true))) (accepts 0 4 refl refl refl))
      (watches 0 4 refl)

stays_listening_example :
    (served.rdset 3 ≡ true)
    × ((k : ℕ) → served.rdset k ≡ true → k ≤ served.maxfd)
    × ((i fd : ℕ)
        → (get_elem? served.tasks i ≡ some (leaving fd))
          ⊎ (get_elem? served.tasks i ≡ some (closing fd))
        → fd ≢ 3)
stays_listening_example = stays_listening served-Reach

watches_both : (served.rdset 3 ≡ true) × (served.rdset 4 ≡ true) × (served.maxfd ≡ 4)
unfolding init main_step accept_conn watch fd_insert
watches_both = (refl, refl, refl)

-- `main` takes some steps, and finds all descriptors ready.
abbrev main_times : ℕ → System → System
main_times zero s = s
main_times (suc n) s = main_times n (main_step 3 (λ k. true) s)

main_times-Reach : (n : ℕ) (s : System) → Reach 3 s → Reach 3 (main_times n s)
main_times-Reach zero s r = r
main_times-Reach (suc n) s r =
    main_times-Reach n (main_step 3 (λ k. true) s) (next r (mains (λ k. true)))

-- The client closes; before a thread has read that, `main` has started two of them for it, 2 and 4, and
-- two others to accept, 1 and 3.
abbrev two_threads : System
two_threads =
    main_times 13
      (record (main_times 8 served) { hung_up = λ k. k == 0 || (main_times 8 served).hung_up k })

-- Both have read the end of the stream, and 2 has closed the descriptor, which the next client gets.
abbrev both_leave : System
both_leave = move (move two_threads 2 (leaving 4)) 4 (leaving 4)

abbrev reused : System
reused = watch (accept_conn (close (clear both_leave 2 4) 2 4) 1 4) 1 4

abbrev closed_again : System
closed_again = close (clear reused 4 4) 4 4

closed_again-Reach : Reach 3 closed_again
unfolding init main_step accept_conn watch fd_insert clear close
closed_again-Reach =
    let two = main_times-Reach 13 _ (next (main_times-Reach 8 served served-Reach) (hangs_up 0)) in
    let both = next (next two (finds_end 2 4 0 refl refl refl)) (finds_end 4 4 0 refl refl refl) in
    let again =
      next
        (next (next (next both (clears 2 4 refl)) (closes 2 4 refl)) (accepts 1 4 refl refl refl))
        (watches 1 4 refl) in
    next (next again (clears 4 4 refl)) (closes 4 4 refl)

-- The second client's descriptor was open and in the set; thread 4 has taken it out and closed it,
-- though this client has not closed.
closes_other_client :
    (reused.table 4 ≡ some 1)
    × (reused.rdset 4 ≡ true)
    × (closed_again.table 4 ≡ none)
    × (closed_again.rdset 4 ≡ false)
    × (closed_again.hung_up 1 ≡ false)
unfolding init main_step accept_conn watch fd_insert clear close
closes_other_client = (refl, refl, refl, refl, refl)
