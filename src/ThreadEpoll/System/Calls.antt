-- ===== src/ThreadEpoll/System/Calls.antt =====
-- The calls of `recv` and `send` that a thread of IO_mulit_way/thread_epoll_server.c has made.
use network_communications.Prelude.{
  ℕ, List, [], ◌∷◌, ◌++◌, map, ◌==◌, if◌then◌else◌, length, ◌≤◌, ◌≡◌, ◌≢◌, refl, sym, ap, ◌∙◌,
  arith, inl, inr, Bool-cases, append-nil, append_assoc,
}
use network_communications.CText.{to_upper}
use network_communications.ThreadEpoll.{until_nul}
use network_communications.ThreadEpoll.System.{
  Task, receiving, sending, finishing, ended, faulted, Receipt, Sent, System,
}

-- The calls of thread `i`, in order.
module _ {A : Type 0} (thread : A → ℕ) where
  unfoldable pub calls_of : ℕ → List A → List A
  calls_of i [] = []
  calls_of i (m ∷ ms) = if thread m == i then m ∷ calls_of i ms else calls_of i ms

  pub calls_of-append :
      (i : ℕ) (ms ns : List A) → calls_of i (ms ++ ns) ≡ calls_of i ms ++ calls_of i ns
  unfolding calls_of
  calls_of-append i [] ns = refl
  calls_of-append i (m ∷ ms) ns = elim (Bool-cases (thread m == i)) [
    | inl e ↦ rw (e, calls_of) (ap (◌∷◌ m) (calls_of-append i ms ns))
    | inr e ↦ rw (e, calls_of) (calls_of-append i ms ns)
  ]

  pub calls_of-own :
      (ms : List A) (m : A) → calls_of (thread m) (ms ++ m ∷ []) ≡ calls_of (thread m) ms ++ m ∷ []
  unfolding calls_of
  calls_of-own ms m =
      calls_of-append (thread m) ms (m ∷ [])
      ∙ ap (λ ns. calls_of (thread m) ms ++ ns) (ground arith)

  pub calls_of-other :
      (i : ℕ) (ms : List A) (m : A) → i ≢ thread m → calls_of i (ms ++ m ∷ []) ≡ calls_of i ms
  unfolding calls_of
  calls_of-other i ms m ne =
      calls_of-append i ms (m ∷ [])
      ∙ ap (λ ns. calls_of i ms ++ ns) (ground arith)
      ∙ append-nil (calls_of i ms)

abbrev pub heard_by : System → ℕ → List Receipt
heard_by s i = calls_of (λ (m : Receipt). m.thread) i s.received

abbrev pub sent_by : System → ℕ → List Sent
sent_by s i = calls_of (λ (m : Sent). m.thread) i s.sent

abbrev pub told_by : System → ℕ → List Sent
told_by s i = calls_of (λ (m : Sent). m.thread) i s.told

-- The EAGAINs of a thread.
abbrev pub emptied_by : System → ℕ → List (ℕ × ℕ)
emptied_by s i = calls_of (λ (k : ℕ × ℕ). k.0) i s.emptied

-- A piece that was received, in capitals, and what was given to `send`, each with its descriptor.
abbrev pub in_capitals : Receipt → ℕ × List ℕ
in_capitals m = (m.fd, map to_upper m.bytes)

abbrev pub given : Sent → ℕ × List ℕ
given m = (m.fd, m.bytes)

-- The pieces in capitals, each up to its first 0.
unfoldable pub capital_text : List Receipt → List ℕ
capital_text [] = []
capital_text (m ∷ ms) = until_nul (map to_upper m.bytes) ++ capital_text ms

pub capital_text-append :
    (ms ns : List Receipt) → capital_text (ms ++ ns) ≡ capital_text ms ++ capital_text ns
unfolding capital_text
capital_text-append [] ns = refl
capital_text-append (m ∷ ms) ns =
    ap (λ xs. until_nul (map to_upper m.bytes) ++ xs) (capital_text-append ms ns)
    ∙ sym (append_assoc (until_nul (map to_upper m.bytes)) (capital_text ms) (capital_text ns))

pub capital_text-one :
    (ms : List Receipt) (m : Receipt)
    → capital_text (ms ++ m ∷ []) ≡ capital_text ms ++ until_nul (map to_upper m.bytes)
unfolding capital_text
capital_text-one ms m =
    capital_text-append ms (m ∷ [])
    ∙ ap (λ xs. capital_text ms ++ xs) (append-nil (until_nul (map to_upper m.bytes)))

-- The piece that a thread has received and not sent.
abbrev pub pending : Task → List (ℕ × List ℕ)
pending (sending fd buf temp) = (fd, buf) ∷ []
pending (faulted fd buf) = (fd, buf) ∷ []
pending _ = []

-- What the buffer `temp` of a thread holds.
abbrev pub Holds : Task → List ℕ → Type 0
Holds (receiving fd temp) xs = temp ≡ xs
Holds (sending fd buf temp) xs = temp ≡ xs
Holds (finishing fd temp) xs = temp ≡ xs
Holds _ xs = Unit

-- The text of `temp`, and a 0, on the descriptor of an EAGAIN.
abbrev pub whole_text : List ℕ → ℕ × ℕ → ℕ × List ℕ
whole_text xs k = (k.1, xs ++ 0 ∷ [])

-- What a thread has sent of `temp`, whose text is `xs`, where `emptied` are the EAGAINs that it has got:
-- nothing up to its end; and then all of it and a 0 for each EAGAIN, of which there is one at most.
abbrev pub Tells : Task → List (ℕ × ℕ) → List Sent → List ℕ → Type 0
Tells ended emptied told xs = (map given told ≡ map (whole_text xs) emptied) × (length emptied ≤ 1)
Tells (finishing fd temp) emptied told xs =
    (map (λ (k : ℕ × ℕ). k.1) emptied ≡ fd ∷ []) × (told ≡ [])
Tells _ emptied told xs = (emptied ≡ []) × (told ≡ [])
