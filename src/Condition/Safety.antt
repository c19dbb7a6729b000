-- ===== src/Condition/Safety.antt =====
-- What Thread/pthread_cond.c promises, from its start on.
use network_communications.Prelude.{
  ℕ, ◌+◌, ◌<◌, true, List, [], some, get_elem?, ◌≡◌, ◌≢◌, ◌⊎◌, inl, inr, refl, subst, arith, sum_by,
  sum_by-find, le-sum_by, each-append, each-replicate, replicate,
}
use network_communications.Condition.{
  Pc, p_lock, c_lock, c_asleep, faulted, System, init, enabled, Reach, here, next,
}
use network_communications.Condition.Invariant.{Inv, asleep, pending, Knows}
use network_communications.Condition.Invariant.Steps.{advance-Inv}

init-Inv : Inv init
unfolding init sum_by
init-Inv = record {
  lock = refl;
  awake = inl refl;
  knows =
      each-append (Knows []) (replicate 5 p_lock) (replicate 5 c_lock)
        (each-replicate (Knows []) 5 p_lock tt) (each-replicate (Knows []) 5 c_lock tt);
  numbers = λ f. refl;
}

Reach-Inv : {s : System} → Reach init s → Inv s
Reach-Inv here = init-Inv
Reach-Inv (next k r pc reached e h) = advance-Inv (Reach-Inv reached) k r pc e h

Knows-ok : (h : List ℕ) (pc : Pc) → Knows h pc → pc ≢ faulted
Knows-ok h pc c is = subst (Knows h) is c

pending_free : (s : System) (pc : Pc) → 0 < pending pc → enabled s pc ≡ true
unfolding enabled
pending_free s pc h = ground arith

-- No wake-up is lost: in every state in which a consumer sleeps, the list is empty, or a producer
-- that is not blocked is on its way to the broadcast.
pub no_lost_wakeup :
    {s : System}
    → Reach init s
    → (k : ℕ) → get_elem? s.threads k ≡ some c_asleep
    → (s.head ≡ [])
      ⊎ ((j : ℕ) × (pc : Pc) × (get_elem? s.threads j ≡ some pc)
          × (0 < pending pc)
          × (enabled s pc ≡ true))
no_lost_wakeup {s} r k e = elim (Reach-Inv r).awake [
  | inl empty ↦ inl empty
  | inr (inl none) ↦ absurd (omega (arith, none, le-sum_by asleep s.threads k c_asleep e))
  | inr (inr some_pending) ↦
      let (j, pc, f, h) = sum_by-find pending s.threads some_pending in
      inr (j, pc, f, h, pending_free s pc h)
]

-- In every state: what a thread has read from `head` is still there when it uses it, a consumer
-- behind its test has a node, and none has read through NULL.
pub node_there :
    {s : System}
    → Reach init s
    → (k : ℕ) (pc : Pc) → get_elem? s.threads k ≡ some pc
    → Knows s.head pc × (pc ≢ faulted)
node_there {s} r k pc e =
    let known = (Reach-Inv r).knows k pc e in (known, Knows-ok s.head pc known)

-- In every state the numbers ever stored in the list are, however numbers are weighed, those taken
-- out and those in it together: none is lost and none is taken twice.
pub nodes_kept :
    {s : System}
    → Reach init s
    → (f : ℕ → ℕ) → sum_by f s.produced ≡ sum_by f s.consumed + sum_by f s.head
nodes_kept r f = (Reach-Inv r).numbers f
