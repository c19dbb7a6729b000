-- ===== src/RwLock/Total/Runs.antt =====
-- The runs of Thread/read_write_lock.c from its start.
use network_communications.Prelude.{
  ℕ, ◌+◌, ◌*◌, some, get_elem?, ◌≡◌, refl, arith, sum_by, le-sum_by, others_zero, ℕ_discrete,
  replicate, each-append, each-replicate, ◌⊎◌, inl, inr,
}
use network_communications.RwLock.{rounds, Pc, r_lock, w_test, System, init, Reach, here, next}
use network_communications.RwLock.Total.{
  writes, reads, to_add, Knows, Inv, bit, bit_le, advance-Inv,
}

init-Inv : Inv init
unfolding init sum_by
init-Inv = record {
  writers = refl;
  readers = refl;
  apart = λ o. refl;
  total = refl;
  knows =
      each-append (Knows 0) (replicate 3 (w_test 0)) (replicate 5 r_lock)
        (each-replicate (Knows 0) 3 (w_test 0) (omega arith))
        (each-replicate (Knows 0) 5 r_lock tt);
}

Reach-Inv : {s : System} → Reach init s → Inv s
Reach-Inv here = init-Inv
Reach-Inv (next k pc r e h) = advance-Inv (Reach-Inv r) k pc e h

-- In every state: what the number has still to gain is what the writers have still to add, up to
-- 150. No increment is lost.
pub no_write_lost : {s : System} → Reach init s → s.number + sum_by to_add s.threads ≡ 3 * rounds
no_write_lost r = (Reach-Inv r).total

-- In every state: while a writer is between its lock and its unlock, no reader is, and no other
-- writer.
pub writers_alone :
    {s : System}
    → Reach init s
    → (i j : ℕ) (p q : Pc) → get_elem? s.threads i ≡ some p
    → get_elem? s.threads j ≡ some q
    → writes p ≡ 1
    → (reads q ≡ 0) × ((i ≡ j) ⊎ (writes q ≡ 0))
writers_alone {s} r i j p q e f w =
    let inv = Reach-Inv r in
    let busy : bit s.writing ≡ 1 =
      omega (arith, inv.writers, bit_le s.writing, le-sum_by writes s.threads i p e) in
    (
      omega (arith, inv.readers, inv.apart busy, le-sum_by reads s.threads j q f),
      elim (ℕ_discrete i j) [
        | yes same ↦ inl same
        | no other ↦
            inr
              (others_zero writes s.threads i j p q e f other w (omega (arith, inv.writers, busy)))
      ],
    )

-- In every state: the number of rounds that a writer has behind it is in range, and what a thread
-- has read and uses before its unlock is not out of date.
pub reads_current :
    {s : System}
    → Reach init s
    → (i : ℕ) (p : Pc) → get_elem? s.threads i ≡ some p
    → Knows s.number p
reads_current r = (Reach-Inv r).knows
