-- ===== src/Counter/Total/Runs.antt =====
-- The runs of Thread/counter.c from its start.
use network_communications.Prelude.{
  ℕ, ◌+◌, ◌*◌, ◌≤◌, ◌<◌, true, false, some, get_elem?, ◌≡◌, ◌⊎◌, inl, inr, refl, ap, arith, sum_by,
  sum_by-find, sum_by_le, subst, zero, suc, [], ◌∷◌, ℕ_discrete, Bool-cases,
}
use network_communications.Counter.{rounds, Pc, System, init, enabled, Reach, here, next, test}
use network_communications.Counter.Total.{inside, to_add, to_go, Knows, bit, Inv, advance-Inv}

at_start : (k : ℕ) (pc : Pc) → get_elem? (test 0 ∷ test 0 ∷ []) k ≡ some pc → Knows 0 pc
at_start zero pc e = let is : test 0 ≡ pc = cc in subst (Knows 0) is (omega arith)
at_start (suc zero) pc e = let is : test 0 ≡ pc = cc in subst (Knows 0) is (omega arith)
at_start (suc (suc k)) pc e = absurd (grind arith)

init-Inv : Inv 0 init
unfolding init sum_by
init-Inv = record { held = refl; total = refl; steps = refl; knows = λ k pc e. at_start k pc e }

Reach-Inv : {n : ℕ} {s : System} → Reach init n s → Inv n s
Reach-Inv here = init-Inv
Reach-Inv (next k pc r e h) = advance-Inv (Reach-Inv r) k pc e h

-- In every state: what the number has still to gain is what the threads have still to add, up to
-- 100. No increment is lost.
pub none_missing :
    {n : ℕ} {s : System} → Reach init n s → s.number + sum_by to_add s.threads ≡ 2 * rounds
none_missing r = (Reach-Inv r).total

inside_free : (s : System) (pc : Pc) → 0 < inside pc → enabled s pc ≡ true
unfolding enabled
inside_free s pc h = ground arith

going_free : (s : System) (pc : Pc) → s.locked ≡ false → 0 < to_go pc → enabled s pc ≡ true
unfolding enabled
going_free s pc free h = ground arith

add_le : (pc : Pc) → to_add pc ≤ to_go pc
add_le pc = ground arith

-- A run has at most 502 steps, whatever the order of the threads, and where no thread can go on the
-- number is 100.
pub ends_at_hundred :
    {n : ℕ} {s : System}
    → Reach init n s
    → (n ≤ 502)
      × (((k : ℕ) × (pc : Pc) × (get_elem? s.threads k ≡ some pc) × (enabled s pc ≡ true))
          ⊎ (s.number ≡ 2 * rounds))
ends_at_hundred {n} {s} r =
    let inv = Reach-Inv r in
    (
      omega (arith, inv.steps),
      elim (Bool-cases s.locked) [
        | inl locked ↦
            let (k, pc, e, h) =
              sum_by-find inside s.threads (omega (arith, inv.held, ap bit locked)) in
            inl (k, pc, e, inside_free s pc h)
        | inr free ↦ elim (ℕ_discrete (sum_by to_go s.threads) 0) [
          | no going ↦
              let (k, pc, e, h) = sum_by-find to_go s.threads (omega arith) in
              inl (k, pc, e, going_free s pc free h)
          | yes over ↦ inr (omega (arith, inv.total, sum_by_le to_add to_go add_le s.threads))
        ]
      ],
    )
