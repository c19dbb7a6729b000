-- ===== src/Condition/Invariant/Steps.antt =====
-- Each step of Thread/pthread_cond.c keeps the invariant.
use network_communications.Prelude.{
  ℕ, ◌%◌, List, [], ◌∷◌, some, get_elem?, length, ◌≡◌, inl, inr, refl, ap, arith, true, sum_by,
  sum_by-append, le-sum_by,
}
use network_communications.Condition.{
  Pc, p_lock, p_link, p_store, p_unlock, p_signal, c_lock, c_test, c_asleep, c_woken, c_load,
  c_take, c_unlock, faulted, System, enabled, move, test_head, advance,
}
use network_communications.Condition.Invariant.{
  Inv, inside, asleep, pending, bit, bit_le, not_locked, broadcast-Inv, moved-Inv, quiet-Inv,
  changed,
}

module _ {s : System} (inv : Inv s) (k r : ℕ) where
  locked_by : {pc : Pc} → get_elem? s.threads k ≡ some pc → inside pc ≡ 1 → bit s.locked ≡ 1
  locked_by {pc} e h = omega (arith, inv.lock, bit_le s.locked, le-sum_by inside s.threads k pc e)

  -- The producer's node is in the list, and its broadcast is to come.
  store-Inv :
      (n : ℕ) (tail : List ℕ)
      → get_elem? s.threads k ≡ some (p_store n tail)
      → Inv (advance s k r (p_store n tail))
  unfolding advance sum_by
  store-Inv n tail e =
      let same : tail ≡ s.head = inv.knows k _ e in
      moved-Inv inv k (p_store n tail) p_unlock e _ refl refl tt (inr refl)
        (inr (
          inr (
            omega (
              arith,
              changed inv k (p_store n tail) p_unlock e (advance s k r (p_store n tail)) refl refl
                  tt (inr refl) pending,
            ))))
        (λ f. omega (arith, ap (sum_by f) same, sum_by-append f s.produced (n ∷ []), inv.numbers f))

  -- The consumer takes a node out; there was one.
  take-Inv :
      (node : List ℕ)
      → get_elem? s.threads k ≡ some (c_take node)
      → Inv (advance s k r (c_take node))
  unfolding advance sum_by
  take-Inv [] e =
      let (same, some_node) = inv.knows k _ e in absurd (omega (arith, ap length same, some_node))
  take-Inv (n ∷ tail) e =
      let (same, some_node) = inv.knows k _ e in
      let others =
        changed inv k (c_take (n ∷ tail)) c_unlock e (advance s k r (c_take (n ∷ tail))) refl refl
          tt (inr refl) in
      moved-Inv inv k (c_take (n ∷ tail)) c_unlock e _ refl refl tt (inr refl)
        (elim inv.awake [
          | inl empty ↦ absurd (omega (arith, ap length empty, some_node))
          | inr (inl none) ↦ inr (inl (omega (arith, none, others asleep)))
          | inr (inr some_pending) ↦ inr (inr (omega (arith, some_pending, others pending)))
        ])
        (λ f. omega (arith, ap (sum_by f) same, sum_by-append f s.consumed (n ∷ []), inv.numbers f))

  -- The consumer falls asleep only where there is no node.
  test-Inv : (h : List ℕ) → get_elem? s.threads k ≡ some c_test → s.head ≡ h → Inv (test_head s k h)
  unfolding test_head
  test-Inv [] e same =
      moved-Inv inv k c_test c_asleep e _ refl (omega (arith, locked_by e refl)) tt (inl refl)
        (inl same) inv.numbers
  test-Inv (n ∷ tail) e same =
      quiet-Inv inv k c_test c_load e _ refl refl (omega (arith, ap length same)) (inl refl) refl
        refl refl (omega arith) (omega arith)

  pub advance-Inv :
      (pc : Pc) → get_elem? s.threads k ≡ some pc → enabled s pc ≡ true → Inv (advance s k r pc)
  unfolding advance enabled
  advance-Inv p_lock e h =
      let free = not_locked s.locked h in
      quiet-Inv inv k p_lock p_link e _ refl (omega arith) tt (inl refl) refl refl refl
        (omega arith) (omega arith)
  advance-Inv p_link e h =
      quiet-Inv inv k p_link (p_store (r % 1000) s.head) e _ refl refl refl (inl refl) refl refl
        refl (omega arith) (omega arith)
  advance-Inv (p_store n tail) e h = store-Inv n tail e
  advance-Inv p_unlock e h =
      quiet-Inv inv k p_unlock p_signal e _ refl (omega (arith, locked_by e refl)) tt (inl refl)
        refl refl refl (omega arith) (omega arith)
  advance-Inv p_signal e h =
      broadcast-Inv inv k p_signal p_lock e (move s k p_lock) refl refl tt (inl refl) inv.numbers
  advance-Inv c_lock e h =
      let free = not_locked s.locked h in
      quiet-Inv inv k c_lock c_test e _ refl (omega arith) tt (inl refl) refl refl refl
        (omega arith) (omega arith)
  advance-Inv c_test e h = test-Inv s.head e refl
  advance-Inv c_asleep e h =
      quiet-Inv inv k c_asleep c_woken e _ refl refl tt (inl refl) refl refl refl (omega arith)
        (omega arith)
  advance-Inv c_woken e h =
      let free = not_locked s.locked h in
      quiet-Inv inv k c_woken c_test e _ refl (omega arith) tt (inl refl) refl refl refl
        (omega arith) (omega arith)
  advance-Inv c_load e h =
      quiet-Inv inv k c_load (c_take s.head) e _ refl refl (refl, inv.knows k c_load e) (inl refl)
        refl refl refl (omega arith) (omega arith)
  advance-Inv (c_take node) e h = take-Inv node e
  advance-Inv c_unlock e h =
      quiet-Inv inv k c_unlock c_lock e _ refl (omega (arith, locked_by e refl)) tt (inl refl) refl
        refl refl (omega arith) (omega arith)
  advance-Inv faulted e h = absurd (inv.knows k faulted e)
