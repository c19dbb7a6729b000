-- ===== src/Semaphore/Invariant/Steps.antt =====
-- Each step of Thread/semaphore.c keeps the invariant.
use network_communications.Prelude.{
  ℕ, ◌+◌, Bool, true, not, ◌%◌, List, [], ◌∷◌, some, ◌≡◌, inl, inr, refl, ap, arith, length,
  get_elem?, set, sum_by, sum_by-append, le-sum_by, lt_of_ltb,
}
use network_communications.Semaphore.{
  Pc, p_wait, p_lock, p_link, p_store, p_unlock, p_post, c_wait, c_lock, c_load, c_take, c_unlock,
  c_post, faulted, System, enabled, advance,
}
use network_communications.Semaphore.Invariant.{
  Inv, inside, claim, stocked, producer, consumer, Current, bit, bit_le, Local-Inv,
}

not_locked : (b : Bool) → not b ≡ true → bit b ≡ 0
not_locked b h = ground arith

module _ {s : System} (inv : Inv s) (i r : ℕ) where
  store-Inv :
      (n : ℕ) (tail : List ℕ)
      → get_elem? s.threads i ≡ some (p_store n tail)
      → Inv (advance s i r (p_store n tail))
  unfolding advance sum_by
  store-Inv n tail e =
      let same : tail ≡ s.head = inv.current i _ e in
      Local-Inv inv i (p_store n tail) p_unlock e _ refl (record {
        lock_step = refl;
        permits_step = refl;
        nodes_step = omega (arith, ap length same);
        same_producer = refl;
        same_consumer = refl;
        own = tt;
        others = inr refl;
        numbers_step = λ f. omega (arith, ap (sum_by f) same, sum_by-append f s.produced (n ∷ []));
      })

  take-Inv :
      (node : List ℕ)
      → get_elem? s.threads i ≡ some (c_take node)
      → Inv (advance s i r (c_take node))
  unfolding advance sum_by
  take-Inv [] e =
      absurd
        (omega (arith, inv.nodes, ap length (inv.current i _ e), le-sum_by stocked s.threads i _ e))
  take-Inv (n ∷ tail) e =
      let same : n ∷ tail ≡ s.head = inv.current i _ e in
      Local-Inv inv i (c_take (n ∷ tail)) c_unlock e _ refl (record {
        lock_step = refl;
        permits_step = refl;
        nodes_step = omega (arith, ap length same);
        same_producer = refl;
        same_consumer = refl;
        own = tt;
        others = inr refl;
        numbers_step = λ f. omega (arith, ap (sum_by f) same, sum_by-append f s.consumed (n ∷ []));
      })

  -- A step that leaves the list alone.
  quiet-Inv :
      (pc pc' : Pc) (t : System)
      → get_elem? s.threads i ≡ some pc
      → t.threads ≡ set s.threads i pc'
      → t.head ≡ s.head
      → t.produced ≡ s.produced
      → t.consumed ≡ s.consumed
      → bit t.locked + inside pc ≡ bit s.locked + inside pc'
      → t.psem + t.csem + claim pc' ≡ s.psem + s.csem + claim pc
      → s.csem + stocked pc ≡ t.csem + stocked pc'
      → producer pc ≡ producer pc'
      → consumer pc ≡ consumer pc'
      → Current t.head pc'
      → Inv t
  quiet-Inv pc pc' t e moved head made used lock permits stock p c own =
      Local-Inv inv i pc pc' e t moved (record {
        lock_step = lock;
        permits_step = permits;
        nodes_step = omega (arith, ap length head, stock);
        same_producer = p;
        same_consumer = c;
        own = own;
        others = inl head;
        numbers_step =
            λ f. omega (arith, ap (sum_by f) head, ap (sum_by f) made, ap (sum_by f) used);
      })

  -- A thread with the mutex finds it locked.
  held : {pc : Pc} → get_elem? s.threads i ≡ some pc → inside pc ≡ 1 → 1 ≡ bit s.locked
  held {pc} e h = omega (arith, inv.lock, bit_le s.locked, le-sum_by inside s.threads i pc e)

  pub advance-Inv :
      (pc : Pc) → get_elem? s.threads i ≡ some pc → enabled s pc ≡ true → Inv (advance s i r pc)
  unfolding advance enabled
  advance-Inv p_wait e h =
      let room = lt_of_ltb 0 s.psem h in
      quiet-Inv p_wait p_lock _ e refl refl refl refl refl (omega arith) refl refl refl tt
  advance-Inv p_lock e h =
      let open_lock = not_locked s.locked h in
      quiet-Inv p_lock p_link _ e refl refl refl refl (omega arith) refl refl refl refl tt
  advance-Inv p_link e h =
      quiet-Inv p_link (p_store (r % 1000) s.head) _ e refl refl refl refl refl refl refl refl refl
        refl
  advance-Inv (p_store n tail) e h = store-Inv n tail e
  advance-Inv p_unlock e h =
      quiet-Inv p_unlock p_post _ e refl refl refl refl (omega (arith, held e refl)) refl refl refl
        refl tt
  advance-Inv p_post e h =
      quiet-Inv p_post p_wait _ e refl refl refl refl refl (omega arith) (omega arith) refl refl tt
  advance-Inv c_wait e h =
      let stock = lt_of_ltb 0 s.csem h in
      quiet-Inv c_wait c_lock _ e refl refl refl refl refl (omega arith) (omega arith) refl refl tt
  advance-Inv c_lock e h =
      let open_lock = not_locked s.locked h in
      quiet-Inv c_lock c_load _ e refl refl refl refl (omega arith) refl refl refl refl tt
  advance-Inv c_load e h =
      quiet-Inv c_load (c_take s.head) _ e refl refl refl refl refl refl refl refl refl refl
  advance-Inv (c_take node) e h = take-Inv node e
  advance-Inv c_unlock e h =
      quiet-Inv c_unlock c_post _ e refl refl refl refl (omega (arith, held e refl)) refl refl refl
        refl tt
  advance-Inv c_post e h =
      quiet-Inv c_post c_wait _ e refl refl refl refl refl (omega arith) refl refl refl tt
  advance-Inv faulted e h = absurd (inv.current i faulted e)
