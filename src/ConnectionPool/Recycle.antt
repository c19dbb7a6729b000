-- ===== src/ConnectionPool/Recycle.antt =====
-- What the recycler of ConnectionPool/ConnectionPool.cpp deletes.
use network_communications.Prelude.{
  ℕ, zero, suc, ◌+◌, ◌≤◌, ◌<◌, ℤ, pos, negsuc, true, false, ◌&&◌, List, [], ◌∷◌, ◌++◌, some, ltb,
  ◌≡◌, ◌⊎◌, inl, inr, refl, ap, subst, arith, length, get_elem?, Bool-cases,
}
use network_communications.ConnectionPool.Aged.{Aged, Aged-later, Aged-tail, Aged-at, older}
use network_communications.ConnectionPool.{
  Config, Conn, to_size, reaches, get_alive_time, overdue, recycle_queue,
}

-- How the recycler's loop from the time `now` on has split the queue.
pub record Recycled (c : Config) (q : List Conn) (kept gone : List Conn) (later : ℕ) : Type 0 where
  pub split : q ≡ gone ++ kept
  pub idle : (i : ℕ) (conn : Conn) → get_elem? gone i ≡ some conn → overdue c later conn ≡ true
  pub enough :
      (length kept ≤ to_size c.min_size)
      ⊎ (to_size c.max_size ≤ length kept)
      ⊎ ((i : ℕ) (conn : Conn) → get_elem? kept i ≡ some conn → overdue c later conn ≡ false)
  pub not_fewer : to_size c.min_size ≤ length q → to_size c.min_size ≤ length kept

reaches-more : (n m : ℕ) (limit : ℤ) → n ≤ m → reaches n limit ≡ true → reaches m limit ≡ true
reaches-more n m (pos limit) h f = ground arith
reaches-more n m (negsuc limit) h f = refl

-- What is idle for as long, at a later time, is overdue too.
overdue-older :
    (c : Config) (now later : ℕ) (d e : Conn)
    → now ≤ later
    → e.alive_time ≤ d.alive_time
    → overdue c now d ≡ true
    → overdue c later e ≡ true
unfolding overdue get_alive_time
overdue-older c now later d e h k f =
    reaches-more (get_alive_time now d) (get_alive_time later e) c.max_idle_time
      (older now later e.alive_time d.alive_time h k) f

-- With the first not overdue, none is.
none_overdue :
    (c : Config) (now since : ℕ) (conn : Conn) (rest : List Conn)
    → Aged since (conn ∷ rest) now
    → overdue c now conn ≡ false
    → (i : ℕ) (d : Conn) → get_elem? (conn ∷ rest) i ≡ some d
    → overdue c now d ≡ false
none_overdue c now since conn rest a f zero d e =
    let is : conn ≡ d = cc in subst (λ x. overdue c now x ≡ false) is f
none_overdue c now since conn rest a f (suc i) d e = elim (Bool-cases (overdue c now d)) [
  | inl late ↦
      let older_too =
        overdue-older c now now d conn (omega arith) (Aged-at conn.alive_time rest now i d a.1 e)
          late in
      cc
  | inr young ↦ young
]

pub recycle_queue-later :
    (c : Config) (delays : ℕ → ℕ) (now : ℕ) (q : List Conn) → now ≤ (recycle_queue c delays now q).2
unfolding recycle_queue
recycle_queue-later c delays now [] = omega arith
recycle_queue-later c delays now (conn ∷ rest) =
    ground (arith, recycle_queue-later c delays (now + delays (suc (length rest))) rest)

-- A round that deletes `conn`, and then the rest.
Recycled-after :
    (c : Config) (conn : Conn) (rest kept gone : List Conn) (now later : ℕ)
    → to_size c.min_size < suc (length rest)
    → overdue c now conn ≡ true
    → now ≤ later
    → Recycled c rest kept gone later
    → Recycled c (conn ∷ rest) kept (conn ∷ gone) later
Recycled-after c conn rest kept gone now later more late h r = record {
  split = ap (◌∷◌ conn) r.split;
  idle = first;
  enough = r.enough;
  not_fewer = λ k. r.not_fewer (omega (arith, more));
}
  where
    first : (i : ℕ) (d : Conn) → get_elem? (conn ∷ gone) i ≡ some d → overdue c later d ≡ true
    first zero d e =
        let is : conn ≡ d = cc in
        subst (λ x. overdue c later x ≡ true) is
          (overdue-older c now later conn conn h (omega arith) late)
    first (suc i) d e = r.idle i d e

-- A loop that stops at once.
Recycled-none :
    (c : Config) (q : List Conn) (later : ℕ)
    → (length q ≤ to_size c.min_size)
      ⊎ (to_size c.max_size ≤ length q)
      ⊎ ((i : ℕ) (conn : Conn) → get_elem? q i ≡ some conn → overdue c later conn ≡ false)
    → Recycled c q q [] later
Recycled-none c q later why = record {
  split = refl;
  idle = λ i conn e. absurd (grind arith);
  enough = why;
  not_fewer = λ h. h;
}

not_between :
    (low high size : ℕ) → (ltb low size && ltb size high) ≡ false → (size ≤ low) ⊎ (high ≤ size)
not_between low high size h = ground arith

pub recycle_queue-Recycled :
    (c : Config) (delays : ℕ → ℕ) (now since : ℕ) (q : List Conn)
    → Aged since q now
    → Recycled c q
        (recycle_queue c delays now q).0
        (recycle_queue c delays now q).1
        (recycle_queue c delays now q).2
unfolding recycle_queue
recycle_queue-Recycled c delays now since [] a = Recycled-none c [] now (inl (omega arith))
recycle_queue-Recycled c delays now since (conn ∷ rest) a =
    let size = suc (length rest) in
    let later = now + delays size in
    let a' : Aged since (conn ∷ rest) later =
      Aged-later since (conn ∷ rest) now later (omega arith) a in
    let h = recycle_queue-Recycled c delays later since rest (Aged-tail since conn rest later a') in
    elim (Bool-cases (ltb (to_size c.min_size) size && ltb size (to_size c.max_size))) [
      | inl between ↦ elim (Bool-cases (overdue c later conn)) [
        | inl late ↦
            rw (recycle_queue, between, late)
              (Recycled-after c conn rest (recycle_queue c delays later rest).0
                (recycle_queue c delays later rest).1 later (recycle_queue c delays later rest).2
                (ground (arith, between)) late (recycle_queue-later c delays later rest) h)
        | inr young ↦
            rw (recycle_queue, between, young)
              (Recycled-none c (conn ∷ rest) later
                (inr (inr (none_overdue c later since conn rest a' young))))
      ]
      | inr outside ↦
          let why : (size ≤ to_size c.min_size)
              ⊎ (to_size c.max_size ≤ size)
              ⊎ ((i : ℕ) (d : Conn)
                  → get_elem? (conn ∷ rest) i ≡ some d
                  → overdue c now d ≡ false) =
            elim (not_between (to_size c.min_size) (to_size c.max_size) size outside) [
              | inl few ↦ inl few
              | inr many ↦ inr (inl many)
            ] in
          rw (recycle_queue, outside) (Recycled-none c (conn ∷ rest) now why)
    ]
