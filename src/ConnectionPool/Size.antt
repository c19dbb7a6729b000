-- ===== src/ConnectionPool/Size.antt =====
-- How many connections ConnectionPool/ConnectionPool.cpp keeps, and when its producer waits.
use network_communications.Prelude.{
  ℕ, zero, suc, ◌+◌, ◌<◌, ◌≤◌, true, false, ltb, List, [], ◌∷◌, ◌++◌, some, ◌≡◌, refl, sym, ap,
  subst, ◌∙◌, arith, length, length-append, Bool-cases, inl, inr,
}
use network_communications.ConnectionPool.{
  Config, Conn, Pool, to_size, push, add_connection, wants_no_more, produce, recycle,
  get_connection, give_back, take_out, Step, passes, gets, gives, produces, wakes, recycles, Reach,
  here, next, add_connections, rounds, no_connections, connection_pool,
}
use network_communications.ConnectionPool.Cases.{List-cases, get_connection-Got, give_back-Given}
use network_communications.ConnectionPool.Order.{recycle-Recycled}

enough_there :
    (c : Config) (p : Pool) → wants_no_more c p ≡ true → to_size c.min_size ≤ length p.connection_q
unfolding wants_no_more
enough_there c p h = ground (arith, h)

-- A producer that sleeps has nothing to do.
abbrev Content : Config → Pool → Type 0
Content c p = p.asleep ≡ true → to_size c.min_size ≤ length p.connection_q

add_connections-awake :
    (delays : ℕ → ℕ) (n : ℕ) (p : Pool) → (add_connections delays n p).asleep ≡ p.asleep
unfolding add_connections add_connection
add_connections-awake delays zero p = refl
add_connections-awake delays (suc n) p =
    add_connections-awake delays n (add_connection (delays n) p)

Step-Content :
    {c : Config} {delays : ℕ → ℕ} (o p : Pool)
    → Reach c delays o
    → Step c o p
    → Content c o
    → Content c p
unfolding produce recycle add_connection
Step-Content o p r (passes delay) k h = k h
Step-Content o p r (gets e) k h =
    let g = get_connection-Got o p e in absurd (let f = ap (λ t. t.asleep) g.after in cc)
Step-Content o p r (gives i e) k h =
    let g = give_back-Given i o p e in
    let f = ap (λ t. t.asleep) g.after in
    let l = ap (λ t. length t.connection_q) g.after in
    omega (
      arith,
      k (sym f ∙ h),
      l,
      length-append o.connection_q (record g.conn { alive_time = o.now } ∷ []),
    )
Step-Content {c} o p r (produces delay e) k h = elim (Bool-cases (wants_no_more c o)) [
  | inl full ↦ rw (full, produce) (enough_there c o full)
  | inr short ↦ absurd (let f : o.asleep ≡ true = rw (short, produce, add_connection) at h in cc)
]
Step-Content o p r wakes k h = absurd (let f : false ≡ true = h in cc)
Step-Content o p r (recycles delays) k h =
    let (gone, e, rec) = recycle-Recycled r delays in rec.not_fewer (k h)

-- In every state that the program can reach, however its threads take turns: the producer waits only
-- while there are `m_minSize` connections in the queue at least.
pub producer_needed :
    {c : Config} {delays : ℕ → ℕ} {p : Pool}
    → Reach c delays p
    → p.asleep ≡ true
    → to_size c.min_size ≤ length p.connection_q
unfolding connection_pool
producer_needed {c} {delays} here h =
    absurd (let e = add_connections-awake delays (rounds c.min_size) no_connections in cc)
producer_needed {p = p} (next {p = o} r s) h = Step-Content o p r s (producer_needed r) h

-- `n` rounds of the producer by itself.
abbrev pub produce_times : Config → (ℕ → ℕ) → ℕ → Pool → Pool
produce_times c delays zero p = p
produce_times c delays (suc n) p = produce_times c delays n (produce c (delays n) p)

produce-more :
    (c : Config) (delay : ℕ) (p : Pool)
    → to_size c.max_size < length p.connection_q
    → length (produce c delay p).connection_q ≡ length p.connection_q + 1
unfolding produce wants_no_more add_connection
produce-more c delay p h =
    let short : wants_no_more c p ≡ false = ground arith in
    rw (short, produce)
      (length-append p.connection_q (record { id = p.made; alive_time = p.now + delay } ∷ []))

produce_runaway :
    (c : Config) (delays : ℕ → ℕ) (n : ℕ) (p : Pool)
    → to_size c.max_size < length p.connection_q
    → length (produce_times c delays n p).connection_q ≡ length p.connection_q + n
produce_runaway c delays zero p h = omega arith
produce_runaway c delays (suc n) p h =
    let e = produce-more c (delays n) p h in
    omega (arith, e, produce_runaway c delays n (produce c (delays n) p) (omega (arith, e, h)))

get_first :
    (p : Pool) (conn : Conn) (rest : List Conn)
    → p.connection_q ≡ conn ∷ rest
    → get_connection p
      ≡ some (record p { connection_q = rest; lent = conn ∷ p.lent; asleep = false })
unfolding get_connection
get_first p conn rest h = rw h refl

give_first :
    (p : Pool) (conn : Conn) (rest : List Conn)
    → p.lent ≡ conn ∷ rest
    → give_back 0 p ≡ some (push (record p { lent = rest }) conn)
unfolding give_back take_out
give_first p conn rest h = rw h refl

produce_first :
    (c : Config) (p : Pool)
    → 0 < to_size c.min_size
    → p.connection_q ≡ []
    → produce c 0 p ≡ add_connection 0 p
unfolding produce wants_no_more
produce_first c p h e =
    let f : ltb (length p.connection_q) (to_size c.min_size) ≡ true = ground (arith, ap length e) in
    rw f refl

-- Every client that asks gets a connection, whatever is held already.
borrow :
    (c : Config) (delays : ℕ → ℕ) (n : ℕ)
    → 0 < to_size c.min_size
    → (p : Pool) × Reach c delays p × (n ≤ length p.lent)
unfolding add_connection
borrow c delays zero h = (connection_pool c delays, here, omega arith)
borrow c delays (suc n) h =
    let (p, r, held) = borrow c delays n h in
    elim (List-cases p.connection_q) [
      | inr (conn, rest, e) ↦ (
        record p { connection_q = rest; lent = conn ∷ p.lent; asleep = false },
        next r (gets (get_first p conn rest e)),
        omega (arith, held),
      )
      | inl empty ↦
          let woken : Pool = record p { asleep = false } in
          let conn : Conn = record { id = p.made; alive_time = p.now + 0 } in
          let stocked : Pool = add_connection 0 woken in
          let e : stocked.connection_q ≡ conn ∷ [] = ap (λ q. q ++ conn ∷ []) empty in
          let made : Reach c delays stocked =
            subst (Reach c delays) (produce_first c woken h empty)
              (next (next r wakes) (produces 0 refl)) in
          (
            record stocked { connection_q = []; lent = conn ∷ p.lent; asleep = false },
            next made (gets (get_first stocked conn [] e)),
            omega (arith, held),
          )
    ]

hand_back :
    (c : Config) (delays : ℕ → ℕ) (n : ℕ) (p : Pool)
    → Reach c delays p
    → n ≤ length p.lent
    → (q : Pool) × Reach c delays q × (n + length p.connection_q ≤ length q.connection_q)
hand_back c delays zero p r h = (p, r, omega arith)
hand_back c delays (suc n) p r h = elim (List-cases p.lent) [
  | inl empty ↦ absurd (omega (arith, h, ap length empty))
  | inr (conn, rest, e) ↦
      let given : Pool = push (record p { lent = rest }) conn in
      let more = length-append p.connection_q (record conn { alive_time = p.now } ∷ []) in
      let (q, r', l) =
        hand_back c delays n given (next r (gives 0 (give_first p conn rest e)))
          (omega (arith, h, ap length e)) in
      (q, r', omega (arith, l, more))
]

-- Where `m_minSize` is not 0, and for any number: the program can reach a state with so many
-- connections in the queue, whatever `m_maxSize` is, and from there each further round of the producer
-- by itself adds another one, without a wait.
pub queue_runaway :
    (c : Config) (delays : ℕ → ℕ) (n : ℕ)
    → 0 < to_size c.min_size
    → (p : Pool) × Reach c delays p
      × (n ≤ length p.connection_q)
      × ((times : ℕ → ℕ) (m : ℕ)
          → length (produce_times c times m p).connection_q ≡ length p.connection_q + m)
queue_runaway c delays n h =
    let (p, r, held) = borrow c delays (n + to_size c.max_size + 1) h in
    let (q, r', l) = hand_back c delays (n + to_size c.max_size + 1) p r held in
    (q, r', omega (arith, l), (λ times m. produce_runaway c times m q (omega (arith, l))))
