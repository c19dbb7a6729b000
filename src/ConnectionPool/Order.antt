-- ===== src/ConnectionPool/Order.antt =====
-- The order of the queue of ConnectionPool/ConnectionPool.cpp, and the recycler on it.
use network_communications.Prelude.{
  ℕ, zero, suc, ◌+◌, ◌≤◌, List, ◌∷◌, ◌++◌, some, ◌≡◌, inl, inr, refl, sym, ap, subst, ◌∙◌, arith,
  get_elem?, Bool-cases,
}
use network_communications.ConnectionPool.Aged.{
  Aged, Aged-later, Aged-push, Aged-tail, Aged-at, Aged-suffix, older,
}
use network_communications.ConnectionPool.Recycle.{
  Recycled, recycle_queue-later, recycle_queue-Recycled,
}
use network_communications.ConnectionPool.Cases.{get_connection-Got, give_back-Given}
use network_communications.ConnectionPool.{
  Config, Conn, Pool, get_alive_time, add_connection, add_connections, no_connections, rounds,
  connection_pool, wants_no_more, produce, recycle_queue, recycle, Step, passes, gets, gives,
  produces, wakes, recycles, Reach, here, next,
}

abbrev Fresh : Pool → Type 0
Fresh p = Aged 0 p.connection_q p.now

add_connection-Fresh : (delay : ℕ) (p : Pool) → Fresh p → Fresh (add_connection delay p)
unfolding add_connection
add_connection-Fresh delay p a =
    Aged-push 0 p.connection_q (p.now + delay) (record { id = p.made; alive_time = p.now + delay })
      refl (Aged-later 0 p.connection_q p.now (p.now + delay) (omega arith) a)

add_connections-Fresh :
    (delays : ℕ → ℕ) (n : ℕ) (p : Pool) → Fresh p → Fresh (add_connections delays n p)
unfolding add_connections
add_connections-Fresh delays zero p a = a
add_connections-Fresh delays (suc n) p a =
    add_connections-Fresh delays n (add_connection (delays n) p)
      (add_connection-Fresh (delays n) p a)

Step-Fresh : (c : Config) (p q : Pool) → Step c p q → Fresh p → Fresh q
unfolding produce recycle
Step-Fresh c p q (passes delay) a =
    Aged-later 0 p.connection_q p.now (p.now + delay) (omega arith) a
Step-Fresh c p q (gets e) a =
    let g = get_connection-Got p q e in
    let a' = subst (λ xs. Aged 0 xs p.now) g.front a in
    subst Fresh (sym g.after) (Aged-tail 0 g.conn g.rest p.now a')
Step-Fresh c p q (gives i e) a =
    let g = give_back-Given i p q e in
    subst Fresh (sym g.after)
      (Aged-push 0 p.connection_q p.now (record g.conn { alive_time = p.now }) refl a)
Step-Fresh c p q (produces delay e) a = elim (Bool-cases (wants_no_more c p)) [
  | inl full ↦ rw (full, produce) a
  | inr short ↦ rw (short, produce) (add_connection-Fresh delay p a)
]
Step-Fresh c p q wakes a = a
Step-Fresh c p q (recycles delays) a =
    let r = recycle_queue-Recycled c delays p.now 0 p.connection_q a in
    Aged-suffix 0 p.now (recycle_queue c delays p.now p.connection_q).2
      (recycle_queue c delays p.now p.connection_q).1
      (recycle_queue c delays p.now p.connection_q).0
      (recycle_queue-later c delays p.now p.connection_q) (subst (λ xs. Aged 0 xs p.now) r.split a)

Reach-Fresh : (c : Config) (delays : ℕ → ℕ) (p : Pool) → Reach c delays p → Fresh p
unfolding connection_pool
Reach-Fresh c delays p here =
    add_connections-Fresh delays (rounds c.min_size) no_connections (omega arith)
Reach-Fresh c delays p (next {p = o} r s) = Step-Fresh c o p s (Reach-Fresh c delays o r)

idle_longest :
    (since now i : ℕ) (conn d : Conn) (rest : List Conn)
    → Aged since (conn ∷ rest) now
    → get_elem? (conn ∷ rest) i ≡ some d
    → get_alive_time now d ≤ get_alive_time now conn
unfolding get_alive_time
idle_longest since now zero conn d rest a e =
    let is : conn ≡ d = cc in
    subst (λ x. get_alive_time now x ≤ get_alive_time now conn) is (omega arith)
idle_longest since now (suc i) conn d rest a e =
    older now now conn.alive_time d.alive_time (omega arith)
      (Aged-at conn.alive_time rest now i d a.1 e)

-- In every state that the program can reach, however its threads take turns: no connection in the
-- queue has been idle for longer than the one at the front.
pub front_idle_longest :
    {c : Config} {delays : ℕ → ℕ} {p : Pool}
    → Reach c delays p
    → (conn : Conn) (rest : List Conn) → p.connection_q ≡ conn ∷ rest
    → (i : ℕ) (d : Conn) → get_elem? p.connection_q i ≡ some d
    → get_alive_time p.now d ≤ get_alive_time p.now conn
front_idle_longest {c} {delays} {p} r conn rest front i d e =
    let a = subst (λ xs. Aged 0 xs p.now) front (Reach-Fresh c delays p r) in
    idle_longest 0 p.now i conn d rest a (ap (λ xs. get_elem? xs i) (sym front) ∙ e)

-- From every state that the program can reach, a run of the recycler's loop deletes connections from
-- the front of the queue only, each of them idle for at least `m_maxIdleTime`; and it ends with at most
-- `m_minSize` connections, with at least `m_maxSize`, or with none that is idle for so long. Where
-- there were `m_minSize` connections, so many are left.
pub recycle-Recycled :
    {c : Config} {delays : ℕ → ℕ} {p : Pool}
    → Reach c delays p
    → (times : ℕ → ℕ)
    → (gone : List Conn) × ((recycle c times p).deleted ≡ p.deleted ++ gone)
      × Recycled c p.connection_q (recycle c times p).connection_q gone (recycle c times p).now
unfolding recycle
recycle-Recycled {c} {delays} {p} r times = (
  (recycle_queue c times p.now p.connection_q).1,
  refl,
  recycle_queue-Recycled c times p.now 0 p.connection_q (Reach-Fresh c delays p r),
)
