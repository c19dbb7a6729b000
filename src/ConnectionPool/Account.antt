-- ===== src/ConnectionPool/Account.antt =====
-- Where the connections of ConnectionPool/ConnectionPool.cpp are.
use network_communications.Prelude.{
  ℕ, zero, suc, ◌+◌, ◌<◌, ◌≤◌, ◌==◌, Bool, true, false, ltb, List, [], ◌∷◌, ◌++◌, Option, none,
  some, ◌≡◌, refl, sym, ap, subst, ◌∙◌, arith, sum_by, sum_by-append, length, inl, inr, Bool-cases,
  Option-cases, append_assoc, append-nil,
}
use network_communications.ConnectionPool.{
  Config, Conn, Pool, add_connection, add_connections, no_connections, rounds, connection_pool,
  take_out, wants_no_more, produce, recycle_queue, recycle, delete_all, destroy, Step, passes, gets,
  gives, produces, wakes, recycles, Reach, here, next,
}
use network_communications.ConnectionPool.Cases.{get_connection-Got, give_back-Given}

abbrev pub bit : Bool → ℕ
bit true = 1
bit false = 0

-- 1 for connection `k`, 0 for every other.
abbrev pub is : ℕ → Conn → ℕ
is k conn = bit (conn.id == k)

-- How often connection `k` is somewhere.
abbrev pub places : ℕ → Pool → ℕ
places k p = sum_by (is k) p.connection_q + sum_by (is k) p.lent + sum_by (is k) p.deleted

abbrev Accounted : Pool → Type 0
Accounted p = (k : ℕ) → places k p ≡ bit (ltb k p.made)

push_place :
    (k : ℕ) (q : List Conn) (conn : Conn)
    → sum_by (is k) (q ++ conn ∷ []) ≡ sum_by (is k) q + is k conn
unfolding sum_by
push_place k q conn = omega (arith, sum_by-append (is k) q (conn ∷ []))

add_connection-Accounted : (delay : ℕ) (p : Pool) → Accounted p → Accounted (add_connection delay p)
unfolding add_connection
add_connection-Accounted delay p a k =
    let e = push_place k p.connection_q (record { id = p.made; alive_time = p.now + delay }) in
    let new : bit (p.made == k) + bit (ltb k p.made) ≡ bit (ltb k (suc p.made)) = ground arith in
    omega (arith, a k, e, new)

add_connections-Accounted :
    (delays : ℕ → ℕ) (n : ℕ) (p : Pool) → Accounted p → Accounted (add_connections delays n p)
unfolding add_connections
add_connections-Accounted delays zero p a = a
add_connections-Accounted delays (suc n) p a =
    add_connections-Accounted delays n (add_connection (delays n) p)
      (add_connection-Accounted (delays n) p a)

take_out_place :
    (k i : ℕ) (held rest : List Conn) (conn : Conn)
    → take_out i held ≡ some (conn, rest)
    → sum_by (is k) held ≡ is k conn + sum_by (is k) rest
unfolding take_out sum_by
take_out_place k i [] rest conn e =
    absurd (let f : ◌≡◌ {A = Option (Conn × List Conn)} none (some (conn, rest)) = e in cc)
take_out_place k zero (x ∷ held) rest conn e =
    let f : ◌≡◌ {A = Option (Conn × List Conn)} (some (x, held)) (some (conn, rest)) = e in
    let same : x ≡ conn = cc in let others : held ≡ rest = cc in rw (same, others) refl
take_out_place k (suc i) (x ∷ held) rest conn e = elim (Option-cases (take_out i held)) [
  | inl missing ↦ absurd (let f = rw (missing, take_out) at e in cc)
  | inr ((found, left), h) ↦
      let f : ◌≡◌ {A = Option (Conn × List Conn)} (some (found, x ∷ left)) (some (conn, rest)) =
        rw (h, take_out) at e in
      let same : found ≡ conn = cc in
      let others : x ∷ left ≡ rest = cc in
      let step = take_out_place k i held left found h in
      rw (sym same, sym others) (omega (arith, step))
]

recycle_queue_place :
    (c : Config) (delays : ℕ → ℕ) (k now : ℕ) (q : List Conn)
    → sum_by (is k) q
      ≡ sum_by (is k) (recycle_queue c delays now q).0
        + sum_by (is k) (recycle_queue c delays now q).1
unfolding recycle_queue sum_by
recycle_queue_place c delays k now [] = refl
recycle_queue_place c delays k now (conn ∷ rest) =
    ground (arith, recycle_queue_place c delays k (now + delays (suc (length rest))) rest)

Step-Accounted : (c : Config) (p q : Pool) → Step c p q → Accounted p → Accounted q
unfolding produce recycle sum_by
Step-Accounted c p q (passes delay) a = a
Step-Accounted c p q (gets e) a =
    let g = get_connection-Got p q e in
    subst Accounted (sym g.after) (λ k. omega (arith, a k, ap (sum_by (is k)) g.front))
Step-Accounted c p q (gives i e) a =
    let g = give_back-Given i p q e in
    subst Accounted (sym g.after) (λ k. omega (
      arith,
      a k,
      take_out_place k i p.lent g.rest g.conn g.taken,
      push_place k p.connection_q (record g.conn { alive_time = p.now }),
    ))
Step-Accounted c p q (produces delay e) a = elim (Bool-cases (wants_no_more c p)) [
  | inl full ↦ rw (full, produce) a
  | inr short ↦ rw (short, produce) (add_connection-Accounted delay p a)
]
Step-Accounted c p q wakes a = a
Step-Accounted c p q (recycles delays) a = λ k. omega (
  arith,
  a k,
  recycle_queue_place c delays k p.now p.connection_q,
  sum_by-append (is k) p.deleted (recycle_queue c delays p.now p.connection_q).1,
)

Reach-Accounted : (c : Config) (delays : ℕ → ℕ) (p : Pool) → Reach c delays p → Accounted p
unfolding connection_pool sum_by
Reach-Accounted c delays p here =
    add_connections-Accounted delays (rounds c.min_size) no_connections (λ k. ground arith)
Reach-Accounted c delays p (next {p = o} r s) =
    Step-Accounted c o p s (Reach-Accounted c delays o r)

-- In every state that the program can reach, however its threads take turns: a connection that has
-- been made is in the queue, held by one caller, or deleted, once altogether; and no other is anywhere.
pub each_once :
    {c : Config} {delays : ℕ → ℕ} {p : Pool}
    → Reach c delays p
    → (k : ℕ) → ((k < p.made → places k p ≡ 1) × (p.made ≤ k → places k p ≡ 0))
each_once {c} {delays} {p} r k =
    let a = Reach-Accounted c delays p r k in ((λ h. ground (arith, a)), (λ h. ground (arith, a)))

delete_all-append : (q deleted : List Conn) → delete_all q deleted ≡ deleted ++ q
unfolding delete_all
delete_all-append [] deleted = sym (append-nil deleted)
delete_all-append (conn ∷ rest) deleted =
    delete_all-append rest (deleted ++ conn ∷ []) ∙ append_assoc deleted (conn ∷ []) rest

-- The destructor, in every state that the program can reach, empties the queue; a connection that has
-- been made is then deleted, once, or held by a caller still.
pub destroy-Released :
    {c : Config} {delays : ℕ → ℕ} {p : Pool}
    → Reach c delays p
    → ((destroy p).connection_q ≡ [])
      × ((k : ℕ)
          → k < p.made
          → sum_by (is k) (destroy p).lent + sum_by (is k) (destroy p).deleted ≡ 1)
unfolding destroy
destroy-Released {c} {delays} {p} r = (
  refl,
  (λ k h. omega (
    arith,
    (each_once r k).0 h,
    ap (sum_by (is k)) (delete_all-append p.connection_q p.deleted),
    sum_by-append (is k) p.deleted p.connection_q,
  )),
)
