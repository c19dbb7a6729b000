-- ===== src/DatabaseDemo/Callers/Once.antt =====
-- What the threads of `test2` in ConnectionPool/main.cpp have done when they have ended.
use network_communications.Prelude.{
  ℕ, zero, suc, ◌+◌, List, [], ◌∷◌, some, length, ◌≡◌, refl, ap, ◌∙◌, arith, inl, inr, Bool-cases,
  Option-cases, sum_by, sum_by-set, sum_by-append,
}
use network_communications.ConnectionPool.{
  Config, Conn, Pool, connection_pool, take_out, give_back, get_connection, wants_no_more, produce,
  add_connection, add_connections, recycle, passes, gets, gives, produces, wakes, recycles,
  no_connections,
}
use network_communications.ConnectionPool
use network_communications.ConnectionPool.Cases.{get_connection-Got, give_back-Given}
use network_communications.DatabaseDemo.Callers.{
  Caller, asking, holding, giving, System, test2, Background, others, obtains, inserts, returns,
  Reach, here, next,
}

-- Every run of the threads is a run of the pool.
pub pool-Reach :
    {n : ℕ} {c : Config} {delays : ℕ → ℕ} {s : System}
    → Reach n c delays s
    → ConnectionPool.Reach c delays s.pool
unfolding test2
pool-Reach here = ConnectionPool.Reach.here
pool-Reach (next r (others st b)) = ConnectionPool.Reach.next (pool-Reach r) st
pool-Reach (next r (obtains k i n conn rest e f g)) =
    ConnectionPool.Reach.next (pool-Reach r) (gets g)
pool-Reach (next r (inserts k i n conn e)) = pool-Reach r
pool-Reach (next r (returns k i n j conn rest e f g)) =
    ConnectionPool.Reach.next (pool-Reach r) (gives j g)

-- Whether a thread holds a connection.
abbrev pub has : Caller → ℕ
has (asking i n) = 0
has (holding i n conn) = 1
has (giving i n conn) = 1

produce-lent : (c : Config) (delay : ℕ) (p : Pool) → (produce c delay p).lent ≡ p.lent
unfolding produce add_connection
produce-lent c delay p = elim (Bool-cases (wants_no_more c p)) [
  | inl e ↦ rw (e, produce) refl
  | inr e ↦ rw (e, produce) refl
]

Background-lent :
    {c : Config} {p q : Pool} (st : ConnectionPool.Step c p q) → Background st → q.lent ≡ p.lent
unfolding recycle
Background-lent (passes delay) b = refl
Background-lent (gets e) b = absurd b
Background-lent (gives i e) b = absurd b
Background-lent {c} {p} (produces delay e) b = produce-lent c delay p
Background-lent wakes b = refl
Background-lent (recycles delays) b = refl

length-take_out :
    (j : ℕ) (xs : List Conn) (conn : Conn) (rest : List Conn)
    → take_out j xs ≡ some (conn, rest)
    → length xs ≡ suc (length rest)
unfolding take_out
length-take_out j [] conn rest e = absurd (ground arith)
length-take_out zero (x ∷ xs) conn rest e = let same : xs ≡ rest = cc in ap suc (ap length same)
length-take_out (suc j) (x ∷ xs) conn rest e = elim (Option-cases (take_out j xs)) [
  | inl nothing ↦ absurd (let f = rw (nothing, take_out) at e in ground arith)
  | inr ((y, ys), found) ↦
      let f = rw (found, take_out) at e in
      let same : x ∷ ys ≡ rest = cc in ap suc (length-take_out j xs y ys found ∙ ap length same)
]

add_connections-lent :
    (delays : ℕ → ℕ) (n : ℕ) (p : Pool) → (add_connections delays n p).lent ≡ p.lent
unfolding add_connections add_connection
add_connections-lent delays zero p = refl
add_connections-lent delays (suc n) p = add_connections-lent delays n _

-- As many connections are held as there are threads that hold one.
pub lent_to_callers :
    {n : ℕ} {c : Config} {delays : ℕ → ℕ} {s : System}
    → Reach n c delays s
    → length s.pool.lent ≡ sum_by has s.callers
unfolding test2 connection_pool sum_by
lent_to_callers {n} {c} {delays} here =
    ap length (add_connections-lent delays (ConnectionPool.rounds c.min_size) no_connections)
lent_to_callers (next r (others st b)) = ap length (Background-lent st b) ∙ lent_to_callers r
lent_to_callers (next {s} r (obtains {q} k i m conn rest e f g)) =
    let got = get_connection-Got s.pool q g in
    let lent : length q.lent ≡ suc (length s.pool.lent) =
      ap (λ (p : Pool). length p.lent) got.after in
    omega (
      arith,
      lent,
      lent_to_callers r,
      sum_by-set has s.callers k (asking i (suc m)) (holding i m conn) e,
    )
lent_to_callers (next {s} r (inserts k i m conn e)) =
    omega
      (arith, lent_to_callers r, sum_by-set has s.callers k (holding i m conn) (giving i m conn) e)
lent_to_callers (next {s} r (returns {q} k i m j conn rest e f g)) =
    let given = give_back-Given j s.pool q g in
    let lent : length q.lent ≡ length given.rest = ap (λ (p : Pool). length p.lent) given.after in
    omega (
      arith,
      lent,
      lent_to_callers r,
      length-take_out j s.pool.lent given.conn given.rest given.taken,
      sum_by-set has s.callers k (giving i m conn) (asking (suc i) m) e,
    )

module _ (weight : ℕ → ℕ) where
  -- The weights of the `n` numbers from `i` on.
  pub weigh : ℕ → ℕ → ℕ
  weigh i zero = 0
  weigh i (suc n) = weight i + weigh (suc i) n

  weigh-add : (i n m : ℕ) → weigh i (n + m) ≡ weigh i n + weigh (i + n) m
  unfolding weigh
  weigh-add i zero m =
      let e : 0 + m ≡ m = omega arith in let f : i + 0 ≡ i = omega arith in rw (e, f) (omega arith)
  weigh-add i (suc n) m =
      let e : suc n + m ≡ suc (n + m) = omega arith in
      let f : i + suc n ≡ suc i + n = omega arith in
      rw (e, f) (omega (arith, weigh-add (suc i) n m))

  -- The numbers that a thread has not yet inserted.
  abbrev due : Caller → ℕ
  due (asking i n) = weigh i n
  due (holding i n conn) = weight i + weigh (suc i) n
  due (giving i n conn) = weigh (suc i) n

  weigh_append : (m n : ℕ) → weigh 0 (m + n) ≡ weigh 0 m + weigh m n
  weigh_append m n =
      let e : 0 + m ≡ m = omega arith in weigh-add 0 m n ∙ ap (λ k. weigh 0 m + weigh k n) e

  all_of_five :
      (n : ℕ)
      → weigh 0 n
          + (weigh n n + (weigh (n + n) n + (weigh (n + n + n) n + (weigh (n + n + n + n) n + 0))))
        ≡ weigh 0 (n + n + n + n + n)
  all_of_five n = omega (
    arith,
    weigh_append (n + n + n + n) n,
    weigh_append (n + n + n) n,
    weigh_append (n + n) n,
    weigh_append n n,
  )

  balanced :
      {n : ℕ} {c : Config} {delays : ℕ → ℕ} {s : System}
      → Reach n c delays s
      → sum_by weight s.requested + sum_by due s.callers ≡ weigh 0 (n + n + n + n + n)
  unfolding test2 sum_by weigh
  balanced {n} here = omega (arith, all_of_five n)
  balanced (next r (others st b)) = balanced r
  balanced (next {s} r (obtains k i m conn rest e f g)) =
      omega (arith, balanced r, sum_by-set due s.callers k (asking i (suc m)) (holding i m conn) e)
  balanced (next {s} r (inserts k i m conn e)) = omega (
    arith,
    balanced r,
    sum_by-append weight s.requested (i ∷ []),
    sum_by-set due s.callers k (holding i m conn) (giving i m conn) e,
  )
  balanced (next {s} r (returns k i m j conn rest e f g)) =
      omega (arith, balanced r, sum_by-set due s.callers k (giving i m conn) (asking (suc i) m) e)

-- A thread has made all its rounds.
abbrev Over : Caller → Type 0
Over (asking i zero) = Unit
Over (asking i (suc n)) = ⊥
Over (holding i n conn) = ⊥
Over (giving i n conn) = ⊥

-- All threads have, and `join` returns.
abbrev pub AllOver : List Caller → Type 0
AllOver [] = Unit
AllOver (x ∷ xs) = Over x × AllOver xs

nothing_due :
    (weight : ℕ → ℕ) (xs : List Caller)
    → AllOver xs
    → (sum_by has xs ≡ 0) × (sum_by (due weight) xs ≡ 0)
unfolding sum_by weigh
nothing_due weight [] h = (refl, refl)
nothing_due weight (asking i zero ∷ xs) h =
    let (a, b) = nothing_due weight xs h.1 in (omega arith, omega arith)
nothing_due weight (asking i (suc n) ∷ xs) h = absurd h.0
nothing_due weight (holding i n conn ∷ xs) h = absurd h.0
nothing_due weight (giving i n conn ∷ xs) h = absurd h.0

length_zero : (xs : List Conn) → length xs ≡ 0 → xs ≡ []
length_zero [] e = refl
length_zero (x ∷ xs) e = absurd (omega arith)

-- In every state of `test2` in which its threads have made all their rounds, however the threads and
-- those of the pool take turns: no connection is lent, and the numbers with which `update` has been
-- called weigh, by any weight, what those below five times the rounds weigh; so it has been called
-- with each of them, once.
pub inserted_once :
    {n : ℕ} {c : Config} {delays : ℕ → ℕ} {s : System}
    → Reach n c delays s
    → AllOver s.callers
    → (s.pool.lent ≡ [])
      × ((weight : ℕ → ℕ) → sum_by weight s.requested ≡ weigh weight 0 (n + n + n + n + n))
inserted_once {n} {c} {delays} {s} r h = (
  length_zero s.pool.lent (lent_to_callers r ∙ (nothing_due (λ k. k) s.callers h).0),
  (λ weight. omega (arith, balanced weight r, (nothing_due weight s.callers h).1)),
)
