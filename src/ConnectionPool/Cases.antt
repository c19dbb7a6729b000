-- ===== src/ConnectionPool/Cases.antt =====
-- What the operations of ConnectionPool/ConnectionPool.cpp have done where they return.
use network_communications.Prelude.{
  ℕ, false, List, [], ◌∷◌, some, ◌≡◌, ◌⊎◌, inl, inr, refl, Option-cases,
}
use network_communications.ConnectionPool.{Conn, Pool, push, get_connection, take_out, give_back}

pub List-cases :
    (q : List Conn) → (q ≡ []) ⊎ ((conn : Conn) × (rest : List Conn) × (q ≡ conn ∷ rest))
List-cases [] = inl refl
List-cases (conn ∷ rest) = inr (conn, rest, refl)

pub record Got (p q : Pool) : Type 0 where
  pub conn : Conn
  pub rest : List Conn
  pub front : p.connection_q ≡ conn ∷ rest
  pub after : q ≡ record p { connection_q = rest; lent = conn ∷ p.lent; asleep = false }

pub get_connection-Got : (p q : Pool) → get_connection p ≡ some q → Got p q
unfolding get_connection
get_connection-Got p q e = elim (List-cases p.connection_q) [
  | inl empty ↦ absurd (let f = rw empty at e in cc)
  | inr (conn, rest, h) ↦ record {
    conn = conn;
    rest = rest;
    front = h;
    after = let f = rw h at e in cc;
  }
]

pub record Given (i : ℕ) (p q : Pool) : Type 0 where
  pub conn : Conn
  pub rest : List Conn
  pub taken : take_out i p.lent ≡ some (conn, rest)
  pub after : q ≡ push (record p { lent = rest }) conn

pub give_back-Given : (i : ℕ) (p q : Pool) → give_back i p ≡ some q → Given i p q
unfolding give_back
give_back-Given i p q e = elim (Option-cases (take_out i p.lent)) [
  | inl empty ↦ absurd (let f = rw (empty, give_back) at e in cc)
  | inr ((conn, rest), h) ↦ record {
    conn = conn;
    rest = rest;
    taken = h;
    after = let f = rw (h, give_back) at e in cc;
  }
]
