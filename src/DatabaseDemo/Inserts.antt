-- ===== src/DatabaseDemo/Inserts.antt =====
-- What `op1` of ConnectionPool/main.cpp asks the database for.
use network_communications.Prelude.{
  ℕ, zero, suc, ◌-◌, List, [], ◌∷◌, ◌++◌, Option, none, some, ◌≡◌, refl, sym, ap, ◌∙◌, inl, inr,
  arith, append-nil, append_assoc, Option-cases,
}
use network_communications.MysqlConn.{Login, Mysql, create, destroy, free, connect, update}
use network_communications.DatabaseDemo.{login, insert_sql, op1_round, op1}

-- What `op1` relies on: which statements the library has been given, in order, and how many
-- connections it has made with `mysql_init` and not closed.
pub record LogLaws (mysql : Mysql) : Type 0 where
  pub log : mysql.World → List (List ℕ)
  pub handles : mysql.World → ℕ
  pub init_log : (w : mysql.World) → log (mysql.init w).1 ≡ log w
  pub charset_log : (w : mysql.World) (c : Option ℕ) → log (mysql.set_character_set w c) ≡ log w
  pub connect_log :
      (w : mysql.World) (c : Option ℕ) (l : Login) → log (mysql.real_connect w c l).1 ≡ log w
  pub query_log :
      (w : mysql.World) (c : Option ℕ) (sql : List ℕ)
      → log (mysql.query w c sql).1 ≡ log w ++ sql ∷ []
  pub close_log : (w : mysql.World) (c : ℕ) → log (mysql.close w c) ≡ log w
  pub init_none : (w : mysql.World) → (mysql.init w).0 ≡ none → handles (mysql.init w).1 ≡ handles w
  pub init_some :
      (w : mysql.World) (c : ℕ)
      → (mysql.init w).0 ≡ some c
      → handles (mysql.init w).1 ≡ suc (handles w)
  pub charset_handles :
      (w : mysql.World) (c : Option ℕ) → handles (mysql.set_character_set w c) ≡ handles w
  pub connect_handles :
      (w : mysql.World) (c : Option ℕ) (l : Login)
      → handles (mysql.real_connect w c l).1 ≡ handles w
  pub query_handles :
      (w : mysql.World) (c : Option ℕ) (sql : List ℕ) → handles (mysql.query w c sql).1 ≡ handles w
  pub close_handles : (w : mysql.World) (c : ℕ) → handles (mysql.close w c) ≡ handles w - 1

-- The statements for the `n` numbers from `i` on.
abbrev pub inserts : ℕ → ℕ → List (List ℕ)
inserts zero i = []
inserts (suc n) i = insert_sql i ∷ inserts n (suc i)

module _ (mysql : Mysql) (laws : LogLaws mysql) where
  open mysql use {World, init, set_character_set, real_connect}
  open laws use {log, handles}

  op1_round-log :
      (i : ℕ) (w : World)
      → (log (op1_round mysql i w) ≡ log w ++ insert_sql i ∷ [])
        × (handles (op1_round mysql i w) ≡ handles w)
  unfolding op1_round create destroy free connect update
  op1_round-log i w =
      let w1 : World = (init w).1 in
      let w2 : World = set_character_set w1 (init w).0 in
      let w3 : World = (real_connect w2 (init w).0 login).1 in
      let w4 : World = (mysql.query w3 (init w).0 (insert_sql i)).1 in
      let logged : log w4 ≡ log w ++ insert_sql i ∷ [] =
        laws.query_log w3 (init w).0 (insert_sql i)
        ∙ ap (λ t. t ++ insert_sql i ∷ [])
            (laws.connect_log w2 (init w).0 login
              ∙ laws.charset_log w1 (init w).0
              ∙ laws.init_log w) in
      let counted : handles w4 ≡ handles w1 =
        laws.query_handles w3 (init w).0 (insert_sql i)
        ∙ laws.connect_handles w2 (init w).0 login
        ∙ laws.charset_handles w1 (init w).0 in
      elim (Option-cases (init w).0) [
        | inl e ↦ rw e (logged, counted ∙ laws.init_none w e)
        | inr (c, e) ↦ rw e (
          laws.close_log w4 c ∙ logged,
          laws.close_handles w4 c ∙ omega (arith, counted, laws.init_some w c e),
        )
      ]

  -- `op1`, with `n` numbers from `i` on: the library has been given their statements, in order, and
  -- nothing else; and as many connections have been closed as made.
  pub op1-Inserts :
      (n i : ℕ) (w : World)
      → (log (op1 mysql n i w) ≡ log w ++ inserts n i) × (handles (op1 mysql n i w) ≡ handles w)
  unfolding op1
  op1-Inserts zero i w = (sym (append-nil (log w)), refl)
  op1-Inserts (suc n) i w =
      let (first, open_now) = op1_round-log i w in
      let (rest, open_then) = op1-Inserts n (suc i) (op1_round mysql i w) in
      (
        rest
            ∙ ap (λ t. t ++ inserts n (suc i)) first
            ∙ append_assoc (log w) (insert_sql i ∷ []) (inserts n (suc i)),
        open_then ∙ open_now,
      )
