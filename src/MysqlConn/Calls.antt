-- ===== src/MysqlConn/Calls.antt =====
-- The calls on an object of ConnectionPool/MysqlConn.cpp, and what they rely on.
use network_communications.Prelude.{
  ℕ, ◌==◌, Bool, false, not, ◌&&◌, ◌||◌, List, [], ◌∷◌, Option, none, some, ◌≡◌,
}
use network_communications.MysqlConn.{
  Login, Mysql, MysqlConn, create, destroy, connect, update, query, next, transaction, commit,
  rollback,
}

-- The public functions that use the library, with their arguments. The strings that `value` copies
-- are in Value.
pub data Call : Type 0 where
  connects : Login → Call
  updates queries : List ℕ → Call
  nexts transacts commits rolls_back : Call

-- What the code relies on: which result sets are there. A new one is not one that was there before.
pub record ResultLaws (mysql : Mysql) : Type 0 where
  pub live : mysql.World → ℕ → Bool
  pub init_live : (w : mysql.World) (k : ℕ) → live (mysql.init w).1 k ≡ live w k
  pub charset_live :
      (w : mysql.World) (c : Option ℕ) (k : ℕ) → live (mysql.set_character_set w c) k ≡ live w k
  pub close_live : (w : mysql.World) (c k : ℕ) → live (mysql.close w c) k ≡ live w k
  pub connect_live :
      (w : mysql.World) (c : Option ℕ) (l : Login) (k : ℕ)
      → live (mysql.real_connect w c l).1 k ≡ live w k
  pub query_live :
      (w : mysql.World) (c : Option ℕ) (sql : List ℕ) (k : ℕ)
      → live (mysql.query w c sql).1 k ≡ live w k
  pub fetch_live : (w : mysql.World) (r k : ℕ) → live (mysql.fetch_row w r).1 k ≡ live w k
  pub autocommit_live :
      (w : mysql.World) (c : Option ℕ) (on : Bool) (k : ℕ)
      → live (mysql.autocommit w c on).1 k ≡ live w k
  pub commit_live :
      (w : mysql.World) (c : Option ℕ) (k : ℕ) → live (mysql.commit w c).1 k ≡ live w k
  pub rollback_live :
      (w : mysql.World) (c : Option ℕ) (k : ℕ) → live (mysql.rollback w c).1 k ≡ live w k
  pub store_none :
      (w : mysql.World) (c : Option ℕ) (k : ℕ)
      → (mysql.store_result w c).0 ≡ none
      → live (mysql.store_result w c).1 k ≡ live w k
  pub store_new :
      (w : mysql.World) (c : Option ℕ) (r : ℕ)
      → (mysql.store_result w c).0 ≡ some r
      → live w r ≡ false
  pub store_live :
      (w : mysql.World) (c : Option ℕ) (r k : ℕ)
      → (mysql.store_result w c).0 ≡ some r
      → live (mysql.store_result w c).1 k ≡ (k == r) || live w k
  pub free_live :
      (w : mysql.World) (r k : ℕ) → live (mysql.free_result w r) k ≡ not (k == r) && live w k

module _ (mysql : Mysql) where
  open mysql use {World}

  abbrev pub call : Call → MysqlConn → World → Bool × MysqlConn × World
  call (connects login) = connect mysql login
  call (updates sql) = update mysql sql
  call (queries sql) = query mysql sql
  call nexts = next mysql
  call transacts = transaction mysql
  call commits = commit mysql
  call rolls_back = rollback mysql

  -- The calls one after the other.
  abbrev pub calls : List Call → MysqlConn → World → MysqlConn × World
  calls [] c w = (c, w)
  calls (x ∷ xs) c w = let (ret, c1, w1) = call x c w in calls xs c1 w1

  -- The life of an object: constructor, calls, destructor.
  abbrev pub life : List Call → World → MysqlConn × World
  life xs w = let (c, w1) = create mysql w in let (c2, w2) = calls xs c w1 in destroy mysql c2 w2
