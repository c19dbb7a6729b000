-- ===== src/DatabaseDemo.antt =====
-- ConnectionPool/main.cpp: programs that use a connection to a database, op1 and query, and threads
-- that use the pool of connections, op2 and test2, in DatabaseDemo/Callers. The measuring of time is
-- left out.
pub mod Inserts
pub mod Rows
pub mod Callers
mod Tests
use Prim.Native.Char.{code}
use Prim.Native.String.{String}
use network_communications.Prelude.{ℕ, zero, suc, pos, true, false, List, [], ◌∷◌, ◌++◌}
use network_communications.Run.{Run, done, unfinished, ◌>>=◌}
use network_communications.CText.{decimal}
use network_communications.MysqlConn.{
  Login, Mysql, MysqlConn, create, destroy, connect, update, query, next, value,
}

-- The bytes of a text in ASCII.
abbrev pub codes : String → List ℕ
codes String.[] = []
codes (String.◌∷◌ c s) = code c ∷ codes s

-- `conn.connect("root", "st19216811", "testdb", "localhost")`
abbrev pub login : Login
login = record {
  user = codes "root";
  passwd = codes "st19216811";
  db_name = codes "testdb";
  ip = codes "localhost";
  port = 3306;
}

-- `sprintf(sql, "insert into person values(%d, 25, 'man', 'tom')", i)`; `i` is not negative.
unfoldable pub insert_sql : ℕ → List ℕ
insert_sql i = codes "insert into person values(" ++ (decimal i ++ codes ", 25, 'man', 'tom')")

-- The two statements of `query`.
abbrev pub insert_six : List ℕ
insert_six = codes "insert into person values(6, 25, 'man', 'tom')"

abbrev pub select_all : List ℕ
select_all = codes "select * from person"

module _ (mysql : Mysql) where
  open mysql use {World}

  -- The body of the loop of `op1`, with the destructor of `conn`.
  unfoldable pub op1_round : ℕ → World → World
  op1_round i w =
      let (c, w1) = create mysql w in
      let (connected, c1, w2) = connect mysql login c w1 in
      let (updated, c2, w3) = update mysql (insert_sql i) c1 w2 in (destroy mysql c2 w3).1

  -- `op1` from `i` on, with `n` rounds left.
  unfoldable pub op1 : ℕ → ℕ → World → World
  op1 zero i w = w
  op1 (suc n) i w = op1 n (suc i) (op1_round i w)

  -- What a round of the loop of `query` prints.
  unfoldable pub four_values : MysqlConn → World → Run (List (List ℕ))
  four_values c w = value mysql (pos 0) c w >>= λ v0. value mysql (pos 1) c w >>= λ v1.
      value mysql (pos 2) c w >>= λ v2.
      value mysql (pos 3) c w >>= λ v3. done (v0 ∷ v1 ∷ v2 ∷ v3 ∷ [])

  -- `while (conn.next())`: the lines that it prints. The result may go on for ever as far as the code
  -- knows, so the rounds are an argument.
  unfoldable pub show_rows : ℕ → MysqlConn → World → Run (List (List (List ℕ)) × MysqlConn × World)
  unfolding four_values
  show_rows zero c w = unfinished
  show_rows (suc fuel) c w =
      let got = next mysql c w in
      elim got.0 [
        | false ↦ done ([], got.1, got.2)
        | true ↦
            (four_values got.1 got.2 >>= λ line.
            show_rows fuel got.1 got.2 >>= λ rest. done (line ∷ rest.0, rest.1, rest.2))
      ]

  -- `query` up to its loop.
  unfoldable pub ask_all : World → MysqlConn × World
  ask_all w =
      let (c, w1) = create mysql w in
      let (connected, c1, w2) = connect mysql login c w1 in
      let (flag, c2, w3) = update mysql insert_six c1 w2 in
      let (asked, c3, w4) = query mysql select_all c2 w3 in (c3, w4)

  -- `query`: what its loop prints, and the world after the destructor of `conn`.
  unfoldable pub query_main : ℕ → World → Run (List (List (List ℕ)) × World)
  unfolding ask_all show_rows
  query_main fuel w =
      let (c, w1) = ask_all w in
      show_rows fuel c w1 >>= λ out. done (out.0, (destroy mysql out.1 out.2).1)
