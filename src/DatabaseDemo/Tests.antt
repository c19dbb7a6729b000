-- ===== src/DatabaseDemo/Tests.antt =====
-- ConnectionPool/main.cpp over a library with a table of two equal rows.
use network_communications.Prelude.{
  ℕ, zero, suc, ◌-◌, ◌<◌, true, false, List, [], ◌∷◌, ◌++◌, Option, none, some, map, length,
  replicate, ◌≡◌, refl, ap, arith,
}
use network_communications.Run.{Returns}
use network_communications.MysqlConn.{Row, Mysql, create, connect, update, query, free}
use network_communications.MysqlConn.Value.{WholeRows}
use network_communications.DatabaseDemo.{ask_all, op1, query_main}
use network_communications.DatabaseDemo.Inserts.{LogLaws, inserts, op1-Inserts}
use network_communications.DatabaseDemo.Rows.{RowLaws, four_texts, rows_left, query_main-Rows}

abbrev tom : Row
tom = some (b'6' ∷ []) ∷ none ∷ some (b'm' ∷ []) ∷ []

-- The statements so far, the connections, and how many rows are left of the result set.
record Db : Type 0 where
  pub log : List (List ℕ)
  pub handles : ℕ
  pub left : ℕ

abbrev fetch : Db → ℕ → Option Row × Db
fetch w zero = (none, w)
fetch w (suc n) = (some tom, record w { left = n })

abbrev table : Mysql
table = record {
  World = Db;
  init = λ w. (some 7, record w { handles = suc w.handles });
  set_character_set = λ w c. w;
  close = λ w c. record w { handles = w.handles - 1 };
  real_connect = λ w c login. (true, w);
  query = λ w c sql. (false, record w { log = w.log ++ sql ∷ [] });
  store_result = λ w c. (some 0, record w { left = 2 });
  free_result = λ w r. record w { left = 0 };
  fetch_row = λ w r. fetch w w.left;
  num_fields = λ w r. 3;
  autocommit = λ w c on. (false, w);
  commit = λ w c. (false, w);
  rollback = λ w c. (false, w);
}

fetch_ends : (w : Db) (n : ℕ) → replicate n tom ≡ [] → (fetch w n).0 ≡ none
fetch_ends w zero e = refl
fetch_ends w (suc n) e = absurd (ground arith)

fetch_goes :
    (w : Db) (n : ℕ) (f : Row) (fs : List Row)
    → replicate n tom ≡ f ∷ fs
    → ((fetch w n).0 ≡ some f) × (replicate (fetch w n).1.left tom ≡ fs)
fetch_goes w zero f fs e = absurd (ground arith)
fetch_goes w (suc n) f fs e = (cc, cc)

abbrev table_rows : RowLaws table
table_rows = record {
  rows = λ w r. replicate w.left tom;
  fetch_end = λ w r e. fetch_ends w w.left e;
  fetch_first = λ w r f fs e. fetch_goes w w.left f fs e;
}

three_fields : (w : Db) (n : ℕ) (f : Row) → (fetch w n).0 ≡ some f → 3 ≡ length f
three_fields w zero f e = absurd (ground arith)
three_fields w (suc n) f e = let same : tom ≡ f = cc in ap length same

table_whole : WholeRows table
table_whole w r f e = three_fields w w.left f e

init_not_none : (w : Db) → (table.init w).0 ≡ none → suc w.handles ≡ w.handles
init_not_none w e = absurd (ground arith)

abbrev table_logs : LogLaws table
table_logs = record {
  log = λ w. w.log;
  handles = λ w. w.handles;
  init_log = λ w. refl;
  charset_log = λ w c. refl;
  connect_log = λ w c l. refl;
  query_log = λ w c sql. refl;
  close_log = λ w c. refl;
  init_none = init_not_none;
  init_some = λ w c e. refl;
  charset_handles = λ w c. refl;
  connect_handles = λ w c l. refl;
  query_handles = λ w c sql. refl;
  close_handles = λ w c. refl;
}

abbrev fresh : Db
fresh = record { log = []; handles = 0; left = 0 }

op1-Inserts_example :
    ((op1 table 3 5 fresh).log ≡ inserts 3 5) × ((op1 table 3 5 fresh).handles ≡ 0)
op1-Inserts_example = op1-Inserts table table_logs 3 5 fresh

asked : (ask_all table fresh).0.result ≡ some 0
unfolding ask_all create connect update query free
asked = refl

two_left :
    length (
      rows_left table table_rows table_whole (ask_all table fresh).0.result (ask_all table fresh).1)
    < 5
unfolding ask_all create connect update query free
two_left = omega arith

query_main-Rows_example :
    Returns
      (λ out.
        out.0
        ≡ map four_texts (
            rows_left table table_rows table_whole
              (ask_all table fresh).0.result
              (ask_all table fresh).1))
      (query_main table 5 fresh)
query_main-Rows_example = query_main-Rows table table_rows table_whole 5 fresh two_left
