-- ===== src/MysqlConn.antt =====
-- ConnectionPool/MysqlConn.cpp: the class around a connection of the MySQL client library. The
-- library is a parameter; `true` stands for a result that is not 0. The times of a connection are
-- in ConnectionPool.
pub mod Calls
pub mod Results
pub mod Value
mod Tests
use network_communications.Prelude.{
  ℕ, zero, suc, ℤ, pos, negsuc, Bool, true, false, not, List, [], ◌∷◌, Option, none, some,
  get_elem?, ltb, if◌then◌else◌,
}
use network_communications.Run.{Run, done, overrun}

-- The fields of a row, none where the field is NULL.
abbrev pub Row : Type 0
Row = List (Option (List ℕ))

-- What `mysql_real_connect` is told.
pub record Login : Type 0 where
  pub user : List ℕ
  pub passwd : List ℕ
  pub db_name : List ℕ
  pub ip : List ℕ
  pub port : ℕ

-- A `MYSQL*` or `MYSQL_RES*` is a number, none where it is NULL.
pub record Mysql : Type 1 where
  pub World : Type 0
  pub init : World → Option ℕ × World
  pub set_character_set : World → Option ℕ → World
  pub close : World → ℕ → World
  -- whether the result is not NULL
  pub real_connect : World → Option ℕ → Login → Bool × World
  pub query : World → Option ℕ → List ℕ → Bool × World
  pub store_result : World → Option ℕ → Option ℕ × World
  pub free_result : World → ℕ → World
  pub fetch_row : World → ℕ → Option Row × World
  pub num_fields : World → ℕ → ℕ
  pub autocommit : World → Option ℕ → Bool → Bool × World
  pub commit : World → Option ℕ → Bool × World
  pub rollback : World → Option ℕ → Bool × World

-- `m_row`: NULL, a row of the result at hand, or a row of one that has been freed.
pub data RowPointer : Type 0 where
  null : RowPointer
  row : Row → RowPointer
  stale : RowPointer

pub record MysqlConn : Type 0 where
  pub conn : Option ℕ
  pub result : Option ℕ
  pub row : RowPointer

-- What becomes of a row when its result is freed.
abbrev pub outdate : RowPointer → RowPointer
outdate null = null
outdate (row r) = stale
outdate stale = stale

-- `m_row[index]` as a string; a field that is NULL has the length 0.
unfoldable pub cell : RowPointer → ℕ → Run (List ℕ)
cell null i = overrun
cell stale i = overrun
cell (row fields) i = elim (get_elem? fields i) [
  | none ↦ overrun
  | some none ↦ done []
  | some (some text) ↦ done text
]

module _ (mysql : Mysql) where
  open mysql use {
    World, init, set_character_set, close, real_connect, store_result, free_result, fetch_row,
    num_fields, autocommit,
  }

  -- `MysqlConn::MysqlConn`
  unfoldable pub create : World → MysqlConn × World
  create w =
      let (conn, w1) = init w in
      (record { conn = conn; result = none; row = null }, set_character_set w1 conn)

  -- `freeResult`
  unfoldable pub free : MysqlConn → World → MysqlConn × World
  free c w = elim c.result [
    | none ↦ (c, w)
    | some r ↦ (record c { result = none; row = outdate c.row }, free_result w r)
  ]

  -- `MysqlConn::~MysqlConn`
  unfoldable pub destroy : MysqlConn → World → MysqlConn × World
  unfolding free
  destroy c w = free c (elim c.conn [ none ↦ w | some conn ↦ close w conn ])

  unfoldable pub connect : Login → MysqlConn → World → Bool × MysqlConn × World
  connect login c w = let (connected, w1) = real_connect w c.conn login in (connected, c, w1)

  unfoldable pub update : List ℕ → MysqlConn → World → Bool × MysqlConn × World
  update sql c w = let (failed, w1) = mysql.query w c.conn sql in (not failed, c, w1)

  unfoldable pub query : List ℕ → MysqlConn → World → Bool × MysqlConn × World
  unfolding free
  query sql c w =
      let (c1, w1) = free c w in
      let (failed, w2) = mysql.query w1 c1.conn sql in
      if failed
      then (false, c1, w2)
      else (let (result, w3) = store_result w2 c1.conn in (true, record c1 { result = result }, w3))

  unfoldable pub next : MysqlConn → World → Bool × MysqlConn × World
  next c w = elim c.result [
    | none ↦ (false, c, w)
    | some r ↦
        let got = fetch_row w r in
        elim got.0 [
          | none ↦ (false, record c { row = null }, got.1)
          | some fields ↦ (true, record c { row = row fields }, got.1)
        ]
  ]

  unfoldable pub value : ℤ → MysqlConn → World → Run (List ℕ)
  unfolding cell
  value index c w = elim c.result [
    | none ↦ overrun
    | some r ↦ elim index [
      | negsuc n ↦ done []
      | pos i ↦ if ltb i (num_fields w r) then cell c.row i else done []
    ]
  ]

  unfoldable pub transaction : MysqlConn → World → Bool × MysqlConn × World
  transaction c w = let (failed, w1) = autocommit w c.conn false in (failed, c, w1)

  unfoldable pub commit : MysqlConn → World → Bool × MysqlConn × World
  commit c w = let (failed, w1) = mysql.commit w c.conn in (failed, c, w1)

  unfoldable pub rollback : MysqlConn → World → Bool × MysqlConn × World
  rollback c w = let (failed, w1) = mysql.rollback w c.conn in (failed, c, w1)
