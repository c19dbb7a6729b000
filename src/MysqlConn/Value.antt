-- ===== src/MysqlConn/Value.antt =====
-- What `value` of ConnectionPool/MysqlConn.cpp gives.
use network_communications.Prelude.{
  ℕ, zero, suc, ℤ, pos, negsuc, true, false, List, [], ◌∷◌, none, some, get_elem?, length, ltb,
  if◌then◌else◌, ◌≡◌, inl, inr, refl, arith, Option-cases,
}
use network_communications.Run.{done}
use network_communications.MysqlConn.{Row, Mysql, MysqlConn, row, cell, next, value}

-- The text of a field, empty where it is NULL or there is none.
abbrev pub text_at : Row → ℤ → List ℕ
text_at fields (negsuc n) = []
text_at fields (pos i) = elim (get_elem? fields i) [
  | none ↦ []
  | some none ↦ []
  | some (some text) ↦ text
]

-- What the code relies on: a row has as many fields as its result set.
abbrev pub WholeRows : Mysql → Type 0
WholeRows mysql =
    (w : mysql.World) (r : ℕ) (fields : Row)
    → (mysql.fetch_row w r).0 ≡ some fields
    → mysql.num_fields (mysql.fetch_row w r).1 r ≡ length fields

cell-text :
    (fields : Row) (i : ℕ)
    → (if ltb i (length fields) then cell (row fields) i else done [])
      ≡ done (text_at fields (pos i))
unfolding cell
cell-text [] i = ground arith
cell-text (none ∷ fields) zero = ground arith
cell-text (some text ∷ fields) zero = ground arith
cell-text (x ∷ fields) (suc i) = ground (arith, cell-text fields i)

module _ (mysql : Mysql) where
  open mysql use {World}

  pub value-row :
      (c : MysqlConn) (w : World) (r : ℕ) (fields : Row) (index : ℤ)
      → c.result ≡ some r
      → c.row ≡ row fields
      → mysql.num_fields w r ≡ length fields
      → value mysql index c w ≡ done (text_at fields index)
  unfolding value
  value-row c w r fields (negsuc n) e f count = rw e refl
  value-row c w r fields (pos i) e f count = rw (e, value, f, count) (cell-text fields i)

  -- Where rows have as many fields as their result sets, and `next` has returned true: it has fetched a
  -- row, and for every index `value` gives the field's text, and the empty string where there is no
  -- such field or it is NULL.
  pub value-next :
      (c : MysqlConn) (w : World)
      → WholeRows mysql
      → (next mysql c w).0 ≡ true
      → (r : ℕ) × (fields : Row) × ((mysql.fetch_row w r).0 ≡ some fields)
        × ((index : ℤ)
            → value mysql index (next mysql c w).1 (next mysql c w).2 ≡ done (text_at fields index))
  unfolding next value
  value-next c w whole h = elim (Option-cases c.result) [
    | inl nothing ↦ absurd (let f : false ≡ true = rw (nothing, next) at h in cc)
    | inr (r, e) ↦ elim (Option-cases (mysql.fetch_row w r).0) [
      | inl no_row ↦ absurd (let f : false ≡ true = rw (e, next, no_row) at h in cc)
      | inr (fields, got) ↦ (
        r,
        fields,
        got,
        (λ index.
            rw (e, next, got)
              (value-row (record c { row = row fields }) (mysql.fetch_row w r).1 r fields index e
                refl (whole w r fields got))),
      )
    ]
  ]
