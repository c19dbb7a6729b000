-- ===== src/DatabaseDemo/Rows.antt =====
-- What `query` of ConnectionPool/main.cpp prints.
use network_communications.Prelude.{
  ℕ, zero, suc, ◌<◌, pos, true, false, List, [], ◌∷◌, Option, none, some, map, length, ◌≡◌, refl,
  ap, subst, inl, inr, arith, Option-cases,
}
use network_communications.Run.{Returns, Returns->>=, done}
use network_communications.MysqlConn.{Row, Mysql, MysqlConn, next, row}
use network_communications.MysqlConn.Value.{WholeRows, text_at, value-row}
use network_communications.DatabaseDemo.{four_values, show_rows, ask_all, query_main}

-- What `query` relies on: a result set holds rows, and each fetch takes the first.
pub record RowLaws (mysql : Mysql) : Type 0 where
  pub rows : mysql.World → ℕ → List Row
  pub fetch_end : (w : mysql.World) (r : ℕ) → rows w r ≡ [] → (mysql.fetch_row w r).0 ≡ none
  pub fetch_first :
      (w : mysql.World) (r : ℕ) (f : Row) (fs : List Row)
      → rows w r ≡ f ∷ fs
      → ((mysql.fetch_row w r).0 ≡ some f) × (rows (mysql.fetch_row w r).1 r ≡ fs)

-- The first four fields of a row.
abbrev pub four_texts : Row → List (List ℕ)
four_texts f = text_at f (pos 0) ∷ text_at f (pos 1) ∷ text_at f (pos 2) ∷ text_at f (pos 3) ∷ []

module _ (mysql : Mysql) (laws : RowLaws mysql) (whole : WholeRows mysql) where
  open mysql use {World, fetch_row}
  open laws use {rows}

  -- The rows of the result set that the object holds, if it holds one.
  abbrev pub rows_left : Option ℕ → World → List Row
  rows_left none w = []
  rows_left (some r) w = rows w r

  show_end :
      (fuel : ℕ) (c : MysqlConn) (w : World)
      → (next mysql c w).0 ≡ false
      → Returns (λ out. out.0 ≡ []) (show_rows mysql (suc fuel) c w)
  unfolding show_rows
  show_end fuel c w e = rw (e, show_rows) refl

  next_end : (c : MysqlConn) (w : World) → rows_left c.result w ≡ [] → (next mysql c w).0 ≡ false
  unfolding next
  next_end c w e = elim (Option-cases c.result) [
    | inl nothing ↦ rw (nothing, next) refl
    | inr (r, f) ↦
        let no_row = laws.fetch_end w r (subst (λ o. rows_left o w ≡ []) f e) in
        rw (f, next, no_row) refl
  ]

  next_first :
      (c : MysqlConn) (w : World) (f : Row) (fs : List Row)
      → rows_left c.result w ≡ f ∷ fs
      → ((next mysql c w).0 ≡ true)
        × (four_values mysql (next mysql c w).1 (next mysql c w).2 ≡ done (four_texts f))
        × (rows_left (next mysql c w).1.result (next mysql c w).2 ≡ fs)
  unfolding next four_values
  next_first c w f fs e = elim (Option-cases c.result) [
    | inl nothing ↦ absurd (let g : [] ≡ f ∷ fs = rw nothing at e in cc)
    | inr (r, is) ↦
        let (got, left) = laws.fetch_first w r f fs (subst (λ o. rows_left o w ≡ f ∷ fs) is e) in
        let texts = value-row mysql (record c { row = row f }) (fetch_row w r).1 r f in
        let count = whole w r f got in
        rw (is, next, got)
          (
            refl,
            rw
                (
                  four_values,
                  texts (pos 0) is refl count,
                  texts (pos 1) is refl count,
                  texts (pos 2) is refl count,
                  texts (pos 3) is refl count,
                )
                refl,
            rw is left,
          )
  ]

  show_rows-all :
      (fuel : ℕ) (c : MysqlConn) (w : World) (left : List Row)
      → rows_left c.result w ≡ left
      → length left < fuel
      → Returns (λ out. out.0 ≡ map four_texts left) (show_rows mysql fuel c w)
  unfolding show_rows
  show_rows-all zero c w left e h = absurd (omega arith)
  show_rows-all (suc fuel) c w [] e h = show_end fuel c w (next_end c w e)
  show_rows-all (suc fuel) c w (f ∷ fs) e h =
      let (more, line, rest) = next_first c w f fs e in
      rw (more, show_rows)
        (rw (line, show_rows)
          (Returns->>= (λ out. out.0 ≡ map four_texts fs) _
            (show_rows mysql fuel (next mysql c w).1 (next mysql c w).2) _
            (show_rows-all fuel (next mysql c w).1 (next mysql c w).2 fs rest (omega arith))
            λ out e'. ap (◌∷◌ (four_texts f)) e'))

  -- Where rows have as many fields as their result sets, each fetch takes the first row that is left,
  -- and there are fewer rows than rounds: `query` returns, and has printed the first four fields of
  -- each row of the result set that it got, in order, with the empty text for NULL and for a field
  -- that there is not; and nothing where it got none.
  pub query_main-Rows :
      (fuel : ℕ) (w : World)
      → length (rows_left (ask_all mysql w).0.result (ask_all mysql w).1) < fuel
      → Returns
          (λ out. out.0 ≡ map four_texts (rows_left (ask_all mysql w).0.result (ask_all mysql w).1))
          (query_main mysql fuel w)
  unfolding query_main
  query_main-Rows fuel w h =
      let (c, v) = ask_all mysql w in
      Returns->>= (λ out. out.0 ≡ map four_texts (rows_left c.result v)) _
        (show_rows mysql fuel c v) _ (show_rows-all fuel c v (rows_left c.result v) refl h)
        λ out e. e
