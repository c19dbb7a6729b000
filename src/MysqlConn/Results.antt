-- ===== src/MysqlConn/Results.antt =====
-- The result sets that an object of ConnectionPool/MysqlConn.cpp holds.
use network_communications.Prelude.{
  ℕ, ◌==◌, Bool, true, false, not, ◌&&◌, ◌||◌, List, [], ◌∷◌, Option, none, some, ◌≡◌, inl, inr,
  refl, sym, ap, subst, ◌∙◌, eq_of_==, Bool-cases, Option-cases,
}
use network_communications.MysqlConn.Calls.{
  Call, connects, updates, queries, nexts, transacts, commits, rolls_back, ResultLaws, call, calls,
  life,
}
use network_communications.MysqlConn.{
  Mysql, MysqlConn, create, free, destroy, connect, update, query, next, transaction, commit,
  rollback,
}

freed : (a b l l' : Bool) → l ≡ a || b → (a ≡ true → b ≡ false) → l' ≡ not a && l → l' ≡ b
freed true b l l' e new f = f ∙ sym (new refl)
freed false b l l' e new f = f ∙ e

module _ (mysql : Mysql) (laws : ResultLaws mysql) (w0 : mysql.World) where
  open mysql use {World}
  open laws use {live}

  abbrev held : Option ℕ → ℕ → Bool
  held none k = false
  held (some r) k = k == r

  -- The result sets are those of before and the one that the object holds, which is new.
  pub record Holds (c : MysqlConn) (w : World) : Type 0 where
    pub all_live : (k : ℕ) → live w k ≡ held c.result k || live w0 k
    pub is_new : (k : ℕ) → held c.result k ≡ true → live w0 k ≡ false

  -- The world changes, and no result set does.
  Holds-same :
      (c : MysqlConn) (w v : World) → ((k : ℕ) → live v k ≡ live w k) → Holds c w → Holds c v
  Holds-same c w v same h = record { all_live = λ k. same k ∙ h.all_live k; is_new = h.is_new }

  free-Holds :
      (c : MysqlConn) (w : World)
      → Holds c w
      → ((free mysql c w).0.result ≡ none) × Holds (free mysql c w).0 (free mysql c w).1
  unfolding free
  free-Holds c w h = elim (Option-cases c.result) [
    | inl nothing ↦ rw (nothing, free) (nothing, h)
    | inr (r, e) ↦
        rw (e, free)
          (
            refl,
            record {
              all_live = λ k.
                  freed (k == r) (live w0 k) (live w k) (live (mysql.free_result w r) k)
                    (subst (λ o. live w k ≡ held o k || live w0 k) e (h.all_live k))
                    (subst (λ o. held o k ≡ true → live w0 k ≡ false) e (h.is_new k))
                    (laws.free_live w r k);
              is_new = λ k f. absurd (let g : false ≡ true = f in cc);
            },
          )
  ]

  -- The end of `query`, where nothing is held.
  store-Holds :
      (c : MysqlConn) (w : World)
      → c.result ≡ none
      → Holds c w
      → Holds
          (record c { result = (mysql.store_result w c.conn).0 })
          (mysql.store_result w c.conn).1
  store-Holds c w nothing h =
      let before : (k : ℕ) → live w k ≡ live w0 k =
        λ k. subst (λ o. live w k ≡ held o k || live w0 k) nothing (h.all_live k) in
      elim (Option-cases (mysql.store_result w c.conn).0) [
        | inl e ↦ record {
          all_live = λ k. rw e (laws.store_none w c.conn k e ∙ before k);
          is_new = λ k f. absurd (let g = rw e at f in cc);
        }
        | inr (r, e) ↦ record {
          all_live =
              λ k. rw e (laws.store_live w c.conn r k e ∙ ap (λ b. (k == r) || b) (before k));
          is_new = λ k f.
              let g = rw e at f in
              ap (live w0) (eq_of_== k r g) ∙ sym (before r) ∙ laws.store_new w c.conn r e;
        }
      ]

  query-Holds :
      (sql : List ℕ) (c : MysqlConn) (w : World)
      → Holds c w
      → Holds (query mysql sql c w).1 (query mysql sql c w).2
  unfolding query
  query-Holds sql c w h =
      let (nothing, h1) = free-Holds c w h in
      let asked =
        Holds-same (free mysql c w).0 (free mysql c w).1
          (mysql.query (free mysql c w).1 (free mysql c w).0.conn sql).1
          (laws.query_live (free mysql c w).1 (free mysql c w).0.conn sql) h1 in
      elim (Bool-cases (mysql.query (free mysql c w).1 (free mysql c w).0.conn sql).0) [
        | inl failed ↦ rw (failed, query) asked
        | inr ok ↦
            rw (ok, query)
              (store-Holds (free mysql c w).0
                (mysql.query (free mysql c w).1 (free mysql c w).0.conn sql).1 nothing asked)
      ]

  next-Holds : (c : MysqlConn) (w : World) → Holds c w → Holds (next mysql c w).1 (next mysql c w).2
  unfolding next
  next-Holds c w h = elim (Option-cases c.result) [
    | inl nothing ↦ rw (nothing, next) h
    | inr (r, e) ↦
        let fetched = Holds-same c w (mysql.fetch_row w r).1 (laws.fetch_live w r) h in
        elim (Option-cases (mysql.fetch_row w r).0) [
          | inl no_row ↦
              rw (e, next, no_row) (record { all_live = fetched.all_live; is_new = fetched.is_new })
          | inr (fields, got) ↦
              rw (e, next, got) (record { all_live = fetched.all_live; is_new = fetched.is_new })
        ]
  ]

  call-Holds :
      (x : Call) (c : MysqlConn) (w : World)
      → Holds c w
      → Holds (call mysql x c w).1 (call mysql x c w).2
  unfolding connect update transaction commit rollback
  call-Holds (connects login) c w h =
      Holds-same c w (mysql.real_connect w c.conn login).1 (laws.connect_live w c.conn login) h
  call-Holds (updates sql) c w h =
      Holds-same c w (mysql.query w c.conn sql).1 (laws.query_live w c.conn sql) h
  call-Holds (queries sql) c w h = query-Holds sql c w h
  call-Holds nexts c w h = next-Holds c w h
  call-Holds transacts c w h =
      Holds-same c w (mysql.autocommit w c.conn false).1 (laws.autocommit_live w c.conn false) h
  call-Holds commits c w h = Holds-same c w (mysql.commit w c.conn).1 (laws.commit_live w c.conn) h
  call-Holds rolls_back c w h =
      Holds-same c w (mysql.rollback w c.conn).1 (laws.rollback_live w c.conn) h

  calls-Holds :
      (xs : List Call) (c : MysqlConn) (w : World)
      → Holds c w
      → Holds (calls mysql xs c w).0 (calls mysql xs c w).1
  calls-Holds [] c w h = h
  calls-Holds (x ∷ xs) c w h =
      calls-Holds xs (call mysql x c w).1 (call mysql x c w).2 (call-Holds x c w h)

  create-Holds : Holds (create mysql w0).0 (create mysql w0).1
  unfolding create
  create-Holds = record {
    all_live = λ k. laws.charset_live (mysql.init w0).1 (mysql.init w0).0 k ∙ laws.init_live w0 k;
    is_new = λ k f. absurd (let g : false ≡ true = f in cc);
  }

  closed :
      (o : Option ℕ) (c : MysqlConn) (w : World)
      → Holds c w
      → Holds c (elim o [ none ↦ w | some conn ↦ mysql.close w conn ])
  closed none c w h = h
  closed (some conn) c w h = Holds-same c w (mysql.close w conn) (laws.close_live w conn) h

  released :
      (c : MysqlConn) (w : World) → Holds c w → (k : ℕ) → live (free mysql c w).1 k ≡ live w0 k
  released c w h k =
      let (nothing, h1) = free-Holds c w h in
      subst (λ o. live (free mysql c w).1 k ≡ held o k || live w0 k) nothing (h1.all_live k)

  destroy-Holds :
      (c : MysqlConn) (w : World) → Holds c w → (k : ℕ) → live (destroy mysql c w).1 k ≡ live w0 k
  unfolding destroy
  destroy-Holds c w h =
      released c (elim c.conn [ none ↦ w | some conn ↦ mysql.close w conn ]) (closed c.conn c w h)

  -- For any calls, one after the other, on a new object: then the result sets are those of before and
  -- the one that the object holds, if it holds one, which is new; and after the destructor they are
  -- those of before.
  pub life-Holds :
      (xs : List Call)
      → let (c, w) = calls mysql xs (create mysql w0).0 (create mysql w0).1 in
        Holds c w × ((k : ℕ) → live (life mysql xs w0).1 k ≡ live w0 k)
  life-Holds xs =
      let h = calls-Holds xs (create mysql w0).0 (create mysql w0).1 create-Holds in
      let (c, w) = calls mysql xs (create mysql w0).0 (create mysql w0).1 in
      (h, (λ k. destroy-Holds c w h k))
