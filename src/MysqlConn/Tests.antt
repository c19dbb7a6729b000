-- ===== src/MysqlConn/Tests.antt =====
-- ConnectionPool/MysqlConn.cpp over a library in which each query but the empty one gives one row.
use network_communications.Prelude.{
  ℕ, suc, ℤ, pos, Bool, true, false, not, List, [], ◌∷◌, Option, none, some, ltb, ◌==◌, ◌&&◌, ◌||◌,
  subst, ap, ◌∙◌, length, ◌≡◌, ◌≢◌, refl, arith,
}
use network_communications.Run.{done, overrun}
use network_communications.MysqlConn.{Row, Mysql, MysqlConn, null, create, next, value, cell}
use network_communications.MysqlConn.Calls.{Call, queries, nexts, commits, ResultLaws, calls, life}
use network_communications.MysqlConn.Results.{Holds, life-Holds}
use network_communications.MysqlConn.Value.{text_at, value-next}

abbrev one_row : Row
one_row = some (65 ∷ 66 ∷ []) ∷ none ∷ []

-- How many result sets have been stored, and which of them have not been freed.
record Store : Type 0 where
  pub stored : ℕ
  pub there : ℕ → Bool

-- The numbers of result sets count up, and each fetch gives the same row.
abbrev library : Mysql
library = record {
  World = Store;
  init = λ w. (some 7, w);
  set_character_set = λ w c. w;
  close = λ w c. w;
  real_connect = λ w c login. (true, w);
  query = λ w c sql. (false, w);
  store_result = λ w c.
      (some w.stored, record { stored = suc w.stored; there = λ k. (k == w.stored) || w.there k });
  free_result = λ w r. record { stored = w.stored; there = λ k. not (k == r) && w.there k };
  fetch_row = λ w r. (some one_row, w);
  num_fields = λ w r. 2;
  autocommit = λ w c on. (false, w);
  commit = λ w c. (false, w);
  rollback = λ w c. (false, w);
}

stored_live : (k n : ℕ) (b : Bool) → (ltb k (suc n) && ((k == n) || b)) ≡ (k == n) || (ltb k n && b)
stored_live k n true = ground arith
stored_live k n false = ground arith

freed_live : (a b c : Bool) → (a && (b && c)) ≡ b && (a && c)
freed_live true true c = refl
freed_live true false c = refl
freed_live false true c = refl
freed_live false false c = refl

not_yet : (n : ℕ) (b : Bool) → (ltb n n && b) ≡ false
not_yet n b = ground arith

some_injective : (a b : ℕ) → ◌≡◌ {A = Option ℕ} (some a) (some b) → a ≡ b
some_injective a b e = cc

some_not_none : (a : ℕ) → ◌≢◌ {A = Option ℕ} (some a) none
some_not_none a e = cc

abbrev library_laws : ResultLaws library
library_laws = record {
  live = λ w k. ltb k w.stored && w.there k;
  init_live = λ w k. refl;
  charset_live = λ w c k. refl;
  close_live = λ w c k. refl;
  connect_live = λ w c login k. refl;
  query_live = λ w c sql k. refl;
  fetch_live = λ w r k. refl;
  autocommit_live = λ w c on k. refl;
  commit_live = λ w c k. refl;
  rollback_live = λ w c k. refl;
  store_none = λ w c k e. absurd (some_not_none w.stored e);
  store_new = λ w c r e.
      subst (λ n. (ltb n w.stored && w.there n) ≡ false) (some_injective w.stored r e)
        (not_yet w.stored (w.there w.stored));
  store_live = λ w c r k e.
      stored_live k w.stored (w.there k)
      ∙ ap (λ n. (k == n) || (ltb k w.stored && w.there k)) (some_injective w.stored r e);
  free_live = λ w r k. freed_live (ltb k w.stored) (not (k == r)) (w.there k);
}

abbrev empty_store : Store
empty_store = record { stored = 0; there = λ k. false }

abbrev two_queries : List Call
two_queries = queries [] ∷ nexts ∷ queries [] ∷ commits ∷ []

life-Holds_example :
    Holds library library_laws empty_store
      (calls library two_queries (create library empty_store).0 (create library empty_store).1).0
      (calls library two_queries (create library empty_store).0 (create library empty_store).1).1
    × ((k : ℕ)
        → (ltb k (life library two_queries empty_store).1.stored
            && (life library two_queries empty_store).1.there k)
          ≡ (ltb k 0 && false))
life-Holds_example = life-Holds library library_laws empty_store two_queries

abbrev answered : MysqlConn
answered = record { conn = some 7; result = some 0; row = null }

value-next_example :
    (r : ℕ) × (fields : Row) × (◌≡◌ {A = Option Row} (some one_row) (some fields))
    × ((index : ℤ)
        → value library index
            (next library answered empty_store).1
            (next library answered empty_store).2
          ≡ done (text_at fields index))
unfolding next
value-next_example =
    value-next library answered empty_store (λ w r fields e. same_length fields e) refl
  where
    same_length :
        (fields : Row) → ◌≡◌ {A = Option Row} (some one_row) (some fields) → 2 ≡ length fields
    same_length fields e = let same : one_row ≡ fields = cc in ap length same

-- Before a `next`, `value` of a column that there is reads through NULL.
value_too_early : value library (pos 0) answered empty_store ≡ overrun
unfolding value cell
value_too_early = refl
