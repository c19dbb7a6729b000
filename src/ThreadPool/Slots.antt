-- ===== src/ThreadPool/Slots.antt =====
-- The slots `threadIDs` of Thread/ThreadPool/threadPool.c: how `threadExit` frees one and how the
-- manager fills some.
use network_communications.Prelude.{
  ℕ, suc, ◌+◌, ◌-◌, ◌<◌, min, true, false, ◌&&◌, List, [], ◌∷◌, ◌≡◌, ◌≢◌, inl, inr, refl, ap, arith,
  length, sum_by, ltb, ◌==◌, if◌then◌else◌, Bool-cases,
}
use network_communications.ThreadPool.{Pool, number, clear_id, grow_ids, grow}

-- How many slots are in use, how many are free, and how many hold the identifier `t`.
abbrev pub used : ℕ → ℕ
used x = if x == 0 then 0 else 1

abbrev pub free : ℕ → ℕ
free x = if x == 0 then 1 else 0

abbrev pub is_id : ℕ → ℕ → ℕ
is_id t x = if x == t then 1 else 0

-- `threadExit` of a thread whose identifier stands in a slot frees exactly one slot, one of its own.
pub record Clears (tid : ℕ) (ids ids' : List ℕ) : Type 0 where
  pub same_length : length ids' ≡ length ids
  pub one_less : sum_by used ids' + 1 ≡ sum_by used ids
  pub own : sum_by (is_id tid) ids' + 1 ≡ sum_by (is_id tid) ids
  pub others : (t : ℕ) → t ≢ 0 → t ≢ tid → sum_by (is_id t) ids' ≡ sum_by (is_id t) ids

pub clear_id-Clears :
    (tid : ℕ) (ids : List ℕ)
    → tid ≢ 0
    → 0 < sum_by (is_id tid) ids
    → Clears tid ids (clear_id ids tid)
unfolding clear_id sum_by
clear_id-Clears tid [] ne h = absurd (omega arith)
clear_id-Clears tid (x ∷ ids) ne h = elim (Bool-cases (x == tid)) [
  | inl hit ↦ rw hit (record {
    same_length = refl;
    one_less = ground arith;
    own = ground arith;
    others = λ t nz other. ground arith;
  })
  | inr miss ↦
      let rest : Clears tid ids (clear_id ids tid) = clear_id-Clears tid ids ne (ground arith) in
      rw miss (record {
        same_length = ap suc rest.same_length;
        one_less = omega (arith, rest.one_less);
        own = omega (arith, rest.own);
        others = λ t nz other. omega (arith, rest.others t nz other);
      })
]

-- The manager's loop, entered with `counter` threads created and `live` alive.
pub record Grows (max counter live : ℕ) (ids ids' new : List ℕ) : Type 0 where
  pub same_length : length ids' ≡ length ids
  pub filled : sum_by used ids' ≡ sum_by used ids + length new
  pub owners : (t : ℕ) → t ≢ 0 → sum_by (is_id t) ids' ≡ sum_by (is_id t) ids + sum_by (is_id t) new
  pub as_many : length new ≡ min (number - counter) (min (max - live) (sum_by free ids))
  pub no_zero : sum_by free new ≡ 0

Grows-hole :
    (max counter live f x : ℕ) (ids ids' new : List ℕ)
    → f ≢ 0
    → (ltb counter number && ltb live max) ≡ true
    → (x == 0) ≡ true
    → Grows max (counter + 1) (live + 1) ids ids' new
    → Grows max counter live (x ∷ ids) (f ∷ ids') (f ∷ new)
unfolding sum_by
Grows-hole max counter live f x ids ids' new nz more hole r = record {
  same_length = ap suc r.same_length;
  filled = ground (arith, r.filled);
  owners = λ t h. ground (arith, r.owners t h);
  as_many = ground (arith, r.as_many);
  no_zero = ground (arith, r.no_zero);
}

Grows-taken :
    (max counter live x : ℕ) (ids ids' new : List ℕ)
    → (ltb counter number && ltb live max) ≡ true
    → (x == 0) ≡ false
    → Grows max counter live ids ids' new
    → Grows max counter live (x ∷ ids) (x ∷ ids') new
unfolding sum_by
Grows-taken max counter live x ids ids' new more taken r = record {
  same_length = ap suc r.same_length;
  filled = omega (arith, r.filled);
  owners = λ t h. omega (arith, r.owners t h);
  as_many = ground (arith, r.as_many);
  no_zero = r.no_zero;
}

pub grow_ids-Grows :
    (max counter live : ℕ) (fresh : ℕ → ℕ) (ids : List ℕ)
    → ((i : ℕ) → fresh i ≢ 0)
    → let (ids', new) = grow_ids max counter live fresh ids in Grows max counter live ids ids' new
unfolding grow_ids sum_by
grow_ids-Grows max counter live fresh [] nz = record {
  same_length = refl;
  filled = refl;
  owners = λ t h. refl;
  as_many = omega arith;
  no_zero = refl;
}
grow_ids-Grows max counter live fresh (x ∷ ids) nz =
    elim (Bool-cases (ltb counter number && ltb live max)) [
      | inl more ↦ elim (Bool-cases (x == 0)) [
        | inl hole ↦
            rw (more, hole)
              (Grows-hole max counter live (fresh 0) x ids _ _ (nz 0) more hole (
                grow_ids-Grows max (counter + 1) (live + 1) (λ i. fresh (suc i)) ids
                  (λ i. nz (suc i))))
        | inr taken ↦
            rw (more, taken)
              (Grows-taken max counter live x ids _ _ more taken
                (grow_ids-Grows max counter live fresh ids nz))
      ]
      | inr enough ↦ rw enough (record {
        same_length = refl;
        filled = omega arith;
        owners = λ t h. omega arith;
        as_many = ground arith;
        no_zero = refl;
      })
    ]

-- The manager fills as many free slots as `NUMBER`, `maxNum` and the slots allow, with identifiers
-- that are not 0 where `pthread_create` gives no other, and counts the new threads in `liveNum`.
pub grow-Grows :
    (p : Pool) (fresh : ℕ → ℕ)
    → ((i : ℕ) → fresh i ≢ 0)
    → let (p', new) = grow p fresh in
      Grows p.max_num 0 p.live_num p.thread_ids p'.thread_ids new
      × (p'.live_num ≡ p.live_num + length new)
unfolding grow
grow-Grows p fresh nz = (grow_ids-Grows p.max_num 0 p.live_num fresh p.thread_ids nz, refl)
