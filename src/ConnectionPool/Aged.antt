-- ===== src/ConnectionPool/Aged.antt =====
-- The times in a queue of ConnectionPool/ConnectionPool.cpp.
use network_communications.Prelude.{
  ℕ, zero, suc, ◌-◌, ◌/◌, ◌≤◌, List, [], ◌∷◌, ◌++◌, some, ◌≡◌, subst, arith, get_elem?,
}
use network_communications.ConnectionPool.{Conn}

-- From `since` on, each connection was refreshed no earlier than the one in front of it.
abbrev pub Aged : ℕ → List Conn → ℕ → Type 0
Aged since [] now = since ≤ now
Aged since (conn ∷ rest) now = (since ≤ conn.alive_time) × Aged conn.alive_time rest now

pub Aged-later :
    (since : ℕ) (q : List Conn) (now later : ℕ)
    → now ≤ later
    → Aged since q now
    → Aged since q later
Aged-later since [] now later h a = omega (arith, a, h)
Aged-later since (conn ∷ rest) now later h (first, a) =
    (first, Aged-later conn.alive_time rest now later h a)

pub Aged-since :
    (since before : ℕ) (q : List Conn) (now : ℕ)
    → before ≤ since
    → Aged since q now
    → Aged before q now
Aged-since since before [] now h a = omega (arith, a, h)
Aged-since since before (conn ∷ rest) now h (first, a) = (omega (arith, first, h), a)

pub Aged-push :
    (since : ℕ) (q : List Conn) (now : ℕ) (conn : Conn)
    → conn.alive_time ≡ now
    → Aged since q now
    → Aged since (q ++ conn ∷ []) now
Aged-push since [] now conn e a = (omega (arith, a, e), omega (arith, e))
Aged-push since (x ∷ rest) now conn e (first, a) = (first, Aged-push x.alive_time rest now conn e a)

pub Aged-tail :
    (since : ℕ) (conn : Conn) (rest : List Conn) (now : ℕ)
    → Aged since (conn ∷ rest) now
    → Aged since rest now
Aged-tail since conn rest now (first, a) = Aged-since conn.alive_time since rest now first a

pub Aged-at :
    (since : ℕ) (q : List Conn) (now i : ℕ) (conn : Conn)
    → Aged since q now
    → get_elem? q i ≡ some conn
    → (since ≤ conn.alive_time)
Aged-at since [] now i conn a e = absurd (grind arith)
Aged-at since (x ∷ rest) now zero conn (first, a) e =
    let is : x ≡ conn = cc in subst (λ d. since ≤ d.alive_time) is first
Aged-at since (x ∷ rest) now (suc i) conn (first, a) e =
    omega (arith, first, Aged-at x.alive_time rest now i conn a e)

-- The recycler's loop leaves the order.
pub Aged-suffix :
    (since now later : ℕ) (gone kept : List Conn)
    → now ≤ later
    → Aged since (gone ++ kept) now
    → Aged since kept later
Aged-suffix since now later [] kept h a = Aged-later since kept now later h a
Aged-suffix since now later (conn ∷ gone) kept h (first, a) =
    Aged-since conn.alive_time since kept later first
      (Aged-suffix conn.alive_time now later gone kept h a)

pub older :
    (now later before since : ℕ)
    → now ≤ later
    → before ≤ since
    → (now - since) / 1000000 ≤ (later - before) / 1000000
older now later before since h k = omega arith
