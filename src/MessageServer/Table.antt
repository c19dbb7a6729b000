-- ===== src/MessageServer/Table.antt =====
-- The table `infos` of SocketPackage/server.c: an entry is taken for each client and never given back.
use network_communications.Prelude.{
  ℕ, zero, suc, ◌+◌, ◌≤◌, ◌<◌, ℤ, is_minus_one, false, [], ◌∷◌, none, some, ◌≡◌, inl, inr, refl,
  arith, set, sum_by, if◌then◌else◌, ℕ_discrete, Option-cases, ◌∙◌,
}
use network_communications.Run.{overrun, Returns, Returns->>=, Returns-map, Returns-done, >>=-done}
use network_communications.Net.{Net}
use network_communications.Socket.{accept_conn}
use network_communications.MessageServer.{
  Infos, Served, find_free, serve_round, serve, no_infos, max_infos,
}

abbrev pub free : ℤ → ℕ
free fd = if is_minus_one fd then 1 else 0

-- How many entries of the table are free.
unfoldable pub free_infos : Infos → ℕ
free_infos = sum_by free

-- `accept` does not return -1.
abbrev pub AlwaysAccepts : Net → Type 0
AlwaysAccepts net = (w : net.World) (fd : ℤ) → is_minus_one (net.accept w fd).0 ≡ false

-- No entry is found exactly where none is free, and one that is found is taken by a store.
find_free-none : (infos : Infos) → find_free infos ≡ none → free_infos infos ≡ 0
unfolding find_free free_infos sum_by
find_free-none [] e = refl
find_free-none (fd ∷ infos) e = ground (arith, find_free-none infos)

find_free-some :
    (infos : Infos) (i : ℕ) (cfd : ℤ)
    → find_free infos ≡ some i
    → is_minus_one cfd ≡ false
    → free_infos (set infos i cfd) + 1 ≡ free_infos infos
unfolding find_free free_infos sum_by
find_free-some [] i cfd e h = ground arith
find_free-some (fd ∷ infos) zero cfd e h = ground arith
find_free-some (fd ∷ infos) (suc i) cfd e h = ground (arith, find_free-some infos i cfd)

free_none : (infos : Infos) → free_infos infos ≡ 0 → find_free infos ≡ none
unfolding find_free free_infos sum_by
free_none [] h = refl
free_none (fd ∷ infos) h = ground (arith, free_none infos)

module _ (net : Net) where
  open net use {World}

  accepted :
      AlwaysAccepts net
      → (w : World) (fd : ℤ) → is_minus_one (accept_conn net w fd (some 0)).0.ret ≡ false
  unfolding accept_conn
  accepted go w fd = ground (arith, go w fd)

  round-free :
      AlwaysAccepts net
      → (s : Served World) (fd : ℤ) → 0 < free_infos s.infos
      → Returns (λ t. free_infos t.infos + 1 ≡ free_infos s.infos) (serve_round net s fd)
  unfolding serve_round accept_conn
  round-free go s fd h = elim (Option-cases (find_free s.infos)) [
    | inl e ↦ absurd (omega (arith, find_free-none s.infos e))
    | inr (i, e) ↦ rw (e, serve_round) (find_free-some s.infos i _ e (accepted go s.world fd))
  ]

  round-full : (s : Served World) (fd : ℤ) → free_infos s.infos ≡ 0 → serve_round net s fd ≡ overrun
  unfolding serve_round
  round-full s fd h = rw (free_none s.infos h, serve_round)

  -- Where every `accept` succeeds, each round takes an entry of the table: `n` rounds return where `n`
  -- entries are free at the start, and leave `n` fewer.
  pub serve-free :
      AlwaysAccepts net
      → (n : ℕ) (s : Served World) (fd : ℤ) → n ≤ free_infos s.infos
      → Returns (λ t. free_infos t.infos + n ≡ free_infos s.infos) (serve net n s fd)
  unfolding serve
  serve-free go zero s fd h = omega arith
  serve-free go (suc n) s fd h =
      Returns->>= _ _ (serve_round net s fd) _ (round-free go s fd (omega arith)) λ t d.
        Returns-map (serve net n t fd) (λ u e. omega (arith, e, d))
          (serve-free go n t fd (omega (arith, d)))

  serve-full :
      AlwaysAccepts net
      → (n : ℕ) (s : Served World) (fd : ℤ) → free_infos s.infos < n
      → serve net n s fd ≡ overrun
  unfolding serve
  serve-full go zero s fd h = absurd (omega arith)
  serve-full go (suc n) s fd h = elim (ℕ_discrete (free_infos s.infos) 0) [
    | yes full ↦ rw (round-full s fd full)
    | no some_free ↦
        let (t, e, d) = Returns-done _ (serve_round net s fd) (round-free go s fd (omega arith)) in
        >>=-done (serve_round net s fd) _ t e ∙ serve-full go n t fd (omega (arith, d))
  ]

  -- Where every `accept` succeeds, the server is lost with its 251st client, whether earlier clients
  -- have left or not: with a new table, a run of more rounds uses a pointer that was never set.
  pub serve_overrun :
      AlwaysAccepts net
      → (w : World) (fd : ℤ) (n : ℕ) → max_infos < n
      → serve net n (record { infos = no_infos; world = w }) fd ≡ overrun
  unfolding free_infos sum_by
  serve_overrun go w fd n h = serve-full go n (record { infos = no_infos; world = w }) fd h
