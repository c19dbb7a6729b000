-- ===== src/Wire.antt =====
-- The four header bytes of a message: `htonl`, `ntohl`, and the `int` that they stand for in
-- SocketPackage/socket.c.
use network_communications.Prelude.{
  ℕ, ◌+◌, ◌-◌, ◌*◌, ◌/◌, ◌%◌, ◌^◌, ◌<◌, ℤ, pos, negsuc, List, [], ◌∷◌, ◌++◌, ◌≡◌, refl, arith, ltb,
  get_or, if◌then◌else◌, length,
}

-- The bytes in memory of `int biglen = htonl(len)`: most significant first, on every host.
unfoldable pub htonl_bytes : ℕ → List ℕ
htonl_bytes u = u / 2 ^ 24 % 256 ∷ u / 2 ^ 16 % 256 ∷ u / 2 ^ 8 % 256 ∷ u % 256 ∷ []

-- A message as it stands on the stream.
abbrev pub frame : List ℕ → List ℕ
frame msg = htonl_bytes (length msg) ++ msg

-- `ntohl` of the `uint32_t` that lies in memory as these bytes.
unfoldable pub ntohl_bytes : List ℕ → ℕ
ntohl_bytes m = get_or m 0 0 * 2 ^ 24 + get_or m 1 0 * 2 ^ 16 + get_or m 2 0 * 2 ^ 8 + get_or m 3 0

-- A `uint32_t` stored in an `int`.
unfoldable pub to_int : ℕ → ℤ
to_int u = if ltb u (2 ^ 31) then pos u else negsuc (2 ^ 32 - 1 - u)

pub ntohl-htonl : (u : ℕ) → u < 2 ^ 32 → ntohl_bytes (htonl_bytes u) ≡ u
unfolding htonl_bytes ntohl_bytes
ntohl-htonl u h = omega arith

pub to_int-htonl : (u : ℕ) → u < 2 ^ 31 → to_int (ntohl_bytes (htonl_bytes u)) ≡ pos u
unfolding to_int
to_int-htonl u h = ground (arith, ntohl-htonl u)

pub length-htonl : (u : ℕ) → length (htonl_bytes u) ≡ 4
unfolding htonl_bytes
length-htonl u = refl
