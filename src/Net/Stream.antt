-- ===== src/Net/Stream.antt =====
-- What the code relies on of a connected stream socket: the bytes arrive whole, in order and
-- once, and a call moves at least one byte or says that it cannot.
use network_communications.Prelude.{
  ℕ, ◌≤◌, ◌<◌, ℤ, List, [], ◌∷◌, ◌++◌, Option, none, some, ◌≡◌, ◌≢◌, length, take, subst, ◌∙◌, ap,
  take-length,
}
use network_communications.Net.{Net}

-- recv(fd, buf, k, 0) with 0 < k: at most k bytes, the next of the stream. No byte at all means
-- that the peer has closed and everything has been read. After an error nothing is consumed.
abbrev pub Receives : List ℕ → ℕ → Option (List ℕ) → List ℕ → Type 0
Receives before k none after = after ≡ before
Receives before k (some []) after = (before ≡ []) × (after ≡ [])
Receives before k (some (b ∷ bs)) after = (before ≡ (b ∷ bs) ++ after) × (length (b ∷ bs) ≤ k)

-- send(fd, buf, ...) of the bytes `buf`: a prefix of them is appended to the stream.
abbrev pub Sends : List ℕ → List ℕ → Option ℕ → List ℕ → Type 0
Sends before buf none after = after ≡ before
Sends before buf (some n) after = (after ≡ before ++ take n buf) × (n ≤ length buf)

pub record Stream (net : Net) : Type 0 where
  -- the bytes that the peer has sent, or will send, up to its close, and that are not yet read
  pub inbox : net.World → ℤ → List ℕ
  -- the bytes handed over for the peer so far
  pub outbox : net.World → ℤ → List ℕ
  pub recv_law :
      (w : net.World) (fd : ℤ) (k : ℕ)
      → 0 < k
      → Receives (inbox w fd) k (net.recv w fd k).0 (inbox (net.recv w fd k).1 fd)
  pub send_law :
      (w : net.World) (fd : ℤ) (buf : List ℕ)
      → Sends (outbox w fd) buf (net.send w fd buf).0 (outbox (net.send w fd buf).1 fd)
  -- What has been handed over is still delivered after a close.
  pub close_law : (w : net.World) (fd : ℤ) → outbox (net.close w fd).1 fd ≡ outbox w fd

-- The connections never fail: `recv` with 0 < k does not return -1.
abbrev pub NoErrors : Net → Type 0
NoErrors net = (w : net.World) (fd : ℤ) (k : ℕ) → 0 < k → (net.recv w fd k).0 ≢ none

-- A blocking `send` of at least one byte does not return 0.
abbrev pub Progress : Net → Type 0
Progress net = (w : net.World) (fd : ℤ) (b : ℕ) (bs : List ℕ) → (net.send w fd (b ∷ bs)).0 ≢ some 0

-- `send` of at least one byte does not return -1.
abbrev pub NoSendErrors : Net → Type 0
NoSendErrors net =
    (w : net.World) (fd : ℤ) (b : ℕ) (bs : List ℕ) → (net.send w fd (b ∷ bs)).0 ≢ none

-- The two directions of a connection are apart, and a close of one descriptor leaves what others
-- have handed over.
pub record Duplex (net : Net) (laws : Stream net) : Type 0 where
  pub recv_outbox :
      (w : net.World) (fd : ℤ) (k : ℕ) → laws.outbox (net.recv w fd k).1 fd ≡ laws.outbox w fd
  pub send_inbox :
      (w : net.World) (fd : ℤ) (buf : List ℕ)
      → laws.inbox (net.send w fd buf).1 fd ≡ laws.inbox w fd
  pub close_outbox :
      (w : net.World) (fd other : ℤ) → laws.outbox (net.close w fd).1 other ≡ laws.outbox w other

-- A `send` of at most k bytes takes them all.
abbrev pub TakesWhole : Net → ℕ → Type 0
TakesWhole net k =
    (w : net.World) (fd : ℤ) (buf : List ℕ)
    → length buf ≤ k
    → (net.send w fd buf).0 ≡ some (length buf)

-- What a `send` that takes all of a short buffer hands over.
pub send_whole :
    (net : Net) (laws : Stream net) (k : ℕ)
    → TakesWhole net k
    → (w : net.World) (fd : ℤ) (buf : List ℕ) → length buf ≤ k
    → laws.outbox (net.send w fd buf).1 fd ≡ laws.outbox w fd ++ buf
send_whole net laws k whole w fd buf h =
    let law : Sends (laws.outbox w fd) buf (net.send w fd buf).0
        (laws.outbox (net.send w fd buf).1 fd) =
      laws.send_law w fd buf in
    let (out, n) =
      subst (λ o. Sends (laws.outbox w fd) buf o (laws.outbox (net.send w fd buf).1 fd))
        (whole w fd buf h) law in
    out ∙ ap (◌++◌ (laws.outbox w fd)) (take-length buf)
